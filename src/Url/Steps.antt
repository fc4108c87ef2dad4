-- ===== src/Url/Steps.antt =====
-- The steps of SetHttpUrl on the parts of a URL whose host needs no escapes.
use apt_cacher_ng.Base.{
  All-imp, ℕ, zero, suc, ◌^◌, ◌<◌, ◌≡◌, refl, sym, ap, ◌∙◌, Bool, true, false, ◌||◌, some, [], ◌∷◌,
  ◌++◌, arith, Bytes, All, All-append, codes, ◌==◌, append-nil, length, null, take-append,
  drop-append,
}
use apt_cacher_ng.Text.Decimal.{is_digit, print_ℕ, print_ℕ-All}
use apt_cacher_ng.Escape.{is_alnum, url_unescape, url_unescape_append}
use apt_cacher_ng.Escape.RoundTrip.{unescape_plain_text}
use apt_cacher_ng.Url.Searches.{
  Without, rfind-Without, rfind-append, find-Without, find-append, first_is-Without,
  last_is-Without, drop_behind,
}
use apt_cacher_ng.Url.Port.{port_fmt-print_ℕ, read_port-print_ℕ}
use apt_cacher_ng.Url.{
  HttpUrl, accepted, Start, first_is, drop_slashes, host_and_path, strip_credentials, port_pos,
  split_port, strip_ipv6_junk, with_port, from_host, port_part,
}

-- Hosts of letters, digits, dots and dashes.
abbrev pub is_host_byte : ℕ → Bool
is_host_byte c = is_alnum c || c == b'-' || c == b'.'

abbrev pub IsHost : Bytes → Type 0
IsHost = All (λ c. is_host_byte c ≡ true)

pub byte_ne : (c d : ℕ) → is_host_byte c ≡ true → is_host_byte d ≡ false → (c == d) ≡ false
byte_ne c d h k = ground arith

pub host-Without : (d : ℕ) (s : Bytes) → is_host_byte d ≡ false → IsHost s → Without d s
host-Without d s k = All-imp s (λ c h. byte_ne c d h k)

pub digits-Without : (n : ℕ) → Without b':' (print_ℕ n)
digits-Without n = All-imp (print_ℕ n) (λ c h. ground arith) (print_ℕ-All n)

-- The parts of SetHttpUrl on the text of a URL.
pub drop_slashes_front : (c : ℕ) (s : Bytes) → (c == b'/') ≡ false → drop_slashes (c ∷ s) ≡ c ∷ s
unfolding drop_slashes
drop_slashes_front c s h = rw h

pub drop_slashes_path :
    (p : Bytes) → first_is (λ c. c == b'/') p ≡ false → drop_slashes (b'/' ∷ p) ≡ p
unfolding drop_slashes
drop_slashes_path [] h = refl
drop_slashes_path (c ∷ p) h = rw h

pub host_and_path_split :
    (authority p : Bytes)
    → Without b'/' authority
    → first_is (λ c. c == b'/') p ≡ false
    → host_and_path (authority ++ b'/' ∷ p) ≡ (authority, b'/' ∷ p)
unfolding host_and_path
host_and_path_split a p h k = rw (
  find-append b'/' a p h,
  host_and_path,
  take-append (length a) a (b'/' ∷ p) refl,
  drop-append (length a) a (b'/' ∷ p) refl,
  drop_slashes_path p k,
)

pub strip_credentials-Without : (s : Bytes) → Without b'@' s → strip_credentials s ≡ ([], s)
unfolding strip_credentials
strip_credentials-Without s h = rw (rfind-Without b'@' s h, strip_credentials)

pub split_port_named :
    (host : Bytes) (n : ℕ)
    → n < 2 ^ 15
    → split_port false false (host ++ b':' ∷ print_ℕ n) ≡ some (host, n)
unfolding split_port port_pos
split_port_named host n h = rw (
  rfind-append b':' host (print_ℕ n) (digits-Without n),
  split_port,
  drop_behind b':' host (print_ℕ n),
  read_port-print_ℕ n h,
  take-append (length host) host (b':' ∷ print_ℕ n) refl,
)

pub split_port_unnamed :
    (host : Bytes) → Without b':' host → split_port false false host ≡ some (host, 0)
unfolding split_port port_pos
split_port_unnamed host h = rw (rfind-Without b':' host h, split_port)

pub unescape_host : (s : Bytes) → Without b'%' s → url_unescape s ≡ s
unfolding url_unescape
unescape_host s h =
    ap (λ t. (url_unescape_append t []).1) (sym (append-nil s))
    ∙ ap (λ (r : Bool × Bytes). r.1) (unescape_plain_text s [] [] h)
    ∙ unfold url_unescape_append in refl

pub strip-host :
    (u : HttpUrl) → null u.host ≡ false → IsHost u.host → strip_ipv6_junk false u ≡ accepted u
unfolding strip_ipv6_junk
strip-host u some_host h = rw (
  first_is-Without b'[' u.host (host-Without b'[' u.host refl h),
  last_is-Without b']' u.host (host-Without b']' u.host refl h),
  unescape_host u.host (host-Without b'%' u.host refl h),
  find-Without b':' (codes "::") u.host (host-Without b':' u.host refl h),
  some_host,
)

pub from_host_parts :
    (s : Start) (rest : Bytes) {a path user host : Bytes}
    → host_and_path rest ≡ (a, path)
    → strip_credentials a ≡ (user, host)
    → (null rest || first_is (λ c. c == b'_') rest) ≡ false
    → from_host s rest ≡ with_port s path user (split_port s.no_port s.check_brac host)
unfolding from_host
from_host_parts s rest e e' good = rw (e, e', good)

abbrev pub url_of : Bool → Bytes → ℕ → Bytes → HttpUrl
url_of ssl host port p = record {
  host = host;
  path = b'/' ∷ p;
  user_pass = [];
  port = port;
  ssl = ssl;
}

abbrev pub authority : Bytes → ℕ → Bytes
authority host n = host ++ port_part n

pub split_port-authority :
    (host : Bytes) (n : ℕ)
    → n < 2 ^ 15
    → IsHost host
    → split_port false false (authority host n) ≡ some (host, n)
unfolding port_part
split_port-authority host zero h k =
    ap (split_port false false) (append-nil host)
    ∙ split_port_unnamed host (host-Without b':' host refl k)
split_port-authority host (suc n) h k =
    rw (port_fmt-print_ℕ (suc n) h) (split_port_named host (suc n) h)

pub digit-IsHost : (c : ℕ) → is_digit c ≡ true → is_host_byte c ≡ true
digit-IsHost c h = ground arith

pub port_part-Without :
    (d n : ℕ) → n < 2 ^ 15 → is_host_byte d ≡ false → (b':' == d) ≡ false → Without d (port_part n)
unfolding port_part
port_part-Without d zero h out colon = tt
port_part-Without d (suc n) h out colon = (
  colon,
  rw (port_fmt-print_ℕ (suc n) h)
      (All-imp (print_ℕ (suc n)) (λ c k. byte_ne c d (digit-IsHost c k) out) (print_ℕ-All (suc n))),
)

pub authority-Without :
    (d : ℕ) (host : Bytes) (n : ℕ)
    → n < 2 ^ 15
    → IsHost host
    → is_host_byte d ≡ false
    → (b':' == d) ≡ false
    → Without d (authority host n)
authority-Without d host n h k out colon =
    All-append (λ x. (x == d) ≡ false) host (port_part n) (host-Without d host out k)
      (port_part-Without d n h out colon)
