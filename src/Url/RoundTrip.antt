-- ===== src/Url/RoundTrip.antt =====
-- SetHttpUrl reads back what ToURI writes.
use apt_cacher_ng.Base.{
  All-imp, ℕ, ◌+◌, ◌^◌, ◌<◌, ◌≡◌, refl, sym, ap, ◌∙◌, Bool, true, false, some, none, [], ◌∷◌, ◌++◌,
  arith, Bytes, AreBytes, if◌then◌else◌, ◌==◌, leb, append_assoc, append-nil, mem_byte, take,
  Bool-cases, inl, inr, null, Option,
}
use apt_cacher_ng.Text.{space_chars, trim_front, trim_back, trim_back_string, find_last_not_of}
use apt_cacher_ng.Text.Trimmed.{EndsClean, trim_back-EndsClean, trim_front_good}
use apt_cacher_ng.Escape.{is_safe_url_char, url_unescape, url_unescape_append, url_escape_append}
use apt_cacher_ng.Escape.RoundTrip.{
  esc, url_escape_append-esc, safe-ne-percent, unescape_plain_text, unescape-esc,
}
use apt_cacher_ng.Url.Searches.{Without}
use apt_cacher_ng.Url.{
  accepted, Start, start, first_is, url_start, starts_no_case, drop_slashes, with_port, from_host,
  set_http_url, proto_prefix, port_part, to_uri,
}
use apt_cacher_ng.Url.Steps.{
  is_host_byte, IsHost, byte_ne, drop_slashes_front, host_and_path_split, strip_credentials-Without,
  strip-host, from_host_parts, url_of, authority, split_port-authority, port_part-Without,
  authority-Without,
}

kept :
    (s : Bytes) (o : Option ℕ)
    → elim o as (λ x. Bytes) [ none ↦ [] | some p ↦ take (p + 1) s ] ≡ s
    → elim o as (λ x. Bytes) [ none ↦ [] | some p ↦ if leb 1 p then take (p + 1) s else s ] ≡ s
kept s none h = h
kept s (some p) h = elim (Bool-cases (leb 1 p)) [ inl e ↦ rw e h | inr e ↦ rw e ]

trim_back_string_clean : (s : Bytes) → EndsClean space_chars s → trim_back_string space_chars s ≡ s
unfolding trim_back_string trim_back
trim_back_string_clean s h =
    kept s (find_last_not_of space_chars s) (trim_back-EndsClean space_chars s h)

EndsClean-append :
    (c : ℕ) (s t : Bytes) → EndsClean space_chars (c ∷ t) → EndsClean space_chars (s ++ c ∷ t)
EndsClean-append c [] t h = h
EndsClean-append c (x ∷ []) t h = h
EndsClean-append c (x ∷ y ∷ s) t h = EndsClean-append c (y ∷ s) t h

trim_front-prefix :
    (ssl : Bool) (s : Bytes)
    → trim_front space_chars (proto_prefix ssl ++ s) ≡ proto_prefix ssl ++ s
unfolding proto_prefix mem_byte
trim_front-prefix true s = trim_front_good space_chars b'h' _ refl
trim_front-prefix false s = trim_front_good space_chars b'h' _ refl

trimmed-url :
    (ssl : Bool) (s : Bytes)
    → EndsClean space_chars (proto_prefix ssl ++ s)
    → trim_front space_chars (trim_back_string space_chars (proto_prefix ssl ++ s))
      ≡ proto_prefix ssl ++ s
trimmed-url ssl s h =
    ap (trim_front space_chars) (trim_back_string_clean (proto_prefix ssl ++ s) h)
    ∙ trim_front-prefix ssl s

null-prefix : (ssl : Bool) (s : Bytes) → null (proto_prefix ssl ++ s) ≡ false
unfolding proto_prefix
null-prefix true s = refl
null-prefix false s = refl

set_http_url_parts :
    (raw : Bytes) (unescape : Bool) {url : Bytes} {s : Start}
    → (if unescape then url_unescape raw else raw) ≡ url
    → trim_front space_chars (trim_back_string space_chars url) ≡ url
    → null url ≡ false
    → url_start url ≡ some s
    → set_http_url raw unescape ≡ from_host s (drop_slashes s.rest)
unfolding set_http_url
set_http_url_parts raw unescape e clean full at = rw (e, clean, full, at)

url_start-prefix :
    (ssl : Bool) (s : Bytes)
    → url_start (proto_prefix ssl ++ s) ≡ some (record (start s) { ssl = ssl })
unfolding url_start proto_prefix starts_no_case
url_start-prefix true s = refl
url_start-prefix false s = refl

abbrev pieces : Bytes → Bytes → Bytes → Bytes → Bytes
pieces pre host port path =
    pre ++ (esc is_safe_url_char host ++ (port ++ (esc is_safe_url_char path ++ [])))

escaped_pieces :
    (pre host port path : Bytes)
    → url_escape_append path (url_escape_append host pre ++ port) ≡ pieces pre host port path
escaped_pieces pre host port path =
    url_escape_append-esc path (url_escape_append host pre ++ port)
    ∙ rw (
      url_escape_append-esc host pre,
      append_assoc (pre ++ esc is_safe_url_char host) port _,
      append_assoc pre (esc is_safe_url_char host) _,
      append-nil (esc is_safe_url_char path),
    )

regroup : (a b c d : Bytes) → a ++ b ++ c ++ d ≡ a ++ (b ++ c ++ d)
regroup a b c d = ap (λ t. t ++ d) (append_assoc a b c) ∙ append_assoc a (b ++ c) d

url_unescape-pieces :
    (pre host port path : Bytes)
    → Without b'%' pre
    → AreBytes host
    → Without b'%' port
    → AreBytes path
    → url_unescape (pieces pre host port path) ≡ pre ++ ((host ++ port) ++ path)
unfolding url_unescape url_unescape_append
url_unescape-pieces pre host port path h_pre h_host h_port h_path =
    ap (λ (r : Bool × Bytes). r.1)
      (unescape_plain_text pre _ [] h_pre
        ∙ unescape-esc is_safe_url_char host _ pre safe-ne-percent h_host
        ∙ unescape_plain_text port _ (pre ++ host) h_port
        ∙ unescape-esc is_safe_url_char path [] ((pre ++ host) ++ port) safe-ne-percent h_path)
    ∙ regroup pre host port path

host_byte-lt : (c : ℕ) → is_host_byte c ≡ true → c < 256
host_byte-lt c h = ground arith

prefix-Without : (ssl : Bool) → Without b'%' (proto_prefix ssl)
unfolding proto_prefix
prefix-Without true = (refl, (refl, (refl, (refl, (refl, (refl, (refl, (refl, tt))))))))
prefix-Without false = (refl, (refl, (refl, (refl, (refl, (refl, (refl, tt)))))))

module _ (ssl : Bool) (c : ℕ) (h : Bytes) (n : ℕ) (p : Bytes) (is_host : IsHost (c ∷ h))
    (port : n < 2 ^ 15) (single : first_is (λ c. c == b'/') p ≡ false) where
  abbrev rest : Bytes
  rest = authority (c ∷ h) n ++ b'/' ∷ p

  abbrev at_rest : Bytes → Start
  at_rest rest = record (start rest) { ssl = ssl }

  from_host-url : from_host (at_rest rest) rest ≡ accepted (url_of ssl (c ∷ h) n p)
  unfolding from_host with_port
  from_host-url =
      from_host_parts (at_rest rest) rest
        (host_and_path_split (authority (c ∷ h) n) p
          (authority-Without b'/' (c ∷ h) n port is_host refl refl) single)
        (strip_credentials-Without (authority (c ∷ h) n)
          (authority-Without b'@' (c ∷ h) n port is_host refl refl))
        (byte_ne c b'_' is_host.0 refl)
      ∙ rw (split_port-authority (c ∷ h) n port is_host, with_port)
          (strip-host (url_of ssl (c ∷ h) n p) refl is_host)

  read-text :
      (raw : Bytes) (unescape : Bool)
      → EndsClean space_chars (b'/' ∷ p)
      → (if unescape then url_unescape raw else raw) ≡ proto_prefix ssl ++ rest
      → set_http_url raw unescape ≡ accepted (url_of ssl (c ∷ h) n p)
  read-text raw unescape ends e =
      set_http_url_parts raw unescape e
        (trimmed-url ssl rest (
          rw (sym (append_assoc (proto_prefix ssl) (authority (c ∷ h) n) (b'/' ∷ p)))
            (EndsClean-append b'/' (proto_prefix ssl ++ authority (c ∷ h) n) p ends)))
        (null-prefix ssl rest) (url_start-prefix ssl rest)
      ∙ ap (from_host (at_rest rest)) (drop_slashes_front c _ (byte_ne c b'/' is_host.0 refl))
      ∙ from_host-url

  plain_uri : to_uri false false (url_of ssl (c ∷ h) n p) ≡ proto_prefix ssl ++ rest
  unfolding to_uri
  plain_uri = regroup (proto_prefix ssl) (c ∷ h) (port_part n) (b'/' ∷ p)

  unescaped_uri :
      AreBytes p
      → url_unescape (to_uri true false (url_of ssl (c ∷ h) n p)) ≡ proto_prefix ssl ++ rest
  unfolding to_uri
  unescaped_uri are =
      ap url_unescape (escaped_pieces (proto_prefix ssl) (c ∷ h) (port_part n) (b'/' ∷ p))
      ∙ url_unescape-pieces (proto_prefix ssl) (c ∷ h) (port_part n) (b'/' ∷ p) (prefix-Without ssl)
          (All-imp (c ∷ h) host_byte-lt is_host) (port_part-Without b'%' n port refl refl)
          (omega arith, are)

  -- SetHttpUrl reads a URL back from ToURI, escaped or not, if the host consists of letters, digits,
  -- dots and dashes, there are no strip_credentials, the port is below 2 ^ 15, and the path has one leading
  -- slash and no blank at its end.
  pub set_http_url-to_uri :
      AreBytes p
      → EndsClean space_chars (b'/' ∷ p)
      → (set_http_url (to_uri true false (url_of ssl (c ∷ h) n p)) true
          ≡ accepted (url_of ssl (c ∷ h) n p))
        × (set_http_url (to_uri false false (url_of ssl (c ∷ h) n p)) false
            ≡ accepted (url_of ssl (c ∷ h) n p))
  set_http_url-to_uri are ends = (
    read-text (to_uri true false (url_of ssl (c ∷ h) n p)) true ends (unescaped_uri are),
    read-text (to_uri false false (url_of ssl (c ∷ h) n p)) false ends plain_uri,
  )
