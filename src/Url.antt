-- ===== src/Url.antt =====
-- tHttpUrl of src/ahttpurl.h and src/ahttpurl.cc, with tPortFmter of src/portutils.h, in a build with
-- SSL. A position in the source's `url` is here the text from there on.
pub mod Searches
pub mod Port
pub mod Steps
pub mod RoundTrip
use apt_cacher_ng.Base.{
  ℕ, zero, suc, ◌+◌, ◌-◌, ◌%◌, ◌^◌, Bool, true, false, not, ◌&&◌, ◌||◌, Option, none, some, [], ◌∷◌,
  ◌++◌, Bytes, codes, if◌then◌else◌, ◌==◌, leb, ltb, min, starts_with, length, take, drop, null,
  pos, sub_ℕ,
}
use apt_cacher_ng.Text.{space_chars, find, trim_front, trim_back_string}
use apt_cacher_ng.Text.Decimal.{is_digit, print_ℤ, read_digits}
use apt_cacher_ng.Escape.{is_alnum, url_unescape, url_escape_append}
use apt_cacher_ng.RemoteDb.{host_port_key}

pub record HttpUrl : Type 0 where
  pub host : Bytes
  pub path : Bytes
  pub user_pass : Bytes
  pub port : ℕ
  pub ssl : Bool

-- What SetHttpUrl comes to: true with the URL, false, or a read in front of an empty host's first
-- byte, which C++ leaves undefined. What a refused text leaves in the object is not recorded.
pub data SetResult : Type 0 where
  accepted : HttpUrl → SetResult
  refused : SetResult
  out_of_range : SetResult

abbrev pub to_lower : ℕ → ℕ
to_lower c = if leb b'A' c && leb c b'Z' then c + 32 else c

-- `strncasecmp` with a literal in lower case, of as many bytes as that has, is 0.
unfoldable pub starts_no_case : Bytes → Bytes → Bool
starts_no_case s [] = true
starts_no_case [] (y ∷ ys) = false
starts_no_case (x ∷ xs) (y ∷ ys) = to_lower x == y && starts_no_case xs ys

-- `s.rfind(c)`.
unfoldable pub rfind : ℕ → Bytes → Option ℕ
rfind c [] = none
rfind c (x ∷ s) = elim (rfind c s) [
  | some n ↦ some (suc n)
  | none ↦ if x == c then some 0 else none
]

abbrev pub first_is : (ℕ → Bool) → Bytes → Bool
first_is test [] = false
first_is test (c ∷ s) = test c

abbrev pub last_is : ℕ → Bytes → Bool
last_is c [] = false
last_is c (x ∷ []) = x == c
last_is c (x ∷ y ∷ s) = last_is c (y ∷ s)

abbrev pub found : Option ℕ → Bool
found none = false
found (some n) = true

-- Where the host begins, and the flags bSSL, bCheckBrac and noPort.
pub record Start : Type 0 where
  pub rest : Bytes
  pub ssl : Bool
  pub check_brac : Bool
  pub no_port : Bool

abbrev start : Bytes → Start
start rest = record { rest = rest; ssl = false; check_brac = false; no_port = false }

-- The tests for a protocol; `none` is false.
unfoldable pub url_start : Bytes → Option Start
unfolding starts_no_case
url_start url =
    if starts_no_case url (codes "http://")
    then some (start (drop 7 url))
    else if starts_no_case url (codes "https://")
    then some (record (start (drop 8 url)) { ssl = true })
    else if first_is is_alnum url
    then some (start url)
    else if first_is (λ c. c == b'[') url
    then some (record (start url) { check_brac = true })
    else if starts_with url (codes "::")
    then some (record (start url) { no_port = true })
    else if found (find (codes "://") url)
    then none
    else some (start url)

unfoldable pub drop_slashes : Bytes → Bytes
drop_slashes [] = []
drop_slashes (c ∷ s) = let rest = drop_slashes s in if c == b'/' then rest else c ∷ s

-- The host, with what is around it, and the path.
unfoldable pub host_and_path : Bytes → Bytes × Bytes
unfolding drop_slashes
host_and_path rest = elim (find (codes "/") rest) [
  | some n ↦ (take n rest, b'/' ∷ drop_slashes (drop n rest))
  | none ↦ elim (find (codes "?") rest) [
    | some n ↦ (take n rest, b'/' ∷ drop n rest)
    | none ↦ (rest, codes "/")
  ]
]

-- The credentials, and the host without them.
unfoldable pub strip_credentials : Bytes → Bytes × Bytes
unfolding rfind
strip_credentials host = elim (rfind b'@' host) [
  | none ↦ ([], host)
  | some l ↦ (url_unescape (take l host), drop (l + 1) host)
]

abbrev behind : Option ℕ → ℕ
behind none = 0
behind (some n) = n + 1

abbrev shifted : ℕ → Option ℕ → Option ℕ
shifted k none = none
shifted k (some n) = some (k + n)

unfoldable pub port_pos : Bool → Bytes → Option ℕ
unfolding rfind
port_pos true host = let k = behind (rfind b']' host) in shifted k (find (codes ":") (drop k host))
port_pos false host = rfind b':' host

unfoldable pub all_digits : Bytes → Bool
all_digits [] = true
all_digits (c ∷ s) = is_digit c && all_digits s

-- The port that the text behind the colon names; `none` is false. `atoi` is a strtol that stops at
-- LONG_MAX, cut to an int.
unfoldable pub read_port : Bytes → Option ℕ
unfolding all_digits
read_port digits =
    let cut = min (read_digits 0 digits) (2 ^ 63 - 1) % 2 ^ 32 in
    if null digits || not (all_digits digits) || (ltb cut (2 ^ 31) && ltb 65535 cut)
    then none
    else some (cut % 2 ^ 16)

-- The host without its port, and the port.
unfoldable pub split_port : Bool → Bool → Bytes → Option (Bytes × ℕ)
unfolding port_pos read_port
split_port true brac host = some (host, 0)
split_port false brac host = elim (port_pos brac host) [
  | none ↦ some (host, 0)
  | some p ↦ elim (read_port (drop (p + 1) host)) [ none ↦ none | some n ↦ some (take p host, n) ]
]

-- From strip_ipv6_junk on: brackets, and escapes in the host.
unfoldable pub strip_ipv6_junk : Bool → HttpUrl → SetResult
strip_ipv6_junk check_brac u =
    let opened = first_is (λ c. c == b'[') u.host in
    let host = if opened then drop 1 u.host else u.host in
    let brac = check_brac || opened in
    let closed = last_is b']' host in
    let inner = if closed then take (length host - 1) host else host in
    let name = if opened then inner else url_unescape inner in
    if null host
    then out_of_range
    else if (if closed then not brac else brac) || found (find (codes ":::") name)
    then refused
    else accepted (record u { host = name })

unfoldable pub with_port : Start → Bytes → Bytes → Option (Bytes × ℕ) → SetResult
unfolding strip_ipv6_junk
with_port s path user none = refused
with_port s path user (some (host, port)) =
    strip_ipv6_junk s.check_brac
      (record { host = host; path = path; user_pass = user; port = port; ssl = s.ssl })

unfoldable pub from_host : Start → Bytes → SetResult
unfolding host_and_path strip_credentials split_port with_port
from_host s rest =
    let (authority, path) = host_and_path rest in
    let (user, host) = strip_credentials authority in
    if null rest || first_is (λ c. c == b'_') rest
    then refused
    else with_port s path user (split_port s.no_port s.check_brac host)

-- SetHttpUrl.
unfoldable pub set_http_url : Bytes → Bool → SetResult
unfolding url_start from_host drop_slashes
set_http_url raw unescape =
    let text = if unescape then url_unescape raw else raw in
    let url = trim_front space_chars (trim_back_string space_chars text) in
    if null url
    then refused
    else elim (url_start url) [ none ↦ refused | some s ↦ from_host s (drop_slashes s.rest) ]

-- tPortFmter::fmt: "%hi" prints a signed 16-bit number, into a buffer for five bytes and a NUL.
unfoldable pub port_fmt : ℕ → Bytes
port_fmt n =
    if n == 80
    then codes "80"
    else if n == 443
    then codes "443"
    else take 5 (print_ℤ (if ltb n (2 ^ 15) then pos n else sub_ℕ n (2 ^ 16)))

unfoldable pub proto_prefix : Bool → Bytes
proto_prefix ssl = if ssl then codes "https://" else codes "http://"

-- The port in a URI, left out where it is 0.
unfoldable pub port_part : ℕ → Bytes
unfolding port_fmt
port_part zero = []
port_part (suc n) = b':' ∷ port_fmt (suc n)

-- ToURI.
unfoldable pub to_uri : Bool → Bool → HttpUrl → Bytes
unfolding proto_prefix port_part
to_uri true host_only u =
    url_escape_append u.path (url_escape_append u.host (proto_prefix u.ssl) ++ port_part u.port)
to_uri false host_only u =
    proto_prefix u.ssl ++ u.host ++ port_part u.port ++ (if host_only then [] else u.path)

-- GetPort.
unfoldable pub get_port : HttpUrl → ℕ
get_port u = if u.port == 0 then (if u.ssl then 443 else 80) else u.port

unfoldable pub set_port : ℕ → HttpUrl → HttpUrl
set_port n u = record u { port = n }

unfoldable pub get_host_port_key : HttpUrl → Bytes
unfolding host_port_key get_port
get_host_port_key u = host_port_key u.host (get_port u)
