-- ===== src/Escape.antt =====
-- Escaping and hexadecimal text of src/meta.cc: hexmap, UrlEscape, UserinfoEscape, DosEscape,
-- UrlUnescapeAppend, CsAsciiToBin and BytesToHexString.
pub mod RoundTrip
pub mod Malformed
use apt_cacher_ng.Base.{
  ℕ, zero, suc, ◌+◌, ◌-◌, ◌*◌, ◌/◌, ◌%◌, Bool, true, false, not, ◌&&◌, ◌||◌, Option, none, some, [],
  ◌∷◌, ◌++◌, Bytes, codes, if◌then◌else◌, ◌==◌, leb, ltb, mem_byte,
}

-- `hexmap`: the value of a hexadecimal digit, and more than 15 for any other byte.
abbrev inv_digit : ℕ
inv_digit = 65535

unfoldable pub hexmap : ℕ → ℕ
hexmap c =
    if leb b'0' c && leb c b'9'
    then c - b'0'
    else if leb b'A' c && leb c b'F'
    then c - 55
    else if leb b'a' c && leb c b'f'
    then c - 87
    else inv_digit

-- `h2t_map`, for a value below 16.
unfoldable pub h2t : ℕ → ℕ
h2t d = if ltb d 10 then b'0' + d else 87 + d

abbrev pub is_alnum : ℕ → Bool
is_alnum c = (leb b'0' c && leb c b'9') || (leb b'a' c && leb c b'z') || (leb b'A' c && leb c b'Z')

unfoldable pub is_safe_url_char : ℕ → Bool
unfolding mem_byte
is_safe_url_char c = is_alnum c || mem_byte c (codes "/-._?&=")

unfoldable pub is_allowed_unencoded_userinfo_char : ℕ → Bool
unfolding mem_byte
is_allowed_unencoded_userinfo_char c = is_alnum c || mem_byte c (codes "-._~!$&'()*+,;=:")

-- '%' and two digits.
unfoldable pub percent : ℕ → Bytes
unfolding h2t
percent c = b'%' ∷ h2t (c / 16) ∷ h2t (c % 16) ∷ []

-- UrlEscapeAppend: `target` grows.
unfoldable pub url_escape_append : Bytes → Bytes → Bytes
unfolding is_safe_url_char percent
url_escape_append [] target = target
url_escape_append (c ∷ s) target =
    url_escape_append s (if is_safe_url_char c then target ++ c ∷ [] else target ++ percent c)

unfoldable pub url_escape : Bytes → Bytes
unfolding url_escape_append
url_escape s = url_escape_append s []

unfoldable pub userinfo_escape_append : Bytes → Bytes → Bytes
unfolding is_allowed_unencoded_userinfo_char percent
userinfo_escape_append [] ret = ret
userinfo_escape_append (c ∷ s) ret =
    userinfo_escape_append s
      (if is_allowed_unencoded_userinfo_char c then ret ++ c ∷ [] else ret ++ percent c)

unfoldable pub userinfo_escape : Bytes → Bytes
unfolding userinfo_escape_append
userinfo_escape s = userinfo_escape_append s []

-- DosEscape; SZPATHSEP is "/".
unfoldable pub dos_escape_append : Bytes → Bytes → Bytes
unfolding is_safe_url_char percent
dos_escape_append [] ret = ret
dos_escape_append (c ∷ s) ret = dos_escape_append s (
    if c == b'/'
    then ret ++ b'/' ∷ []
    else if is_safe_url_char c
    then ret ++ c ∷ []
    else ret ++ percent c)

unfoldable pub dos_escape : Bytes → Bytes
unfolding dos_escape_append
dos_escape s = dos_escape_append s []

-- UrlUnescapeAppend: whether all was well, and `to` grown. A '%' with no two digits behind it is
-- left out, and what follows it is kept. The `i > length - 3` of the source wraps for a text shorter
-- than 3; the bytes that it then reads, the last of them the NUL, fail the digit test.
unfoldable pub url_unescape_append : Bytes → Bytes → Bool × Bytes
url_unescape_append [] to = (true, to)
url_unescape_append (c ∷ a ∷ b ∷ s) to =
    let plain = url_unescape_append (a ∷ b ∷ s) (to ++ c ∷ []) in
    let bad : Bool × Bytes = (false, (url_unescape_append (a ∷ b ∷ s) to).1) in
    let good = url_unescape_append s (to ++ (16 * hexmap a + hexmap b) ∷ []) in
    if not (c == b'%') then plain else if ltb 15 (hexmap a) || ltb 15 (hexmap b) then bad else good
url_unescape_append (c ∷ s) to =
    let plain = url_unescape_append s (to ++ c ∷ []) in
    let bad : Bool × Bytes = (false, (url_unescape_append s to).1) in
    if not (c == b'%') then plain else bad

unfoldable pub url_unescape : Bytes → Bytes
unfolding url_unescape_append
url_unescape s = (url_unescape_append s []).1

-- BytesToHexString.
unfoldable pub bytes_to_hex : Bytes → Bytes
unfolding h2t
bytes_to_hex [] = []
bytes_to_hex (c ∷ s) = h2t (c / 16) ∷ h2t (c % 16) ∷ bytes_to_hex s

-- CsAsciiToBin: `none` for false. The text behind the last digit is its NUL.
unfoldable pub cs_ascii_to_bin : ℕ → Bytes → Option Bytes
cs_ascii_to_bin zero a = some []
cs_ascii_to_bin (suc n) (x ∷ y ∷ a) =
    let rest = cs_ascii_to_bin n a in
    if ltb 15 (hexmap x) || ltb 15 (hexmap y)
    then none
    else elim rest [ none ↦ none | some bs ↦ some ((hexmap x * 16 + hexmap y) ∷ bs) ]
cs_ascii_to_bin (suc n) a = none
