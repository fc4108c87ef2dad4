-- ===== src/Escape/RoundTrip.antt =====
-- Unescaping undoes escaping, and reading hexadecimal text undoes printing it.
use apt_cacher_ng.Base.{
  ℕ, zero, suc, ◌+◌, ◌*◌, ◌/◌, ◌%◌, ◌<◌, ◌≡◌, refl, sym, ap, ◌∙◌, Bool, true, false, some, [], ◌∷◌,
  ◌++◌, arith, Bytes, AreBytes, if◌then◌else◌, ◌==◌, append_assoc, append-nil, length, Bool-cases,
  inl, inr, map, take, Option-cases, ap₂, All,
}
use apt_cacher_ng.Escape.{
  hexmap, h2t, is_safe_url_char, is_allowed_unencoded_userinfo_char, percent, url_escape_append,
  url_escape, userinfo_escape_append, userinfo_escape, dos_escape_append, dos_escape,
  url_unescape_append, bytes_to_hex, cs_ascii_to_bin,
}

pub hexmap-h2t : (d : ℕ) → d < 16 → hexmap (h2t d) ≡ d
unfolding hexmap h2t
hexmap-h2t d h = ground arith

-- One piece of escaped text is read back as its byte, whatever follows.
unescape-percent :
    (c : ℕ) (rest to : Bytes)
    → c < 256
    → url_unescape_append (percent c ++ rest) to ≡ url_unescape_append rest (to ++ c ∷ [])
unfolding url_unescape_append percent
unescape-percent c rest to h = ground (arith, hexmap-h2t (c / 16), hexmap-h2t (c % 16))

unescape_plain :
    (c : ℕ) (rest to : Bytes)
    → (c == b'%') ≡ false
    → url_unescape_append (c ∷ rest) to ≡ url_unescape_append rest (to ++ c ∷ [])
unfolding url_unescape_append
unescape_plain c [] to h = ground arith
unescape_plain c (a ∷ []) to h = ground arith
unescape_plain c (a ∷ b ∷ s) to h = ground arith

pub safe-ne-percent : (c : ℕ) → is_safe_url_char c ≡ true → (c == b'%') ≡ false
unfolding is_safe_url_char
safe-ne-percent c h = ground arith

allowed-ne-percent : (c : ℕ) → is_allowed_unencoded_userinfo_char c ≡ true → (c == b'%') ≡ false
unfolding is_allowed_unencoded_userinfo_char
allowed-ne-percent c h = ground arith

-- The escaped text, piece by piece, for a given set of bytes that stay as they are.
abbrev pub esc : (ℕ → Bool) → Bytes → Bytes
esc safe [] = []
esc safe (c ∷ s) = (if safe c then c ∷ [] else percent c) ++ esc safe s

pub url_escape_append-esc :
    (s target : Bytes) → url_escape_append s target ≡ target ++ esc is_safe_url_char s
unfolding url_escape_append
url_escape_append-esc [] target = sym (append-nil target)
url_escape_append-esc (c ∷ s) target = elim (Bool-cases (is_safe_url_char c)) [
  | inl h ↦ rw h (url_escape_append-esc s (target ++ c ∷ []) ∙ append_assoc target (c ∷ []) _)
  | inr h ↦ rw h (url_escape_append-esc s (target ++ percent c) ∙ append_assoc target (percent c) _)
]

userinfo_escape_append-esc :
    (s ret : Bytes) → userinfo_escape_append s ret ≡ ret ++ esc is_allowed_unencoded_userinfo_char s
unfolding userinfo_escape_append
userinfo_escape_append-esc [] ret = sym (append-nil ret)
userinfo_escape_append-esc (c ∷ s) ret = elim (Bool-cases (is_allowed_unencoded_userinfo_char c)) [
  | inl h ↦ rw h (userinfo_escape_append-esc s (ret ++ c ∷ []) ∙ append_assoc ret (c ∷ []) _)
  | inr h ↦ rw h (userinfo_escape_append-esc s (ret ++ percent c) ∙ append_assoc ret (percent c) _)
]

slash_safe : (c : ℕ) → (c == b'/') ≡ true → (is_safe_url_char c ≡ true) × (c ≡ b'/')
unfolding is_safe_url_char
slash_safe c h = ground arith

dos_piece :
    (c : ℕ) (ret : Bytes)
    → (if c == b'/'
        then ret ++ b'/' ∷ []
        else if is_safe_url_char c
        then ret ++ c ∷ []
        else ret ++ percent c)
      ≡ (if is_safe_url_char c then ret ++ c ∷ [] else ret ++ percent c)
dos_piece c ret = elim (Bool-cases (c == b'/')) [
  | inl h ↦ rw (h, (slash_safe c h).0) (ap (λ (d : ℕ). ret ++ d ∷ []) (sym (slash_safe c h).1))
  | inr h ↦ rw h
]

dos_escape_append-url : (s ret : Bytes) → dos_escape_append s ret ≡ url_escape_append s ret
unfolding dos_escape_append url_escape_append
dos_escape_append-url [] ret = refl
dos_escape_append-url (c ∷ s) ret =
    rw (dos_piece c ret)
      (dos_escape_append-url s (if is_safe_url_char c then ret ++ c ∷ [] else ret ++ percent c))

-- On this system DosEscape and UrlEscape are one function.
pub dos_escape-url_escape : (s : Bytes) → dos_escape s ≡ url_escape s
unfolding dos_escape url_escape
dos_escape-url_escape s = dos_escape_append-url s []

-- A text without a '%' is read as it is, whatever follows.
pub unescape_plain_text :
    (s rest to : Bytes)
    → All (λ c. (c == b'%') ≡ false) s
    → url_unescape_append (s ++ rest) to ≡ url_unescape_append rest (to ++ s)
unescape_plain_text [] rest to h = rw (append-nil to)
unescape_plain_text (c ∷ s) rest to h =
    unescape_plain c (s ++ rest) to h.0
    ∙ unescape_plain_text s rest (to ++ c ∷ []) h.1
    ∙ ap (λ t. url_unescape_append rest t) (append_assoc to (c ∷ []) s)

-- An escaped text is read back, whatever follows.
pub unescape-esc :
    (safe : ℕ → Bool) (s rest to : Bytes)
    → ((c : ℕ) → safe c ≡ true → (c == b'%') ≡ false)
    → AreBytes s
    → url_unescape_append (esc safe s ++ rest) to ≡ url_unescape_append rest (to ++ s)
unfolding percent
unescape-esc safe [] rest to k h = rw (append-nil to)
unescape-esc safe (c ∷ s) rest to k h = elim (Bool-cases (safe c)) [
  | inl good ↦ rw good (
      unescape_plain c (esc safe s ++ rest) to (k c good)
      ∙ unescape-esc safe s rest (to ++ c ∷ []) k h.1
      ∙ ap (λ t. url_unescape_append rest t) (append_assoc to (c ∷ []) s))
  | inr bad ↦ rw bad (
      unescape-percent c (esc safe s ++ rest) to h.0
      ∙ unescape-esc safe s rest (to ++ c ∷ []) k h.1
      ∙ ap (λ t. url_unescape_append rest t) (append_assoc to (c ∷ []) s))
]

unescape-esc_whole :
    (safe : ℕ → Bool) (s to : Bytes)
    → ((c : ℕ) → safe c ≡ true → (c == b'%') ≡ false)
    → AreBytes s
    → url_unescape_append (esc safe s) to ≡ (true, to ++ s)
unescape-esc_whole safe s to k h =
    ap (λ t. url_unescape_append t to) (sym (append-nil (esc safe s)))
    ∙ unescape-esc safe s [] to k h
    ∙ unfold url_unescape_append in refl

-- UrlUnescapeAppend reads back what UrlEscape, UserinfoEscape and DosEscape write of a byte
-- string, and reports no fault.
pub url_unescape-escape :
    (s to : Bytes)
    → AreBytes s
    → (url_unescape_append (url_escape s) to ≡ (true, to ++ s))
      × (url_unescape_append (userinfo_escape s) to ≡ (true, to ++ s))
      × (url_unescape_append (dos_escape s) to ≡ (true, to ++ s))
unfolding url_escape userinfo_escape
url_unescape-escape s to h = (
  rw (url_escape_append-esc s []) (unescape-esc_whole is_safe_url_char s to safe-ne-percent h),
  rw (userinfo_escape_append-esc s [])
      (unescape-esc_whole is_allowed_unencoded_userinfo_char s to allowed-ne-percent h),
  rw (dos_escape-url_escape s, url_escape_append-esc s [])
      (unescape-esc_whole is_safe_url_char s to safe-ne-percent h),
)

abbrev twice : ℕ → ℕ
twice zero = 0
twice (suc n) = suc (suc (twice n))

-- CsAsciiToBin reads back the digits of every byte string, whatever follows them.
pub cs_ascii_to_bin-bytes_to_hex :
    (b rest : Bytes) → AreBytes b → cs_ascii_to_bin (length b) (bytes_to_hex b ++ rest) ≡ some b
unfolding cs_ascii_to_bin bytes_to_hex
cs_ascii_to_bin-bytes_to_hex [] rest h = refl
cs_ascii_to_bin-bytes_to_hex (c ∷ b) rest h =
    ground
      (arith, hexmap-h2t (c / 16), hexmap-h2t (c % 16), cs_ascii_to_bin-bytes_to_hex b rest h.1)

digits_read :
    (n x y : ℕ) (a : Bytes) {b : Bytes}
    → cs_ascii_to_bin (suc n) (x ∷ y ∷ a) ≡ some b
    → ((hexmap x < 16) × (hexmap y < 16))
      × ((bs : Bytes) → cs_ascii_to_bin n a ≡ some bs → b ≡ (hexmap x * 16 + hexmap y) ∷ bs)
unfolding cs_ascii_to_bin
digits_read n x y a h = ((ground arith, ground arith), λ bs e. ground arith)

print_pair :
    (u v : ℕ)
    → u < 16
    → v < 16
    → (hexmap (h2t ((u * 16 + v) / 16)) ≡ u) × (hexmap (h2t ((u * 16 + v) % 16)) ≡ v)
print_pair u v hu hv =
    let high : (u * 16 + v) / 16 ≡ u = omega arith in
    let low : (u * 16 + v) % 16 ≡ v = omega arith in
    (rw high (hexmap-h2t u hu), rw low (hexmap-h2t v hv))

-- What CsAsciiToBin reads has the length that was asked for, consists of bytes, and prints to
-- digits of the same values.
pub cs_ascii_to_bin_sound :
    (n : ℕ) (a : Bytes) {b : Bytes}
    → cs_ascii_to_bin n a ≡ some b
    → (length b ≡ n) × AreBytes b × (map hexmap (bytes_to_hex b) ≡ map hexmap (take (twice n) a))
unfolding cs_ascii_to_bin bytes_to_hex
cs_ascii_to_bin_sound zero a h = ground arith
cs_ascii_to_bin_sound (suc n) [] h = cc
cs_ascii_to_bin_sound (suc n) (x ∷ []) h = cc
cs_ascii_to_bin_sound (suc n) (x ∷ y ∷ a) {b} h = elim (Option-cases (cs_ascii_to_bin n a)) [
  | inl e ↦ ground arith
  | inr (bs, e) ↦
      let (size, bytes, values) = cs_ascii_to_bin_sound n a e in
      let high = hexmap x in
      let low = hexmap y in
      let (small, first) = digits_read n x y a h in
      let split = first bs e in
      rw split (
        ap suc size,
        (omega (arith, small.0, small.1), bytes),
        ap₂ (λ (u v : ℕ). u ∷ v ∷ map hexmap (bytes_to_hex bs))
              (print_pair high low small.0 small.1).0 (print_pair high low small.0 small.1).1
            ∙ ap (λ (t : Bytes). high ∷ low ∷ t) values,
      )
]
