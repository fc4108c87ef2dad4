-- ===== src/Checksums/RoundTrip.antt =====
-- A line of a checksum list is read back as the fingerprint it was written from.
use apt_cacher_ng.Base.{
  All-imp, ℕ, suc, ◌*◌, ◌/◌, ◌%◌, ◌<◌, ◌≡◌, ◌⊎◌, inl, inr, refl, sym, ap, ◌∙◌, Bool, true, false,
  some, [], ◌∷◌, ◌++◌, arith, Bytes, AreBytes, All, ◌==◌, length, drop, take-append, drop-append,
  length-append, append-nil, pos, mem_byte, lt_ℤ, All, null, ap₂, ◌≢◌,
}
use apt_cacher_ng.Text.{
  Walk, walk_over, view, next_by_chars, space_chars, find_first_of, trim_front,
}
use apt_cacher_ng.Text.Trimmed.{trim_front_good, trim_front_junk}
use apt_cacher_ng.Text.Decimal.{
  atoll, print_ℤ, print_ℕ, atoll-print_ℤ, print_ℕ-All, print_ℕ-ne-nil, digit-ne-space,
}
use apt_cacher_ng.Escape.{h2t, cs_ascii_to_bin, bytes_to_hex}
use apt_cacher_ng.Escape.RoundTrip.{cs_ascii_to_bin-bytes_to_hex}
use apt_cacher_ng.Checksums.{
  CsType, cs_invalid, cs_md5, cs_sha1, cs_sha256, cs_sha512, guess_cs_type, get_cs_type_len,
  Fingerprint, cs_type_for, set_cs, set_from, get_cs_as_string, digest, set_typed,
}

-- No blank in a text.
abbrev Solid : Bytes → Type 0
Solid = All (λ c. mem_byte c space_chars ≡ false)

abbrev piece : Bool → Bytes → ℕ → Walk
piece first input n = record { input = input; slice_len = n; first = first }

find_first_of-Solid :
    (s t : Bytes) → Solid s → find_first_of space_chars (s ++ 32 ∷ t) ≡ some (length s)
unfolding find_first_of mem_byte
find_first_of-Solid [] t h = refl
find_first_of-Solid (c ∷ s) t h = rw (h.0, find_first_of-Solid s t h.1)

lt-ne : (a b : ℕ) → b < a → (a == b) ≡ false
lt-ne a b h = ground arith

not_null : (s : Bytes) → 0 < length s → null s ≡ false
not_null [] h = absurd (omega arith)
not_null (c ∷ s) h = refl

-- The next piece of a line that stands behind a slice, and perhaps a blank.
next_parts :
    (w : Walk) {rest : Bytes} {n : ℕ}
    → (length w.input == w.slice_len) ≡ false
    → trim_front space_chars (drop w.slice_len w.input) ≡ rest
    → 0 < length rest
    → find_first_of space_chars rest ≡ some n
    → next_by_chars space_chars w ≡ some (piece w.first rest n)
unfolding next_by_chars
next_parts w {rest} h e k f = rw (h, e, not_null rest k, f)

first_piece :
    (s t : Bytes)
    → 0 < length s
    → Solid s
    → next_by_chars space_chars (walk_over (s ++ 32 ∷ t))
      ≡ some (piece true (s ++ 32 ∷ t) (length s))
first_piece [] t k h = absurd (omega arith)
first_piece (c ∷ s) t k h =
    next_parts (walk_over ((c ∷ s) ++ 32 ∷ t)) (lt-ne (suc (length (s ++ 32 ∷ t))) 0 (omega arith))
      (trim_front_good space_chars c (s ++ 32 ∷ t) h.0) (omega arith)
      (find_first_of-Solid (c ∷ s) t h)

second_piece :
    (s d t : Bytes)
    → 0 < length d
    → Solid d
    → next_by_chars space_chars (piece true (s ++ 32 ∷ (d ++ 32 ∷ t)) (length s))
      ≡ some (piece true (d ++ 32 ∷ t) (length d))
unfolding mem_byte
second_piece s [] t k h = absurd (omega arith)
second_piece s (c ∷ d) t k h =
    next_parts (piece true (s ++ 32 ∷ ((c ∷ d) ++ 32 ∷ t)) (length s))
      (lt-ne _ (length s) (omega (arith, length-append s (32 ∷ ((c ∷ d) ++ 32 ∷ t)))))
      (ap (trim_front space_chars) (drop-append (length s) s (32 ∷ ((c ∷ d) ++ 32 ∷ t)) refl)
        ∙ trim_front_junk space_chars 32 ((c ∷ d) ++ 32 ∷ t) refl
        ∙ trim_front_good space_chars c (d ++ 32 ∷ t) h.0)
      (omega arith) (find_first_of-Solid (c ∷ d) t h)

h2t-Solid : (d : ℕ) → d < 16 → mem_byte (h2t d) space_chars ≡ false
unfolding h2t mem_byte
h2t-Solid d h = ground arith

bytes_to_hex-Solid : (b : Bytes) → AreBytes b → Solid (bytes_to_hex b)
unfolding bytes_to_hex
bytes_to_hex-Solid [] h = tt
bytes_to_hex-Solid (c ∷ b) h =
    (h2t-Solid (c / 16) (omega arith), (h2t-Solid (c % 16) (omega arith), bytes_to_hex-Solid b h.1))

length-bytes_to_hex : (b : Bytes) → length (bytes_to_hex b) ≡ 2 * length b
unfolding bytes_to_hex
length-bytes_to_hex [] = refl
length-bytes_to_hex (c ∷ b) = omega (arith, length-bytes_to_hex b)

type_for :
    (type wanted : CsType)
    → ¬ (type ≡ cs_invalid)
    → (wanted ≡ type) ⊎ (wanted ≡ cs_invalid)
    → cs_type_for wanted (2 * get_cs_type_len type) ≡ type
unfolding cs_type_for guess_cs_type
type_for cs_invalid wanted real fits = absurd (real refl)
type_for cs_md5 wanted real (inl e) = rw e
type_for cs_md5 wanted real (inr e) = rw e
type_for cs_sha1 wanted real (inl e) = rw e
type_for cs_sha1 wanted real (inr e) = rw e
type_for cs_sha256 wanted real (inl e) = rw e
type_for cs_sha256 wanted real (inr e) = rw e
type_for cs_sha512 wanted real (inl e) = rw e
type_for cs_sha512 wanted real (inr e) = rw e

set_typed-read :
    (type : CsType) (hex b : Bytes) (f : Fingerprint)
    → ¬ (type ≡ cs_invalid)
    → length hex ≡ 2 * get_cs_type_len type
    → cs_ascii_to_bin (get_cs_type_len type) hex ≡ some b
    → set_typed type hex f ≡ some (record f { cs_type = type; csum = b ++ drop (length b) f.csum })
set_typed-read cs_invalid hex b f real l read = absurd (real refl)
set_typed-read cs_md5 hex b f real l read = rw (l, read)
set_typed-read cs_sha1 hex b f real l read = rw (l, read)
set_typed-read cs_sha256 hex b f real l read = rw (l, read)
set_typed-read cs_sha512 hex b f real l read = rw (l, read)

set_cs_typed :
    (hex : Bytes) (type wanted : CsType) (f : Fingerprint)
    → ¬ (type ≡ cs_invalid)
    → length hex ≡ 2 * get_cs_type_len type
    → cs_type_for wanted (length hex) ≡ type
    → set_cs hex wanted f ≡ set_typed type hex f
unfolding set_cs
set_cs_typed hex cs_invalid wanted f real l e = absurd (real refl)
set_cs_typed hex cs_md5 wanted f real l e = rw (e, l)
set_cs_typed hex cs_sha1 wanted f real l e = rw (e, l)
set_cs_typed hex cs_sha256 wanted f real l e = rw (e, l)
set_cs_typed hex cs_sha512 wanted f real l e = rw (e, l)

set_cs-bytes_to_hex :
    (type wanted : CsType) (b : Bytes) (f : Fingerprint)
    → ¬ (type ≡ cs_invalid)
    → (wanted ≡ type) ⊎ (wanted ≡ cs_invalid)
    → length b ≡ get_cs_type_len type
    → AreBytes b
    → set_cs (bytes_to_hex b) wanted f
      ≡ some (record f { cs_type = type; csum = b ++ drop (length b) f.csum })
set_cs-bytes_to_hex type wanted b f real fits len h =
    let l : length (bytes_to_hex b) ≡ 2 * get_cs_type_len type =
      length-bytes_to_hex b ∙ ap (λ n. 2 * n) len in
    set_cs_typed (bytes_to_hex b) type wanted f real l
      (ap (cs_type_for wanted) l ∙ type_for type wanted real fits)
    ∙ set_typed-read type (bytes_to_hex b) b f real l (
        ap₂ cs_ascii_to_bin (sym len) (sym (append-nil (bytes_to_hex b)))
        ∙ cs_ascii_to_bin-bytes_to_hex b [] h)

not_negative : (n : ℕ) → lt_ℤ (pos n) (pos 0) ≡ false
not_negative n = ground arith

set_from_parts :
    (w w' w'' : Walk) (wanted : CsType) (f g : Fingerprint) (n : ℕ)
    → next_by_chars space_chars w ≡ some w'
    → set_cs (view w') wanted f ≡ some g
    → next_by_chars space_chars w' ≡ some w''
    → atoll (view w'') ≡ pos n
    → set_from w wanted f ≡ some (record g { size = pos n })
unfolding set_from
set_from_parts w w' w'' wanted f g n e read e' sized = rw (e, read, e', sized, not_negative n)

len-positive : (type : CsType) → ¬ (type ≡ cs_invalid) → 0 < get_cs_type_len type
len-positive cs_invalid real = absurd (real refl)
len-positive cs_md5 real = omega arith
len-positive cs_sha1 real = omega arith
len-positive cs_sha256 real = omega arith
len-positive cs_sha512 real = omega arith

length-positive : (s : Bytes) → s ≢ [] → 0 < length s
length-positive [] h = absurd (h refl)
length-positive (c ∷ s) h = omega arith

line_read :
    (type wanted : CsType) (b : Bytes) (f : Fingerprint) (n : ℕ) (tail : Bytes)
    → ¬ (type ≡ cs_invalid)
    → (wanted ≡ type) ⊎ (wanted ≡ cs_invalid)
    → length b ≡ get_cs_type_len type
    → AreBytes b
    → set_from (walk_over (bytes_to_hex b ++ 32 ∷ (print_ℕ n ++ 32 ∷ tail))) wanted f
      ≡ some (record { size = pos n; cs_type = type; csum = b ++ drop (length b) f.csum })
unfolding print_ℤ
line_read type wanted b f n tail real fits len h =
    let hex = bytes_to_hex b in
    let size = print_ℕ n in
    let some_hex : 0 < length hex =
      omega (arith, length-bytes_to_hex b, len, len-positive type real) in
    set_from_parts (walk_over (hex ++ 32 ∷ (size ++ 32 ∷ tail)))
      (piece true (hex ++ 32 ∷ (size ++ 32 ∷ tail)) (length hex))
      (piece true (size ++ 32 ∷ tail) (length size)) wanted f
      (record f { cs_type = type; csum = b ++ drop (length b) f.csum }) n
      (first_piece hex (size ++ 32 ∷ tail) some_hex (bytes_to_hex-Solid b h))
      (ap (λ s. set_cs s wanted f) (take-append (length hex) hex (32 ∷ (size ++ 32 ∷ tail)) refl)
        ∙ set_cs-bytes_to_hex type wanted b f real fits len h)
      (second_piece hex size tail (length-positive size (print_ℕ-ne-nil n))
        (All-imp size digit-ne-space (print_ℕ-All n)))
      (ap atoll (take-append (length size) size (32 ∷ tail) refl ∙ sym (append-nil size))
        ∙ atoll-print_ℤ (pos n) [] tt)

-- A line of a checksum sum's digits, a blank, a size, a blank, and more: Set takes from it the type,
-- the bytes and the size, if the type has a digest, of the length that it says, and is the one that
-- is wanted or none is.
pub set_from-get_cs_as_string :
    (g f : Fingerprint) (wanted : CsType) (n : ℕ) (tail : Bytes)
    → ¬ (g.cs_type ≡ cs_invalid)
    → (wanted ≡ g.cs_type) ⊎ (wanted ≡ cs_invalid)
    → g.size ≡ pos n
    → length (digest g) ≡ get_cs_type_len g.cs_type
    → AreBytes (digest g)
    → set_from (walk_over (get_cs_as_string g ++ 32 ∷ (print_ℤ g.size ++ 32 ∷ tail))) wanted f
      ≡ some (record {
        size = g.size;
        cs_type = g.cs_type;
        csum = digest g ++ drop (length (digest g)) f.csum;
      })
unfolding get_cs_as_string print_ℤ
set_from-get_cs_as_string g f wanted n tail real fits size len h =
    rw size (line_read g.cs_type wanted (digest g) f n tail real fits len h)
