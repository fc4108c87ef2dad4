-- ===== src/Text/Decimal.antt =====
-- Decimal numbers: `ltos` and `offttos`, which print, and `atoll` (atoofft), `strtol` and `isdigit`
-- of the C library, which the source reads numbers with.
use apt_cacher_ng.Base.{
  ℕ, zero, suc, ◌+◌, ◌-◌, ◌*◌, ◌/◌, ◌%◌, ◌<◌, ◌≡◌, refl, ◌∙◌, Bool, true, false, ◌&&◌, [], ◌∷◌,
  ◌++◌, arith, Bytes, All, ◌==◌, leb, ltb, if◌then◌else◌, mem_byte, ap, ℤ, pos, negsuc, sub_ℕ, ◌≢◌,
  subst,
}
use apt_cacher_ng.Text.Trimmed.{trim_front_good, trim_front_junk}
use apt_cacher_ng.Text.{space_chars, trim_front}

abbrev pub is_digit : ℕ → Bool
is_digit c = leb b'0' c && leb c b'9'

-- The digits of `n` in front of `out`; a round each, at most `fuel` of them.
unfoldable pub digits_onto : ℕ → ℕ → Bytes → Bytes
digits_onto zero n out = out
digits_onto (suc fuel) n out =
    let front = digits_onto fuel (n / 10) ((b'0' + n % 10) ∷ out) in
    if ltb n 10 then (b'0' + n) ∷ out else front

-- "%lu", and "%ld" of a number that is not negative. `n` rounds are more than enough.
unfoldable pub print_ℕ : ℕ → Bytes
unfolding digits_onto
print_ℕ n = digits_onto (suc n) n []

-- "%ld": `ltos`, `offttos` and OFF_T_FMT.
unfoldable pub print_ℤ : ℤ → Bytes
unfolding print_ℕ
print_ℤ (pos n) = print_ℕ n
print_ℤ (negsuc n) = b'-' ∷ print_ℕ (suc n)

-- The number that the leading digits of `s` spell behind `acc`.
unfoldable pub read_digits : ℕ → Bytes → ℕ
read_digits acc [] = acc
read_digits acc (c ∷ s) = if is_digit c then read_digits (acc * 10 + (c - b'0')) s else acc

-- What the leading digits are followed by.
unfoldable pub after_digits : Bytes → Bytes
after_digits [] = []
after_digits (c ∷ s) = if is_digit c then after_digits s else c ∷ s

read_sign : Bytes → ℤ
unfolding read_digits
read_sign [] = pos 0
read_sign (c ∷ s) =
    if c == b'-'
    then sub_ℕ 0 (read_digits 0 s)
    else pos (if c == b'+' then read_digits 0 s else read_digits 0 (c ∷ s))

-- `atoll`: blanks, a sign, digits. A value beyond 64 bits, of which C says nothing, is not cut here.
unfoldable pub atoll : Bytes → ℤ
unfolding read_sign trim_front
atoll s = read_sign (trim_front space_chars s)

abbrev pub StartsNoDigit : Bytes → Type 0
StartsNoDigit [] = Unit
StartsNoDigit (c ∷ s) = is_digit c ≡ false

read-digits_onto :
    (fuel n : ℕ) (out : Bytes)
    → n < fuel
    → read_digits 0 (digits_onto fuel n out) ≡ read_digits n out
unfolding read_digits digits_onto
read-digits_onto zero n out h = elim h [ ]
read-digits_onto (suc fuel) n out h =
    ground (arith, read-digits_onto fuel (n / 10) ((b'0' + n % 10) ∷ out))

-- All that is printed are digits, and there is one.
digits_onto-All :
    (fuel n : ℕ) (out : Bytes)
    → All (λ c. is_digit c ≡ true) out
    → All (λ c. is_digit c ≡ true) (digits_onto fuel n out)
unfolding digits_onto
digits_onto-All zero n out h = h
digits_onto-All (suc fuel) n out h =
    ground (arith, digits_onto-All fuel (n / 10) ((b'0' + n % 10) ∷ out))

abbrev pub StartsDigit : Bytes → Type 0
StartsDigit [] = ⊥
StartsDigit (c ∷ s) = is_digit c ≡ true

digits_onto-StartsDigit :
    (fuel n : ℕ) (out : Bytes) → n < fuel → StartsDigit (digits_onto fuel n out)
unfolding digits_onto
digits_onto-StartsDigit zero n out h = elim h [ ]
digits_onto-StartsDigit (suc fuel) n out h =
    ground (arith, digits_onto-StartsDigit fuel (n / 10) ((b'0' + n % 10) ∷ out))

digits_onto-append :
    (fuel n : ℕ) (out rest : Bytes)
    → digits_onto fuel n out ++ rest ≡ digits_onto fuel n (out ++ rest)
unfolding digits_onto
digits_onto-append zero n out rest = refl
digits_onto-append (suc fuel) n out rest =
    ground (arith, digits_onto-append fuel (n / 10) ((b'0' + n % 10) ∷ out) rest)

pub print_ℕ-All : (n : ℕ) → All (λ c. is_digit c ≡ true) (print_ℕ n)
unfolding print_ℕ
print_ℕ-All n = digits_onto-All (suc n) n [] tt

pub print_ℕ-ne-nil : (n : ℕ) → print_ℕ n ≢ []
unfolding print_ℕ
print_ℕ-ne-nil n h = subst StartsDigit h (digits_onto-StartsDigit (suc n) n [] (omega arith))

-- Digits are skipped up to the first other byte.
pub after_digits-append :
    (s rest : Bytes)
    → All (λ c. is_digit c ≡ true) s
    → StartsNoDigit rest
    → after_digits (s ++ rest) ≡ rest
unfolding after_digits
after_digits-append [] [] h g = refl
after_digits-append [] (c ∷ rest) h g = rw g
after_digits-append (c ∷ s) rest h g = rw (h.0) (after_digits-append s rest h.1 g)

read-stop : (n : ℕ) (rest : Bytes) → StartsNoDigit rest → read_digits n rest ≡ n
unfolding read_digits
read-stop n [] h = refl
read-stop n (c ∷ s) h = ground arith

pub read_digits-print_ℕ :
    (n : ℕ) (rest : Bytes) → StartsNoDigit rest → read_digits 0 (print_ℕ n ++ rest) ≡ n
unfolding print_ℕ
read_digits-print_ℕ n rest h =
    rw (digits_onto-append (suc n) n [] rest)
      (read-digits_onto (suc n) n rest (omega arith) ∙ read-stop n rest h)

pub digit-ne-space : (c : ℕ) → is_digit c ≡ true → mem_byte c space_chars ≡ false
unfolding mem_byte
digit-ne-space c h = ground arith

-- `atoll` on a text that begins with a digit reads its digits.
atoll_digits : (s : Bytes) → StartsDigit s → atoll s ≡ pos (read_digits 0 s)
unfolding atoll
atoll_digits [] h = elim h [ ]
atoll_digits (c ∷ s) h =
    rw (trim_front_good space_chars c s (digit-ne-space c h), read_sign) (ground arith)

StartsDigit-append : (s t : Bytes) → StartsDigit s → StartsDigit (s ++ t)
StartsDigit-append [] t h = elim h [ ]
StartsDigit-append (c ∷ s) t h = h

pub atoll-print_ℕ : (n : ℕ) (rest : Bytes) → StartsNoDigit rest → atoll (print_ℕ n ++ rest) ≡ pos n
unfolding print_ℕ
atoll-print_ℕ n rest h =
    atoll_digits _ (StartsDigit-append _ rest (digits_onto-StartsDigit (suc n) n [] (omega arith)))
    ∙ ap pos (read_digits-print_ℕ n rest h)

pub atoll_blank : (s : Bytes) → atoll (32 ∷ s) ≡ atoll s
unfolding atoll mem_byte
atoll_blank s = rw (trim_front_junk space_chars 32 s refl)

atoll_minus : (s : Bytes) → atoll (b'-' ∷ s) ≡ sub_ℕ 0 (read_digits 0 s)
unfolding atoll mem_byte
atoll_minus s = rw (trim_front_good space_chars b'-' s refl)

-- A number that is printed is read back, whatever follows but a digit.
pub atoll-print_ℤ : (a : ℤ) (rest : Bytes) → StartsNoDigit rest → atoll (print_ℤ a ++ rest) ≡ a
unfolding print_ℤ
atoll-print_ℤ (pos n) rest h = atoll-print_ℕ n rest h
atoll-print_ℤ (negsuc n) rest h =
    atoll_minus (print_ℕ (suc n) ++ rest) ∙ rw (read_digits-print_ℕ (suc n) rest h) (ground arith)
