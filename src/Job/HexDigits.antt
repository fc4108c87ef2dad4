-- ===== src/Job/HexDigits.antt =====
-- "%lx" as SendData prints it (src/job.cc) and "%x" as ProcessIncomming reads it (src/dlcon.cc).
use apt_cacher_ng.Base.{
  ℕ, zero, suc, ◌+◌, ◌/◌, ◌%◌, ◌^◌, ◌<◌, ◌≡◌, refl, ap, ◌∙◌, false, Bool-cases, inl, inr, some, [],
  ◌∷◌, ◌++◌, arith, Bytes, All, ◌==◌, ltb, length, drop, starts_with, mem_byte, ltb→lt, ltb→le,
}
use apt_cacher_ng.Text.{crlf, find, trim_front, space_chars}
use apt_cacher_ng.Text.Trimmed.{trim_front_good}
use apt_cacher_ng.Escape.{hexmap, h2t}
use apt_cacher_ng.Escape.RoundTrip.{hexmap-h2t}
use apt_cacher_ng.Header.{c_str}
use apt_cacher_ng.ClientJob.Send.{hex_onto, print_hex}
use apt_cacher_ng.Job.{hex_digits, hex_number, after_0x, signed_hex, scan_hex}

-- Hexadecimal digits, and how they are read back.
abbrev pub IsHex : ℕ → Type 0
IsHex c = hexmap c < 16

pub h2t-IsHex : (d : ℕ) → d < 16 → hexmap (h2t d) < 16
h2t-IsHex d h = omega (arith, hexmap-h2t d h)

pub hex_onto-All : (fuel n : ℕ) (out : Bytes) → All IsHex out → All IsHex (hex_onto fuel n out)
unfolding hex_onto
hex_onto-All zero n out h = h
hex_onto-All (suc fuel) n out h = elim (Bool-cases (ltb n 16)) [
  | inl low ↦ rw low (h2t-IsHex n (ltb→lt n 16 low), h)
  | inr high ↦
      rw high
        (hex_onto-All fuel (n / 16) (h2t (n % 16) ∷ out) (h2t-IsHex (n % 16) (omega arith), h))
]

pub digit_read : (n : ℕ) (out : Bytes) → n < 16 → hex_digits 0 (h2t n ∷ out) ≡ hex_digits n out
unfolding hex_digits
digit_read n out h = ground (arith, hexmap-h2t n h)

pub digit_added :
    (n : ℕ) (out : Bytes) → n < 2 ^ 64 → hex_digits (n / 16) (h2t (n % 16) ∷ out) ≡ hex_digits n out
unfolding hex_digits
digit_added n out h = ground (arith, hexmap-h2t (n % 16) (omega arith))

pub read-hex_onto :
    (fuel n : ℕ) (out : Bytes)
    → n < fuel
    → n < 2 ^ 64
    → hex_digits 0 (hex_onto fuel n out) ≡ hex_digits n out
unfolding hex_onto hex_digits
read-hex_onto zero n out h k = absurd (omega arith)
read-hex_onto (suc fuel) n out h k = elim (Bool-cases (ltb n 16)) [
  | inl low ↦ rw low (digit_read n out (ltb→lt n 16 low))
  | inr high ↦ rw high (
      read-hex_onto fuel (n / 16) (h2t (n % 16) ∷ out) (omega (arith, ltb→le n 16 high))
        (omega arith)
      ∙ digit_added n out k)
]

pub hex_onto-append :
    (fuel n : ℕ) (out t : Bytes) → hex_onto fuel n out ++ t ≡ hex_onto fuel n (out ++ t)
unfolding hex_onto
hex_onto-append zero n out t = refl
hex_onto-append (suc fuel) n out t = elim (Bool-cases (ltb n 16)) [
  | inl low ↦ rw low
  | inr high ↦ rw high (hex_onto-append fuel (n / 16) (h2t (n % 16) ∷ out) t)
]

pub read-print_hex : (n : ℕ) (t : Bytes) → n < 2 ^ 64 → hex_digits 0 (print_hex n ++ 13 ∷ t) ≡ n
unfolding print_hex hex_digits hexmap
read-print_hex n t h =
    ap (hex_digits 0) (hex_onto-append (suc n) n [] (13 ∷ t))
    ∙ read-hex_onto (suc n) n (13 ∷ t) (omega arith) h

pub print_hex-All : (n : ℕ) → All IsHex (print_hex n)
unfolding print_hex
print_hex-All n = hex_onto-All (suc n) n [] tt

pub hex_onto-longer :
    (fuel n : ℕ) (out : Bytes) → n < fuel → length out < length (hex_onto fuel n out)
unfolding hex_onto
hex_onto-longer zero n out h = absurd (omega arith)
hex_onto-longer (suc fuel) n out h =
    ground (arith, hex_onto-longer fuel (n / 16) (h2t (n % 16) ∷ out))

pub print_hex-longer : (n : ℕ) → 0 < length (print_hex n)
unfolding print_hex
print_hex-longer n = hex_onto-longer (suc n) n [] (omega arith)

-- A digit is none of the bytes that ProcessIncomming and sscanf look for.
pub hex_other :
    (c : ℕ)
    → hexmap c < 16
    → ((c == 0) ≡ false)
      × ((c == 13) ≡ false)
      × ((c == b'-') ≡ false)
      × ((c == b'+') ≡ false)
      × ((c == b'x') ≡ false)
      × ((c == b'X') ≡ false)
      × (mem_byte c space_chars ≡ false)
      × (mem_byte c crlf ≡ false)
      × (ltb 15 (hexmap c) ≡ false)
unfolding hexmap mem_byte
hex_other c h = ground arith

pub c_str-hex : (s t : Bytes) → All IsHex s → c_str (s ++ t) ≡ s ++ c_str t
unfolding c_str
c_str-hex [] t h = refl
c_str-hex (c ∷ s) t h = rw ((hex_other c h.0).0, c_str-hex s t h.1)

pub find-hex : (s t : Bytes) → All IsHex s → find crlf (s ++ 13 ∷ 10 ∷ t) ≡ some (length s)
unfolding find starts_with
find-hex [] t h = refl
find-hex (c ∷ s) t h = rw ((hex_other c h.0).1, find-hex s t h.1)

pub suc_add_two : (n : ℕ) → suc n + 2 ≡ suc (n + 2)
suc_add_two n = omega arith

pub behind_crlf : (s t : Bytes) → drop (length s + 2) (s ++ 13 ∷ 10 ∷ t) ≡ t
behind_crlf [] t = refl
behind_crlf (c ∷ s) t =
    ap (λ k. drop k (c ∷ (s ++ 13 ∷ 10 ∷ t))) (suc_add_two (length s)) ∙ behind_crlf s t

pub after_0x-hex :
    (c : ℕ) (s t : Bytes) → All IsHex s → after_0x (c ∷ (s ++ 13 ∷ t)) ≡ c ∷ (s ++ 13 ∷ t)
unfolding after_0x starts_with
after_0x-hex c [] t h = ground arith
after_0x-hex c (d ∷ s) t h = let o = hex_other d h.0 in ground (arith, o.4, o.5)

pub hex_number-digit :
    (c : ℕ) (s : Bytes)
    → ltb 15 (hexmap c) ≡ false
    → hex_number (c ∷ s) ≡ some (hex_digits 0 (c ∷ s))
unfolding hex_number
hex_number-digit c s h = rw h

pub scan-hex :
    (s t : Bytes) (n : ℕ)
    → 0 < length s
    → All IsHex s
    → hex_digits 0 (s ++ 13 ∷ t) ≡ n
    → n < 2 ^ 32
    → scan_hex (s ++ 13 ∷ t) ≡ some n
unfolding scan_hex signed_hex
scan-hex [] t n some_digit h e small = absurd (omega arith)
scan-hex (c ∷ s) t n some_digit h e small =
    let o = hex_other c h.0 in
    rw
      (
        trim_front_good space_chars c (s ++ 13 ∷ t) o.6,
        o.2,
        o.3,
        after_0x-hex c s t h.1,
        hex_number-digit c (s ++ 13 ∷ t) o.8 ∙ ap some e,
      )
      (ap some (omega arith))

pub trim-hex : (s t : Bytes) → 0 < length s → All IsHex s → trim_front crlf (s ++ t) ≡ s ++ t
trim-hex [] t some_digit h = absurd (omega arith)
trim-hex (c ∷ s) t some_digit h = trim_front_good crlf c (s ++ t) (hex_other c h.0).7
