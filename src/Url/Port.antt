-- ===== src/Url/Port.antt =====
-- The port of a URL: what tPortFmter prints below 2 ^ 15 is the number, and SetHttpUrl reads it.
use apt_cacher_ng.Base.{
  ℕ, zero, suc, ◌+◌, ◌*◌, ◌/◌, ◌%◌, ◌^◌, ◌<◌, ◌≤◌, ◌≡◌, refl, sym, ap, ◌∙◌, true, false, some, [],
  ◌∷◌, arith, Bytes, All, ◌==◌, ltb, append-nil, length, Bool-cases, ==_iff, ◌≢◌, inl, inr,
  take_all, null,
}
use apt_cacher_ng.Text.Decimal.{
  is_digit, digits_onto, print_ℕ, print_ℤ, print_ℕ-All, print_ℕ-ne-nil, read_digits,
  read_digits-print_ℕ,
}
use apt_cacher_ng.Url.{all_digits, read_port, port_fmt}

-- The port, as far as "%hi" and five bytes carry it.
abbrev pow10 : ℕ → ℕ
pow10 zero = 1
pow10 (suc k) = 10 * pow10 k

pub length-digits_onto :
    (k fuel n : ℕ) (out : Bytes)
    → n < pow10 (suc k)
    → length (digits_onto fuel n out) ≤ suc k + length out
unfolding digits_onto
length-digits_onto k zero n out h = omega arith
length-digits_onto zero (suc fuel) n out h = ground arith
length-digits_onto (suc k) (suc fuel) n out h =
    ground (arith, length-digits_onto k fuel (n / 10) ((b'0' + n % 10) ∷ out) (omega arith))

pub lt→ltb : (a b : ℕ) → a < b → ltb a b ≡ true
lt→ltb a b h = ground arith

pub port_fmt-print_ℕ : (n : ℕ) → n < 2 ^ 15 → port_fmt n ≡ print_ℕ n
unfolding port_fmt print_ℤ print_ℕ digits_onto
port_fmt-print_ℕ n h = elim (Bool-cases (n == 80)) [
  | inl e ↦ rw e (ap print_ℕ (sym ((==_iff n 80).0 e)))
  | inr below ↦ elim (Bool-cases (n == 443)) [
    | inl e ↦ rw (below, e) (ap print_ℕ (sym ((==_iff n 443).0 e)))
    | inr below' ↦
        rw (below, below', lt→ltb n (2 ^ 15) h)
          (take_all 5 (print_ℕ n) (length-digits_onto 4 (suc n) n [] (omega arith)))
  ]
]

pub all_digits-All : (s : Bytes) → All (λ c. is_digit c ≡ true) s → all_digits s ≡ true
unfolding all_digits
all_digits-All [] h = refl
all_digits-All (c ∷ s) h = rw (h.0, all_digits-All s h.1)

pub read_back : (n : ℕ) → read_digits 0 (print_ℕ n) ≡ n
read_back n = ap (read_digits 0) (sym (append-nil (print_ℕ n))) ∙ read_digits-print_ℕ n [] tt

pub null_ne : (s : Bytes) → s ≢ [] → null s ≡ false
null_ne [] h = absurd (h refl)
null_ne (c ∷ s) h = refl

pub null_print : (n : ℕ) → null (print_ℕ n) ≡ false
null_print n = null_ne (print_ℕ n) (print_ℕ-ne-nil n)

pub read_port-print_ℕ : (n : ℕ) → n < 2 ^ 15 → read_port (print_ℕ n) ≡ some n
unfolding read_port
read_port-print_ℕ n h =
    rw (all_digits-All (print_ℕ n) (print_ℕ-All n), read_back n, null_print n) (ground arith)
