-- ===== src/ClientJob/Scan.antt =====
-- ParseRange on the ranges that clients send.
use apt_cacher_ng.Base.{
  ℕ, ◌≡◌, refl, ap, ◌∙◌, true, false, Option, none, some, [], ◌∷◌, ◌++◌, arith, Bytes, All, codes,
  ◌==◌, ℤ, pos, starts_with, ◌≢◌,
}
use apt_cacher_ng.Text.{space_chars, trim_front, find_first_not_of}
use apt_cacher_ng.Text.Trimmed.{trim_front_good}
use apt_cacher_ng.Text.Decimal.{
  is_digit, print_ℕ, print_ℕ-All, print_ℕ-ne-nil, StartsNoDigit, after_digits-append,
  digit-ne-space, read_digits, read_digits-print_ℕ, after_digits,
}
use apt_cacher_ng.ClientJob.{
  ClientJob, scan_digits, scan_signed, scan_long, scan_pair, scan_range, parse_range, after_first,
  value_of,
}

-- A digit is no sign.
scan_digit :
    (c : ℕ) (s : Bytes)
    → is_digit c ≡ true
    → scan_long (c ∷ s) ≡ some (pos (read_digits 0 (c ∷ s)), after_digits (c ∷ s))
unfolding scan_long scan_signed scan_digits
scan_digit c s h =
    let minus : c == b'-' ≡ false = ground arith in
    let plus : c == b'+' ≡ false = ground arith in
    rw (trim_front_good space_chars c s (digit-ne-space c h), minus, plus, h)

scan_whole :
    (s rest : Bytes)
    → s ≢ []
    → All (λ c. is_digit c ≡ true) s
    → StartsNoDigit rest
    → scan_long (s ++ rest) ≡ some (pos (read_digits 0 (s ++ rest)), rest)
scan_whole [] rest h g k = absurd (h refl)
scan_whole (c ∷ s) rest h g k =
    scan_digit c (s ++ rest) (g.0)
    ∙ ap (λ r. some (pos (read_digits 0 (c ∷ (s ++ rest))), r))
        (after_digits-append (c ∷ s) rest g k)

scan-print_ℕ :
    (n : ℕ) (rest : Bytes) → StartsNoDigit rest → scan_long (print_ℕ n ++ rest) ≡ some (pos n, rest)
scan-print_ℕ n rest h =
    scan_whole (print_ℕ n) rest (print_ℕ-ne-nil n) (print_ℕ-All n) h
    ∙ ap (λ k. some (pos k, rest)) (read_digits-print_ℕ n rest h)

-- A range as it stands behind "bytes=".
unfoldable pub range_text : ℕ → Option ℕ → Bytes
range_text a none = print_ℕ a ++ codes "-"
range_text a (some b) = print_ℕ a ++ (45 ∷ print_ℕ b ++ [])

abbrev pub range_end : Option ℕ → Option ℤ
range_end none = none
range_end (some b) = some (pos b)

scan_pair-range_text :
    (a : ℕ) (b : Option ℕ) → scan_pair (range_text a b) ≡ some (pos a, range_end b)
unfolding scan_pair range_text scan_long trim_front find_first_not_of
scan_pair-range_text a none = ap after_first (scan-print_ℕ a (codes "-") refl)
scan_pair-range_text a (some b) =
    ap after_first (scan-print_ℕ a (45 ∷ print_ℕ b ++ []) refl)
    ∙ ap (λ r. some (pos a, value_of r)) (scan-print_ℕ b [] tt)

-- A range `bytes=a-b` or `bytes=a-`, in Range, or in Content-Range where there is no Range, is read
-- with its two ends; an end that is not given is left as it was.
pub parse_range-range_text :
    (a : ℕ) (b : Option ℕ) (other : Option Bytes) (j : ClientJob)
    → let text = codes "bytes=" ++ range_text a b in
      let read : ClientJob = record j {
        range_from = pos a;
        range_to = elim b [ none ↦ j.range_to | some n ↦ pos n ];
      } in
      (parse_range (some text) other j ≡ (read, true))
      × (parse_range none (some text) j ≡ (read, true))
unfolding parse_range scan_range starts_with
parse_range-range_text a none other j =
    (rw (scan_pair-range_text a none), rw (scan_pair-range_text a none))
parse_range-range_text a (some n) other j =
    (rw (scan_pair-range_text a (some n)), rw (scan_pair-range_text a (some n)))
