-- ===== src/HeadFile/OneLines.antt =====
-- The lines of a `.head` file, as the splitter finds them.
use apt_cacher_ng.Base.{
  ◌≡◌, refl, ap, ◌∙◌, true, false, none, some, [], ◌∷◌, ◌++◌, arith, Bytes, All, codes, starts_with,
  length, drop, take-append, drop-append, length-append,
}
use apt_cacher_ng.Text.{crlf, find, Walk, view, slice_to, next_by_str}
use apt_cacher_ng.Text.Pieces.{next_mid}
use apt_cacher_ng.Text.Decimal.{is_digit}

abbrev pub OneLine : Bytes → Type 0
OneLine line = find crlf line ≡ none

-- The first line break is the one behind the line.
pub find_line :
    (line rest : Bytes) → OneLine line → find crlf (line ++ (crlf ++ rest)) ≡ some (length line)
unfolding find starts_with
find_line [] rest h = refl
find_line (c ∷ []) rest h = ground arith
find_line (c ∷ d ∷ s) rest h = ground (arith, find_line (d ∷ s) rest)

-- The splitter stands at the line `prev`, and `rest` follows.
abbrev pub at : Bytes → Bytes → Walk
at prev rest = slice_to false (prev ++ (crlf ++ rest)) (some (length prev))

pub next_line :
    (prev rest : Bytes)
    → next_by_str crlf (at prev rest) ≡ some (slice_to false rest (find crlf rest))
next_line prev rest =
    next_mid crlf (omega arith) (prev ++ (crlf ++ rest)) (length prev)
      (omega (arith, length-append prev (crlf ++ rest)))
    ∙ ap (λ t. some (slice_to false t (find crlf t)))
        (ap (drop 2) (drop-append (length prev) prev (crlf ++ rest) refl))

pub next_full_line :
    (prev line rest : Bytes)
    → OneLine line
    → next_by_str crlf (at prev (line ++ (crlf ++ rest))) ≡ some (at line rest)
next_full_line prev line rest h =
    next_line prev (line ++ (crlf ++ rest))
    ∙ ap (λ f. some (slice_to false (line ++ (crlf ++ rest)) f)) (find_line line rest h)

pub view_line : (line rest : Bytes) → view (at line rest) ≡ line
view_line line rest = take-append (length line) line (crlf ++ rest) refl

pub origin_OneLine : (o : Bytes) → OneLine o → OneLine (codes "X-Original-Source: " ++ o)
unfolding find starts_with
origin_OneLine o h = ground arith

pub date_OneLine : (d : Bytes) → OneLine d → OneLine (codes "Last-Modified: " ++ d)
unfolding find starts_with
date_OneLine d h = ground arith

pub length_OneLine : (l : Bytes) → OneLine l → OneLine (codes "Content-Length: " ++ l)
unfolding find starts_with
length_OneLine l h = ground arith

pub digits_OneLine : (s : Bytes) → All (λ c. is_digit c ≡ true) s → OneLine s
unfolding find starts_with
digits_OneLine [] h = refl
digits_OneLine (c ∷ s) h = ground (arith, digits_OneLine s h.1)
