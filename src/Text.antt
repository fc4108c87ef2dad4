-- ===== src/Text.antt =====
-- String helpers of src/astrop.h and src/meta.cc: searches, trimming and the splitter tSplitWalkBase.
pub mod Trimmed
pub mod Pieces
pub mod Decimal
use apt_cacher_ng.Base.{
  ℕ, zero, suc, ◌+◌, ◌-◌, Bool, true, false, not, ◌&&◌, ◌||◌, Option, none, some, List, [], ◌∷◌,
  ◌++◌, Bytes, codes, if◌then◌else◌, ◌==◌, leb, mem_byte, starts_with, length, take, drop, null,
}

-- SPACECHARS.
abbrev pub space_chars : Bytes
space_chars = 32 ∷ 12 ∷ 10 ∷ 13 ∷ 9 ∷ 11 ∷ []

-- "\r\n", the source's svRN.
abbrev pub crlf : Bytes
crlf = 13 ∷ 10 ∷ []

-- `s.find_first_not_of(set)`; `none` is npos.
unfoldable pub find_first_not_of : Bytes → Bytes → Option ℕ
find_first_not_of set [] = none
find_first_not_of set (c ∷ s) =
    let rest = find_first_not_of set s in
    if mem_byte c set then elim rest [ none ↦ none | some n ↦ some (suc n) ] else some 0

-- `s.find_last_not_of(set)`.
unfoldable pub find_last_not_of : Bytes → Bytes → Option ℕ
find_last_not_of set [] = none
find_last_not_of set (c ∷ s) = elim (find_last_not_of set s) [
  | some n ↦ some (suc n)
  | none ↦ if mem_byte c set then none else some 0
]

-- `s.find_first_of(set)`.
unfoldable pub find_first_of : Bytes → Bytes → Option ℕ
find_first_of set [] = none
find_first_of set (c ∷ s) =
    let rest = find_first_of set s in
    if mem_byte c set then some 0 else elim rest [ none ↦ none | some n ↦ some (suc n) ]

-- `s.find(what)`, for a `what` that is not empty.
unfoldable pub find : Bytes → Bytes → Option ℕ
find what [] = none
find what (c ∷ s) =
    let rest = find what s in
    if starts_with (c ∷ s) what then some 0 else elim rest [ none ↦ none | some n ↦ some (suc n) ]

-- trimFront, of a std::string and of a string_view.
unfoldable pub trim_front : Bytes → Bytes → Bytes
trim_front junk s = elim (find_first_not_of junk s) [ none ↦ [] | some p ↦ drop p s ]

-- trimBack of a string_view.
unfoldable pub trim_back : Bytes → Bytes → Bytes
trim_back junk s = elim (find_last_not_of junk s) [ none ↦ [] | some p ↦ take (p + 1) s ]

-- trimBack of a std::string: it erases only when the last good position is above 0.
unfoldable pub trim_back_string : Bytes → Bytes → Bytes
trim_back_string junk s = elim (find_last_not_of junk s) [
  | none ↦ []
  | some p ↦ if leb 1 p then take (p + 1) s else s
]

-- trimBoth of a string_view.
unfoldable pub trim_both : Bytes → Bytes → Bytes
trim_both junk s = trim_front junk (trim_back junk s)

-- The state of tSplitWalkBase, less its separators.
pub record Walk : Type 0 where
  pub input : Bytes
  pub slice_len : ℕ
  pub first : Bool

-- The constructor, and `reset`.
abbrev pub walk_over : Bytes → Walk
walk_over line = record { input = line; slice_len = 0; first = true }

abbrev pub view : Walk → Bytes
view w = take w.slice_len w.input

-- m_slice_len once the separator has been looked for in `input`.
abbrev pub slice_to : Bool → Bytes → Option ℕ → Walk
slice_to first rest none = record { input = rest; slice_len = length rest; first = first }
slice_to first rest (some n) = record { input = rest; slice_len = n; first = first }

-- `Next` of tSplitByStrStrict: the separator is a string, and empty pieces count.
unfoldable pub next_by_str : Bytes → Walk → Option Walk
next_by_str sep w =
    if length w.input == w.slice_len
    then none
    else let rest = drop w.slice_len w.input in
      let rest' = if w.first then rest else drop (length sep) rest in
      some (slice_to false rest' (find sep rest'))

-- `Next` of tSplitWalk: any run of the separator characters parts two pieces. `m_first` is read by
-- `right` alone, and stays true.
unfoldable pub next_by_chars : Bytes → Walk → Option Walk
next_by_chars seps w =
    if length w.input == w.slice_len
    then none
    else let rest = trim_front seps (drop w.slice_len w.input) in
      if null rest then none else some (slice_to w.first rest (find_first_of seps rest))

-- `right` of tSplitWalk: the part of the input behind the current piece, trimmed.
unfoldable pub right_by_chars : Bytes → Walk → Bytes
right_by_chars seps w =
    if length w.input == w.slice_len
    then []
    else let ret = drop w.slice_len w.input in
      trim_both seps (if not w.first && not (null ret) then drop 1 ret else ret)

-- The pieces that `Next` runs through, `to_vector`. `n` bounds the number of calls.
unfoldable pub pieces_by_str : ℕ → Bytes → Walk → List Bytes
pieces_by_str zero sep w = []
pieces_by_str (suc n) sep w = elim (next_by_str sep w) [
  | none ↦ []
  | some w' ↦ view w' ∷ pieces_by_str n sep w'
]
