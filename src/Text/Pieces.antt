-- ===== src/Text/Pieces.antt =====
-- The pieces of a split string.
use apt_cacher_ng.Base.{
  ℕ, zero, suc, ◌+◌, ◌≤◌, ◌<◌, ◌≡◌, ◌≢◌, refl, sym, ap, ◌∙◌, inl, inr, true, false, none, some,
  Option, List, [], ◌∷◌, ◌++◌, arith, Bytes, All, starts_with, length, take, drop, take_all,
  length-drop, Bool-cases, Option-cases,
}
use apt_cacher_ng.Text.{find, walk_over, view, slice_to, next_by_str, pieces_by_str}

-- What stands between the separators, put together again.
abbrev pub join : Bytes → List Bytes → Bytes
join sep [] = []
join sep (p ∷ []) = p
join sep (p ∷ q ∷ ps) = p ++ (sep ++ join sep (q ∷ ps))

pub starts_with_split :
    (s what : Bytes) → starts_with s what ≡ true → s ≡ what ++ drop (length what) s
unfolding starts_with
starts_with_split s [] h = refl
starts_with_split [] (y ∷ ys) h = cc
starts_with_split (x ∷ xs) (y ∷ ys) h = ground (arith, starts_with_split xs ys)

pub starts_with-append : (what t : Bytes) → starts_with (what ++ t) what ≡ true
unfolding starts_with
starts_with-append [] t = refl
starts_with-append (x ∷ xs) t = ground (arith, starts_with-append xs t)

-- A place that `find` returns holds the text that was looked for.
pub find_splits :
    (sep s : Bytes) (n : ℕ)
    → find sep s ≡ some n
    → s ≡ take n s ++ (sep ++ drop (length sep) (drop n s))
unfolding find
find_splits sep [] n e = cc
find_splits sep (c ∷ s) n e = elim (Bool-cases (starts_with (c ∷ s) sep)) [
  | inl here ↦ let at : n ≡ 0 = ground arith in rw at (starts_with_split (c ∷ s) sep here)
  | inr not_here ↦ elim (Option-cases (find sep s)) [
    | inl h ↦ ground arith
    | inr (k, h) ↦ let at : n ≡ suc k = ground arith in rw at (ap (◌∷◌ c) (find_splits sep s k h))
  ]
]

pub find-lt : (sep s : Bytes) (n : ℕ) → find sep s ≡ some n → n < length s
unfolding find
find-lt sep [] n e = cc
find-lt sep (c ∷ s) n e = elim (Bool-cases (starts_with (c ∷ s) sep)) [
  | inl here ↦ ground arith
  | inr not_here ↦ elim (Option-cases (find sep s)) [
    | inl h ↦ ground arith
    | inr (k, h) ↦ ground (arith, find-lt sep s k)
  ]
]

pub starts_with_le : (s what : Bytes) → starts_with s what ≡ true → length what ≤ length s
unfolding starts_with
starts_with_le s [] h = omega arith
starts_with_le [] (y ∷ ys) h = cc
starts_with_le (x ∷ xs) (y ∷ ys) h = ground (arith, starts_with_le xs ys)

pub find-fits : (sep s : Bytes) (n : ℕ) → find sep s ≡ some n → n + length sep ≤ length s
unfolding find
find-fits sep [] n e = cc
find-fits sep (c ∷ s) n e = elim (Bool-cases (starts_with (c ∷ s) sep)) [
  | inl here ↦ ground (arith, starts_with_le (c ∷ s) sep)
  | inr not_here ↦ elim (Option-cases (find sep s)) [
    | inl h ↦ ground arith
    | inr (k, h) ↦ ground (arith, find-fits sep s k)
  ]
]

starts_with-take :
    (n : ℕ) (s what : Bytes) → starts_with (take n s) what ≡ true → starts_with s what ≡ true
unfolding starts_with
starts_with-take n s [] h = refl
starts_with-take zero s (y ∷ ys) h = cc
starts_with-take (suc n) [] (y ∷ ys) h = cc
starts_with-take (suc n) (x ∷ xs) (y ∷ ys) h = ground (arith, starts_with-take n xs ys)

-- It is the first such place.
pub find_first : (sep s : Bytes) (n : ℕ) → find sep s ≡ some n → find sep (take n s) ≡ none
unfolding find
find_first sep [] n e = cc
find_first sep (c ∷ s) zero e = refl
find_first sep (c ∷ s) (suc n) e = elim (Bool-cases (starts_with (c ∷ s) sep)) [
  | inl here ↦ ground arith
  | inr not_here ↦ ground (arith, starts_with-take (suc n) (c ∷ s) sep, find_first sep s n)
]

abbrev Lacks : Bytes → Bytes → Type 0
Lacks sep p = find sep p ≡ none

module _ (sep : Bytes) (sep-ne-nil : 0 < length sep) where
  abbrev Rejoins : ℕ → Bytes → Option ℕ → Type 0
  Rejoins n rest at =
      (join sep (view (slice_to false rest at) ∷ pieces_by_str n sep (slice_to false rest at))
        ≡ rest)
      × All (Lacks sep)
          (view (slice_to false rest at) ∷ pieces_by_str n sep (slice_to false rest at))

  shorter :
      (rest : Bytes) (k n : ℕ)
      → find sep rest ≡ some k
      → length rest ≤ suc n
      → length (drop (length sep) (drop k rest)) ≤ n
  shorter rest k n e h =
      omega
        (arith, find-lt sep rest k e, length-drop (length sep) (drop k rest), length-drop k rest)

  next_end : (rest : Bytes) → next_by_str sep (slice_to false rest none) ≡ none
  unfolding next_by_str
  next_end rest = ground arith

  pub next_first :
      (c : ℕ) (s : Bytes)
      → next_by_str sep (walk_over (c ∷ s)) ≡ some (slice_to false (c ∷ s) (find sep (c ∷ s)))
  unfolding next_by_str
  next_first c s = ground arith

  pub next_mid :
      (rest : Bytes) (k : ℕ)
      → k < length rest
      → let r = drop (length sep) (drop k rest) in
        next_by_str sep (slice_to false rest (some k)) ≡ some (slice_to false r (find sep r))
  unfolding next_by_str
  next_mid rest k h = ground arith

  -- From a place where the next separator has been looked for.
  rest-Rejoins : (n : ℕ) (rest : Bytes) → length rest ≤ n → Rejoins n rest (find sep rest)
  unfolding pieces_by_str
  rest-Rejoins zero [] h = unfold find in (refl, (refl, tt))
  rest-Rejoins zero (c ∷ rest) h = absurd (omega arith)
  rest-Rejoins (suc n) rest h = elim (Option-cases (find sep rest)) [
    | inl e ↦
        rw (e, pieces_by_str, next_end rest)
          (let all = take_all (length rest) rest (omega arith) in (all, (rw all e, tt)))
    | inr (k, e) ↦
        let (joined, lacking) =
          rest-Rejoins n (drop (length sep) (drop k rest)) (shorter rest k n e h) in
        rw (e, pieces_by_str, next_mid rest k (find-lt sep rest k e))
          (
            ap (λ t. take k rest ++ (sep ++ t)) joined ∙ sym (find_splits sep rest k e),
            (find_first sep rest k e, lacking),
          )
  ]

  -- Splitting a text that is not empty at a separator that is not empty loses nothing and leaves
  -- no separator in a piece.
  pub pieces_join :
      (s : Bytes)
      → s ≢ []
      → (join sep (pieces_by_str (suc (length s)) sep (walk_over s)) ≡ s)
        × All (Lacks sep) (pieces_by_str (suc (length s)) sep (walk_over s))
  unfolding pieces_by_str
  pieces_join [] h = absurd (h refl)
  pieces_join (c ∷ s) h =
      rw (next_first c s, pieces_by_str) (rest-Rejoins (length (c ∷ s)) (c ∷ s) (omega arith))
