-- ===== src/Header/Ends.antt =====
-- Where a piece of Load's text ends, in the text and in the text with more behind it.
use apt_cacher_ng.Base.{
  ℕ, zero, suc, ◌+◌, ◌-◌, ◌≡◌, ◌≤◌, refl, sym, ap, ◌∙◌, false, some, [], ◌∷◌, ◌++◌, arith, Bytes,
  length, take, drop, starts_with, pos, Bool-cases, Option-cases, inl, inr, length-append,
  length-drop,
}
use apt_cacher_ng.Text.{crlf, find, Walk, view, slice_to, next_by_str}
use apt_cacher_ng.Text.Pieces.{starts_with_le, find-fits, find-lt, next_mid}
use apt_cacher_ng.Header.{Loading, Outcome, returns, Turn, on, out, more, has}
use apt_cacher_ng.Header.Lines.{ended, line_turn, load_lines}

pub starts_with_append_right :
    (s m what : Bytes) → length what ≤ length s → starts_with (s ++ m) what ≡ starts_with s what
unfolding starts_with
starts_with_append_right s m [] h = refl
starts_with_append_right [] m (y ∷ ys) h = absurd (omega arith)
starts_with_append_right (x ∷ xs) m (y ∷ ys) h = ground (arith, starts_with_append_right xs m ys)

-- A separator that is there stays the first one.
pub find-append : (sep s m : Bytes) (n : ℕ) → find sep s ≡ some n → find sep (s ++ m) ≡ some n
unfolding find
find-append sep [] m n e = cc
find-append sep (c ∷ s) m n e = elim (Bool-cases (starts_with (c ∷ s) sep)) [
  | inl here ↦ ground (arith, starts_with_le (c ∷ s) sep, starts_with_append_right (c ∷ s) m sep)
  | inr not_here ↦ elim (Option-cases (find sep s)) [
    | inl h ↦ ground arith
    | inr (k, h) ↦
        ground
          (arith, find-append sep s m k, find-fits sep s k, starts_with_append_right (c ∷ s) m sep)
  ]
]

pub take-append_le : (n : ℕ) (s m : Bytes) → n ≤ length s → take n (s ++ m) ≡ take n s
take-append_le zero s m h = refl
take-append_le (suc n) [] m h = absurd (omega arith)
take-append_le (suc n) (x ∷ s) m h = ap (◌∷◌ x) (take-append_le n s m (omega arith))

pub drop-append_le : (n : ℕ) (s m : Bytes) → n ≤ length s → drop n (s ++ m) ≡ drop n s ++ m
drop-append_le zero s m h = refl
drop-append_le (suc n) [] m h = absurd (omega arith)
drop-append_le (suc n) (x ∷ s) m h = drop-append_le n s m (omega arith)

-- The walk at the start of a piece.
abbrev pub at : Bytes → Walk
at rest = slice_to false rest (find crlf rest)

-- The text behind a piece and its CRLF.
abbrev pub behind : ℕ → Bytes → Bytes
behind k rest = drop (length crlf) (drop k rest)

pub next-at :
    (rest : Bytes) (k : ℕ)
    → find crlf rest ≡ some k
    → next_by_str crlf (at rest) ≡ some (at (behind k rest))
next-at rest k e = rw e (next_mid crlf (omega arith) rest k (find-lt crlf rest k e))

pub behind-append :
    (rest m : Bytes) (k : ℕ) → find crlf rest ≡ some k → behind k (rest ++ m) ≡ behind k rest ++ m
behind-append rest m k e =
    rw (drop-append_le k rest m (omega (arith, find-lt crlf rest k e))) (
      drop-append_le 2 (drop k rest) m (omega (arith, find-fits crlf rest k e, length-drop k rest)))

-- A turn reads nothing of the walk but these.
pub line_turn-cong :
    (total total₂ : ℕ) (w w₂ : Walk) (l : Loading)
    → view w ≡ view w₂
    → ended total (next_by_str crlf w) ≡ ended total₂ (next_by_str crlf w₂)
    → more w ≡ more w₂
    → line_turn total w l ≡ line_turn total₂ w₂ l
unfolding line_turn
line_turn-cong total total₂ w w₂ l hv he hm = ground arith

pub at-input : (rest : Bytes) → (at rest).input ≡ rest
at-input rest = ground arith

pub less-append : (total : ℕ) (s m : Bytes) → total + length m - length (s ++ m) ≡ total - length s
less-append total s m = omega (arith, length-append s m)

pub turn-append :
    (total : ℕ) (rest m : Bytes) (l : Loading) (k : ℕ)
    → find crlf rest ≡ some k
    → line_turn (total + length m) (at (rest ++ m)) l ≡ line_turn total (at rest) l
turn-append total rest m l k e =
    let e' = find-append crlf rest m k e in
    let next = next-at rest k e in
    let next' = next-at (rest ++ m) k e' in
    line_turn-cong (total + length m) total (at (rest ++ m)) (at rest) l
      (rw (e, e') (take-append_le k rest m (omega (arith, find-lt crlf rest k e))))
      (ap (ended (total + length m)) next'
        ∙ ap returns (
            ap pos (
              ap (λ t. total + length m - length t)
                (at-input (behind k (rest ++ m)) ∙ behind-append rest m k e)
              ∙ less-append total (behind k rest) m
              ∙ ap (λ t. total - length t) (sym (at-input (behind k rest)))))
        ∙ sym (ap (ended total) next))
      (ap has next' ∙ sym (ap has next))

abbrev pub after_turn : ℕ → ℕ → Walk → Turn → Outcome × Loading
after_turn n total w (out o l) = (o, l)
after_turn n total w (on l) = load_lines n total w l

-- The loop from the start of a piece on.
abbrev pub from_piece : ℕ → ℕ → Bytes → Loading → Outcome × Loading
from_piece n total rest l = after_turn n total (at rest) (line_turn total (at rest) l)

-- A header that was found, and its length.
abbrev pub Found : Outcome → Type 0
Found o = (n : ℕ) × (o ≡ returns (pos (suc n)))
