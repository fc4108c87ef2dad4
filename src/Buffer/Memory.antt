-- ===== src/Buffer/Memory.antt =====
-- Memory as a list: what writes, moves and reallocation leave of its front.
use apt_cacher_ng.Base.{
  ℕ, zero, suc, ◌+◌, ◌≤◌, ◌≡◌, refl, ap, ◌∙◌, sym, List, [], ◌∷◌, ◌++◌, append_assoc, arith, Bytes,
  length, take, drop, length-append, length-take, length-drop, take-append,
}
use apt_cacher_ng.Buffer.{poke, resize}

module _ {ℓ} {A : Type ℓ} where
  pub take-drop : (k r m : ℕ) (xs : List A) → m ≡ r + k → take k (drop r xs) ≡ drop r (take m xs)
  take-drop k zero m xs h = ap (λ n. take n xs) (omega arith)
  take-drop k (suc r) zero xs h = absurd (omega arith)
  take-drop zero (suc r) (suc m) [] h = refl
  take-drop (suc k) (suc r) (suc m) [] h = refl
  take-drop k (suc r) (suc m) (x ∷ xs) h = take-drop k r m xs (omega arith)

  pub take-append_front : (k : ℕ) (xs ys : List A) → k ≤ length xs → take k (xs ++ ys) ≡ take k xs
  take-append_front zero xs ys h = refl
  take-append_front (suc k) [] ys h = absurd (omega arith)
  take-append_front (suc k) (x ∷ xs) ys h = ap (◌∷◌ x) (take-append_front k xs ys (omega arith))

  pub take-take : (k m : ℕ) (xs : List A) → k ≤ m → take k (take m xs) ≡ take k xs
  take-take zero m xs h = refl
  take-take (suc k) zero xs h = absurd (omega arith)
  take-take (suc k) (suc m) [] h = refl
  take-take (suc k) (suc m) (x ∷ xs) h = ap (◌∷◌ x) (take-take k m xs (omega arith))

  pub drop-append_front :
      (r : ℕ) (xs ys : List A) → r ≤ length xs → drop r (xs ++ ys) ≡ drop r xs ++ ys
  drop-append_front zero xs ys h = refl
  drop-append_front (suc r) [] ys h = absurd (omega arith)
  drop-append_front (suc r) (x ∷ xs) ys h = drop-append_front r xs ys (omega arith)

  pub drop-drop : (n r m : ℕ) (xs : List A) → m ≡ r + n → drop n (drop r xs) ≡ drop m xs
  drop-drop n zero m xs h = ap (λ k. drop k xs) (omega arith)
  drop-drop n (suc r) zero xs h = absurd (omega arith)
  drop-drop zero (suc r) (suc m) [] h = refl
  drop-drop (suc n) (suc r) (suc m) [] h = refl
  drop-drop n (suc r) (suc m) (x ∷ xs) h = drop-drop n r m xs (omega arith)

  pub drop_all : (n : ℕ) (xs : List A) → length xs ≤ n → drop n xs ≡ []
  drop_all zero [] h = refl
  drop_all zero (x ∷ xs) h = absurd (omega arith)
  drop_all (suc n) [] h = refl
  drop_all (suc n) (x ∷ xs) h = drop_all n xs (omega arith)

pub length-resize : (n : ℕ) (f : ℕ → ℕ) (mem : Bytes) → length (resize n f mem) ≡ n
unfolding resize
length-resize zero f mem = refl
length-resize (suc n) f [] = ap suc (length-resize n f [])
length-resize (suc n) f (x ∷ mem) = ap suc (length-resize n f mem)

pub take-resize :
    (k n : ℕ) (f : ℕ → ℕ) (mem : Bytes)
    → k ≤ n
    → k ≤ length mem
    → take k (resize n f mem) ≡ take k mem
unfolding resize
take-resize zero n f mem h g = refl
take-resize (suc k) zero f mem h g = absurd (omega arith)
take-resize (suc k) (suc n) f [] h g = absurd (omega arith)
take-resize (suc k) (suc n) f (x ∷ mem) h g =
    ap (◌∷◌ x) (take-resize k n f mem (omega arith) (omega arith))

pub length-poke :
    (i : ℕ) (s mem : Bytes) → i + length s ≤ length mem → length (poke i s mem) ≡ length mem
length-poke i s mem h = omega (
  arith,
  length-append (take i mem) (s ++ drop (i + length s) mem),
  length-append s (drop (i + length s) mem),
  length-take i mem,
  length-drop (i + length s) mem,
)

pub take-poke :
    (k i : ℕ) (s mem : Bytes) → k ≤ i → i ≤ length mem → take k (poke i s mem) ≡ take k mem
take-poke k i s mem h g =
    take-append_front k (take i mem) (s ++ drop (i + length s) mem)
      (omega (arith, length-take i mem))
    ∙ take-take k i mem h

pub take-poke_self :
    (i : ℕ) (s mem : Bytes) → i ≤ length mem → take (i + length s) (poke i s mem) ≡ take i mem ++ s
take-poke_self i s mem h =
    ap (take (i + length s)) (sym (append_assoc (take i mem) s (drop (i + length s) mem)))
    ∙ take-append (i + length s) (take i mem ++ s) (drop (i + length s) mem)
        (omega (arith, length-append (take i mem) s, length-take i mem))
