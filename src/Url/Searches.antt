-- ===== src/Url/Searches.antt =====
-- Searches of ahttpurl.cc in a text without the byte that is searched for.
use native.Mathlib.Numerals.{add-one}
use apt_cacher_ng.Base.{
  ℕ, suc, ◌+◌, ◌≡◌, refl, sym, ap, ◌∙◌, false, some, none, [], ◌∷◌, ◌++◌, arith, Bytes, All, ◌==◌,
  length, starts_with, drop,
}
use apt_cacher_ng.Text.{find}
use apt_cacher_ng.Url.{rfind, first_is, last_is}

-- Searches in a text whose bytes all differ from the one searched for.
abbrev pub Without : ℕ → Bytes → Type 0
Without c = All (λ x. (x == c) ≡ false)

pub rfind-Without : (c : ℕ) (s : Bytes) → Without c s → rfind c s ≡ none
unfolding rfind
rfind-Without c [] h = refl
rfind-Without c (x ∷ s) h = rw (rfind-Without c s h.1, h.0)

pub rfind-append : (c : ℕ) (s t : Bytes) → Without c t → rfind c (s ++ c ∷ t) ≡ some (length s)
unfolding rfind
rfind-append c [] t h = ground (arith, rfind-Without c t h)
rfind-append c (x ∷ s) t h = rw (rfind-append c s t h)

pub find-Without : (c : ℕ) (w s : Bytes) → Without c s → find (c ∷ w) s ≡ none
unfolding find starts_with
find-Without c w [] h = refl
find-Without c w (x ∷ s) h = rw (h.0, find-Without c w s h.1)

pub find-append : (c : ℕ) (s t : Bytes) → Without c s → find (c ∷ []) (s ++ c ∷ t) ≡ some (length s)
unfolding find starts_with
find-append c [] t h = ground arith
find-append c (x ∷ s) t h = rw (h.0, find-append c s t h.1)

pub first_is-Without : (d : ℕ) (s : Bytes) → Without d s → first_is (λ c. c == d) s ≡ false
first_is-Without d [] h = refl
first_is-Without d (x ∷ s) h = h.0

pub last_is-Without : (c : ℕ) (s : Bytes) → Without c s → last_is c s ≡ false
last_is-Without c [] h = refl
last_is-Without c (x ∷ []) h = h.0
last_is-Without c (x ∷ y ∷ s) h = last_is-Without c (y ∷ s) h.1

pub drop_behind : (c : ℕ) (s t : Bytes) → drop (length s + 1) (s ++ c ∷ t) ≡ t
drop_behind c [] t = refl
drop_behind c (x ∷ s) t =
    ap (λ k. drop k (x ∷ (s ++ c ∷ t)))
      (add-one (suc (length s)) ∙ ap suc (sym (add-one (length s))))
    ∙ drop_behind c s t
