-- ===== src/Text/Trimmed.antt =====
-- What trimming removes and what it leaves.
use native.Mathlib.Numerals.{add-one}
use apt_cacher_ng.Base.{
  sym, append-nil, length, take_all, ℕ, suc, ◌≡◌, refl, inl, inr, true, false, none, some, [], ◌∷◌,
  ◌++◌, arith, Bytes, All, mem_byte, take, drop, take-append-drop, Bool-cases, Option-cases,
}
use apt_cacher_ng.Text.{
  find_first_not_of, find_last_not_of, trim_front, trim_back, trim_back_string, trim_both,
}

abbrev pub Junk : Bytes → Bytes → Type 0
Junk junk = All (λ c. mem_byte c junk ≡ true)

-- The text does not end in a junk byte.
abbrev pub EndsClean : Bytes → Bytes → Type 0
EndsClean junk [] = Unit
EndsClean junk (c ∷ []) = mem_byte c junk ≡ false
EndsClean junk (c ∷ d ∷ s) = EndsClean junk (d ∷ s)

abbrev pub StartsClean : Bytes → Bytes → Type 0
StartsClean junk [] = Unit
StartsClean junk (c ∷ s) = mem_byte c junk ≡ false

no_last : (junk s : Bytes) → find_last_not_of junk s ≡ none → Junk junk s
unfolding find_last_not_of
no_last junk [] e = tt
no_last junk (c ∷ s) e = ground (arith, no_last junk s)

all-Junk : (junk s : Bytes) → Junk junk s → find_last_not_of junk s ≡ none
unfolding find_last_not_of
all-Junk junk [] h = refl
all-Junk junk (c ∷ s) h = ground (arith, all-Junk junk s h.1)

-- Where `find_last_not_of` stops: what follows is junk, and what it keeps does not end in junk.
last_cut :
    (junk s : Bytes) (p : ℕ)
    → find_last_not_of junk s ≡ some p
    → Junk junk (drop (suc p) s) × EndsClean junk (take (suc p) s)
unfolding find_last_not_of
last_cut junk [] p e = cc
last_cut junk (c ∷ []) p e = elim (Bool-cases (mem_byte c junk)) [
  | inl bad ↦ ground arith
  | inr good ↦ let at : p ≡ 0 = ground arith in rw at (tt, good)
]
last_cut junk (c ∷ d ∷ s) p e = elim (Option-cases (find_last_not_of junk (d ∷ s))) [
  | inl h ↦ let at : p ≡ 0 = ground arith in rw at (no_last junk (d ∷ s) h, ground arith)
  | inr (n, h) ↦ let at : p ≡ suc n = ground arith in rw at (last_cut junk (d ∷ s) n h)
]

no_first : (junk s : Bytes) → find_first_not_of junk s ≡ none → Junk junk s
unfolding find_first_not_of
no_first junk [] e = tt
no_first junk (c ∷ s) e = ground (arith, no_first junk s)

first_cut :
    (junk s : Bytes) (p : ℕ)
    → find_first_not_of junk s ≡ some p
    → Junk junk (take p s) × StartsClean junk (drop p s)
unfolding find_first_not_of
first_cut junk [] p e = cc
first_cut junk (c ∷ s) p e = elim (Bool-cases (mem_byte c junk)) [
  | inr good ↦ let at : p ≡ 0 = ground arith in rw at (tt, good)
  | inl bad ↦ elim (Option-cases (find_first_not_of junk s)) [
    | inl h ↦ ground arith
    | inr (n, h) ↦
        let at : p ≡ suc n = ground arith in
        let (x, y) = first_cut junk s n h in rw at ((bad, x), y)
  ]
]

-- `t` is `s` less a tail of junk, and the whole tail is gone.
pub record BackTrimmed (junk s t : Bytes) : Type 0 where
  pub gone : Bytes
  pub splits : s ≡ t ++ gone
  pub is_junk : Junk junk gone
  pub clean : EndsClean junk t

pub record FrontTrimmed (junk s t : Bytes) : Type 0 where
  pub gone : Bytes
  pub splits : s ≡ gone ++ t
  pub is_junk : Junk junk gone
  pub clean : StartsClean junk t

pub trim_back-BackTrimmed : (junk s : Bytes) → BackTrimmed junk s (trim_back junk s)
unfolding trim_back
trim_back-BackTrimmed junk s = elim (Option-cases (find_last_not_of junk s)) [
  | inl h ↦
      rw (h, trim_back) (record { gone = s; splits = refl; is_junk = no_last junk s h; clean = tt })
  | inr (p, h) ↦
      rw (h, trim_back, add-one)
        (record {
          gone = drop (suc p) s;
          splits = sym (take-append-drop (suc p) s);
          is_junk = (last_cut junk s p h).0;
          clean = (last_cut junk s p h).1;
        })
]

pub trim_front-FrontTrimmed : (junk s : Bytes) → FrontTrimmed junk s (trim_front junk s)
unfolding trim_front
trim_front-FrontTrimmed junk s = elim (Option-cases (find_first_not_of junk s)) [
  | inl h ↦
      rw (h, trim_front)
        (record { gone = s; splits = sym (append-nil s); is_junk = no_first junk s h; clean = tt })
  | inr (p, h) ↦
      rw (h, trim_front)
        (record {
          gone = take p s;
          splits = sym (take-append-drop p s);
          is_junk = (first_cut junk s p h).0;
          clean = (first_cut junk s p h).1;
        })
]

-- A text whose only byte to keep is its first is not shortened by trimBack of a std::string, and
-- is by that of a string_view.
trim_back_string_keeps :
    (junk : Bytes) (c : ℕ) (t : Bytes)
    → mem_byte c junk ≡ false
    → Junk junk t
    → (trim_back_string junk (c ∷ t) ≡ c ∷ t) × (trim_back junk (c ∷ t) ≡ c ∷ [])
unfolding trim_back_string trim_back find_last_not_of
trim_back_string_keeps junk c t good bad = ground (arith, all-Junk junk t bad)

pub trim_front_good :
    (junk : Bytes) (c : ℕ) (s : Bytes) → mem_byte c junk ≡ false → trim_front junk (c ∷ s) ≡ c ∷ s
unfolding trim_front find_first_not_of
trim_front_good junk c s h = ground arith

pub trim_front_junk :
    (junk : Bytes) (c : ℕ) (s : Bytes)
    → mem_byte c junk ≡ true
    → trim_front junk (c ∷ s) ≡ trim_front junk s
unfolding trim_front find_first_not_of
trim_front_junk junk c s h = ground arith

-- A text that neither begins nor ends with junk is left as it is.
trim_front-StartsClean : (junk s : Bytes) → StartsClean junk s → trim_front junk s ≡ s
unfolding trim_front find_first_not_of
trim_front-StartsClean junk [] h = refl
trim_front-StartsClean junk (c ∷ s) h = trim_front_good junk c s h

last_clean :
    (junk : Bytes) (c : ℕ) (s : Bytes)
    → EndsClean junk (c ∷ s)
    → find_last_not_of junk (c ∷ s) ≡ some (length s)
unfolding find_last_not_of
last_clean junk c [] h = ground arith
last_clean junk c (d ∷ s) h = rw (last_clean junk d s h, find_last_not_of)

pub trim_back-EndsClean : (junk s : Bytes) → EndsClean junk s → trim_back junk s ≡ s
unfolding trim_back
trim_back-EndsClean junk [] k = unfold find_last_not_of in refl
trim_back-EndsClean junk (c ∷ s) k =
    rw (last_clean junk c s k, trim_back, add-one) (take_all (suc (length s)) (c ∷ s) (omega arith))

pub trim_both_clean :
    (junk s : Bytes) → StartsClean junk s → EndsClean junk s → trim_both junk s ≡ s
unfolding trim_both
trim_both_clean junk s h k = rw (trim_back-EndsClean junk s k) (trim_front-StartsClean junk s h)
