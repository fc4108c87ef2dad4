-- ===== src/RemoteDb/Resolve.antt =====
-- The repository of a URL is that of the longest prefix of its path.
use apt_cacher_ng.Base.{
  ℕ, ◌≤◌, ◌<◌, ◌≡◌, ◌≢◌, ◌⊎◌, inl, inr, refl, ap, ◌∙◌, sym, Bool, true, false, ◌&&◌, Bool-cases,
  Option, none, some, List, [], ◌∷◌, ◌++◌, arith, Bytes, ltb, length, drop, length-append,
  drop-append, starts_with, length-drop, subst, leb,
}
use apt_cacher_ng.RemoteDb.{UrlMap, best_hit, residual, get_rep_name_and_path_residual}

-- A path that is longer than a prefix that is not empty.
abbrev pub Leads : Bytes → Bytes → Type 0
Leads path prefix = (0 < length prefix) × (rest : Bytes) × (rest ≢ []) × (path ≡ prefix ++ rest)

-- An entry of a list.
abbrev pub Has : Bytes → ℕ → List (Bytes × ℕ) → Type 0
Has prefix repo [] = ⊥
Has prefix repo ((p, r) ∷ repos) = ((prefix ≡ p) × (repo ≡ r)) ⊎ Has prefix repo repos

-- No prefix in the list that the path leads over is longer than `n`.
abbrev pub NoLonger : Bytes → ℕ → List (Bytes × ℕ) → Type 0
NoLonger path n [] = Unit
NoLonger path n ((p, r) ∷ repos) = ((length p ≤ n) ⊎ (¬ Leads path p)) × NoLonger path n repos

starts_with-drop : (s p : Bytes) → starts_with s p ≡ true → s ≡ p ++ drop (length p) s
unfolding starts_with
starts_with-drop s [] h = refl
starts_with-drop [] (y ∷ ys) h = cc
starts_with-drop (x ∷ xs) (y ∷ ys) h = ground (arith, starts_with-drop xs ys)

starts_with-append : (p rest : Bytes) → starts_with (p ++ rest) p ≡ true
unfolding starts_with
starts_with-append [] rest = refl
starts_with-append (x ∷ p) rest = ground (arith, starts_with-append p rest)

-- The test of the loop, but for the comparison with the best so far.
abbrev fits : Bytes → Bytes → Bool
fits path prefix = ltb (length prefix) (length path) && starts_with path prefix

fits-Leads : (path prefix : Bytes) → 0 < length prefix → fits path prefix ≡ true → Leads path prefix
fits-Leads path prefix h g = (
  h,
  drop (length prefix) path,
  λ e. absurd (ground (arith, ap length e, length-drop (length prefix) path)),
  starts_with-drop path prefix (ground arith),
)

Leads-fits : (path prefix : Bytes) → Leads path prefix → fits path prefix ≡ true
Leads-fits path prefix (h, [], ne, e) = absurd (ne refl)
Leads-fits path prefix (h, c ∷ rest, ne, e) =
    rw e (ground (arith, length-append prefix (c ∷ rest), starts_with-append prefix (c ∷ rest)))

either :
    (path p : Bytes) (n : ℕ) → (Leads path p → length p ≤ n) → (length p ≤ n) ⊎ (¬ Leads path p)
either path p n h = elim (Bool-cases (leb (length p) n)) [
  | inl le ↦ inl (ground arith)
  | inr longer ↦ inr (λ l. absurd (ground (arith, h l)))
]

-- What the loop ends with: what it began with, or the entry that it found.
record Best (path : Bytes) (repos : List (Bytes × ℕ)) (best : ℕ) (hit : Option ℕ) (m : ℕ × Option ℕ)
    : Type 0 where
  pub grown : best ≤ m.0
  pub longest : NoLonger path m.0 repos
  pub found :
      ((m.0 ≡ best) × (m.1 ≡ hit))
      ⊎ ((prefix : Bytes) × (repo : ℕ) × Has prefix repo repos
          × (m.1 ≡ some repo)
          × (length prefix ≡ m.0)
          × Leads path prefix)

best_hit-Best :
    (path : Bytes) (repos : List (Bytes × ℕ)) (best : ℕ) (hit : Option ℕ)
    → Best path repos best hit (best_hit path repos best hit)
unfolding best_hit
best_hit-Best path [] best hit = record {
  grown = omega arith;
  longest = tt;
  found = inl (refl, refl);
}
best_hit-Best path ((prefix, repo) ∷ repos) best hit =
    elim (Bool-cases
      (ltb best (length prefix) && ltb (length prefix) (length path) && starts_with path prefix)) [
        | inl better ↦
            let v = best_hit-Best path repos (length prefix) (some repo) in
            rw better (record {
              grown = omega (arith, v.grown, longer better);
              longest = (inl v.grown, v.longest);
              found = inr (elim v.found [
                | inl (e, f) ↦ (
                  prefix,
                  repo,
                  inl (refl, refl),
                  f,
                  sym e,
                  fits-Leads path prefix (omega (arith, longer better)) (fitting better),
                )
                | inr (p, r, there, f, len, l) ↦ (p, r, inr there, f, len, l)
              ]);
            })
        | inr worse ↦
            let v = best_hit-Best path repos best hit in
            rw worse (record {
              grown = v.grown;
              longest = (either path prefix _ (λ l. shorter worse l v.grown), v.longest);
              found = elim v.found [
                | inl same ↦ inl same
                | inr (p, r, there, f, len, l) ↦ inr (p, r, inr there, f, len, l)
              ];
            })
      ]
  where
    longer :
        ltb best (length prefix) && ltb (length prefix) (length path) && starts_with path prefix
          ≡ true
        → best < length prefix
    longer h = ground arith

    fitting :
        ltb best (length prefix) && ltb (length prefix) (length path) && starts_with path prefix
          ≡ true
        → fits path prefix ≡ true
    fitting h = ground arith

    shorter :
        {b : ℕ}
        → ltb best (length prefix) && ltb (length prefix) (length path) && starts_with path prefix
          ≡ false
        → Leads path prefix
        → best ≤ b
        → length prefix ≤ b
    shorter h l le = ground (arith, Leads-fits path prefix l)

-- What a lookup answers: the repository of an entry whose prefix the path leads over, with the rest
-- of the path, and no entry with a longer one; or nothing, where the path leads over none.
abbrev pub Resolved : Bytes → List (Bytes × ℕ) → Option (ℕ × Bytes) → Type 0
Resolved path repos none = NoLonger path 0 repos
Resolved path repos (some (repo, rest)) =
    (prefix : Bytes) × Has prefix repo repos
    × (path ≡ prefix ++ rest)
    × (rest ≢ [])
    × NoLonger path (length prefix) repos

residual-Resolved :
    (path : Bytes) (repos : List (Bytes × ℕ)) (m : ℕ × Option ℕ)
    → Best path repos 0 none m
    → Resolved path repos (residual path m)
residual-Resolved path repos (best, none) v = elim v.found [
  | inl (e, f) ↦ subst (λ n. NoLonger path n repos) e v.longest
  | inr (p, r, there, f, len, l) ↦ cc
]
residual-Resolved path repos (best, some repo) v = elim v.found [
  | inl (e, f) ↦ cc
  | inr (p, r, there, f, len, (h, rest, ne, e)) ↦
      let same : r ≡ repo = cc in
      let left : drop best path ≡ rest = ap (drop best) e ∙ drop-append best p rest (sym len) in
      (
        p,
        subst (λ i. Has p i repos) same there,
        e ∙ ap (λ q. p ++ q) (sym left),
        λ none_left. ne (sym left ∙ none_left),
        subst (λ n. NoLonger path n repos) (sym len) v.longest,
      )
]

-- GetRepNameAndPathResidual finds, among the rules for the host, the one with the longest prefix of
-- the path that is not empty and not the whole path, and answers with its repository and the rest of
-- the path; it finds nothing only if no rule has such a prefix.
pub get_rep_name_and_path_residual_longest :
    (m : UrlMap) (key path : Bytes)
    → Resolved path (m key) (get_rep_name_and_path_residual m key path)
unfolding get_rep_name_and_path_residual
get_rep_name_and_path_residual_longest m key path =
    residual-Resolved path (m key) (best_hit path (m key) 0 none)
      (best_hit-Best path (m key) 0 none)
