-- ===== src/Job/Stored.antt =====
-- What the item has received once a part of a response's body has been read.
use apt_cacher_ng.Base.{
  ℕ, zero, suc, ◌-◌, ◌≡◌, ◌≤◌, refl, sym, ap, ◌∙◌, Bool, true, false, ◌++◌, arith, length, take,
  drop, min, length-drop, append-nil, ◌⊎◌, ◌↔◌, subst, if◌then◌else◌, ◌==◌,
}
use apt_cacher_ng.Job.{
  Sink, Job, Next, stop, go_on, new_data_handler, store_some, add_result, stored, data_read,
  hint_more, hint_switch,
}

module _ (K : Sink) where
  abbrev pub at_once : Job K → ℕ
  at_once j = min (length j.buf) j.rest

  idle : (n : ℕ) (j : Job K) → at_once j ≡ 0 → new_data_handler K n j ≡ data_read K j
  unfolding new_data_handler
  idle zero j h = refl
  idle (suc n) j h = ground arith

  record Read (r : ℕ) (j j' : Job K) : Type 0 where
    item : j'.item ≡ j.item
    buf : j'.buf ≡ j.buf
    rest : j'.rest ≡ j.rest
    switches : (r ≡ hint_switch) ↔ (j.rest ≡ 0)

  data_read-Read : (r : ℕ) (j j' : Job K) → data_read K j ≡ stop r j' → Read r j j'
  unfolding data_read
  data_read-Read r j j' e = record {
    item = ground arith;
    buf = ground arith;
    rest = ground arith;
    switches = ground arith;
  }

  -- What is left once a pass has stored all it could.
  stored-nothing_left : (j : Job K) (s : K.State) → at_once (stored K (at_once j) j s) ≡ 0
  stored-nothing_left j s = omega (arith, length-drop (at_once j) j.buf)

  unfoldable pub after_pass : Next K → Next K
  after_pass (stop r j) = stop r j
  after_pass (go_on j) = new_data_handler K 1 j

  pub first_pass :
      (j : Job K) (m : ℕ)
      → at_once j ≡ suc m
      → j.allow_store_data ≡ true
      → new_data_handler K 2 j
        ≡ after_pass (add_result K (at_once j) j (K.add (take (at_once j) j.buf) j.item))
  unfolding new_data_handler store_some after_pass
  first_pass j m h allow =
      let some_left : (at_once j == 0) ≡ false = ground arith in
      go (at_once j == 0) some_left
      ∙ ap after_pass {x = store_some K (at_once j) j}
          {y = add_result K (at_once j) j (K.add (take (at_once j) j.buf) j.item)} (ground arith)
    where
      go :
          (b : Bool)
          → b ≡ false
          → (if b then data_read K j else elim (store_some K (at_once j) j) [
            | stop r j' ↦ stop r j'
            | go_on j' ↦ new_data_handler K 1 j'
          ])
            ≡ after_pass (store_some K (at_once j) j)
      go true h = absurd (ground arith)
      go false h = same (store_some K (at_once j) j)
        where
          same :
              (t : Next K)
              → (elim t [ stop r j' ↦ stop r j' | go_on j' ↦ new_data_handler K 1 j' ])
                ≡ after_pass t
          same (stop r j) = refl
          same (go_on j) = refl

  abbrev Got : ℕ → Job K → Job K → Type 0
  Got r j j' =
      K.Valid j'.item
      × (K.got j'.item ≡ K.got j.item ++ take (at_once j) j.buf)
      × (j'.buf ≡ drop (at_once j) j.buf)
      × (j'.rest ≡ j.rest - at_once j)
      × ((r ≡ hint_switch) ↔ (j.rest ≤ length j.buf))

  -- NewDataHandler where data is to be stored and the item takes it: as much of the buffer as is
  -- still to come is handed to the item behind all it has, the buffer and the rest lose as much,
  -- and the state switches exactly if that was all.
  pub new_data_handler-got :
      (j j' : Job K) (r : ℕ)
      → j.allow_store_data ≡ true
      → K.Valid j.item
      → new_data_handler K 2 j ≡ stop r j'
      → (r ≡ hint_more) ⊎ (r ≡ hint_switch)
      → let n = min (length j.buf) j.rest in
        K.Valid j'.item
        × (K.got j'.item ≡ K.got j.item ++ take n j.buf)
        × (j'.buf ≡ drop n j.buf)
        × (j'.rest ≡ j.rest - n)
        × ((r ≡ hint_switch) ↔ (j.rest ≤ length j.buf))
  unfolding after_pass
  new_data_handler-got j j' r allow v e ok = go (at_once j) refl
    where
      go : (n : ℕ) → at_once j ≡ n → Got r j j'
      go zero h =
          let d = data_read-Read r j j' (sym (idle 2 j h) ∙ e) in
          (
            subst K.Valid (sym d.item) v,
            ap K.got d.item
                ∙ sym (append-nil (K.got j.item))
                ∙ ap (λ (n : ℕ). K.got j.item ++ take n j.buf) (sym h),
            d.buf ∙ ap (λ (n : ℕ). drop n j.buf) (sym h),
            d.rest ∙ omega arith,
            ground (arith, d.switches),
          )
      go (suc m) h =
          pass (K.add (take (at_once j) j.buf) j.item) refl (sym (first_pass j m h allow) ∙ e)
        where
          pass :
              (a : K.State × Bool)
              → K.add (take (at_once j) j.buf) j.item ≡ a
              → after_pass (add_result K (at_once j) j a) ≡ stop r j'
              → Got r j j'
          pass (s, false) h f = absurd (ground arith)
          pass (s, true) h f =
              let (v', g) = K.add-got (take (at_once j) j.buf) j.item s v h in
              let d =
                data_read-Read r (stored K (at_once j) j s) j'
                  (sym (idle 1 (stored K (at_once j) j s) (stored-nothing_left j s)) ∙ f) in
              (
                subst K.Valid (sym d.item) v',
                ap K.got d.item ∙ g,
                d.buf,
                d.rest,
                ground (arith, d.switches),
              )
