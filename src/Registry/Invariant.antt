-- ===== src/Registry/Invariant.antt =====
-- The registry and its holders: an item is in the map under one key, or not at all, and its use
-- count is the number of its holders.
use apt_cacher_ng.Base.{
  ℕ, ◌+◌, ◌-◌, ◌≤◌, ◌<◌, ◌≡◌, ◌↔◌, refl, ap, Bool, none, some, List, [], ◌∷◌, ◌++◌, arith, Bytes,
  if◌then◌else◌, ◌==◌, ltb, equal, equal_iff, Bool-cases, Option-cases, inl, inr, subst,
}
use apt_cacher_ng.FileItem.{FileItem, SpecialPurposeAttr}
use apt_cacher_ng.Registry.{
  Registry, Config, lookup, erase, reg_new, new_private, share, abandon_replace, set_item,
}
use apt_cacher_ng.Registry.Holders.{unreg, expired_item, expiry_date, release_holder, lingers}

-- How many of the holders hold an item.
abbrev pub count : ℕ → List ℕ → ℕ
count id [] = 0
count id (h ∷ holders) = (if id == h then 1 else 0) + count id holders

abbrev pub remove_one : ℕ → List ℕ → List ℕ
remove_one a [] = []
remove_one a (x ∷ xs) = if a == x then xs else x ∷ remove_one a xs

pub count-remove_one :
    (a b : ℕ) (xs : List ℕ)
    → 0 < count b xs
    → count a (remove_one b xs) + (if a == b then 1 else 0) ≡ count a xs
count-remove_one a b [] h = elim h [ ]
count-remove_one a b (x ∷ xs) h = ground (arith, count-remove_one a b xs)

pub count-append :
    (id : ℕ) (held kept : List ℕ) → count id (held ++ kept) ≡ count id held + count id kept
count-append id [] kept = omega arith
count-append id (h ∷ held) kept = ground (arith, count-append id held kept)

pub lookup-erase :
    (k j : Bytes) (m : List (Bytes × ℕ))
    → lookup j (erase k m) ≡ (if equal k j then none else lookup j m)
unfolding lookup erase
lookup-erase k j [] = ground arith
lookup-erase k j ((i, v) ∷ m) =
    ground (arith, equal_iff k j, equal_iff i k, equal_iff i j, lookup-erase k j m)

-- The ids of the holders in the queue.
abbrev pub queued : List (ℕ × ℕ) → List ℕ
queued [] = []
queued ((id, t) ∷ q) = id ∷ queued q

pub queued-append : (p q : List (ℕ × ℕ)) → queued (p ++ q) ≡ queued p ++ queued q
queued-append [] q = refl
queued-append ((id, t) ∷ p) q = ap (◌∷◌ id) (queued-append p q)

-- `strays` are the holders that Create made on a conflict and did not count.
pub record Inv (strays holders : List ℕ) (r : Registry) : Type 0 where
  -- The map's entries and the items' references are each other's inverse.
  pub linked : (k : Bytes) (id : ℕ) → (lookup k r.map_items ≡ some id) ↔ (r.glob_ref id ≡ some k)
  pub counts : (id : ℕ) → (r.heap id).usercount ≡ count id holders + count id (queued r.prolonged)
  -- Nobody is in the map without a user.
  pub in_use : (id : ℕ) (k : Bytes) → r.glob_ref id ≡ some k → 0 < (r.heap id).usercount
  pub unmade : (id : ℕ) → r.next_id ≤ id → (r.glob_ref id ≡ none) × ((r.heap id).usercount ≡ 0)
  -- The item of such a holder is in no map and has no other.
  pub apart :
      (id : ℕ)
      → 0 < count id strays
      → (r.glob_ref id ≡ none) × ((r.heap id).usercount ≡ 0) × (id < r.next_id)

module _ {strays : List ℕ} (holders : List ℕ) (r : Registry) (v : Inv strays holders r) where
  pub reg_new-Inv :
      (path : Bytes) (attr : SpecialPurposeAttr)
      → lookup path r.map_items ≡ none
      → Inv strays ((reg_new path attr r).1 ∷ holders) (reg_new path attr r).0
  unfolding reg_new lookup
  reg_new-Inv path attr free = record {
    linked = λ k id. ground (
      arith,
      v.linked k id,
      v.linked path id,
      v.unmade r.next_id,
      v.unmade id,
      equal_iff path k,
      v.linked k r.next_id,
    );
    counts = λ id. ground (arith, v.counts id, v.unmade r.next_id, v.counts r.next_id);
    in_use = λ id k h. ground (arith, v.in_use id k);
    unmade = λ id h. ground (arith, v.unmade id);
    apart = λ id h. ground (arith, v.apart id);
  }

  pub new_private-Inv :
      (path : Bytes) (attr : SpecialPurposeAttr)
      → Inv strays ((new_private path attr r).1 ∷ holders) (new_private path attr r).0
  unfolding new_private
  new_private-Inv path attr = record {
    linked = λ k id. ground (arith, v.linked k id);
    counts = λ id. ground (arith, v.counts id, v.unmade r.next_id, v.counts r.next_id);
    in_use = λ id k h. ground (arith, v.in_use id k);
    unmade = λ id h. ground (arith, v.unmade id);
    apart = λ id h. ground (arith, v.apart id);
  }

  pub share-Inv :
      (path : Bytes) (id : ℕ)
      → lookup path r.map_items ≡ some id
      → Inv strays (id ∷ holders) (share id r).0
  unfolding share
  share-Inv path id there = record {
    linked = λ k j. ground (arith, v.linked k j);
    counts = λ j. ground (arith, v.counts j);
    in_use = λ j k h. ground (arith, v.in_use j k);
    unmade = λ j h. ground (arith, v.unmade j, v.linked path id);
    apart = λ j h. ground (arith, v.apart j, v.linked path id);
  }

  pub abandon_replace-Inv :
      (cfg : Config) (now : ℕ) (path : Bytes) (attr : SpecialPurposeAttr) (id : ℕ)
      → lookup path r.map_items ≡ some id
      → Inv strays
          ((abandon_replace cfg now path attr id r).1 ∷ holders)
          (abandon_replace cfg now path attr id r).0
  unfolding abandon_replace reg_new lookup
  abandon_replace-Inv cfg now path attr id there = record {
    linked = λ k j. ground (
      arith,
      v.linked k j,
      v.linked path id,
      v.linked k id,
      v.linked path j,
      v.unmade r.next_id,
      v.unmade j,
      v.linked k r.next_id,
      equal_iff path k,
      lookup-erase path k r.map_items,
    );
    counts = λ j. ground (arith, v.counts j, v.unmade r.next_id, v.counts r.next_id);
    in_use = λ j k h. ground (arith, v.in_use j k);
    unmade = λ j h. ground (arith, v.unmade j);
    apart = λ j h. ground (arith, v.apart j, v.linked path id);
  }

  -- The last holder goes: the item is left without a user, and out of the map.
  unreg-Inv :
      (id : ℕ) (i : FileItem)
      → 0 < count id holders
      → i.usercount ≡ (r.heap id).usercount - 1
      → Inv strays (remove_one id holders) (unreg id (set_item id i r))
  unfolding unreg
  unreg-Inv id i held less = elim (Option-cases (r.glob_ref id)) [
    | inl out ↦ record {
      linked = λ k j. ground (arith, v.linked k j);
      counts = λ j. ground (arith, v.counts j, count-remove_one j id holders held);
      in_use = λ j k h. ground (arith, v.in_use j k);
      unmade = λ j h. ground (arith, v.unmade j);
      apart = λ j h. ground (arith, v.apart j, v.counts id);
    }
    | inr (key, registered) ↦ record {
      linked = λ k j. ground (
        arith,
        v.linked k j,
        v.linked key id,
        v.linked k id,
        v.linked key j,
        equal_iff key k,
        lookup-erase key k r.map_items,
      );
      counts = λ j. ground (arith, v.counts j, count-remove_one j id holders held);
      in_use = λ j k h. ground (arith, v.in_use j k);
      unmade = λ j h. ground (arith, v.unmade j);
      apart = λ j h. ground (arith, v.apart j, v.counts id);
    }
  ]

  pub release_holder-Inv :
      (cfg : Config) (in_shutdown : Bool) (now id : ℕ)
      → 0 < count id holders
      → Inv strays (remove_one id holders) (release_holder cfg in_shutdown now id r)
  unfolding release_holder expired_item
  release_holder-Inv cfg in_shutdown now id held =
      let i = record (r.heap id) { usercount = (r.heap id).usercount - 1 } in
      elim (Bool-cases (ltb 0 i.usercount)) [
        | inl still ↦ record {
          linked = λ k j. ground (arith, v.linked k j);
          counts = λ j. ground (arith, v.counts j, count-remove_one j id holders held);
          in_use = λ j k h. ground (arith, v.in_use j k);
          unmade = λ j h. ground (arith, v.unmade j);
          apart = λ j h. ground (arith, v.apart j, v.counts id);
        }
        | inr last ↦ elim (Bool-cases (lingers cfg in_shutdown now id i r)) [
          | inl keep ↦ record {
            linked = λ k j. ground (arith, v.linked k j);
            counts = λ j. ground (
              arith,
              v.counts j,
              count-remove_one j id holders held,
              count-append j (queued r.prolonged) (id ∷ []),
              queued-append r.prolonged ((id, expiry_date cfg now i) ∷ []),
            );
            in_use = λ j k h. ground (arith, v.in_use j k);
            unmade = λ j h. ground (arith, v.unmade j, v.counts id);
            apart = λ j h. ground (arith, v.apart j, v.counts id);
          }
          | inr drop ↦
              subst (Inv strays (remove_one id holders)) (ground arith)
                (unreg-Inv id (expired_item i) held refl)
        ]
      ]
