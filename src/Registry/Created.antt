-- ===== src/Registry/Created.antt =====
-- Create and its parts keep the registry's invariant.
use apt_cacher_ng.Base.{
  ℕ, ◌+◌, ◌<◌, ◌≡◌, refl, Bool, true, false, Option, none, some, List, ◌∷◌, arith, Bytes,
  if◌then◌else◌, null, not, ◌&&◌, equal_iff,
}
use apt_cacher_ng.FileItem.{SpecialPurposeAttr}
use apt_cacher_ng.Registry.{
  Registry, Config, SharingHow, always_try_sharing, force_move_out_of_the_way,
  auto_move_out_of_the_way, Decision, share_it, no_store_copy, move_away, Moved, makes_way, lookup,
  displace, by_decision, create_known, create, create_custom, normalize_path, decide, reg_new,
  share, holding, abandon_replace, update,
}
use apt_cacher_ng.Registry.Holders.{is_some}
use apt_cacher_ng.Registry.Invariant.{
  count, Inv, reg_new-Inv, new_private-Inv, share-Inv, abandon_replace-Inv,
}

-- The holders once the caller has the result.
abbrev pub with_holder : Option ℕ → List ℕ → List ℕ
with_holder none holders = holders
with_holder (some id) holders = id ∷ holders

abbrev pub Holds : List ℕ → List ℕ → Registry × Option ℕ → Type 0
Holds strays holders s = Inv strays (with_holder s.1 holders) s.0

-- A path that is in the map already.
abbrev pub conflicts : Bytes → Registry → Bool
conflicts path r = is_some (lookup path r.map_items)

-- The holder that a Create of an item's own yields counts, unless there was a conflict.
abbrev pub Sorted : List ℕ → List ℕ → Bool → Registry × Option ℕ → Type 0
Sorted strays holders clash s =
    Inv (if clash then with_holder s.1 strays else strays)
      (if clash then holders else with_holder s.1 holders) s.0

if-Sorted :
    (strays holders : List ℕ) (clash b : Bool) (s t : Registry × Option ℕ)
    → Sorted strays holders clash s
    → Sorted strays holders clash t
    → Sorted strays holders clash (if b then s else t)
if-Sorted strays holders clash true s t p q = p
if-Sorted strays holders clash false s t p q = q

if-Holds :
    (strays holders : List ℕ) (b : Bool) (s t : Registry × Option ℕ)
    → Holds strays holders s
    → Holds strays holders t
    → Holds strays holders (if b then s else t)
if-Holds strays holders true s t p q = p
if-Holds strays holders false s t p q = q

module _ {strays : List ℕ} (holders : List ℕ) (r : Registry) (v : Inv strays holders r) where
  displace-Inv :
      (cfg : Config) (now : ℕ) (moved : Moved) (path : Bytes) (attr : SpecialPurposeAttr) (id : ℕ)
      → lookup path r.map_items ≡ some id
      → Holds strays holders (displace cfg now moved path attr id r)
  unfolding displace
  displace-Inv cfg now moved path attr id there =
      if-Holds strays holders (not (null (r.heap id).path_rel) && makes_way moved)
        (holding (abandon_replace cfg now path attr id r)) (r, none)
        (abandon_replace-Inv holders r v cfg now path attr id there) v

  by_decision-Inv :
      (d : Decision) (cfg : Config) (now : ℕ) (moved : Moved) (path : Bytes)
      (attr : SpecialPurposeAttr) (id : ℕ)
      → lookup path r.map_items ≡ some id
      → Holds strays holders (by_decision d cfg now moved path attr id r)
  unfolding by_decision
  by_decision-Inv share_it cfg now moved path attr id there = share-Inv holders r v path id there
  by_decision-Inv no_store_copy cfg now moved path attr id there =
      new_private-Inv holders r v path attr
  by_decision-Inv move_away cfg now moved path attr id there =
      displace-Inv cfg now moved path attr id there

  create_known-Inv :
      (how : SharingHow) (cfg : Config) (now : ℕ) (moved : Moved) (path : Bytes)
      (attr : SpecialPurposeAttr) (id : ℕ)
      → lookup path r.map_items ≡ some id
      → Holds strays holders (create_known how cfg now moved path attr id r)
  unfolding create_known
  create_known-Inv always_try_sharing cfg now moved path attr id there =
      share-Inv holders r v path id there
  create_known-Inv force_move_out_of_the_way cfg now moved path attr id there =
      if-Holds strays holders (r.heap id).create_item_must_displace (holding (share id r))
        (displace cfg now moved path attr id r) (share-Inv holders r v path id there)
        (displace-Inv cfg now moved path attr id there)
  create_known-Inv auto_move_out_of_the_way cfg now moved path attr id there =
      if-Holds strays holders (r.heap id).create_item_must_displace (holding (share id r))
        (by_decision (decide cfg now attr (r.heap id)) cfg now moved path attr id r)
        (share-Inv holders r v path id there)
        (by_decision-Inv (decide cfg now attr (r.heap id)) cfg now moved path attr id there)

  pub create-Inv :
      (cfg : Config) (now : ℕ) (moved : Moved) (path : Bytes) (how : SharingHow)
      (attr : SpecialPurposeAttr)
      → Holds strays holders (create cfg now moved path how attr r)
  unfolding create
  create-Inv cfg now moved path how attr = go (lookup (normalize_path cfg path) r.map_items) refl
    where
      go :
          (found : Option ℕ)
          → lookup (normalize_path cfg path) r.map_items ≡ found
          → Holds strays holders (elim found [
            | none ↦ holding (reg_new (normalize_path cfg path) attr r)
            | some id ↦ create_known how cfg now moved (normalize_path cfg path) attr id r
          ])
      go none free = reg_new-Inv holders r v (normalize_path cfg path) attr free
      go (some id) there =
          create_known-Inv how cfg now moved (normalize_path cfg path) attr id there

  created : ℕ → Registry
  created id = record r {
    heap = update r.heap id (record (r.heap id) { usercount = (r.heap id).usercount + 1 });
    map_items = ((r.heap id).path_rel, id) ∷ r.map_items;
    glob_ref = update r.glob_ref id (some (r.heap id).path_rel);
  }

  created-Inv :
      (id : ℕ)
      → id < r.next_id
      → r.glob_ref id ≡ none
      → count id strays ≡ 0
      → lookup (r.heap id).path_rel r.map_items ≡ none
      → Inv strays (id ∷ holders) (created id)
  unfolding created lookup
  created-Inv id made out counted free = record {
    linked = λ k j. ground (
      arith,
      v.linked k j,
      v.linked (r.heap id).path_rel j,
      v.linked k id,
      equal_iff (r.heap id).path_rel k,
    );
    counts = λ j. ground (arith, v.counts j);
    in_use = λ j k h. ground (arith, v.in_use j k);
    unmade = λ j h. ground (arith, v.unmade j);
    apart = λ j h. ground (arith, v.apart j);
  }

  -- An item that nobody holds gets an uncounted holder.
  stray-Inv :
      (id : ℕ)
      → id < r.next_id
      → r.glob_ref id ≡ none
      → (r.heap id).usercount ≡ 0
      → Inv (id ∷ strays) holders r
  stray-Inv id made out unused = record {
    linked = v.linked;
    counts = v.counts;
    in_use = v.in_use;
    unmade = v.unmade;
    apart = λ j h. ground (arith, v.apart j);
  }

  none-Sorted : (clash : Bool) → Sorted strays holders clash (r, none)
  none-Sorted true = v
  none-Sorted false = v

  -- Create of an item that nobody holds.
  pub create_custom-Sorted :
      (id : ℕ) (shareable : Bool)
      → id < r.next_id
      → r.glob_ref id ≡ none
      → (r.heap id).usercount ≡ 0
      → count id strays ≡ 0
      → Sorted strays holders (conflicts (r.heap id).path_rel r) (create_custom id shareable r)
  unfolding create_custom created
  create_custom-Sorted id shareable made out unused fresh =
      if-Sorted strays holders (conflicts (r.heap id).path_rel r) (null (r.heap id).path_rel)
        (r, none) _ (none-Sorted (conflicts (r.heap id).path_rel r))
        (go (lookup (r.heap id).path_rel r.map_items) refl)
    where
      go :
          (found : Option ℕ)
          → lookup (r.heap id).path_rel r.map_items ≡ found
          → Sorted strays holders (is_some found) (elim found [
            | some other ↦ (r, if shareable then none else some id)
            | none ↦ (created id, some id)
          ])
      go none free = created-Inv id made out fresh free
      go (some other) there = kept shareable
        where
          kept : (b : Bool) → Inv (with_holder (if b then none else some id) strays) holders r
          kept true = v
          kept false = stray-Inv id made out unused
