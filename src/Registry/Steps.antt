-- ===== src/Registry/Steps.antt =====
-- What holds of the registry after any sequence of its operations.
use apt_cacher_ng.Base.{
  ℕ, suc, ◌+◌, ◌<◌, ◌≡◌, refl, Bool, none, some, List, [], ◌∷◌, ◌++◌, arith, Bytes, subst,
  if◌then◌else◌, sym, ◌-◌,
}
use apt_cacher_ng.FileItem.{FileItem, SpecialPurposeAttr}
use apt_cacher_ng.Registry.{
  Registry, Config, SharingHow, Moved, lookup, create, create_custom, set_item,
}
use apt_cacher_ng.Registry.Holders.{
  release_holder, split_expired, release_all, background_cleanup, expired_item, lingers, unreg,
}
use apt_cacher_ng.Registry.Invariant.{
  count, remove_one, queued, Inv, count-append, release_holder-Inv, count-remove_one,
}
use apt_cacher_ng.Registry.Created.{
  with_holder, create-Inv, conflicts, Sorted, create_custom-Sorted,
}

count-queued-split :
    (a now : ℕ) (q : List (ℕ × ℕ))
    → count a (queued q)
      ≡ count a (queued (split_expired now q).0) + count a (queued (split_expired now q).1)
unfolding split_expired
count-queued-split a now [] = refl
count-queued-split a now ((id, t) ∷ q) = ground (arith, count-queued-split a now q)

release_all-Inv :
    {strays : List ℕ} (holders : List ℕ) (cfg : Config) (in_shutdown : Bool) (now : ℕ)
    (q : List (ℕ × ℕ)) (r : Registry)
    → Inv strays (queued q ++ holders) r
    → Inv strays holders (release_all cfg in_shutdown now q r)
unfolding release_all
release_all-Inv holders cfg in_shutdown now [] r v = v
release_all-Inv {strays = strays} holders cfg in_shutdown now ((id, t) ∷ q) r v =
    release_all-Inv holders cfg in_shutdown now q (release_holder cfg in_shutdown now id r) (
      subst (λ hs. Inv strays hs (release_holder cfg in_shutdown now id r))
        {x = remove_one id (id ∷ (queued q ++ holders))} {y = queued q ++ holders} (ground arith)
        (release_holder-Inv (id ∷ (queued q ++ holders)) r v cfg in_shutdown now id (ground arith)))

background_cleanup-Inv :
    {strays : List ℕ} (holders : List ℕ) (cfg : Config) (in_shutdown : Bool) (end_of_time now : ℕ)
    (r : Registry)
    → Inv strays holders r
    → Inv strays holders (background_cleanup cfg in_shutdown end_of_time now r).0
unfolding background_cleanup
background_cleanup-Inv holders cfg in_shutdown end_of_time now r v =
    release_all-Inv holders cfg in_shutdown now (split_expired now r.prolonged).0
      (record r { prolonged = (split_expired now r.prolonged).1 })
      (record {
        linked = v.linked;
        counts = λ id. ground (
          arith,
          v.counts id,
          count-queued-split id now r.prolonged,
          count-append id (queued (split_expired now r.prolonged).0) holders,
        );
        in_use = v.in_use;
        unmade = v.unmade;
        apart = v.apart;
      })

-- An uncounted holder goes. Its item has no user, so that nothing but the item changes.
stray_released :
    (cfg : Config) (in_shutdown : Bool) (now id : ℕ) (r : Registry)
    → r.glob_ref id ≡ none
    → (r.heap id).usercount ≡ 0
    → release_holder cfg in_shutdown now id r
      ≡ set_item id (expired_item (record (r.heap id) { usercount = (r.heap id).usercount - 1 })) r
unfolding release_holder lingers unreg
stray_released cfg in_shutdown now id r out unused = ground arith

release_stray-Inv :
    (strays holders : List ℕ) (cfg : Config) (in_shutdown : Bool) (now id : ℕ) (r : Registry)
    → 0 < count id strays
    → Inv strays holders r
    → Inv (remove_one id strays) holders (release_holder cfg in_shutdown now id r)
unfolding expired_item
release_stray-Inv strays holders cfg in_shutdown now id r held v =
    let (out, unused, made) = v.apart id held in
    subst (Inv (remove_one id strays) holders)
      (sym (stray_released cfg in_shutdown now id r out unused))
      (record {
        linked = v.linked;
        counts = λ j. ground (arith, v.counts j);
        in_use = λ j k h. ground (arith, v.in_use j k);
        unmade = λ j h. ground (arith, v.unmade j);
        apart = λ j h. ground (arith, v.apart j, count-remove_one j id strays held);
      })

-- An item that its owner has just made.
abbrev pub with_made : FileItem → Registry → Registry
with_made i r = record (set_item r.next_id i r) { next_id = suc r.next_id }

-- The operations, and an item's own changes. `strays` and `holders` are the holders of the program,
-- not counted and counted; Create of an item's own is given one that was made for it.
pub data Step : List ℕ → List ℕ → Registry → List ℕ → List ℕ → Registry → Type 0 where
  creates :
      {strays holders : List ℕ} {r : Registry} (cfg : Config) (now : ℕ) (moved : Moved)
      (path : Bytes) (how : SharingHow) (attr : SpecialPurposeAttr)
      → Step strays holders r strays
          (with_holder (create cfg now moved path how attr r).1 holders)
          (create cfg now moved path how attr r).0
  creates_custom :
      {strays holders : List ℕ} {r : Registry} (i : FileItem) (shareable : Bool)
      → i.usercount ≡ 0
      → Step strays holders r
          (if conflicts i.path_rel r
            then with_holder (create_custom r.next_id shareable (with_made i r)).1 strays
            else strays)
          (if conflicts i.path_rel r
            then holders
            else with_holder (create_custom r.next_id shareable (with_made i r)).1 holders)
          (create_custom r.next_id shareable (with_made i r)).0
  releases :
      {strays holders : List ℕ} {r : Registry} (cfg : Config) (in_shutdown : Bool) (now id : ℕ)
      → 0 < count id holders
      → Step strays holders r strays
          (remove_one id holders)
          (release_holder cfg in_shutdown now id r)
  releases_stray :
      {strays holders : List ℕ} {r : Registry} (cfg : Config) (in_shutdown : Bool) (now id : ℕ)
      → 0 < count id strays
      → Step strays holders r
          (remove_one id strays)
          holders
          (release_holder cfg in_shutdown now id r)
  cleans_up :
      {strays holders : List ℕ} {r : Registry} (cfg : Config) (in_shutdown : Bool)
      (end_of_time now : ℕ)
      → Step strays holders r strays holders
          (background_cleanup cfg in_shutdown end_of_time now r).0
  changes :
      {strays holders : List ℕ} {r : Registry} (id : ℕ) (i : FileItem)
      → i.usercount ≡ (r.heap id).usercount
      → Step strays holders r strays holders (set_item id i r)

-- From a registry without items.
pub data Reach : List ℕ → List ℕ → Registry → Type 0 where
  empty :
      (heap : ℕ → FileItem)
      → ((id : ℕ) → (heap id).usercount ≡ 0)
      → Reach [] [] (record {
        heap = heap;
        next_id = 0;
        map_items = [];
        glob_ref = λ id. none;
        prolonged = [];
      })
  after :
      {strays holders strays₂ holders₂ : List ℕ} {r r₂ : Registry}
      → Reach strays holders r
      → Step strays holders r strays₂ holders₂ r₂
      → Reach strays₂ holders₂ r₂

with_made-Inv :
    {strays holders : List ℕ} {r : Registry} (i : FileItem)
    → i.usercount ≡ 0
    → Inv strays holders r
    → Inv strays holders (with_made i r)
with_made-Inv i unused v = record {
  linked = v.linked;
  counts = λ id. ground (arith, v.counts id, v.unmade id);
  in_use = λ id k h. ground (arith, v.in_use id k, v.unmade id);
  unmade = λ id h. ground (arith, v.unmade id);
  apart = λ id h. ground (arith, v.apart id);
}

create_made-Sorted :
    {strays : List ℕ} (holders : List ℕ) (r : Registry) (v : Inv strays holders r) (i : FileItem)
    (shareable : Bool)
    → i.usercount ≡ 0
    → Sorted strays holders
        (conflicts i.path_rel r)
        (create_custom r.next_id shareable (with_made i r))
create_made-Sorted {strays = strays} holders r v i shareable unused =
    let made = with_made i r in
    let there : made.heap r.next_id ≡ i = ground arith in
    subst
      (λ (j : FileItem).
        Sorted strays holders (conflicts j.path_rel r) (create_custom r.next_id shareable made))
      there
      (create_custom-Sorted holders made (with_made-Inv i unused v) r.next_id shareable
        (omega arith) (v.unmade r.next_id (omega arith)).0 (rw there unused)
        (ground (arith, v.apart r.next_id)))

Step-Inv :
    {strays holders : List ℕ} {r : Registry} {strays₂ holders₂ : List ℕ} {r₂ : Registry}
    → Step strays holders r strays₂ holders₂ r₂
    → Inv strays holders r
    → Inv strays₂ holders₂ r₂
Step-Inv {holders = holders} {r = r} (creates cfg now moved path how attr) v =
    create-Inv holders r v cfg now moved path how attr
Step-Inv {holders = holders} {r = r} (creates_custom i shareable unused) v =
    create_made-Sorted holders r v i shareable unused
Step-Inv {holders = holders} {r = r} (releases cfg in_shutdown now id held) v =
    release_holder-Inv holders r v cfg in_shutdown now id held
Step-Inv {strays = strays} {holders = holders} {r = r} (releases_stray cfg in_shutdown now id held)
      v =
    release_stray-Inv strays holders cfg in_shutdown now id r held v
Step-Inv {holders = holders} {r = r} (cleans_up cfg in_shutdown end_of_time now) v =
    background_cleanup-Inv holders cfg in_shutdown end_of_time now r v
Step-Inv {holders = holders} {r = r} (changes id i same) v = record {
  linked = v.linked;
  counts = λ j. ground (arith, v.counts j);
  in_use = λ j k h. ground (arith, v.in_use j k);
  unmade = λ j h. ground (arith, v.unmade j);
  apart = λ j h. ground (arith, v.apart j);
}

pub Reach-Inv :
    {strays holders : List ℕ} {r : Registry} → Reach strays holders r → Inv strays holders r
unfolding lookup
Reach-Inv (empty heap unused) = record {
  linked = λ k id. ground arith;
  counts = λ id. ground (arith, unused id);
  in_use = λ id k h. ground arith;
  unmade = λ id h. ground (arith, unused id);
  apart = λ id h. ground arith;
}
Reach-Inv (after reach step) = Step-Inv step (Reach-Inv reach)

-- After any steps, two paths in the map that lead to the same item are the same path, and the
-- item that a path leads to is held by somebody whom its use count counts.
pub Reach-registered :
    (strays holders : List ℕ) (r : Registry) (j k : Bytes) (id : ℕ)
    → Reach strays holders r
    → lookup j r.map_items ≡ some id
    → lookup k r.map_items ≡ some id
    → (j ≡ k)
      × (0 < count id holders + count id (queued r.prolonged))
      × ((r.heap id).usercount ≡ count id holders + count id (queued r.prolonged))
Reach-registered strays holders r j k id reach hj hk =
    let v = Reach-Inv reach in
    ground (arith, v.linked j id, v.linked k id, v.in_use id j, v.counts id)
