-- ===== src/Tests/Holders.antt =====
-- The theorems on the registry at concrete inputs.
use apt_cacher_ng.Base.{
  ℕ, ◌≡◌, ◌<◌, ◌≤◌, ◌⊎◌, ◌+◌, refl, true, false, none, some, [], ◌∷◌, arith, codes, minus_one,
  equal, null, if◌then◌else◌,
}
use apt_cacher_ng.FileItem.{SpecialPurposeAttr, new_item, rank, complete, FileItem}
use apt_cacher_ng.Registry.{
  create_custom, linked_no_entry, link_error, linked_unlink_error, link_no_entry, Registry, Config,
  always_try_sharing, force_move_out_of_the_way, linked_unlinked, create, lookup, normalize_path,
  reg_new,
}
use apt_cacher_ng.Registry.Holders.{release_holder}
use apt_cacher_ng.Registry.Invariant.{count, queued}
use apt_cacher_ng.Registry.Steps.{
  with_made, creates_custom, Reach, empty, after, creates, Reach-registered,
}
use apt_cacher_ng.Registry.Sharing.{Replaced, create-always_try_sharing, create-force_move}
use apt_cacher_ng.Registry.Expiry.{release_holder-last}

abbrev config : Config
config = record {
  stuck_secs = 500;
  max_temp_delay = 27;
  cache_base = codes "/var/cache/";
  stupid_fs = false;
}

abbrev plain : SpecialPurposeAttr
plain = record {
  volatile = true;
  head_only = false;
  no_store = false;
  range_limit = minus_one;
  credentials = [];
}

abbrev no_items : Registry
no_items = record {
  heap = λ id. new_item [] plain;
  next_id = 0;
  map_items = [];
  glob_ref = λ id. none;
  prolonged = [];
}

-- One path, with one holder.
abbrev one : Registry
one = (create config 1000 linked_unlinked (codes "deb/a") always_try_sharing plain no_items).0

one_held : Reach [] (0 ∷ []) one
unfolding create normalize_path lookup reg_new equal
one_held =
    after (empty (λ id. new_item [] plain) (λ id. refl))
      (creates config 1000 linked_unlinked (codes "deb/a") always_try_sharing plain)

one_registered : lookup (codes "deb/a") one.map_items ≡ some 0
unfolding create normalize_path lookup reg_new equal
one_registered = refl

-- The owner of another item of that path, and then its uncounted holder.
abbrev second : FileItem
second = new_item (codes "deb/a") plain

abbrev clashed : Registry
clashed = (create_custom 1 false (with_made second one)).0

clashed_held : Reach (1 ∷ []) (0 ∷ []) clashed
unfolding create normalize_path lookup reg_new equal create_custom
clashed_held = after one_held (creates_custom second false refl)

clashed_registered : lookup (codes "deb/a") clashed.map_items ≡ some 0
unfolding create normalize_path lookup reg_new equal create_custom
clashed_registered = refl

Reach-registered_example :
    (codes "deb/a" ≡ codes "deb/a")
    × (0 < count 0 (0 ∷ []) + count 0 (queued clashed.prolonged))
    × ((clashed.heap 0).usercount ≡ count 0 (0 ∷ []) + count 0 (queued clashed.prolonged))
Reach-registered_example =
    Reach-registered (1 ∷ []) (0 ∷ []) clashed (codes "deb/a") (codes "deb/a") 0 clashed_held
      clashed_registered clashed_registered

create-always_try_sharing_example :
    let s = create config 1001 linked_unlinked (codes "deb/a") always_try_sharing plain one in
    (id : ℕ) × (s.1 ≡ some id)
    × (lookup (normalize_path config (codes "deb/a")) s.0.map_items ≡ some id)
    × (((lookup (normalize_path config (codes "deb/a")) one.map_items ≡ some id)
          × ((s.0.heap id).usercount ≡ (one.heap id).usercount + 1))
        ⊎ ((lookup (normalize_path config (codes "deb/a")) one.map_items ≡ none)
            × (id ≡ one.next_id)))
create-always_try_sharing_example =
    create-always_try_sharing config 1001 linked_unlinked (codes "deb/a") plain one

one_registered_normal : lookup (normalize_path config (codes "deb/a")) one.map_items ≡ some 0
unfolding create normalize_path lookup reg_new equal
one_registered_normal = refl

one_made : 0 < one.next_id
unfolding create normalize_path lookup reg_new equal
one_made = omega arith

one_stays : (one.heap 0).create_item_must_displace ≡ false
unfolding create normalize_path lookup reg_new equal
one_stays = refl

create-force_move_example :
    let s =
      create config 1001 linked_unlinked (codes "deb/a") force_move_out_of_the_way plain one in
    (((null (one.heap 0).path_rel ≡ true)
        ⊎ (linked_unlinked ≡ linked_no_entry)
        ⊎ (linked_unlinked ≡ link_error))
      × (s ≡ (one, none)))
    ⊎ ((null (one.heap 0).path_rel ≡ false)
        × ((linked_unlinked ≡ linked_unlinked)
            ⊎ (linked_unlinked ≡ linked_unlink_error)
            ⊎ (linked_unlinked ≡ link_no_entry))
        × Replaced config 1001 (codes "deb/a") 0 one s)
create-force_move_example =
    create-force_move config 1001 linked_unlinked (codes "deb/a") plain one 0 one_registered_normal
      one_made one_stays

one_started : (one.heap 0).time_dl_started ≤ 2000
unfolding create normalize_path lookup reg_new equal
one_started = omega arith

one_user : (one.heap 0).usercount ≡ 1
unfolding create normalize_path lookup reg_new equal
one_user = refl

one_in_map : one.glob_ref 0 ≡ some (codes "deb/a")
unfolding create normalize_path lookup reg_new equal
one_in_map = refl

release_holder-last_example :
    let s = release_holder config false 2000 0 one in
    (lookup (codes "deb/a") s.map_items ≡ (
      if equal (codes "deb/a") (codes "deb/a") then none else lookup (codes "deb/a") one.map_items))
    × (s.prolonged ≡ one.prolonged)
    × (s.glob_ref 0 ≡ none)
    × ((s.heap 0).usercount ≡ 0)
    × (rank complete ≤ rank (s.heap 0).status)
release_holder-last_example =
    release_holder-last config false 2000 0 one (codes "deb/a") (codes "deb/a") one_in_map
      one_started one_user
