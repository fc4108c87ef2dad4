-- ===== src/Registry.antt =====
-- TFileItemRegistry and TFileItemHolder of src/acregistry.cc and src/acregistry.h. An item is a
-- number, its key in `heap`; a holder is an item's number. Locks are taken to be held throughout a call.
pub mod Holders
pub mod Invariant
pub mod Sharing
pub mod Expiry
pub mod Steps
pub mod Created
use apt_cacher_ng.Base.{
  ℕ, suc, ◌+◌, ◌-◌, Bool, true, false, not, ◌&&◌, ◌||◌, Option, none, some, List, [], ◌∷◌, ◌++◌,
  Bytes, codes, if◌then◌else◌, ◌==◌, ltb, leb, equal, null, ℤ, pos, eq_ℤ,
}
use apt_cacher_ng.Text.Decimal.{print_ℕ}
use apt_cacher_ng.Escape.{dos_escape}
use apt_cacher_ng.Http.{RemoteStatus}
use apt_cacher_ng.FileItem.{
  FileItem, SpecialPurposeAttr, new_item, FiStatus, complete, dl_stop, rank, abandoned,
}

pub data SharingHow : Type 0 where
  always_try_sharing auto_move_out_of_the_way force_move_out_of_the_way : SharingHow

-- cfg: stucksecs, maxtempdelay, the cache's directory and stupidfs.
pub record Config : Type 0 where
  pub stuck_secs : ℕ
  pub max_temp_delay : ℕ
  pub cache_base : Bytes
  pub stupid_fs : Bool

-- `glob_ref` is m_globRef and m_owner, which are set and reset together: the key of the item's entry
-- in `map_items`. `next_id` is the number of the next item made. `prolonged` is
-- prolongedLifetimeQ, oldest entry first: a holder and its timeExpired.
pub record Registry : Type 0 where
  pub heap : ℕ → FileItem
  pub next_id : ℕ
  pub map_items : List (Bytes × ℕ)
  pub glob_ref : ℕ → Option Bytes
  pub prolonged : List (ℕ × ℕ)

abbrev pub update {ℓ} : {A : Type ℓ} → (ℕ → A) → ℕ → A → ℕ → A
update f n a m = if m == n then a else f m

-- std::map: `find`, `emplace` on a key that is not there, and `erase`.
unfoldable pub lookup : Bytes → List (Bytes × ℕ) → Option ℕ
lookup k [] = none
lookup k ((j, v) ∷ m) = if equal j k then some v else lookup k m

unfoldable pub erase : Bytes → List (Bytes × ℕ) → List (Bytes × ℕ)
erase k [] = []
erase k ((j, v) ∷ m) = if equal j k then erase k m else (j, v) ∷ erase k m

abbrev pub set_item : ℕ → FileItem → Registry → Registry
set_item id i r = record r { heap = update r.heap id i }

-- fileitem_with_storage::NormalizePath.
unfoldable pub normalize_path : Config → Bytes → Bytes
normalize_path cfg path = if cfg.stupid_fs then dos_escape path else path

-- The lambda `regnew`: a new item in the map, with one user.
unfoldable pub reg_new : Bytes → SpecialPurposeAttr → Registry → Registry × ℕ
reg_new path attr r = (
  record r {
    heap = update r.heap r.next_id (record (new_item path attr) { usercount = 1 });
    next_id = suc r.next_id;
    map_items = (path, r.next_id) ∷ r.map_items;
    glob_ref = update r.glob_ref r.next_id (some path);
  },
  r.next_id,
)

-- A new item that is not in the map: the side track of a HEAD-only request.
unfoldable pub new_private : Bytes → SpecialPurposeAttr → Registry → Registry × ℕ
new_private path attr r = (
  record r {
    heap =
        update r.heap r.next_id
          (record (new_item path (record attr { no_store = true })) { usercount = 1 });
    next_id = suc r.next_id;
  },
  r.next_id,
)

-- The lambda `share`.
unfoldable pub share : ℕ → Registry → Registry × ℕ
share id r = (set_item id (record (r.heap id) { usercount = (r.heap id).usercount + 1 }) r, id)

-- What AUTO_MOVE_OUT_OF_THE_WAY decides.
pub data Decision : Type 0 where
  share_it move_away no_store_copy : Decision

-- The conditions behind the one on HEAD requests.
abbrev pub by_range : SpecialPurposeAttr → FileItem → Decision
by_range attr fi = if not (eq_ℤ attr.range_limit fi.spattr.range_limit) then move_away else share_it

abbrev pub same : Bool → Bool → Bool
same true b = b
same false b = not b

unfoldable pub decide : Config → ℕ → SpecialPurposeAttr → FileItem → Decision
decide cfg now attr fi =
    if ltb (fi.time_dl_started + cfg.stuck_secs) now
      || (not (same fi.spattr.volatile attr.volatile) && not fi.spattr.volatile)
    then move_away
    else if not (same attr.head_only fi.spattr.head_only)
    then (if fi.spattr.head_only then move_away else no_store_copy)
    else by_range attr fi

-- `link` of the old file to its new name and, where it succeeds, `unlink` of the old name.
pub data Moved : Type 0 where
  linked_unlinked : Moved
  linked_no_entry : Moved
  linked_unlink_error : Moved
  link_no_entry : Moved
  link_error : Moved

abbrev pub makes_way : Moved → Bool
makes_way linked_unlinked = true
makes_way linked_no_entry = false
makes_way linked_unlink_error = true
makes_way link_no_entry = true
makes_way link_error = false

-- replPathAbs.
abbrev pub replaced_path : Config → ℕ → Bytes → Bytes
replaced_path cfg now path = cfg.cache_base ++ (path ++ (codes "." ++ print_ℕ now))

-- The lambda `abandon_replace`.
unfoldable pub abandon_replace :
    Config → ℕ → Bytes → SpecialPurposeAttr → ℕ → Registry → Registry × ℕ
unfolding reg_new erase
abandon_replace cfg now path attr id r =
    let fi = r.heap id in
    reg_new path attr (record r {
      heap =
          update r.heap id
            (record fi { path_rel = replaced_path cfg now fi.path_rel; destroy = abandoned });
      glob_ref = update r.glob_ref id none;
      map_items = erase path r.map_items;
    })

abbrev pub holding : Registry × ℕ → Registry × Option ℕ
holding (r, id) = (r, some id)

-- The part of `Create` for an item that has to go.
unfoldable pub displace :
    Config → ℕ → Moved → Bytes → SpecialPurposeAttr → ℕ → Registry → Registry × Option ℕ
unfolding abandon_replace
displace cfg now moved path attr id r =
    if not (null (r.heap id).path_rel) && makes_way moved
    then holding (abandon_replace cfg now path attr id r)
    else (r, none)

unfoldable pub by_decision :
    Decision → Config → ℕ → Moved → Bytes → SpecialPurposeAttr → ℕ → Registry → Registry × Option ℕ
unfolding displace share new_private
by_decision share_it cfg now moved path attr id r = holding (share id r)
by_decision no_store_copy cfg now moved path attr id r = holding (new_private path attr r)
by_decision move_away cfg now moved path attr id r = displace cfg now moved path attr id r

-- `Create` for a path that is registered.
unfoldable pub create_known :
    SharingHow
    → Config
    → ℕ
    → Moved
    → Bytes
    → SpecialPurposeAttr
    → ℕ
    → Registry
    → Registry × Option ℕ
unfolding by_decision
create_known always_try_sharing cfg now moved path attr id r = holding (share id r)
create_known force_move_out_of_the_way cfg now moved path attr id r =
    if (r.heap id).create_item_must_displace
    then holding (share id r)
    else displace cfg now moved path attr id r
create_known auto_move_out_of_the_way cfg now moved path attr id r =
    if (r.heap id).create_item_must_displace
    then holding (share id r)
    else by_decision (decide cfg now attr (r.heap id)) cfg now moved path attr id r

-- Create(sPathUnescaped, how, spattr); `none` is an empty holder.
unfoldable pub create :
    Config → ℕ → Moved → Bytes → SharingHow → SpecialPurposeAttr → Registry → Registry × Option ℕ
unfolding normalize_path
create cfg now moved path_raw how attr r =
    let path = normalize_path cfg path_raw in
    elim (lookup path r.map_items) [
      | none ↦ holding (reg_new path attr r)
      | some id ↦ create_known how cfg now moved path attr id r
    ]

-- Create(spCustomFileItem, isShareable), for an item that is not registered: the item `id`, which the
-- caller has made. On a conflict the holder is empty, or holds an item that was not counted.
unfoldable pub create_custom : ℕ → Bool → Registry → Registry × Option ℕ
create_custom id is_shareable r =
    let path = (r.heap id).path_rel in
    if null path then (r, none) else elim (lookup path r.map_items) [
      | some other ↦ (r, if is_shareable then none else some id)
      | none ↦ (
        record r {
          heap = update r.heap id (record (r.heap id) { usercount = (r.heap id).usercount + 1 });
          map_items = (path, id) ∷ r.map_items;
          glob_ref = update r.glob_ref id (some path);
        },
        some id,
      )
    ]
