-- ===== src/Registry/Expiry.antt =====
-- What becomes of an item that has lost its last holder.
use apt_cacher_ng.Base.{ℕ, ◌≡◌, ◌≤◌, Bool, none, some, arith, Bytes, equal, if◌then◌else◌}
use apt_cacher_ng.FileItem.{rank, complete}
use apt_cacher_ng.Registry.{Registry, Config, lookup}
use apt_cacher_ng.Registry.Holders.{expiry_date, lingers, release_holder, unreg, expired_item}
use apt_cacher_ng.Registry.Invariant.{lookup-erase}

-- An item of the map whose download did not start in the future is never kept in the queue: when its
-- only holder goes, its path leads nowhere, every other path leads where it led, and the item has no
-- user and a status of at least FIST_COMPLETE.
pub release_holder-last :
    (cfg : Config) (in_shutdown : Bool) (now id : ℕ) (r : Registry) (key k : Bytes)
    → r.glob_ref id ≡ some key
    → (r.heap id).time_dl_started ≤ now
    → (r.heap id).usercount ≡ 1
    → let s = release_holder cfg in_shutdown now id r in
      (lookup k s.map_items ≡ (if equal key k then none else lookup k r.map_items))
      × (s.prolonged ≡ r.prolonged)
      × (s.glob_ref id ≡ none)
      × ((s.heap id).usercount ≡ 0)
      × (rank complete ≤ rank (s.heap id).status)
unfolding release_holder lingers expiry_date unreg expired_item
release_holder-last cfg in_shutdown now id r key k registered past last = (
  ground (arith, lookup-erase key k r.map_items),
  ground arith,
  ground arith,
  ground arith,
  ground arith,
)
