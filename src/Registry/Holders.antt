-- ===== src/Registry/Holders.antt =====
-- ~TFileItemHolder, Unreg and BackgroundCleanup of src/acregistry.cc.
use apt_cacher_ng.Base.{
  ℕ, ◌+◌, ◌-◌, Bool, true, false, not, ◌&&◌, Option, none, some, List, [], ◌∷◌, ◌++◌, codes,
  if◌then◌else◌, ◌==◌, ltb, pos,
}
use apt_cacher_ng.FileItem.{FileItem, complete, dl_stop, rank}
use apt_cacher_ng.Registry.{Registry, Config, update, erase, set_item}

-- Unreg.
unfoldable pub unreg : ℕ → Registry → Registry
unreg id r = elim (r.glob_ref id) [
  | none ↦ r
  | some key ↦ record r { map_items = erase key r.map_items; glob_ref = update r.glob_ref id none }
]

abbrev pub is_some {ℓ} : {A : Type ℓ} → Option A → Bool
is_some none = false
is_some (some a) = true

-- The expiry time of an item that has lost its last user. In `a + b ? b : now` the sum is the
-- condition.
unfoldable pub expiry_date : Config → ℕ → FileItem → ℕ
expiry_date cfg now i =
    if cfg.max_temp_delay + i.time_dl_started == 0 then now else i.time_dl_started

-- The state that the last holder leaves an item in.
unfoldable pub expired_item : FileItem → FileItem
expired_item i = record i {
  status = if ltb (rank i.status) (rank complete) then dl_stop else i.status;
  response_status = record { code = pos 500; msg = codes "Cache file item expired" };
}

-- The conditions under which the last holder goes to the queue instead.
unfoldable pub lingers : Config → Bool → ℕ → ℕ → FileItem → Registry → Bool
unfolding expiry_date
lingers cfg in_shutdown now id i r =
    is_some (r.glob_ref id)
    && (not in_shutdown
        && (ltb 0 cfg.max_temp_delay
            && (i.spattr.volatile
                && (rank i.status == rank complete && ltb now (expiry_date cfg now i)))))

-- ~TFileItemHolder of a holder of `id`. usercount is an int: behind an uncounted holder it goes from
-- 0 to -1, here to 0, and the item has nobody left who would read it.
unfoldable pub release_holder : Config → Bool → ℕ → ℕ → Registry → Registry
unfolding unreg expired_item
release_holder cfg in_shutdown now id r =
    let i = record (r.heap id) { usercount = (r.heap id).usercount - 1 } in
    if ltb 0 i.usercount
    then set_item id i r
    else if lingers cfg in_shutdown now id i r
    then record r {
      heap = update r.heap id (record i { usercount = i.usercount + 1 });
      prolonged = r.prolonged ++ (id, expiry_date cfg now i) ∷ [];
    }
    else unreg id (set_item id (expired_item i) r)

-- The entries in front of the first that has not expired, and the rest.
unfoldable pub split_expired : ℕ → List (ℕ × ℕ) → List (ℕ × ℕ) × List (ℕ × ℕ)
split_expired now [] = ([], [])
split_expired now ((id, t) ∷ q) =
    if ltb now t
    then ([], (id, t) ∷ q)
    else ((id, t) ∷ (split_expired now q).0, (split_expired now q).1)

unfoldable pub release_all : Config → Bool → ℕ → List (ℕ × ℕ) → Registry → Registry
release_all cfg in_shutdown now [] r = r
release_all cfg in_shutdown now ((id, t) ∷ q) r =
    release_all cfg in_shutdown now q (release_holder cfg in_shutdown now id r)

abbrev pub first_time : ℕ → List (ℕ × ℕ) → ℕ
first_time end_of_time [] = end_of_time
first_time end_of_time ((id, t) ∷ q) = t

-- BackgroundCleanup: the time of the next run, and the holders that were let go once the queue's
-- lock is free again.
unfoldable pub background_cleanup : Config → Bool → ℕ → ℕ → Registry → Registry × ℕ
unfolding split_expired release_all
background_cleanup cfg in_shutdown end_of_time now r =
    let (gone, left) = split_expired now r.prolonged in
    (
      release_all cfg in_shutdown now gone (record r { prolonged = left }),
      first_time end_of_time left,
    )
