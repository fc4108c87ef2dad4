-- ===== src/FileItem/Release.antt =====
-- ~fileitem_with_storage: what becomes of the files when the last user lets the item go.
use apt_cacher_ng.Base.{Bool, true, none, some, [], Bytes, if◌then◌else◌, null, equal}
use apt_cacher_ng.FileItem.{
  Store, DestroyMode, keep, delete_keep_head, truncate, abandoned, delete, HeadWrite, save_header,
}

-- Whether the file can be cut, and how the header is written. Each `unlink` is taken to succeed.
pub record ReleaseEnv : Type 0 where
  pub can_truncate : Bool
  pub head_write : HeadWrite

abbrev pub without_data : Store → Store
without_data s = record s { disk = record (s.disk) { content = none; spare = 0 } }

-- `truncate` to 0, or `unlink` where that fails, as it does where there is no file.
unfoldable pub cut : Bool → Store → Store
cut can_truncate s = elim s.disk.content [
  | none ↦ s
  | some old ↦
      if can_truncate
      then record s { disk = record (s.disk) { content = some []; spare = 0 } }
      else without_data s
]

-- `stat` of `path` and, if it is there, `truncate` to its own size, which gives spare blocks back.
-- The item's file is at the item's path and at no other.
unfoldable pub give_back_spare : Bytes → Store → Store
give_back_spare path s =
    if equal path s.item.path_rel then record s { disk = record (s.disk) { spare = 0 } } else s

-- The branch of EDestroyMode::KEEP reads `sPathAbs`, which `calcPath` has not been called for.
unfoldable pub release_by : DestroyMode → ReleaseEnv → Store → Store
unfolding cut give_back_spare save_header
release_by keep e s = if s.item.preallocated then give_back_spare [] s else s
release_by truncate e s = (save_header e.head_write true (cut e.can_truncate s)).0
release_by abandoned e s = without_data s
release_by delete e s =
    let s' = without_data s in record s' { disk = record (s'.disk) { head = none } }
release_by delete_keep_head e s = (save_header e.head_write true (without_data s)).0

unfoldable pub release : ReleaseEnv → Store → Store
unfolding release_by
release e s =
    let closed = record s { item = record (s.item) { file = none } } in
    if s.item.spattr.no_store
    then s
    else if null s.item.path_rel
    then closed
    else release_by s.item.destroy e closed
