-- ===== src/FileItem.antt =====
-- fileitem and fileitem_with_storage of src/fileitem.h and src/fileitem.cc: the fields, and the
-- operations that touch no file but the `.head` one. Locking and notifyAll leave no trace here.
pub mod Setup
pub mod Writer
pub mod Added
pub mod Release
pub mod Lifecycle
pub mod Resumed
pub mod Received
pub mod Opening
pub mod Destroyed
use apt_cacher_ng.Base.{
  ℕ, zero, suc, ◌+◌, ◌-◌, ◌%◌, ◌^◌, Bool, true, false, not, ◌&&◌, ◌||◌, Option, none, some, List,
  [], ◌∷◌, ◌++◌, Bytes, codes, if◌then◌else◌, ◌==◌, ltb, leb, length, ℤ, pos, negsuc, lt_ℤ, le_ℤ,
  eq_ℤ, minus_one,
}
use apt_cacher_ng.Http.{RemoteStatus, Dates, date_eq}
use apt_cacher_ng.HeadFile.{head_text, store_head_result}

-- The life cycle, FIST_FRESH to FIST_DLSTOP.
pub data FiStatus : Type 0 where
  fresh inited dl_pending dl_got_head dl_receiving complete dl_error dl_stop : FiStatus

-- The values of the enum, which the source compares by `<`.
abbrev pub rank : FiStatus → ℕ
rank fresh = 0
rank inited = 1
rank dl_pending = 2
rank dl_got_head = 3
rank dl_receiving = 4
rank complete = 5
rank dl_error = 6
rank dl_stop = 7

pub data DestroyMode : Type 0 where
  keep delete_keep_head truncate abandoned delete : DestroyMode

abbrev pub severity : DestroyMode → ℕ
severity keep = 0
severity delete_keep_head = 1
severity truncate = 2
severity abandoned = 3
severity delete = 4

pub record SpecialPurposeAttr : Type 0 where
  pub volatile : Bool
  pub head_only : Bool
  pub no_store : Bool
  pub range_limit : ℤ
  pub credentials : Bytes

-- `file` is m_filefd: the write position of the open file, `none` for -1.
pub record FileItem : Type 0 where
  pub incoming_count : ℕ
  pub size_cached_initial : ℤ
  pub content_length : ℤ
  pub response_status : RemoteStatus
  pub response_origin : Bytes
  pub response_mod_date : Bytes
  pub preallocated : Bool
  pub writer_must_replace_file : Bool
  pub create_item_must_displace : Bool
  pub dl_refs_count : ℕ
  pub spattr : SpecialPurposeAttr
  pub size_checked : ℤ
  pub usercount : ℕ
  pub status : FiStatus
  pub destroy : DestroyMode
  pub path_rel : Bytes
  pub time_dl_started : ℕ
  pub file : Option ℕ

-- The files under the item's path: the data, the `.head` file, the blocks that fallocate keeps
-- behind the data's end, and the copies put aside by MoveRelease2Sidestore, newest first.
pub record Disk : Type 0 where
  pub content : Option Bytes
  pub head : Option Bytes
  pub spare : ℕ
  pub side_store : List Bytes

pub record Store : Type 0 where
  pub item : FileItem
  pub disk : Disk

-- A new item of a given path and purpose.
abbrev pub new_item : Bytes → SpecialPurposeAttr → FileItem
new_item path attr = record {
  incoming_count = 0;
  size_cached_initial = minus_one;
  content_length = minus_one;
  response_status = record { code = pos 500; msg = [] };
  response_origin = [];
  response_mod_date = [];
  preallocated = false;
  writer_must_replace_file = false;
  create_item_must_displace = false;
  dl_refs_count = 0;
  spattr = attr;
  size_checked = minus_one;
  usercount = 0;
  status = fresh;
  destroy = keep;
  path_rel = path;
  time_dl_started = 0;
  file = none;
}

-- How a write of the `.head` file ends: all of it, or an error and what is left on disk.
pub data HeadWrite : Type 0 where
  written : HeadWrite
  failed : Option Bytes → HeadWrite

abbrev pub head_after : HeadWrite → Bytes → Option Bytes
head_after written text = some text
head_after (failed left) text = left

-- What `dumpall` returns.
abbrev pub dumped : HeadWrite → Bytes → ℤ
dumped written text = pos (length text)
dumped (failed left) text = minus_one

-- The path that is written, less the cache's base directory.
abbrev pub head_path : FileItem → Bytes
head_path i = i.path_rel ++ codes ".head"

-- fileitem_with_storage::SaveHeader.
unfoldable pub save_header : HeadWrite → Bool → Store → Store × Bool
save_header how only_orig_info s =
    let i = s.item in
    let text =
      if only_orig_info
      then head_text minus_one [] i.response_origin
      else head_text i.content_length i.response_mod_date i.response_origin in
    (
      record s { disk = record (s.disk) { head = head_after how text } },
      store_head_result (head_path i) (dumped how text),
    )

-- fileitem::DlSetError.
unfoldable pub dl_set_error : RemoteStatus → DestroyMode → FileItem → FileItem
dl_set_error why mode i = record i {
  response_status = why;
  status = dl_error;
  destroy = if ltb (severity mode) (severity i.destroy) then mode else i.destroy;
}

-- fileitem::MarkFaulty.
unfoldable pub mark_faulty : Bool → FileItem → FileItem
unfolding dl_set_error
mark_faulty kill_file =
    dl_set_error (record { code = pos 500; msg = codes "Bad Cache Item" })
      (if kill_file then delete else truncate)

-- The range of `unsigned` and of uint64_t.
abbrev pub u32 : ℕ
u32 = 2 ^ 32

abbrev pub u64 : ℕ
u64 = 2 ^ 64

unfoldable pub dl_ref_count_add : FileItem → FileItem
dl_ref_count_add i = record i { dl_refs_count = (i.dl_refs_count + 1) % u32 }

-- fileitem::DlRefCountDec: the last downloader that leaves an unfinished item leaves an error.
unfoldable pub dl_ref_count_dec : RemoteStatus → FileItem → FileItem
unfolding dl_set_error
dl_ref_count_dec reason i =
    let left = (i.dl_refs_count + u32 - 1) % u32 in
    let i' = record i { dl_refs_count = left } in
    if ltb 0 left
    then i'
    else if ltb (rank i.status) (rank complete)
    then dl_set_error reason i.destroy i'
    else i'

-- fileitem::TakeTransferCount.
unfoldable pub take_transfer_count : FileItem → FileItem × ℕ
take_transfer_count i = (record i { incoming_count = 0 }, i.incoming_count)

-- fileitem::DlStarted, in three parts: whether a restart fits what is there, the state that a
-- header is taken in, and the position.
unfoldable pub restart_fits : Dates → Bytes → ℤ → ℤ → FileItem → Bool
restart_fits lib mod_date bytes2seek announced i =
    if not (eq_ℤ i.content_length announced) && not (eq_ℤ i.content_length minus_one)
    then false
    else if not (date_eq lib i.response_mod_date mod_date)
    then false
    else not (lt_ℤ i.size_checked bytes2seek)

unfoldable pub got_head : Bytes → Bytes → RemoteStatus → ℤ → ℤ → FileItem → FileItem × Bool
got_head mod_date origin status bytes2seek announced i =
    let accepted = λ (size : ℤ). record i {
      status = dl_got_head;
      size_checked = size;
      response_status = status;
      response_origin = origin;
      response_mod_date = mod_date;
      content_length = announced;
    } in
    if le_ℤ (pos 0) bytes2seek
    then if le_ℤ (pos 0) i.size_checked && lt_ℤ bytes2seek i.size_checked
      then (record i { status = dl_got_head }, false)
      else (accepted bytes2seek, true)
    else (accepted i.size_checked, true)

unfoldable pub dl_started :
    Dates → Bytes → Bytes → Bytes → RemoteStatus → ℤ → ℤ → FileItem → FileItem × Bool
unfolding restart_fits got_head
dl_started lib raw_header mod_date origin status bytes2seek announced i₀ =
    let i = record i₀ { incoming_count = (i₀.incoming_count + length raw_header) % u64 } in
    if leb (rank dl_got_head) (rank i.status)
    then if restart_fits lib mod_date bytes2seek announced i
      then got_head mod_date origin status bytes2seek announced i
      else (i, false)
    else got_head mod_date origin status bytes2seek announced
        (record i { content_length = minus_one })

-- fileitem::DlFinish: with a length that was not known, or on demand, the header is written anew.
unfoldable pub finish_header : HeadWrite → Store → Store
unfolding save_header
finish_header how s =
    let i = s.item in
    let known = if lt_ℤ i.content_length (pos 0) then i.size_checked else i.content_length in
    let s' = record s { item = record i { content_length = known } } in
    if severity i.destroy == 0 then (save_header how false s').0 else s'

unfoldable pub dl_finish : HeadWrite → Bool → Store → Store
unfolding finish_header
dl_finish how force_update_header s =
    if s.item.spattr.no_store || ltb (rank complete) (rank s.item.status)
    then s
    else let s' = record s { item = record (s.item) { status = complete } } in
      (if lt_ℤ s.item.content_length (pos 0) || force_update_header
        then finish_header how s'
        else s')
