-- ===== src/FileItem/Lifecycle.antt =====
-- What the operations of an item make of its state: Setup, DlStarted, DlFinish and the counting of
-- downloaders.
use apt_cacher_ng.Base.{
  ◌≤◌, ◌≡◌, ◌↔◌, ◌⊎◌, refl, Bool, true, false, arith, Bytes, ℤ, pos, minus_one, ◌≤ℤ◌, if◌then◌else◌,
  leb,
}
use apt_cacher_ng.Http.{RemoteStatus, Dates, date_eq}
use apt_cacher_ng.HeadFile.{Slots, slots, parse_head}
use apt_cacher_ng.FileItem.{FileItem, Store, fresh, inited, dl_got_head, complete, rank, dl_started}
use apt_cacher_ng.FileItem.Setup.{file_size, setup, judge_head}

-- What the `.head` file yields for a new item.
abbrev pub head_of : Dates → Store → Slots × Bool
head_of lib s =
    parse_head lib s.disk.head
      (slots s.item.content_length s.item.response_mod_date s.item.response_origin)

judge_head-complete :
    (r : Slots × Bool) (i : FileItem)
    → i.status ≡ inited
    → ((judge_head r i).status ≡ complete) ↔ (
        (i.spattr.volatile ≡ false)
        × (i.spattr.head_only ≡ false)
        × (r.1 ≡ true)
        × (pos 0 ≤ℤ r.0.content_length)
        × (i.size_cached_initial ≡ r.0.content_length))
unfolding judge_head
judge_head-complete (v, b) i h = (λ e. ground arith, λ e. ground arith)

-- Setup takes an item that is new for complete exactly if it is neither volatile nor asked for its
-- head alone, its `.head` file is good and gives a length, and the file has that length.
pub setup-complete :
    (lib : Dates) (s : Store)
    → s.item.status ≡ fresh
    → ((setup lib s).status ≡ complete) ↔ (
        (s.item.spattr.volatile ≡ false)
        × (s.item.spattr.head_only ≡ false)
        × ((head_of lib s).1 ≡ true)
        × (pos 0 ≤ℤ (head_of lib s).0.content_length)
        × (file_size s.disk.content ≡ (head_of lib s).0.content_length))
unfolding setup
setup-complete lib s h = ground (
  arith,
  judge_head-complete (head_of lib s)
      (record (s.item) {
        status = inited;
        size_cached_initial = file_size s.disk.content;
        size_checked = minus_one;
      })
      refl,
)

-- A download that DlStarted lets start again at a given place, with a header already taken, goes
-- on exactly where the data ends, and with the same date and the same length, if one was known.
pub dl_started_again :
    (lib : Dates) (raw date origin : Bytes) (status : RemoteStatus) (from len : ℤ) (i : FileItem)
    {j : FileItem}
    → rank dl_got_head ≤ rank i.status
    → pos 0 ≤ℤ from
    → dl_started lib raw date origin status from len i ≡ (j, true)
    → (from ≡ i.size_checked)
      × (j.size_checked ≡ i.size_checked)
      × ((i.content_length ≡ len) ⊎ (i.content_length ≡ minus_one))
      × (date_eq lib i.response_mod_date date ≡ true)
unfolding dl_started
dl_started_again lib raw date origin status from len i h p e = ground arith

-- A header that DlStarted refuses leaves the data's size and the response's status line, origin and
-- date. The length stays if a header had been taken before, and is forgotten otherwise; the item's
-- status stays or becomes FIST_DLGOTHEAD.
pub dl_started_refused :
    (lib : Dates) (raw date origin : Bytes) (status : RemoteStatus) (from len : ℤ) (i : FileItem)
    {j : FileItem}
    → dl_started lib raw date origin status from len i ≡ (j, false)
    → (j.size_checked ≡ i.size_checked)
      × (j.response_status ≡ i.response_status)
      × (j.response_origin ≡ i.response_origin)
      × (j.response_mod_date ≡ i.response_mod_date)
      × (j.content_length
          ≡ (if leb (rank dl_got_head) (rank i.status) then i.content_length else minus_one))
      × ((j.status ≡ i.status) ⊎ (j.status ≡ dl_got_head))
unfolding dl_started
dl_started_refused lib raw date origin status from len i e = ground arith
