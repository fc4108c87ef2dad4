-- ===== src/FileItem/Setup.antt =====
-- fileitem_with_storage::Setup: what the files of an earlier download make of a new item.
use apt_cacher_ng.Base.{
  Bool, true, Option, none, some, Bytes, codes, if◌then◌else◌, ltb, length, ℤ, pos, lt_ℤ, le_ℤ,
  eq_ℤ, minus_one,
}
use apt_cacher_ng.Http.{Dates}
use apt_cacher_ng.HeadFile.{Slots, slots, parse_head}
use apt_cacher_ng.FileItem.{FileItem, Store, fresh, inited, dl_got_head, complete, rank}

-- `GetFileSize(path, -1)`.
unfoldable pub file_size : Option Bytes → ℤ
file_size none = minus_one
file_size (some b) = pos (length b)

unfoldable pub error_clean : FileItem → FileItem
error_clean i = record i {
  size_cached_initial = minus_one;
  size_checked = minus_one;
  content_length = minus_one;
  writer_must_replace_file = true;
  status = inited;
}

-- What the `.head` file yields is taken over, also where the parse fails on its way.
unfoldable pub with_slots : Slots → FileItem → FileItem
with_slots v i = record i {
  content_length = v.content_length;
  response_mod_date = v.last_modified;
  response_origin = v.orig_src;
}

unfoldable pub make_volatile : FileItem → FileItem
make_volatile i = record i { spattr = record (i.spattr) { volatile = true } }

-- The checks on a file that is not volatile, behind a good head.
unfoldable pub judge_solid : FileItem → FileItem
unfolding error_clean make_volatile
judge_solid i =
    if i.spattr.head_only
    then record i { status = dl_got_head }
    else if le_ℤ (pos 0) i.content_length
    then if lt_ℤ i.content_length i.size_cached_initial
      then error_clean i
      else if eq_ℤ i.size_cached_initial i.content_length
      then record i { size_checked = i.size_cached_initial; status = complete }
      else make_volatile i
    else make_volatile i

unfoldable pub good_head : Slots → FileItem → FileItem
unfolding with_slots
good_head v i = record (with_slots v i) {
  response_status = record { code = pos 200; msg = codes "OK" };
}

unfoldable pub judge_head : Slots × Bool → FileItem → FileItem
unfolding good_head judge_solid error_clean
judge_head (v, good) i =
    if good
    then (if i.spattr.volatile then good_head v i else judge_solid (good_head v i))
    else error_clean (with_slots v i)

unfoldable pub setup : Dates → Store → FileItem
unfolding judge_head
setup lib s =
    let i = s.item in
    if ltb (rank fresh) (rank i.status)
    then i
    else judge_head
        (parse_head lib s.disk.head (slots i.content_length i.response_mod_date i.response_origin))
        (record i {
          status = inited;
          size_cached_initial = file_size s.disk.content;
          size_checked = minus_one;
        })
