-- ===== src/Tests/Items.antt =====
-- The theorems on file items at concrete inputs.
use apt_cacher_ng.Base.{
  ◌≡◌, ◌⊎◌, ◌↔◌, refl, inl, Bool, true, false, none, some, [], ◌∷◌, ◌++◌, arith, Bytes, codes, pos,
  length, minus_one, starts_with, mem_byte, equal, ◌≤ℤ◌, ◌+◌, if◌then◌else◌, leb,
}
use apt_cacher_ng.Text.{find}
use apt_cacher_ng.Http.{Dates, RemoteStatus, date_eq}
use apt_cacher_ng.HeadFile.{store_head_result, head_text}
use apt_cacher_ng.HeadFile.RoundTrip.{Storable}
use apt_cacher_ng.FileItem.{
  FileItem, SpecialPurposeAttr, Store, dl_got_head, dl_receiving, complete, keep, new_item, written,
  mark_faulty, dl_finish, dl_started, rank,
}
use apt_cacher_ng.FileItem.Setup.{setup, file_size}
use apt_cacher_ng.Text.Decimal.{print_ℤ}
use apt_cacher_ng.FileItem.Writer.{
  safe_open_out_file, open_steps, open_file, move_release, shrink, position, begin_stream, OpenEnv,
  ReplaceEnv,
}
use apt_cacher_ng.FileItem.Added.{add_opened, write_chunk, wrote, accepted, dl_add_data}
use apt_cacher_ng.FileItem.Release.{ReleaseEnv, release}
use apt_cacher_ng.FileItem.Received.{Streaming, received, checked}
use apt_cacher_ng.FileItem.Opening.{dl_add_data-received}
use apt_cacher_ng.FileItem.Lifecycle.{head_of, setup-complete, dl_started_again, dl_started_refused}
use apt_cacher_ng.FileItem.Resumed.{setup-dl_finish}
use apt_cacher_ng.FileItem.Destroyed.{Steps, here, next, mark, Steps-Keeps, Steps-release}

abbrev pub plain_dates : Dates
plain_dates = record { reformat = λ d. []; seconds = λ d. none }

abbrev pub plain : SpecialPurposeAttr
plain = record {
  volatile = false;
  head_only = false;
  no_store = false;
  range_limit = minus_one;
  credentials = [];
}

abbrev pub some_origin : Bytes
some_origin = codes "http://deb/a"

abbrev ok : RemoteStatus
ok = record { code = pos 200; msg = codes "OK" }

-- Three of five bytes are there.
abbrev pub half : Store
half = record {
  item = record (new_item (codes "deb/a") plain) {
    status = dl_got_head;
    size_checked = pos 3;
    content_length = pos 5;
    response_origin = some_origin;
    dl_refs_count = 1;
  };
  disk = record { content = some (codes "abc"); head = none; spare = 0; side_store = [] };
}

abbrev pub works : ReplaceEnv
works = record { can_create = true; can_move = true; can_rename = true }

abbrev pub opens : OpenEnv
opens = record {
  first = works;
  second = works;
  can_open = true;
  can_seek = true;
  can_copy = true;
  head_write = written;
}

-- The rest comes, and is written in two calls.
abbrev full : Store
full = (dl_add_data 0 opens (wrote 1 ∷ wrote 9 ∷ []) (codes "de") half).0

added : dl_add_data 0 opens (wrote 1 ∷ wrote 9 ∷ []) (codes "de") half ≡ (full, accepted)
unfolding dl_add_data safe_open_out_file open_steps open_file move_release shrink position
    begin_stream store_head_result head_text print_ℤ add_opened write_chunk
added = refl

dl_add_data-received_example :
    Streaming full
    × (received full ≡ received half ++ codes "de")
    × (checked full ≡ checked half + length (codes "de"))
dl_add_data-received_example =
    dl_add_data-received 0 opens (wrote 1 ∷ wrote 9 ∷ []) (codes "de") half full (inl refl) added

-- The same bytes, in a file that is finished.
abbrev finished : Store
finished = record half {
  item = record (half.item) {
    size_checked = pos 5;
    content_length = minus_one;
    status = dl_receiving;
  };
  disk = record (half.disk) { content = some (codes "abcde") };
}

storable : Storable [] some_origin
unfolding find starts_with mem_byte
storable = record {
  date_line = refl;
  date_start = tt;
  date_end = tt;
  date_short = omega arith;
  origin_line = refl;
  origin_start = refl;
  origin_end = refl;
}

setup-dl_finish_example :
    let i = setup plain_dates (record {
      item = new_item (codes "deb/a") plain;
      disk = (dl_finish written false finished).disk;
    }) in
    (i.status ≡ complete)
    × (i.size_checked ≡ pos 5)
    × (i.response_mod_date ≡ [])
    × (i.response_origin ≡ some_origin)
setup-dl_finish_example =
    setup-dl_finish plain_dates false finished 5 (codes "abcde") plain refl (omega arith) refl
      (inl (refl, refl)) refl refl storable refl refl

-- A faulty item, marked for deletion.
abbrev faulty : Store
faulty = record half { item = mark_faulty true half.item }

marked : Steps half faulty
marked = next here (mark true)

Steps-Keeps_example : faulty.item.destroy ≡ keep
Steps-Keeps_example = Steps-Keeps marked refl

abbrev let_go : ReleaseEnv
let_go = record { can_truncate = true; head_write = written }

Steps-release_example :
    ((release let_go faulty).disk.content ≡ some (codes "abc"))
    × ((release let_go faulty).disk.head ≡ none)
Steps-release_example = Steps-release marked refl let_go

abbrev pub renewed : Store
renewed = record half { item = new_item (codes "deb/a") plain }

setup-complete_example : ((setup plain_dates renewed).status ≡ complete) ↔ (
    (plain.volatile ≡ false)
    × (plain.head_only ≡ false)
    × ((head_of plain_dates renewed).1 ≡ true)
    × (pos 0 ≤ℤ (head_of plain_dates renewed).0.content_length)
    × (file_size renewed.disk.content ≡ (head_of plain_dates renewed).0.content_length))
setup-complete_example = setup-complete plain_dates renewed refl

abbrev again : FileItem × Bool
again = dl_started plain_dates (codes "HTTP") [] some_origin ok (pos 3) (pos 5) half.item

again_taken : again ≡ (again.0, true)
unfolding dl_started date_eq equal
again_taken = refl

dl_started_again_example :
    (pos 3 ≡ pos 3)
    × (again.0.size_checked ≡ pos 3)
    × ((pos 5 ≡ pos 5) ⊎ (pos 5 ≡ minus_one))
    × (date_eq plain_dates [] [] ≡ true)
dl_started_again_example =
    dl_started_again plain_dates (codes "HTTP") [] some_origin ok (pos 3) (pos 5) half.item
      (omega arith) (ground arith) again_taken

abbrev other_size : FileItem × Bool
other_size = dl_started plain_dates (codes "HTTP") [] some_origin ok (pos 3) (pos 6) half.item

other_size_refused : other_size ≡ (other_size.0, false)
unfolding dl_started
other_size_refused = refl

dl_started_refused_example :
    (other_size.0.size_checked ≡ pos 3)
    × (other_size.0.response_status ≡ half.item.response_status)
    × (other_size.0.response_origin ≡ some_origin)
    × (other_size.0.response_mod_date ≡ [])
    × (other_size.0.content_length ≡ (
        if leb (rank dl_got_head) (rank half.item.status)
        then half.item.content_length
        else minus_one))
    × ((other_size.0.status ≡ half.item.status) ⊎ (other_size.0.status ≡ dl_got_head))
dl_started_refused_example =
    dl_started_refused plain_dates (codes "HTTP") [] some_origin ok (pos 3) (pos 6) half.item
      other_size_refused
