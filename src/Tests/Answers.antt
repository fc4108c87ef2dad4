-- ===== src/Tests/Answers.antt =====
-- The theorems on a response's header at concrete inputs.
use apt_cacher_ng.HeadFile.{store_head_result, head_text}
use apt_cacher_ng.Text.Decimal.{after_digits, atoll, print_ℤ}
use apt_cacher_ng.Text.{trim_front, find_first_not_of}
use apt_cacher_ng.Base.{
  ◌≡◌, refl, true, false, none, some, [], ◌∷◌, ◌++◌, Bytes, codes, take, pos, if◌then◌else◌, ◌==◌,
  minus_one, starts_with, mem_byte, equal,
}
use apt_cacher_ng.Http.{date_eq, http_date}
use apt_cacher_ng.Header.{Header, new_header}
use apt_cacher_ng.FileItem.{Store, dl_got_head, written, dl_started}
use apt_cacher_ng.FileItem.Writer.{
  bytes_of, safe_open_out_file, open_steps, open_file, move_release, shrink, position, begin_stream,
}
use apt_cacher_ng.FileItem.Added.{wrote, dl_add_data, accepted, add_opened, write_chunk}
use apt_cacher_ng.FileItem.Received.{received}
use apt_cacher_ng.Job.Answer.{
  Answer, good, content_range, check_and_save_header, by_code, partial, is_probe_of, announce,
}
use apt_cacher_ng.Job.Resume.{
  check_and_save_header_full, check_and_save_header-partial, check_and_save_header-dl_add_data,
}
use apt_cacher_ng.Tests.Items.{plain_dates, half, opens, renewed}

abbrev range_text : Bytes
range_text = codes "bytes 3-4/5"

range_read : content_range range_text ≡ some (pos 3, pos 5)
unfolding content_range starts_with trim_front find_first_not_of mem_byte after_digits atoll
range_read = refl

-- A length that is not told is taken for 0.
range_star : content_range (codes "x bytes=3-4/*") ≡ some (pos 3, pos 0)
unfolding content_range starts_with trim_front find_first_not_of mem_byte after_digits atoll
range_star = refl

abbrev rest_header : Header
rest_header = record new_header {
  h = λ i. if i == 5 then some range_text else none;
  status = record { code = pos 206; msg = codes "Partial Content" };
}

abbrev full_header : Header
full_header = record new_header { status = record { code = pos 200; msg = codes "OK" } }

abbrev resuming : Answer
resuming = record {
  assigned = true;
  allow_store_data = true;
  used_range_start = pos 3;
  store = half;
}

abbrev uri : Bytes
uri = codes "http://deb/a"

abbrev resumed : Answer
resumed =
    (check_and_save_header plain_dates 1000 written (codes "HTTP") uri rest_header (pos 2)
      resuming).1

taken :
    check_and_save_header plain_dates 1000 written (codes "HTTP") uri rest_header (pos 2) resuming
    ≡ (good, resumed)
unfolding check_and_save_header by_code partial content_range starts_with trim_front
    find_first_not_of mem_byte after_digits is_probe_of atoll announce dl_started date_eq http_date
    equal
taken = refl

allowed : resumed.allow_store_data ≡ true
unfolding check_and_save_header by_code partial content_range starts_with trim_front
    find_first_not_of mem_byte after_digits is_probe_of atoll announce dl_started date_eq http_date
    equal
allowed = refl

check_and_save_header-partial_example :
    (resuming.used_range_start ≡ pos 3)
    × (resumed.store.item.size_checked ≡ pos 3)
    × (resumed.store.item.status ≡ dl_got_head)
    × (resumed.store.item.content_length ≡ pos 5)
    × (resumed.store.disk ≡ half.disk)
    × (resumed.store.item.file ≡ half.item.file)
check_and_save_header-partial_example =
    check_and_save_header-partial plain_dates 1000 written (codes "HTTP") uri rest_header range_text
      3 (pos 5) (pos 2) resuming resumed refl refl range_read taken allowed

abbrev after_data : Store
after_data = (dl_add_data 0 opens (wrote 9 ∷ []) (codes "de") resumed.store).0

data_added : dl_add_data 0 opens (wrote 9 ∷ []) (codes "de") resumed.store ≡ (after_data, accepted)
unfolding check_and_save_header by_code partial content_range starts_with trim_front
    find_first_not_of mem_byte after_digits is_probe_of atoll announce dl_started date_eq http_date
    equal dl_add_data safe_open_out_file open_steps open_file move_release shrink position
    begin_stream store_head_result head_text print_ℤ add_opened write_chunk
data_added = refl

check_and_save_header-dl_add_data_example :
    received after_data ≡ take 3 (bytes_of half.disk.content) ++ codes "de"
check_and_save_header-dl_add_data_example =
    check_and_save_header-dl_add_data plain_dates 1000 written (codes "HTTP") uri rest_header
      range_text 3 (pos 5) (pos 2) resuming resumed 0 opens (wrote 9 ∷ []) (codes "de") after_data
      refl refl range_read refl taken allowed data_added

-- A new item, and the whole file.
abbrev starting : Answer
starting = record {
  assigned = false;
  allow_store_data = true;
  used_range_start = minus_one;
  store = renewed;
}

abbrev started : Answer
started =
    (check_and_save_header plain_dates 1000 written (codes "HTTP") uri full_header (pos 5)
      starting).1

full_taken :
    check_and_save_header plain_dates 1000 written (codes "HTTP") uri full_header (pos 5) starting
    ≡ (good, started)
unfolding check_and_save_header by_code announce dl_started
full_taken = refl

full_allowed : started.allow_store_data ≡ true
unfolding check_and_save_header by_code announce dl_started
full_allowed = refl

check_and_save_header_full_example :
    (started.store.item.size_checked ≡ pos 0)
    × (started.store.item.status ≡ dl_got_head)
    × (started.store.item.content_length ≡ pos 5)
check_and_save_header_full_example =
    check_and_save_header_full plain_dates 1000 written (codes "HTTP") uri full_header (pos 5)
      starting started refl full_taken full_allowed
