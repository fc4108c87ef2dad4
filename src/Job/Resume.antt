-- ===== src/Job/Resume.antt =====
-- Where the data of a response goes on in the item.
use apt_cacher_ng.Base.{
  ℕ, ◌+◌, ◌≡◌, refl, true, none, some, arith, Bytes, ℤ, pos, length, codes, ◌%◌, List, take, ◌++◌,
  ◌∙◌, ap, ap₂, pos_part, inl,
}
use apt_cacher_ng.Http.{Dates, RemoteStatus, http_date}
use apt_cacher_ng.Header.{Header}
use apt_cacher_ng.FileItem.{
  FileItem, Store, dl_got_head, HeadWrite, dl_started, got_head, restart_fits, u64, Disk,
}
use apt_cacher_ng.FileItem.Writer.{OpenEnv, bytes_of}
use apt_cacher_ng.FileItem.Added.{WriteResult, accepted, dl_add_data}
use apt_cacher_ng.FileItem.Received.{received}
use apt_cacher_ng.FileItem.Opening.{dl_add_data-received}
use apt_cacher_ng.Job.Answer.{
  Answer, good, content_range, content_range_pos, announce, partial, by_code, check_and_save_header,
  confirmed, answer_error, text_of, last_modified_pos, set_fi,
}

-- Where DlStarted takes a header at a place that is not negative, the item's data goes on there.
dl_started-taken :
    (lib : Dates) (raw date origin : Bytes) (status : RemoteStatus) (start len : ℤ) (from : ℕ)
    (i : FileItem)
    → start ≡ pos from
    → (dl_started lib raw date origin status start len i).1 ≡ true
    → let j = (dl_started lib raw date origin status start len i).0 in
      (j.size_checked ≡ pos from) × (j.status ≡ dl_got_head) × (j.content_length ≡ len)
unfolding dl_started
dl_started-taken lib raw date origin status start len from i s h =
    (ground arith, ground arith, ground arith)

module _ (lib : Dates) (now : ℕ) (head_write : HeadWrite) where
  announce-good :
      (raw date origin : Bytes) (status : RemoteStatus) (len : ℤ) (from : ℕ) (a b : Answer)
      → a.used_range_start ≡ pos from
      → announce lib now head_write raw date origin status len a ≡ (good, b)
      → b.allow_store_data ≡ true
      → (b.store.item.size_checked ≡ pos from)
        × (b.store.item.status ≡ dl_got_head)
        × (b.store.item.content_length ≡ len)
  unfolding announce
  announce-good raw date origin status len from a b h e allow =
      let taken =
        dl_started-taken lib raw date origin status a.used_range_start len from
          (record (a.store.item) { time_dl_started = now }) h in
      (ground (arith, taken), ground (arith, taken), ground (arith, taken))

  partial-good :
      (raw uri : Bytes) (hd : Header) (text : Bytes) (from : ℕ) (whole : ℤ) (a b : Answer)
      → hd.h content_range_pos ≡ some text
      → content_range text ≡ some (pos from, whole)
      → partial lib now head_write raw uri hd a ≡ (good, b)
      → b.allow_store_data ≡ true
      → (a.used_range_start ≡ pos from)
        × (announce lib now head_write raw
              (http_date lib (text_of (hd.h last_modified_pos)))
              uri
              (record { code = pos 200; msg = codes "OK" })
              whole
              a
            ≡ (good, b))
  unfolding partial confirmed answer_error
  partial-good raw uri hd text from whole a b t c e allow = (ground arith, ground arith)

  announce-same :
      (raw date origin : Bytes) (status : RemoteStatus) (len : ℤ) (a b : Answer)
      → announce lib now head_write raw date origin status len a ≡ (good, b)
      → b.allow_store_data ≡ true
      → (b.store.disk ≡ a.store.disk) × (b.store.item.file ≡ a.store.item.file)
  unfolding announce dl_started got_head restart_fits
  announce-same raw date origin status len a b e allow = (ground arith, ground arith)

  -- The switch, as CheckAndSaveHeader comes to it.
  counted : Bytes → Answer → Answer
  counted raw a =
      set_fi
        (record (a.store.item) {
          incoming_count = (a.store.item.incoming_count + length raw) % u64;
        })
        a

  check-by_code :
      (raw uri : Bytes) (hd : Header) (len : ℤ) (a b : Answer)
      → check_and_save_header lib now head_write raw uri hd len a ≡ (good, b)
      → by_code lib now head_write raw uri hd len (counted raw a) ≡ (good, b)
  unfolding check_and_save_header counted
  check-by_code raw uri hd len a b e = ground arith

  -- A 200 that is taken, with its data to be stored, has the data start at the file's beginning, and
  -- the item has the announced length.
  pub check_and_save_header_full :
      (raw uri : Bytes) (hd : Header) (len : ℤ) (a b : Answer)
      → hd.status.code ≡ pos 200
      → check_and_save_header lib now head_write raw uri hd len a ≡ (good, b)
      → b.allow_store_data ≡ true
      → (b.store.item.size_checked ≡ pos 0)
        × (b.store.item.status ≡ dl_got_head)
        × (b.store.item.content_length ≡ len)
  unfolding by_code
  check_and_save_header_full raw uri hd len a b code e allow =
      announce-good raw (http_date lib (text_of (hd.h last_modified_pos))) uri hd.status len 0
        (record (counted raw a) { used_range_start = pos 0 }) b refl
        (ground (arith, check-by_code raw uri hd len a b e)) allow

  code_206 :
      (raw uri : Bytes) (hd : Header) (len : ℤ) (a b : Answer)
      → hd.status.code ≡ pos 206
      → by_code lib now head_write raw uri hd len a ≡ (good, b)
      → partial lib now head_write raw uri hd a ≡ (good, b)
  unfolding by_code
  code_206 raw uri hd len a b code e = ground arith

  -- A 206 that is taken, with its data to be stored, starts where the job asked for, and there the
  -- item's data goes on; the files are as before. The Content-Range tells the place and the length.
  pub check_and_save_header-partial :
      (raw uri : Bytes) (hd : Header) (text : Bytes) (from : ℕ) (whole len : ℤ) (a b : Answer)
      → hd.status.code ≡ pos 206
      → hd.h content_range_pos ≡ some text
      → content_range text ≡ some (pos from, whole)
      → check_and_save_header lib now head_write raw uri hd len a ≡ (good, b)
      → b.allow_store_data ≡ true
      → (a.used_range_start ≡ pos from)
        × (b.store.item.size_checked ≡ pos from)
        × (b.store.item.status ≡ dl_got_head)
        × (b.store.item.content_length ≡ whole)
        × (b.store.disk ≡ a.store.disk)
        × (b.store.item.file ≡ a.store.item.file)
  unfolding counted
  check_and_save_header-partial raw uri hd text from whole len a b code t c e allow =
      let (asked, said) =
        partial-good raw uri hd text from whole (counted raw a) b t c
          (code_206 raw uri hd len (counted raw a) b code (check-by_code raw uri hd len a b e))
          allow in
      let ok : RemoteStatus = record { code = pos 200; msg = codes "OK" } in
      let date = http_date lib (text_of (hd.h last_modified_pos)) in
      let (size, status, length) =
        announce-good raw date uri ok whole from (counted raw a) b asked said allow in
      let (disk, file) = announce-same raw date uri ok whole (counted raw a) b said allow in
      (asked, size, status, length, disk, file)

  -- The first data of a 206 that is taken, once it is accepted, stands behind the part of the old
  -- file that the response goes on from; no file was open before.
  pub check_and_save_header-dl_add_data :
      (raw uri : Bytes) (hd : Header) (text : Bytes) (from : ℕ) (whole len : ℤ) (a b : Answer)
      (allocspace : ℕ) (e : OpenEnv) (rs : List WriteResult) (chunk : Bytes) (t : Store)
      → hd.status.code ≡ pos 206
      → hd.h content_range_pos ≡ some text
      → content_range text ≡ some (pos from, whole)
      → a.store.item.file ≡ none
      → check_and_save_header lib now head_write raw uri hd len a ≡ (good, b)
      → b.allow_store_data ≡ true
      → dl_add_data allocspace e rs chunk b.store ≡ (t, accepted)
      → received t ≡ take from (bytes_of a.store.disk.content) ++ chunk
  check_and_save_header-dl_add_data raw uri hd text from whole len a b allocspace e rs chunk t code
        h c closed taken allow added =
      let (_, size, _, _, disk, file) =
        check_and_save_header-partial raw uri hd text from whole len a b code h c taken allow in
      let (_, grown, _) =
        dl_add_data-received allocspace e rs chunk b.store t (inl (file ∙ closed)) added in
      grown
      ∙ ap (λ (s : Bytes). s ++ chunk)
          (ap₂ take (ap pos_part size) (ap (λ (d : Disk). bytes_of d.content) disk))
