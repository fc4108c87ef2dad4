-- ===== src/FileItem/Resumed.antt =====
-- A finished download, seen by the next item of the same path.
use apt_cacher_ng.Base.{
  ℕ, ◌≤◌, ◌≡◌, ◌⊎◌, refl, ap, ◌∙◌, Bool, true, false, Option, some, [], ◌∷◌, arith, Bytes, length,
  if◌then◌else◌, pos, le_ℤ, lt_ℤ, null, minus_one,
}
use apt_cacher_ng.Http.{Dates}
use apt_cacher_ng.HeadFile.{Slots, slots, parse_head, head_text}
use apt_cacher_ng.HeadFile.RoundTrip.{Storable, parse-head_text}
use apt_cacher_ng.FileItem.{
  FileItem, Store, SpecialPurposeAttr, complete, rank, keep, new_item, written, dl_finish, inited,
}
use apt_cacher_ng.FileItem.Setup.{file_size, setup, judge_head}

-- What a finished item writes: the header, with the length that is known by then.
finish-disk :
    (force : Bool) (s : Store) (n : ℕ)
    → s.item.spattr.no_store ≡ false
    → rank s.item.status ≤ rank complete
    → s.item.destroy ≡ keep
    → ((lt_ℤ s.item.content_length (pos 0) ≡ true) × (s.item.size_checked ≡ pos n))
      ⊎ ((s.item.content_length ≡ pos n) × (force ≡ true))
    → ((dl_finish written force s).disk.content ≡ s.disk.content)
      × ((dl_finish written force s).disk.head
          ≡ some (head_text (pos n) s.item.response_mod_date s.item.response_origin))
unfolding dl_finish
finish-disk force s n a b c d = ground arith

same_or_nil : (t : Bytes) → (if null t then [] else t) ≡ t
same_or_nil [] = refl
same_or_nil (c ∷ t) = refl

counted : (n : ℕ) → (if le_ℤ (pos 0) (pos n) then pos n else minus_one) ≡ pos n
counted n = ground arith

-- A solid item of a good head whose length is the file's.
judge_good :
    (r : Slots × Bool) (i : FileItem) (n : ℕ)
    → r.1 ≡ true
    → r.0.content_length ≡ pos n
    → i.size_cached_initial ≡ pos n
    → i.spattr.volatile ≡ false
    → i.spattr.head_only ≡ false
    → ((judge_head r i).status ≡ complete)
      × ((judge_head r i).size_checked ≡ pos n)
      × ((judge_head r i).response_mod_date ≡ r.0.last_modified)
      × ((judge_head r i).response_origin ≡ r.0.orig_src)
unfolding judge_head
judge_good r i n a b c d e = ground arith

abbrev prepared : Dates → SpecialPurposeAttr → Store → FileItem
prepared lib attr s = record (new_item s.item.path_rel attr) {
  status = inited;
  size_cached_initial = file_size s.disk.content;
}

setup_new :
    (lib : Dates) (attr : SpecialPurposeAttr) (s : Store)
    → setup lib (record s { item = new_item s.item.path_rel attr })
      ≡ judge_head (parse_head lib s.disk.head (slots minus_one [] [])) (prepared lib attr s)
unfolding setup
setup_new lib attr s = refl

-- A download that may be stored, is not past FIST_COMPLETE and is to be kept, finished with its
-- length written to the `.head` file and with as many bytes in its data file, is found complete by
-- the next item, solid and not for the head alone, that is set up over the same files, with the
-- same size, date and origin. Date and origin are texts that the `.head` file can hold.
pub setup-dl_finish :
    (lib : Dates) (force : Bool) (s : Store) (n : ℕ) (b : Bytes) (attr : SpecialPurposeAttr)
    → s.item.spattr.no_store ≡ false
    → rank s.item.status ≤ rank complete
    → s.item.destroy ≡ keep
    → ((lt_ℤ s.item.content_length (pos 0) ≡ true) × (s.item.size_checked ≡ pos n))
      ⊎ ((s.item.content_length ≡ pos n) × (force ≡ true))
    → s.disk.content ≡ some b
    → length b ≡ n
    → Storable s.item.response_mod_date s.item.response_origin
    → attr.volatile ≡ false
    → attr.head_only ≡ false
    → let i = setup lib (record {
      item = new_item s.item.path_rel attr;
      disk = (dl_finish written force s).disk;
    }) in
      (i.status ≡ complete)
      × (i.size_checked ≡ pos n)
      × (i.response_mod_date ≡ s.item.response_mod_date)
      × (i.response_origin ≡ s.item.response_origin)
unfolding file_size
setup-dl_finish lib force s n b attr ns st ke len con size ok vol ho =
    let (same, head) = finish-disk force s n ns st ke len in
    let (good, length_read, date_read, origin_read) =
      parse-head_text lib (pos n) s.item.response_mod_date s.item.response_origin minus_one [] []
        ok in
    let (done, checked, date, origin) =
      judge_good (found (dl_finish written force s).disk.head)
        (prepared lib attr (record s { disk = (dl_finish written force s).disk })) n
        (ap (λ h. (found h).1) head ∙ good)
        (ap (λ h. (found h).0.content_length) head ∙ length_read ∙ counted n)
        (ap file_size (same ∙ con) ∙ ap pos size) vol ho in
    let new = setup_new lib attr (record s { disk = (dl_finish written force s).disk }) in
    (
      ap (λ i. i.status) new ∙ done,
      ap (λ i. i.size_checked) new ∙ checked,
      ap (λ i. i.response_mod_date) new
          ∙ date
          ∙ ap (λ h. (found h).0.last_modified) head
          ∙ date_read
          ∙ same_or_nil s.item.response_mod_date,
      ap (λ i. i.response_origin) new
          ∙ origin
          ∙ ap (λ h. (found h).0.orig_src) head
          ∙ origin_read
          ∙ same_or_nil s.item.response_origin,
    )
  where
    found : Option Bytes → Slots × Bool
    found h = parse_head lib h (slots minus_one [] [])
