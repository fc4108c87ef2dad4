-- ===== src/FileItem/Destroyed.antt =====
-- The destroy mode over the life of an item, and what is left of its files at the end.
use apt_cacher_ng.Base.{ℕ, ◌≡◌, Bool, true, false, List, [], ◌∷◌, arith, Bytes, ℤ, length}
use apt_cacher_ng.Http.{RemoteStatus, Dates}
use apt_cacher_ng.FileItem.{
  FileItem, Store, DestroyMode, keep, HeadWrite, dl_set_error, mark_faulty, dl_ref_count_add,
  dl_ref_count_dec, dl_started, dl_finish, take_transfer_count,
}
use apt_cacher_ng.FileItem.Setup.{setup}
use apt_cacher_ng.FileItem.Writer.{
  OpenEnv, ReplaceEnv, with_error, replace_file, move_release, open_file, check, shrink, position,
  within_file, begin_stream, open_steps, safe_open_out_file, closed, ◌>>=◌,
}
use apt_cacher_ng.FileItem.Added.{
  interrupted, write_error, WriteResult, dl_add_data, write_chunk, add_opened, add_after, counted,
  wrote,
}
use apt_cacher_ng.FileItem.Release.{ReleaseEnv, release}

abbrev set_item : FileItem → Store → Store
set_item i s = record s { item = i }

-- One operation on an item, with whatever its callers pass and the system answers.
pub data Step (s : Store) : Store → Type 0 where
  set_up : (lib : Dates) → Step s (set_item (setup lib s) s)
  start :
      (lib : Dates) (raw date origin : Bytes) (status : RemoteStatus) (from len : ℤ)
      → Step s (set_item (dl_started lib raw date origin status from len s.item).0 s)
  add :
      (a : ℕ) (e : OpenEnv) (rs : List WriteResult) (chunk : Bytes)
      → Step s (dl_add_data a e rs chunk s).0
  finish : (how : HeadWrite) (force : Bool) → Step s (dl_finish how force s)
  fail :
      (why : RemoteStatus) (mode : DestroyMode) → Step s (set_item (dl_set_error why mode s.item) s)
  mark : (kill : Bool) → Step s (set_item (mark_faulty kill s.item) s)
  enter : Step s (set_item (dl_ref_count_add s.item) s)
  leave : (why : RemoteStatus) → Step s (set_item (dl_ref_count_dec why s.item) s)
  take_count : Step s (set_item (take_transfer_count s.item).0 s)

pub data Steps (s : Store) : Store → Type 0 where
  here : Steps s s
  next : {t u : Store} → Steps s t → Step t u → Steps s u

abbrev Keeps : Store → Type 0
Keeps s = s.item.destroy ≡ keep

dl_set_error-keep :
    (why : RemoteStatus) (mode : DestroyMode) (i : FileItem)
    → i.destroy ≡ keep
    → (dl_set_error why mode i).destroy ≡ keep
unfolding dl_set_error
dl_set_error-keep why keep i h = ground arith
dl_set_error-keep why _ i h = ground arith

with_error-Keeps : (s : Store) → Keeps s → Keeps (with_error keep s).0
unfolding with_error
with_error-Keeps s h = ground arith

replace_file-Keeps : (e : ReplaceEnv) (s : Store) → Keeps s → Keeps (replace_file e s).0
unfolding replace_file
replace_file-Keeps e s h = ground arith

move_release-Keeps : (b : Bool) (s : Store) → Keeps s → Keeps (move_release b s)
unfolding move_release
move_release-Keeps b s h = ground arith

open_file-Keeps : (e : OpenEnv) (s : Store) → Keeps s → Keeps (open_file e s).0
unfolding open_file
open_file-Keeps e s h = ground arith

shrink-Keeps : (e : ReplaceEnv) (s : Store) → Keeps s → Keeps (shrink e s).0
unfolding shrink
shrink-Keeps e s h = ground arith

position-Keeps : (s : Store) → Keeps s → Keeps (position s)
unfolding position
position-Keeps s h = h

begin_stream-Keeps : (a : ℕ) (e : OpenEnv) (s : Store) → Keeps s → Keeps (begin_stream a e s).0
unfolding begin_stream
begin_stream-Keeps a e s h = ground arith

bind-Keeps :
    (m : Store × Bool) (f : Store → Store × Bool)
    → Keeps m.0
    → ((s : Store) → Keeps s → Keeps (f s).0)
    → Keeps (m >>= f).0
bind-Keeps (s, true) f h k = k s h
bind-Keeps (s, false) f h k = h

check-Keeps : (b : Bool) (s : Store) → Keeps s → Keeps (check b s).0
check-Keeps true s h = h
check-Keeps false s h = with_error-Keeps s h

open_steps-Keeps : (a : ℕ) (e : OpenEnv) (s : Store) → Keeps s → Keeps (open_steps a e s).0
unfolding open_steps
open_steps-Keeps a e s h =
    bind-Keeps (open_file e (move_release e.can_copy s)) _
      (open_file-Keeps e _ (move_release-Keeps e.can_copy s h))
      λ s₂ k₂. bind-Keeps (check e.can_seek s₂) _ (check-Keeps e.can_seek s₂ k₂) λ s₃ k₃.
        bind-Keeps (shrink e.second s₃) _ (shrink-Keeps e.second s₃ k₃) λ s₄ k₄.
          bind-Keeps (check (within_file (position s₄)) (position s₄)) _
            (check-Keeps _ (position s₄) (position-Keeps s₄ k₄))
            λ s₅ k₅. begin_stream-Keeps a e s₅ k₅

write_chunk-Keeps :
    (rs : List WriteResult) (chunk : Bytes) (s : Store) → Keeps s → Keeps (write_chunk rs chunk s).0
unfolding write_chunk
write_chunk-Keeps rs [] s h = h
write_chunk-Keeps [] (c ∷ chunk) s h = h
write_chunk-Keeps (wrote n ∷ rs) (c ∷ chunk) s h = write_chunk-Keeps rs _ _ h
write_chunk-Keeps (interrupted ∷ rs) (c ∷ chunk) s h = h
write_chunk-Keeps (write_error ∷ rs) (c ∷ chunk) s h = with_error-Keeps s h

add_opened-Keeps :
    (rs : List WriteResult) (chunk : Bytes) (s : Store) → Keeps s → Keeps (add_opened rs chunk s).0
unfolding add_opened
add_opened-Keeps rs chunk s h = ground (arith, with_error-Keeps s h, write_chunk-Keeps rs chunk s h)

add_after-Keeps :
    (rs : List WriteResult) (chunk : Bytes) (m : Store × Bool)
    → Keeps m.0
    → Keeps (add_after rs chunk m).0
add_after-Keeps rs chunk (s, true) h = add_opened-Keeps rs chunk s h
add_after-Keeps rs chunk (s, false) h = h

safe_open_out_file-Keeps :
    (a : ℕ) (e : OpenEnv) (s : Store) → Keeps s → Keeps (safe_open_out_file a e s).0
unfolding safe_open_out_file
safe_open_out_file-Keeps a e s h = ground (arith, open_steps-Keeps a e (closed s) h)

dl_add_data-Keeps :
    (a : ℕ) (e : OpenEnv) (rs : List WriteResult) (chunk : Bytes) (s : Store)
    → Keeps s
    → Keeps (dl_add_data a e rs chunk s).0
unfolding dl_add_data
dl_add_data-Keeps a e rs chunk s h = ground (
  arith,
  add_opened-Keeps rs chunk (counted (length chunk) s) h,
  add_after-Keeps rs chunk (safe_open_out_file a e (counted (length chunk) s))
      (safe_open_out_file-Keeps a e (counted (length chunk) s) h),
)

setup-Keeps : (lib : Dates) (s : Store) → Keeps s → (setup lib s).destroy ≡ keep
unfolding setup
setup-Keeps lib s h = ground arith

dl_started-keep :
    (lib : Dates) (raw date origin : Bytes) (status : RemoteStatus) (from len : ℤ) (i : FileItem)
    → i.destroy ≡ keep
    → (dl_started lib raw date origin status from len i).0.destroy ≡ keep
unfolding dl_started
dl_started-keep lib raw date origin status from len i h = ground arith

dl_finish-Keeps :
    (how : HeadWrite) (force : Bool) (s : Store) → Keeps s → Keeps (dl_finish how force s)
unfolding dl_finish
dl_finish-Keeps how force s h = ground arith

mark_faulty-keep :
    (kill : Bool) (i : FileItem) → i.destroy ≡ keep → (mark_faulty kill i).destroy ≡ keep
unfolding mark_faulty
mark_faulty-keep kill i h = ground arith

dl_ref_count_dec-keep :
    (why : RemoteStatus) (i : FileItem) → i.destroy ≡ keep → (dl_ref_count_dec why i).destroy ≡ keep
unfolding dl_ref_count_dec
dl_ref_count_dec-keep why i h = ground arith

kept_files :
    (e : ReleaseEnv) (t : Store)
    → Keeps t
    → ((release e t).disk.content ≡ t.disk.content) × ((release e t).disk.head ≡ t.disk.head)
unfolding release
kept_files e t h = ground arith

Step-Keeps : {s t : Store} → Step s t → Keeps s → Keeps t
Step-Keeps {s} (set_up lib) h = setup-Keeps lib s h
Step-Keeps {s} (start lib raw date origin status from len) h =
    dl_started-keep lib raw date origin status from len s.item h
Step-Keeps {s} (add a e rs chunk) h = dl_add_data-Keeps a e rs chunk s h
Step-Keeps {s} (finish how force) h = dl_finish-Keeps how force s h
Step-Keeps {s} (fail why mode) h = dl_set_error-keep why mode s.item h
Step-Keeps {s} (mark kill) h = mark_faulty-keep kill s.item h
Step-Keeps enter h = unfold dl_ref_count_add in h
Step-Keeps {s} (leave why) h = dl_ref_count_dec-keep why s.item h
Step-Keeps take_count h = unfold take_transfer_count in h

-- Whatever the item's own operations do, DlSetError and MarkFaulty included, a destroy mode of KEEP
-- stays KEEP.
pub Steps-Keeps : {s t : Store} → Steps s t → s.item.destroy ≡ keep → t.item.destroy ≡ keep
Steps-Keeps here h = h
Steps-Keeps (next r st) h = Step-Keeps st (Steps-Keeps r h)

-- The data file and the `.head` file of an item whose destroy mode was KEEP are left as they are
-- when it is let go after any of its operations, however severe its errors were.
pub Steps-release :
    {s t : Store}
    → Steps s t
    → s.item.destroy ≡ keep
    → (e : ReleaseEnv)
    → ((release e t).disk.content ≡ t.disk.content) × ((release e t).disk.head ≡ t.disk.head)
Steps-release {t} r h e = kept_files e t (Steps-Keeps r h)
