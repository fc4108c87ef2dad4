-- ===== src/FileItem/Added.antt =====
-- DlAddData of fileitem_with_storage in src/fileitem.cc.
use apt_cacher_ng.Base.{
  ℕ, ◌+◌, ◌-◌, ◌%◌, Bool, true, false, not, ◌||◌, Option, none, some, List, [], ◌∷◌, ◌++◌, Bytes,
  if◌then◌else◌, ltb, min, length, take, drop, replicate, pos, ◌+ℤ◌,
}
use apt_cacher_ng.FileItem.{Store, keep, dl_got_head, complete, rank, u64}
use apt_cacher_ng.FileItem.Writer.{OpenEnv, bytes_of, safe_open_out_file, with_error}

-- One call of `write`: so many bytes of those offered, EINTR or EAGAIN, or another error.
pub data WriteResult : Type 0 where
  wrote : ℕ → WriteResult
  interrupted : WriteResult
  write_error : WriteResult

-- How DlAddData ends. `blocked`: the listed calls are used up and the loop has not ended.
-- `undefined`: behind an interrupted call, `r` is -1 and `chunk.remove_prefix(r)` is given a size
-- beyond the view's, which C++ leaves undefined.
pub data Verdict : Type 0 where
  accepted refused undefined blocked : Verdict

-- Bytes written at a position; a gap before it reads as zeros.
abbrev pub write_at : ℕ → Bytes → Bytes → Bytes
write_at p chunk file =
    take p file ++ (replicate (p - length file) 0 ++ (chunk ++ drop (p + length chunk) file))

abbrev pub file_position : Option ℕ → ℕ
file_position none = 0
file_position (some p) = p

-- The state after `n` bytes of the chunk have gone to the file.
unfoldable pub put : ℕ → Bytes → Store → Store
unfolding ◌+ℤ◌
put n chunk s =
    let p = file_position s.item.file in
    record {
      item = record (s.item) { size_checked = s.item.size_checked +ℤ pos n; file = some (p + n) };
      disk = record (s.disk) {
        content = some (write_at p (take n chunk) (bytes_of s.disk.content));
      };
    }

abbrev pub refused_by : Store × Bool → Store × Verdict
refused_by (s, b) = (s, refused)

-- The loop over the chunk.
unfoldable pub write_chunk : List WriteResult → Bytes → Store → Store × Verdict
unfolding put with_error
write_chunk rs [] s = (s, accepted)
write_chunk [] (c ∷ chunk) s = (s, blocked)
write_chunk (wrote n ∷ rs) (c ∷ chunk) s =
    let k = min n (length (c ∷ chunk)) in write_chunk rs (drop k (c ∷ chunk)) (put k (c ∷ chunk) s)
write_chunk (interrupted ∷ rs) (c ∷ chunk) s = (s, undefined)
write_chunk (write_error ∷ rs) (c ∷ chunk) s = refused_by (with_error keep s)

abbrev pub is_open : Option ℕ → Bool
is_open none = false
is_open (some p) = true

-- The part behind the opening of the file.
unfoldable pub add_opened : List WriteResult → Bytes → Store → Store × Verdict
add_opened rs chunk s =
    if not (is_open s.item.file) || ltb (rank s.item.status) (rank dl_got_head)
    then refused_by (with_error keep s)
    else if ltb (rank complete) (rank s.item.status)
    then (s, refused)
    else write_chunk rs chunk s

abbrev pub add_after : List WriteResult → Bytes → Store × Bool → Store × Verdict
add_after rs chunk (s, true) = add_opened rs chunk s
add_after rs chunk (s, false) = (s, refused)

abbrev pub counted : ℕ → Store → Store
counted n s = record s {
  item = record (s.item) { incoming_count = (s.item.incoming_count + n) % u64 };
}

-- DlAddData.
unfoldable pub dl_add_data : ℕ → OpenEnv → List WriteResult → Bytes → Store → Store × Verdict
dl_add_data allocspace e rs chunk s =
    if is_open s.item.file
    then add_opened rs chunk (counted (length chunk) s)
    else add_after rs chunk (safe_open_out_file allocspace e (counted (length chunk) s))
