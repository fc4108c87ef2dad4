-- ===== src/Buffer.antt =====
-- acbuf and the growth of tSS (src/acbuf.h, src/acbuf.cc). A pointer into m_buf is an index into
-- `mem`, which is [] for a null pointer.
pub mod Memory
pub mod Valid
pub mod Refine
pub mod Dump
use apt_cacher_ng.Base.{
  ℕ, zero, suc, ◌+◌, ◌-◌, ◌*◌, ◌%◌, ◌^◌, Bool, true, false, Option, none, some, List, [], ◌∷◌, ◌++◌,
  Bytes, if◌then◌else◌, ◌==◌, ltb, leb, min, length, take, drop, ℤ, pos, minus_one, ◌||◌,
}

-- `capacity` is m_nCapacity; r and w are the read and write positions.
pub record Buf : Type 0 where
  pub r : ℕ
  pub w : ℕ
  pub capacity : ℕ
  pub mem : Bytes

abbrev pub new_buf : Buf
new_buf = record { r = 0; w = 0; capacity = 0; mem = [] }

-- Conversion to `unsigned int`.
abbrev pub u32 : ℕ → ℕ
u32 n = n % 2 ^ 32

-- A difference of two size_t, as an `unsigned int`.
abbrev pub sub_u32 : ℕ → ℕ → ℕ
sub_u32 a b = (a + 2 ^ 64 - b) % 2 ^ 32

unfoldable pub size : Buf → ℕ
size b = sub_u32 b.w b.r

unfoldable pub freecapa : Buf → ℕ
freecapa b = sub_u32 b.capacity b.w

unfoldable pub clear : Buf → Buf
clear b = record b { r = 0; w = 0 }

abbrev cleared_if_empty : Buf → Buf
cleared_if_empty b = if b.r == b.w then record b { r = 0; w = 0 } else b

unfoldable pub erase : ℕ → Buf → Buf
erase n b = cleared_if_empty (record b { w = b.r + n })

unfoldable pub drop_front : ℕ → Buf → Buf
drop_front n b = cleared_if_empty (record b { r = b.r + n })

-- `got`.
unfoldable pub got : ℕ → Buf → Buf
got n b = record b { w = b.w + n }

-- Bytes written from an index on.
abbrev pub poke : ℕ → Bytes → Bytes → Bytes
poke i src mem = take i mem ++ (src ++ drop (i + length src) mem)

-- `move`: memmove takes one byte more than the data, the terminator.
unfoldable pub move : Buf → Buf
move b = if b.r == 0 then b else record b {
  mem = poke 0 (take (b.w + 1 - b.r) (drop b.r b.mem)) b.mem;
  w = b.w - b.r;
  r = 0;
}

-- `view`.
unfoldable pub view : Buf → Bytes
unfolding size
view b = take (size b) (drop b.r b.mem)

-- realloc: what was there is kept, `fresh` is what new memory holds.
unfoldable pub resize : ℕ → (ℕ → ℕ) → Bytes → Bytes
resize zero fresh mem = []
resize (suc n) fresh [] = fresh n ∷ resize n fresh []
resize (suc n) fresh (x ∷ mem) = x ∷ resize n fresh mem

-- The part of `setsize` from realloc on; `none` is its failure. `c + 1` is computed in 32 bits.
unfoldable pub moved : ℕ → Buf → Option (ℕ → ℕ) → Buf × Bool
unfolding resize
moved c b none = (b, false)
moved c b (some fresh) =
    (record b { capacity = c; mem = poke c (0 ∷ []) (resize (u32 (c + 1)) fresh b.mem) }, true)

unfoldable pub setsize : Option (ℕ → ℕ) → ℕ → Buf → Buf × Bool
unfolding moved
setsize alloc c b = if b.capacity == c then (b, true) else moved c b alloc

-- reserve_atleast; `none` is std::bad_alloc. The new size is cut to the parameter of setsize.
unfoldable pub reserve_atleast : Option (ℕ → ℕ) → ℕ → Buf → Option Buf
unfolding setsize
reserve_atleast alloc n b =
    if ltb (b.w + n + 1) b.capacity
    then some b
    else let (b', done) = setsize alloc (u32 (2 * (b.w + n))) b in if done then some b' else none

-- `add` of a block.
unfoldable pub add : Option (ℕ → ℕ) → Bytes → Buf → Option Buf
unfolding reserve_atleast got
add alloc s b = elim (reserve_atleast alloc (length s) b) [
  | none ↦ none
  | some b' ↦ some (got (length s) (record b' { mem = poke b'.w s b'.mem }))
]

-- What ::read comes to, once it is not interrupted: an errno, or bytes, at most those asked for.
pub data ReadResult : Type 0 where
  read_error : ℕ → ReadResult
  bytes : Bytes → ReadResult

unfoldable pub sysread : ℕ → ReadResult → Buf → Buf × ℤ
unfolding freecapa
sysread maxlen (read_error errno) b = (b, ℤ.negsuc (errno - 1))
sysread maxlen (bytes s) b =
    let chunk = take (min maxlen (freecapa b)) s in
    (record b { mem = poke b.w chunk b.mem; w = b.w + length chunk }, pos (length chunk))

-- What one ::write comes to: a number of bytes, an interruption (EINTR, EAGAIN), or another error.
pub data WriteResult : Type 0 where
  wrote : ℕ → WriteResult
  interrupted : WriteResult
  failed : WriteResult

-- The loop of `dumpall`: what went out, the buffer, and whether all did. Behind the last result a
-- further write would block for good.
unfoldable pub dump_loop : List WriteResult → ℕ → Buf → Bytes → Bytes × Buf × Bool
unfolding drop_front view
dump_loop rs zero b out = (out, b, true)
dump_loop [] (suc n) b out = (out, b, false)
dump_loop (wrote k ∷ rs) (suc n) b out =
    if k == 0 || ltb (suc n) k
    then (out, b, false)
    else dump_loop rs (suc n - k) (drop_front k b) (out ++ take k (view b))
dump_loop (interrupted ∷ rs) (suc n) b out = dump_loop rs (suc n) b out
dump_loop (failed ∷ rs) (suc n) b out = (out, b, false)

abbrev pub dump_limit : ℤ → Buf → ℕ
dump_limit (pos k) b = min k (size b)
dump_limit (ℤ.negsuc k) b = size b

-- `dumpall` to a descriptor; `limit` is a ssize_t, and one below 0 is, as a size_t, above any size.
unfoldable pub dumpall : List WriteResult → ℤ → Buf → Bytes × Buf × ℤ
unfolding dump_loop size
dumpall rs limit b =
    let n = dump_limit limit b in
    let (out, b', done) = dump_loop rs n b [] in (out, b', if done then pos n else minus_one)
