-- ===== src/FileItem/Writer.antt =====
-- SafeOpenOutFile and MoveRelease2Sidestore of fileitem_with_storage. What the system
-- calls answer is an argument; the temporary names that `replace_file` makes are not modelled.
use apt_cacher_ng.Base.{
  ℕ, Bool, true, false, not, ◌&&◌, ◌||◌, Option, none, some, [], ◌∷◌, Bytes, codes, if◌then◌else◌,
  ltb, length, pos, lt_ℤ, pos_part, eq_ℤ, ◌-ℤ◌, ends_with,
}
use apt_cacher_ng.FileItem.{
  Store, DestroyMode, keep, dl_receiving, HeadWrite, save_header, dl_set_error,
}

-- withError: what the source logs is left out.
unfoldable pub with_error : DestroyMode → Store → Store × Bool
unfolding dl_set_error
with_error destruction s = (
  record s {
    item =
        dl_set_error (record { code = pos 500; msg = codes "Cache Error, check apt-cacher.err" })
          destruction s.item;
  },
  false,
)

-- How the calls of one `replace_file` end. The move of the old file fails with ENOENT exactly if
-- there is none.
pub record ReplaceEnv : Type 0 where
  pub can_create : Bool
  pub can_move : Bool
  pub can_rename : Bool

-- How the other calls of SafeOpenOutFile end. `first` serves the first `replace_file`, `second` that
-- of a file which is too long.
pub record OpenEnv : Type 0 where
  pub first : ReplaceEnv
  pub second : ReplaceEnv
  pub can_open : Bool
  pub can_seek : Bool
  pub can_copy : Bool
  pub head_write : HeadWrite

-- The new empty file takes the place of the old one, or the old one is gone and nothing is there.
unfoldable pub install : ReplaceEnv → Store → Store × Bool
unfolding with_error
install e s =
    if e.can_rename
    then (
      record {
        item = record (s.item) { file = some 0 };
        disk = record (s.disk) { content = some []; spare = 0 };
      },
      true,
    )
    else with_error keep (record s { disk = record (s.disk) { content = none } })

unfoldable pub replace_file : ReplaceEnv → Store → Store × Bool
unfolding install
replace_file e s₀ =
    let s = record s₀ {
      item = record (s₀.item) { file = none; writer_must_replace_file = false };
    } in
    if not e.can_create then with_error keep s else elim s.disk.content [
      | none ↦ install e s
      | some old ↦ if e.can_move then install e s else with_error keep s
    ]

-- An index of a release, rewritten from its start, leaves a copy aside.
unfoldable pub move_release : Bool → Store → Store
move_release can_copy s =
    if not (eq_ℤ s.item.size_checked (pos 0))
    then s
    else if not (ends_with s.item.path_rel (codes "/InRelease"))
        && not (ends_with s.item.path_rel (codes "/Release"))
    then s
    else elim s.disk.content [
      | none ↦ s
      | some old ↦
          if can_copy
          then record s { disk = record (s.disk) { side_store = old ∷ s.disk.side_store } }
          else s
    ]

abbrev pub bytes_of : Option Bytes → Bytes
bytes_of none = []
bytes_of (some b) = b

-- `open` with O_CREAT, where no file is open yet.
unfoldable pub open_plain : Bool → Store → Store
open_plain can_open s = elim s.item.file [
  | some p ↦ s
  | none ↦
      if can_open
      then record {
        item = record (s.item) { file = some 0 };
        disk = record (s.disk) { content = some (bytes_of s.disk.content) };
      }
      else s
]

-- The first part, to the point where a file is open.
unfoldable pub open_file : OpenEnv → Store → Store × Bool
unfolding replace_file open_plain
open_file e s =
    if s.item.writer_must_replace_file || lt_ℤ s.item.content_length (pos 0)
    then replace_file e.first s
    else let s' = open_plain e.can_open s in
      elim s'.item.file [ some p ↦ (s', true) | none ↦ replace_file e.first s' ]

abbrev pub size_on_disk : Store → ℕ
size_on_disk s = length (bytes_of s.disk.content)

-- cfg::allocspace, and what of the stream is still to come.
unfoldable pub preallocate : ℕ → Store → Store
unfolding ◌-ℤ◌
preallocate allocspace s =
    let i = s.item in
    let rest = i.content_length -ℤ i.size_checked in
    let len = if lt_ℤ (pos allocspace) rest then pos allocspace else rest in
    if ltb 0 allocspace && lt_ℤ (pos 0) i.content_length && lt_ℤ (pos 0) len
    then record {
      item = record i { preallocated = true };
      disk = record (s.disk) { spare = pos_part len };
    }
    else s

-- The part behind the checks of the size.
unfoldable pub begin_stream : ℕ → OpenEnv → Store → Store × Bool
unfolding save_header preallocate with_error
begin_stream allocspace e s =
    let (s', stored) = save_header e.head_write false s in
    if stored
    then (
      preallocate allocspace (record s' { item = record (s'.item) { status = dl_receiving } }),
      true,
    )
    else with_error keep s'

-- The seek to the checked size, which is set to 0 where there is none.
unfoldable pub position : Store → Store
position s =
    let n = if lt_ℤ s.item.size_checked (pos 0) then pos 0 else s.item.size_checked in
    record s { item = record (s.item) { size_checked = n; file = some (pos_part n) } }

-- A step that reports false ends the function.
infixl 5 ◌>>=◌
abbrev pub ◌>>=◌ : Store × Bool → (Store → Store × Bool) → Store × Bool
◌>>=◌ (s, true) f = f s
◌>>=◌ (s, false) f = (s, false)

abbrev pub check : Bool → Store → Store × Bool
check good s = if good then (s, true) else with_error keep s

-- A file that is longer than the announced length is replaced.
unfoldable pub shrink : ReplaceEnv → Store → Store × Bool
unfolding replace_file
shrink e s =
    if lt_ℤ s.item.content_length (pos (size_on_disk s)) then replace_file e s else (s, true)

abbrev pub within_file : Store → Bool
within_file s = not (lt_ℤ (pos (size_on_disk s)) s.item.size_checked)

-- SafeOpenOutFile, behind its first test.
unfoldable pub open_steps : ℕ → OpenEnv → Store → Store × Bool
open_steps allocspace e s₁ = do
  s₂ ← open_file e (move_release e.can_copy s₁)
  s₃ ← check e.can_seek s₂
  s₄ ← shrink e.second s₃
  s₅ ← check (within_file (position s₄)) (position s₄)
  begin_stream allocspace e s₅

abbrev pub closed : Store → Store
closed s = record s { item = record (s.item) { file = none } }

unfoldable pub safe_open_out_file : ℕ → OpenEnv → Store → Store × Bool
safe_open_out_file allocspace e s =
    if s.item.spattr.no_store then (closed s, false) else open_steps allocspace e (closed s)
