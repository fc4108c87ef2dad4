-- ===== src/Cleaner.antt =====
-- The cleaner's schedule of src/cleaner.cc and src/cleaner.h. A time_t is a number of seconds.
pub mod Pass
use apt_cacher_ng.Base.{
  not, ℕ, ◌+◌, ◌-◌, ◌^◌, Bool, true, false, ◌||◌, Option, none, some, List, [], ◌∷◌, if◌then◌else◌,
  ◌==◌, ltb, leb, min,
}

-- eType.
pub data Task : Type 0 where
  ex_file_item acfg_hooks ex_conns : Task

abbrev pub end_of_time : ℕ
end_of_time = 2 ^ 63 - 3

-- The array `stamps`, by its index.
pub record Stamps : Type 0 where
  pub file_item : ℕ
  pub hooks : ℕ
  pub conns : ℕ

abbrev pub stamp : Task → Stamps → ℕ
stamp ex_file_item s = s.file_item
stamp acfg_hooks s = s.hooks
stamp ex_conns s = s.conns

abbrev pub with_stamp : Task → ℕ → Stamps → Stamps
with_stamp ex_file_item t s = record s { file_item = t }
with_stamp acfg_hooks t s = record s { hooks = t }
with_stamp ex_conns t s = record s { conns = t }

-- `stamps.fill(END_OF_TIME)`.
abbrev pub never : Stamps
never = record { file_item = end_of_time; hooks = end_of_time; conns = end_of_time }

-- `running` is m_thr != 0; in_shutdown is evabase's.
pub record Cleaner : Type 0 where
  pub stamps : Stamps
  pub running : Bool
  pub terminating : Bool
  pub noop : Bool
  pub in_shutdown : Bool

-- ScheduleFor.
unfoldable pub schedule_for : ℕ → Task → Cleaner → Cleaner
schedule_for when what c =
    if c.noop || c.in_shutdown
    then c
    else if not c.running
    then record c { stamps = with_stamp what when never; running = true }
    else if ltb (stamp what c.stamps) when
    then c
    else record c { stamps = with_stamp what when c.stamps }

-- Stop.
unfoldable pub stop : Cleaner → Cleaner
stop c = if c.running then record c { terminating = true; running = false } else c

-- The calls that others make while a pass runs.
unfoldable pub schedule_all : List (ℕ × Task) → Cleaner → Cleaner
unfolding schedule_for
schedule_all [] c = c
schedule_all ((when, what) ∷ calls) c = schedule_all calls (schedule_for when what c)

-- What becomes of a snapshot's entry: a task that is due is run, and names its next time; without a
-- registry the file items have none.
abbrev pub rerun : ℕ → ℕ → ℕ → ℕ
rerun now answer time = if ltb now time then time else answer

unfoldable pub run_due : ℕ → Bool → Stamps → Stamps → Stamps
run_due now has_registry answers snapshot = record {
  file_item =
      rerun now (if has_registry then answers.file_item else end_of_time) snapshot.file_item;
  hooks = rerun now answers.hooks snapshot.hooks;
  conns = rerun now answers.conns snapshot.conns;
}

-- The end of a pass: the earlier of the two times for each task.
abbrev pub merged : Stamps → Stamps → Stamps
merged a b = record {
  file_item = min a.file_item b.file_item;
  hooks = min a.hooks b.hooks;
  conns = min a.conns b.conns;
}

unfoldable pub next_time : Stamps → ℕ
next_time s = min (min (min end_of_time s.file_item) s.hooks) s.conns

-- The delay that wait_for is given, `none` for the `continue` past it.
unfoldable pub delay : ℕ → ℕ → Option ℕ
delay next now = if leb next now then none else some (min (next - now) 84600)

-- One pass of WorkLoop that is not told to stop: `now` and `later` are the two readings of the
-- clock, `answers` what the tasks return, `calls` what others schedule between the snapshot and the
-- merge.
unfoldable pub work_pass : ℕ → ℕ → Bool → Stamps → List (ℕ × Task) → Cleaner → Cleaner × Option ℕ
unfolding schedule_all run_due next_time delay
work_pass now later has_registry answers calls c =
    let snapshot = run_due now has_registry answers c.stamps in
    let d = schedule_all calls (record c { stamps = never }) in
    let stamps = merged snapshot d.stamps in
    (record d { stamps = stamps }, delay (next_time stamps) later)
