-- ===== src/Cleaner/Pass.antt =====
-- No request for a run is lost or late.
use apt_cacher_ng.Base.{
  ℕ, ◌+◌, ◌≤◌, ◌≡◌, refl, Bool, true, false, Option, none, some, List, [], ◌∷◌, arith, All, min,
  ltb, leb, Bool-cases, inl, inr, if◌then◌else◌,
}
use apt_cacher_ng.Cleaner.{
  Task, ex_file_item, acfg_hooks, ex_conns, Stamps, stamp, never, Cleaner, schedule_for,
  schedule_all, run_due, merged, next_time, delay, work_pass, end_of_time,
}

-- A cleaner whose thread runs and that nothing keeps from its work.
pub record IsActive (c : Cleaner) : Type 0 where
  pub runs : c.running ≡ true
  pub works : c.noop ≡ false
  pub on : c.in_shutdown ≡ false

schedule_for-IsActive :
    (when : ℕ) (what : Task) (c : Cleaner) → IsActive c → IsActive (schedule_for when what c)
unfolding schedule_for
schedule_for-IsActive when what c v = ground arith

-- A call brings its own task forward, and puts off none.
schedule_for-le :
    (when : ℕ) (what task : Task) (c : Cleaner)
    → IsActive c
    → (stamp what (schedule_for when what c).stamps ≤ when)
      × (stamp task (schedule_for when what c).stamps ≤ stamp task c.stamps)
unfolding schedule_for
schedule_for-le when ex_file_item ex_file_item c v = ground arith
schedule_for-le when ex_file_item acfg_hooks c v = ground arith
schedule_for-le when ex_file_item ex_conns c v = ground arith
schedule_for-le when acfg_hooks ex_file_item c v = ground arith
schedule_for-le when acfg_hooks acfg_hooks c v = ground arith
schedule_for-le when acfg_hooks ex_conns c v = ground arith
schedule_for-le when ex_conns ex_file_item c v = ground arith
schedule_for-le when ex_conns acfg_hooks c v = ground arith
schedule_for-le when ex_conns ex_conns c v = ground arith

-- Each of several calls is kept.
schedule_all-le :
    (calls : List (ℕ × Task)) (task : Task) (c : Cleaner)
    → IsActive c
    → (stamp task (schedule_all calls c).stamps ≤ stamp task c.stamps)
      × All (λ (when, what). stamp what (schedule_all calls c).stamps ≤ when) calls
unfolding schedule_all
schedule_all-le [] task c v = (omega arith, tt)
schedule_all-le ((when, what) ∷ calls) task c v =
    let d = schedule_for when what c in
    let w = schedule_for-IsActive when what c v in
    let (le, kept) = schedule_all-le calls task d w in
    let (first, _) = schedule_all-le calls what d w in
    (
      omega (arith, schedule_for-le when what task c v),
      (omega (arith, schedule_for-le when what what c v), kept),
    )

stamp-merged :
    (task : Task) (a b : Stamps) → stamp task (merged a b) ≡ min (stamp task a) (stamp task b)
stamp-merged ex_file_item a b = refl
stamp-merged acfg_hooks a b = refl
stamp-merged ex_conns a b = refl

next_time-le : (task : Task) (s : Stamps) → next_time s ≤ stamp task s
unfolding next_time
next_time-le ex_file_item s = omega arith
next_time-le acfg_hooks s = omega arith
next_time-le ex_conns s = omega arith

-- What a task returns as its next time; there are no file items without a registry.
abbrev pub answer_of : Bool → Stamps → Task → ℕ
answer_of has_registry answers ex_file_item =
    if has_registry then answers.file_item else end_of_time
answer_of has_registry answers acfg_hooks = answers.hooks
answer_of has_registry answers ex_conns = answers.conns

-- What is not due keeps its time, and what is due gets its answer.
stamp-run_due :
    (now : ℕ) (has_registry : Bool) (answers s : Stamps) (task : Task)
    → stamp task (run_due now has_registry answers s)
      ≡ (if ltb now (stamp task s) then stamp task s else answer_of has_registry answers task)
unfolding run_due
stamp-run_due now has_registry answers s ex_file_item = refl
stamp-run_due now has_registry answers s acfg_hooks = refl
stamp-run_due now has_registry answers s ex_conns = refl

-- When the delay after a pass is over, no task is overdue; without a delay one is due at once, or
-- the end of time has come.
abbrev pub Waits : ℕ → Stamps → Option ℕ → Type 0
Waits later s none = next_time s ≤ later
Waits later s (some d) = (task : Task) → later + d ≤ stamp task s

map-le :
    (calls : List (ℕ × Task)) (s t : Stamps)
    → ((task : Task) → stamp task t ≤ stamp task s)
    → All (λ (when, what). stamp what s ≤ when) calls
    → All (λ (when, what). stamp what t ≤ when) calls
map-le [] s t h v = tt
map-le ((when, what) ∷ calls) s t h v = (omega (arith, h what, v.0), map-le calls s t h v.1)

delay-Waits : (later : ℕ) (s : Stamps) → Waits later s (delay (next_time s) later)
unfolding delay
delay-Waits later s = elim (Bool-cases (leb (next_time s) later)) [
  | inl due ↦ rw due (ground arith)
  | inr early ↦ rw early (λ task. ground (arith, next_time-le task s))
]

-- A pass of an active cleaner: every run that others ask for meanwhile is scheduled for the time
-- asked for or an earlier one; a task that was not due is not put off, and one that was due is
-- scheduled for the time that it returned or an earlier one; and the cleaner does not sleep past the
-- time of any task, or does not sleep at all, since a time has come.
pub work_pass-in_time :
    (now later : ℕ) (has_registry : Bool) (answers : Stamps) (calls : List (ℕ × Task)) (c : Cleaner)
    (task : Task)
    → IsActive c
    → let (d, delay) = work_pass now later has_registry answers calls c in
      All (λ (when, what). stamp what d.stamps ≤ when) calls
      × (stamp task d.stamps ≤ (
          if ltb now (stamp task c.stamps)
          then stamp task c.stamps
          else answer_of has_registry answers task))
      × Waits later d.stamps delay
unfolding work_pass
work_pass-in_time now later has_registry answers calls c task v =
    let snapshot = run_due now has_registry answers c.stamps in
    let start : Cleaner = record c { stamps = never } in
    let w : IsActive start = record { runs = v.runs; works = v.works; on = v.on } in
    let d = schedule_all calls start in
    (
      map-le calls d.stamps (merged snapshot d.stamps)
          (λ other. omega (arith, stamp-merged other snapshot d.stamps))
          (schedule_all-le calls ex_conns start w).1,
      omega (
        arith,
        stamp-merged task snapshot d.stamps,
        stamp-run_due now has_registry answers c.stamps task,
      ),
      delay-Waits later (merged snapshot d.stamps),
    )
