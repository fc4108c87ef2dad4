-- ===== src/RemoteDb/Hooks.antt =====
-- Hooks: when commands run, and when BackgroundCleanup has to come again.
use apt_cacher_ng.Base.{
  ℕ, ◌+◌, ◌≤◌, ◌<◌, ◌≡◌, ◌⊎◌, inl, inr, ◌||◌, Bool-cases, List, [], ◌∷◌, arith, All, null, leb, ltb,
  ◌==◌, if◌then◌else◌, pos, ◌-ℤ◌, ◌+ℤ◌,
}
use apt_cacher_ng.RemoteDb.{HookHandler, on_release, on_access, clean_hook, clean_hooks, earliest}

-- The next call comes no later than the time of any handler that has one in the future.
abbrev Announced : ℕ → ℕ → HookHandler → Type 0
Announced now next h = (h.down_time_next ≡ 0) ⊎ (h.down_time_next ≤ now) ⊎ (next ≤ h.down_time_next)

earliest_lem : (now ret : ℕ) (h : HookHandler) {next : ℕ} → next ≤ earliest now h ret → next ≤ ret
earliest_lem now ret h le = ground arith

announced :
    (now ret : ℕ) (h : HookHandler) {next : ℕ} → next ≤ earliest now h ret → Announced now next h
announced now ret h {next} le = elim (Bool-cases (h.down_time_next == 0)) [
  | inl idle ↦ inl (ground arith)
  | inr ticking ↦ elim (Bool-cases (leb h.down_time_next now)) [
    | inl past ↦ inr (inl (ground arith))
    | inr future ↦ inr (inr (ground arith))
  ]
]

-- The time that BackgroundCleanup returns is no later than the down time of any handler that lies in
-- the future.
pub clean_hooks-le :
    (now ret : ℕ) (hs : List HookHandler)
    → ((clean_hooks now ret hs).1 ≤ ret) × All (Announced now (clean_hooks now ret hs).1) hs
unfolding clean_hooks
clean_hooks-le now ret [] = (omega arith, tt)
clean_hooks-le now ret (h ∷ hs) =
    let (le, others) = clean_hooks-le now (earliest now h ret) hs in
    (earliest_lem now ret h le, (announced now ret h le, others))

-- What becomes of the commands when the only user of a repository leaves it at the time `t`,
-- BackgroundCleanup runs at the time `now`, and another user comes: if the down time was over, the
-- Down command has run, and then the PreUp command, but without a Down command no PreUp command runs
-- either; if the down time was not over, nothing has run.
pub on_access-on_release :
    (t now : ℕ) (h : HookHandler)
    → h.ref_cnt ≡ pos 1
    → 0 < t + h.down_duration
    → (on_access (clean_hook now (on_release t h).0)).ran ≡ (
        if ltb now (t + h.down_duration) || null h.cmd_rel
        then h.ran
        else if null h.cmd_con
        then h.cmd_rel ∷ h.ran
        else h.cmd_con ∷ h.cmd_rel ∷ h.ran)
unfolding on_access clean_hook on_release ◌-ℤ◌ ◌+ℤ◌
on_access-on_release t now h one later = ground arith
