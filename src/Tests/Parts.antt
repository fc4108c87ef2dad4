-- ===== src/Tests/Parts.antt =====
-- The theorems about the buffer, the cleaner and the remote database at concrete inputs.
use apt_cacher_ng.Base.{
  ◌≡◌, ◌≤◌, ◌⊎◌, refl, inr, true, false, some, List, [], ◌∷◌, ◌++◌, arith, All, codes, pos,
  minus_one, length,
}
use apt_cacher_ng.Buffer.{
  add, reserve_atleast, setsize, moved, resize, got, drop_front, move, sysread, size, freecapa, Buf,
  new_buf, view, dumpall, dump_limit, wrote, interrupted, failed,
}
use apt_cacher_ng.Buffer.Valid.{IsValid, new_buf-IsValid}
use apt_cacher_ng.Buffer.Refine.{
  Op, append, discard, tidy, receive, Runs, done, step, call, replay, Runs-refines,
}
use apt_cacher_ng.Buffer.Dump.{dumpall_parts}
use apt_cacher_ng.Cleaner.{Cleaner, work_pass, ex_conns, acfg_hooks, stamp, end_of_time, never}
use apt_cacher_ng.Cleaner.Pass.{Waits, work_pass-in_time}
use apt_cacher_ng.RemoteDb.{HookHandler, clean_hooks, on_access, on_release, clean_hook}
use apt_cacher_ng.RemoteDb.{UrlMap, get_rep_name_and_path_residual}
use apt_cacher_ng.RemoteDb.Resolve.{Resolved, get_rep_name_and_path_residual_longest}
use apt_cacher_ng.RemoteDb.Hooks.{clean_hooks-le, on_access-on_release}

-- Five bytes are written, two are read, and two come from a socket.
abbrev ops : List Op
ops = append (some (λ n. 0)) (codes "hello") ∷ discard 2 ∷ tidy ∷ receive 4 (codes "ya") ∷ []

abbrev five : Buf
five = record { r = 0; w = 5; capacity = 10; mem = codes "hello" ++ (0 ∷ 0 ∷ 0 ∷ 0 ∷ 0 ∷ 0 ∷ []) }

abbrev three : Buf
three = record five { r = 2 }

abbrev front_three : Buf
front_three = record five { w = 3; mem = codes "llo" ++ (0 ∷ 111 ∷ 0 ∷ 0 ∷ 0 ∷ 0 ∷ 0 ∷ 0 ∷ []) }

abbrev last_five : Buf
last_five = record five { w = 5; mem = codes "lloya" ++ (0 ∷ 0 ∷ 0 ∷ 0 ∷ 0 ∷ 0 ∷ []) }

ops_run : Runs ops new_buf last_five
unfolding call add reserve_atleast setsize moved resize got drop_front move sysread size freecapa
ops_run = step {c = five} (omega arith) refl (
    step {c = three} (omega arith) refl
      (step {c = front_three} tt refl (step {c = last_five} (omega arith) refl done)))

Runs-refines_example : IsValid last_five × (view last_five ≡ replay ops (view new_buf))
Runs-refines_example = Runs-refines new_buf-IsValid ops_run

five-IsValid : IsValid five
five-IsValid = record {
  ordered = omega arith;
  within = omega arith;
  small = omega arith;
  allocated = inr refl;
}

dumpall_parts_example :
    let (out, b', ret) = dumpall (wrote 2 ∷ interrupted ∷ wrote 1 ∷ failed ∷ []) (pos 4) five in
    IsValid b'
    × (out ++ view b' ≡ view five)
    × ((ret ≡ minus_one) ⊎ ((ret ≡ pos (length out)) × (length out ≡ dump_limit (pos 4) five)))
dumpall_parts_example =
    dumpall_parts (wrote 2 ∷ interrupted ∷ wrote 1 ∷ failed ∷ []) (pos 4) five five-IsValid

abbrev cleaner : Cleaner
cleaner = record {
  stamps = record { file_item = 100; hooks = 50; conns = 90 };
  running = true;
  terminating = false;
  noop = false;
  in_shutdown = false;
}

work_pass-in_time_example :
    let (d, delay) = work_pass 60 61 true never ((80, ex_conns) ∷ []) cleaner in
    All (λ (when, what). stamp what d.stamps ≤ when) ((80, ex_conns) ∷ [])
    × (stamp acfg_hooks d.stamps ≤ end_of_time)
    × Waits 61 d.stamps delay
work_pass-in_time_example =
    work_pass-in_time 60 61 true never ((80, ex_conns) ∷ []) cleaner acfg_hooks
      (record { runs = refl; works = refl; on = refl })

abbrev url_map : UrlMap
url_map key = (codes "/debian/", 1) ∷ (codes "/debian/security/", 2) ∷ (codes "/ubuntu/", 3) ∷ []

get_rep_name_and_path_residual_longest_example :
    Resolved
      (codes "/debian/security/x")
      (url_map [])
      (get_rep_name_and_path_residual url_map [] (codes "/debian/security/x"))
get_rep_name_and_path_residual_longest_example =
    get_rep_name_and_path_residual_longest url_map [] (codes "/debian/security/x")

abbrev hook : HookHandler
hook = record {
  cmd_rel = codes "down";
  cmd_con = codes "up";
  down_duration = 30;
  down_time_next = 0;
  ref_cnt = pos 1;
  ran = [];
}

clean_hooks-le_example :
    let next = (clean_hooks 100 1000 (record hook { down_time_next = 130 } ∷ [])).1 in
    (next ≤ 1000)
    × All
        (λ h. (h.down_time_next ≡ 0) ⊎ (h.down_time_next ≤ 100) ⊎ (next ≤ h.down_time_next))
        (record hook { down_time_next = 130 } ∷ [])
clean_hooks-le_example = clean_hooks-le 100 1000 (record hook { down_time_next = 130 } ∷ [])

on_access-on_release_example :
    (on_access (clean_hook 200 (on_release 100 hook).0)).ran ≡ codes "up" ∷ codes "down" ∷ []
on_access-on_release_example = on_access-on_release 100 200 hook refl (omega arith)
