-- ===== src/RemoteDb.antt =====
-- The remote database of src/remotedb.cc: which repository a URL belongs to, and the hooks that run
-- when a repository comes into use or out of it. A repository is a number.
pub mod Resolve
pub mod Hooks
use apt_cacher_ng.Base.{
  ℕ, zero, suc, ◌+◌, ◌-◌, ◌/◌, ◌%◌, Bool, true, false, not, ◌&&◌, ◌||◌, Option, none, some, List,
  [], ◌∷◌, ◌++◌, Bytes, if◌then◌else◌, ◌==◌, ltb, leb, min, length, drop, null, starts_with,
  ends_with, codes, ℤ, pos, ◌+ℤ◌, ◌-ℤ◌, le_ℤ, eq_ℤ, equal,
}

-- makeHostPortKey of src/caddrinfo.cc: the port's two bytes in front of the name.
unfoldable pub host_port_key : Bytes → ℕ → Bytes
host_port_key host port = (port % 256) ∷ (port / 256 % 256) ∷ host

-- _FixPostPreSlashes of src/acfg.cc.
unfoldable pub with_end_slash : Bytes → Bytes
with_end_slash val = if null val || not (ends_with val (codes "/")) then val ++ codes "/" else val

unfoldable pub fix_post_pre_slashes : Bytes → Bytes
unfolding with_end_slash
fix_post_pre_slashes val =
    let closed = with_end_slash val in
    if starts_with closed (codes "/") then closed else b'/' ∷ closed

-- mapUrl2pVname: for a host and port, the path prefixes with their repositories, in order.
abbrev pub UrlMap : Type 0
UrlMap = Bytes → List (Bytes × ℕ)

-- AddRemapInfo for a URL of a remap line, split in its key and its path.
unfoldable pub add_remap : Bytes → Bytes → ℕ → UrlMap → UrlMap
add_remap key path repo m k =
    if equal k key then m k ++ (fix_post_pre_slashes path, repo) ∷ [] else m k

-- The loop of GetRepNameAndPathResidual: bestMatchLen and pBestHit.
unfoldable pub best_hit : Bytes → List (Bytes × ℕ) → ℕ → Option ℕ → ℕ × Option ℕ
best_hit path [] best hit = (best, hit)
best_hit path ((prefix, repo) ∷ repos) best hit =
    let len = length prefix in
    let better = ltb best len && ltb len (length path) && starts_with path prefix in
    best_hit path repos (if better then len else best) (if better then some repo else hit)

abbrev residual : Bytes → ℕ × Option ℕ → Option (ℕ × Bytes)
residual path (best, none) = none
residual path (best, some repo) = some (repo, drop best path)

-- GetRepNameAndPathResidual, for a URL's key and path: the repository and the rest of the path.
unfoldable pub get_rep_name_and_path_residual : UrlMap → Bytes → Bytes → Option (ℕ × Bytes)
unfolding best_hit
get_rep_name_and_path_residual m key path = residual path (best_hit path (m key) 0 none)

-- tHookHandler. `ran` are the commands that were run, newest first.
pub record HookHandler : Type 0 where
  pub cmd_rel : Bytes
  pub cmd_con : Bytes
  pub down_duration : ℕ
  pub down_time_next : ℕ
  pub ref_cnt : ℤ
  pub ran : List Bytes

-- OnRelease at a given time; the time at which the cleaner is asked to come.
unfoldable pub on_release : ℕ → HookHandler → HookHandler × Option ℕ
on_release now h =
    let left = h.ref_cnt -ℤ pos 1 in
    let due = now + h.down_duration in
    if le_ℤ left (pos 0)
    then (record h { ref_cnt = left; down_time_next = due }, some due)
    else (record h { ref_cnt = left }, none)

unfoldable pub on_access : HookHandler → HookHandler
on_access h =
    let counted = record h { ref_cnt = h.ref_cnt +ℤ pos 1 } in
    if not (eq_ℤ h.ref_cnt (pos 0))
    then counted
    else if not (h.down_time_next == 0)
    then record counted { down_time_next = 0 }
    else if null h.cmd_con
    then counted
    else record counted { ran = h.cmd_con ∷ h.ran }

-- What BackgroundCleanup does with one handler.
unfoldable pub clean_hook : ℕ → HookHandler → HookHandler
clean_hook now h =
    if not (h.down_time_next == 0) && leb h.down_time_next now && not (null h.cmd_rel)
    then record h { ran = h.cmd_rel ∷ h.ran; down_time_next = 0 }
    else h

-- What a handler adds to the time at which BackgroundCleanup has to come again.
abbrev pub earliest : ℕ → HookHandler → ℕ → ℕ
earliest now h ret =
    if h.down_time_next == 0 || leb h.down_time_next now then ret else min ret h.down_time_next

-- BackgroundCleanup: the handlers, and the time of the next call.
unfoldable pub clean_hooks : ℕ → ℕ → List HookHandler → List HookHandler × ℕ
unfolding clean_hook
clean_hooks now ret [] = ([], ret)
clean_hooks now ret (h ∷ hs) =
    let (hs', next) = clean_hooks now (earliest now h ret) hs in (clean_hook now h ∷ hs', next)
