-- ===== src/K8smgr/Alive.antt =====
-- `check_proc_alive`, the timer of each process, and what the list of processes says as a whole.
use k8s.K8smgr.{
  Keepalive, ProcCtx, MainCtx, ProcList, sysconf_max_appl_num, k8smgr_hang_intvl, update,
}
use k8s.Elem.{Element, Verdict, keep, list_element}
use k8s.Common.{ℕ, ◌+◌, none, some, pos, is_pos, ltb, leb, ◌==◌, if◌then◌else◌}

-- The second half of `check_proc_alive`, with the new `retry` of the process.
unfoldable pub judge : ℕ → ProcCtx → ProcCtx
judge retry p =
    if ltb 0 p.force_status
    then if ltb p.force_status 5
      then record p { force_status = p.force_status + 1; alive_status = pos 0 }
      else record p { force_status = 0 }
    else if leb k8smgr_hang_intvl retry
    then record p { alive_status = pos 0 }
    else record p { alive_status = pos 1 }

unfoldable pub check_proc_alive : Keepalive → ProcCtx → Keepalive × ProcCtx
check_proc_alive k p =
    let i = p.keep_index in
    let retry = if k.cnt i == k.oldcnt i then k.retry i + 1 else 0 in
    if leb sysconf_max_appl_num i then (k, p) else (
      record k { oldcnt = update k.oldcnt i (k.cnt i); retry = update k.retry i retry },
      judge retry p,
    )

-- The argument is `*all_pod_alive`.
unfoldable pub proc_check_all_alive : Element ProcCtx → ℕ → Verdict ProcCtx × ℕ
proc_check_all_alive elem all_pod_alive = elim elem.key [
  | none ↦ (keep elem, all_pod_alive)
  | some _ ↦ elim elem.payload [
    | none ↦ (keep elem, all_pod_alive)
    | some p ↦ (keep elem, if is_pos p.alive_status then all_pod_alive else 0)
  ]
]

unfoldable pub all_pod_alive : ProcList → ℕ
unfolding proc_check_all_alive
all_pod_alive l = (list_element l proc_check_all_alive 1).1

-- `main_tick`; the call of the keepalive library counts up the manager's own counter.
unfoldable pub main_tick : MainCtx → MainCtx
main_tick ctx = record ctx { my_sys_status = if ltb 0 (all_pod_alive ctx.proc_list) then 1 else 0 }
