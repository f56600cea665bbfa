-- ===== src/K8smgr/System/Unready.antt =====
-- Runs of the manager of src/k8smgr/main.c in which one process stands still, and its `/ready`.
use k8s.Common.{
  Bytes, ℕ, ◌≤◌, ◌≡◌, refl, ap, Option, some, List, [], ◌∷◌, str_eq, str_eq_iff, inl, inr, arith,
  Bool-cases, Option-cases, ltb,
}
use k8s.Elem.Lookup.{find}
use k8s.K8smgr.{ProcCtx, MainCtx}
use k8s.K8smgr.Alive.{main_tick, all_pod_alive}
use k8s.K8smgr.System.{
  tick, System, Event, count_up, watch, update_label, peer_reply, ready, request, after_outcome,
  step, run,
}
use k8s.K8smgr.Http.{get, unavailable_503, returns, http_reply_pod_ready, http_reply_default}
use k8s.K8smgr.Live.{RepliesOnce, IsServed, http_reply_default-RepliesOnce}
use k8s.K8smgr.System.Keeps.{http_reply_default-Leaves}
use k8s.K8smgr.System.Safety.{IsRunning, Goes, http_recv_reply-my_mode, ready-IsRunning}
use k8s.K8smgr.System.Stuck.{
  IsQuiet, AllQuiet, and_watch, watches_from, IsStuck, and_watch, watches_from, watch_own,
  watch_other,
}
use k8s.K8smgr.Label.{http_recv_reply, my_mode, main_update_pod_label}
use k8s.Elem.Order.{IsTable}
use k8s.K8smgr.Probe.{AllAlive, http_reply_pod_ready-get, main_tick-my_sys_status}

-- A context that differs from the one before in nothing that concerns the processes.
same_procs :
    {num : ℕ} {name : Bytes} {i n : ℕ} (s : System) (ctx : MainCtx)
    → IsRunning num (record s { ctx = ctx })
    → ctx.proc_list ≡ s.ctx.proc_list
    → IsStuck num name i n s
    → IsStuck num name i n (record s { ctx = ctx })
same_procs s ctx running same t = record {
  running = running;
  proc = t.proc;
  found = rw same t.found;
  index = t.index;
  free = t.free;
  is_read = t.is_read;
  tries = t.tries;
  dead = t.dead;
}

request_quiet :
    {num : ℕ} {name : Bytes} {i n : ℕ} (uridecode : Bytes → Option Bytes) (s : System)
    (status : Option Bytes) (path : Option (Option Bytes))
    → IsStuck num name i n s
    → Goes
        (IsStuck num name i n)
        (after_outcome s.shm (http_reply_default uridecode s.ctx get status path))
unfolding RepliesOnce
request_quiet {num} {name} {i} {n} uridecode s status path t =
    let once =
      http_reply_default-RepliesOnce uridecode s.ctx path t.running.procs.is_table
        (IsServed.get_any {status = status}) in
    let kept =
      http_reply_default-Leaves (λ c. IsStuck num name i n (record s { ctx = c })) t get status
        (λ j v is_patch. absurd (cc is_patch)) uridecode path in
    (record s { ctx = once.0 }, ap (after_outcome s.shm) once.2, rw once.2 at kept)

step-IsStuck :
    {num : ℕ} {name : Bytes} {i n : ℕ} (uridecode : Bytes → Option Bytes) (s : System) (e : Event)
    → IsStuck num name i n s
    → IsQuiet i e
    → Goes (IsStuck num name i (and_watch name e n)) (step uridecode s e)
unfolding step main_tick
step-IsStuck {num} {name} {i} {n} uridecode s (count_up j) t quiet = (
  _,
  refl,
  record {
    running = record { procs = t.running.procs; side = t.running.side };
    proc = t.proc;
    found = t.found;
    index = t.index;
    free = t.free;
    is_read = λ some_turn. ground (arith, t.is_read some_turn, quiet);
    tries = t.tries;
    dead = t.dead;
  },
)
step-IsStuck {num} {name} {i} {n} uridecode s (watch other) t quiet =
    elim (Bool-cases (str_eq other name)) [
      | inl own ↦
          let same = (str_eq_iff other name).0 own in (_, refl, rw (own, same) (watch_own name s t))
      | inr ne ↦ (_, refl, rw ne (watch_other name other s ne t))
    ]
step-IsStuck uridecode s tick t quiet = (
  _,
  refl,
  same_procs s (main_tick s.ctx) (record { procs = t.running.procs; side = t.running.side }) refl t,
)
step-IsStuck uridecode s update_label t quiet = elim (Option-cases (my_mode s.ctx.pod_info)) [
  | inl e ↦ absurd (t.running.side e)
  | inr (mode, e) ↦ (s, unfold main_update_pod_label in rw (main_update_pod_label, e) refl, t)
]
step-IsStuck uridecode s (peer_reply x) t quiet = (
  _,
  refl,
  same_procs s (record s.ctx { pod_info = http_recv_reply x s.ctx.pod_info })
      (record {
        procs = t.running.procs;
        side = rw (http_recv_reply-my_mode x s.ctx.pod_info) t.running.side;
      })
      refl t,
)
step-IsStuck uridecode s (ready method status) t quiet =
    let (ctx, e, running, procs) = ready-IsRunning s method status t.running in
    (record s { ctx = ctx }, e, same_procs s ctx running procs t)
step-IsStuck uridecode s (request method status path) t quiet =
    rw quiet (request_quiet uridecode s status path t)

run-IsStuck :
    {num : ℕ} {name : Bytes} {i n : ℕ} (uridecode : Bytes → Option Bytes) (es : List Event)
    (s : System)
    → IsStuck num name i n s
    → AllQuiet i es
    → Goes (IsStuck num name i (watches_from n name es)) (run uridecode es s)
unfolding run
run-IsStuck uridecode [] s t quiet = (s, refl, t)
run-IsStuck {num} {name} {i} {n} uridecode (e ∷ es) s t quiet =
    let first = step-IsStuck uridecode s e t quiet.0 in
    let later = run-IsStuck {n = and_watch name e n} uridecode es first.0 first.2 quiet.1 in
    rw (run, first.1) later

not_alive :
    {num : ℕ} {name : Bytes} {i n : ℕ} (s : System)
    → IsStuck num name i n s
    → 4 ≤ n
    → ¬ AllAlive s.ctx.proc_list
not_alive {name} s t enough all_up = ground (arith, t.dead enough, all_up name t.proc t.found)

dead-main_tick :
    (ctx : MainCtx)
    → IsTable ctx.proc_list
    → ¬ AllAlive ctx.proc_list
    → (main_tick ctx).my_sys_status ≡ 0
unfolding main_tick
dead-main_tick ctx t dead = elim (Bool-cases (ltb 0 (all_pod_alive ctx.proc_list))) [
  | inl up ↦ absurd (dead ((main_tick-my_sys_status ctx t).0 (rw up refl)))
  | inr down ↦ rw down refl
]

-- The process of a name, which is not forced, does not count up any more. Whatever the other
-- processes, the timers, the peer and the requests do meanwhile, as long as no request but a GET comes for a
-- path with no handler of its own: after four turns of its timer the manager has not crashed, it
-- answers a probe of `/ready` by 503, and its timer takes the pod for failed.
pub run-unready :
    {num : ℕ} (uridecode : Bytes → Option Bytes) (es : List Event) (s : System) (name : Bytes)
    {p : ProcCtx} (status : Option Bytes)
    → IsRunning num s
    → find s.ctx.proc_list name ≡ some p
    → p.force_status ≡ 0
    → AllQuiet p.keep_index es
    → 4 ≤ watches_from 0 name es
    → Goes
        (λ s'.
          (http_reply_pod_ready s'.ctx get status ≡ returns s'.ctx (unavailable_503 ∷ []))
          × ((main_tick s'.ctx).my_sys_status ≡ 0))
        (run uridecode es s)
run-unready {num} uridecode es s name {p} status running found free quiet enough =
    let start : IsStuck num name p.keep_index 0 s = record {
      running = running;
      proc = p;
      found = found;
      index = refl;
      free = free;
      is_read = λ h. absurd (omega (arith, h));
      tries = λ h. absurd (omega (arith, h));
      dead = λ h. absurd (omega (arith, h));
    } in
    let (s', e, t) = run-IsStuck uridecode es s start quiet in
    let dead = not_alive s' t enough in
    let probe = http_reply_pod_ready-get s'.ctx status t.running.procs.is_table in
    let refused : http_reply_pod_ready s'.ctx get status ≡ returns s'.ctx (unavailable_503 ∷ []) =
      elim probe.1 [ inl ok ↦ absurd (dead (probe.0.0 ok).1) | inr no_ok ↦ no_ok ] in
    (s', e, (refused, dead-main_tick s'.ctx t.running.procs.is_table dead))
