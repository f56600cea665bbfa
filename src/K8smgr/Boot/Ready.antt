-- ===== src/K8smgr/Boot/Ready.antt =====
-- The start of the manager of src/k8smgr/main.c, and the seconds after it.
use k8s.Common.{Bytes, ℕ, ◌≤◌, ◌≡◌, sym, ap, false, Option, List, [], ◌∷◌, inl, inr, Option-cases}
use k8s.K8smgr.{Keepalive}
use k8s.K8smgr.Alive.{main_tick}
use k8s.K8smgr.Boot.{HttpServer, Timer, Libraries, booted, main_initialize}
use k8s.K8smgr.Boot.Safe.{IsStarted, main_initialize-IsStarted}
use k8s.K8smgr.Http.{get, ok_200, returns, http_reply_pod_ready}
use k8s.K8smgr.Label.{Effect}
use k8s.K8smgr.System.{System, Event, run}
use k8s.K8smgr.System.Beat.{Marks, AllBeating}
use k8s.K8smgr.System.Safety.{Goes}
use k8s.K8smgr.System.Timeline.{seconds, AllAside, index_in, proc_index}
use k8s.Elem.Lookup.{find}
use k8s.K8smgr.System.Ready.{run-ready}
use k8s.K8smgr.System.Timeline.Seconds.{seconds-Beats, seconds-seen}

-- No process has counted up, and no timer of a process has had a turn.
abbrev no_marks : Marks
no_marks = record { fresh = λ k. false; seen = λ k. false }

started-AllBeating :
    {num : ℕ} {before : Keepalive} (s : System)
    → IsStarted num before s
    → ((i : ℕ) → before.oldcnt i ≤ before.cnt i)
    → AllBeating num s.ctx.proc_list (proc_index s.ctx.proc_list) no_marks s
started-AllBeating {before = before} s started behind = record {
  running = started.running;
  not_forced = started.not_forced;
  known = λ k new. new;
  each = λ k p e. record {
    index = ap index_in (sym e);
    alive = λ seen. absurd (cc seen);
    free = started.fresh.free k p e;
    behind = rw (started.fresh.cnt_is, started.fresh.oldcnt_is) (behind _);
    counted = λ fresh. absurd (cc fresh);
  };
}

-- Where the start of a manager succeeds, no counter has been read ahead of its process, and each
-- process goes through its loop every second, the manager has not crashed after any number of
-- seconds, three at least, whatever replies of the peer and requests that only ask come in between;
-- it answers a probe of `/ready` by 200, and its timer finds the pod in order.
pub run-seconds :
    (w : Libraries) (uridecode : Bytes → Option Bytes) (asides : ℕ → List Event) (num : ℕ)
    (status : Option Bytes) {s : System} {server : HttpServer} {ts : List Timer}
    {effects : List Effect}
    → main_initialize w ≡ booted s server ts effects
    → ((i : ℕ) → w.keepalive.oldcnt i ≤ w.keepalive.cnt i)
    → ((i : ℕ) → AllAside (asides i))
    → 3 ≤ num
    → Goes
        (λ s'.
          (http_reply_pod_ready s'.ctx get status ≡ returns s'.ctx (ok_200 ∷ []))
          × ((main_tick s'.ctx).my_sys_status ≡ 1))
        (run uridecode (seconds s.ctx.proc_list asides 1 num) s)
run-seconds w uridecode asides num status {s} e behind aside enough =
    let (n, started) = main_initialize-IsStarted w e in
    let t = started.running.procs.is_table in
    run-ready (proc_index s.ctx.proc_list) uridecode no_marks (seconds s.ctx.proc_list asides 1 num)
      s status (started-AllBeating s started behind) (seconds-Beats t no_marks asides 1 num aside)
      λ k there. elim (Option-cases (find s.ctx.proc_list k)) [
        | inl new ↦ absurd (there new)
        | inr (p, found) ↦ seconds-seen t no_marks asides num k p aside enough found
      ]
