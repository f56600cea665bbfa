-- ===== src/K8smgr/SystemTests.antt =====
-- The manager as a whole at concrete inputs.
use k8s.K8smgr.System.{Event, tick, count_up, watch, update_label, peer_reply, ready, request, run}
use k8s.K8smgr.System.Safety.{IsRunning, Goes}
use k8s.K8smgr.System.Unready.{run-unready}
use k8s.K8smgr.Boot.Safe.{main_initialize-IsStarted, IsStarted}
use k8s.K8smgr.Http.{get, unavailable_503, returns, http_reply_pod_ready, ok_200}
use k8s.K8smgr.Alive.{main_tick}
use k8s.K8smgr.StartTests.{lib, lib_boots, start_system}
use k8s.Common.{
  Bytes, codes, ℕ, ◌≡◌, refl, Option, none, some, List, [], ◌∷◌, arith, str_eq, false,
  if◌then◌else◌,
}
use k8s.K8smgr.{ProcCtx}
use k8s.K8smgr.Procs.{new_proc}
use k8s.Elem.Lookup.{find}
use k8s.K8smgr.System.Stuck.{AllQuiet}
use k8s.K8smgr.System.Beat.{Marks}
use k8s.K8smgr.Boot.Ready.{run-seconds}
use k8s.K8smgr.System.Timeline.{counts, watches, second, seconds}

no_uri : Bytes → Option Bytes
no_uri s = none

abbrev ixpc : Bytes
ixpc = codes "IXPC"

abbrev ixpc_proc : ProcCtx
ixpc_proc = new_proc ixpc 1

main_initialize-IsStarted_example : (num : ℕ) × IsStarted num lib.keepalive start_system
main_initialize-IsStarted_example = main_initialize-IsStarted lib lib_boots

start_system-IsRunning : (num : ℕ) × IsRunning num start_system
start_system-IsRunning =
    let (num, started) = main_initialize-IsStarted lib lib_boots in (num, started.running)

ixpc_found : find start_system.ctx.proc_list ixpc ≡ some ixpc_proc
unfolding find str_eq
ixpc_found = refl

-- Process 1 stands still and its timer runs five times, between what else happens.
abbrev stuck_events : List Event
stuck_events =
    watch ixpc
    ∷ count_up 0
    ∷ watch ixpc
    ∷ watch (codes "MMIB")
    ∷ ready get none
    ∷ watch ixpc
    ∷ tick
    ∷ watch ixpc
    ∷ request get none (some (some (codes "/live/IXPC")))
    ∷ watch ixpc
    ∷ update_label
    ∷ []

stuck_events-AllQuiet : AllQuiet 1 stuck_events
stuck_events-AllQuiet =
    (tt, ((λ e. omega (arith, e)), (tt, (tt, (tt, (tt, (tt, (tt, (refl, (tt, (tt, tt)))))))))))

run-unready_example :
    Goes
      (λ s'.
        (http_reply_pod_ready s'.ctx get none ≡ returns s'.ctx (unavailable_503 ∷ []))
        × ((main_tick s'.ctx).my_sys_status ≡ 0))
      (run no_uri stuck_events start_system)
unfolding new_proc str_eq
run-unready_example =
    run-unready no_uri stuck_events start_system ixpc none start_system-IsRunning.1 ixpc_found refl
      stuck_events-AllQuiet (omega arith)

abbrev index_of : Bytes → ℕ
index_of name = if str_eq name ixpc then 1 else 0

abbrev no_marks : Marks
no_marks = record { fresh = λ k. false; seen = λ k. false }

abbrev mmib : Bytes
mmib = codes "MMIB"

-- Both processes count up, and their timers run.
abbrev beat_events : List Event
beat_events =
    count_up 0
    ∷ count_up 1
    ∷ watch ixpc
    ∷ tick
    ∷ watch mmib
    ∷ ready get none
    ∷ count_up 1
    ∷ count_up 1
    ∷ watch ixpc
    ∷ []

-- A probe in every second, and a reply of the peer.
abbrev asides : ℕ → List Event
asides i = ready get none ∷ peer_reply none ∷ []

run-seconds_example :
    Goes
      (λ s'.
        (http_reply_pod_ready s'.ctx get none ≡ returns s'.ctx (ok_200 ∷ []))
        × ((main_tick s'.ctx).my_sys_status ≡ 1))
      (run no_uri (seconds start_system.ctx.proc_list asides 1 5) start_system)
run-seconds_example =
    run-seconds lib no_uri asides 5 none lib_boots (λ i. omega arith) (λ i. (refl, (tt, tt)))
      (omega arith)

-- What happens in the third second.
third :
    seconds start_system.ctx.proc_list asides 3 1
    ≡ count_up 1
      ∷ count_up 0
      ∷ ready get none
      ∷ peer_reply none
      ∷ tick
      ∷ update_label
      ∷ watch ixpc
      ∷ watch mmib
      ∷ []
unfolding seconds second counts watches new_proc
third = refl
