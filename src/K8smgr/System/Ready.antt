-- ===== src/K8smgr/System/Ready.antt =====
-- Runs of the manager of src/k8smgr/main.c in which every process counts up, and its `/ready`.
use k8s.Common.{
  Bytes, ℕ, ◌≡◌, inl, inr, true, some, List, [], ◌∷◌, refl, ap, Option, Option-cases, sym, ◌∙◌, ◌≢◌,
  none,
}
use k8s.K8smgr.Alive.{main_tick}
use k8s.K8smgr.System.{
  tick, System, Event, count_up, watch, update_label, peer_reply, ready, request, step, run,
  after_outcome,
}
use k8s.K8smgr.Http.{get, ok_200, returns, http_reply_pod_ready, http_reply_default}
use k8s.K8smgr.System.Safety.{Goes, http_recv_reply-my_mode}
use k8s.K8smgr.Probe.{AllAlive, http_reply_pod_ready-get, main_tick-my_sys_status}
use k8s.Elem.Order.{IsTable}
use k8s.K8smgr.Label.{http_recv_reply, my_mode, main_update_pod_label}
use k8s.K8smgr.Live.{RepliesOnce, IsServed, http_reply_default-RepliesOnce}
use k8s.K8smgr.System.Keeps.{http_reply_default-Leaves}
use k8s.K8smgr.System.Beat.{
  AllBeating, count_up-IsBeating, watch-AllBeating, same_beating, Marks, mark_count, mark_turn,
}
use k8s.Elem.Lookup.{find}
use k8s.K8smgr.{ProcCtx, ProcList}

ready_get :
    (s : System) (status : Option Bytes)
    → IsTable s.ctx.proc_list
    → after_outcome s.shm (http_reply_pod_ready s.ctx get status) ≡ some s
ready_get s status t = elim (http_reply_pod_ready-get s.ctx status t).1 [
  | inl ok ↦ ap (after_outcome s.shm) ok
  | inr unavailable ↦ ap (after_outcome s.shm) unavailable
]

abbrev pub and_mark : (Bytes → ℕ) → Event → Marks → Marks
and_mark index (count_up i) m = mark_count index i m
and_mark index (watch name) m = mark_turn name m
and_mark index _ m = m

abbrev pub Beat : Marks → Event → Type 0
Beat m (watch name) = m.fresh name ≡ true
Beat m (ready method status) = method ≡ get
Beat m (request method status path) = method ≡ get
Beat m _ = Unit

-- The process of each name counts up at least once before each turn of its timer, and requests only
-- ask. `index` has the index of the process of each name.
abbrev pub Beats : (Bytes → ℕ) → Marks → List Event → Type 0
Beats index m [] = Unit
Beats index m (e ∷ es) = Beat m e × Beats index (and_mark index e m) es

abbrev pub marks_after : (Bytes → ℕ) → Marks → List Event → Marks
marks_after index m [] = m
marks_after index m (e ∷ es) = marks_after index (and_mark index e m) es

none-ne-some : {p : ProcCtx} → ◌≢◌ {A = Option ProcCtx} none (some p)
none-ne-some e = absurd (cc e)

module _ {num : ℕ} {start : ProcList} (index : Bytes → ℕ) (uridecode : Bytes → Option Bytes) where
  request_beating :
      (m : Marks) (s : System) (status : Option Bytes) (path : Option (Option Bytes))
      → AllBeating num start index m s
      → Goes
          (AllBeating num start index m)
          (after_outcome s.shm (http_reply_default uridecode s.ctx get status path))
  unfolding RepliesOnce
  request_beating m s status path b =
      let once =
        http_reply_default-RepliesOnce uridecode s.ctx path b.running.procs.is_table
          (IsServed.get_any {status = status}) in
      let kept =
        http_reply_default-Leaves (λ c. AllBeating num start index m (record s { ctx = c })) b get
          status (λ j v is_patch. absurd (cc is_patch)) uridecode path in
      (record s { ctx = once.0 }, ap (after_outcome s.shm) once.2, rw once.2 at kept)

  step-AllBeating :
      (m : Marks) (s : System) (e : Event)
      → AllBeating num start index m s
      → Beat m e
      → Goes (AllBeating num start index (and_mark index e m)) (step uridecode s e)
  unfolding step main_tick
  step-AllBeating m s (count_up i) b beat = (
    _,
    refl,
    record {
      running = record { procs = b.running.procs; side = b.running.side };
      not_forced = b.not_forced;
      known = b.known;
      each = λ k p e. count_up-IsBeating s.shm (m.fresh k) (m.seen k) (index k) i p (b.each k p e);
    },
  )
  step-AllBeating m s (watch name) b beat = (_, refl, watch-AllBeating index m s b name beat)
  step-AllBeating m s tick b beat = (
    _,
    refl,
    same_beating index m s b (main_tick s.ctx)
        (record { procs = b.running.procs; side = b.running.side }) refl refl,
  )
  step-AllBeating m s update_label b beat = elim (Option-cases (my_mode s.ctx.pod_info)) [
    | inl e ↦ absurd (b.running.side e)
    | inr (mode, e) ↦ (s, unfold main_update_pod_label in rw (main_update_pod_label, e) refl, b)
  ]
  step-AllBeating m s (peer_reply x) b beat = (
    _,
    refl,
    same_beating index m s b (record s.ctx { pod_info = http_recv_reply x s.ctx.pod_info })
        (record {
          procs = b.running.procs;
          side = rw (http_recv_reply-my_mode x s.ctx.pod_info) b.running.side;
        })
        refl refl,
  )
  step-AllBeating m s (ready method status) b beat =
      rw beat (s, ready_get s status b.running.procs.is_table, b)
  step-AllBeating m s (request method status path) b beat =
      rw beat (request_beating m s status path b)

  run-AllBeating :
      (m : Marks) (es : List Event) (s : System)
      → AllBeating num start index m s
      → Beats index m es
      → Goes (AllBeating num start index (marks_after index m es)) (run uridecode es s)
  unfolding run
  run-AllBeating m [] s b beats = (s, refl, b)
  run-AllBeating m (e ∷ es) s b beats =
      let first = step-AllBeating m s e b beats.0 in
      rw (run, first.1) (run-AllBeating (and_mark index e m) es first.0 first.2 beats.1)

  pub run-ready :
      (m : Marks) (es : List Event) (s : System) (status : Option Bytes)
      → AllBeating num start index m s
      → Beats index m es
      → ((name : Bytes) → find start name ≢ none → (marks_after index m es).seen name ≡ true)
      → Goes
          (λ s'.
            (http_reply_pod_ready s'.ctx get status ≡ returns s'.ctx (ok_200 ∷ []))
            × ((main_tick s'.ctx).my_sys_status ≡ 1))
          (run uridecode es s)
  run-ready m es s status b beats watched =
      let (s', e, b') = run-AllBeating m es s b beats in
      let t = b'.running.procs.is_table in
      let up : AllAlive s'.ctx.proc_list = λ k p there.
        let seen = watched k (λ new. none-ne-some (sym (b'.known k new) ∙ there)) in
        rw ((b'.each k p there).alive seen) refl in
      (
        s',
        e,
        (
          (http_reply_pod_ready-get s'.ctx status t).0.1 (b'.not_forced, up),
          (main_tick-my_sys_status s'.ctx t).1 up,
        ),
      )
