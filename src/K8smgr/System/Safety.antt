-- ===== src/K8smgr/System/Safety.antt =====
-- What every event of the manager of src/k8smgr/main.c keeps: the list of its processes is in
-- order, and it knows its side of the pair.
use mathlib.Core.Option.{some-injective}
use k8s.Common.{
  Bytes, ℕ, ◌+◌, ◌≡◌, sym, ◌∙◌, some, arith, ℤ, ◌==◌, if◌then◌else◌, str_eq, str_eq_iff, refl, ap,
  ◌≢◌, inl, inr, Option, none, Bool-cases, Option-cases,
}
use k8s.Elem.{update_element}
use k8s.Elem.Lookup.{find, update_element-find}
use k8s.Elem.Order.{update_element-IsTable}
use k8s.K8smgr.{Keepalive, ProcCtx, ProcList, PodInfo, MainCtx}
use k8s.K8smgr.Alive.{judge, check_proc_alive}
use k8s.K8smgr.Http.{set_alive, Method, http_reply_default, http_reply_pod_ready}
use k8s.K8smgr.Procs.{IsNumbered}
use k8s.K8smgr.Label.{http_recv_reply, my_mode}
use k8s.K8smgr.Live.{IsServed, RepliesOnce, http_reply_default-RepliesOnce}
use k8s.K8smgr.System.{System, watch_proc, after_outcome}
use k8s.K8smgr.System.Keeps.{http_reply_default-Leaves, http_reply_pod_ready-returns}

-- A process that is only judged anew.
abbrev pub SameProc : ProcCtx → ProcCtx → Type 0
SameProc p q = (q.proc_name ≡ p.proc_name) × (q.keep_index ≡ p.keep_index)

judge-SameProc : (r : ℕ) (p : ProcCtx) → SameProc p (judge r p)
unfolding judge
judge-SameProc r p = ground arith

check-SameProc : (k : Keepalive) (p : ProcCtx) → SameProc p (check_proc_alive k p).1
unfolding check_proc_alive
check-SameProc k p =
    let retry =
      if k.cnt p.keep_index == k.oldcnt p.keep_index then k.retry p.keep_index + 1 else 0 in
    ground (arith, judge-SameProc retry p)

set_alive-SameProc : (v : ℤ) (p : ProcCtx) → SameProc p (set_alive v p)
set_alive-SameProc v p = ground arith

module _ {num : ℕ} {l : ProcList} (n : IsNumbered num l) (k : Bytes) (f : ProcCtx → ProcCtx)
    (same : (p : ProcCtx) → find l k ≡ some p → SameProc p (f p)) where
  from_old :
      (j : Bytes) (q : ProcCtx)
      → find (update_element l k f) j ≡ some q
      → (p : ProcCtx) × (find l j ≡ some p) × SameProc p q
  from_old j q e =
      let at = update_element-find k f j n.is_table in
      elim (Option-cases (find l j)) [
        | inl new ↦ ground (arith, at, e, new)
        | inr (p, old) ↦ elim (Bool-cases (str_eq j k)) [
          | inl y ↦
              let there : find l k ≡ some p = rw ((str_eq_iff j k).0 y) at old in
              let is : some (f p) ≡ some q = ground (arith, at, e, old, y) in
              let q_is = some-injective (f p) q is in
              (
                p,
                old,
                (
                  ap (λ (x : ProcCtx). x.proc_name) (sym q_is) ∙ (same p there).0,
                  ap (λ (x : ProcCtx). x.keep_index) (sym q_is) ∙ (same p there).1,
                ),
              )
          | inr other ↦
              let is : some p ≡ some q = ground (arith, at, e, old, other) in
              let q_is = some-injective p q is in
              (
                p,
                old,
                (
                  ap (λ (x : ProcCtx). x.proc_name) (sym q_is),
                  ap (λ (x : ProcCtx). x.keep_index) (sym q_is),
                ),
              )
        ]
      ]

  pub update_element-IsNumbered : IsNumbered num (update_element l k f)
  update_element-IsNumbered = record {
    is_table = update_element-IsTable k f n.is_table;
    bounded = n.bounded;
    named = λ j q e. let o = from_old j q e in o.2.0 ∙ n.named j o.0 o.1;
    indexed = λ j q e. let o = from_old j q e in rw o.2.1 (n.indexed j o.0 o.1);
    apart = λ i j p q e e' index.
        let o = from_old i p e in
        let o' = from_old j q e' in n.apart i j o.0 o'.0 o.1 o'.1 (sym o.2.1 ∙ index ∙ o'.2.1);
  }

-- The list of the processes is in order, and the mode of this side can be read.
pub record IsRunning (num : ℕ) (s : System) : Type 0 where
  pub procs : IsNumbered num s.ctx.proc_list
  pub side : my_mode s.ctx.pod_info ≢ none

pub http_recv_reply-my_mode :
    (r : Option (Bytes × ℕ)) (pod : PodInfo) → my_mode (http_recv_reply r pod) ≡ my_mode pod
unfolding http_recv_reply my_mode
http_recv_reply-my_mode none pod = refl
http_recv_reply-my_mode (some (uri, code)) pod = ground arith

pub watch_proc-IsRunning :
    {num : ℕ} (name : Bytes) (s : System) → IsRunning num s → IsRunning num (watch_proc name s)
unfolding watch_proc
watch_proc-IsRunning name s r = elim (Option-cases (find s.ctx.proc_list name)) [
  | inl e ↦ rw (watch_proc, e) r
  | inr (p, e) ↦
      rw (watch_proc, e)
        (record {
          procs =
              update_element-IsNumbered r.procs name (λ _. (check_proc_alive s.shm p).1)
                (λ p' e'.
                  let p_is = some-injective p p' (sym e ∙ e') in
                  rw (← p_is) (check-SameProc s.shm p));
          side = r.side;
        })
]

-- The step is done, and `P` holds behind it.
abbrev pub Goes : (System → Type 0) → Option System → Type 0
Goes P o = (s' : System) × (o ≡ some s') × P s'

pub request-IsRunning :
    {num : ℕ} (uridecode : Bytes → Option Bytes) (s : System) {method : Method}
    {status : Option Bytes} (path : Option (Option Bytes))
    → IsRunning num s
    → IsServed method status
    → Goes
        (IsRunning num)
        (after_outcome s.shm (http_reply_default uridecode s.ctx method status path))
unfolding RepliesOnce
request-IsRunning {num} uridecode s {method} {status} path r served =
    let once = http_reply_default-RepliesOnce uridecode s.ctx path r.procs.is_table served in
    let P = λ (c : MainCtx). IsRunning num (record s { ctx = c }) in
    let kept =
      http_reply_default-Leaves P r method status
        (λ name v is_patch. record {
          procs =
              update_element-IsNumbered r.procs name (set_alive v) (λ p e. set_alive-SameProc v p);
          side = r.side;
        })
        uridecode path in
    (record s { ctx = once.0 }, ap (after_outcome s.shm) once.2, rw once.2 at kept)

pub ready-IsRunning :
    {num : ℕ} (s : System) (method : Method) (status : Option Bytes)
    → IsRunning num s
    → (ctx : MainCtx) × (after_outcome s.shm (http_reply_pod_ready s.ctx method status)
        ≡ some (record s { ctx = ctx }))
      × IsRunning num (record s { ctx = ctx })
      × (ctx.proc_list ≡ s.ctx.proc_list)
ready-IsRunning s method status r =
    let (ctx, replies, e, procs, pod) = http_reply_pod_ready-returns s.ctx method status in
    (
      ctx,
      ap (after_outcome s.shm) e,
      record { procs = rw procs r.procs; side = rw pod r.side },
      procs,
    )
