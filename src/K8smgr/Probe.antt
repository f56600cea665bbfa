-- ===== src/K8smgr/Probe.antt =====
-- What the probes answer: the readiness of the pod and the liveness of a process.
use k8s.K8smgr.{MainCtx, ProcCtx, ProcList}
use k8s.Common.{
  Bytes, ℕ, ◌≡◌, ◌⊎◌, true, false, Option, some, is_pos, str_eq_iff, str_eq_refl, refl, ◌↔◌, inl,
  inr, [], ◌∷◌, arith, Bool-cases, ◌<◌, ◌≢◌, is_zero, atoi, ltb, if◌then◌else◌, ltb→lt, zero, Bool,
}
use k8s.Elem.{list_element}
use k8s.Elem.Lookup.{find, find-at}
use k8s.Elem.Order.{IsSorted, nil, cons, IsTable, table}
use k8s.K8smgr.Alive.{proc_check_all_alive, all_pod_alive, main_tick}
use k8s.K8smgr.Http.{get, ok_200, unavailable_503, returns, http_reply_pod_ready, patch, Outcome}

-- Every process of the list is alive.
abbrev pub AllAlive : ProcList → Type 0
AllAlive l = (k : Bytes) (p : ProcCtx) → find l k ≡ some p → is_pos p.alive_status ≡ true

check-find :
    {lo : Option Bytes} {es : ProcList} (n : ℕ)
    → IsSorted lo es
    → ((list_element es proc_check_all_alive n).1 ≡ n) × AllAlive es
      ⊎ ((list_element es proc_check_all_alive n).1 ≡ 0)
        × ((k : Bytes) × (p : ProcCtx) × (find es k ≡ some p) × (is_pos p.alive_status ≡ false))
unfolding list_element proc_check_all_alive find
check-find n nil = inl (refl, λ k p e. cc)
check-find n (cons {k} {d} {es} m s) = elim (Bool-cases (is_pos d.alive_status)) [
  | inl up ↦ elim (check-find n s) [
    | inl (e, every) ↦ inl (rw up e, λ j p f. ground (arith, up, every j p, str_eq_iff j k))
    | inr (z, (j, p, f, dead)) ↦
        inr (rw up z, (j, p, ground (arith, f, find-at s, str_eq_iff j k), dead))
  ]
  | inr down ↦ inr (
    rw down (elim (check-find 0 s) [ inl (e, _) ↦ e | inr (z, _) ↦ z ]),
    (k, d, ground (arith, str_eq_refl k), down),
  )
]

pub all_pod_alive-cases :
    {l : ProcList}
    → IsTable l
    → (all_pod_alive l ≡ 1) × AllAlive l
      ⊎ (all_pod_alive l ≡ 0)
        × ((k : Bytes) × (p : ProcCtx) × (find l k ≡ some p) × (is_pos p.alive_status ≡ false))
unfolding all_pod_alive list_element proc_check_all_alive find
all_pod_alive-cases (table s) = check-find 1 s

ready-200 :
    (ctx : MainCtx) (status : Option Bytes)
    → ctx.force_not_ready ≡ 0
    → all_pod_alive ctx.proc_list ≡ 1
    → http_reply_pod_ready ctx get status ≡ returns ctx (ok_200 ∷ [])
unfolding http_reply_pod_ready
ready-200 ctx status free up = rw (free, up)

ready-503 :
    (ctx : MainCtx) (status : Option Bytes)
    → (0 < ctx.force_not_ready) ⊎ (all_pod_alive ctx.proc_list ≡ 0)
    → http_reply_pod_ready ctx get status ≡ returns ctx (unavailable_503 ∷ [])
unfolding http_reply_pod_ready
ready-503 ctx status h = ground arith

ok-ne-unavailable :
    (ctx : MainCtx) {o : Outcome}
    → o ≡ returns ctx (unavailable_503 ∷ [])
    → o ≢ returns ctx (ok_200 ∷ [])
ok-ne-unavailable ctx e f = cc

-- The probe of `/ready` answers 200 exactly where the pod is not forced and every process of its
-- list is alive, and 503 otherwise; it changes nothing.
pub http_reply_pod_ready-get :
    (ctx : MainCtx) (status : Option Bytes)
    → IsTable ctx.proc_list
    → ((http_reply_pod_ready ctx get status ≡ returns ctx (ok_200 ∷ []))
        ↔ ((ctx.force_not_ready ≡ 0) × AllAlive ctx.proc_list))
      × ((http_reply_pod_ready ctx get status ≡ returns ctx (ok_200 ∷ []))
          ⊎ (http_reply_pod_ready ctx get status ≡ returns ctx (unavailable_503 ∷ [])))
http_reply_pod_ready-get ctx status t = elim (all_pod_alive-cases t) [
  | inl (up, every) ↦ elim (Bool-cases (ltb 0 ctx.force_not_ready)) [
    | inl forced ↦
        let no_ok = ready-503 ctx status (inl (ltb→lt 0 ctx.force_not_ready forced)) in
        (
          (
            (λ e. absurd (ok-ne-unavailable ctx no_ok e)),
            (λ h. absurd (ground (arith, forced, h.0))),
          ),
          inr no_ok,
        )
    | inr free ↦
        let zero_is : ctx.force_not_ready ≡ 0 = ground (arith, free) in
        let ok = ready-200 ctx status zero_is up in (((λ e. (zero_is, every)), (λ h. ok)), inl ok)
  ]
  | inr (down, (k, p, f, dead)) ↦
      let no_ok = ready-503 ctx status (inr down) in
      (
        ((λ e. absurd (ok-ne-unavailable ctx no_ok e)), (λ h. absurd (cc (h.1 k p f, dead)))),
        inr no_ok,
      )
]

-- `main_tick` takes the pod for running exactly where every process of its list is alive.
pub main_tick-my_sys_status :
    (ctx : MainCtx)
    → IsTable ctx.proc_list
    → ((main_tick ctx).my_sys_status ≡ 1) ↔ AllAlive ctx.proc_list
unfolding main_tick
main_tick-my_sys_status ctx t = elim (all_pod_alive-cases t) [
  | inl (up, every) ↦ ((λ e. every), (λ h. rw up))
  | inr (down, (k, p, f, dead)) ↦
      ((λ e. absurd (ground (arith, e, down))), (λ h. absurd (cc (h k p f, dead))))
]

flag_iff : (b : Bool) → ((if b then 1 else 0) ≡ zero) ↔ (b ≡ false)
flag_iff b = ground arith

-- After a PATCH of `/ready?status=V` the probe of `/ready` answers 503 where V reads as 0, and
-- else 200 exactly where every process is alive.
pub http_reply_pod_ready-patch :
    (ctx : MainCtx) (text : Bytes) (query : Option Bytes)
    → IsTable ctx.proc_list
    → (ctx' : MainCtx) × (http_reply_pod_ready ctx patch (some text) ≡ returns ctx' (ok_200 ∷ []))
      × ((http_reply_pod_ready ctx' get query ≡ returns ctx' (ok_200 ∷ []))
          ↔ ((is_zero (atoi text) ≡ false) × AllAlive ctx.proc_list))
unfolding http_reply_pod_ready
http_reply_pod_ready-patch ctx text query t =
    let ctx' = record ctx { force_not_ready = if is_zero (atoi text) then 1 else 0 } in
    let probe = http_reply_pod_ready-get ctx' query t in
    (
      ctx',
      refl,
      (
        (λ e. ((flag_iff (is_zero (atoi text))).0 (probe.0.0 e).0, (probe.0.0 e).1)),
        (λ h. probe.0.1 ((flag_iff (is_zero (atoi text))).1 h.0, h.1)),
      ),
    )
