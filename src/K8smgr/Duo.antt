-- ===== src/K8smgr/Duo.antt =====
-- The two managers of a pair: what the one answers is what the other labels itself by.
use k8s.Common.{
  Bytes, codes, str_eq, ℕ, ◌≤◌, ◌≡◌, refl, ◌≢◌, ◌↔◌, inl, inr, Bool, true, false, not, ◌&&◌, Option,
  none, some, List, ◌∷◌, arith, is_pos, is_zero, ltb, ◌==◌, if◌then◌else◌, ◌∙◌,
}
use k8s.Elem.Order.{IsTable}
use k8s.K8smgr.{PodInfo, MainCtx}
use k8s.K8smgr.Alive.{all_pod_alive, main_tick}
use k8s.K8smgr.Http.{
  get, Reply, send_error, send_reply, Outcome, returns, http_reply_pod_start, http_reply_pod_ready,
}
use k8s.K8smgr.Label.{
  http_recv_reply, Status, force_not_ready, proc_failed, active, standby, status_text, my_mode,
  choose_status, Effect, ha_set_mode, main_update_pod_label,
}
use k8s.K8smgr.Probe.{AllAlive, all_pod_alive-cases}
use k8s.K8smgr.System.Safety.{http_recv_reply-my_mode}
use k8s.K8smgr.System.Timeline.{second}

abbrev reply_code : Reply → ℕ
reply_code (send_error code reason) = code
reply_code (send_reply code reason rows) = code

-- The reply that `http_recv_reply` gets, to a request of this uri, from a handler.
abbrev pub reply_from : Bytes → Outcome → Option (Bytes × ℕ)
reply_from uri (returns ctx (r ∷ replies)) = some (uri, reply_code r)
reply_from uri _ = none

-- The replies to the two requests of `main_check_peer_pod`, which come in either order.
unfoldable pub hear_peer : Bool → MainCtx → PodInfo → PodInfo
hear_peer ready_first peer pod =
    let start = reply_from (codes "/start") (http_reply_pod_start peer) in
    let ready = reply_from (codes "/ready") (http_reply_pod_ready peer get none) in
    if ready_first
    then http_recv_reply start (http_recv_reply ready pod)
    else http_recv_reply ready (http_recv_reply start pod)

-- No word comes from the peer, to either request.
unfoldable pub hear_nothing : PodInfo → PodInfo
hear_nothing pod = http_recv_reply none (http_recv_reply none pod)

-- The mode that `main_update_pod_label` writes into shared memory is the active one.
abbrev pub sets_active : Option (List Effect) → Bool
sets_active (some (ha_set_mode is_active ∷ effects)) = is_active
sets_active _ = false

-- The two timers of a manager, one after the other.
abbrev pub labels : MainCtx → Option (List Effect)
labels ctx = main_update_pod_label (main_tick ctx)

-- Not forced, and every process is alive.
abbrev pub IsInOrder : MainCtx → Type 0
IsInOrder ctx = (ctx.force_not_ready ≡ 0) × AllAlive ctx.proc_list

abbrev is_active : Status → Bool
is_active active = true
is_active _ = false

status_text-active : (s : Status) → str_eq (status_text s) (codes "active") ≡ is_active s
unfolding status_text str_eq
status_text-active force_not_ready = refl
status_text-active proc_failed = refl
status_text-active active = refl
status_text-active standby = refl

labels-choose :
    (ctx : MainCtx) (mode : ℕ)
    → my_mode ctx.pod_info ≡ some mode
    → sets_active (labels ctx) ≡ is_active (choose_status (main_tick ctx) mode)
unfolding main_update_pod_label main_tick
labels-choose ctx mode e =
    rw (main_update_pod_label, e) (status_text-active (choose_status (main_tick ctx) mode))

-- Whether a pod is in order, as `main_tick` and the flag tell it.
abbrev in_order : MainCtx → Bool
in_order ctx = ctx.force_not_ready == 0 && ltb 0 (all_pod_alive ctx.proc_list)

in_order_iff : (ctx : MainCtx) → IsTable ctx.proc_list → (in_order ctx ≡ true) ↔ IsInOrder ctx
in_order_iff ctx t = elim (all_pod_alive-cases t) [
  | inl (up, every) ↦ ((λ e. (ground (arith, e), every)), (λ h. ground (arith, up, h.0)))
  | inr (down, (k, p, f, dead)) ↦
      ((λ e. absurd (ground (arith, e, down))), (λ h. absurd (cc (h.1 k p f, dead))))
]

choose_status-active_side :
    (ctx : MainCtx)
    → ctx.force_not_ready ≤ 1
    → is_active (choose_status (main_tick ctx) b'A') ≡ in_order ctx
unfolding choose_status main_tick
choose_status-active_side ctx flag = ground (arith, flag)

choose_status-other_side :
    (ctx : MainCtx) (mode : ℕ)
    → ctx.force_not_ready ≤ 1
    → mode ≢ b'A'
    → is_active (choose_status (main_tick ctx) mode)
      ≡ in_order ctx
        && not (is_pos ctx.pod_info.peer_pod_start && not (is_zero ctx.pod_info.peer_pod_ready))
unfolding choose_status main_tick
choose_status-other_side ctx mode flag other = ground (arith, flag, other)

ready_reply :
    (peer : MainCtx)
    → reply_from (codes "/ready") (http_reply_pod_ready peer get none)
      ≡ some (codes "/ready", if in_order peer then 200 else 503)
unfolding http_reply_pod_ready
ready_reply peer = ground arith

start_reply :
    (peer : MainCtx)
    → reply_from (codes "/start") (http_reply_pod_start peer) ≡ some (codes "/start", 200)
unfolding http_reply_pod_start
start_reply peer = refl

hear_peer-in_order :
    (ready_first : Bool) (peer : MainCtx) (pod : PodInfo)
    → let pod' = hear_peer ready_first peer pod in
      (is_pos pod'.peer_pod_start && not (is_zero pod'.peer_pod_ready)) ≡ in_order peer
unfolding hear_peer http_recv_reply str_eq
hear_peer-in_order true peer pod = rw (ready_reply peer, start_reply peer) (ground arith)
hear_peer-in_order false peer pod = rw (ready_reply peer, start_reply peer) (ground arith)

hear_peer-my_mode :
    (ready_first : Bool) (peer : MainCtx) (pod : PodInfo)
    → my_mode (hear_peer ready_first peer pod) ≡ my_mode pod
unfolding hear_peer
hear_peer-my_mode true peer pod =
    http_recv_reply-my_mode (reply_from (codes "/start") (http_reply_pod_start peer)) _
    ∙ http_recv_reply-my_mode (reply_from (codes "/ready") (http_reply_pod_ready peer get none)) pod
hear_peer-my_mode false peer pod =
    http_recv_reply-my_mode (reply_from (codes "/ready") (http_reply_pod_ready peer get none)) _
    ∙ http_recv_reply-my_mode (reply_from (codes "/start") (http_reply_pod_start peer)) pod

hear_nothing-in_order : (pod : PodInfo) → is_pos (hear_nothing pod).peer_pod_start ≡ false
unfolding hear_nothing http_recv_reply
hear_nothing-in_order pod = refl

hear_nothing-my_mode : (pod : PodInfo) → my_mode (hear_nothing pod) ≡ my_mode pod
unfolding hear_nothing
hear_nothing-my_mode pod =
    http_recv_reply-my_mode none (http_recv_reply none pod) ∙ http_recv_reply-my_mode none pod

-- Of two managers, one on the side that is configured active and one that is not, the first takes
-- the active mode exactly where its pod is in order. Once the second has had the replies of the first
-- to both of its requests, in either order, it takes the active mode exactly where its own pod is in
-- order and the first one's is not; and once both have failed, exactly where its own pod is in order.
-- The flag that forces a pod is 0 or 1 on both.
pub sets_active-IsInOrder :
    (first second : MainCtx) (mode : ℕ) (ready_first : Bool)
    → IsTable first.proc_list
    → IsTable second.proc_list
    → first.force_not_ready ≤ 1
    → second.force_not_ready ≤ 1
    → my_mode first.pod_info ≡ some b'A'
    → my_mode second.pod_info ≡ some mode
    → mode ≢ b'A'
    → let heard = record second { pod_info = hear_peer ready_first first second.pod_info } in
      let deaf = record second { pod_info = hear_nothing second.pod_info } in
      ((sets_active (labels first) ≡ true) ↔ IsInOrder first)
      × ((sets_active (labels heard) ≡ true) ↔ (IsInOrder second × ¬ IsInOrder first))
      × ((sets_active (labels deaf) ≡ true) ↔ IsInOrder second)
sets_active-IsInOrder first second mode ready_first t u flag flag' side side' other =
    let heard = record second { pod_info = hear_peer ready_first first second.pod_info } in
    let deaf = record second { pod_info = hear_nothing second.pod_info } in
    let heard_mode = hear_peer-my_mode ready_first first second.pod_info ∙ side' in
    let deaf_mode = hear_nothing-my_mode second.pod_info ∙ side' in
    let here = labels-choose first b'A' side ∙ choose_status-active_side first flag in
    let there =
      labels-choose heard mode heard_mode ∙ choose_status-other_side heard mode flag' other in
    let alone =
      labels-choose deaf mode deaf_mode ∙ choose_status-other_side deaf mode flag' other in
    let first_iff = in_order_iff first t in
    let second_iff = in_order_iff second u in
    ground (
      arith,
      here,
      there,
      alone,
      first_iff,
      second_iff,
      hear_peer-in_order ready_first first second.pod_info,
      hear_nothing-in_order second.pod_info,
    )
