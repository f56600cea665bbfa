-- ===== src/K8smgr/Pair.antt =====
-- What the label of a pod says about its peer, and the pair of an active and a standby side.
use k8s.K8smgr.{MainCtx, PodInfo}
use k8s.Common.{
  Bytes, codes, str_eq, str_eq_iff, ℕ, ◌≡◌, refl, ◌≢◌, Bool, true, false, not, Option, none, some,
  List, [], ◌∷◌, arith, pos, is_pos, is_zero, ◌==◌, if◌then◌else◌, ◌&&◌,
}
use k8s.K8smgr.Label.{
  http_recv_reply, Status, active, standby, status_text, my_mode, choose_status, Effect,
  ha_set_mode, k8s_api_patch_pod_status, main_update_pod_label,
}

-- The replies so far, the latest first, from a state with nothing known of the peer.
unfoldable pub after_replies : PodInfo → List (Option (Bytes × ℕ)) → PodInfo
after_replies pod [] = pod
after_replies pod (r ∷ older) = http_recv_reply r (after_replies pod older)

-- The latest word on `/start` is a 200.
unfoldable pub start_seen : List (Option (Bytes × ℕ)) → Bool
start_seen [] = false
start_seen (none ∷ older) = false
start_seen (some (uri, code) ∷ older) =
    if str_eq uri (codes "/start") then code == 200 else start_seen older

-- The latest word on `/ready` is a 200, or is a request that failed.
unfoldable pub ready_seen : List (Option (Bytes × ℕ)) → Bool
ready_seen [] = false
ready_seen (none ∷ older) = true
ready_seen (some (uri, code) ∷ older) =
    if str_eq uri (codes "/ready") then code == 200 else ready_seen older

start_ne_ready : (u : Bytes) → str_eq u (codes "/start") ≡ true → str_eq u (codes "/ready") ≡ false
start_ne_ready u h = rw ((str_eq_iff u (codes "/start")).0 h) (unfold str_eq in refl)

record Seen (pod : PodInfo) (rs : List (Option (Bytes × ℕ))) : Type 0 where
  start : is_pos pod.peer_pod_start ≡ start_seen rs
  ready : not (is_zero pod.peer_pod_ready) ≡ ready_seen rs

recv-Seen :
    (uri : Bytes) (code : ℕ) (pod : PodInfo) (older : List (Option (Bytes × ℕ)))
    → Seen pod older
    → Seen (http_recv_reply (some (uri, code)) pod) (some (uri, code) ∷ older)
unfolding http_recv_reply start_seen ready_seen
recv-Seen uri code pod older seen = ground (arith, seen.start, seen.ready, start_ne_ready uri)

after_replies-Seen :
    (pod : PodInfo) (rs : List (Option (Bytes × ℕ)))
    → pod.peer_pod_start ≡ pos 0
    → pod.peer_pod_ready ≡ pos 0
    → Seen (after_replies pod rs) rs
unfolding after_replies start_seen ready_seen
after_replies-Seen pod [] s r = ground arith
after_replies-Seen pod (none ∷ older) s r = unfold http_recv_reply in ground arith
after_replies-Seen pod (some (uri, code) ∷ older) s r =
    recv-Seen uri code (after_replies pod older) older (after_replies-Seen pod older s r)

-- A pod in order, whose side of the configured mode is not the active one.
pub record IsStandbySide (ctx : MainCtx) : Type 0 where
  pub not_forced : ctx.force_not_ready ≢ 1
  pub running : ctx.my_sys_status ≡ 1
  pub mode : ℕ
  pub mode_is : my_mode ctx.pod_info ≡ some mode
  pub not_active : mode ≢ b'A'

choose_status-standby_side :
    (ctx : MainCtx) (rs : List (Option (Bytes × ℕ))) (side : IsStandbySide ctx)
    → Seen ctx.pod_info rs
    → choose_status ctx side.mode ≡ (if start_seen rs && ready_seen rs then standby else active)
unfolding choose_status
choose_status-standby_side ctx rs side seen = ground (arith, seen.start, seen.ready)

abbrev pub label_effects : PodInfo → Status → List Effect
label_effects pod status =
    ha_set_mode (str_eq (status_text status) (codes "active"))
    ∷ k8s_api_patch_pod_status pod (status_text status)
    ∷ []

-- A pod in order on a side that is not configured active calls itself standby exactly where the
-- latest word on its peer's `/start` is a 200 and that on `/ready` is a 200 or a failed request,
-- and active otherwise; the mode in shared memory agrees with the label.
pub main_update_pod_label-history :
    (ctx : MainCtx) (pod : PodInfo) (rs : List (Option (Bytes × ℕ)))
    → pod.peer_pod_start ≡ pos 0
    → pod.peer_pod_ready ≡ pos 0
    → ctx.pod_info ≡ after_replies pod rs
    → IsStandbySide ctx
    → main_update_pod_label ctx
      ≡ some
          (label_effects ctx.pod_info (if start_seen rs && ready_seen rs then standby else active))
unfolding main_update_pod_label
main_update_pod_label-history ctx pod rs s r e side =
    let seen : Seen ctx.pod_info rs = rw e (after_replies-Seen pod rs s r) in
    rw (main_update_pod_label, side.mode_is, choose_status-standby_side ctx rs side seen)
