-- ===== src/K8smgr/Label.antt =====
-- The peer pod's state as the replies to its probes tell it, and the label that the pod gives
-- itself: `http_recv_reply`, `main_update_pod_label`, `k8s_api_patch_pod_status`.
use k8s.K8smgr.{MainCtx, PodInfo}
use k8s.Common.{
  Bytes, codes, str_eq, ℕ, zero, suc, Bool, not, ◌&&◌, Option, none, some, List, [], ◌∷◌, ◌++◌, pos,
  negsuc, is_pos, is_zero, ◌==◌, if◌then◌else◌, length, leb,
}
use k8s.K8smgr.Http.{patch}
use k8s.K8smgr.Request.{to_log, HttpRequest, make_https_request_for_k8s}

-- `http_recv_reply`: `none` is a request that failed, else the uri and the response code. Of an
-- uri that the program does not ask for the body is only printed.
unfoldable pub http_recv_reply : Option (Bytes × ℕ) → PodInfo → PodInfo
http_recv_reply none pod = record pod { peer_pod_start = negsuc 0; peer_pod_ready = negsuc 0 }
http_recv_reply (some (uri, response_code)) pod =
    if str_eq uri (codes "/start")
    then record pod { peer_pod_start = pos (if response_code == 200 then 1 else 0) }
    else if str_eq uri (codes "/ready")
    then record pod { peer_pod_ready = pos (if response_code == 200 then 1 else 0) }
    else pod

pub data Status : Type 0 where
  force_not_ready proc_failed active standby : Status

unfoldable pub status_text : Status → Bytes
status_text force_not_ready = codes "force_not_ready"
status_text proc_failed = codes "proc_failed"
status_text active = codes "active"
status_text standby = codes "standby"

-- `s[i]` of a C string: its terminating NUL at the end, and a fault outside of it.
abbrev pub char_at : Bytes → ℕ → Option ℕ
char_at [] zero = some 0
char_at [] (suc i) = none
char_at (c ∷ cs) zero = some c
char_at (c ∷ cs) (suc i) = char_at cs i

unfoldable pub my_mode : PodInfo → Option ℕ
my_mode pod = elim pod.conf_my_side [ pos i ↦ char_at pod.conf_as_mode i | negsuc _ ↦ none ]

-- The `status` that `main_update_pod_label` chooses, by the mode of this side.
unfoldable pub choose_status : MainCtx → ℕ → Status
choose_status ctx status_mode =
    if ctx.force_not_ready == 1
    then force_not_ready
    else if not (ctx.my_sys_status == 1)
    then proc_failed
    else if status_mode == b'A'
    then active
    else if is_pos ctx.pod_info.peer_pod_start && not (is_zero ctx.pod_info.peer_pod_ready)
    then standby
    else active

-- A request to the API server of Kubernetes, and a write of the mode into shared memory.
pub data Effect : Type 0 where
  https_request : HttpRequest → Effect
  ha_set_mode : (is_active : Bool) → Effect
  -- `sprintf` of a text that is longer than its buffer; what the process does then is not known
  overruns : (text : Bytes) → Effect

-- The buffers of the paths, the pod's name and the peer's URL have this many bytes.
abbrev pub text_size : ℕ
text_size = 1024

unfoldable pub k8s_api_patch_pod_status : PodInfo → Bytes → Effect
unfolding make_https_request_for_k8s
k8s_api_patch_pod_status pod status =
    let path =
      codes "/api/v1/namespaces/" ++ pod.my_pod_namespace ++ codes "/pods/" ++ pod.my_pod_name in
    if leb text_size (length path)
    then overruns path
    else https_request (
        make_https_request_for_k8s pod pod.k8s_service_host pod.k8s_service_port patch path 1 to_log
          (some (codes "Content-Type")) (some (codes "application/merge-patch+json"))
          (some
            (codes "{ \"metadata\": { \"labels\": { \"status\": \"" ++ status ++ codes "\" } } }")))

-- `none` is a read outside of `conf_as_mode`.
unfoldable pub main_update_pod_label : MainCtx → Option (List Effect)
main_update_pod_label ctx = elim (my_mode ctx.pod_info) [
  | none ↦ none
  | some status_mode ↦
      let status = status_text (choose_status ctx status_mode) in
      some (
        ha_set_mode (str_eq status (codes "active"))
        ∷ k8s_api_patch_pod_status ctx.pod_info status
        ∷ [])
]
