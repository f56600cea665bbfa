-- ===== src/K8smgr.antt =====
-- src/k8smgr/main.c: the manager of a pod, which watches the pod's processes, answers the probes of
-- Kubernetes over HTTP, watches the peer pod and labels the pod. This file has the state.
pub mod Watched
pub mod Alive
pub mod Hang
pub mod Label
pub mod Pair
pub mod Duo
pub mod Http
pub mod Probe
pub mod Live
pub mod Procs
pub mod Init
pub mod Request
pub mod Boot
pub mod System
mod Tests
mod StartTests
mod SystemTests
use k8s.Elem.{Element}
use k8s.Common.{Bytes, ℕ, List, ℤ, ◌==◌, if◌then◌else◌, ◌+◌}

-- `SYSCONF_MAX_APPL_NUM` of src/libexternal/sysconf.h
abbrev pub sysconf_max_appl_num : ℕ
sysconf_max_appl_num = 75

abbrev pub k8smgr_hang_intvl : ℕ
k8smgr_hang_intvl = 3

-- `T_keepalive` of src/libexternal/keepalivelib.h: shared memory, in which each process counts up
-- its `cnt`.
pub record Keepalive : Type 0 where
  pub cnt : ℕ → ℕ
  pub oldcnt : ℕ → ℕ
  pub retry : ℕ → ℕ

abbrev pub update : (ℕ → ℕ) → ℕ → ℕ → ℕ → ℕ
update f i v j = if j == i then v else f j

-- `proc_ctx_t`, without its event.
pub record ProcCtx : Type 0 where
  pub proc_name : Bytes
  pub keep_index : ℕ
  pub alive_status : ℤ
  pub force_status : ℕ

abbrev pub ProcList : Type 0
ProcList = List (Element ProcCtx)

-- `pod_info_t`
pub record PodInfo : Type 0 where
  pub my_pod_name : Bytes
  pub my_service_name : Bytes
  pub my_pod_namespace : Bytes
  pub peer_pod_url : Bytes
  pub peer_pod_start : ℤ
  pub peer_pod_ready : ℤ
  pub conf_as_mode : Bytes
  pub conf_my_side : ℤ
  pub k8s_service_host : Bytes
  pub k8s_service_port : ℤ
  pub k8s_acc_token : Bytes
  pub k8s_acc_token_bearer : Bytes

-- `main_ctx_t`, without the handles of libevent and of the TLS library.
pub record MainCtx : Type 0 where
  pub force_not_ready : ℕ
  pub my_sys_status : ℕ
  pub pod_info : PodInfo
  pub proc_list : ProcList

-- What the manager relies on: a call of `keepalivelib_increase` counts up the counter of the process
-- in shared memory.
abbrev pub increase : ℕ → Keepalive → Keepalive
increase i k = record k { cnt = update k.cnt i (k.cnt i + 1) }
