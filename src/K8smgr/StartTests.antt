-- ===== src/K8smgr/StartTests.antt =====
-- The start of the manager at concrete inputs.
use mathlib.Core.Option
use k8s.Common.{
  Bytes, codes, str_eq, ℕ, ◌/◌, ◌≡◌, refl, ◌≢◌, true, Option, none, some, [], ◌∷◌, ◌++◌, pos,
  if◌then◌else◌, List,
}
use k8s.Elem.Order.{node, root_node, OnSome}
use k8s.K8smgr.{Keepalive, ProcList, PodInfo, update}
use k8s.K8smgr.Init.{Start, starts, peer_index, main_init_getenv, peer_index-peer_index, World}
use k8s.K8smgr.Procs.{new_proc, create_keepalive_list, IsNumbered, create_keepalive_list-IsNumbered}
use k8s.K8smgr.Boot.{
  reply_pod_start, reply_pod_ready, print_pod_status, reply_default, HttpServer,
  main_init_httpserver, Libraries, Booted, booted, timers, main_initialize,
}
use k8s.K8smgr.Http.{get, patch}
use k8s.K8smgr.Label.{active, status_text, Effect, k8s_api_patch_pod_status, force_not_ready}
use k8s.K8smgr.System.{System}

abbrev zero_keepalive : Keepalive
zero_keepalive = record { cnt = λ i. 0; oldcnt = λ i. 0; retry = λ i. 0 }

abbrev section : Bytes
section =
    codes "# name"
    ++ b'\n' ∷ b'\n' ∷ codes "MMIB 1"
    ++ b'\n' ∷ codes "  IXPC"
    ++ b'\n' ∷ codes "[END]"

create_keepalive_list-IsNumbered_example :
    OnSome
      (λ (r : (Keepalive × ProcList) × ℕ). IsNumbered r.1 r.0.1)
      (create_keepalive_list (λ i. true) (some section) zero_keepalive (root_node ∷ []))
create_keepalive_list-IsNumbered_example =
    create_keepalive_list-IsNumbered (λ i. true) (some section) zero_keepalive

-- The two processes of the section, in the order of their names.
two_procs :
    Option.map {B = ProcList × ℕ}
      (λ (r : (Keepalive × ProcList) × ℕ). (r.0.1, r.1))
      (create_keepalive_list (λ i. true) (some section) zero_keepalive (root_node ∷ []))
    ≡ some (
      root_node
          ∷ node (codes "IXPC") (new_proc (codes "IXPC") 1)
          ∷ node (codes "MMIB") (new_proc (codes "MMIB") 0)
          ∷ [],
      2,
    )
unfolding create_keepalive_list k8s.Common.c_string k8s.K8smgr.Procs.create_proc_status_check
    k8s.Elem.add_element k8s.K8smgr.Procs.scan_token k8s.Common.take_set k8s.Common.skip_space
    k8s.Common.is_space
two_procs = refl

abbrev env : Bytes → Option Bytes
env v =
    if str_eq v (codes "MY_POD_NAME")
    then some (codes "k8s-test-1")
    else if str_eq v (codes "MY_SERVICE_NAME")
    then some (codes "svc")
    else if str_eq v (codes "KUBERNETES_SERVICE_HOST")
    then some (codes "10.0.0.1")
    else some (codes "443")

abbrev files : Bytes → Option Bytes
files f = if str_eq f (codes "/data/AS_MODE") then none else some (codes "text")

abbrev world : World
world = record { getenv = env; file = files }

abbrev pub lib : Libraries
lib = record {
  keepalivelib_init = pos 0;
  world = world;
  is_bound = true;
  has_shm = true;
  section = some section;
  event_add = λ i. true;
  add_timer = λ t. true;
  keepalive = zero_keepalive;
}

abbrev url_of : Start → Bytes
url_of (starts pod es) = pod.peer_pod_url
url_of _ = []

-- The second replica looks at the first.
peer_of_1 : url_of (main_init_getenv world) ≡ codes "k8s-test-0.svc.text.svc.cluster.local"
unfolding main_init_getenv str_eq k8s.Libs.strrchr k8s.K8smgr.Label.my_mode k8s.Common.atoi
    k8s.K8smgr.Init.as_mode k8s.K8smgr.Init.peer_url k8s.Common.print_int peer_index
    k8s.Common.c_string
peer_of_1 = refl

abbrev pub start_pod : PodInfo
start_pod = record {
  my_pod_name = codes "k8s-test-1";
  my_service_name = codes "svc";
  my_pod_namespace = codes "text";
  peer_pod_url = codes "k8s-test-0.svc.text.svc.cluster.local";
  peer_pod_start = pos 0;
  peer_pod_ready = pos 0;
  conf_as_mode = codes "AA";
  conf_my_side = pos 1;
  k8s_service_host = codes "10.0.0.1";
  k8s_service_port = pos 443;
  k8s_acc_token = codes "text";
  k8s_acc_token_bearer = codes "Bearer text";
}

abbrev pub start_effects : List Effect
start_effects = k8s_api_patch_pod_status start_pod (status_text active) ∷ []

world_starts : main_init_getenv world ≡ starts start_pod start_effects
unfolding main_init_getenv str_eq k8s.Libs.strrchr k8s.K8smgr.Label.my_mode k8s.Common.atoi
    k8s.K8smgr.Init.as_mode k8s.K8smgr.Init.peer_url k8s.Common.print_int peer_index
    k8s.Common.c_string
world_starts = refl

abbrev pub start_system : System
start_system = record {
  ctx = record {
    force_not_ready = 0;
    my_sys_status = 0;
    pod_info = start_pod;
    proc_list =
        root_node
        ∷ node (codes "IXPC") (new_proc (codes "IXPC") 1)
        ∷ node (codes "MMIB") (new_proc (codes "MMIB") 0)
        ∷ [];
  };
  shm = record zero_keepalive { retry = update (update zero_keepalive.retry 0 0) 1 0 };
}

abbrev pub server : HttpServer
server = record {
  methods = get ∷ patch ∷ [];
  callbacks =
      (codes "/start", reply_pod_start)
      ∷ (codes "/ready", reply_pod_ready)
      ∷ (codes "/print/status", print_pod_status)
      ∷ [];
  fallback = reply_default;
  port = 32768;
  linger = (1, 0);
}

pub lib_boots : main_initialize lib ≡ booted start_system server timers start_effects
unfolding main_initialize main_init_httpserver str_eq k8s.Libs.strrchr k8s.K8smgr.Label.my_mode
    k8s.Common.atoi k8s.K8smgr.Init.as_mode k8s.K8smgr.Init.peer_url k8s.Common.print_int peer_index
    k8s.Common.c_string create_keepalive_list k8s.K8smgr.Procs.create_proc_status_check
    k8s.Elem.add_element k8s.K8smgr.Procs.scan_token k8s.Common.take_set k8s.Common.skip_space
    k8s.Common.is_space k8s.K8smgr.Boot.boot_at k8s.K8smgr.Boot.boot_from main_init_getenv
    k8s.K8smgr.Boot.boot_with
lib_boots = refl
