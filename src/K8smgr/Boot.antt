-- ===== src/K8smgr/Boot.antt =====
-- `main_init_httpserver` and `main_initialize`: how the manager comes up. What the libraries return
-- is a record.
pub mod Safe
pub mod Ready
use k8s.K8smgr.System.{System}
use k8s.Common.{
  Bytes, codes, ℕ, Bool, not, Option, none, some, List, [], ◌∷◌, all, ℤ, pos, negsuc, if◌then◌else◌,
}
use k8s.Elem.Order.{root_node}
use k8s.K8smgr.{Keepalive, PodInfo}
use k8s.K8smgr.Http.{Method, get, patch}
use k8s.K8smgr.Init.{Start, World, main_init_getenv}
use k8s.K8smgr.Label.{Effect, force_not_ready}
use k8s.K8smgr.Procs.{create_keepalive_list}
use k8s.K8smgr.Request.{k8smsg_http_listen}

-- The callbacks of the HTTP server, and where `evhttp_set_cb` and `evhttp_set_gencb` put them.
pub data Handler : Type 0 where
  reply_pod_start reply_pod_ready print_pod_status reply_default : Handler

pub record HttpServer : Type 0 where
  pub methods : List Method
  pub callbacks : List (Bytes × Handler)
  pub fallback : Handler
  pub port : ℕ
  -- `l_onoff` and `l_linger`
  pub linger : ℕ × ℕ

-- With whether the port can be bound; `none` is the -1.
unfoldable pub main_init_httpserver : Bool → Option HttpServer
main_init_httpserver is_bound =
    if is_bound
    then some (record {
      methods = get ∷ patch ∷ [];
      callbacks =
          (codes "/start", reply_pod_start)
          ∷ (codes "/ready", reply_pod_ready)
          ∷ (codes "/print/status", print_pod_status)
          ∷ [];
      fallback = reply_default;
      port = k8smsg_http_listen;
      linger = (1, 0);
    })
    else none

-- The timers of the manager itself; each runs every second.
pub data Timer : Type 0 where
  tick_timer peer_timer label_timer : Timer

pub record Libraries : Type 0 where
  pub keepalivelib_init : ℤ
  pub world : World
  pub is_bound : Bool
  pub has_shm : Bool
  -- the section APPLICATIONS of the sysconfig file, if there is one
  pub section : Option Bytes
  -- whether the timer of the process of an index, and of the manager, can be added
  pub event_add : ℕ → Bool
  pub add_timer : Timer → Bool
  pub keepalive : Keepalive

pub data Booted : Type 0 where
  booted : System → HttpServer → List Timer → List Effect → Booted
  boot_fails boot_crashes : Booted

abbrev pub timers : List Timer
timers = tick_timer ∷ peer_timer ∷ label_timer ∷ []

-- The part of `main_initialize` behind `main_init_getenv`; the context was zero before.
unfoldable pub boot_with : Libraries → PodInfo → List Effect → Booted
boot_with w pod effects = elim (main_init_httpserver w.is_bound) [
  | none ↦ boot_fails
  | some server ↦
      if not w.has_shm
      then boot_fails
      else elim (create_keepalive_list w.event_add w.section w.keepalive (root_node ∷ [])) [
        | none ↦ boot_fails
        | some ((shm, proc_list), num) ↦
            if all w.add_timer timers
            then booted
                (record {
                  ctx = record {
                    force_not_ready = 0;
                    my_sys_status = 0;
                    pod_info = pod;
                    proc_list = proc_list;
                  };
                  shm = shm;
                })
                server timers effects
            else boot_fails
      ]
]

unfoldable pub boot_from : Libraries → Start → Booted
boot_from w Start.fails = boot_fails
boot_from w Start.crashes = boot_crashes
boot_from w (Start.starts pod effects) = boot_with w pod effects

-- With the index of this manager in shared memory, below 0 where there is none.
unfoldable pub boot_at : Libraries → ℤ → Booted
boot_at w (negsuc _) = boot_fails
boot_at w (pos _) = boot_from w (main_init_getenv w.world)

unfoldable pub main_initialize : Libraries → Booted
main_initialize w = boot_at w w.keepalivelib_init
