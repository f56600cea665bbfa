-- ===== src/K8smgr/System.antt =====
-- The manager as a whole: what the event loop of src/k8smgr/main.c calls, in any order, and the
-- processes that count up in shared memory meanwhile. A step that crashes is `none`. The handlers of
-- `/start` and `/print/status` and the requests to the peer change nothing and have no event.
pub mod Keeps
pub mod Safety
pub mod Stuck
pub mod Unready
pub mod Beat
pub mod Ready
pub mod Timeline
use mathlib.Core.Option
use k8s.Common.{Bytes, ℕ, ◌+◌, Option, none, some, List, [], ◌∷◌}
use k8s.Elem.{update_element}
use k8s.Elem.Lookup.{find}
use k8s.K8smgr.{Keepalive, update, MainCtx, increase}
use k8s.K8smgr.Alive.{check_proc_alive, main_tick}
use k8s.K8smgr.Http.{Method, Outcome, returns, crashes, http_reply_pod_ready, http_reply_default}
use k8s.K8smgr.Label.{http_recv_reply, main_update_pod_label}

pub record System : Type 0 where
  pub ctx : MainCtx
  pub shm : Keepalive

pub data Event : Type 0 where
  -- a process counts up its counter, the one of this index
  count_up : ℕ → Event
  -- the timer of the process of this name
  watch : Bytes → Event
  -- `main_tick`, whose own counter is a `count_up` of its index, and `main_update_pod_label`
  tick update_label : Event
  -- a reply to `main_check_peer_pod`
  peer_reply : Option (Bytes × ℕ) → Event
  -- a request for `/ready`, and one for a path with no handler of its own
  ready : Method → Option Bytes → Event
  request : Method → Option Bytes → Option (Option Bytes) → Event

-- `check_proc_alive` through the pointer to the data of an element of the list.
unfoldable pub watch_proc : Bytes → System → System
watch_proc name s = elim (find s.ctx.proc_list name) [
  | none ↦ s
  | some p ↦
      let r = check_proc_alive s.shm p in
      record {
        shm = r.0;
        ctx = record s.ctx { proc_list = update_element s.ctx.proc_list name (λ _. r.1) };
      }
]

abbrev pub after_outcome : Keepalive → Outcome → Option System
after_outcome shm (returns ctx replies) = some (record { ctx = ctx; shm = shm })
after_outcome shm (crashes replies) = none

module _ (evhttp_uridecode : Bytes → Option Bytes) where
  -- `none` is a crash. A path of the label request that is longer than its buffer is an effect of
  -- `main_update_pod_label`, and is not looked at here.
  unfoldable pub step : System → Event → Option System
  step s (count_up i) = some (record s { shm = increase i s.shm })
  step s (watch name) = some (watch_proc name s)
  step s tick = some (record s { ctx = main_tick s.ctx })
  step s update_label = Option.map (λ _. s) (main_update_pod_label s.ctx)
  step s (peer_reply r) =
      some (record s { ctx = record s.ctx { pod_info = http_recv_reply r s.ctx.pod_info } })
  step s (ready method status) = after_outcome s.shm (http_reply_pod_ready s.ctx method status)
  step s (request method status path) =
      after_outcome s.shm (http_reply_default evhttp_uridecode s.ctx method status path)

  unfoldable pub run : List Event → System → Option System
  run [] s = some s
  run (e ∷ es) s = elim (step s e) [ none ↦ none | some s' ↦ run es s' ]
