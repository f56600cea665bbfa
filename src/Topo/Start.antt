-- ===== src/Topo/Start.antt =====
-- `proc_start` and `main` of src/topo/main.c: the callbacks that the event loop of a process has.
pub mod Sizes
pub mod Up
pub mod Loops
use mathlib.Core.Option
use k8s.Topo.Context.{MainCtx, ClusterRole, cr_client, cr_server}
use k8s.Common.{Bool, ◌&&◌, Option, none, some, List, [], ◌∷◌, if◌then◌else◌}
use k8s.Topo.Init.{World, initialize}
use k8s.Topo.Effect.{Effect}

-- A callback and what it is called for: each second, or a datagram at the socket.
pub data Callback : Type 0 where
  main_tick_each_second udp_client_each_second udp_server_on_read : Callback

-- The second callback of a role.
unfoldable pub udp_callback : ClusterRole → Callback
udp_callback cr_client = udp_client_each_second
udp_callback cr_server = udp_server_on_read

-- With whether an event can be added; `none` is `proc_exit`.
unfoldable pub proc_start : (Callback → Bool) → MainCtx → Option (List Callback)
unfolding udp_callback
proc_start event_add ctx =
    let udp = udp_callback ctx.role in
    if event_add main_tick_each_second && event_add udp
    then some (main_tick_each_second ∷ udp ∷ [])
    else none

-- `main`, up to the event loop.
unfoldable pub main :
    World → (Callback → Bool) → MainCtx → Option ((MainCtx × List Effect) × List Callback)
main w event_add zero_ctx = elim (initialize w zero_ctx) [
  | none ↦ none
  | some r ↦ Option.map (λ callbacks. (r, callbacks)) (proc_start event_add r.0)
]
