-- ===== src/Topo/Polling.antt =====
-- The event loop of a client: the callbacks that `proc_start` of src/topo/main.c registers, called in
-- any order.
pub mod Kept
pub mod Safe
use k8s.Common.{Bytes, ℕ, Option, List, [], ◌∷◌, ◌++◌, c_string, ◌<◌, none, some, length}
use k8s.Topo.Context.{MainCtx, Outcome, goes_on, faults, topo_max_buffer}
use k8s.Topo.Run.{main_tick}
use k8s.Topo.Effect.{Effect}
use k8s.Topo.Udp.Client.{Exchange, udp_client_proc}
use k8s.Topo.Udp.Server.{SortNodes}

pub data ClientEvent : Type 0 where
  -- the timer, at a time
  second : ℕ → ClientEvent
  -- the exchange with the server, with what the network did
  exchange : Exchange → ClientEvent

-- The text of an answer leaves a byte for its NUL in the buffer that it is received in.
abbrev pub IsReadable : Option Bytes → Type 0
IsReadable none = Unit
IsReadable (some recv_msg) = length (c_string recv_msg) < topo_max_buffer

abbrev pub IsRead : ClientEvent → Type 0
IsRead (second now) = Unit
IsRead (exchange net) = IsReadable net.answer

abbrev pub AllRead : List ClientEvent → Type 0
AllRead [] = Unit
AllRead (e ∷ es) = IsRead e × AllRead es

module _ (qsort : SortNodes) (iv_home : Option Bytes) where
  unfoldable pub handle : MainCtx → ClientEvent → Outcome
  handle ctx (second now) = let r = main_tick qsort now iv_home ctx in goes_on r.0 r.1
  handle ctx (exchange net) = udp_client_proc iv_home ctx net

  -- With the effects so far. After a fault nothing more is known.
  unfoldable pub poll : List ClientEvent → MainCtx → List Effect → Outcome
  poll [] ctx effects = goes_on ctx effects
  poll (e ∷ es) ctx effects = elim (handle ctx e) [
    | goes_on ctx' more ↦ poll es ctx' (effects ++ more)
    | faults ↦ faults
  ]
