-- ===== src/Topo/Polling/Safe.antt =====
-- The event loop of a client of src/topo keeps its table, whatever the network brings.

use k8s.Common.{
  Bytes, ◌≡◌, refl, inl, inr, Option, none, some, List, [], ◌∷◌, arith, Bool-cases, Option-cases,
  c_string, false, ◌++◌, length, leb,
}
use k8s.Topo.Node.{NodeList}
use k8s.Topo.Context.{MainCtx, Outcome, cr_client, goes_on, topo_max_buffer}
use k8s.Topo.Run.{main_tick}
use k8s.Topo.Effect.{Effect, sendto}
use k8s.Topo.Polling.{second, ClientEvent, exchange, handle, poll, IsReadable, IsRead, AllRead}
use k8s.Topo.Udp.Client.{
  client_msg, send_msg_size, Exchange, client_answer, udp_client_proc, IsReporting,
  client_msg-length,
}
use k8s.Topo.Udp.Server.{SortNodes}
use k8s.Topo.Polling.Kept.{IsKept, client_recv-IsKept}

-- The callback goes on in the context with another table, which is kept.
abbrev GoesOn : MainCtx → Outcome → Type 0
GoesOn ctx out =
    (l : NodeList) × (effects : List Effect) × (out
      ≡ goes_on (record ctx { node_list = l }) effects)
    × IsKept l

client_answer-GoesOn :
    (iv_home : Option Bytes) (ctx : MainCtx) (before : List Effect) (answer : Option Bytes)
    → IsReadable answer
    → IsKept ctx.node_list
    → GoesOn ctx (client_answer iv_home ctx before answer)
unfolding client_answer
client_answer-GoesOn iv_home ctx before none fits s = (ctx.node_list, before, refl, s)
client_answer-GoesOn iv_home ctx before (some recv_msg) fits s =
    let read : leb topo_max_buffer (length (c_string recv_msg)) ≡ false = ground (arith, fits) in
    rw read (_, _, refl, client_recv-IsKept (c_string recv_msg) s)

udp_client_proc-GoesOn :
    (iv_home : Option Bytes) (ctx : MainCtx) (net : Exchange)
    → IsReporting ctx
    → IsReadable net.answer
    → IsKept ctx.node_list
    → GoesOn ctx (udp_client_proc iv_home ctx net)
unfolding udp_client_proc
udp_client_proc-GoesOn iv_home ctx net r fits s =
    let short : leb send_msg_size (length (client_msg ctx)) ≡ false =
      ground (arith, client_msg-length ctx r) in
    let stays : GoesOn ctx (goes_on ctx []) = (ctx.node_list, [], refl, s) in
    elim (Option-cases net.omp_addr) [
      | inl unknown ↦ rw (udp_client_proc, unknown) stays
      | inr (omp_addr, known) ↦ elim (Bool-cases net.has_socket) [
        | inr no_socket ↦ rw (udp_client_proc, known, no_socket) stays
        | inl socket ↦ elim (Bool-cases net.is_sent) [
          | inr unsent ↦ rw (udp_client_proc, known, socket, short, unsent) stays
          | inl went ↦
              rw (udp_client_proc, known, socket, short, went)
                (client_answer-GoesOn iv_home ctx (sendto (client_msg ctx) omp_addr ∷ []) net.answer
                  fits s)
        ]
      ]
    ]

module _ (qsort : SortNodes) (iv_home : Option Bytes) where
  handle-GoesOn :
      (ctx : MainCtx) (e : ClientEvent)
      → ctx.role ≡ cr_client
      → IsReporting ctx
      → IsRead e
      → IsKept ctx.node_list
      → GoesOn ctx (handle qsort iv_home ctx e)
  unfolding handle main_tick
  handle-GoesOn ctx (second now) role r fits s = rw (main_tick, role) (ctx.node_list, [], refl, s)
  handle-GoesOn ctx (exchange net) role r fits s = udp_client_proc-GoesOn iv_home ctx net r fits s

  -- A client whose own fields can be read back goes through every sequence of callbacks, whatever the
  -- network does and whatever bytes arrive as answers, as long as the text of each, with its NUL, fits
  -- the buffer that it is received in. It changes nothing but its table, and keeps it in order, each node under its own name and within its buffers.
  pub poll-IsKept :
      (es : List ClientEvent) (ctx : MainCtx) (effects : List Effect)
      → ctx.role ≡ cr_client
      → IsReporting ctx
      → AllRead es
      → IsKept ctx.node_list
      → (l : NodeList) × (after : List Effect) × (poll qsort iv_home es ctx effects
          ≡ goes_on (record ctx { node_list = l }) after)
        × IsKept l
  unfolding poll
  poll-IsKept [] ctx effects role r fits s = (ctx.node_list, effects, refl, s)
  poll-IsKept (e ∷ es) ctx effects role r fits s =
      let (l, more, goes, kept) = handle-GoesOn ctx e role r fits.0 s in
      rw (poll, goes)
        (poll-IsKept es (record ctx { node_list = l }) (effects ++ more) role
          (record { fields = r.fields; pod = r.pod }) fits.1 kept)
