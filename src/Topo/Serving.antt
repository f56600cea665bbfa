-- ===== src/Topo/Serving.antt =====
-- The event loop of a server: the callbacks that `proc_start` of src/topo/main.c registers, called
-- in any order.
pub mod Order
pub mod ByName
pub mod Log
pub mod Few
use mathlib.Core.Option.{some-injective}
use k8s.Topo.Run.{
  main_tick, NotOmp, Reach, tick, report, next, here, IsServing, server-IsServing, omp,
  start-IsServing,
}
use k8s.Common.{
  Bytes, c_string, ℕ, ◌≤◌, ◌≡◌, inl, inr, Option, List, [], ◌∷◌, ◌++◌, arith, length, leb,
  Bool-cases, some, refl, ◌⊎◌, str_eq, ap, append-nil,
}
use k8s.Topo.Context.{MainCtx, Outcome, cr_server, topo_max_buffer, goes_on, faults}
use k8s.Topo.Effect.{Effect, SockAddr}
use k8s.Topo.Node.{
  NodeList, assoc_info_reply_msg, NodeProcRes, np_none, np_add, np_rep, np_del, np_uptm, np_fail,
  node_proc_pod_send_info, assoc_info_cleanup,
}
use k8s.Topo.Udp.Fromto.{
  Datagram, Received, received, recv_failed, udp_send_fromto, sizeof_in, Sent, sent, send_failed,
}
use k8s.Topo.Udp.Server.{SortNodes, send_answer, udp_server_proc, changed_effects}
use k8s.Topo.Init.{omp_node_info, server_context, server_context-node_list}
use k8s.Elem.Lookup.{find}
use k8s.Topo.Udp.Bounds.{IsBounded, AllBounded}
use k8s.Topo.Udp.Room.{Reach-room}

pub data ServerEvent : Type 0 where
  -- the timer, at a time
  second : ℕ → ServerEvent
  -- the socket, with what is received at a time
  datagram : ℕ → Received → ServerEvent

-- No datagram is a report about a node of the OMP's name.
abbrev pub IsOther : ServerEvent → Type 0
IsOther (second now) = Unit
IsOther (datagram now (recv_failed code)) = Unit
IsOther (datagram now (received d to tolen)) = NotOmp (c_string d.payload)

abbrev pub AllOther : List ServerEvent → Type 0
AllOther [] = Unit
AllOther (e ∷ es) = IsOther e × AllOther es

-- What an event does to the table.
unfoldable pub table_after : ServerEvent → NodeList → NodeList
table_after (second now) l = (assoc_info_cleanup now l).0
table_after (datagram now (recv_failed code)) l = l
table_after (datagram now (received d to tolen)) l =
    (node_proc_pod_send_info now l (c_string d.payload)).0

unfoldable pub tables_after : List ServerEvent → NodeList → NodeList
tables_after [] l = l
tables_after (e ∷ es) l = tables_after es (table_after e l)

-- The answer about a table does not fit its buffer.
abbrev pub IsLong : NodeList → Type 0
IsLong l = topo_max_buffer ≤ length (assoc_info_reply_msg l [])

-- The text of a datagram leaves no byte for its NUL in the buffer that it is received in.
abbrev pub IsOverlong : ServerEvent → Type 0
IsOverlong (second now) = ⊥
IsOverlong (datagram now (recv_failed code)) = ⊥
IsOverlong (datagram now (received d to tolen)) = topo_max_buffer ≤ length (c_string d.payload)

abbrev pub FirstOverlong : List ServerEvent → Type 0
FirstOverlong [] = ⊥
FirstOverlong (e ∷ es) = IsOverlong e

-- A fault behind the events `before`, whose table is this, with these events to come: the answer
-- about the table does not fit, or the next datagram does not.
abbrev pub IsFault : NodeList → List ServerEvent → Type 0
IsFault l after = IsLong l ⊎ FirstOverlong after

-- The event loop goes on in this context, or it ends in a fault of which `F` holds.
abbrev pub GoesOr : Type 0 → MainCtx → Outcome → Type 0
GoesOr F ctx out = ((effects : List Effect) × (out ≡ goes_on ctx effects)) ⊎ ((out ≡ faults) × F)

module _ (ctx : MainCtx) (d : Datagram) (to : SockAddr) where
  sent_or_not :
      (before : List Effect) (x : Sent)
      → (effects : List Effect) × ((elim x [
        | sent e ↦ goes_on ctx (before ++ e ∷ [])
        | send_failed _ ↦ goes_on ctx before
      ])
          ≡ goes_on ctx effects)
  sent_or_not before (sent e) = (_, refl)
  sent_or_not before (send_failed e) = (_, refl)

  send_answer-cases :
      (before : List Effect) → GoesOr (IsLong ctx.node_list) ctx (send_answer ctx before d to)
  unfolding send_answer
  send_answer-cases before =
      let reply_msg = assoc_info_reply_msg ctx.node_list [] in
      elim (Bool-cases (leb topo_max_buffer (length reply_msg))) [
        | inl long ↦ inr (rw (send_answer, long) refl, ground (arith, long))
        | inr short ↦ inl (
            rw (send_answer, short)
              (sent_or_not before (udp_send_fromto reply_msg (some (to, sizeof_in)) d.sender)))
      ]

  by_result :
      (changed : List Effect) (x : NodeProcRes)
      → GoesOr (IsLong ctx.node_list) ctx (elim x [
        | np_fail ↦ goes_on ctx []
        | np_add ↦ send_answer ctx changed d to
        | np_rep ↦ send_answer ctx changed d to
        | _ ↦ send_answer ctx [] d to
      ])
  by_result changed np_fail = inl ([], refl)
  by_result changed np_add = send_answer-cases changed
  by_result changed np_rep = send_answer-cases changed
  by_result changed np_none = send_answer-cases []
  by_result changed np_del = send_answer-cases []
  by_result changed np_uptm = send_answer-cases []

module _ (qsort : SortNodes) (iv_home : Option Bytes) where
  unfoldable pub handle : MainCtx → ServerEvent → Outcome
  handle ctx (second now) = let r = main_tick qsort now iv_home ctx in goes_on r.0 r.1
  handle ctx (datagram now r) = udp_server_proc qsort now iv_home ctx r

  -- With the effects so far. After a fault nothing more is known.
  unfoldable pub serve : List ServerEvent → MainCtx → List Effect → Outcome
  serve [] ctx effects = goes_on ctx effects
  serve (e ∷ es) ctx effects = elim (handle ctx e) [
    | goes_on ctx' more ↦ serve es ctx' (effects ++ more)
    | faults ↦ faults
  ]

  -- A callback of a server does to the table what its event says, and faults only where the datagram
  -- or the answer about the table does not fit.
  handle-cases :
      (ctx : MainCtx) (e : ServerEvent)
      → ctx.role ≡ cr_server
      → let l = table_after e ctx.node_list in
        GoesOr (IsLong l ⊎ IsOverlong e) (record ctx { node_list = l }) (handle ctx e)
  unfolding handle main_tick udp_server_proc table_after
  handle-cases ctx (second now) role = rw (main_tick, role) (inl (_, refl))
  handle-cases ctx (datagram now (recv_failed code)) role = inl ([], refl)
  handle-cases ctx (datagram now (received d to tolen)) role =
      let r = node_proc_pod_send_info now ctx.node_list (c_string d.payload) in
      let ctx' = record ctx { node_list = r.0 } in
      elim (Bool-cases (leb topo_max_buffer (length (c_string d.payload)))) [
        | inl over ↦ inr (rw (udp_server_proc, over) refl, inr (ground (arith, over)))
        | inr fits ↦ elim (by_result ctx' d to (changed_effects qsort iv_home ctx') r.1) [
          | inl (effects, went) ↦ inl (effects, rw (udp_server_proc, fits) went)
          | inr (faulted, long) ↦ inr (rw (udp_server_proc, fits) faulted, inl long)
        ]
      ]

  -- A run of a server, whose events do to the table what they say, faults only where the answer about
  -- the table that a first part of them leads to does not fit, or the datagram that comes next.
  pub serve-cases :
      (es : List ServerEvent) (ctx : MainCtx) (effects : List Effect)
      → ctx.role ≡ cr_server
      → GoesOr
          ((before after : List ServerEvent) × (es ≡ before ++ after)
            × IsFault (tables_after before ctx.node_list) after)
          (record ctx { node_list = tables_after es ctx.node_list })
          (serve es ctx effects)
  unfolding serve tables_after
  serve-cases [] ctx effects role = inl (effects, refl)
  serve-cases (e ∷ es) ctx effects role = elim (handle-cases ctx e role) [
    | inr (faulted, inl long) ↦ inr (rw (serve, faulted) refl, (e ∷ [], es, refl, inl long))
    | inr (faulted, inr over) ↦ inr (rw (serve, faulted) refl, ([], e ∷ es, refl, inr over))
    | inl (more, went) ↦
        let ctx' = record ctx { node_list = table_after e ctx.node_list } in
        elim (serve-cases es ctx' (effects ++ more) role) [
          | inl (effects', goes) ↦ inl (effects', rw (serve, went) goes)
          | inr (faulted, (before, after, parts, long)) ↦
              inr (rw (serve, went) faulted, (e ∷ before, after, ap (λ fs. e ∷ fs) parts, long))
        ]
  ]
