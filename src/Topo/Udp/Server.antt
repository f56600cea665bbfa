-- ===== src/Topo/Udp/Server.antt =====
-- `udp_server_proc` of src/topo/udp.c: a pod's report is merged into the table and answered with the
-- whole table, which must fit its buffer.
use k8s.Common.{
  Bytes, c_string, ℕ, Ordering, Option, some, List, [], ◌∷◌, ◌++◌, length, leb, if◌then◌else◌,
}
use k8s.Topo.Context.{MainCtx, Outcome, topo_max_buffer, goes_on, faults}
use k8s.Topo.Effect.{Effect, SockAddr}
use k8s.Topo.Node.{NodeInfo, np_add, np_rep, np_fail, assoc_info_reply_msg, node_proc_pod_send_info}
use k8s.Topo.Node.Print.{assoc_info_print, node_info_print, notify_to_ixpc}
use k8s.Topo.Udp.Fromto.{
  Datagram, sizeof_in, Received, received, recv_failed, sent, send_failed, udp_send_fromto,
}

-- The C library's `qsort`, given the comparison.
abbrev pub SortNodes : Type 0
SortNodes = (NodeInfo → NodeInfo → Ordering) → List NodeInfo → List NodeInfo

-- The effects of a table that has changed: both files are written and IXPC is notified.
unfoldable pub changed_effects : SortNodes → Option Bytes → MainCtx → List Effect
changed_effects qsort iv_home ctx =
    assoc_info_print iv_home ctx.node_list
    ∷ node_info_print qsort iv_home ctx.node_list
    ∷ notify_to_ixpc ctx.ixpc_qid ctx.name
    ∷ []

-- The answer from the address `to`, of length `fl`. The text and its NUL are written to a buffer of
-- `TOPO_MAX_BUFFER` bytes.
unfoldable pub send_answer : MainCtx → List Effect → Datagram → SockAddr → Outcome
send_answer ctx before d to =
    let reply_msg = assoc_info_reply_msg ctx.node_list [] in
    if leb topo_max_buffer (length reply_msg)
    then faults
    else elim (udp_send_fromto reply_msg (some (to, sizeof_in)) d.sender) [
      | sent e ↦ goes_on ctx (before ++ e ∷ [])
      | send_failed _ ↦ goes_on ctx before
    ]

-- The datagram, its C string in a buffer of `TOPO_MAX_BUFFER` zero bytes, and the time. A text that
-- leaves no byte for its NUL is read past the end of the buffer. A report that adds or replaces
-- a node writes the files and notifies before the answer.
unfoldable pub udp_server_proc : SortNodes → ℕ → Option Bytes → MainCtx → Received → Outcome
udp_server_proc qsort now iv_home ctx (recv_failed _) = goes_on ctx []
udp_server_proc qsort now iv_home ctx (received d to tolen) =
    let r = node_proc_pod_send_info now ctx.node_list (c_string d.payload) in
    let ctx' = record ctx { node_list = r.0 } in
    if leb topo_max_buffer (length (c_string d.payload)) then faults else elim r.1 [
      | np_fail ↦ goes_on ctx' []
      | np_add ↦ send_answer ctx' (changed_effects qsort iv_home ctx') d to
      | np_rep ↦ send_answer ctx' (changed_effects qsort iv_home ctx') d to
      | _ ↦ send_answer ctx' [] d to
    ]
