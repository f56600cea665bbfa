-- ===== src/Topo/Udp/Serve.antt =====
-- What `udp_server_proc` of src/topo/udp.c does with a report, as a whole.
use k8s.Common.{
  Bytes, c_string, ℕ, ◌≡◌, refl, ◌∙◌, ◌⊎◌, inl, inr, Option, none, some, List, [], ◌∷◌, ◌++◌,
  length, if◌then◌else◌, Bool-cases, ◌<◌, false, arith, leb,
}
use k8s.Elem.Lookup.{find}
use k8s.Elem.Order.{IsTable}
use k8s.Topo.Context.{MainCtx, goes_on, topo_max_buffer}
use k8s.Topo.Effect.{Effect, af_inet, SockAddr, sendmsg_from}
use k8s.Topo.Node.{
  NodeInfo, np_add, np_rep, np_uptm, assoc_info_reply_msg, assoc_info_get_from_pod, same_ips,
  node_proc_pod_send_info,
}
use k8s.Topo.Node.Report.{merge_result, node_proc_pod_send_info-find}
use k8s.Topo.Udp.{is_update}
use k8s.Topo.Udp.Bounds.{send_answer-sends}
use k8s.Topo.Udp.Fromto.{Datagram, received}
use k8s.Topo.Udp.Server.{SortNodes, changed_effects, udp_server_proc}

merge_result-cases :
    (o : Option NodeInfo) (d : NodeInfo)
    → (merge_result o d ≡ np_add) ⊎ (merge_result o d ≡ np_rep) ⊎ (merge_result o d ≡ np_uptm)
merge_result-cases none d = inl refl
merge_result-cases (some a) d = elim (Bool-cases (same_ips a d)) [
  | inl same ↦ inr (inr (rw same refl))
  | inr other ↦ inr (inl (rw other refl))
]

-- The table of the server after a report.
abbrev pub after_report : ℕ → MainCtx → Datagram → MainCtx
after_report now ctx d = record ctx {
  node_list = (node_proc_pod_send_info now ctx.node_list (c_string d.payload)).0;
}

-- A server that receives a report over IPv4 that parses, where the text of the report and the answer,
-- each with its NUL, fit their buffers of 10240 bytes, goes on with
-- the report merged, and answers the sender with the table after the merge, from the address that
-- the report came to. It first writes both files and notifies IXPC where the name was not in the
-- table or had other addresses, and does neither where it was heard of again.
pub udp_server_proc-report :
    (qsort : SortNodes) (now : ℕ) (iv_home : Option Bytes) (ctx : MainCtx) (d : Datagram)
    (to : SockAddr) (tolen : ℕ) {info : NodeInfo}
    → IsTable ctx.node_list
    → assoc_info_get_from_pod (c_string d.payload) ≡ some info
    → length (c_string d.payload) < topo_max_buffer
    → length (assoc_info_reply_msg (after_report now ctx d).node_list []) < topo_max_buffer
    → to.family ≡ af_inet
    → let ctx' = after_report now ctx d in
      let known = find ctx.node_list info.name in
      udp_server_proc qsort now iv_home ctx (received d to tolen)
      ≡ goes_on ctx' (
          (if is_update (merge_result known (record info { heartbeat_tm = now }))
            then changed_effects qsort iv_home ctx'
            else [])
          ++ sendmsg_from (assoc_info_reply_msg ctx'.node_list []) to d.sender ∷ [])
unfolding udp_server_proc is_update
udp_server_proc-report qsort now iv_home ctx d to tolen {info} t e fits room inet =
    let merged_in = node_proc_pod_send_info-find now (c_string d.payload) info.name t e in
    let known = find ctx.node_list info.name in
    let read : leb topo_max_buffer (length (c_string d.payload)) ≡ false = ground (arith, fits) in
    let answer =
      λ (before : List Effect). send_answer-sends (after_report now ctx d) before d to room inet in
    elim (merge_result-cases known (record info { heartbeat_tm = now })) [
      | inl a ↦ rw (udp_server_proc, read, merged_in.1 ∙ a, a) (answer _)
      | inr (inl a) ↦ rw (udp_server_proc, read, merged_in.1 ∙ a, a) (answer _)
      | inr (inr a) ↦ rw (udp_server_proc, read, merged_in.1 ∙ a, a) (answer [])
    ]
