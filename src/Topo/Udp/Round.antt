-- ===== src/Topo/Udp/Round.antt =====
-- A whole round of the exchange of src/topo/udp.c: a pod reports itself to the server, and reads
-- the server's answer.
use mathlib.Core.Option
use k8s.Topo.Udp.Client.{
  client_answer, client_msg, send_msg_size, Exchange, udp_client_proc, reported, updated_effects,
  IsReporting, assoc_info_get_from_pod-client_msg, client_msg-length,
}
use k8s.Common.{
  Bytes, c_string, str_eq, ℕ, ◌<◌, ◌≡◌, refl, true, false, Option, some, List, [], ◌∷◌, arith,
  length, leb, if◌then◌else◌, ◌≤◌, ap, ◌∙◌, ◌++◌,
}
use k8s.Elem.Lookup.{find}
use k8s.Topo.Context.{MainCtx, goes_on, topo_max_buffer}
use k8s.Topo.Effect.{Effect, SockAddr, sendto, af_inet, sendmsg_from}
use k8s.Topo.Node.{NodeInfo, NodeList, assoc_info_reply_msg, assoc_info_get_from_pod}
use k8s.Topo.Node.Report.{merged, node_proc_pod_send_info-find}
use k8s.Topo.Udp.{client_recv}
use k8s.Topo.Udp.Fromto.{Datagram, received}
use k8s.Topo.Udp.Serve.{after_report, udp_server_proc-report}
use k8s.Elem.Order.{IsTable}
use k8s.Topo.Udp.Sync.{IsServed, synced, client_recv-find}
use k8s.Topo.Udp.Bounds.{AllBounded, answer-fits}
use k8s.Topo.Udp.Server.{SortNodes, udp_server_proc}

-- What the server has under a name after the report of a client.
abbrev pub after_round : ℕ → MainCtx → NodeList → Bytes → Option NodeInfo
after_round now client l j =
    if str_eq j client.name
    then some (merged (find l client.name) (record (reported client) { heartbeat_tm = now }))
    else find l j

-- The network of a round: the report arrives, and so does the answer.
abbrev pub answered_by : SockAddr → Bytes → Exchange
answered_by omp_addr recv_msg = record {
  omp_addr = some omp_addr;
  has_socket = true;
  is_sent = true;
  answer = some recv_msg;
}

-- The answer of the server to the report of a client, with the time.
abbrev pub answer_to : ℕ → MainCtx → Datagram → Bytes
answer_to now server d = assoc_info_reply_msg (after_report now server d).node_list []

client_side :
    (iv_home : Option Bytes) (client : MainCtx) (omp_addr : SockAddr) (recv_msg : Bytes)
    → length (client_msg client) < send_msg_size
    → c_string recv_msg ≡ recv_msg
    → length recv_msg < topo_max_buffer
    → (effects : List Effect) × (udp_client_proc iv_home client (answered_by omp_addr recv_msg)
        ≡ goes_on
            (record client { node_list = (client_recv client.node_list recv_msg).0 })
            (sendto (client_msg client) omp_addr ∷ effects))
unfolding udp_client_proc client_answer
client_side iv_home client omp_addr recv_msg fits text room =
    let read : leb topo_max_buffer (length recv_msg) ≡ false = ground (arith, room) in
    let short : leb send_msg_size (length (client_msg client)) ≡ false = ground (arith, fits) in
    let r = client_recv client.node_list recv_msg in
    (updated_effects iv_home (record client { node_list = r.0 }) r.1, rw (short, text, read) refl)

-- After a round in which the report and the answer arrive, the server has merged the report, and
-- the client has the nodes that the server now has and no other, itself among them: its own entry
-- under a name where the two addresses agree, and else the ten fields that the server has. The
-- client's fields can be read back, both tables are in order, the nodes of the server can be read back
-- and are at most seven, and no text has a NUL.
pub udp_round :
    (qsort : SortNodes) (now : ℕ) (iv_home : Option Bytes) (server client : MainCtx) (d : Datagram)
    (to : SockAddr) (tolen : ℕ)
    → d.payload ≡ client_msg client
    → c_string (client_msg client) ≡ client_msg client
    → IsReporting client
    → IsTable server.node_list
    → IsTable client.node_list
    → IsServed (after_report now server d).node_list
    → AllBounded (after_report now server d).node_list
    → length (after_report now server d).node_list ≤ 8
    → to.family ≡ af_inet
    → c_string (answer_to now server d) ≡ answer_to now server d
    → (before after : List Effect) × (l : NodeList) × (udp_server_proc qsort now iv_home server
          (received d to tolen)
        ≡ goes_on
            (after_report now server d)
            (before ++ sendmsg_from (answer_to now server d) to d.sender ∷ []))
      × (udp_client_proc iv_home client (answered_by to (answer_to now server d))
          ≡ goes_on (record client { node_list = l }) (sendto (client_msg client) to ∷ after))
      × ((j : Bytes)
          → find l j
            ≡ Option.map
                (synced (find client.node_list j))
                (after_round now client server.node_list j))
udp_round qsort now iv_home server client d to tolen payload text reporting ts tc served bounded few
      inet answer_text =
    let parsed : assoc_info_get_from_pod (c_string d.payload) ≡ some (reported client) =
      rw (payload, text) (assoc_info_get_from_pod-client_msg client reporting) in
    let merged_in =
      λ (j : Bytes). node_proc_pod_send_info-find now (c_string d.payload) j ts parsed in
    let room = answer-fits (merged_in []).2 bounded few in
    let served_by =
      udp_server_proc-report qsort now iv_home server d to tolen ts parsed
        (rw (payload, text) (omega (arith, client_msg-length client reporting))) room inet in
    let (after, client_goes) =
      client_side iv_home client to (answer_to now server d) (client_msg-length client reporting)
        answer_text room in
    (
      _,
      after,
      (client_recv client.node_list (answer_to now server d)).0,
      served_by,
      client_goes,
      (λ j.
          client_recv-find {c = client.node_list} j (merged_in j).2 served tc
          ∙ ap (Option.map (synced (find client.node_list j))) (merged_in j).0),
    )
