-- ===== src/Topo/UdpTests.antt =====
-- The exchange of src/topo/udp.c at concrete inputs.
use k8s.Topo.Samples.{
  a_info, server_list, server_list-IsTable, client_list, client_list-IsTable, report_info,
  report_parsed, field, heard-IsBounded, only_node, server_list-IsServed, server_list-AllBounded,
  server_addr, pod_addr, report_datagram, server_ctx, client_ctx, a_fields, a_word, a_info-IsPublic,
}
use mathlib.Core.Option
use mathlib.Core.Option.{some-injective}
use k8s.Elem.Order.{node, root_node}
use k8s.Common.{
  Bytes, codes, strcmp, ◌≡◌, refl, some, [], ◌∷◌, AllFields, str_eq, inl, inr, true, false, arith,
  length, is_nil, all, is_space, not_bar, IsField, IsWord, leb, Bool-cases, str_eq_iff, sym, ◌+◌,
  Option, none, ◌++◌, pos, ltb, if◌then◌else◌, ap, ◌∙◌, c_string, ◌<◌, List,
}
use k8s.Topo.Node.{
  NodeInfo, NodeList, blank_node, assoc_info_line, assoc_info_get_from_pod, assoc_info_cleanup,
  assoc_info_reply_msg, assoc_info_remove_uncheck_node, assoc_info_get_from_omp,
  node_proc_pod_send_info,
}
use k8s.Elem.Lookup.{find}
use k8s.Topo.Udp.Sync.{synced, client_recv-find, IsServed}
use k8s.Topo.Udp.Bounds.{AllBounded, send_answer-fits}
use k8s.Topo.Context.{goes_on, topo_max_buffer}
use k8s.Topo.Effect.{sendmsg_from, Effect, sendto}
use k8s.Topo.Node.Report.{merge_result}
use k8s.Topo.Udp.{client_recv, is_update}
use k8s.Topo.Udp.Client.{
  client_msg, IsReporting, reported, assoc_info_get_from_pod-client_msg, udp_client_proc,
}
use k8s.Topo.Udp.Fromto.{
  other_cmsg, sizeof_in, received, udp_recv_fromto, sent, udp_send_fromto,
  udp_send_fromto-udp_recv_fromto,
}
use k8s.Topo.Udp.Server.{send_answer, changed_effects, udp_server_proc}
use k8s.Topo.Samples.{
  a_info, server_list, server_list-IsTable, client_list, client_list-IsTable, report_info,
  report_parsed, field, server_list-IsServed, server_list-AllBounded, server_addr, pod_addr,
  report_datagram, server_ctx, client_ctx,
}
use k8s.Topo.Udp.Serve.{after_report, udp_server_proc-report}
use k8s.Topo.Udp.Round.{after_round, answered_by, answer_to, udp_round}

client_recv-find_example :
    find (client_recv client_list (assoc_info_reply_msg server_list [])).0 (codes "MP_1")
    ≡ Option.map (synced (find client_list (codes "MP_1"))) (find server_list (codes "MP_1"))
client_recv-find_example =
    client_recv-find (codes "MP_1") server_list-IsTable server_list-IsServed client_list-IsTable

pub client_ctx-IsReporting : IsReporting client_ctx
unfolding is_space
client_ctx-IsReporting = record {
  fields = (
    field (codes "MP_1") refl refl refl,
    (
      field (codes "MP") refl refl refl,
      (
        field (codes "G") refl refl refl,
        (
          field (codes "10.0.0.1") refl refl refl,
          (
            field (codes "10.1.0.1") refl refl refl,
            (field (codes "0x1389") refl refl refl, (field (codes "node-a") refl refl refl, tt)),
          ),
        ),
      ),
    ),
  );
  pod = record { no_space = refl; fits = omega arith };
}

assoc_info_get_from_pod-client_msg_example :
    assoc_info_get_from_pod (client_msg client_ctx) ≡ some (reported client_ctx)
assoc_info_get_from_pod-client_msg_example =
    assoc_info_get_from_pod-client_msg client_ctx client_ctx-IsReporting

send_answer-fits_example :
    send_answer server_ctx [] report_datagram server_addr
    ≡ goes_on server_ctx
        ([] ++ sendmsg_from (assoc_info_reply_msg server_list []) server_addr pod_addr ∷ [])
send_answer-fits_example =
    send_answer-fits server_ctx [] report_datagram server_addr server_list-IsTable
      server_list-AllBounded (omega arith) refl

udp_send_fromto-udp_recv_fromto_example :
    (udp_recv_fromto 16 (some server_addr) (some report_datagram)
      ≡ received report_datagram (record server_addr { addr = codes "10.0.0.3" }) sizeof_in)
    × (udp_send_fromto
          (codes "R")
          (some (record server_addr { addr = codes "10.0.0.3" }, sizeof_in))
          pod_addr
        ≡ sent (sendmsg_from (codes "R") (record server_addr { addr = codes "10.0.0.3" }) pod_addr))
udp_send_fromto-udp_recv_fromto_example =
    udp_send_fromto-udp_recv_fromto 16 server_addr report_datagram (other_cmsg ∷ []) []
      (codes "10.0.0.3") (codes "R") refl (omega arith) refl refl

serve_parsed : assoc_info_get_from_pod (c_string report_datagram.payload) ≡ some report_info
unfolding c_string
serve_parsed = report_parsed

abbrev heard_list : NodeList
heard_list = root_node ∷ node a_info.name (record a_info { heartbeat_tm = 130 }) ∷ []

heard_is : (after_report 130 server_ctx report_datagram).node_list ≡ heard_list
unfolding node_proc_pod_send_info assoc_info_get_from_pod k8s.Common.take_set c_string
    k8s.Topo.Node.merge_pod_info k8s.Elem.get_element k8s.Topo.Node.same_ips k8s.Elem.update_element
heard_is = refl

heard_list-AllBounded : AllBounded heard_list
unfolding AllBounded
heard_list-AllBounded k d e =
    rw (sym (only_node (record a_info { heartbeat_tm = 130 }) k d e).1) (heard-IsBounded 130)

serve_fits : length (c_string report_datagram.payload) < topo_max_buffer
unfolding c_string
serve_fits = omega arith

serve_room :
    length (assoc_info_reply_msg (after_report 130 server_ctx report_datagram).node_list [])
    < topo_max_buffer
unfolding assoc_info_reply_msg
serve_room = rw heard_is (omega arith)

udp_server_proc-report_example :
    let ctx' = after_report 130 server_ctx report_datagram in
    let known = find server_list report_info.name in
    udp_server_proc (λ c l. l) 130 none server_ctx (received report_datagram server_addr 16)
    ≡ goes_on ctx' (
        (if is_update (merge_result known (record report_info { heartbeat_tm = 130 }))
          then changed_effects (λ c l. l) none ctx'
          else [])
        ++ sendmsg_from (assoc_info_reply_msg ctx'.node_list []) server_addr pod_addr ∷ [])
udp_server_proc-report_example =
    udp_server_proc-report (λ c l. l) 130 none server_ctx report_datagram server_addr 16
      server_list-IsTable serve_parsed serve_fits serve_room refl

heard_list-IsServed : IsServed heard_list
unfolding IsServed assoc_info_line
heard_list-IsServed k d e =
    let o = only_node (record a_info { heartbeat_tm = 130 }) k d e in
    rw (sym o.1)
      (o.0, record { fields = a_fields; vnfc_id = a_word; one_line = a_info-IsPublic.one_line })

-- The sample report is the one of the sample client, and no text has a NUL.
report_is : report_datagram.payload ≡ client_msg client_ctx
unfolding client_msg
report_is = refl

report_text : c_string (client_msg client_ctx) ≡ client_msg client_ctx
unfolding client_msg c_string
report_text = refl

answer_text :
    c_string (answer_to 130 server_ctx report_datagram) ≡ answer_to 130 server_ctx report_datagram
unfolding c_string assoc_info_reply_msg
answer_text = rw heard_is refl

udp_round_example :
    (before after : List Effect) × (l : NodeList) × (udp_server_proc
        (λ c l. l)
        130
        none
        server_ctx
        (received report_datagram server_addr 16)
      ≡ goes_on (after_report 130 server_ctx report_datagram) (
          before
          ++ sendmsg_from (answer_to 130 server_ctx report_datagram) server_addr pod_addr ∷ []))
    × (udp_client_proc none client_ctx
          (answered_by server_addr (answer_to 130 server_ctx report_datagram))
        ≡ goes_on
            (record client_ctx { node_list = l })
            (sendto (client_msg client_ctx) server_addr ∷ after))
    × ((j : Bytes)
        → find l j
          ≡ Option.map (synced (find client_list j)) (after_round 130 client_ctx server_list j))
udp_round_example =
    udp_round (λ c l. l) 130 none server_ctx client_ctx report_datagram server_addr 16 report_is
      report_text client_ctx-IsReporting server_list-IsTable client_list-IsTable
      (rw heard_is heard_list-IsServed) (rw heard_is heard_list-AllBounded)
      (rw heard_is (omega arith)) refl answer_text
