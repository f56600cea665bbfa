-- ===== src/Topo/Tests.antt =====
-- The topology process at concrete inputs.
use k8s.Topo.Samples.{
  a_info, server_list, server_list-IsTable, report_msg, report_info, report_parsed, a_fields,
  a_word,
}
use k8s.Elem.Order.{IsTable}
use k8s.Common.{codes, ◌≡◌, some, str_eq, arith, ◌+◌, none, ltb, if◌then◌else◌}
use k8s.Topo.Node.{
  assoc_info_line, assoc_info_cleanup, assoc_info_get_from_omp, node_proc_pod_send_info,
}
use k8s.Topo.Node.Message.{public_part, assoc_info_get_from_omp-assoc_info_line}
use k8s.Elem.Lookup.{find}
use k8s.Topo.Node.Report.{merged, merge_result, node_proc_pod_send_info-find, report-cleanup}

node_proc_pod_send_info-find_example :
    let report = record report_info { heartbeat_tm = 130 } in
    let out = node_proc_pod_send_info 130 server_list report_msg in
    (find out.0 (codes "MP_1") ≡ (
      if str_eq (codes "MP_1") report_info.name
      then some (merged (find server_list report_info.name) report)
      else find server_list (codes "MP_1")))
    × (out.1 ≡ merge_result (find server_list report_info.name) report)
    × IsTable out.0
node_proc_pod_send_info-find_example =
    node_proc_pod_send_info-find 130 report_msg (codes "MP_1") server_list-IsTable report_parsed

report-cleanup_example :
    find
      (assoc_info_cleanup 200 (node_proc_pod_send_info 130 server_list report_msg).0).0
      report_info.name
    ≡ (if ltb 200 (130 + 60)
        then some
            (merged (find server_list report_info.name) (record report_info { heartbeat_tm = 130 }))
        else none)
report-cleanup_example =
    report-cleanup 130 200 report_msg server_list-IsTable report_parsed (omega arith)

assoc_info_get_from_omp-assoc_info_line_example :
    assoc_info_get_from_omp (assoc_info_line a_info) ≡ some (public_part a_info)
assoc_info_get_from_omp-assoc_info_line_example =
    assoc_info_get_from_omp-assoc_info_line a_info a_fields a_word
