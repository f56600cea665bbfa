-- ===== src/Topo/Node/Commute.antt =====
-- `node_proc_pod_send_info` of src/topo/node.c on two reports, in either order.
use k8s.Common.{
  Bytes, str_eq, ℕ, ◌≡◌, refl, sym, ◌∙◌, ◌≢◌, some, [], str_eq_ne, if◌then◌else◌, str_eq_iff,
  Option, arith,
}
use k8s.Elem.Canonical.{IsTable-ext}
use k8s.Elem.Lookup.{find}
use k8s.Elem.Order.{IsTable}
use k8s.Topo.Node.{NodeInfo, NodeList, assoc_info_get_from_pod, node_proc_pod_send_info}
use k8s.Topo.Node.Report.{merged, node_proc_pod_send_info-find}
use mathlib.Core.Path.{ap₂}

-- The table after a report, at a name.
report_at :
    (now : ℕ) {l : NodeList} (recv_msg : Bytes) {d : NodeInfo} (j : Bytes)
    → IsTable l
    → assoc_info_get_from_pod recv_msg ≡ some d
    → find (node_proc_pod_send_info now l recv_msg).0 j ≡ (
        if str_eq j d.name
        then some (merged (find l d.name) (record d { heartbeat_tm = now }))
        else find l j)
report_at now recv_msg j t e = (node_proc_pod_send_info-find now recv_msg j t e).0

-- What two reports did to different names, in both orders.
swap_names :
    (j a b : Bytes) (x y o : Option NodeInfo)
    → a ≢ b
    → (if str_eq j b then x else if str_eq j a then y else o)
      ≡ (if str_eq j a then y else if str_eq j b then x else o)
swap_names j a b x y o apart =
    ground (arith, str_eq_iff j a, str_eq_iff j b, str_eq_iff a b, str_eq_ne a b apart)

-- Reports of two pods with different names, received at any times and handled in either order, leave
-- the same list, element for element.
pub node_proc_pod_send_info_comm :
    (now later : ℕ) {l : NodeList} (a b : Bytes) {d e : NodeInfo}
    → IsTable l
    → assoc_info_get_from_pod a ≡ some d
    → assoc_info_get_from_pod b ≡ some e
    → d.name ≢ e.name
    → (node_proc_pod_send_info later (node_proc_pod_send_info now l a).0 b).0
      ≡ (node_proc_pod_send_info now (node_proc_pod_send_info later l b).0 a).0
node_proc_pod_send_info_comm now later {l} a b {d} {e} t da eb apart =
    let ta = (node_proc_pod_send_info-find now a [] t da).2 in
    let tb = (node_proc_pod_send_info-find later b [] t eb).2 in
    let de = str_eq_ne d.name e.name apart in
    let ed = str_eq_ne e.name d.name (λ q. apart (sym q)) in
    let kept_e = report_at now a e.name t da ∙ rw ed refl in
    let kept_d = report_at later b d.name t eb ∙ rw de refl in
    IsTable-ext (node_proc_pod_send_info-find later b [] ta eb).2
      (node_proc_pod_send_info-find now a [] tb da).2
      λ j.
        let after_a = report_at now a j t da in
        let after_b = report_at later b j t eb in
        let new_e = some (merged (find l e.name) (record e { heartbeat_tm = later })) in
        let new_d = some (merged (find l d.name) (record d { heartbeat_tm = now })) in
        report_at later b j ta eb
        ∙ ap₂
            (λ o r.
              if str_eq j e.name then some (merged o (record e { heartbeat_tm = later })) else r)
            kept_e after_a
        ∙ swap_names j d.name e.name new_e new_d (find l j) apart
        ∙ sym (
            report_at now a j tb da
            ∙ ap₂
                (λ o r.
                  if str_eq j d.name then some (merged o (record d { heartbeat_tm = now })) else r)
                kept_d after_b)
