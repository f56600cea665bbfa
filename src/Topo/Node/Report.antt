-- ===== src/Topo/Node/Report.antt =====
-- What a pod's report and a line of the server's answer do to the association table.
use mathlib.Core.Option
use mathlib.Core.Option
use k8s.Common.{
  str_eq_refl, ◌≡◌, inl, inr, true, Bool-cases, Option-cases, ◌⊎◌, false, none, some, arith, Bytes,
  str_eq, refl, ◌∙◌, Option, if◌then◌else◌, ℕ, ◌+◌, ◌<◌, [], ap, ltb,
}
use k8s.Elem.Lookup.{
  find, get_element-find, add_or_leave-find, update_element-find-some, replace-find,
}
use k8s.Elem.Order.{IsTable, add_or_leave-IsTable, rem_element-IsTable, update_element-IsTable}
use k8s.Topo.Node.{
  NodeInfo, NodeList, same_ips, name_by_pod, merge_pod_info, np_add, np_rep, np_uptm, NodeProcRes,
  np_fail, assoc_info_cleanup, assoc_info_get_from_pod, node_proc_pod_send_info, merge_omp_info,
}
use k8s.Elem.{add_or_leave, rem_element, update_element}
use k8s.Topo.Node.Expiry.{unless_silent, assoc_info_cleanup-find}

same_ips_refl : (d : NodeInfo) → same_ips d d ≡ true
unfolding same_ips
same_ips_refl d = rw (str_eq_refl d.mgnt_pri_ip, str_eq_refl d.serv_pri_ip)

-- The branches of `merge_pod_info`, by what the table has under the name of the report.
merge_pod_info-cases :
    {l : NodeList} (d : NodeInfo)
    → IsTable l
    → ((find l d.name ≡ none)
        × (merge_pod_info l d ≡ (add_or_leave l d.name (name_by_pod d), np_add)))
      ⊎ ((already : NodeInfo) × (find l d.name ≡ some already)
          × (((same_ips already d ≡ true)
                × (merge_pod_info l d ≡ (
                  update_element l d.name (λ e. record e { heartbeat_tm = d.heartbeat_tm }),
                  np_uptm,
                )))
              ⊎ ((same_ips already d ≡ false)
                  × (merge_pod_info l d ≡ (
                    add_or_leave
                        (rem_element l d.name)
                        d.name
                        (name_by_pod (record d { mgnt_port = already.mgnt_port })),
                    np_rep,
                  )))))
unfolding merge_pod_info
merge_pod_info-cases {l} d t = elim (Option-cases (find l d.name)) [
  | inl new ↦ inl (new, ground (arith, get_element-find d.name t, new))
  | inr (already, old) ↦ inr (
    already,
    old,
    elim (Bool-cases (same_ips already d)) [
      | inl same ↦ inl (same, ground (arith, get_element-find d.name t, old))
      | inr other ↦ inr (other, ground (arith, get_element-find d.name t, old))
    ],
  )
]

-- What the table has under the name of a report afterwards, and the result of the handler.
abbrev pub merged : Option NodeInfo → NodeInfo → NodeInfo
merged none d = name_by_pod d
merged (some already) d =
    if same_ips already d
    then record already { heartbeat_tm = d.heartbeat_tm }
    else name_by_pod (record d { mgnt_port = already.mgnt_port })

abbrev pub merge_result : Option NodeInfo → NodeInfo → NodeProcRes
merge_result none d = np_add
merge_result (some already) d = if same_ips already d then np_uptm else np_rep

merge_pod_info-find :
    {l : NodeList} (d : NodeInfo) (j : Bytes)
    → IsTable l
    → (find (merge_pod_info l d).0 j
        ≡ (if str_eq j d.name then some (merged (find l d.name) d) else find l j))
      × ((merge_pod_info l d).1 ≡ merge_result (find l d.name) d)
      × IsTable (merge_pod_info l d).0
merge_pod_info-find {l} d j t = elim (merge_pod_info-cases d t) [
  | inl (new, e) ↦
      rw (e, new)
        (
          add_or_leave-find d.name (name_by_pod d) j t new,
          refl,
          add_or_leave-IsTable d.name (name_by_pod d) t,
        )
  | inr (already, old, inl (same, e)) ↦
      rw (e, old, same)
        (update_element-find-some d.name _ j t old, refl, update_element-IsTable d.name _ t)
  | inr (already, old, inr (other, e)) ↦
      rw (e, old, other)
        (
          replace-find d.name _ j t,
          refl,
          add_or_leave-IsTable d.name _ (rem_element-IsTable d.name t),
        )
]

-- A report that parses changes the table at its own name only: a new name is added, a known one
-- with the same addresses gets the receive time and keeps the rest, and one with other addresses
-- is replaced but for its port. The result tells the three apart, and the invariant stays.
pub node_proc_pod_send_info-find :
    (now : ℕ) {l : NodeList} (recv_msg : Bytes) {d : NodeInfo} (j : Bytes)
    → IsTable l
    → assoc_info_get_from_pod recv_msg ≡ some d
    → let report = record d { heartbeat_tm = now } in
      let out = node_proc_pod_send_info now l recv_msg in
      (find out.0 j ≡ (if str_eq j d.name then some (merged (find l d.name) report) else find l j))
      × (out.1 ≡ merge_result (find l d.name) report)
      × IsTable out.0
unfolding node_proc_pod_send_info
node_proc_pod_send_info-find now recv_msg {d} j t e =
    rw (node_proc_pod_send_info, e) (merge_pod_info-find (record d { heartbeat_tm = now }) j t)

-- A report that does not parse leaves the table.
pub node_proc_pod_send_info-fail :
    (now : ℕ) (l : NodeList) (recv_msg : Bytes)
    → assoc_info_get_from_pod recv_msg ≡ none
    → node_proc_pod_send_info now l recv_msg ≡ (l, np_fail)
unfolding node_proc_pod_send_info
node_proc_pod_send_info-fail now l recv_msg e = rw (node_proc_pod_send_info, e)

pub node_proc_pod_send_info-IsTable :
    (now : ℕ) {l : NodeList} (recv_msg : Bytes)
    → IsTable l
    → IsTable (node_proc_pod_send_info now l recv_msg).0
node_proc_pod_send_info-IsTable now {l} recv_msg t =
    elim (Option-cases (assoc_info_get_from_pod recv_msg)) [
      | inl e ↦ rw (node_proc_pod_send_info-fail now l recv_msg e) t
      | inr (d, e) ↦ (node_proc_pod_send_info-find now recv_msg [] t e).2
    ]

merged_heartbeat : (o : Option NodeInfo) (d : NodeInfo) → (merged o d).heartbeat_tm ≡ d.heartbeat_tm
merged_heartbeat none d = ground arith
merged_heartbeat (some a) d = ground arith

-- What a pod reported at time `sent`, after the epoch, is in the table after a cleanup that runs
-- less than 60 seconds later; a cleanup that runs later removes the node.
pub report-cleanup :
    (sent now : ℕ) {l : NodeList} (recv_msg : Bytes) {d : NodeInfo}
    → IsTable l
    → assoc_info_get_from_pod recv_msg ≡ some d
    → 0 < sent
    → find (assoc_info_cleanup now (node_proc_pod_send_info sent l recv_msg).0).0 d.name ≡ (
        if ltb now (sent + 60)
        then some (merged (find l d.name) (record d { heartbeat_tm = sent }))
        else none)
unfolding Option.bind
report-cleanup sent now {l} recv_msg {d} t e after =
    let r = merged (find l d.name) (record d { heartbeat_tm = sent }) in
    let at_report = node_proc_pod_send_info-find sent recv_msg d.name t e in
    let found : find (node_proc_pod_send_info sent l recv_msg).0 d.name ≡ some r =
      at_report.0 ∙ ground (arith, str_eq_refl d.name) in
    let time : r.heartbeat_tm ≡ sent =
      merged_heartbeat (find l d.name) (record d { heartbeat_tm = sent }) in
    assoc_info_cleanup-find now d.name at_report.2
    ∙ ap (λ o. Option.bind o (unless_silent now)) found
    ∙ ground (arith, time)

-- The branches of `merge_omp_info`, by what the table has under the name of the line.
merge_omp_info-cases :
    {l : NodeList} (d : NodeInfo)
    → IsTable l
    → ((find l d.name ≡ none) × (merge_omp_info l d ≡ (add_or_leave l d.name d, np_add)))
      ⊎ ((already : NodeInfo) × (find l d.name ≡ some already)
          × (((same_ips already d ≡ true)
                × (merge_omp_info l d
                    ≡ (update_element l d.name (λ e. record e { chk_exist_flag = 1 }), np_uptm)))
              ⊎ ((same_ips already d ≡ false)
                  × (merge_omp_info l d ≡ (add_or_leave (rem_element l d.name) d.name d, np_rep)))))
unfolding merge_omp_info
merge_omp_info-cases {l} d t = elim (Option-cases (find l d.name)) [
  | inl new ↦ inl (new, ground (arith, get_element-find d.name t, new))
  | inr (already, old) ↦ inr (
    already,
    old,
    elim (Bool-cases (same_ips already d)) [
      | inl same ↦ inl (same, ground (arith, get_element-find d.name t, old))
      | inr other ↦ inr (other, ground (arith, get_element-find d.name t, old))
    ],
  )
]

-- What a client has under the name of a line of the answer afterwards.
abbrev pub merged_omp : Option NodeInfo → NodeInfo → NodeInfo
merged_omp none d = d
merged_omp (some already) d =
    if same_ips already d then record already { chk_exist_flag = 1 } else d

pub merge_omp_info-find :
    {l : NodeList} (d : NodeInfo) (j : Bytes)
    → IsTable l
    → (find (merge_omp_info l d).0 j
        ≡ (if str_eq j d.name then some (merged_omp (find l d.name) d) else find l j))
      × ((merge_omp_info l d).1 ≡ merge_result (find l d.name) d)
      × IsTable (merge_omp_info l d).0
merge_omp_info-find {l} d j t = elim (merge_omp_info-cases d t) [
  | inl (new, e) ↦
      rw (e, new) (add_or_leave-find d.name d j t new, refl, add_or_leave-IsTable d.name d t)
  | inr (already, old, inl (same, e)) ↦
      rw (e, old, same)
        (update_element-find-some d.name _ j t old, refl, update_element-IsTable d.name _ t)
  | inr (already, old, inr (other, e)) ↦
      rw (e, old, other)
        (
          replace-find d.name d j t,
          refl,
          add_or_leave-IsTable d.name d (rem_element-IsTable d.name t),
        )
]
