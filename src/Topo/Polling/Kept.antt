-- ===== src/Topo/Polling/Kept.antt =====
-- What the table of a client of src/topo keeps, whatever the network brings.
use mathlib.Core.Option
use mathlib.Core.Option.{some-injective}
use k8s.Common.{
  Bytes, str_eq, str_eq_iff, ℕ, ◌+◌, ◌≡◌, refl, inl, inr, Option, none, some, List, [], ◌∷◌, arith,
  is_nil, scan_fields, scan_fields-length, strtok, if◌then◌else◌, Bool-cases, Option-cases,
}
use k8s.Elem.Lookup.{find}
use k8s.Elem.Order.{IsTable, nil, table}
use k8s.Topo.Node.{
  NodeInfo, NodeList, blank_node, assoc_info_unset_chk_flag, assoc_info_remove_uncheck_node, stored,
  assoc_info_get_from_omp, same_ips, merge_omp_info, node_proc_omp_send_info,
}
use k8s.Topo.Node.Expiry.{
  assoc_info_unset-find, assoc_info_unset-IsTable, assoc_info_remove-find,
  assoc_info_remove-IsTable,
}
use k8s.Topo.Node.Report.{merged_omp, merge_omp_info-find}
use k8s.Topo.Udp.{is_update, client_lines, client_recv}
use k8s.Topo.Udp.Bounds.{IsBounded}
use k8s.Topo.Init.{empty_list}

-- The table is in order, and each node stands under its own name and fits its buffers.
pub record IsKept (l : NodeList) : Type 0 where
  pub is_table : IsTable l
  pub nodes : (k : Bytes) (d : NodeInfo) → find l k ≡ some d → (d.name ≡ k) × IsBounded d

-- The table of a client that starts.
pub empty_list-IsKept : IsKept empty_list
unfolding find k8s.Elem.new_element
empty_list-IsKept = record { is_table = table nil; nodes = λ k d e. absurd (cc e) }

abbrev omp_node : List Bytes → NodeInfo
omp_node fs = record blank_node {
  name = stored fs 0;
  type_name = stored fs 1;
  group = stored fs 2;
  mgnt_pri_ip = stored fs 3;
  mgnt_sec_ip = stored fs 4;
  mgnt_port = stored fs 5;
  serv_pri_ip = stored fs 6;
  serv_sec_ip = stored fs 7;
  info_name = stored fs 8;
  vnfc_id = stored fs 9;
}

assoc_info_get_from_omp-IsBounded :
    (line : Bytes) {d : NodeInfo} → assoc_info_get_from_omp line ≡ some d → IsBounded d
unfolding assoc_info_get_from_omp
assoc_info_get_from_omp-IsBounded line {d} e =
    let short = scan_fields-length 9 line in
    elim (Bool-cases (is_nil (scan_fields 9 line))) [
      | inl y ↦ ground (arith, y, e)
      | inr n ↦
          let is = some-injective (omp_node (scan_fields 9 line)) d (rw n at e) in
          rw (← is) (record {
            name = short 0;
            type_name = short 1;
            group = short 2;
            mgnt_pri_ip = short 3;
            mgnt_sec_ip = short 4;
            mgnt_port = short 5;
            serv_pri_ip = short 6;
            serv_sec_ip = short 7;
            info_name = short 8;
            vnfc_id = short 9;
          })
    ]

flagged-IsBounded :
    (d : NodeInfo) (n : ℕ) → IsBounded d → IsBounded (record d { chk_exist_flag = n })
flagged-IsBounded d n b = record {
  name = b.name;
  type_name = b.type_name;
  group = b.group;
  mgnt_pri_ip = b.mgnt_pri_ip;
  mgnt_sec_ip = b.mgnt_sec_ip;
  mgnt_port = b.mgnt_port;
  serv_pri_ip = b.serv_pri_ip;
  serv_sec_ip = b.serv_sec_ip;
  info_name = b.info_name;
  vnfc_id = b.vnfc_id;
}

-- The node under the name of a line that was merged.
merged_omp-kept :
    (o : Option NodeInfo) (d : NodeInfo)
    → ((a : NodeInfo) → o ≡ some a → (a.name ≡ d.name) × IsBounded a)
    → IsBounded d
    → ((merged_omp o d).name ≡ d.name) × IsBounded (merged_omp o d)
merged_omp-kept none d old b = (refl, b)
merged_omp-kept (some a) d old b = elim (Bool-cases (same_ips a d)) [
  | inl same ↦ rw same ((old a refl).0, flagged-IsBounded a 1 (old a refl).1)
  | inr moved ↦ rw moved (refl, b)
]

merge_omp_info-IsKept :
    {l : NodeList} (d : NodeInfo) → IsKept l → IsBounded d → IsKept (merge_omp_info l d).0
merge_omp_info-IsKept {l} d s b = record {
  is_table = (merge_omp_info-find d [] s.is_table).2;
  nodes = λ k a there.
      let at = (merge_omp_info-find d k s.is_table).0 in
      let merged = merged_omp-kept (find l d.name) d (s.nodes d.name) b in
      elim (Bool-cases (str_eq k d.name)) [
        | inl own ↦
            let is =
              some-injective (merged_omp (find l d.name) d) a (ground (arith, at, own, there)) in
            rw (← is, (str_eq_iff k d.name).0 own) merged
        | inr other ↦ s.nodes k a (ground (arith, at, other, there))
      ];
}

node_proc_omp_send_info-IsKept :
    {l : NodeList} (line : Bytes) → IsKept l → IsKept (node_proc_omp_send_info l line).0
unfolding node_proc_omp_send_info
node_proc_omp_send_info-IsKept {l} line s = elim (Option-cases (assoc_info_get_from_omp line)) [
  | inl e ↦ rw (node_proc_omp_send_info, e) s
  | inr (d, e) ↦
      rw (node_proc_omp_send_info, e)
        (merge_omp_info-IsKept (record d { chk_exist_flag = 1 }) s
          (flagged-IsBounded d 1 (assoc_info_get_from_omp-IsBounded line e)))
]

client_lines-IsKept :
    (lines : List Bytes) (c : NodeList × ℕ) → IsKept c.0 → IsKept (client_lines lines c).0
unfolding client_lines
client_lines-IsKept [] c s = s
client_lines-IsKept (line ∷ lines) c s =
    let r = node_proc_omp_send_info c.0 line in
    client_lines-IsKept lines (r.0, if is_update r.1 then c.1 + 1 else c.1)
      (node_proc_omp_send_info-IsKept line s)

unset-IsKept : {l : NodeList} → IsKept l → IsKept (assoc_info_unset_chk_flag l)
unfolding Option.bind
unset-IsKept {l} s = record {
  is_table = assoc_info_unset-IsTable s.is_table;
  nodes = λ k d there.
      let at = assoc_info_unset-find k s.is_table in
      elim (Option-cases (find l k)) [
        | inl new ↦ ground (arith, at, new, there)
        | inr (a, old) ↦
            let is =
              some-injective (record a { chk_exist_flag = 0 }) d (ground (arith, at, old, there)) in
            rw (← is) ((s.nodes k a old).0, flagged-IsBounded a 0 (s.nodes k a old).1)
      ];
}

remove-IsKept : {l : NodeList} → IsKept l → IsKept (assoc_info_remove_uncheck_node l).0
unfolding Option.bind
remove-IsKept {l} s = record {
  is_table = assoc_info_remove-IsTable s.is_table;
  nodes = λ k d there. s.nodes k d (ground (arith, assoc_info_remove-find k s.is_table, there));
}

-- A client that reads any answer at all keeps its table.
pub client_recv-IsKept :
    {l : NodeList} (recv_msg : Bytes) → IsKept l → IsKept (client_recv l recv_msg).0
unfolding client_recv
client_recv-IsKept {l} recv_msg s =
    remove-IsKept (
      client_lines-IsKept (strtok b'\n' recv_msg) (assoc_info_unset_chk_flag l, 0) (unset-IsKept s))
