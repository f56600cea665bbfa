-- ===== src/Topo/Node.antt =====
-- src/topo/node.c and `node_info_t` of src/topo/topo.h: the association table as an element list of
-- `NodeInfo`, and the operations on it. A `char[128]` holds a C string, and `time(NULL)` is an
-- argument.
pub mod Message
pub mod Report
pub mod Expiry
pub mod Commute
pub mod Print
use k8s.Common.{
  ℕ, Bytes, codes, str_eq, ◌+◌, ◌-◌, Bool, ◌&&◌, Option, none, some, List, [], ◌∷◌, ◌++◌, get_or,
  is_nil, scan_fields, print_fields, leb, ◌==◌, if◌then◌else◌,
}
use k8s.Elem.{
  Element, Verdict, keep, remove, list_element, add_or_leave, get_element, rem_element,
  update_element,
}

pub record NodeInfo : Type 0 where
  pub name : Bytes
  pub type_name : Bytes
  pub group : Bytes
  pub mgnt_pri_ip : Bytes
  pub mgnt_sec_ip : Bytes
  pub mgnt_port : Bytes
  pub serv_pri_ip : Bytes
  pub serv_sec_ip : Bytes
  pub info_name : Bytes
  pub vnfc_id : Bytes
  pub node_name : Bytes
  pub pod_name : Bytes
  pub chk_exist_flag : ℕ
  pub heartbeat_tm : ℕ

abbrev pub NodeList : Type 0
NodeList = List (Element NodeInfo)

-- `memset(node_info, 0x00, sizeof(node_info_t))`
abbrev pub blank_node : NodeInfo
blank_node = record {
  name = [];
  type_name = [];
  group = [];
  mgnt_pri_ip = [];
  mgnt_sec_ip = [];
  mgnt_port = [];
  serv_pri_ip = [];
  serv_sec_ip = [];
  info_name = [];
  vnfc_id = [];
  node_name = [];
  pod_name = [];
  chk_exist_flag = 0;
  heartbeat_tm = 0;
}

abbrev pub null_word : Bytes
null_word = codes "NULL"

abbrev pub assoc_clear_tm : ℕ
assoc_clear_tm = 60

pub data NodeProcRes : Type 0 where
  np_none np_add np_rep np_del np_uptm : NodeProcRes
  -- the -1 of `node_proc_pod_send_info`
  np_fail : NodeProcRes

-- The callbacks of this file leave an element with no key or no data alone.
abbrev pub on_node {ℓ} :
    {A : Type ℓ}
    → (Bytes → NodeInfo → A → Verdict NodeInfo × A)
    → Element NodeInfo
    → A
    → Verdict NodeInfo × A
on_node f elem arg = elim elem.key [
  | none ↦ (keep elem, arg)
  | some k ↦ elim elem.payload [ none ↦ (keep elem, arg) | some d ↦ f k d arg ]
]

abbrev pub element_of : Bytes → NodeInfo → Element NodeInfo
element_of k d = record { key = some k; payload = some d }

-- The argument is `clear_count`.
unfoldable pub assoc_info_clean_cb : ℕ → Element NodeInfo → ℕ → Verdict NodeInfo × ℕ
assoc_info_clean_cb curr_tm = on_node λ k d clear_count.
    if d.heartbeat_tm == 0
    then (keep (element_of k d), clear_count)
    else if leb assoc_clear_tm (curr_tm - d.heartbeat_tm)
    then (remove, clear_count + 1)
    else (keep (element_of k d), clear_count)

unfoldable pub assoc_info_cleanup : ℕ → NodeList → NodeList × ℕ
unfolding list_element assoc_info_clean_cb
assoc_info_cleanup now l = list_element l (assoc_info_clean_cb now) 0

-- The line of a node in the server's answer. `mgnt_port` is an array, so its address is never
-- below 0 and the test on it always passes.
unfoldable pub assoc_info_line : NodeInfo → Bytes
assoc_info_line d =
    print_fields
      (d.name ∷ d.type_name ∷ d.group ∷ d.mgnt_pri_ip ∷ d.mgnt_sec_ip ∷ d.mgnt_port ∷ d.serv_pri_ip
        ∷ d.serv_sec_ip ∷ d.info_name ∷ [])
      d.vnfc_id

-- `sprintf(buffer + strlen(buffer), …)` appends to what the buffer holds.
unfoldable pub assoc_info_reply_cb : Element NodeInfo → Bytes → Verdict NodeInfo × Bytes
unfolding assoc_info_line
assoc_info_reply_cb =
    on_node λ k d buffer. (keep (element_of k d), buffer ++ assoc_info_line d ++ b'\n' ∷ [])

unfoldable pub assoc_info_reply_msg : NodeList → Bytes → Bytes
unfolding list_element assoc_info_reply_cb
assoc_info_reply_msg l buffer = (list_element l assoc_info_reply_cb buffer).1

-- The argument is `MAIN_CTX`, which the callback does not use.
unfoldable pub assoc_info_unset_cb : Element NodeInfo → Unit {0} → Verdict NodeInfo × Unit {0}
assoc_info_unset_cb = on_node λ k d u. (keep (element_of k (record d { chk_exist_flag = 0 })), u)

unfoldable pub assoc_info_unset_chk_flag : NodeList → NodeList
unfolding list_element assoc_info_unset_cb
assoc_info_unset_chk_flag l = (list_element l assoc_info_unset_cb tt).0

unfoldable pub assoc_info_remove_cb : Element NodeInfo → ℕ → Verdict NodeInfo × ℕ
assoc_info_remove_cb = on_node λ k d clear_count.
    if d.chk_exist_flag == 0
    then (remove, clear_count + 1)
    else (keep (element_of k d), clear_count)

unfoldable pub assoc_info_remove_uncheck_node : NodeList → NodeList × ℕ
unfolding list_element assoc_info_remove_cb
assoc_info_remove_uncheck_node l = list_element l assoc_info_remove_cb 0

-- The strings that `sscanf` stored, in the order of its arguments; a place that it did not reach
-- keeps the zero bytes of `memset`.
abbrev pub stored : List Bytes → ℕ → Bytes
stored fs i = get_or fs i []

-- `none` is the -1 of a scan that stores nothing.
unfoldable pub assoc_info_get_from_pod : Bytes → Option NodeInfo
unfolding scan_fields
assoc_info_get_from_pod recv_str =
    let fs = scan_fields 7 recv_str in
    if is_nil fs
    then none
    else some (record blank_node {
      name = stored fs 0;
      type_name = stored fs 1;
      group = stored fs 2;
      mgnt_pri_ip = stored fs 3;
      serv_pri_ip = stored fs 4;
      mgnt_port = stored fs 5;
      node_name = stored fs 6;
      pod_name = stored fs 7;
      mgnt_sec_ip = null_word;
      serv_sec_ip = null_word;
    })

unfoldable pub assoc_info_get_from_omp : Bytes → Option NodeInfo
unfolding scan_fields
assoc_info_get_from_omp recv_str =
    let fs = scan_fields 9 recv_str in
    if is_nil fs
    then none
    else some (record blank_node {
      name = stored fs 0;
      type_name = stored fs 1;
      group = stored fs 2;
      mgnt_pri_ip = stored fs 3;
      mgnt_sec_ip = stored fs 4;
      mgnt_port = stored fs 5;
      serv_pri_ip = stored fs 6;
      serv_sec_ip = stored fs 7;
      info_name = stored fs 8;
      vnfc_id = stored fs 9;
    })

-- The test by which both handlers call a report the same as what the table has.
unfoldable pub same_ips : NodeInfo → NodeInfo → Bool
same_ips already node_info =
    str_eq already.mgnt_pri_ip node_info.mgnt_pri_ip
    && str_eq already.serv_pri_ip node_info.serv_pri_ip

-- `node_proc_omp_send_info` behind the parse: `node_info` has its check flag set.
unfoldable pub merge_omp_info : NodeList → NodeInfo → NodeList × NodeProcRes
merge_omp_info l node_info = elim (get_element l node_info.name) [
  | none ↦ (add_or_leave l node_info.name node_info, np_add)
  | some e ↦ elim e.payload [
    | none ↦ (l, np_none)
    | some already ↦
        if same_ips already node_info
        then (update_element l node_info.name (λ d. record d { chk_exist_flag = 1 }), np_uptm)
        else (add_or_leave (rem_element l node_info.name) node_info.name node_info, np_rep)
  ]
]

unfoldable pub node_proc_omp_send_info : NodeList → Bytes → NodeList × NodeProcRes
node_proc_omp_send_info l recv_msg = elim (assoc_info_get_from_omp recv_msg) [
  | none ↦ (l, np_none)
  | some node_info ↦ merge_omp_info l (record node_info { chk_exist_flag = 1 })
]

-- `if (strlen(node_info.pod_name) > 0) sprintf(node_info.info_name, "%s", node_info.pod_name)`
abbrev pub name_by_pod : NodeInfo → NodeInfo
name_by_pod d = if is_nil d.pod_name then d else record d { info_name = d.pod_name }

-- `node_proc_pod_send_info` behind the parse: `node_info` has its receive time.
unfoldable pub merge_pod_info : NodeList → NodeInfo → NodeList × NodeProcRes
merge_pod_info l node_info = elim (get_element l node_info.name) [
  | none ↦ (add_or_leave l node_info.name (name_by_pod node_info), np_add)
  | some e ↦ elim e.payload [
    | none ↦ (l, np_none)
    | some already ↦
        if same_ips already node_info
        then (
          update_element l node_info.name (λ d. record d { heartbeat_tm = node_info.heartbeat_tm }),
          np_uptm,
        )
        else (
          add_or_leave (rem_element l node_info.name) node_info.name
              (name_by_pod (record node_info { mgnt_port = already.mgnt_port })),
          np_rep,
        )
  ]
]

unfoldable pub node_proc_pod_send_info : ℕ → NodeList → Bytes → NodeList × NodeProcRes
node_proc_pod_send_info now l recv_msg = elim (assoc_info_get_from_pod recv_msg) [
  | none ↦ (l, np_fail)
  | some node_info ↦ merge_pod_info l (record node_info { heartbeat_tm = now })
]
