-- ===== src/Topo/Udp/Room.antt =====
-- The buffers of a server of src/topo: the fields that `sscanf` stores in a node, and the answer of
-- udp.c about the nodes.
use mathlib.Core.Option
use mathlib.Core.Option.{some-injective}
use k8s.Topo.Udp.Bounds.{IsBounded, AllBounded, assoc_info_reply_msg-length}
use k8s.Topo.Run.{IsServing, tick, Step, report, Reach, here, next, Reach-IsServing}
use k8s.Common.{
  Bytes, ℕ, ◌≤◌, ◌≡◌, inl, inr, Option, none, some, length, is_nil, scan_fields, scan_fields-length,
  Bool-cases, str_eq, refl, List, arith, Option-cases, [],
}
use k8s.Topo.Node.{
  NodeInfo, assoc_info_get_from_pod, NodeList, blank_node, null_word, stored, same_ips, name_by_pod,
  assoc_info_reply_msg,
}
use k8s.Topo.Node.Report.{merged, node_proc_pod_send_info-find, node_proc_pod_send_info-fail}
use k8s.Elem.Lookup.{find}
use k8s.Topo.Node.Expiry.{assoc_info_cleanup-find}
use k8s.Topo.Context.{topo_max_buffer}

-- A node that was read from a report.
record IsShort (d : NodeInfo) : Type 0 where
  bounded : IsBounded d
  pod_name : length d.pod_name ≤ 127

abbrev parsed_from : List Bytes → NodeInfo
parsed_from fs = record blank_node {
  name = stored fs 0;
  type_name = stored fs 1;
  group = stored fs 2;
  mgnt_pri_ip = stored fs 3;
  serv_pri_ip = stored fs 4;
  mgnt_port = stored fs 5;
  node_name = stored fs 6;
  pod_name = stored fs 7;
  mgnt_sec_ip = null_word;
  serv_sec_ip = null_word;
}

parsed_from-IsShort : (recv_msg : Bytes) → IsShort (parsed_from (scan_fields 7 recv_msg))
parsed_from-IsShort recv_msg =
    let short = scan_fields-length 7 recv_msg in
    record {
      bounded = record {
        name = short 0;
        type_name = short 1;
        group = short 2;
        mgnt_pri_ip = short 3;
        mgnt_sec_ip = omega arith;
        mgnt_port = short 5;
        serv_pri_ip = short 4;
        serv_sec_ip = omega arith;
        info_name = omega arith;
        vnfc_id = omega arith;
      };
      pod_name = short 7;
    }

assoc_info_get_from_pod-IsShort :
    (recv_msg : Bytes) {d : NodeInfo} → assoc_info_get_from_pod recv_msg ≡ some d → IsShort d
unfolding assoc_info_get_from_pod
assoc_info_get_from_pod-IsShort recv_msg {d} e =
    elim (Bool-cases (is_nil (scan_fields 7 recv_msg))) [
      | inl y ↦ ground (arith, y, e)
      | inr n ↦
          let is = some-injective (parsed_from (scan_fields 7 recv_msg)) d (rw n at e) in
          rw (← is) (parsed_from-IsShort recv_msg)
    ]

heard-IsBounded :
    (d : NodeInfo) (now : ℕ) → IsBounded d → IsBounded (record d { heartbeat_tm = now })
heard-IsBounded d now b = record {
  name = b.name;
  type_name = b.type_name;
  group = b.group;
  mgnt_pri_ip = b.mgnt_pri_ip;
  mgnt_sec_ip = b.mgnt_sec_ip;
  mgnt_port = b.mgnt_port;
  serv_pri_ip = b.serv_pri_ip;
  serv_sec_ip = b.serv_sec_ip;
  info_name = b.info_name;
  vnfc_id = b.vnfc_id;
}

name_by_pod-IsBounded :
    (d : NodeInfo) → IsBounded d → length d.pod_name ≤ 127 → IsBounded (name_by_pod d)
name_by_pod-IsBounded d b short = elim (Bool-cases (is_nil d.pod_name)) [
  | inl y ↦ rw y b
  | inr n ↦ rw n (record {
    name = b.name;
    type_name = b.type_name;
    group = b.group;
    mgnt_pri_ip = b.mgnt_pri_ip;
    mgnt_sec_ip = b.mgnt_sec_ip;
    mgnt_port = b.mgnt_port;
    serv_pri_ip = b.serv_pri_ip;
    serv_sec_ip = b.serv_sec_ip;
    info_name = short;
    vnfc_id = b.vnfc_id;
  })
]

merged-IsBounded :
    (o : Option NodeInfo) (d : NodeInfo) (now : ℕ)
    → ((a : NodeInfo) → o ≡ some a → IsBounded a)
    → IsShort d
    → IsBounded (merged o (record d { heartbeat_tm = now }))
merged-IsBounded none d now old short =
    name_by_pod-IsBounded (record d { heartbeat_tm = now }) (heard-IsBounded d now short.bounded)
      short.pod_name
merged-IsBounded (some a) d now old short =
    let b = short.bounded in
    elim (Bool-cases (same_ips a (record d { heartbeat_tm = now }))) [
      | inl same ↦ rw same (heard-IsBounded a now (old a refl))
      | inr moved ↦ rw moved (
          name_by_pod-IsBounded (record d { heartbeat_tm = now; mgnt_port = a.mgnt_port })
            (record {
              name = b.name;
              type_name = b.type_name;
              group = b.group;
              mgnt_pri_ip = b.mgnt_pri_ip;
              mgnt_sec_ip = b.mgnt_sec_ip;
              mgnt_port = (old a refl).mgnt_port;
              serv_pri_ip = b.serv_pri_ip;
              serv_sec_ip = b.serv_sec_ip;
              info_name = b.info_name;
              vnfc_id = b.vnfc_id;
            })
            short.pod_name)
    ]

Step-AllBounded :
    {o : NodeInfo} {l l' : NodeList} → IsServing o l → AllBounded l → Step l l' → AllBounded l'
unfolding AllBounded Option.bind
Step-AllBounded {o} {l} s b (report now recv_msg other) =
    elim (Option-cases (assoc_info_get_from_pod recv_msg)) [
      | inl e ↦ rw (node_proc_pod_send_info-fail now l recv_msg e) b
      | inr (d, e) ↦ λ k a there.
          let at = (node_proc_pod_send_info-find now recv_msg k s.is_table e).0 in
          elim (Bool-cases (str_eq k d.name)) [
            | inl own ↦
                let is =
                  some-injective (merged (find l d.name) (record d { heartbeat_tm = now })) a
                    (ground (arith, at, own, there)) in
                rw (← is) (
                  merged-IsBounded (find l d.name) d now (b d.name)
                    (assoc_info_get_from_pod-IsShort recv_msg e))
            | inr ne ↦ b k a (ground (arith, at, ne, there))
          ]
    ]
Step-AllBounded {o} {l} s b (tick now) =
    λ k a there. b k a (ground (arith, there, assoc_info_cleanup-find now k s.is_table))

Reach-AllBounded :
    {o : NodeInfo} {start l : NodeList}
    → o.heartbeat_tm ≡ 0
    → IsServing o start
    → AllBounded start
    → Reach start l
    → AllBounded l
Reach-AllBounded omp_node s b here = b
Reach-AllBounded {o} omp_node s b (next r st) =
    Step-AllBounded {o = o} (Reach-IsServing omp_node s r) (Reach-AllBounded omp_node s b r) st

-- A table that a server reaches, whose answer does not fit, has at least eight nodes.
pub Reach-room :
    {o : NodeInfo} {start l : NodeList}
    → o.heartbeat_tm ≡ 0
    → IsServing o start
    → AllBounded start
    → Reach start l
    → topo_max_buffer ≤ length (assoc_info_reply_msg l [])
    → 9 ≤ length l
Reach-room omp_node s b reached long =
    let all_bounded = Reach-AllBounded omp_node s b reached in
    omega (
      arith,
      assoc_info_reply_msg-length (Reach-IsServing omp_node s reached).is_table all_bounded,
      long,
    )
