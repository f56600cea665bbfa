-- ===== src/Topo/Node/Print.antt =====
-- The tables that src/topo/node.c writes to files, and its notification of IXPC.
use mathlib.Core.List.{map}
use k8s.Elem.{Element, Verdict, keep, list_element}
use k8s.Topo.Node.{NodeInfo, NodeList, on_node, element_of}
use k8s.Common.{
  Bytes, codes, strcmp, ℕ, ◌+◌, Ordering, Option, none, some, List, [], ◌∷◌, ◌++◌, length, is_nil,
  ℤ, leb, if◌then◌else◌, zero, suc,
}
use k8s.K8smgr.Http.{Rows}
use k8s.Topo.Effect.{overruns, write_file, msgsnd, Effect}

-- The row of a node, behind the header row of the root; the second cell is "=" for every node.
unfoldable pub assoc_info_fill_cb : Element NodeInfo → Rows → Verdict NodeInfo × Rows
assoc_info_fill_cb elem rows = elim elem.key [
  | none ↦ (
    keep elem,
    rows
        ++ (codes "### NAME"
            ∷ codes " "
            ∷ codes "TYPE"
            ∷ codes "GROUP"
            ∷ codes "MGNT_PRI_IP"
            ∷ codes "MGNT_SEC_IP"
            ∷ codes "MGNT_PORT"
            ∷ codes "SERV_PRI_IP"
            ∷ codes "SERV_SEC_IP"
            ∷ codes "INFO_NAME"
            ∷ codes "VNFC_ID"
            ∷ [])
          ∷ [],
  )
  | some _ ↦ elim elem.payload [
    | none ↦ (keep elem, rows)
    | some d ↦ (
      keep elem,
      rows
          ++ (d.name
              ∷ codes "="
              ∷ d.type_name
              ∷ d.group
              ∷ d.mgnt_pri_ip
              ∷ d.mgnt_sec_ip
              ∷ d.mgnt_port
              ∷ d.serv_pri_ip
              ∷ d.serv_sec_ip
              ∷ d.info_name
              ∷ d.vnfc_id
              ∷ [])
            ∷ [],
    )
  ]
]

-- `getenv("IV_HOME")` in front of a path, where it is set.
abbrev pub under_home : Option Bytes → Bytes → Bytes
under_home none path = path
under_home (some home) path = home ++ path

-- `assoc_info_path` and `node_info_path` have this many bytes.
abbrev pub path_size : ℕ
path_size = 1024

-- `sprintf` of the path and `fopen_cmd`.
unfoldable pub print_file : Bytes → Bytes → Rows → Effect
print_file path banner rows =
    if leb path_size (length path) then overruns path else write_file path banner rows

unfoldable pub assoc_info_print : Option Bytes → NodeList → Effect
unfolding assoc_info_fill_cb print_file
assoc_info_print iv_home l =
    print_file (under_home iv_home (codes "/data/associate_config")) (codes "[ASSOCIATE_SYSTEMS]")
      (list_element l assoc_info_fill_cb []).1

-- The argument is the nodes copied so far, `used` of them.
unfoldable pub assoc_info_list_cb :
    ℕ → Element NodeInfo → List NodeInfo → Verdict NodeInfo × List NodeInfo
assoc_info_list_cb limit = on_node λ k d node_list. (
  keep (element_of k d),
  if leb limit (length node_list + 1) then node_list else node_list ++ d ∷ [],
)

-- By the name of the Kubernetes node, then by the name of the pod.
unfoldable pub assoc_info_compare : NodeInfo → NodeInfo → Ordering
unfolding strcmp
assoc_info_compare node1 node2 = elim (strcmp node1.node_name node2.node_name) [
  | Ordering.lt ↦ Ordering.lt
  | Ordering.gt ↦ Ordering.gt
  | Ordering.eq ↦ strcmp node1.pod_name node2.pod_name
]

abbrev pub topo_max_list : ℕ
topo_max_list = 128

-- `strlen(s) > 0 ? s : "N/A"`
abbrev pub or_na : Bytes → Bytes
or_na s = if is_nil s then codes "N/A" else s

-- `qsort` is the C library's: it may order equal elements as it likes.
module _ (qsort : (NodeInfo → NodeInfo → Ordering) → List NodeInfo → List NodeInfo) where
  unfoldable pub assoc_info_make_list : NodeList → ℕ → List NodeInfo
  unfolding assoc_info_list_cb
  assoc_info_make_list l limit =
      let copied = (list_element l (assoc_info_list_cb limit) []).1 in
      if is_nil copied then copied else qsort assoc_info_compare copied

  unfoldable pub node_row : NodeInfo → List Bytes
  node_row d =
      or_na d.node_name
      ∷ d.mgnt_pri_ip
      ∷ d.mgnt_port
      ∷ or_na d.pod_name
      ∷ or_na d.serv_pri_ip
      ∷ d.name
      ∷ []

  unfoldable pub node_info_print : Option Bytes → NodeList → Effect
  unfolding assoc_info_make_list node_row print_file
  node_info_print iv_home l =
      print_file (under_home iv_home (codes "/data/node_info")) (codes "[NODE_INFO]") (
        (codes "NODE_NAME"
          ∷ codes "MGNT_IP"
          ∷ codes "MGNT_PORT"
          ∷ codes "POD_NAME"
          ∷ codes "POD_IP"
          ∷ codes "MP_NAME"
          ∷ [])
        ∷ map node_row (assoc_info_make_list l topo_max_list))

abbrev pub mtype_reload_config_data : ℕ
mtype_reload_config_data = 84

-- `strcpy` to a place in a buffer: the bytes and the terminating NUL, over what follows.
overwrite : Bytes → Bytes → Bytes
overwrite [] mem = mem
overwrite (c ∷ cs) [] = []
overwrite (c ∷ cs) (m ∷ mem) = c ∷ overwrite cs mem

unfoldable pub strcpy_at : ℕ → Bytes → Bytes → Bytes
unfolding overwrite
strcpy_at zero s mem = overwrite (s ++ 0 ∷ []) mem
strcpy_at (suc n) s [] = []
strcpy_at (suc n) s (m ∷ mem) = m ∷ strcpy_at n s mem

zeros : ℕ → Bytes
zeros zero = []
zeros (suc n) = 0 ∷ zeros n

take : ℕ → Bytes → Bytes
take zero s = []
take (suc n) [] = []
take (suc n) (c ∷ s) = c ∷ take n s

-- The four name fields of the IXPC header, 16 bytes each: the source system, the source
-- application, the destination system, the destination application. The names are copied with no
-- check of their length, and the message body lies behind the header; the message sent is the
-- header. The arguments are the queue and the name of this system.
unfoldable pub notify_to_ixpc : ℤ → Bytes → Effect
unfolding strcpy_at zeros take
notify_to_ixpc ixpc_qid name =
    msgsnd ixpc_qid mtype_reload_config_data
      (take 64 (
        strcpy_at 48 (codes "IXPC")
          (strcpy_at 16 (codes "TOPO") (strcpy_at 32 name (strcpy_at 0 name (zeros 256))))))
      0
