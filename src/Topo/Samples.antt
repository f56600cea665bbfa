-- ===== src/Topo/Samples.antt =====
-- Nodes, tables and contexts for the tests of the topology process.
use mathlib.Core.Option.{some-injective}
use k8s.Elem.Order.{node, root_node, nil, cons, IsTable, table}
use k8s.Common.{
  Bytes, codes, strcmp, ◌≡◌, refl, some, [], ◌∷◌, AllFields, str_eq, inl, inr, true, false, arith,
  length, is_nil, all, is_space, not_bar, IsField, IsWord, leb, Bool-cases, str_eq_iff, sym, ◌+◌,
  Option, none, ◌++◌, pos, ltb, if◌then◌else◌, ap, ◌∙◌, ℕ,
}
use k8s.Topo.Node.{NodeInfo, NodeList, blank_node, assoc_info_line, assoc_info_get_from_pod}
use k8s.Topo.Node.Message.{line_fields, IsPublic}
use k8s.Elem.Lookup.{find}
use k8s.Topo.Udp.Sync.{IsServed}
use k8s.Topo.Udp.Bounds.{IsBounded, AllBounded}
use k8s.Topo.Context.{MainCtx, cr_client, cr_server}
use k8s.Topo.Effect.{af_inet, SockAddr}
use k8s.Topo.Udp.Fromto.{pktinfo, other_cmsg, Datagram}

abbrev pub a_info : NodeInfo
a_info = record blank_node {
  name = codes "MP_1";
  type_name = codes "MP";
  group = codes "G";
  mgnt_pri_ip = codes "10.0.0.1";
  mgnt_sec_ip = codes "NULL";
  mgnt_port = codes "0x1389";
  serv_pri_ip = codes "10.1.0.1";
  serv_sec_ip = codes "NULL";
  info_name = codes "mp-0";
  vnfc_id = codes "v-1";
  heartbeat_tm = 100;
}

abbrev pub server_list : NodeList
server_list = root_node ∷ node a_info.name a_info ∷ []

pub server_list-IsTable : IsTable server_list
server_list-IsTable = table (cons tt nil)

abbrev pub client_list : NodeList
client_list =
    root_node
    ∷ node (codes "MP_1") (record a_info { mgnt_pri_ip = codes "10.0.0.9" })
    ∷ node (codes "OLD") (record a_info { name = codes "OLD" })
    ∷ []

pub client_list-IsTable : IsTable client_list
unfolding strcmp
client_list-IsTable = table (cons tt (cons refl nil))

abbrev pub report_msg : Bytes
report_msg = codes "MP_1|MP|G|10.0.0.1|10.1.0.1|0x1389|node-a|mp-0"

abbrev pub report_info : NodeInfo
report_info = record blank_node {
  name = codes "MP_1";
  type_name = codes "MP";
  group = codes "G";
  mgnt_pri_ip = codes "10.0.0.1";
  mgnt_sec_ip = codes "NULL";
  mgnt_port = codes "0x1389";
  serv_pri_ip = codes "10.1.0.1";
  serv_sec_ip = codes "NULL";
  node_name = codes "node-a";
  pod_name = codes "mp-0";
}

pub report_parsed : assoc_info_get_from_pod report_msg ≡ some report_info
unfolding assoc_info_get_from_pod k8s.Common.take_set k8s.Common.is_space
report_parsed = refl

-- A word without bars and spaces.
pub field :
    (f : Bytes) → is_nil f ≡ false → all not_bar f ≡ true → leb (length f) 127 ≡ true → IsField f
field f e b l = record { ne_nil = e; no_bar = b; fits = ground arith }

pub a_fields : AllFields (line_fields a_info)
a_fields = (
  field (codes "MP_1") refl refl refl,
  (
    field (codes "MP") refl refl refl,
    (
      field (codes "G") refl refl refl,
      (
        field (codes "10.0.0.1") refl refl refl,
        (
          field (codes "NULL") refl refl refl,
          (
            field (codes "0x1389") refl refl refl,
            (
              field (codes "10.1.0.1") refl refl refl,
              (field (codes "NULL") refl refl refl, (field (codes "mp-0") refl refl refl, tt)),
            ),
          ),
        ),
      ),
    ),
  ),
)

pub a_word : IsWord (codes "v-1")
unfolding is_space
a_word = record { no_space = refl; fits = omega arith }

pub a_info-IsPublic : IsPublic a_info
unfolding assoc_info_line
a_info-IsPublic = record { fields = a_fields; vnfc_id = a_word; one_line = refl }

pub heard-IsBounded : (t : ℕ) → IsBounded (record a_info { heartbeat_tm = t })
heard-IsBounded t = record {
  name = omega arith;
  type_name = omega arith;
  group = omega arith;
  mgnt_pri_ip = omega arith;
  mgnt_sec_ip = omega arith;
  mgnt_port = omega arith;
  serv_pri_ip = omega arith;
  serv_sec_ip = omega arith;
  info_name = omega arith;
  vnfc_id = omega arith;
}

pub only_node :
    (i : NodeInfo) (k : Bytes) (d : NodeInfo)
    → find (root_node ∷ node a_info.name i ∷ []) k ≡ some d
    → (a_info.name ≡ k) × (i ≡ d)
unfolding find
only_node i k d e = elim (Bool-cases (str_eq k a_info.name)) [
  | inl y ↦ (ground (arith, y, str_eq_iff k a_info.name), some-injective i d (ground (arith, y, e)))
  | inr n ↦ ground (arith, e, n)
]

pub server_list-IsServed : IsServed server_list
unfolding IsServed
server_list-IsServed k d e = let o = only_node a_info k d e in rw (sym o.1) (o.0, a_info-IsPublic)

pub server_list-AllBounded : AllBounded server_list
unfolding AllBounded
server_list-AllBounded k d e = rw (sym (only_node a_info k d e).1) (heard-IsBounded 100)

abbrev pub server_addr : SockAddr
server_addr = record { family = af_inet; addr = codes "10.0.0.2"; port = 5000 }

abbrev pub pod_addr : SockAddr
pod_addr = record { family = af_inet; addr = codes "10.1.0.1"; port = 40000 }

abbrev pub report_datagram : Datagram
report_datagram = record {
  payload = report_msg;
  sender = pod_addr;
  control = other_cmsg ∷ pktinfo (codes "10.0.0.3") ∷ [];
}

abbrev pub server_ctx : MainCtx
server_ctx = record {
  ems_topo_addr = codes "10.0.0.2:5000";
  my_sys_name = some (codes "OMP");
  role = cr_server;
  mp_label = codes "L";
  my_node_name = [];
  my_pod_name = [];
  my_node_ip = [];
  my_pod_ip = [];
  my_mp_index = pos 0;
  name = codes "OMP";
  type_name = [];
  group = [];
  port = [];
  ixpc_qid = pos 7;
  omp_ip = codes "10.0.0.2";
  base_port = pos 5000;
  node_list = server_list;
}

abbrev pub client_ctx : MainCtx
client_ctx = record server_ctx {
  my_sys_name = none;
  role = cr_client;
  my_node_name = codes "node-a";
  my_pod_name = codes "mp-0";
  my_node_ip = codes "10.0.0.1";
  my_pod_ip = codes "10.1.0.1";
  name = codes "MP_1";
  type_name = codes "MP";
  group = codes "G";
  port = codes "0x1389";
  node_list = client_list;
}
