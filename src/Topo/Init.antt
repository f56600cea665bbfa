-- ===== src/Topo/Init.antt =====
-- src/topo/init.c: the role of the process, and the context and the table that it starts with. The
-- environment, the files and what the libraries and the system calls return are a record; -1 is
-- `none`, and so is a text that is longer than its buffer, behind which nothing is known.
use mathlib.Core.List.{map}
use k8s.Elem.Order.{node, root_node, nil, cons, IsTable, table}
use k8s.Common.{
  Bytes, codes, str_eq, ℕ, ◌+◌, ◌-◌, Bool, not, ◌&&◌, ◌||◌, Option, none, some, List, [], ◌∷◌, ◌++◌,
  is_nil, ℤ, pos, negsuc, atoi, print_hex, add_ℕ, print_int, as_u32, strtol16, take_set, not_space,
  skip_space, leb, ◌==◌, if◌then◌else◌, strcmp, ◌≡◌, refl, is_neg, length,
}
use k8s.Elem.{new_element, add_or_leave}
use k8s.Topo.Context.{MainCtx, ClusterRole, cr_client, cr_server}
use k8s.Topo.Effect.{Effect}
use k8s.Libs.{popen_cmd, fopen_read, strrchr}
use k8s.Topo.Node.{NodeInfo, NodeList, blank_node, null_word}
use k8s.Topo.Node.Print.{assoc_info_print}

pub record World : Type 0 where
  pub getenv : Bytes → Option Bytes
  -- the content of a file
  pub file : Bytes → Option Bytes
  -- the output of a command
  pub popen : Bytes → Option Bytes
  pub keepalivelib_init : ℤ
  pub commlib_crte_msg_q : ℤ
  -- whether `socket`, `setsockopt`, `udp_fromto_init` and `bind` succeed, in this order
  pub socket_calls : Bool

-- `printf` writes a null string so.
abbrev pub or_null : Option Bytes → Bytes
or_null none = codes "(null)"
or_null (some s) = s

-- `char sysconf_file[128]`, and the buffers of the name of the process.
abbrev pub text_size : ℕ
text_size = 128

abbrev pub sysconf_file : World → Bytes
sysconf_file w = or_null (w.getenv (codes "IV_HOME")) ++ codes "/data/sysconfig"

-- The sum of two numbers that are not both out of the range of `int`.
infixl 65 ◌+ℤ◌
abbrev ◌+ℤ◌ : ℤ → ℤ → ℤ
a +ℤ pos n = add_ℕ a n
pos n +ℤ negsuc k = if leb (k + 1) n then pos (n - k - 1) else negsuc (k - n)
negsuc n +ℤ negsuc k = negsuc (n + k + 1)

-- The node of the OMP, at the start of a server.
unfoldable pub omp_node_info : Bytes → Bytes → ℤ → NodeInfo
omp_node_info mp_label omp_ip base_port = record blank_node {
  name = codes "OMP";
  type_name = codes "OMP";
  group = mp_label;
  mgnt_pri_ip = omp_ip;
  mgnt_sec_ip = null_word;
  mgnt_port = codes "0x" ++ print_hex (as_u32 (add_ℕ base_port 1));
  serv_pri_ip = null_word;
  serv_sec_ip = null_word;
  info_name = codes "OMP_SYSTEM";
  vnfc_id = codes "vnfc-not-assigned";
}

-- `new_element(NULL, NULL, 0)`
abbrev pub empty_list : NodeList
empty_list = new_element none none ∷ []

-- The first part of `init_omp_server`, up to the printing of the table.
unfoldable pub server_context : MainCtx → Bytes → MainCtx
unfolding omp_node_info
server_context ctx mp_label =
    let node_info = omp_node_info mp_label ctx.omp_ip ctx.base_port in
    record ctx {
      mp_label = mp_label;
      name = elim ctx.my_sys_name [ none ↦ codes "(null)" | some s ↦ s ];
      node_list = add_or_leave empty_list node_info.name node_info;
    }

unfoldable pub init_omp_server : World → MainCtx → Option (MainCtx × List Effect)
unfolding popen_cmd server_context
init_omp_server w ctx =
    let command = codes "cat " ++ sysconf_file w ++ codes " | grep MP_LABEL | awk '{print $3}'" in
    if leb text_size (length (sysconf_file w))
    then none
    else elim (popen_cmd (w.popen command) 127) [
      | none ↦ none
      | some mp_label ↦
          let ctx' = server_context ctx mp_label in
          if w.socket_calls
          then some (ctx', assoc_info_print (w.getenv (codes "IV_HOME")) ctx'.node_list ∷ [])
          else none
    ]

infixl 5 ◌>>=◌
abbrev pub ◌>>=◌ : {A B : Type 0} → Option A → (A → Option B) → Option B
none >>= f = none
some a >>= f = f a

-- `base_port + 2`, in a buffer of zero bytes.
abbrev pub drop_2 : Bytes → Bytes
drop_2 (a ∷ b ∷ cs) = cs
drop_2 _ = []

-- `sprintf` into a buffer of `text_size` bytes.
unfoldable pub fitting : Bytes → Option Bytes
fitting s = if leb text_size (length s) then none else some s

unfoldable pub init_omp_client : World → MainCtx → Option MainCtx
unfolding strrchr fopen_read fitting
init_omp_client w ctx = do
  my_node_name ← w.getenv (codes "MY_NODE_NAME")
  my_pod_name ← w.getenv (codes "MY_POD_NAME")
  my_node_ip ← w.getenv (codes "MY_NODE_IP")
  my_pod_ip ← w.getenv (codes "MY_POD_IP")
  (_, index_str) ← strrchr b'-' my_pod_name
  let my_mp_index = atoi index_str
  label ← fopen_read (w.file (codes "/label_conf/name")) 127
  name ← fitting (label ++ b'_' ∷ print_int (add_ℕ my_mp_index 1))
  type_name ← fopen_read (w.file (codes "/label_conf/type")) 127
  group ← fopen_read (w.file (codes "/label_conf/group")) 127
  base_port ← fopen_read (w.file (codes "/label_conf/ixpc_base_port")) 127
  some (record ctx {
    my_node_name = my_node_name;
    my_pod_name = my_pod_name;
    my_node_ip = my_node_ip;
    my_pod_ip = my_pod_ip;
    my_mp_index = my_mp_index;
    name = name;
    type_name = type_name;
    group = group;
    port = codes "0x" ++ print_hex (as_u32 (add_ℕ (strtol16 (drop_2 base_port) +ℤ my_mp_index) 1));
    node_list = empty_list;
  })

-- `sscanf(s, "%127[^:]:%127s", omp_ip, port_str)` over zeroed buffers.
unfoldable pub scan_addr : Bytes → Bytes × Bytes
unfolding take_set skip_space
scan_addr s =
    let ip = take_set 127 (λ c. not (c == b':')) s in
    elim ip.1 [
      | [] ↦ (ip.0, [])
      | colon ∷ rest ↦
          if is_nil ip.0 || not (colon == b':')
          then (ip.0, [])
          else (ip.0, (take_set 127 not_space (skip_space rest)).0)
    ]

-- `tolower` in the C locale, and `!strcasecmp(a, b)`.
abbrev to_lower : ℕ → ℕ
to_lower c = if leb b'A' c && leb c b'Z' then c + 32 else c

unfoldable pub strcasecmp_eq : Bytes → Bytes → Bool
strcasecmp_eq a b = str_eq (map to_lower a) (map to_lower b)

-- `my_sys_name != NULL && !strcasecmp(my_sys_name, "omp")`
unfoldable pub decide_role : Option Bytes → ClusterRole
unfolding strcasecmp_eq
decide_role none = cr_client
decide_role (some s) = if strcasecmp_eq s (codes "omp") then cr_server else cr_client

unfoldable pub by_role : World → MainCtx → ClusterRole → Option (MainCtx × List Effect)
unfolding init_omp_server init_omp_client
by_role w ctx cr_server = init_omp_server w ctx
by_role w ctx cr_client = init_omp_client w ctx >>= λ c. some (c, [])

unfoldable pub initialize : World → MainCtx → Option (MainCtx × List Effect)
unfolding scan_addr decide_role by_role fitting
initialize w ctx = if is_neg w.keepalivelib_init then none else do
  ems_topo_addr ← w.getenv (codes "EMS_TOPO_ADDR")
  let my_sys_name = w.getenv (codes "MY_SYS_NAME")
  let (omp_ip, port_str) = scan_addr ems_topo_addr
  let ctx' = record ctx {
    ems_topo_addr = ems_topo_addr;
    my_sys_name = my_sys_name;
    omp_ip = omp_ip;
    base_port = atoi port_str;
    ixpc_qid = w.commlib_crte_msg_q;
    role = decide_role my_sys_name;
  }
  _ ← fitting (sysconf_file w)
  if is_neg w.commlib_crte_msg_q then none else by_role w ctx' (decide_role my_sys_name)

-- The comparison ignores case.
decide_role_omp : decide_role (some (codes "OmP")) ≡ cr_server
unfolding decide_role str_eq
decide_role_omp = refl

-- The table of a server that starts: the node of the OMP under its name, and nothing else.
pub server_context-node_list :
    (ctx : MainCtx) (mp_label : Bytes)
    → (server_context ctx mp_label).node_list
      ≡ root_node ∷ node (codes "OMP") (omp_node_info mp_label ctx.omp_ip ctx.base_port) ∷ []
unfolding server_context add_or_leave strcmp
server_context-node_list ctx mp_label = refl

pub server_context-IsTable :
    (ctx : MainCtx) (mp_label : Bytes) → IsTable (server_context ctx mp_label).node_list
server_context-IsTable ctx mp_label =
    rw (server_context-node_list ctx mp_label) (table (cons tt nil))
