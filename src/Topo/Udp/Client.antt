-- ===== src/Topo/Udp/Client.antt =====
-- `udp_client_proc` of src/topo/udp.c: a pod reports itself and reads the server's table.
use k8s.Common.{
  Bytes, c_string, ℕ, ◌≡◌, Bool, not, Option, none, some, List, [], ◌∷◌, ◌++◌, length, print_fields,
  IsWord, AllFields, scan_fields-print_fields, ltb, leb, if◌then◌else◌, ap, ◌+◌, ◌*◌, ◌≤◌, ◌<◌,
  arith, length-append,
}
use k8s.Topo.Context.{topo_max_buffer, MainCtx, Outcome, goes_on, faults}
use k8s.Topo.Effect.{Effect, SockAddr, sendto}
use k8s.Topo.Node.{blank_node, null_word, assoc_info_get_from_pod, NodeInfo}
use k8s.Topo.Node.Print.{assoc_info_print, notify_to_ixpc}
use k8s.Topo.Udp.{client_recv}
use k8s.Topo.Node.Message.{last_field}
use k8s.Topo.Samples.{field}

-- The fields of the report but the last one.
abbrev pub report_fields : MainCtx → List Bytes
report_fields ctx =
    ctx.name ∷ ctx.type_name ∷ ctx.group ∷ ctx.my_node_ip ∷ ctx.my_pod_ip ∷ ctx.port
    ∷ ctx.my_node_name ∷ []

-- The report: `sprintf` into a buffer of 1024 bytes.
unfoldable pub client_msg : MainCtx → Bytes
client_msg ctx = print_fields (report_fields ctx) ctx.my_pod_name

abbrev pub send_msg_size : ℕ
send_msg_size = 1024

-- What the network did: the address of the server, if its name is known, and whether a socket could
-- be made; whether the report could be sent, and the answer, if one came in a second.
pub record Exchange : Type 0 where
  pub omp_addr : Option SockAddr
  pub has_socket : Bool
  pub is_sent : Bool
  pub answer : Option Bytes

-- The effects of an answer that changed the table.
unfoldable pub updated_effects : Option Bytes → MainCtx → ℕ → List Effect
updated_effects iv_home ctx update_count =
    if ltb 0 update_count
    then assoc_info_print iv_home ctx.node_list ∷ notify_to_ixpc ctx.ixpc_qid ctx.name ∷ []
    else []

-- The part behind `recvfrom`: the answer is a C string in a buffer of `TOPO_MAX_BUFFER` zero bytes.
-- Where no byte of it is left for the NUL, `strtok` reads past the end of the buffer.
unfoldable pub client_answer : Option Bytes → MainCtx → List Effect → Option Bytes → Outcome
unfolding client_recv updated_effects
client_answer iv_home ctx before none = goes_on ctx before
client_answer iv_home ctx before (some recv_msg) =
    let r = client_recv ctx.node_list (c_string recv_msg) in
    let ctx' = record ctx { node_list = r.0 } in
    if leb topo_max_buffer (length (c_string recv_msg))
    then faults
    else goes_on ctx' (before ++ updated_effects iv_home ctx' r.1)

unfoldable pub udp_client_proc : Option Bytes → MainCtx → Exchange → Outcome
unfolding client_msg client_answer
udp_client_proc iv_home ctx net = elim net.omp_addr [
  | none ↦ goes_on ctx []
  | some omp_addr ↦
      if not net.has_socket
      then goes_on ctx []
      else if leb send_msg_size (length (client_msg ctx))
      then faults
      else if not net.is_sent
      then goes_on ctx []
      else client_answer iv_home ctx (sendto (client_msg ctx) omp_addr ∷ []) net.answer
]

-- A pod whose fields can be read back.
pub record IsReporting (ctx : MainCtx) : Type 0 where
  pub fields : AllFields (report_fields ctx)
  pub pod : IsWord ctx.my_pod_name

-- What the server reads of a pod.
abbrev pub reported : MainCtx → NodeInfo
reported ctx = record blank_node {
  name = ctx.name;
  type_name = ctx.type_name;
  group = ctx.group;
  mgnt_pri_ip = ctx.my_node_ip;
  mgnt_sec_ip = null_word;
  mgnt_port = ctx.port;
  serv_pri_ip = ctx.my_pod_ip;
  serv_sec_ip = null_word;
  node_name = ctx.my_node_name;
  pod_name = ctx.my_pod_name;
}

-- The server reads from a pod's report what the pod has in the eight fields of the report.
pub assoc_info_get_from_pod-client_msg :
    (ctx : MainCtx)
    → IsReporting ctx
    → assoc_info_get_from_pod (client_msg ctx) ≡ some (reported ctx)
unfolding assoc_info_get_from_pod client_msg
assoc_info_get_from_pod-client_msg ctx r =
    rw (scan_fields-print_fields (report_fields ctx) ctx.my_pod_name r.fields r.pod)
      (ap (λ w. some (record (reported ctx) { pod_name = w })) (last_field ctx.my_pod_name))

print_fields-length :
    (fs : List Bytes) (w : Bytes)
    → AllFields fs
    → IsWord w
    → length (print_fields fs w) ≤ 128 * length fs + 127
print_fields-length [] w fields word = word.fits
print_fields-length (f ∷ fs) w (field, fields) word = omega (
  arith,
  field.fits,
  print_fields-length fs w fields word,
  length-append f (b'|' ∷ print_fields fs w),
)

-- The report of a pod whose fields can be read back fits its buffer.
pub client_msg-length : (ctx : MainCtx) → IsReporting ctx → length (client_msg ctx) < send_msg_size
unfolding client_msg
client_msg-length ctx r =
    omega (arith, print_fields-length (report_fields ctx) ctx.my_pod_name r.fields r.pod)
