-- ===== src/Topo/Udp/Bounds.antt =====
-- How many nodes the server's answer has room for.
use k8s.Elem.Order.{root_node, IsSorted, nil, cons, IsTable, table}
use k8s.Topo.Node.{NodeInfo, NodeList, assoc_info_line, assoc_info_reply_msg}
use k8s.Common.{
  ◌≤◌, length, Bytes, str_eq_iff, str_eq_refl, ℕ, ◌+◌, ◌*◌, ◌≡◌, true, false, Option, some, List,
  [], ◌∷◌, ◌++◌, arith, length-append, leb, ◌<◌,
}
use k8s.Elem.Lookup.{find, find-at}
use k8s.Topo.Context.{MainCtx, topo_max_buffer, goes_on, faults}
use k8s.Topo.Effect.{Effect, af_inet, SockAddr, sendmsg_from}
use k8s.Topo.Node.Message.{reply_text, assoc_info_reply_msg_lem}
use k8s.Topo.Udp.Fromto.{Datagram, udp_send_fromto-inet}
use k8s.Topo.Udp.Server.{send_answer}

-- The ten fields of a line, within `char[128]`.
pub record IsBounded (d : NodeInfo) : Type 0 where
  pub name : length d.name ≤ 127
  pub type_name : length d.type_name ≤ 127
  pub group : length d.group ≤ 127
  pub mgnt_pri_ip : length d.mgnt_pri_ip ≤ 127
  pub mgnt_sec_ip : length d.mgnt_sec_ip ≤ 127
  pub mgnt_port : length d.mgnt_port ≤ 127
  pub serv_pri_ip : length d.serv_pri_ip ≤ 127
  pub serv_sec_ip : length d.serv_sec_ip ≤ 127
  pub info_name : length d.info_name ≤ 127
  pub vnfc_id : length d.vnfc_id ≤ 127

line-length : (d : NodeInfo) → IsBounded d → length (assoc_info_line d) ≤ 1279
unfolding assoc_info_line
line-length d b = omega (arith, length-append {0} {A = ℕ})

-- Every node of the table has bounded fields.
unfoldable pub AllBounded : NodeList → Type 0
AllBounded l = (k : Bytes) (d : NodeInfo) → find l k ≡ some d → IsBounded d

reply_text-length :
    {lo : Option Bytes} {es : NodeList}
    → IsSorted lo es
    → AllBounded es
    → length (reply_text es) ≤ 1280 * length es
unfolding AllBounded find
reply_text-length nil b = omega arith
reply_text-length (cons {k} {d} {es} m s) b =
    let here = line-length d (b k d (ground (arith, str_eq_refl k))) in
    let later = reply_text-length s λ j e f. b j e (ground (arith, str_eq_iff j k, find-at s)) in
    omega (arith, here, later, length-append (assoc_info_line d) (b'\n' ∷ reply_text es))

-- The answer about a table of bounded nodes takes at most 1280 bytes for each node.
pub assoc_info_reply_msg-length :
    {l : NodeList}
    → IsTable l
    → AllBounded l
    → length (assoc_info_reply_msg l []) + 1280 ≤ 1280 * length l
unfolding AllBounded find
assoc_info_reply_msg-length (table {es} s) b =
    rw (assoc_info_reply_msg_lem (root_node ∷ es)) (omega (arith, reply_text-length s b))

-- The answer about at most seven nodes, all of them bounded, fits its buffer.
pub answer-fits :
    {l : NodeList}
    → IsTable l
    → AllBounded l
    → length l ≤ 8
    → length (assoc_info_reply_msg l []) < topo_max_buffer
answer-fits t b few = omega (arith, assoc_info_reply_msg-length t b, few)

-- An answer that fits its buffer is sent over IPv4, and the context stays.
pub send_answer-sends :
    (ctx : MainCtx) (before : List Effect) (d : Datagram) (to : SockAddr)
    → length (assoc_info_reply_msg ctx.node_list []) < topo_max_buffer
    → to.family ≡ af_inet
    → send_answer ctx before d to
      ≡ goes_on ctx
          (before ++ sendmsg_from (assoc_info_reply_msg ctx.node_list []) to d.sender ∷ [])
unfolding send_answer
send_answer-sends ctx before d to room inet =
    let short : leb topo_max_buffer (length (assoc_info_reply_msg ctx.node_list [])) ≡ false =
      ground (arith, room) in
    rw (short, udp_send_fromto-inet (assoc_info_reply_msg ctx.node_list []) to d.sender inet)

-- A server with at most seven nodes, all of them bounded, answers an IPv4 report without writing
-- past the end of its buffer, and keeps its context.
pub send_answer-fits :
    (ctx : MainCtx) (before : List Effect) (d : Datagram) (to : SockAddr)
    → IsTable ctx.node_list
    → AllBounded ctx.node_list
    → length ctx.node_list ≤ 8
    → to.family ≡ af_inet
    → send_answer ctx before d to
      ≡ goes_on ctx
          (before ++ sendmsg_from (assoc_info_reply_msg ctx.node_list []) to d.sender ∷ [])
send_answer-fits ctx before d to t b few inet =
    send_answer-sends ctx before d to (answer-fits t b few) inet

-- An answer of `TOPO_MAX_BUFFER` bytes or more is written past the end of its buffer.
pub send_answer-faults :
    (ctx : MainCtx) (before : List Effect) (d : Datagram) (to : SockAddr)
    → topo_max_buffer ≤ length (assoc_info_reply_msg ctx.node_list [])
    → send_answer ctx before d to ≡ faults
unfolding send_answer
send_answer-faults ctx before d to long =
    let full : leb topo_max_buffer (length (assoc_info_reply_msg ctx.node_list [])) ≡ true =
      ground arith in
    rw full
