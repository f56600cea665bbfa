-- ===== src/Topo/Udp/Sync.antt =====
-- A client that reads the server's answer ends with the server's nodes.
use mathlib.Core.Option
use k8s.Topo.Node.{
  NodeList, NodeInfo, assoc_info_line, merge_omp_info, node_proc_omp_send_info,
  assoc_info_reply_msg, assoc_info_unset_chk_flag, same_ips,
}
use k8s.Common.{
  Bytes, str_eq_iff, ℕ, ◌≡◌, refl, false, Option, none, some, ◌∷◌, arith, is_nil, strtok,
  str_eq_refl, ◌+◌, ◌∙◌, [], ◌++◌, strtok-line, if◌then◌else◌,
}
use k8s.Elem.Lookup.{find, find-at}
use k8s.Elem.Order.{node, IsSorted, nil, cons, IsTable, root_node, table}
use k8s.Topo.Node.Message.{
  IsPublic, public_part, assoc_info_get_from_omp-assoc_info_line, reply_text,
  assoc_info_reply_msg_lem,
}
use k8s.Topo.Node.Report.{merged_omp, merge_omp_info-find}
use k8s.Topo.Udp.{client_lines, is_update, client_recv}
use k8s.Topo.Node.Expiry.{
  assoc_info_unset-find, assoc_info_unset-IsTable, assoc_info_remove-find,
  assoc_info_remove-IsTable,
}

-- Each node stands under its own name, and its line can be read back.
unfoldable pub IsServed : NodeList → Type 0
IsServed l = (k : Bytes) (d : NodeInfo) → find l k ≡ some d → (d.name ≡ k) × IsPublic d

-- What a client makes of a line of node `d`.
abbrev pub checked : NodeInfo → NodeInfo
checked d = record (public_part d) { chk_exist_flag = 1 }

-- What a client has under a name after the lines of `o`, with `c` before.
abbrev pub after_line : Option NodeInfo → Option NodeInfo → Option NodeInfo
after_line none c = c
after_line (some d) c = some (merged_omp c (checked d))

omp_line :
    (l : NodeList) (d : NodeInfo)
    → IsPublic d
    → node_proc_omp_send_info l (assoc_info_line d) ≡ merge_omp_info l (checked d)
unfolding node_proc_omp_send_info
omp_line l d p =
    rw (node_proc_omp_send_info, assoc_info_get_from_omp-assoc_info_line d p.fields p.vnfc_id)

append_ne_nil : (a : Bytes) (c : ℕ) (b : Bytes) → is_nil (a ++ c ∷ b) ≡ false
append_ne_nil [] c b = refl
append_ne_nil (x ∷ a) c b = refl

line_ne_nil : (d : NodeInfo) → IsPublic d → is_nil (assoc_info_line d) ≡ false
unfolding assoc_info_line
line_ne_nil d p = append_ne_nil d.name _ _

IsServed-tail :
    {k : Bytes} {es : NodeList} (d : NodeInfo)
    → IsSorted (some k) es
    → IsServed (node k d ∷ es)
    → IsServed es
unfolding IsServed find
IsServed-tail {k} d s served j f e = served j f (ground (arith, str_eq_iff j k, find-at s))

-- The loop over the lines of a sorted list.
client_lines-find :
    {lo : Option Bytes} {es : NodeList} (c : NodeList × ℕ) (j : Bytes)
    → IsSorted lo es
    → IsServed es
    → IsTable c.0
    → (find (client_lines (strtok b'\n' (reply_text es)) c).0 j
        ≡ after_line (find es j) (find c.0 j))
      × IsTable (client_lines (strtok b'\n' (reply_text es)) c).0
unfolding client_lines find IsServed
client_lines-find c j nil served t = unfold strtok in (refl, t)
client_lines-find c j (cons {k} {d} {es = rest} m s) served t =
    let (name, public) = served k d (ground (arith, str_eq_refl k)) in
    let split =
      strtok-line b'\n' (assoc_info_line d) (reply_text rest) (line_ne_nil d public)
        public.one_line in
    let step = merge_omp_info-find (checked d) j t in
    let r = merge_omp_info c.0 (checked d) in
    let later =
      client_lines-find (r.0, if is_update r.1 then c.1 + 1 else c.1) j s (IsServed-tail d s served)
        step.2 in
    rw (split, client_lines, omp_line c.0 d public)
      (later.0 ∙ ground (arith, step.0, name, find-at s, str_eq_iff j k), later.1)

-- The list of a server: a table whose root is passed over by the walk.
reply-find :
    {s : NodeList} (c : NodeList × ℕ) (j : Bytes)
    → IsTable s
    → IsServed s
    → IsTable c.0
    → (find (client_lines (strtok b'\n' (assoc_info_reply_msg s [])) c).0 j
        ≡ after_line (find s j) (find c.0 j))
      × IsTable (client_lines (strtok b'\n' (assoc_info_reply_msg s [])) c).0
unfolding find IsServed
reply-find c j (table {es} sorted) served t =
    rw (assoc_info_reply_msg_lem (root_node ∷ es)) (client_lines-find c j sorted served t)

-- What a client has of a node that the server has: its own entry, if the addresses are the same,
-- and else the server's line.
abbrev pub synced : Option NodeInfo → NodeInfo → NodeInfo
synced none d = checked d
synced (some already) d =
    if same_ips already d then record already { chk_exist_flag = 1 } else checked d

-- A client that has read the whole answer of a server has the nodes of the server and no other:
-- under each name its own entry, where the two addresses agree, and else the ten fields that the
-- server has.
pub client_recv-find :
    {s c : NodeList} (j : Bytes)
    → IsTable s
    → IsServed s
    → IsTable c
    → find (client_recv c (assoc_info_reply_msg s [])).0 j
      ≡ Option.map (synced (find c j)) (find s j)
unfolding client_recv same_ips Option.bind
client_recv-find {s} {c} j ts served tc =
    let start = assoc_info_unset_chk_flag c in
    let read = reply-find (start, 0) j ts served (assoc_info_unset-IsTable tc) in
    assoc_info_remove-find j read.1 ∙ ground (arith, read.0, assoc_info_unset-find j tc)

pub client_recv-IsTable :
    {s c : NodeList}
    → IsTable s
    → IsServed s
    → IsTable c
    → IsTable (client_recv c (assoc_info_reply_msg s [])).0
unfolding client_recv
client_recv-IsTable {s} {c} ts served tc =
    assoc_info_remove-IsTable
      (reply-find (assoc_info_unset_chk_flag c, 0) [] ts served (assoc_info_unset-IsTable tc)).1
