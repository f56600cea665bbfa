-- ===== src/Topo/Udp.antt =====
-- src/topo/udp.c: the exchange of the table between the server and its clients.
pub mod Fromto
pub mod Server
pub mod Client
pub mod Bounds
pub mod Serve
pub mod Sync
pub mod Round
pub mod Room
use k8s.Topo.Node.{
  NodeList, NodeProcRes, np_add, np_rep, assoc_info_unset_chk_flag, assoc_info_remove_uncheck_node,
  node_proc_omp_send_info,
}
use k8s.Common.{Bytes, ℕ, ◌+◌, Bool, true, false, List, [], ◌∷◌, strtok, if◌then◌else◌}

-- `res == NP_ADD || res == NP_REP`
unfoldable pub is_update : NodeProcRes → Bool
is_update np_add = true
is_update np_rep = true
is_update _ = false

-- The loop of `udp_client_proc` over the lines of the answer, with `update_count`.
unfoldable pub client_lines : List Bytes → NodeList × ℕ → NodeList × ℕ
unfolding is_update
client_lines [] s = s
client_lines (line ∷ lines) s =
    let r = node_proc_omp_send_info s.0 line in
    client_lines lines (r.0, if is_update r.1 then s.1 + 1 else s.1)

-- `udp_client_proc` from the answer on: the new table, and the final `update_count`.
unfoldable pub client_recv : NodeList → Bytes → NodeList × ℕ
unfolding client_lines
client_recv l recv_msg =
    let read = client_lines (strtok b'\n' recv_msg) (assoc_info_unset_chk_flag l, 0) in
    let cleared = assoc_info_remove_uncheck_node read.0 in (cleared.0, read.1 + cleared.1)
