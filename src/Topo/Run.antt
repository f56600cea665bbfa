-- ===== src/Topo/Run.antt =====
-- src/topo/main.c: the timer of the process, and the runs of a server: reports of pods and turns of
-- the timer in any order, at any times.
use mathlib.Core.Option
use k8s.Topo.Node.{
  NodeInfo, NodeList, assoc_info_cleanup, assoc_info_get_from_pod, node_proc_pod_send_info,
}
use k8s.Common.{
  Bytes, codes, ℕ, ◌≡◌, refl, sym, ◌∙◌, ◌≢◌, inl, inr, Option, none, some, List, [], ◌∷◌, arith,
  str_eq_ne, str_eq_refl, str_eq, str_eq_iff, ltb, if◌then◌else◌, Option-cases,
}
use k8s.Elem.Lookup.{find}
use k8s.Elem.Order.{IsTable}
use k8s.Topo.Context.{MainCtx, ClusterRole, cr_client, cr_server}
use k8s.Topo.Effect.{Effect}
use k8s.Topo.Init.{omp_node_info, server_context, server_context-node_list, server_context-IsTable}
use k8s.Topo.Node.Expiry.{assoc_info_cleanup-find, assoc_info_cleanup-IsTable}
use k8s.Topo.Node.Print.{assoc_info_print, node_info_print}
use k8s.Topo.Node.Report.{merged, node_proc_pod_send_info-find, node_proc_pod_send_info-fail}
use k8s.Topo.Udp.Server.{SortNodes}

-- A cleanup that removed nodes writes both files.
tick_role : ClusterRole → SortNodes → ℕ → Option Bytes → MainCtx → MainCtx × List Effect
tick_role cr_client qsort now iv_home ctx = (ctx, [])
tick_role cr_server qsort now iv_home ctx =
    let r = assoc_info_cleanup now ctx.node_list in
    (
      record ctx { node_list = r.0 },
      if ltb 0 r.1
          then assoc_info_print iv_home r.0 ∷ node_info_print qsort iv_home r.0 ∷ []
          else [],
    )

-- `main_tick`; the call of the keepalive library counts up the process's own counter.
unfoldable pub main_tick : SortNodes → ℕ → Option Bytes → MainCtx → MainCtx × List Effect
unfolding tick_role
main_tick qsort now iv_home ctx = tick_role ctx.role qsort now iv_home ctx

-- The address and the name under which the server has itself.
abbrev pub omp : Bytes
omp = codes "OMP"

-- No report is about a node of the OMP's name.
unfoldable pub NotOmp : Bytes → Type 0
NotOmp recv_msg = (d : NodeInfo) → assoc_info_get_from_pod recv_msg ≡ some d → d.name ≢ omp

-- What happens to the table of a server.
pub data Step (l : NodeList) : NodeList → Type 0 where
  report :
      (now : ℕ) (recv_msg : Bytes)
      → NotOmp recv_msg
      → Step l (node_proc_pod_send_info now l recv_msg).0
  tick : (now : ℕ) → Step l (assoc_info_cleanup now l).0

pub data Reach (start : NodeList) : NodeList → Type 0 where
  here : Reach start start
  next : {l l' : NodeList} → Reach start l → Step l l' → Reach start l'

-- What holds of the table of a server all the time: it is a table, each node stands under its own
-- name, and the OMP's node is as it was at the start.
pub record IsServing (o : NodeInfo) (l : NodeList) : Type 0 where
  pub is_table : IsTable l
  pub has_omp : find l omp ≡ some o
  pub named : (k : Bytes) (d : NodeInfo) → find l k ≡ some d → d.name ≡ k

pub merged_name :
    (o : Option NodeInfo) (d : NodeInfo)
    → ((a : NodeInfo) → o ≡ some a → a.name ≡ d.name)
    → (merged o d).name ≡ d.name
merged_name none d h = ground arith
merged_name (some a) d h = ground (arith, h a refl)

-- A table whose nodes stand under their own names, with a report merged.
named_after :
    (l : NodeList) {a : NodeInfo} (d : NodeInfo) (k : Bytes)
    → (if str_eq k d.name then some (merged (find l d.name) d) else find l k) ≡ some a
    → ((j : Bytes) (b : NodeInfo) → find l j ≡ some b → b.name ≡ j)
    → a.name ≡ k
named_after l {a} d k e named =
    let m = merged_name (find l d.name) d (named d.name) in
    ground (arith, m, str_eq_iff k d.name, named k a, e)

report-IsServing :
    (now : ℕ) (recv_msg : Bytes) {o : NodeInfo} {l : NodeList}
    → NotOmp recv_msg
    → IsServing o l
    → IsServing o (node_proc_pod_send_info now l recv_msg).0
unfolding NotOmp
report-IsServing now recv_msg {o} {l} other s =
    elim (Option-cases (assoc_info_get_from_pod recv_msg)) [
      | inl e ↦ rw (node_proc_pod_send_info-fail now l recv_msg e) s
      | inr (d, e) ↦
          let at = λ (j : Bytes). node_proc_pod_send_info-find now recv_msg j s.is_table e in
          record {
            is_table = (at []).2;
            has_omp = (at omp).0 ∙ rw (str_eq_ne omp d.name (λ q. other d e (sym q))) s.has_omp;
            named = λ k a g.
                named_after l (record d { heartbeat_tm = now }) k (sym (at k).0 ∙ g) s.named;
          }
    ]

tick-IsServing :
    (now : ℕ) {o : NodeInfo} {l : NodeList}
    → o.heartbeat_tm ≡ 0
    → IsServing o l
    → IsServing o (assoc_info_cleanup now l).0
unfolding Option.bind
tick-IsServing now {o} {l} omp_node s = record {
  is_table = assoc_info_cleanup-IsTable now s.is_table;
  has_omp = assoc_info_cleanup-find now omp s.is_table ∙ rw s.has_omp (ground (arith, omp_node));
  named = λ k f g. s.named k f (ground (arith, g, assoc_info_cleanup-find now k s.is_table));
}

Step-IsServing :
    {o : NodeInfo} {l l' : NodeList}
    → o.heartbeat_tm ≡ 0
    → Step l l'
    → IsServing o l
    → IsServing o l'
Step-IsServing omp_node (report now recv_msg other) s = report-IsServing now recv_msg other s
Step-IsServing omp_node (tick now) s = tick-IsServing now omp_node s

pub Reach-IsServing :
    {o : NodeInfo} {start l : NodeList}
    → o.heartbeat_tm ≡ 0
    → IsServing o start
    → Reach start l
    → IsServing o l
Reach-IsServing omp_node s here = s
Reach-IsServing omp_node s (next r st) = Step-IsServing omp_node st (Reach-IsServing omp_node s r)

pub start-IsServing :
    (ctx : MainCtx) (mp_label : Bytes)
    → IsServing
        (omp_node_info mp_label ctx.omp_ip ctx.base_port)
        (server_context ctx mp_label).node_list
unfolding omp_node_info find
start-IsServing ctx mp_label = record {
  is_table = server_context-IsTable ctx mp_label;
  has_omp = rw (server_context-node_list ctx mp_label) (ground (arith, str_eq_refl omp));
  named = rw (server_context-node_list ctx mp_label) (λ k d e. ground (arith, e, str_eq_iff k omp));
}

-- In every run of a server, in which no pod reports itself under the name of the OMP, the table is
-- in order, each node stands under its own name, and the OMP's node is never removed or changed.
pub server-IsServing :
    (ctx : MainCtx) (mp_label : Bytes) {l : NodeList}
    → Reach (server_context ctx mp_label).node_list l
    → IsServing (omp_node_info mp_label ctx.omp_ip ctx.base_port) l
unfolding omp_node_info
server-IsServing ctx mp_label r =
    Reach-IsServing {o = omp_node_info mp_label ctx.omp_ip ctx.base_port} refl
      (start-IsServing ctx mp_label) r
