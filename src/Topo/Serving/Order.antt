-- ===== src/Topo/Serving/Order.antt =====
-- What the event loop of a server of src/topo/main.c keeps, and where it ends.
use mathlib.Core.Option.{some-injective}
use k8s.Topo.Run.{
  Reach, tick, report, next, here, IsServing, server-IsServing, omp, start-IsServing,
}
use k8s.Common.{
  Bytes, c_string, ◌≤◌, ◌≡◌, inl, inr, Option, List, [], ◌∷◌, ◌++◌, arith, length, Bool-cases, refl,
  ◌⊎◌, str_eq, append-nil,
}
use k8s.Topo.Context.{MainCtx, cr_server, goes_on, faults}
use k8s.Topo.Effect.{Effect}
use k8s.Topo.Node.{NodeList}
use k8s.Topo.Udp.Fromto.{received, recv_failed}
use k8s.Topo.Udp.Server.{SortNodes}
use k8s.Topo.Init.{omp_node_info, server_context, server_context-node_list}
use k8s.Elem.Lookup.{find}
use k8s.Topo.Udp.Bounds.{IsBounded, AllBounded}
use k8s.Topo.Udp.Room.{Reach-room}
use k8s.Topo.Serving.{
  ServerEvent, second, datagram, AllOther, IsOther, table_after, tables_after, IsLong,
  FirstOverlong, serve, serve-cases,
}

table_after-Step :
    (e : ServerEvent) {start l : NodeList}
    → IsOther e
    → Reach start l
    → Reach start (table_after e l)
unfolding table_after
table_after-Step (second now) other r = next r (tick now)
table_after-Step (datagram now (recv_failed code)) other r = r
table_after-Step (datagram now (received d to tolen)) other r =
    next r (report now (c_string d.payload) other)

pub tables_after-Reach :
    (before after : List ServerEvent) {start l : NodeList}
    → AllOther (before ++ after)
    → Reach start l
    → Reach start (tables_after before l)
unfolding tables_after
tables_after-Reach [] after other r = r
tables_after-Reach (e ∷ es) after other r =
    tables_after-Reach es after other.1 (table_after-Step e other.0 r)

pub start-AllBounded :
    (ctx : MainCtx) (mp_label : Bytes)
    → IsBounded (omp_node_info mp_label ctx.omp_ip ctx.base_port)
    → AllBounded (server_context ctx mp_label).node_list
unfolding AllBounded find
start-AllBounded ctx mp_label bounded =
    let o = omp_node_info mp_label ctx.omp_ip ctx.base_port in
    rw (server_context-node_list ctx mp_label) (λ k d e. elim (Bool-cases (str_eq k omp)) [
      | inl y ↦ rw (← some-injective o d (ground (arith, e, y))) bounded
      | inr n ↦ ground (arith, e, n)
    ])

-- The callbacks of a server, called in any order on any datagrams of which none is a report under
-- the name of the OMP, either go on, with the table that their events lead to, or there is a fault
-- behind a first part of the events: the answer about the table that this part leads to does not fit
-- its buffer, and the table has at least eight nodes, or the text of the datagram that comes next does
-- not fit its own. Each of these tables is in order, with each node under its own name and the OMP's
-- node as it was at the start. The fields of the OMP's node fit theirs; where the path of a file does
-- not, that is an effect.
pub serve-IsServing :
    (qsort : SortNodes) (iv_home : Option Bytes) (ctx : MainCtx) (mp_label : Bytes)
    (es : List ServerEvent)
    → ctx.role ≡ cr_server
    → IsBounded (omp_node_info mp_label ctx.omp_ip ctx.base_port)
    → AllOther es
    → let o = omp_node_info mp_label ctx.omp_ip ctx.base_port in
      let start = server_context ctx mp_label in
      let out = serve qsort iv_home es start [] in
      let at = λ (before : List ServerEvent). tables_after before start.node_list in
      ((effects : List Effect) × (out ≡ goes_on (record start { node_list = at es }) effects)
        × IsServing o (at es))
      ⊎ ((out ≡ faults)
          × (before after : List ServerEvent) × (es ≡ before ++ after)
          × IsServing o (at before)
          × ((IsLong (at before) × (9 ≤ length (at before))) ⊎ FirstOverlong after))
unfolding server_context omp_node_info
serve-IsServing qsort iv_home ctx mp_label es role bounded other =
    let start = server_context ctx mp_label in
    elim (serve-cases qsort iv_home es start [] role) [
      | inl (effects, went) ↦
          let reached = tables_after-Reach es [] (rw (append-nil es) other) here in
          inl (effects, went, server-IsServing ctx mp_label reached)
      | inr (faulted, (before, after, parts, inr over)) ↦
          let reached = tables_after-Reach before after (rw parts at other) here in
          inr (faulted, before, after, parts, server-IsServing ctx mp_label reached, inr over)
      | inr (faulted, (before, after, parts, inl long)) ↦
          let reached = tables_after-Reach before after (rw parts at other) here in
          let room =
            Reach-room {o = omp_node_info mp_label ctx.omp_ip ctx.base_port} refl
              (start-IsServing ctx mp_label) (start-AllBounded ctx mp_label bounded) reached long in
          inr
            (faulted, before, after, parts, server-IsServing ctx mp_label reached, inl (long, room))
    ]
