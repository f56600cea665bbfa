-- ===== src/Topo/Serving/Few.antt =====
-- The event loop of the server of src/topo/main.c, while few names report themselves.
use mathlib.Core.Option
use k8s.Common.{
  Bytes, c_string, str_eq, str_eq_iff, ℕ, ◌+◌, ◌≤◌, ◌≡◌, refl, ap, ◌∙◌, true, false, Option, none,
  some, List, [], ◌∷◌, ◌++◌, arith, length, inl, inr, append-nil, ◌<◌,
}
use k8s.Topo.Serving.{
  second, datagram, ServerEvent, IsOther, AllOther, tables_after, serve, serve-cases, IsOverlong,
  FirstOverlong,
}
use k8s.Topo.Serving.Order.{tables_after-Reach, start-AllBounded}
use k8s.Elem.Count.{has, length-IsTable}
use k8s.Elem.Lookup.{find}
use k8s.Topo.Context.{MainCtx, cr_server, goes_on, topo_max_buffer}
use k8s.Topo.Init.{server_context, server_context-node_list, server_context-IsTable, omp_node_info}
use k8s.Topo.Node.{NodeInfo, assoc_info_get_from_pod, NodeList}
use k8s.Topo.Run.{omp, NotOmp, here, IsServing, start-IsServing, server-IsServing}
use k8s.Topo.Serving.ByName.{report_at, turn_at, replay, tables_after-replay, IsView}
use k8s.Topo.Udp.Fromto.{received, recv_failed}
use k8s.Topo.Effect.{Effect}
use k8s.Topo.Udp.Bounds.{IsBounded}
use k8s.Topo.Udp.Room.{Reach-room}
use k8s.Topo.Udp.Server.{SortNodes}

-- Every datagram fits the buffer that it is received in, with its NUL, and is one of these names
-- where it is read as a report.
abbrev pub IsAmong : List Bytes → ServerEvent → Type 0
IsAmong ns (second now) = Unit
IsAmong ns (datagram now (recv_failed code)) = Unit
IsAmong ns (datagram now (received d to tolen)) =
    (length (c_string d.payload) < topo_max_buffer)
    × ((r : NodeInfo)
        → assoc_info_get_from_pod (c_string d.payload) ≡ some r
        → has r.name ns ≡ true)

abbrev pub AllAmong : List Bytes → List ServerEvent → Type 0
AllAmong ns [] = Unit
AllAmong ns (e ∷ es) = IsAmong ns e × AllAmong ns es

has-ne : (j k : Bytes) (ns : List Bytes) → has j ns ≡ true → has k ns ≡ false → str_eq k j ≡ false
has-ne j k [] h n = absurd (cc h)
has-ne j k (a ∷ ns) h n =
    ground (arith, h, n, has-ne j k ns, str_eq_iff j a, str_eq_iff k a, str_eq_iff k j)

IsAmong-IsOther :
    (ns : List Bytes) (e : ServerEvent) → has omp ns ≡ false → IsAmong ns e → IsOther e
unfolding NotOmp
IsAmong-IsOther ns (second now) new a = tt
IsAmong-IsOther ns (datagram now (recv_failed code)) new a = tt
IsAmong-IsOther ns (datagram now (received d to tolen)) new a =
    λ r e same. absurd (cc (rw same at (a.1 r e), new))

AllAmong-AllOther :
    (ns : List Bytes) (es : List ServerEvent) → has omp ns ≡ false → AllAmong ns es → AllOther es
AllAmong-AllOther ns [] new a = tt
AllAmong-AllOther ns (e ∷ es) new a =
    (IsAmong-IsOther ns e new a.0, AllAmong-AllOther ns es new a.1)

report_at-none :
    (j : Bytes) (now : ℕ) (ns : List Bytes) (p : Option NodeInfo)
    → has j ns ≡ false
    → ((r : NodeInfo) → p ≡ some r → has r.name ns ≡ true)
    → report_at j now p none ≡ none
report_at-none j now ns none absent a = refl
report_at-none j now ns (some r) absent a = rw (has-ne r.name j ns (a r refl) absent) refl

turn_at-none :
    (j : Bytes) (ns : List Bytes) (e : ServerEvent)
    → has j ns ≡ false
    → IsAmong ns e
    → turn_at j e none ≡ none
unfolding Option.bind
turn_at-none j ns (second now) absent a = refl
turn_at-none j ns (datagram now (recv_failed code)) absent a = refl
turn_at-none j ns (datagram now (received d to tolen)) absent a =
    report_at-none j now ns (assoc_info_get_from_pod (c_string d.payload)) absent a.1

replay-none :
    (j : Bytes) (ns : List Bytes) (es : List ServerEvent)
    → has j ns ≡ false
    → AllAmong ns es
    → replay j es none ≡ none
unfolding replay
replay-none j ns [] absent a = refl
replay-none j ns (e ∷ es) absent a =
    ap (replay j es) (turn_at-none j ns e absent a.0) ∙ replay-none j ns es absent a.1

AllAmong-before :
    (ns : List Bytes) (before after : List ServerEvent)
    → AllAmong ns (before ++ after)
    → AllAmong ns before
AllAmong-before ns [] after a = tt
AllAmong-before ns (e ∷ es) after a = (a.0, AllAmong-before ns es after a.1)

IsAmong-fits : (ns : List Bytes) (e : ServerEvent) → IsAmong ns e → IsOverlong e → ⊥
IsAmong-fits ns (second now) a over = over
IsAmong-fits ns (datagram now (recv_failed code)) a over = over
IsAmong-fits ns (datagram now (received d to tolen)) a over = omega (arith, a.0, over)

-- No datagram is too long.
AllAmong-fits :
    (ns : List Bytes) (before after : List ServerEvent)
    → AllAmong ns (before ++ after)
    → FirstOverlong after
    → ⊥
AllAmong-fits ns [] [] a over = over
AllAmong-fits ns [] (e ∷ es) a over = IsAmong-fits ns e a.0 over
AllAmong-fits ns (e ∷ es) after a over = AllAmong-fits ns es after a.1 over

module _ (ctx : MainCtx) (mp_label : Bytes) (ns : List Bytes) (es : List ServerEvent) where
  -- The table has no more nodes than there are names, beside the OMP's.
  length-tables_after :
      AllAmong ns es
      → length (tables_after es (server_context ctx mp_label).node_list) ≤ length ns + 2
  unfolding find
  length-tables_after a =
      let start = server_context ctx mp_label in
      let (t, at) = tables_after-replay es (server_context-IsTable ctx mp_label) in
      let rest = length-IsTable (omp ∷ ns) t λ j absent.
        let new : find start.node_list j ≡ none =
          rw (server_context-node_list ctx mp_label) (ground (arith, absent)) in
        at j ∙ ap (replay j es) new ∙ replay-none j ns es (ground (arith, absent)) a in
      omega (arith, rest)

-- While the datagrams fit their buffer with their NUL, and those that are read as reports are about
-- six names at most, of which none is the OMP's, the event loop of a server goes through every sequence of events without a fault, and
-- under each name of its table stands what that name's own sequence of reports and cleanups leads to;
-- the OMP's node stays as it was at the start, and its fields fit theirs.
pub serve-IsView :
    (qsort : SortNodes) (iv_home : Option Bytes) (ctx : MainCtx) (mp_label : Bytes)
    (ns : List Bytes) (es : List ServerEvent)
    → ctx.role ≡ cr_server
    → IsBounded (omp_node_info mp_label ctx.omp_ip ctx.base_port)
    → has omp ns ≡ false
    → length ns ≤ 6
    → AllAmong ns es
    → let start = server_context ctx mp_label in
      (l : NodeList) × (effects : List Effect) × (serve qsort iv_home es start []
        ≡ goes_on (record start { node_list = l }) effects)
      × IsServing (omp_node_info mp_label ctx.omp_ip ctx.base_port) l
      × IsView (λ j. replay j es (find start.node_list j)) l
unfolding server_context omp_node_info
serve-IsView qsort iv_home ctx mp_label ns es role bounded new few among =
    let start = server_context ctx mp_label in
    let other = AllAmong-AllOther ns es new among in
    elim (serve-cases qsort iv_home es start [] role) [
      | inl (effects, went) ↦
          let reached = tables_after-Reach es [] (rw (append-nil es) other) here in
          (
            _,
            effects,
            went,
            server-IsServing ctx mp_label reached,
            tables_after-replay es (server_context-IsTable ctx mp_label),
          )
      | inr (faulted, (before, after, parts, inr over)) ↦
          absurd (AllAmong-fits ns before after (rw parts at among) over)
      | inr (faulted, (before, after, parts, inl long)) ↦
          let reached = tables_after-Reach before after (rw parts at other) here in
          let room =
            Reach-room {o = omp_node_info mp_label ctx.omp_ip ctx.base_port} refl
              (start-IsServing ctx mp_label) (start-AllBounded ctx mp_label bounded) reached long in
          let a = AllAmong-before ns before after (rw parts at among) in
          absurd (omega (arith, room, few, length-tables_after ctx mp_label ns before a))
    ]
