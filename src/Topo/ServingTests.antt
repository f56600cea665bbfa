-- ===== src/Topo/ServingTests.antt =====
-- A run of a server at concrete events.
use mathlib.Core.Option.{some-injective}
use k8s.Topo.Samples.{
  report_parsed, report_info, report_datagram, server_addr, server_ctx, server_list-IsTable,
  report_msg,
}
use k8s.Common.{
  codes, c_string, ◌≤◌, ◌≡◌, refl, sym, ap, ◌∙◌, ◌⊎◌, none, List, [], ◌∷◌, arith, length, some,
  Bytes, str_eq, str_eq_iff, true, false, ◌++◌,
}
use k8s.Topo.Context.{MainCtx, goes_on, faults}
use k8s.Topo.Effect.{Effect}
use k8s.Topo.Init.{omp_node_info, server_context}
use k8s.Topo.Node.{NodeInfo, assoc_info_get_from_pod}
use k8s.Topo.Run.{omp, NotOmp, IsServing}
use k8s.Topo.Serving.{
  ServerEvent, second, datagram, serve, GoesOr, tables_after, IsLong, FirstOverlong,
}
use k8s.Topo.Serving.Order.{serve-IsServing}
use k8s.Topo.Udp.Fromto.{einval, received, recv_failed}
use k8s.Topo.Udp.Bounds.{IsBounded}
use k8s.Topo.Serving.ByName.{concerns, SomeFault, serve-by_name}
use k8s.Topo.Serving.Few.{AllAmong}
use k8s.Topo.Serving.Log.{only-swap}

abbrev events : List ServerEvent
events =
    datagram 130 (received report_datagram server_addr 16)
    ∷ second 140
    ∷ datagram 150 (recv_failed (some einval))
    ∷ second 500
    ∷ []

report_is_other : NotOmp (c_string report_datagram.payload)
unfolding NotOmp c_string
report_is_other d e p =
    let q : report_info.name ≡ omp =
      ap (λ (x : NodeInfo). x.name) (some-injective report_info d (sym report_parsed ∙ e)) ∙ p in
    ground (arith, q)

omp_node-IsBounded : IsBounded (omp_node_info (codes "L") server_ctx.omp_ip server_ctx.base_port)
unfolding omp_node_info k8s.Common.print_base k8s.Common.as_u32
omp_node-IsBounded = record {
  name = omega arith;
  type_name = omega arith;
  group = omega arith;
  mgnt_pri_ip = omega arith;
  mgnt_sec_ip = omega arith;
  mgnt_port = omega arith;
  serv_pri_ip = omega arith;
  serv_sec_ip = omega arith;
  info_name = omega arith;
  vnfc_id = omega arith;
}

serve-IsServing_example :
    let o = omp_node_info (codes "L") server_ctx.omp_ip server_ctx.base_port in
    let start = server_context server_ctx (codes "L") in
    let out = serve (λ c l. l) none events start [] in
    let at = λ (before : List ServerEvent). tables_after before start.node_list in
    ((effects : List Effect) × (out ≡ goes_on (record start { node_list = at events }) effects)
      × IsServing o (at events))
    ⊎ ((out ≡ faults)
        × (before after : List ServerEvent) × (events ≡ before ++ after)
        × IsServing o (at before)
        × ((IsLong (at before) × (9 ≤ length (at before))) ⊎ FirstOverlong after))
serve-IsServing_example =
    serve-IsServing (λ c l. l) none server_ctx (codes "L") events refl omp_node-IsBounded
      (report_is_other, (tt, (tt, (tt, tt))))

abbrev other_msg : Bytes
other_msg = codes "MP_2|MP|G|10.0.0.1|10.1.0.2|0x1390|node-a|mp-1"

abbrev other_info : NodeInfo
other_info = record report_info {
  name = codes "MP_2";
  serv_pri_ip = codes "10.1.0.2";
  mgnt_port = codes "0x1390";
  pod_name = codes "mp-1";
}

other_parsed : assoc_info_get_from_pod (c_string other_msg) ≡ some other_info
unfolding assoc_info_get_from_pod c_string k8s.Common.take_set k8s.Common.is_space
other_parsed = refl

abbrev one_report : ServerEvent
one_report = datagram 130 (received report_datagram server_addr 16)

abbrev other_report : ServerEvent
other_report =
    datagram 131 (received (record report_datagram { payload = other_msg }) server_addr 16)

-- The reports of two pods, and a later turn of the timer.
abbrev pub in_order : List ServerEvent
in_order = one_report ∷ other_report ∷ second 140 ∷ []

abbrev swapped : List ServerEvent
swapped = other_report ∷ one_report ∷ second 140 ∷ []

report_text : c_string report_msg ≡ report_msg
unfolding c_string
report_text = refl

names_apart : str_eq report_info.name other_info.name ≡ false
unfolding str_eq
names_apart = refl

reports_apart : (j : Bytes) → concerns j one_report ≡ true → concerns j other_report ≡ false
reports_apart j h =
    let mine : str_eq j report_info.name ≡ true = rw (report_text, report_parsed) at h in
    rw (other_parsed, (str_eq_iff j report_info.name).0 mine) names_apart

serve-by_name_example :
    (ctx' : MainCtx) × GoesOr
      (SomeFault server_ctx.node_list in_order)
      ctx'
      (serve (λ c l. l) none in_order server_ctx [])
    × GoesOr
        (SomeFault server_ctx.node_list swapped)
        ctx'
        (serve (λ c l. l) none swapped server_ctx [])
serve-by_name_example =
    serve-by_name (λ c l. l) none in_order swapped server_ctx refl server_list-IsTable
      (only-swap [] one_report other_report (second 140 ∷ []) reports_apart)

pub in_order-AllAmong : AllAmong (codes "MP_1" ∷ codes "MP_2" ∷ []) in_order
unfolding str_eq c_string
in_order-AllAmong = (
  (
    omega arith,
    (λ r e. let is = some-injective report_info r (sym report_parsed ∙ e) in rw (← is) refl),
  ),
  (
    (
      omega arith,
      (λ r e. let is = some-injective other_info r (sym other_parsed ∙ e) in rw (← is) refl),
    ),
    (tt, tt),
  ),
)
