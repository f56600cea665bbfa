-- ===== src/Topo/ClusterTests.antt =====
-- A cluster of a server and two pods at a concrete run.
use mathlib.Core.Option.{some-injective}
use k8s.Common.{
  Bytes, codes, str_eq, str_eq_iff, ◌≡◌, refl, inl, inr, true, false, none, some, List, [], ◌∷◌,
  ◌++◌, arith, length, is_nil, all, is_space, not_bar, leb, ◌==◌, if◌then◌else◌, Bool-cases,
}
use k8s.Elem.Lookup.{find}
use k8s.Elem.Order.{root_node, nil, table}
use k8s.Topo.Context.{MainCtx}
use k8s.Topo.Cluster.{
  run, Cluster, lost, unanswered, answered, ClusterEvent, exchange, cleanup, Net,
}
use k8s.Topo.Cluster.Agree.{Agrees, AllOf}
use k8s.Topo.Cluster.Clean.{IsPlain, IsGood, IsClean, IsSane}
use k8s.Topo.Cluster.Rounds.{round_of, run-Agrees}
use k8s.Topo.Cluster.Safe.{RunsTo}
use k8s.Topo.Cluster.Sound.{IsSound}
use k8s.Topo.Cluster.Tidy.{IsTidy}
use k8s.Topo.Init.{omp_node_info, server_context, server_context-node_list, server_context-IsTable}
use k8s.Topo.Node.{NodeInfo}
use k8s.Topo.Run.{omp}
use k8s.Topo.Samples.{field, server_addr, pod_addr, server_ctx, client_ctx}

good :
    (f : Bytes)
    → is_nil f ≡ false
    → all not_bar f ≡ true
    → leb (length f) 127 ≡ true
    → IsPlain f
    → IsGood f
good f e b l p = record { is_field = field f e b l; plain = p }

abbrev first_pod : MainCtx
first_pod = record client_ctx { node_list = root_node ∷ [] }

abbrev second_pod : MainCtx
second_pod = record first_pod {
  name = codes "MP_2";
  my_pod_ip = codes "10.1.0.2";
  my_pod_name = codes "mp-1";
}

first_pod-IsSane : IsSane first_pod
unfolding is_space
first_pod-IsSane = record {
  fields = (
    good (codes "MP_1") refl refl refl (refl, refl),
    (
      good (codes "MP") refl refl refl (refl, refl),
      (
        good (codes "G") refl refl refl (refl, refl),
        (
          good (codes "10.0.0.1") refl refl refl (refl, refl),
          (
            good (codes "10.1.0.1") refl refl refl (refl, refl),
            (
              good (codes "0x1389") refl refl refl (refl, refl),
              (good (codes "node-a") refl refl refl (refl, refl), tt),
            ),
          ),
        ),
      ),
    ),
  );
  pod_field = good (codes "mp-0") refl refl refl (refl, refl);
  word = record { no_space = refl; fits = omega arith };
}

second_pod-IsSane : IsSane second_pod
unfolding is_space
second_pod-IsSane =
    let (_, (type_name, (group, (node_ip, (_, (port, node_name)))))) = first_pod-IsSane.fields in
    record {
      fields = (
        good (codes "MP_2") refl refl refl (refl, refl),
        (
          type_name,
          (
            group,
            (node_ip, (good (codes "10.1.0.2") refl refl refl (refl, refl), (port, node_name))),
          ),
        ),
      );
      pod_field = good (codes "mp-1") refl refl refl (refl, refl);
      word = record { no_space = refl; fits = omega arith };
    }

abbrev cluster : Cluster
cluster = record {
  server = server_context server_ctx (codes "L");
  pods = λ i. if i == 0 then first_pod else second_pod;
}

abbrev names : List Bytes
names = omp ∷ codes "MP_1" ∷ codes "MP_2" ∷ []

abbrev omp_node : NodeInfo
omp_node = omp_node_info (codes "L") server_ctx.omp_ip server_ctx.base_port

omp_node-IsClean : IsClean omp_node
unfolding omp_node_info is_space k8s.Common.print_base k8s.Common.as_u32
omp_node-IsClean = record {
  fields = (
    good (codes "OMP") refl refl refl (refl, refl),
    (
      good (codes "OMP") refl refl refl (refl, refl),
      (
        good (codes "L") refl refl refl (refl, refl),
        (
          good (codes "10.0.0.2") refl refl refl (refl, refl),
          (
            good (codes "NULL") refl refl refl (refl, refl),
            (
              good (codes "0x1389") refl refl refl (refl, refl),
              (
                good (codes "NULL") refl refl refl (refl, refl),
                (
                  good (codes "NULL") refl refl refl (refl, refl),
                  (good (codes "OMP_SYSTEM") refl refl refl (refl, refl), tt),
                ),
              ),
            ),
          ),
        ),
      ),
    ),
  );
  word = record { no_space = refl; fits = omega arith };
  plain = (refl, refl);
}

start_find :
    (k : Bytes) → find cluster.server.node_list k ≡ (if str_eq k omp then some omp_node else none)
unfolding find
start_find k = rw (server_context-node_list server_ctx (codes "L")) refl

start-IsTidy : IsTidy names cluster.server.node_list
unfolding omp_node_info
start-IsTidy = record {
  is_table = server_context-IsTable server_ctx (codes "L");
  nodes = λ k d there. elim (Bool-cases (str_eq k omp)) [
    | inl y ↦
        let is = some-injective omp_node d (ground (arith, start_find k, there, y)) in
        rw (← is, (str_eq_iff k omp).0 y) (refl, omp_node-IsClean)
    | inr n ↦ ground (arith, start_find k, there, n)
  ];
  within = λ j absent. ground (arith, start_find j, absent);
}

cluster-IsSound : IsSound 2 names cluster
unfolding server_context str_eq find
cluster-IsSound = record {
  role = refl;
  few = omega arith;
  tidy = start-IsTidy;
  sane = λ i small. elim (Bool-cases (i == 0)) [
    | inl y ↦ rw y first_pod-IsSane
    | inr n ↦ rw n second_pod-IsSane
  ];
  tables =
      λ i small. elim (Bool-cases (i == 0)) [ inl y ↦ rw y (table nil) | inr n ↦ rw n (table nil) ];
  known = λ i small. elim (Bool-cases (i == 0)) [ inl y ↦ rw y refl | inr n ↦ rw n refl ];
  apart = λ i k in_i in_k same. ground (arith, in_i, in_k, same);
}

abbrev net : Net
net = record {
  qsort = λ c l. l;
  iv_home = none;
  server_addr = server_addr;
  tolen = 16;
  pod_addr = λ i. pod_addr;
}

-- A report is lost, an answer is lost, and a node is cleaned up and comes back.
abbrev cluster_events : List ClusterEvent
cluster_events =
    exchange 100 0 lost ∷ exchange 101 1 answered ∷ exchange 102 0 unanswered ∷ cleanup 161 ∷ []

run-Agrees_example :
    RunsTo
      (λ c'. IsSound 2 names c' × AllOf (Agrees c') (0 ∷ 1 ∷ []))
      (run net (cluster_events ++ (round_of 170 (0 ∷ 1 ∷ []) ++ round_of 171 (0 ∷ 1 ∷ []))) cluster)
run-Agrees_example =
    run-Agrees net cluster cluster_events 170 171 (0 ∷ 1 ∷ []) refl cluster-IsSound
      (omega arith, (omega arith, (omega arith, tt))) (omega arith, (omega arith, tt))
