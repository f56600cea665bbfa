-- ===== src/Topo/Cluster/Safe.antt =====
-- Runs of a cluster of src/topo: exchanges that get through or not, and cleanups, in any order.
use mathlib.Core.Option.{some-injective}
use k8s.Topo.Cluster.{lost}
use k8s.Common.{
  Bytes, ℕ, ◌<◌, ◌≡◌, refl, sym, ap, ◌∙◌, inl, inr, Option, some, List, [], ◌∷◌, ◌++◌, arith, ◌==◌,
  Bool-cases, Option-cases,
}
use k8s.Elem.Count.{has}
use k8s.Elem.Order.{IsTable}
use k8s.Topo.Context.{MainCtx}
use k8s.Topo.Run.{main_tick}
use k8s.Topo.Cluster.{
  step, run, Cluster, Fate, unanswered, answered, ClusterEvent, exchange, cleanup, Net, with_pod,
}
use k8s.Topo.Cluster.Clean.{IsSane}
use k8s.Topo.Cluster.Sound.{
  IsSound, pod_table, server_after, answer_after, exchanged, after-IsTidy, step-exchange,
}
use k8s.Topo.Cluster.Tidy.{cleanup-IsTidy, IsTidy-IsServed}
use k8s.Topo.Effect.{af_inet}
use k8s.Topo.Node.{NodeList}
use k8s.Topo.Udp.Sync.{client_recv-IsTable}

-- The exchanges are those of the pods.
abbrev pub AllIn : ℕ → List ClusterEvent → Type 0
AllIn num [] = Unit
AllIn num (exchange now i fate ∷ es) = (i < num) × AllIn num es
AllIn num (cleanup now ∷ es) = AllIn num es

abbrev pub RunsTo : (Cluster → Type 0) → Option Cluster → Type 0
RunsTo P o = (c : Cluster) × (o ≡ some c) × P c

moved-IsSane : (ctx : MainCtx) (l : NodeList) → IsSane ctx → IsSane (record ctx { node_list = l })
moved-IsSane ctx l s = record { fields = s.fields; pod_field = s.pod_field; word = s.word }

-- An exchange changes nothing of a pod but its table.
pub pod_kept :
    {A : Type 0} (f : MainCtx → A)
    (kept : (ctx : MainCtx) (l : NodeList) → f (record ctx { node_list = l }) ≡ f ctx) (c : Cluster)
    (i k : ℕ) (server : MainCtx) (l : NodeList)
    → f ((with_pod c i server (record (c.pods i) { node_list = l })).pods k) ≡ f (c.pods k)
pod_kept f kept c i k server l = elim (Bool-cases (k == i)) [
  | inl own ↦
      let is : k ≡ i = ground (arith, own) in
      rw own (kept (c.pods i) l ∙ ap (λ n. f (c.pods n)) (sym is))
  | inr other ↦ rw other refl
]

after-role :
    (net : Net) (c : Cluster) (now i : ℕ) (fate : Fate)
    → (server_after net c now i fate).role ≡ c.server.role
after-role net c now i lost = refl
after-role net c now i unanswered = refl
after-role net c now i answered = refl

module _ (net : Net) (inet : net.server_addr.family ≡ af_inet) {num : ℕ} {ns : List Bytes} where
  pod_table-IsTable :
      (c : Cluster) (s : IsSound num ns c) (now i : ℕ) (fate : Fate)
      → i < num
      → IsTable (pod_table (c.pods i).node_list (answer_after net c now i fate))
  pod_table-IsTable c s now i lost small = s.tables i small
  pod_table-IsTable c s now i unanswered small = s.tables i small
  pod_table-IsTable c s now i answered small =
      let tidy = after-IsTidy net inet c s now i answered small in
      client_recv-IsTable tidy.is_table (IsTidy-IsServed tidy) (s.tables i small)

  pub exchanged-IsSound :
      (c : Cluster) (s : IsSound num ns c) (now i : ℕ) (fate : Fate)
      → i < num
      → IsSound num ns (exchanged net c now i fate)
  exchanged-IsSound c s now i fate small =
      let l = pod_table (c.pods i).node_list (answer_after net c now i fate) in
      let name = λ (k : ℕ).
        pod_kept (λ ctx. ctx.name) (λ ctx l. refl) c i k (server_after net c now i fate) l in
      record {
        role = after-role net c now i fate ∙ s.role;
        few = s.few;
        tidy = after-IsTidy net inet c s now i fate small;
        sane = λ k in_num. elim (Bool-cases (k == i)) [
          | inl own ↦ rw own (moved-IsSane (c.pods i) l (s.sane i small))
          | inr other ↦ rw other (s.sane k in_num)
        ];
        tables = λ k in_num. elim (Bool-cases (k == i)) [
          | inl own ↦ rw own (pod_table-IsTable c s now i fate small)
          | inr other ↦ rw other (s.tables k in_num)
        ];
        known = λ k in_num. ap (λ n. has n ns) (name k) ∙ s.known k in_num;
        apart = λ j k in_j in_k same. s.apart j k in_j in_k (sym (name j) ∙ same ∙ name k);
      }

  step-cleanup :
      (c : Cluster) (s : IsSound num ns c) (now : ℕ)
      → RunsTo (IsSound num ns) (step net c (cleanup now))
  unfolding step main_tick
  step-cleanup c s now =
      rw (main_tick, s.role)
        (
          _,
          refl,
          record {
            role = refl;
            few = s.few;
            tidy = cleanup-IsTidy now s.tidy;
            sane = s.sane;
            tables = s.tables;
            known = s.known;
            apart = s.apart;
          },
        )

  pub run-IsSound :
      (es : List ClusterEvent) (c : Cluster) (s : IsSound num ns c)
      → AllIn num es
      → RunsTo (IsSound num ns) (run net es c)
  unfolding run
  run-IsSound [] c s all_in = (c, refl, s)
  run-IsSound (cleanup now ∷ es) c s all_in =
      let (c', went, s') = step-cleanup c s now in rw (run, went) (run-IsSound es c' s' all_in)
  run-IsSound (exchange now i fate ∷ es) c s all_in =
      rw (run, step-exchange net inet c s now i fate all_in.0)
        (run-IsSound es (exchanged net c now i fate) (exchanged-IsSound c s now i fate all_in.0)
          all_in.1)

pub run-append :
    (net : Net) (es fs : List ClusterEvent) (c : Cluster) {c' : Cluster}
    → run net es c ≡ some c'
    → run net (es ++ fs) c ≡ run net fs c'
unfolding run
run-append net [] fs c {c'} e = ap (run net fs) (some-injective c c' e)
run-append net (e ∷ es) fs c went = elim (Option-cases (step net c e)) [
  | inl faulted ↦ absurd (cc (rw (run, faulted) at went))
  | inr (c1, went1) ↦ rw (run, went1) (run-append net es fs c1 (rw (run, went1) at went))
]
