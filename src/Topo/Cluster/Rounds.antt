-- ===== src/Topo/Cluster/Rounds.antt =====
-- Rounds of exchanges of a cluster of src/topo, in which each pod has its turn.
use k8s.Common.{Bytes, ℕ, ◌<◌, ◌≡◌, refl, ◌∙◌, some, List, [], ◌∷◌, ◌++◌, all}
use k8s.Topo.Cluster.{run, Cluster, answered, ClusterEvent, exchange, Net}
use k8s.Topo.Cluster.Agree.{
  Agrees, IsSettled, AllOf, after-IsSettled_own, after-IsSettled, after-Agrees_own, after-Agrees,
}
use k8s.Topo.Cluster.Safe.{AllIn, RunsTo, exchanged-IsSound, run-IsSound, run-append}
use k8s.Topo.Cluster.Sound.{IsSound, exchanged, step-exchange}
use k8s.Topo.Effect.{af_inet}

-- The exchanges of these pods, at a time, all of which get through.
abbrev pub round_of : ℕ → List ℕ → List ClusterEvent
round_of now [] = []
round_of now (i ∷ is) = exchange now i answered ∷ round_of now is

-- A round leads here, and what the server has settled it keeps.
record Settles (net : Net) (num : ℕ) (ns : List Bytes) (c : Cluster) (events : List ClusterEvent)
    (c' : Cluster) : Type 0 where
  went : run net events c ≡ some c'
  sound : IsSound num ns c'
  kept : (k : ℕ) → k < num → IsSettled c k → IsSettled c' k

module _ (net : Net) (inet : net.server_addr.family ≡ af_inet) {num : ℕ} {ns : List Bytes} where
  settle :
      (now : ℕ) (is : List ℕ) (c : Cluster)
      → IsSound num ns c
      → AllOf (λ i. i < num) is
      → (c' : Cluster) × Settles net num ns c (round_of now is) c' × AllOf (IsSettled c') is
  unfolding run
  settle now [] c s small = (c, record { went = refl; sound = s; kept = λ k in_num h. h }, tt)
  settle now (i ∷ is) c s small =
      let c1 = exchanged net c now i answered in
      let (c', r, settled) =
        settle now is c1 (exchanged-IsSound net inet c s now i answered small.0) small.1 in
      (
        c',
        record {
          went = rw (run, step-exchange net inet c s now i answered small.0) r.went;
          sound = r.sound;
          kept =
              λ k in_num h. r.kept k in_num (after-IsSettled net inet c s now i small.0 k in_num h);
        },
        (r.kept i small.0 (after-IsSettled_own net inet c s now i small.0), settled),
      )

  exchanged-IsSettled :
      (now i : ℕ) (is : List ℕ) (c : Cluster)
      → IsSound num ns c
      → i < num
      → AllOf (λ k. k < num) is
      → AllOf (IsSettled c) is
      → AllOf (IsSettled (exchanged net c now i answered)) is
  exchanged-IsSettled now i [] c s small in_num settled = tt
  exchanged-IsSettled now i (k ∷ is) c s small in_num settled = (
    after-IsSettled net inet c s now i small k in_num.0 settled.0,
    exchanged-IsSettled now i is c s small in_num.1 settled.1,
  )

  agree :
      (now : ℕ) (is : List ℕ) (c : Cluster)
      → IsSound num ns c
      → AllOf (λ i. i < num) is
      → AllOf (IsSettled c) is
      → (c' : Cluster) × (run net (round_of now is) c ≡ some c')
        × IsSound num ns c'
        × ((k : ℕ) → Agrees c k → Agrees c' k)
        × AllOf (Agrees c') is
  unfolding run
  agree now [] c s small settled = (c, refl, s, (λ k h. h), tt)
  agree now (i ∷ is) c s small settled =
      let c1 = exchanged net c now i answered in
      let later = exchanged-IsSettled now i is c s small.0 small.1 settled.1 in
      let (c', went, sound, kept, all) =
        agree now is c1 (exchanged-IsSound net inet c s now i answered small.0) small.1 later in
      (
        c',
        rw (run, step-exchange net inet c s now i answered small.0) went,
        sound,
        (λ k h. kept k (after-Agrees net inet c s now i small.0 k settled.0 h)),
        (kept i (after-Agrees_own net inet c s now i small.0), all),
      )

-- A cluster of a server, whose table is clean, and of pods with different names, whose fields can be
-- sent, with at most seven names in all, goes through any exchanges, lost or not, and cleanups, in
-- any order and at any times, without a fault. After two more rounds of exchanges that get through, each of the pods that took
-- part in them has the nodes of the server and no other, with the server's addresses. The paths of
-- files, which IV_HOME alone decides, are not looked at.
pub run-Agrees :
    (net : Net) {num : ℕ} {ns : List Bytes} (c : Cluster) (es : List ClusterEvent) (now later : ℕ)
    (is : List ℕ)
    → net.server_addr.family ≡ af_inet
    → IsSound num ns c
    → AllIn num es
    → AllOf (λ i. i < num) is
    → RunsTo
        (λ c'. IsSound num ns c' × AllOf (Agrees c') is)
        (run net (es ++ (round_of now is ++ round_of later is)) c)
run-Agrees net c es now later is inet s all_in small =
    let (c1, went1, s1) = run-IsSound net inet es c s all_in in
    let (c2, r, settled) = settle net inet now is c1 s1 small in
    let (c3, went3, s3, _, agreed) = agree net inet later is c2 r.sound small settled in
    (
      c3,
      run-append net es (round_of now is ++ round_of later is) c went1
          ∙ run-append net (round_of now is) (round_of later is) c1 r.went
          ∙ went3,
      (s3, agreed),
    )
