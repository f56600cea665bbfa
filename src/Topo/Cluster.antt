-- ===== src/Topo/Cluster.antt =====
-- The pods of a cluster and their server: the processes of src/topo/main.c and the datagrams between
-- them.
pub mod Clean
pub mod Tidy
pub mod Sound
pub mod Safe
pub mod Agree
pub mod Rounds
use k8s.Common.{Bytes, ℕ, true, Option, none, some, List, [], ◌∷◌, ◌==◌, if◌then◌else◌}
use k8s.Topo.Context.{MainCtx, Outcome, goes_on, faults}
use k8s.Topo.Run.{main_tick}
use k8s.Topo.Effect.{Effect, SockAddr, sendmsg_from}
use k8s.Topo.Udp.Client.{client_msg, udp_client_proc}
use k8s.Topo.Udp.Fromto.{Datagram, received}
use k8s.Topo.Udp.Server.{SortNodes, udp_server_proc}

pub record Cluster : Type 0 where
  pub server : MainCtx
  pub pods : ℕ → MainCtx

-- How far an exchange gets: the report is lost, the answer is lost, or both arrive.
pub data Fate : Type 0 where
  lost unanswered answered : Fate

pub data ClusterEvent : Type 0 where
  -- the exchange of a pod, at a time; the pod waits for the answer for a second at most, and the
  -- server may serve others meanwhile, which changes neither the answer nor what the pod makes of it
  exchange : ℕ → ℕ → Fate → ClusterEvent
  -- the timer of the server, at a time
  cleanup : ℕ → ClusterEvent

-- The answer among the effects of a server.
abbrev pub answer_in : List Effect → Option Bytes
answer_in [] = none
answer_in (sendmsg_from payload source to ∷ es) = some payload
answer_in (_ ∷ es) = answer_in es

-- The network and what is around the processes: the address of the server, the addresses of the pods.
pub record Net : Type 0 where
  pub qsort : SortNodes
  pub iv_home : Option Bytes
  pub server_addr : SockAddr
  pub tolen : ℕ
  pub pod_addr : ℕ → SockAddr

abbrev pub with_pod : Cluster → ℕ → MainCtx → MainCtx → Cluster
with_pod c i server pod = record { server = server; pods = λ k. if k == i then pod else c.pods k }

module _ (net : Net) where
  abbrev pub report_of : Cluster → ℕ → Datagram
  report_of c i = record { payload = client_msg (c.pods i); sender = net.pod_addr i; control = [] }

  unfoldable pub server_side : Cluster → ℕ → ℕ → Fate → Outcome
  server_side c now i lost = goes_on c.server []
  server_side c now i _ =
      udp_server_proc net.qsort now net.iv_home c.server
        (received (report_of c i) net.server_addr net.tolen)

  abbrev pub answer_of : Fate → List Effect → Option Bytes
  answer_of answered effects = answer_in effects
  answer_of _ effects = none

  unfoldable pub pod_side : MainCtx → Option Bytes → Outcome
  pod_side pod answer = udp_client_proc net.iv_home pod (record {
    omp_addr = some net.server_addr;
    has_socket = true;
    is_sent = true;
    answer = answer;
  })

  -- `none` where a process faults.
  unfoldable pub step : Cluster → ClusterEvent → Option Cluster
  step c (cleanup now) =
      some (record c { server = (main_tick net.qsort now net.iv_home c.server).0 })
  step c (exchange now i fate) = elim (server_side c now i fate) [
    | faults ↦ none
    | goes_on server effects ↦ elim (pod_side (c.pods i) (answer_of fate effects)) [
      | faults ↦ none
      | goes_on pod _ ↦ some (with_pod c i server pod)
    ]
  ]

  unfoldable pub run : List ClusterEvent → Cluster → Option Cluster
  run [] c = some c
  run (e ∷ es) c = elim (step c e) [ none ↦ none | some c' ↦ run es c' ]
