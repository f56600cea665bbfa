-- ===== src/Topo/Cluster/Sound.antt =====
-- The exchanges and cleanups of a cluster of src/topo, one by one.
use mathlib.Core.Option.{some-injective}
use k8s.Common.{
  Bytes, c_string, ℕ, ◌≤◌, ◌<◌, ◌≡◌, refl, Bool, true, false, Option, none, some, List, [], ◌∷◌,
  ◌++◌, arith, length, leb, if◌then◌else◌, ◌∙◌, inl, inr, Bool-cases, codes,
}
use k8s.Elem.Count.{has, length-IsTable}
use k8s.Elem.Order.{IsTable}
use k8s.Topo.Context.{MainCtx, cr_server, goes_on, topo_max_buffer}
use k8s.Topo.Effect.{Effect, af_inet, SockAddr, sendmsg_from, Rows}
use k8s.Topo.Cluster.{
  step, Cluster, Fate, lost, unanswered, answered, exchange, answer_in, Net, with_pod, report_of,
  server_side, pod_side,
}
use k8s.Topo.Cluster.Clean.{IsSane, IsSane-IsReporting, IsSane-text}
use k8s.Topo.Cluster.Tidy.{IsTidy, report-IsTidy, IsTidy-AllBounded, IsTidy-text}
use k8s.Topo.Node.{NodeList, assoc_info_reply_msg, assoc_info_get_from_pod}
use k8s.Topo.Node.Print.{
  assoc_info_print, node_info_print, notify_to_ixpc, path_size, print_file, assoc_info_fill_cb,
  under_home,
}
use k8s.Topo.Udp.{client_recv}
use k8s.Topo.Udp.Client.{
  client_msg, send_msg_size, client_answer, udp_client_proc, reported,
  assoc_info_get_from_pod-client_msg, client_msg-length,
}
use k8s.Topo.Udp.Fromto.{received}
use k8s.Topo.Udp.Serve.{after_report, udp_server_proc-report}
use k8s.Topo.Udp.Server.{SortNodes, changed_effects, udp_server_proc}
use k8s.Topo.Udp.Bounds.{answer-fits}
use k8s.Elem.{list_element}

-- The server's table is tidy, and so small that the answer fits; the pods, of this number, are sane
-- clients of it, with different names.
pub record IsSound (num : ℕ) (ns : List Bytes) (c : Cluster) : Type 0 where
  pub role : c.server.role ≡ cr_server
  pub few : length ns ≤ 7
  pub tidy : IsTidy ns c.server.node_list
  pub sane : (i : ℕ) → i < num → IsSane (c.pods i)
  pub tables : (i : ℕ) → i < num → IsTable (c.pods i).node_list
  pub known : (i : ℕ) → i < num → has (c.pods i).name ns ≡ true
  pub apart : (i k : ℕ) → i < num → k < num → (c.pods i).name ≡ (c.pods k).name → i ≡ k

IsTidy-length : {ns : List Bytes} {l : NodeList} → IsTidy ns l → length ns ≤ 7 → length l ≤ 8
IsTidy-length {ns} tidy few = omega (arith, length-IsTable ns tidy.is_table tidy.within, few)

IsTidy-answer :
    {ns : List Bytes} {l : NodeList}
    → IsTidy ns l
    → length ns ≤ 7
    → length (assoc_info_reply_msg l []) < topo_max_buffer
IsTidy-answer tidy few = answer-fits tidy.is_table (IsTidy-AllBounded tidy) (IsTidy-length tidy few)

-- A file is no answer.
answer_in-print_file :
    (path banner : Bytes) (rows : Rows) (es : List Effect)
    → answer_in (print_file path banner rows ∷ es) ≡ answer_in es
unfolding print_file
answer_in-print_file path banner rows es = elim (Bool-cases (leb path_size (length path))) [
  | inl long ↦ rw long refl
  | inr short ↦ rw short refl
]

answer_in-assoc_info_print :
    (iv_home : Option Bytes) (l : NodeList) (es : List Effect)
    → answer_in (assoc_info_print iv_home l ∷ es) ≡ answer_in es
unfolding assoc_info_print
answer_in-assoc_info_print iv_home l es =
    answer_in-print_file (under_home iv_home (codes "/data/associate_config"))
      (codes "[ASSOCIATE_SYSTEMS]") (list_element l assoc_info_fill_cb []).1 es

answer_in-node_info_print :
    (qsort : SortNodes) (iv_home : Option Bytes) (l : NodeList) (es : List Effect)
    → answer_in (node_info_print qsort iv_home l ∷ es) ≡ answer_in es
unfolding node_info_print
answer_in-node_info_print qsort iv_home l es =
    elim (Bool-cases (leb path_size (length (under_home iv_home (codes "/data/node_info"))))) [
      | inl long ↦ rw (print_file, long) refl
      | inr short ↦ rw (print_file, short) refl
    ]

answer_in-changed :
    (qsort : SortNodes) (iv_home : Option Bytes) (ctx : MainCtx) (es : List Effect)
    → answer_in (changed_effects qsort iv_home ctx ++ es) ≡ answer_in es
unfolding changed_effects notify_to_ixpc
answer_in-changed qsort iv_home ctx es =
    let rest = notify_to_ixpc ctx.ixpc_qid ctx.name ∷ es in
    answer_in-assoc_info_print iv_home ctx.node_list
      (node_info_print qsort iv_home ctx.node_list ∷ rest)
    ∙ answer_in-node_info_print qsort iv_home ctx.node_list rest

answer_in-some :
    (b : Bool) (qsort : SortNodes) (iv_home : Option Bytes) (ctx : MainCtx) (m : Bytes)
    (source to : SockAddr)
    → answer_in
        ((if b then changed_effects qsort iv_home ctx else []) ++ sendmsg_from m source to ∷ [])
      ≡ some m
answer_in-some true qsort iv_home ctx m source to =
    answer_in-changed qsort iv_home ctx (sendmsg_from m source to ∷ [])
answer_in-some false qsort iv_home ctx m source to = refl

-- The table of a pod after an answer, if one came.
abbrev pub pod_table : NodeList → Option Bytes → NodeList
pod_table l none = l
pod_table l (some answer) = (client_recv l answer).0

-- The server after an exchange, and the answer that the pod reads.
abbrev pub server_after : Net → Cluster → ℕ → ℕ → Fate → MainCtx
server_after net c now i lost = c.server
server_after net c now i _ = after_report now c.server (report_of net c i)

abbrev pub answer_after : Net → Cluster → ℕ → ℕ → Fate → Option Bytes
answer_after net c now i answered =
    some (assoc_info_reply_msg (server_after net c now i answered).node_list [])
answer_after net c now i _ = none

abbrev pub exchanged : Net → Cluster → ℕ → ℕ → Fate → Cluster
exchanged net c now i fate = with_pod c i (server_after net c now i fate) (record (c.pods i) {
  node_list = pod_table (c.pods i).node_list (answer_after net c now i fate);
})

module _ (net : Net) (inet : net.server_addr.family ≡ af_inet) {num : ℕ} {ns : List Bytes}
    (c : Cluster) (s : IsSound num ns c) where
  pod_side-goes :
      (i : ℕ) (answer : Option Bytes)
      → i < num
      → ((m : Bytes) → answer ≡ some m → (c_string m ≡ m) × (length m < topo_max_buffer))
      → (effects : List Effect) × (pod_side net (c.pods i) answer
          ≡ goes_on
              (record (c.pods i) { node_list = pod_table (c.pods i).node_list answer })
              effects)
  unfolding pod_side udp_client_proc client_answer
  pod_side-goes i none small text =
      let r = IsSane-IsReporting (c.pods i) (s.sane i small) in
      let short : leb send_msg_size (length (client_msg (c.pods i))) ≡ false =
        ground (arith, client_msg-length (c.pods i) r) in
      rw short (_, refl)
  pod_side-goes i (some m) small text =
      let r = IsSane-IsReporting (c.pods i) (s.sane i small) in
      let short : leb send_msg_size (length (client_msg (c.pods i))) ≡ false =
        ground (arith, client_msg-length (c.pods i) r) in
      let read : leb topo_max_buffer (length m) ≡ false = ground (arith, (text m refl).1) in
      rw (short, (text m refl).0, read) (_, refl)

  -- A report that arrives.
  delivered :
      (now i : ℕ)
      → i < num
      → (effects : List Effect) × (udp_server_proc net.qsort now net.iv_home c.server
            (received (report_of net c i) net.server_addr net.tolen)
          ≡ goes_on (after_report now c.server (report_of net c i)) effects)
        × (answer_in effects
            ≡ some
                (assoc_info_reply_msg (after_report now c.server (report_of net c i)).node_list []))
        × IsTidy ns (after_report now c.server (report_of net c i)).node_list
  delivered now i small =
      let pod = c.pods i in
      let sane = s.sane i small in
      let text = IsSane-text pod sane in
      let parsed : assoc_info_get_from_pod (c_string (client_msg pod)) ≡ some (reported pod) =
        rw text (assoc_info_get_from_pod-client_msg pod (IsSane-IsReporting pod sane)) in
      let tidy : IsTidy ns (after_report now c.server (report_of net c i)).node_list =
        rw text (report-IsTidy now pod sane (s.known i small) s.tidy) in
      (
        _,
        udp_server_proc-report net.qsort now net.iv_home c.server (report_of net c i)
            net.server_addr net.tolen s.tidy.is_table parsed
            (rw text (omega (arith, client_msg-length pod (IsSane-IsReporting pod sane))))
            (IsTidy-answer tidy s.few) inet,
        answer_in-some _ net.qsort net.iv_home (after_report now c.server (report_of net c i)) _
            net.server_addr (net.pod_addr i),
        tidy,
      )

  pub after-IsTidy :
      (now i : ℕ) (fate : Fate) → i < num → IsTidy ns (server_after net c now i fate).node_list
  after-IsTidy now i lost small = s.tidy
  after-IsTidy now i unanswered small = (delivered now i small).3
  after-IsTidy now i answered small = (delivered now i small).3

  pub step-exchange :
      (now i : ℕ) (fate : Fate)
      → i < num
      → step net c (exchange now i fate) ≡ some (exchanged net c now i fate)
  unfolding step server_side
  step-exchange now i lost small =
      let pod = pod_side-goes i none small (λ m e. absurd (cc e)) in rw (step, pod.1) refl
  step-exchange now i unanswered small =
      let server = delivered now i small in
      let pod = pod_side-goes i none small (λ m e. absurd (cc e)) in rw (step, server.1, pod.1) refl
  step-exchange now i answered small =
      let server = delivered now i small in
      let m = assoc_info_reply_msg (after_report now c.server (report_of net c i)).node_list [] in
      let pod = pod_side-goes i (some m) small (λ m' e.
        rw (← some-injective m m' e) (IsTidy-text server.3, IsTidy-answer server.3 s.few)) in
      rw (step, server.1, server.2, pod.1) refl
