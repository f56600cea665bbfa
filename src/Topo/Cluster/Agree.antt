-- ===== src/Topo/Cluster/Agree.antt =====
-- What two rounds of exchanges lead a cluster of src/topo to.
use mathlib.Core.Option
use mathlib.Core.Path.{ap₂}
use k8s.Topo.Cluster.{Cluster, answered, Net}
use k8s.Common.{
  Bytes, str_eq_iff, ℕ, ◌≡◌, refl, ap, inl, inr, true, Option, none, some, List, [], ◌∷◌, arith,
  is_nil, Bool-cases, str_eq, str_eq_refl, ◌<◌, sym, ◌∙◌, ◌==◌, if◌then◌else◌,
}
use k8s.Elem.Lookup.{find}
use k8s.Topo.Node.{NodeInfo, same_ips, name_by_pod, NodeList}
use k8s.Topo.Node.Report.{merged}
use k8s.Topo.Udp.Client.{reported}
use k8s.Topo.Udp.Sync.{synced, client_recv-find}
use k8s.Topo.Context.{MainCtx}
use k8s.Topo.Cluster.Clean.{IsSane-text}
use k8s.Topo.Cluster.Safe.{pod_kept}
use k8s.Topo.Cluster.Sound.{IsSound, pod_table, answer_after, exchanged, after-IsTidy}
use k8s.Topo.Cluster.Tidy.{report-find, IsTidy-IsServed}
use k8s.Topo.Effect.{af_inet}

-- The two addresses by which the program tells whether a node has moved.
abbrev pub ips : NodeInfo → Bytes × Bytes
ips d = (d.mgnt_pri_ip, d.serv_pri_ip)

-- A pod has the nodes of the server and no other, with the server's addresses.
abbrev pub Agrees : Cluster → ℕ → Type 0
Agrees c i =
    (j : Bytes)
    → Option.map ips (find (c.pods i).node_list j) ≡ Option.map ips (find c.server.node_list j)

-- The server has a pod at the addresses that the pod reports.
abbrev pub IsSettled : Cluster → ℕ → Type 0
IsSettled c k =
    Option.map ips (find c.server.node_list (c.pods k).name) ≡ some (ips (reported (c.pods k)))

abbrev pub AllOf : (ℕ → Type 0) → List ℕ → Type 0
AllOf P [] = Unit
AllOf P (i ∷ is) = P i × AllOf P is

same_ips-ips : (a d : NodeInfo) → same_ips a d ≡ true → ips a ≡ ips d
unfolding same_ips
same_ips-ips a d same =
    ap₂ (λ (x y : Bytes). (x, y))
      ((str_eq_iff a.mgnt_pri_ip d.mgnt_pri_ip).0 (ground (arith, same)))
      ((str_eq_iff a.serv_pri_ip d.serv_pri_ip).0 (ground (arith, same)))

synced-ips : (o : Option NodeInfo) (d : NodeInfo) → ips (synced o d) ≡ ips d
synced-ips none d = refl
synced-ips (some a) d = elim (Bool-cases (same_ips a d)) [
  | inl same ↦ rw same (same_ips-ips a d same)
  | inr moved ↦ rw moved refl
]

map-synced-ips :
    (o s : Option NodeInfo) → Option.map ips (Option.map (synced o) s) ≡ Option.map ips s
map-synced-ips o none = refl
map-synced-ips o (some d) = ap (λ x. some x) (synced-ips o d)

name_by_pod-ips : (d : NodeInfo) → ips (name_by_pod d) ≡ ips d
name_by_pod-ips d = elim (Bool-cases (is_nil d.pod_name)) [ inl y ↦ rw y refl | inr n ↦ rw n refl ]

-- After the report of a pod the server has it at the reported addresses.
merged-ips : (o : Option NodeInfo) (d : NodeInfo) → ips (merged o d) ≡ ips d
merged-ips none d = name_by_pod-ips d
merged-ips (some a) d = elim (Bool-cases (same_ips a d)) [
  | inl same ↦ rw same (same_ips-ips a d same)
  | inr moved ↦ rw moved (name_by_pod-ips (record d { mgnt_port = a.mgnt_port }))
]

module _ (net : Net) (inet : net.server_addr.family ≡ af_inet) {num : ℕ} {ns : List Bytes}
    (c : Cluster) (s : IsSound num ns c) (now i : ℕ) (small : i < num) where
  -- The exchange of the pod `i`.
  abbrev after : Cluster
  after = exchanged net c now i answered

  served-ips :
      (j : Bytes)
      → Option.map ips (find after.server.node_list j) ≡ (
          if str_eq j (c.pods i).name
          then some (ips (reported (c.pods i)))
          else Option.map ips (find c.server.node_list j))
  served-ips j =
      let pod = c.pods i in
      let sane = s.sane i small in
      let o = find c.server.node_list pod.name in
      let at = (report-find now pod j s.tidy.is_table sane).0 in
      let merged_is = merged-ips o (record (reported pod) { heartbeat_tm = now }) in
      rw (IsSane-text pod sane, at)
        (elim (Bool-cases (str_eq j pod.name)) [
          | inl own ↦ rw own (ap (λ x. some x) merged_is)
          | inr other ↦ rw other refl
        ])

  kept_ips :
      IsSettled c i
      → (j : Bytes)
      → Option.map ips (find after.server.node_list j) ≡ Option.map ips (find c.server.node_list j)
  kept_ips settled j = served-ips j ∙ elim (Bool-cases (str_eq j (c.pods i).name)) [
    | inl own ↦ rw (own, (str_eq_iff j (c.pods i).name).0 own) (sym settled)
    | inr other ↦ rw other refl
  ]

  pod_is :
      {A : Type 0} (f : MainCtx → A)
      → ((ctx : MainCtx) (l : NodeList) → f (record ctx { node_list = l }) ≡ f ctx)
      → (k : ℕ) → f (after.pods k) ≡ f (c.pods k)
  pod_is f kept k =
      pod_kept f kept c i k after.server
        (pod_table (c.pods i).node_list (answer_after net c now i answered))

  pub after-IsSettled_own : IsSettled after i
  after-IsSettled_own =
      ap (λ n. Option.map ips (find after.server.node_list n))
        (pod_is (λ x. x.name) (λ x l. refl) i)
      ∙ served-ips (c.pods i).name
      ∙ rw (str_eq_refl (c.pods i).name) refl
      ∙ ap (λ x. some x) (sym (pod_is (λ x. ips (reported x)) (λ x l. refl) i))

  pub after-IsSettled : (k : ℕ) → k < num → IsSettled c k → IsSettled after k
  after-IsSettled k in_num settled = elim (Bool-cases (str_eq (c.pods k).name (c.pods i).name)) [
    | inl same ↦
        let is = s.apart k i in_num small ((str_eq_iff (c.pods k).name (c.pods i).name).0 same) in
        rw is after-IsSettled_own
    | inr other ↦
        ap (λ n. Option.map ips (find after.server.node_list n))
          (pod_is (λ x. x.name) (λ x l. refl) k)
        ∙ served-ips (c.pods k).name
        ∙ rw other settled
        ∙ ap (λ x. some x) (sym (pod_is (λ x. ips (reported x)) (λ x l. refl) k))
  ]

  -- The pod has read the server's table.
  pub after-Agrees_own : Agrees after i
  after-Agrees_own j =
      let tidy = after-IsTidy net inet c s now i answered small in
      let same : (i == i) ≡ true = ground arith in
      rw same (
        ap (Option.map ips) (
          client_recv-find {c = (c.pods i).node_list} j tidy.is_table (IsTidy-IsServed tidy)
            (s.tables i small))
        ∙ map-synced-ips (find (c.pods i).node_list j) (find after.server.node_list j))

  pub after-Agrees : (k : ℕ) → IsSettled c i → Agrees c k → Agrees after k
  after-Agrees k settled agrees = elim (Bool-cases (k == i)) [
    | inl own ↦ let is : k ≡ i = ground (arith, own) in rw is after-Agrees_own
    | inr other ↦ λ j. rw other (agrees j ∙ sym (kept_ips settled j))
  ]
