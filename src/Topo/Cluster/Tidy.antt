-- ===== src/Topo/Cluster/Tidy.antt =====
-- What the reports of sane pods and the cleanup of src/topo/node.c keep of the table of a server.
use mathlib.Core.Option
use mathlib.Core.Option.{some-injective}
use k8s.Common.{
  Bytes, c_string, str_eq, str_eq_iff, ℕ, ◌≡◌, refl, sym, ◌∙◌, inl, inr, true, Option, none, some,
  List, [], arith, is_space, if◌then◌else◌, Bool-cases,
}
use k8s.Elem.Count.{has, IsWithin}
use k8s.Elem.Lookup.{find}
use k8s.Elem.Order.{IsTable}
use k8s.Topo.Context.{MainCtx}
use k8s.Topo.Udp.Sync.{IsServed}
use k8s.Topo.Cluster.Clean.{
  IsGood, IsClean, IsSane, c_string-Lacks, IsClean-IsPublic, IsClean-IsBounded,
  assoc_info_reply_msg-Lacks, IsSane-IsReporting,
}
use k8s.Topo.Node.{
  NodeInfo, NodeList, null_word, assoc_info_cleanup, assoc_info_reply_msg, same_ips, name_by_pod,
  node_proc_pod_send_info,
}
use k8s.Topo.Node.Expiry.{assoc_info_cleanup-find, assoc_info_cleanup-IsTable}
use k8s.Topo.Node.Report.{merged, node_proc_pod_send_info-find}
use k8s.Topo.Run.{merged_name}
use k8s.Topo.Udp.Bounds.{AllBounded}
use k8s.Topo.Udp.Client.{client_msg, reported, assoc_info_get_from_pod-client_msg}

-- A table of clean nodes, each under its own name, which is one of these.
pub record IsTidy (ns : List Bytes) (l : NodeList) : Type 0 where
  pub is_table : IsTable l
  pub nodes : (k : Bytes) (d : NodeInfo) → find l k ≡ some d → (d.name ≡ k) × IsClean d
  pub within : IsWithin ns l

null_word-IsGood : IsGood null_word
unfolding is_space
null_word-IsGood = record {
  is_field = record { ne_nil = refl; no_bar = refl; fits = omega arith };
  plain = (refl, refl);
}

-- The node that a server makes of a report that it knows nothing else of.
heard-IsClean :
    (ctx : MainCtx) (now : ℕ) (port : Bytes)
    → IsSane ctx
    → IsGood port
    → IsClean (name_by_pod (record (reported ctx) { heartbeat_tm = now; mgnt_port = port }))
heard-IsClean ctx now port s good_port =
    let (name, (type_name, (group, (node_ip, (pod_ip, (_, _)))))) = s.fields in
    rw s.pod_field.is_field.ne_nil (record {
      fields = (
        name,
        (
          type_name,
          (
            group,
            (
              node_ip,
              (null_word-IsGood, (good_port, (pod_ip, (null_word-IsGood, (s.pod_field, tt))))),
            ),
          ),
        ),
      );
      word = record { no_space = refl; fits = omega arith };
      plain = (refl, refl);
    })

merged-IsClean :
    (o : Option NodeInfo) (ctx : MainCtx) (now : ℕ)
    → IsSane ctx
    → ((a : NodeInfo) → o ≡ some a → IsClean a)
    → IsClean (merged o (record (reported ctx) { heartbeat_tm = now }))
merged-IsClean none ctx now s old =
    let (_, (_, (_, (_, (_, (port, _)))))) = s.fields in heard-IsClean ctx now ctx.port s port
merged-IsClean (some a) ctx now s old =
    let clean = old a refl in
    elim (Bool-cases (same_ips a (record (reported ctx) { heartbeat_tm = now }))) [
      | inl same ↦
          rw same (record { fields = clean.fields; word = clean.word; plain = clean.plain })
      | inr moved ↦
          let (_, (_, (_, (_, (_, (port, _)))))) = clean.fields in
          rw moved (heard-IsClean ctx now a.mgnt_port s port)
    ]

-- What the table has under a name after the report of a pod.
pub report-find :
    (now : ℕ) {l : NodeList} (ctx : MainCtx) (j : Bytes)
    → IsTable l
    → IsSane ctx
    → (find (node_proc_pod_send_info now l (client_msg ctx)).0 j ≡ (
        if str_eq j ctx.name
        then some (merged (find l ctx.name) (record (reported ctx) { heartbeat_tm = now }))
        else find l j))
      × IsTable (node_proc_pod_send_info now l (client_msg ctx)).0
report-find now ctx j t s =
    let parsed = assoc_info_get_from_pod-client_msg ctx (IsSane-IsReporting ctx s) in
    let at = node_proc_pod_send_info-find now (client_msg ctx) j t parsed in (at.0, at.2)

pub report-IsTidy :
    (now : ℕ) {ns : List Bytes} {l : NodeList} (ctx : MainCtx)
    → IsSane ctx
    → has ctx.name ns ≡ true
    → IsTidy ns l
    → IsTidy ns (node_proc_pod_send_info now l (client_msg ctx)).0
report-IsTidy now {ns} {l} ctx s known tidy =
    let at = λ (j : Bytes). report-find now ctx j tidy.is_table s in
    let d = record (reported ctx) { heartbeat_tm = now } in
    record {
      is_table = (at []).1;
      nodes = λ k a there. elim (Bool-cases (str_eq k ctx.name)) [
        | inl own ↦
            let is =
              some-injective (merged (find l ctx.name) d) a
                (ground (arith, (at k).0, own, there)) in
            let name = merged_name (find l ctx.name) d (λ b e. (tidy.nodes ctx.name b e).0) in
            rw (← is) (
              name ∙ sym ((str_eq_iff k ctx.name).0 own),
              merged-IsClean (find l ctx.name) ctx now s (λ b e. (tidy.nodes ctx.name b e).1),
            )
        | inr other ↦ tidy.nodes k a (ground (arith, (at k).0, other, there))
      ];
      within = λ j absent.
          ground (arith, (at j).0, tidy.within j absent, absent, known, str_eq_iff j ctx.name);
    }

pub cleanup-IsTidy :
    (now : ℕ) {ns : List Bytes} {l : NodeList}
    → IsTidy ns l
    → IsTidy ns (assoc_info_cleanup now l).0
unfolding Option.bind
cleanup-IsTidy now {l = l} tidy = record {
  is_table = assoc_info_cleanup-IsTable now tidy.is_table;
  nodes = λ k d there.
      tidy.nodes k d (ground (arith, assoc_info_cleanup-find now k tidy.is_table, there));
  within =
      λ j absent. ground (arith, assoc_info_cleanup-find now j tidy.is_table, tidy.within j absent);
}

pub IsTidy-IsServed : {ns : List Bytes} {l : NodeList} → IsTidy ns l → IsServed l
unfolding IsServed
IsTidy-IsServed tidy k d there =
    let (name, clean) = tidy.nodes k d there in (name, IsClean-IsPublic d clean)

pub IsTidy-AllBounded : {ns : List Bytes} {l : NodeList} → IsTidy ns l → AllBounded l
unfolding AllBounded
IsTidy-AllBounded tidy k d there = IsClean-IsBounded d (tidy.nodes k d there).1

pub IsTidy-text :
    {ns : List Bytes} {l : NodeList}
    → IsTidy ns l
    → c_string (assoc_info_reply_msg l []) ≡ assoc_info_reply_msg l []
IsTidy-text {l = l} tidy =
    c_string-Lacks (assoc_info_reply_msg l [])
      (assoc_info_reply_msg-Lacks tidy.is_table (λ k d e. (tidy.nodes k d e).1))
