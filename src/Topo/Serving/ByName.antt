-- ===== src/Topo/Serving/ByName.antt =====
-- The event loop of the server of src/topo/main.c, seen from one name of its table.
use mathlib.Core.Option
use k8s.Common.{
  Bytes, c_string, str_eq, str_eq_iff, ℕ, ◌≡◌, refl, sym, ap, ◌∙◌, inl, inr, Bool, true, false,
  Option, none, some, List, [], ◌∷◌, ◌++◌, arith, if◌then◌else◌, Bool-cases, Option-cases,
}
use k8s.Elem.Canonical.{IsTable-ext}
use k8s.Elem.Lookup.{find}
use k8s.Elem.Order.{IsTable}
use k8s.Topo.Context.{MainCtx, cr_server}
use k8s.Topo.Node.{NodeInfo, NodeList, assoc_info_get_from_pod, node_proc_pod_send_info}
use k8s.Topo.Node.Expiry.{unless_silent, assoc_info_cleanup-find, assoc_info_cleanup-IsTable}
use k8s.Topo.Node.Report.{
  merged, node_proc_pod_send_info-find, node_proc_pod_send_info-fail,
  node_proc_pod_send_info-IsTable,
}
use k8s.Topo.Serving.{
  ServerEvent, second, datagram, table_after, tables_after, GoesOr, serve, serve-cases, IsFault,
}
use k8s.Topo.Udp.Fromto.{received, recv_failed}
use k8s.Topo.Udp.Server.{SortNodes}

-- What a report that is read as this does to the entry under a name.
abbrev pub report_at : Bytes → ℕ → Option NodeInfo → Option NodeInfo → Option NodeInfo
report_at j now none o = o
report_at j now (some d) o =
    if str_eq j d.name then some (merged o (record d { heartbeat_tm = now })) else o

-- What an event does to the entry under a name.
abbrev pub turn_at : Bytes → ServerEvent → Option NodeInfo → Option NodeInfo
turn_at j (second now) o = Option.bind o (unless_silent now)
turn_at j (datagram now (recv_failed code)) o = o
turn_at j (datagram now (received d to tolen)) o =
    report_at j now (assoc_info_get_from_pod (c_string d.payload)) o

unfoldable pub replay : Bytes → List ServerEvent → Option NodeInfo → Option NodeInfo
replay j [] o = o
replay j (e ∷ es) o = replay j es (turn_at j e o)

node_proc_pod_send_info-report_at :
    (now : ℕ) {l : NodeList} (recv_msg : Bytes) (j : Bytes)
    → IsTable l
    → find (node_proc_pod_send_info now l recv_msg).0 j
      ≡ report_at j now (assoc_info_get_from_pod recv_msg) (find l j)
node_proc_pod_send_info-report_at now {l} recv_msg j t =
    elim (Option-cases (assoc_info_get_from_pod recv_msg)) [
      | inl e ↦ rw (node_proc_pod_send_info-fail now l recv_msg e, e)
      | inr (d, e) ↦
          let at = (node_proc_pod_send_info-find now recv_msg j t e).0 in
          elim (Bool-cases (str_eq j d.name)) [
            | inl y ↦ ground (arith, at, e, y, (str_eq_iff j d.name).0 y)
            | inr n ↦ ground (arith, at, e, n)
          ]
    ]

table_after-find :
    (e : ServerEvent) {l : NodeList} (j : Bytes)
    → IsTable l
    → find (table_after e l) j ≡ turn_at j e (find l j)
unfolding table_after
table_after-find (second now) j t = assoc_info_cleanup-find now j t
table_after-find (datagram now (recv_failed code)) j t = refl
table_after-find (datagram now (received d to tolen)) j t =
    node_proc_pod_send_info-report_at now (c_string d.payload) j t

table_after-IsTable : (e : ServerEvent) {l : NodeList} → IsTable l → IsTable (table_after e l)
unfolding table_after
table_after-IsTable (second now) t = assoc_info_cleanup-IsTable now t
table_after-IsTable (datagram now (recv_failed code)) t = t
table_after-IsTable (datagram now (received d to tolen)) t =
    node_proc_pod_send_info-IsTable now (c_string d.payload) t

-- A table whose entry under each name is that of `o`.
abbrev pub IsView : (Bytes → Option NodeInfo) → NodeList → Type 0
IsView o l = IsTable l × ((j : Bytes) → find l j ≡ o j)

pub tables_after-replay :
    (es : List ServerEvent) {l : NodeList}
    → IsTable l
    → IsView (λ j. replay j es (find l j)) (tables_after es l)
unfolding tables_after replay
tables_after-replay [] t = (t, λ j. refl)
tables_after-replay (e ∷ es) t =
    let (t', at) = tables_after-replay es (table_after-IsTable e t) in
    (t', λ j. at j ∙ ap (replay j es) (table_after-find e j t))

-- The event loop of a server, whose table is in order, has under each name what that name's own
-- sequence of reports and cleanups leads to, or it ends in a fault, and then the answer about the
-- table that a first part of the events leads to in this way does not fit its buffer.
pub serve-replay :
    (qsort : SortNodes) (iv_home : Option Bytes) (es : List ServerEvent) (ctx : MainCtx)
    → ctx.role ≡ cr_server
    → IsTable ctx.node_list
    → let seen = λ (es : List ServerEvent) (j : Bytes). replay j es (find ctx.node_list j) in
      (l : NodeList) × IsView (seen es) l
      × GoesOr
          ((before after : List ServerEvent) × (es ≡ before ++ after)
            × ((l' : NodeList) × IsView (seen before) l' × IsFault l' after))
          (record ctx { node_list = l })
          (serve qsort iv_home es ctx [])
serve-replay qsort iv_home es ctx role t = (
  _,
  tables_after-replay es t,
  elim (serve-cases qsort iv_home es ctx [] role) [
    | inl goes ↦ inl goes
    | inr (faulted, (before, after, parts, long)) ↦
        inr (faulted, (before, after, parts, (_, tables_after-replay before t, long)))
  ],
)

-- Whether an event can change the entry under a name: the turns of the timer, and the reports that
-- are read as one of this name.
abbrev concerns_report : Bytes → Option NodeInfo → Bool
concerns_report j none = false
concerns_report j (some d) = str_eq j d.name

abbrev pub concerns : Bytes → ServerEvent → Bool
concerns j (second now) = true
concerns j (datagram now (recv_failed code)) = false
concerns j (datagram now (received d to tolen)) =
    concerns_report j (assoc_info_get_from_pod (c_string d.payload))

unfoldable pub only : Bytes → List ServerEvent → List ServerEvent
only j [] = []
only j (e ∷ es) = let rest = only j es in if concerns j e then e ∷ rest else rest

report_at-concerns :
    (j : Bytes) (now : ℕ) (r o : Option NodeInfo)
    → concerns_report j r ≡ false
    → report_at j now r o ≡ o
report_at-concerns j now none o n = refl
report_at-concerns j now (some d) o n = rw n refl

turn_at-concerns :
    (j : Bytes) (e : ServerEvent) (o : Option NodeInfo) → concerns j e ≡ false → turn_at j e o ≡ o
turn_at-concerns j (second now) o n = absurd (cc n)
turn_at-concerns j (datagram now (recv_failed code)) o n = refl
turn_at-concerns j (datagram now (received d to tolen)) o n =
    report_at-concerns j now (assoc_info_get_from_pod (c_string d.payload)) o n

replay-only :
    (j : Bytes) (es : List ServerEvent) (o : Option NodeInfo)
    → replay j (only j es) o ≡ replay j es o
unfolding replay only
replay-only j [] o = refl
replay-only j (e ∷ es) o = elim (Bool-cases (concerns j e)) [
  | inl y ↦ rw y (replay-only j es (turn_at j e o))
  | inr n ↦ rw n (replay-only j es o ∙ ap (replay j es) (sym (turn_at-concerns j e o n)))
]

pub replay-by_name :
    (j : Bytes) (es fs : List ServerEvent) (o : Option NodeInfo)
    → only j es ≡ only j fs
    → replay j es o ≡ replay j fs o
replay-by_name j es fs o same =
    sym (replay-only j es o) ∙ ap (λ gs. replay j gs o) same ∙ replay-only j fs o

pub tables_after-by_name :
    (es fs : List ServerEvent) {l : NodeList}
    → IsTable l
    → ((j : Bytes) → only j es ≡ only j fs)
    → tables_after es l ≡ tables_after fs l
tables_after-by_name es fs {l} t same =
    let (te, at_es) = tables_after-replay es t in
    let (tf, at_fs) = tables_after-replay fs t in
    IsTable-ext te tf λ j. at_es j ∙ replay-by_name j es fs (find l j) (same j) ∙ sym (at_fs j)

-- The event loop ends in a fault, at an answer or a datagram that does not fit.
abbrev pub SomeFault : NodeList → List ServerEvent → Type 0
SomeFault l es =
    (before after : List ServerEvent) × (es ≡ before ++ after)
    × IsFault (tables_after before l) after

-- Two sequences of events, which agree for each name on the turns of the timer and the reports of
-- that name, lead a server whose table is in order to the same context, except where one of them ends
-- in a fault at an answer or a datagram that does not fit its buffer.
pub serve-by_name :
    (qsort : SortNodes) (iv_home : Option Bytes) (es fs : List ServerEvent) (ctx : MainCtx)
    → ctx.role ≡ cr_server
    → IsTable ctx.node_list
    → ((j : Bytes) → only j es ≡ only j fs)
    → (ctx' : MainCtx) × GoesOr (SomeFault ctx.node_list es) ctx' (serve qsort iv_home es ctx [])
      × GoesOr (SomeFault ctx.node_list fs) ctx' (serve qsort iv_home fs ctx [])
serve-by_name qsort iv_home es fs ctx role t same =
    let e = tables_after-by_name es fs t same in
    (
      record ctx { node_list = tables_after es ctx.node_list },
      serve-cases qsort iv_home es ctx [] role,
      rw e (serve-cases qsort iv_home fs ctx [] role),
    )
