-- ===== src/Topo/Fits.antt =====
-- The paths that a process of src/topo writes its files to, where IV_HOME leaves room for them.
pub mod Loops
use k8s.Topo.Serving
use k8s.Topo.Polling
use k8s.Topo.Polling.{exchange, ClientEvent, poll}
use k8s.Common.{
  Bytes, codes, c_string, ℕ, ◌≤◌, ◌<◌, ◌≡◌, refl, inl, inr, false, Option, none, some, List, [],
  ◌∷◌, ◌++◌, arith, length, length-append, ℤ, ltb, leb, Bool-cases, Option-cases,
}
use k8s.Topo.Context.{
  MainCtx, Outcome, ClusterRole, cr_client, cr_server, topo_max_buffer, goes_on, faults,
}
use k8s.Topo.Run.{main_tick}
use k8s.Topo.Effect.{Effect, SockAddr, sendto, IsFit, AllFit, AllFit-append}
use k8s.Topo.Node.{
  NodeList, NodeProcRes, np_none, np_add, np_rep, np_del, np_uptm, np_fail, assoc_info_cleanup,
  assoc_info_reply_msg, node_proc_pod_send_info,
}
use k8s.Topo.Node.Print.{
  under_home, path_size, print_file, assoc_info_print, node_info_print, notify_to_ixpc,
}
use k8s.Topo.Serving.{ServerEvent, datagram, serve}
use k8s.Topo.Udp.Client.{
  client_msg, send_msg_size, Exchange, updated_effects, client_answer, udp_client_proc,
}
use k8s.Topo.Udp.Fromto.{
  Datagram, sizeof_in, Received, received, recv_failed, Sent, sent, send_failed, udp_send_fromto,
  udp_send_fromto-Fit, FitSent,
}
use k8s.Topo.Udp.Server.{SortNodes, changed_effects, send_answer, udp_server_proc}
use k8s.Topo.Udp.{client_recv}

-- The longer one of the two paths fits its buffer.
abbrev pub IsHome : Option Bytes → Type 0
IsHome iv_home = length (under_home iv_home (codes "/data/associate_config")) < path_size

-- What is done has no text that is longer than its buffer.
abbrev pub FitOutcome : Outcome → Type 0
FitOutcome (goes_on ctx effects) = AllFit effects
FitOutcome faults = Unit

print_file-IsFit :
    (path banner : Bytes) (cells : List (List Bytes))
    → length path < path_size
    → IsFit (print_file path banner cells)
unfolding print_file
print_file-IsFit path banner cells short =
    let fits : leb path_size (length path) ≡ false = ground (arith, short) in rw fits tt

under_home-length :
    (iv_home : Option Bytes) (path : Bytes)
    → length path ≤ 22
    → IsHome iv_home
    → length (under_home iv_home path) < path_size
under_home-length none path short home = omega (arith, short)
under_home-length (some s) path short home =
    omega
      (arith, short, home, length-append s path, length-append s (codes "/data/associate_config"))

module _ (iv_home : Option Bytes) (home : IsHome iv_home) where
  assoc_info_print-IsFit : (l : NodeList) → IsFit (assoc_info_print iv_home l)
  unfolding assoc_info_print
  assoc_info_print-IsFit l = print_file-IsFit _ _ _ home

  node_info_print-IsFit :
      (qsort : SortNodes) (l : NodeList) → IsFit (node_info_print qsort iv_home l)
  unfolding node_info_print
  node_info_print-IsFit qsort l =
      print_file-IsFit _ _ _
        (under_home-length iv_home (codes "/data/node_info") (omega arith) home)

  notify_to_ixpc-IsFit : (queue : ℤ) (name : Bytes) → IsFit (notify_to_ixpc queue name)
  unfolding notify_to_ixpc
  notify_to_ixpc-IsFit queue name = tt

  changed_effects-AllFit :
      (qsort : SortNodes) (ctx : MainCtx) → AllFit (changed_effects qsort iv_home ctx)
  unfolding changed_effects
  changed_effects-AllFit qsort ctx = (
    assoc_info_print-IsFit ctx.node_list,
    (node_info_print-IsFit qsort ctx.node_list, (notify_to_ixpc-IsFit ctx.ixpc_qid ctx.name, tt)),
  )

  updated_effects-AllFit :
      (ctx : MainCtx) (update_count : ℕ) → AllFit (updated_effects iv_home ctx update_count)
  unfolding updated_effects
  updated_effects-AllFit ctx update_count = elim (Bool-cases (ltb 0 update_count)) [
    | inl some_are ↦
        rw some_are
          (assoc_info_print-IsFit ctx.node_list, (notify_to_ixpc-IsFit ctx.ixpc_qid ctx.name, tt))
    | inr none_is ↦ rw none_is tt
  ]

  tick-AllFit :
      (qsort : SortNodes) (now : ℕ) (ctx : MainCtx) (role : ClusterRole)
      → ctx.role ≡ role
      → AllFit (main_tick qsort now iv_home ctx).1
  unfolding main_tick
  tick-AllFit qsort now ctx cr_client e = rw e tt
  tick-AllFit qsort now ctx cr_server e =
      let r = assoc_info_cleanup now ctx.node_list in
      elim (Bool-cases (ltb 0 r.1)) [
        | inl removed ↦
            rw (e, removed) (assoc_info_print-IsFit r.0, (node_info_print-IsFit qsort r.0, tt))
        | inr same ↦ rw (e, same) tt
      ]

  pub main_tick-AllFit :
      (qsort : SortNodes) (now : ℕ) (ctx : MainCtx) → AllFit (main_tick qsort now iv_home ctx).1
  main_tick-AllFit qsort now ctx = tick-AllFit qsort now ctx ctx.role refl

  sent-Fit :
      (ctx : MainCtx) (before : List Effect) (x : Sent)
      → AllFit before
      → FitSent x
      → FitOutcome
          (elim x [ sent e ↦ goes_on ctx (before ++ e ∷ []) | send_failed _ ↦ goes_on ctx before ])
  sent-Fit ctx before (sent e) fit message = AllFit-append before (e ∷ []) fit (message, tt)
  sent-Fit ctx before (send_failed code) fit message = fit

  send_answer-Fit :
      (ctx : MainCtx) (before : List Effect) (d : Datagram) (to : SockAddr)
      → AllFit before
      → FitOutcome (send_answer ctx before d to)
  unfolding send_answer
  send_answer-Fit ctx before d to fit =
      let reply_msg = assoc_info_reply_msg ctx.node_list [] in
      elim (Bool-cases (leb topo_max_buffer (length reply_msg))) [
        | inl long ↦ rw long tt
        | inr short ↦ rw short (
            sent-Fit ctx before (udp_send_fromto reply_msg (some (to, sizeof_in)) d.sender) fit
              (udp_send_fromto-Fit reply_msg to d.sender))
      ]

  by_result-Fit :
      (qsort : SortNodes) (ctx : MainCtx) (d : Datagram) (to : SockAddr) (x : NodeProcRes)
      → FitOutcome (elim x [
        | np_fail ↦ goes_on ctx []
        | np_add ↦ send_answer ctx (changed_effects qsort iv_home ctx) d to
        | np_rep ↦ send_answer ctx (changed_effects qsort iv_home ctx) d to
        | _ ↦ send_answer ctx [] d to
      ])
  by_result-Fit qsort ctx d to np_fail = tt
  by_result-Fit qsort ctx d to np_add =
      send_answer-Fit ctx _ d to (changed_effects-AllFit qsort ctx)
  by_result-Fit qsort ctx d to np_rep =
      send_answer-Fit ctx _ d to (changed_effects-AllFit qsort ctx)
  by_result-Fit qsort ctx d to np_none = send_answer-Fit ctx [] d to tt
  by_result-Fit qsort ctx d to np_del = send_answer-Fit ctx [] d to tt
  by_result-Fit qsort ctx d to np_uptm = send_answer-Fit ctx [] d to tt

  pub udp_server_proc-Fit :
      (qsort : SortNodes) (now : ℕ) (ctx : MainCtx) (r : Received)
      → FitOutcome (udp_server_proc qsort now iv_home ctx r)
  unfolding udp_server_proc
  udp_server_proc-Fit qsort now ctx (recv_failed code) = tt
  udp_server_proc-Fit qsort now ctx (received d to tolen) =
      let r = node_proc_pod_send_info now ctx.node_list (c_string d.payload) in
      elim (Bool-cases (leb topo_max_buffer (length (c_string d.payload)))) [
        | inl over ↦ rw over tt
        | inr fits ↦ rw fits (by_result-Fit qsort (record ctx { node_list = r.0 }) d to r.1)
      ]

  client_answer-Fit :
      (ctx : MainCtx) (before : List Effect) (answer : Option Bytes)
      → AllFit before
      → FitOutcome (client_answer iv_home ctx before answer)
  unfolding client_answer
  client_answer-Fit ctx before none fit = fit
  client_answer-Fit ctx before (some recv_msg) fit =
      elim (Bool-cases (leb topo_max_buffer (length (c_string recv_msg)))) [
        | inl over ↦ rw over tt
        | inr fits ↦ rw fits (
            AllFit-append before _ fit (
              updated_effects-AllFit
                (record ctx { node_list = (client_recv ctx.node_list (c_string recv_msg)).0 })
                (client_recv ctx.node_list (c_string recv_msg)).1))
      ]

  pub udp_client_proc-Fit :
      (ctx : MainCtx) (net : Exchange) → FitOutcome (udp_client_proc iv_home ctx net)
  unfolding udp_client_proc
  udp_client_proc-Fit ctx net = elim (Option-cases net.omp_addr) [
    | inl unknown ↦ rw unknown tt
    | inr (omp_addr, known) ↦ elim (Bool-cases net.has_socket) [
      | inr no_socket ↦ rw (known, no_socket) tt
      | inl socket ↦ elim (Bool-cases (leb send_msg_size (length (client_msg ctx)))) [
        | inl long ↦ rw (known, socket, long) tt
        | inr short ↦ elim (Bool-cases net.is_sent) [
          | inr unsent ↦ rw (known, socket, short, unsent) tt
          | inl went ↦
              rw (known, socket, short, went)
                (client_answer-Fit ctx (sendto (client_msg ctx) omp_addr ∷ []) net.answer (tt, tt))
        ]
      ]
    ]
  ]
