-- ===== src/Topo/Start/Loops.antt =====
-- `main` of src/topo/main.c, from its start into the event loop.
use mathlib.Core.Option.{some-injective}
use k8s.Common.{
  Bytes, ◌≡◌, inl, inr, Bool, ◌&&◌, some, List, [], ◌∷◌, Bool-cases, Option-cases, ◌≤◌, refl, sym,
  ap, ◌∙◌, false, Option, length, codes,
}
use k8s.Topo.Context.{MainCtx, cr_client, cr_server, goes_on}
use k8s.Topo.Init.{World, initialize, omp_node_info, server_context}
use k8s.Topo.Effect.{Effect, AllFit}
use k8s.Topo.Start.{
  Callback, main, main_tick_each_second, udp_callback, proc_start, udp_client_each_second,
  udp_server_on_read,
}
use k8s.Topo.Start.Up.{IsUp, initialize-IsUp, IsServer, initialize-fits, or_null-IsHome}
use k8s.Elem.Count.{has}
use k8s.Elem.Lookup.{find}
use k8s.Topo.Node.{NodeInfo, NodeList}
use k8s.Topo.Polling.{ClientEvent, poll, AllRead}
use k8s.Topo.Polling.Safe.{poll-IsKept}
use k8s.Topo.Polling.Kept.{IsKept, empty_list-IsKept}
use k8s.Topo.Run.{omp, IsServing, start-IsServing}
use k8s.Topo.Serving.{ServerEvent, serve}
use k8s.Topo.Serving.ByName.{replay, IsView}
use k8s.Topo.Serving.Few.{AllAmong, serve-IsView}
use k8s.Topo.Udp.Client.{IsReporting}
use k8s.Topo.Udp.Server.{SortNodes}
use k8s.Topo.Fits.{IsHome}
use k8s.Topo.Fits.Loops.{serve-Fit, poll-Fit}

main-parts :
    (w : World) (event_add : Callback → Bool) (zero_ctx : MainCtx) {r : MainCtx × List Effect}
    {callbacks : List Callback}
    → main w event_add zero_ctx ≡ some (r, callbacks)
    → IsUp r
      × (callbacks ≡ main_tick_each_second ∷ udp_callback r.0.role ∷ [])
      × IsHome (w.getenv (codes "IV_HOME"))
unfolding main proc_start
main-parts w event_add zero_ctx {r} {callbacks} e =
    let up = initialize-IsUp w zero_ctx in
    let fits = initialize-fits w zero_ctx in
    elim (Option-cases (initialize w zero_ctx)) [
      | inl failed ↦ absurd (cc (rw (main, failed) at e))
      | inr (r', started) ↦
          let both = event_add main_tick_each_second && event_add (udp_callback r'.0.role) in
          elim (Bool-cases both) [
            | inr no_event ↦ absurd (cc (rw (main, started, no_event) at e))
            | inl added ↦
                let is =
                  some-injective (r', main_tick_each_second ∷ udp_callback r'.0.role ∷ [])
                    (r, callbacks) (rw (main, started, added) at e) in
                let r_is = ap (λ (p : (MainCtx × List Effect) × List Callback). p.0) is in
                (
                  rw (← r_is) (rw started at up),
                  sym (ap (λ (p : (MainCtx × List Effect) × List Callback). p.1) is)
                      ∙ ap
                          (λ (q : MainCtx × List Effect).
                            main_tick_each_second ∷ udp_callback q.0.role ∷ [])
                          r_is,
                  or_null-IsHome (w.getenv (codes "IV_HOME")) (rw started at fits),
                )
          ]
    ]

server_context-role :
    (ctx before : MainCtx) (label : Bytes)
    → ctx ≡ server_context before label
    → ctx.role ≡ before.role
unfolding server_context
server_context-role ctx before label e = ap (λ (c : MainCtx). c.role) e

-- The node of the OMP in the table of a server that starts.
start_omp :
    {ctx : MainCtx} (s : IsServer ctx)
    → find ctx.node_list omp ≡ some (omp_node_info s.label s.before.omp_ip s.before.base_port)
start_omp s = rw s.is_context (start-IsServing s.before s.label).has_omp

-- The event loop of a context that a server starts with.
server-serve :
    (qsort : SortNodes) (iv_home : Option Bytes) {ctx : MainCtx} (s : IsServer ctx)
    (ns : List Bytes) (es : List ServerEvent)
    → has omp ns ≡ false
    → length ns ≤ 6
    → AllAmong ns es
    → (l : NodeList) × (after : List Effect) × (serve qsort iv_home es ctx []
        ≡ goes_on (record ctx { node_list = l }) after)
      × IsServing (omp_node_info s.label s.before.omp_ip s.before.base_port) l
      × IsView (λ j. replay j es (find ctx.node_list j)) l
server-serve qsort iv_home s ns es new few among =
    rw s.is_context
      (serve-IsView qsort iv_home s.before s.label ns es s.is_server s.bounded new few among)

module _ (w : World) (event_add : Callback → Bool) (zero_ctx : MainCtx) (qsort : SortNodes)
    {ctx : MainCtx} {effects : List Effect} {callbacks : List Callback}
    (up : main w event_add zero_ctx ≡ some ((ctx, effects), callbacks)) where
  -- A process that comes up as a server, whatever its environment, has the callbacks of a server.
  -- While the text of each datagram, with its NUL, fits the buffer that it is received in, and those
  -- that are read as reports are about six names at most, of which none is the OMP's, it goes through
  -- every sequence of their events without a fault, and the paths of the files that it writes fit
  -- their buffers. Its table stays in order, with the OMP's node as it was at the start, and has under
  -- each name what that name's own sequence of reports and cleanups leads to.
  pub main-serve :
      (ns : List Bytes) (es : List ServerEvent)
      → ctx.role ≡ cr_server
      → has omp ns ≡ false
      → length ns ≤ 6
      → AllAmong ns es
      → (callbacks ≡ main_tick_each_second ∷ udp_server_on_read ∷ [])
        × (o : NodeInfo) × (l : NodeList) × (after : List Effect) × (find ctx.node_list omp
            ≡ some o)
        × (serve qsort (w.getenv (codes "IV_HOME")) es ctx []
            ≡ goes_on (record ctx { node_list = l }) after)
        × AllFit after
        × IsServing o l
        × IsView (λ j. replay j es (find ctx.node_list j)) l
  unfolding udp_callback
  main-serve ns es role new few among =
      let (is_up, cbs, home) = main-parts w event_add zero_ctx up in
      let listed : callbacks ≡ main_tick_each_second ∷ udp_server_on_read ∷ [] =
        cbs ∙ rw role refl in
      elim is_up [
        | inr client ↦ absurd (cc (role, client.is_client))
        | inl s ↦
            let (l, after, goes, serving, view) =
              server-serve qsort (w.getenv (codes "IV_HOME")) s ns es new few among in
            let fit = serve-Fit qsort (w.getenv (codes "IV_HOME")) home es ctx [] tt in
            (
              listed,
              omp_node_info s.label s.before.omp_ip s.before.base_port,
              l,
              after,
              start_omp s,
              goes,
              rw goes at fit,
              serving,
              view,
            )
      ]

  -- A process that comes up as a client, and whose own fields can be read back, has the callbacks of
  -- a client. Whatever the network does, and whatever bytes arrive as answers, as long as the text of
  -- each, with its NUL, fits the buffer that it is received in, it goes through every sequence of
  -- their events without a fault, and the paths of the files that it writes fit their buffers. It
  -- changes nothing but its table, and keeps it in order, each node under its own name and within its
  -- buffers.
  pub main-poll :
      (es : List ClientEvent)
      → ctx.role ≡ cr_client
      → IsReporting ctx
      → AllRead es
      → (callbacks ≡ main_tick_each_second ∷ udp_client_each_second ∷ [])
        × (l : NodeList) × (after : List Effect) × (poll qsort
              (w.getenv (codes "IV_HOME"))
              es
              ctx
              []
            ≡ goes_on (record ctx { node_list = l }) after)
        × AllFit after
        × IsKept l
  unfolding udp_callback
  main-poll es role reporting readable =
      let (is_up, cbs, home) = main-parts w event_add zero_ctx up in
      let listed : callbacks ≡ main_tick_each_second ∷ udp_client_each_second ∷ [] =
        cbs ∙ rw role refl in
      elim is_up [
        | inl s ↦
            absurd (cc (role, server_context-role ctx s.before s.label s.is_context, s.is_server))
        | inr client ↦
            let (l, after, goes, kept) =
              poll-IsKept qsort (w.getenv (codes "IV_HOME")) es ctx [] role reporting readable
                (rw client.no_nodes empty_list-IsKept) in
            let fit = poll-Fit qsort (w.getenv (codes "IV_HOME")) home es ctx [] tt in
            (listed, l, after, goes, rw goes at fit, kept)
      ]
