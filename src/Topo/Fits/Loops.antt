-- ===== src/Topo/Fits/Loops.antt =====
-- The paths of files in the event loops of src/topo/main.c.
use k8s.Topo.Serving
use k8s.Topo.Polling
use k8s.Topo.Polling.{exchange, ClientEvent, poll}
use k8s.Common.{Bytes, Option, List, [], ◌∷◌, ◌++◌}
use k8s.Topo.Context.{MainCtx, Outcome, goes_on, faults}
use k8s.Topo.Effect.{Effect, AllFit, AllFit-append}
use k8s.Topo.Serving.{ServerEvent, datagram, serve}
use k8s.Topo.Udp.Server.{SortNodes}
use k8s.Topo.Fits.{IsHome, FitOutcome, main_tick-AllFit, udp_server_proc-Fit, udp_client_proc-Fit}

-- Callbacks, one after another.
continue-Fit :
    (k : MainCtx → List Effect → Outcome) (effects : List Effect) (x : Outcome)
    → AllFit effects
    → FitOutcome x
    → ((ctx : MainCtx) (es : List Effect) → AllFit es → FitOutcome (k ctx es))
    → FitOutcome (elim x [ goes_on ctx more ↦ k ctx (effects ++ more) | faults ↦ faults ])
continue-Fit k effects (goes_on ctx more) fit own later =
    later ctx (effects ++ more) (AllFit-append effects more fit own)
continue-Fit k effects faults fit own later = tt

module _ (qsort : SortNodes) (iv_home : Option Bytes) (home : IsHome iv_home) where
  serve_one-Fit :
      (ctx : MainCtx) (e : ServerEvent) → FitOutcome (Serving.handle qsort iv_home ctx e)
  unfolding Serving.handle
  serve_one-Fit ctx (Serving.second now) = main_tick-AllFit iv_home home qsort now ctx
  serve_one-Fit ctx (datagram now r) = udp_server_proc-Fit iv_home home qsort now ctx r

  -- A server whose IV_HOME leaves room for the paths writes no text past the end of its buffer.
  pub serve-Fit :
      (es : List ServerEvent) (ctx : MainCtx) (effects : List Effect)
      → AllFit effects
      → FitOutcome (serve qsort iv_home es ctx effects)
  unfolding serve
  serve-Fit [] ctx effects fit = fit
  serve-Fit (e ∷ es) ctx effects fit =
      continue-Fit (serve qsort iv_home es) effects (Serving.handle qsort iv_home ctx e) fit
        (serve_one-Fit ctx e) (serve-Fit es)

  poll_one-Fit : (ctx : MainCtx) (e : ClientEvent) → FitOutcome (Polling.handle qsort iv_home ctx e)
  unfolding Polling.handle
  poll_one-Fit ctx (Polling.second now) = main_tick-AllFit iv_home home qsort now ctx
  poll_one-Fit ctx (exchange net) = udp_client_proc-Fit iv_home home ctx net

  -- Nor does such a client.
  pub poll-Fit :
      (es : List ClientEvent) (ctx : MainCtx) (effects : List Effect)
      → AllFit effects
      → FitOutcome (poll qsort iv_home es ctx effects)
  unfolding poll
  poll-Fit [] ctx effects fit = fit
  poll-Fit (e ∷ es) ctx effects fit =
      continue-Fit (poll qsort iv_home es) effects (Polling.handle qsort iv_home ctx e) fit
        (poll_one-Fit ctx e) (poll-Fit es)
