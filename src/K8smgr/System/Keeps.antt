-- ===== src/K8smgr/System/Keeps.antt =====
-- What the handlers of the manager keep: a predicate that holds of the context before a request,
-- and after the one change that a request makes to the list, holds after the request.
use k8s.Common.{
  Bytes, codes, ◌≡◌, refl, inl, inr, Option, none, some, [], ◌∷◌, ℤ, Bool-cases, Option-cases,
  is_pos, atoi, List, ltb,
}
use k8s.Elem.{get_element, update_element}
use k8s.K8smgr.{MainCtx}
use k8s.K8smgr.Http.{
  Method, get, patch, Outcome, returns, crashes, http_reply_pod_live, set_alive,
  http_patch_pod_live, has_dotdot, strip_prefix, http_live, path_or_root, serve_name, serve_path,
  http_reply_default, Reply, http_reply_pod_ready, ok_200, unavailable_503,
}
use k8s.K8smgr.Alive.{all_pod_alive}

-- `P` holds of the context that a handler returns with.
abbrev pub Leaves : (MainCtx → Type 0) → Outcome → Type 0
Leaves P (returns ctx replies) = P ctx
Leaves P (crashes replies) = Unit

abbrev pub with_alive : MainCtx → Bytes → ℤ → MainCtx
with_alive ctx name v = record ctx { proc_list = update_element ctx.proc_list name (set_alive v) }

module _ (P : MainCtx → Type 0) {ctx : MainCtx} (p : P ctx) where
  live-Leaves : (name : Bytes) → Leaves P (http_reply_pod_live ctx name)
  unfolding http_reply_pod_live
  live-Leaves name = elim (Option-cases (get_element ctx.proc_list name)) [
    | inl e ↦ rw (Leaves, e) p
    | inr (elem, e) ↦ elim (Option-cases elem.payload) [
      | inl f ↦ rw (Leaves, e, f) tt
      | inr (d, f) ↦ elim (Bool-cases (is_pos d.alive_status)) [
        | inl up ↦ rw (Leaves, e, f, up) p
        | inr down ↦ rw (Leaves, e, f, down) p
      ]
    ]
  ]

  patch-Leaves :
      (name : Bytes) (status : Option Bytes)
      → ((v : ℤ) → P (with_alive ctx name v))
      → Leaves P (http_patch_pod_live ctx name status)
  unfolding http_patch_pod_live
  patch-Leaves name status q = elim (Option-cases (get_element ctx.proc_list name)) [
    | inl e ↦ rw (Leaves, e) p
    | inr (elem, e) ↦ elim (Option-cases status) [
      | inl f ↦ rw (Leaves, e, f) tt
      | inr (text, f) ↦ rw (Leaves, e, f) (q (atoi text))
    ]
  ]

  http_live-Leaves :
      (method : Method) (status : Option Bytes) (name : Bytes)
      → ((v : ℤ) → method ≡ patch → P (with_alive ctx name v))
      → Leaves P (http_live ctx method status name)
  unfolding http_live
  http_live-Leaves get status name q = live-Leaves name
  http_live-Leaves patch status name q = patch-Leaves name status (λ v. q v refl)
  http_live-Leaves _ status name q = p

  module _ (method : Method) (status : Option Bytes)
      (q : (name : Bytes) (v : ℤ) → method ≡ patch → P (with_alive ctx name v)) where
    serve_name-Leaves : (name : Option Bytes) → Leaves P (serve_name ctx method status name)
    unfolding serve_name
    serve_name-Leaves none = p
    serve_name-Leaves (some []) = p
    serve_name-Leaves (some (c ∷ name)) = http_live-Leaves method status (c ∷ name) (q (c ∷ name))

    serve_path-Leaves : (path : Option Bytes) → Leaves P (serve_path ctx method status path)
    unfolding serve_path
    serve_path-Leaves none = p
    serve_path-Leaves (some path) = elim (Bool-cases (has_dotdot path)) [
      | inl dots ↦ rw (Leaves, dots) p
      | inr none_found ↦
          rw (Leaves, none_found) (serve_name-Leaves (strip_prefix (codes "/live/") path))
    ]

    pub http_reply_default-Leaves :
        (uridecode : Bytes → Option Bytes) (path : Option (Option Bytes))
        → Leaves P (http_reply_default uridecode ctx method status path)
    unfolding http_reply_default
    http_reply_default-Leaves uridecode none = p
    http_reply_default-Leaves uridecode (some path) =
        serve_path-Leaves (uridecode (path_or_root path))

-- The handler of `/ready` returns, and changes neither the list nor what is known of the pods.
pub http_reply_pod_ready-returns :
    (ctx : MainCtx) (method : Method) (status : Option Bytes)
    → (ctx' : MainCtx) × (rs : List Reply) × (http_reply_pod_ready ctx method status
        ≡ returns ctx' rs)
      × (ctx'.proc_list ≡ ctx.proc_list)
      × (ctx'.pod_info ≡ ctx.pod_info)
unfolding http_reply_pod_ready
http_reply_pod_ready-returns ctx get status = elim (Bool-cases (ltb 0 ctx.force_not_ready)) [
  | inl forced ↦ (ctx, unavailable_503 ∷ [], rw (http_reply_pod_ready, forced) refl, refl, refl)
  | inr free ↦ elim (Bool-cases (ltb 0 (all_pod_alive ctx.proc_list))) [
    | inl up ↦ (ctx, ok_200 ∷ [], rw (http_reply_pod_ready, free, up) refl, refl, refl)
    | inr down ↦ (ctx, unavailable_503 ∷ [], rw (http_reply_pod_ready, free, down) refl, refl, refl)
  ]
]
http_reply_pod_ready-returns ctx patch none = (ctx, _, refl, refl, refl)
http_reply_pod_ready-returns ctx patch (some text) = (_, _, refl, refl, refl)
http_reply_pod_ready-returns ctx _ status = (ctx, _, refl, refl, refl)
