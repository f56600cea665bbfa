-- ===== src/K8smgr/Live.antt =====
-- The handlers of `/live/NAME`: the status of a process, and forcing it.
use k8s.K8smgr.{MainCtx, ProcCtx}
use k8s.Common.{
  Bytes, str_eq_refl, ◌≡◌, ◌∙◌, inl, inr, Option, none, some, [], ◌∷◌, arith, is_pos, atoi,
  if◌then◌else◌, Bool-cases, refl, Option-cases, codes, str_eq,
}
use k8s.Elem.{get_element, update_element}
use k8s.Elem.Lookup.{find, get_element-find, update_element-find-some}
use k8s.Elem.Order.{node, IsTable, update_element-IsTable}
use k8s.K8smgr.Http.{
  Method, get, patch, Reply, ok_200, unavailable_503, not_found_404, Outcome, returns, crashes,
  http_reply_pod_live, set_alive, http_patch_pod_live, http_live, http_reply_default, has_dotdot,
  strip_prefix, serve_name, serve_path, path_or_root,
}

live-found :
    (ctx : MainCtx) (name : Bytes) {p : ProcCtx}
    → IsTable ctx.proc_list
    → find ctx.proc_list name ≡ some p
    → http_reply_pod_live ctx name
      ≡ returns ctx ((if is_pos p.alive_status then ok_200 else unavailable_503) ∷ [])
unfolding http_reply_pod_live
live-found ctx name {p} t f =
    let got : get_element ctx.proc_list name ≡ some (node name p) =
      get_element-find name t ∙ rw f in
    elim (Bool-cases (is_pos p.alive_status)) [
      | inl up ↦ rw (http_reply_pod_live, got, up)
      | inr down ↦ rw (http_reply_pod_live, got, down)
    ]

patch-found :
    (ctx : MainCtx) (name text : Bytes) {p : ProcCtx}
    → IsTable ctx.proc_list
    → find ctx.proc_list name ≡ some p
    → http_patch_pod_live ctx name (some text)
      ≡ returns
          (record ctx { proc_list = update_element ctx.proc_list name (set_alive (atoi text)) })
          (ok_200 ∷ [])
unfolding http_patch_pod_live
patch-found ctx name text {p} t f =
    let got : get_element ctx.proc_list name ≡ some (node name p) =
      get_element-find name t ∙ rw f in
    rw (http_patch_pod_live, got)

-- A PATCH of `/live/NAME?status=V` at a process of the list is answered by 200. A GET of
-- `/live/NAME` behind it answers 200 where V reads as a positive number and 503 otherwise. Only
-- this process is changed: its status is V, and its forced failure begins where V reads as 0.
pub http_patch_pod_live-get :
    (ctx : MainCtx) (name text j : Bytes) {p : ProcCtx}
    → IsTable ctx.proc_list
    → find ctx.proc_list name ≡ some p
    → (ctx' : MainCtx) × (http_patch_pod_live ctx name (some text) ≡ returns ctx' (ok_200 ∷ []))
      × (http_reply_pod_live ctx' name
          ≡ returns ctx' ((if is_pos (atoi text) then ok_200 else unavailable_503) ∷ []))
      × (find ctx'.proc_list j
          ≡ (if str_eq j name then some (set_alive (atoi text) p) else find ctx.proc_list j))
http_patch_pod_live-get ctx name text j {p} t f =
    let ctx' = record ctx {
      proc_list = update_element ctx.proc_list name (set_alive (atoi text));
    } in
    let found : find ctx'.proc_list name ≡ some (set_alive (atoi text) p) =
      update_element-find-some name (set_alive (atoi text)) name t f
      ∙ ground (arith, str_eq_refl name) in
    let same : (set_alive (atoi text) p).alive_status ≡ atoi text = ground arith in
    (
      ctx',
      patch-found ctx name text t f,
      live-found ctx' name (update_element-IsTable name (set_alive (atoi text)) t) found ∙ rw same,
      update_element-find-some name (set_alive (atoi text)) j t f,
    )

abbrev pub without_status : MainCtx → Option ProcCtx → Outcome
without_status ctx none = returns ctx (unavailable_503 ∷ not_found_404 ∷ [])
without_status ctx (some p) = crashes (unavailable_503 ∷ [])

-- A PATCH of `/live/NAME` with no status at a process of the list sends a 503 and then reads
-- through a null pointer; at a name that is not in the list it sends two replies, 503 and 404.
pub http_patch_pod_live-missing_status :
    (ctx : MainCtx) (name : Bytes)
    → IsTable ctx.proc_list
    → http_patch_pod_live ctx name none ≡ without_status ctx (find ctx.proc_list name)
unfolding http_patch_pod_live
http_patch_pod_live-missing_status ctx name t = elim (Option-cases (find ctx.proc_list name)) [
  | inl f ↦
      let got : get_element ctx.proc_list name ≡ none = get_element-find name t ∙ rw f in
      rw (http_patch_pod_live, got, f)
  | inr (p, f) ↦
      let got : get_element ctx.proc_list name ≡ some (node name p) =
        get_element-find name t ∙ rw f in
      rw (http_patch_pod_live, got, f)
]

-- One reply, and no crash.
unfoldable pub RepliesOnce : Outcome → Type 0
RepliesOnce o = (ctx' : MainCtx) × (r : Reply) × (o ≡ returns ctx' (r ∷ []))

live-RepliesOnce :
    (ctx : MainCtx) (name : Bytes)
    → IsTable ctx.proc_list
    → RepliesOnce (http_reply_pod_live ctx name)
unfolding RepliesOnce http_reply_pod_live
live-RepliesOnce ctx name t = elim (Option-cases (find ctx.proc_list name)) [
  | inl f ↦
      let got : get_element ctx.proc_list name ≡ none = get_element-find name t ∙ rw f in
      (ctx, not_found_404, rw (http_reply_pod_live, got))
  | inr (p, f) ↦ (ctx, _, live-found ctx name t f)
]

patch-RepliesOnce :
    (ctx : MainCtx) (name text : Bytes)
    → IsTable ctx.proc_list
    → RepliesOnce (http_patch_pod_live ctx name (some text))
unfolding RepliesOnce http_patch_pod_live
patch-RepliesOnce ctx name text t = elim (Option-cases (find ctx.proc_list name)) [
  | inl f ↦
      let got : get_element ctx.proc_list name ≡ none = get_element-find name t ∙ rw f in
      (ctx, not_found_404, rw (http_patch_pod_live, got))
  | inr (p, f) ↦ (_, ok_200, patch-found ctx name text t f)
]

-- The methods that the server takes, but for a PATCH with no status.
pub data IsServed : Method → Option Bytes → Type 0 where
  get_any : {status : Option Bytes} → IsServed get status
  patch_status : {text : Bytes} → IsServed patch (some text)

http_live-RepliesOnce :
    {method : Method} {status : Option Bytes} (ctx : MainCtx) (name : Bytes)
    → IsTable ctx.proc_list
    → IsServed method status
    → RepliesOnce (http_live ctx method status name)
unfolding http_live
http_live-RepliesOnce ctx name t get_any = live-RepliesOnce ctx name t
http_live-RepliesOnce ctx name t (patch_status {text}) = patch-RepliesOnce ctx name text t

serve_name-RepliesOnce :
    {method : Method} {status : Option Bytes} (ctx : MainCtx) (name : Option Bytes)
    → IsTable ctx.proc_list
    → IsServed method status
    → RepliesOnce (serve_name ctx method status name)
unfolding serve_name RepliesOnce
serve_name-RepliesOnce ctx none t m = (ctx, _, refl)
serve_name-RepliesOnce ctx (some []) t m = (ctx, _, refl)
serve_name-RepliesOnce ctx (some (c ∷ name)) t m = http_live-RepliesOnce ctx (c ∷ name) t m

serve_path-RepliesOnce :
    {method : Method} {status : Option Bytes} (ctx : MainCtx) (path : Option Bytes)
    → IsTable ctx.proc_list
    → IsServed method status
    → RepliesOnce (serve_path ctx method status path)
unfolding serve_path
serve_path-RepliesOnce ctx none t m = unfold RepliesOnce in (ctx, not_found_404, refl)
serve_path-RepliesOnce ctx (some path) t m = elim (Bool-cases (has_dotdot path)) [
  | inl dots ↦ rw dots (unfold RepliesOnce in (ctx, not_found_404, refl))
  | inr none_found ↦
      rw none_found (serve_name-RepliesOnce ctx (strip_prefix (codes "/live/") path) t m)
]

-- Whatever libevent decodes, a GET, and a PATCH with a status, at a path with no handler of its own
-- gets exactly one reply, and the handler does not crash.
pub http_reply_default-RepliesOnce :
    (uridecode : Bytes → Option Bytes) {method : Method} {status : Option Bytes} (ctx : MainCtx)
    (uri_path : Option (Option Bytes))
    → IsTable ctx.proc_list
    → IsServed method status
    → RepliesOnce (http_reply_default uridecode ctx method status uri_path)
unfolding http_reply_default RepliesOnce
http_reply_default-RepliesOnce uridecode ctx none t m = (ctx, _, refl)
http_reply_default-RepliesOnce uridecode {method} {status} ctx (some path) t m =
    serve_path-RepliesOnce ctx (uridecode (path_or_root path)) t m
