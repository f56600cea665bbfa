-- ===== src/K8smgr/Http.antt =====
-- The HTTP handlers of the manager. A request carries what libevent makes of it: its method, the
-- `status` of its query, if it has one, and the path of its uri.
use k8s.K8smgr.{MainCtx, ProcCtx, Keepalive, sysconf_max_appl_num}
use k8s.Elem.{Element, Verdict, keep, list_element, get_element, update_element}
use k8s.Common.{
  Bytes, codes, ℕ, Bool, false, ◌&&◌, ◌||◌, Option, none, some, List, [], ◌∷◌, ◌++◌, ℤ, pos, negsuc,
  is_pos, is_zero, atoi, print_dec, ltb, leb, ◌==◌, if◌then◌else◌,
}
use k8s.K8smgr.Alive.{all_pod_alive}

-- `enum evhttp_cmd_type`
pub data Method : Type 0 where
  get post head put delete options trace connect patch : Method
  other_method : Method

unfoldable pub http_method_str : Method → Option Bytes
http_method_str get = some (codes "GET")
http_method_str post = some (codes "POST")
http_method_str head = some (codes "HEAD")
http_method_str put = some (codes "PUT")
http_method_str delete = some (codes "DELETE")
http_method_str options = some (codes "OPTIONS")
http_method_str trace = some (codes "TRACE")
http_method_str connect = some (codes "CONNECT")
http_method_str patch = some (codes "PATCH")
http_method_str other_method = none

-- The rows of a table, which src/libfort renders.
abbrev pub Rows : Type 0
Rows = List (List Bytes)

-- `evhttp_send_error`, with no reason where it is 0, and `evhttp_send_reply`.
pub data Reply : Type 0 where
  send_error : ℕ → Option Bytes → Reply
  send_reply : ℕ → Option Bytes → Option Rows → Reply

unfoldable pub http_reply_common : ℤ → ℕ → Option Bytes → Option Rows → Reply
http_reply_common (pos _) code reason databuf = send_reply code reason databuf
http_reply_common (negsuc _) code reason databuf = send_error code reason

abbrev pub ok_200 : Reply
ok_200 = send_reply 200 (some (codes "Ok")) none

abbrev pub unavailable_503 : Reply
unavailable_503 = send_error 503 (some (codes "Service Unavailable"))

abbrev pub not_found_404 : Reply
not_found_404 = send_error 404 (some (codes "Not Found"))

-- What a handler does: it returns with the replies that it sent, or reads through a null pointer
-- after them.
pub data Outcome : Type 0 where
  returns : MainCtx → List Reply → Outcome
  crashes : List Reply → Outcome

unfoldable pub http_reply_pod_start : MainCtx → Outcome
unfolding http_reply_common
http_reply_pod_start ctx = returns ctx (http_reply_common (pos 1) 200 (some (codes "Ok")) none ∷ [])

-- `http_reply_pod_ready`, with the `status` of the query.
unfoldable pub http_reply_pod_ready : MainCtx → Method → Option Bytes → Outcome
unfolding http_reply_common
http_reply_pod_ready ctx get status =
    if ltb 0 ctx.force_not_ready
    then returns ctx
        (http_reply_common (negsuc 0) 503 (some (codes "Service Unavailable")) none ∷ [])
    else if ltb 0 (all_pod_alive ctx.proc_list)
    then returns ctx (http_reply_common (pos 0) 200 (some (codes "Ok")) none ∷ [])
    else returns ctx
        (http_reply_common (negsuc 0) 503 (some (codes "Service Unavailable")) none ∷ [])
http_reply_pod_ready ctx patch none =
    returns ctx (http_reply_common (negsuc 0) 503 (some (codes "Service Unavailable")) none ∷ [])
http_reply_pod_ready ctx patch (some status) =
    returns (record ctx { force_not_ready = if is_zero (atoi status) then 1 else 0 })
      (http_reply_common (pos 0) 200 (some (codes "Ok")) none ∷ [])
http_reply_pod_ready ctx _ status =
    returns ctx (http_reply_common (negsuc 0) 503 (some (codes "Service Unavailable")) none ∷ [])

-- The row of a process, behind the header row of the root.
unfoldable pub proc_info_fill_cb : Keepalive → Element ProcCtx → Rows → Verdict ProcCtx × Rows
proc_info_fill_cb keepalive elem rows = elim elem.key [
  | none ↦ (
    keep elem,
    rows
        ++ (codes "NAME" ∷ codes "KEEP_IDX" ∷ codes "CNT" ∷ codes "OLDCNT" ∷ codes "RETRY" ∷ [])
          ∷ [],
  )
  | some _ ↦ elim elem.payload [
    | none ↦ (keep elem, rows)
    | some p ↦ if leb sysconf_max_appl_num p.keep_index then (keep elem, rows) else (
      keep elem,
      rows
          ++ (p.proc_name
              ∷ print_dec p.keep_index
              ∷ print_dec (keepalive.cnt p.keep_index)
              ∷ print_dec (keepalive.oldcnt p.keep_index)
              ∷ print_dec (keepalive.retry p.keep_index)
              ∷ [])
            ∷ [],
    )
  ]
]

unfoldable pub proc_info_print : Keepalive → MainCtx → Rows
unfolding proc_info_fill_cb
proc_info_print keepalive ctx = (list_element ctx.proc_list (proc_info_fill_cb keepalive) []).1

unfoldable pub http_print_pod_status : Keepalive → MainCtx → Outcome
unfolding proc_info_print http_reply_common
http_print_pod_status keepalive ctx =
    returns ctx (
      http_reply_common (pos 0) 200 (some (codes "Ok")) (some (proc_info_print keepalive ctx)) ∷ [])

unfoldable pub http_reply_pod_live : MainCtx → Bytes → Outcome
unfolding http_reply_common
http_reply_pod_live ctx proc_name = elim (get_element ctx.proc_list proc_name) [
  | none ↦ returns ctx (http_reply_common (negsuc 0) 404 (some (codes "Not Found")) none ∷ [])
  | some elem ↦ elim elem.payload [
    | none ↦ crashes []
    | some p ↦
        if is_pos p.alive_status
        then returns ctx (http_reply_common (pos 0) 200 (some (codes "Ok")) none ∷ [])
        else returns ctx
            (http_reply_common (negsuc 0) 503 (some (codes "Service Unavailable")) none ∷ [])
  ]
]

-- The two assignments of `http_patch_pod_live`.
abbrev pub set_alive : ℤ → ProcCtx → ProcCtx
set_alive v p =
    if is_zero v
    then record p { alive_status = v; force_status = 1 }
    else record p { alive_status = v }

-- The reply to a missing `status`, behind which the handler goes on.
unfoldable pub missing_status : Option Bytes → List Reply
missing_status none = unavailable_503 ∷ []
missing_status (some _) = []

-- `atoi` reads through the null pointer of a missing `status`, behind the reply about it.
unfoldable pub http_patch_pod_live : MainCtx → Bytes → Option Bytes → Outcome
unfolding http_reply_common missing_status
http_patch_pod_live ctx proc_name status =
    let early = missing_status status in
    elim (get_element ctx.proc_list proc_name) [
      | none ↦
          returns ctx
            (early ++ http_reply_common (negsuc 0) 404 (some (codes "Not Found")) none ∷ [])
      | some elem ↦ elim status [
        | none ↦ crashes early
        | some text ↦
            returns
              (record ctx {
                proc_list = update_element ctx.proc_list proc_name (set_alive (atoi text));
              })
              (http_reply_common (pos 0) 200 (some (codes "Ok")) none ∷ [])
      ]
    ]

-- `strstr(s, "..")`
unfoldable pub has_dotdot : Bytes → Bool
has_dotdot [] = false
has_dotdot (c ∷ []) = false
has_dotdot (c ∷ d ∷ cs) = c == b'.' && d == b'.' || has_dotdot (d ∷ cs)

-- What follows the prefix in a text that has it.
unfoldable pub strip_prefix : Bytes → Bytes → Option Bytes
strip_prefix [] s = some s
strip_prefix (p ∷ ps) [] = none
strip_prefix (p ∷ ps) (c ∷ cs) = let rest = strip_prefix ps cs in if p == c then rest else none

-- `/live/NAME`, by the method.
unfoldable pub http_live : MainCtx → Method → Option Bytes → Bytes → Outcome
unfolding http_reply_pod_live http_patch_pod_live
http_live ctx get status proc_name = http_reply_pod_live ctx proc_name
http_live ctx patch status proc_name = http_patch_pod_live ctx proc_name status
http_live ctx _ status proc_name = returns ctx []

-- `NULL` or the path becomes a path.
abbrev pub path_or_root : Option Bytes → Bytes
path_or_root none = codes "/"
path_or_root (some path) = path

-- The reply behind the label `err`.
abbrev pub err_404 : MainCtx → Outcome
err_404 ctx = returns ctx (not_found_404 ∷ [])

-- The branch on what follows `/live/`, if the path begins so and is longer.
unfoldable pub serve_name : MainCtx → Method → Option Bytes → Option Bytes → Outcome
unfolding http_live
serve_name ctx method status none = err_404 ctx
serve_name ctx method status (some []) = err_404 ctx
serve_name ctx method status (some (c ∷ name)) = http_live ctx method status (c ∷ name)

-- The branch on the decoded path, if libevent can decode it.
unfoldable pub serve_path : MainCtx → Method → Option Bytes → Option Bytes → Outcome
unfolding serve_name has_dotdot strip_prefix
serve_path ctx method status none = err_404 ctx
serve_path ctx method status (some decoded_path) =
    if has_dotdot decoded_path
    then err_404 ctx
    else serve_name ctx method status (strip_prefix (codes "/live/") decoded_path)

-- The handler of every other path. `uri_path` is what libevent finds in the uri: none if it cannot
-- parse it, else the path, if there is one; `evhttp_uridecode` is its decoding of `%`.
module _ (evhttp_uridecode : Bytes → Option Bytes) where
  unfoldable pub http_reply_default :
      MainCtx → Method → Option Bytes → Option (Option Bytes) → Outcome
  unfolding serve_path http_reply_common
  http_reply_default ctx method status none =
      returns ctx (http_reply_common (negsuc 0) 400 none none ∷ [])
  http_reply_default ctx method status (some path) =
      serve_path ctx method status (evhttp_uridecode (path_or_root path))
