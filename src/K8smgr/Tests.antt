-- ===== src/K8smgr/Tests.antt =====
-- The manager at concrete inputs.
use k8s.K8smgr.{MainCtx, ProcCtx, ProcList, PodInfo, Keepalive}
use k8s.Common.{
  Bytes, codes, strcmp, str_eq, ℕ, ◌≡◌, refl, ◌↔◌, ◌⊎◌, true, false, ◌&&◌, Option, none, some, List,
  [], ◌∷◌, arith, pos, negsuc, is_pos, is_zero, atoi, if◌then◌else◌, ◌+◌, is_neg,
}
use k8s.Elem.Lookup.{find}
use k8s.Elem.Order.{node, root_node, nil, cons, IsTable, table}
use k8s.K8smgr.Hang.{ticks, ticks-hang, ticks-forced}
use k8s.K8smgr.Http.{
  get, patch, ok_200, unavailable_503, returns, http_reply_pod_ready, http_reply_pod_live,
  set_alive, http_patch_pod_live, http_reply_default,
}
use k8s.K8smgr.Label.{http_recv_reply, active, standby, my_mode, main_update_pod_label}
use k8s.K8smgr.Live.{
  http_patch_pod_live-get, http_patch_pod_live-missing_status, RepliesOnce, get_any,
  http_reply_default-RepliesOnce, without_status,
}
use k8s.K8smgr.Pair.{
  after_replies, start_seen, ready_seen, IsStandbySide, label_effects,
  main_update_pod_label-history,
}
use k8s.K8smgr.Probe.{AllAlive, http_reply_pod_ready-get, http_reply_pod_ready-patch}
use k8s.K8smgr.Watched.{watched, watched-hang}
use k8s.K8smgr.Duo.{hear_peer, hear_nothing, sets_active, labels, IsInOrder, sets_active-IsInOrder}

abbrev proc : Bytes → ℕ → ProcCtx
proc name i = record { proc_name = name; keep_index = i; alive_status = pos 1; force_status = 0 }

abbrev a_name : Bytes
a_name = codes "PROC_A"

abbrev b_name : Bytes
b_name = codes "PROC_B"

abbrev procs : ProcList
procs = root_node ∷ node a_name (proc a_name 0) ∷ node b_name (proc b_name 1) ∷ []

procs-IsTable : IsTable procs
unfolding strcmp
procs-IsTable = table (cons tt (cons refl nil))

abbrev pod : PodInfo
pod = record {
  my_pod_name = codes "k8s-1";
  my_service_name = codes "svc";
  my_pod_namespace = codes "ariel";
  peer_pod_url = codes "k8s-0.svc.ariel.svc.cluster.local";
  peer_pod_start = pos 0;
  peer_pod_ready = pos 0;
  conf_as_mode = codes "AS";
  conf_my_side = pos 1;
  k8s_service_host = codes "10.0.0.1";
  k8s_service_port = pos 443;
  k8s_acc_token = codes "t";
  k8s_acc_token_bearer = codes "Bearer t";
}

abbrev ctx : MainCtx
ctx = record { force_not_ready = 0; my_sys_status = 1; pod_info = pod; proc_list = procs }

abbrev keepalive : Keepalive
keepalive = record { cnt = λ i. 0; oldcnt = λ i. 0; retry = λ i. 0 }

ticks-hang_example :
    let q = (ticks (7 ∷ 7 ∷ 7 ∷ 8 ∷ []) (keepalive, proc a_name 0)).1 in
    ((q.alive_status ≡ pos 0) ↔ ((◌≡◌ {A = ℕ} 7 7) × (◌≡◌ {A = ℕ} 7 7) × (◌≡◌ {A = ℕ} 7 8)))
    × ((q.alive_status ≡ pos 0) ⊎ (q.alive_status ≡ pos 1))
ticks-hang_example = ticks-hang keepalive (proc a_name 0) 7 7 7 8 (omega arith) refl

abbrev forced : ProcCtx
forced = record { proc_name = a_name; keep_index = 0; alive_status = pos 0; force_status = 1 }

ticks-forced_example :
    let q = (ticks (1 ∷ 2 ∷ 3 ∷ 4 ∷ 5 ∷ []) (keepalive, forced)).1 in
    (q.alive_status ≡ pos 0) × (q.force_status ≡ 0)
ticks-forced_example =
    ticks-forced (1 ∷ 2 ∷ 3 ∷ 4 ∷ 5 ∷ []) keepalive forced (omega arith) refl refl (omega arith)

-- `/ready` failed, and then `/start` was answered.
abbrev replies : List (Option (Bytes × ℕ))
replies = some (codes "/start", 200) ∷ none ∷ []

abbrev standby_ctx : MainCtx
standby_ctx = record ctx {
  pod_info = record pod { peer_pod_start = pos 1; peer_pod_ready = negsuc 0 };
}

replies_seen : standby_ctx.pod_info ≡ after_replies pod replies
unfolding after_replies http_recv_reply str_eq
replies_seen = refl

standby_ctx-IsStandbySide : IsStandbySide standby_ctx
unfolding my_mode
standby_ctx-IsStandbySide = record {
  not_forced = omega arith;
  running = refl;
  mode = b'S';
  mode_is = refl;
  not_active = omega arith;
}

main_update_pod_label-history_example :
    main_update_pod_label standby_ctx
    ≡ some (
        label_effects standby_ctx.pod_info
          (if start_seen replies && ready_seen replies then standby else active))
main_update_pod_label-history_example =
    main_update_pod_label-history standby_ctx pod replies refl refl replies_seen
      standby_ctx-IsStandbySide

-- The label is standby, though no reply to `/ready` ever came.
stale_ready : (start_seen replies && ready_seen replies) ≡ true
unfolding start_seen ready_seen str_eq
stale_ready = refl

http_reply_pod_ready-get_example :
    ((http_reply_pod_ready ctx get none ≡ returns ctx (ok_200 ∷ []))
      ↔ ((ctx.force_not_ready ≡ 0) × AllAlive ctx.proc_list))
    × ((http_reply_pod_ready ctx get none ≡ returns ctx (ok_200 ∷ []))
        ⊎ (http_reply_pod_ready ctx get none ≡ returns ctx (unavailable_503 ∷ [])))
http_reply_pod_ready-get_example = http_reply_pod_ready-get ctx none procs-IsTable

http_reply_pod_ready-patch_example :
    (ctx' : MainCtx) × (http_reply_pod_ready ctx patch (some (codes "1"))
      ≡ returns ctx' (ok_200 ∷ []))
    × ((http_reply_pod_ready ctx' get none ≡ returns ctx' (ok_200 ∷ []))
        ↔ ((is_zero (atoi (codes "1")) ≡ false) × AllAlive procs))
http_reply_pod_ready-patch_example = http_reply_pod_ready-patch ctx (codes "1") none procs-IsTable

find_a : find procs a_name ≡ some (proc a_name 0)
unfolding find str_eq
find_a = refl

http_patch_pod_live-get_example :
    (ctx' : MainCtx) × (http_patch_pod_live ctx a_name (some (codes "0"))
      ≡ returns ctx' (ok_200 ∷ []))
    × (http_reply_pod_live ctx' a_name
        ≡ returns ctx' ((if is_pos (atoi (codes "0")) then ok_200 else unavailable_503) ∷ []))
    × (find ctx'.proc_list b_name ≡ (
        if str_eq b_name a_name
        then some (set_alive (atoi (codes "0")) (proc a_name 0))
        else find procs b_name))
http_patch_pod_live-get_example =
    http_patch_pod_live-get ctx a_name (codes "0") b_name procs-IsTable find_a

http_patch_pod_live-missing_status_example :
    http_patch_pod_live ctx a_name none ≡ without_status ctx (find procs a_name)
http_patch_pod_live-missing_status_example =
    http_patch_pod_live-missing_status ctx a_name procs-IsTable

http_reply_default-RepliesOnce_example :
    RepliesOnce (http_reply_default some ctx get none (some (some (codes "/live/PROC_A"))))
http_reply_default-RepliesOnce_example =
    http_reply_default-RepliesOnce some ctx (some (some (codes "/live/PROC_A"))) procs-IsTable
      get_any

-- A process that goes through its loop in front of the first turn and the third.
watched-hang_example :
    let q = (watched (pos 4) (2 ∷ 0 ∷ 3 ∷ 0 ∷ []) (keepalive, proc a_name 0)).1 in
    ((q.alive_status ≡ pos 0) ↔ ((is_neg (pos 4) ≡ true) ⊎ (0 + 3 + 0 ≡ 0)))
    × ((q.alive_status ≡ pos 0) ⊎ (q.alive_status ≡ pos 1))
watched-hang_example = watched-hang (pos 4) keepalive (proc a_name 0) 2 0 3 0 (omega arith) refl

-- The replica 0 of the pair, which was forced not to be ready.
abbrev first : MainCtx
first = record ctx { pod_info = record pod { conf_my_side = pos 0 }; force_not_ready = 1 }

sets_active-IsInOrder_example :
    let heard = record ctx { pod_info = hear_peer true first pod } in
    let deaf = record ctx { pod_info = hear_nothing pod } in
    ((sets_active (labels first) ≡ true) ↔ IsInOrder first)
    × ((sets_active (labels heard) ≡ true) ↔ (IsInOrder ctx × ¬ IsInOrder first))
    × ((sets_active (labels deaf) ≡ true) ↔ IsInOrder ctx)
unfolding my_mode
sets_active-IsInOrder_example =
    sets_active-IsInOrder first ctx b'S' true procs-IsTable procs-IsTable (omega arith)
      (omega arith) refl refl (λ e. omega (arith, e))
