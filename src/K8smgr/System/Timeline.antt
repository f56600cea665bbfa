-- ===== src/K8smgr/System/Timeline.antt =====
-- The manager of src/k8smgr/main.c second by second: every process goes once through its loop, the
-- timers of the manager run, and every third second those of the processes, in the order of the list.
pub mod Turns
pub mod Seconds
use k8s.Common.{
  Bytes, str_eq, str_eq_iff, str_eq_refl, ℕ, zero, suc, ◌+◌, ◌%◌, ◌≡◌, refl, inl, inr, true, Option,
  none, some, List, [], ◌∷◌, ◌++◌, arith, ◌==◌, if◌then◌else◌, Bool-cases, Option-cases,
}
use k8s.Elem.Lookup.{find, find-at}
use k8s.Elem.Order.{IsSorted, nil, cons}
use k8s.K8smgr.{ProcCtx, ProcList}
use k8s.K8smgr.System.{tick, Event, count_up, watch, update_label, peer_reply, ready, request}
use k8s.K8smgr.Http.{get}
use k8s.K8smgr.System.Beat.{Marks, mark_count, mark_turn}
use k8s.K8smgr.System.Ready.{and_mark, marks_after}

-- One round of the loop of each process of the list.
unfoldable pub counts : ProcList → List Event
counts [] = []
counts (e ∷ l) = elim e.payload [ none ↦ counts l | some p ↦ count_up p.keep_index ∷ counts l ]

-- The turns of the timers of the processes.
unfoldable pub watches : ProcList → List Event
watches [] = []
watches (e ∷ l) = elim e.key [ none ↦ watches l | some name ↦ watch name ∷ watches l ]

-- `tm_intvl` of `create_proc_status_check`, in seconds.
abbrev pub watch_interval : ℕ
watch_interval = 3

-- The second `n`, with what else happens in it.
unfoldable pub second : ProcList → List Event → ℕ → List Event
second l asides n =
    counts l
    ++ (asides ++ tick ∷ update_label ∷ (if n % watch_interval == 0 then watches l else []))

-- The seconds from `n` on, `num` of them.
unfoldable pub seconds : ProcList → (ℕ → List Event) → ℕ → ℕ → List Event
seconds l asides n zero = []
seconds l asides n (suc num) = second l (asides n) n ++ seconds l asides (n + 1) num

-- What else may happen: the peer replies, and requests only ask.
abbrev pub IsAside : Event → Type 0
IsAside (count_up i) = ⊥
IsAside (watch name) = ⊥
IsAside (ready method status) = method ≡ get
IsAside (request method status path) = method ≡ get
IsAside _ = Unit

abbrev pub AllAside : List Event → Type 0
AllAside [] = Unit
AllAside (e ∷ es) = IsAside e × AllAside es

abbrev pub index_in : Option ProcCtx → ℕ
index_in none = 0
index_in (some p) = p.keep_index

-- The index of the process of a name.
abbrev pub proc_index : ProcList → Bytes → ℕ
proc_index l name = index_in (find l name)
