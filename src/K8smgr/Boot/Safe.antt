-- ===== src/K8smgr/Boot/Safe.antt =====
-- The start of the manager of src/k8smgr/main.c.
use k8s.Common.{
  Bytes, codes, ℕ, ◌≢◌, Option, none, some, inl, inr, List, [], ◌∷◌, all, Bool-cases, Option-cases,
  ◌≡◌, ℤ, pos, negsuc, refl, ◌||◌, length, leb,
}
use k8s.K8smgr.{PodInfo, Keepalive}
use k8s.K8smgr.Init.{
  World, Start, or_fails, init_service, init_peer, main_init_getenv, init_side, paired_pod,
}
use k8s.K8smgr.Label.{my_mode, Effect, text_size}
use k8s.Libs.{fopen_read_malloc, strrchr}
use k8s.Elem.Order.{root_node}
use k8s.K8smgr.Boot.{
  main_init_httpserver, Libraries, Booted, booted, timers, boot_with, HttpServer, Timer,
  main_initialize, boot_from, boot_at,
}
use k8s.K8smgr.Procs.{create_keepalive_list}
use k8s.K8smgr.System.{System}
use k8s.K8smgr.System.Safety.{IsRunning}
use k8s.K8smgr.Procs.Fresh.{IsFresh, create_keepalive_list-IsFresh}

-- `P` holds of the pod that a start knows.
abbrev OnStart : (PodInfo → Type 0) → Start → Type 0
OnStart P (Start.starts pod effects) = P pod
OnStart P _ = Unit

or_fails-OnStart :
    {A : Type 0} (P : PodInfo → Type 0) (o : Option A) (f : A → Start)
    → ((a : A) → OnStart P (f a))
    → OnStart P (or_fails o f)
or_fails-OnStart P none f h = tt
or_fails-OnStart P (some a) f h = h a

abbrev KnowsSide : PodInfo → Type 0
KnowsSide pod = my_mode pod ≢ none

init_service-KnowsSide :
    (w : World) (pod : PodInfo) (mode : ℕ)
    → KnowsSide pod
    → OnStart KnowsSide (init_service w pod mode)
unfolding init_service my_mode
init_service-KnowsSide w pod mode side =
    or_fails-OnStart KnowsSide (w.getenv (codes "KUBERNETES_SERVICE_HOST")) _ λ host.
      or_fails-OnStart KnowsSide (w.getenv (codes "KUBERNETES_SERVICE_PORT")) _ λ port.
        or_fails-OnStart KnowsSide (fopen_read_malloc (w.file (codes "/k8s/secret/token"))) _
          λ token. side

init_side-KnowsSide : (w : World) (pod : PodInfo) → OnStart KnowsSide (init_side w pod)
unfolding init_side
init_side-KnowsSide w pod = elim (Option-cases (my_mode pod)) [
  | inl e ↦ rw (OnStart, e) tt
  | inr (mode, e) ↦ rw (init_side, e) (init_service-KnowsSide w pod mode (λ n. cc (n, e)))
]

init_peer-KnowsSide :
    (w : World) (name service namespace : Bytes)
    → OnStart KnowsSide (init_peer w name service namespace)
unfolding init_peer
init_peer-KnowsSide w name service namespace = elim (Option-cases (strrchr b'-' name)) [
  | inl e ↦ rw (OnStart, e) tt
  | inr (parts, e) ↦
      let pod = paired_pod w name service namespace parts in
      elim (Bool-cases (leb text_size (length name) || leb text_size (length pod.peer_pod_url))) [
        | inl long ↦ rw (init_peer, e, long) tt
        | inr fits ↦ rw (init_peer, e, fits) (init_side-KnowsSide w pod)
      ]
]

main_init_getenv-KnowsSide : (w : World) → OnStart KnowsSide (main_init_getenv w)
unfolding main_init_getenv
main_init_getenv-KnowsSide w = or_fails-OnStart KnowsSide (w.getenv (codes "MY_POD_NAME")) _ λ name.
    or_fails-OnStart KnowsSide (w.getenv (codes "MY_SERVICE_NAME")) _ λ service.
      or_fails-OnStart KnowsSide
        (fopen_read_malloc
          (w.file (codes "/var/run/secrets/kubernetes.io/serviceaccount/namespace")))
        _ λ namespace. init_peer-KnowsSide w name service namespace

-- The whole start: every manager that comes up has its list in order and knows its side.
abbrev pub OnBooted : (System → Type 0) → Booted → Type 0
OnBooted P (booted s server ts effects) = P s
OnBooted P _ = Unit

-- A manager that has come up: its processes and counters are fresh.
pub record IsStarted (num : ℕ) (before : Keepalive) (s : System) : Type 0 where
  pub running : IsRunning num s
  pub fresh : IsFresh before (s.shm, s.ctx.proc_list)
  pub not_forced : s.ctx.force_not_ready ≡ 0

boot_with-IsStarted :
    (w : Libraries) (pod : PodInfo) (effects : List Effect)
    → KnowsSide pod
    → OnBooted (λ s. (num : ℕ) × IsStarted num w.keepalive s) (boot_with w pod effects)
unfolding boot_with
boot_with-IsStarted w pod effects side = elim (Option-cases (main_init_httpserver w.is_bound)) [
  | inl e ↦ rw (OnBooted, e) tt
  | inr (server, e) ↦ elim (Bool-cases w.has_shm) [
    | inr no_shm ↦ rw (OnBooted, e, no_shm) tt
    | inl shm ↦
        elim (Option-cases
          (create_keepalive_list w.event_add w.section w.keepalive (root_node ∷ []))) [
            | inl f ↦ rw (OnBooted, e, shm, f) tt
            | inr (r, f) ↦ elim (Bool-cases (all w.add_timer timers)) [
              | inr none_added ↦ rw (OnBooted, e, shm, f, none_added) tt
              | inl added ↦
                  rw (OnBooted, e, shm, f, added)
                    (
                      r.1,
                      (let (numbered, fresh) =
                            rw f at
                              (create_keepalive_list-IsFresh w.event_add w.section w.keepalive) in
                          record {
                            running = record { procs = numbered; side = side };
                            fresh = record {
                              cnt_is = fresh.cnt_is;
                              oldcnt_is = fresh.oldcnt_is;
                              free = fresh.free;
                            };
                            not_forced = refl;
                          }),
                    )
            ]
          ]
  ]
]

abbrev IsUp : Keepalive → Booted → Type 0
IsUp before = OnBooted (λ s. (num : ℕ) × IsStarted num before s)

boot_from-IsUp :
    (w : Libraries) (start : Start) → OnStart KnowsSide start → IsUp w.keepalive (boot_from w start)
unfolding boot_from
boot_from-IsUp w Start.fails h = tt
boot_from-IsUp w Start.crashes h = tt
boot_from-IsUp w (Start.starts pod effects) h = boot_with-IsStarted w pod effects h

boot_at-IsUp : (w : Libraries) (index : ℤ) → IsUp w.keepalive (boot_at w index)
unfolding boot_at
boot_at-IsUp w (pos n) =
    boot_from-IsUp w (main_init_getenv w.world) (main_init_getenv-KnowsSide w.world)
boot_at-IsUp w (negsuc n) = tt

-- A manager that comes up knows the mode of its side, is not forced to be not ready, and has its list
-- of processes in order: each stands under its own name with an index of its own, and none is forced
-- to fail. The counters and their last readings are those that shared memory had.
pub main_initialize-IsStarted :
    (w : Libraries) {s : System} {server : HttpServer} {ts : List Timer} {effects : List Effect}
    → main_initialize w ≡ booted s server ts effects
    → (num : ℕ) × IsStarted num w.keepalive s
unfolding main_initialize
main_initialize-IsStarted w e = rw e at (boot_at-IsUp w w.keepalivelib_init)
