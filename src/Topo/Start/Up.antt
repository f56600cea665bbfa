-- ===== src/Topo/Start/Up.antt =====
-- What `initialize` of src/topo/init.c leads to, of a server and of a client.

use k8s.Topo.Init.{
  ◌>>=◌, World, sysconf_file, omp_node_info, empty_list, server_context, init_omp_server, scan_addr,
  init_omp_client, by_role, initialize, decide_role, or_null, text_size, fitting,
}
use k8s.Common.{
  Bytes, codes, ◌≤◌, ◌≡◌, refl, ◌⊎◌, inl, inr, Option, none, some, List, [], ◌∷◌, ◌++◌, arith,
  length, add_ℕ, Bool-cases, Option-cases, is_neg, atoi, ◌<◌, length-append, print_int, leb,
}
use k8s.Elem.Order.{OnSome}
use k8s.Topo.Context.{MainCtx, cr_client, cr_server, ClusterRole}
use k8s.Topo.Effect.{Effect}
use k8s.Libs.{popen_cmd, fopen_read, strrchr}
use k8s.Topo.Udp.Bounds.{IsBounded}
use k8s.Topo.Fits.{IsHome}
use k8s.Topo.Start.Sizes.{popen_cmd-length, scan_addr-length, omp_node_info-IsBounded}

-- A server has the node of the OMP in its table, and a client has none.
pub record IsServer (ctx : MainCtx) : Type 0 where
  pub before : MainCtx
  pub label : Bytes
  pub is_context : ctx ≡ server_context before label
  pub is_server : before.role ≡ cr_server
  pub bounded : IsBounded (omp_node_info label before.omp_ip before.base_port)

pub record IsClient (ctx : MainCtx) : Type 0 where
  pub is_client : ctx.role ≡ cr_client
  pub no_nodes : ctx.node_list ≡ empty_list

abbrev pub IsUp : MainCtx × List Effect → Type 0
IsUp r = IsServer r.0 ⊎ IsClient r.0

OnSome-bind :
    {A B : Type 0} (P : B → Type 0) (o : Option A) (f : A → Option B)
    → ((a : A) → OnSome P (f a))
    → OnSome P (o >>= f)
OnSome-bind P none f h = tt
OnSome-bind P (some a) f h = h a

init_omp_server-IsUp :
    (w : World) (ctx : MainCtx)
    → ctx.role ≡ cr_server
    → length ctx.omp_ip ≤ 127
    → OnSome IsUp (init_omp_server w ctx)
unfolding init_omp_server
init_omp_server-IsUp w ctx role short =
    let output =
      w.popen (codes "cat " ++ sysconf_file w ++ codes " | grep MP_LABEL | awk '{print $3}'") in
    elim (Bool-cases (leb text_size (length (sysconf_file w)))) [
      | inl long ↦ rw (init_omp_server, long) tt
      | inr fits ↦ elim (Option-cases (popen_cmd output 127)) [
        | inl failed ↦ rw (init_omp_server, fits, failed) tt
        | inr (label, e) ↦ elim (Bool-cases w.socket_calls) [
          | inl bound ↦
              rw (init_omp_server, fits, e, bound)
                (inl (record {
                  before = ctx;
                  label = label;
                  is_context = refl;
                  is_server = role;
                  bounded =
                      omp_node_info-IsBounded label ctx.omp_ip ctx.base_port
                        (omega (arith, popen_cmd-length output e)) short;
                }))
          | inr unbound ↦ rw (init_omp_server, fits, e, unbound) tt
        ]
      ]
    ]

init_omp_client-IsClient :
    (w : World) (ctx : MainCtx) → ctx.role ≡ cr_client → OnSome IsClient (init_omp_client w ctx)
unfolding init_omp_client
init_omp_client-IsClient w ctx role =
    OnSome-bind IsClient (w.getenv (codes "MY_NODE_NAME")) _ λ my_node_name.
      OnSome-bind IsClient (w.getenv (codes "MY_POD_NAME")) _ λ my_pod_name.
        OnSome-bind IsClient (w.getenv (codes "MY_NODE_IP")) _ λ my_node_ip.
          OnSome-bind IsClient (w.getenv (codes "MY_POD_IP")) _ λ my_pod_ip.
            OnSome-bind IsClient (strrchr b'-' my_pod_name) _ λ parts.
              OnSome-bind IsClient (fopen_read (w.file (codes "/label_conf/name")) 127) _ λ label.
                OnSome-bind IsClient (fitting (label ++ b'_' ∷ print_int (add_ℕ (atoi parts.1) 1)))
                  _
                  λ name.
                    OnSome-bind IsClient (fopen_read (w.file (codes "/label_conf/type")) 127) _
                      λ kind.
                        OnSome-bind IsClient (fopen_read (w.file (codes "/label_conf/group")) 127) _
                          λ group.
                            OnSome-bind IsClient
                              (fopen_read (w.file (codes "/label_conf/ixpc_base_port")) 127) _
                              λ base_port. record { is_client = role; no_nodes = refl }

init_omp_client-IsUp :
    (w : World) (ctx : MainCtx)
    → ctx.role ≡ cr_client
    → OnSome IsUp (init_omp_client w ctx >>= λ c. some (c, []))
init_omp_client-IsUp w ctx role =
    let up = init_omp_client-IsClient w ctx role in
    elim (Option-cases (init_omp_client w ctx)) [
      | inl failed ↦ rw failed tt
      | inr (c, e) ↦ rw e (inr (rw e at up))
    ]

by_role-IsUp :
    (w : World) (ctx : MainCtx) (role : ClusterRole)
    → ctx.role ≡ role
    → length ctx.omp_ip ≤ 127
    → OnSome IsUp (by_role w ctx role)
unfolding by_role
by_role-IsUp w ctx cr_server role short = init_omp_server-IsUp w ctx role short
by_role-IsUp w ctx cr_client role short = init_omp_client-IsUp w ctx role

pub initialize-IsUp : (w : World) (ctx : MainCtx) → OnSome IsUp (initialize w ctx)
unfolding initialize
initialize-IsUp w ctx = elim (Bool-cases (is_neg w.keepalivelib_init)) [
  | inl refused ↦ rw refused tt
  | inr registered ↦ rw registered (
      OnSome-bind IsUp (w.getenv (codes "EMS_TOPO_ADDR")) _ λ ems_topo_addr.
        OnSome-bind IsUp (fitting (sysconf_file w)) _ λ path.
          elim (Bool-cases (is_neg w.commlib_crte_msg_q)) [
            | inl no_queue ↦ rw no_queue tt
            | inr queue ↦ rw queue (
                by_role-IsUp w
                  (record ctx {
                    ems_topo_addr = ems_topo_addr;
                    my_sys_name = w.getenv (codes "MY_SYS_NAME");
                    omp_ip = (scan_addr ems_topo_addr).0;
                    base_port = atoi (scan_addr ems_topo_addr).1;
                    ixpc_qid = w.commlib_crte_msg_q;
                    role = decide_role (w.getenv (codes "MY_SYS_NAME"));
                  })
                  (decide_role (w.getenv (codes "MY_SYS_NAME"))) refl
                  (scan_addr-length ems_topo_addr))
          ])
]

OnSome-any : {A : Type 0} (Q : Type 0) (o : Option A) → Q → OnSome (λ a. Q) o
OnSome-any Q none q = tt
OnSome-any Q (some a) q = q

OnSome-fitting :
    {A : Type 0} (s : Bytes) (f : Bytes → Option A)
    → OnSome (λ a. length s < text_size) (fitting s >>= f)
unfolding fitting
OnSome-fitting s f = elim (Bool-cases (leb text_size (length s))) [
  | inl long ↦ rw long tt
  | inr short ↦ rw short (OnSome-any (length s < text_size) (f s) (ground (arith, short)))
]

-- Where the process comes up, the path of its configuration fits its buffer.
pub initialize-fits :
    (w : World) (ctx : MainCtx)
    → OnSome (λ r. length (sysconf_file w) < text_size) (initialize w ctx)
unfolding initialize
initialize-fits w ctx = elim (Bool-cases (is_neg w.keepalivelib_init)) [
  | inl refused ↦ rw refused tt
  | inr registered ↦ rw registered (
      OnSome-bind (λ r. length (sysconf_file w) < text_size) (w.getenv (codes "EMS_TOPO_ADDR")) _
        λ ems_topo_addr. OnSome-fitting (sysconf_file w) _)
]

-- The paths of the files that a process writes fit theirs, where that path does.
pub or_null-IsHome :
    (iv_home : Option Bytes)
    → length (or_null iv_home ++ codes "/data/sysconfig") < text_size
    → IsHome iv_home
or_null-IsHome none fits = omega arith
or_null-IsHome (some s) fits = omega (
  arith,
  fits,
  length-append s (codes "/data/sysconfig"),
  length-append s (codes "/data/associate_config"),
)
