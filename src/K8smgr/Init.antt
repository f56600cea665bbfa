-- ===== src/K8smgr/Init.antt =====
-- `main_init_getenv`: what the manager learns of its pod, its peer and the API server at the start.
use k8s.Libs.{fopen_read_malloc, strrchr}
use k8s.K8smgr.Label.{
  Effect, my_mode, k8s_api_patch_pod_status, status_text, active, standby, text_size,
}
use k8s.Common.{
  Bytes, codes, ℕ, ◌+◌, ◌-◌, ◌/◌, ◌%◌, ◌≡◌, ◌≢◌, inl, inr, Option, none, some, List, [], ◌∷◌, ◌++◌,
  arith, ℤ, pos, negsuc, atoi, add_ℕ, print_int, ◌==◌, if◌then◌else◌, Bool-cases, ◌||◌, length, leb,
}
use k8s.K8smgr.{PodInfo}

-- The environment, and the content of the files.
pub record World : Type 0 where
  pub getenv : Bytes → Option Bytes
  pub file : Bytes → Option Bytes

-- `none` is the -1; a crash is an access through the null pointer of `strrchr` or outside of the
-- mode string, or a name or a URL that is longer than its buffer.
pub data Start : Type 0 where
  starts : PodInfo → List Effect → Start
  fails : Start
  crashes : Start

-- `index % 2 == 0 ? index + 1 : index - 1`
unfoldable pub peer_index : ℤ → ℤ
peer_index (pos n) = if n % 2 == 0 then pos (n + 1) else pos (n - 1)
peer_index (negsuc n) = if n % 2 == 0 then negsuc (n + 1) else add_ℕ (negsuc n) 1

unfoldable pub peer_url : Bytes → ℤ → Bytes → Bytes → Bytes
peer_url upto_dash index service namespace =
    upto_dash ++ print_int index ++ b'.' ∷ service ++ b'.' ∷ namespace ++ codes ".svc.cluster.local"

abbrev pub or_fails : {A : Type 0} → Option A → (A → Start) → Start
or_fails none f = fails
or_fails (some a) f = f a

-- The mode string, two active sides where there is no file of it.
unfoldable pub as_mode : World → Bytes
unfolding fopen_read_malloc
as_mode w = elim (fopen_read_malloc (w.file (codes "/data/AS_MODE"))) [
  | none ↦ codes "AA"
  | some mode ↦ mode
]

-- The last part: the API server and its token, and the first label.
unfoldable pub init_service : World → PodInfo → ℕ → Start
unfolding fopen_read_malloc
init_service w pod status_mode = or_fails (w.getenv (codes "KUBERNETES_SERVICE_HOST")) λ host.
    or_fails (w.getenv (codes "KUBERNETES_SERVICE_PORT")) λ port.
      or_fails (fopen_read_malloc (w.file (codes "/k8s/secret/token"))) λ token.
        let pod' = record pod {
          k8s_service_host = host;
          k8s_service_port = atoi port;
          k8s_acc_token = token;
          k8s_acc_token_bearer = codes "Bearer " ++ token;
        } in
        starts pod' (
          k8s_api_patch_pod_status pod'
            (status_text (if status_mode == b'A' then active else standby))
          ∷ [])

-- The pod, with what stands in its name up to the last dash and behind it. The parts that come later
-- are zero.
unfoldable pub paired_pod : World → Bytes → Bytes → Bytes → Bytes × Bytes → PodInfo
unfolding peer_url as_mode
paired_pod w name service namespace (upto_dash, index_str) =
    let index = atoi index_str in
    record {
      my_pod_name = name;
      my_service_name = service;
      my_pod_namespace = namespace;
      peer_pod_url = peer_url upto_dash (peer_index index) service namespace;
      peer_pod_start = pos 0;
      peer_pod_ready = pos 0;
      conf_as_mode = as_mode w;
      conf_my_side = index;
      k8s_service_host = [];
      k8s_service_port = pos 0;
      k8s_acc_token = [];
      k8s_acc_token_bearer = [];
    }

-- The mode of this side is read.
unfoldable pub init_side : World → PodInfo → Start
unfolding init_service
init_side w pod = elim (my_mode pod) [
  | none ↦ crashes
  | some status_mode ↦ init_service w pod status_mode
]

-- The middle part: the name and the URL of the peer, in buffers of `text_size` bytes, and the mode of
-- this side.
unfoldable pub init_peer : World → Bytes → Bytes → Bytes → Start
unfolding init_side paired_pod
init_peer w name service namespace = elim (strrchr b'-' name) [
  | none ↦ crashes
  | some parts ↦
      let pod = paired_pod w name service namespace parts in
      if leb text_size (length name) || leb text_size (length pod.peer_pod_url)
      then crashes
      else init_side w pod
]

unfoldable pub main_init_getenv : World → Start
unfolding init_peer fopen_read_malloc
main_init_getenv w = or_fails (w.getenv (codes "MY_POD_NAME")) λ name.
    or_fails (w.getenv (codes "MY_SERVICE_NAME")) λ service.
      or_fails
        (fopen_read_malloc
          (w.file (codes "/var/run/secrets/kubernetes.io/serviceaccount/namespace")))
        λ namespace. init_peer w name service namespace

-- The peer of a replica's peer is the replica, and another one, with which it shares half its index.
pub peer_index-peer_index :
    (n : ℕ)
    → (peer_index (peer_index (pos n)) ≡ pos n)
      × ((m : ℕ) × (peer_index (pos n) ≡ pos m) × (m ≢ n) × (m / 2 ≡ n / 2))
unfolding peer_index
peer_index-peer_index n = elim (Bool-cases (n % 2 == 0)) [
  | inl even ↦ (
    ground (arith, even),
    (n + 1, ground (arith, even), (λ e. omega (arith, e)), ground (arith, even)),
  )
  | inr odd ↦ (
    ground (arith, odd),
    (n - 1, ground (arith, odd), (λ e. ground (arith, odd, e)), ground (arith, odd)),
  )
]
