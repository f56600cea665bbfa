-- ===== src/K8smgr/Request.antt =====
-- The requests that the manager makes: `make_http_request`, `make_https_request_for_k8s` and what
-- calls them, as what is handed to libevent.
use k8s.K8smgr.Http.{Method, get}
use k8s.Common.{
  Bytes, codes, ℕ, Bool, true, false, Option, none, some, List, [], ◌∷◌, ◌++◌, length, ℤ, pos,
  print_dec,
}
use k8s.K8smgr.{PodInfo}

-- The callback that gets the reply: `http_recv_reply` or `https_recv_reply`.
pub data Callback : Type 0 where
  to_peer_state to_log : Callback

-- A request as `evhttp_make_request` gets it, its connection with the address, the port and the
-- timeout in seconds; the TLS connection is used where `is_tls`.
pub record HttpRequest : Type 0 where
  pub is_tls : Bool
  pub host : Bytes
  pub port : ℤ
  pub timeout : ℕ
  pub method : Method
  pub path : Bytes
  pub callback : Callback
  pub headers : List (Bytes × Bytes)
  pub body : Bytes

abbrev pub k8smsg_http_listen : ℕ
k8smsg_http_listen = 32768

unfoldable pub make_http_request : Bytes → ℤ → Method → Bytes → ℕ → Callback → HttpRequest
make_http_request svr_addr svr_port cmd path timeout reqcb = record {
  is_tls = false;
  host = svr_addr;
  port = svr_port;
  timeout = timeout;
  method = cmd;
  path = path;
  callback = reqcb;
  headers = [];
  body = [];
}

abbrev given_header : Option Bytes → Option Bytes → List (Bytes × Bytes)
given_header (some header) (some content) = (header, content) ∷ []
given_header _ _ = []

abbrev length_header : Option Bytes → List (Bytes × Bytes)
length_header none = []
length_header (some body) = (codes "Content-Length", print_dec (length body)) ∷ []

unfoldable pub make_https_request_for_k8s :
    PodInfo
    → Bytes
    → ℤ
    → Method
    → Bytes
    → ℕ
    → Callback
    → Option Bytes
    → Option Bytes
    → Option Bytes
    → HttpRequest
make_https_request_for_k8s pod svr_addr svr_port cmd path timeout reqcb header content body =
    record {
      is_tls = true;
      host = svr_addr;
      port = svr_port;
      timeout = timeout;
      method = cmd;
      path = path;
      callback = reqcb;
      headers =
          (codes "Authorization", pod.k8s_acc_token_bearer)
            ∷ (codes "Host", svr_addr)
            ∷ (codes "Connection", codes "close")
            ∷ []
          ++ given_header header content
          ++ length_header body;
      body = elim body [ none ↦ [] | some text ↦ text ];
    }

-- The two questions to the peer.
unfoldable pub main_check_peer_pod : PodInfo → List HttpRequest
unfolding make_http_request
main_check_peer_pod pod =
    make_http_request pod.peer_pod_url (pos k8smsg_http_listen) get (codes "/start") 1 to_peer_state
    ∷ make_http_request pod.peer_pod_url (pos k8smsg_http_listen) get (codes "/ready") 1
        to_peer_state
    ∷ []
