-- ===== src/Topo/Context.antt =====
-- `main_ctx_t` of src/topo/topo.h, without its socket and its event base. A string that
-- `getenv` gave is empty before it is read.
use k8s.Common.{Bytes, ℕ, Option, List, ℤ}
use k8s.Topo.Effect.{Effect}
use k8s.Topo.Node.{NodeList}

pub data ClusterRole : Type 0 where
  cr_client cr_server : ClusterRole

pub record MainCtx : Type 0 where
  pub ems_topo_addr : Bytes
  pub my_sys_name : Option Bytes
  pub role : ClusterRole
  pub mp_label : Bytes
  pub my_node_name : Bytes
  pub my_pod_name : Bytes
  pub my_node_ip : Bytes
  pub my_pod_ip : Bytes
  pub my_mp_index : ℤ
  pub name : Bytes
  pub type_name : Bytes
  pub group : Bytes
  pub port : Bytes
  pub ixpc_qid : ℤ
  pub omp_ip : Bytes
  pub base_port : ℤ
  pub node_list : NodeList

abbrev pub topo_max_buffer : ℕ
topo_max_buffer = 10240

-- What a handler does: it goes on with a context and what it sent and wrote, or it writes past the
-- end of a buffer.
pub data Outcome : Type 0 where
  goes_on : MainCtx → List Effect → Outcome
  faults : Outcome
