-- ===== src/Topo/LoopTests.antt =====
-- A server and a client of src/topo, from their environment into their event loops.
use k8s.Topo.Polling.{exchange, AllRead}
use k8s.Common.{
  Bytes, codes, str_eq, ◌≡◌, refl, true, Option, none, some, List, [], ◌∷◌, arith, pos,
  if◌then◌else◌, c_string,
}
use k8s.Elem.Lookup.{find}
use k8s.Topo.Context.{MainCtx, cr_client, cr_server, goes_on}
use k8s.Topo.Init.{World, empty_list, server_context, initialize}
use k8s.Topo.Effect.{Effect, AllFit}
use k8s.Topo.Start.{
  Callback, main, main_tick_each_second, udp_client_each_second, udp_server_on_read, proc_start,
}
use k8s.Topo.Polling.{second, ClientEvent, poll}
use k8s.Topo.Node.{NodeInfo, NodeList, assoc_info_reply_msg}
use k8s.Topo.Node.Print.{assoc_info_print}
use k8s.Topo.Polling.Kept.{IsKept}
use k8s.Topo.Run.{IsServing, omp}
use k8s.Topo.Samples.{server_list, server_addr}
use k8s.Topo.Serving.{serve}
use k8s.Topo.Serving.ByName.{replay, IsView}
use k8s.Topo.ServingTests.{in_order, in_order-AllAmong}
use k8s.Topo.Start.Loops.{main-serve, main-poll}
use k8s.Topo.Udp.Round.{answered_by}
use k8s.Topo.UdpTests.{client_ctx-IsReporting}

-- The environment and the files of a pod; the server has the first two variables only.
abbrev env : Bytes → Option Bytes
env v =
    if str_eq v (codes "EMS_TOPO_ADDR")
    then some (codes "10.0.0.2:5000")
    else if str_eq v (codes "MY_NODE_NAME")
    then some (codes "node-a")
    else if str_eq v (codes "MY_POD_NAME")
    then some (codes "mp-0")
    else if str_eq v (codes "MY_NODE_IP")
    then some (codes "10.0.0.1")
    else if str_eq v (codes "MY_POD_IP")
    then some (codes "10.1.0.1")
    else none

abbrev label_files : Bytes → Option Bytes
label_files f =
    if str_eq f (codes "/label_conf/name")
    then some (codes "MP")
    else if str_eq f (codes "/label_conf/type")
    then some (codes "MP")
    else if str_eq f (codes "/label_conf/group")
    then some (codes "G")
    else some (codes "0x1388")

abbrev client_world : World
client_world = record {
  getenv = env;
  file = label_files;
  popen = λ c. none;
  keepalivelib_init = pos 3;
  commlib_crte_msg_q = pos 7;
  socket_calls = true;
}

abbrev server_world : World
server_world = record client_world {
  getenv = λ v. if str_eq v (codes "MY_SYS_NAME") then some (codes "omp") else env v;
  popen = λ c. some (codes "L");
}

abbrev zero_ctx : MainCtx
zero_ctx = record {
  ems_topo_addr = [];
  my_sys_name = none;
  role = cr_client;
  mp_label = [];
  my_node_name = [];
  my_pod_name = [];
  my_node_ip = [];
  my_pod_ip = [];
  my_mp_index = pos 0;
  name = [];
  type_name = [];
  group = [];
  port = [];
  ixpc_qid = pos 0;
  omp_ip = [];
  base_port = pos 0;
  node_list = [];
}

abbrev server_before : MainCtx
server_before = record zero_ctx {
  ems_topo_addr = codes "10.0.0.2:5000";
  my_sys_name = some (codes "omp");
  omp_ip = codes "10.0.0.2";
  base_port = pos 5000;
  ixpc_qid = pos 7;
  role = cr_server;
}

abbrev server_started : MainCtx
server_started = server_context server_before (codes "L")

server_up :
    main server_world (λ c. true) zero_ctx
    ≡ some (
      (server_started, assoc_info_print none server_started.node_list ∷ []),
      main_tick_each_second ∷ udp_server_on_read ∷ [],
    )
unfolding main initialize proc_start str_eq k8s.Common.c_string k8s.Common.atoi assoc_info_print
server_up = refl

main-serve_example :
    (◌≡◌ {A = List Callback}
      (main_tick_each_second ∷ udp_server_on_read ∷ [])
      (main_tick_each_second ∷ udp_server_on_read ∷ []))
    × (o : NodeInfo) × (l : NodeList) × (after : List Effect) × (find server_started.node_list omp
        ≡ some o)
    × (serve (λ c l. l) none in_order server_started []
        ≡ goes_on (record server_started { node_list = l }) after)
    × AllFit after
    × IsServing o l
    × IsView (λ j. replay j in_order (find server_started.node_list j)) l
unfolding str_eq server_context
main-serve_example =
    main-serve server_world (λ c. true) zero_ctx (λ c l. l) server_up
      (codes "MP_1" ∷ codes "MP_2" ∷ []) in_order refl refl (omega arith) in_order-AllAmong

abbrev client_started : MainCtx
client_started = record zero_ctx {
  ems_topo_addr = codes "10.0.0.2:5000";
  omp_ip = codes "10.0.0.2";
  base_port = pos 5000;
  ixpc_qid = pos 7;
  my_node_name = codes "node-a";
  my_pod_name = codes "mp-0";
  my_node_ip = codes "10.0.0.1";
  my_pod_ip = codes "10.1.0.1";
  my_mp_index = pos 0;
  name = codes "MP_1";
  type_name = codes "MP";
  group = codes "G";
  port = codes "0x1389";
  node_list = empty_list;
}

client_up :
    main client_world (λ c. true) zero_ctx
    ≡ some ((client_started, []), main_tick_each_second ∷ udp_client_each_second ∷ [])
unfolding main initialize proc_start str_eq k8s.Common.atoi k8s.Common.c_string k8s.Common.print_int
    k8s.Common.print_base k8s.Common.as_u32 k8s.Common.strtol16
client_up = refl

-- No server is known, a datagram is no answer, and the answer of a server.
abbrev client_events : List ClientEvent
client_events =
    exchange (record (answered_by server_addr []) { omp_addr = none })
    ∷ second 7
    ∷ exchange (answered_by server_addr (codes "no answer|"))
    ∷ exchange (answered_by server_addr (assoc_info_reply_msg server_list []))
    ∷ []

client_events-AllRead : AllRead client_events
unfolding c_string assoc_info_reply_msg
client_events-AllRead = (omega arith, (tt, (omega arith, (omega arith, tt))))

main-poll_example :
    (◌≡◌ {A = List Callback}
      (main_tick_each_second ∷ udp_client_each_second ∷ [])
      (main_tick_each_second ∷ udp_client_each_second ∷ []))
    × (l : NodeList) × (after : List Effect) × (poll (λ c l. l) none client_events client_started []
        ≡ goes_on (record client_started { node_list = l }) after)
    × AllFit after
    × IsKept l
unfolding str_eq
main-poll_example =
    main-poll client_world (λ c. true) zero_ctx (λ c l. l) client_up client_events refl
      (record { fields = client_ctx-IsReporting.fields; pod = client_ctx-IsReporting.pod })
      client_events-AllRead
