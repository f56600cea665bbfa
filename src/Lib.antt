-- ===== src/Lib.antt =====
-- The topology process and the pod manager of a Kubernetes deployment, and the helpers they share.
--
-- The programs. Each pod runs `topo` (src/topo). The one whose MY_SYS_NAME is OMP is the server: a
-- pod reports itself in a datagram every second, the server merges the report into its association
-- table and answers with the whole table, and the pod, a client, brings its own table in line with
-- the answer. A timer of the server removes the nodes that were silent for 60 seconds. Each pod of
-- a pair runs `k8smgr` (src/k8smgr): a timer per process reads the counter that the process counts
-- up in shared memory, HTTP handlers answer the probes of Kubernetes and force failures, and two
-- more timers watch the peer pod and label the pod active or standby.
--
-- The files.
--   Common: bytes and C strings, `strcmp`, `atoi`, `sscanf` of fields, `strtok`, tests, lists.
--   Elem: src/libs/elem.c, the sorted list in which both programs keep their tables. Elem/Order has
--     the invariant, Elem/Lookup the view of a list as a map from keys to data, Elem/Traverse the
--     walk with a callback, which may change or remove the element that it is called with,
--     Elem/Canonical the comparison of lists by that view, Elem/Count the size of a list.
--   Libs: src/libs/util.c.
--   Topo: src/topo. Topo/Node is node.c: its tables are element lists of `NodeInfo`, and each
--     function takes and returns the list; Topo/Node/Commute compares orders of arrival. Topo/Udp
--     is udp.c, with Udp/Round on a whole round of report and answer and Udp/Room on its buffers,
--     Topo/Init init.c, Topo/Run and Topo/Start main.c; Topo/Serving puts the callbacks of a server
--     together, as a loop over events, and Serving/Order has what it keeps. Serving/ByName follows
--     the entry under one name through the events that concern it, Serving/Log has the events up to
--     the order between the names, as a quotient, and Serving/Few the runs in which few names
--     report themselves. Topo/Polling is the event loop of a client, and Topo/Cluster the server
--     and its pods with the network between them. Start/Up and Start/Loops lead from the
--     environment of a process into its loop, and Topo/Fits has the paths of its files. Topo/Effect
--     and Topo/Context have what the handlers share.
--   K8smgr: src/k8smgr/main.c. K8smgr/Procs, K8smgr/Init and K8smgr/Boot have the start,
--     K8smgr/Alive the timers, K8smgr/Request the requests that the manager makes, K8smgr/Label the
--     labelling and the replies of the peer, K8smgr/Http the handlers; Hang, Pair, Probe and Live
--     have what holds of them, and Duo of two managers that ask each other. K8smgr/System puts them
--     together: its events are the callbacks of the event loop and the counting of the processes,
--     in any order. System/Safety, System/Unready and System/Ready have what holds of its runs,
--     with the lemmas on one turn in Stuck and Beat; System/Timeline has the events second by
--     second, as the timers set them, and Boot/Ready the seconds after a start. Watched is a
--     process of Proc under its timer.
--   Dns: src/dns_util/dnsUtil.c, the names of a DNS message; Dns/Answer has the records of an
--     answer and Dns/Query a look-up as a whole, with the sockets and blocks that it leaves.
--     RoundTrip, Address, Again and Query/Leaks have what holds of them.
--   Proc: src/proc_a/main.c and src/proc_b/main.c, two processes that only count up.
--
-- Conventions. A `char[n]` holds a C string and is a list of bytes; where the code bounds a string
-- by its scan format the model does so too, and where it does not, the buffers that a theorem is
-- about are checked: a handler that writes or reads past one `faults`, one that reads through a
-- null pointer `crashes`, a start that does either does not come up, and a path of a file or of a
-- request that is longer than its buffer is an effect of its own, `overruns`; nothing is said of
-- what the program does behind it. `int` is a natural number where it counts and ℤ where it can be
-- negative; no count of the modelled code comes near the range of `int`. Time is an argument. Loops
-- are structural recursion on the list that they walk. System calls, and the calls of libevent,
-- libfort and the keepalive library, are arguments or effects that a handler returns. The reader of
-- DNS names follows pointers with no bound of its own, so it takes a fuel; two more than the length
-- of the name are enough where it meets no pointer or starts with one, and none is on a name that
-- points at itself. It stops where it leaves its buffers, since the program has no meaning from
-- there.
--
-- Not modelled: the handles of libevent and of the TLS library, whose calls are arguments or
-- effects; libfort is a copy of another project; scripts, manifests and the headers of external
-- libraries have no logic. Logging to stderr is left out.
pub mod Common
pub mod Elem
pub mod Libs
pub mod Topo
pub mod K8smgr
pub mod Dns
pub mod Proc
