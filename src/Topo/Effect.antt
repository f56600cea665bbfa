-- ===== src/Topo/Effect.antt =====
-- What the topology process does to the world: files that it writes, messages that it sends.
use k8s.Common.{Bytes, ℕ, List, ℤ, [], ◌∷◌, ◌++◌}

-- `ss_family` of a socket address.
pub data Family : Type 0 where
  af_inet af_inet6 af_other : Family

-- `struct sockaddr_in` and `struct sockaddr_in6`.
pub record SockAddr : Type 0 where
  pub family : Family
  pub port : ℕ
  pub addr : Bytes

-- The rows of a table, which src/libfort renders.
abbrev pub Rows : Type 0
Rows = List (List Bytes)

pub data Effect : Type 0 where
  -- `sprintf` of a text that is longer than its buffer; what the process does then is not known
  overruns : (text : Bytes) → Effect
  -- `fopen_cmd`: the banner line and the rendered table
  write_file : (path banner : Bytes) (table : Rows) → Effect
  -- `msgsnd` to the queue of IXPC
  msgsnd : (queue : ℤ) (mtype : ℕ) (names : Bytes) (body_len : ℕ) → Effect
  -- `sendto`
  sendto : (payload : Bytes) (to : SockAddr) → Effect
  -- `sendmsg` with the source address to send from
  sendmsg_from : (payload : Bytes) (from to : SockAddr) → Effect

-- No text of the effects is longer than its buffer.
abbrev pub IsFit : Effect → Type 0
IsFit (overruns text) = ⊥
IsFit (write_file path banner cells) = Unit
IsFit (msgsnd queue mtype names body_len) = Unit
IsFit (sendto payload to) = Unit
IsFit (sendmsg_from payload from to) = Unit

abbrev pub AllFit : List Effect → Type 0
AllFit [] = Unit
AllFit (e ∷ es) = IsFit e × AllFit es

pub AllFit-append : (es fs : List Effect) → AllFit es → AllFit fs → AllFit (es ++ fs)
AllFit-append [] fs fit more = more
AllFit-append (e ∷ es) fs fit more = (fit.0, AllFit-append es fs fit.1 more)
