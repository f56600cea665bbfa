-- ===== src/Dns/Query.antt =====
-- `runDnsQuery`, `clearParseResult` and `getHostFirstIpByName` of src/dns_util/dnsUtil.c: a look-up
-- as a whole, with what it leaves of the process: the sockets that are open and the blocks that are
-- allocated.
pub mod Leaks
use k8s.Dns
use k8s.Common.{
  Bytes, c_string, ℕ, zero, suc, ◌+◌, ◌-◌, ◌*◌, Bool, not, Option, none, some, List, [], ◌∷◌, ◌++◌,
  length, ℤ, pos, negsuc, if◌then◌else◌,
}
use k8s.Dns.{drop, setup_dns_query}
use k8s.Dns.Answer.{ResRecord, parse_dns_result, Lookup, get_host_first_ip}

-- `SEND_CNT` and `RECV_CNT`, and what the process holds.
pub record DnsState : Type 0 where
  pub send_cnt : ℕ
  pub recv_cnt : ℕ
  pub sockets : ℕ
  pub blocks : ℕ

-- What the network does with a message for port 53 of a server: whether it can be sent, and what
-- comes back within the time of the socket, in seconds and microseconds.
pub record Network : Type 0 where
  pub sendto : Bytes → Bytes → Bool
  pub recvfrom : ℕ × ℕ → Bytes → Bytes → Option Bytes

abbrev pub take : ℕ → Bytes → Bytes
take zero s = []
take (suc n) [] = []
take (suc n) (c ∷ s) = c ∷ take n s

abbrev pub max_dns_buffer_size : ℕ
max_dns_buffer_size = 65536

-- The bytes stand at the start of the buffer.
unfoldable pub overwrite : Bytes → Bytes → Bytes
overwrite bytes buf = bytes ++ drop (length bytes) buf

-- The header and the question.
unfoldable pub message_of : Bytes → Bytes
message_of buf = take (12 + (length (c_string (drop 12 buf)) + 1) + 4) buf

-- The name is the one that stands in the buffer. A socket can be made, and is
-- not closed. With the returned value and the buffer.
unfoldable pub run_dns_query : Network → Bytes → ℕ → Bytes → ℕ → DnsState → (ℤ × Bytes) × DnsState
unfolding overwrite
run_dns_query net buf max_buf_siz name_server time_out_mil s =
    let opened = record s { sockets = s.sockets + 1 } in
    let message = message_of buf in
    if not (net.sendto name_server message)
    then ((negsuc 0, buf), opened)
    else elim (net.recvfrom (0, time_out_mil * 1000) name_server message) [
      | none ↦ ((negsuc 0, buf), record opened { send_cnt = s.send_cnt + 1 })
      | some received ↦ (
        (pos 0, overwrite (take max_buf_siz received) buf),
        record opened { send_cnt = s.send_cnt + 1; recv_cnt = s.recv_cnt + 1 },
      )
    ]

-- The two blocks of every record whose flag is set are freed. The other places are zero.
unfoldable pub clear_res_record : List ResRecord → ℕ → ℕ
clear_res_record [] blocks = blocks
clear_res_record (r ∷ records) blocks =
    clear_res_record records (if r.malloced then blocks - 2 else blocks)

unfoldable pub clear_parse_result : List ResRecord → List ResRecord → List ResRecord → ℕ → ℕ
clear_parse_result answers auth addit blocks =
    clear_res_record addit (clear_res_record auth (clear_res_record answers blocks))

-- What the look-up returns, the caller's buffer with the name, to which the encoder has appended a
-- dot, and the process.
pub record LookedUp : Type 0 where
  pub lookup : Lookup
  pub host_name : Bytes
  pub state : DnsState

-- The blocks behind an answer: each record takes two, and some are freed.
abbrev pub blocks_after : Option (List ResRecord × List ResRecord × List ResRecord) → ℕ → ℕ
blocks_after none blocks = blocks
blocks_after (some (answers, auth, addit)) blocks =
    clear_parse_result answers auth addit
      (blocks + 2 * (length answers + length auth + length addit))

-- The buffer of a look-up with the query, and what stood in it before.
unfoldable pub query_buffer : ℕ → Bytes → Bytes → Bytes
query_buffer pid host stack = overwrite (setup_dns_query pid host) stack

-- The part behind `runDnsQuery`, with what that returned. The release of the records is followed also
-- where the address was read past its block, as a program for which that read does no harm.
unfoldable pub after_query : ℕ → Bytes → (ℤ × Bytes) × DnsState → LookedUp
after_query fuel host ((pos _, buf), s) = record {
  lookup = get_host_first_ip fuel (some buf);
  host_name = host ++ b'.' ∷ [];
  state = record s { blocks = blocks_after (parse_dns_result fuel buf) s.blocks };
}
after_query fuel host ((negsuc _, buf), s) = record {
  lookup = get_host_first_ip fuel none;
  host_name = host ++ b'.' ∷ [];
  state = s;
}

-- With the process's id, the fuel for a name and what stood in the buffer before.
unfoldable pub get_host_first_ip_by_name_time_out :
    Network → ℕ → ℕ → Bytes → Bytes → Bytes → ℕ → DnsState → LookedUp
get_host_first_ip_by_name_time_out net pid fuel stack host name_server time_out_mil s =
    let buf = query_buffer pid host stack in
    after_query fuel host (run_dns_query net buf max_dns_buffer_size name_server time_out_mil s)

unfoldable pub get_host_first_ip_by_name :
    Network → ℕ → ℕ → Bytes → Bytes → Bytes → DnsState → LookedUp
get_host_first_ip_by_name net pid fuel stack host name_server s =
    get_host_first_ip_by_name_time_out net pid fuel stack host name_server 10 s
