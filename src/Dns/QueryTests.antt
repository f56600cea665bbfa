-- ===== src/Dns/QueryTests.antt =====
-- Look-ups at concrete inputs.
use k8s.Dns.Tests.{www-IsLabel, net-IsLabel}
use k8s.Common.{Bytes, codes, c_string, ◌+◌, ◌*◌, ◌≡◌, refl, true, false, some, [], ◌∷◌, ◌++◌}
use k8s.Dns.{
  drop, name_format, changeto_dns_name_format, query_header, setup_dns_query, move, read_loop,
  dotted, to_dotted, read_name,
}
use k8s.Dns.Again.{dots, setup_dns_query-dots}
use k8s.Dns.Answer.{
  ResRecord, split_at, take_name, take_r_data, take_record, take_records, answers_at,
  parse_dns_result,
}
use k8s.Dns.Query.{
  DnsState, Network, take, max_dns_buffer_size, overwrite, query_buffer,
  get_host_first_ip_by_name_time_out,
}
use k8s.Dns.Query.Leaks.{others_in, get_host_first_ip_by_name_time_out-leaks}
use k8s.Dns.RoundTrip.{host_name}

-- The header, the question about `a`, and a record that says that `a` is another name for `bc`.
abbrev reply : Bytes
reply =
    1 ∷ 2 ∷ 129 ∷ 128 ∷ 0 ∷ 1 ∷ 0 ∷ 1 ∷ 0 ∷ 0 ∷ 0 ∷ 0 ∷ 1 ∷ b'a' ∷ 0 ∷ 0 ∷ 1 ∷ 0 ∷ 1 ∷ 192 ∷ 12 ∷ 0
    ∷ 5 ∷ 0 ∷ 1 ∷ 0 ∷ 0 ∷ 0 ∷ 9 ∷ 0 ∷ 4 ∷ 2 ∷ b'b' ∷ b'c' ∷ 0 ∷ []

abbrev alias : ResRecord
alias = record { name = codes "a"; rtype = 5; data_len = 4; rdata = codes "bc"; malloced = false }

abbrev net : Network
net = record { sendto = λ server m. true; recvfrom = λ time server m. some reply }

abbrev start : DnsState
start = record { send_cnt = 0; recv_cnt = 0; sockets = 0; blocks = 7 }

reply_parses :
    parse_dns_result 20
      (overwrite (take max_dns_buffer_size reply) (query_buffer 258 (codes "a") []))
    ≡ some (alias ∷ [], [], [])
unfolding parse_dns_result overwrite query_buffer setup_dns_query query_header
    changeto_dns_name_format name_format c_string drop answers_at take_records take_record take_name
    take_r_data read_name read_loop move to_dotted dotted split_at
reply_parses = refl

get_host_first_ip_by_name_time_out-leaks_example :
    let after =
      (get_host_first_ip_by_name_time_out net 258 20 []
        (codes "a")
        (codes "10.0.0.10")
        10
        start).state in
    (after.sockets ≡ start.sockets + 1) × (after.blocks ≡ start.blocks + 2 * others_in (alias ∷ []))
get_host_first_ip_by_name_time_out-leaks_example =
    get_host_first_ip_by_name_time_out-leaks net 258 20 [] (codes "a") (codes "10.0.0.10") 10 start
      reply refl refl reply_parses

-- Nine blocks after it, where there were seven before.
two_blocks : start.blocks + 2 * others_in (alias ∷ []) ≡ 9
two_blocks = refl

setup_dns_query-dots_example :
    setup_dns_query 258 (host_name (codes "www") (codes "net" ∷ []) ++ dots 3)
    ≡ setup_dns_query 258 (host_name (codes "www") (codes "net" ∷ []))
setup_dns_query-dots_example =
    setup_dns_query-dots 3 258 (codes "www") (codes "net" ∷ []) www-IsLabel (net-IsLabel, tt)
