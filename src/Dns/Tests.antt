-- ===== src/Dns/Tests.antt =====
-- Names at concrete inputs.
use k8s.Common.{Bytes, codes, c_string, ◌+◌, ◌≡◌, refl, [], ◌∷◌, arith, length}
use k8s.Dns.{
  drop, name_format, changeto_dns_name_format, query_header, setup_dns_query, named, overruns,
  still_reads, move, read_loop, dotted, to_dotted, read_name,
}
use k8s.Dns.RoundTrip.{IsLabel, host_name, setup_dns_query-read_name, read_name-self_pointer}

pub www-IsLabel : IsLabel (codes "www")
www-IsLabel = record { ne_nil = refl; bytes = refl; fits = omega arith }

pub net-IsLabel : IsLabel (codes "net")
net-IsLabel = record { ne_nil = refl; bytes = refl; fits = omega arith }

setup_dns_query-read_name_example :
    let query = setup_dns_query 300 (host_name (codes "www") (codes "net" ∷ [])) in
    read_name 20 query (drop 12 query)
    ≡ named
        (host_name (codes "www") (codes "net" ∷ []))
        (length (host_name (codes "www") (codes "net" ∷ [])) + 2)
setup_dns_query-read_name_example =
    setup_dns_query-read_name 300 20 (codes "www") (codes "net" ∷ []) www-IsLabel (net-IsLabel, tt)
      (omega arith) (omega arith)

abbrev loop_msg : Bytes
loop_msg = 0 ∷ 0 ∷ 192 ∷ 2 ∷ 7 ∷ []

read_name-self_pointer_example : read_name 1000 loop_msg (drop 2 loop_msg) ≡ still_reads
unfolding drop
read_name-self_pointer_example =
    read_name-self_pointer 1000 loop_msg 2 192 2 (7 ∷ []) refl (omega arith) refl

-- The bytes of a query.
query_bytes :
    setup_dns_query 258 (codes "a.bc")
    ≡ 1 ∷ 2 ∷ 1 ∷ 0 ∷ 0 ∷ 1 ∷ 0 ∷ 0 ∷ 0 ∷ 0 ∷ 0 ∷ 0 ∷ 1 ∷ b'a' ∷ 2 ∷ b'b' ∷ b'c' ∷ 0 ∷ 0 ∷ 1 ∷ 0 ∷ 1
      ∷ []
unfolding setup_dns_query query_header changeto_dns_name_format name_format c_string
query_bytes = refl

-- An empty name, and a name through a jump.
empty_name : read_name 9 (0 ∷ []) (0 ∷ []) ≡ overruns
unfolding read_name read_loop
empty_name = refl

jumped_name : read_name 9 (2 ∷ b'a' ∷ b'b' ∷ 0 ∷ 192 ∷ 0 ∷ []) (192 ∷ 0 ∷ []) ≡ named (codes "ab") 2
unfolding read_name read_loop move drop to_dotted dotted
jumped_name = refl
