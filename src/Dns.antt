-- ===== src/Dns.antt =====
-- src/dns_util/dnsUtil.c: the names of a DNS message and the query for the address of a host. A
-- pointer into a message is the suffix that it points at.
pub mod RoundTrip
pub mod Answer
pub mod Address
pub mod Query
pub mod Again
mod Tests
mod QueryTests
use mathlib.Core.Option
use k8s.Common.{
  Bytes, c_string, ℕ, ◌+◌, ◌*◌, ◌-◌, ◌%◌, zero, suc, ◌/◌, Bool, true, false, Option, none, some, [],
  ◌∷◌, ◌++◌, length, leb, ◌==◌, if◌then◌else◌,
}

unfoldable pub drop : ℕ → Bytes → Bytes
drop zero s = s
drop (suc n) [] = []
drop (suc n) (c ∷ s) = drop n s

-- `ChangetoDnsNameFormat` behind its `strcat`: the bytes since the last dot, and those to come. The
-- length of a label is stored in a byte.
unfoldable pub name_format : Bytes → Bytes → Bytes
name_format label [] = 0 ∷ []
name_format label (c ∷ host) =
    let rest = name_format (if c == b'.' then [] else label ++ c ∷ []) host in
    if c == b'.' then length label % 256 ∷ label ++ rest else rest

unfoldable pub changeto_dns_name_format : Bytes → Bytes
unfolding name_format
changeto_dns_name_format host = name_format [] (host ++ b'.' ∷ [])

-- The two bytes of a `short` in network order.
abbrev pub htons : ℕ → Bytes
htons n = n / 256 % 256 ∷ n % 256 ∷ []

-- The header with `rd` set and one question.
unfoldable pub query_header : ℕ → Bytes
query_header pid = htons pid ++ 1 ∷ 0 ∷ htons 1 ++ htons 0 ++ htons 0 ++ htons 0

-- What `setupDnsQuery` writes and `runDnsQuery` sends: the question stands behind the first NUL of
-- the name.
unfoldable pub setup_dns_query : ℕ → Bytes → Bytes
unfolding query_header changeto_dns_name_format
setup_dns_query pid host =
    query_header pid ++ c_string (changeto_dns_name_format host) ++ 0 ∷ (htons 1 ++ htons 1)

-- What a reader of a name does: it returns the name and `*count`, reads or writes past the end of a
-- buffer, behind which nothing is known of it, or has not ended when the fuel runs out.
pub data Name : Type 0 where
  named : Bytes → ℕ → Name
  overruns : Name
  still_reads : Name

-- The reader behind a byte that is not 0, whether it has jumped, and whether the byte is stored.
abbrev pub Move : Type 0
Move = Bytes × Bool × Bool

-- `(*reader)*256 + *(reader+1) - 49152`
abbrev pub offset_of : ℕ → ℕ → ℕ
offset_of a b = a * 256 + b - 49152

unfoldable pub move : Bytes → ℕ → Bytes → Bool → Move
unfolding drop
move buffer c rest jumped =
    if leb 192 c
    then elim rest [ [] ↦ ([], true, false) | d ∷ _ ↦ (drop (offset_of c d) buffer, true, false) ]
    else (rest, jumped, true)

abbrev pub stored_byte : ℕ → Bool → Name → Name
stored_byte c jumped (named name count) = named (c ∷ name) (if jumped then count else count + 1)
stored_byte c jumped overruns = overruns
stored_byte c jumped still_reads = still_reads

abbrev pub name_size : ℕ
name_size = 256

-- The loop of `ReadName`, with the bytes stored so far: the bytes that it stores from here on, and
-- what it adds to `*count`. The loop itself does not look at the sizes: where it reads behind the
-- buffer, or stores behind the `name_size` bytes of the name, the program has no meaning any more,
-- which is `overruns` and no end of the loop.
unfoldable pub read_loop : ℕ → Bytes → Bytes → Bool → ℕ → Name
unfolding move
read_loop zero buffer reader jumped p = still_reads
read_loop (suc fuel) buffer [] jumped p = overruns
read_loop (suc fuel) buffer (c ∷ rest) jumped p =
    let m = move buffer c rest jumped in
    let later = read_loop fuel buffer m.0 m.1 (if m.2 then p + 1 else p) in
    if c == 0
    then (if leb name_size p then overruns else named [] (if jumped then 1 else 0))
    else if m.2
    then (if leb name_size p then overruns else stored_byte c m.1 later)
    else later

-- The conversion of `3www6google3com` to `www.google.com`, with the bytes left of the label that it
-- is in; `none` is a label that is longer than the name.
unfoldable pub dotted : ℕ → Bytes → Option Bytes
dotted zero [] = some []
dotted zero (p ∷ name) = Option.map (λ s. b'.' ∷ s) (dotted p name)
dotted (suc k) [] = none
dotted (suc k) (c ∷ name) = Option.map (λ s. c ∷ s) (dotted k name)

-- An empty name is terminated in front of its buffer.
unfoldable pub to_dotted : Bytes → Option Bytes
unfolding dotted
to_dotted [] = none
to_dotted (p ∷ name) = dotted p name

abbrev pub dotted_name : Option Bytes → ℕ → Name
dotted_name none count = overruns
dotted_name (some s) count = named s (count + 1)

abbrev pub with_dots : Name → Name
with_dots (named name count) = dotted_name (to_dotted name) count
with_dots overruns = overruns
with_dots still_reads = still_reads

unfoldable pub read_name : ℕ → Bytes → Bytes → Name
unfolding read_loop to_dotted
read_name fuel buffer reader = with_dots (read_loop fuel buffer reader false 0)
