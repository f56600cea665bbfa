-- ===== src/Dns/Answer.antt =====
-- `parseDnsResult` and `getHostFirstIpByNameTimeOut` of src/dns_util/dnsUtil.c: the records of an
-- answer, and the first address in it. A fault, an access outside of a buffer, is `none`, and so is
-- a name on which the fuel runs out. The buffer is the received one, with what stood behind it.
use mathlib.Core.Option
use k8s.Common.{
  Bytes, c_string, ℕ, zero, suc, ◌+◌, ◌*◌, Option, none, some, List, [], ◌∷◌, length, get_or, leb,
  ◌==◌, if◌then◌else◌, Bool, true, false, ◌||◌, ltb,
}
use k8s.Dns.{drop, Name, named, overruns, still_reads, read_name}

-- `RES_RECORD`, in host order, without the class and the time to live.
pub record ResRecord : Type 0 where
  pub name : Bytes
  pub rtype : ℕ
  pub data_len : ℕ
  pub rdata : Bytes
  pub malloced : Bool

infixl 5 ◌>>=◌
abbrev pub ◌>>=◌ : {A B : Type 0} → Option A → (A → Option B) → Option B
none >>= f = none
some a >>= f = f a

-- `n` bytes, and the reader behind them.
unfoldable pub split_at : ℕ → Bytes → Option (Bytes × Bytes)
split_at zero s = some ([], s)
split_at (suc n) [] = none
split_at (suc n) (c ∷ s) = Option.map (λ r. (c ∷ r.0, r.1)) (split_at n s)

-- `ReadName(reader, buf, &stop); reader = reader + stop`
abbrev pub behind_name : Bytes → Name → Option (Bytes × Bytes)
behind_name reader (named name count) = some (name, drop count reader)
behind_name reader overruns = none
behind_name reader still_reads = none

unfoldable pub take_name : ℕ → Bytes → Bytes → Option (Bytes × Bytes)
take_name fuel buf reader = behind_name reader (read_name fuel buf reader)

-- `struct R_DATA`: the type and the length of the data.
unfoldable pub take_r_data : Bytes → Option ((ℕ × ℕ) × Bytes)
take_r_data (t1 ∷ t0 ∷ c1 ∷ c0 ∷ l3 ∷ l2 ∷ l1 ∷ l0 ∷ d1 ∷ d0 ∷ reader) =
    some ((t1 * 256 + t0, d1 * 256 + d0), reader)
take_r_data _ = none

-- A record of the answer or, with `true`, of the additional section: an address is copied, and the
-- data of every other type is read as a name, which in an answer is not marked as allocated.
unfoldable pub take_record : Bool → ℕ → Bytes → Bytes → Option (ResRecord × Bytes)
take_record is_addit fuel buf reader = do
  (name, behind) ← take_name fuel buf reader
  (resource, data_at) ← take_r_data behind
  let taken = if resource.0 == 1 then split_at resource.1 data_at else take_name fuel buf data_at
  (rdata, next) ← taken
  some (
    record {
      name = name;
      rtype = resource.0;
      data_len = resource.1;
      rdata = rdata;
      malloced = is_addit || resource.0 == 1;
    },
    next,
  )

-- A record of the authority section.
unfoldable pub take_auth : ℕ → Bytes → Bytes → Option (ResRecord × Bytes)
take_auth fuel buf reader = do
  (name, behind) ← take_name fuel buf reader
  (resource, data_at) ← take_r_data behind
  (rdata, next) ← take_name fuel buf data_at
  some (
    record {
      name = name;
      rtype = resource.0;
      data_len = resource.1;
      rdata = rdata;
      malloced = true;
    },
    next,
  )

-- The loop over the records of a section.
unfoldable pub take_records :
    (Bytes → Option (ResRecord × Bytes)) → ℕ → Bytes → Option (List ResRecord × Bytes)
take_records take zero reader = some ([], reader)
take_records take (suc n) reader = do
  (first, behind) ← take reader
  (others, next) ← take_records take n behind
  some (first ∷ others, next)

abbrev pub max_res_record_cnt : ℕ
max_res_record_cnt = 20

abbrev pub at_most_max : ℕ → ℕ
at_most_max n = if leb max_res_record_cnt n then max_res_record_cnt else n

-- A count of the header, at `i`.
abbrev pub count_at : ℕ → Bytes → ℕ
count_at i buf = get_or buf i 0 * 256 + get_or buf (i + 1) 0

-- The reader behind the header, the name of the question and the question.
unfoldable pub answers_at : Bytes → Bytes
answers_at buf = drop (12 + (length (c_string (drop 12 buf)) + 1) + 4) buf

unfoldable pub parse_dns_result :
    ℕ → Bytes → Option (List ResRecord × List ResRecord × List ResRecord)
parse_dns_result fuel buf = do
  (answers, auth_at) ←
      take_records (take_record false fuel buf) (at_most_max (count_at 6 buf)) (answers_at buf)
  (auth, addit_at) ← take_records (take_auth fuel buf) (at_most_max (count_at 8 buf)) auth_at
  (addit, end) ← take_records (take_record true fuel buf) (at_most_max (count_at 10 buf)) addit_at
  some (answers, auth, addit)

-- What a look-up does: it has the four bytes of an address, or none, or reads outside of a buffer
-- or a block.
pub data Lookup : Type 0 where
  found : Bytes → Lookup
  not_found faulty : Lookup

-- `sizeof(long)`, where pointers have 64 bits.
abbrev pub sizeof_long : ℕ
sizeof_long = 8

-- The first answer alone is looked at. A `long` is read from its block, which has a byte more than
-- the data of the record, and the first four bytes of it are the address.
unfoldable pub first_ip : List ResRecord → Lookup
first_ip [] = not_found
first_ip (a ∷ answers) =
    if a.rtype == 1
    then if ltb (a.data_len + 1) sizeof_long
      then faulty
      else elim (split_at 4 a.rdata) [ none ↦ faulty | some (ip, rest) ↦ found ip ]
    else not_found

-- With the buffer after a query that was answered.
unfoldable pub get_host_first_ip : ℕ → Option Bytes → Lookup
get_host_first_ip fuel none = not_found
get_host_first_ip fuel (some buf) = elim (parse_dns_result fuel buf) [
  | none ↦ faulty
  | some (answers, auth, addit) ↦ first_ip answers
]
