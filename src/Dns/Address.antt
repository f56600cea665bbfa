-- ===== src/Dns/Address.antt =====
-- The address in an answer whose record names its host by a jump to the question.
use k8s.Common.{Bytes, ℕ, ◌/◌, ◌%◌, List, ◌∷◌, ◌++◌}
use k8s.Dns.Answer.{
  take_records, parse_dns_result, first_ip, split_at, split_at, parse_dns_result, take_records,
  first_ip,
}
use k8s.Dns.RoundTrip.{wire}

-- A message with one question and one answer, an address, whose name is a jump to the question, and
-- what stands in the buffer behind it.
abbrev pub record_of : ℕ → ℕ → ℕ → ℕ → Bytes → Bytes
record_of a b c d stale = 192 ∷ 12 ∷ 0 ∷ 1 ∷ 0 ∷ 1 ∷ 0 ∷ 0 ∷ 1 ∷ 44 ∷ 0 ∷ 4 ∷ a ∷ b ∷ c ∷ d ∷ stale

abbrev pub address_answer : ℕ → Bytes → List Bytes → Bytes → Bytes
address_answer pid l ls records =
    pid / 256 % 256
    ∷ pid % 256
    ∷ 129
    ∷ 128
    ∷ 0
    ∷ 1
    ∷ 0
    ∷ 1
    ∷ 0
    ∷ 0
    ∷ 0
    ∷ 0
    ∷ (wire (l ∷ ls) ++ 0 ∷ 0 ∷ 1 ∷ 0 ∷ 1 ∷ records)
