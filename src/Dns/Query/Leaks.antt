-- ===== src/Dns/Query/Leaks.antt =====
-- The sockets and blocks of a look-up of src/dns_util/dnsUtil.c.
use k8s.Dns.Answer.{
  ◌>>=◌, ResRecord, take_record, take_auth, take_records, parse_dns_result, split_at, take_name,
  take_r_data,
}
use k8s.Common.{
  Bytes, ℕ, zero, suc, ◌≡◌, refl, Bool, true, Option, none, some, List, [], ◌∷◌, ◌==◌, ◌+◌, ◌*◌,
  false, arith, length, if◌then◌else◌, ap, ◌∙◌, inl, inr, Bool-cases, pos,
}
use k8s.Dns.Query.{
  clear_res_record, DnsState, Network, take, max_dns_buffer_size, overwrite, message_of,
  get_host_first_ip_by_name_time_out, run_dns_query, clear_parse_result, blocks_after, query_buffer,
  after_query,
}
use k8s.Elem.Order.{OnSome}

bind-OnSome :
    {A B : Type 0} (P : A → Type 0) (Q : B → Type 0) (o : Option A) (f : A → Option B)
    → OnSome P o
    → ((a : A) → P a → OnSome Q (f a))
    → OnSome Q (o >>= f)
bind-OnSome P Q none f h next = tt
bind-OnSome P Q (some a) f h next = next a h

bind-any :
    {A B : Type 0} (Q : B → Type 0) (o : Option A) (f : A → Option B)
    → ((a : A) → OnSome Q (f a))
    → OnSome Q (o >>= f)
bind-any Q none f next = tt
bind-any Q (some a) f next = next a

-- Whether a record is freed.
abbrev Flag : Type 0
Flag = ResRecord → Bool

abbrev AllFlagged : Flag → List ResRecord → Type 0
AllFlagged flag [] = Unit
AllFlagged flag (r ∷ rs) = (r.malloced ≡ flag r) × AllFlagged flag rs

-- The parser of one record sets the flag so.
abbrev HasFlag : Flag → ResRecord × Bytes → Type 0
HasFlag flag r = r.0.malloced ≡ flag r.0

abbrev Sets : Flag → Option (ResRecord × Bytes) → Type 0
Sets flag = OnSome (HasFlag flag)

abbrev answer_flag : Flag
answer_flag r = r.rtype == 1

take_record-Sets :
    (fuel : ℕ) (buf reader : Bytes) → Sets answer_flag (take_record false fuel buf reader)
unfolding take_record
take_record-Sets fuel buf reader =
    bind-any (HasFlag answer_flag) (take_name fuel buf reader) _ λ name.
      bind-any (HasFlag answer_flag) (take_r_data name.1) _ λ resource.
        bind-any (HasFlag answer_flag)
          (if resource.0.0 == 1
            then split_at resource.0.1 resource.1
            else take_name fuel buf resource.1)
          _ λ rdata. refl

take_addit-Sets :
    (fuel : ℕ) (buf reader : Bytes) → Sets (λ r. true) (take_record true fuel buf reader)
unfolding take_record
take_addit-Sets fuel buf reader =
    bind-any (HasFlag (λ r. true)) (take_name fuel buf reader) _ λ name.
      bind-any (HasFlag (λ r. true)) (take_r_data name.1) _ λ resource.
        bind-any (HasFlag (λ r. true))
          (if resource.0.0 == 1
            then split_at resource.0.1 resource.1
            else take_name fuel buf resource.1)
          _ λ rdata. refl

take_auth-Sets : (fuel : ℕ) (buf reader : Bytes) → Sets (λ r. true) (take_auth fuel buf reader)
unfolding take_auth
take_auth-Sets fuel buf reader =
    bind-any (HasFlag (λ r. true)) (take_name fuel buf reader) _ λ name.
      bind-any (HasFlag (λ r. true)) (take_r_data name.1) _
        λ resource. bind-any (HasFlag (λ r. true)) (take_name fuel buf resource.1) _ λ rdata. refl

take_records-AllFlagged :
    (flag : Flag) (take : Bytes → Option (ResRecord × Bytes)) (n : ℕ) (reader : Bytes)
    → ((reader : Bytes) → Sets flag (take reader))
    → OnSome (λ r. AllFlagged flag r.0) (take_records take n reader)
unfolding take_records
take_records-AllFlagged flag take zero reader h = tt
take_records-AllFlagged flag take (suc n) reader h =
    bind-OnSome (HasFlag flag) (λ r. AllFlagged flag r.0) (take reader) _ (h reader)
      λ first set.
        bind-OnSome (λ r. AllFlagged flag r.0) (λ r. AllFlagged flag r.0)
          (take_records take n first.1) _ (take_records-AllFlagged flag take n first.1 h)
          λ others all_set. (set, all_set)

-- The answers are freed where they are addresses, and the other records always.
abbrev Parsed : List ResRecord × List ResRecord × List ResRecord → Type 0
Parsed (answers, auth, addit) =
    AllFlagged answer_flag answers × AllFlagged (λ r. true) auth × AllFlagged (λ r. true) addit

parse_dns_result-Parsed : (fuel : ℕ) (buf : Bytes) → OnSome Parsed (parse_dns_result fuel buf)
unfolding parse_dns_result
parse_dns_result-Parsed fuel buf =
    let section = λ (flag : Flag) (r : List ResRecord × Bytes). AllFlagged flag r.0 in
    bind-OnSome (section answer_flag) Parsed _ _
      (take_records-AllFlagged answer_flag _ _ _ (take_record-Sets fuel buf))
      λ a ha.
        bind-OnSome (section (λ r. true)) Parsed _ _
          (take_records-AllFlagged (λ r. true) _ _ _ (take_auth-Sets fuel buf))
          λ b hb.
            bind-OnSome (section (λ r. true)) Parsed _ _
              (take_records-AllFlagged (λ r. true) _ _ _ (take_addit-Sets fuel buf))
              λ c hc. (ha, hb, hc)

-- The records that are not addresses.
abbrev pub others_in : List ResRecord → ℕ
others_in [] = 0
others_in (r ∷ rs) = if r.rtype == 1 then others_in rs else others_in rs + 1

clear_all :
    (rs : List ResRecord) (blocks : ℕ)
    → AllFlagged (λ r. true) rs
    → clear_res_record rs (blocks + 2 * length rs) ≡ blocks
unfolding clear_res_record
clear_all [] blocks h = omega arith
clear_all (r ∷ rs) blocks h =
    rw h.0 (ap (clear_res_record rs) (omega arith) ∙ clear_all rs blocks h.1)

clear_answers :
    (rs : List ResRecord) (blocks : ℕ)
    → AllFlagged answer_flag rs
    → clear_res_record rs (blocks + 2 * length rs) ≡ blocks + 2 * others_in rs
unfolding clear_res_record
clear_answers [] blocks h = omega arith
clear_answers (r ∷ rs) blocks h = elim (Bool-cases (r.rtype == 1)) [
  | inl address ↦
      rw (h.0, address) (ap (clear_res_record rs) (omega arith) ∙ clear_answers rs blocks h.1)
  | inr other ↦
      rw (h.0, other)
        (ap (clear_res_record rs) (omega arith) ∙ clear_answers rs (blocks + 2) h.1 ∙ omega arith)
]

cleared :
    (answers auth addit : List ResRecord) (blocks : ℕ)
    → Parsed (answers, auth, addit)
    → blocks_after (some (answers, auth, addit)) blocks ≡ blocks + 2 * others_in answers
unfolding clear_parse_result
cleared answers auth addit blocks (ha, hb, hc) =
    let n = blocks + 2 * others_in answers in
    let first : clear_res_record answers
          (blocks + 2 * (length answers + length auth + length addit))
        ≡ n + 2 * length addit + 2 * length auth =
      ap (clear_res_record answers) (omega arith)
      ∙ clear_answers answers (blocks + 2 * length addit + 2 * length auth) ha
      ∙ omega arith in
    rw first (rw (clear_all auth (n + 2 * length addit) hb) (clear_all addit n hc))

run_dns_query-answered :
    (net : Network) (buf : Bytes) (max_buf_siz : ℕ) (name_server : Bytes) (time_out_mil : ℕ)
    (s : DnsState) (received : Bytes)
    → net.sendto name_server (message_of buf) ≡ true
    → net.recvfrom (0, time_out_mil * 1000) name_server (message_of buf) ≡ some received
    → run_dns_query net buf max_buf_siz name_server time_out_mil s ≡ (
      (pos 0, overwrite (take max_buf_siz received) buf),
      record s { send_cnt = s.send_cnt + 1; recv_cnt = s.recv_cnt + 1; sockets = s.sockets + 1 },
    )
unfolding run_dns_query
run_dns_query-answered net buf max_buf_siz name_server time_out_mil s received sent got =
    rw (run_dns_query, sent, got) refl

-- A look-up whose query is answered by a message that parses leaves one more socket open, and two
-- more blocks allocated for each answer that is not an address.
pub get_host_first_ip_by_name_time_out-leaks :
    (net : Network) (pid fuel : ℕ) (stack host name_server : Bytes) (time_out_mil : ℕ)
    (s : DnsState) (received : Bytes) {answers auth addit : List ResRecord}
    → net.sendto name_server (message_of (query_buffer pid host stack)) ≡ true
    → net.recvfrom (0, time_out_mil * 1000) name_server (message_of (query_buffer pid host stack))
      ≡ some received
    → parse_dns_result fuel
        (overwrite (take max_dns_buffer_size received) (query_buffer pid host stack))
      ≡ some (answers, auth, addit)
    → let after =
        (get_host_first_ip_by_name_time_out net pid fuel stack host name_server time_out_mil
          s).state in
      (after.sockets ≡ s.sockets + 1) × (after.blocks ≡ s.blocks + 2 * others_in answers)
unfolding get_host_first_ip_by_name_time_out after_query
get_host_first_ip_by_name_time_out-leaks net pid fuel stack host name_server time_out_mil s received
      {answers} {auth} {addit} sent got parsed =
    let buf = query_buffer pid host stack in
    let h =
      rw parsed at
        (parse_dns_result-Parsed fuel (overwrite (take max_dns_buffer_size received) buf)) in
    let answered =
      run_dns_query-answered net buf max_dns_buffer_size name_server time_out_mil s received sent
        got in
    rw (answered, parsed) (refl, cleared answers auth addit s.blocks h)
