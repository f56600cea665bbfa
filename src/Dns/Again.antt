-- ===== src/Dns/Again.antt =====
-- `setupDnsQuery` of src/dns_util/dnsUtil.c for a host that was looked up before: each look-up
-- appends a dot to the caller's name.
use k8s.Common.{
  Bytes, ℕ, zero, suc, ◌≡◌, refl, sym, ap, ◌∙◌, List, [], ◌∷◌, ◌++◌, append-nil, append_assoc,
  length, c_string,
}
use k8s.Dns.{name_format, changeto_dns_name_format, setup_dns_query}
use k8s.Dns.RoundTrip.{
  IsLabel, AllLabels, host_name, wire, name_format-one, wire-is_plain, c_string-plain,
}

abbrev pub dots : ℕ → Bytes
dots zero = []
dots (suc k) = b'.' ∷ dots k

name_format_before :
    (l : Bytes) (ls : List Bytes) (t : Bytes)
    → IsLabel l
    → AllLabels ls
    → name_format [] (host_name l ls ++ b'.' ∷ t) ≡ wire (l ∷ ls) ++ name_format [] t
name_format_before l [] t il ils = name_format-one l t il ∙ rw (append-nil l) refl
name_format_before l (m ∷ ls) t il ils = rw (append_assoc l (b'.' ∷ host_name m ls) (b'.' ∷ t)) (
    name_format-one l (host_name m ls ++ b'.' ∷ t) il
    ∙ rw (name_format_before m ls t ils.0 ils.1)
        (ap (λ s. length l ∷ s) (sym (append_assoc l (wire (m ∷ ls)) (name_format [] t)))))

dots-snoc : (k : ℕ) → dots k ++ b'.' ∷ [] ≡ b'.' ∷ dots k
dots-snoc zero = refl
dots-snoc (suc k) = ap (λ s. b'.' ∷ s) (dots-snoc k)

starts_with_nul : (k : ℕ) → (t : Bytes) × (name_format [] (dots k) ≡ 0 ∷ t)
unfolding name_format
starts_with_nul zero = ([], refl)
starts_with_nul (suc k) = (name_format [] (dots k), refl)

-- The name of a host with any number of dots behind it, written by the encoder.
name_of_dots :
    (k : ℕ) (l : Bytes) (ls : List Bytes)
    → IsLabel l
    → AllLabels ls
    → c_string (changeto_dns_name_format (host_name l ls ++ dots k)) ≡ wire (l ∷ ls)
unfolding changeto_dns_name_format
name_of_dots k l ls il ils =
    let rest : name_format [] (host_name l ls ++ b'.' ∷ dots k)
        ≡ wire (l ∷ ls) ++ name_format [] (dots k) =
      name_format_before l ls (dots k) il ils in
    let shape = starts_with_nul k in
    rw (append_assoc (host_name l ls) (dots k) (b'.' ∷ []), dots-snoc k, rest, shape.1)
      (c_string-plain (wire (l ∷ ls)) shape.0 (wire-is_plain (l ∷ ls) (il, ils)))

-- A host is looked up by the same query however often it was looked up before, though its name has
-- got one more dot each time.
pub setup_dns_query-dots :
    (k pid : ℕ) (l : Bytes) (ls : List Bytes)
    → IsLabel l
    → AllLabels ls
    → setup_dns_query pid (host_name l ls ++ dots k) ≡ setup_dns_query pid (host_name l ls)
unfolding setup_dns_query
setup_dns_query-dots k pid l ls il ils =
    let once = name_of_dots 0 l ls il ils in
    rw (name_of_dots k l ls il ils) (
      rw (← ap (λ h. c_string (changeto_dns_name_format h)) (append-nil (host_name l ls)), once)
        refl)
