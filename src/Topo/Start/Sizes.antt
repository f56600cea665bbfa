-- ===== src/Topo/Start/Sizes.antt =====
-- How long the texts are that `initialize` of src/topo/init.c reads and writes.
use mathlib.Core.Option.{some-injective}
use k8s.Topo.Init.{omp_node_info, scan_addr}
use k8s.Common.{
  Bytes, c_string, ℕ, zero, suc, ◌+◌, ◌/◌, ◌%◌, ◌≤◌, ◌≡◌, refl, inl, inr, not, Option, none, some,
  [], ◌∷◌, arith, length, ℤ, digit, print_base, add_ℕ, as_u32, take_set-length, ◌==◌, Bool-cases,
  ◌||◌, is_nil, take_set, not_space, skip_space, if◌then◌else◌,
}
use k8s.Libs.{cut_at, strtok_in_place, fgets, popen_cmd}
use k8s.Topo.Udp.Bounds.{IsBounded}

fgets-length : (n : ℕ) (s : Bytes) → length (fgets n s) ≤ n
unfolding fgets
fgets-length zero s = omega arith
fgets-length (suc n) [] = omega arith
fgets-length (suc n) (c ∷ cs) = ground (arith, fgets-length n cs)

c_string-length : (s : Bytes) → length (c_string s) ≤ length s
unfolding c_string
c_string-length [] = omega arith
c_string-length (c ∷ cs) = ground (arith, c_string-length cs)

cut_at-length : (d : ℕ) (s : Bytes) → length (cut_at d s) ≤ length s
unfolding cut_at
cut_at-length d [] = omega arith
cut_at-length d (c ∷ cs) = ground (arith, cut_at-length d cs)

strtok_in_place-length : (s : Bytes) → length (strtok_in_place s) ≤ length s
unfolding strtok_in_place
strtok_in_place-length [] = omega arith
strtok_in_place-length (c ∷ cs) =
    ground (arith, strtok_in_place-length cs, cut_at-length b'\n' (c ∷ cs))

pub popen_cmd-length :
    (output : Option Bytes) {line : Bytes} → popen_cmd output 127 ≡ some line → length line ≤ 126
unfolding popen_cmd
popen_cmd-length none e = absurd (cc e)
popen_cmd-length (some output) {line} e =
    let text = c_string (fgets 126 output) in
    let is = some-injective (strtok_in_place text) line e in
    rw (← is) (
      omega (
        arith,
        strtok_in_place-length text,
        c_string-length (fgets 126 output),
        fgets-length 126 output,
      ))

print_base-length : (f b n : ℕ) (rest : Bytes) → length (print_base f b n rest) ≤ f + length rest
unfolding print_base
print_base-length zero b n rest = omega arith
print_base-length (suc f) b n rest =
    ground (arith, print_base-length f b (n / b) (digit (n % b) ∷ rest))

-- The address is what stands in front of the colon.
colon-cases :
    (ip rest : Bytes)
    → (elim rest as (λ _. Bytes × Bytes) [
      | [] ↦ (ip, [])
      | colon ∷ port ↦
          if is_nil ip || not (colon == b':')
          then (ip, [])
          else (ip, (take_set 127 not_space (skip_space port)).0)
    ]).0
      ≡ ip
colon-cases ip [] = refl
colon-cases ip (colon ∷ port) = elim (Bool-cases (is_nil ip || not (colon == b':'))) [
  | inl none_there ↦ rw none_there refl
  | inr there ↦ rw there refl
]

pub scan_addr-length : (s : Bytes) → length (scan_addr s).0 ≤ 127
unfolding scan_addr
scan_addr-length s =
    let ip = take_set 127 (λ c. not (c == b':')) s in
    rw (colon-cases ip.0 ip.1) (take_set-length 127 (λ c. not (c == b':')) s)

-- The node of a server that has started fits its buffers.
pub omp_node_info-IsBounded :
    (label ip : Bytes) (port : ℤ)
    → length label ≤ 127
    → length ip ≤ 127
    → IsBounded (omp_node_info label ip port)
unfolding omp_node_info
omp_node_info-IsBounded label ip port short_label short_ip = record {
  name = omega arith;
  type_name = omega arith;
  group = short_label;
  mgnt_pri_ip = short_ip;
  mgnt_sec_ip = omega arith;
  mgnt_port = omega (arith, print_base-length 8 16 (as_u32 (add_ℕ port 1)) []);
  serv_pri_ip = omega arith;
  serv_sec_ip = omega arith;
  info_name = omega arith;
  vnfc_id = omega arith;
}
