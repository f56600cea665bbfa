-- ===== src/K8smgr/Procs.antt =====
-- `create_proc_status_check` and `create_keepalive_list`: the list of the processes to watch, read
-- from the section APPLICATIONS of the sysconfig file.
pub mod Fresh
use mathlib.Core.Option.{some-injective}
use mathlib.Core.List.{map}
use mathlib.Core.Option
use k8s.Common.{
  Bytes, c_string, ℕ, ◌+◌, ◌-◌, ◌≤◌, ◌<◌, ◌≡◌, Bool, false, not, ◌||◌, Option, none, some, List, [],
  ◌∷◌, ◌++◌, is_nil, pos, take_set, not_space, skip_space, leb, ◌==◌, if◌then◌else◌, str_eq,
  str_eq_iff, sym, ap, ◌∙◌, ◌⊎◌, inl, inr, arith, Bool-cases, Option-cases,
}
use k8s.Elem.{add_element}
use k8s.Elem.Lookup.{find, add_element-find}
use k8s.Elem.Order.{IsTable, OnSome, root_node, nil, table, add_element-IsTable}
use k8s.K8smgr.{sysconf_max_appl_num, Keepalive, update, ProcCtx, ProcList}

-- The new entry of a process; its other fields are zero.
unfoldable pub new_proc : Bytes → ℕ → ProcCtx
new_proc proc_name keep_index = record {
  proc_name = proc_name;
  keep_index = keep_index;
  alive_status = pos 0;
  force_status = 0;
}

-- `none` is the -1. `event_add` may fail; it is a function of the index here.
unfoldable pub create_proc_status_check :
    (ℕ → Bool) → Keepalive × ProcList → Bytes → ℕ → Option (Keepalive × ProcList)
unfolding new_proc
create_proc_status_check event_add (k, l) proc_name keep_index =
    if leb sysconf_max_appl_num keep_index || not (event_add keep_index)
    then none
    else Option.map (λ l'. (record k { retry = update k.retry keep_index 0 }, l'))
        (add_element l proc_name (new_proc proc_name keep_index))

abbrev pub starts_with : ℕ → Bytes → Bool
starts_with d [] = false
starts_with d (c ∷ line) = c == d

-- `sscanf(getBuf, "%63s", token)` over zero bytes.
unfoldable pub scan_token : Bytes → Bytes
scan_token line = (take_set 63 not_space (skip_space line)).0

-- The loop over the lines, with `num`.
unfoldable pub add_lines :
    (ℕ → Bool) → List Bytes → Keepalive × ProcList → ℕ → Option ((Keepalive × ProcList) × ℕ)
add_lines event_add [] s num = some (s, num)
add_lines event_add (line ∷ rest) s num =
    let skipped = add_lines event_add rest s num in
    if starts_with b'[' line
    then some (s, num)
    else if starts_with b'#' line || starts_with b'\n' line
    then skipped
    else elim (create_proc_status_check event_add s (scan_token line) num) [
      | none ↦ none
      | some s' ↦ add_lines event_add rest s' (num + 1)
    ]

-- The lines that `fgets` with a buffer of 256 bytes reads, with the room left and the bytes of the
-- line so far.
unfoldable pub fgets_lines : ℕ → Bytes → Bytes → List Bytes
fgets_lines room line [] = if is_nil line then [] else line ∷ []
fgets_lines room line (c ∷ s) =
    let is_end = c == b'\n' || leb room 1 in
    let rest =
      fgets_lines (if is_end then 255 else room - 1) (if is_end then [] else line ++ c ∷ []) s in
    if is_end then (line ++ c ∷ []) ∷ rest else rest

-- With what stands in the file behind the head of the section, `none` where there is no such file
-- or section. A C string ends at its first NUL.
unfoldable pub create_keepalive_list :
    (ℕ → Bool) → Option Bytes → Keepalive → ProcList → Option ((Keepalive × ProcList) × ℕ)
unfolding add_lines fgets_lines
create_keepalive_list event_add none k l = none
create_keepalive_list event_add (some section) k l =
    add_lines event_add (map c_string (fgets_lines 255 [] section)) (k, l) 0

-- What holds of the list while it is read: it is a table, each process stands under its own name,
-- with an index below the number of those read, and no two have the same index.
pub record IsNumbered (num : ℕ) (l : ProcList) : Type 0 where
  pub is_table : IsTable l
  pub bounded : num ≤ sysconf_max_appl_num
  pub named : (j : Bytes) (p : ProcCtx) → find l j ≡ some p → p.proc_name ≡ j
  pub indexed : (j : Bytes) (p : ProcCtx) → find l j ≡ some p → p.keep_index < num
  pub apart :
      (i j : Bytes) (p q : ProcCtx)
      → find l i ≡ some p
      → find l j ≡ some q
      → p.keep_index ≡ q.keep_index
      → i ≡ j

new_or_old :
    {l l' : ProcList} (name : Bytes) (num : ℕ) (j : Bytes) (p : ProcCtx)
    → IsTable l
    → add_element l name (new_proc name num) ≡ some l'
    → find l' j ≡ some p
    → ((j ≡ name) × (p.proc_name ≡ name) × (p.keep_index ≡ num)) ⊎ (find l j ≡ some p)
new_or_old name num j p t added e =
    let at = add_element-find name (new_proc name num) j t added in
    elim (Bool-cases (str_eq j name)) [
      | inl y ↦
          let same : some (new_proc name num) ≡ some p = ground (arith, at, e, y) in
          let q = some-injective (new_proc name num) p same in
          inl (
            (str_eq_iff j name).0 y,
            unfold new_proc in sym (ap (λ (x : ProcCtx). x.proc_name) q),
            unfold new_proc in sym (ap (λ (x : ProcCtx). x.keep_index) q),
          )
      | inr n ↦ inr (ground (arith, at, e, n))
    ]

added-IsNumbered :
    {l l' : ProcList} (name : Bytes) (num : ℕ)
    → IsNumbered num l
    → num < sysconf_max_appl_num
    → add_element l name (new_proc name num) ≡ some l'
    → IsNumbered (num + 1) l'
added-IsNumbered {l} {l'} name num n small added =
    let cases = λ (j : Bytes) (p : ProcCtx) (e : find l' j ≡ some p).
      new_or_old name num j p n.is_table added e in
    record {
      is_table = rw added at (add_element-IsTable name (new_proc name num) n.is_table);
      bounded = omega (arith, small);
      named = λ j p e. elim (cases j p e) [
        | inl (at, named, _) ↦ named ∙ sym at
        | inr old ↦ n.named j p old
      ];
      indexed = λ j p e. elim (cases j p e) [
        | inl (_, _, index) ↦ omega (arith, index)
        | inr old ↦ omega (arith, n.indexed j p old)
      ];
      apart = λ i j p q e f same. elim (cases i p e) [
        | inl (at, _, index) ↦ elim (cases j q f) [
          | inl (at', _, _) ↦ at ∙ sym at'
          | inr old ↦ absurd (omega (arith, index, same, n.indexed j q old))
        ]
        | inr old ↦ elim (cases j q f) [
          | inl (_, _, index) ↦ absurd (omega (arith, index, same, n.indexed i p old))
          | inr old' ↦ n.apart i j p q old old' same
        ]
      ];
    }

pub create-IsNumbered :
    (event_add : ℕ → Bool) (s : Keepalive × ProcList) (name : Bytes) (num : ℕ)
    → IsNumbered num s.1
    → OnSome
        (λ (s' : Keepalive × ProcList). IsNumbered (num + 1) s'.1)
        (create_proc_status_check event_add s name num)
unfolding create_proc_status_check
create-IsNumbered event_add s name num n =
    elim (Bool-cases (leb sysconf_max_appl_num num || not (event_add num))) [
      | inl stop ↦ rw stop tt
      | inr go ↦ elim (Option-cases (add_element s.1 name (new_proc name num))) [
        | inl failed ↦ rw (go, failed) tt
        | inr (l', added) ↦ rw (go, added) (added-IsNumbered name num n (ground (arith, go)) added)
      ]
    ]

-- What a new process keeps holds of the list behind the last line.
module _ (event_add : ℕ → Bool) (P : ℕ → Keepalive × ProcList → Type 0)
    (keeps : (s : Keepalive × ProcList) (name : Bytes) (num : ℕ)
      → P num s
      → OnSome (P (num + 1)) (create_proc_status_check event_add s name num)) where
  add_lines-keeps :
      (lines : List Bytes) (s : Keepalive × ProcList) (num : ℕ)
      → P num s
      → OnSome (λ (r : (Keepalive × ProcList) × ℕ). P r.1 r.0) (add_lines event_add lines s num)
  unfolding add_lines
  add_lines-keeps [] s num n = n
  add_lines-keeps (line ∷ rest) s num n = elim (Bool-cases (starts_with b'[' line)) [
    | inl ends ↦ rw ends n
    | inr goes ↦ elim (Bool-cases (starts_with b'#' line || starts_with b'\n' line)) [
      | inl skipped ↦ rw (goes, skipped) (add_lines-keeps rest s num n)
      | inr taken ↦
          elim (Option-cases (create_proc_status_check event_add s (scan_token line) num)) [
            | inl failed ↦ rw (goes, taken, failed) tt
            | inr (s', made) ↦
                rw (goes, taken, made)
                  (add_lines-keeps rest s' (num + 1) (rw made at (keeps s (scan_token line) num n)))
          ]
    ]
  ]

  pub create_keepalive_list-keeps :
      (section : Option Bytes) (k : Keepalive) (l : ProcList)
      → P 0 (k, l)
      → OnSome
          (λ (r : (Keepalive × ProcList) × ℕ). P r.1 r.0)
          (create_keepalive_list event_add section k l)
  unfolding create_keepalive_list
  create_keepalive_list-keeps none k l p = tt
  create_keepalive_list-keeps (some section) k l p =
      add_lines-keeps (map c_string (fgets_lines 255 [] section)) (k, l) 0 p

pub start-IsNumbered : IsNumbered 0 (root_node ∷ [])
unfolding find
start-IsNumbered = record {
  is_table = table nil;
  bounded = omega arith;
  named = λ j p e. absurd (cc e);
  indexed = λ j p e. absurd (cc e);
  apart = λ i j p q e f same. absurd (cc e);
}

-- Where the list of processes can be read it is a table, in which each process stands under its own
-- name, no two have the same index, and the indices are below the number of lines that were taken,
-- which is at most the number of counters in shared memory.
pub create_keepalive_list-IsNumbered :
    (event_add : ℕ → Bool) (section : Option Bytes) (k : Keepalive)
    → OnSome
        (λ (r : (Keepalive × ProcList) × ℕ). IsNumbered r.1 r.0.1)
        (create_keepalive_list event_add section k (root_node ∷ []))
create_keepalive_list-IsNumbered event_add section k =
    create_keepalive_list-keeps event_add (λ num s. IsNumbered num s.1)
      (create-IsNumbered event_add) section k (root_node ∷ []) start-IsNumbered
