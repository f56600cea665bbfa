-- ===== src/K8smgr/Procs/Fresh.antt =====
-- The list of the processes of src/k8smgr/main.c as it is read, and the counters in shared memory.
use mathlib.Core.Option.{some-injective}
use k8s.Common.{
  Bytes, str_eq, ℕ, ◌+◌, ◌≡◌, refl, sym, ap, inl, inr, Bool, not, ◌||◌, Option, some, [], ◌∷◌,
  arith, leb, Bool-cases, Option-cases,
}
use k8s.Elem.{add_element}
use k8s.Elem.Lookup.{find, add_element-find}
use k8s.Elem.Order.{root_node, IsTable, OnSome}
use k8s.K8smgr.{sysconf_max_appl_num, Keepalive, ProcCtx, ProcList}
use k8s.K8smgr.Procs.{
  new_proc, create_proc_status_check, create_keepalive_list, IsNumbered, create-IsNumbered,
  create_keepalive_list-keeps, start-IsNumbered,
}

-- The counters are still those before, and no process is forced.
pub record IsFresh (before : Keepalive) (s : Keepalive × ProcList) : Type 0 where
  pub cnt_is : s.0.cnt ≡ before.cnt
  pub oldcnt_is : s.0.oldcnt ≡ before.oldcnt
  pub free : (j : Bytes) (p : ProcCtx) → find s.1 j ≡ some p → p.force_status ≡ 0

added-free :
    {l l' : ProcList} (name : Bytes) (num : ℕ)
    → IsTable l
    → add_element l name (new_proc name num) ≡ some l'
    → ((j : Bytes) (p : ProcCtx) → find l j ≡ some p → p.force_status ≡ 0)
    → (j : Bytes) (p : ProcCtx) → find l' j ≡ some p
    → p.force_status ≡ 0
unfolding new_proc
added-free {l} name num t added free j p e =
    let at = add_element-find name (new_proc name num) j t added in
    elim (Bool-cases (str_eq j name)) [
      | inl y ↦
          let same : some (new_proc name num) ≡ some p = ground (arith, at, e, y) in
          ap (λ (x : ProcCtx). x.force_status) (sym (some-injective (new_proc name num) p same))
      | inr n ↦ free j p (ground (arith, at, e, n))
    ]

create-IsFresh :
    (event_add : ℕ → Bool) (before : Keepalive) (s : Keepalive × ProcList) (name : Bytes) (num : ℕ)
    → IsNumbered num s.1 × IsFresh before s
    → OnSome
        (λ (s' : Keepalive × ProcList). IsNumbered (num + 1) s'.1 × IsFresh before s')
        (create_proc_status_check event_add s name num)
unfolding create_proc_status_check
create-IsFresh event_add before s name num (n, f) =
    let numbered = create-IsNumbered event_add s name num n in
    elim (Bool-cases (leb sysconf_max_appl_num num || not (event_add num))) [
      | inl stop ↦ rw stop tt
      | inr go ↦ elim (Option-cases (add_element s.1 name (new_proc name num))) [
        | inl failed ↦ rw (go, failed) tt
        | inr (l', added) ↦
            rw (go, added)
              (
                rw (go, added) at numbered,
                record {
                  cnt_is = f.cnt_is;
                  oldcnt_is = f.oldcnt_is;
                  free = added-free name num n.is_table added f.free;
                },
              )
      ]
    ]

pub create_keepalive_list-IsFresh :
    (event_add : ℕ → Bool) (section : Option Bytes) (k : Keepalive)
    → OnSome
        (λ (r : (Keepalive × ProcList) × ℕ). IsNumbered r.1 r.0.1 × IsFresh k r.0)
        (create_keepalive_list event_add section k (root_node ∷ []))
unfolding find
create_keepalive_list-IsFresh event_add section k =
    create_keepalive_list-keeps event_add (λ num s. IsNumbered num s.1 × IsFresh k s)
      (create-IsFresh event_add k) section k (root_node ∷ [])
      (start-IsNumbered, record { cnt_is = refl; oldcnt_is = refl; free = λ j p e. absurd (cc e) })
