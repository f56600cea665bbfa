-- ===== src/Elem/Canonical.antt =====
-- Tables of src/libs/elem.c compared by the data under their keys.
use k8s.Elem.Order.{node, root_node, IsSorted, nil, cons, IsTable, table, key-cases}
use mathlib.Core.Option.{some-injective}
use k8s.Common.{
  Bytes, str_eq_iff, str_eq_refl, ◌≡◌, refl, ap, Option, some, List, ◌∷◌, arith, sym, ◌∙◌, inl, inr,
}
use k8s.Elem.{Element}
use k8s.Elem.Lookup.{find, find-at, find-below}

module _ {D : Type 0} where
  pub find-head : (k : Bytes) (d : D) (es : List (Element D)) → find (node k d ∷ es) k ≡ some d
  unfolding find
  find-head k d es = ground (arith, str_eq_refl k)

  -- Two lists of one map begin with the same key.
  same_first :
      (a b : Bytes) (c d : D) (es fs : List (Element D))
      → IsSorted (some a) es
      → IsSorted (some b) fs
      → ((k : Bytes) → find (node a c ∷ es) k ≡ find (node b d ∷ fs) k)
      → a ≡ b
  unfolding find
  same_first a b c d es fs s t h = elim (key-cases a b) [
    | inl (_, lt) ↦ ground (arith, h a, find-below a lt t, str_eq_iff a b, str_eq_refl a)
    | inr (inl (_, _, same)) ↦ sym same
    | inr (inr (_, _, lt)) ↦ ground (arith, h b, find-below b lt s, str_eq_iff b a, str_eq_refl b)
  ]

  tails :
      (a : Bytes) (c d : D) (es fs : List (Element D))
      → IsSorted (some a) es
      → IsSorted (some a) fs
      → ((k : Bytes) → find (node a c ∷ es) k ≡ find (node a d ∷ fs) k)
      → (k : Bytes) → find es k ≡ find fs k
  unfolding find
  tails a c d es fs s t h k = ground (arith, str_eq_iff k a, h k, find-at s, find-at t)

  IsSorted-ext :
      {lo lo' : Option Bytes} {es fs : List (Element D)}
      → IsSorted lo es
      → IsSorted lo' fs
      → ((k : Bytes) → find es k ≡ find fs k)
      → es ≡ fs
  unfolding find
  IsSorted-ext nil nil h = refl
  IsSorted-ext nil (cons {k} {d} {es} m t) h = ground (arith, h k, find-head k d es)
  IsSorted-ext (cons {k} {d} {es} m s) nil h = ground (arith, h k, find-head k d es)
  IsSorted-ext (cons {k = a} {d = c} {es} m s) (cons {k = b} {d} {es = fs} n t) h =
      let first = same_first a b c d es fs s t h in
      let t' : IsSorted (some a) fs = rw first t in
      let h' = λ (k : Bytes). h k ∙ ap (λ b'. find (node b' d ∷ fs) k) (sym first) in
      let same = some-injective c d (sym (find-head a c es) ∙ h' a ∙ find-head a d fs) in
      ap (λ b'. node b' c ∷ es) first
      ∙ ap (λ c'. node b c' ∷ es) same
      ∙ ap (λ es'. node b d ∷ es') (IsSorted-ext s t' (tails a c d es fs s t' h'))

  -- Two tables that have the same data under each key are the same list.
  pub IsTable-ext :
      {l m : List (Element D)} → IsTable l → IsTable m → ((k : Bytes) → find l k ≡ find m k) → l ≡ m
  unfolding find
  IsTable-ext (table s) (table t) h = ap (λ es. root_node ∷ es) (IsSorted-ext s t h)
