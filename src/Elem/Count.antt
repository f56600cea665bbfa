-- ===== src/Elem/Count.antt =====
-- How many elements a table of src/libs/elem.c has, by the names under which there are some.
use k8s.Common.{
  Bytes, str_eq, str_eq_iff, str_eq_refl, ◌+◌, ◌≤◌, ◌<◌, ◌≡◌, inl, inr, Bool, true, false, not,
  ◌&&◌, ◌||◌, Option, none, List, [], ◌∷◌, arith, length, if◌then◌else◌, Bool-cases,
}
use k8s.Elem.{Element}
use k8s.Elem.Lookup.{find, find-at}
use k8s.Elem.Order.{IsSorted, nil, cons, IsTable, table}
use k8s.Elem.Canonical.{find-head}

abbrev pub has : Bytes → List Bytes → Bool
has k [] = false
has k (n ∷ ns) = str_eq k n || has k ns

-- The names but one.
without : Bytes → List Bytes → List Bytes
without k [] = []
without k (n ∷ ns) = let rest = without k ns in if str_eq k n then rest else n ∷ rest

has-without : (j k : Bytes) (ns : List Bytes) → has j (without k ns) ≡ not (str_eq j k) && has j ns
unfolding without
has-without j k [] = ground arith
has-without j k (n ∷ ns) =
    ground
      (arith, has-without j k ns, str_eq_iff k n, str_eq_iff j n, str_eq_iff j k, str_eq_refl n)

length-without : (k : Bytes) (ns : List Bytes) → length (without k ns) ≤ length ns
unfolding without
length-without k [] = omega arith
length-without k (n ∷ ns) = ground (arith, length-without k ns)

length-without_lt :
    (k : Bytes) (ns : List Bytes) → has k ns ≡ true → length (without k ns) < length ns
unfolding without
length-without_lt k [] h = absurd (cc h)
length-without_lt k (n ∷ ns) h = ground (arith, length-without k ns, length-without_lt k ns, h)

-- A list has data under these names only.
abbrev pub IsWithin : {D : Type 0} → List Bytes → List (Element D) → Type 0
IsWithin ns l = (j : Bytes) → has j ns ≡ false → find l j ≡ none

module _ {D : Type 0} where
  length-IsSorted :
      {lo : Option Bytes} {es : List (Element D)} (ns : List Bytes)
      → IsSorted lo es
      → IsWithin ns es
      → length es ≤ length ns
  unfolding find
  length-IsSorted ns nil h = omega arith
  length-IsSorted ns (cons {k} {d} {es} m s) h =
      let there : has k ns ≡ true = ground (arith, h k, find-head k d es) in
      let rest = length-IsSorted (without k ns) s λ j absent. elim (Bool-cases (str_eq j k)) [
        | inl y ↦ rw ((str_eq_iff j k).0 y) (find-at s)
        | inr n ↦ ground (arith, h j, absent, has-without j k ns)
      ] in
      omega (arith, rest, length-without_lt k ns there)

  -- A table that has data under these names only has no more elements than there are names, beside
  -- its root.
  pub length-IsTable :
      {l : List (Element D)} (ns : List Bytes)
      → IsTable l
      → IsWithin ns l
      → length l ≤ length ns + 1
  unfolding find
  length-IsTable ns (table s) h = omega (arith, length-IsSorted ns s h)
