-- ===== src/Elem/Traverse.antt =====
-- The walk of `list_element`: a walk whose callback keeps the keys keeps the invariant, and acts
-- on the map pointwise.
use mathlib.Core.Option
use k8s.Elem.Order.{node, root_node, IsSorted, nil, cons, IsTable, table, IsSorted-weaken}
use k8s.Common.{
  Bytes, str_eq_iff, ◌≡◌, refl, ◌∙◌, inl, inr, Option, none, some, List, arith, Option-cases,
}
use k8s.Elem.{Element, Verdict, keep, remove, list_element}
use k8s.Elem.Lookup.{find, find-at}

-- The verdict that stands for the new data of an element, or for its removal.
abbrev pub verdict : {D : Type 0} → Bytes → Option D → Verdict D
verdict k none = remove
verdict k (some d) = keep (node k d)

module _ {D A : Type 0} where
  -- The callback leaves the root alone and keeps keys, and what it makes of the data is `g`.
  pub record IsPointwise (cbfunc : Element D → A → Verdict D × A) (g : D → Option D) : Type 0 where
    pub root : (a : A) → (cbfunc root_node a).0 ≡ keep root_node
    pub element : (k : Bytes) (d : D) (a : A) → (cbfunc (node k d) a).0 ≡ verdict k (g d)

  module _ {cbfunc : Element D → A → Verdict D × A} {g : D → Option D}
      (p : IsPointwise cbfunc g) where
    list_element-IsSorted :
        {lo : Option Bytes} {es : List (Element D)} (a : A)
        → IsSorted lo es
        → IsSorted lo (list_element es cbfunc a).0
    unfolding list_element
    list_element-IsSorted a nil = nil
    list_element-IsSorted {lo} a (cons {k} {d} {es} m s) = elim (Option-cases (g d)) [
      | inl gone ↦
          rw (p.element k d a, gone)
            (IsSorted-weaken lo k m (list_element-IsSorted (cbfunc (node k d) a).1 s))
      | inr (d', kept) ↦
          rw (p.element k d a, kept) (cons m (list_element-IsSorted (cbfunc (node k d) a).1 s))
    ]

    list_element-find_sorted :
        {lo : Option Bytes} {es : List (Element D)} (a : A) (j : Bytes)
        → IsSorted lo es
        → find (list_element es cbfunc a).0 j ≡ Option.bind (find es j) g
    unfolding list_element find Option.bind
    list_element-find_sorted a j nil = refl
    list_element-find_sorted {lo} a j (cons {k} {d} {es} m s) =
        let rest = list_element-find_sorted (cbfunc (node k d) a).1 j s in
        elim (Option-cases (g d)) [
          | inl gone ↦
              rw (p.element k d a, gone) (rest ∙ ground (arith, gone, find-at s, str_eq_iff j k))
          | inr (d', kept) ↦ rw (p.element k d a, kept) (ground (arith, kept, rest))
        ]

    pub list_element-IsTable :
        {l : List (Element D)} (a : A) → IsTable l → IsTable (list_element l cbfunc a).0
    unfolding list_element
    list_element-IsTable a (table s) =
        rw (p.root a) (table (list_element-IsSorted (cbfunc root_node a).1 s))

    pub list_element-find :
        {l : List (Element D)} (a : A) (j : Bytes)
        → IsTable l
        → find (list_element l cbfunc a).0 j ≡ Option.bind (find l j) g
    unfolding list_element find
    list_element-find a j (table s) =
        rw (p.root a) (list_element-find_sorted (cbfunc root_node a).1 j s)
