-- ===== src/Elem/Order.antt =====
-- The invariant of an element list: a root with no key and no data, then strictly ascending keys.
use k8s.Common.{
  Bytes, strcmp, strcmp-eq_iff, strcmp-gt_iff, strcmp_lt_trans, Ordering, ◌≡◌, ◌⊎◌, inl, inr, true,
  false, Option, none, some, List, [], ◌∷◌, arith, Bool-cases, Option-cases,
}
use k8s.Elem.{
  Element, is_behind, has_key, insert_behind, add_element, add_or_leave, rem_element,
  update_element,
}
use mathlib.Core.Option

-- `k` may stand behind an element with this key.
abbrev pub Above : Option Bytes → Bytes → Type 0
Above none k = Unit
Above (some a) k = strcmp a k ≡ Ordering.lt

abbrev pub node : {D : Type 0} → Bytes → D → Element D
node k d = record { key = some k; payload = some d }

abbrev pub root_node : {D : Type 0} → Element D
root_node = record { key = none; payload = none }

-- Ascending keys, the first of them above `lo`.
pub data IsSorted {D : Type 0} : Option Bytes → List (Element D) → Type 0 where
  nil : {lo : Option Bytes} → IsSorted lo []
  cons :
      {lo : Option Bytes} {k : Bytes} {d : D} {es : List (Element D)}
      → Above lo k
      → IsSorted (some k) es
      → IsSorted lo (node k d ∷ es)

pub data IsTable {D : Type 0} : List (Element D) → Type 0 where
  table : {es : List (Element D)} → IsSorted none es → IsTable (root_node ∷ es)

Above-trans : (lo : Option Bytes) (a b : Bytes) → Above lo a → strcmp a b ≡ Ordering.lt → Above lo b
Above-trans none a b h k = tt
Above-trans (some c) a b h k = strcmp_lt_trans c a b h k

pub IsSorted-weaken :
    {D : Type 0} {es : List (Element D)} (lo : Option Bytes) (a : Bytes)
    → Above lo a
    → IsSorted (some a) es
    → IsSorted lo es
IsSorted-weaken lo a h nil = nil
IsSorted-weaken lo a h (cons {k} m s) = cons (Above-trans lo a k h m) s

-- Where a key stands against the key of an element: behind it, at it, or in front of it.
pub key-cases :
    (a k : Bytes)
    → ((is_behind (some a) k ≡ true) × (strcmp a k ≡ Ordering.lt))
      ⊎ ((is_behind (some a) k ≡ false) × (has_key k (some a) ≡ true) × (k ≡ a))
      ⊎ ((is_behind (some a) k ≡ false) × (has_key k (some a) ≡ false) × (strcmp k a ≡ Ordering.lt))
unfolding is_behind has_key
key-cases a k = ground (arith, strcmp-eq_iff k a, strcmp-gt_iff k a)

-- `P` holds of the value, if there is one.
abbrev pub OnSome : {A : Type 0} → (A → Type 0) → Option A → Type 0
OnSome P none = Unit
OnSome P (some a) = P a

pub OnSome-map :
    {A B : Type 0} (P : A → Type 0) (Q : B → Type 0) (f : A → B) (o : Option A)
    → ((a : A) → P a → Q (f a))
    → OnSome P o
    → OnSome Q (Option.map f o)
OnSome-map P Q f none h p = tt
OnSome-map P Q f (some a) h p = h a p

module _ {D : Type 0} where
  pub insert_behind-IsSorted :
      {lo : Option Bytes} {es : List (Element D)} (k : Bytes) (d : D)
      → Above lo k
      → IsSorted lo es
      → OnSome (IsSorted lo) (insert_behind es k d)
  unfolding insert_behind
  insert_behind-IsSorted k d h nil = cons h nil
  insert_behind-IsSorted k d h (cons {k = a} {es = es} m s) = elim (key-cases a k) [
    | inl (b, lt) ↦ rw b (
        OnSome-map _ _ _ (insert_behind es k d) (λ es' s'. cons m s')
          (insert_behind-IsSorted k d lt s))
    | inr (inl (b, same, _)) ↦ rw (b, same) tt
    | inr (inr (b, other, lt)) ↦ rw (b, other) (cons h (cons lt s))
  ]

  -- An insertion keeps the invariant.
  pub add_element-IsTable :
      {l : List (Element D)} (k : Bytes) (d : D) → IsTable l → OnSome IsTable (add_element l k d)
  unfolding add_element is_behind
  add_element-IsTable k d (table {es} s) =
      OnSome-map _ _ _ (insert_behind es k d) (λ es' s'. table s') (insert_behind-IsSorted k d tt s)

  pub add_or_leave-IsTable :
      {l : List (Element D)} (k : Bytes) (d : D) → IsTable l → IsTable (add_or_leave l k d)
  unfolding add_or_leave
  add_or_leave-IsTable {l} k d t = elim (Option-cases (add_element l k d)) [
    | inl e ↦ rw (add_or_leave, e) t
    | inr (l', e) ↦ rw (add_or_leave, e) (rw e at (add_element-IsTable k d t))
  ]

  pub rem_element-IsSorted :
      {lo : Option Bytes} {es : List (Element D)} (k : Bytes)
      → IsSorted lo es
      → IsSorted lo (rem_element es k)
  unfolding rem_element
  rem_element-IsSorted k nil = nil
  rem_element-IsSorted {lo} k (cons {k = a} m s) = elim (Bool-cases (has_key k (some a))) [
    | inl hit ↦ rw hit (IsSorted-weaken lo a m s)
    | inr miss ↦ rw miss (cons m (rem_element-IsSorted k s))
  ]

  pub rem_element-IsTable :
      {l : List (Element D)} (k : Bytes) → IsTable l → IsTable (rem_element l k)
  unfolding rem_element has_key
  rem_element-IsTable k (table s) = table (rem_element-IsSorted k s)

  pub update_element-IsSorted :
      {lo : Option Bytes} {es : List (Element D)} (k : Bytes) (f : D → D)
      → IsSorted lo es
      → IsSorted lo (update_element es k f)
  unfolding update_element
  update_element-IsSorted k f nil = nil
  update_element-IsSorted k f (cons {k = a} m s) = elim (Bool-cases (has_key k (some a))) [
    | inl hit ↦ rw hit (cons m s)
    | inr miss ↦ rw miss (cons m (update_element-IsSorted k f s))
  ]

  pub update_element-IsTable :
      {l : List (Element D)} (k : Bytes) (f : D → D) → IsTable l → IsTable (update_element l k f)
  unfolding update_element has_key
  update_element-IsTable k f (table s) = table (update_element-IsSorted k f s)
