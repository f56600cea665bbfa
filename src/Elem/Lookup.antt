-- ===== src/Elem/Lookup.antt =====
-- An element list as a finite map from keys to data, and what each operation does to the map.
use k8s.Common.{
  Bytes, strcmp, str_eq, strcmp_refl, strcmp_lt_trans, str_eq_iff, Ordering, ◌≡◌, refl, ◌≢◌, inl,
  inr, Option, none, some, List, [], ◌∷◌, arith, if◌then◌else◌, Bool-cases, ◌↔◌, ◌⊎◌, Option-cases,
  str_eq_refl, ◌∙◌,
}
use k8s.Elem.{
  Element, insert_behind, get_element, is_behind, has_key, add_element, rem_element, update_element,
  add_or_leave,
}
use k8s.Elem.Order.{
  node, IsSorted, nil, cons, IsTable, table, key-cases, OnSome, OnSome-map, root_node,
  rem_element-IsTable,
}
use mathlib.Core.Option

module _ {D : Type 0} where
  -- The data that `get_element` leads to.
  unfoldable pub find : List (Element D) → Bytes → Option D
  unfolding has_key
  find [] k = none
  find (e ∷ es) k = if has_key k e.key then e.payload else find es k

  -- Nothing stands below the bound of a sorted list.
  pub find-below :
      {a : Bytes} {es : List (Element D)} (k : Bytes)
      → strcmp k a ≡ Ordering.lt
      → IsSorted (some a) es
      → find es k ≡ none
  unfolding find
  find-below k h nil = refl
  find-below {a} k h (cons {k = b} {d = d} {es = es} m s) = ground (
    arith,
    str_eq_iff k b,
    strcmp_lt_trans k a b h m,
    strcmp_refl k,
    find-below k (strcmp_lt_trans k a b h m) s,
  )

  pub find-at : {a : Bytes} {es : List (Element D)} → IsSorted (some a) es → find es a ≡ none
  unfolding find
  find-at nil = refl
  find-at {a} (cons {k = b} m s) = ground (arith, str_eq_iff a b, strcmp_refl b, find-below a m s)

  get_element-IsSorted :
      {lo : Option Bytes} {es : List (Element D)} (k : Bytes)
      → IsSorted lo es
      → get_element es k ≡ Option.map (node k) (find es k)
  unfolding find get_element
  get_element-IsSorted k nil = refl
  get_element-IsSorted k (cons {k = a} {d = d} {es = es} m s) = elim (Bool-cases (str_eq k a)) [
    | inl hit ↦ rw (hit, (str_eq_iff k a).0 hit)
    | inr miss ↦ rw (miss, get_element-IsSorted k s)
  ]

  -- In a table an element is found under its own key, and it has data.
  pub get_element-find :
      {l : List (Element D)} (k : Bytes)
      → IsTable l
      → get_element l k ≡ Option.map (node k) (find l k)
  unfolding find get_element
  get_element-find k (table s) = get_element-IsSorted k s

  insert_behind-find :
      {lo : Option Bytes} {es : List (Element D)} (k : Bytes) (d : D) (j : Bytes)
      → IsSorted lo es
      → OnSome
          (λ es'. find es' j ≡ (if str_eq j k then some d else find es j))
          (insert_behind es k d)
  unfolding insert_behind find
  insert_behind-find k d j nil = refl
  insert_behind-find k d j (cons {k = a} {d = c} {es = es} m s) = elim (key-cases a k) [
    | inl (b, lt) ↦ rw b (
        OnSome-map _ _ _ (insert_behind es k d)
          (λ es' e. ground (arith, e, str_eq_iff j a, str_eq_iff j k, strcmp_refl k))
          (insert_behind-find k d j s))
    | inr (inl (b, same, _)) ↦ rw (b, same) tt
    | inr (inr (b, other, lt)) ↦ rw (b, other) refl
  ]

  -- An insertion that succeeds adds its key to the map, and changes nothing else.
  pub add_element-find :
      {l l' : List (Element D)} (k : Bytes) (d : D) (j : Bytes)
      → IsTable l
      → add_element l k d ≡ some l'
      → find l' j ≡ (if str_eq j k then some d else find l j)
  unfolding add_element find is_behind
  add_element-find {l'} k d j (table {es} s) e = elim (Option-cases (insert_behind es k d)) [
    | inl f ↦ absurd (cc (rw (add_element, f) at e))
    | inr (es', f) ↦
        let q : root_node ∷ es' ≡ l' = cc (rw (add_element, f) at e) in
        rw (← q) (rw f at (insert_behind-find k d j s))
  ]

  -- An insertion fails where the key has data, and succeeds where it has none.
  insert_behind-cases :
      {lo : Option Bytes} {es : List (Element D)} (k : Bytes) (d : D)
      → IsSorted lo es
      → ((c : D) × (find es k ≡ some c) × (insert_behind es k d ≡ none))
        ⊎ ((es' : List (Element D)) × (find es k ≡ none) × (insert_behind es k d ≡ some es'))
  unfolding insert_behind find
  insert_behind-cases k d nil = inr (_, refl, refl)
  insert_behind-cases k d (cons {k = a} {d = c} {es = es} m s) = elim (key-cases a k) [
    | inl (b, lt) ↦ elim (insert_behind-cases k d s) [
      | inl (c', found, failed) ↦
          inl (c', ground (arith, str_eq_iff k a, strcmp_refl k), rw (b, failed))
      | inr (es', missing, done) ↦
          inr (node a c ∷ es', ground (arith, str_eq_iff k a, strcmp_refl k), rw (b, done))
    ]
    | inr (inl (b, same, e)) ↦ inl (c, rw same, rw (b, same))
    | inr (inr (b, other, lt)) ↦
        inr (node k d ∷ node a c ∷ es, rw other (find-below k lt s), rw (b, other))
  ]

  add_element-cases :
      {l : List (Element D)} (k : Bytes) (d : D)
      → IsTable l
      → ((c : D) × (find l k ≡ some c) × (add_element l k d ≡ none))
        ⊎ ((l' : List (Element D)) × (find l k ≡ none) × (add_element l k d ≡ some l'))
  unfolding add_element find
  add_element-cases k d (table s) = elim (insert_behind-cases k d s) [
    | inl (c, found, failed) ↦ inl (c, found, rw failed)
    | inr (es', missing, done) ↦ inr (root_node ∷ es', missing, rw done)
  ]

  -- In a table `add_element` fails exactly where its key is present.
  pub add_element-none_iff :
      {l : List (Element D)} (k : Bytes) (d : D)
      → IsTable l
      → (add_element l k d ≡ none) ↔ (find l k ≢ none)
  add_element-none_iff k d t = elim (add_element-cases k d t) [
    | inl (c, found, failed) ↦ ((λ e n. cc), (λ n. failed))
    | inr (l', missing, done) ↦ ((λ e n. cc), (λ n. absurd (n missing)))
  ]

  -- Where the caller ignores the result and the key is new.
  pub add_or_leave-find :
      {l : List (Element D)} (k : Bytes) (d : D) (j : Bytes)
      → IsTable l
      → find l k ≡ none
      → find (add_or_leave l k d) j ≡ (if str_eq j k then some d else find l j)
  unfolding add_or_leave
  add_or_leave-find k d j t missing = elim (add_element-cases k d t) [
    | inl (c, found, failed) ↦ absurd (cc)
    | inr (l', missing', done) ↦ rw (add_or_leave, done) (add_element-find k d j t done)
  ]

  rem_element-find_sorted :
      {lo : Option Bytes} {es : List (Element D)} (k j : Bytes)
      → IsSorted lo es
      → find (rem_element es k) j ≡ (if str_eq j k then none else find es j)
  unfolding rem_element find
  rem_element-find_sorted k j nil = ground arith
  rem_element-find_sorted k j (cons {k = a} {d = c} {es = es} m s) = ground (
    arith,
    str_eq_iff j a,
    str_eq_iff k a,
    str_eq_iff j k,
    find-at s,
    rem_element-find_sorted k j s,
  )

  update_element-find_sorted :
      {lo : Option Bytes} {es : List (Element D)} (k : Bytes) (f : D → D) (j : Bytes)
      → IsSorted lo es
      → find (update_element es k f) j
        ≡ (if str_eq j k then Option.map f (find es j) else find es j)
  unfolding update_element find
  update_element-find_sorted k f j nil = ground arith
  update_element-find_sorted k f j (cons {k = a} {d = c} {es = es} m s) =
      ground
        (arith, str_eq_iff j a, str_eq_iff k a, str_eq_iff j k, update_element-find_sorted k f j s)

  pub rem_element-find :
      {l : List (Element D)} (k j : Bytes)
      → IsTable l
      → find (rem_element l k) j ≡ (if str_eq j k then none else find l j)
  unfolding rem_element find
  rem_element-find k j (table s) = rem_element-find_sorted k j s

  pub update_element-find :
      {l : List (Element D)} (k : Bytes) (f : D → D) (j : Bytes)
      → IsTable l
      → find (update_element l k f) j ≡ (if str_eq j k then Option.map f (find l j) else find l j)
  unfolding update_element find
  update_element-find k f j (table s) = update_element-find_sorted k f j s

  -- An assignment to the data of a key that is present.
  pub update_element-find-some :
      {l : List (Element D)} (k : Bytes) (f : D → D) (j : Bytes) {d : D}
      → IsTable l
      → find l k ≡ some d
      → find (update_element l k f) j ≡ (if str_eq j k then some (f d) else find l j)
  update_element-find-some {l} k f j t e =
      update_element-find k f j t ∙ ground (arith, e, str_eq_iff j k)

  -- The list after an element was replaced by a new one of the same key.
  pub replace-find :
      {l : List (Element D)} (k : Bytes) (d : D) (j : Bytes)
      → IsTable l
      → find (add_or_leave (rem_element l k) k d) j ≡ (if str_eq j k then some d else find l j)
  replace-find {l} k d j t =
      let gone : find (rem_element l k) k ≡ none =
        rw (rem_element-find k k t, str_eq_refl k) refl in
      add_or_leave-find k d j (rem_element-IsTable k t) gone
      ∙ ground (arith, rem_element-find k j t)
