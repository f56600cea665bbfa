-- ===== src/Elem/Tests.antt =====
-- Element lists at concrete inputs.
use mathlib.Core.Option
use k8s.Elem.Order.{node, root_node, nil, cons, IsTable, table, OnSome, add_element-IsTable}
use k8s.Common.{
  Bytes, codes, strcmp, str_eq, ℕ, ◌+◌, ◌%◌, ◌≡◌, refl, ◌≢◌, ◌↔◌, Option, none, some, List, [], ◌∷◌,
  arith, ◌==◌, if◌then◌else◌,
}
use k8s.Elem.{Element, Verdict, keep, remove, list_element, add_element}
use k8s.Elem.Lookup.{find, add_element-find, add_element-none_iff}
use k8s.Elem.Traverse.{IsPointwise, list_element-find}

abbrev b_key : Bytes
b_key = codes "b"

abbrev c_key : Bytes
c_key = codes "c"

abbrev d_key : Bytes
d_key = codes "d"

abbrev two : List (Element ℕ)
two = root_node ∷ node b_key 1 ∷ node d_key 2 ∷ []

abbrev three : List (Element ℕ)
three = root_node ∷ node b_key 1 ∷ node c_key 9 ∷ node d_key 2 ∷ []

two-IsTable : IsTable two
unfolding strcmp
two-IsTable = table (cons tt (cons refl nil))

add_c : add_element two c_key 9 ≡ some three
unfolding add_element strcmp
add_c = refl

add_element-find_example :
    find three d_key ≡ (if str_eq d_key c_key then some 9 else find two d_key)
add_element-find_example = add_element-find c_key 9 d_key two-IsTable add_c

add_element-none_iff_example : (add_element two b_key 9 ≡ none) ↔ (find two b_key ≢ none)
add_element-none_iff_example = add_element-none_iff b_key 9 two-IsTable

add_element-IsTable_example : OnSome IsTable (add_element two c_key 9)
add_element-IsTable_example = add_element-IsTable c_key 9 two-IsTable

-- A callback that removes the odd numbers and adds up the others.
abbrev odd_sum : Element ℕ → ℕ → Verdict ℕ × ℕ
odd_sum e n = elim e.key [
  | none ↦ (keep e, n)
  | some _ ↦ elim e.payload [
    | none ↦ (keep e, n)
    | some d ↦ if d % 2 == 1 then (remove, n) else (keep e, n + d)
  ]
]

abbrev if_even : ℕ → Option ℕ
if_even d = if d % 2 == 1 then none else some d

odd_sum-IsPointwise : IsPointwise odd_sum if_even
odd_sum-IsPointwise = record { root = λ a. refl; element = λ k d a. ground arith }

list_element-find_example :
    find (list_element two odd_sum 0).0 d_key ≡ Option.bind (find two d_key) if_even
list_element-find_example = list_element-find odd_sum-IsPointwise 0 d_key two-IsTable
