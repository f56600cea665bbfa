-- ===== src/Elem.antt =====
-- The element list of src/libs/elem.c, with the structure of src/libs/libs.h. An element list is
-- the list of its elements from the root on; a pointer that `get_element` returned is named by
-- the key of the element that it points at, the first one with that key. Memory is not exhausted.
pub mod Order
pub mod Lookup
pub mod Traverse
pub mod Canonical
mod Tests
pub mod Count
use k8s.Common.{
  Bytes, Bool, true, false, ◌||◌, List, [], ◌∷◌, Option, none, some, Ordering, strcmp, str_eq,
  if◌then◌else◌,
}
use mathlib.Core.Option

-- `struct element`, with the payload that `data` points at; the order of the list is that of
-- the `forward` pointers.
pub record Element (D : Type 0) : Type 0 where
  pub key : Option Bytes
  pub payload : Option D

-- What a callback of `list_element` does to the element that it is given.
pub data Verdict (D : Type 0) : Type 0 where
  keep : Element D → Verdict D
  remove : Verdict D

-- `traverse->key == NULL || strcmp(item->key, traverse->key) > 0`
unfoldable pub is_behind : Option Bytes → Bytes → Bool
is_behind none item = true
is_behind (some k) item = elim (strcmp item k) [ Ordering.gt ↦ true | _ ↦ false ]

-- `!strcmp(item->key, traverse->key)`
unfoldable pub has_key : Bytes → Option Bytes → Bool
unfolding str_eq
has_key item none = false
has_key item (some k) = str_eq item k

module _ {D : Type 0} where
  unfoldable pub new_element : Option Bytes → Option D → Element D
  new_element k d = record { key = k; payload = d }

  -- The list in front of which the element was, once its callback has run.
  abbrev pub relink {ℓ} : {A : Type ℓ} → Verdict D → List (Element D) × A → List (Element D) × A
  relink (keep e) rest = (e ∷ rest.0, rest.1)
  relink remove rest = rest

  -- The walk reads `forward` before the callback, so the callback may remove its own element.
  unfoldable pub list_element {ℓ} :
      {A : Type ℓ} → List (Element D) → (Element D → A → Verdict D × A) → A → List (Element D) × A
  list_element [] cbfunc cbarg = ([], cbarg)
  list_element (now ∷ next) cbfunc cbarg =
      let r = cbfunc now cbarg in let rest = list_element next cbfunc r.1 in relink r.0 rest

  -- The rest of the loop of `add_element` behind `target`; `none` is its -1, and leaves the list.
  unfoldable pub insert_behind : List (Element D) → Bytes → D → Option (List (Element D))
  unfolding is_behind has_key new_element
  insert_behind [] k d = some (new_element (some k) (some d) ∷ [])
  insert_behind (traverse ∷ rest) k d =
      if is_behind traverse.key k
      then Option.map (λ es. traverse ∷ es) (insert_behind rest k d)
      else if has_key k traverse.key
      then none
      else some (new_element (some k) (some d) ∷ traverse ∷ rest)

  -- `add_element(root, new_element(k, &d, sizeof d))`. The first `target` is the root itself.
  unfoldable pub add_element : List (Element D) → Bytes → D → Option (List (Element D))
  unfolding insert_behind
  add_element [] k d = none
  add_element (root ∷ rest) k d =
      if is_behind root.key k
      then Option.map (λ es. root ∷ es) (insert_behind rest k d)
      else if has_key k root.key
      then none
      else some (root ∷ new_element (some k) (some d) ∷ rest)

  -- The callers that ignore the result: the list after the call.
  unfoldable pub add_or_leave : List (Element D) → Bytes → D → List (Element D)
  unfolding add_element
  add_or_leave l k d = elim (add_element l k d) [ none ↦ l | some l' ↦ l' ]

  unfoldable pub get_element : List (Element D) → Bytes → Option (Element D)
  unfolding has_key
  get_element [] k = none
  get_element (traverse ∷ rest) k =
      if has_key k traverse.key then some traverse else get_element rest k

  -- `rem_element` of the element that `get_element` found for `k`.
  unfoldable pub rem_element : List (Element D) → Bytes → List (Element D)
  unfolding has_key
  rem_element [] k = []
  rem_element (e ∷ rest) k = if has_key k e.key then rest else e ∷ rem_element rest k

  -- An assignment through the `data` pointer of the element that `get_element` found for `k`.
  unfoldable pub update_element : List (Element D) → Bytes → (D → D) → List (Element D)
  unfolding has_key
  update_element [] k f = []
  update_element (e ∷ rest) k f =
      if has_key k e.key
      then record e { payload = Option.map f e.payload } ∷ rest
      else e ∷ update_element rest k f
