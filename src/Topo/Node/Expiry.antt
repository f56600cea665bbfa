-- ===== src/Topo/Node/Expiry.antt =====
-- The walks over the association table: `assoc_info_cleanup`, which drops silent pods,
-- `assoc_info_unset_chk_flag` and `assoc_info_remove_uncheck_node`.
use mathlib.Core.Option
use k8s.Common.{
  Bytes, ℕ, ◌+◌, ◌≡◌, refl, ◌||◌, Option, none, some, [], ◌∷◌, arith, length, ltb, ◌==◌,
  if◌then◌else◌,
}
use k8s.Elem.{Element, Verdict, keep, remove, list_element, relink}
use k8s.Elem.Lookup.{find}
use k8s.Elem.Order.{IsTable}
use k8s.Elem.Traverse.{IsPointwise, list_element-IsTable, list_element-find}
use k8s.Topo.Node.{
  NodeInfo, NodeList, assoc_clear_tm, assoc_info_clean_cb, assoc_info_cleanup, assoc_info_unset_cb,
  assoc_info_unset_chk_flag, assoc_info_remove_cb, assoc_info_remove_uncheck_node,
}

-- What a walk at time `now` leaves of a node.
abbrev pub unless_silent : ℕ → NodeInfo → Option NodeInfo
unless_silent now d =
    if d.heartbeat_tm == 0 || ltb now (d.heartbeat_tm + assoc_clear_tm) then some d else none

clean_cb-IsPointwise : (now : ℕ) → IsPointwise (assoc_info_clean_cb now) (unless_silent now)
unfolding assoc_info_clean_cb
clean_cb-IsPointwise now = record { root = λ a. refl; element = λ k d a. ground arith }

-- A walk of the cleanup keeps a node with its data where it is the OMP's, with no heartbeat time,
-- or was heard of less than 60 seconds ago, and removes every other node.
pub assoc_info_cleanup-find :
    (now : ℕ) {l : NodeList} (k : Bytes)
    → IsTable l
    → find (assoc_info_cleanup now l).0 k ≡ Option.bind (find l k) (unless_silent now)
unfolding assoc_info_cleanup
assoc_info_cleanup-find now k t = list_element-find (clean_cb-IsPointwise now) 0 k t

pub assoc_info_cleanup-IsTable :
    (now : ℕ) {l : NodeList} → IsTable l → IsTable (assoc_info_cleanup now l).0
unfolding assoc_info_cleanup
assoc_info_cleanup-IsTable now t = list_element-IsTable (clean_cb-IsPointwise now) 0 t

abbrev removals : Verdict NodeInfo → ℕ
removals (keep e) = 0
removals remove = 1

-- A callback that counts the elements that it removes.
abbrev IsCounting : (Element NodeInfo → ℕ → Verdict NodeInfo × ℕ) → Type 0
IsCounting cb = (e : Element NodeInfo) (n : ℕ) → (cb e n).1 ≡ n + removals (cb e n).0

relink_count :
    (v : Verdict NodeInfo) (r : NodeList × ℕ)
    → ((relink v r).1 ≡ r.1) × (length (relink v r).0 + removals v ≡ length r.0 + 1)
relink_count (keep e) r = omega arith
relink_count remove r = omega arith

list_element-count :
    (cb : Element NodeInfo → ℕ → Verdict NodeInfo × ℕ) (counting : IsCounting cb) (l : NodeList)
    (n : ℕ)
    → (list_element l cb n).1 + length (list_element l cb n).0 ≡ n + length l
unfolding list_element
list_element-count cb counting [] n = refl
list_element-count cb counting (e ∷ l) n =
    let r = cb e n in
    omega (
      arith,
      list_element-count cb counting l r.1,
      counting e n,
      relink_count r.0 (list_element l cb r.1),
    )

clean_cb-IsCounting : (now : ℕ) → IsCounting (assoc_info_clean_cb now)
unfolding assoc_info_clean_cb
clean_cb-IsCounting now e n = ground arith

-- The result of the cleanup is the number of nodes that it removed.
pub assoc_info_cleanup-count :
    (now : ℕ) (l : NodeList)
    → (assoc_info_cleanup now l).1 + length (assoc_info_cleanup now l).0 ≡ length l
unfolding assoc_info_cleanup
assoc_info_cleanup-count now l =
    omega (arith, list_element-count (assoc_info_clean_cb now) (clean_cb-IsCounting now) l 0)

-- The unset walk clears the check flag of every node.
unset_cb-IsPointwise : IsPointwise assoc_info_unset_cb (λ d. some (record d { chk_exist_flag = 0 }))
unfolding assoc_info_unset_cb
unset_cb-IsPointwise = record { root = λ a. refl; element = λ k d a. refl }

pub assoc_info_unset-find :
    {l : NodeList} (k : Bytes)
    → IsTable l
    → find (assoc_info_unset_chk_flag l) k
      ≡ Option.bind (find l k) (λ d. some (record d { chk_exist_flag = 0 }))
unfolding assoc_info_unset_chk_flag
assoc_info_unset-find k t = list_element-find unset_cb-IsPointwise tt k t

pub assoc_info_unset-IsTable : {l : NodeList} → IsTable l → IsTable (assoc_info_unset_chk_flag l)
unfolding assoc_info_unset_chk_flag
assoc_info_unset-IsTable t = list_element-IsTable unset_cb-IsPointwise tt t

abbrev pub if_checked : NodeInfo → Option NodeInfo
if_checked d = if d.chk_exist_flag == 0 then none else some d

remove_cb-IsPointwise : IsPointwise assoc_info_remove_cb if_checked
unfolding assoc_info_remove_cb
remove_cb-IsPointwise = record { root = λ a. refl; element = λ k d a. ground arith }

-- The removal walk keeps exactly the nodes whose check flag is set.
pub assoc_info_remove-find :
    {l : NodeList} (k : Bytes)
    → IsTable l
    → find (assoc_info_remove_uncheck_node l).0 k ≡ Option.bind (find l k) if_checked
unfolding assoc_info_remove_uncheck_node
assoc_info_remove-find k t = list_element-find remove_cb-IsPointwise 0 k t

pub assoc_info_remove-IsTable :
    {l : NodeList} → IsTable l → IsTable (assoc_info_remove_uncheck_node l).0
unfolding assoc_info_remove_uncheck_node
assoc_info_remove-IsTable t = list_element-IsTable remove_cb-IsPointwise 0 t

remove_cb-IsCounting : IsCounting assoc_info_remove_cb
unfolding assoc_info_remove_cb
remove_cb-IsCounting e n = ground arith

pub assoc_info_remove-count :
    (l : NodeList)
    → (assoc_info_remove_uncheck_node l).1 + length (assoc_info_remove_uncheck_node l).0 ≡ length l
unfolding assoc_info_remove_uncheck_node
assoc_info_remove-count l =
    omega (arith, list_element-count assoc_info_remove_cb remove_cb-IsCounting l 0)
