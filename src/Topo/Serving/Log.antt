-- ===== src/Topo/Serving/Log.antt =====
-- What the server of src/topo/main.c was told, up to the order between the names.
use mathlib.Core.Quot
use mathlib.Core.Quot.{Quot}
use k8s.Common.{Bytes, ◌≡◌, refl, sym, ap, ◌∙◌, true, false, Option, List, [], ◌∷◌, ◌++◌, arith}
use k8s.Elem.Lookup.{find}
use k8s.Elem.Order.{IsTable}
use k8s.Topo.Node.{NodeInfo, NodeList}
use k8s.Topo.Serving.{ServerEvent, tables_after}
use k8s.Topo.Serving.ByName.{
  replay, tables_after-replay, concerns, only, replay-by_name, tables_after-by_name,
}

-- Two sequences of events agree for each name on the turns of the timer and its reports.
abbrev pub SameByName : List ServerEvent → List ServerEvent → Type 0
SameByName es fs = (j : Bytes) → only j es ≡ only j fs

abbrev pub Log : Type 0
Log = Quot SameByName

abbrev pub log : List ServerEvent → Log
log = Quot.mk

only-append : (j : Bytes) (es fs : List ServerEvent) → only j (es ++ fs) ≡ only j es ++ only j fs
unfolding only
only-append j [] fs = refl
only-append j (e ∷ es) fs = ground (arith, only-append j es fs)

only-pair :
    (j : Bytes) (a b : ServerEvent) (fs : List ServerEvent)
    → (concerns j a ≡ true → concerns j b ≡ false)
    → only j (a ∷ b ∷ fs) ≡ only j (b ∷ a ∷ fs)
unfolding only
only-pair j a b fs apart = ground (arith, apart)

-- Two events that concern no name both can change places.
pub only-swap :
    (es : List ServerEvent) (a b : ServerEvent) (fs : List ServerEvent)
    → ((j : Bytes) → concerns j a ≡ true → concerns j b ≡ false)
    → SameByName (es ++ a ∷ b ∷ fs) (es ++ b ∷ a ∷ fs)
only-swap es a b fs apart j =
    only-append j es (a ∷ b ∷ fs)
    ∙ ap (λ r. only j es ++ r) (only-pair j a b fs (apart j))
    ∙ sym (only-append j es (b ∷ a ∷ fs))

pub log-swap :
    (es : List ServerEvent) (a b : ServerEvent) (fs : List ServerEvent)
    → ((j : Bytes) → concerns j a ≡ true → concerns j b ≡ false)
    → log (es ++ a ∷ b ∷ fs) ≡ log (es ++ b ∷ a ∷ fs)
log-swap es a b fs apart = Quot.sound (only-swap es a b fs apart)

module _ {start : NodeList} (t : IsTable start) where
  -- The table of a server, a function of what it was told.
  unfoldable pub log_table : Log → NodeList
  log_table =
      Quot.lift (hlevel) (λ es. tables_after es start)
        λ es fs same. tables_after-by_name es fs t same

  -- The entry under a name, a function of the same.
  unfoldable pub log_entry : Bytes → Log → Option NodeInfo
  log_entry j =
      Quot.lift (hlevel) (λ es. replay j es (find start j))
        λ es fs same. replay-by_name j es fs (find start j) (same j)

  pub log_table-find : (j : Bytes) (q : Log) → find (log_table q) j ≡ log_entry j q
  unfolding log_table log_entry
  log_table-find j = Quot.ind (λ q. hlevel) λ es. (tables_after-replay es t).1 j
