-- ===== src/Snapshot/Overlay.antt =====
-- The effect of a log on a tree, key by key, and its agreement with the loop that applies the log.
use pi_db.Base.{
  nat_eq, list_eqb_iff, list_eq, pair_eq, ◌≡◌, refl, ◌↔◌, Bool, true, Option, none, some, [], ◌∷◌,
  arith,
}
use pi_db.Data.{Bytes, Bin, RwLog, read, write, meta}
use pi_db.HashMap.{HashMap, lookup}
use pi_db.Snapshot.{apply_log}
use pi_db.HashMap.Laws.{Distinct}
use pi_db.OrdMap.{OrdMap}

-- Keys that the tree's order calls equal are the same bytes.
abbrev pub Canonical : (Bytes → Bytes → Bool) → Type 0
Canonical same = (a b : Bytes) → (same a b ≡ true) ↔ (a ≡ b)

-- The value of a key after a log, from the value before it.
abbrev pub overlay_one : Option RwLog → Option Bin → Option Bin
overlay_one (some (write v)) o = v
overlay_one (some read) o = o
overlay_one (some (meta _)) o = o
overlay_one none o = o

abbrev pub overlay : HashMap Bytes RwLog → Bytes → Option Bin → Option Bin
overlay log k o = overlay_one (lookup k log) o

module _ {M : Type 0} {same : Bytes → Bytes → Bool} (om : OrdMap same Bin M)
    (canon : Canonical same) where
  -- The loop has the effect of the log, in whichever order the map yields its entries.
  pub get-apply_log :
      (log : HashMap Bytes RwLog) (root : M) (k : Bytes)
      → Distinct log
      → om.get (apply_log om log root) k ≡ overlay log k (om.get root k)
  unfolding apply_log lookup
  get-apply_log [] root k d = refl
  get-apply_log ((j, read) ∷ rest) root k d =
      ground (arith, get-apply_log rest root k d.1, list_eqb_iff j k)
  get-apply_log ((j, meta m) ∷ rest) root k d =
      ground (arith, get-apply_log rest root k d.1, list_eqb_iff j k)
  get-apply_log ((j, write none) ∷ rest) root k d = ground (
    arith,
    get-apply_log rest (om.delete root j) k d.1,
    om.get-delete root j k,
    canon j k,
    list_eqb_iff j k,
  )
  get-apply_log ((j, write (some v)) ∷ rest) root k d = ground (
    arith,
    get-apply_log rest (om.upsert root j v) k d.1,
    om.get-upsert root j k v,
    canon j k,
    list_eqb_iff j k,
  )

module _ {M : Type 0} {same : Bytes → Bytes → Bool} (om : OrdMap same Bin M) where
  -- A transaction's tree is its snapshot under its log.
  pub record IsOverlay (root old : M) (log : HashMap Bytes RwLog) : Type 0 where
    pub distinct : Distinct log
    pub view : (k : Bytes) → om.get root k ≡ overlay log k (om.get old k)
