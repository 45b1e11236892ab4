-- ===== src/Snapshot/Effect.antt =====
-- The specification of a list of modifications and of a list of queries, as functions of the
-- values of the keys.
use pi_db.Base.{if◌then◌else◌, ◌==◌, nat_eq, list_eq, pair_eq, Option, List, [], ◌∷◌}
use pi_db.Data.{Bytes, Bin, TabKv}

module _ {Atom : Type 0} where
  -- The value of a key after the modifications in order: the last one of the key counts.
  unfoldable pub effect : List (TabKv Atom) → Bytes → Option Bin → Option Bin
  effect [] k o = o
  effect (x ∷ arr) k o = effect arr k (if x.key == k then x.value else o)

  -- The items of a query with their values.
  unfoldable pub answers : (Bytes → Option Bin) → List (TabKv Atom) → List (TabKv Atom)
  answers f [] = []
  answers f (x ∷ arr) = record x { value = f x.key } ∷ answers f arr
