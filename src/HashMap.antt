-- ===== src/HashMap.antt =====
-- The standard `HashMap` (`XHashMap` is one with another hasher): an association list with distinct
-- keys. The order of a map's iteration is the order of the list; theorems that iterate hold for
-- every list, so for every order.
pub mod Laws
use pi_db.Base.{Option, none, some, List, [], ◌∷◌, Eq, ◌==◌, Bool, if◌then◌else◌}

abbrev pub HashMap : Type 0 → Type 0 → Type 0
HashMap K V = List (K × V)

module _ {K V : Type 0} ⦃e : Eq K⦄ where
  -- `get`
  unfoldable pub lookup : K → HashMap K V → Option V
  lookup k [] = none
  lookup k ((j, v) ∷ m) = if j == k then some v else lookup k m

  -- `insert`, which replaces the value of a key that is there
  unfoldable pub insert : K → V → HashMap K V → HashMap K V
  insert k v [] = (k, v) ∷ []
  insert k v ((j, w) ∷ m) = if j == k then (j, v) ∷ m else (j, w) ∷ insert k v m

  -- `remove`
  unfoldable pub remove : K → HashMap K V → HashMap K V
  remove k [] = []
  remove k ((j, w) ∷ m) = let rest = remove k m in if j == k then rest else (j, w) ∷ rest
