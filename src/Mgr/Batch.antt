-- ===== src/Mgr/Batch.antt =====
-- The end of src/mgr.rs: the items of a call are grouped by table (`tab_map`), and the answers of the
-- tables are put together in the order of the items (`merge_result`).
use pi_db.Base.{
  nat_eqb, if◌then◌else◌, Eq, nat_eq, list_eq, pair_eq, length, ℕ, zero, suc, ◌+◌, ◌-◌, ◌%◌, Option,
  none, some, List, [], ◌∷◌, ◌++◌, map,
}
use pi_db.Data.{len, TabKv}
use pi_db.HashMap.{HashMap, lookup, insert}
use pi_db.Fork.{usize_mod}

abbrev pub Groups : Type 0 → Type 0
Groups Atom = HashMap (Atom × Atom) (List (TabKv Atom))

module _ {Atom : Type 0} ⦃ea : Eq Atom⦄ where
  -- `map.entry(..).or_insert(Vec::new())`, then `push`
  unfoldable pub push_item : TabKv Atom → Groups Atom → Groups Atom
  unfolding lookup insert
  push_item tk map = elim (lookup (tk.ware, tk.tab) map) [
    | none ↦ insert (tk.ware, tk.tab) (tk ∷ []) map
    | some r ↦ insert (tk.ware, tk.tab) (r ++ (tk ∷ [])) map
  ]

  -- the items from position `len` on: the last one is taken first
  unfoldable pub tab_map_from : ℕ → List (TabKv Atom) → Groups Atom
  unfolding push_item
  tab_map_from len [] = []
  tab_map_from len (tk ∷ arr) = push_item (record tk { index = len }) (tab_map_from (suc len) arr)

  unfoldable pub tab_map : List (TabKv Atom) → Groups Atom
  unfolding tab_map_from
  tab_map arr = tab_map_from 1 arr

-- `v[i] = a`, which panics out of range
unfoldable pub set_at : {A : Type 0} → ℕ → A → List A → Option (List A)
set_at i a [] = none
set_at zero a (x ∷ xs) = some (a ∷ xs)
set_at (suc i) a (x ∷ xs) =
    let rest = set_at i a xs in elim rest [ none ↦ none | some l ↦ some (x ∷ l) ]

module _ {Atom : Type 0} where
  -- `t.1[i] = r` for `i = r.index - 1`, which panics if the index is 0
  abbrev pub place_one : ℕ → TabKv Atom → List (TabKv Atom) → Option (List (TabKv Atom))
  place_one zero r v = none
  place_one (suc i) r v = set_at i r v

  unfoldable pub place_all : List (TabKv Atom) → List (TabKv Atom) → Option (List (TabKv Atom))
  unfolding set_at
  place_all [] v = some v
  place_all (r ∷ vec) v = elim (place_one r.index r v) [ none ↦ none | some v' ↦ place_all vec v' ]

  -- The count of the answers that are missing and the answers so far go in and out; the result is
  -- all answers once none is missing.
  unfoldable pub merge_result :
      ℕ × List (TabKv Atom)
      → List (TabKv Atom)
      → Option (List (TabKv Atom) × (ℕ × List (TabKv Atom)))
  unfolding place_all
  merge_result (missing, v) vec =
      let missing' = (missing + (usize_mod - length vec)) % usize_mod in
      elim (place_all vec v) [
        | none ↦ none
        | some v' ↦ some (if nat_eqb missing' 0 then (v', (missing', [])) else ([], (missing', v')))
      ]
