-- ===== src/Mgr/Answers.antt =====
-- A call's items on their way to the tables and back (`tab_map` and `merge_result` in src/mgr.rs).
use pi_db.Base.{
  Eq, nat_eq, list_eq, pair_eq, length, get_elem?, length-map, All, ℕ, zero, suc, ◌<◌, ◌≡◌, refl,
  sym, ap, ◌∙◌, ◌≢◌, true, Option, none, some, List, [], ◌∷◌, map, arith,
}
use pi_db.Data.{TabKv}
use pi_db.Fork.{usize_mod}
use pi_db.Mgr.Batch.{tab_map}
use pi_db.Mgr.Phases.{values}
use pi_db.Mgr.Order.{Fits, covers, total, covered, merge_all, merge_all-in_order}
use pi_db.Mgr.Grouping.{numbered, tab_map-groups}

module _ {Atom : Type 0} (answer : TabKv Atom → TabKv Atom)
    (kept : (x : TabKv Atom) → (answer x).index ≡ x.index) where
  get_elem?-map :
      (t : List (TabKv Atom)) (i : ℕ) (x : TabKv Atom)
      → get_elem? t i ≡ some x
      → get_elem? (map answer t) i ≡ some (answer x)
  get_elem?-map [] i x h = absurd (ground arith)
  get_elem?-map (y ∷ t) zero x h = ap (option_map answer) h
    where
      option_map : (TabKv Atom → TabKv Atom) → Option (TabKv Atom) → Option (TabKv Atom)
      option_map f none = none
      option_map f (some a) = some (f a)
  get_elem?-map (y ∷ t) (suc i) x h = get_elem?-map t i x h

  Fits-map : (t g : List (TabKv Atom)) → All (Fits t) g → All (Fits (map answer t)) (map answer g)
  Fits-map t [] h = tt
  Fits-map t (x ∷ g) ((i, at, there), h) =
      ((i, kept x ∙ at, get_elem?-map t i x there), Fits-map t g h)

  All-map :
      (t : List (TabKv Atom)) (gs : List (List (TabKv Atom)))
      → All (All (Fits t)) gs
      → All (All (Fits (map answer t))) (map (map answer) gs)
  All-map t [] h = tt
  All-map t (g ∷ gs) h = (Fits-map t g h.0, All-map t gs h.1)

  filled_map :
      (gs : List (List (TabKv Atom)))
      → All (λ (g : List (TabKv Atom)). length g ≢ 0) gs
      → All (λ (g : List (TabKv Atom)). length g ≢ 0) (map (map answer) gs)
  filled_map [] h = tt
  filled_map (g ∷ gs) h = (λ z. h.0 (sym (length-map answer g) ∙ z), filled_map gs h.1)

  total-map : (gs : List (List (TabKv Atom))) → total (map (map answer) gs) ≡ total gs
  total-map [] = refl
  total-map (g ∷ gs) = ground (arith, length-map answer g, total-map gs)

  covers-map : (j : ℕ) (g : List (TabKv Atom)) → covers j (map answer g) ≡ covers j g
  covers-map j [] = refl
  covers-map j (x ∷ g) = ground (arith, kept x, covers-map j g)

  covered-map :
      (j : ℕ) (gs : List (List (TabKv Atom))) → covered j (map (map answer) gs) ≡ covered j gs
  covered-map j [] = refl
  covered-map j (g ∷ gs) = ground (arith, covers-map j g, covered-map j gs)

  groups_in_order :
      (t v : List (TabKv Atom)) (gs : List (List (TabKv Atom)))
      → All (All (Fits t)) gs
      → All (λ (g : List (TabKv Atom)). length g ≢ 0) gs
      → total gs ≡ length t
      → ((j : ℕ) → j < length t → covered j gs ≡ true)
      → length t ≢ 0
      → length t < usize_mod
      → length v ≡ length t
      → merge_all (map (map answer) gs) (length t, v) [] ≡ some (map answer t)
  groups_in_order t v [] fits filled sum every z b e = absurd (z (sym sum))
  groups_in_order t v (g ∷ gs) fits filled sum every z b e =
      let n = length-map answer t in
      ap (λ k. merge_all (map (map answer) (g ∷ gs)) (k, v) []) (sym n)
      ∙ merge_all-in_order (map answer t) (map answer g) v (map (map answer) gs)
          (filled_map (g ∷ gs) filled) (All-map t (g ∷ gs) fits)
          (λ j q. covered-map j (g ∷ gs) ∙ every j (omega arith))
          (n ∙ sym sum ∙ sym (total-map (g ∷ gs))) (omega arith) (e ∙ sym n)

module _ {Atom : Type 0} where
  pub length-numbered : (n : ℕ) (arr : List (TabKv Atom)) → length (numbered n arr) ≡ length arr
  length-numbered n [] = refl
  length-numbered n (x ∷ arr) = ap suc (length-numbered (suc n) arr)

module _ {Atom : Type 0} ⦃ea : Eq Atom⦄ where
  -- Let a call's items be grouped by `tab_map`, and let each table answer its items in the order of its
  -- group, keeping their positions. Then the loop of `query` over the answers ends without a panic
  -- with every item and its answer, in the order of the call, as long as it has an item and fewer
  -- than the bound of `usize`.
  pub tab_map-merge_all :
      (answer : TabKv Atom → TabKv Atom) (arr v : List (TabKv Atom))
      → ((x : TabKv Atom) → (answer x).index ≡ x.index)
      → length arr ≢ 0
      → length arr < usize_mod
      → length v ≡ length arr
      → merge_all (map (map answer) (values (tab_map arr))) (length arr, v) []
        ≡ some (map answer (numbered 1 arr))
  tab_map-merge_all answer arr v kept z b e =
      let (fits, filled, sum, every) = tab_map-groups arr in
      let n = length-numbered 1 arr in
      ap (λ k. merge_all (map (map answer) (values (tab_map arr))) (k, v) []) (sym n)
      ∙ groups_in_order answer kept (numbered 1 arr) v (values (tab_map arr)) fits filled
          (sum ∙ sym n) (λ j q. every j (omega arith)) (λ q. z (sym n ∙ q)) (omega arith)
          (e ∙ sym n)
