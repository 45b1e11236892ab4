-- ===== src/Mgr/Grouping.antt =====
-- How the items of a call are grouped by table (`tab_map` in src/mgr.rs).
use pi_db.Base.{
  nat_eqb, Bool-cases, Option-cases, Eq, ◌==◌, nat_eq, list_eq, pair_eq, length, get_elem?,
  length-append, All, ℕ, zero, suc, ◌+◌, ◌≤◌, ◌<◌, ◌≡◌, refl, ap, ◌∙◌, ◌≢◌, inl, inr, Bool, true,
  ◌||◌, none, some, List, [], ◌∷◌, ◌++◌, arith,
}
use pi_db.Data.{TabKv}
use pi_db.HashMap.{HashMap, lookup, insert}
use pi_db.Mgr.Batch.{Groups, push_item, tab_map_from, tab_map}
use pi_db.Mgr.Phases.{values}
use pi_db.Mgr.Order.{Fits, covers, total, covered}

module _ {K V : Type 0} ⦃e : Eq K⦄ (P : V → Type 0) where
  All-insert :
      (k : K) (v : V) (m : HashMap K V) → P v → All P (values m) → All P (values (insert k v m))
  unfolding insert
  All-insert k v [] p h = (p, tt)
  All-insert k v ((j, w) ∷ m) p h = elim (Bool-cases (j == k)) [
    | inl t ↦ rw t (p, h.1)
    | inr f ↦ rw f (h.0, All-insert k v m p h.1)
  ]

  All-lookup : (k : K) (v : V) (m : HashMap K V) → lookup k m ≡ some v → All P (values m) → P v
  unfolding lookup
  All-lookup k v [] q h = absurd (ground arith)
  All-lookup k v ((j, w) ∷ m) q h = elim (Bool-cases (j == k)) [
    | inl t ↦ let same : w ≡ v = ground arith in rw⁻¹ same h.0
    | inr f ↦ All-lookup k v m (ground arith) h.1
  ]

module _ {A : Type 0} (P : A → Type 0) where
  All-append : (xs ys : List A) → All P xs → All P ys → All P (xs ++ ys)
  All-append [] ys a b = b
  All-append (x ∷ xs) ys a b = (a.0, All-append xs ys a.1 b)

module _ {Atom : Type 0} where
  -- the items with their positions, from `n` on
  abbrev pub numbered : ℕ → List (TabKv Atom) → List (TabKv Atom)
  numbered n [] = []
  numbered n (x ∷ xs) = record x { index = n } ∷ numbered (suc n) xs

  index-numbered :
      (n i : ℕ) (arr : List (TabKv Atom)) (x : TabKv Atom)
      → get_elem? (numbered n arr) i ≡ some x
      → x.index ≡ n + i
  index-numbered n i [] x h = absurd (ground arith)
  index-numbered n zero (y ∷ arr) x h = ground arith
  index-numbered n (suc i) (y ∷ arr) x h = let ih = index-numbered (suc n) i arr x h in omega arith

  covers-append :
      (j : ℕ) (xs ys : List (TabKv Atom)) → covers j (xs ++ ys) ≡ (covers j xs || covers j ys)
  covers-append j [] ys = refl
  covers-append j (x ∷ xs) ys = ground (arith, covers-append j xs ys)

module _ {Atom : Type 0} ⦃ea : Eq Atom⦄ where
  total-insert_new :
      (k : Atom × Atom) (v : List (TabKv Atom)) (m : Groups Atom)
      → lookup k m ≡ none
      → total (values (insert k v m)) ≡ total (values m) + length v
  unfolding insert lookup
  total-insert_new k v [] h = ground arith
  total-insert_new k v ((j, w) ∷ m) h = ground (arith, total-insert_new k v m)

  total-insert_old :
      (k : Atom × Atom) (v r : List (TabKv Atom)) (m : Groups Atom)
      → lookup k m ≡ some r
      → total (values (insert k v m)) + length r ≡ total (values m) + length v
  unfolding insert lookup
  total-insert_old k v r [] h = ground arith
  total-insert_old k v r ((j, w) ∷ m) h = ground (arith, total-insert_old k v r m)

  covered-insert_new :
      (i : ℕ) (k : Atom × Atom) (v : List (TabKv Atom)) (m : Groups Atom)
      → lookup k m ≡ none
      → covered i (values (insert k v m)) ≡ (covers i v || covered i (values m))
  unfolding insert lookup
  covered-insert_new i k v [] h = ground arith
  covered-insert_new i k v ((j, w) ∷ m) h = ground (arith, covered-insert_new i k v m)

  covered-insert_old :
      (i : ℕ) (k : Atom × Atom) (v r : List (TabKv Atom)) (b : Bool) (m : Groups Atom)
      → lookup k m ≡ some r
      → covers i v ≡ (b || covers i r)
      → covered i (values (insert k v m)) ≡ (b || covered i (values m))
  unfolding insert lookup
  covered-insert_old i k v r b [] h c = ground arith
  covered-insert_old i k v r b ((j, w) ∷ m) h c = ground (arith, covered-insert_old i k v r b m)

  -- one more item
  total-push_item :
      (x : TabKv Atom) (m : Groups Atom) → total (values (push_item x m)) ≡ suc (total (values m))
  unfolding push_item
  total-push_item x m = elim (Option-cases (lookup (x.ware, x.tab) m)) [
    | inl h ↦ rw (h, push_item) (ground (arith, total-insert_new (x.ware, x.tab) (x ∷ []) m h))
    | inr (r, h) ↦
        rw (h, push_item)
          (ground (
            arith,
            total-insert_old (x.ware, x.tab) (r ++ (x ∷ [])) r m h,
            length-append r (x ∷ []),
          ))
  ]

  covered-push_item :
      (i : ℕ) (x : TabKv Atom) (m : Groups Atom)
      → covered i (values (push_item x m)) ≡ (nat_eqb x.index (suc i) || covered i (values m))
  unfolding push_item
  covered-push_item i x m = elim (Option-cases (lookup (x.ware, x.tab) m)) [
    | inl h ↦ rw (h, push_item) (ground (arith, covered-insert_new i (x.ware, x.tab) (x ∷ []) m h))
    | inr (r, h) ↦
        rw (h, push_item)
          (covered-insert_old i (x.ware, x.tab) (r ++ (x ∷ [])) r (nat_eqb x.index (suc i)) m h
            (ground (arith, covers-append i r (x ∷ []))))
  ]

  All-push_item :
      (P : TabKv Atom → Type 0) (x : TabKv Atom) (m : Groups Atom)
      → P x
      → All (All P) (values m)
      → All (All P) (values (push_item x m))
  unfolding push_item
  All-push_item P x m p h = elim (Option-cases (lookup (x.ware, x.tab) m)) [
    | inl q ↦ rw (q, push_item) (All-insert (All P) (x.ware, x.tab) (x ∷ []) m (p, tt) h)
    | inr (r, q) ↦
        rw (q, push_item)
          (All-insert (All P) (x.ware, x.tab) (r ++ (x ∷ [])) m
            (All-append P r (x ∷ []) (All-lookup (All P) (x.ware, x.tab) r m q h) (p, tt)) h)
  ]

  filled-push_item :
      (x : TabKv Atom) (m : Groups Atom)
      → All (λ (g : List (TabKv Atom)). length g ≢ 0) (values m)
      → All (λ (g : List (TabKv Atom)). length g ≢ 0) (values (push_item x m))
  unfolding push_item
  filled-push_item x m h = elim (Option-cases (lookup (x.ware, x.tab) m)) [
    | inl q ↦
        rw (q, push_item)
          (All-insert (λ (g : List (TabKv Atom)). length g ≢ 0) (x.ware, x.tab) (x ∷ []) m
            (λ z. ground arith) h)
    | inr (r, q) ↦
        rw (q, push_item)
          (All-insert (λ (g : List (TabKv Atom)). length g ≢ 0) (x.ware, x.tab) (r ++ (x ∷ [])) m
            (λ z. ground (arith, length-append r (x ∷ []))) h)
  ]

  grouped :
      (P : TabKv Atom → Type 0) (n : ℕ) (arr : List (TabKv Atom))
      → ((i : ℕ) (x : TabKv Atom) → get_elem? (numbered n arr) i ≡ some x → P x)
      → All (All P) (values (tab_map_from n arr))
        × All (λ (g : List (TabKv Atom)). length g ≢ 0) (values (tab_map_from n arr))
        × (total (values (tab_map_from n arr)) ≡ length arr)
        × ((j : ℕ)
            → n ≤ suc j
            → suc j < n + length arr
            → covered j (values (tab_map_from n arr)) ≡ true)
  unfolding tab_map_from
  grouped P n [] h = (tt, tt, refl, λ j a b. absurd (omega arith))
  grouped P n (x ∷ arr) h =
      let y : TabKv Atom = record x { index = n } in
      let m = tab_map_from (suc n) arr in
      let (fits, filled, sum, every) = grouped P (suc n) arr (λ i. h (suc i)) in
      (
        All-push_item P y m (h 0 y refl) fits,
        filled-push_item y m filled,
        total-push_item y m ∙ ap suc sum,
        λ j a b. ground (arith, covered-push_item j y m, every j),
      )

  -- `tab_map` puts every item, with its position counted from 1, into one group, no group is empty,
  -- and the groups have as many items together as the call.
  pub tab_map-groups :
      (arr : List (TabKv Atom))
      → All (All (Fits (numbered 1 arr))) (values (tab_map arr))
        × All (λ (g : List (TabKv Atom)). length g ≢ 0) (values (tab_map arr))
        × (total (values (tab_map arr)) ≡ length arr)
        × ((j : ℕ) → j < length arr → covered j (values (tab_map arr)) ≡ true)
  unfolding tab_map
  tab_map-groups arr =
      let (fits, filled, sum, every) =
        grouped (Fits (numbered 1 arr)) 1 arr
          (λ i x h. (i, (let at = index-numbered 1 i arr x h in omega arith), h)) in
      (fits, filled, sum, λ j b. every j (omega arith) (omega arith))
