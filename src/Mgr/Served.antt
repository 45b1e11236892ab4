-- ===== src/Mgr/Served.antt =====
-- The groups of a call whose tables all have a transaction (`tab_map` and `build` in src/mgr.rs).
use pi_db.Base.{
  Bool-cases, Option-cases, Eq, ◌==◌, nat_eq, list_eq, pair_eq, All, ℕ, suc, ◌≡◌, refl, sym, inl,
  inr, Option, none, some, List, [], ◌∷◌, ◌++◌, map, arith,
}
use pi_db.Data.{Bytes, Bin, TabKv, ok}
use pi_db.HashMap.{HashMap, lookup, insert}
use pi_db.Mgr.{Database, Tr, build}
use pi_db.Mgr.Batch.{Groups, push_item, tab_map_from}
use pi_db.Snapshot.Effect.{answers}

module _ {K V : Type 0} ⦃e : Eq K⦄ (P : K × V → Type 0) where
  entries-insert : (k : K) (v : V) (m : HashMap K V) → P (k, v) → All P m → All P (insert k v m)
  unfolding insert
  entries-insert k v [] p h = (p, tt)
  entries-insert k v ((j, w) ∷ m) p h = elim (Bool-cases (j == k)) [
    | inl t ↦ let same : j ≡ k = (e.beq_iff j k).0 t in rw t (rw same p, h.1)
    | inr f ↦ rw f (h.0, entries-insert k v m p h.1)
  ]

  entries-lookup : (k : K) (v : V) (m : HashMap K V) → lookup k m ≡ some v → All P m → P (k, v)
  unfolding lookup
  entries-lookup k v [] q h = absurd (ground arith)
  entries-lookup k v ((j, w) ∷ m) q h = elim (Bool-cases (j == k)) [
    | inl t ↦
        let same : j ≡ k = (e.beq_iff j k).0 t in
        let is_v : w ≡ v = ground arith in rw (sym same, sym is_v) h.0
    | inr f ↦ entries-lookup k v m (ground arith) h.1
  ]

module _ {Atom : Type 0} where
  All-snoc :
      (key : Atom × Atom) (g : List (TabKv Atom)) (x : TabKv Atom)
      → All (λ (y : TabKv Atom). (y.ware, y.tab) ≡ key) g
      → (x.ware, x.tab) ≡ key
      → All (λ (y : TabKv Atom). (y.ware, y.tab) ≡ key) (g ++ (x ∷ []))
  All-snoc key [] x h e = (e, tt)
  All-snoc key (y ∷ g) x h e = (h.0, All-snoc key g x h.1 e)

module _ {Txn Atom : Type 0} ⦃ea : Eq Atom⦄ where
  -- The table of a group has a transaction, and every item of the group is of the table.
  abbrev pub IsServed : HashMap (Atom × Atom) Txn → (Atom × Atom) × List (TabKv Atom) → Type 0
  IsServed txns (key, g) =
      ((t : Txn) × (lookup key txns ≡ some t)) × All (λ (x : TabKv Atom). (x.ware, x.tab) ≡ key) g

  -- the table of an item has a transaction
  abbrev pub HasTxn : HashMap (Atom × Atom) Txn → TabKv Atom → Type 0
  HasTxn txns x = (t : Txn) × (lookup (x.ware, x.tab) txns ≡ some t)

  push_item-IsServed :
      (txns : HashMap (Atom × Atom) Txn) (x : TabKv Atom) (m : Groups Atom)
      → HasTxn txns x
      → All (IsServed txns) m
      → All (IsServed txns) (push_item x m)
  unfolding push_item
  push_item-IsServed txns x m t h = elim (Option-cases (lookup (x.ware, x.tab) m)) [
    | inl e ↦
        rw (push_item, e)
          (entries-insert (IsServed txns) (x.ware, x.tab) (x ∷ []) m (t, (refl, tt)) h)
    | inr (r, e) ↦
        let (u, all) = entries-lookup (IsServed txns) (x.ware, x.tab) r m e h in
        rw (push_item, e)
          (entries-insert (IsServed txns) (x.ware, x.tab) (r ++ (x ∷ [])) m
            (t, All-snoc (x.ware, x.tab) r x all refl) h)
  ]

  pub tab_map_from-IsServed :
      (txns : HashMap (Atom × Atom) Txn) (n : ℕ) (arr : List (TabKv Atom))
      → All (HasTxn txns) arr
      → All (IsServed txns) (tab_map_from n arr)
  unfolding tab_map_from
  tab_map_from-IsServed txns n [] h = tt
  tab_map_from-IsServed txns n (x ∷ arr) h =
      push_item-IsServed txns (record x { index = n }) (tab_map_from (suc n) arr) h.0
        (tab_map_from-IsServed txns (suc n) arr h.1)

  -- an item with the value that the transaction of its table sees
  abbrev pub answer :
      (Txn → Bytes → Option Bin) → HashMap (Atom × Atom) Txn → TabKv Atom → TabKv Atom
  answer f txns x = record x {
    value = elim (lookup (x.ware, x.tab) txns) [ none ↦ none | some t ↦ f t x.key ];
  }

  pub answers-answer :
      (f : Txn → Bytes → Option Bin) (txns : HashMap (Atom × Atom) Txn) (key : Atom × Atom)
      (t : Txn) (h : Bytes → Option Bin) (g : List (TabKv Atom))
      → lookup key txns ≡ some t
      → All (λ (x : TabKv Atom). (x.ware, x.tab) ≡ key) g
      → ((k : Bytes) → h k ≡ f t k)
      → answers h g ≡ map (answer f txns) g
  unfolding answers
  answers-answer f txns key t h [] e a p = refl
  answers-answer f txns key t h (x ∷ g) e a p =
      let there : lookup (x.ware, x.tab) txns ≡ some t = rw a.0 e in
      ground (arith, there, p x.key, answers-answer f txns key t h g e a.1 p)

module _ {W Ware Txn Meta G Atom EnumType : Type 0} ⦃ea : Eq Atom⦄
    (db : Database W Ware Txn Meta G Atom EnumType) where
  pub build_known :
      (ware tab : Atom) (tr : Tr Ware Txn Meta G Atom EnumType) (w : W) (t : Txn)
      → lookup (ware, tab) tr.tab_txns ≡ some t
      → build db ware tab tr w ≡ (ok t, tr, w)
  unfolding build
  build_known ware tab tr w t e = rw (build, e) refl
