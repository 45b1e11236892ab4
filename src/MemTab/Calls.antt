-- ===== src/MemTab/Calls.antt =====
-- What a client's calls on a transaction in memory do (`query` and `modify` of `RefMemeryTxn` in
-- src/memery_db.rs).
use pi_db.Snapshot.Kept.{IsOverlay-upsert, IsOverlay-note_read, IsOverlay-delete}
use pi_db.Snapshot.Effect.{effect, answers}
use pi_db.OrdMap.{OrdMap}
use pi_db.Base.{
  if◌then◌else◌, Option-cases, Eq, ◌==◌, nat_eq, list_eqb_iff, list_eq, pair_eq, ℕ, ◌≡◌, refl, ap,
  ◌∙◌, inl, inr, Bool, List, [], ◌∷◌, arith,
}
use pi_db.Data.{Bytes, Bin, TabKv, ok}
use pi_db.MemTab.{MemeryTab, MemeryTxn, get, upsert, delete}
use pi_db.MemTab.Ref.{query, modify, modify_one}
use pi_db.Snapshot.Overlay.{Canonical, IsOverlay}

module _ {G M Atom : Type 0} ⦃eg : Eq G⦄ (time : G → ℕ) {same : Bytes → Bytes → Bool}
    (om : OrdMap same Bin M) where
  get-result :
      (k : Bytes) (txn : MemeryTxn G M) (tab : MemeryTab G M Atom)
      → (get time om k txn tab).0 ≡ om.get txn.root k
  unfolding get
  get-result k txn tab = ground arith

  root-get :
      (k : Bytes) (txn : MemeryTxn G M) (tab : MemeryTab G M Atom)
      → (get time om k txn tab).1.root ≡ txn.root
  unfolding get
  root-get k txn tab = ground arith

  -- A query of a table's transaction answers each item with the value that the transaction sees,
  -- in the order of the items, and changes no value.
  pub query-answers :
      (arr : List (TabKv Atom)) (txn : MemeryTxn G M) (tab : MemeryTab G M Atom)
      → ((query time om arr txn tab).0 ≡ answers (om.get txn.root) arr)
        × ((query time om arr txn tab).1.root ≡ txn.root)
  unfolding query answers
  query-answers [] txn tab = (refl, refl)
  query-answers (x ∷ arr) txn tab = ground (
    arith,
    get-result x.key txn tab,
    root-get x.key txn tab,
    query-answers arr (get time om x.key txn tab).1 (get time om x.key txn tab).2,
  )

  pub modify_one-ok :
      (x : TabKv Atom) (txn : MemeryTxn G M) (tab : MemeryTab G M Atom)
      → (modify_one time om x txn tab).0 ≡ ok tt
  unfolding upsert delete
  modify_one-ok x txn tab = ground arith

  module _ (canon : Canonical same) where
    modify_one-view :
        (x : TabKv Atom) (txn : MemeryTxn G M) (tab : MemeryTab G M Atom) (k : Bytes)
        → om.get (modify_one time om x txn tab).1.root k
          ≡ (if x.key == k then x.value else om.get txn.root k)
    unfolding upsert delete
    modify_one-view x txn tab k = elim (Option-cases x.value) [
      | inl e ↦
          rw e (ground (arith, list_eqb_iff x.key k, canon x.key k, om.get-delete txn.root x.key k))
      | inr (v, e) ↦
          rw e
            (ground (arith, list_eqb_iff x.key k, canon x.key k, om.get-upsert txn.root x.key k v))
    ]

    old-modify_one :
        (x : TabKv Atom) (txn : MemeryTxn G M) (tab : MemeryTab G M Atom)
        → ((modify_one time om x txn tab).1.old ≡ txn.old)
    unfolding upsert delete
    old-modify_one x txn tab = ground arith

    modify_one-IsOverlay :
        (x : TabKv Atom) (txn : MemeryTxn G M) (tab : MemeryTab G M Atom)
        → IsOverlay om txn.root txn.old txn.rwlog
        → let txn' = (modify_one time om x txn tab).1 in IsOverlay om txn'.root txn'.old txn'.rwlog
    unfolding upsert delete
    modify_one-IsOverlay x txn tab h = elim (Option-cases x.value) [
      | inl e ↦ rw e (IsOverlay-delete om canon txn.root txn.old txn.rwlog x.key h)
      | inr (v, e) ↦ rw e (IsOverlay-upsert om canon txn.root txn.old txn.rwlog x.key v h)
    ]

    get-IsOverlay :
        (k : Bytes) (txn : MemeryTxn G M) (tab : MemeryTab G M Atom)
        → IsOverlay om txn.root txn.old txn.rwlog
        → let txn' = (get time om k txn tab).1 in IsOverlay om txn'.root txn'.old txn'.rwlog
    unfolding get
    get-IsOverlay k txn tab h = elim (Option-cases (om.get txn.root k)) [
      | inl e ↦ rw (e, get) h
      | inr (v, e) ↦
          rw (e, get) (IsOverlay-note_read om canon txn.root txn.old txn.rwlog txn.writable k h)
    ]

    -- `modify` succeeds on every list of items, and leaves each key with the value of its last item,
    -- or with its former value if no item has the key. The tree stays the snapshot under the log.
    pub modify-effect :
        (arr : List (TabKv Atom)) (txn : MemeryTxn G M) (tab : MemeryTab G M Atom)
        → IsOverlay om txn.root txn.old txn.rwlog
        → let (r, txn', tab') = modify time om arr txn tab in
          (r ≡ ok tt)
          × ((k : Bytes) → om.get txn'.root k ≡ effect arr k (om.get txn.root k))
          × IsOverlay om txn'.root txn'.old txn'.rwlog
          × (txn'.old ≡ txn.old)
    unfolding modify effect
    modify-effect [] txn tab h = (refl, λ k. refl, h, refl)
    modify-effect (x ∷ arr) txn tab h =
        let (r, txn', tab') = modify_one time om x txn tab in
        let (done, view, kept, old) =
          modify-effect arr txn' tab' (modify_one-IsOverlay x txn tab h) in
        rw (modify_one-ok x txn tab, modify)
          (
            done,
            λ k. view k ∙ ap (effect arr k) (modify_one-view x txn tab k),
            kept,
            old ∙ old-modify_one x txn tab,
          )

    pub query-IsOverlay :
        (arr : List (TabKv Atom)) (txn : MemeryTxn G M) (tab : MemeryTab G M Atom)
        → IsOverlay om txn.root txn.old txn.rwlog
        → let txn' = (query time om arr txn tab).1 in IsOverlay om txn'.root txn'.old txn'.rwlog
    unfolding query
    query-IsOverlay [] txn tab h = h
    query-IsOverlay (x ∷ arr) txn tab h =
        let (v, txn', tab') = get time om x.key txn tab in
        query-IsOverlay arr txn' tab' (get-IsOverlay x.key txn tab h)
