-- ===== src/LogTab/Calls.antt =====
-- What a client's calls on a transaction of a table with a log file do (`query` and `modify` of
-- `RefLogFileTxn` in src/log_file_db.rs).
use pi_db.Snapshot.Kept.{IsOverlay-upsert, IsOverlay-delete}
use pi_db.Snapshot.Effect.{answers, effect}
use pi_db.OrdMap.{OrdMap}
use pi_db.Base.{
  if◌then◌else◌, Option-cases, ◌==◌, nat_eq, list_eqb_iff, list_eq, pair_eq, ◌≡◌, refl, ap, ◌∙◌,
  inl, inr, Bool, List, [], ◌∷◌, arith,
}
use pi_db.Data.{Bytes, Bin, TabKv, ok}
use pi_db.LogTab.{get, FileMemTxn, upsert, delete}
use pi_db.LogTab.Ref.{modify, modify_one, query}
use pi_db.Snapshot.Overlay.{Canonical, IsOverlay}

module _ {G M Atom : Type 0} {same : Bytes → Bytes → Bool} (om : OrdMap same Bin M)
    (canon : Canonical same) where
  modify_one-view :
      (x : TabKv Atom) (txn : FileMemTxn G M) (k : Bytes)
      → om.get (modify_one om x txn).1.root k ≡ (if x.key == k then x.value else om.get txn.root k)
  unfolding upsert delete
  modify_one-view x txn k = elim (Option-cases x.value) [
    | inl e ↦
        rw e (ground (arith, list_eqb_iff x.key k, canon x.key k, om.get-delete txn.root x.key k))
    | inr (v, e) ↦
        rw e (ground (arith, list_eqb_iff x.key k, canon x.key k, om.get-upsert txn.root x.key k v))
  ]

  modify_one-IsOverlay :
      (x : TabKv Atom) (txn : FileMemTxn G M)
      → IsOverlay om txn.root txn.old txn.rwlog
      → let txn' = (modify_one om x txn).1 in IsOverlay om txn'.root txn'.old txn'.rwlog
  unfolding upsert delete
  modify_one-IsOverlay x txn h = elim (Option-cases x.value) [
    | inl e ↦ rw e (IsOverlay-delete om canon txn.root txn.old txn.rwlog x.key h)
    | inr (v, e) ↦ rw e (IsOverlay-upsert om canon txn.root txn.old txn.rwlog x.key v h)
  ]

  modify_one-ok :
      (x : TabKv Atom) (txn : FileMemTxn G M)
      → ((modify_one om x txn).0 ≡ ok tt) × ((modify_one om x txn).1.old ≡ txn.old)
  unfolding upsert delete
  modify_one-ok x txn = (ground arith, ground arith)

  -- `modify` on a table with a log file succeeds on every list of items, leaves each key with the
  -- value of its last item, or with its former value if no item has the key, and keeps the tree
  -- equal to the snapshot under the log.
  pub log_modify-effect :
      (arr : List (TabKv Atom)) (txn : FileMemTxn G M)
      → IsOverlay om txn.root txn.old txn.rwlog
      → let (r, txn') = modify om arr txn in
        (r ≡ ok tt)
        × ((k : Bytes) → om.get txn'.root k ≡ effect arr k (om.get txn.root k))
        × IsOverlay om txn'.root txn'.old txn'.rwlog
        × (txn'.old ≡ txn.old)
  unfolding modify effect
  log_modify-effect [] txn h = (refl, λ k. refl, h, refl)
  log_modify-effect (x ∷ arr) txn h =
      let (r, txn') = modify_one om x txn in
      let (passed, kept_old) = modify_one-ok x txn in
      let (done, view, kept, old) = log_modify-effect arr txn' (modify_one-IsOverlay x txn h) in
      rw (passed, modify)
        (done, λ k. view k ∙ ap (effect arr k) (modify_one-view x txn k), kept, old ∙ kept_old)

module _ {G M : Type 0} {same : Bytes → Bytes → Bool} (om : OrdMap same Bin M) where
  get-view :
      (k : Bytes) (txn : FileMemTxn G M)
      → ((get om k txn).0 ≡ om.get txn.root k)
        × ((get om k txn).1.root ≡ txn.root)
        × ((get om k txn).1.old ≡ txn.old)
  unfolding get
  get-view k txn = (ground arith, ground arith, ground arith)

module _ {G M Atom : Type 0} {same : Bytes → Bytes → Bool} (om : OrdMap same Bin M) where
  pub log_query-answers :
      (arr : List (TabKv Atom)) (txn : FileMemTxn G M)
      → ((query om arr txn).0 ≡ answers (om.get txn.root) arr)
        × ((query om arr txn).1.root ≡ txn.root)
        × ((query om arr txn).1.old ≡ txn.old)
  unfolding query answers
  log_query-answers [] txn = (refl, refl, refl)
  log_query-answers (x ∷ arr) txn =
      ground (arith, get-view om x.key txn, log_query-answers arr (get om x.key txn).1)
