-- ===== src/LogTab/Commit.antt =====
-- The two phases of a commit on a table with a log file (`prepare_inner`, `commit_inner` and
-- `rollback_inner` of `FileMemTxn` in src/log_file_db.rs).
use pi_db.Snapshot.Kept.{get-commit_root}
use pi_db.Snapshot.{check_keys}
use pi_db.Snapshot.Checked.{check_keys-same, Sound}
use pi_db.OrdMap.{OrdMap}
use pi_db.Base.{Eq, ==-refl, nat_eq, list_eq, pair_eq, ℕ, ◌≡◌, Bool, some, [], arith}
use pi_db.Data.{Bytes, Bin, RwLog, error_prepare_null, ok, err}
use pi_db.HashMap.{HashMap, lookup}
use pi_db.HashMap.Laws.{lookup-remove, lookup-insert_self}
use pi_db.LogStore.File.{LogFile}
use pi_db.LogTab.{
  LogFileTab, FileMemTxn, prepare_inner, commit_inner, rollback_inner, same_ptr, write_logs,
}
use pi_db.Snapshot.Overlay.{overlay, Canonical, IsOverlay}

-- Two buffers at one address are one buffer, among the values of a table and of a snapshot.
abbrev pub IsHeap : {M : Type 0} {same : Bytes → Bytes → Bool} → OrdMap same Bin M → M → M → Type 0
IsHeap om m n =
    (k : Bytes) (v w : Bin) → om.get m k ≡ some v → om.get n k ≡ some w → v.ptr ≡ w.ptr → v ≡ w

module _ {M : Type 0} {same : Bytes → Bytes → Bool} (om : OrdMap same Bin M) where
  same_ptr-Sound : (root old : M) → IsHeap om root old → Sound om (same_ptr om) root old
  unfolding same_ptr
  same_ptr-Sound root old heap k v w p q h = ground (arith, heap k v w p q)

module _ {G M Atom F P : Type 0} ⦃eg : Eq G⦄ (time : G → ℕ) {same : Bytes → Bytes → Bool}
    (om : OrdMap same Bin M) (lf : LogFile F) where
  -- A successful preparation on a table with a log file has found the table, at every key of the
  -- transaction's log, with the value of the transaction's snapshot, if values at one address are
  -- one value. It hands the log over to the table and leaves the tree and the store as they were.
  pub log_prepare-ok :
      (now : ℕ) (txn : FileMemTxn G M) (tab : LogFileTab G M Atom F P)
      → IsHeap om tab.root txn.old
      → (prepare_inner time om lf now txn tab).0 ≡ ok tt
      → let (r, txn', tab') = prepare_inner time om lf now txn tab in
        ((k : Bytes) (l : RwLog)
          → lookup k txn.rwlog ≡ some l
          → om.get tab.root k ≡ om.get txn.old k)
        × (lookup txn.id tab'.prepare ≡ some txn.rwlog)
        × (txn'.rwlog ≡ [])
        × (tab'.root ≡ tab.root)
        × (tab'.store ≡ tab.store)
  unfolding prepare_inner
  log_prepare-ok now txn tab heap h = (
    λ k l e.
        check_keys-same time om (same_ptr om) now tab.root txn.old
          (same_ptr-Sound om tab.root txn.old heap) txn.rwlog tab.prepare k l (ground arith) e,
    ground (
      arith,
      lookup-insert_self txn.id txn.rwlog
          (check_keys time om (same_ptr om) now tab.root txn.old txn.rwlog tab.prepare).1,
    ),
    ground arith,
    ground arith,
    ground arith,
  )

  -- Let a transaction be prepared whose tree is its snapshot under its log. Its commit succeeds,
  -- gives back the log, and changes the table in memory as the log says and no other way; the
  -- preparation is gone, and the store is given the log. A second commit, and a commit after a
  -- rollback, fail and change neither the tree nor the store.
  pub log_commit-view :
      (canon : Canonical same) (txn : FileMemTxn G M) (tab : LogFileTab G M Atom F P)
      (log : HashMap Bytes RwLog)
      → IsOverlay om txn.root txn.old log
      → lookup txn.id tab.prepare ≡ some log
      → let (r, txn', tab') = commit_inner time om lf txn tab in
        let (again, _, tab'') = commit_inner time om lf txn tab' in
        let (undone, _, undone_tab) =
          commit_inner time om lf txn (rollback_inner time om lf txn tab).2 in
        (r ≡ ok log)
        × ((k : Bytes) → om.get tab'.root k ≡ overlay log k (om.get tab.root k))
        × (tab'.store ≡ write_logs lf log tab.store)
        × (again ≡ err error_prepare_null)
        × (tab''.root ≡ tab'.root)
        × (tab''.store ≡ tab'.store)
        × (undone ≡ err error_prepare_null)
        × (undone_tab.root ≡ tab.root)
        × (undone_tab.store ≡ tab.store)
  unfolding commit_inner rollback_inner
  log_commit-view canon txn tab log h e =
      let gone = lookup-remove txn.id txn.id tab.prepare in
      let self = ==-refl txn.id in
      (
        ground arith,
        λ k. ground (arith, get-commit_root om canon txn.root txn.old tab.root log k h),
        ground arith,
        ground (arith, gone, self),
        ground (arith, gone, self),
        ground (arith, gone, self),
        ground (arith, gone, self),
        ground (arith, gone, self),
        ground (arith, gone, self),
      )
