-- ===== src/LogTab/Alone.antt =====
-- The two phases of a transaction that is alone on its table with a log file, through the calls of
-- `RefLogFileTxn` (src/log_file_db.rs).
use pi_db.Base.{Eq, nat_eq, list_eq, pair_eq, ℕ, ◌≡◌, Bool, some, [], arith}
use pi_db.Data.{Bytes, Bin, RwLog, ok, prepar_ok, committing, commited}
use pi_db.HashMap.{HashMap, lookup}
use pi_db.HashMap.Laws.{lookup-insert_self}
use pi_db.OrdMap.{OrdMap}
use pi_db.LogStore.File.{LogFile}
use pi_db.LogTab.{LogFileTab, FileMemTxn, prepare_inner, same_ptr}
use pi_db.LogTab.Ref.{prepare, commit}
use pi_db.LogTab.Commit.{log_commit-view}
use pi_db.MemTab.Session.{check_keys-clear}
use pi_db.Snapshot.Overlay.{overlay, Canonical, IsOverlay}

module _ {G M Atom F P : Type 0} ⦃eg : Eq G⦄ (time : G → ℕ) {same : Bytes → Bytes → Bool}
    (om : OrdMap same Bin M) (lf : LogFile F) where
  pub log_prepared_alone :
      (now : ℕ) (txn : FileMemTxn G M) (tab : LogFileTab G M Atom F P)
      → tab.prepare ≡ []
      → tab.root ≡ txn.old
      → let (r, txn', tab') = prepare time om lf now txn tab in
        (r ≡ ok tt)
        × (txn'.state ≡ prepar_ok)
        × (tab'.root ≡ tab.root)
        × (lookup txn'.id tab'.prepare ≡ some txn.rwlog)
        × (txn'.id ≡ txn.id)
        × (txn'.root ≡ txn.root)
        × (txn'.old ≡ txn.old)
  unfolding prepare prepare_inner
  log_prepared_alone now txn tab h e =
      let passes =
        check_keys-clear time om (same_ptr om) now tab.root txn.old txn.rwlog tab.prepare h e in
      let stored = lookup-insert_self txn.id txn.rwlog [] in
      (
        ground (arith, passes),
        ground (arith, passes),
        ground (arith, passes),
        ground (arith, passes, stored),
        ground (arith, passes),
        ground (arith, passes),
        ground (arith, passes),
      )

  pub log_committed_view :
      (canon : Canonical same) (txn : FileMemTxn G M) (tab : LogFileTab G M Atom F P)
      (log : HashMap Bytes RwLog)
      → IsOverlay om txn.root txn.old log
      → lookup txn.id tab.prepare ≡ some log
      → let (r, txn', tab') = commit time om lf txn tab in
        (r ≡ ok log)
        × (txn'.state ≡ commited)
        × ((k : Bytes) → om.get tab'.root k ≡ overlay log k (om.get tab.root k))
  unfolding commit
  log_committed_view canon txn tab log h e =
      let (done, view, _, _, _, _, _, _, _) =
        log_commit-view time om lf canon (record txn { state = committing }) tab log h e in
      (ground (arith, done), ground (arith, done), λ k. ground (arith, done, view k))
