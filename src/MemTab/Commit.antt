-- ===== src/MemTab/Commit.antt =====
-- The two phases of a commit on a table in memory (`prepare_inner`, `commit_inner` and
-- `rollback_inner` of `MemeryTxn` in src/memery_db.rs).
use pi_db.Snapshot.Kept.{get-commit_root}
use pi_db.Snapshot.{check_keys}
use pi_db.Snapshot.Checked.{check_keys-same}
use pi_db.OrdMap.{OrdMap}
use pi_db.Base.{Eq, ==-refl, nat_eq, list_eq, pair_eq, ℕ, ◌≡◌, refl, Bool, none, some, [], arith}
use pi_db.Data.{Bytes, Bin, Error, RwLog, error_prepare_null, ok, err}
use pi_db.HashMap.{HashMap, lookup, remove}
use pi_db.HashMap.Laws.{lookup-remove, lookup-insert_self}
use pi_db.MemTab.{MemeryTab, MemeryTxn, prepare_inner, commit_inner, rollback_inner}
use pi_db.Snapshot.Overlay.{overlay, Canonical, IsOverlay}

module _ {G M Atom : Type 0} ⦃eg : Eq G⦄ (time : G → ℕ) {same : Bytes → Bytes → Bool}
    (om : OrdMap same Bin M) where
  -- A successful preparation has found the table, at every key of the transaction's log, with the
  -- value of the transaction's snapshot. It hands the log over to the table under the transaction's
  -- identifier and leaves the table's tree as it was.
  pub prepare_inner-ok :
      (now : ℕ) (txn : MemeryTxn G M) (tab : MemeryTab G M Atom)
      → (prepare_inner time om now txn tab).0 ≡ ok tt
      → let (r, txn', tab') = prepare_inner time om now txn tab in
        ((k : Bytes) (l : RwLog)
          → lookup k txn.rwlog ≡ some l
          → om.get tab.root k ≡ om.get txn.old k)
        × (lookup txn.id tab'.prepare ≡ some txn.rwlog)
        × (txn'.rwlog ≡ [])
        × (txn'.root ≡ txn.root)
        × (txn'.old ≡ txn.old)
        × (txn'.id ≡ txn.id)
        × (tab'.root ≡ tab.root)
  unfolding prepare_inner
  prepare_inner-ok now txn tab h = (
    λ k l e.
        check_keys-same time om om.same_slot now tab.root txn.old (om.get_of_slot tab.root txn.old)
          txn.rwlog tab.prepare k l (ground arith) e,
    ground (
      arith,
      lookup-insert_self txn.id txn.rwlog
          (check_keys time om om.same_slot now tab.root txn.old txn.rwlog tab.prepare).1,
    ),
    ground arith,
    ground arith,
    ground arith,
    ground arith,
    ground arith,
  )

  -- A failed preparation leaves the transaction and the table's tree as they were.
  pub prepare_inner-err :
      (now : ℕ) (txn : MemeryTxn G M) (tab : MemeryTab G M Atom) (e : Error)
      → (prepare_inner time om now txn tab).0 ≡ err e
      → let (r, txn', tab') = prepare_inner time om now txn tab in
        (txn' ≡ txn) × (tab'.root ≡ tab.root) × (tab'.stats ≡ tab.stats)
  unfolding prepare_inner
  prepare_inner-err now txn tab e h = (ground arith, ground arith, ground arith)

  module _ (canon : Canonical same) where
    -- Let a transaction be prepared whose tree is its snapshot under its log. Its commit succeeds,
    -- gives back the log, and changes the table as the log says and no other way, also when other
    -- transactions have changed the table since this one began: each key that the log writes has
    -- the written value, every other key keeps the value that the table has. The preparation is
    -- gone.
    pub commit_inner-view :
        (txn : MemeryTxn G M) (tab : MemeryTab G M Atom) (log : HashMap Bytes RwLog)
        → IsOverlay om txn.root txn.old log
        → lookup txn.id tab.prepare ≡ some log
        → let (r, txn', tab') = commit_inner time om txn tab in
          (r ≡ ok log)
          × ((k : Bytes) → om.get tab'.root k ≡ overlay log k (om.get tab.root k))
          × (tab'.prepare ≡ remove txn.id tab.prepare)
    unfolding commit_inner
    commit_inner-view txn tab log h e =
        rw (e, commit_inner)
          (refl, λ k. get-commit_root om canon txn.root txn.old tab.root log k h, refl)

  -- A commit of a transaction that is not prepared fails and changes no value, and so after a
  -- rollback, or after a commit, of the same transaction.
  pub commit_inner-unprepared :
      (txn txn' : MemeryTxn G M) (tab : MemeryTab G M Atom)
      → txn'.id ≡ txn.id
      → (lookup txn.id tab.prepare ≡ none
          → ((commit_inner time om txn tab).0 ≡ err error_prepare_null)
            × ((commit_inner time om txn tab).2.root ≡ tab.root))
        × ((commit_inner time om txn' (rollback_inner time om txn tab).2).0
            ≡ err error_prepare_null)
        × ((rollback_inner time om txn tab).2.root ≡ tab.root)
        × ((commit_inner time om txn' (commit_inner time om txn tab).2).0 ≡ err error_prepare_null)
  unfolding commit_inner rollback_inner
  commit_inner-unprepared txn txn' tab same_id = (
    λ h. rw (h, commit_inner) (refl, refl),
    ground (arith, lookup-remove txn.id txn'.id tab.prepare, ==-refl txn.id),
    refl,
    ground (arith, lookup-remove txn.id txn'.id tab.prepare, ==-refl txn.id),
  )
