-- ===== src/Ware/Stored.antt =====
-- The transactions of tables in memory and with log files meet what the commit of a transaction over
-- several tables relies on (Mgr/Storing.antt).
use pi_db.Mgr.Storing.{Storing, Each, PairwiseApart}
use pi_db.Ware.Dispatch.{libraries}
use pi_db.LogTab.Alone.{log_committed_view, log_prepared_alone}
use pi_db.MemTab.Session.{committed_view, prepared_alone}
use pi_db.Ware.Reads.{seen}
use mathlib.Core.Path.{subst}
use pi_db.MemTab.Ref as Mem
use pi_db.LogTab.Ref as File
use pi_db.Base.{
  nat_eqb, Bool-cases, Eq, nat_eqb_iff, nat_eq, list_eq, pair_eq, length, ◌≡◌, refl, sym, ap, ◌∙◌,
  ◌≢◌, inl, inr, [], arith,
}
use pi_db.Data.{Bytes, RwLog, ok, prepar_ok, commited}
use pi_db.HashMap.{HashMap}
use pi_db.MemTab.{MemeryTab, MemeryTxn}
use pi_db.LogTab.{LogFileTab, FileMemTxn}
use pi_db.Snapshot.Overlay.{Canonical}
use pi_db.Ware.{
  cell-assign_other, Owned, World, Outside, DatabaseTabTxn, mem_tab_txn, log_file_tab_txn,
  DatabaseWareSnapshot, DatabaseMetaTxn,
}
use pi_db.Ware.Txns.{commit, prepare, mem_txn_of, mem_tab_of, file_txn_of, file_tab_of}
use pi_db.Ware.Apart.{
  IsApart, IsApart-sym, mem_at, file_at, MemPrepared, FilePrepared, IsAlone, IsHandedOver, stored,
  prepare-IsApart, commit-IsApart, prepare-Same, commit-Same, Same-IsAlone, Same-IsHandedOver,
  Same-stored, Same-seen,
}
use pi_db.Mgr.{passed, Tr}
use pi_db.Mgr.Phases as Phases
use pi_db.Mgr.Phases.{values}
use pi_db.Mgr.Committed.{commit-stores_all}

module _ {G M T Atom EnumType F P : Type 0} ⦃eg : Eq G⦄ ⦃ea : Eq Atom⦄
    (out : Outside G M T Atom EnumType F P) where
  prepare_own :
      (t : DatabaseTabTxn) (w : World G M T Atom EnumType F P)
      → IsAlone out t w
      → ((prepare out t w).0 ≡ ok tt)
        × IsHandedOver out t (prepare out t w).1
        × ((k : Bytes) → seen out t (prepare out t w).1 k ≡ seen out t w k)
  unfolding prepare
  prepare_own (mem_tab_txn t) w h =
      let txn = mem_txn_of t w in
      let (passes, _, tree, log, id, root, old) =
        prepared_alone out.time out.trees out.now txn (mem_tab_of t w) h.0 h.1 in
      let after = Mem.prepare out.time out.trees out.now txn (mem_tab_of t w) in
      let there : mem_at t (prepare out (mem_tab_txn t) w).1 ≡ (after.1, after.2) = ground arith in
      (
        passes,
        subst (MemPrepared out) (sym there)
            (txn.rwlog, log, tree ∙ h.1 ∙ sym old, rw (root, old) h.2),
        λ k.
            ap (λ (p : MemeryTxn G M × MemeryTab G M Atom). out.trees.get p.0.root k) there
            ∙ ap (λ m. out.trees.get m k) root,
      )
  prepare_own (log_file_tab_txn t) w h =
      let txn = file_txn_of t w in
      let (passes, _, tree, log, id, root, old) =
        log_prepared_alone out.time out.trees out.log_file out.now txn (file_tab_of t w) h.0 h.1 in
      let after = File.prepare out.time out.trees out.log_file out.now txn (file_tab_of t w) in
      let there : file_at t (prepare out (log_file_tab_txn t) w).1 ≡ (after.1, after.2) =
        ground arith in
      (
        passes,
        subst (FilePrepared out) (sym there)
            (txn.rwlog, log, tree ∙ h.1 ∙ sym old, rw (root, old) h.2),
        λ k.
            ap (λ (p : FileMemTxn G M × LogFileTab G M Atom F P). out.trees.get p.0.root k) there
            ∙ ap (λ m. out.trees.get m k) root,
      )

  prepare-seen_any :
      (t u : DatabaseTabTxn) (w : World G M T Atom EnumType F P) (k : Bytes)
      → IsAlone out t w
      → seen out u (prepare out t w).1 k ≡ seen out u w k
  unfolding prepare
  prepare-seen_any (mem_tab_txn t) (mem_tab_txn u) w k h = elim (Bool-cases (nat_eqb t u)) [
    | inl e ↦
        subst
          (λ n.
            seen out (mem_tab_txn n) (prepare out (mem_tab_txn t) w).1 k
            ≡ seen out (mem_tab_txn n) w k)
          ((nat_eqb_iff t u).0 e) ((prepare_own (mem_tab_txn t) w h).2 k)
    | inr e ↦
        ap (λ (o : Owned (MemeryTxn G M)). out.trees.get o.txn.root k)
          (cell-assign_other t u _ w.mem_txns e)
  ]
  prepare-seen_any (mem_tab_txn t) (log_file_tab_txn u) w k h = refl
  prepare-seen_any (log_file_tab_txn t) (mem_tab_txn u) w k h = refl
  prepare-seen_any (log_file_tab_txn t) (log_file_tab_txn u) w k h =
      elim (Bool-cases (nat_eqb t u)) [
        | inl e ↦
            subst
              (λ n.
                seen out (log_file_tab_txn n) (prepare out (log_file_tab_txn t) w).1 k
                ≡ seen out (log_file_tab_txn n) w k)
              ((nat_eqb_iff t u).0 e) ((prepare_own (log_file_tab_txn t) w h).2 k)
        | inr e ↦
            ap (λ (o : Owned (FileMemTxn G M)). out.trees.get o.txn.root k)
              (cell-assign_other t u _ w.file_txns e)
      ]

  commit_own :
      (canon : Canonical out.same) (t : DatabaseTabTxn) (w : World G M T Atom EnumType F P)
      → IsHandedOver out t w
      → ((log : HashMap Bytes RwLog) × ((commit out t w).0 ≡ ok log))
        × ((k : Bytes) → stored out t (commit out t w).1 k ≡ seen out t w k)
  unfolding commit
  commit_own canon (mem_tab_txn t) w (log, there, same, over) =
      let (done, _, view) =
        committed_view out.time out.trees canon (mem_txn_of t w) (mem_tab_of t w) log over there in
      ((log, done), λ k. ground (arith, view k, over.view k, ap (λ m. out.trees.get m k) same))
  commit_own canon (log_file_tab_txn t) w (log, there, same, over) =
      let (done, _, view) =
        log_committed_view out.time out.trees out.log_file canon (file_txn_of t w) (file_tab_of t w)
          log over there in
      ((log, done), λ k. ground (arith, view k, over.view k, ap (λ m. out.trees.get m k) same))

module _ {G M T Atom EnumType F P : Type 0} ⦃eg : Eq G⦄ ⦃ea : Eq Atom⦄ ⦃ep : Eq P⦄
    (out : Outside G M T Atom EnumType F P) (canon : Canonical out.same) where
  pub libraries_storing : Storing (libraries out) (IsAlone out) (IsHandedOver out) IsApart
  unfolding libraries
  libraries_storing = record {
    seen = seen out;
    stored = stored out;
    sym_apart = IsApart-sym;
    prepare-Apart = prepare-IsApart out;
    prepare-ok = λ t w h. (prepare_own out t w h).0;
    prepare-IsPrepared = λ t w h. (prepare_own out t w h).1;
    prepare-seen = prepare-seen_any out;
    prepare-other = λ t u w a. Same-IsAlone out u w _ (prepare-Same out t u w a);
    prepare-other_prepared = λ t u w a. Same-IsHandedOver out u w _ (prepare-Same out t u w a);
    commit-Apart = commit-IsApart out;
    commit-ok = λ t w h. (commit_own out canon t w h).0;
    commit-stored = λ t w k h. (commit_own out canon t w h).1 k;
    commit-seen = λ t u w k a. Same-seen out u w _ k (commit-Same out t u w a);
    commit-other = λ t u w a. Same-IsHandedOver out u w _ (commit-Same out t u w a);
    commit-other_stored = λ t u w k a. Same-stored out u w _ k (commit-Same out t u w a);
  }

  -- Let a transaction have used tables only, at least one, and let each of its transactions of tables,
  -- in memory or with a log file, be alone: nothing is prepared on its table, which is as it was when
  -- it began, its tree is that table under its log, and no two work on one table. Then `prepare`
  -- succeeds with the state `PreparOk`, `commit` succeeds with the state `Commited`, and every table
  -- holds, key by key, what its transaction saw before.
  pub libraries-stores_all :
      (tr : Tr DatabaseWareSnapshot DatabaseTabTxn DatabaseMetaTxn G Atom EnumType)
      (w : World G M T Atom EnumType F P)
      → tr.meta_txns ≡ []
      → tr.fork_txns ≡ []
      → length tr.tab_txns ≢ 0
      → PairwiseApart IsApart (values tr.tab_txns) w
      → Each (λ t. IsAlone out t w) (values tr.tab_txns)
      → let (v, tr1, w1) = Phases.prepare (libraries out) tr w in
        let (v', tr2, w2) = Phases.commit (libraries out) tr1 w1 in
        (v ≡ passed)
        × (tr1.state ≡ prepar_ok)
        × (v' ≡ passed)
        × (tr2.state ≡ commited)
        × Each (λ t. (k : Bytes) → stored out t w2 k ≡ seen out t w k) (values tr.tab_txns)
  unfolding libraries_storing
  libraries-stores_all =
      commit-stores_all (libraries out) (IsAlone out) (IsHandedOver out) IsApart libraries_storing
