-- ===== src/Ware/Forked.antt =====
-- A transaction that only forks a table (`prepare` and `commit` of `Tr` in src/mgr.rs, and
-- `fork_prepare_inner` and `fork_commit_inner` of src/log_file_db.rs).
use pi_db.Base.{
  ==-ne, Option-cases, inl, inr, ◌∙◌, refl, ap, length, Eq, nat_eq, list_eq, pair_eq, ℕ, ◌≡◌, ◌≢◌,
  some, [], ◌∷◌, arith,
}
use pi_db.Data.{TabMeta, duplicate_fork_tab_name_in_meta_tab, ok, prepar_ok, commited}
use pi_db.HashMap.{lookup}
use pi_db.HashMap.Laws.{lookup-insert, lookup-insert_self}
use pi_db.Fork.{
  count_fork, Tables, TableMetaInfo, new_info, inc_refcount, fork_commit_inner, fork_prepare_inner,
}
use pi_db.Mgr.{Database, Tr, passed, failed}
use pi_db.Mgr.Phases as Phases
use pi_db.Mgr.Phases.{fork_commit_step}
use pi_db.Mgr.Steps.{run_all}
use pi_db.Mgr.Endings.{commit-finish}
use pi_db.Ware.{
  World, Outside, DatabaseTabTxn, log_file_tab_txn, DatabaseWareSnapshot, DatabaseMetaTxn,
}
use pi_db.Ware.Txns.{file_tab_of, txn_fork_prepare, txn_fork_commit}
use pi_db.Ware.Dispatch.{libraries}

module _ {W Ware Txn Meta G Atom EnumType : Type 0} ⦃ea : Eq Atom⦄
    (db : Database W Ware Txn Meta G Atom EnumType) where
  prepare-fork :
      (tr : Tr Ware Txn Meta G Atom EnumType) (w : W)
      → tr.tab_txns ≡ []
      → tr.meta_txns ≡ []
      → Phases.prepare db tr w ≡ (passed, record tr { state = prepar_ok }, w)
  unfolding Phases.prepare
  prepare-fork tr w tabs metas = rw (tabs, metas) (ground arith)

  commit-fork :
      (tr : Tr Ware Txn Meta G Atom EnumType) (w : W)
      (fork : (Atom × (Atom × Atom)) × (TabMeta EnumType × Txn))
      → tr.tab_txns ≡ []
      → tr.meta_txns ≡ []
      → tr.fork_txns ≡ fork ∷ []
      → (fork_commit_step db fork w).0 ≡ passed
      → Phases.commit db tr w
        ≡ (passed, record tr { state = commited }, (fork_commit_step db fork w).1)
  unfolding run_all Phases.count_joined
  commit-fork tr w fork tabs metas forked ok_fork =
      commit-finish db tr w (rw metas tt) (λ q. ground (arith, ap length forked))
      ∙ rw (tabs, metas, forked) (ground (arith, ok_fork))

module _ {Atom EnumType : Type 0} ⦃ea : Eq Atom⦄ where
  count_fork-other :
      (tab fork : Atom) (tables : Tables Atom EnumType)
      → tab ≢ fork
      → lookup fork (count_fork tab tables) ≡ lookup fork tables
  count_fork-other tab fork tables h = elim (Option-cases (lookup tab tables)) [
    | inl e ↦ rw (e, count_fork) refl
    | inr (u, e) ↦
        rw (e, count_fork)
          (lookup-insert tab fork (inc_refcount u) tables ∙ rw (==-ne tab fork h) refl)
  ]

module _ {G M T Atom EnumType F P : Type 0} ⦃eg : Eq G⦄ ⦃ea : Eq Atom⦄ ⦃ep : Eq P⦄
    (out : Outside G M T Atom EnumType F P) where
  fork_replaces :
      (t : ℕ) (ware tab fork : Atom) (m : TabMeta EnumType) (index : ℕ)
      (w : World G M T Atom EnumType F P)
      → tab ≢ fork
      → (out.force_fork (file_tab_of t w).store.log_file).0 ≡ ok index
      → let (r, w') = txn_fork_commit out (log_file_tab_txn t) ware tab fork m w in
        (r ≡ passed)
        × (lookup fork w'.all_tables
            ≡ some (record (new_info fork m) { parent = some tab; parent_log_id = some index }))
  unfolding txn_fork_commit fork_commit_inner
  fork_replaces t ware tab fork m index w apart e =
      rw (e, txn_fork_commit, fork_commit_inner)
        (refl, (count_fork-other tab fork _ apart ∙ lookup-insert_self fork _ w.all_tables))

  -- A table is replaced by a fork: let a transaction only fork a table with a log file, to the name of
  -- another table that is there already, which `fork_prepare` would refuse. Then `prepare` succeeds
  -- with the state `PreparOk`, `commit`, if the log file can be split, succeeds with the state
  -- `Commited`, and the name has the entry of the new table, whose parent is the forked table.
  pub libraries-replaces_table :
      (tr : Tr DatabaseWareSnapshot DatabaseTabTxn DatabaseMetaTxn G Atom EnumType)
      (w : World G M T Atom EnumType F P) (t : ℕ) (ware tab fork : Atom) (m : TabMeta EnumType)
      (u : TableMetaInfo Atom EnumType) (index : ℕ)
      → tr.tab_txns ≡ []
      → tr.meta_txns ≡ []
      → tr.fork_txns ≡ ((ware, (tab, fork)), (m, log_file_tab_txn t)) ∷ []
      → lookup fork w.all_tables ≡ some u
      → tab ≢ fork
      → (out.force_fork (file_tab_of t w).store.log_file).0 ≡ ok index
      → let (v, tr1, w1) = Phases.prepare (libraries out) tr w in
        let (v', tr2, w2) = Phases.commit (libraries out) tr1 w1 in
        ((txn_fork_prepare out (log_file_tab_txn t) ware tab fork m w).0
          ≡ failed duplicate_fork_tab_name_in_meta_tab)
        × (v ≡ passed)
        × (tr1.state ≡ prepar_ok)
        × (v' ≡ passed)
        × (tr2.state ≡ commited)
        × (lookup fork w2.all_tables
            ≡ some (record (new_info fork m) { parent = some tab; parent_log_id = some index }))
  unfolding libraries txn_fork_prepare fork_prepare_inner
  libraries-replaces_table tr w t ware tab fork m u index tabs metas forked there apart e =
      let (done, new) = fork_replaces t ware tab fork m index w apart e in
      let first = prepare-fork (libraries out) tr w tabs metas in
      let second =
        commit-fork (libraries out) (record tr { state = prepar_ok }) w _ tabs metas forked done in
      (
        ground (arith, there),
        rw first refl,
        rw first refl,
        rw (first, second) refl,
        rw (first, second) refl,
        rw (first, second) new,
      )
