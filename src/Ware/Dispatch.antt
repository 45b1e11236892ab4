-- ===== src/Ware/Dispatch.antt =====
-- The libraries as the database of a transaction (Mgr.antt): each call of `Tr` goes to the functions
-- of the enums of src/mgr.rs.
use pi_db.Base.{Eq, nat_eq, list_eq, pair_eq}
use pi_db.Mgr.{Database}
use pi_db.Ware.{World, Outside, DatabaseWareSnapshot, DatabaseTabTxn, DatabaseMetaTxn}
use pi_db.Ware.Shots.{
  shot_tab_info, shot_list, shot_check, shot_alter, shot_tab_txn, shot_meta_txn, shot_prepare,
  shot_commit, shot_rollback,
}
use pi_db.Ware.Txns.{
  iter, key_iter, query, modify, tab_size, prepare, commit, rollback, txn_fork_prepare,
  txn_fork_commit, txn_fork_rollback, meta_txn_alter, meta_txn_prepare, meta_txn_commit,
  meta_txn_rollback,
}

module _ {G M T Atom EnumType F P : Type 0} ⦃eg : Eq G⦄ ⦃ea : Eq Atom⦄ ⦃ep : Eq P⦄
    (out : Outside G M T Atom EnumType F P) where
  unfoldable pub libraries :
      Database
        (World G M T Atom EnumType F P)
        DatabaseWareSnapshot
        DatabaseTabTxn
        DatabaseMetaTxn
        G
        Atom
        EnumType
  unfolding shot_tab_info shot_list iter key_iter shot_check shot_alter shot_tab_txn shot_meta_txn
      shot_prepare shot_commit shot_rollback query modify tab_size prepare commit rollback
      txn_fork_prepare txn_fork_commit txn_fork_rollback meta_txn_alter meta_txn_prepare
      meta_txn_commit meta_txn_rollback
  libraries = record {
    ware_info = shot_tab_info out;
    ware_names = shot_list out;
    check = shot_check;
    alter = shot_alter out;
    tab_txn = shot_tab_txn out;
    meta_txn = shot_meta_txn;
    ware_prepare = shot_prepare out;
    ware_commit = shot_commit out;
    ware_rollback = shot_rollback out;
    txn_query = query out;
    txn_modify = modify out;
    txn_size = λ t w. (tab_size out t w, w);
    txn_iter = iter out;
    txn_key_iter = key_iter out;
    txn_prepare = prepare out;
    txn_commit = commit out;
    txn_rollback = rollback out;
    fork_prepare = txn_fork_prepare out;
    fork_commit = txn_fork_commit out;
    fork_rollback = txn_fork_rollback out;
    meta_alter = meta_txn_alter out;
    meta_prepare = meta_txn_prepare out;
    meta_commit = meta_txn_commit out;
    meta_rollback = meta_txn_rollback out;
  }
