-- ===== src/LogTab.antt =====
-- src/log_file_db.rs: a table with a log file (`LogFileTab`) and its transactions (`FileMemTxn`).
--
-- An operation of a transaction takes the transaction and the table, and returns both. All of them
-- hold the table's lock from their beginning to their end.
pub mod Ref
pub mod Calls
pub mod Commit
pub mod Durable
pub mod Recovery
pub mod Alone
pub mod Load
pub mod Inherited
use pi_db.Snapshot.{check_keys, note_read, commit_root}
use pi_db.OrdMap.{OrdMap}
use pi_db.Base.{
  ltb, leb, nat_eqb, if◌then◌else◌, Bool-cases, Option-cases, Eq, ◌==◌, ==-refl, ==-ne, nat_eqb_iff,
  nat_eq, list_eqb, list_eqb_iff, list_eq, pair_eqb, pair_eqb_iff, pair_eq, length, get_elem?,
  length-append, length-map, All, ℕ, zero, suc, ◌+◌, ◌-◌, ◌*◌, ◌%◌, ◌^◌, ◌≤◌, ◌<◌, ◌≡◌, refl, sym,
  ap, ◌∙◌, ◌≢◌, ◌↔◌, ◌⊎◌, inl, inr, Bool, true, false, not, ◌&&◌, ◌||◌, Option, none, some, List,
  [], ◌∷◌, ◌++◌, map, arith,
}
use pi_db.Data.{
  Bytes, Bin, len, Error, SResult, DbResult, TxState, default_state, discriminant, to_state,
  to_string, RwLog, TabKv, new_tab_kv, TabMeta, meta_eqb, bon_eqb, prepare_conflicted_rw,
  unexpected_meta_log1, unexpected_meta_log2, previous_read_log_exist, previous_write_log_exist,
  previous_meta_log_exist, prepare_conflicted_value_diff, prepare_conflicted_old_not_none,
  error_prepare_null, meta_prepare_conflicting, meta_prepare_conflicted, tab_not_found,
  unknown_tab_type, unreachable_branch, ware_not_found, tr_query_error, modify_failed,
  duplicate_fork_tab_name, duplicate_fork_tab_name_in_meta_tab, tab_name_exist, delete_tab_failed,
  delete_tab_not_found, not_implemented, io_error, ok, err, doing, preparing, prepar_ok,
  prepar_fail, committing, commited, commit_fail, rollbacking, rollbacked, rollback_fail, read,
  write, meta,
}
use pi_db.HashMap.{HashMap, lookup, insert, remove}
use pi_db.LogStore.{AsyncLogFileStore, write_batch, remove_batch}
use pi_db.LogStore.File.{LogFile}
use pi_db.Prepare.{Prepare}

-- `MemeryTab` with the store beside it
pub record LogFileTab (G M Atom F P : Type 0) : Type 0 where
  pub prepare : Prepare G
  pub root : M
  pub tab : Atom
  pub store : AsyncLogFileStore F P

pub record FileMemTxn (G M : Type 0) : Type 0 where
  pub id : G
  pub writable : Bool
  pub root : M
  pub old : M
  pub rwlog : HashMap Bytes RwLog
  pub state : TxState

-- `insert_pairs` and `delete_keys` of `commit_inner`
unfoldable pub insert_pairs : HashMap Bytes RwLog → List (Bytes × Bytes)
insert_pairs [] = []
insert_pairs ((k, write (some v)) ∷ rest) = (k, v.bytes) ∷ insert_pairs rest
insert_pairs ((k, _) ∷ rest) = insert_pairs rest

unfoldable pub delete_keys : HashMap Bytes RwLog → List Bytes
delete_keys [] = []
delete_keys ((k, write none) ∷ rest) = k ∷ delete_keys rest
delete_keys ((k, _) ∷ rest) = delete_keys rest

module _ {F P : Type 0} (lf : LogFile F) where
  -- a batch is written if it is not empty
  unfoldable pub write_pairs :
      List (Bytes × Bytes) → AsyncLogFileStore F P → DbResult × AsyncLogFileStore F P
  write_pairs [] store = (ok tt, store)
  write_pairs (p ∷ pairs) store = write_batch lf (p ∷ pairs) store

  unfoldable pub drop_keys : List Bytes → AsyncLogFileStore F P → DbResult × AsyncLogFileStore F P
  drop_keys [] store = (ok tt, store)
  drop_keys (k ∷ keys) store = remove_batch lf (k ∷ keys) store

  -- the end of `commit_inner`, which looks at neither result
  unfoldable pub write_logs : HashMap Bytes RwLog → AsyncLogFileStore F P → AsyncLogFileStore F P
  unfolding write_pairs drop_keys insert_pairs delete_keys
  write_logs logs store = (drop_keys (delete_keys logs) (write_pairs (insert_pairs logs) store).1).1

module _ {M : Type 0} {same : Bytes → Bytes → Bool} (om : OrdMap same Bin M) where
  -- `r1.as_ptr() as usize == r2.as_ptr() as usize`
  unfoldable pub same_ptr : M → M → Bytes → Bool
  same_ptr root old key = elim (om.get root key) [
    | none ↦ false
    | some r1 ↦ elim (om.get old key) [ none ↦ false | some r2 ↦ nat_eqb r1.ptr r2.ptr ]
  ]

module _ {G M : Type 0} {same : Bytes → Bytes → Bool} (om : OrdMap same Bin M) where
  -- the read is noted as in a table in memory
  unfoldable pub get : Bytes → FileMemTxn G M → Option Bin × FileMemTxn G M
  unfolding insert lookup
  get key txn = elim (om.get txn.root key) [
    | some v ↦ (some v, record txn { rwlog = note_read txn.writable key txn.rwlog })
    | none ↦ (none, txn)
  ]

  unfoldable pub upsert : Bytes → Bin → FileMemTxn G M → DbResult × FileMemTxn G M
  unfolding insert
  upsert key value txn = (
    ok tt,
    record txn {
      root = om.upsert txn.root key value;
      rwlog = insert key (write (some value)) txn.rwlog;
    },
  )

  unfoldable pub delete : Bytes → FileMemTxn G M → DbResult × FileMemTxn G M
  unfolding insert
  delete key txn = (
    ok tt,
    record txn { root = om.delete txn.root key; rwlog = insert key (write none) txn.rwlog },
  )

module _ {G M Atom F P : Type 0} ⦃eg : Eq G⦄ (time : G → ℕ) {same : Bytes → Bytes → Bool}
    (om : OrdMap same Bin M) (lf : LogFile F) where
  -- `FileMemTxn::new`, by `LogFileTab::transaction`
  unfoldable pub transaction : LogFileTab G M Atom F P → G → Bool → FileMemTxn G M
  transaction tab id writable = record {
    id = id;
    writable = writable;
    root = tab.root;
    old = tab.root;
    rwlog = [];
    state = default_state;
  }

  unfoldable pub prepare_inner :
      ℕ
      → FileMemTxn G M
      → LogFileTab G M Atom F P
      → DbResult × FileMemTxn G M × LogFileTab G M Atom F P
  unfolding insert
  prepare_inner now txn tab =
      let (r, prepare') =
        check_keys time om (same_ptr om) now tab.root txn.old txn.rwlog tab.prepare in
      elim r [
        | err e ↦ (err e, txn, record tab { prepare = prepare' })
        | ok _ ↦ (
          ok tt,
          record txn { rwlog = [] },
          record tab { prepare = insert txn.id txn.rwlog prepare' },
        )
      ]

  unfoldable pub commit_inner :
      FileMemTxn G M
      → LogFileTab G M Atom F P
      → SResult (HashMap Bytes RwLog) × FileMemTxn G M × LogFileTab G M Atom F P
  unfolding remove lookup write_logs
  commit_inner txn tab = elim (lookup txn.id tab.prepare) [
    | none ↦ (err error_prepare_null, txn, record tab { prepare = remove txn.id tab.prepare })
    | some rwlog ↦ (
      ok rwlog,
      txn,
      record tab {
        prepare = remove txn.id tab.prepare;
        root = commit_root om txn.root txn.old rwlog tab.root;
        store = write_logs lf rwlog tab.store;
      },
    )
  ]

  unfoldable pub rollback_inner :
      FileMemTxn G M → LogFileTab G M Atom F P → DbResult × FileMemTxn G M × LogFileTab G M Atom F P
  unfolding remove
  rollback_inner txn tab = (ok tt, txn, record tab { prepare = remove txn.id tab.prepare })
