-- ===== src/Mgr.antt =====
-- src/mgr.rs: a transaction over the tables of several libraries (`Tr`).
--
-- The libraries and the transactions of their tables are behind an interface, `Database`, which
-- stands for the enums `DatabaseWareSnapshot`, `DatabaseTabTxn` and `DatabaseMetaTxn`
-- (Ware/Dispatch.antt). The tasks of `async_map` run one after the other here, in the order in which
-- they are joined.
pub mod Batch
pub mod Calls
pub mod Phases
pub mod Steps
pub mod Outcomes
pub mod Endings
pub mod Keyed
pub mod Order
pub mod Grouping
pub mod Answers
pub mod Alter
pub mod Listing
pub mod Tabular
pub mod Served
pub mod Queried
pub mod Written
pub mod Session
pub mod Storing
pub mod Committed
use pi_db.Base.{
  ltb, leb, nat_eqb, if◌then◌else◌, Bool-cases, Option-cases, Eq, ◌==◌, ==-refl, ==-ne, nat_eqb_iff,
  nat_eq, list_eqb, list_eqb_iff, list_eq, pair_eqb, pair_eqb_iff, pair_eq, length, get_elem?,
  length-append, length-map, All, ℕ, zero, suc, ◌+◌, ◌-◌, ◌*◌, ◌%◌, ◌^◌, ◌≤◌, ◌<◌, ◌≡◌, refl, sym,
  ap, ◌∙◌, ◌≢◌, ◌↔◌, ◌⊎◌, inl, inr, Bool, true, false, not, ◌&&◌, ◌||◌, Option, none, some, List,
  [], ◌∷◌, ◌++◌, map, arith,
}
use pi_db.Data.{
  Bytes, Bin, len, Error, SResult, Result-cases, DbResult, TxState, default_state, discriminant,
  to_state, to_string, RwLog, TabKv, new_tab_kv, TabMeta, meta_eqb, bon_eqb, prepare_conflicted_rw,
  unexpected_meta_log1, unexpected_meta_log2, previous_read_log_exist, previous_write_log_exist,
  previous_meta_log_exist, prepare_conflicted_value_diff, prepare_conflicted_old_not_none,
  error_prepare_null, meta_prepare_conflicting, meta_prepare_conflicted, tab_not_found,
  unknown_tab_type, unreachable_branch, ware_not_found, tr_query_error, modify_failed,
  duplicate_fork_tab_name, duplicate_fork_tab_name_in_meta_tab, tab_name_exist, delete_tab_failed,
  delete_tab_not_found, not_implemented, io_error, ok, err, doing, preparing, prepar_ok,
  prepar_fail, committing, commited, commit_fail, rollbacking, rollbacked, rollback_fail, read,
  write, meta,
}
use pi_db.HashMap.{HashMap, lookup, insert, remove}

-- What a call ends with: `Ok(())`, `Err`, or a panic.
pub data Verdict : Type 0 where
  passed : Verdict
  failed : Error → Verdict
  panicked : Verdict

abbrev pub verdict : {W : Type 0} → DbResult × W → Verdict × W
verdict (r, w) = (elim r [ ok _ ↦ passed | err e ↦ failed e ], w)

-- `W` is the state of everything behind the handles, `Ware` is a snapshot of a library, `Txn` the
-- transaction of a table, and `Meta` that of a library's table of types.
pub record Database (W Ware Txn Meta G Atom EnumType : Type 0) : Type 0 where
  -- `DatabaseWareSnapshot`
  pub ware_info : Ware → Atom → W → Option (TabMeta EnumType)
  pub ware_names : Ware → W → List Atom
  pub check : Ware → Atom → Option (TabMeta EnumType) → W → DbResult
  pub alter : Ware → Atom → Option (TabMeta EnumType) → W → W
  pub tab_txn : Ware → Atom → G → Bool → W → SResult Txn × W
  pub meta_txn : Ware → G → W → Meta × W
  pub ware_prepare : Ware → G → W → DbResult × W
  pub ware_commit : Ware → G → W → W
  pub ware_rollback : Ware → G → W → W
  -- `DatabaseTabTxn`
  pub txn_query : Txn → List (TabKv Atom) → W → SResult (List (TabKv Atom)) × W
  pub txn_modify : Txn → List (TabKv Atom) → W → DbResult × W
  pub txn_size : Txn → W → SResult ℕ × W
  -- an iterator is the address of its box
  pub txn_iter : Txn → Option Bytes → Bool → W → SResult ℕ × W
  pub txn_key_iter : Txn → Option Bytes → Bool → W → SResult ℕ × W
  pub txn_prepare : Txn → W → DbResult × W
  pub txn_commit : Txn → W → SResult (HashMap Bytes RwLog) × W
  pub txn_rollback : Txn → W → DbResult × W
  -- these panic where the table is one in memory
  pub fork_prepare : Txn → Atom → Atom → Atom → TabMeta EnumType → W → Verdict × W
  pub fork_commit : Txn → Atom → Atom → Atom → TabMeta EnumType → W → Verdict × W
  pub fork_rollback : Txn → W → Verdict × W
  -- `DatabaseMetaTxn`
  pub meta_alter : Meta → Atom → Option (TabMeta EnumType) → W → DbResult × W
  pub meta_prepare : Meta → W → DbResult × W
  pub meta_commit : Meta → W → SResult (HashMap Bytes RwLog) × W
  pub meta_rollback : Meta → W → DbResult × W

-- The fields that the code uses: `timeout` is only passed on to functions that ignore it, and `rt`
-- runs the tasks.
pub record Tr (Ware Txn Meta G Atom EnumType : Type 0) : Type 0 where
  pub writable : Bool
  pub id : G
  pub ware_log_map : HashMap Atom Ware
  pub state : TxState
  pub tab_txns : HashMap (Atom × Atom) Txn
  pub meta_txns : HashMap Atom Meta
  pub fork_txns : HashMap (Atom × (Atom × Atom)) (TabMeta EnumType × Txn)

-- `PartialEq for TxState`
abbrev pub is_ok : TxState → Bool
is_ok s = elim s [ TxState.ok ↦ true | _ ↦ false ]

module _ {W Ware Txn Meta G Atom EnumType : Type 0} ⦃ea : Eq Atom⦄
    (db : Database W Ware Txn Meta G Atom EnumType) where
  -- `build`: the transaction of a table is made once
  unfoldable pub build :
      Atom
      → Atom
      → Tr Ware Txn Meta G Atom EnumType
      → W
      → SResult Txn × Tr Ware Txn Meta G Atom EnumType × W
  unfolding lookup insert
  build ware_name tab_name tr w = elim (lookup (ware_name, tab_name) tr.tab_txns) [
    | some r ↦ (ok r, tr, w)
    | none ↦ elim (lookup ware_name tr.ware_log_map) [
      | none ↦ (err ware_not_found, tr, w)
      | some ware ↦
          let (r, w') = db.tab_txn ware tab_name tr.id tr.writable w in
          elim r [
            | err e ↦ (err e, record tr { state = TxState.err }, w')
            | ok txn ↦
                (ok txn, record tr { tab_txns = insert (ware_name, tab_name) txn tr.tab_txns }, w')
          ]
    ]
  ]
