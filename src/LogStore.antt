-- ===== src/LogStore.antt =====
-- `AsyncLogFileStore` of src/log_file_db.rs: the records of one table in a log file, with a copy in
-- memory, and the loader that rebuilds the copy from the log (`impl PairLoader`).
--
-- The log file is that of the crate `pi_store`. The standard `BTreeMap` is a map of HashMap.antt.
-- The counts of the statistics are `u64` in the source and do not come near its bound.
pub mod File
pub mod Batches
pub mod Writes
pub mod Loader
pub mod Recovery
use pi_db.Base.{
  ltb, leb, nat_eqb, if◌then◌else◌, Bool-cases, Option-cases, Eq, ◌==◌, ==-refl, ==-ne, nat_eqb_iff,
  nat_eq, list_eqb, list_eqb_iff, list_eq, pair_eqb, pair_eqb_iff, pair_eq, length, get_elem?,
  length-append, length-map, All, ℕ, zero, suc, ◌+◌, ◌-◌, ◌*◌, ◌%◌, ◌^◌, ◌≤◌, ◌<◌, ◌≡◌, refl, sym,
  ap, ◌∙◌, ◌≢◌, ◌↔◌, ◌⊎◌, inl, inr, Bool, true, false, not, ◌&&◌, ◌||◌, Option, none, some, List,
  [], ◌∷◌, ◌++◌, map, arith,
}
use pi_db.Data.{
  Bytes, Bin, len, Error, SResult, DbResult, TxState, default_state, discriminant, to_state,
  to_string, RwLog, TabKv, new_tab_kv, TabMeta, meta_eqb, bon_eqb, prepare_conflicted_rw,
  unexpected_meta_log1, unexpected_meta_log2, previous_read_log_exist, previous_write_log_exist,
  previous_meta_log_exist, prepare_conflicted_value_diff, prepare_conflicted_old_not_none,
  error_prepare_null, meta_prepare_conflicting, meta_prepare_conflicted, tab_not_found,
  unknown_tab_type, unreachable_branch, ware_not_found, tr_query_error, modify_failed,
  duplicate_fork_tab_name, duplicate_fork_tab_name_in_meta_tab, tab_name_exist, delete_tab_failed,
  delete_tab_not_found, not_implemented, io_error, ok, err, doing, preparing, prepar_ok,
  prepar_fail, committing, commited, commit_fail, rollbacking, rollbacked, rollback_fail, read,
  write, meta,
}
use pi_db.HashMap.{HashMap, lookup, insert, remove}
use pi_db.LogStore.File.{LogMethod, plain_append, removes, LogFile}

-- A read-only log file with the numbers of its records and of its keys.
pub record Stats (P : Type 0) : Type 0 where
  pub path : P
  pub log_len : ℕ
  pub key_len : ℕ

-- `F` is a log file, `P` a path.
pub record AsyncLogFileStore (F P : Type 0) : Type 0 where
  pub removed : HashMap Bytes (Unit {0})
  pub map : HashMap Bytes Bytes
  pub log_file : F
  pub tmp_map : HashMap Bytes (Unit {0})
  pub writable_path : Option P
  pub is_statistics : Bool
  pub is_init : Bool
  pub statistics : List (Stats P)

-- a store that is being initialised over a log file
unfoldable pub new_store : {F P : Type 0} → F → AsyncLogFileStore F P
new_store file = record {
  removed = [];
  map = [];
  log_file = file;
  tmp_map = [];
  writable_path = none;
  is_statistics = false;
  is_init = true;
  statistics = [];
}

-- `contains_key`
abbrev pub contains_key : {V : Type 0} → Bytes → HashMap Bytes V → Bool
contains_key key m = elim (lookup key m) [ some _ ↦ true | none ↦ false ]

module _ {F : Type 0} (lf : LogFile F) where
  -- the loop of `write_batch` over `append`; the result is the last identifier
  unfoldable pub append_all : ℕ → List (Bytes × Bytes) → F → ℕ × F
  append_all id [] f = (id, f)
  append_all id ((key, value) ∷ pairs) f =
      let (id', f') = lf.append f plain_append key value in append_all id' pairs f'

  -- the loop of `remove_batch`
  unfoldable pub remove_records : ℕ → List Bytes → F → ℕ × F
  remove_records id [] f = (id, f)
  remove_records id (key ∷ keys) f =
      let (id', f') = lf.append f removes key [] in remove_records id' keys f'

abbrev pub insert_all : List (Bytes × Bytes) → HashMap Bytes Bytes → HashMap Bytes Bytes
insert_all [] m = m
insert_all ((key, value) ∷ pairs) m = insert_all pairs (insert key value m)

abbrev pub remove_keys : List Bytes → HashMap Bytes Bytes → HashMap Bytes Bytes
remove_keys [] m = m
remove_keys (key ∷ keys) m = remove_keys keys (remove key m)

module _ {F P : Type 0} (lf : LogFile F) where
  unfoldable pub write_batch :
      List (Bytes × Bytes) → AsyncLogFileStore F P → DbResult × AsyncLogFileStore F P
  unfolding append_all insert
  write_batch pairs store =
      let (id, f) = append_all lf 0 pairs store.log_file in
      let (committed, f') = lf.delay_commit f id in
      if committed
      then (ok tt, record store { log_file = f'; map = insert_all pairs store.map })
      else (err io_error, record store { log_file = f' })

  -- the result is the value that the key had
  unfoldable pub write_one :
      Bytes → Bytes → AsyncLogFileStore F P → SResult (Option Bytes) × AsyncLogFileStore F P
  unfolding insert lookup
  write_one key value store =
      let (id, f) = lf.append store.log_file plain_append key value in
      let (committed, f') = lf.delay_commit f id in
      if committed
      then (
        ok (lookup key store.map),
        record store { log_file = f'; map = insert key value store.map },
      )
      else (err io_error, record store { log_file = f' })

  unfoldable pub remove_batch :
      List Bytes → AsyncLogFileStore F P → DbResult × AsyncLogFileStore F P
  unfolding remove_records remove
  remove_batch keys store =
      let (id, f) = remove_records lf 0 keys store.log_file in
      let (committed, f') = lf.delay_commit f id in
      if committed
      then (ok tt, record store { log_file = f'; map = remove_keys keys store.map })
      else (err io_error, record store { log_file = f' })

  unfoldable pub remove_one :
      Bytes → AsyncLogFileStore F P → SResult (Option Bytes) × AsyncLogFileStore F P
  unfolding lookup
  remove_one key store =
      let (id, f) = lf.append store.log_file removes key [] in
      let (committed, f') = lf.delay_commit f id in
      if committed
      then (ok (lookup key store.map), record store { log_file = f'; map = remove key store.map })
      else (err io_error, record store { log_file = f' })

  unfoldable pub read_one : Bytes → AsyncLogFileStore F P → Option Bytes
  read_one key store = lookup key store.map
