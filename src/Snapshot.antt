-- ===== src/Snapshot.antt =====
-- What the transactions of both kinds of table do alike (`MemeryTxn` of src/memery_db.rs and
-- `FileMemTxn` of src/log_file_db.rs): they work on a snapshot of the table's tree, keep a log, and
-- compare both with the table when they prepare and commit.
--
-- `identical` is the test of two values by their address, which differs between the tables.
pub mod Overlay
pub mod Checked
pub mod Kept
pub mod Effect
use pi_db.Base.{
  ltb, leb, nat_eqb, if◌then◌else◌, Bool-cases, Option-cases, Eq, ◌==◌, ==-refl, ==-ne, nat_eqb_iff,
  nat_eq, list_eqb, list_eqb_iff, list_eq, pair_eqb, pair_eqb_iff, pair_eq, length, get_elem?,
  length-append, length-map, All, ℕ, zero, suc, ◌+◌, ◌-◌, ◌*◌, ◌%◌, ◌^◌, ◌≤◌, ◌<◌, ◌≡◌, refl, sym,
  ap, ◌∙◌, ◌≢◌, ◌↔◌, ◌⊎◌, inl, inr, Bool, true, false, not, ◌&&◌, ◌||◌, Option, none, some, List,
  [], ◌∷◌, ◌++◌, map, arith,
}
use pi_db.Data.{
  Bytes, Bin, len, Error, SResult, DbResult, TxState, default_state, discriminant, to_state,
  to_string, RwLog, TabKv, new_tab_kv, TabMeta, meta_eqb, bon_eqb, prepare_conflicted_rw,
  unexpected_meta_log1, unexpected_meta_log2, previous_read_log_exist, previous_write_log_exist,
  previous_meta_log_exist, prepare_conflicted_value_diff, prepare_conflicted_old_not_none,
  error_prepare_null, meta_prepare_conflicting, meta_prepare_conflicted, tab_not_found,
  unknown_tab_type, unreachable_branch, ware_not_found, tr_query_error, modify_failed,
  duplicate_fork_tab_name, duplicate_fork_tab_name_in_meta_tab, tab_name_exist, delete_tab_failed,
  delete_tab_not_found, not_implemented, io_error, ok, err, doing, preparing, prepar_ok,
  prepar_fail, committing, commited, commit_fail, rollbacking, rollbacked, rollback_fail, read,
  write, meta,
}
use pi_db.HashMap.{HashMap, lookup, insert, remove}
use pi_db.Prepare.{try_prepare, Prepare}
use pi_db.OrdMap.{OrdMap}

-- A read is noted in the log of a writable transaction, unless the key is in the log.
abbrev pub note_read : Bool → Bytes → HashMap Bytes RwLog → HashMap Bytes RwLog
note_read writable key rwlog =
    if writable
    then elim (lookup key rwlog) [ some _ ↦ rwlog | none ↦ insert key read rwlog ]
    else rwlog

-- the value in the table against the one in the snapshot
abbrev pub check_old : Option Bin → Option Bin → Bool → DbResult
check_old (some _) (some _) true = ok tt
check_old (some _) (some _) false = err prepare_conflicted_value_diff
check_old (some _) none _ = err prepare_conflicted_value_diff
check_old none none _ = ok tt
check_old none (some _) _ = err prepare_conflicted_old_not_none

module _ {M : Type 0} {same : Bytes → Bytes → Bool} (om : OrdMap same Bin M) where
  -- `if tab.root.ptr_eq(&self.old) == false`
  abbrev pub check_root : (M → M → Bytes → Bool) → M → M → Bytes → DbResult
  check_root identical root old key =
      if om.ptr_eq root old
      then ok tt
      else check_old (om.get root key) (om.get old key) (identical root old key)

  -- the loop of `commit_inner` over the log, where the table has changed
  unfoldable pub apply_log : HashMap Bytes RwLog → M → M
  apply_log [] root = root
  apply_log ((k, read) ∷ rest) root = apply_log rest root
  apply_log ((k, write none) ∷ rest) root = apply_log rest (om.delete root k)
  apply_log ((k, write (some v)) ∷ rest) root = apply_log rest (om.upsert root k v)
  apply_log ((k, meta _) ∷ rest) root = apply_log rest root

  -- The two ways in which `commit_inner` brings the table's tree up to date: `mine` is the
  -- transaction's tree, `old` its snapshot.
  abbrev pub commit_root : M → M → HashMap Bytes RwLog → M → M
  commit_root mine old rwlog root = if not (om.ptr_eq root old) then apply_log rwlog root else mine

module _ {G M : Type 0} ⦃eg : Eq G⦄ (time : G → ℕ) {same : Bytes → Bytes → Bool}
    (om : OrdMap same Bin M) where
  -- The loop of `prepare_inner` over the log; `try_prepare` may remove overdue transactions.
  unfoldable pub check_keys :
      (M → M → Bytes → Bool) → ℕ → M → M → HashMap Bytes RwLog → Prepare G → DbResult × Prepare G
  check_keys identical now root old [] prepare = (ok tt, prepare)
  check_keys identical now root old ((key, rw_v) ∷ rest) prepare =
      let (r, prepare') = try_prepare time now prepare key rw_v in
      elim r [
        | err e ↦ (err e, prepare')
        | ok _ ↦ elim (check_root om identical root old key) [
          | err e ↦ (err e, prepare')
          | ok _ ↦ check_keys identical now root old rest prepare'
        ]
      ]
