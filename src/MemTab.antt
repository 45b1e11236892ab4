-- ===== src/MemTab.antt =====
-- src/memery_db.rs: a table in memory (`MemeryTab` behind `MTab`) and its transactions
-- (`MemeryTxn` behind `RefMemeryTxn`).
--
-- The table is shared by its transactions: an operation of a transaction takes the transaction and
-- the table, and returns both. A call `counter.sum(n)` of a performance counter (crate `apm`) is
-- noted in `stats`, the latest first.
pub mod Ref
pub mod Steps
pub mod Calls
pub mod Commit
pub mod Session
pub mod Race
pub mod Missed
use pi_db.Snapshot.{commit_root, apply_log, check_keys, note_read}
use pi_db.Base.{
  ltb, leb, nat_eqb, if◌then◌else◌, Bool-cases, Option-cases, Eq, ◌==◌, ==-refl, ==-ne, nat_eqb_iff,
  nat_eq, list_eqb, list_eqb_iff, list_eq, pair_eqb, pair_eqb_iff, pair_eq, length, get_elem?,
  length-append, length-map, All, ℕ, zero, suc, ◌+◌, ◌-◌, ◌*◌, ◌%◌, ◌^◌, ◌≤◌, ◌<◌, ◌≡◌, refl, sym,
  ap, ◌∙◌, ◌≢◌, ◌↔◌, ◌⊎◌, inl, inr, Bool, true, false, not, ◌&&◌, ◌||◌, Option, none, some, List,
  [], ◌∷◌, ◌++◌, map, arith,
}
use pi_db.Data.{
  Bytes, Bin, len, Error, SResult, DbResult, TxState, default_state, discriminant, to_state,
  to_string, RwLog, TabKv, new_tab_kv, TabMeta, meta_eqb, bon_eqb, prepare_conflicted_rw,
  unexpected_meta_log1, unexpected_meta_log2, previous_read_log_exist, previous_write_log_exist,
  previous_meta_log_exist, prepare_conflicted_value_diff, prepare_conflicted_old_not_none,
  error_prepare_null, meta_prepare_conflicting, meta_prepare_conflicted, tab_not_found,
  unknown_tab_type, unreachable_branch, ware_not_found, tr_query_error, modify_failed,
  duplicate_fork_tab_name, duplicate_fork_tab_name_in_meta_tab, tab_name_exist, delete_tab_failed,
  delete_tab_not_found, not_implemented, io_error, ok, err, doing, preparing, prepar_ok,
  prepar_fail, committing, commited, commit_fail, rollbacking, rollbacked, rollback_fail, read,
  write, meta,
}
use pi_db.HashMap.{HashMap, lookup, insert, remove}
use pi_db.OrdMap.{OrdMap}
use pi_db.Prepare.{try_prepare, Prepare}

-- The counter that is called, with its argument.
pub data Stat : Type 0 where
  trans_count prepare_count commit_count rollback_count read_count read_byte write_count write_byte
        remove_count remove_byte :
      ℕ → Stat

pub record MemeryTab (G M Atom : Type 0) : Type 0 where
  pub prepare : Prepare G
  pub root : M
  pub tab : Atom
  pub stats : List Stat

pub record MemeryTxn (G M : Type 0) : Type 0 where
  pub id : G
  pub writable : Bool
  pub root : M
  pub old : M
  pub rwlog : HashMap Bytes RwLog
  pub state : TxState

abbrev pub sum : {G M Atom : Type 0} → Stat → MemeryTab G M Atom → MemeryTab G M Atom
sum s t = record t { stats = s ∷ t.stats }

-- Values are held at addresses; keys are compared by the order of `Bon`.
module _ {G M Atom : Type 0} ⦃eg : Eq G⦄ (time : G → ℕ) {same : Bytes → Bytes → Bool}
    (om : OrdMap same Bin M) where
  -- `MTab::new`
  unfoldable pub new_tab : Atom → MemeryTab G M Atom
  new_tab tab = record { prepare = []; root = om.new; tab = tab; stats = [] }

  -- `MemeryTxn::new`
  unfoldable pub new_txn : MemeryTab G M Atom → G → Bool → MemeryTxn G M
  new_txn tab id writable = record {
    id = id;
    writable = writable;
    root = tab.root;
    old = tab.root;
    rwlog = [];
    state = default_state;
  }

  -- `MTab::transaction`
  unfoldable pub transaction : MemeryTab G M Atom → G → Bool → MemeryTxn G M × MemeryTab G M Atom
  unfolding new_txn
  transaction tab id writable =
      let tab' = sum (trans_count 1) tab in (new_txn tab' id writable, tab')

  unfoldable pub get :
      Bytes → MemeryTxn G M → MemeryTab G M Atom → Option Bin × MemeryTxn G M × MemeryTab G M Atom
  unfolding insert lookup
  get key txn tab = elim (om.get txn.root key) [
    | some v ↦ (
      some v,
      record txn { rwlog = note_read txn.writable key txn.rwlog },
      sum (read_byte (len v)) (sum (read_count 1) tab),
    )
    | none ↦ (none, txn, sum (read_count 1) tab)
  ]

  unfoldable pub upsert :
      Bytes
      → Bin
      → MemeryTxn G M
      → MemeryTab G M Atom
      → DbResult × MemeryTxn G M × MemeryTab G M Atom
  unfolding insert
  upsert key value txn tab = (
    ok tt,
    record txn {
      root = om.upsert txn.root key value;
      rwlog = insert key (write (some value)) txn.rwlog;
    },
    sum (write_count 1) (sum (write_byte (len value)) tab),
  )

  -- `OrdMap::delete` returns the value that it removes
  unfoldable pub delete :
      Bytes → MemeryTxn G M → MemeryTab G M Atom → DbResult × MemeryTxn G M × MemeryTab G M Atom
  unfolding insert
  delete key txn tab = (
    ok tt,
    record txn { root = om.delete txn.root key; rwlog = insert key (write none) txn.rwlog },
    elim (om.get txn.root key) [
      | some value ↦ sum (remove_count 1) (sum (remove_byte (length key + len value)) tab)
      | none ↦ tab
    ],
  )

  unfoldable pub prepare_inner :
      ℕ → MemeryTxn G M → MemeryTab G M Atom → DbResult × MemeryTxn G M × MemeryTab G M Atom
  unfolding insert
  prepare_inner now txn tab =
      let (r, prepare') =
        check_keys time om om.same_slot now tab.root txn.old txn.rwlog tab.prepare in
      elim r [
        | err e ↦ (err e, txn, record tab { prepare = prepare' })
        | ok _ ↦ (
          ok tt,
          record txn { rwlog = [] },
          sum (prepare_count 1) (record tab { prepare = insert txn.id txn.rwlog prepare' }),
        )
      ]

  -- `commit_inner` where no other task takes the table's lock between its own locks (MemTab/Steps.antt)
  unfoldable pub commit_inner :
      MemeryTxn G M
      → MemeryTab G M Atom
      → SResult (HashMap Bytes RwLog) × MemeryTxn G M × MemeryTab G M Atom
  unfolding remove lookup
  commit_inner txn tab = elim (lookup txn.id tab.prepare) [
    | none ↦ (err error_prepare_null, txn, record tab { prepare = remove txn.id tab.prepare })
    | some rwlog ↦ (
      ok rwlog,
      txn,
      sum (commit_count 1) (record tab {
        prepare = remove txn.id tab.prepare;
        root = commit_root om txn.root txn.old rwlog tab.root;
      }),
    )
  ]

  unfoldable pub rollback_inner :
      MemeryTxn G M → MemeryTab G M Atom → DbResult × MemeryTxn G M × MemeryTab G M Atom
  unfolding remove
  rollback_inner txn tab =
      (ok tt, txn, sum (rollback_count 1) (record tab { prepare = remove txn.id tab.prepare }))
