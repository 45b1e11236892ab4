-- ===== src/Ware/Txns.antt =====
-- `DatabaseTabTxn` and `DatabaseMetaTxn` of src/mgr.rs: each call goes to the transaction of a table
-- in memory (`RefMemeryTxn`, and `MemeryMetaTxn`, whose functions do nothing) or of one with a log
-- file (`RefLogFileTxn`, and `LogFileMetaTxn`). A table in memory cannot be forked: that panics.
use pi_db.Base.{map, Bool, Eq, nat_eq, list_eq, pair_eq, ℕ, Option, none, some, List, []}
use pi_db.Data.{Bytes, SResult, DbResult, TxState, RwLog, TabKv, TabMeta, ok, err}
use pi_db.HashMap.{HashMap}
use pi_db.MemTab.{MemeryTab, MemeryTxn}
use pi_db.LogTab.{LogFileTab, FileMemTxn}
use pi_db.MemTab.Ref as Mem
use pi_db.LogTab.Ref as File
use pi_db.Fork.{fork_prepare_inner, fork_commit_inner}
use pi_db.Iter.{new_box}
use pi_db.Mgr.{Verdict, verdict, passed, panicked}
use pi_db.Fork.Meta.{meta_alter, meta_commit, meta_prepare, meta_rollback}
use pi_db.Ware.{
  World, Outside, assign, DatabaseTabTxn, mem_tab_txn, log_file_tab_txn, DatabaseMetaTxn,
  mem_meta_txn, log_file_meta_txn,
}

module _ {G M Atom F P : Type 0} where
  -- a call that leaves the table as it is
  abbrev pub alone :
      {A : Type 0}
      → (FileMemTxn G M → A × FileMemTxn G M)
      → FileMemTxn G M
      → LogFileTab G M Atom F P
      → A × FileMemTxn G M × LogFileTab G M Atom F P
  alone call txn tab = let (r, txn') = call txn in (r, txn', tab)

module _ {G M T Atom EnumType F P : Type 0} where
  abbrev pub mem_txn_of : ℕ → World G M T Atom EnumType F P → MemeryTxn G M
  mem_txn_of t w = (w.mem_txns.cell t).txn

  abbrev pub mem_tab_of : ℕ → World G M T Atom EnumType F P → MemeryTab G M Atom
  mem_tab_of t w = w.mem_tabs.cell (w.mem_txns.cell t).tab

  abbrev pub file_txn_of : ℕ → World G M T Atom EnumType F P → FileMemTxn G M
  file_txn_of t w = (w.file_txns.cell t).txn

  abbrev pub file_tab_of : ℕ → World G M T Atom EnumType F P → LogFileTab G M Atom F P
  file_tab_of t w = w.file_tabs.cell (w.file_txns.cell t).tab

  -- A call on a transaction, which works on it and on its table.
  abbrev pub on_mem :
      {A : Type 0}
      → (MemeryTxn G M → MemeryTab G M Atom → A × MemeryTxn G M × MemeryTab G M Atom)
      → ℕ
      → World G M T Atom EnumType F P
      → A × World G M T Atom EnumType F P
  on_mem call t w =
      let (r, txn', tab') = call (mem_txn_of t w) (mem_tab_of t w) in
      (
        r,
        record w {
          mem_txns = assign t (record { tab = (w.mem_txns.cell t).tab; txn = txn' }) w.mem_txns;
          mem_tabs = assign (w.mem_txns.cell t).tab tab' w.mem_tabs;
        },
      )

  abbrev pub on_file :
      {A : Type 0}
      → (FileMemTxn G M → LogFileTab G M Atom F P → A × FileMemTxn G M × LogFileTab G M Atom F P)
      → ℕ
      → World G M T Atom EnumType F P
      → A × World G M T Atom EnumType F P
  on_file call t w =
      let (r, txn', tab') = call (file_txn_of t w) (file_tab_of t w) in
      (
        r,
        record w {
          file_txns = assign t (record { tab = (w.file_txns.cell t).tab; txn = txn' }) w.file_txns;
          file_tabs = assign (w.file_txns.cell t).tab tab' w.file_tabs;
        },
      )

abbrev pub answered : {A W : Type 0} → A × W → SResult A × W
answered (a, w) = (ok a, w)

module _ {G M T Atom EnumType F P : Type 0} ⦃eg : Eq G⦄ ⦃ea : Eq Atom⦄
    (out : Outside G M T Atom EnumType F P) where
  unfoldable pub query :
      DatabaseTabTxn
      → List (TabKv Atom)
      → World G M T Atom EnumType F P
      → SResult (List (TabKv Atom)) × World G M T Atom EnumType F P
  unfolding Mem.query File.query
  query (mem_tab_txn t) arr w = answered (on_mem (Mem.query out.time out.trees arr) t w)
  query (log_file_tab_txn t) arr w = answered (on_file (alone (File.query out.trees arr)) t w)

  unfoldable pub modify :
      DatabaseTabTxn
      → List (TabKv Atom)
      → World G M T Atom EnumType F P
      → DbResult × World G M T Atom EnumType F P
  unfolding Mem.modify File.modify
  modify (mem_tab_txn t) arr w = on_mem (Mem.modify out.time out.trees arr) t w
  modify (log_file_tab_txn t) arr w = on_file (alone (File.modify out.trees arr)) t w

  unfoldable pub tab_size : DatabaseTabTxn → World G M T Atom EnumType F P → SResult ℕ
  unfolding Mem.tab_size File.tab_size
  tab_size (mem_tab_txn t) w = Mem.tab_size out.trees (mem_txn_of t w)
  tab_size (log_file_tab_txn t) w = File.tab_size out.trees (file_txn_of t w)

  -- `iter` and `key_iter`: a new iterator of the transaction's tree
  abbrev pub tree_of : DatabaseTabTxn → World G M T Atom EnumType F P → M
  tree_of (mem_tab_txn t) w = (mem_txn_of t w).root
  tree_of (log_file_tab_txn t) w = (file_txn_of t w).root

  unfoldable pub iter :
      DatabaseTabTxn
      → Option Bytes
      → Bool
      → World G M T Atom EnumType F P
      → SResult ℕ × World G M T Atom EnumType F P
  iter t key descending w =
      let (p, iters') = new_box (out.trees.iter (tree_of t w) key descending) w.iters in
      (ok p, record w { iters = iters' })

  unfoldable pub key_iter :
      DatabaseTabTxn
      → Option Bytes
      → Bool
      → World G M T Atom EnumType F P
      → SResult ℕ × World G M T Atom EnumType F P
  key_iter t key descending w =
      let (p, key_iters') =
        new_box (map (λ e. e.0) (out.trees.iter (tree_of t w) key descending)) w.key_iters in
      (ok p, record w { key_iters = key_iters' })

  unfoldable pub get_state : DatabaseTabTxn → World G M T Atom EnumType F P → TxState
  get_state (mem_tab_txn t) w = (mem_txn_of t w).state
  get_state (log_file_tab_txn t) w = (file_txn_of t w).state

  unfoldable pub prepare :
      DatabaseTabTxn → World G M T Atom EnumType F P → DbResult × World G M T Atom EnumType F P
  unfolding Mem.prepare File.prepare
  prepare (mem_tab_txn t) w = on_mem (Mem.prepare out.time out.trees out.now) t w
  prepare (log_file_tab_txn t) w =
      on_file (File.prepare out.time out.trees out.log_file out.now) t w

  unfoldable pub commit :
      DatabaseTabTxn
      → World G M T Atom EnumType F P
      → SResult (HashMap Bytes RwLog) × World G M T Atom EnumType F P
  unfolding Mem.commit File.commit
  commit (mem_tab_txn t) w = on_mem (Mem.commit out.time out.trees) t w
  commit (log_file_tab_txn t) w = on_file (File.commit out.time out.trees out.log_file) t w

  unfoldable pub rollback :
      DatabaseTabTxn → World G M T Atom EnumType F P → DbResult × World G M T Atom EnumType F P
  unfolding Mem.rollback File.rollback
  rollback (mem_tab_txn t) w = on_mem (Mem.rollback out.time out.trees) t w
  rollback (log_file_tab_txn t) w = on_file (File.rollback out.time out.trees out.log_file) t w

  -- the table that is forked is that of the transaction; its log file is split
  unfoldable pub txn_fork_prepare :
      DatabaseTabTxn
      → Atom
      → Atom
      → Atom
      → TabMeta EnumType
      → World G M T Atom EnumType F P
      → Verdict × World G M T Atom EnumType F P
  unfolding fork_prepare_inner
  txn_fork_prepare (mem_tab_txn t) ware tab_name fork_tab_name m w = (panicked, w)
  txn_fork_prepare (log_file_tab_txn t) ware tab_name fork_tab_name m w =
      verdict (fork_prepare_inner w.all_tables fork_tab_name, w)

  unfoldable pub txn_fork_commit :
      DatabaseTabTxn
      → Atom
      → Atom
      → Atom
      → TabMeta EnumType
      → World G M T Atom EnumType F P
      → Verdict × World G M T Atom EnumType F P
  unfolding fork_commit_inner
  txn_fork_commit (mem_tab_txn t) ware tab_name fork_tab_name m w = (panicked, w)
  txn_fork_commit (log_file_tab_txn t) ware tab_name fork_tab_name m w =
      let tab = file_tab_of t w in
      let (r, file', tables', meta_file') =
        fork_commit_inner out.coding out.log_file out.force_fork tab_name fork_tab_name m
          tab.store.log_file w.all_tables w.meta_file in
      verdict (
        r,
        record w {
          file_tabs =
              assign (w.file_txns.cell t).tab
                (record tab { store = record tab.store { log_file = file' } }) w.file_tabs;
          all_tables = tables';
          meta_file = meta_file';
        },
      )

  unfoldable pub txn_fork_rollback :
      DatabaseTabTxn → World G M T Atom EnumType F P → Verdict × World G M T Atom EnumType F P
  txn_fork_rollback (mem_tab_txn t) w = (panicked, w)
  txn_fork_rollback (log_file_tab_txn t) w = (passed, w)

  -- `none` is a panic
  unfoldable pub txn_force_fork :
      DatabaseTabTxn
      → World G M T Atom EnumType F P
      → Option (SResult ℕ) × World G M T Atom EnumType F P
  txn_force_fork (mem_tab_txn t) w = (none, w)
  txn_force_fork (log_file_tab_txn t) w =
      let tab = file_tab_of t w in
      let (r, file') = out.force_fork tab.store.log_file in
      (
        some r,
        record w {
          file_tabs =
              assign (w.file_txns.cell t).tab
                (record tab { store = record tab.store { log_file = file' } }) w.file_tabs;
        },
      )

module _ {G M T Atom EnumType F P : Type 0} ⦃ea : Eq Atom⦄
    (out : Outside G M T Atom EnumType F P) where
  unfoldable pub meta_txn_alter :
      DatabaseMetaTxn
      → Atom
      → Option (TabMeta EnumType)
      → World G M T Atom EnumType F P
      → DbResult × World G M T Atom EnumType F P
  unfolding meta_alter
  meta_txn_alter mem_meta_txn tab_name m w = (ok tt, w)
  meta_txn_alter (log_file_meta_txn t) tab_name m w =
      let (r, alters') = meta_alter tab_name m (w.alters.cell t) in
      (r, record w { alters = assign t alters' w.alters })

  unfoldable pub meta_txn_prepare :
      DatabaseMetaTxn → World G M T Atom EnumType F P → DbResult × World G M T Atom EnumType F P
  unfolding meta_prepare
  meta_txn_prepare mem_meta_txn w = (ok tt, w)
  meta_txn_prepare (log_file_meta_txn t) w = (meta_prepare (w.alters.cell t), w)

  -- a commit returns an empty log
  unfoldable pub meta_txn_commit :
      DatabaseMetaTxn
      → World G M T Atom EnumType F P
      → SResult (HashMap Bytes RwLog) × World G M T Atom EnumType F P
  unfolding meta_commit
  meta_txn_commit mem_meta_txn w = (ok [], w)
  meta_txn_commit (log_file_meta_txn t) w =
      let (r, tables', file') =
        meta_commit out.coding out.log_file (w.alters.cell t) w.all_tables w.meta_file in
      (
        elim r [ ok _ ↦ ok [] | err e ↦ err e ],
        record w { all_tables = tables'; meta_file = file' },
      )

  unfoldable pub meta_txn_rollback :
      DatabaseMetaTxn → World G M T Atom EnumType F P → DbResult × World G M T Atom EnumType F P
  unfolding meta_rollback
  meta_txn_rollback mem_meta_txn w = (ok tt, w)
  meta_txn_rollback (log_file_meta_txn t) w =
      let (r, alters') = meta_rollback (w.alters.cell t) in
      (r, record w { alters = assign t alters' w.alters })
