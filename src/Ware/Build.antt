-- ===== src/Ware/Build.antt =====
-- `build` of `TabLog` in src/tabs.rs: a table is opened once, into the cell that all entries of the
-- table share, and each call starts a transaction of it; with `open` of `MemDB` in src/memery_db.rs
-- and of `LogFileDB` in src/log_file_db.rs, and `transaction` of both kinds of table.
use pi_db.Base.{
  if◌then◌else◌, Bool, List, Eq, nat_eq, list_eq, pair_eq, get_elem?, ℕ, zero, suc, true, none,
  some, [], ◌∷◌,
}
use pi_db.Data.{unknown_tab_type, tab_not_found, unreachable_branch, SResult, io_error, ok, err}
use pi_db.HashMap.{lookup, insert}
use pi_db.MemTab as MemTab
use pi_db.LogTab as LogTab
use pi_db.LogTab.Load.{new_log_file_tab}
use pi_db.Tabs.{TabLog, log_file_tab, mem_tab, TabType, Cells, TabInit, unkonwn}
use pi_db.Fork.{TableMetaInfo, build_fork_chain, finished, panicked, unfinished}
use pi_db.Ware.{
  memory_db, log_file_db, mem_txn, log_file_txn, assign, TxnType, BuildDbType, World, Outside,
  alloc, panic,
}

module _ {MT LT : Type 0} where
  -- A cell that is not there reads as a new one: no entry points to such a cell.
  abbrev pub cell_at : ℕ → Cells MT LT → TabInit MT LT
  cell_at i cells = elim (get_elem? cells i) [
    | some c ↦ c
    | none ↦ record { tab_type = unkonwn; wait = some true }
  ]

  abbrev pub put_cell : ℕ → TabInit MT LT → Cells MT LT → Cells MT LT
  put_cell i c [] = []
  put_cell zero c (x ∷ xs) = c ∷ xs
  put_cell (suc i) c (x ∷ xs) = x ∷ put_cell i c xs

module _ {G M T Atom EnumType F P : Type 0} ⦃eg : Eq G⦄ ⦃ea : Eq Atom⦄ ⦃ep : Eq P⦄
    (out : Outside G M T Atom EnumType F P) where
  -- `MemDB::open`
  abbrev pub mem_open :
      Atom → World G M T Atom EnumType F P → SResult ℕ × World G M T Atom EnumType F P
  mem_open tab w =
      let (at, mem_tabs') = alloc (MemTab.new_tab out.time out.trees tab) w.mem_tabs in
      (ok at, record w { mem_tabs = mem_tabs' })

  -- a table that is not in `LOG_FILE_TABS` yet; a panic gives no result
  abbrev pub load_tab :
      Atom
      → List (TableMetaInfo Atom EnumType)
      → World G M T Atom EnumType F P
      → SResult ℕ × World G M T Atom EnumType F P
  load_tab tab chains w = elim (new_log_file_tab out.reader out.trees (out.base tab) tab chains) [
    | none ↦ (err io_error, panic w)
    | some t ↦
        let (at, file_tabs') = alloc t w.file_tabs in
        (ok at, record w { file_tabs = file_tabs'; log_file_tabs = insert tab at w.log_file_tabs })
  ]

  -- `LogFileDB::open`; a chain without an end, in which the code would stay, counts as a panic
  unfoldable pub log_file_open :
      Atom → World G M T Atom EnumType F P → SResult ℕ × World G M T Atom EnumType F P
  unfolding build_fork_chain lookup insert new_log_file_tab
  log_file_open tab w = elim (build_fork_chain out.fuel w.all_tables tab) [
    | panicked ↦ (err io_error, panic w)
    | unfinished ↦ (err io_error, panic w)
    | finished chains ↦ elim (lookup tab w.log_file_tabs) [
      | some t ↦ (ok t, w)
      | none ↦ load_tab tab chains w
    ]
  ]

  -- `open` of the library, and what it opens goes into the cell
  abbrev pub fill_cell :
      BuildDbType
      → Atom
      → ℕ
      → World G M T Atom EnumType F P
      → SResult (TabType ℕ ℕ) × World G M T Atom EnumType F P
  fill_cell memory_db tab_name at w =
      let (r, w') = mem_open tab_name w in
      elim r [
        | err e ↦ (err e, w')
        | ok t ↦ (
          ok (mem_tab t),
          record w' { cells = put_cell at (record { tab_type = mem_tab t; wait = none }) w'.cells },
        )
      ]
  fill_cell log_file_db tab_name at w =
      let (r, w') = log_file_open tab_name w in
      elim r [
        | err e ↦ (err e, w')
        | ok t ↦ (
          ok (log_file_tab t),
          record w' {
            cells = put_cell at (record { tab_type = log_file_tab t; wait = none }) w'.cells;
          },
        )
      ]

  -- the block that holds the cell's lock
  unfoldable pub open_cell :
      BuildDbType
      → Atom
      → ℕ
      → World G M T Atom EnumType F P
      → SResult (TabType ℕ ℕ) × World G M T Atom EnumType F P
  unfolding log_file_open MemTab.new_tab
  open_cell ware tab_name at w = elim (cell_at at w.cells).wait [
    | none ↦ (ok (cell_at at w.cells).tab_type, w)
    | some vec ↦ if vec then fill_cell ware tab_name at w else (err unreachable_branch, w)
  ]

  -- `transaction` of the table
  unfoldable pub start :
      TabType ℕ ℕ
      → G
      → Bool
      → World G M T Atom EnumType F P
      → SResult TxnType × World G M T Atom EnumType F P
  unfolding MemTab.transaction LogTab.transaction
  start unkonwn id writable w = (err unknown_tab_type, w)
  start (mem_tab t) id writable w =
      let (txn, tab') = MemTab.transaction out.time out.trees (w.mem_tabs.cell t) id writable in
      let (at, mem_txns') = alloc (record { tab = t; txn = txn }) w.mem_txns in
      (ok (mem_txn at), record w { mem_tabs = assign t tab' w.mem_tabs; mem_txns = mem_txns' })
  start (log_file_tab t) id writable w =
      let txn =
        LogTab.transaction out.time out.trees out.log_file (w.file_tabs.cell t) id writable in
      let (at, file_txns') = alloc (record { tab = t; txn = txn }) w.file_txns in
      (ok (log_file_txn at), record w { file_txns = file_txns' })

  unfoldable pub build_txn :
      BuildDbType
      → Atom
      → G
      → Bool
      → TabLog Atom EnumType T
      → World G M T Atom EnumType F P
      → SResult TxnType × World G M T Atom EnumType F P
  unfolding open_cell start
  build_txn ware tab_name id writable log w = elim (out.tab_trees.get log.map tab_name) [
    | none ↦ (err tab_not_found, w)
    | some info ↦
        let (tab, w') = open_cell ware tab_name info.init w in
        elim tab [ err e ↦ (err e, w') | ok t ↦ start t id writable w' ]
  ]
