-- ===== src/Ware.antt =====
-- src/mgr.rs over src/memery_db.rs, src/log_file_db.rs and src/tabs.rs: the libraries behind the
-- interface of Mgr.antt, with all that they share.
--
-- What stands behind an `Arc` is in an arena, and a handle is its position there; two handles with one
-- position share what is there. What the libraries take from outside this repository is in `Outside`.
pub mod Build
pub mod Shots
pub mod Txns
pub mod Dispatch
pub mod Libs
pub mod Opened
pub mod Reads
pub mod Client
pub mod Apart
pub mod Stored
pub mod Forked
pub mod Changes
pub mod Startup
pub mod Registered
pub mod Ordered
pub mod Collector
pub mod Selected
pub mod Beside
pub mod Clones
use pi_db.Base.{
  ltb, leb, nat_eqb, if◌then◌else◌, Bool-cases, Option-cases, Eq, ◌==◌, ==-refl, ==-ne, nat_eqb_iff,
  nat_eq, list_eqb, list_eqb_iff, list_eq, pair_eqb, pair_eqb_iff, pair_eq, length, get_elem?,
  length-append, length-map, All, ℕ, zero, suc, ◌+◌, ◌-◌, ◌*◌, ◌%◌, ◌^◌, ◌≤◌, ◌<◌, ◌≡◌, refl, sym,
  ap, ◌∙◌, ◌≢◌, ◌↔◌, ◌⊎◌, inl, inr, Bool, true, false, not, ◌&&◌, ◌||◌, Option, none, some, List,
  [], ◌∷◌, ◌++◌, map, arith,
}
use pi_db.Data.{
  Bytes, Bin, len, Error, SResult, Result-cases, DbResult, TxState, default_state, discriminant,
  to_state, to_string, RwLog, TabKv, new_tab_kv, TabMeta, meta_eqb, bon_eqb, prepare_conflicted_rw,
  unexpected_meta_log1, unexpected_meta_log2, previous_read_log_exist, previous_write_log_exist,
  previous_meta_log_exist, prepare_conflicted_value_diff, prepare_conflicted_old_not_none,
  error_prepare_null, meta_prepare_conflicting, meta_prepare_conflicted, tab_not_found,
  unknown_tab_type, unreachable_branch, ware_not_found, tr_query_error, modify_failed,
  duplicate_fork_tab_name, duplicate_fork_tab_name_in_meta_tab, tab_name_exist, delete_tab_failed,
  delete_tab_not_found, not_implemented, io_error, ok, err, doing, preparing, prepar_ok,
  prepar_fail, committing, commited, commit_fail, rollbacking, rollbacked, rollback_fail, read,
  write, meta,
}
use pi_db.HashMap.{HashMap, lookup, insert, remove}
use pi_db.OrdMap.{OrdMap}
use pi_db.Iter.{Boxes}
use pi_db.MemTab.{MemeryTab, MemeryTxn}
use pi_db.LogStore.File.{LogFile}
use pi_db.LogTab.{LogFileTab, FileMemTxn}
use pi_db.LogTab.Load.{Reader}
use pi_db.Tabs.{Cells, TabInfo, TabLog, Tabs, TabInit, TabType, unkonwn}
use pi_db.Fork.{Tables, Coding}
use pi_db.Fork.Meta.{Alters}

pub record Arena (A : Type 0) : Type 0 where
  pub next : ℕ
  pub cell : ℕ → A

module _ {A : Type 0} where
  abbrev pub assign : ℕ → A → Arena A → Arena A
  assign p a h = record { next = h.next; cell = λ q. if nat_eqb p q then a else h.cell q }

  abbrev pub alloc : A → Arena A → ℕ × Arena A
  alloc a h =
      (h.next, record { next = suc h.next; cell = λ q. if nat_eqb h.next q then a else h.cell q })

pub cell-assign : {A : Type 0} (p : ℕ) (a : A) (h : Arena A) → (assign p a h).cell p ≡ a
cell-assign p a h = ground arith

pub cell-assign_other :
    {A : Type 0} (p q : ℕ) (a : A) (h : Arena A)
    → nat_eqb p q ≡ false
    → (assign p a h).cell q ≡ h.cell q
cell-assign_other p q a h e = ground arith

-- A transaction of a table, with the position of its table.
pub record Owned (Txn : Type 0) : Type 0 where
  pub tab : ℕ
  pub txn : Txn

-- `M` is the tree of a table's records, `T` that of a library's tables.
pub record World (G M T Atom EnumType F P : Type 0) : Type 0 where
  pub mem_tabs : Arena (MemeryTab G M Atom)
  pub mem_txns : Arena (Owned (MemeryTxn G M))
  pub file_tabs : Arena (LogFileTab G M Atom F P)
  pub file_txns : Arena (Owned (FileMemTxn G M))
  -- the cells of the tables; a table is a position in `mem_tabs` or in `file_tabs`
  pub cells : Cells ℕ ℕ
  -- the two locks of each `Tabs`
  pub maps : Arena T
  pub prepares : Arena (HashMap G (TabLog Atom EnumType T))
  pub logs : Arena (TabLog Atom EnumType T)
  pub alters : Arena (Alters Atom EnumType)
  -- `LOG_FILE_TABS`, `ALL_TABLES` and the log file `tabs_meta`
  pub log_file_tabs : HashMap Atom ℕ
  pub all_tables : Tables Atom EnumType
  pub meta_file : F
  -- the iterators of tables, and those of their keys
  pub iters : Boxes (Bytes × Bin)
  pub key_iters : Boxes Bytes
  -- The opening of a table or of a library has panicked. What the model does after that is not what
  -- the code does.
  pub panicked : Bool

-- `now` is what `now_nanosecond()` returns, `base` where the values of an opened table are put, and
-- `fuel` bounds the length of a chain of forks.
pub record Outside (G M T Atom EnumType F P : Type 0) ⦃ea : Eq Atom⦄ : Type 0 where
  pub time : G → ℕ
  pub now : ℕ
  pub same : Bytes → Bytes → Bool
  pub trees : OrdMap same Bin M
  pub tab_trees : OrdMap ea.beq (TabInfo EnumType) T
  pub log_file : LogFile F
  pub reader : Reader Atom F P
  pub coding : Coding Atom EnumType
  pub force_fork : F → SResult ℕ × F
  pub base : Atom → ℕ
  pub fuel : ℕ

-- `Tabs` as a pair of shared locks
pub record TabsRef : Type 0 where
  pub map_at : ℕ
  pub prepare_at : ℕ

-- `MemDBSnapshot` and `LogFileDBSnapshot`
pub record Shot : Type 0 where
  pub db : TabsRef
  pub log_at : ℕ

-- the enums of src/mgr.rs, whose payloads are handles
pub data DatabaseWare : Type 0 where
  mem_ware log_file_ware : TabsRef → DatabaseWare

pub data DatabaseWareSnapshot : Type 0 where
  mem_snapshot log_file_snapshot : Shot → DatabaseWareSnapshot

pub data DatabaseTabTxn : Type 0 where
  mem_tab_txn log_file_tab_txn : ℕ → DatabaseTabTxn

-- `MemeryMetaTxn` has no fields
pub data DatabaseMetaTxn : Type 0 where
  mem_meta_txn : DatabaseMetaTxn
  log_file_meta_txn : ℕ → DatabaseMetaTxn

-- `TxnType` of src/tabs.rs
pub data TxnType : Type 0 where
  mem_txn log_file_txn : ℕ → TxnType

-- `BuildDbType` of src/db.rs
pub data BuildDbType : Type 0 where
  memory_db log_file_db : BuildDbType

module _ {G M T Atom EnumType F P : Type 0} where
  abbrev pub panic : World G M T Atom EnumType F P → World G M T Atom EnumType F P
  panic w = record w { panicked = true }

  -- the two locks of a `Tabs`, read and written
  abbrev pub tabs_at : TabsRef → World G M T Atom EnumType F P → Tabs G Atom EnumType T
  tabs_at r w = record { map = w.maps.cell r.map_at; prepare = w.prepares.cell r.prepare_at }

  abbrev pub put_tabs :
      TabsRef
      → Tabs G Atom EnumType T
      → World G M T Atom EnumType F P
      → World G M T Atom EnumType F P
  put_tabs r tabs w = record w {
    maps = assign r.map_at tabs.map w.maps;
    prepares = assign r.prepare_at tabs.prepare w.prepares;
  }
