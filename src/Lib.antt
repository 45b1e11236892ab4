-- ===== src/Lib.antt =====
-- pi_db, a transactional store of tables: a model of its implementation (the directory src) and
-- theorems about it.
--
-- The program. A client's transaction (`Tr`, src/mgr.rs) reads and writes tables of several
-- libraries. A table is held in memory (src/memery_db.rs) or also in a log file
-- (src/log_file_db.rs). A transaction of one table works on a snapshot of the table's tree and notes
-- what it read and wrote; it is committed in two phases. `prepare` compares its notes with those of
-- the other prepared transactions (`Prepare::try_prepare`, src/tabs.rs) and with the present tree,
-- and hands them over to the table; `commit` takes them back and changes the tree, and the log file.
-- A table with a log file can be forked (src/fork.rs): the new table stands on the old one's records.
--
-- The files.
-- - Base, HashMap, OrdMap: equality and lists; the standard map; what is relied on of the ordered map
--   of the crate `ordmap`, with a map that meets it.
-- - Data: src/db.rs, its types and the numbering of states.
-- - Prepare: `Prepare::try_prepare` and its test of overdue transactions (src/tabs.rs).
-- - Snapshot: the parts that the transactions of both kinds of table share: what a read notes, the
--   loop of `prepare_inner`, the replay of `commit_inner`.
-- - MemTab: `MTab`, `MemeryTxn` and `RefMemeryTxn` of src/memery_db.rs; MemTab/Steps divides a commit
--   into the parts that it does under one lock each, and MemTab/Race interleaves two commits.
-- - LogStore: `AsyncLogFileStore` and its loader (src/log_file_db.rs), over what is relied on of the
--   log file of the crate `pi_store` (LogStore/File).
-- - LogTab: `LogFileTab`, `FileMemTxn` and `RefLogFileTxn` of src/log_file_db.rs; LogTab/Load is
--   `LogFileTab::new`, which reads a table's log file and those of the tables it is forked from.
-- - Fork: src/fork.rs, with `fork_prepare_inner`, `fork_commit_inner` and `LogFileMetaTxn` of
--   src/log_file_db.rs; Fork/Codec is the encoding of an entry of the log file `tabs_meta`.
-- - Tabs: `TabLog` and `Tabs` of src/tabs.rs, the changes of a library's tables and their two phases.
-- - Mgr: `Tr` of src/mgr.rs over an interface for libraries and their transactions (`Database`); the
--   grouping of a call's items and the order of the answers. Mgr/Tabular states what a client of
--   several tables relies on, and Mgr/Storing what the two phases over several tables rely on.
-- - Iter: the iterators of the three files that have one, with the boxes behind their addresses.
-- - Ware: what stands behind the interface. `World` has all shared objects in arenas; Ware/Build
--   is `TabLog::build` of src/tabs.rs with `open` of both libraries, Ware/Shots and Ware/Txns
--   are the enums of src/mgr.rs that pass each call on, Ware/Dispatch puts them together as a
--   `Database`, and Ware/Client and Ware/Stored show that it meets Mgr/Tabular and Mgr/Storing.
--   Ware/Clones has a library and its copy side by side. Ware/Libs is `Mgr` with its `WareMap`,
--   Ware/Startup is `LogFileDB::new`, and Ware/Collector is `LogFileDB::collect`, both of
--   src/log_file_db.rs.
-- - Collect: the test of the date in src/db_collect.rs.
-- - Examples: concrete tables, files and transactions.
--
-- How state is modelled. A lock's content is a value that an operation takes and returns. The time,
-- the identifiers with their times, interned strings and the pointer tests of the ordered map are
-- parameters. A value in memory is its bytes with the address at which they stand (`Bin`). Where an
-- operation takes a lock several times, the definition is the run that no other task interrupts, and
-- MemTab/Steps has the parts. `usize` and `u64` wrap around where the code subtracts or counts up
-- and the result could leave their range.
--
-- Shared objects. What the program holds behind an `Arc` is a position in an arena of the
-- `World`, so that two holders of one position see each other's changes: the tables, their
-- cells, the two locks of a `Tabs`, the logs of snapshots and the transactions. A step of
-- `prepare`, `commit` or `rollback` of `Tr` that panics, such as one that forks a table in
-- memory, ends the call with a panic (`Verdict` in Mgr). Where a table or a library that is
-- opened panics, the world is marked, and no theorem speaks of what comes after.
--
-- Fuel. `build_fork_chain` follows parents in a loop without a bound; its definition takes fuel, and
-- fuel above the table's rank in the forest is enough (Fork/Chain), as is fuel above the number of
-- tables while a library starts (Ware/Ordered). The client that asks an iterator for all it has takes
-- fuel above the number of items (Iter/Drained).
--
-- Not modelled: the iterators of the crate `ordmap`, of which only the sequence that they yield
-- counts; the timer of the collector; the opening, reading and splitting of log files, of the
-- crate `pi_store`, which are parameters; `set_tab_meta` besides its call of the ordered map's
-- `insert`; the generator of identifiers; functions that do nothing (`index`, `key_lock`,
-- `rename`, `notify`); the performance counters besides the calls that count; the tests and
-- benchmarks.
mod Base
pub mod HashMap
pub mod OrdMap
pub mod Data
pub mod Prepare
pub mod Snapshot
pub mod MemTab
pub mod LogStore
pub mod LogTab
pub mod Tabs
pub mod Fork
pub mod Mgr
pub mod Iter
pub mod Ware
pub mod Collect
pub mod Examples
