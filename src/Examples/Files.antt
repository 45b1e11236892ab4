-- ===== src/Examples/Files.antt =====
-- The theorems on log files and on tables with log files, at concrete files and transactions.
use pi_db.OrdMap.Versioned.{versioned}
use pi_db.Base.{
  Eq, nat_eq, list_eq, pair_eq, ℕ, ◌≡◌, refl, true, false, none, some, List, [], ◌∷◌, arith,
}
use pi_db.Data.{Bytes, RwLog, error_prepare_null, ok, err, doing}
use pi_db.HashMap.{lookup}
use pi_db.Examples.{
  bin_eq, Tree, trees, same_bytes-Canonical, clock, key1, key2, tree1, log2, tree2, MemFile,
  mem_file, full_file,
}
use pi_db.Snapshot.Overlay.{overlay, IsOverlay}
use pi_db.Snapshot.{check_keys}
use pi_db.LogStore.{write_batch, AsyncLogFileStore, new_store}
use pi_db.Prepare.{try_prepare}
use pi_db.LogStore.File.{Record, plain_append, removes, view}
use pi_db.LogStore.Loader.{load_all}
use pi_db.LogStore.Recovery.{load_all-view, records}
use pi_db.LogStore.Writes.{IsLogged, write_op, apply_op, apply_op-IsLogged}
use pi_db.LogTab.{LogFileTab, FileMemTxn, prepare_inner, commit_inner, rollback_inner, write_logs}
use pi_db.LogTab.Commit.{log_prepare-ok, log_commit-view}
use pi_db.LogTab.Durable.{bytes_of}
use pi_db.LogTab.Recovery.{IsDurable, commit-recovers, commit-hides_failure}

abbrev record1 : Record
record1 = record { method = plain_append; key = key1; value = 7 ∷ [] }

abbrev old_records : List (ℕ × Record)
old_records =
    (1, record { method = removes; key = key2; value = [] })
    ∷ (1, record1)
    ∷ (0, record { method = plain_append; key = key2; value = 4 ∷ [] })
    ∷ []

-- a store with one record in its log file
abbrev store1 : AsyncLogFileStore MemFile ℕ
store1 = record {
  removed = [];
  map = (key1, 7 ∷ []) ∷ [];
  log_file = (record1 ∷ [], []);
  tmp_map = [];
  writable_path = none;
  is_statistics = false;
  is_init = false;
  statistics = [];
}

store1-IsLogged : IsLogged mem_file store1
unfolding lookup view
store1-IsLogged = record { idle = refl; copied = λ k. refl }

abbrev table2 : LogFileTab ℕ Tree ℕ MemFile ℕ
table2 = record { prepare = (2, log2) ∷ []; root = tree1; tab = 1; store = store1 }

abbrev txn2 : FileMemTxn ℕ Tree
txn2 = record { id = 2; writable = true; root = tree2; old = tree1; rwlog = log2; state = doing }

txn2-IsOverlay : IsOverlay trees txn2.root txn2.old log2
unfolding versioned lookup
txn2-IsOverlay = record { distinct = (refl, tt); view = λ k. ground arith }

table2-IsDurable : IsDurable trees mem_file table2
unfolding versioned lookup
table2-IsDurable = record { logged = store1-IsLogged; agrees = λ k. ground arith }

load_all-view_example :
    lookup key2 (load_all old_records (new_store {F = MemFile} ([], []))).map
    ≡ view (records old_records) key2
load_all-view_example = load_all-view old_records ([], []) key2

apply_op-IsLogged_example :
    ((apply_op mem_file (write_op key2 (4 ∷ [])) store1).0 ≡ true
      → IsLogged mem_file (apply_op mem_file (write_op key2 (4 ∷ [])) store1).1)
    × ((apply_op mem_file (write_op key2 (4 ∷ [])) store1).0 ≡ false
        → (apply_op mem_file (write_op key2 (4 ∷ [])) store1).1.map ≡ store1.map)
apply_op-IsLogged_example =
    apply_op-IsLogged mem_file (write_op key2 (4 ∷ [])) store1 store1-IsLogged

log_prepare-ok_example :
    let (r, txn', tab') =
      prepare_inner clock trees mem_file 10 txn2 (record table2 { prepare = [] }) in
    ((k : Bytes) (l : RwLog) → lookup k log2 ≡ some l → trees.get tree1 k ≡ trees.get tree1 k)
    × (lookup 2 tab'.prepare ≡ some log2)
    × (txn'.rwlog ≡ [])
    × (tab'.root ≡ tree1)
    × (tab'.store ≡ store1)
unfolding prepare_inner versioned check_keys try_prepare
log_prepare-ok_example =
    log_prepare-ok clock trees mem_file 10 txn2 (record table2 { prepare = [] })
      (λ k v w p q h. ground (arith)) refl

log_commit-view_example :
    let (r, txn', tab') = commit_inner clock trees mem_file txn2 table2 in
    let (again, _, tab'') = commit_inner clock trees mem_file txn2 tab' in
    let (undone, _, undone_tab) =
      commit_inner clock trees mem_file txn2 (rollback_inner clock trees mem_file txn2 table2).2 in
    (r ≡ ok log2)
    × ((k : Bytes) → trees.get tab'.root k ≡ overlay log2 k (trees.get tree1 k))
    × (tab'.store ≡ write_logs mem_file log2 store1)
    × (again ≡ err error_prepare_null)
    × (tab''.root ≡ tab'.root)
    × (tab''.store ≡ tab'.store)
    × (undone ≡ err error_prepare_null)
    × (undone_tab.root ≡ tree1)
    × (undone_tab.store ≡ store1)
unfolding lookup
log_commit-view_example =
    log_commit-view clock trees mem_file same_bytes-Canonical txn2 table2 log2 txn2-IsOverlay refl

commit-recovers_example :
    let tab' = (commit_inner clock trees mem_file txn2 table2).2 in
    IsDurable trees mem_file tab'
    × ((ep : Eq ℕ) (file : MemFile) (read_back : List (ℕ × Record)) (k : Bytes)
        → records read_back ≡ mem_file.written tab'.store.log_file
        → lookup k (load_all ⦃ep = ep⦄ read_back (new_store file)).map
          ≡ bytes_of (trees.get tab'.root k))
unfolding lookup write_logs write_batch
commit-recovers_example =
    commit-recovers clock trees mem_file same_bytes-Canonical txn2 table2 log2 txn2-IsOverlay refl
      (refl, refl) table2-IsDurable

commit-hides_failure_example :
    let (r, _, tab') = commit_inner clock trees full_file txn2 table2 in
    (r ≡ ok log2)
    × ((k : Bytes) → trees.get tab'.root k ≡ overlay log2 k (trees.get tree1 k))
    × (tab'.store.map ≡ store1.map)
unfolding lookup
commit-hides_failure_example =
    commit-hides_failure clock trees full_file same_bytes-Canonical txn2 table2 log2 txn2-IsOverlay
      refl (λ f id. refl)
