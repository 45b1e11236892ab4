-- ===== src/Examples/Tables.antt =====
-- The theorems on tables in memory and on preparations, at concrete tables and transactions.
use pi_db.OrdMap.Versioned.{versioned}
use pi_db.Base.{
  true, nat_eq, list_eq, pair_eq, ℕ, ◌≡◌, refl, ◌≢◌, ◌↔◌, ◌⊎◌, none, some, [], ◌∷◌, arith,
}
use pi_db.Data.{write, Bytes, RwLog, error_prepare_null, ok, err, commited, read, doing}
use pi_db.HashMap.{HashMap, lookup, remove}
use pi_db.Examples.{
  bin_eq, trees, same_bytes-Canonical, clock, key1, key2, value2, item, tree1, table1, log2, tree2,
  txn2, log3, txn3, table23, Tree,
}
use pi_db.Snapshot.Overlay.{overlay, IsOverlay}
use pi_db.Snapshot.{check_keys}
use pi_db.Snapshot.Effect.{effect, answers}
use pi_db.Prepare.{Prepare, try_prepare}
use pi_db.Prepare.Conflicts.{try_prepare_decides, first_live}
use pi_db.MemTab.{prepare_inner, commit_inner, rollback_inner, MemeryTxn, MemeryTab}
use pi_db.MemTab.Commit.{prepare_inner-ok, commit_inner-view, commit_inner-unprepared}
use pi_db.MemTab.Session.{session, session-effect}
use pi_db.MemTab.Steps.{start, finished, run_commit, run_commit-commit_inner}
use pi_db.MemTab.Race.{run_both, interleaved, commit-loses_write}

abbrev live : Prepare ℕ
live = (2, log2) ∷ (3, log3) ∷ []

pub txn2-IsOverlay : IsOverlay trees txn2.root txn2.old log2
unfolding versioned lookup
txn2-IsOverlay = record { distinct = (refl, tt); view = λ k. ground arith }

txn3-IsOverlay : IsOverlay trees txn3.root txn3.old log3
unfolding versioned lookup
txn3-IsOverlay = record { distinct = (refl, tt); view = λ k. ground arith }

try_prepare_decides_example :
    ((o : HashMap Bytes RwLog)
      → first_live clock 10 live ≡ some o
      → ((try_prepare clock 10 live key2 read).1 ≡ live)
        × (((try_prepare clock 10 live key2 read).0 ≡ ok tt)
            ↔ ((lookup key2 o ≡ none) ⊎ ((lookup key2 o ≡ some read) × (read ≡ read)))))
    × (first_live clock 10 live ≡ none
        → ((try_prepare clock 10 live key2 read).0 ≡ ok tt)
          × ((j : ℕ) → lookup j (try_prepare clock 10 live key2 read).1 ≡ none))
try_prepare_decides_example = try_prepare_decides clock 10 live key2 read

session-effect_example :
    let (found, prepared, committed, txn', tab') =
      session clock trees 5 6
        (item key1 none ∷ [])
        (item key2 (some value2) ∷ item key1 none ∷ [])
        table1 in
    (found ≡ answers (trees.get tree1) (item key1 none ∷ []))
    × (prepared ≡ ok tt)
    × ((log : HashMap Bytes RwLog) × (committed ≡ ok log))
    × (txn'.state ≡ commited)
    × ((k : Bytes)
        → trees.get tab'.root k
          ≡ effect (item key2 (some value2) ∷ item key1 none ∷ []) k (trees.get tree1 k))
session-effect_example =
    session-effect clock trees same_bytes-Canonical 5 6 (item key1 none ∷ [])
      (item key2 (some value2) ∷ item key1 none ∷ []) table1 refl

commit_inner-view_example :
    let (r, txn', tab') = commit_inner clock trees txn2 table23 in
    (r ≡ ok log2)
    × ((k : Bytes) → trees.get tab'.root k ≡ overlay log2 k (trees.get tree1 k))
    × (tab'.prepare ≡ remove 2 table23.prepare)
unfolding lookup
commit_inner-view_example =
    commit_inner-view clock trees same_bytes-Canonical txn2 table23 log2 txn2-IsOverlay refl

prepare_inner-ok_example :
    let (r, txn', tab') = prepare_inner clock trees 10 txn2 table1 in
    ((k : Bytes) (l : RwLog) → lookup k log2 ≡ some l → trees.get tree1 k ≡ trees.get tree1 k)
    × (lookup 2 tab'.prepare ≡ some log2)
    × (txn'.rwlog ≡ [])
    × (txn'.root ≡ tree2)
    × (txn'.old ≡ tree1)
    × (txn'.id ≡ 2)
    × (tab'.root ≡ tree1)
unfolding prepare_inner versioned check_keys try_prepare
prepare_inner-ok_example = prepare_inner-ok clock trees 10 txn2 table1 refl

commit_inner-unprepared_example :
    (lookup 2 table1.prepare ≡ none
      → ((commit_inner clock trees txn2 table1).0 ≡ err error_prepare_null)
        × ((commit_inner clock trees txn2 table1).2.root ≡ tree1))
    × ((commit_inner clock trees txn2 (rollback_inner clock trees txn2 table1).2).0
        ≡ err error_prepare_null)
    × ((rollback_inner clock trees txn2 table1).2.root ≡ tree1)
    × ((commit_inner clock trees txn2 (commit_inner clock trees txn2 table1).2).0
        ≡ err error_prepare_null)
commit_inner-unprepared_example = commit_inner-unprepared clock trees txn2 txn2 table1 refl

run_commit-commit_inner_example : run_commit clock trees 5 txn2 (start, table23) ≡ (
  finished (commit_inner clock trees txn2 table23).0,
  (commit_inner clock trees txn2 table23).2,
)
unfolding lookup
run_commit-commit_inner_example = run_commit-commit_inner clock trees txn2 table23 log2 refl

commit-loses_write_example :
    let (pa, pb, tab') = run_both clock trees txn2 txn3 interleaved (start, start, table23) in
    (pa ≡ finished (ok log2))
    × (pb ≡ finished (ok log3))
    × (trees.get tab'.root key2 ≡ trees.get tree1 key2)
    × (trees.get tab'.root key2 ≢ overlay log2 key2 (trees.get tree1 key2))
unfolding lookup versioned
commit-loses_write_example =
    commit-loses_write clock trees txn2 txn3 table23 log2 log3 key2 (some value2) txn3-IsOverlay
      (λ p. ground arith) refl refl refl refl refl refl (λ p. ground arith)

-- one that has written the first key, which the transaction above removes
abbrev log9 : HashMap Bytes RwLog
log9 = (key1, write (some value2)) ∷ []

abbrev txn9 : MemeryTxn ℕ Tree
txn9 = record {
  id = 9;
  writable = true;
  root = (key1, value2) ∷ [];
  old = tree1;
  rwlog = log9;
  state = doing;
}

-- the second key is prepared for
abbrev table_live : MemeryTab ℕ Tree ℕ
table_live = record table1 { prepare = (2, log2) ∷ [] }
