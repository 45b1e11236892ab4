-- ===== src/Examples/Managers.antt =====
-- The theorems on transactions over several tables, at a database that notes each call.
use pi_db.Base.{
  none, nat_eqb, if◌then◌else◌, nat_eq, list_eq, pair_eq, ℕ, ◌+◌, ◌≡◌, refl, true, List, [], ◌∷◌,
  ◌++◌, arith, some, map,
}
use pi_db.Data.{
  preparing, rollbacking, Bytes, SResult, DbResult, RwLog, error_prepare_null, ok, err, doing,
  prepar_ok, prepar_fail, committing, commited, commit_fail, rollbacked, rollback_fail, TabKv,
}
use pi_db.HashMap.{HashMap, lookup}
use pi_db.Mgr.{Verdict, panicked, passed, Database, Tr}
use pi_db.Mgr.Phases.{values, commit_task, count_joined, prepare, commit, rollback}
use pi_db.Mgr.Outcomes.{finish, prepare_wares, prepare_tables, prepare-run_all}
use pi_db.Examples.{item, key1, key2, value1}
use pi_db.Mgr.Batch.{tab_map}
use pi_db.Mgr.Order.{merge_all, merge_all-in_order}
use pi_db.Mgr.Grouping.{numbered}
use pi_db.Mgr.Answers.{tab_map-merge_all}
use pi_db.Mgr.Steps.{run_all}
use pi_db.Mgr.Endings.{
  rollback_wares, rollback_tables, rollback-run_all, commit_wares, rest_of_commit, commit-finish,
}

abbrev note : ℕ → List ℕ → DbResult × List ℕ
note n w = (ok tt, n ∷ w)

-- the second table refuses to commit
abbrev commits : ℕ → List ℕ → SResult (HashMap Bytes RwLog) × List ℕ
commits t w = if nat_eqb t 2 then (err error_prepare_null, w) else (ok [], (40 + t) ∷ w)

-- the second table cannot be forked
abbrev forks : ℕ → ℕ → List ℕ → Verdict × List ℕ
forks t n w = if nat_eqb t 2 then (panicked, w) else (passed, n ∷ w)

abbrev calls : Database (List ℕ) ℕ ℕ ℕ ℕ ℕ ℕ
calls = record {
  ware_info = λ ware tab w. none;
  ware_names = λ ware w. [];
  check = λ ware tab m w. ok tt;
  alter = λ ware tab m w. 10 ∷ w;
  tab_txn = λ ware tab id writable w. (ok tab, 11 ∷ w);
  meta_txn = λ ware id w. (ware, w);
  ware_prepare = λ ware id. note (100 + ware);
  ware_commit = λ ware id w. (200 + ware) ∷ w;
  ware_rollback = λ ware id w. (300 + ware) ∷ w;
  txn_query = λ t items w. (ok items, w);
  txn_modify = λ t items w. (ok tt, 20 ∷ w);
  txn_size = λ t w. (ok 0, w);
  txn_iter = λ t key descending w. (ok 0, w);
  txn_key_iter = λ t key descending w. (ok 0, w);
  txn_prepare = λ t. note (30 + t);
  txn_commit = commits;
  txn_rollback = λ t. note (50 + t);
  fork_prepare = λ t ware tab fork m w. forks t 61 w;
  fork_commit = λ t ware tab fork m w. forks t 62 w;
  fork_rollback = λ t w. forks t 63 w;
  meta_alter = λ m tab t. note 70;
  meta_prepare = λ m. note 71;
  meta_commit = λ m w. (ok [], 72 ∷ w);
  meta_rollback = λ m. note 73;
}

abbrev busy : Tr ℕ ℕ ℕ ℕ ℕ ℕ
busy = record {
  writable = true;
  id = 9;
  ware_log_map = (5, 5) ∷ [];
  state = doing;
  tab_txns = ((5, 1), 1) ∷ ((5, 2), 2) ∷ [];
  meta_txns = (5, 5) ∷ [];
  fork_txns = ((5, (1, 3)), (record { k = 0; v = 1 }, 1)) ∷ [];
}

prepare-run_all_example :
    prepare calls busy []
    ≡ finish preparing prepar_ok prepar_fail busy
        (run_all (prepare_wares calls busy ++ prepare_tables calls busy) [])
unfolding lookup
prepare-run_all_example = prepare-run_all calls busy [] ((5, refl), tt) (λ q. ground arith)

rollback-run_all_example :
    rollback calls busy []
    ≡ finish rollbacking rollbacked rollback_fail busy
        (run_all (rollback_wares calls busy ++ rollback_tables calls busy) [])
unfolding lookup
rollback-run_all_example = rollback-run_all calls busy [] ((5, refl), tt) (λ q. ground arith)

commit-finish_example :
    let (done, w') =
      count_joined
        (commit_task calls)
        (values busy.tab_txns)
        (run_all (commit_wares calls busy) []).1 in
    commit calls busy []
    ≡ finish committing
        (if nat_eqb done 2 then commited else committing)
        commit_fail
        busy
        (run_all (rest_of_commit calls busy) w')
unfolding lookup
commit-finish_example = commit-finish calls busy [] ((5, refl), tt) (λ q. ground arith)

abbrev asked : List (TabKv ℕ)
asked = item key1 none ∷ record (item key1 none) { tab = 2 } ∷ item key2 none ∷ []

abbrev answered : TabKv ℕ → TabKv ℕ
answered x = record x { value = some value1 }

tab_map-merge_all_example :
    merge_all (map (map answered) (values (tab_map asked))) (3, asked) []
    ≡ some (map answered (numbered 1 asked))
tab_map-merge_all_example =
    tab_map-merge_all answered asked asked (λ x. refl) (λ q. ground arith) (omega arith) refl

merge_all-in_order_example :
    merge_all
      ((record (item key2 none) { index = 2 } ∷ [])
        ∷ (record (item key1 none) { index = 1 } ∷ [])
        ∷ [])
      (2, item key1 none ∷ item key1 none ∷ [])
      []
    ≡ some (record (item key1 none) { index = 1 } ∷ record (item key2 none) { index = 2 } ∷ [])
merge_all-in_order_example =
    merge_all-in_order
      (record (item key1 none) { index = 1 } ∷ record (item key2 none) { index = 2 } ∷ [])
      (record (item key2 none) { index = 2 } ∷ []) (item key1 none ∷ item key1 none ∷ [])
      ((record (item key1 none) { index = 1 } ∷ []) ∷ [])
      ((λ q. ground arith), ((λ q. ground arith), tt))
      (((1, refl, refl), tt), (((0, refl, refl), tt), tt)) (λ j q. ground arith) refl (omega arith)
      refl
