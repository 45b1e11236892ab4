-- ===== src/Examples/Forks.antt =====
-- The theorems on forks, at a concrete forest of tables.
use pi_db.Base.{
  nat_eq, list_eq, pair_eq, length, ℕ, ◌≤◌, ◌≡◌, refl, none, some, List, [], ◌∷◌, arith,
}
use pi_db.Data.{SResult, TabMeta, ok}
use pi_db.HashMap.{lookup}
use pi_db.Examples.{MemFile, mem_file}
use pi_db.Fork.{
  TableMetaInfo, Tables, Coding, finished, build_fork_chain, fork_prepare_inner, fork_commit_inner,
}
use pi_db.Fork.Meta.{Alters, meta_commit}
use pi_db.Fork.Children.{children}
use pi_db.Fork.Forest.{IsForest}
use pi_db.Fork.Commits.{meta_commit-IsForest, fork_commit-IsForest}
use pi_db.Fork.Chain.{IsChain, build_fork_chain-IsChain}

abbrev types : TabMeta ℕ
types = record { k = 0; v = 1 }

abbrev pub root_info : TableMetaInfo ℕ ℕ
root_info = record {
  tab_name = 1;
  meta_info = types;
  parent = none;
  parent_log_id = none;
  ref_count = 1;
}

abbrev pub leaf_info : TableMetaInfo ℕ ℕ
leaf_info = record {
  tab_name = 2;
  meta_info = types;
  parent = some 1;
  parent_log_id = some 7;
  ref_count = 0;
}

abbrev pub forest : Tables ℕ ℕ
forest = (1, root_info) ∷ (2, leaf_info) ∷ []

abbrev pub coding : Coding ℕ ℕ
coding = record { name_bytes = λ a. a ∷ []; info_bytes = λ t. t.tab_name ∷ t.ref_count ∷ [] }

forest-IsForest : IsForest forest
unfolding lookup children
forest-IsForest = record {
  rank = λ x. x;
  distinct = (refl, (refl, tt));
  counted = λ p t q. ground arith;
  present = λ c p t q e. ground arith;
  ranked = λ c p t q e. ground arith;
}

-- the leaf is deleted, and a table is created
abbrev changes : Alters ℕ ℕ
changes = (2, none) ∷ (3, some types) ∷ []

meta_commit-IsForest_example : IsForest (meta_commit coding mem_file changes forest ([], [])).1
meta_commit-IsForest_example =
    meta_commit-IsForest coding mem_file changes forest ([], []) forest-IsForest (omega arith)

abbrev split_log : MemFile → SResult ℕ × MemFile
split_log f = (ok 9, f)

fork_commit-IsForest_example :
    let (r, tab_file', tables', file') =
      fork_commit_inner coding mem_file split_log 2 3 types ([], []) forest ([], []) in
    IsForest tables'
    × (r ≡ ok tt
        → ((t : TableMetaInfo ℕ ℕ) × (lookup 3 tables' ≡ some t)
            × (t.parent ≡ some 2)
            × ((split_log ([], [])).0 ≡ ok (elim t.parent_log_id [ some i ↦ i | none ↦ 0 ])))
          × ((w : TableMetaInfo ℕ ℕ) × (lookup 2 tables' ≡ some w) × (w.ref_count ≡ 1)))
unfolding lookup fork_prepare_inner
fork_commit-IsForest_example =
    fork_commit-IsForest coding mem_file split_log 2 3 types ([], []) ([], []) forest leaf_info
      forest-IsForest (omega arith) refl refl

build_fork_chain-IsChain_example :
    (lookup 2 forest ≡ none → build_fork_chain 3 forest 2 ≡ finished [])
    × ((info : TableMetaInfo ℕ ℕ)
        → lookup 2 forest ≡ some info
        → (l : List (TableMetaInfo ℕ ℕ)) × (build_fork_chain 3 forest 2 ≡ finished l)
          × IsChain forest info l
          × (length l ≤ 3))
unfolding forest-IsForest
build_fork_chain-IsChain_example = build_fork_chain-IsChain 3 forest 2 forest-IsForest (omega arith)
