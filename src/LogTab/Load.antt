-- ===== src/LogTab/Load.antt =====
-- `LogFileTab::new` of src/log_file_db.rs: the log files of a table and of the tables that it is
-- forked from are read into the tree of the table.
--
-- What opening a log file and reading it backwards gives is of the crate `pi_store`: the file, and
-- the records that its `load` passes on, the newest first. The file of the table itself is found by
-- its name and the index of the fork; that of a table above it also by the number of the last part
-- that is read, which is where the fork split the log. The result `none` is a panic.
use pi_db.Base.{
  Eq, nat_eq, list_eq, pair_eq, length, ℕ, suc, ◌+◌, ◌-◌, ◌%◌, Bool, false, Option, none, some,
  List, [], ◌∷◌,
}
use pi_db.Data.{Bytes, Bin}
use pi_db.HashMap.{HashMap}
use pi_db.OrdMap.{OrdMap}
use pi_db.LogStore.{new_store}
use pi_db.LogStore.File.{Record}
use pi_db.LogStore.Loader.{load_all}
use pi_db.LogTab.{LogFileTab}
use pi_db.Fork.{TableMetaInfo, usize_mod}

-- the readers of log files
pub record Reader (Atom F P : Type 0) : Type 0 where
  pub open_leaf : Atom → Option ℕ → Option (F × List (P × Record))
  pub open_above : Atom → Option ℕ → ℕ → Option (F × List (P × Record))

module _ {M : Type 0} {same : Bytes → Bytes → Bool} (om : OrdMap same Bin M) where
  -- `root.upsert(..)` for each key of a store; every value is put at an address of its own
  unfoldable pub upsert_all : ℕ → HashMap Bytes Bytes → M → M
  upsert_all at [] root = root
  upsert_all at ((k, v) ∷ rest) root =
      upsert_all (suc at) rest (om.upsert root k (record { ptr = at; bytes = v }))

-- `log_file_id.unwrap() - 1`, of a release build
abbrev pub part_below : ℕ → ℕ
part_below n = (n + (usize_mod - 1)) % usize_mod

-- the parameters are read from the first table of the chain
abbrev pub fork_index : {Atom EnumType : Type 0} → List (TableMetaInfo Atom EnumType) → Option ℕ
fork_index [] = none
fork_index (tm ∷ chains) = tm.parent_log_id

abbrev pub above :
    {Atom EnumType : Type 0}
    → List (TableMetaInfo Atom EnumType)
    → List (TableMetaInfo Atom EnumType)
above [] = []
above (tm ∷ chains) = chains

module _ {Atom EnumType F P M : Type 0} ⦃ep : Eq P⦄ (reader : Reader Atom F P)
    {same : Bytes → Bytes → Bool} (om : OrdMap same Bin M) where
  -- the loop over the tables above, with `log_file_id`
  unfoldable pub load_above : Option ℕ → List (TableMetaInfo Atom EnumType) → ℕ → M → Option M
  unfolding load_all new_store upsert_all
  load_above id [] at root = some root
  load_above none (tm ∷ chains) at root = none
  load_above (some n) (tm ∷ chains) at root =
      elim (reader.open_above tm.tab_name tm.parent_log_id (part_below n)) [
        | none ↦ none
        | some (file, log) ↦
            let found = (load_all log (new_store file)).map in
            load_above tm.parent_log_id chains (at + length found) (upsert_all om at found root)
      ]

module _ {G M Atom EnumType F P : Type 0} ⦃ep : Eq P⦄ (reader : Reader Atom F P)
    {same : Bytes → Bytes → Bool} (om : OrdMap same Bin M) where
  unfoldable pub new_log_file_tab :
      ℕ → Atom → List (TableMetaInfo Atom EnumType) → Option (LogFileTab G M Atom F P)
  unfolding load_above load_all new_store upsert_all
  new_log_file_tab at tab chains = elim (reader.open_leaf tab (fork_index chains)) [
    | none ↦ none
    | some (file, log) ↦
        let store = load_all log (new_store file) in
        elim (load_above reader om (fork_index chains) (above chains) (at + length store.map)
          (upsert_all om at store.map om.new)) [
            | none ↦ none
            | some root ↦ some (record {
              prepare = [];
              root = root;
              tab = tab;
              store = record store { is_init = false };
            })
          ]
  ]
