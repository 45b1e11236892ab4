-- ===== src/Fork/Meta.antt =====
-- `LogFileMetaTxn` of src/log_file_db.rs: tables are created and deleted in `ALL_TABLES` and in the
-- log file `tabs_meta`.
use pi_db.Base.{ltb, if◌then◌else◌, Eq, nat_eq, list_eq, pair_eq, Option, none, some, [], ◌∷◌}
use pi_db.Data.{DbResult, TabMeta, tab_name_exist, delete_tab_failed, delete_tab_not_found, ok, err}
use pi_db.HashMap.{HashMap, lookup, insert, remove}
use pi_db.Fork.{Tables, new_info, dec_refcount, Coding, write_info}
use pi_db.LogStore.{new_store, write_one, remove_one}
use pi_db.LogStore.File.{LogFile}

-- `alters`: the tables to create (with their types) and to delete
abbrev pub Alters : Type 0 → Type 0 → Type 0
Alters Atom EnumType = HashMap Atom (Option (TabMeta EnumType))

module _ {Atom EnumType : Type 0} ⦃ea : Eq Atom⦄ where
  unfoldable pub meta_alter :
      Atom → Option (TabMeta EnumType) → Alters Atom EnumType → DbResult × Alters Atom EnumType
  unfolding insert
  meta_alter tab_name m alters = (ok tt, insert tab_name m alters)

  unfoldable pub meta_rollback : Alters Atom EnumType → DbResult × Alters Atom EnumType
  meta_rollback alters = (ok tt, [])

  unfoldable pub meta_prepare : Alters Atom EnumType → DbResult
  meta_prepare alters = ok tt

  -- the parent's count goes down by one if the parent is there
  abbrev pub release_parent : Option Atom → Tables Atom EnumType → Tables Atom EnumType
  release_parent none tables = tables
  release_parent (some parent) tables = elim (lookup parent tables) [
    | none ↦ tables
    | some value ↦ insert parent (dec_refcount value) tables
  ]

module _ {Atom EnumType F : Type 0} ⦃ea : Eq Atom⦄ (coding : Coding Atom EnumType)
    (lf : LogFile F) where
  abbrev pub remove_info : Atom → F → F
  remove_info name file =
      (remove_one {P = Unit {0}} lf (coding.name_bytes name) (new_store file)).1.log_file

  abbrev pub write_released : Atom → Option Atom → Tables Atom EnumType → F → F
  write_released name none tables file = remove_info name file
  write_released name (some parent) tables file = elim (lookup parent tables) [
    | none ↦ file
    | some value ↦ write_info coding lf parent (dec_refcount value) file
  ]

  -- one round of the loop of `commit`
  unfoldable pub alter_one :
      Atom
      → Option (TabMeta EnumType)
      → Tables Atom EnumType
      → F
      → DbResult × Tables Atom EnumType × F
  unfolding lookup insert remove new_store write_one remove_one
  alter_one tab_name (some m) tables file = elim (lookup tab_name tables) [
    | some _ ↦ (err tab_name_exist, tables, file)
    | none ↦
        let tmi = new_info tab_name m in
        (ok tt, insert tab_name tmi tables, write_info coding lf tab_name tmi file)
  ]
  alter_one tab_name none tables file = elim (lookup tab_name tables) [
    | none ↦ (err delete_tab_not_found, tables, file)
    | some tab ↦ if ltb 0 tab.ref_count then (err delete_tab_failed, tables, file) else (
      ok tt,
      release_parent tab.parent (remove tab_name tables),
      write_released tab_name tab.parent (remove tab_name tables) (remove_info tab_name file),
    )
  ]

  -- `commit`, which stops at the first error and keeps what it has done
  unfoldable pub meta_commit :
      Alters Atom EnumType → Tables Atom EnumType → F → DbResult × Tables Atom EnumType × F
  unfolding alter_one
  meta_commit [] tables file = (ok tt, tables, file)
  meta_commit ((tab_name, m) ∷ rest) tables file =
      let (r, tables', file') = alter_one tab_name m tables file in
      elim r [ err e ↦ (err e, tables', file') | ok _ ↦ meta_commit rest tables' file' ]
