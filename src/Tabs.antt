-- ===== src/Tabs.antt =====
-- src/tabs.rs: the table manager of a library (`Tabs`) and what a transaction does to it (`TabLog`).
--
-- The entry of a table points to a cell that is shared by every copy of the entry and holds the
-- opened table. Cells stand in a list, and an entry has the position of its cell.
pub mod Phases
pub mod Altered
pub mod Prepared
pub mod Session
pub mod Shared
use pi_db.Base.{
  ltb, leb, nat_eqb, if◌then◌else◌, Bool-cases, Option-cases, Eq, ◌==◌, ==-refl, ==-ne, nat_eqb_iff,
  nat_eq, list_eqb, list_eqb_iff, list_eq, pair_eqb, pair_eqb_iff, pair_eq, length, get_elem?,
  length-append, length-map, All, ℕ, zero, suc, ◌+◌, ◌-◌, ◌*◌, ◌%◌, ◌^◌, ◌≤◌, ◌<◌, ◌≡◌, refl, sym,
  ap, ◌∙◌, ◌≢◌, ◌↔◌, ◌⊎◌, inl, inr, Bool, true, false, not, ◌&&◌, ◌||◌, Option, none, some, List,
  [], ◌∷◌, ◌++◌, map, arith,
}
use pi_db.Data.{
  Bytes, Bin, len, Error, SResult, Result-cases, DbResult, TxState, default_state, discriminant,
  to_state, to_string, RwLog, TabKv, new_tab_kv, TabMeta, meta_eqb, bon_eqb, prepare_conflicted_rw,
  unexpected_meta_log1, unexpected_meta_log2, previous_read_log_exist, previous_write_log_exist,
  previous_meta_log_exist, prepare_conflicted_value_diff, prepare_conflicted_old_not_none,
  error_prepare_null, meta_prepare_conflicting, meta_prepare_conflicted, tab_not_found,
  unknown_tab_type, unreachable_branch, ware_not_found, tr_query_error, modify_failed,
  duplicate_fork_tab_name, duplicate_fork_tab_name_in_meta_tab, tab_name_exist, delete_tab_failed,
  delete_tab_not_found, not_implemented, io_error, ok, err, doing, preparing, prepar_ok,
  prepar_fail, committing, commited, commit_fail, rollbacking, rollbacked, rollback_fail, read,
  write, meta,
}
use pi_db.HashMap.{HashMap, lookup, insert, remove}
use pi_db.OrdMap.{OrdMap}

-- `MT` is a table in memory, `LT` one with a log file.
pub data TabType (MT LT : Type 0) : Type 0 where
  unkonwn : TabType MT LT
  mem_tab : MT → TabType MT LT
  log_file_tab : LT → TabType MT LT

pub record TabInit (MT LT : Type 0) : Type 0 where
  pub tab_type : TabType MT LT
  pub wait : Option Bool

abbrev pub Cells : Type 0 → Type 0 → Type 0
Cells MT LT = List (TabInit MT LT)

pub record TabInfo (EnumType : Type 0) : Type 0 where
  pub meta_info : TabMeta EnumType
  pub init : ℕ

-- `TabInfo::new`, with a new cell
abbrev pub new_tab_info :
    {EnumType MT LT : Type 0} → TabMeta EnumType → Cells MT LT → TabInfo EnumType × Cells MT LT
new_tab_info m cells = (
  record { meta_info = m; init = length cells },
  cells ++ (record { tab_type = unkonwn; wait = some true } ∷ []),
)

pub record TabLog (Atom EnumType M : Type 0) : Type 0 where
  pub map : M
  pub old_map : M
  pub meta_names : HashMap Atom (Unit {0})
  pub alter_logs : HashMap (Atom × ℕ) (Option (TabMeta EnumType))
  pub rename_logs : HashMap Atom (Atom × ℕ)

pub record Tabs (G Atom EnumType M : Type 0) : Type 0 where
  pub map : M
  pub prepare : HashMap G (TabLog Atom EnumType M)

module _ {Atom EnumType M : Type 0} where
  -- the log that `prepare` keeps, and what stays with the transaction
  abbrev pub replace : TabLog Atom EnumType M → TabLog Atom EnumType M × TabLog Atom EnumType M
  replace log = (log, record log { meta_names = []; alter_logs = []; rename_logs = [] })

module _ {Atom : Type 0} ⦃ea : Eq Atom⦄ where
  -- the name of the table as it was before it was renamed, with its version
  abbrev pub source_of : Atom → HashMap Atom (Atom × ℕ) → Atom × ℕ
  source_of tab_name rename_logs = elim (lookup tab_name rename_logs) [
    | some v ↦ v
    | none ↦ (tab_name, 0)
  ]

module _ {Atom EnumType : Type 0} ⦃ea : Eq Atom⦄ where
  -- `entry(..).or_insert(..)`
  abbrev pub or_insert :
      Atom × ℕ
      → Option (TabMeta EnumType)
      → HashMap (Atom × ℕ) (Option (TabMeta EnumType))
      → HashMap (Atom × ℕ) (Option (TabMeta EnumType))
  or_insert key m logs = elim (lookup key logs) [ some _ ↦ logs | none ↦ insert key m logs ]

module _ {Atom EnumType M : Type 0} ⦃ea : Eq Atom⦄ (om : OrdMap ea.beq (TabInfo EnumType) M) where
  -- `get` of `TabLog`, and `get_tab_meta` of `Tabs`
  abbrev pub tab_meta : M → Atom → Option (TabMeta EnumType)
  tab_meta m tab = elim (om.get m tab) [ none ↦ none | some info ↦ some info.meta_info ]

  -- `self.map.action(&src_name, &mut f)`
  abbrev pub act :
      {MT LT : Type 0} → Atom → Option (TabMeta EnumType) → M → Cells MT LT → M × Cells MT LT
  act src_name (some si) m cells = elim (om.get m src_name) [
    | some ti ↦ (om.upsert m src_name (record { meta_info = si; init = ti.init }), cells)
    | none ↦ let (ti, cells') = new_tab_info si cells in (om.upsert m src_name ti, cells')
  ]
  act src_name none m cells = elim (om.get m src_name) [
    | some ti ↦ (om.delete m src_name, cells)
    | none ↦ (m, cells)
  ]

  unfoldable pub alter :
      {MT LT : Type 0}
      → Atom
      → Option (TabMeta EnumType)
      → TabLog Atom EnumType M
      → Cells MT LT
      → TabLog Atom EnumType M × Cells MT LT
  unfolding lookup insert
  alter tab_name m log cells =
      let key = source_of tab_name log.rename_logs in
      let (map', cells') = act key.0 m log.map cells in
      (
        record log {
          map = map';
          alter_logs = or_insert key m log.alter_logs;
          meta_names = insert tab_name tt log.meta_names;
        },
        cells',
      )
