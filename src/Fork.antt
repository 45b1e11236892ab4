-- ===== src/Fork.antt =====
-- src/fork.rs: what is known of every table with a log file (`ALL_TABLES`), and the chain of tables
-- that a forked table stands on; and the fork of a table in src/log_file_db.rs
-- (`fork_prepare_inner`, `fork_commit_inner`).
pub mod Meta
pub mod Children
pub mod Forest
pub mod Kept
pub mod Commits
pub mod Chain
pub mod Codec
pub mod Stored
use pi_db.Base.{
  ltb, leb, nat_eqb, if◌then◌else◌, Bool-cases, Option-cases, Eq, ◌==◌, ==-refl, ==-ne, nat_eqb_iff,
  nat_eq, list_eqb, list_eqb_iff, list_eq, pair_eqb, pair_eqb_iff, pair_eq, length, get_elem?,
  length-append, length-map, All, ℕ, zero, suc, ◌+◌, ◌-◌, ◌*◌, ◌%◌, ◌^◌, ◌≤◌, ◌<◌, ◌≡◌, refl, sym,
  ap, ◌∙◌, ◌≢◌, ◌↔◌, ◌⊎◌, inl, inr, Bool, true, false, not, ◌&&◌, ◌||◌, Option, none, some, List,
  [], ◌∷◌, ◌++◌, map, arith,
}
use pi_db.Data.{
  Bytes, Bin, len, Error, SResult, DbResult, TxState, default_state, discriminant, to_state,
  to_string, RwLog, TabKv, new_tab_kv, TabMeta, meta_eqb, bon_eqb, prepare_conflicted_rw,
  unexpected_meta_log1, unexpected_meta_log2, previous_read_log_exist, previous_write_log_exist,
  previous_meta_log_exist, prepare_conflicted_value_diff, prepare_conflicted_old_not_none,
  error_prepare_null, meta_prepare_conflicting, meta_prepare_conflicted, tab_not_found,
  unknown_tab_type, unreachable_branch, ware_not_found, tr_query_error, modify_failed,
  duplicate_fork_tab_name, duplicate_fork_tab_name_in_meta_tab, tab_name_exist, delete_tab_failed,
  delete_tab_not_found, not_implemented, io_error, ok, err, doing, preparing, prepar_ok,
  prepar_fail, committing, commited, commit_fail, rollbacking, rollbacked, rollback_fail, read,
  write, meta,
}
use pi_db.HashMap.{HashMap, lookup, insert, remove}
use pi_db.LogStore.{new_store, write_one}
use pi_db.LogStore.File.{LogFile}

-- `usize` of a 64-bit machine
abbrev pub usize_mod : ℕ
usize_mod = 2 ^ 64

pub record TableMetaInfo (Atom EnumType : Type 0) : Type 0 where
  pub tab_name : Atom
  pub meta_info : TabMeta EnumType
  pub parent : Option Atom
  pub parent_log_id : Option ℕ
  pub ref_count : ℕ

-- `ALL_TABLES`
abbrev pub Tables : Type 0 → Type 0 → Type 0
Tables Atom EnumType = HashMap Atom (TableMetaInfo Atom EnumType)

module _ {Atom EnumType : Type 0} where
  -- `TableMetaInfo::new`
  abbrev pub new_info : Atom → TabMeta EnumType → TableMetaInfo Atom EnumType
  new_info tab_name m = record {
    tab_name = tab_name;
    meta_info = m;
    parent = none;
    parent_log_id = none;
    ref_count = 0;
  }

  -- `+= 1` and `-= 1` of a release build, which wrap around
  abbrev pub inc_refcount : TableMetaInfo Atom EnumType → TableMetaInfo Atom EnumType
  inc_refcount t = record t { ref_count = (t.ref_count + 1) % usize_mod }

  abbrev pub dec_refcount : TableMetaInfo Atom EnumType → TableMetaInfo Atom EnumType
  dec_refcount t = record t { ref_count = (t.ref_count + (usize_mod - 1)) % usize_mod }

-- How a loop ends: `unwrap` of `None` panics.
pub data Outcome (A : Type 0) : Type 0 where
  finished : A → Outcome A
  panicked unfinished : Outcome A

abbrev pub cons_outcome : {A : Type 0} → A → Outcome (List A) → Outcome (List A)
cons_outcome a (finished l) = finished (a ∷ l)
cons_outcome a panicked = panicked
cons_outcome a unfinished = unfinished

module _ {Atom EnumType : Type 0} ⦃ea : Eq Atom⦄ where
  -- the loop of `build_fork_chain` from a table that is in the chain
  unfoldable pub follow :
      ℕ
      → Tables Atom EnumType
      → TableMetaInfo Atom EnumType
      → Outcome (List (TableMetaInfo Atom EnumType))
  unfolding lookup
  follow zero tables info = unfinished
  follow (suc n) tables info = elim info.parent [
    | none ↦ finished (info ∷ [])
    | some parent ↦ elim (lookup parent tables) [
      | none ↦ panicked
      | some t ↦ cons_outcome info (follow n tables t)
    ]
  ]

  unfoldable pub build_fork_chain :
      ℕ → Tables Atom EnumType → Atom → Outcome (List (TableMetaInfo Atom EnumType))
  unfolding follow lookup
  build_fork_chain n tables tab_name = elim (lookup tab_name tables) [
    | none ↦ finished []
    | some info ↦ follow n tables info
  ]

  unfoldable pub fork_prepare_inner : Tables Atom EnumType → Atom → DbResult
  unfolding lookup
  fork_prepare_inner tables fork_tab_name = elim (lookup fork_tab_name tables) [
    | some _ ↦ err duplicate_fork_tab_name_in_meta_tab
    | none ↦ ok tt
  ]

  -- the parent's count goes up by one if the parent is there
  abbrev pub count_fork : Atom → Tables Atom EnumType → Tables Atom EnumType
  count_fork tab_name tables = elim (lookup tab_name tables) [
    | none ↦ tables
    | some value ↦ insert tab_name (inc_refcount value) tables
  ]

-- How names and entries are written: `Encode` of the crate `bon`.
pub record Coding (Atom EnumType : Type 0) : Type 0 where
  pub name_bytes : Atom → Bytes
  pub info_bytes : TableMetaInfo Atom EnumType → Bytes

module _ {Atom EnumType F : Type 0} ⦃ea : Eq Atom⦄ (coding : Coding Atom EnumType)
    (lf : LogFile F) where
  -- `store.write` to the log file `tabs_meta`, in a store that has just been opened over it; what
  -- it answers is not looked at
  abbrev pub write_info : Atom → TableMetaInfo Atom EnumType → F → F
  write_info name info file =
      (write_one {P = Unit {0}} lf (coding.name_bytes name) (coding.info_bytes info)
        (new_store file)).1.log_file

  -- the second write of the parent's entry comes first if the parent is there
  abbrev pub write_parent : Atom → Tables Atom EnumType → F → F
  write_parent tab_name tables file = elim (lookup tab_name tables) [
    | none ↦ file
    | some value ↦ write_info tab_name (inc_refcount value) file
  ]

  -- `fork_commit_inner`: the table's log file, the tables and the log file `tabs_meta`, which the
  -- result has in the same order. `force_fork` is that of the log file of the crate `pi_store`.
  unfoldable pub fork_commit_inner :
      (F → SResult ℕ × F)
      → Atom
      → Atom
      → TabMeta EnumType
      → F
      → Tables Atom EnumType
      → F
      → DbResult × F × Tables Atom EnumType × F
  unfolding lookup insert write_one new_store
  fork_commit_inner force_fork tab_name fork_tab_name m tab_file tables meta_file =
      let (r, tab_file') = force_fork tab_file in
      elim r [
        | err e ↦ (err e, tab_file', tables, meta_file)
        | ok index ↦
            let tmi = record (new_info fork_tab_name m) {
              parent = some tab_name;
              parent_log_id = some index;
            } in
            let tables' = insert fork_tab_name tmi tables in
            (
              ok tt,
              tab_file',
              count_fork tab_name tables',
              write_info fork_tab_name tmi (write_parent tab_name tables' meta_file),
            )
      ]
