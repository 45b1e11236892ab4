-- ===== src/LogStore/Loader.antt =====
-- `impl PairLoader for AsyncLogFileStore` of src/log_file_db.rs: the log is read from its newest
-- record to its oldest, and for each record `is_require` says whether `load` is to take it.
--
-- The path is the one in `Some`, which the reader of the log passes: with `None` the code panics.
use pi_db.Base.{
  if◌then◌else◌, Eq, ◌==◌, nat_eq, list_eq, pair_eq, ◌+◌, Bool, true, false, not, ◌&&◌, Option,
  none, some, List, [], ◌∷◌,
}
use pi_db.Data.{Bytes}
use pi_db.HashMap.{lookup, insert}
use pi_db.LogStore.File.{LogMethod, Record, value_of}
use pi_db.LogStore.{AsyncLogFileStore, Stats, contains_key}

module _ {F P : Type 0} where
  abbrev pub load_value : Bytes → Option Bytes → AsyncLogFileStore F P → AsyncLogFileStore F P
  load_value key (some value) s = record s {
    map = if s.is_init then insert key value s.map else s.map;
    tmp_map = insert key tt s.tmp_map;
  }
  load_value key none s = record s { removed = insert key tt s.removed }

module _ {F P : Type 0} ⦃ep : Eq P⦄ where
  -- `is_require`: the answer, and the store with its statistics brought up to date. Where
  -- statistics are kept, a record that is not required counts for its file.
  abbrev pub require_stats :
      Bool → P → Bytes → AsyncLogFileStore F P → List (Stats P) → List (Stats P)
  require_stats true log_file key s l = l
  require_stats false log_file key s [] =
      record { path = log_file; log_len = 1; key_len = if contains_key key s.tmp_map then 0 else 1 }
      ∷ []
  require_stats false log_file key s (st ∷ rest) =
      if st.path == log_file
      then record st {
        log_len = st.log_len + 1;
        key_len = if contains_key key s.tmp_map then st.key_len else st.key_len + 1;
      }
        ∷ rest
      else record {
        path = log_file;
        log_len = 1;
        key_len = if contains_key key s.tmp_map then 0 else 1;
      }
        ∷ st
        ∷ rest

  -- the first record of a read-only file ends the file that is written to, and starts the statistics
  abbrev pub begin_stats : Bool → P → AsyncLogFileStore F P → AsyncLogFileStore F P
  begin_stats b log_file s = elim s.writable_path [
    | none ↦ record s { writable_path = some log_file }
    | some p ↦ if p == log_file then s else record s {
      statistics =
          record { path = log_file; log_len = if b then 0 else 1; key_len = if b then 0 else 1 }
          ∷ s.statistics;
      is_statistics = true;
    }
  ]

  unfoldable pub is_require : P → Bytes → AsyncLogFileStore F P → Bool × AsyncLogFileStore F P
  unfolding lookup
  is_require log_file key s =
      let b = not (contains_key key s.removed) && not (contains_key key s.tmp_map) in
      (
        b,
        if s.is_statistics
            then record s { statistics = require_stats b log_file key s s.statistics }
            else begin_stats b log_file s,
      )

  -- the statistics in `load` are those of a record that is not required
  abbrev pub load_stats : P → Bytes → AsyncLogFileStore F P → AsyncLogFileStore F P
  load_stats log_file key s =
      if s.is_statistics
      then record s { statistics = require_stats false log_file key s s.statistics }
      else s

  unfoldable pub load :
      P → LogMethod → Bytes → Option Bytes → AsyncLogFileStore F P → AsyncLogFileStore F P
  unfolding lookup insert
  load log_file method key value s = load_value key value (load_stats log_file key s)

  -- `if is_require(..) { load(..) }` for one record
  unfoldable pub feed : P → Record → AsyncLogFileStore F P → AsyncLogFileStore F P
  unfolding is_require load
  feed log_file r s =
      let (required, s') = is_require log_file r.key s in
      if required then load log_file r.method r.key (value_of r) s' else s'

  -- a log with the file of each record, the newest first
  unfoldable pub load_all : List (P × Record) → AsyncLogFileStore F P → AsyncLogFileStore F P
  load_all [] s = s
  load_all ((log_file, r) ∷ rest) s = load_all rest (feed log_file r s)
