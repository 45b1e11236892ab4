-- ===== src/Ware/Collector.antt =====
-- `collect` of `LogFileDB` in src/log_file_db.rs: the read-only log files of each table are chosen by
-- their statistics, collected by the log file of the crate `pi_store`, and read once more for new
-- statistics.
use pi_db.Base.{
  ltb, nat_eqb, if◌then◌else◌, Eq, nat_eq, list_eq, pair_eq, ◌*◌, Bool, false, Option, none, some,
  List, [], ◌∷◌,
}
use pi_db.Data.{Bytes, DbResult, io_error, ok, err}
use pi_db.LogStore.{AsyncLogFileStore, Stats}
use pi_db.LogStore.File.{Record}
use pi_db.LogStore.Loader.{load_all}
use pi_db.Ware.{World, Outside, assign, panic}
use pi_db.Ware.Build.{log_file_open}

-- What `pi_store` does: `collect_logs` of the files to remove and to collect, and what reading the
-- files gives afterwards, from the largest name to the smallest and each from its end, without the
-- files that cannot be opened; `none` if the names cannot be read. A read that fails is tried again
-- without end, so that there is no result for it.
pub record Collecting (F P : Type 0) : Type 0 where
  pub collect_logs : List P → List P → F → Bool × F
  pub read_again : F → Option (List (P × Record))

module _ {P : Type 0} where
  -- `log_len as f64 / key_len as f64 < 1.5`
  abbrev pub is_sparse : Stats P → Bool
  is_sparse st = ltb (2 * st.log_len) (3 * st.key_len)

  -- the files to remove and the files to collect
  unfoldable pub select : List (Stats P) → List P × List P
  select [] = ([], [])
  select (st ∷ rest) =
      let (remove_logs, collect_logs) = select rest in
      if nat_eqb st.key_len 0
      then (st.path ∷ remove_logs, collect_logs)
      else if is_sparse st
      then ([], [])
      else (remove_logs, st.path ∷ collect_logs)

module _ {F P : Type 0} ⦃ep : Eq P⦄ (c : Collecting F P) where
  -- one table
  unfoldable pub collect_store : AsyncLogFileStore F P → DbResult × AsyncLogFileStore F P
  unfolding select load_all
  collect_store store =
      let (remove_logs, collect_logs) = select store.statistics in
      let (collected, file) = c.collect_logs remove_logs collect_logs store.log_file in
      if collected
      then (let cleared = record store {
        log_file = file;
        statistics = [];
        removed = [];
        tmp_map = [];
        is_statistics = false;
      } in
          elim (c.read_again file) [
            | none ↦ (ok tt, cleared)
            | some log ↦ (ok tt, record (load_all log cleared) { tmp_map = [] })
          ])
      else (err io_error, record store { log_file = file })

module _ {G M T Atom EnumType F P : Type 0} ⦃eg : Eq G⦄ ⦃ea : Eq Atom⦄ ⦃ep : Eq P⦄
    (out : Outside G M T Atom EnumType F P) (c : Collecting F P)
    (name_of : Bytes → Option Atom) where
  -- the loop over the names of the tables; a table that cannot be opened panics
  unfoldable pub collect_all :
      List Bytes → World G M T Atom EnumType F P → DbResult × World G M T Atom EnumType F P
  unfolding collect_store log_file_open
  collect_all [] w = (ok tt, w)
  collect_all (key ∷ keys) w = elim (name_of key) [
    | none ↦ (err io_error, panic w)
    | some tab_name ↦
        let (opened, w1) = log_file_open out tab_name w in
        elim opened [
          | err e ↦ (err e, panic w1)
          | ok t ↦
              let tab = w1.file_tabs.cell t in
              let (r, store') = collect_store c tab.store in
              let w2 = record w1 {
                file_tabs = assign t (record tab { store = store' }) w1.file_tabs;
              } in
              elim r [ err e ↦ (err e, w2) | ok _ ↦ collect_all keys w2 ]
        ]
  ]
