-- ===== src/Ware/Selected.antt =====
-- Which log files are collected, and that a collection changes no value (`collect` of `LogFileDB` in
-- src/log_file_db.rs).
use pi_db.Base.{
  nat_eqb, if◌then◌else◌, Option-cases, Eq, nat_eq, list_eq, pair_eq, ◌≡◌, refl, ◌∙◌, inl, inr,
  Bool, false, not, ◌&&◌, List, [], ◌∷◌, arith,
}
use pi_db.Data.{io_error, ok, err}
use pi_db.LogStore.{AsyncLogFileStore, Stats}
use pi_db.LogStore.File.{Record}
use pi_db.LogStore.Loader.{load_all, feed, is_require, load}
use pi_db.Ware.Collector.{Collecting, is_sparse, select, collect_store}

module _ {P : Type 0} where
  -- The files before the first one that has keys but fewer than 1.5 records to a key.
  abbrev pub chosen : List (Stats P) → List (Stats P)
  chosen [] = []
  chosen (st ∷ rest) =
      let more = chosen rest in if not (nat_eqb st.key_len 0) && is_sparse st then [] else st ∷ more

  -- the paths of the files that pass a test
  abbrev pub paths_of : (Stats P → Bool) → List (Stats P) → List P
  paths_of test [] = []
  paths_of test (st ∷ rest) =
      let more = paths_of test rest in if test st then st.path ∷ more else more

  abbrev pub has_no_key : Stats P → Bool
  has_no_key st = nat_eqb st.key_len 0

  -- The files are chosen in order up to the first one that has keys but fewer than 1.5 records to a
  -- key. Of these, the ones without a key are removed and the others collected.
  pub select-chosen :
      (l : List (Stats P))
      → select l ≡ (paths_of has_no_key (chosen l), paths_of (λ st. not (has_no_key st)) (chosen l))
  unfolding select
  select-chosen [] = refl
  select-chosen (st ∷ rest) = ground (arith, select-chosen rest)

module _ {F P : Type 0} ⦃ep : Eq P⦄ where
  feed-keeps :
      (p : P) (r : Record) (s : AsyncLogFileStore F P)
      → s.is_init ≡ false
      → ((feed p r s).map ≡ s.map) × ((feed p r s).is_init ≡ false)
  unfolding feed is_require load
  feed-keeps p r s h = (ground arith, ground arith)

  load_all-keeps :
      (log : List (P × Record)) (s : AsyncLogFileStore F P)
      → s.is_init ≡ false
      → ((load_all log s).map ≡ s.map) × ((load_all log s).is_init ≡ false)
  unfolding load_all
  load_all-keeps [] s h = (refl, h)
  load_all-keeps ((p, r) ∷ rest) s h =
      let (same, off) = feed-keeps p r s h in
      let (same', off') = load_all-keeps rest (feed p r s) off in (same' ∙ same, off')

  -- A collection of the log files of a table that has been loaded changes no value of its store,
  -- whether or not it succeeds, and whatever is read in it. When it succeeds, the files that it has
  -- asked to be removed and collected are those that are chosen.
  pub collect_store-keeps :
      (c : Collecting F P) (s : AsyncLogFileStore F P)
      → s.is_init ≡ false
      → let (r, s') = collect_store c s in
        (s'.map ≡ s.map)
        × (s'.is_init ≡ false)
        × (r ≡ (
            if (c.collect_logs
              (paths_of has_no_key (chosen s.statistics))
              (paths_of (λ st. not (has_no_key st)) (chosen s.statistics))
              s.log_file).0
            then ok tt
            else err io_error))
  unfolding collect_store
  collect_store-keeps c s h =
      let (removed, collected) = select s.statistics in
      let file = (c.collect_logs removed collected s.log_file).1 in
      let cleared : AsyncLogFileStore F P = record s {
        log_file = file;
        statistics = [];
        removed = [];
        tmp_map = [];
        is_statistics = false;
      } in
      elim (Option-cases (c.read_again file)) [
        | inl e ↦ (ground arith, ground arith, ground (arith, select-chosen s.statistics))
        | inr (log, e) ↦
            let (same, off) = load_all-keeps log cleared h in
            (ground arith, ground arith, ground (arith, select-chosen s.statistics))
      ]
