-- ===== src/LogTab/Recovery.antt =====
-- A table with a log file and its restart (`commit_inner` of `FileMemTxn` with the loader, in
-- src/log_file_db.rs).
use pi_db.OrdMap.{OrdMap}
use pi_db.Base.{
  Eq, nat_eq, list_eq, pair_eq, ℕ, ◌≡◌, refl, sym, ap, ◌∙◌, Bool, false, Option, some, List, [],
  ◌∷◌, arith,
}
use pi_db.Data.{Bytes, Bin, RwLog, ok}
use pi_db.HashMap.{HashMap, lookup}
use pi_db.HashMap.Laws.{Distinct}
use pi_db.LogStore.{
  insert_all, remove_keys, remove_records, append_all, AsyncLogFileStore, write_batch, remove_batch,
  new_store,
}
use pi_db.LogStore.File.{LogFile, view, Record}
use pi_db.LogStore.Loader.{load_all}
use pi_db.LogStore.Recovery.{load_all-view, records}
use pi_db.LogStore.Writes.{IsLogged}
use pi_db.LogTab.{
  LogFileTab, FileMemTxn, commit_inner, write_logs, write_pairs, drop_keys, insert_pairs,
  delete_keys,
}
use pi_db.LogTab.Durable.{
  Written, write_pairs-IsLogged, drop_keys-IsLogged, lookup-insert_all, lookup-remove_keys,
  both-overlay, bytes_of, put_one, drop_one,
}
use pi_db.LogTab.Commit.{log_commit-view}
use pi_db.Snapshot.Overlay.{Canonical, overlay, IsOverlay}

module _ {G M Atom F P : Type 0} {same : Bytes → Bytes → Bool} (om : OrdMap same Bin M)
    (lf : LogFile F) where
  -- The store is as its log says, and the table in memory has its values.
  pub record IsDurable (tab : LogFileTab G M Atom F P) : Type 0 where
    pub logged : IsLogged lf tab.store
    pub agrees : (k : Bytes) → lookup k tab.store.map ≡ bytes_of (om.get tab.root k)

module _ {F P : Type 0} (lf : LogFile F) where
  write_logs-overlay :
      (log : HashMap Bytes RwLog) (s : AsyncLogFileStore F P) (values : Bytes → Option Bin)
      → Distinct log
      → IsLogged lf s
      → Written lf log s
      → ((k : Bytes) → lookup k s.map ≡ bytes_of (values k))
      → IsLogged lf (write_logs lf log s)
        × ((k : Bytes) → lookup k (write_logs lf log s).map ≡ bytes_of (overlay log k (values k)))
  unfolding write_logs
  write_logs-overlay log s values d h (w1, w2) agrees =
      let (h1, m1) = write_pairs-IsLogged lf (insert_pairs log) s h w1 in
      let (h2, m2) =
        drop_keys-IsLogged lf (delete_keys log) (write_pairs lf (insert_pairs log) s).1 h1 w2 in
      (
        h2,
        λ k.
            ap (lookup k) (m2 ∙ ap (remove_keys (delete_keys log)) m1)
            ∙ lookup-remove_keys log (insert_all (insert_pairs log) s.map) k d
            ∙ ap (drop_one (lookup k log))
                (lookup-insert_all log s.map k d ∙ ap (put_one (lookup k log)) (agrees k))
            ∙ both-overlay (lookup k log) (values k),
      )

  map-write_pairs :
      (pairs : List (Bytes × Bytes)) (s : AsyncLogFileStore F P)
      → ((f : F) (id : ℕ) → (lf.delay_commit f id).0 ≡ false)
      → (write_pairs lf pairs s).1.map ≡ s.map
  unfolding write_pairs write_batch
  map-write_pairs [] s fails = refl
  map-write_pairs (p ∷ pairs) s fails =
      let (id, f) = append_all lf 0 (p ∷ pairs) s.log_file in ground (arith, fails f id)

  map-drop_keys :
      (keys : List Bytes) (s : AsyncLogFileStore F P)
      → ((f : F) (id : ℕ) → (lf.delay_commit f id).0 ≡ false)
      → (drop_keys lf keys s).1.map ≡ s.map
  unfolding drop_keys remove_batch
  map-drop_keys [] s fails = refl
  map-drop_keys (k ∷ keys) s fails =
      let (id, f) = remove_records lf 0 (k ∷ keys) s.log_file in ground (arith, fails f id)

  map-write_logs :
      (log : HashMap Bytes RwLog) (s : AsyncLogFileStore F P)
      → ((f : F) (id : ℕ) → (lf.delay_commit f id).0 ≡ false)
      → (write_logs lf log s).map ≡ s.map
  unfolding write_logs
  map-write_logs log s fails =
      map-drop_keys (delete_keys log) (write_pairs lf (insert_pairs log) s).1 fails
      ∙ map-write_pairs (insert_pairs log) s fails

module _ {G M Atom F P : Type 0} ⦃eg : Eq G⦄ (time : G → ℕ) {same : Bytes → Bytes → Bool}
    (om : OrdMap same Bin M) (lf : LogFile F) where
  pub commit-IsDurable :
      (canon : Canonical same) (txn : FileMemTxn G M) (tab : LogFileTab G M Atom F P)
      (log : HashMap Bytes RwLog)
      → IsOverlay om txn.root txn.old log
      → lookup txn.id tab.prepare ≡ some log
      → Written lf log tab.store
      → IsDurable om lf tab
      → IsDurable om lf (commit_inner time om lf txn tab).2
  commit-IsDurable canon txn tab log h e w d =
      let (_, seen, stored, _, _, _, _, _, _) = log_commit-view time om lf canon txn tab log h e in
      let (kept, values) =
        write_logs-overlay lf log tab.store (om.get tab.root) h.distinct d.logged w d.agrees in
      record {
        logged = rw stored kept;
        agrees = λ k. rw stored (values k ∙ ap bytes_of (sym (seen k)));
      }

  -- Let a transaction be prepared whose tree is its snapshot under its log. After its commit, if
  -- all records reach the log file and the table agreed with its log file, loading the log into a
  -- new store, whichever files the records stand in, gives each key the bytes of its value in the
  -- table in memory; and the table still agrees with its log file.
  pub commit-recovers :
      (canon : Canonical same) (txn : FileMemTxn G M) (tab : LogFileTab G M Atom F P)
      (log : HashMap Bytes RwLog)
      → IsOverlay om txn.root txn.old log
      → lookup txn.id tab.prepare ≡ some log
      → Written lf log tab.store
      → IsDurable om lf tab
      → let tab' = (commit_inner time om lf txn tab).2 in
        IsDurable om lf tab'
        × ((ep : Eq P) (file : F) (read_back : List (P × Record)) (k : Bytes)
            → records read_back ≡ lf.written tab'.store.log_file
            → lookup k (load_all ⦃ep = ep⦄ read_back (new_store file)).map
              ≡ bytes_of (om.get tab'.root k))
  commit-recovers canon txn tab log h e w d =
      let after = commit-IsDurable canon txn tab log h e w d in
      (
        after,
        λ ep file read_back k same_log.
            load_all-view ⦃ep = ep⦄ read_back file k
            ∙ ap (λ l. view l k) same_log
            ∙ sym (after.logged.copied k)
            ∙ after.agrees k,
      )

  -- The commit does not look at what the log file answers. Let the log file's `delay_commit` fail
  -- always, and let a transaction be prepared whose tree is its snapshot under its log. Then its
  -- commit succeeds all the same, and the table's tree has the written values, but the map of the
  -- store, which holds what the log file has taken, is as it was.
  pub commit-hides_failure :
      (canon : Canonical same) (txn : FileMemTxn G M) (tab : LogFileTab G M Atom F P)
      (log : HashMap Bytes RwLog)
      → IsOverlay om txn.root txn.old log
      → lookup txn.id tab.prepare ≡ some log
      → ((f : F) (id : ℕ) → (lf.delay_commit f id).0 ≡ false)
      → let (r, _, tab') = commit_inner time om lf txn tab in
        (r ≡ ok log)
        × ((k : Bytes) → om.get tab'.root k ≡ overlay log k (om.get tab.root k))
        × (tab'.store.map ≡ tab.store.map)
  commit-hides_failure canon txn tab log h e fails =
      let (done, seen, stored, _, _, _, _, _, _) =
        log_commit-view time om lf canon txn tab log h e in
      (
        done,
        seen,
        ap (λ (s : AsyncLogFileStore F P). s.map) stored ∙ map-write_logs lf log tab.store fails,
      )
