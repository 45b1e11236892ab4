-- ===== src/LogTab/Inherited.antt =====
-- What a table shows after it is opened (`LogFileTab::new` of src/log_file_db.rs): the values of its
-- log, under those of the logs of the tables that it is forked from.
use pi_db.Base.{
  Eq, nat_eq, list_eqb_iff, list_eq, pair_eq, length, ℕ, suc, ◌+◌, ◌≡◌, refl, ap, ◌∙◌, Bool, false,
  Option, none, some, List, [], ◌∷◌, arith,
}
use pi_db.Data.{Bytes, Bin}
use pi_db.HashMap.{HashMap, lookup}
use pi_db.HashMap.Laws.{Distinct, Distinct-insert}
use pi_db.OrdMap.{OrdMap}
use pi_db.LogStore.{AsyncLogFileStore, new_store}
use pi_db.LogStore.File.{Record, view}
use pi_db.LogStore.Loader.{load_all, feed, is_require, load}
use pi_db.LogStore.Recovery.{records, load_all-view}
use pi_db.LogTab.{LogFileTab}
use pi_db.LogTab.Load.{
  Reader, upsert_all, part_below, fork_index, above, load_above, new_log_file_tab,
}
use pi_db.Fork.{TableMetaInfo}
use pi_db.Snapshot.Overlay.{Canonical}

abbrev pub first : {A : Type 0} → Option A → Option A → Option A
first (some v) o = some v
first none o = o

abbrev pub bytes_of : Option Bin → Option Bytes
bytes_of (some b) = some b.bytes
bytes_of none = none

-- The value of a key from the logs of the tables above, the nearest first, and from what the key has
-- below them: the farthest table that has the key decides.
abbrev pub inherited : {P : Type 0} → List (List (P × Record)) → Bytes → Option Bytes → Option Bytes
inherited [] k own = own
inherited (log ∷ logs) k own = inherited logs k (first (view (records log) k) own)

module _ {F P : Type 0} ⦃ep : Eq P⦄ where
  feed-Distinct :
      (p : P) (r : Record) (s : AsyncLogFileStore F P) → Distinct s.map → Distinct (feed p r s).map
  unfolding feed is_require load
  feed-Distinct p r s d = ground (arith, Distinct-insert r.key r.value s.map d)

  load_all-Distinct :
      (log : List (P × Record)) (s : AsyncLogFileStore F P)
      → Distinct s.map
      → Distinct (load_all log s).map
  unfolding load_all
  load_all-Distinct [] s d = d
  load_all-Distinct ((p, r) ∷ rest) s d =
      load_all-Distinct rest (feed p r s) (feed-Distinct p r s d)

module _ {M : Type 0} {same : Bytes → Bytes → Bool} (om : OrdMap same Bin M)
    (canon : Canonical same) where
  upsert_all-view :
      (m : HashMap Bytes Bytes) (at : ℕ) (root : M) (k : Bytes)
      → Distinct m
      → bytes_of (om.get (upsert_all om at m root) k)
        ≡ first (lookup k m) (bytes_of (om.get root k))
  unfolding upsert_all lookup
  upsert_all-view [] at root k d = refl
  upsert_all-view ((j, v) ∷ rest) at root k d =
      let b : Bin = record { ptr = at; bytes = v } in
      ground (
        arith,
        upsert_all-view rest (suc at) (om.upsert root j b) k d.1,
        om.get-upsert root j k b,
        canon j k,
        list_eqb_iff j k,
        d.0,
      )

module _ {Atom EnumType F P : Type 0} (reader : Reader Atom F P) where
  -- The files of the tables above are there, from the nearest to the farthest, and each table but
  -- the farthest is a fork.
  abbrev pub Opens :
      Option ℕ → List (TableMetaInfo Atom EnumType) → List (List (P × Record)) → Type 0
  Opens id [] [] = Unit
  Opens (some n) (tm ∷ chain) (log ∷ logs) =
      ((file : F) × (reader.open_above tm.tab_name tm.parent_log_id (part_below n)
          ≡ some (file, log)))
      × Opens tm.parent_log_id chain logs
  Opens _ _ _ = ⊥

module _ {Atom EnumType F P M : Type 0} ⦃ep : Eq P⦄ (reader : Reader Atom F P)
    {same : Bytes → Bytes → Bool} (om : OrdMap same Bin M) (canon : Canonical same) where
  load_above-view :
      (chain : List (TableMetaInfo Atom EnumType)) (logs : List (List (P × Record))) (id : Option ℕ)
      (at : ℕ) (root : M)
      → Opens reader id chain logs
      → (m : M) × (load_above reader om id chain at root ≡ some m)
        × ((k : Bytes) → bytes_of (om.get m k) ≡ inherited logs k (bytes_of (om.get root k)))
  unfolding load_above
  load_above-view [] [] id at root h = (root, refl, λ k. refl)
  load_above-view [] (log ∷ logs) none at root h = absurd h
  load_above-view [] (log ∷ logs) (some n) at root h = absurd h
  load_above-view (tm ∷ chain) logs none at root h = absurd h
  load_above-view (tm ∷ chain) [] (some n) at root h = absurd h
  load_above-view (tm ∷ chain) (log ∷ logs) (some n) at root ((file, e), rest) =
      let found = (load_all log (new_store file)).map in
      let d = load_all-Distinct log (new_store file) tt in
      let (m, run, seen) =
        load_above-view chain logs tm.parent_log_id (at + length found)
          (upsert_all om at found root) rest in
      (
        m,
        rw (e, load_above) run,
        λ k.
            seen k
            ∙ ap (inherited logs k) (
                upsert_all-view om canon found at root k d
                ∙ ap (λ o. first o (bytes_of (om.get root k))) (load_all-view log file k)),
      )

  -- A table whose log file and those of the tables that it is forked from can be opened is opened.
  -- Its own store has the values of its own log; but what its transactions see of a key is the value
  -- of the farthest table above that has the key, and the table's own value only if none has it.
  pub new_log_file_tab-view :
      {G : Type 0} (at : ℕ) (tab : Atom) (chains : List (TableMetaInfo Atom EnumType)) (file : F)
      (log : List (P × Record)) (logs : List (List (P × Record)))
      → reader.open_leaf tab (fork_index chains) ≡ some (file, log)
      → Opens reader (fork_index chains) (above chains) logs
      → (t : LogFileTab G M Atom F P) × (new_log_file_tab reader om at tab chains ≡ some t)
        × ((k : Bytes) → lookup k t.store.map ≡ view (records log) k)
        × ((k : Bytes) → bytes_of (om.get t.root k) ≡ inherited logs k (view (records log) k))
        × (t.prepare ≡ [])
  unfolding new_log_file_tab
  new_log_file_tab-view at tab chains file log logs e h =
      let store = load_all log (new_store file) in
      let d = load_all-Distinct log (new_store file) tt in
      let (m, run, seen) =
        load_above-view (above chains) logs (fork_index chains) (at + length store.map)
          (upsert_all om at store.map om.new) h in
      (
        record { prepare = []; root = m; tab = tab; store = record store { is_init = false } },
        rw (e, new_log_file_tab, run) refl,
        load_all-view log file,
        λ k.
            seen k
            ∙ ap (inherited logs k) (
                upsert_all-view om canon store.map at om.new k d
                ∙ ap (λ o. first (lookup k store.map) (bytes_of o)) (om.get-new k)
                ∙ ground (arith, load_all-view log file k)),
        refl,
      )
