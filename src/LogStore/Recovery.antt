-- ===== src/LogStore/Recovery.antt =====
-- Loading a log into a new store (`is_require` and `load` of src/log_file_db.rs).
use pi_db.HashMap.Laws.{lookup-insert}
use pi_db.HashMap.{lookup}
use pi_db.Base.{
  [], none, inr, inl, ◌∙◌, Bool-cases, ◌==◌, list_eqb_iff, if◌then◌else◌, ◌∷◌, some, refl, Option,
  Eq, nat_eq, list_eq, pair_eq, ◌≡◌, Bool, true, false, ◌||◌, List, map, arith,
}
use pi_db.Data.{Bytes}
use pi_db.LogStore.File.{view, Record, value_of}
use pi_db.LogStore.{new_store, AsyncLogFileStore, contains_key}
use pi_db.LogStore.Loader.{load_all, feed, load_value}

abbrev pub records : {P : Type 0} → List (P × Record) → List Record
records = map (λ e. e.1)

-- What the loader decides by, without the statistics.
record Same {F P : Type 0} (s t : AsyncLogFileStore F P) : Type 0 where
  map : s.map ≡ t.map
  removed : s.removed ≡ t.removed
  tmp_map : s.tmp_map ≡ t.tmp_map
  is_init : s.is_init ≡ t.is_init

-- some record of the key has been read
abbrev settled : {F P : Type 0} → AsyncLogFileStore F P → Bytes → Bool
settled s k = contains_key k s.removed || contains_key k s.tmp_map

module _ {F P : Type 0} ⦃ep : Eq P⦄ where
  feed-settled :
      (p : P) (r : Record) (s : AsyncLogFileStore F P)
      → settled s r.key ≡ true
      → Same (feed p r s) s
  unfolding feed
  feed-settled p r s h = record {
    map = ground arith;
    removed = ground arith;
    tmp_map = ground arith;
    is_init = ground arith;
  }

  feed-new :
      (p : P) (r : Record) (s : AsyncLogFileStore F P)
      → settled s r.key ≡ false
      → Same (feed p r s) (load_value r.key (value_of r) s)
  unfolding feed
  feed-new p r s h = record {
    map = ground arith;
    removed = ground arith;
    tmp_map = ground arith;
    is_init = ground arith;
  }

-- what a key has after its newest record, if it has a record that writes
abbrev after : Option Bytes → Option Bytes → Option Bytes
after (some v) o = some v
after none o = o

abbrev holds : {F P : Type 0} → AsyncLogFileStore F P → Bytes → Option Bytes → Option Bytes
holds s k o = if settled s k then lookup k s.map else after o (lookup k s.map)

module _ {F P : Type 0} where
  holds-Same :
      (s t : AsyncLogFileStore F P) (k : Bytes) (o : Option Bytes)
      → Same s t
      → holds s k o ≡ holds t k o
  holds-Same s t k o h = rw (h.map, h.removed, h.tmp_map) refl

  holds-settled :
      (s : AsyncLogFileStore F P) (r : Record) (rest : List Record) (k : Bytes)
      → settled s r.key ≡ true
      → holds s k (view rest k) ≡ holds s k (view (r ∷ rest) k)
  unfolding view
  holds-settled s r rest k h = ground (arith, list_eqb_iff r.key k)

  holds-load_value :
      (s : AsyncLogFileStore F P) (key : Bytes) (v : Option Bytes) (o : Option Bytes) (k : Bytes)
      → s.is_init ≡ true
      → settled s key ≡ false
      → holds (load_value key v s) k o ≡ holds s k (if key == k then v else o)
  holds-load_value s key (some v) o k h n =
      ground
        (arith, list_eqb_iff key k, lookup-insert key k v s.map, lookup-insert key k tt s.tmp_map)
  holds-load_value s key none o k h n =
      ground (arith, list_eqb_iff key k, lookup-insert key k tt s.removed)

  is_init-load_value :
      (s : AsyncLogFileStore F P) (key : Bytes) (v : Option Bytes)
      → (load_value key v s).is_init ≡ s.is_init
  is_init-load_value s key (some v) = refl
  is_init-load_value s key none = refl

module _ {F P : Type 0} ⦃ep : Eq P⦄ where
  load_all-holds :
      (log : List (P × Record)) (s : AsyncLogFileStore F P) (k : Bytes)
      → s.is_init ≡ true
      → lookup k (load_all log s).map ≡ holds s k (view (records log) k)
  unfolding load_all view
  load_all-holds [] s k h = ground arith
  load_all-holds ((p, r) ∷ rest) s k h = elim (Bool-cases (settled s r.key)) [
    | inl old ↦
        let same = feed-settled p r s old in
        load_all-holds rest (feed p r s) k (same.is_init ∙ h)
        ∙ holds-Same (feed p r s) s k (view (records rest) k) same
        ∙ holds-settled s r (records rest) k old
    | inr new ↦
        let same = feed-new p r s new in
        load_all-holds rest (feed p r s) k
          (same.is_init ∙ is_init-load_value s r.key (value_of r) ∙ h)
        ∙ holds-Same (feed p r s) (load_value r.key (value_of r) s) k (view (records rest) k) same
        ∙ holds-load_value s r.key (value_of r) (view (records rest) k) k h new
  ]

  -- Loading the records of a log into a new store, each with whichever file it stands in, gives each
  -- key the value that its newest record has left, and no value to a key without a record.
  pub load_all-view :
      (log : List (P × Record)) (file : F) (k : Bytes)
      → lookup k (load_all log (new_store file)).map ≡ view (records log) k
  unfolding new_store lookup
  load_all-view log file k = load_all-holds log (new_store file) k refl ∙ ground arith
