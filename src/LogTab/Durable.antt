-- ===== src/LogTab/Durable.antt =====
-- The table in memory and its log file after a commit (`commit_inner` of `FileMemTxn` in
-- src/log_file_db.rs).
use pi_db.Base.{
  nat_eq, list_eqb_iff, list_eq, pair_eq, ◌≡◌, refl, Option, none, some, List, [], ◌∷◌, arith,
}
use pi_db.Data.{Bytes, Bin, RwLog, ok, read, write, meta}
use pi_db.HashMap.{HashMap, lookup, insert, remove}
use pi_db.HashMap.Laws.{Distinct, lookup-insert, lookup-remove}
use pi_db.LogStore.{AsyncLogFileStore, write_batch, remove_batch, insert_all, remove_keys}
use pi_db.LogStore.File.{LogFile}
use pi_db.LogStore.Writes.{IsLogged, write_batch-IsLogged, remove_batch-IsLogged}
use pi_db.LogTab.{write_pairs, drop_keys, insert_pairs, delete_keys}
use pi_db.Snapshot.Overlay.{overlay_one}

-- the effect of the written pairs, and of the removed keys, on one key
abbrev pub put_one : Option RwLog → Option Bytes → Option Bytes
put_one (some (write (some v))) o = some v.bytes
put_one (some (write none)) o = o
put_one (some read) o = o
put_one (some (meta _)) o = o
put_one none o = o

abbrev pub drop_one : Option RwLog → Option Bytes → Option Bytes
drop_one (some (write none)) o = none
drop_one (some (write (some v))) o = o
drop_one (some read) o = o
drop_one (some (meta _)) o = o
drop_one none o = o

pub lookup-insert_all :
    (log : HashMap Bytes RwLog) (m : HashMap Bytes Bytes) (k : Bytes)
    → Distinct log
    → lookup k (insert_all (insert_pairs log) m) ≡ put_one (lookup k log) (lookup k m)
unfolding insert_pairs lookup
lookup-insert_all [] m k d = refl
lookup-insert_all ((j, read) ∷ rest) m k d =
    ground (arith, list_eqb_iff j k, lookup-insert_all rest m k d.1)
lookup-insert_all ((j, meta _) ∷ rest) m k d =
    ground (arith, list_eqb_iff j k, lookup-insert_all rest m k d.1)
lookup-insert_all ((j, write none) ∷ rest) m k d =
    ground (arith, list_eqb_iff j k, lookup-insert_all rest m k d.1)
lookup-insert_all ((j, write (some v)) ∷ rest) m k d = ground (
  arith,
  list_eqb_iff j k,
  lookup-insert_all rest (insert j v.bytes m) k d.1,
  lookup-insert j k v.bytes m,
)

pub lookup-remove_keys :
    (log : HashMap Bytes RwLog) (m : HashMap Bytes Bytes) (k : Bytes)
    → Distinct log
    → lookup k (remove_keys (delete_keys log) m) ≡ drop_one (lookup k log) (lookup k m)
unfolding delete_keys lookup
lookup-remove_keys [] m k d = refl
lookup-remove_keys ((j, read) ∷ rest) m k d =
    ground (arith, list_eqb_iff j k, lookup-remove_keys rest m k d.1)
lookup-remove_keys ((j, meta _) ∷ rest) m k d =
    ground (arith, list_eqb_iff j k, lookup-remove_keys rest m k d.1)
lookup-remove_keys ((j, write (some v)) ∷ rest) m k d =
    ground (arith, list_eqb_iff j k, lookup-remove_keys rest m k d.1)
lookup-remove_keys ((j, write none) ∷ rest) m k d =
    ground
      (arith, list_eqb_iff j k, lookup-remove_keys rest (remove j m) k d.1, lookup-remove j k m)

abbrev pub bytes_of : Option Bin → Option Bytes
bytes_of (some v) = some v.bytes
bytes_of none = none

pub both-overlay :
    (l : Option RwLog) (o : Option Bin)
    → drop_one l (put_one l (bytes_of o)) ≡ bytes_of (overlay_one l o)
both-overlay none o = refl
both-overlay (some read) o = refl
both-overlay (some (meta _)) o = refl
both-overlay (some (write none)) o = refl
both-overlay (some (write (some v))) o = refl

module _ {F P : Type 0} (lf : LogFile F) where
  -- both batches of a log reach the log file
  abbrev pub Written : HashMap Bytes RwLog → AsyncLogFileStore F P → Type 0
  Written log s =
      ((write_pairs lf (insert_pairs log) s).0 ≡ ok tt)
      × ((drop_keys lf (delete_keys log) (write_pairs lf (insert_pairs log) s).1).0 ≡ ok tt)

  write_batch-map :
      (p : Bytes × Bytes) (pairs : List (Bytes × Bytes)) (s : AsyncLogFileStore F P)
      → (write_batch lf (p ∷ pairs) s).0 ≡ ok tt
      → (write_batch lf (p ∷ pairs) s).1.map ≡ insert_all (p ∷ pairs) s.map
  unfolding write_batch
  write_batch-map p pairs s e = ground arith

  remove_batch-map :
      (k : Bytes) (keys : List Bytes) (s : AsyncLogFileStore F P)
      → (remove_batch lf (k ∷ keys) s).0 ≡ ok tt
      → (remove_batch lf (k ∷ keys) s).1.map ≡ remove_keys (k ∷ keys) s.map
  unfolding remove_batch
  remove_batch-map k keys s e = ground arith

  pub write_pairs-IsLogged :
      (pairs : List (Bytes × Bytes)) (s : AsyncLogFileStore F P)
      → IsLogged lf s
      → (write_pairs lf pairs s).0 ≡ ok tt
      → IsLogged lf (write_pairs lf pairs s).1
        × ((write_pairs lf pairs s).1.map ≡ insert_all pairs s.map)
  unfolding write_pairs
  write_pairs-IsLogged [] s h e = (h, refl)
  write_pairs-IsLogged (p ∷ pairs) s h e =
      (write_batch-IsLogged lf p pairs s h e, write_batch-map p pairs s e)

  pub drop_keys-IsLogged :
      (keys : List Bytes) (s : AsyncLogFileStore F P)
      → IsLogged lf s
      → (drop_keys lf keys s).0 ≡ ok tt
      → IsLogged lf (drop_keys lf keys s).1 × ((drop_keys lf keys s).1.map ≡ remove_keys keys s.map)
  unfolding drop_keys
  drop_keys-IsLogged [] s h e = (h, refl)
  drop_keys-IsLogged (k ∷ keys) s h e =
      (remove_batch-IsLogged lf k keys s h e, remove_batch-map k keys s e)
