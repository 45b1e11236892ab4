-- ===== src/LogStore/Batches.antt =====
-- What a batch of `AsyncLogFileStore` (src/log_file_db.rs) appends to the log, and its effect on the
-- values of the keys.
use pi_db.Base.{
  nat_eq, list_eqb_iff, list_eq, pair_eq, ℕ, ◌≡◌, refl, ap, ◌∙◌, true, List, [], ◌∷◌, ◌++◌, map,
  arith,
}
use pi_db.Data.{Bytes}
use pi_db.HashMap.{HashMap, lookup, insert, remove}
use pi_db.HashMap.Laws.{lookup-insert, lookup-remove}
use pi_db.LogStore.File.{plain_append, removes, LogFile, Record, view}
use pi_db.LogStore.{append_all, remove_records, insert_all, remove_keys}

-- The record of a written pair, and of a removed key.
abbrev pub record_of : Bytes × Bytes → Record
record_of (key, value) = record { method = plain_append; key = key; value = value }

abbrev pub removal_of : Bytes → Record
removal_of key = record { method = removes; key = key; value = [] }

-- what a batch appends, the newest first
abbrev pub appended : List Record → List Record → List Record
appended [] out = out
appended (r ∷ rs) out = appended rs (r ∷ out)

pub appended-append : (rs out log : List Record) → appended rs out ++ log ≡ appended rs (out ++ log)
appended-append [] out log = refl
appended-append (r ∷ rs) out log = appended-append rs (r ∷ out) log

-- the log after a batch, key by key, is the copy after the batch
pub view-appended :
    (pairs : List (Bytes × Bytes)) (m : HashMap Bytes Bytes) (log : List Record) (k : Bytes)
    → ((j : Bytes) → lookup j m ≡ view log j)
    → lookup k (insert_all pairs m) ≡ view (appended (map record_of pairs) log) k
unfolding view
view-appended [] m log k h = h k
view-appended ((j, v) ∷ pairs) m log k h =
    view-appended pairs (insert j v m) (record_of (j, v) ∷ log) k
      λ i. ground (arith, h i, list_eqb_iff j i, lookup-insert j i v m)

pub view-removals :
    (keys : List Bytes) (m : HashMap Bytes Bytes) (log : List Record) (k : Bytes)
    → ((j : Bytes) → lookup j m ≡ view log j)
    → lookup k (remove_keys keys m) ≡ view (appended (map removal_of keys) log) k
unfolding view
view-removals [] m log k h = h k
view-removals (j ∷ keys) m log k h =
    view-removals keys (remove j m) (removal_of j ∷ log) k
      λ i. ground (arith, h i, list_eqb_iff j i, lookup-remove j i m)

module _ {F : Type 0} (lf : LogFile F) where
  pub append_all-pending :
      (id : ℕ) (pairs : List (Bytes × Bytes)) (f : F)
      → (lf.pending (append_all lf id pairs f).1 ≡ appended (map record_of pairs) (lf.pending f))
        × (lf.written (append_all lf id pairs f).1 ≡ lf.written f)
  unfolding append_all
  append_all-pending id [] f = (refl, refl)
  append_all-pending id ((k, v) ∷ pairs) f =
      let (id', f') = lf.append f plain_append k v in
      let (p, w) = append_all-pending id' pairs f' in
      (
        p ∙ ap (appended (map record_of pairs)) (lf.pending-append f plain_append k v),
        w ∙ lf.written-append f plain_append k v,
      )

  pub append_all-committed :
      (id : ℕ) (pair : Bytes × Bytes) (pairs : List (Bytes × Bytes)) (f : F)
      → let (id', f') = append_all lf id (pair ∷ pairs) f in
        (lf.delay_commit f' id').0 ≡ true
        → (lf.written (lf.delay_commit f' id').1 ≡ lf.pending f' ++ lf.written f)
          × (lf.pending (lf.delay_commit f' id').1 ≡ [])
  unfolding append_all
  append_all-committed id (k, v) [] f h =
      (lf.written-delay_commit f plain_append k v h, lf.pending-delay_commit f plain_append k v h)
  append_all-committed id (k, v) (q ∷ pairs) f h =
      let (id', f') = lf.append f plain_append k v in
      let (w, p) = append_all-committed id' q pairs f' h in
      (rw (lf.written-append f plain_append k v) at w, p)

  pub remove_records-pending :
      (id : ℕ) (keys : List Bytes) (f : F)
      → (lf.pending (remove_records lf id keys f).1 ≡ appended (map removal_of keys) (lf.pending f))
        × (lf.written (remove_records lf id keys f).1 ≡ lf.written f)
  unfolding remove_records
  remove_records-pending id [] f = (refl, refl)
  remove_records-pending id (k ∷ keys) f =
      let (id', f') = lf.append f removes k [] in
      let (p, w) = remove_records-pending id' keys f' in
      (
        p ∙ ap (appended (map removal_of keys)) (lf.pending-append f removes k []),
        w ∙ lf.written-append f removes k [],
      )

  pub remove_records-committed :
      (id : ℕ) (key : Bytes) (keys : List Bytes) (f : F)
      → let (id', f') = remove_records lf id (key ∷ keys) f in
        (lf.delay_commit f' id').0 ≡ true
        → (lf.written (lf.delay_commit f' id').1 ≡ lf.pending f' ++ lf.written f)
          × (lf.pending (lf.delay_commit f' id').1 ≡ [])
  unfolding remove_records
  remove_records-committed id k [] f h =
      (lf.written-delay_commit f removes k [] h, lf.pending-delay_commit f removes k [] h)
  remove_records-committed id k (q ∷ keys) f h =
      let (id', f') = lf.append f removes k [] in
      let (w, p) = remove_records-committed id' q keys f' h in
      (rw (lf.written-append f removes k []) at w, p)

-- the log after a batch
pub logged :
    (rs log p q r : List Record) → r ≡ p ++ log → p ≡ appended rs q → q ≡ [] → r ≡ appended rs log
logged rs log p q r w a e =
    w ∙ ap (λ l. l ++ log) (a ∙ ap (appended rs) e) ∙ appended-append rs [] log
