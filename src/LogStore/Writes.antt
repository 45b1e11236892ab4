-- ===== src/LogStore/Writes.antt =====
-- The copy in memory and the log (`write`, `write_batch`, `remove`, `remove_batch` of
-- `AsyncLogFileStore` in src/log_file_db.rs).
use pi_db.Base.{
  nat_eq, list_eqb_iff, list_eq, pair_eq, ◌≡◌, refl, sym, ap, ◌∙◌, Bool, true, false, Option, List,
  [], ◌∷◌, map, arith,
}
use pi_db.Data.{Bytes, SResult, ok, err}
use pi_db.HashMap.{lookup}
use pi_db.HashMap.Laws.{lookup-insert, lookup-remove}
use pi_db.LogStore.File.{plain_append, removes, LogFile, view}
use pi_db.LogStore.{
  AsyncLogFileStore, append_all, remove_records, write_batch, write_one, remove_batch, remove_one,
}
use pi_db.LogStore.Batches.{
  record_of, removal_of, view-appended, view-removals, append_all-pending, append_all-committed,
  remove_records-pending, remove_records-committed, logged,
}

module _ {F P : Type 0} (lf : LogFile F) where
  -- The copy holds what the log says, and nothing waits to be written.
  pub record IsLogged (s : AsyncLogFileStore F P) : Type 0 where
    pub idle : lf.pending s.log_file ≡ []
    pub copied : (k : Bytes) → lookup k s.map ≡ view (lf.written s.log_file) k

  pub write_batch-IsLogged :
      (pair : Bytes × Bytes) (pairs : List (Bytes × Bytes)) (s : AsyncLogFileStore F P)
      → IsLogged s
      → (write_batch lf (pair ∷ pairs) s).0 ≡ ok tt
      → IsLogged (write_batch lf (pair ∷ pairs) s).1
  unfolding write_batch
  write_batch-IsLogged pair pairs s h e =
      let (id, f) = append_all lf 0 (pair ∷ pairs) s.log_file in
      let committed : (lf.delay_commit f id).0 ≡ true = ground arith in
      let (w, p) = append_all-committed lf 0 pair pairs s.log_file committed in
      let (pending, _) = append_all-pending lf 0 (pair ∷ pairs) s.log_file in
      rw (committed, write_batch)
        (record {
          idle = p;
          copied = λ k.
              view-appended (pair ∷ pairs) s.map (lf.written s.log_file) k h.copied
              ∙ ap (λ l. view l k)
                  (sym (
                    logged (map record_of (pair ∷ pairs)) (lf.written s.log_file) _ _ _ w pending
                      h.idle));
        })

  pub remove_batch-IsLogged :
      (key : Bytes) (keys : List Bytes) (s : AsyncLogFileStore F P)
      → IsLogged s
      → (remove_batch lf (key ∷ keys) s).0 ≡ ok tt
      → IsLogged (remove_batch lf (key ∷ keys) s).1
  unfolding remove_batch
  remove_batch-IsLogged key keys s h e =
      let (id, f) = remove_records lf 0 (key ∷ keys) s.log_file in
      let committed : (lf.delay_commit f id).0 ≡ true = ground arith in
      let (w, p) = remove_records-committed lf 0 key keys s.log_file committed in
      let (pending, _) = remove_records-pending lf 0 (key ∷ keys) s.log_file in
      rw (committed, remove_batch)
        (record {
          idle = p;
          copied = λ k.
              view-removals (key ∷ keys) s.map (lf.written s.log_file) k h.copied
              ∙ ap (λ l. view l k)
                  (sym (
                    logged (map removal_of (key ∷ keys)) (lf.written s.log_file) _ _ _ w pending
                      h.idle));
        })

  write_one-IsLogged :
      (key value : Bytes) (s : AsyncLogFileStore F P) (old : Option Bytes)
      → IsLogged s
      → (write_one lf key value s).0 ≡ ok old
      → IsLogged (write_one lf key value s).1
  unfolding write_one view
  write_one-IsLogged key value s old h e = record {
    idle = ground (arith, lf.pending-delay_commit s.log_file plain_append key value);
    copied = λ k. ground (
      arith,
      h.idle,
      h.copied k,
      list_eqb_iff key k,
      lookup-insert key k value s.map,
      lf.written-delay_commit s.log_file plain_append key value,
      lf.pending-append s.log_file plain_append key value,
    );
  }

  remove_one-IsLogged :
      (key : Bytes) (s : AsyncLogFileStore F P) (old : Option Bytes)
      → IsLogged s
      → (remove_one lf key s).0 ≡ ok old
      → IsLogged (remove_one lf key s).1
  unfolding remove_one view
  remove_one-IsLogged key s old h e = record {
    idle = ground (arith, lf.pending-delay_commit s.log_file removes key []);
    copied = λ k. ground (
      arith,
      h.idle,
      h.copied k,
      list_eqb_iff key k,
      lookup-remove key k s.map,
      lf.written-delay_commit s.log_file removes key [],
      lf.pending-append s.log_file removes key [],
    );
  }

-- One operation on a store, other than a read.
pub data Op : Type 0 where
  write_op : Bytes → Bytes → Op
  remove_op : Bytes → Op
  write_batch_op : Bytes × Bytes → List (Bytes × Bytes) → Op
  remove_batch_op : Bytes → List Bytes → Op

module _ {F P : Type 0} (lf : LogFile F) where
  -- whether the operation succeeded, and the store after it
  pub apply_op : Op → AsyncLogFileStore F P → Bool × AsyncLogFileStore F P
  unfolding write_one remove_one write_batch remove_batch
  apply_op (write_op k v) s =
      let (r, s') = write_one lf k v s in (elim r [ ok _ ↦ true | err _ ↦ false ], s')
  apply_op (remove_op k) s =
      let (r, s') = remove_one lf k s in (elim r [ ok _ ↦ true | err _ ↦ false ], s')
  apply_op (write_batch_op p ps) s =
      let (r, s') = write_batch lf (p ∷ ps) s in (elim r [ ok _ ↦ true | err _ ↦ false ], s')
  apply_op (remove_batch_op k ks) s =
      let (r, s') = remove_batch lf (k ∷ ks) s in (elim r [ ok _ ↦ true | err _ ↦ false ], s')

Success-cases :
    {A : Type 0} (r : SResult A)
    → elim r [ ok _ ↦ true | err _ ↦ false ] ≡ true
    → (a : A) × (r ≡ ok a)
Success-cases (ok a) h = (a, refl)
Success-cases (err e) h = cc

module _ {F P : Type 0} (lf : LogFile F) where
  apply_op-kept :
      (op : Op) (s : AsyncLogFileStore F P)
      → IsLogged lf s
      → (apply_op lf op s).0 ≡ true
      → IsLogged lf (apply_op lf op s).1
  unfolding apply_op
  apply_op-kept (write_op k v) s h e =
      let (old, r) = Success-cases (write_one lf k v s).0 e in write_one-IsLogged lf k v s old h r
  apply_op-kept (remove_op k) s h e =
      let (old, r) = Success-cases (remove_one lf k s).0 e in remove_one-IsLogged lf k s old h r
  apply_op-kept (write_batch_op p ps) s h e =
      write_batch-IsLogged lf p ps s h
        (let (u, r) = Success-cases (write_batch lf (p ∷ ps) s).0 e in r)
  apply_op-kept (remove_batch_op k ks) s h e =
      remove_batch-IsLogged lf k ks s h
        (let (u, r) = Success-cases (remove_batch lf (k ∷ ks) s).0 e in r)

  apply_op-failed :
      (op : Op) (s : AsyncLogFileStore F P)
      → (apply_op lf op s).0 ≡ false
      → (apply_op lf op s).1.map ≡ s.map
  unfolding apply_op write_one remove_one write_batch remove_batch
  apply_op-failed (write_op k v) s e = ground arith
  apply_op-failed (remove_op k) s e = ground arith
  apply_op-failed (write_batch_op p ps) s e = ground arith
  apply_op-failed (remove_batch_op k ks) s e = ground arith

  -- An operation of the store that succeeds keeps the copy in memory equal to what the log says,
  -- key by key, with nothing left to write; one that fails leaves the copy as it was.
  pub apply_op-IsLogged :
      (op : Op) (s : AsyncLogFileStore F P)
      → IsLogged lf s
      → ((apply_op lf op s).0 ≡ true → IsLogged lf (apply_op lf op s).1)
        × ((apply_op lf op s).0 ≡ false → (apply_op lf op s).1.map ≡ s.map)
  apply_op-IsLogged op s h = (apply_op-kept op s h, apply_op-failed op s)
