-- ===== src/Mgr/Tabular.antt =====
-- What a client of several tables relies on of their transactions: each sees values, answers queries
-- with them, and changes them, its own only, as the modifications say.
use pi_db.Base.{nat_eq, list_eq, pair_eq, ◌≡◌, ◌≢◌, Option, List}
use pi_db.Data.{Bytes, Bin, TabKv, ok}
use pi_db.Snapshot.Effect.{effect, answers}
use pi_db.Mgr.{Database}

-- `IsOpen` is that the transaction has not been prepared.
pub record Tabular {W Ware Txn Meta G Atom EnumType : Type 0}
    (db : Database W Ware Txn Meta G Atom EnumType) (IsOpen : Txn → W → Type 0) : Type 0 where
  pub seen : Txn → W → Bytes → Option Bin
  pub query-answers :
      (t : Txn) (arr : List (TabKv Atom)) (w : W)
      → (db.txn_query t arr w).0 ≡ ok (answers (seen t w) arr)
  pub query-seen :
      (t u : Txn) (arr : List (TabKv Atom)) (w : W) (k : Bytes)
      → seen u (db.txn_query t arr w).1 k ≡ seen u w k
  pub modify-ok :
      (t : Txn) (arr : List (TabKv Atom)) (w : W) → IsOpen t w → (db.txn_modify t arr w).0 ≡ ok tt
  pub modify-seen :
      (t : Txn) (arr : List (TabKv Atom)) (w : W) (k : Bytes)
      → IsOpen t w
      → seen t (db.txn_modify t arr w).1 k ≡ effect arr k (seen t w k)
  pub modify-other :
      (t u : Txn) (arr : List (TabKv Atom)) (w : W) (k : Bytes)
      → t ≢ u
      → seen u (db.txn_modify t arr w).1 k ≡ seen u w k
  pub modify-IsOpen :
      (t u : Txn) (arr : List (TabKv Atom)) (w : W)
      → IsOpen t w
      → IsOpen u w
      → IsOpen u (db.txn_modify t arr w).1
