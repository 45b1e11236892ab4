-- ===== src/Mgr/Storing.antt =====
-- What the commit of a transaction over several tables relies on of the transactions of the tables:
-- one that is alone on its table is prepared and committed, and the others are left as they are.
use pi_db.Base.{[], ◌∷◌, List, nat_eq, list_eq, pair_eq, ◌≡◌, Option}
use pi_db.Data.{Bytes, Bin, RwLog, ok}
use pi_db.HashMap.{HashMap}
use pi_db.Mgr.{Database}

-- `IsReady` is that nothing is in the way of the preparation, and `Apart` that two transactions are
-- not the same and work on different tables.
pub record Storing {W Ware Txn Meta G Atom EnumType : Type 0}
    (db : Database W Ware Txn Meta G Atom EnumType) (IsReady IsPrepared : Txn → W → Type 0)
    (Apart : Txn → Txn → W → Type 0) : Type 0 where
  pub seen : Txn → W → Bytes → Option Bin
  pub stored : Txn → W → Bytes → Option Bin
  pub sym_apart : (t u : Txn) (w : W) → Apart t u w → Apart u t w
  pub prepare-Apart : (s t u : Txn) (w : W) → Apart t u w → Apart t u (db.txn_prepare s w).1
  pub prepare-ok : (t : Txn) (w : W) → IsReady t w → (db.txn_prepare t w).0 ≡ ok tt
  pub prepare-IsPrepared : (t : Txn) (w : W) → IsReady t w → IsPrepared t (db.txn_prepare t w).1
  pub prepare-seen :
      (t u : Txn) (w : W) (k : Bytes) → IsReady t w → seen u (db.txn_prepare t w).1 k ≡ seen u w k
  pub prepare-other :
      (t u : Txn) (w : W) → Apart t u w → IsReady u w → IsReady u (db.txn_prepare t w).1
  pub prepare-other_prepared :
      (t u : Txn) (w : W) → Apart t u w → IsPrepared u w → IsPrepared u (db.txn_prepare t w).1
  pub commit-Apart : (s t u : Txn) (w : W) → Apart t u w → Apart t u (db.txn_commit s w).1
  pub commit-ok :
      (t : Txn) (w : W)
      → IsPrepared t w
      → (log : HashMap Bytes RwLog) × ((db.txn_commit t w).0 ≡ ok log)
  pub commit-stored :
      (t : Txn) (w : W) (k : Bytes) → IsPrepared t w → stored t (db.txn_commit t w).1 k ≡ seen t w k
  pub commit-seen :
      (t u : Txn) (w : W) (k : Bytes) → Apart t u w → seen u (db.txn_commit t w).1 k ≡ seen u w k
  pub commit-other :
      (t u : Txn) (w : W) → Apart t u w → IsPrepared u w → IsPrepared u (db.txn_commit t w).1
  pub commit-other_stored :
      (t u : Txn) (w : W) (k : Bytes)
      → Apart t u w
      → stored u (db.txn_commit t w).1 k ≡ stored u w k

module _ {Txn : Type 0} where
  abbrev pub Each : (Txn → Type 0) → List Txn → Type 0
  Each p [] = Unit
  Each p (t ∷ ts) = p t × Each p ts

module _ {W Txn : Type 0} (Apart : Txn → Txn → W → Type 0) where
  abbrev pub PairwiseApart : List Txn → W → Type 0
  PairwiseApart [] w = Unit
  PairwiseApart (t ∷ ts) w = Each (λ u. Apart t u w) ts × PairwiseApart ts w
