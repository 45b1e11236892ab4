-- ===== src/Mgr/Calls.antt =====
-- The calls of a client in src/mgr.rs: `query`, `modify` and `tab_size` of `Tr`.
use pi_db.Base.{
  if◌then◌else◌, Eq, nat_eq, list_eq, pair_eq, length, ℕ, zero, suc, Bool, true, false, Option,
  none, some, List, [], ◌∷◌, ◌++◌,
}
use pi_db.Data.{
  Error, SResult, DbResult, TxState, TabKv, tr_query_error, modify_failed, ok, err, doing,
}
use pi_db.Mgr.{Database, Tr, build, is_ok}
use pi_db.Mgr.Batch.{Groups, tab_map, merge_result}

-- How the loop of `query` ends: it returns an error, it stops or comes to its end, or it panics.
pub data QueryEnd (A : Type 0) : Type 0 where
  returned : Error → QueryEnd A
  ended : A → QueryEnd A
  panicked : QueryEnd A

module _ {W Ware Txn Meta G Atom EnumType : Type 0} ⦃ea : Eq Atom⦄
    (db : Database W Ware Txn Meta G Atom EnumType) where
  unfoldable pub query_groups :
      Groups Atom
      → ℕ × List (TabKv Atom)
      → List (TabKv Atom)
      → Tr Ware Txn Meta G Atom EnumType
      → W
      → QueryEnd (List (TabKv Atom)) × Tr Ware Txn Meta G Atom EnumType × W
  unfolding build merge_result
  query_groups [] rvec res tr w = (ended res, tr, w)
  query_groups (((ware_name, tab_name), val) ∷ rest) rvec res tr w =
      let (b, tr', w') = build db ware_name tab_name tr w in
      elim b [
        | err e ↦ (returned e, tr', w')
        | ok t ↦
            let (q, w'') = db.txn_query t val w' in
            elim q [
              | err e ↦ (ended res, record tr' { state = TxState.err }, w'')
              | ok vec ↦ elim (merge_result rvec vec) [
                | none ↦ (panicked, tr', w'')
                | some (v, rvec') ↦
                    query_groups rest rvec' (res ++ v) (record tr' { state = TxState.ok }) w''
              ]
            ]
      ]

  -- `Default` fills the answers before they come
  unfoldable pub replicate : ℕ → TabKv Atom → List (TabKv Atom)
  replicate zero x = []
  replicate (suc n) x = x ∷ replicate n x

  unfoldable pub query :
      TabKv Atom
      → List (TabKv Atom)
      → Tr Ware Txn Meta G Atom EnumType
      → W
      → Option (SResult (List (TabKv Atom))) × Tr Ware Txn Meta G Atom EnumType × W
  unfolding tab_map query_groups replicate
  query default [] tr w = (some (ok []), tr, w)
  query default (x ∷ arr) tr w =
      let len = length (x ∷ arr) in
      let (r, tr', w') =
        query_groups (tab_map (x ∷ arr)) (len, replicate len default) []
          (record tr { state = doing }) w in
      elim r [
        | panicked ↦ (none, tr', w')
        | returned e ↦ (some (err e), tr', w')
        | ended res ↦ (some (if is_ok tr'.state then ok res else err tr_query_error), tr', w')
      ]

  -- the transactions of all groups are built before any is used
  unfoldable pub build_all :
      Groups Atom
      → Tr Ware Txn Meta G Atom EnumType
      → W
      → SResult (List (Txn × List (TabKv Atom))) × Tr Ware Txn Meta G Atom EnumType × W
  unfolding build
  build_all [] tr w = (ok [], tr, w)
  build_all (((ware_name, tab_name), val) ∷ rest) tr w =
      let (b, tr', w') = build db ware_name tab_name tr w in
      elim b [
        | err e ↦ (err e, tr', w')
        | ok txn ↦
            let (r, tr'', w'') = build_all rest tr' w' in
            elim r [ err e ↦ (err e, tr'', w'') | ok txns ↦ (ok ((txn, val) ∷ txns), tr'', w'') ]
      ]

  -- every task runs, whether or not another one fails; the result is whether one has failed
  unfoldable pub modify_all : List (Txn × List (TabKv Atom)) → W → Bool × W
  modify_all [] w = (false, w)
  modify_all ((txn, tkv) ∷ txns) w =
      let (r, w') = db.txn_modify txn tkv w in
      let (error, w'') = modify_all txns w' in (elim r [ ok _ ↦ error | err _ ↦ true ], w'')

  unfoldable pub modify :
      List (TabKv Atom)
      → Tr Ware Txn Meta G Atom EnumType
      → W
      → DbResult × Tr Ware Txn Meta G Atom EnumType × W
  unfolding tab_map build_all modify_all
  modify [] tr w = (ok tt, tr, w)
  modify (x ∷ arr) tr w =
      let (b, tr', w') = build_all (tab_map (x ∷ arr)) (record tr { state = doing }) w in
      elim b [
        | err e ↦ (err e, tr', w')
        | ok txns ↦
            let (error, w'') = modify_all txns w' in
            (if error then err modify_failed else ok tt, tr', w'')
      ]

  unfoldable pub tab_size :
      Atom
      → Atom
      → Tr Ware Txn Meta G Atom EnumType
      → W
      → SResult ℕ × Tr Ware Txn Meta G Atom EnumType × W
  unfolding build
  tab_size ware_name tab_name tr w =
      let (b, tr', w') = build db ware_name tab_name (record tr { state = doing }) w in
      elim b [
        | err e ↦ (err e, tr', w')
        | ok t ↦
            let (r, w'') = db.txn_size t w' in
            elim r [
              | ok size ↦ (ok size, record tr' { state = TxState.ok }, w'')
              | err e ↦ (err e, record tr' { state = TxState.err }, w'')
            ]
      ]
