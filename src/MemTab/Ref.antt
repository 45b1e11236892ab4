-- ===== src/MemTab/Ref.antt =====
-- `RefMemeryTxn` of src/memery_db.rs: the calls of a client of one table's transaction, and the
-- states that the transaction shows.
use pi_db.OrdMap.{OrdMap}
use pi_db.Base.{Eq, nat_eq, list_eq, pair_eq, ℕ, Bool, none, some, List, [], ◌∷◌}
use pi_db.Data.{
  Bytes, Bin, SResult, DbResult, RwLog, TabKv, ok, err, preparing, prepar_ok, prepar_fail,
  committing, commited, rollbacking, rollbacked,
}
use pi_db.HashMap.{HashMap}
use pi_db.MemTab.{
  upsert, delete, prepare_inner, rollback_inner, commit_inner, get, MemeryTab, MemeryTxn,
}

module _ {G M Atom : Type 0} ⦃eg : Eq G⦄ (time : G → ℕ) {same : Bytes → Bytes → Bool}
    (om : OrdMap same Bin M) where
  -- `query`: one item is read under the lock at a time, and the items come back with their values
  unfoldable pub query :
      List (TabKv Atom)
      → MemeryTxn G M
      → MemeryTab G M Atom
      → List (TabKv Atom) × MemeryTxn G M × MemeryTab G M Atom
  query [] txn tab = ([], txn, tab)
  query (tabkv ∷ arr) txn tab =
      let (value, txn', tab') = get time om tabkv.key txn tab in
      let (value_arr, txn'', tab'') = query arr txn' tab' in
      (record tabkv { value = value } ∷ value_arr, txn'', tab'')

  -- one item of `modify`
  abbrev pub modify_one :
      TabKv Atom
      → MemeryTxn G M
      → MemeryTab G M Atom
      → DbResult × MemeryTxn G M × MemeryTab G M Atom
  modify_one tabkv txn tab = elim tabkv.value [
    | none ↦ delete time om tabkv.key txn tab
    | some value ↦ upsert time om tabkv.key value txn tab
  ]

  unfoldable pub modify :
      List (TabKv Atom)
      → MemeryTxn G M
      → MemeryTab G M Atom
      → DbResult × MemeryTxn G M × MemeryTab G M Atom
  modify [] txn tab = (ok tt, txn, tab)
  modify (tabkv ∷ arr) txn tab =
      let (r, txn', tab') = modify_one tabkv txn tab in
      elim r [ err e ↦ (err e, txn', tab') | ok _ ↦ modify arr txn' tab' ]

  unfoldable pub prepare :
      ℕ → MemeryTxn G M → MemeryTab G M Atom → DbResult × MemeryTxn G M × MemeryTab G M Atom
  prepare now txn tab =
      let (r, txn', tab') = prepare_inner time om now (record txn { state = preparing }) tab in
      elim r [
        | ok _ ↦ (ok tt, record txn' { state = prepar_ok }, tab')
        | err e ↦ (err e, record txn' { state = prepar_fail }, tab')
      ]

  -- a failed commit leaves the state `Committing`
  unfoldable pub commit :
      MemeryTxn G M
      → MemeryTab G M Atom
      → SResult (HashMap Bytes RwLog) × MemeryTxn G M × MemeryTab G M Atom
  commit txn tab =
      let (r, txn', tab') = commit_inner time om (record txn { state = committing }) tab in
      elim r [
        | ok log ↦ (ok log, record txn' { state = commited }, tab')
        | err e ↦ (err e, txn', tab')
      ]

  unfoldable pub rollback :
      MemeryTxn G M → MemeryTab G M Atom → DbResult × MemeryTxn G M × MemeryTab G M Atom
  rollback txn tab =
      let (r, txn', tab') = rollback_inner time om (record txn { state = rollbacking }) tab in
      elim r [
        | ok _ ↦ (ok tt, record txn' { state = rollbacked }, tab')
        | err e ↦ (err e, txn', tab')
      ]

module _ {G M : Type 0} {same : Bytes → Bytes → Bool} (om : OrdMap same Bin M) where
  unfoldable pub tab_size : MemeryTxn G M → SResult ℕ
  tab_size txn = ok (om.size txn.root)
