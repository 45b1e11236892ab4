-- ===== src/LogTab/Ref.antt =====
-- `RefLogFileTxn` of src/log_file_db.rs: the calls of a client of one table's transaction, and the
-- states that the transaction shows.
use pi_db.OrdMap.{OrdMap}
use pi_db.Base.{Eq, nat_eq, list_eq, pair_eq, ℕ, Bool, none, some, List, [], ◌∷◌}
use pi_db.Data.{
  Bytes, Bin, SResult, DbResult, RwLog, TabKv, ok, err, preparing, prepar_ok, prepar_fail,
  committing, commited, commit_fail, rollbacking, rollbacked, rollback_fail,
}
use pi_db.HashMap.{HashMap}
use pi_db.LogStore.File.{LogFile}
use pi_db.LogTab.{
  LogFileTab, FileMemTxn, get, upsert, delete, prepare_inner, commit_inner, rollback_inner,
}

module _ {G M Atom : Type 0} {same : Bytes → Bytes → Bool} (om : OrdMap same Bin M) where
  unfoldable pub query : List (TabKv Atom) → FileMemTxn G M → List (TabKv Atom) × FileMemTxn G M
  query [] txn = ([], txn)
  query (tabkv ∷ arr) txn =
      let (value, txn') = get om tabkv.key txn in
      let (value_arr, txn'') = query arr txn' in (record tabkv { value = value } ∷ value_arr, txn'')

  -- one item of `modify`
  abbrev pub modify_one : TabKv Atom → FileMemTxn G M → DbResult × FileMemTxn G M
  modify_one tabkv txn = elim tabkv.value [
    | none ↦ delete om tabkv.key txn
    | some value ↦ upsert om tabkv.key value txn
  ]

  unfoldable pub modify : List (TabKv Atom) → FileMemTxn G M → DbResult × FileMemTxn G M
  modify [] txn = (ok tt, txn)
  modify (tabkv ∷ arr) txn =
      let (r, txn') = modify_one tabkv txn in
      elim r [ err e ↦ (err e, txn') | ok _ ↦ modify arr txn' ]

module _ {G M : Type 0} {same : Bytes → Bytes → Bool} (om : OrdMap same Bin M) where
  unfoldable pub tab_size : FileMemTxn G M → SResult ℕ
  tab_size txn = ok (om.size txn.root)

module _ {G M Atom F P : Type 0} ⦃eg : Eq G⦄ (time : G → ℕ) {same : Bytes → Bytes → Bool}
    (om : OrdMap same Bin M) (lf : LogFile F) where
  unfoldable pub prepare :
      ℕ
      → FileMemTxn G M
      → LogFileTab G M Atom F P
      → DbResult × FileMemTxn G M × LogFileTab G M Atom F P
  prepare now txn tab =
      let (r, txn', tab') = prepare_inner time om lf now (record txn { state = preparing }) tab in
      elim r [
        | ok _ ↦ (ok tt, record txn' { state = prepar_ok }, tab')
        | err e ↦ (err e, record txn' { state = prepar_fail }, tab')
      ]

  unfoldable pub commit :
      FileMemTxn G M
      → LogFileTab G M Atom F P
      → SResult (HashMap Bytes RwLog) × FileMemTxn G M × LogFileTab G M Atom F P
  commit txn tab =
      let (r, txn', tab') = commit_inner time om lf (record txn { state = committing }) tab in
      elim r [
        | ok log ↦ (ok log, record txn' { state = commited }, tab')
        | err e ↦ (err e, record txn' { state = commit_fail }, tab')
      ]

  unfoldable pub rollback :
      FileMemTxn G M → LogFileTab G M Atom F P → DbResult × FileMemTxn G M × LogFileTab G M Atom F P
  rollback txn tab =
      let (r, txn', tab') = rollback_inner time om lf (record txn { state = rollbacking }) tab in
      elim r [
        | ok _ ↦ (ok tt, record txn' { state = rollbacked }, tab')
        | err e ↦ (err e, record txn' { state = rollback_fail }, tab')
      ]
