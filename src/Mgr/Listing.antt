-- ===== src/Mgr/Listing.antt =====
-- What a transaction of src/mgr.rs lists: `tab_info`, `list`, `iter` and `key_iter` of `Tr`.
use pi_db.Base.{Eq, nat_eq, list_eq, pair_eq, ℕ, Bool, Option, none, some, List}
use pi_db.Data.{Bytes, SResult, TxState, TabMeta, ok, err, doing}
use pi_db.HashMap.{lookup}
use pi_db.Mgr.{Database, Tr, build}

module _ {W Ware Txn Meta G Atom EnumType : Type 0} ⦃ea : Eq Atom⦄
    (db : Database W Ware Txn Meta G Atom EnumType) where
  unfoldable pub tab_info :
      Atom → Atom → Tr Ware Txn Meta G Atom EnumType → W → Option (TabMeta EnumType)
  unfolding lookup
  tab_info ware_name tab_name tr w = elim (lookup ware_name tr.ware_log_map) [
    | some ware ↦ db.ware_info ware tab_name w
    | none ↦ none
  ]

  unfoldable pub list : Atom → Tr Ware Txn Meta G Atom EnumType → W → Option (List Atom)
  unfolding lookup
  list ware_name tr w = elim (lookup ware_name tr.ware_log_map) [
    | some ware ↦ some (db.ware_names ware w)
    | none ↦ none
  ]

  -- `iter` and `key_iter` differ in the call on the table's transaction
  abbrev pub make_iter :
      (Txn → W → SResult ℕ × W)
      → Atom
      → Atom
      → Tr Ware Txn Meta G Atom EnumType
      → W
      → SResult ℕ × Tr Ware Txn Meta G Atom EnumType × W
  make_iter call ware tab tr w =
      let (b, tr', w') = build db ware tab (record tr { state = doing }) w in
      elim b [
        | err e ↦ (err e, tr', w')
        | ok t ↦
            let (r, w'') = call t w' in
            elim r [
              | ok it ↦ (ok it, record tr' { state = TxState.ok }, w'')
              | err e ↦ (err e, record tr' { state = TxState.err }, w'')
            ]
      ]

  unfoldable pub iter :
      Atom
      → Atom
      → Option Bytes
      → Bool
      → Tr Ware Txn Meta G Atom EnumType
      → W
      → SResult ℕ × Tr Ware Txn Meta G Atom EnumType × W
  unfolding build
  iter ware tab key descending tr w = make_iter (λ t. db.txn_iter t key descending) ware tab tr w

  unfoldable pub key_iter :
      Atom
      → Atom
      → Option Bytes
      → Bool
      → Tr Ware Txn Meta G Atom EnumType
      → W
      → SResult ℕ × Tr Ware Txn Meta G Atom EnumType × W
  unfolding build
  key_iter ware tab key descending tr w =
      make_iter (λ t. db.txn_key_iter t key descending) ware tab tr w
