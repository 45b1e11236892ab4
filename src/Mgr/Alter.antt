-- ===== src/Mgr/Alter.antt =====
-- The calls of src/mgr.rs that create, change, delete and fork tables: `alter` and `fork_tab` of `Tr`.
use pi_db.Base.{Eq, nat_eq, list_eq, pair_eq, Option, none, some}
use pi_db.Data.{DbResult, TxState, TabMeta, ware_not_found, duplicate_fork_tab_name, ok, err, doing}
use pi_db.HashMap.{lookup, insert}
use pi_db.Mgr.{Database, Tr}

module _ {W Ware Txn Meta G Atom EnumType : Type 0} ⦃ea : Eq Atom⦄
    (db : Database W Ware Txn Meta G Atom EnumType) where
  -- `meta_txns.entry(..).or_insert_with(..)`
  abbrev pub meta_entry :
      Atom
      → Ware
      → Tr Ware Txn Meta G Atom EnumType
      → W
      → Meta × Tr Ware Txn Meta G Atom EnumType × W
  meta_entry ware_name ware tr w = elim (lookup ware_name tr.meta_txns) [
    | some txn ↦ (txn, tr, w)
    | none ↦
        let (txn, w') = db.meta_txn ware tr.id w in
        (txn, record tr { meta_txns = insert ware_name txn tr.meta_txns }, w')
  ]

  unfoldable pub alter :
      Atom
      → Atom
      → Option (TabMeta EnumType)
      → Tr Ware Txn Meta G Atom EnumType
      → W
      → DbResult × Tr Ware Txn Meta G Atom EnumType × W
  unfolding lookup insert
  alter ware_name tab_name m tr w = elim (lookup ware_name tr.ware_log_map) [
    | none ↦ (err ware_not_found, record tr { state = TxState.err }, w)
    | some ware ↦ elim (db.check ware tab_name m w) [
      | err e ↦ (err e, record tr { state = TxState.err }, w)
      | ok _ ↦
          let (txn, tr', w') =
            meta_entry ware_name ware (record tr { state = doing }) (db.alter ware tab_name m w) in
          let (r, w'') = db.meta_alter txn tab_name m w' in
          elim r [
            | ok _ ↦ (ok tt, record tr' { state = TxState.ok }, w'')
            | err e ↦ (err e, record tr' { state = TxState.err }, w'')
          ]
    ]
  ]

  unfoldable pub fork_tab :
      Atom
      → Atom
      → Atom
      → TabMeta EnumType
      → Tr Ware Txn Meta G Atom EnumType
      → W
      → DbResult × Tr Ware Txn Meta G Atom EnumType × W
  unfolding lookup insert
  fork_tab ware tab_name fork_tab_name new_meta tr w =
      elim (lookup (ware, (tab_name, fork_tab_name)) tr.fork_txns) [
        | some _ ↦ (err duplicate_fork_tab_name, tr, w)
        | none ↦ elim (lookup ware tr.ware_log_map) [
          | none ↦ (err ware_not_found, tr, w)
          | some snapshot ↦
              let (r, w') = db.tab_txn snapshot tab_name tr.id tr.writable w in
              elim r [
                | err e ↦ (err e, tr, w')
                | ok txn ↦ (
                  ok tt,
                  record tr {
                    fork_txns =
                        insert (ware, (tab_name, fork_tab_name)) (new_meta, txn) tr.fork_txns;
                  },
                  w',
                )
              ]
        ]
      ]
