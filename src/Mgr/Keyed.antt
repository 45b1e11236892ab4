-- ===== src/Mgr/Keyed.antt =====
-- The libraries that a transaction of src/mgr.rs alters (`alter` of `Tr`).
use pi_db.Base.{
  Bool-cases, Option-cases, Eq, ◌==◌, nat_eq, list_eq, pair_eq, ◌≡◌, inl, inr, Option, some, [],
  ◌∷◌,
}
use pi_db.Data.{Result-cases, TabMeta, doing}
use pi_db.HashMap.{HashMap, lookup, insert}
use pi_db.Mgr.{Database, Tr}
use pi_db.Mgr.Alter.{alter, meta_entry}
use pi_db.Mgr.Phases.{names}
use pi_db.Mgr.Outcomes.{HasWares, WellKeyed}

module _ {Ware Meta Atom : Type 0} ⦃ea : Eq Atom⦄ where
  HasWares-insert :
      (wares : HashMap Atom Ware) (name : Atom) (ware : Ware) (txn : Meta) (m : HashMap Atom Meta)
      → lookup name wares ≡ some ware
      → HasWares wares (names m)
      → HasWares wares (names (insert name txn m))
  unfolding insert
  HasWares-insert wares name ware txn [] e h = ((ware, e), tt)
  HasWares-insert wares name ware txn ((j, u) ∷ m) e (h, hs) = elim (Bool-cases (j == name)) [
    | inl t ↦ rw t (h, hs)
    | inr f ↦ rw f (h, HasWares-insert wares name ware txn m e hs)
  ]

module _ {W Ware Txn Meta G Atom EnumType : Type 0} ⦃ea : Eq Atom⦄
    (db : Database W Ware Txn Meta G Atom EnumType) where
  meta_entry-WellKeyed :
      (name : Atom) (ware : Ware) (tr : Tr Ware Txn Meta G Atom EnumType) (w : W)
      → lookup name tr.ware_log_map ≡ some ware
      → WellKeyed tr
      → WellKeyed (meta_entry db name ware tr w).1
  meta_entry-WellKeyed name ware tr w e h = elim (Option-cases (lookup name tr.meta_txns)) [
    | inr (txn, there) ↦ rw (there, meta_entry) h
    | inl new ↦
        rw (new, meta_entry)
          (HasWares-insert tr.ware_log_map name ware (db.meta_txn ware tr.id w).0 tr.meta_txns e h)
  ]

  -- Each call of `alter`, whatever it ends with, keeps every table of types that the transaction
  -- alters that of a library it knows.
  pub alter-WellKeyed :
      (ware_name tab_name : Atom) (m : Option (TabMeta EnumType))
      (tr : Tr Ware Txn Meta G Atom EnumType) (w : W)
      → WellKeyed tr
      → WellKeyed (alter db ware_name tab_name m tr w).1
  unfolding alter
  alter-WellKeyed ware_name tab_name m tr w h =
      elim (Option-cases (lookup ware_name tr.ware_log_map)) [
        | inl e ↦ rw (e, alter) h
        | inr (ware, e) ↦ elim (Result-cases (db.check ware tab_name m w)) [
          | inr (_, c) ↦ rw (e, alter, c) h
          | inl (_, c) ↦
              let entry =
                meta_entry db ware_name ware (record tr { state = doing })
                  (db.alter ware tab_name m w) in
              let kept =
                meta_entry-WellKeyed ware_name ware (record tr { state = doing })
                  (db.alter ware tab_name m w) e h in
              elim (Result-cases (db.meta_alter entry.0 tab_name m entry.2).0) [
                | inl (_, r) ↦ rw (e, alter, c, r) kept
                | inr (_, r) ↦ rw (e, alter, c, r) kept
              ]
        ]
      ]
