-- ===== src/Tabs/Prepared.antt =====
-- What a successful preparation of changes of tables has established (`prepare` of `Tabs` in
-- src/tabs.rs).
use pi_db.Base.{
  Option-cases, Eq, nat_eq, list_eq, pair_eq, ◌≡◌, refl, ◌≢◌, inl, inr, true, none, some, [], ◌∷◌,
  arith,
}
use pi_db.Data.{ok}
use pi_db.HashMap.{HashMap, lookup}
use pi_db.HashMap.Laws.{lookup-insert_self}
use pi_db.OrdMap.{OrdMap}
use pi_db.Tabs.{TabInfo, TabLog, Tabs}
use pi_db.Tabs.Phases.{is_disjoint, check_prepared, check_name, check_names, tabs_prepare}

module _ {Atom : Type 0} ⦃ea : Eq Atom⦄ where
  is_disjoint-apart :
      (a b : HashMap Atom (Unit {0})) (n : Atom)
      → is_disjoint a b ≡ true
      → lookup n a ≢ none
      → lookup n b ≡ none
  unfolding lookup
  is_disjoint-apart [] b n h p = absurd (p refl)
  is_disjoint-apart ((j, _) ∷ a) b n h p = ground (arith, ea.beq_iff j n, is_disjoint-apart a b n)

module _ {G Atom EnumType M : Type 0} ⦃eg : Eq G⦄ ⦃ea : Eq Atom⦄ where
  check_prepared-apart :
      (log : TabLog Atom EnumType M) (p : HashMap G (TabLog Atom EnumType M)) (g : G)
      (o : TabLog Atom EnumType M) (n : Atom)
      → check_prepared log p ≡ ok tt
      → lookup g p ≡ some o
      → lookup n o.meta_names ≢ none
      → lookup n log.meta_names ≡ none
  unfolding check_prepared lookup
  check_prepared-apart log [] g o n h e q = cc
  check_prepared-apart log ((j, v) ∷ p) g o n h e q =
      ground
        (arith, check_prepared-apart log p g o n, is_disjoint-apart v.meta_names log.meta_names n)

module _ {Atom EnumType M : Type 0} ⦃ea : Eq Atom⦄ (om : OrdMap ea.beq (TabInfo EnumType) M) where
  check_name-same :
      (m old : M) (n : Atom) → check_name om m old n ≡ ok tt → om.get m n ≡ om.get old n
  check_name-same m old n h = elim (Option-cases (om.get m n)) [
    | inl e ↦ ground arith
    | inr (v, e) ↦ elim (Option-cases (om.get old n)) [
      | inl f ↦ ground arith
      | inr (w, f) ↦ ground (arith, om.get_of_slot m old n v w)
    ]
  ]

  check_names-same :
      (m old : M) (l : HashMap Atom (Unit {0})) (n : Atom)
      → check_names om m old l ≡ ok tt
      → lookup n l ≢ none
      → om.get m n ≡ om.get old n
  unfolding check_names lookup
  check_names-same m old [] n h p = absurd (p refl)
  check_names-same m old ((j, _) ∷ l) n h p =
      ground (arith, ea.beq_iff j n, check_name-same m old j, check_names-same m old l n)

module _ {G Atom EnumType M : Type 0} ⦃eg : Eq G⦄ ⦃ea : Eq Atom⦄
    (om : OrdMap ea.beq (TabInfo EnumType) M) where
  -- A successful preparation of changes of tables has found each table that they name as it was when
  -- the transaction began, and no prepared transaction that names one of them. It keeps the changes
  -- under the transaction's identifier, takes them from the transaction, and changes no table.
  pub tabs_prepare-ok :
      (id : G) (log : TabLog Atom EnumType M) (tabs : Tabs G Atom EnumType M)
      → (tabs_prepare om id log tabs).0 ≡ ok tt
      → let (r, log', tabs') = tabs_prepare om id log tabs in
        ((n : Atom) → lookup n log.meta_names ≢ none → om.get tabs.map n ≡ om.get log.old_map n)
        × ((g : G) (o : TabLog Atom EnumType M) (n : Atom)
            → lookup g tabs.prepare ≡ some o
            → lookup n o.meta_names ≢ none
            → lookup n log.meta_names ≡ none)
        × (lookup id tabs'.prepare ≡ some log)
        × (log'.alter_logs ≡ [])
        × (tabs'.map ≡ tabs.map)
  unfolding tabs_prepare
  tabs_prepare-ok id log tabs h = (
    λ n p. ground (
      arith,
      om.get_of_ptr_eq tabs.map log.old_map n,
      check_names-same om tabs.map log.old_map log.meta_names n,
    ),
    λ g o n e p. check_prepared-apart log tabs.prepare g o n (ground arith) e p,
    ground (arith, lookup-insert_self id log tabs.prepare),
    ground arith,
    ground arith,
  )
