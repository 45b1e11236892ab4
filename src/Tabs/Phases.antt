-- ===== src/Tabs/Phases.antt =====
-- The operations of `Tabs` in src/tabs.rs: snapshots, and the two phases of a change of the tables.
use pi_db.Base.{
  if◌then◌else◌, Eq, nat_eq, list_eq, pair_eq, ℕ, Bool, true, false, not, Option, none, some, [],
  ◌∷◌,
}
use pi_db.Data.{DbResult, TabMeta, meta_prepare_conflicting, meta_prepare_conflicted, ok, err}
use pi_db.HashMap.{HashMap, lookup, insert, remove}
use pi_db.OrdMap.{OrdMap}
use pi_db.Tabs.{TabInfo, TabLog, Tabs, Cells, new_tab_info, replace}

module _ {Atom : Type 0} ⦃ea : Eq Atom⦄ where
  abbrev pub is_disjoint : HashMap Atom (Unit {0}) → HashMap Atom (Unit {0}) → Bool
  is_disjoint [] b = true
  is_disjoint ((name, _) ∷ rest) b =
      let others = is_disjoint rest b in elim (lookup name b) [ some _ ↦ false | none ↦ others ]

module _ {G Atom EnumType M : Type 0} where
  unfoldable pub snapshot : Tabs G Atom EnumType M → TabLog Atom EnumType M
  snapshot tabs = record {
    map = tabs.map;
    old_map = tabs.map;
    meta_names = [];
    alter_logs = [];
    rename_logs = [];
  }

module _ {G Atom EnumType M : Type 0} ⦃ea : Eq Atom⦄ where
  -- the first loop of `prepare`
  unfoldable pub check_prepared :
      TabLog Atom EnumType M → HashMap G (TabLog Atom EnumType M) → DbResult
  unfolding lookup
  check_prepared log [] = ok tt
  check_prepared log ((_, val) ∷ rest) =
      let others = check_prepared log rest in
      if not (is_disjoint val.meta_names log.meta_names)
      then err meta_prepare_conflicting
      else others

module _ {Atom EnumType M : Type 0} ⦃ea : Eq Atom⦄ (om : OrdMap ea.beq (TabInfo EnumType) M) where
  -- one name of the second loop
  abbrev pub check_name : M → M → Atom → DbResult
  check_name m old name = elim (om.get m name) [
    | some _ ↦ elim (om.get old name) [
      | some _ ↦ if om.same_slot m old name then ok tt else err meta_prepare_conflicted
      | none ↦ err meta_prepare_conflicted
    ]
    | none ↦ elim (om.get old name) [ none ↦ ok tt | some _ ↦ err meta_prepare_conflicted ]
  ]

  unfoldable pub check_names : M → M → HashMap Atom (Unit {0}) → DbResult
  check_names m old [] = ok tt
  check_names m old ((name, _) ∷ rest) =
      let others = check_names m old rest in
      elim (check_name m old name) [ err e ↦ err e | ok _ ↦ others ]

  -- the alterations once more, on the present map
  unfoldable pub redo :
      {MT LT : Type 0}
      → HashMap (Atom × ℕ) (Option (TabMeta EnumType))
      → M
      → Cells MT LT
      → M × Cells MT LT
  redo [] m cells = (m, cells)
  redo (((name, _), none) ∷ rest) m cells = redo rest (om.delete m name) cells
  redo (((name, _), some si) ∷ rest) m cells =
      let (info, cells') = new_tab_info si cells in redo rest (om.upsert m name info) cells'

module _ {G Atom EnumType M : Type 0} ⦃eg : Eq G⦄ where
  unfoldable pub tabs_rollback : G → Tabs G Atom EnumType M → Tabs G Atom EnumType M
  unfolding remove
  tabs_rollback id tabs = record tabs { prepare = remove id tabs.prepare }

module _ {G Atom EnumType M : Type 0} ⦃eg : Eq G⦄ ⦃ea : Eq Atom⦄
    (om : OrdMap ea.beq (TabInfo EnumType) M) where
  unfoldable pub new_tabs : Tabs G Atom EnumType M
  new_tabs = record { map = om.new; prepare = [] }

  unfoldable pub tabs_prepare :
      G
      → TabLog Atom EnumType M
      → Tabs G Atom EnumType M
      → DbResult × TabLog Atom EnumType M × Tabs G Atom EnumType M
  unfolding check_prepared check_names insert
  tabs_prepare id log tabs = elim (check_prepared log tabs.prepare) [
    | err e ↦ (err e, log, tabs)
    | ok _ ↦
        elim (if not (om.ptr_eq tabs.map log.old_map)
          then check_names om tabs.map log.old_map log.meta_names
          else ok tt) [
            | err e ↦ (err e, log, tabs)
            | ok _ ↦
                let (kept, log') = replace log in
                (ok tt, log', record tabs { prepare = insert id kept tabs.prepare })
          ]
  ]

  unfoldable pub tabs_commit :
      {MT LT : Type 0}
      → G
      → Tabs G Atom EnumType M
      → Cells MT LT
      → Tabs G Atom EnumType M × Cells MT LT
  unfolding redo lookup remove
  tabs_commit id tabs cells =
      let tabs' = record tabs { prepare = remove id tabs.prepare } in
      elim (lookup id tabs.prepare) [
        | none ↦ (tabs', cells)
        | some log ↦
            if om.ptr_eq tabs.map log.old_map
            then (record tabs' { map = log.map }, cells)
            else let (m, cells') = redo om log.alter_logs tabs.map cells in
              (record tabs' { map = m }, cells')
      ]
