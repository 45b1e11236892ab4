-- ===== src/Tabs/Shared.antt =====
-- Two table managers over one map, which is what `clone_map` of `Tabs` in src/tabs.rs makes.
use pi_db.Base.{Eq, nat_eq, list_eq, pair_eq, ◌≡◌, refl, sym, ap, ◌∙◌, []}
use pi_db.Data.{ok}
use pi_db.HashMap.{lookup}
use pi_db.OrdMap.{OrdMap}
use pi_db.Tabs.{TabInfo, TabLog, Tabs, Cells, tab_meta}
use pi_db.Tabs.Phases.{tabs_prepare, tabs_commit}
use pi_db.Tabs.Altered.{IsAltered, changed, tabs_commit-changed}
use pi_db.Tabs.Prepared.{tabs_prepare-ok}
use pi_db.Tabs.Session.{tabs_prepare-alone}

module _ {G Atom EnumType M MT LT : Type 0} ⦃eg : Eq G⦄ ⦃ea : Eq Atom⦄
    (om : OrdMap ea.beq (TabInfo EnumType) M) where
  -- the preparations and the commits of two transactions, each with a manager of its own
  pub shared-overwrites :
      (id id' : G) (log log' : TabLog Atom EnumType M) (m : M) (cells cells' : Cells MT LT)
      → IsAltered om log
      → IsAltered om log'
      → log.old_map ≡ m
      → log'.old_map ≡ m
      → let (r, _, one) = tabs_prepare om id log (record { map = m; prepare = [] }) in
        let (r', _, two) = tabs_prepare om id' log' (record { map = one.map; prepare = [] }) in
        let (three, _) =
          tabs_commit om id (record { map = two.map; prepare = one.prepare }) cells in
        let (four, _) =
          tabs_commit om id' (record { map = three.map; prepare = two.prepare }) cells' in
        (r ≡ ok tt)
        × (r' ≡ ok tt)
        × ((n : Atom)
            → tab_meta om four.map n
              ≡ changed
                  (lookup (n, 0) log'.alter_logs)
                  (changed (lookup (n, 0) log.alter_logs) (tab_meta om m n)))
  shared-overwrites id id' log log' m cells cells' h h' e e' =
      let empty : Tabs G Atom EnumType M = record { map = m; prepare = [] } in
      let passes = tabs_prepare-alone om id log empty refl e in
      let one = (tabs_prepare om id log empty).2 in
      let (_, _, stored, _, same) = tabs_prepare-ok om id log empty passes in
      let beside : Tabs G Atom EnumType M = record { map = one.map; prepare = [] } in
      let passes' = tabs_prepare-alone om id' log' beside refl (e' ∙ sym same) in
      let two = (tabs_prepare om id' log' beside).2 in
      let (_, _, stored', _, same') = tabs_prepare-ok om id' log' beside passes' in
      let left : Tabs G Atom EnumType M = record { map = two.map; prepare = one.prepare } in
      let three = (tabs_commit om id left cells).0 in
      let right : Tabs G Atom EnumType M = record { map = three.map; prepare = two.prepare } in
      (
        passes,
        passes',
        λ n.
            (tabs_commit-changed om id' right cells' log' h' stored').0 n
            ∙ ap (changed (lookup (n, 0) log'.alter_logs)) (
                (tabs_commit-changed om id left cells log h stored).0 n
                ∙ ap (λ t. changed (lookup (n, 0) log.alter_logs) (tab_meta om t n))
                    (same' ∙ same)),
      )
