-- ===== src/Ware/Beside.antt =====
-- The two phases of changes of tables in a library beside one with the same map (`prepare` and
-- `commit` of `DatabaseWareSnapshot` in src/mgr.rs).

use pi_db.Tabs.Shared.{shared-overwrites}
use pi_db.Tabs.Altered.{changed, IsAltered}
use pi_db.HashMap.{lookup, HashMap}
use pi_db.Tabs.{tab_meta, Tabs, TabLog}
use pi_db.Base.{ap, ◌∙◌, [], nat_eqb, Eq, nat_eq, list_eq, pair_eq, ℕ, ◌≡◌, refl, false, arith}
use pi_db.Tabs.Phases.{tabs_prepare, tabs_commit}
use pi_db.Ware.{ok, World, Outside, TabsRef, DatabaseWareSnapshot, tabs_at, cell-assign_other}
use pi_db.Ware.Shots.{shot_of, log_of, shot_prepare, shot_commit}

module _ {G M T Atom EnumType F P : Type 0} ⦃eg : Eq G⦄ ⦃ea : Eq Atom⦄
    (out : Outside G M T Atom EnumType F P) where
  prepare-computes :
      (shot : DatabaseWareSnapshot) (at : ℕ) (id : G) (w : World G M T Atom EnumType F P)
      → let db = (shot_of shot).db in
        let (r, _, tabs') = tabs_prepare out.tab_trees id (log_of shot w) (tabs_at db w) in
        let (r', w') = shot_prepare out shot id w in
        nat_eqb db.prepare_at at ≡ false
        → (r' ≡ r)
          × (tabs_at db w' ≡ tabs')
          × (tabs_at (record { map_at = db.map_at; prepare_at = at }) w'
              ≡ record { map = tabs'.map; prepare = w.prepares.cell at })
  unfolding shot_prepare
  prepare-computes shot at id w e = (refl, ground arith, ground (arith, e))

  commit-computes :
      (shot : DatabaseWareSnapshot) (at : ℕ) (id : G) (w : World G M T Atom EnumType F P)
      → let db = (shot_of shot).db in
        let tabs' = (tabs_commit out.tab_trees id (tabs_at db w) w.cells).0 in
        let w' = shot_commit out shot id w in
        nat_eqb db.prepare_at at ≡ false
        → (tabs_at db w' ≡ tabs')
          × (tabs_at (record { map_at = db.map_at; prepare_at = at }) w'
              ≡ record { map = tabs'.map; prepare = w.prepares.cell at })
  unfolding shot_commit
  commit-computes shot at id w e = (ground arith, ground (arith, e))

  -- a preparation at `r`, and what it leaves of a manager with the same map
  prepare-beside :
      (shot : DatabaseWareSnapshot) (r : TabsRef) (at : ℕ) (id : G)
      (w : World G M T Atom EnumType F P) (log : TabLog Atom EnumType T)
      (tabs : Tabs G Atom EnumType T) (p : HashMap G (TabLog Atom EnumType T))
      → (shot_of shot).db ≡ r
      → nat_eqb r.prepare_at at ≡ false
      → log_of shot w ≡ log
      → tabs_at r w ≡ tabs
      → w.prepares.cell at ≡ p
      → let (result, _, tabs') = tabs_prepare out.tab_trees id log tabs in
        let (result', w') = shot_prepare out shot id w in
        (result' ≡ result)
        × (tabs_at r w' ≡ tabs')
        × (tabs_at (record { map_at = r.map_at; prepare_at = at }) w'
            ≡ record { map = tabs'.map; prepare = p })
  prepare-beside shot r at id w log tabs p d e l t q =
      rw (← q, ← t, ← l, ← d) (prepare-computes shot at id w (rw d e))

  logs-shot_prepare :
      (shot : DatabaseWareSnapshot) (q : ℕ) (id : G) (w : World G M T Atom EnumType F P)
      → nat_eqb (shot_of shot).log_at q ≡ false
      → (shot_prepare out shot id w).1.logs.cell q ≡ w.logs.cell q
  unfolding shot_prepare
  logs-shot_prepare shot q id w e = cell-assign_other (shot_of shot).log_at q _ w.logs e

  -- a commit at `r`
  commit-beside :
      (shot : DatabaseWareSnapshot) (r : TabsRef) (at : ℕ) (id : G)
      (w : World G M T Atom EnumType F P) (tabs : Tabs G Atom EnumType T)
      (p : HashMap G (TabLog Atom EnumType T))
      → (shot_of shot).db ≡ r
      → nat_eqb r.prepare_at at ≡ false
      → tabs_at r w ≡ tabs
      → w.prepares.cell at ≡ p
      → let (tabs', _) = tabs_commit out.tab_trees id tabs w.cells in
        let w' = shot_commit out shot id w in
        (tabs_at r w' ≡ tabs')
        × (tabs_at (record { map_at = r.map_at; prepare_at = at }) w'
            ≡ record { map = tabs'.map; prepare = p })
  commit-beside shot r at id w tabs p d e t q =
      rw (← q, ← t, ← d) (commit-computes shot at id w (rw d e))

  -- two transactions, of a library and of its copy, with what they have altered
  pub beside-overwrites :
      (shot shot' : DatabaseWareSnapshot) (r : TabsRef) (at : ℕ) (id id' : G)
      (w : World G M T Atom EnumType F P) (log log' : TabLog Atom EnumType T) (m : T)
      → (shot_of shot).db ≡ r
      → (shot_of shot').db ≡ record { map_at = r.map_at; prepare_at = at }
      → nat_eqb r.prepare_at at ≡ false
      → nat_eqb (shot_of shot).log_at (shot_of shot').log_at ≡ false
      → log_of shot w ≡ log
      → log_of shot' w ≡ log'
      → tabs_at r w ≡ record { map = m; prepare = [] }
      → w.prepares.cell at ≡ []
      → IsAltered out.tab_trees log
      → IsAltered out.tab_trees log'
      → log.old_map ≡ m
      → log'.old_map ≡ m
      → let (result, w1) = shot_prepare out shot id w in
        let (result', w2) = shot_prepare out shot' id' w1 in
        let w4 = shot_commit out shot' id' (shot_commit out shot id w2) in
        (result ≡ ok tt)
        × (result' ≡ ok tt)
        × ((n : Atom)
            → tab_meta out.tab_trees
                (tabs_at (record { map_at = r.map_at; prepare_at = at }) w4).map
                n
              ≡ changed
                  (lookup (n, 0) log'.alter_logs)
                  (changed (lookup (n, 0) log.alter_logs) (tab_meta out.tab_trees m n)))
  beside-overwrites shot shot' r at id id' w log log' m d d' e f l l' t q h h' o o' =
      let om = out.tab_trees in
      let r' : TabsRef = record { map_at = r.map_at; prepare_at = at } in
      let back : nat_eqb at r.prepare_at ≡ false = ground (arith, e) in
      let empty : Tabs G Atom EnumType T = record { map = m; prepare = [] } in
      let one = (tabs_prepare om id log empty).2 in
      let (r1, t1, b1) = prepare-beside shot r at id w log empty [] d e l t q in
      let w1 = (shot_prepare out shot id w).1 in
      let beside : Tabs G Atom EnumType T = record { map = one.map; prepare = [] } in
      let two = (tabs_prepare om id' log' beside).2 in
      let (r2, t2, b2) =
        prepare-beside shot' r' r.prepare_at id' w1 log' beside one.prepare d' back
          (logs-shot_prepare shot (shot_of shot').log_at id w f ∙ l') b1
          (ap (λ (x : Tabs G Atom EnumType T). x.prepare) t1) in
      let w2 = (shot_prepare out shot' id' w1).1 in
      let left : Tabs G Atom EnumType T = record { map = two.map; prepare = one.prepare } in
      let three = (tabs_commit om id left w2.cells).0 in
      let (t3, b3) =
        commit-beside shot r at id w2 left two.prepare d e b2
          (ap (λ (x : Tabs G Atom EnumType T). x.prepare) t2) in
      let w3 = shot_commit out shot id w2 in
      let right : Tabs G Atom EnumType T = record { map = three.map; prepare = two.prepare } in
      let (t4, _) =
        commit-beside shot' r' r.prepare_at id' w3 right three.prepare d' back b3
          (ap (λ (x : Tabs G Atom EnumType T). x.prepare) t3) in
      let (ok1, ok2, view) = shared-overwrites om id id' log log' m w2.cells w3.cells h h' o o' in
      (
        r1 ∙ ok1,
        r2 ∙ ok2,
        λ n. ap (λ (x : Tabs G Atom EnumType T). tab_meta om x.map n) t4 ∙ view n,
      )
