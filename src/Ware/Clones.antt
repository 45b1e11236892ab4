-- ===== src/Ware/Clones.antt =====
-- A copy of a library beside the library (`tabs_clone` of `DatabaseWare` in src/mgr.rs, which
-- `shallow_clone` of `Mgr` calls for each library).
use pi_db.Base.{
  nat_eqb, Eq, nat_eq, list_eq, pair_eq, ℕ, ◌<◌, ◌≡◌, refl, ap, ◌∙◌, false, Option, [], arith,
}
use pi_db.Data.{TabMeta, ok}
use pi_db.HashMap.{HashMap, lookup}
use pi_db.HashMap.Laws.{Distinct}
use pi_db.Tabs.{Tabs, tab_meta}
use pi_db.Tabs.Phases.{snapshot}
use pi_db.Tabs.Altered.{changed}
use pi_db.Tabs.Session.{alter_all, alter_all-logs}
use pi_db.Ware.{
  World, Outside, TabsRef, DatabaseWare, mem_ware, log_file_ware, DatabaseWareSnapshot, tabs_at,
  cell-assign, cell-assign_other,
}
use pi_db.Ware.Shots.{
  tabs_of, shot_of, log_of, tabs_clone, ware_snapshot, ware_tab_info, shot_prepare, shot_commit,
}
use pi_db.Ware.Changes.{shot_alter_all, shot_alter_all-IsAlteredBy}
use pi_db.Ware.Beside.{beside-overwrites}

module _ {G M T Atom EnumType F P : Type 0} ⦃eg : Eq G⦄ ⦃ea : Eq Atom⦄
    (out : Outside G M T Atom EnumType F P) where
  -- from the snapshot of the copy on, which leaves the library and the first log as they are
  clone_of :
      (shot shot' : DatabaseWareSnapshot) (r : TabsRef) (at : ℕ) (id id' : G)
      (changes changes' : HashMap Atom (Option (TabMeta EnumType)))
      (w v : World G M T Atom EnumType F P) (m : T)
      → Distinct changes
      → Distinct changes'
      → (shot_of shot).db ≡ r
      → (shot_of shot').db ≡ record { map_at = r.map_at; prepare_at = at }
      → nat_eqb r.prepare_at at ≡ false
      → nat_eqb (shot_of shot).log_at (shot_of shot').log_at ≡ false
      → tabs_at r w ≡ record { map = m; prepare = [] }
      → w.prepares.cell at ≡ []
      → log_of shot w ≡ snapshot (tabs_at r w)
      → v.maps ≡ (shot_alter_all out shot changes w).maps
      → v.prepares ≡ (shot_alter_all out shot changes w).prepares
      → log_of shot v ≡ log_of shot (shot_alter_all out shot changes w)
      → log_of shot' v ≡ snapshot (tabs_at (record { map_at = r.map_at; prepare_at = at }) v)
      → let w5 = shot_alter_all out shot' changes' v in
        let (result, w6) = shot_prepare out shot id w5 in
        let (result', w7) = shot_prepare out shot' id' w6 in
        let w9 = shot_commit out shot' id' (shot_commit out shot id w7) in
        (result ≡ ok tt)
        × (result' ≡ ok tt)
        × ((n : Atom)
            → tab_meta out.tab_trees
                (tabs_at (record { map_at = r.map_at; prepare_at = at }) w9).map
                n
              ≡ changed
                  (lookup n changes')
                  (changed (lookup n changes) (tab_meta out.tab_trees m n)))
  clone_of shot shot' r at id id' changes changes' w v m c c' d d' e f t q l maps prepares l2 l' =
      let om = out.tab_trees in
      let empty : T → Tabs G Atom EnumType T = λ y. record { map = y; prepare = [] } in
      let tabs = empty m in
      let w5 = shot_alter_all out shot' changes' v in
      let by = shot_alter_all-IsAlteredBy out shot changes w in
      let by' = shot_alter_all-IsAlteredBy out shot' changes' v in
      let maps5 : w5.maps ≡ w.maps = by'.maps ∙ maps ∙ by.maps in
      let prepares5 : w5.prepares ≡ w.prepares = by'.prepares ∙ prepares ∙ by.prepares in
      let (kept, old, logs) = alter_all-logs om changes tabs w.cells c in
      let (kept', old', logs') = alter_all-logs om changes' tabs v.cells c' in
      let log5 : log_of shot w5 ≡ (alter_all om changes (snapshot tabs) w.cells).0 =
        by'.others (shot_of shot).log_at (ground (arith, f))
        ∙ l2
        ∙ by.log
        ∙ ap (λ x. (alter_all om changes x w.cells).0) (l ∙ ap snapshot t) in
      let log5' : log_of shot' w5 ≡ (alter_all om changes' (snapshot tabs) v.cells).0 =
        by'.log
        ∙ ap (λ x. (alter_all om changes' x v.cells).0)
            (l'
              ∙ ap snapshot (
                  rw (maps, by.maps, prepares, by.prepares, q)
                    (ap empty (ap (λ (x : Tabs G Atom EnumType T). x.map) t)))) in
      let (r1, r2, view) =
        beside-overwrites out shot shot' r at id id' w5 _ _ m d d' e f log5 log5'
          (rw (maps5, prepares5) t) (rw prepares5 q) kept kept' old old' in
      (r1, r2, λ n. rw (← logs' n, ← logs n) (view n))

  -- A library is copied by `tabs_clone` while nothing is prepared in it, and two transactions change
  -- tables, one in the library and one in the copy, each table at most once. Both are prepared,
  -- whatever tables they change, and both are committed: then each table is as the transaction of the
  -- copy says, where it changes it, and as the other says, where only that one changes it. So of two
  -- changes of one table the first is lost.
  pub tabs_clone-loses_first :
      (ware : DatabaseWare) (id id' : G)
      (changes changes' : HashMap Atom (Option (TabMeta EnumType)))
      (w : World G M T Atom EnumType F P)
      → Distinct changes
      → Distinct changes'
      → w.prepares.cell (tabs_of ware).prepare_at ≡ []
      → (tabs_of ware).prepare_at < w.prepares.next
      → let (copy, w1) = tabs_clone ware w in
        let (shot, w2) = ware_snapshot ware w1 in
        let w3 = shot_alter_all out shot changes w2 in
        let (shot', w4) = ware_snapshot copy w3 in
        let w5 = shot_alter_all out shot' changes' w4 in
        let (r, w6) = shot_prepare out shot id w5 in
        let (r', w7) = shot_prepare out shot' id' w6 in
        let w9 = shot_commit out shot' id' (shot_commit out shot id w7) in
        (r ≡ ok tt)
        × (r' ≡ ok tt)
        × ((n : Atom)
            → ware_tab_info out ware n w9
              ≡ changed
                  (lookup n changes')
                  (changed (lookup n changes) (ware_tab_info out ware n w)))
  unfolding tabs_clone ware_snapshot ware_tab_info
  tabs_clone-loses_first (mem_ware db) id id' changes changes' w c c' h b =
      let (copy, w1) = tabs_clone (mem_ware db) w in
      let (shot, w2) = ware_snapshot (mem_ware db) w1 in
      let w3 = shot_alter_all out shot changes w2 in
      let (shot', w4) = ware_snapshot copy w3 in
      let by = shot_alter_all-IsAlteredBy out shot changes w2 in
      clone_of shot shot' db w.prepares.next id id' changes changes' w2 w4 (w.maps.cell db.map_at) c
        c' refl refl (ground (arith, b)) (ground (arith, by.next)) (ground (arith, h, b))
        (ground arith) (cell-assign w1.logs.next _ w1.logs) refl refl
        (cell-assign_other w3.logs.next w1.logs.next _ w3.logs (ground (arith, by.next)))
        (cell-assign w3.logs.next _ w3.logs)
  tabs_clone-loses_first (log_file_ware db) id id' changes changes' w c c' h b =
      let (copy, w1) = tabs_clone (log_file_ware db) w in
      let (shot, w2) = ware_snapshot (log_file_ware db) w1 in
      let w3 = shot_alter_all out shot changes w2 in
      let (shot', w4) = ware_snapshot copy w3 in
      let by = shot_alter_all-IsAlteredBy out shot changes w2 in
      clone_of shot shot' db w.prepares.next id id' changes changes' w2 w4 (w.maps.cell db.map_at) c
        c' refl refl (ground (arith, b)) (ground (arith, by.next)) (ground (arith, h, b))
        (ground arith) (cell-assign w1.logs.next _ w1.logs) refl refl
        (cell-assign_other w3.logs.next w1.logs.next _ w3.logs (ground (arith, by.next)))
        (cell-assign w3.logs.next _ w3.logs)
