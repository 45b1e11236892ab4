-- ===== src/Ware/Changes.antt =====
-- The tables that a transaction creates, alters and deletes in a library, from its snapshot to its
-- commit (`DatabaseWare` and `DatabaseWareSnapshot` in src/mgr.rs).
use pi_db.Tabs.Altered.{changed}
use pi_db.HashMap.Laws.{Distinct}
use pi_db.Tabs.Phases.{snapshot, tabs_prepare, tabs_commit}
use pi_db.Base.{
  nat_eqb, false, Eq, nat_eq, list_eq, pair_eq, ℕ, ◌≡◌, refl, ap, ◌∙◌, Option, [], ◌∷◌, arith,
}
use pi_db.Data.{DbResult, ok, TabMeta}
use pi_db.HashMap.{lookup, HashMap}
use pi_db.Tabs.{tab_meta, Cells, TabLog, Tabs, alter}
use pi_db.Tabs.Session.{alter_all-seen, session-changed, alter_all}
use pi_db.Ware.{
  log_file_ware, mem_ware, DatabaseWare, cell-assign, cell-assign_other, World, Outside, TabsRef,
  DatabaseWareSnapshot, tabs_at, put_tabs,
}
use pi_db.Ware.Shots.{
  tabs_of, ware_tab_info, shot_prepare, shot_tab_info, ware_snapshot, shot_commit, shot_alter,
  shot_of, log_of,
}

module _ {G M T Atom EnumType F P : Type 0} ⦃ea : Eq Atom⦄
    (out : Outside G M T Atom EnumType F P) where
  -- `alter` of a snapshot for each change
  unfoldable pub shot_alter_all :
      DatabaseWareSnapshot
      → HashMap Atom (Option (TabMeta EnumType))
      → World G M T Atom EnumType F P
      → World G M T Atom EnumType F P
  shot_alter_all shot [] w = w
  shot_alter_all shot ((name, m) ∷ changes) w =
      shot_alter_all shot changes (shot_alter out shot name m w)

  -- What the changes of a snapshot leave as it is, and its log after them.
  pub record IsAlteredBy (shot : DatabaseWareSnapshot)
      (changes : HashMap Atom (Option (TabMeta EnumType))) (w w' : World G M T Atom EnumType F P)
      : Type 0 where
    pub maps : w'.maps ≡ w.maps
    pub prepares : w'.prepares ≡ w.prepares
    pub next : w'.logs.next ≡ w.logs.next
    pub others : (q : ℕ) → nat_eqb (shot_of shot).log_at q ≡ false → w'.logs.cell q ≡ w.logs.cell q
    pub log : log_of shot w' ≡ (alter_all out.tab_trees changes (log_of shot w) w.cells).0

  unfoldable altered :
      DatabaseWareSnapshot
      → Atom
      → Option (TabMeta EnumType)
      → World G M T Atom EnumType F P
      → TabLog Atom EnumType T × Cells ℕ ℕ
  altered shot name m w = alter out.tab_trees name m (log_of shot w) w.cells

  maps-shot_alter :
      (shot : DatabaseWareSnapshot) (name : Atom) (m : Option (TabMeta EnumType))
      (w : World G M T Atom EnumType F P)
      → (shot_alter out shot name m w).maps ≡ w.maps
  unfolding shot_alter
  maps-shot_alter shot name m w = refl

  prepares-shot_alter :
      (shot : DatabaseWareSnapshot) (name : Atom) (m : Option (TabMeta EnumType))
      (w : World G M T Atom EnumType F P)
      → (shot_alter out shot name m w).prepares ≡ w.prepares
  unfolding shot_alter
  prepares-shot_alter shot name m w = refl

  next-shot_alter :
      (shot : DatabaseWareSnapshot) (name : Atom) (m : Option (TabMeta EnumType))
      (w : World G M T Atom EnumType F P)
      → (shot_alter out shot name m w).logs.next ≡ w.logs.next
  unfolding shot_alter
  next-shot_alter shot name m w = refl

  others-shot_alter :
      (shot : DatabaseWareSnapshot) (name : Atom) (m : Option (TabMeta EnumType)) (q : ℕ)
      (w : World G M T Atom EnumType F P)
      → nat_eqb (shot_of shot).log_at q ≡ false
      → (shot_alter out shot name m w).logs.cell q ≡ w.logs.cell q
  unfolding shot_alter
  others-shot_alter shot name m q w e = cell-assign_other (shot_of shot).log_at q _ w.logs e

  log-shot_alter :
      (shot : DatabaseWareSnapshot) (name : Atom) (m : Option (TabMeta EnumType))
      (w : World G M T Atom EnumType F P)
      → log_of shot (shot_alter out shot name m w) ≡ (altered shot name m w).0
  unfolding shot_alter altered
  log-shot_alter shot name m w = cell-assign (shot_of shot).log_at _ w.logs

  cells-shot_alter :
      (shot : DatabaseWareSnapshot) (name : Atom) (m : Option (TabMeta EnumType))
      (w : World G M T Atom EnumType F P)
      → (shot_alter out shot name m w).cells ≡ (altered shot name m w).1
  unfolding shot_alter altered
  cells-shot_alter shot name m w = refl

  pub shot_alter_all-IsAlteredBy :
      (shot : DatabaseWareSnapshot) (changes : HashMap Atom (Option (TabMeta EnumType)))
      (w : World G M T Atom EnumType F P)
      → IsAlteredBy shot changes w (shot_alter_all shot changes w)
  unfolding shot_alter_all alter_all altered
  shot_alter_all-IsAlteredBy shot [] w = record {
    maps = refl;
    prepares = refl;
    next = refl;
    others = λ q e. refl;
    log = refl;
  }
  shot_alter_all-IsAlteredBy shot ((name, m) ∷ changes) w =
      let h = shot_alter_all-IsAlteredBy shot changes (shot_alter out shot name m w) in
      record {
        maps = h.maps ∙ maps-shot_alter shot name m w;
        prepares = h.prepares ∙ prepares-shot_alter shot name m w;
        next = h.next ∙ next-shot_alter shot name m w;
        others = λ q e. h.others q e ∙ others-shot_alter shot name m q w e;
        log =
            h.log
            ∙ ap (λ l. (alter_all out.tab_trees changes l (shot_alter out shot name m w).cells).0)
                (log-shot_alter shot name m w)
            ∙ ap (λ c. (alter_all out.tab_trees changes (altered shot name m w).0 c).0)
                (cells-shot_alter shot name m w);
      }

module _ {G M T Atom EnumType F P : Type 0} where
  tabs_at-put_tabs :
      (r : TabsRef) (tabs : Tabs G Atom EnumType T) (w : World G M T Atom EnumType F P)
      → tabs_at r (put_tabs r tabs w) ≡ tabs
  tabs_at-put_tabs r tabs w = ground arith

module _ {G M T Atom EnumType F P : Type 0} ⦃eg : Eq G⦄ ⦃ea : Eq Atom⦄
    (out : Outside G M T Atom EnumType F P) where
  prepare-steps :
      (shot : DatabaseWareSnapshot) (id : G) (w : World G M T Atom EnumType F P)
      → let (r, log', tabs') =
          tabs_prepare out.tab_trees id (log_of shot w) (tabs_at (shot_of shot).db w) in
        ((shot_prepare out shot id w).0 ≡ r)
        × (tabs_at (shot_of shot).db (shot_prepare out shot id w).1 ≡ tabs')
  unfolding shot_prepare
  prepare-steps shot id w = (refl, ground arith)

  commit-steps :
      (shot : DatabaseWareSnapshot) (id : G) (w : World G M T Atom EnumType F P)
      → tabs_at (shot_of shot).db (shot_commit out shot id w)
        ≡ (tabs_commit out.tab_trees id (tabs_at (shot_of shot).db w) w.cells).0
  unfolding shot_commit
  commit-steps shot id w = ground arith

  -- from a snapshot that has just been taken
  changes_of :
      (shot : DatabaseWareSnapshot) (id : G) (changes : HashMap Atom (Option (TabMeta EnumType)))
      (w : World G M T Atom EnumType F P) (tabs : Tabs G Atom EnumType T)
      → Distinct changes
      → tabs_at (shot_of shot).db w ≡ tabs
      → log_of shot w ≡ snapshot tabs
      → tabs.prepare ≡ []
      → let w2 = shot_alter_all out shot changes w in
        let (r, w3) = shot_prepare out shot id w2 in
        let w4 = shot_commit out shot id w3 in
        (r ≡ ok tt)
        × ((n : Atom)
            → shot_tab_info out shot n w2
              ≡ changed (lookup n changes) (tab_meta out.tab_trees tabs.map n))
        × ((tabs_at (shot_of shot).db w3).map ≡ tabs.map)
        × ((n : Atom)
            → tab_meta out.tab_trees (tabs_at (shot_of shot).db w4).map n
              ≡ changed (lookup n changes) (tab_meta out.tab_trees tabs.map n))
  unfolding shot_tab_info
  changes_of shot id changes w tabs d here log h =
      let om = out.tab_trees in
      let w2 = shot_alter_all out shot changes w in
      let by = shot_alter_all-IsAlteredBy out shot changes w in
      let log2 : log_of shot w2 ≡ (alter_all om changes (snapshot tabs) w.cells).0 =
        by.log ∙ ap (λ l. (alter_all om changes l w.cells).0) log in
      let tabs2 : tabs_at (shot_of shot).db w2 ≡ tabs = rw (by.maps, by.prepares) here in
      let (r, w3) = shot_prepare out shot id w2 in
      let w4 = shot_commit out shot id w3 in
      let (passes, same, view, _) = session-changed om id changes tabs w.cells w3.cells d h in
      let (step, tabs3) = prepare-steps shot id w2 in
      let prepared : tabs_prepare om id (log_of shot w2) (tabs_at (shot_of shot).db w2)
          ≡ tabs_prepare om id (alter_all om changes (snapshot tabs) w.cells).0 tabs =
        rw (log2, tabs2) refl in
      (
        step ∙ ap (λ p. p.0) prepared ∙ passes,
        λ n.
            ap (λ (l : TabLog Atom EnumType T). tab_meta om l.map n) log2
            ∙ alter_all-seen om changes tabs w.cells n d,
        ap (λ (t : Tabs G Atom EnumType T). t.map) tabs3
            ∙ ap (λ (p : DbResult × TabLog Atom EnumType T × Tabs G Atom EnumType T). p.2.map)
                prepared
            ∙ same,
        λ n.
            ap (λ (t : Tabs G Atom EnumType T). tab_meta om t.map n) (commit-steps shot id w3)
            ∙ ap
                (λ (t : Tabs G Atom EnumType T). tab_meta om (tabs_commit om id t w3.cells).0.map n)
                tabs3
            ∙ ap
                (λ (p : DbResult × TabLog Atom EnumType T × Tabs G Atom EnumType T).
                  tab_meta om (tabs_commit om id p.2 w3.cells).0.map n)
                prepared
            ∙ view n,
      )

  -- A transaction takes a snapshot of a library in which nothing is prepared, changes tables, each at
  -- most once, and is prepared and committed. The preparation succeeds. The transaction sees the
  -- tables with its changes at once; the library shows them as they were until the commit, and with
  -- the changes after it.
  pub changes_session :
      (ware : DatabaseWare) (id : G) (changes : HashMap Atom (Option (TabMeta EnumType)))
      (w : World G M T Atom EnumType F P)
      → Distinct changes
      → w.prepares.cell (tabs_of ware).prepare_at ≡ []
      → let (shot, w1) = ware_snapshot ware w in
        let w2 = shot_alter_all out shot changes w1 in
        let (r, w3) = shot_prepare out shot id w2 in
        let w4 = shot_commit out shot id w3 in
        (r ≡ ok tt)
        × ((n : Atom)
            → shot_tab_info out shot n w2 ≡ changed (lookup n changes) (ware_tab_info out ware n w))
        × ((n : Atom) → ware_tab_info out ware n w3 ≡ ware_tab_info out ware n w)
        × ((n : Atom)
            → ware_tab_info out ware n w4 ≡ changed (lookup n changes) (ware_tab_info out ware n w))
  unfolding ware_snapshot ware_tab_info
  changes_session (mem_ware db) id changes w d h =
      let (shot, w1) = ware_snapshot (mem_ware db) w in
      let (passes, seen, same, view) =
        changes_of shot id changes w1 (tabs_at db w) d refl (cell-assign w.logs.next _ w.logs) h in
      (passes, seen, λ n. ap (λ m. tab_meta out.tab_trees m n) same, view)
  changes_session (log_file_ware db) id changes w d h =
      let (shot, w1) = ware_snapshot (log_file_ware db) w in
      let (passes, seen, same, view) =
        changes_of shot id changes w1 (tabs_at db w) d refl (cell-assign w.logs.next _ w.logs) h in
      (passes, seen, λ n. ap (λ m. tab_meta out.tab_trees m n) same, view)
