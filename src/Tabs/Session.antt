-- ===== src/Tabs/Session.antt =====
-- The changes of a transaction's tables, from the snapshot of a library to its commit (`alter` of
-- `TabLog`, and `snapshot`, `prepare` and `commit` of `Tabs` in src/tabs.rs).
use pi_db.Tabs.Prepared.{tabs_prepare-ok}
use pi_db.Tabs.Phases.{tabs_commit, check_prepared, tabs_prepare, snapshot}
use pi_db.Base.{
  ap, if◌then◌else◌, Eq, ◌==◌, ==-refl, nat_eq, list_eq, pair_eqb_iff, pair_eq, ℕ, ◌≡◌, refl, ◌∙◌,
  ◌≢◌, Option, none, some, [], ◌∷◌, arith,
}
use pi_db.Data.{ok, TabMeta}
use pi_db.HashMap.{HashMap, lookup}
use pi_db.HashMap.Laws.{Distinct, lookup-insert}
use pi_db.OrdMap.{OrdMap}
use pi_db.Tabs.{tab_meta, Tabs, Cells, TabInfo, TabLog, alter}
use pi_db.Tabs.Altered.{
  tabs_commit-changed, changed, IsAltered, alter_plain, or_insert_new, alter-IsAltered,
}

module _ {Atom EnumType M : Type 0} ⦃ea : Eq Atom⦄ (om : OrdMap ea.beq (TabInfo EnumType) M) where
  -- what is known of the log when none of the changes has been made
  record IsReady (changes : HashMap Atom (Option (TabMeta EnumType))) (log : TabLog Atom EnumType M)
      : Type 0 where
    altered : IsAltered om log
    distinct : Distinct changes
    apart : (n : Atom) → lookup n changes ≢ none → lookup (n, 0) log.alter_logs ≡ none

module _ {Atom EnumType M : Type 0} ⦃ea : Eq Atom⦄ (om : OrdMap ea.beq (TabInfo EnumType) M)
    {MT LT : Type 0} where
  -- changes one after the other
  unfoldable pub alter_all :
      HashMap Atom (Option (TabMeta EnumType))
      → TabLog Atom EnumType M
      → Cells MT LT
      → TabLog Atom EnumType M × Cells MT LT
  alter_all [] log cells = (log, cells)
  alter_all ((name, m) ∷ changes) log cells =
      let (log', cells') = alter om name m log cells in alter_all changes log' cells'

  alter-logs :
      (name n : Atom) (x : Option (TabMeta EnumType)) (log : TabLog Atom EnumType M)
      (cells : Cells MT LT)
      → IsAltered om log
      → lookup (name, 0) log.alter_logs ≡ none
      → (lookup (n, 0) (alter om name x log cells).0.alter_logs
          ≡ (if name == n then some x else lookup (n, 0) log.alter_logs))
        × ((alter om name x log cells).0.old_map ≡ log.old_map)
  alter-logs name n x log cells h new =
      rw (alter_plain om name x log cells h.plain, or_insert_new (name, 0) x log.alter_logs new)
        (
          ground (
            arith,
            lookup-insert (name, 0) (n, 0) x log.alter_logs,
            pair_eqb_iff {B = ℕ} (name, 0) (n, 0),
            ea.beq_iff name n,
          ),
          refl,
        )

  alter_all_lem :
      (changes : HashMap Atom (Option (TabMeta EnumType))) (log : TabLog Atom EnumType M)
      (cells : Cells MT LT)
      → IsReady om changes log
      → let log' = (alter_all changes log cells).0 in
        IsAltered om log'
        × (log'.old_map ≡ log.old_map)
        × ((n : Atom)
            → lookup (n, 0) log'.alter_logs
              ≡ elim (lookup n changes) [ some m ↦ some m | none ↦ lookup (n, 0) log.alter_logs ])
  unfolding alter_all lookup
  alter_all_lem [] log cells h = (h.altered, refl, λ n. refl)
  alter_all_lem ((name, m) ∷ changes) log cells h =
      let new = h.apart name (λ q. ground (arith, ==-refl name)) in
      let one = alter-IsAltered om name m log cells h.altered new in
      let (log', cells') = alter om name m log cells in
      let (kept, old, logs) = alter_all_lem changes log' cells' (record {
        altered = one;
        distinct = h.distinct.1;
        apart = λ n p. ground (
          arith,
          (alter-logs name n m log cells h.altered new).0,
          ea.beq_iff name n,
          h.distinct.0,
          h.apart n,
        );
      }) in
      (
        kept,
        old ∙ (alter-logs name name m log cells h.altered new).1,
        λ n. ground (
          arith,
          logs n,
          (alter-logs name n m log cells h.altered new).0,
          ea.beq_iff name n,
          h.distinct.0,
        ),
      )

module _ {G Atom EnumType M : Type 0} ⦃eg : Eq G⦄ ⦃ea : Eq Atom⦄
    (om : OrdMap ea.beq (TabInfo EnumType) M) where
  snapshot-IsReady :
      (changes : HashMap Atom (Option (TabMeta EnumType))) (tabs : Tabs G Atom EnumType M)
      → Distinct changes
      → IsReady om changes (snapshot tabs)
  unfolding snapshot lookup
  snapshot-IsReady changes tabs d = record {
    altered = record {
      plain = refl;
      distinct = tt;
      first = λ k p. absurd (p refl);
      seen = λ n. refl;
    };
    distinct = d;
    apart = λ n p. refl;
  }

  -- with nothing prepared, and the library as it was when the transaction began
  pub tabs_prepare-alone :
      (id : G) (log : TabLog Atom EnumType M) (tabs : Tabs G Atom EnumType M)
      → tabs.prepare ≡ []
      → log.old_map ≡ tabs.map
      → (tabs_prepare om id log tabs).0 ≡ ok tt
  unfolding tabs_prepare check_prepared
  tabs_prepare-alone id log tabs h e = rw (h, tabs_prepare, e, om.ptr_eq_self tabs.map) refl

  module _ {MT LT : Type 0} where
    pub alter_all-logs :
        (changes : HashMap Atom (Option (TabMeta EnumType))) (tabs : Tabs G Atom EnumType M)
        (cells : Cells MT LT)
        → Distinct changes
        → let log = (alter_all om changes (snapshot tabs) cells).0 in
          IsAltered om log
          × (log.old_map ≡ tabs.map)
          × ((n : Atom) → lookup (n, 0) log.alter_logs ≡ lookup n changes)
    unfolding snapshot lookup
    alter_all-logs changes tabs cells d =
        let (kept, old, logs) =
          alter_all_lem om changes (snapshot tabs) cells (snapshot-IsReady changes tabs d) in
        (kept, old, λ n. ground (arith, logs n))

    -- what a transaction sees after its changes
    pub alter_all-seen :
        (changes : HashMap Atom (Option (TabMeta EnumType))) (tabs : Tabs G Atom EnumType M)
        (cells : Cells MT LT) (n : Atom)
        → Distinct changes
        → tab_meta om (alter_all om changes (snapshot tabs) cells).0.map n
          ≡ changed (lookup n changes) (tab_meta om tabs.map n)
    alter_all-seen changes tabs cells n d =
        let (kept, old, logs) = alter_all-logs changes tabs cells d in
        kept.seen n
        ∙ ap (λ o. changed o (tab_meta om (alter_all om changes (snapshot tabs) cells).0.old_map n))
            (logs n)
        ∙ ap (λ m. changed (lookup n changes) (tab_meta om m n)) old

    -- the preparation and the commit of the changes
    pub session-changed :
        (id : G) (changes : HashMap Atom (Option (TabMeta EnumType)))
        (tabs : Tabs G Atom EnumType M) (cells cells' : Cells MT LT)
        → Distinct changes
        → tabs.prepare ≡ []
        → let log = (alter_all om changes (snapshot tabs) cells).0 in
          let (r, log', tabs') = tabs_prepare om id log tabs in
          let (tabs'', _) = tabs_commit om id tabs' cells' in
          (r ≡ ok tt)
          × (tabs'.map ≡ tabs.map)
          × ((n : Atom)
              → tab_meta om tabs''.map n ≡ changed (lookup n changes) (tab_meta om tabs.map n))
          × (lookup id tabs''.prepare ≡ none)
    session-changed id changes tabs cells cells' d h =
        let log = (alter_all om changes (snapshot tabs) cells).0 in
        let (kept, old, logs) = alter_all-logs changes tabs cells d in
        let passes = tabs_prepare-alone id log tabs h old in
        let (_, _, stored, _, same) = tabs_prepare-ok om id log tabs passes in
        let tabs' = (tabs_prepare om id log tabs).2 in
        let (view, gone) = tabs_commit-changed om id tabs' cells' log kept stored in
        (
          passes,
          same,
          λ n.
              view n
              ∙ ap (λ o. changed o (tab_meta om tabs'.map n)) (logs n)
              ∙ ap (λ m. changed (lookup n changes) (tab_meta om m n)) same,
          gone,
        )
