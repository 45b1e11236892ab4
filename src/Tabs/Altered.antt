-- ===== src/Tabs/Altered.antt =====
-- What a change of the tables does to their types (`alter` of `TabLog` and `commit` of `Tabs` in
-- src/tabs.rs).
use pi_db.Base.{
  if◌then◌else◌, Bool-cases, Option-cases, Eq, ◌==◌, ==-refl, nat_eq, list_eq, pair_eqb_iff,
  pair_eq, ℕ, ◌≡◌, refl, ap, ◌∙◌, ◌≢◌, inl, inr, false, Option, none, some, [], ◌∷◌, arith,
}
use pi_db.Data.{TabMeta}
use pi_db.HashMap.{HashMap, lookup, insert}
use pi_db.HashMap.Laws.{Distinct, lookup-insert, lookup-remove, Distinct-insert}
use pi_db.OrdMap.{OrdMap}
use pi_db.Tabs.{
  source_of, new_tab_info, TabInfo, TabLog, Tabs, Cells, tab_meta, act, or_insert, alter,
}
use pi_db.Tabs.Phases.{redo, tabs_commit}

-- a table's types after a change of it, from those before
abbrev pub changed : {A : Type 0} → Option (Option A) → Option A → Option A
changed none o = o
changed (some m) o = m

module _ {Atom : Type 0} ⦃ea : Eq Atom⦄ where
  source_plain : (name : Atom) (l : HashMap Atom (Atom × ℕ)) → l ≡ [] → source_of name l ≡ (name, 0)
  unfolding lookup
  source_plain name l h = rw h refl

module _ {Atom EnumType : Type 0} ⦃ea : Eq Atom⦄ where
  or_insert_old :
      (key : Atom × ℕ) (x y : Option (TabMeta EnumType))
      (logs : HashMap (Atom × ℕ) (Option (TabMeta EnumType)))
      → lookup key logs ≡ some y
      → or_insert key x logs ≡ logs
  or_insert_old key x y logs h = rw (h, or_insert) refl

  pub or_insert_new :
      (key : Atom × ℕ) (x : Option (TabMeta EnumType))
      (logs : HashMap (Atom × ℕ) (Option (TabMeta EnumType)))
      → lookup key logs ≡ none
      → or_insert key x logs ≡ insert key x logs
  or_insert_new key x logs h = rw (h, or_insert) refl

module _ {Atom EnumType M : Type 0} ⦃ea : Eq Atom⦄ (om : OrdMap ea.beq (TabInfo EnumType) M) where
  -- The map is the snapshot with each altered table changed.
  pub record IsAltered (log : TabLog Atom EnumType M) : Type 0 where
    pub plain : log.rename_logs ≡ []
    pub distinct : Distinct log.alter_logs
    pub first : (k : Atom × ℕ) → lookup k log.alter_logs ≢ none → k.1 ≡ 0
    pub seen :
        (n : Atom)
        → tab_meta om log.map n ≡ changed (lookup (n, 0) log.alter_logs) (tab_meta om log.old_map n)

  meta_upsert :
      (m : M) (k n : Atom) (t : TabInfo EnumType)
      → tab_meta om (om.upsert m k t) n ≡ (if k == n then some t.meta_info else tab_meta om m n)
  meta_upsert m k n t = ground (arith, om.get-upsert m k n t)

  meta_delete :
      (m : M) (k n : Atom)
      → tab_meta om (om.delete m k) n ≡ (if k == n then none else tab_meta om m n)
  meta_delete m k n = ground (arith, om.get-delete m k n)

  module _ {MT LT : Type 0} where
    meta_act :
        (k n : Atom) (x : Option (TabMeta EnumType)) (m : M) (cells : Cells MT LT)
        → tab_meta om (act om k x m cells).0 n ≡ (if k == n then x else tab_meta om m n)
    meta_act k n (some si) m cells = elim (Option-cases (om.get m k)) [
      | inl e ↦ rw (e, act) (meta_upsert m k n _)
      | inr (ti, e) ↦ rw (e, act) (meta_upsert m k n _)
    ]
    meta_act k n none m cells = elim (Option-cases (om.get m k)) [
      | inl e ↦ ground (arith, ea.beq_iff k n)
      | inr (ti, e) ↦ rw (e, act) (meta_delete m k n)
    ]

    pub alter_plain :
        (name : Atom) (x : Option (TabMeta EnumType)) (log : TabLog Atom EnumType M)
        (cells : Cells MT LT)
        → log.rename_logs ≡ []
        → (alter om name x log cells).0 ≡ record log {
          map = (act om name x log.map cells).0;
          alter_logs = or_insert (name, 0) x log.alter_logs;
          meta_names = insert name tt log.meta_names;
        }
    unfolding alter
    alter_plain name x log cells h =
        ap
          (λ (k : Atom × ℕ). record log {
            map = (act om k.0 x log.map cells).0;
            alter_logs = or_insert k x log.alter_logs;
            meta_names = insert name tt log.meta_names;
          })
          (source_plain name log.rename_logs h)

    -- `alter` of a table that the transaction has not altered keeps the map the snapshot with each
    -- altered table changed.
    pub alter-IsAltered :
        (name : Atom) (x : Option (TabMeta EnumType)) (log : TabLog Atom EnumType M)
        (cells : Cells MT LT)
        → IsAltered log
        → lookup (name, 0) log.alter_logs ≡ none
        → IsAltered (alter om name x log cells).0
    alter-IsAltered name x log cells h new =
        rw (alter_plain name x log cells h.plain, or_insert_new (name, 0) x log.alter_logs new)
          (record {
            plain = h.plain;
            distinct = Distinct-insert (name, 0) x log.alter_logs h.distinct;
            first = λ k q. ground (
              arith,
              lookup-insert (name, 0) k x log.alter_logs,
              pair_eqb_iff (name, 0) k,
              h.first k,
            );
            seen = λ n. ground (
              arith,
              meta_act name n x log.map cells,
              lookup-insert (name, 0) (n, 0) x log.alter_logs,
              ea.beq_iff name n,
              h.seen n,
            );
          })

    redo-changed :
        (logs : HashMap (Atom × ℕ) (Option (TabMeta EnumType))) (m : M) (cells : Cells MT LT)
        (n : Atom)
        → Distinct logs
        → ((k : Atom × ℕ) → lookup k logs ≢ none → k.1 ≡ 0)
        → tab_meta om (redo om logs m cells).0 n ≡ changed (lookup (n, 0) logs) (tab_meta om m n)
    unfolding redo lookup
    redo-changed [] m cells n d z = refl
    redo-changed (((name, v), none) ∷ rest) m cells n d z =
        let second : v ≡ 0 = z (name, v) (λ q. ground (arith, pair_eqb_iff (name, v) (name, v))) in
        let tail =
          redo-changed rest (om.delete m name) cells n d.1 (λ k q. z k (λ e. ground arith)) in
        ground (arith, tail, meta_delete m name n, ea.beq_iff name n, d.0)
    redo-changed (((name, v), some si) ∷ rest) m cells n d z =
        let second : v ≡ 0 = z (name, v) (λ q. ground (arith, pair_eqb_iff (name, v) (name, v))) in
        let tail =
          redo-changed rest (om.upsert m name (new_tab_info si cells).0) (new_tab_info si cells).1 n
            d.1 (λ k q. z k (λ e. ground arith)) in
        ground (arith, tail, meta_upsert m name n (new_tab_info si cells).0, ea.beq_iff name n, d.0)

module _ {G Atom EnumType M : Type 0} ⦃eg : Eq G⦄ ⦃ea : Eq Atom⦄
    (om : OrdMap ea.beq (TabInfo EnumType) M) {MT LT : Type 0} where
  -- Let changes of tables be prepared that rename none and change no table twice, and that the
  -- transaction's map shows on its snapshot. Their commit gives each changed table the types of its
  -- change, or takes it away, and leaves the types of every other table as they are at present,
  -- whether or not the tables have been changed since the transaction began; the preparation is gone.
  pub tabs_commit-changed :
      (id : G) (tabs : Tabs G Atom EnumType M) (cells : Cells MT LT) (log : TabLog Atom EnumType M)
      → IsAltered om log
      → lookup id tabs.prepare ≡ some log
      → ((n : Atom)
          → tab_meta om (tabs_commit om id tabs cells).0.map n
            ≡ changed (lookup (n, 0) log.alter_logs) (tab_meta om tabs.map n))
        × (lookup id (tabs_commit om id tabs cells).0.prepare ≡ none)
  unfolding tabs_commit
  tabs_commit-changed id tabs cells log h e = elim (Bool-cases (om.ptr_eq tabs.map log.old_map)) [
    | inl t ↦
        rw (e, tabs_commit, t)
          (
            λ n. ground (arith, h.seen n, om.get_of_ptr_eq tabs.map log.old_map n t),
            ground (arith, lookup-remove id id tabs.prepare, eg.beq_iff id id),
          )
    | inr f ↦
        rw (e, tabs_commit, f)
          (
            λ n. redo-changed om log.alter_logs tabs.map cells n h.distinct h.first,
            ground (arith, lookup-remove id id tabs.prepare, eg.beq_iff id id),
          )
  ]

  -- A second change of one table in a transaction is forgotten: the transaction sees the table with
  -- the second types, but if the tables have been changed since it began, its commit gives the table
  -- the types of the first change.
  pub alter-loses_second :
      (id : G) (name : Atom) (one two : Option (TabMeta EnumType)) (log : TabLog Atom EnumType M)
      (tabs : Tabs G Atom EnumType M) (cells : Cells MT LT)
      → IsAltered om log
      → lookup (name, 0) log.alter_logs ≡ some one
      → let log' = (alter om name two log cells).0 in
        lookup id tabs.prepare ≡ some log'
        → om.ptr_eq tabs.map log'.old_map ≡ false
        → (tab_meta om log'.map name ≡ two)
          × (tab_meta om (tabs_commit om id tabs cells).0.map name ≡ one)
  unfolding tabs_commit
  alter-loses_second id name one two log tabs cells h e p f =
      let log' = (alter om name two log cells).0 in
      let form = alter_plain om name two log cells h.plain in
      let same_logs : log'.alter_logs ≡ log.alter_logs =
        ap (λ (l : TabLog Atom EnumType M). l.alter_logs) form
        ∙ or_insert_old (name, 0) two one log.alter_logs e in
      (
        ap (λ (l : TabLog Atom EnumType M). tab_meta om l.map name) form
            ∙ meta_act om name name two log.map cells
            ∙ ap (λ b. if b then two else tab_meta om log.map name) (==-refl name),
        rw (p, tabs_commit, f)
            (redo-changed om log'.alter_logs tabs.map cells name (rw same_logs h.distinct)
                (rw same_logs h.first)
              ∙ ap (λ l. changed (lookup (name, 0) l) (tab_meta om tabs.map name)) same_logs
              ∙ ap (λ o. changed o (tab_meta om tabs.map name)) e),
      )
