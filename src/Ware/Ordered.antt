-- ===== src/Ware/Ordered.antt =====
-- When the tables of `tabs_meta` can be registered (`new` of `LogFileDB` in src/log_file_db.rs).
use pi_db.Data.{Bytes}
use pi_db.Ware.Startup.{register, Registered, register_all, Opening}
use pi_db.Mgr.Phases.{names}
use mathlib.Core.List.{append-nil}
use pi_db.Ware.Registered.{IsRegistered, IsRegistered-first}
use pi_db.Base.{
  ◌≤◌, length, ◌++◌, refl, ◌+◌, ◌⊎◌, if◌then◌else◌, Bool-cases, Option-cases, Eq, ◌==◌, nat_eq,
  list_eq, pair_eq, ℕ, zero, suc, ◌<◌, ◌≡◌, sym, ap, ◌∙◌, ◌≢◌, inl, inr, false, none, some, List,
  [], ◌∷◌, arith,
}
use pi_db.HashMap.{lookup, insert}
use pi_db.HashMap.Laws.{lookup-insert, lookup-insert_self}
use pi_db.Fork.{Tables, TableMetaInfo, build_fork_chain, follow, finished, panicked}

module _ {Atom EnumType : Type 0} ⦃ea : Eq Atom⦄ where
  -- Every parent is there, and `rank` goes down from a table to its parent.
  pub record IsRanked (tables : Tables Atom EnumType) (m : ℕ) : Type 0 where
    pub rank : Atom → ℕ
    pub bounded :
        (n : Atom) (t : TableMetaInfo Atom EnumType) → lookup n tables ≡ some t → rank n < m
    pub present :
        (n p : Atom) (t : TableMetaInfo Atom EnumType)
        → lookup n tables ≡ some t
        → t.parent ≡ some p
        → (u : TableMetaInfo Atom EnumType) × (lookup p tables ≡ some u) × (rank p < rank n)

  -- a table's parent is among the tables, if it has one
  abbrev pub HasParent : Tables Atom EnumType → TableMetaInfo Atom EnumType → Type 0
  HasParent tables info = (p : Atom) → info.parent ≡ some p → lookup p tables ≢ none

  -- In the list, every table comes after its parent, or its parent is among the tables before.
  abbrev pub ParentsFirst :
      Tables Atom EnumType → List (Atom × TableMetaInfo Atom EnumType) → Type 0
  ParentsFirst tables [] = Unit
  ParentsFirst tables ((name, info) ∷ l) =
      HasParent tables info × ParentsFirst (insert name info tables) l

  -- No name stands twice or is taken, and no table is its own parent.
  abbrev pub IsFresh : Tables Atom EnumType → List (Atom × TableMetaInfo Atom EnumType) → Type 0
  IsFresh tables [] = Unit
  IsFresh tables ((name, info) ∷ l) =
      (lookup name tables ≡ none) × (info.parent ≢ some name) × IsFresh (insert name info tables) l

  follow_ranked :
      (n : ℕ) (tables : Tables Atom EnumType) (m : ℕ) (name : Atom)
      (info : TableMetaInfo Atom EnumType) (h : IsRanked tables m)
      → lookup name tables ≡ some info
      → h.rank name < n
      → (l : List (TableMetaInfo Atom EnumType)) × (follow n tables info ≡ finished l)
  unfolding follow
  follow_ranked zero tables m name info h found r = absurd (omega (arith, r))
  follow_ranked (suc n) tables m name info h found r = elim (Option-cases info.parent) [
    | inl e ↦ (info ∷ [], ground arith)
    | inr (p, e) ↦
        let (u, there, lower) = h.present name p info found e in
        let (l, run) = follow_ranked n tables m p u h there (omega (arith, lower, r)) in
        (info ∷ l, ground (arith, there, run))
  ]

  -- a table that is there keeps its entry when another one comes
  lookup-kept :
      (tables : Tables Atom EnumType) (name q : Atom) (info u : TableMetaInfo Atom EnumType)
      → lookup name tables ≡ none
      → lookup q tables ≡ some u
      → (lookup q (insert name info tables) ≡ some u) × ((name == q) ≡ false)
  lookup-kept tables name q info u new there = elim (Bool-cases (name == q)) [
    | inl t ↦ ground (arith, ea.beq_iff name q)
    | inr f ↦ (ground (arith, lookup-insert name q info tables), f)
  ]

  IsRanked-insert :
      (tables : Tables Atom EnumType) (m : ℕ) (name : Atom) (info : TableMetaInfo Atom EnumType)
      → IsRanked tables m
      → lookup name tables ≡ none
      → HasParent tables info
      → IsRanked (insert name info tables) (suc m)
  IsRanked-insert tables m name info h new p = record {
    rank = λ n. if name == n then m else h.rank n;
    bounded = λ n t q. ground (arith, lookup-insert name n info tables, h.bounded n t);
    present = λ n q t e f. elim (Bool-cases (name == n)) [
      | inl same ↦
          let is_info : t ≡ info = ground (arith, lookup-insert name n info tables) in
          elim (Option-cases (lookup q tables)) [
            | inl gone ↦ absurd (p q (sym (ap (λ x. x.parent) is_info) ∙ f) gone)
            | inr (u, there) ↦
                let (kept, other) = lookup-kept tables name q info u new there in
                (u, kept, rw (same, other) (h.bounded q u there))
          ]
      | inr other_n ↦
          let old : lookup n tables ≡ some t = ground (arith, lookup-insert name n info tables) in
          let (u, there, lower) = h.present n q t old f in
          let (kept, other) = lookup-kept tables name q info u new there in
          (u, kept, rw (other_n, other) lower)
    ];
  }

  -- the chain of a table that has just been registered
  build_fork_chain-registered :
      (fuel m : ℕ) (tables : Tables Atom EnumType) (name : Atom)
      (info : TableMetaInfo Atom EnumType)
      → IsRanked tables m
      → lookup name tables ≡ none
      → HasParent tables info
      → m < fuel
      → (l : List (TableMetaInfo Atom EnumType)) × (build_fork_chain fuel
            (insert name info tables)
            name
          ≡ finished l)
  unfolding build_fork_chain
  build_fork_chain-registered fuel m tables name info h new p r =
      let h' = IsRanked-insert tables m name info h new p in
      let there = lookup-insert_self name info tables in
      let (l, run) =
        follow_ranked fuel (insert name info tables) (suc m) name info h' there
          (omega (arith, h'.bounded name info there, r)) in
      (l, ground (arith, there, run))

  build_fork_chain-panics :
      (fuel : ℕ) (tables : Tables Atom EnumType) (name p : Atom)
      (info : TableMetaInfo Atom EnumType)
      → info.parent ≡ some p
      → info.parent ≢ some name
      → lookup p tables ≡ none
      → 0 < fuel
      → build_fork_chain fuel (insert name info tables) name ≡ panicked
  unfolding build_fork_chain follow
  build_fork_chain-panics zero tables name p info e self gone r = absurd (omega (arith, r))
  build_fork_chain-panics (suc fuel) tables name p info e self gone r = ground (
    arith,
    lookup-insert_self name info tables,
    lookup-insert name p info tables,
    ea.beq_iff name p,
  )

module _ {T Atom EnumType : Type 0} (o : Opening T Atom EnumType) where
  -- the entries are those of the list
  abbrev pub Decodes : List (Bytes × Bytes) → List (Atom × TableMetaInfo Atom EnumType) → Type 0
  Decodes [] [] = Unit
  Decodes ((k, v) ∷ entries) ((name, info) ∷ l) =
      (o.name_of k ≡ some name) × (o.info_of v ≡ some info) × Decodes entries l
  Decodes _ _ = ⊥

module _ {T Atom EnumType : Type 0} ⦃ea : Eq Atom⦄ (o : Opening T Atom EnumType) where
  -- how `register_all` goes on after an entry
  register_all-next :
      (fuel : ℕ) (k v : Bytes) (entries : List (Bytes × Bytes)) (s : Registered T Atom EnumType)
      (name : Atom) (info : TableMetaInfo Atom EnumType)
      (chains : List (TableMetaInfo Atom EnumType))
      → o.name_of k ≡ some name
      → o.info_of v ≡ some info
      → build_fork_chain fuel (insert name info s.all_tables) name ≡ finished chains
      → register_all o fuel ((k, v) ∷ entries) s
        ≡ register_all o fuel entries (
            let s' = register o name info s in
            record s' { tasks = s'.tasks ++ ((name, chains) ∷ []) })
  unfolding register_all
  register_all-next fuel k v entries s name info chains e f g = rw (e, f, g, register_all) refl

  register_all-stops :
      (fuel : ℕ) (k v : Bytes) (entries : List (Bytes × Bytes)) (s : Registered T Atom EnumType)
      (name : Atom) (info : TableMetaInfo Atom EnumType)
      → o.name_of k ≡ some name
      → o.info_of v ≡ some info
      → build_fork_chain fuel (insert name info s.all_tables) name ≡ panicked
      → register_all o fuel ((k, v) ∷ entries) s ≡ panicked
  unfolding register_all
  register_all-stops fuel k v entries s name info e f g = rw (e, f, g, register_all) refl

  parent_or_not :
      (tables : Tables Atom EnumType) (info : TableMetaInfo Atom EnumType)
      → HasParent tables info ⊎ ((p : Atom) × (info.parent ≡ some p) × (lookup p tables ≡ none))
  parent_or_not tables info = elim (Option-cases info.parent) [
    | inl e ↦ inl (λ p f. absurd (ground arith))
    | inr (p, e) ↦ elim (Option-cases (lookup p tables)) [
      | inl gone ↦ inr (p, e, gone)
      | inr (u, there) ↦ inl (λ q f. ground arith)
    ]
  ]

  -- Let the entries of `tabs_meta` be those of a list of tables, no name standing twice or being
  -- registered before, and no table being its own parent. If every table comes after its parent, the
  -- start registers all of them, in their order: in `ALL_TABLES`, in the library's map with their
  -- types and a new cell each, which is not opened, and among the tasks that load them. Otherwise it
  -- panics. The fuel of the chains is above the number of tables.
  pub register_all-decides :
      (fuel m : ℕ) (entries : List (Bytes × Bytes)) (l : List (Atom × TableMetaInfo Atom EnumType))
      (s : Registered T Atom EnumType)
      → Decodes o entries l
      → IsFresh s.all_tables l
      → IsRanked s.all_tables m
      → m + length l ≤ fuel
      → (ParentsFirst s.all_tables l
          × ((s' : Registered T Atom EnumType) × (register_all o fuel entries s ≡ finished s')
              × IsRegistered o l s s'))
        ⊎ ((ParentsFirst s.all_tables l → ⊥) × (register_all o fuel entries s ≡ panicked))
  unfolding register_all
  register_all-decides fuel m [] [] s d n h r = inl (
    tt,
    (
      s,
      refl,
      record {
        tables = refl;
        map = refl;
        cells = sym (append-nil s.cells);
        tasks = sym (append-nil (names s.tasks));
      },
    ),
  )
  register_all-decides fuel m [] (x ∷ l) s d n h r = absurd d
  register_all-decides fuel m (x ∷ entries) [] s d n h r = absurd d
  register_all-decides fuel m ((k, v) ∷ entries) ((name, info) ∷ l) s (e, f, d) (new, self, n) h r =
      elim (parent_or_not s.all_tables info) [
        | inr (p, q, gone) ↦ inr (
          λ first. first.0 p q gone,
          register_all-stops fuel k v entries s name info e f (
              build_fork_chain-panics fuel s.all_tables name p info q self gone (omega (arith, r))),
        )
        | inl p ↦
            let (chains, run) =
              build_fork_chain-registered fuel m s.all_tables name info h new p
                (omega (arith, r)) in
            let s1 = register o name info s in
            let s2 = record s1 { tasks = s1.tasks ++ ((name, chains) ∷ []) } in
            let step = register_all-next fuel k v entries s name info chains e f run in
            elim (register_all-decides fuel (suc m) entries l s2 d n
              (IsRanked-insert s.all_tables m name info h new p) (omega (arith, r))) [
                | inl (first, (s', done, all)) ↦ inl (
                  (p, first),
                  (s', step ∙ done, IsRegistered-first o name info chains l s s' all),
                )
                | inr (not_first, stop) ↦ inr (λ first. not_first first.1, step ∙ stop)
              ]
      ]
