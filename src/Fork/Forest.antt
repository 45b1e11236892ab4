-- ===== src/Fork/Forest.antt =====
-- The forest of the tables of src/fork.rs with their counts: what a new table and a fork do to it.
use pi_db.Base.{
  if◌then◌else◌, Option-cases, Eq, ◌==◌, nat_eq, list_eq, pair_eq, length, ℕ, suc, ◌+◌, ◌<◌, ◌≡◌,
  refl, ◌≢◌, inl, inr, false, none, some, arith,
}
use pi_db.Data.{TabMeta}
use pi_db.HashMap.{lookup, insert}
use pi_db.HashMap.Laws.{Distinct, lookup-insert, Distinct-insert}
use pi_db.Fork.{TableMetaInfo, Tables, new_info, inc_refcount, count_fork, usize_mod}
use pi_db.Fork.Children.{is_child, children, children-insert, children-none, children-length}

module _ {Atom EnumType : Type 0} ⦃ea : Eq Atom⦄ where
  -- Every parent is there, no table is its own ancestor (a table's rank is above its parent's), and
  -- the count of a table is the number of its forks.
  pub record IsForest (tables : Tables Atom EnumType) : Type 0 where
    pub rank : Atom → ℕ
    pub distinct : Distinct tables
    pub counted :
        (p : Atom) (t : TableMetaInfo Atom EnumType)
        → lookup p tables ≡ some t
        → t.ref_count ≡ children p tables
    pub present :
        (c p : Atom) (t : TableMetaInfo Atom EnumType)
        → lookup c tables ≡ some t
        → t.parent ≡ some p
        → lookup p tables ≢ none
    pub ranked :
        (c p : Atom) (t : TableMetaInfo Atom EnumType)
        → lookup c tables ≡ some t
        → t.parent ≡ some p
        → rank p < rank c

  -- nothing stands on a table that is not there
  children-absent :
      (tables : Tables Atom EnumType) (p : Atom)
      → IsForest tables
      → lookup p tables ≡ none
      → children p tables ≡ 0
  children-absent tables p h n = children-none p tables h.distinct (λ c t q.
      elim (Option-cases t.parent) [
        | inl e ↦ rw e refl
        | inr (o, e) ↦ rw e (ground (arith, h.present c o t q e, ea.beq_iff o p))
      ])

  -- a new table without a parent
  pub create-IsForest :
      (tables : Tables Atom EnumType) (name : Atom) (m : TabMeta EnumType)
      → IsForest tables
      → lookup name tables ≡ none
      → IsForest (insert name (new_info name m) tables)
  create-IsForest tables name m h n = record {
    rank = h.rank;
    distinct = Distinct-insert name (new_info name m) tables h.distinct;
    counted = λ p t q. ground (
      arith,
      lookup-insert name p (new_info name m) tables,
      children-insert p name (new_info name m) tables,
      children-absent tables p h,
      ea.beq_iff name p,
      h.counted p t,
    );
    present = λ c p t q e. ground (
      arith,
      lookup-insert name c (new_info name m) tables,
      lookup-insert name p (new_info name m) tables,
      h.present c p t,
    );
    ranked =
        λ c p t q e. ground (arith, lookup-insert name c (new_info name m) tables, h.ranked c p t);
  }

  -- an entry whose parent stays the same
  pub children-replace :
      (p k : Atom) (t u : TableMetaInfo Atom EnumType) (tables : Tables Atom EnumType)
      → lookup k tables ≡ some t
      → u.parent ≡ t.parent
      → children p (insert k u tables) ≡ children p tables
  children-replace p k t u tables h e =
      let counts = children-insert p k u tables in
      let same : is_child p (some u) ≡ is_child p (lookup k tables) = rw (h, e) refl in omega arith

  pub fork-IsForest :
      (tables : Tables Atom EnumType) (name fork : Atom)
      (tmi parent_info : TableMetaInfo Atom EnumType)
      → IsForest tables
      → length tables + 1 < usize_mod
      → lookup fork tables ≡ none
      → lookup name tables ≡ some parent_info
      → tmi.parent ≡ some name
      → tmi.ref_count ≡ 0
      → IsForest (count_fork name (insert fork tmi tables))
  fork-IsForest tables name fork tmi v h small fresh found e z =
      let apart : (fork == name) ≡ false = ground (arith, ea.beq_iff fork name) in
      let tables1 = insert fork tmi tables in
      let found1 : lookup name tables1 ≡ some v =
        ground (arith, lookup-insert fork name tmi tables) in
      let looks : (p : Atom)
          → lookup p (insert name (inc_refcount v) tables1) ≡ (
              if name == p
              then some (inc_refcount v)
              else if fork == p
              then some tmi
              else lookup p tables) =
        λ p.
          ground (
            arith,
            lookup-insert name p (inc_refcount v) tables1,
            lookup-insert fork p tmi tables,
          ) in
      let counts : (p : Atom)
          → children p (insert name (inc_refcount v) tables1)
            ≡ children p tables + (if name == p then 1 else 0) =
        λ p. ground (
          arith,
          children-replace p name v (inc_refcount v) tables1 found1 refl,
          children-insert p fork tmi tables,
        ) in
      rw (found1, count_fork)
        (record {
          rank = λ x. if x == fork then suc (h.rank name) else h.rank x;
          distinct =
              Distinct-insert name (inc_refcount v) tables1
                (Distinct-insert fork tmi tables h.distinct);
          counted = λ p t q. ground (
            arith,
            looks p,
            counts p,
            h.counted p t,
            h.counted p v,
            children-absent tables p h,
            children-length p tables,
            ea.beq_iff name p,
            ea.beq_iff fork p,
          );
          present = λ c p t q k. ground (
            arith,
            looks c,
            looks p,
            h.present c p t,
            h.present c p v,
            ea.beq_iff name c,
            ea.beq_iff name p,
          );
          ranked = λ c p t q k. ground (
            arith,
            looks c,
            h.ranked c p t,
            h.ranked c p v,
            h.present c p t,
            h.present c p v,
            ea.beq_iff name c,
            ea.beq_iff fork c,
            ea.beq_iff c fork,
            ea.beq_iff p fork,
            ea.beq_iff fork name,
          );
        })
