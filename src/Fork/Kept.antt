-- ===== src/Fork/Kept.antt =====
-- The forest of the tables of src/fork.rs: what the deletion of a table does to it.
use pi_db.Base.{
  if◌then◌else◌, Eq, ◌==◌, nat_eq, list_eq, pair_eq, length, ◌+◌, ◌≤◌, ◌<◌, ◌≡◌, refl, ◌≢◌, none,
  some, [], ◌∷◌, arith,
}
use pi_db.HashMap.{HashMap, lookup, insert, remove}
use pi_db.HashMap.Laws.{lookup-insert, lookup-remove, Distinct-insert, Distinct-remove}
use pi_db.Fork.{TableMetaInfo, Tables, dec_refcount, usize_mod}
use pi_db.Fork.Children.{is_child, children, children-remove, children-pos, children-length}
use pi_db.Fork.Forest.{IsForest, children-replace}

module _ {K V : Type 0} ⦃e : Eq K⦄ where
  pub length-insert : (k : K) (v : V) (m : HashMap K V) → length (insert k v m) ≤ length m + 1
  unfolding insert
  length-insert k v [] = ground arith
  length-insert k v ((j, w) ∷ m) = ground (arith, length-insert k v m)

  pub length-insert_old :
      (k : K) (v w : V) (m : HashMap K V) → lookup k m ≡ some w → length (insert k v m) ≡ length m
  unfolding insert lookup
  length-insert_old k v w [] h = ground arith
  length-insert_old k v w ((j, u) ∷ m) h = ground (arith, length-insert_old k v w m)

  pub length-remove : (k : K) (m : HashMap K V) → length (remove k m) ≤ length m
  unfolding remove
  length-remove k [] = ground arith
  length-remove k ((j, w) ∷ m) = ground (arith, length-remove k m)

module _ {Atom EnumType : Type 0} ⦃ea : Eq Atom⦄ where
  -- nothing has a table without forks as its parent
  no_child :
      (tables : Tables Atom EnumType) (name c : Atom) (t : TableMetaInfo Atom EnumType)
      → children name tables ≡ 0
      → lookup c tables ≡ some t
      → t.parent ≢ some name
  no_child tables name c t z h e =
      let one = children-pos name c t tables h in
      let is : is_child name (some t) ≡ 1 = rw e (ground (arith, ea.beq_iff name name)) in
      ground arith

  -- a table without forks and without a parent is taken away
  pub remove-IsForest :
      (tables : Tables Atom EnumType) (name : Atom) (tab : TableMetaInfo Atom EnumType)
      → IsForest tables
      → lookup name tables ≡ some tab
      → tab.ref_count ≡ 0
      → tab.parent ≡ none
      → IsForest (remove name tables)
  remove-IsForest tables name tab h found z orphan =
      let zero_children : children name tables ≡ 0 = ground (arith, h.counted name tab) in
      let looks = λ (p : Atom). lookup-remove name p tables in
      record {
        rank = h.rank;
        distinct = Distinct-remove name tables h.distinct;
        counted = λ p t q.
            ground (arith, looks p, h.counted p t, children-remove p name tables h.distinct);
        present = λ c p t q e.
            ground (
              arith,
              looks c,
              looks p,
              h.present c p t,
              no_child tables name c t,
              ea.beq_iff name p,
            );
        ranked = λ c p t q e. ground (arith, looks c, h.ranked c p t);
      }

  -- a fork without forks is taken away, and its parent counts one less
  pub release-IsForest :
      (tables : Tables Atom EnumType) (name parent : Atom) (tab v : TableMetaInfo Atom EnumType)
      → IsForest tables
      → length tables < usize_mod
      → lookup name tables ≡ some tab
      → tab.ref_count ≡ 0
      → tab.parent ≡ some parent
      → lookup parent (remove name tables) ≡ some v
      → IsForest (insert parent (dec_refcount v) (remove name tables))
  release-IsForest tables name parent tab v h small found z e held =
      let zero_children : children name tables ≡ 0 = ground (arith, h.counted name tab) in
      let held_before : lookup parent tables ≡ some v =
        ground (arith, lookup-remove name parent tables) in
      let looks : (p : Atom)
          → lookup p (insert parent (dec_refcount v) (remove name tables)) ≡ (
              if parent == p
              then some (dec_refcount v)
              else if name == p
              then none
              else lookup p tables) =
        λ p. ground (
          arith,
          lookup-insert parent p (dec_refcount v) (remove name tables),
          lookup-remove name p tables,
        ) in
      let counts : (p : Atom)
          → children p (insert parent (dec_refcount v) (remove name tables))
              + (if parent == p then 1 else 0)
            ≡ children p tables =
        λ p. ground (
          arith,
          children-replace p parent v (dec_refcount v) (remove name tables) held refl,
          children-remove p name tables h.distinct,
        ) in
      record {
        rank = h.rank;
        distinct =
            Distinct-insert parent (dec_refcount v) (remove name tables)
              (Distinct-remove name tables h.distinct);
        counted = λ p t q. ground (
          arith,
          looks p,
          counts p,
          h.counted p t,
          h.counted p v,
          children-length p tables,
          ea.beq_iff parent p,
        );
        present = λ c p t q k. ground (
          arith,
          looks c,
          looks p,
          h.present c p t,
          h.present c p v,
          no_child tables name c t,
          no_child tables name c v,
          ea.beq_iff parent c,
          ea.beq_iff name p,
        );
        ranked = λ c p t q k.
            ground (arith, looks c, h.ranked c p t, h.ranked c p v, ea.beq_iff parent c);
      }
