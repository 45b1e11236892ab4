-- ===== src/Fork/Children.antt =====
-- How many tables of src/fork.rs have a table as their parent.
use pi_db.Base.{
  if◌then◌else◌, Bool-cases, Eq, ◌==◌, nat_eq, list_eq, pair_eq, length, ℕ, ◌+◌, ◌≤◌, ◌≡◌, refl,
  inl, inr, Option, none, some, [], ◌∷◌, arith,
}
use pi_db.HashMap.{lookup, insert, remove}
use pi_db.HashMap.Laws.{Distinct}
use pi_db.Fork.{TableMetaInfo, Tables}

module _ {Atom EnumType : Type 0} ⦃ea : Eq Atom⦄ where
  -- 1 if the entry is a fork of `p`
  abbrev pub is_child : Atom → Option (TableMetaInfo Atom EnumType) → ℕ
  is_child p none = 0
  is_child p (some t) = elim t.parent [ none ↦ 0 | some q ↦ if q == p then 1 else 0 ]

  unfoldable pub children : Atom → Tables Atom EnumType → ℕ
  children p [] = 0
  children p ((_, t) ∷ rest) = is_child p (some t) + children p rest

  pub children-insert :
      (p k : Atom) (t : TableMetaInfo Atom EnumType) (tables : Tables Atom EnumType)
      → children p (insert k t tables) + is_child p (lookup k tables)
        ≡ children p tables + is_child p (some t)
  unfolding children lookup insert
  children-insert p k t [] = ground arith
  children-insert p k t ((j, u) ∷ rest) = elim (Bool-cases (j == k)) [
    | inl e ↦ rw (e) (ground arith)
    | inr e ↦ rw (e) (let ih = children-insert p k t rest in omega arith)
  ]

  pub children-remove :
      (p k : Atom) (tables : Tables Atom EnumType)
      → Distinct tables
      → children p (remove k tables) + is_child p (lookup k tables) ≡ children p tables
  unfolding children lookup remove
  children-remove p k [] d = refl
  children-remove p k ((j, u) ∷ rest) d =
      let same = ea.beq_iff j k in ground (arith, children-remove p k rest d.1, same)

  pub children-pos :
      (p k : Atom) (t : TableMetaInfo Atom EnumType) (tables : Tables Atom EnumType)
      → lookup k tables ≡ some t
      → is_child p (some t) ≤ children p tables
  unfolding children lookup
  children-pos p k t [] h = ground arith
  children-pos p k t ((j, u) ∷ rest) h = ground (arith, children-pos p k t rest)

  pub children-none :
      (p : Atom) (tables : Tables Atom EnumType)
      → Distinct tables
      → ((c : Atom) (t : TableMetaInfo Atom EnumType)
          → lookup c tables ≡ some t
          → is_child p (some t) ≡ 0)
      → children p tables ≡ 0
  unfolding children lookup
  children-none p [] d h = refl
  children-none p ((j, u) ∷ rest) d h =
      let head : is_child p (some u) ≡ 0 = h j u (ground (arith, ea.beq_iff j j)) in
      let tail = children-none p rest d.1 (λ c t q. h c t (ground (arith, ea.beq_iff j c, d.0))) in
      ground arith

  pub children-length :
      (p : Atom) (tables : Tables Atom EnumType) → children p tables ≤ length tables
  unfolding children
  children-length p [] = ground arith
  children-length p ((j, u) ∷ rest) = ground (arith, children-length p rest)
