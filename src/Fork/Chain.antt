-- ===== src/Fork/Chain.antt =====
-- The chain from a table to its root (`build_fork_chain` of src/fork.rs).
use pi_db.Base.{
  Option-cases, Eq, nat_eq, list_eq, pair_eq, length, ℕ, zero, suc, ◌+◌, ◌≤◌, ◌<◌, ◌≡◌, refl, sym,
  ap, ◌∙◌, ◌≢◌, inl, inr, none, some, List, [], ◌∷◌, arith,
}
use pi_db.HashMap.{lookup}
use pi_db.Fork.{TableMetaInfo, Tables, finished, follow, build_fork_chain}
use pi_db.Fork.Forest.{IsForest}

module _ {Atom EnumType : Type 0} ⦃ea : Eq Atom⦄ where
  -- the list starts with the table, each table is followed by its parent, and the last has none
  abbrev pub IsChain :
      Tables Atom EnumType
      → TableMetaInfo Atom EnumType
      → List (TableMetaInfo Atom EnumType)
      → Type 0
  IsChain tables info [] = info ≢ info
  IsChain tables info (t ∷ []) = (t ≡ info) × (info.parent ≡ none)
  IsChain tables info (t ∷ u ∷ rest) =
      (t ≡ info)
      × ((p : Atom) × (info.parent ≡ some p) × (lookup p tables ≡ some u))
      × IsChain tables u (u ∷ rest)

  IsChain-cons :
      (tables : Tables Atom EnumType) (info u : TableMetaInfo Atom EnumType) (p : Atom)
      (l : List (TableMetaInfo Atom EnumType))
      → info.parent ≡ some p
      → lookup p tables ≡ some u
      → IsChain tables u l
      → IsChain tables info (info ∷ l)
  IsChain-cons tables info u p [] e f h = absurd (h refl)
  IsChain-cons tables info u p (t ∷ []) e f h =
      (refl, (p, e, f ∙ ap some (sym h.0)), (refl, ap (λ x. x.parent) h.0 ∙ h.1))
  IsChain-cons tables info u p (t ∷ w ∷ rest) e f (h0, (q, h1, h2), h3) =
      (refl, (p, e, f ∙ ap some (sym h0)), (refl, (q, ap (λ x. x.parent) h0 ∙ h1, h2), h3))

  follow_lem :
      (n : ℕ) (tables : Tables Atom EnumType) (name : Atom) (info : TableMetaInfo Atom EnumType)
      (h : IsForest tables)
      → lookup name tables ≡ some info
      → h.rank name < n
      → (l : List (TableMetaInfo Atom EnumType)) × (follow n tables info ≡ finished l)
        × IsChain tables info l
        × (length l ≤ h.rank name + 1)
  unfolding follow
  follow_lem zero tables name info h found r = absurd (omega arith)
  follow_lem (suc n) tables name info h found r = elim (Option-cases info.parent) [
    | inl e ↦ (info ∷ [], ground arith, (refl, e), ground arith)
    | inr (p, e) ↦ elim (Option-cases (lookup p tables)) [
      | inl gone ↦ absurd (h.present name p info found e gone)
      | inr (u, there) ↦
          let lower = h.ranked name p info found e in
          let (l, run, chain, short) = follow_lem n tables p u h there (omega arith) in
          (
            info ∷ l,
            ground (arith, run),
            IsChain-cons tables info u p l e there chain,
            ground arith,
          )
    ]
  ]

  -- With fuel above a table's rank in the forest, `build_fork_chain` ends without a panic, and gives
  -- the chain of the table, its parent, and so on to a table without a parent, or the empty list for
  -- a table that is not there.
  pub build_fork_chain-IsChain :
      (n : ℕ) (tables : Tables Atom EnumType) (name : Atom) (h : IsForest tables)
      → h.rank name < n
      → (lookup name tables ≡ none → build_fork_chain n tables name ≡ finished [])
        × ((info : TableMetaInfo Atom EnumType)
            → lookup name tables ≡ some info
            → (l : List (TableMetaInfo Atom EnumType)) × (build_fork_chain n tables name
                ≡ finished l)
              × IsChain tables info l
              × (length l ≤ h.rank name + 1))
  unfolding build_fork_chain
  build_fork_chain-IsChain n tables name h r = (
    λ gone. rw (gone, build_fork_chain) refl,
    λ info found. rw (found, build_fork_chain) (follow_lem n tables name info h found r),
  )
