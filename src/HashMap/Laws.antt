-- ===== src/HashMap/Laws.antt =====
-- Laws of the maps of HashMap.antt.

use pi_db.Base.{
  none, some, [], ◌∷◌, Eq, ◌==◌, ==-refl, Bool-cases, inl, inr, if◌then◌else◌, ◌≡◌, refl, arith,
}
use pi_db.HashMap.{HashMap, lookup, insert, remove}

-- No key stands twice.
abbrev pub Distinct : {K V : Type 0} ⦃e : Eq K⦄ → HashMap K V → Type 0
Distinct [] = Unit
Distinct ((k, v) ∷ m) = (lookup k m ≡ none) × Distinct m

module _ {K V : Type 0} ⦃e : Eq K⦄ where
  pub lookup-insert :
      (key asked : K) (value : V) (m : HashMap K V)
      → lookup asked (insert key value m) ≡ (if key == asked then some value else lookup asked m)
  unfolding lookup insert
  lookup-insert key asked value [] = refl
  lookup-insert key asked value ((i, w) ∷ rest) = ground (
    arith,
    lookup-insert key asked value rest,
    e.beq_iff i key,
    e.beq_iff i asked,
    e.beq_iff key asked,
  )

  pub lookup-remove :
      (k j : K) (m : HashMap K V) → lookup j (remove k m) ≡ (if k == j then none else lookup j m)
  unfolding lookup remove
  lookup-remove k j [] = ground arith
  lookup-remove k j ((i, w) ∷ m) =
      ground (arith, e.beq_iff k j, e.beq_iff i k, e.beq_iff i j, lookup-remove k j m)

  pub Distinct-insert : (k : K) (v : V) (m : HashMap K V) → Distinct m → Distinct (insert k v m)
  unfolding insert lookup
  Distinct-insert k v [] d = (refl, tt)
  Distinct-insert k v ((i, w) ∷ m) d = elim (Bool-cases (i == k)) [
    | inl t ↦ rw t d
    | inr f ↦ rw f (
      ground (arith, lookup-insert k i v m, e.beq_iff k i, e.beq_iff i k),
      Distinct-insert k v m d.1,
    )
  ]

  pub Distinct-remove : (k : K) (m : HashMap K V) → Distinct m → Distinct (remove k m)
  unfolding remove lookup
  Distinct-remove k [] d = tt
  Distinct-remove k ((i, w) ∷ m) d = elim (Bool-cases (i == k)) [
    | inl t ↦ rw t (Distinct-remove k m d.1)
    | inr f ↦ rw f (ground (arith, lookup-remove k i m), Distinct-remove k m d.1)
  ]

  pub lookup-insert_self : (k : K) (v : V) (m : HashMap K V) → lookup k (insert k v m) ≡ some v
  lookup-insert_self k v m = simp (lookup-insert, ==-refl)
