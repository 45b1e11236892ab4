-- ===== src/Snapshot/Checked.antt =====
-- What a successful check of a log has established (`prepare_inner` of both kinds of table).
use pi_db.Snapshot.{check_keys, check_old, check_root}
use pi_db.OrdMap.{OrdMap}
use pi_db.Base.{
  Bool-cases, Eq, nat_eq, list_eqb_iff, list_eq, pair_eq, ℕ, ◌≡◌, refl, ap, inl, inr, Bool, true,
  false, Option, none, some, [], ◌∷◌, arith,
}
use pi_db.Data.{Bytes, Bin, RwLog, ok}
use pi_db.HashMap.{HashMap, lookup}
use pi_db.Prepare.{Prepare, try_prepare}

-- Between a table's tree and a snapshot, values that the test calls identical are equal.
abbrev pub Sound :
    {M : Type 0} {same : Bytes → Bytes → Bool}
    → OrdMap same Bin M
    → (M → M → Bytes → Bool)
    → M
    → M
    → Type 0
Sound om identical m n =
    (k : Bytes) (v w : Bin)
    → om.get m k ≡ some v
    → om.get n k ≡ some w
    → identical m n k ≡ true
    → v ≡ w

module _ {M : Type 0} {same : Bytes → Bytes → Bool} (om : OrdMap same Bin M) where
  check_old-same :
      (o p : Option Bin) (b : Bool)
      → ((v w : Bin) → o ≡ some v → p ≡ some w → b ≡ true → v ≡ w)
      → check_old o p b ≡ ok tt
      → o ≡ p
  check_old-same none none b s h = refl
  check_old-same none (some w) b s h = cc
  check_old-same (some v) none b s h = cc
  check_old-same (some v) (some w) true s h = ap some (s v w refl refl refl)
  check_old-same (some v) (some w) false s h = cc

  check_root-same :
      (identical : M → M → Bytes → Bool) (root old : M) (sound : Sound om identical root old)
      (k : Bytes)
      → check_root om identical root old k ≡ ok tt
      → om.get root k ≡ om.get old k
  check_root-same identical root old sound k h = elim (Bool-cases (om.ptr_eq root old)) [
    | inl t ↦ om.get_of_ptr_eq root old k t
    | inr f ↦
        check_old-same (om.get root k) (om.get old k) (identical root old k) (sound k) (rw f at h)
  ]

module _ {G M : Type 0} ⦃eg : Eq G⦄ (time : G → ℕ) {same : Bytes → Bytes → Bool}
    (om : OrdMap same Bin M) where
  -- Once a log has passed, the table holds, at each key of the log, what the snapshot holds.
  pub check_keys-same :
      (identical : M → M → Bytes → Bool) (now : ℕ) (root old : M)
      (sound : Sound om identical root old) (log : HashMap Bytes RwLog) (p : Prepare G) (k : Bytes)
      (l : RwLog)
      → (check_keys time om identical now root old log p).0 ≡ ok tt
      → lookup k log ≡ some l
      → om.get root k ≡ om.get old k
  unfolding check_keys lookup
  check_keys-same identical now root old sound [] p k l h e = cc
  check_keys-same identical now root old sound ((j, m) ∷ rest) p k l h e = ground (
    arith,
    list_eqb_iff j k,
    check_root-same om identical root old sound j,
    check_keys-same identical now root old sound rest (try_prepare time now p j m).1 k l,
  )
