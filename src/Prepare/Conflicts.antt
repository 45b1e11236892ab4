-- ===== src/Prepare/Conflicts.antt =====
-- The conflicts that `try_prepare` of src/tabs.rs finds.
use pi_db.HashMap.Laws.{lookup-remove}
use pi_db.HashMap.{remove, lookup, HashMap}
use pi_db.Base.{
  if◌then◌else◌, refl, inr, inl, ◌||◌, Bool-cases, ◌==◌, ◌∷◌, [], false, Bool, List, list_eq,
  nat_eq, ℕ, ◌+◌, ◌≤◌, ◌<◌, Option, none, some, true, Eq, ◌≡◌, ◌⊎◌, ◌↔◌, arith,
}
use pi_db.Data.{Bytes, ok, RwLog, read, write, meta}
use pi_db.Prepare.{Prepare, lifetime, u64_mod, is_overdue, check_log, scan, remove_all, try_prepare}

-- Two logs of one key agree if the key is new, or both only read it.
check_log_iff :
    (o : Option RwLog) (l : RwLog)
    → (check_log o l ≡ ok tt) ↔ ((o ≡ none) ⊎ ((o ≡ some read) × (l ≡ read)))
unfolding check_log
check_log_iff none l = ground arith
check_log_iff (some read) read = ground arith
check_log_iff (some read) (write v) = ground arith
check_log_iff (some read) (meta v) = ground arith
check_log_iff (some (write w)) read = ground arith
check_log_iff (some (write w)) (write v) = ground arith
check_log_iff (some (write w)) (meta v) = ground arith
check_log_iff (some (meta w)) l = ground arith

-- A transaction started in the past is overdue exactly when more than a minute has gone by.
is_overdue_iff :
    (now time : ℕ)
    → time ≤ now
    → now < u64_mod
    → (is_overdue now time ≡ true) ↔ (time + lifetime < now)
unfolding is_overdue
is_overdue_iff now time p q = ground arith

module _ {G : Type 0} ⦃eg : Eq G⦄ (time : G → ℕ) where
  -- The log that decides: that of the first transaction which is not overdue.
  pub first_live : ℕ → Prepare G → Option (HashMap Bytes RwLog)
  first_live now [] = none
  first_live now ((guid, o) ∷ rest) =
      if is_overdue now (time guid) then first_live now rest else some o

  abbrev ids : Prepare G → List G → List G
  ids [] out = out
  ids ((guid, o) ∷ rest) out = ids rest (guid ∷ out)

  scan_lem :
      (now : ℕ) (k : Bytes) (l : RwLog) (out : List G) (p : Prepare G) (o : HashMap Bytes RwLog)
      → first_live now p ≡ some o
      → (scan time now k l out p).0 ≡ some (check_log (lookup k o) l)
  unfolding scan first_live
  scan_lem now k l out [] o h = cc
  scan_lem now k l out ((guid, q) ∷ rest) o h = elim (Bool-cases (is_overdue now (time guid))) [
    | inl t ↦ rw t (scan_lem now k l (guid ∷ out) rest o (rw t at h))
    | inr f ↦ rw f (ground (arith))
  ]

  scan-none :
      (now : ℕ) (k : Bytes) (l : RwLog) (out : List G) (p : Prepare G)
      → first_live now p ≡ none
      → scan time now k l out p ≡ (none, ids p out)
  unfolding scan first_live
  scan-none now k l out [] h = refl
  scan-none now k l out ((guid, q) ∷ rest) h = elim (Bool-cases (is_overdue now (time guid))) [
    | inl t ↦ rw t (scan-none now k l (guid ∷ out) rest (rw t at h))
    | inr f ↦ ground arith
  ]

  among : G → List G → Bool
  among j [] = false
  among j (g ∷ gs) = g == j || among j gs

  among-ids_out :
      (j : G) (p : Prepare G) (out : List G) → among j out ≡ true → among j (ids p out) ≡ true
  unfolding among
  among-ids_out j [] out h = h
  among-ids_out j ((guid, o) ∷ rest) out h = among-ids_out j rest (guid ∷ out) (ground arith)

  among-ids :
      (j : G) (p : Prepare G) (out : List G) → among j (ids p out) ≡ false → lookup j p ≡ none
  unfolding among lookup
  among-ids j [] out h = refl
  among-ids j ((guid, o) ∷ rest) out h =
      ground (arith, among-ids j rest (guid ∷ out), among-ids_out j rest (guid ∷ out))

  lookup-remove_all :
      (gs : List G) (p : Prepare G) (j : G)
      → lookup j (remove_all time gs p) ≡ (if among j gs then none else lookup j p)
  unfolding among remove_all
  lookup-remove_all [] p j = refl
  lookup-remove_all (g ∷ gs) p j =
      ground (arith, lookup-remove_all gs (remove g p) j, lookup-remove g j p)

  -- A log is tested against the first transaction that is not overdue, and against no other: the
  -- result is `Ok` exactly when that one has no log of the key, or both only read it, and nothing is
  -- removed. If every transaction is overdue, the result is `Ok` and all of them are removed.
  pub try_prepare_decides :
      (now : ℕ) (p : Prepare G) (k : Bytes) (l : RwLog)
      → ((o : HashMap Bytes RwLog)
          → first_live now p ≡ some o
          → ((try_prepare time now p k l).1 ≡ p)
            × (((try_prepare time now p k l).0 ≡ ok tt)
                ↔ ((lookup k o ≡ none) ⊎ ((lookup k o ≡ some read) × (l ≡ read)))))
        × (first_live now p ≡ none
            → ((try_prepare time now p k l).0 ≡ ok tt)
              × ((j : G) → lookup j (try_prepare time now p k l).1 ≡ none))
  unfolding try_prepare
  try_prepare_decides now p k l = (
    λ o h. ground (arith, scan_lem now k l [] p o h, check_log_iff (lookup k o) l),
    λ h.
        rw (scan-none now k l [] p h, try_prepare)
          (refl, λ j. ground (arith, lookup-remove_all (ids p []) p j, among-ids j p [])),
  )
