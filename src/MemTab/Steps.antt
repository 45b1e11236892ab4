-- ===== src/MemTab/Steps.antt =====
-- `MemeryTxn::commit_inner` of src/memery_db.rs as it runs: it takes the table's lock anew for each
-- of its parts, and between two of them another task may take the lock. One step is one lock.
use pi_db.Snapshot.{commit_root, apply_log}
use pi_db.OrdMap.{OrdMap}
use pi_db.Base.{
  if◌then◌else◌, Bool-cases, Eq, nat_eq, list_eq, pair_eq, length, ℕ, zero, suc, ◌≡◌, refl, inl,
  inr, Bool, true, false, not, none, some, [], ◌∷◌,
}
use pi_db.Data.{Bytes, Bin, SResult, RwLog, error_prepare_null, ok, err, read, write, meta}
use pi_db.HashMap.{HashMap, lookup, remove}
use pi_db.MemTab.{commit_count, sum, MemeryTab, MemeryTxn, commit_inner}

-- Where a commit stands, with the log that it has taken from the table.
pub data Phase : Type 0 where
  start : Phase
  -- the log is taken, the roots are not compared yet
  taken : HashMap Bytes RwLog → Phase
  -- the roots differ: entries to apply, and the whole log
  replaying : HashMap Bytes RwLog → HashMap Bytes RwLog → Phase
  -- the roots are equal: the transaction's tree is to replace the table's
  replacing : HashMap Bytes RwLog → Phase
  -- `commit_count.sum(1)` is left
  counting : HashMap Bytes RwLog → Phase
  finished : SResult (HashMap Bytes RwLog) → Phase

module _ {G M Atom : Type 0} ⦃eg : Eq G⦄ (time : G → ℕ) {same : Bytes → Bytes → Bool}
    (om : OrdMap same Bin M) where
  unfoldable pub commit_step :
      MemeryTxn G M → Phase → MemeryTab G M Atom → Phase × MemeryTab G M Atom
  unfolding apply_log remove lookup
  commit_step txn start tab =
      let tab' = record tab { prepare = remove txn.id tab.prepare } in
      elim (lookup txn.id tab.prepare) [
        | none ↦ (finished (err error_prepare_null), tab')
        | some rwlog ↦ (taken rwlog, tab')
      ]
  commit_step txn (taken rwlog) tab =
      (if not (om.ptr_eq tab.root txn.old) then replaying rwlog rwlog else replacing rwlog, tab)
  commit_step txn (replaying [] rwlog) tab = (counting rwlog, tab)
  commit_step txn (replaying (e ∷ rest) rwlog) tab =
      (replaying rest rwlog, record tab { root = apply_log om (e ∷ []) tab.root })
  commit_step txn (replacing rwlog) tab = (counting rwlog, record tab { root = txn.root })
  commit_step txn (counting rwlog) tab = (finished (ok rwlog), sum (commit_count 1) tab)
  commit_step txn (finished r) tab = (finished r, tab)

  -- `n` steps with no other task between them
  unfoldable pub run_commit :
      ℕ → MemeryTxn G M → Phase × MemeryTab G M Atom → Phase × MemeryTab G M Atom
  run_commit zero txn s = s
  run_commit (suc n) txn (phase, tab) = run_commit n txn (commit_step txn phase tab)

  run_finished :
      (n : ℕ) (txn : MemeryTxn G M) (r : SResult (HashMap Bytes RwLog)) (tab : MemeryTab G M Atom)
      → run_commit n txn (finished r, tab) ≡ (finished r, tab)
  unfolding run_commit commit_step
  run_finished zero txn r tab = refl
  run_finished (suc n) txn r tab = run_finished n txn r tab

  run_replaying :
      (rest log : HashMap Bytes RwLog) (txn : MemeryTxn G M) (tab : MemeryTab G M Atom)
      → run_commit (suc (suc (length rest))) txn (replaying rest log, tab) ≡ (
        finished (ok log),
        sum (commit_count 1) (record tab { root = apply_log om rest tab.root }),
      )
  unfolding run_commit commit_step apply_log
  run_replaying [] log txn tab = refl
  run_replaying ((k, read) ∷ rest) log txn tab = run_replaying rest log txn tab
  run_replaying ((k, meta _) ∷ rest) log txn tab = run_replaying rest log txn tab
  run_replaying ((k, write none) ∷ rest) log txn tab =
      run_replaying rest log txn (record tab { root = om.delete tab.root k })
  run_replaying ((k, write (some v)) ∷ rest) log txn tab =
      run_replaying rest log txn (record tab { root = om.upsert tab.root k v })

  run_suc :
      (n : ℕ) (txn : MemeryTxn G M) (p : Phase) (tab : MemeryTab G M Atom)
      → run_commit (suc n) txn (p, tab) ≡ run_commit n txn (commit_step txn p tab)
  unfolding run_commit
  run_suc n txn p tab = refl

  pub step_start :
      (txn : MemeryTxn G M) (tab : MemeryTab G M Atom) (log : HashMap Bytes RwLog)
      → lookup txn.id tab.prepare ≡ some log
      → commit_step txn start tab ≡ (taken log, record tab { prepare = remove txn.id tab.prepare })
  unfolding commit_step
  step_start txn tab log h = rw (h, commit_step) refl

  pub step_taken-same :
      (txn : MemeryTxn G M) (tab : MemeryTab G M Atom) (log : HashMap Bytes RwLog)
      → om.ptr_eq tab.root txn.old ≡ true
      → commit_step txn (taken log) tab ≡ (replacing log, tab)
  unfolding commit_step
  step_taken-same txn tab log h = rw h refl

  step_taken-differ :
      (txn : MemeryTxn G M) (tab : MemeryTab G M Atom) (log : HashMap Bytes RwLog)
      → om.ptr_eq tab.root txn.old ≡ false
      → commit_step txn (taken log) tab ≡ (replaying log log, tab)
  unfolding commit_step
  step_taken-differ txn tab log h = rw h refl

  run_replacing :
      (n : ℕ) (log : HashMap Bytes RwLog) (txn : MemeryTxn G M) (tab : MemeryTab G M Atom)
      → run_commit (suc (suc n)) txn (replacing log, tab)
        ≡ (finished (ok log), sum (commit_count 1) (record tab { root = txn.root }))
  unfolding run_commit commit_step
  run_replacing n log txn tab =
      run_finished n txn (ok log) (sum (commit_count 1) (record tab { root = txn.root }))

  run_taken :
      (log : HashMap Bytes RwLog) (txn : MemeryTxn G M) (tab : MemeryTab G M Atom)
      → run_commit (suc (suc (suc (length log)))) txn (taken log, tab) ≡ (
        finished (ok log),
        sum (commit_count 1) (record tab { root = commit_root om txn.root txn.old log tab.root }),
      )
  run_taken log txn tab = elim (Bool-cases (om.ptr_eq tab.root txn.old)) [
    | inl t ↦
        rw (run_suc (suc (suc (length log))) txn (taken log) tab, step_taken-same txn tab log t, t)
          (run_replacing (length log) log txn tab)
    | inr f ↦
        rw
          (run_suc (suc (suc (length log))) txn (taken log) tab, step_taken-differ txn tab log f, f)
          (run_replaying log log txn tab)
  ]

  commit_inner-prepared :
      (txn : MemeryTxn G M) (tab : MemeryTab G M Atom) (log : HashMap Bytes RwLog)
      → lookup txn.id tab.prepare ≡ some log
      → commit_inner time om txn tab ≡ (
        ok log,
        txn,
        sum (commit_count 1) (record tab {
          prepare = remove txn.id tab.prepare;
          root = commit_root om txn.root txn.old log tab.root;
        }),
      )
  unfolding commit_inner
  commit_inner-prepared txn tab log h = rw (h, commit_inner) refl

  -- A commit that no other task interrupts does, in as many steps as the log has entries and four
  -- more, what `commit_inner` does as a whole.
  pub run_commit-commit_inner :
      (txn : MemeryTxn G M) (tab : MemeryTab G M Atom) (log : HashMap Bytes RwLog)
      → lookup txn.id tab.prepare ≡ some log
      → run_commit (suc (suc (suc (suc (length log))))) txn (start, tab)
        ≡ (finished (commit_inner time om txn tab).0, (commit_inner time om txn tab).2)
  run_commit-commit_inner txn tab log h =
      rw
        (
          run_suc (suc (suc (suc (length log)))) txn start tab,
          step_start txn tab log h,
          commit_inner-prepared txn tab log h,
        )
        (run_taken log txn (record tab { prepare = remove txn.id tab.prepare }))
