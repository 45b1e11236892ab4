-- ===== src/Mgr/Endings.antt =====
-- How a rollback and a commit of a transaction over several tables end (`rollback` and `commit` of
-- `Tr` in src/mgr.rs).
use pi_db.Base.{
  ltb, nat_eqb, if◌then◌else◌, Bool-cases, Option-cases, Eq, nat_eq, list_eq, pair_eq, length, ℕ,
  zero, suc, ◌+◌, ◌-◌, ◌≤◌, ◌≡◌, refl, sym, ap, ◌∙◌, ◌≢◌, inl, inr, Bool, false, List, [], ◌∷◌,
  ◌++◌, map, arith,
}
use pi_db.Data.{
  TxState, ok, committing, commited, commit_fail, rollbacking, rollbacked, rollback_fail,
}
use pi_db.HashMap.{HashMap, lookup}
use pi_db.Mgr.{Verdict, failed, panicked, passed, Database, Tr}
use pi_db.Mgr.Phases.{
  asked, left, all_done, then_count_down, count_joined, each_ware, values, names, txn_count, settle,
  fork_commit_step, fork_rollback_step, commit_task, meta_commit_step, joined, commit_loops, commit,
  rollback_loops, rollback, go_on, commit_rest,
}
use pi_db.Mgr.Steps.{
  run_all, after, and_then, run_all-append, count_down-after, then_count_down-after,
}
use pi_db.Mgr.Outcomes.{
  WellKeyed, ware_steps, each_ware-verdict, finish, settle-finish, settle_left, length-values,
}

module _ {W X : Type 0} (task : X → W → Bool × W) where
  count_joined-length : (xs : List X) (w : W) → (count_joined task xs w).0 ≤ length xs
  unfolding count_joined
  count_joined-length [] w = ground arith
  count_joined-length (x ∷ xs) w = ground (arith, count_joined-length xs (task x w).1)

module _ {W : Type 0} where
  joined-after : (n m : ℕ) (w : W) → m ≤ n → (joined n m, w) ≡ after (passed, w) (n - m)
  joined-after n m w h = elim (Bool-cases (ltb m n)) [
    | inl t ↦ rw t (some_left (n - m) w (λ q. ground arith))
    | inr f ↦ rw f (none_left (n - m) w (ground arith))
  ]
    where
      some_left : (k : ℕ) (w : W) → k ≢ 0 → (left k, w) ≡ after (passed, w) k
      some_left zero w h = absurd (h refl)
      some_left (suc k) w h = refl

      none_left : (k : ℕ) (w : W) → k ≡ 0 → (all_done, w) ≡ after (passed, w) k
      none_left k w h = rw h refl

module _ {W Ware Txn Meta G Atom EnumType : Type 0} ⦃ea : Eq Atom⦄
    (db : Database W Ware Txn Meta G Atom EnumType) where
  abbrev pub rollback_tables : Tr Ware Txn Meta G Atom EnumType → List (W → Verdict × W)
  rollback_tables tr =
      (map (asked db.txn_rollback) (values tr.tab_txns)
        ++ map (asked db.meta_rollback) (values tr.meta_txns))
      ++ map (fork_rollback_step db) tr.fork_txns

  abbrev pub rollback_wares : Tr Ware Txn Meta G Atom EnumType → List (W → Verdict × W)
  rollback_wares tr =
      ware_steps (λ ware u. (ok tt, db.ware_rollback ware tr.id u)) tr.ware_log_map
        (names tr.meta_txns)

  rollback_loops-after :
      (tr : Tr Ware Txn Meta G Atom EnumType) (w : W)
      → txn_count tr ≢ 0
      → rollback_loops db tr w ≡ after (run_all (rollback_tables tr) w) 0
  rollback_loops-after tr w z =
      let a = length-values tr.tab_txns in
      let b = length-values tr.meta_txns in
      ap
        (λ p.
          then_count_down (fork_rollback_step db) tr.fork_txns
            (then_count_down (asked db.meta_rollback) (values tr.meta_txns) p))
        (count_down-after (asked db.txn_rollback) (values tr.tab_txns) (txn_count tr)
          (length tr.meta_txns + length tr.fork_txns) w (omega arith) z)
      ∙ ap (then_count_down (fork_rollback_step db) tr.fork_txns) (
          then_count_down-after (asked db.meta_rollback)
            (map (asked db.txn_rollback) (values tr.tab_txns)) (values tr.meta_txns)
            (length tr.meta_txns + length tr.fork_txns) (length tr.fork_txns) w (omega arith))
      ∙ then_count_down-after (fork_rollback_step db)
          (map (asked db.txn_rollback) (values tr.tab_txns)
            ++ map (asked db.meta_rollback) (values tr.meta_txns))
          tr.fork_txns (length tr.fork_txns) 0 w (omega arith)

  rollback_go :
      (tr : Tr Ware Txn Meta G Atom EnumType) (w : W)
      → rollback db tr w
        ≡ go_on rollbacking rollbacking tr
            (λ u.
              settle rollbacked rollback_fail
                (rollback_loops db tr u)
                (record tr { state = rollbacking }))
            (each_ware
              (λ ware u. (ok tt, db.ware_rollback ware tr.id u))
              tr.ware_log_map
              (names tr.meta_txns)
              w)
  unfolding rollback
  rollback_go tr w = refl

  -- the loop over the libraries cannot fail where its steps cannot
  wares_pass :
      (f : Ware → W → W) (wares : HashMap Atom Ware) (ns : List Atom) (w : W)
      → (run_all (ware_steps (λ ware u. (ok tt, f ware u)) wares ns) w).0 ≡ passed
  unfolding run_all
  wares_pass f wares [] w = refl
  wares_pass f wares (n ∷ ns) w = elim (Option-cases (lookup n wares)) [
    | inl e ↦ ground (arith, e, wares_pass f wares ns w)
    | inr (ware, e) ↦ ground (arith, e, wares_pass f wares ns (f ware w))
  ]

  abbrev pub rest_of_commit : Tr Ware Txn Meta G Atom EnumType → List (W → Verdict × W)
  rest_of_commit tr =
      map (asked (meta_commit_step db)) (values tr.meta_txns)
      ++ map (fork_commit_step db) tr.fork_txns

  go_on_passed :
      (early : TxState) (tr : Tr Ware Txn Meta G Atom EnumType)
      (f : W → Verdict × Tr Ware Txn Meta G Atom EnumType × W) (p : Verdict × W)
      → p.0 ≡ passed
      → go_on early early tr f p ≡ f p.1
  go_on_passed early tr f (passed, w) h = refl
  go_on_passed early tr f (failed e, w) h = absurd (ground arith)
  go_on_passed early tr f (panicked, w) h = absurd (ground arith)

  and_then_ok : (p : Verdict × W) (f : W → Verdict × W) → p.0 ≡ passed → and_then p f ≡ f p.1
  and_then_ok (passed, w) f h = refl
  and_then_ok (failed e, w) f h = absurd (ground arith)
  and_then_ok (panicked, w) f h = absurd (ground arith)

  -- A transaction with something to roll back, which alters only tables of libraries that it has,
  -- takes every step of the rollback in turn, for the libraries whose tables it alters, then for
  -- its tables, its tables of types and its forks, up to the first step that fails or panics. If
  -- none does, it ends in the state `Rollbacked`; if one fails, it fails with that error, in the
  -- state `RollbackFail`; if one panics, it panics, in the state `Rollbacking`.
  pub rollback-run_all :
      (tr : Tr Ware Txn Meta G Atom EnumType) (w : W)
      → WellKeyed tr
      → txn_count tr ≢ 0
      → rollback db tr w
        ≡ finish rollbacking rollbacked rollback_fail tr
            (run_all (rollback_wares tr ++ rollback_tables tr) w)
  rollback-run_all tr w h z =
      let p = run_all (rollback_wares tr) w in
      let loops : (u : W) → Verdict × Tr Ware Txn Meta G Atom EnumType × W = λ u.
        settle rollbacked rollback_fail (rollback_loops db tr u)
          (record tr { state = rollbacking }) in
      let passes =
        wares_pass (λ ware. db.ware_rollback ware tr.id) tr.ware_log_map (names tr.meta_txns) w in
      rollback_go tr w
      ∙ ap (go_on rollbacking rollbacking tr loops) (
          each_ware-verdict (λ ware u. (ok tt, db.ware_rollback ware tr.id u)) tr.ware_log_map
            (names tr.meta_txns) w h)
      ∙ go_on_passed rollbacking tr loops p passes
      ∙ ap (λ q. settle rollbacked rollback_fail q (record tr { state = rollbacking }))
          (rollback_loops-after tr p.1 z)
      ∙ settle-finish rollbacked rollback_fail tr rollbacking (run_all (rollback_tables tr) p.1)
      ∙ ap (finish rollbacking rollbacked rollback_fail tr) (
          sym (
            run_all-append (rollback_wares tr) (rollback_tables tr) w
            ∙ and_then_ok p (run_all (rollback_tables tr)) passes))

  abbrev pub commit_wares : Tr Ware Txn Meta G Atom EnumType → List (W → Verdict × W)
  commit_wares tr =
      ware_steps (λ ware u. (ok tt, db.ware_commit ware tr.id u)) tr.ware_log_map
        (names tr.meta_txns)

  commit_loops-after :
      (tr : Tr Ware Txn Meta G Atom EnumType) (w : W)
      → let (done, w') = count_joined (commit_task db) (values tr.tab_txns) w in
        commit_loops db tr w ≡ after (run_all (rest_of_commit tr) w') (length tr.tab_txns - done)
  unfolding run_all
  commit_loops-after tr w =
      let (done, w') = count_joined (commit_task db) (values tr.tab_txns) w in
      let a = length-values tr.tab_txns in
      let b = length-values tr.meta_txns in
      let bound = count_joined-length (commit_task db) (values tr.tab_txns) w in
      let missing = length tr.tab_txns - done in
      ap
        (λ p.
          then_count_down (fork_commit_step db) tr.fork_txns
            (then_count_down (asked (meta_commit_step db)) (values tr.meta_txns) p))
        (joined-after (txn_count tr) done w' (omega arith))
      ∙ ap (then_count_down (fork_commit_step db) tr.fork_txns) (
          then_count_down-after (asked (meta_commit_step db)) [] (values tr.meta_txns)
            (txn_count tr - done) (length tr.fork_txns + missing) w' (omega arith))
      ∙ then_count_down-after (fork_commit_step db)
          (map (asked (meta_commit_step db)) (values tr.meta_txns)) tr.fork_txns
          (length tr.fork_txns + missing) missing w' refl

  -- A commit of a transaction with something to commit, which alters only tables of libraries that
  -- it has, tells the libraries, commits every table, and then takes the steps of its tables of
  -- types and its forks in turn, up to the first one that fails or panics. If one fails, the commit
  -- fails with that error, in the state `CommitFail`; if one panics, it panics, in the state
  -- `Committing`. If none does, it succeeds, also if the commit of a table has failed: then its
  -- state is `Committing`, and otherwise `Commited`.
  pub commit-finish :
      (tr : Tr Ware Txn Meta G Atom EnumType) (w : W)
      → WellKeyed tr
      → txn_count tr ≢ 0
      → let (done, w') =
          count_joined (commit_task db) (values tr.tab_txns) (run_all (commit_wares tr) w).1 in
        commit db tr w
        ≡ finish committing
            (if nat_eqb done (length tr.tab_txns) then commited else committing)
            commit_fail
            tr
            (run_all (rest_of_commit tr) w')
  unfolding commit
  commit-finish tr w h z =
      let p = run_all (commit_wares tr) w in
      let passes =
        wares_pass (λ ware. db.ware_commit ware tr.id) tr.ware_log_map (names tr.meta_txns) w in
      let (done, w') = count_joined (commit_task db) (values tr.tab_txns) p.1 in
      let bound = count_joined-length (commit_task db) (values tr.tab_txns) p.1 in
      let a = length-values tr.tab_txns in
      let busy : nat_eqb (txn_count tr) 0 ≡ false = ground arith in
      ap (go_on committing committing tr (commit_rest db tr)) (
        each_ware-verdict (λ ware u. (ok tt, db.ware_commit ware tr.id u)) tr.ware_log_map
          (names tr.meta_txns) w h)
      ∙ go_on_passed committing tr (commit_rest db tr) p passes
      ∙ ap
          (λ b.
            if b
            then (passed, record tr { state = committing }, p.1)
            else settle commited commit_fail (commit_loops db tr p.1)
                (record tr { state = committing }))
          busy
      ∙ ap (λ q. settle commited commit_fail q (record tr { state = committing }))
          (commit_loops-after tr p.1)
      ∙ elim (Bool-cases (nat_eqb done (length tr.tab_txns))) [
        | inl t ↦
            let none_missing : length tr.tab_txns - done ≡ 0 = ground arith in
            rw (t, none_missing)
              (settle-finish commited commit_fail tr committing (run_all (rest_of_commit tr) w'))
        | inr f ↦ rw f (
            settle_left commited commit_fail tr committing (run_all (rest_of_commit tr) w')
              (length tr.tab_txns - done) (λ q. ground arith))
      ]
