-- ===== src/Mgr/Phases.antt =====
-- The two phases of the commit of a transaction over several tables: `prepare`, `commit` and
-- `rollback` of `Tr` in src/mgr.rs.
use pi_db.Base.{
  ltb, nat_eqb, if◌then◌else◌, Eq, nat_eq, list_eq, pair_eq, length, ℕ, suc, ◌+◌, ◌-◌, Bool, true,
  false, ◌&&◌, none, some, List, [], ◌∷◌, map,
}
use pi_db.Data.{
  Error, DbResult, TxState, TabMeta, ok, err, preparing, prepar_ok, prepar_fail, committing,
  commited, commit_fail, rollbacking, rollbacked, rollback_fail,
}
use pi_db.HashMap.{HashMap, lookup}
use pi_db.Mgr.{Database, Tr, Verdict, verdict, passed, failed, panicked}

-- Where a loop of steps stands: steps that are left to do (`count`), the last one done, a failure, or
-- a panic.
pub data Progress : Type 0 where
  left : ℕ → Progress
  all_done : Progress
  broken : Error → Progress
  stopped : Progress

-- a step that only answers
abbrev pub asked : {X W : Type 0} → (X → W → DbResult × W) → X → W → Verdict × W
asked step x w = verdict (step x w)

module _ {X W : Type 0} where
  -- a loop that stops at an error, or where `count.fetch_sub(1) == 1`
  unfoldable pub count_down : (X → W → Verdict × W) → List X → ℕ → W → Progress × W
  count_down step [] count w = (left count, w)
  count_down step (x ∷ xs) count w =
      let (r, w') = step x w in
      elim r [
        | panicked ↦ (stopped, w')
        | failed e ↦ (broken e, w')
        | passed ↦ if nat_eqb count 1 then (all_done, w') else count_down step xs (count - 1) w'
      ]

  -- the loop that follows another one
  abbrev pub then_count_down : (X → W → Verdict × W) → List X → Progress × W → Progress × W
  then_count_down step xs (left count, w) = count_down step xs count w
  then_count_down step xs (all_done, w) = (all_done, w)
  then_count_down step xs (broken e, w) = (broken e, w)
  then_count_down step xs (stopped, w) = (stopped, w)

  -- tasks that are joined: each runs, and each that succeeds counts
  unfoldable pub count_joined : (X → W → Bool × W) → List X → W → ℕ × W
  count_joined task [] w = (0, w)
  count_joined task (x ∷ xs) w =
      let (b, w') = task x w in
      let (n, w'') = count_joined task xs w' in (if b then suc n else n, w'')

abbrev pub values : {K V : Type 0} → HashMap K V → List V
values = map (λ e. e.1)

abbrev pub names : {K V : Type 0} → HashMap K V → List K
names = map (λ e. e.0)

module _ {W Ware Atom : Type 0} ⦃ea : Eq Atom⦄ where
  -- the loop over the libraries whose tables are altered; `unwrap` of a missing library panics
  unfoldable pub each_ware :
      (Ware → W → DbResult × W) → HashMap Atom Ware → List Atom → W → Verdict × W
  unfolding lookup
  each_ware step wares [] w = (passed, w)
  each_ware step wares (name ∷ names) w = elim (lookup name wares) [
    | none ↦ (panicked, w)
    | some ware ↦
        let (r, w') = step ware w in
        elim r [ err e ↦ (failed e, w') | ok _ ↦ each_ware step wares names w' ]
  ]

-- the loop over the results of the tasks; `done` of them succeed
abbrev pub joined : ℕ → ℕ → Progress
joined count done = if ltb done count then left (count - done) else all_done

module _ {Ware Txn Meta G Atom EnumType : Type 0} where
  abbrev pub txn_count : Tr Ware Txn Meta G Atom EnumType → ℕ
  txn_count tr = length tr.tab_txns + length tr.meta_txns + length tr.fork_txns

module _ {W Ware Txn Meta G Atom EnumType : Type 0} where
  -- the end of the three loops; with steps left, and in a panic, the state is what it was
  abbrev pub settle :
      TxState
      → TxState
      → Progress × W
      → Tr Ware Txn Meta G Atom EnumType
      → Verdict × Tr Ware Txn Meta G Atom EnumType × W
  settle good bad (left _, w) tr = (passed, tr, w)
  settle good bad (all_done, w) tr = (passed, record tr { state = good }, w)
  settle good bad (broken e, w) tr = (failed e, record tr { state = bad }, w)
  settle good bad (stopped, w) tr = (panicked, tr, w)

  -- the loops after the one over the libraries
  abbrev pub go_on :
      TxState
      → TxState
      → Tr Ware Txn Meta G Atom EnumType
      → (W → Verdict × Tr Ware Txn Meta G Atom EnumType × W)
      → Verdict × W
      → Verdict × Tr Ware Txn Meta G Atom EnumType × W
  go_on early bad tr loops (panicked, w) = (panicked, record tr { state = early }, w)
  go_on early bad tr loops (failed e, w) = (failed e, record tr { state = bad }, w)
  go_on early bad tr loops (passed, w) = loops w

module _ {W Ware Txn Meta G Atom EnumType : Type 0} ⦃ea : Eq Atom⦄
    (db : Database W Ware Txn Meta G Atom EnumType) where
  abbrev pub fork_prepare_step : (Atom × (Atom × Atom)) × (TabMeta EnumType × Txn) → W → Verdict × W
  fork_prepare_step ((ware, (tab, fork)), (new_meta, txn)) w =
      db.fork_prepare txn ware tab fork new_meta w

  abbrev pub fork_commit_step : (Atom × (Atom × Atom)) × (TabMeta EnumType × Txn) → W → Verdict × W
  fork_commit_step ((ware, (tab, fork)), (new_meta, txn)) w =
      db.fork_commit txn ware tab fork new_meta w

  abbrev pub fork_rollback_step :
      (Atom × (Atom × Atom)) × (TabMeta EnumType × Txn) → W → Verdict × W
  fork_rollback_step (_, (_, txn)) w = db.fork_rollback txn w

  abbrev pub prepare_loops : Tr Ware Txn Meta G Atom EnumType → W → Progress × W
  prepare_loops tr w = then_count_down fork_prepare_step tr.fork_txns (
      then_count_down (asked db.meta_prepare) (values tr.meta_txns)
        (count_down (asked db.txn_prepare) (values tr.tab_txns) (txn_count tr) w))

  unfoldable pub prepare :
      Tr Ware Txn Meta G Atom EnumType → W → Verdict × Tr Ware Txn Meta G Atom EnumType × W
  unfolding each_ware count_down
  prepare tr w =
      if nat_eqb (length tr.meta_txns) 0 && nat_eqb (length tr.tab_txns) 0
      then (passed, record tr { state = prepar_ok }, w)
      else go_on preparing prepar_fail tr
          (λ u. settle prepar_ok prepar_fail (prepare_loops tr u) (record tr { state = preparing }))
          (each_ware (λ ware. db.ware_prepare ware tr.id) tr.ware_log_map (names tr.meta_txns) w)

  abbrev pub commit_task : Txn → W → Bool × W
  commit_task txn w =
      let (r, w') = db.txn_commit txn w in (elim r [ ok _ ↦ true | err _ ↦ false ], w')

  abbrev pub meta_commit_step : Meta → W → DbResult × W
  meta_commit_step m w =
      let (r, w') = db.meta_commit m w in (elim r [ ok _ ↦ ok tt | err e ↦ err e ], w')

  abbrev pub commit_loops : Tr Ware Txn Meta G Atom EnumType → W → Progress × W
  commit_loops tr w =
      let (done, w') = count_joined commit_task (values tr.tab_txns) w in
      then_count_down fork_commit_step tr.fork_txns (
        then_count_down (asked meta_commit_step) (values tr.meta_txns)
          (joined (txn_count tr) done, w'))

  -- after the commits of the libraries
  abbrev pub commit_rest :
      Tr Ware Txn Meta G Atom EnumType → W → Verdict × Tr Ware Txn Meta G Atom EnumType × W
  commit_rest tr w =
      if nat_eqb (txn_count tr) 0
      then (passed, record tr { state = committing }, w)
      else settle commited commit_fail (commit_loops tr w) (record tr { state = committing })

  unfoldable pub commit :
      Tr Ware Txn Meta G Atom EnumType → W → Verdict × Tr Ware Txn Meta G Atom EnumType × W
  unfolding each_ware count_down count_joined
  commit tr w = go_on committing committing tr (commit_rest tr) (
      each_ware (λ ware u. (ok tt, db.ware_commit ware tr.id u)) tr.ware_log_map
        (names tr.meta_txns) w)

  abbrev pub rollback_loops : Tr Ware Txn Meta G Atom EnumType → W → Progress × W
  rollback_loops tr w = then_count_down fork_rollback_step tr.fork_txns (
      then_count_down (asked db.meta_rollback) (values tr.meta_txns)
        (count_down (asked db.txn_rollback) (values tr.tab_txns) (txn_count tr) w))

  unfoldable pub rollback :
      Tr Ware Txn Meta G Atom EnumType → W → Verdict × Tr Ware Txn Meta G Atom EnumType × W
  unfolding each_ware count_down
  rollback tr w =
      go_on rollbacking rollbacking tr
        (λ u.
          settle rollbacked rollback_fail (rollback_loops tr u) (record tr { state = rollbacking }))
        (each_ware (λ ware u. (ok tt, db.ware_rollback ware tr.id u)) tr.ware_log_map
          (names tr.meta_txns) w)
