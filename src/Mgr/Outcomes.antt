-- ===== src/Mgr/Outcomes.antt =====
-- How the two phases of a transaction over several tables end (`prepare`, `commit` and `rollback` of
-- `Tr` in src/mgr.rs).
use pi_db.Base.{
  nat_eqb, Eq, nat_eq, list_eq, pair_eq, length, length-map, ℕ, zero, suc, ◌+◌, ◌≡◌, refl, sym, ap,
  ◌∙◌, ◌≢◌, false, ◌&&◌, none, some, List, [], ◌∷◌, ◌++◌, map, arith,
}
use pi_db.Data.{DbResult, TxState, preparing, prepar_ok, prepar_fail}
use pi_db.HashMap.{HashMap, lookup}
use pi_db.Mgr.{Verdict, failed, panicked, passed, Database, Tr}
use pi_db.Mgr.Phases.{
  asked, go_on, then_count_down, each_ware, values, names, txn_count, settle, fork_prepare_step,
  prepare_loops, prepare,
}
use pi_db.Mgr.Steps.{
  run_all, after, and_then, run_all-append, count_down-after, then_count_down-after,
}

module _ {Ware Atom : Type 0} ⦃ea : Eq Atom⦄ where
  -- the libraries are there
  abbrev pub HasWares : HashMap Atom Ware → List Atom → Type 0
  HasWares wares [] = Unit
  HasWares wares (n ∷ ns) = ((ware : Ware) × (lookup n wares ≡ some ware)) × HasWares wares ns

module _ {Ware Txn Meta G Atom EnumType : Type 0} ⦃ea : Eq Atom⦄ where
  -- every table of types that the transaction alters is that of a library it knows
  abbrev pub WellKeyed : Tr Ware Txn Meta G Atom EnumType → Type 0
  WellKeyed tr = HasWares tr.ware_log_map (names tr.meta_txns)

pub length-values : {K V : Type 0} (m : HashMap K V) → length (values m) ≡ length m
length-values m = length-map (λ e. e.1) m

module _ {W Ware Atom : Type 0} ⦃ea : Eq Atom⦄ where
  -- the step for each library that is there
  abbrev pub ware_steps :
      (Ware → W → DbResult × W) → HashMap Atom Ware → List Atom → List (W → Verdict × W)
  ware_steps step wares [] = []
  ware_steps step wares (n ∷ ns) = elim (lookup n wares) [
    | none ↦ ware_steps step wares ns
    | some ware ↦ asked step ware ∷ ware_steps step wares ns
  ]

  pub each_ware-verdict :
      (step : Ware → W → DbResult × W) (wares : HashMap Atom Ware) (ns : List Atom) (w : W)
      → HasWares wares ns
      → each_ware step wares ns w ≡ run_all (ware_steps step wares ns) w
  unfolding each_ware run_all
  each_ware-verdict step wares [] w h = refl
  each_ware-verdict step wares (n ∷ ns) w ((ware, e), h) =
      ground (arith, e, each_ware-verdict step wares ns (step ware w).1 h)

module _ {W Ware Txn Meta G Atom EnumType : Type 0} where
  -- how a transaction ends from how its steps end; `early` is its state meanwhile
  abbrev pub finish :
      TxState
      → TxState
      → TxState
      → Tr Ware Txn Meta G Atom EnumType
      → Verdict × W
      → Verdict × Tr Ware Txn Meta G Atom EnumType × W
  finish early good bad tr (panicked, w) = (panicked, record tr { state = early }, w)
  finish early good bad tr (passed, w) = (passed, record tr { state = good }, w)
  finish early good bad tr (failed e, w) = (failed e, record tr { state = bad }, w)

  pub settle-finish :
      (good bad : TxState) (tr : Tr Ware Txn Meta G Atom EnumType) (s : TxState) (p : Verdict × W)
      → settle good bad (after p 0) (record tr { state = s }) ≡ finish s good bad tr p
  settle-finish good bad tr s (panicked, w) = refl
  settle-finish good bad tr s (passed, w) = refl
  settle-finish good bad tr s (failed e, w) = refl

  pub settle_left :
      (good bad : TxState) (tr : Tr Ware Txn Meta G Atom EnumType) (s : TxState) (p : Verdict × W)
      (n : ℕ)
      → n ≢ 0
      → settle good bad (after p n) (record tr { state = s }) ≡ finish s s bad tr p
  settle_left good bad tr s (passed, w) zero h = absurd (h refl)
  settle_left good bad tr s (passed, w) (suc n) h = refl
  settle_left good bad tr s (failed e, w) n h = refl
  settle_left good bad tr s (panicked, w) n h = refl

  pub go_on-finish :
      (early good bad : TxState) (tr : Tr Ware Txn Meta G Atom EnumType)
      (f : W → Verdict × Tr Ware Txn Meta G Atom EnumType × W) (steps : List (W → Verdict × W))
      (p : Verdict × W)
      → ((w : W) → f w ≡ finish early good bad tr (run_all steps w))
      → go_on early bad tr f p ≡ finish early good bad tr (and_then p (run_all steps))
  go_on-finish early good bad tr f steps (panicked, w) h = refl
  go_on-finish early good bad tr f steps (passed, w) h = h w
  go_on-finish early good bad tr f steps (failed e, w) h = refl

module _ {W Ware Txn Meta G Atom EnumType : Type 0} ⦃ea : Eq Atom⦄
    (db : Database W Ware Txn Meta G Atom EnumType) where
  abbrev pub prepare_tables : Tr Ware Txn Meta G Atom EnumType → List (W → Verdict × W)
  prepare_tables tr =
      (map (asked db.txn_prepare) (values tr.tab_txns)
        ++ map (asked db.meta_prepare) (values tr.meta_txns))
      ++ map (fork_prepare_step db) tr.fork_txns

  abbrev pub prepare_wares : Tr Ware Txn Meta G Atom EnumType → List (W → Verdict × W)
  prepare_wares tr =
      ware_steps (λ ware. db.ware_prepare ware tr.id) tr.ware_log_map (names tr.meta_txns)

  prepare_loops-after :
      (tr : Tr Ware Txn Meta G Atom EnumType) (w : W)
      → length tr.meta_txns + length tr.tab_txns ≢ 0
      → prepare_loops db tr w ≡ after (run_all (prepare_tables tr) w) 0
  prepare_loops-after tr w z =
      let a = length-values tr.tab_txns in
      let b = length-values tr.meta_txns in
      ap
        (λ p.
          then_count_down (fork_prepare_step db) tr.fork_txns
            (then_count_down (asked db.meta_prepare) (values tr.meta_txns) p))
        (count_down-after (asked db.txn_prepare) (values tr.tab_txns) (txn_count tr)
          (length tr.meta_txns + length tr.fork_txns) w (omega arith) (λ q. z (omega arith)))
      ∙ ap (then_count_down (fork_prepare_step db) tr.fork_txns) (
          then_count_down-after (asked db.meta_prepare)
            (map (asked db.txn_prepare) (values tr.tab_txns)) (values tr.meta_txns)
            (length tr.meta_txns + length tr.fork_txns) (length tr.fork_txns) w (omega arith))
      ∙ then_count_down-after (fork_prepare_step db)
          (map (asked db.txn_prepare) (values tr.tab_txns)
            ++ map (asked db.meta_prepare) (values tr.meta_txns))
          tr.fork_txns (length tr.fork_txns) 0 w (omega arith)

  prepare_go :
      (tr : Tr Ware Txn Meta G Atom EnumType) (w : W)
      → length tr.meta_txns + length tr.tab_txns ≢ 0
      → prepare db tr w
        ≡ go_on preparing prepar_fail tr
            (λ u.
              settle prepar_ok prepar_fail
                (prepare_loops db tr u)
                (record tr { state = preparing }))
            (each_ware (λ ware. db.ware_prepare ware tr.id) tr.ware_log_map (names tr.meta_txns) w)
  unfolding prepare
  prepare_go tr w z =
      let busy : (nat_eqb (length tr.meta_txns) 0 && nat_eqb (length tr.tab_txns) 0) ≡ false =
        ground arith in
      rw busy refl

  -- A transaction that has used or altered a table, and alters only tables of libraries that it
  -- has, is prepared by every step in turn, for the libraries whose tables it alters, then for its
  -- tables, its tables of types and its forks, up to the first step that fails or panics. If none
  -- does, it ends in the state `PreparOk`; if one fails, it fails with that error, in the state
  -- `PreparFail`; if one panics, it panics, in the state `Preparing`.
  pub prepare-run_all :
      (tr : Tr Ware Txn Meta G Atom EnumType) (w : W)
      → WellKeyed tr
      → length tr.meta_txns + length tr.tab_txns ≢ 0
      → prepare db tr w
        ≡ finish preparing prepar_ok prepar_fail tr
            (run_all (prepare_wares tr ++ prepare_tables tr) w)
  prepare-run_all tr w h z =
      prepare_go tr w z
      ∙ ap
          (go_on preparing prepar_fail tr (λ u.
            settle prepar_ok prepar_fail (prepare_loops db tr u) (record tr { state = preparing })))
          (each_ware-verdict (λ ware. db.ware_prepare ware tr.id) tr.ware_log_map
            (names tr.meta_txns) w h)
      ∙ go_on-finish preparing prepar_ok prepar_fail tr _ (prepare_tables tr)
          (run_all (prepare_wares tr) w)
          (λ u.
            ap (λ p. settle prepar_ok prepar_fail p (record tr { state = preparing }))
              (prepare_loops-after tr u z)
            ∙ settle-finish prepar_ok prepar_fail tr preparing (run_all (prepare_tables tr) u))
      ∙ ap (finish preparing prepar_ok prepar_fail tr)
          (sym (run_all-append (prepare_wares tr) (prepare_tables tr) w))
