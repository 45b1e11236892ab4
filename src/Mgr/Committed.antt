-- ===== src/Mgr/Committed.antt =====
-- The two phases of a transaction that has used tables only, each alone on its table (`prepare` and
-- `commit` of `Tr` in src/mgr.rs).
use pi_db.Mgr.Endings.{commit-finish}
use pi_db.Mgr.Outcomes.{length-values, prepare-run_all, finish}
use mathlib.Core.List.{append-nil}
use pi_db.Base.{
  arith, ◌≢◌, Eq, nat_eq, list_eq, pair_eq, length, ℕ, suc, ◌≡◌, refl, ap, ◌∙◌, List, [], ◌∷◌, map,
}
use pi_db.Data.{preparing, prepar_fail, commited, prepar_ok, Bytes}
use pi_db.Mgr.{Verdict, passed, Tr, Database}
use pi_db.Mgr.Phases.{asked, prepare, commit, values, count_joined, commit_task}
use pi_db.Mgr.Steps.{run_all}
use pi_db.Mgr.Storing.{Storing, Each, PairwiseApart}

module _ {W Ware Txn Meta G Atom EnumType : Type 0} ⦃ea : Eq Atom⦄
    (db : Database W Ware Txn Meta G Atom EnumType) (IsReady IsPrepared : Txn → W → Type 0)
    (Apart : Txn → Txn → W → Type 0) (s : Storing db IsReady IsPrepared Apart) where
  Each-map : (p q : Txn → Type 0) (ts : List Txn) → ((t : Txn) → p t → q t) → Each p ts → Each q ts
  Each-map p q [] f h = tt
  Each-map p q (t ∷ ts) f h = (f t h.0, Each-map p q ts f h.1)

  Each-both :
      (p q r : Txn → Type 0) (ts : List Txn)
      → ((t : Txn) → p t → q t → r t)
      → Each p ts
      → Each q ts
      → Each r ts
  Each-both p q r [] f h k = tt
  Each-both p q r (t ∷ ts) f h k = (f t h.0 k.0, Each-both p q r ts f h.1 k.1)

  -- a change of the world that keeps tables apart
  PairwiseApart-step :
      (ts : List Txn) (w v : W)
      → ((t u : Txn) → Apart t u w → Apart t u v)
      → PairwiseApart Apart ts w
      → PairwiseApart Apart ts v
  PairwiseApart-step [] w v f h = tt
  PairwiseApart-step (t ∷ ts) w v f h =
      (Each-map (λ u. Apart t u w) (λ u. Apart t u v) ts (f t) h.0, PairwiseApart-step ts w v f h.1)

  record IsAllPrepared (ts : List Txn) (w : W) (p : Verdict × W) : Type 0 where
    done : p.0 ≡ passed
    prepared : Each (λ t. IsPrepared t p.1) ts
    apart : (t u : Txn) → Apart t u w → Apart t u p.1
    seen_same : (u : Txn) (k : Bytes) → s.seen u p.1 k ≡ s.seen u w k
    kept : (u : Txn) → Each (λ t. Apart t u w) ts → IsPrepared u w → IsPrepared u p.1

  prepare_all :
      (ts : List Txn) (w : W)
      → PairwiseApart Apart ts w
      → Each (λ t. IsReady t w) ts
      → IsAllPrepared ts w (run_all (map (asked db.txn_prepare) ts) w)
  unfolding run_all
  prepare_all [] w a h = record {
    done = refl;
    prepared = tt;
    apart = λ t u q. q;
    seen_same = λ u k. refl;
    kept = λ u a q. q;
  }
  prepare_all (t ∷ ts) w a h =
      let w1 = (db.txn_prepare t w).1 in
      let rest =
        prepare_all ts w1 (PairwiseApart-step ts w w1 (λ x u. s.prepare-Apart t x u w) a.1) (
          Each-both (λ u. Apart t u w) (λ u. IsReady u w) (λ u. IsReady u w1) ts
            (λ u. s.prepare-other t u w) a.0 h.1) in
      rw (s.prepare-ok t w h.0, run_all)
        (record {
          done = rest.done;
          prepared = (
            rest.kept t
                (Each-map (λ u. Apart t u w) (λ u. Apart u t w1) ts
                  (λ u q. s.prepare-Apart t u t w (s.sym_apart t u w q)) a.0)
                (s.prepare-IsPrepared t w h.0),
            rest.prepared,
          );
          apart = λ x u q. rest.apart x u (s.prepare-Apart t x u w q);
          seen_same = λ u k. rest.seen_same u k ∙ s.prepare-seen t u w k h.0;
          kept = λ u b q.
              rest.kept u
                (Each-map (λ x. Apart x u w) (λ x. Apart x u w1) ts (λ x. s.prepare-Apart t x u w)
                  b.1)
                (s.prepare-other_prepared t u w b.0 q);
        })

  record IsAllCommitted (ts : List Txn) (w : W) (p : ℕ × W) : Type 0 where
    done : p.0 ≡ length ts
    values : Each (λ t. (k : Bytes) → s.stored t p.1 k ≡ s.seen t w k) ts
    kept : (u : Txn) → Each (λ t. Apart t u w) ts → (k : Bytes) → s.stored u p.1 k ≡ s.stored u w k

  commit_all :
      (ts : List Txn) (w : W)
      → PairwiseApart Apart ts w
      → Each (λ t. IsPrepared t w) ts
      → IsAllCommitted ts w (count_joined (commit_task db) ts w)
  unfolding count_joined
  commit_all [] w a h = record { done = refl; values = tt; kept = λ u b k. refl }
  commit_all (t ∷ ts) w a h =
      let w1 = (db.txn_commit t w).1 in
      let rest = commit_all ts w1 (PairwiseApart-step ts w w1 (λ x u. s.commit-Apart t x u w) a.1) (
        Each-both (λ u. Apart t u w) (λ u. IsPrepared u w) (λ u. IsPrepared u w1) ts
          (λ u. s.commit-other t u w) a.0 h.1) in
      let (log, passes) = s.commit-ok t w h.0 in
      rw passes (record {
        done = ap suc rest.done;
        values = (
          λ k.
              rest.kept t
                (Each-map (λ u. Apart t u w) (λ u. Apart u t w1) ts
                  (λ u q. s.commit-Apart t u t w (s.sym_apart t u w q)) a.0)
                k
              ∙ s.commit-stored t w k h.0,
          Each-both (λ u. Apart t u w) (λ u. (k : Bytes) → s.stored u _ k ≡ s.seen u w1 k)
              (λ u. (k : Bytes) → s.stored u _ k ≡ s.seen u w k) ts
              (λ u q e k. e k ∙ s.commit-seen t u w k q) a.0 rest.values,
        );
        kept = λ u b k.
            rest.kept u
              (Each-map (λ x. Apart x u w) (λ x. Apart x u w1) ts (λ x. s.commit-Apart t x u w) b.1)
              k
            ∙ s.commit-other_stored t u w k b.0;
      })

  -- the steps of the two phases are those of the tables
  prepare-tables :
      (tr : Tr Ware Txn Meta G Atom EnumType) (w : W)
      → tr.meta_txns ≡ []
      → tr.fork_txns ≡ []
      → length tr.tab_txns ≢ 0
      → prepare db tr w
        ≡ finish preparing prepar_ok prepar_fail tr
            (run_all (map (asked db.txn_prepare) (values tr.tab_txns)) w)
  prepare-tables tr w m f z =
      prepare-run_all db tr w (rw m tt) (λ q. z (omega (arith, q)))
      ∙ ap (λ l. finish preparing prepar_ok prepar_fail tr (run_all l w))
          (rw (m, f) (append-nil _ ∙ append-nil _))

  commit-tables :
      (tr : Tr Ware Txn Meta G Atom EnumType) (w : W)
      → tr.meta_txns ≡ []
      → tr.fork_txns ≡ []
      → length tr.tab_txns ≢ 0
      → (count_joined (commit_task db) (values tr.tab_txns) w).0 ≡ length tr.tab_txns
      → commit db tr w ≡ (
        passed,
        record tr { state = commited },
        (count_joined (commit_task db) (values tr.tab_txns) w).1,
      )
  unfolding run_all
  commit-tables tr w m f z e =
      commit-finish db tr w (rw m tt) (λ q. z (omega (arith, q))) ∙ rw (m, f, e) (ground arith)

  -- Let a transaction have used tables only, at least one, and let each of its transactions of tables
  -- be ready, and any two apart. Then `prepare` succeeds with the state `PreparOk`, `commit` succeeds
  -- with the state `Commited`, and every table holds, key by key, what its transaction saw before.
  pub commit-stores_all :
      (tr : Tr Ware Txn Meta G Atom EnumType) (w : W)
      → tr.meta_txns ≡ []
      → tr.fork_txns ≡ []
      → length tr.tab_txns ≢ 0
      → PairwiseApart Apart (values tr.tab_txns) w
      → Each (λ t. IsReady t w) (values tr.tab_txns)
      → let (v, tr1, w1) = prepare db tr w in
        let (v', tr2, w2) = commit db tr1 w1 in
        (v ≡ passed)
        × (tr1.state ≡ prepar_ok)
        × (v' ≡ passed)
        × (tr2.state ≡ commited)
        × Each (λ t. (k : Bytes) → s.stored t w2 k ≡ s.seen t w k) (values tr.tab_txns)
  commit-stores_all tr w m f z a h =
      let ts = values tr.tab_txns in
      let one = prepare_all ts w a h in
      let w1 = (run_all (map (asked db.txn_prepare) ts) w).1 in
      let tr1 : Tr Ware Txn Meta G Atom EnumType = record tr { state = prepar_ok } in
      let first : prepare db tr w ≡ (passed, tr1, w1) =
        prepare-tables tr w m f z
        ∙ ap (λ r. finish preparing prepar_ok prepar_fail tr (r, w1)) one.done in
      let two = commit_all ts w1 (PairwiseApart-step ts w w1 one.apart a) one.prepared in
      let second = commit-tables tr1 w1 m f z (two.done ∙ length-values tr.tab_txns) in
      rw (first, second)
        (refl, refl, refl, refl, Each-map _ _ ts (λ t e k. e k ∙ one.seen_same t k) two.values)
