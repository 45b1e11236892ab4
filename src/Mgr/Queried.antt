-- ===== src/Mgr/Queried.antt =====
-- What a query over several tables answers (`query` of `Tr` in src/mgr.rs).
use pi_db.Mgr.Answers.{tab_map-merge_all}
use pi_db.Mgr.Grouping.{numbered, tab_map-groups}
use pi_db.Fork.{usize_mod}
use pi_db.Base.{
  sym, ◌<◌, ◌≢◌, zero, suc, length, Option-cases, Eq, nat_eq, list_eq, pair_eq, All, ℕ, ◌≡◌, refl,
  ap, ◌∙◌, inl, inr, Option, some, List, [], ◌∷◌, ◌++◌, map, arith,
}
use pi_db.Data.{doing, Bytes, Bin, TxState, TabKv, ok}
use pi_db.HashMap.{HashMap, lookup}
use pi_db.Mgr.{Database, Tr}
use pi_db.Mgr.Batch.{tab_map, Groups, merge_result}
use pi_db.Mgr.Calls.{query, replicate, query_groups, ended}
use pi_db.Mgr.Order.{merge_all, total}
use pi_db.Mgr.Tabular.{Tabular}
use pi_db.Mgr.Served.{tab_map_from-IsServed, HasTxn, IsServed, answer, answers-answer, build_known}
use pi_db.Mgr.Phases.{values}

-- the state after the loop over the groups
abbrev after : {A : Type 0} → List A → TxState → TxState
after [] s = s
after (x ∷ gs) s = TxState.ok

after_ok : {A : Type 0} (gs : List A) → after gs TxState.ok ≡ TxState.ok
after_ok [] = refl
after_ok (x ∷ gs) = refl

after_filled :
    {Atom : Type 0} (gs : Groups Atom) (s : TxState)
    → total (values gs) ≢ 0
    → after gs s ≡ TxState.ok
after_filled [] s h = absurd (h refl)
after_filled (x ∷ gs) s h = refl

module _ {W Ware Txn Meta G Atom EnumType : Type 0} ⦃ea : Eq Atom⦄
    (db : Database W Ware Txn Meta G Atom EnumType) {IsOpen : Txn → W → Type 0}
    (tabular : Tabular db IsOpen) where
  -- one group, whose table has a transaction
  query_groups-next :
      (key : Atom × Atom) (val vec v : List (TabKv Atom)) (rest : Groups Atom)
      (rvec rvec' : ℕ × List (TabKv Atom)) (res : List (TabKv Atom))
      (tr : Tr Ware Txn Meta G Atom EnumType) (w : W) (t : Txn)
      → lookup key tr.tab_txns ≡ some t
      → (db.txn_query t val w).0 ≡ ok vec
      → merge_result rvec vec ≡ some (v, rvec')
      → query_groups db ((key, val) ∷ rest) rvec res tr w
        ≡ query_groups db rest rvec'
            (res ++ v)
            (record tr { state = TxState.ok })
            (db.txn_query t val w).1
  unfolding query_groups
  query_groups-next (ware, tab) val vec v rest rvec rvec' res tr w t e f g =
      let built = build_known db ware tab tr w t e in
      ground (arith, ap (λ p. p.0) built, ap (λ p. p.1) built, ap (λ p. p.2) built)

  query_groups-answers :
      (f : Txn → Bytes → Option Bin) (txns : HashMap (Atom × Atom) Txn) (gs : Groups Atom)
      (rvec : ℕ × List (TabKv Atom)) (res l : List (TabKv Atom))
      (tr : Tr Ware Txn Meta G Atom EnumType) (w : W)
      → tr.tab_txns ≡ txns
      → ((t : Txn) (k : Bytes) → tabular.seen t w k ≡ f t k)
      → All (IsServed txns) gs
      → merge_all (map (map (answer f txns)) (values gs)) rvec res ≡ some l
      → let (r, tr', w') = query_groups db gs rvec res tr w in
        (r ≡ ended l)
        × (tr'.state ≡ after gs tr.state)
        × (tr'.tab_txns ≡ txns)
        × ((t : Txn) (k : Bytes) → tabular.seen t w' k ≡ f t k)
  unfolding query_groups merge_all
  query_groups-answers f txns [] rvec res l tr w same seen served m =
      (ground arith, refl, same, seen)
  query_groups-answers f txns ((key, val) ∷ gs) rvec res l tr w same seen
        (((t, there), all), served) m =
      let vec = map (answer f txns) val in
      let answered : (db.txn_query t val w).0 ≡ ok vec =
        tabular.query-answers t val w
        ∙ ap ok (answers-answer f txns key t (tabular.seen t w) val there all (seen t)) in
      elim (Option-cases (merge_result rvec vec)) [
        | inl e ↦ absurd (ground arith)
        | inr ((v, rvec'), e) ↦
            let w1 = (db.txn_query t val w).1 in
            let (r, good, kept, seen') =
              query_groups-answers f txns gs rvec' (res ++ v) l (record tr { state = TxState.ok })
                w1 same (λ u k. tabular.query-seen t u val w k ∙ seen u k) served (ground arith) in
            rw (query_groups-next key val vec v gs rvec rvec' res tr w t (rw same there) answered e)
              (r, good ∙ after_ok gs, kept, seen')
      ]

  length-replicate : (n : ℕ) (x : TabKv Atom) → length (replicate db n x) ≡ n
  unfolding replicate
  length-replicate zero x = refl
  length-replicate (suc n) x = ap suc (length-replicate n x)

  -- A query whose tables have transactions answers every item, in the order of the call, with the
  -- value that the transaction of its table sees, and its position. It changes no value that a
  -- transaction sees.
  pub query-answered :
      (default : TabKv Atom) (arr : List (TabKv Atom)) (tr : Tr Ware Txn Meta G Atom EnumType)
      (w : W)
      → All (HasTxn tr.tab_txns) arr
      → length arr ≢ 0
      → length arr < usize_mod
      → let (q, tr', w') = query db default arr tr w in
        (q ≡ some (ok (map (answer (λ t. tabular.seen t w) tr.tab_txns) (numbered 1 arr))))
        × (tr'.tab_txns ≡ tr.tab_txns)
        × ((t : Txn) (k : Bytes) → tabular.seen t w' k ≡ tabular.seen t w k)
  unfolding query tab_map
  query-answered default [] tr w h z b = absurd (z refl)
  query-answered default (x ∷ arr) tr w h z b =
      let n = length (x ∷ arr) in
      let f = λ (t : Txn). tabular.seen t w in
      let start = record tr { state = doing } in
      let merged =
        tab_map-merge_all (answer f tr.tab_txns) (x ∷ arr) (replicate db n default) (λ y. refl) z b
          (length-replicate n default) in
      let (r, good, kept, seen) =
        query_groups-answers f tr.tab_txns (tab_map (x ∷ arr)) (n, replicate db n default) []
          (map (answer f tr.tab_txns) (numbered 1 (x ∷ arr))) start w refl (λ t k. refl)
          (tab_map_from-IsServed tr.tab_txns 1 (x ∷ arr) h) merged in
      let (_, _, sum, _) = tab_map-groups (x ∷ arr) in
      let ends : _ ≡ TxState.ok =
        good ∙ after_filled (tab_map (x ∷ arr)) doing (λ e. z (sym sum ∙ e)) in
      (ground (arith, r, ends), ground (arith, r, kept), λ t k. ground (arith, r, seen t k))
