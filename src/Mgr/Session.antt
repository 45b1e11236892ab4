-- ===== src/Mgr/Session.antt =====
-- A client of several tables reads what it has written (`modify` and `query` of `Tr` in src/mgr.rs).
use pi_db.Base.{
  Option-cases, Eq, nat_eq, list_eq, pair_eq, length, All, ◌<◌, ◌≡◌, refl, ap, ◌∙◌, ◌≢◌, inl, inr,
  Option, none, some, List, [], ◌∷◌, map, arith,
}
use pi_db.Data.{Bytes, Bin, TabKv, ok}
use pi_db.HashMap.{HashMap, lookup}
use pi_db.Mgr.{Database, Tr}
use pi_db.Mgr.Calls.{modify, query}
use pi_db.Mgr.Grouping.{numbered}
use pi_db.Mgr.Tabular.{Tabular}
use pi_db.Mgr.Served.{HasTxn, answer}
use pi_db.Mgr.Queried.{query-answered}
use pi_db.Mgr.Written.{tab_effect, IsInjective, AllOpen, modify-tab_effect}
use pi_db.Fork.{usize_mod}

module _ {Txn Atom : Type 0} ⦃ea : Eq Atom⦄ where
  -- an item with the value that its key has after the modifications, from what is seen before
  abbrev pub answer_after :
      (Txn → Bytes → Option Bin)
      → HashMap (Atom × Atom) Txn
      → List (TabKv Atom)
      → TabKv Atom
      → TabKv Atom
  answer_after f txns writes x = record x {
    value = elim (lookup (x.ware, x.tab) txns) [
      | none ↦ none
      | some t ↦ tab_effect (x.ware, x.tab) writes x.key (f t x.key)
    ];
  }

  answer_after_lem :
      (f g : Txn → Bytes → Option Bin) (txns : HashMap (Atom × Atom) Txn)
      (writes : List (TabKv Atom)) (xs : List (TabKv Atom))
      → ((key : Atom × Atom) (t : Txn) (k : Bytes)
          → lookup key txns ≡ some t
          → g t k ≡ tab_effect key writes k (f t k))
      → map (answer g txns) xs ≡ map (answer_after f txns writes) xs
  answer_after_lem f g txns writes [] h = refl
  answer_after_lem f g txns writes (x ∷ xs) h = elim (Option-cases (lookup (x.ware, x.tab) txns)) [
    | inl e ↦ ground (arith, e, answer_after_lem f g txns writes xs h)
    | inr (t, e) ↦
        ground (arith, e, h (x.ware, x.tab) t x.key e, answer_after_lem f g txns writes xs h)
  ]

module _ {W Ware Txn Meta G Atom EnumType : Type 0} ⦃ea : Eq Atom⦄
    (db : Database W Ware Txn Meta G Atom EnumType) {IsOpen : Txn → W → Type 0}
    (tabular : Tabular db IsOpen) where
  -- Let every table of two calls have a transaction of its own that has not been prepared. Then a
  -- call that modifies succeeds, and a query after it answers every item, in the order of the call
  -- and across the tables, with the value of the first modification of its key, or with what was seen
  -- before if there is none.
  pub modify-answered :
      (writes reads : List (TabKv Atom)) (default : TabKv Atom)
      (tr : Tr Ware Txn Meta G Atom EnumType) (w : W)
      → All (HasTxn tr.tab_txns) writes
      → All (HasTxn tr.tab_txns) reads
      → IsInjective tr.tab_txns
      → AllOpen db tabular tr.tab_txns w
      → length reads ≢ 0
      → length reads < usize_mod
      → let (r, tr1, w1) = modify db writes tr w in
        let (q, tr2, w2) = query db default reads tr1 w1 in
        (r ≡ ok tt)
        × (q
            ≡ some (
                ok (
                  map
                    (answer_after (λ t. tabular.seen t w) tr.tab_txns writes)
                    (numbered 1 reads))))
  modify-answered writes reads default tr w hw hr inj o z b =
      let (done, same, seen, _) = modify-tab_effect db tabular writes tr w hw inj o in
      let (r, tr1, w1) = modify db writes tr w in
      let (answered, _, _) = query-answered db tabular default reads tr1 w1 (rw same hr) z b in
      (
        done,
        answered
            ∙ ap (λ l. some (ok (map (answer (λ t. tabular.seen t w1) l) (numbered 1 reads)))) same
            ∙ ap (λ l. some (ok l))
                (answer_after_lem (λ t. tabular.seen t w) (λ t. tabular.seen t w1) tr.tab_txns
                  writes (numbered 1 reads) seen),
      )
