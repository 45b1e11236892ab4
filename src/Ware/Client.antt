-- ===== src/Ware/Client.antt =====
-- The transactions of tables in memory and with log files are what a client of several tables relies
-- on (Mgr/Tabular.antt): a call on one of them leaves the others alone.
use pi_db.Base.{
  nat_eqb, Bool-cases, Eq, nat_eqb_iff, nat_eq, list_eq, pair_eq, ◌≡◌, refl, sym, ap, ◌≢◌, inl, inr,
  List, arith,
}
use pi_db.Data.{Bytes, TabKv}
use mathlib.Core.Path.{subst}
use pi_db.MemTab.{MemeryTxn}
use pi_db.LogTab.{FileMemTxn}
use pi_db.Mgr.Tabular.{Tabular}
use pi_db.Ware.{
  World, Outside, DatabaseTabTxn, mem_tab_txn, log_file_tab_txn, Owned, cell-assign_other,
}
use pi_db.Ware.Txns.{query, modify, mem_txn_of, file_txn_of, mem_tab_of}
use pi_db.Ware.Dispatch.{libraries}
use pi_db.Ware.Reads.{seen, IsOpen, query-seen, modify-seen}
use pi_db.Snapshot.Overlay.{Canonical, IsOverlay}
use pi_db.MemTab.Calls.{query-answers}
use pi_db.LogTab.Calls.{log_query-answers}

module _ {G M T Atom EnumType F P : Type 0} ⦃eg : Eq G⦄ ⦃ea : Eq Atom⦄
    (out : Outside G M T Atom EnumType F P) where
  seen-query :
      (t u : DatabaseTabTxn) (arr : List (TabKv Atom)) (w : World G M T Atom EnumType F P)
      (k : Bytes)
      → seen out u (query out t arr w).1 k ≡ seen out u w k
  unfolding query
  seen-query (mem_tab_txn t) (mem_tab_txn u) arr w k = ground (
    arith,
    ap (λ m. out.trees.get m k)
        (query-answers out.time out.trees arr (mem_txn_of t w) (mem_tab_of t w)).1,
  )
  seen-query (mem_tab_txn t) (log_file_tab_txn u) arr w k = refl
  seen-query (log_file_tab_txn t) (mem_tab_txn u) arr w k = refl
  seen-query (log_file_tab_txn t) (log_file_tab_txn u) arr w k =
      ground
        (arith, ap (λ m. out.trees.get m k) (log_query-answers out.trees arr (file_txn_of t w)).1)

  seen-modify_other :
      (t u : DatabaseTabTxn) (arr : List (TabKv Atom)) (w : World G M T Atom EnumType F P)
      (k : Bytes)
      → t ≢ u
      → seen out u (modify out t arr w).1 k ≡ seen out u w k
  unfolding modify
  seen-modify_other (mem_tab_txn t) (mem_tab_txn u) arr w k ne = elim (Bool-cases (nat_eqb t u)) [
    | inl e ↦ absurd (ne (ap mem_tab_txn ((nat_eqb_iff t u).0 e)))
    | inr e ↦ ground arith
  ]
  seen-modify_other (mem_tab_txn t) (log_file_tab_txn u) arr w k ne = refl
  seen-modify_other (log_file_tab_txn t) (mem_tab_txn u) arr w k ne = refl
  seen-modify_other (log_file_tab_txn t) (log_file_tab_txn u) arr w k ne =
      elim (Bool-cases (nat_eqb t u)) [
        | inl e ↦ absurd (ne (ap log_file_tab_txn ((nat_eqb_iff t u).0 e)))
        | inr e ↦ ground arith
      ]

  module _ (canon : Canonical out.same) where
    modify-IsOpen_other :
        (t u : DatabaseTabTxn) (arr : List (TabKv Atom)) (w : World G M T Atom EnumType F P)
        → IsOpen out t w
        → IsOpen out u w
        → IsOpen out u (modify out t arr w).1
    unfolding modify
    modify-IsOpen_other (mem_tab_txn t) (mem_tab_txn u) arr w h g =
        elim (Bool-cases (nat_eqb t u)) [
          | inl e ↦
              let same : t ≡ u = (nat_eqb_iff t u).0 e in
              subst (λ v. IsOpen out (mem_tab_txn v) (modify out (mem_tab_txn t) arr w).1) same
                (modify-seen out canon (mem_tab_txn t) arr w h).2
          | inr e ↦
              subst
                (λ (o : Owned (MemeryTxn G M)).
                  IsOverlay out.trees o.txn.root o.txn.old o.txn.rwlog)
                (sym (cell-assign_other t u _ w.mem_txns e)) g
        ]
    modify-IsOpen_other (mem_tab_txn t) (log_file_tab_txn u) arr w h g = g
    modify-IsOpen_other (log_file_tab_txn t) (mem_tab_txn u) arr w h g = g
    modify-IsOpen_other (log_file_tab_txn t) (log_file_tab_txn u) arr w h g =
        elim (Bool-cases (nat_eqb t u)) [
          | inl e ↦
              let same : t ≡ u = (nat_eqb_iff t u).0 e in
              subst (λ v. IsOpen out (log_file_tab_txn v) (modify out (log_file_tab_txn t) arr w).1)
                same (modify-seen out canon (log_file_tab_txn t) arr w h).2
          | inr e ↦
              subst
                (λ (o : Owned (FileMemTxn G M)).
                  IsOverlay out.trees o.txn.root o.txn.old o.txn.rwlog)
                (sym (cell-assign_other t u _ w.file_txns e)) g
        ]

module _ {G M T Atom EnumType F P : Type 0} ⦃eg : Eq G⦄ ⦃ea : Eq Atom⦄ ⦃ep : Eq P⦄
    (out : Outside G M T Atom EnumType F P) (canon : Canonical out.same) where
  pub libraries_tabular : Tabular (libraries out) (IsOpen out)
  unfolding libraries
  libraries_tabular = record {
    seen = seen out;
    query-answers = query-seen out canon;
    query-seen = seen-query out;
    modify-ok = λ t arr w h. (modify-seen out canon t arr w h).0;
    modify-seen = λ t arr w k h. (modify-seen out canon t arr w h).1 k;
    modify-other = seen-modify_other out;
    modify-IsOpen = modify-IsOpen_other out canon;
  }
