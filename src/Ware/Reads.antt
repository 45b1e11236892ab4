-- ===== src/Ware/Reads.antt =====
-- A transaction reads what it has written, whichever kind its table is of (`query` and `modify` of
-- `DatabaseTabTxn` in src/mgr.rs).
use mathlib.Core.Path.{subst}
use pi_db.Base.{Eq, nat_eq, list_eq, pair_eq, ◌≡◌, refl, sym, ap, ◌∙◌, Option, List, [], ◌∷◌, arith}
use pi_db.Data.{Bytes, Bin, TabKv, ok}
use pi_db.MemTab.{MemeryTxn}
use pi_db.LogTab.{FileMemTxn}
use pi_db.Ware.{Owned, cell-assign, World, Outside, DatabaseTabTxn, mem_tab_txn, log_file_tab_txn}
use pi_db.Ware.Txns.{query, modify, mem_txn_of, file_txn_of, mem_tab_of}
use pi_db.Snapshot.Overlay.{Canonical, IsOverlay}
use pi_db.Snapshot.Effect.{effect, answers}
use pi_db.MemTab.Calls.{query-answers, modify-effect}
use pi_db.LogTab.Calls.{log_query-answers, log_modify-effect}

module _ {G M T Atom EnumType F P : Type 0} ⦃ea : Eq Atom⦄
    (out : Outside G M T Atom EnumType F P) where
  -- what a transaction sees of a key
  abbrev pub seen : DatabaseTabTxn → World G M T Atom EnumType F P → Bytes → Option Bin
  seen (mem_tab_txn t) w k = out.trees.get (mem_txn_of t w).root k
  seen (log_file_tab_txn t) w k = out.trees.get (file_txn_of t w).root k

  -- The transaction has not been prepared: its tree is its snapshot under its log.
  abbrev pub IsOpen : DatabaseTabTxn → World G M T Atom EnumType F P → Type 0
  IsOpen (mem_tab_txn t) w =
      let txn = mem_txn_of t w in IsOverlay out.trees txn.root txn.old txn.rwlog
  IsOpen (log_file_tab_txn t) w =
      let txn = file_txn_of t w in IsOverlay out.trees txn.root txn.old txn.rwlog

module _ {Atom : Type 0} where
  answers_ext :
      (arr : List (TabKv Atom)) (f g : Bytes → Option Bin)
      → ((k : Bytes) → f k ≡ g k)
      → answers f arr ≡ answers g arr
  unfolding answers
  answers_ext [] f g h = refl
  answers_ext (x ∷ arr) f g h = ground (arith, h x.key, answers_ext arr f g h)

module _ {G M T Atom EnumType F P : Type 0} ⦃eg : Eq G⦄ ⦃ea : Eq Atom⦄
    (out : Outside G M T Atom EnumType F P) (canon : Canonical out.same) where
  pub modify-seen :
      (t : DatabaseTabTxn) (writes : List (TabKv Atom)) (w : World G M T Atom EnumType F P)
      → IsOpen out t w
      → let (r, w1) = modify out t writes w in
        (r ≡ ok tt)
        × ((k : Bytes) → seen out t w1 k ≡ effect writes k (seen out t w k))
        × IsOpen out t w1
  unfolding modify
  modify-seen (mem_tab_txn t) writes w h =
      let (done, view, kept, _) =
        modify-effect out.time out.trees canon writes (mem_txn_of t w) (mem_tab_of t w) h in
      (
        done,
        λ k. ground (arith, view k),
        subst (λ (o : Owned (MemeryTxn G M)). IsOverlay out.trees o.txn.root o.txn.old o.txn.rwlog)
            (sym (cell-assign t _ w.mem_txns)) kept,
      )
  modify-seen (log_file_tab_txn t) writes w h =
      let (done, view, kept, _) = log_modify-effect out.trees canon writes (file_txn_of t w) h in
      (
        done,
        λ k. ground (arith, view k),
        subst (λ (o : Owned (FileMemTxn G M)). IsOverlay out.trees o.txn.root o.txn.old o.txn.rwlog)
            (sym (cell-assign t _ w.file_txns)) kept,
      )

  pub query-seen :
      (t : DatabaseTabTxn) (reads : List (TabKv Atom)) (w : World G M T Atom EnumType F P)
      → (query out t reads w).0 ≡ ok (answers (seen out t w) reads)
  unfolding query
  query-seen (mem_tab_txn t) reads w =
      ap ok (query-answers out.time out.trees reads (mem_txn_of t w) (mem_tab_of t w)).0
  query-seen (log_file_tab_txn t) reads w =
      ap ok (log_query-answers out.trees reads (file_txn_of t w)).0

  -- On a transaction that has not been prepared, modifications succeed, and a query after them answers
  -- each item with what the modifications made of the value that the transaction saw before: with the
  -- value of the key's last modification, if there is one.
  pub modify-query :
      (t : DatabaseTabTxn) (writes reads : List (TabKv Atom)) (w : World G M T Atom EnumType F P)
      → IsOpen out t w
      → let (r, w1) = modify out t writes w in
        (r ≡ ok tt)
        × ((query out t reads w1).0 ≡ ok (answers (λ k. effect writes k (seen out t w k)) reads))
        × IsOpen out t w1
  modify-query t writes reads w h =
      let (done, view, kept) = modify-seen t writes w h in
      (
        done,
        query-seen t reads (modify out t writes w).1 ∙ ap ok (answers_ext reads _ _ view),
        kept,
      )
