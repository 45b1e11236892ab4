-- ===== src/Ware/Apart.antt =====
-- Transactions that work on different tables leave each other alone in the two phases (`prepare` and
-- `commit` of `DatabaseTabTxn` in src/mgr.rs).
use pi_db.Base.{
  nat_eqb, Eq, nat_eq, list_eq, pair_eq, ℕ, ◌≡◌, refl, sym, ap, false, Option, some, [], arith,
}
use pi_db.Data.{Bytes, Bin, RwLog}
use pi_db.Ware.Reads.{seen}
use mathlib.Core.Path.{subst}
use pi_db.HashMap.{HashMap, lookup}
use pi_db.MemTab.{MemeryTab, MemeryTxn}
use pi_db.LogTab.{LogFileTab, FileMemTxn}
use pi_db.Snapshot.Overlay.{IsOverlay}
use pi_db.Ware.{World, Outside, DatabaseTabTxn, mem_tab_txn, log_file_tab_txn}
use pi_db.Ware.Txns.{commit, prepare, mem_txn_of, mem_tab_of, file_txn_of, file_tab_of}

module _ {G M T Atom EnumType F P : Type 0} where
  -- Two transactions are not the same, and work on different tables.
  abbrev pub IsApart : DatabaseTabTxn → DatabaseTabTxn → World G M T Atom EnumType F P → Type 0
  IsApart (mem_tab_txn t) (mem_tab_txn u) w =
      (nat_eqb t u ≡ false) × (nat_eqb (w.mem_txns.cell t).tab (w.mem_txns.cell u).tab ≡ false)
  IsApart (mem_tab_txn t) (log_file_tab_txn u) w = Unit
  IsApart (log_file_tab_txn t) (mem_tab_txn u) w = Unit
  IsApart (log_file_tab_txn t) (log_file_tab_txn u) w =
      (nat_eqb t u ≡ false) × (nat_eqb (w.file_txns.cell t).tab (w.file_txns.cell u).tab ≡ false)

  pub IsApart-sym :
      (t u : DatabaseTabTxn) (w : World G M T Atom EnumType F P) → IsApart t u w → IsApart u t w
  IsApart-sym (mem_tab_txn t) (mem_tab_txn u) w h = (ground (arith, h.0), ground (arith, h.1))
  IsApart-sym (mem_tab_txn t) (log_file_tab_txn u) w h = tt
  IsApart-sym (log_file_tab_txn t) (mem_tab_txn u) w h = tt
  IsApart-sym (log_file_tab_txn t) (log_file_tab_txn u) w h =
      (ground (arith, h.0), ground (arith, h.1))

  -- the transaction with its table
  abbrev pub mem_at : ℕ → World G M T Atom EnumType F P → MemeryTxn G M × MemeryTab G M Atom
  mem_at t w = (mem_txn_of t w, mem_tab_of t w)

  abbrev pub file_at : ℕ → World G M T Atom EnumType F P → FileMemTxn G M × LogFileTab G M Atom F P
  file_at t w = (file_txn_of t w, file_tab_of t w)

module _ {G M T Atom EnumType F P : Type 0} ⦃eg : Eq G⦄ ⦃ea : Eq Atom⦄
    (out : Outside G M T Atom EnumType F P) where
  -- Nothing is prepared on the table, and it is as it was when the transaction began.
  abbrev pub MemReady : MemeryTxn G M × MemeryTab G M Atom → Type 0
  MemReady (txn, tab) =
      (tab.prepare ≡ []) × (tab.root ≡ txn.old) × IsOverlay out.trees txn.root txn.old txn.rwlog

  abbrev pub FileReady : FileMemTxn G M × LogFileTab G M Atom F P → Type 0
  FileReady (txn, tab) =
      (tab.prepare ≡ []) × (tab.root ≡ txn.old) × IsOverlay out.trees txn.root txn.old txn.rwlog

  abbrev pub IsAlone : DatabaseTabTxn → World G M T Atom EnumType F P → Type 0
  IsAlone (mem_tab_txn t) w = MemReady (mem_at t w)
  IsAlone (log_file_tab_txn t) w = FileReady (file_at t w)

  abbrev pub MemPrepared : MemeryTxn G M × MemeryTab G M Atom → Type 0
  MemPrepared (txn, tab) =
      (log : HashMap Bytes RwLog) × (lookup txn.id tab.prepare ≡ some log)
      × (tab.root ≡ txn.old)
      × IsOverlay out.trees txn.root txn.old log

  abbrev pub FilePrepared : FileMemTxn G M × LogFileTab G M Atom F P → Type 0
  FilePrepared (txn, tab) =
      (log : HashMap Bytes RwLog) × (lookup txn.id tab.prepare ≡ some log)
      × (tab.root ≡ txn.old)
      × IsOverlay out.trees txn.root txn.old log

  abbrev pub IsHandedOver : DatabaseTabTxn → World G M T Atom EnumType F P → Type 0
  IsHandedOver (mem_tab_txn t) w = MemPrepared (mem_at t w)
  IsHandedOver (log_file_tab_txn t) w = FilePrepared (file_at t w)

  -- what a transaction's table holds
  abbrev pub stored : DatabaseTabTxn → World G M T Atom EnumType F P → Bytes → Option Bin
  stored (mem_tab_txn t) w k = out.trees.get (mem_tab_of t w).root k
  stored (log_file_tab_txn t) w k = out.trees.get (file_tab_of t w).root k

  pub prepare-IsApart :
      (s t u : DatabaseTabTxn) (w : World G M T Atom EnumType F P)
      → IsApart t u w
      → IsApart t u (prepare out s w).1
  unfolding prepare
  prepare-IsApart (mem_tab_txn s) (mem_tab_txn t) (mem_tab_txn u) w h = (h.0, ground (arith, h.1))
  prepare-IsApart (mem_tab_txn s) (mem_tab_txn t) (log_file_tab_txn u) w h = tt
  prepare-IsApart (mem_tab_txn s) (log_file_tab_txn t) (mem_tab_txn u) w h = tt
  prepare-IsApart (mem_tab_txn s) (log_file_tab_txn t) (log_file_tab_txn u) w h = h
  prepare-IsApart (log_file_tab_txn s) (mem_tab_txn t) (mem_tab_txn u) w h = h
  prepare-IsApart (log_file_tab_txn s) (mem_tab_txn t) (log_file_tab_txn u) w h = tt
  prepare-IsApart (log_file_tab_txn s) (log_file_tab_txn t) (mem_tab_txn u) w h = tt
  prepare-IsApart (log_file_tab_txn s) (log_file_tab_txn t) (log_file_tab_txn u) w h =
      (h.0, ground (arith, h.1))

  pub commit-IsApart :
      (s t u : DatabaseTabTxn) (w : World G M T Atom EnumType F P)
      → IsApart t u w
      → IsApart t u (commit out s w).1
  unfolding commit
  commit-IsApart (mem_tab_txn s) (mem_tab_txn t) (mem_tab_txn u) w h = (h.0, ground (arith, h.1))
  commit-IsApart (mem_tab_txn s) (mem_tab_txn t) (log_file_tab_txn u) w h = tt
  commit-IsApart (mem_tab_txn s) (log_file_tab_txn t) (mem_tab_txn u) w h = tt
  commit-IsApart (mem_tab_txn s) (log_file_tab_txn t) (log_file_tab_txn u) w h = h
  commit-IsApart (log_file_tab_txn s) (mem_tab_txn t) (mem_tab_txn u) w h = h
  commit-IsApart (log_file_tab_txn s) (mem_tab_txn t) (log_file_tab_txn u) w h = tt
  commit-IsApart (log_file_tab_txn s) (log_file_tab_txn t) (mem_tab_txn u) w h = tt
  commit-IsApart (log_file_tab_txn s) (log_file_tab_txn t) (log_file_tab_txn u) w h =
      (h.0, ground (arith, h.1))

  -- The transaction and its table are what they were.
  abbrev pub Same : DatabaseTabTxn → (w w' : World G M T Atom EnumType F P) → Type 0
  Same (mem_tab_txn u) w w' = mem_at u w' ≡ mem_at u w
  Same (log_file_tab_txn u) w w' = file_at u w' ≡ file_at u w

  pub prepare-Same :
      (t u : DatabaseTabTxn) (w : World G M T Atom EnumType F P)
      → IsApart t u w
      → Same u w (prepare out t w).1
  unfolding prepare
  prepare-Same (mem_tab_txn t) (mem_tab_txn u) w h = ground (arith, h.0, h.1)
  prepare-Same (mem_tab_txn t) (log_file_tab_txn u) w h = refl
  prepare-Same (log_file_tab_txn t) (mem_tab_txn u) w h = refl
  prepare-Same (log_file_tab_txn t) (log_file_tab_txn u) w h = ground (arith, h.0, h.1)

  pub commit-Same :
      (t u : DatabaseTabTxn) (w : World G M T Atom EnumType F P)
      → IsApart t u w
      → Same u w (commit out t w).1
  unfolding commit
  commit-Same (mem_tab_txn t) (mem_tab_txn u) w h = ground (arith, h.0, h.1)
  commit-Same (mem_tab_txn t) (log_file_tab_txn u) w h = refl
  commit-Same (log_file_tab_txn t) (mem_tab_txn u) w h = refl
  commit-Same (log_file_tab_txn t) (log_file_tab_txn u) w h = ground (arith, h.0, h.1)

  pub Same-IsAlone :
      (u : DatabaseTabTxn) (w w' : World G M T Atom EnumType F P)
      → Same u w w'
      → IsAlone u w
      → IsAlone u w'
  Same-IsAlone (mem_tab_txn u) w w' e h = subst MemReady (sym e) h
  Same-IsAlone (log_file_tab_txn u) w w' e h = subst FileReady (sym e) h

  pub Same-IsHandedOver :
      (u : DatabaseTabTxn) (w w' : World G M T Atom EnumType F P)
      → Same u w w'
      → IsHandedOver u w
      → IsHandedOver u w'
  Same-IsHandedOver (mem_tab_txn u) w w' e h = subst MemPrepared (sym e) h
  Same-IsHandedOver (log_file_tab_txn u) w w' e h = subst FilePrepared (sym e) h

  pub Same-stored :
      (u : DatabaseTabTxn) (w w' : World G M T Atom EnumType F P) (k : Bytes)
      → Same u w w'
      → stored u w' k ≡ stored u w k
  Same-stored (mem_tab_txn u) w w' k e =
      ap (λ (p : MemeryTxn G M × MemeryTab G M Atom). out.trees.get p.1.root k) e
  Same-stored (log_file_tab_txn u) w w' k e =
      ap (λ (p : FileMemTxn G M × LogFileTab G M Atom F P). out.trees.get p.1.root k) e

  pub Same-seen :
      (u : DatabaseTabTxn) (w w' : World G M T Atom EnumType F P) (k : Bytes)
      → Same u w w'
      → seen out u w' k ≡ seen out u w k
  Same-seen (mem_tab_txn u) w w' k e =
      ap (λ (p : MemeryTxn G M × MemeryTab G M Atom). out.trees.get p.0.root k) e
  Same-seen (log_file_tab_txn u) w w' k e =
      ap (λ (p : FileMemTxn G M × LogFileTab G M Atom F P). out.trees.get p.0.root k) e
