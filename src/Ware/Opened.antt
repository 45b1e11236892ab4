-- ===== src/Ware/Opened.antt =====
-- A table is opened once (`build` of `TabLog` in src/tabs.rs).
use pi_db.Base.{
  sym, ap, ◌∙◌, if◌then◌else◌, Option-cases, Eq, nat_eq, list_eq, pair_eq, length, ℕ, zero, suc,
  ◌<◌, ◌≡◌, refl, ◌⊎◌, inl, inr, Bool, true, false, none, some, [], ◌∷◌, arith,
}
use pi_db.Data.{SResult, Result-cases, unreachable_branch, ok, err}
use pi_db.Fork.{finished, panicked, unfinished, Outcome}
use pi_db.Tabs.{unkonwn, TabInfo, TabLog, Cells, TabInit, TabType, mem_tab, log_file_tab}
use pi_db.Ware.{World, Outside, TxnType, mem_txn, log_file_txn, BuildDbType, memory_db, log_file_db}
use pi_db.Ware.Build.{start, build_txn, cell_at, put_cell, log_file_open, fill_cell, open_cell}

module _ {MT LT : Type 0} where
  cell_at-put_cell :
      (i : ℕ) (c : TabInit MT LT) (cells : Cells MT LT)
      → i < length cells
      → cell_at i (put_cell i c cells) ≡ c
  cell_at-put_cell i c [] h = absurd (omega (arith, h))
  cell_at-put_cell zero c (x ∷ xs) h = refl
  cell_at-put_cell (suc i) c (x ∷ xs) h = cell_at-put_cell i c xs (omega (arith, h))

module _ {G M T Atom EnumType F P : Type 0} where
  -- the table that a transaction works on
  abbrev pub table_of : TxnType → World G M T Atom EnumType F P → TabType ℕ ℕ
  table_of (mem_txn t) w = mem_tab (w.mem_txns.cell t).tab
  table_of (log_file_txn t) w = log_file_tab (w.file_txns.cell t).tab

  -- Nothing that is shared between tables differs: neither the cells nor which tables there are.
  pub record IsSameTables (w w' : World G M T Atom EnumType F P) : Type 0 where
    pub cells : w'.cells ≡ w.cells
    pub mem_count : w'.mem_tabs.next ≡ w.mem_tabs.next
    pub file_count : w'.file_tabs.next ≡ w.file_tabs.next
    pub cached : w'.log_file_tabs ≡ w.log_file_tabs

Outcome-cases :
    {A : Type 0} (o : Outcome A)
    → ((l : A) × (o ≡ finished l)) ⊎ ((o ≡ panicked) ⊎ (o ≡ unfinished))
Outcome-cases (finished l) = inl (l, refl)
Outcome-cases panicked = inr (inl refl)
Outcome-cases unfinished = inr (inr refl)

module _ {G M T Atom EnumType F P : Type 0} ⦃eg : Eq G⦄ ⦃ea : Eq Atom⦄ ⦃ep : Eq P⦄
    (out : Outside G M T Atom EnumType F P) where
  cells-log_file_open :
      (tab : Atom) (w : World G M T Atom EnumType F P) → (log_file_open out tab w).1.cells ≡ w.cells
  unfolding log_file_open
  cells-log_file_open tab w = ground arith

  -- what is opened is in the cell
  fill_cell-opened :
      (ware : BuildDbType) (name : Atom) (at : ℕ) (w : World G M T Atom EnumType F P)
      (t : TabType ℕ ℕ)
      → at < length w.cells
      → (fill_cell out ware name at w).0 ≡ ok t
      → cell_at at (fill_cell out ware name at w).1.cells ≡ record { tab_type = t; wait = none }
  fill_cell-opened memory_db name at w t h e = ground (
    arith,
    cell_at-put_cell at (record { tab_type = mem_tab w.mem_tabs.next; wait = none }) w.cells,
  )
  fill_cell-opened log_file_db name at w t h e = elim (Result-cases (log_file_open out name w).0) [
    | inr (why, f) ↦ ground arith
    | inl (x, f) ↦ ground (
      arith,
      cell_at-put_cell at (record { tab_type = log_file_tab x; wait = none }) w.cells,
      cells-log_file_open name w,
    )
  ]

  open_cell_done :
      (ware : BuildDbType) (name : Atom) (at : ℕ) (w : World G M T Atom EnumType F P)
      → (cell_at at w.cells).wait ≡ none
      → open_cell out ware name at w ≡ (ok (cell_at at w.cells).tab_type, w)
  unfolding open_cell
  open_cell_done ware name at w e = rw (e, open_cell) refl

  open_cell_new :
      (ware : BuildDbType) (name : Atom) (at : ℕ) (w : World G M T Atom EnumType F P) (vec : Bool)
      → (cell_at at w.cells).wait ≡ some vec
      → open_cell out ware name at w
        ≡ (if vec then fill_cell out ware name at w else (err unreachable_branch, w))
  unfolding open_cell
  open_cell_new ware name at w vec e = rw (e, open_cell) refl

  open_cell-opened :
      (ware : BuildDbType) (name : Atom) (at : ℕ) (w : World G M T Atom EnumType F P)
      (t : TabType ℕ ℕ)
      → at < length w.cells
      → (open_cell out ware name at w).0 ≡ ok t
      → cell_at at (open_cell out ware name at w).1.cells ≡ record { tab_type = t; wait = none }
  open_cell-opened ware name at w t h e = elim (Option-cases (cell_at at w.cells).wait) [
    | inl n ↦ ground (arith, open_cell_done ware name at w n, n)
    | inr (true, s) ↦
        ground (arith, open_cell_new ware name at w true s, fill_cell-opened ware name at w t h)
    | inr (false, s) ↦ ground (arith, open_cell_new ware name at w false s)
  ]

  -- a transaction that starts is one of the table
  start-table_of :
      (tab : TabType ℕ ℕ) (id : G) (writable : Bool) (w : World G M T Atom EnumType F P)
      (t : TxnType)
      → (start out tab id writable w).0 ≡ ok t
      → table_of t (start out tab id writable w).1 ≡ tab
  unfolding start
  start-table_of unkonwn id writable w t e = ground arith
  start-table_of (mem_tab n) id writable w t e = ground arith
  start-table_of (log_file_tab n) id writable w t e = ground arith

  start-IsSameTables :
      (tab : TabType ℕ ℕ) (id : G) (writable : Bool) (w : World G M T Atom EnumType F P)
      → IsSameTables w (start out tab id writable w).1
  unfolding start
  start-IsSameTables unkonwn id writable w = record {
    cells = refl;
    mem_count = refl;
    file_count = refl;
    cached = refl;
  }
  start-IsSameTables (mem_tab n) id writable w = record {
    cells = refl;
    mem_count = refl;
    file_count = refl;
    cached = refl;
  }
  start-IsSameTables (log_file_tab n) id writable w = record {
    cells = refl;
    mem_count = refl;
    file_count = refl;
    cached = refl;
  }

  -- a table that is known starts a transaction in every world
  start_again :
      (tab : TabType ℕ ℕ) (id id' : G) (writable writable' : Bool)
      (w w' : World G M T Atom EnumType F P) (t : TxnType)
      → (start out tab id writable w).0 ≡ ok t
      → (t' : TxnType) × ((start out tab id' writable' w').0 ≡ ok t')
  unfolding start
  start_again unkonwn id id' writable writable' w w' t e = ground arith
  start_again (mem_tab n) id id' writable writable' w w' t e = (mem_txn w'.mem_txns.next, refl)
  start_again (log_file_tab n) id id' writable writable' w w' t e =
      (log_file_txn w'.file_txns.next, refl)

  build_txn-start :
      (ware : BuildDbType) (name : Atom) (id : G) (writable : Bool) (log : TabLog Atom EnumType T)
      (w : World G M T Atom EnumType F P) (info : TabInfo EnumType) (tab : TabType ℕ ℕ)
      → out.tab_trees.get log.map name ≡ some info
      → (open_cell out ware name info.init w).0 ≡ ok tab
      → build_txn out ware name id writable log w
        ≡ start out tab id writable (open_cell out ware name info.init w).1
  unfolding build_txn
  build_txn-start ware name id writable log w info tab found e = rw (found, build_txn, e) refl

  build_txn-opened :
      (ware : BuildDbType) (name : Atom) (id : G) (writable : Bool) (log : TabLog Atom EnumType T)
      (w : World G M T Atom EnumType F P) (info : TabInfo EnumType) (t : TxnType)
      → out.tab_trees.get log.map name ≡ some info
      → (build_txn out ware name id writable log w).0 ≡ ok t
      → (tab : TabType ℕ ℕ) × ((open_cell out ware name info.init w).0 ≡ ok tab)
  unfolding build_txn
  build_txn-opened ware name id writable log w info t found e =
      elim (Result-cases (open_cell out ware name info.init w).0) [
        | inl r ↦ r
        | inr (why, f) ↦ ground arith
      ]

  -- Once a transaction of a table has been made, every further one of an entry with the same cell,
  -- whichever transaction asks and whatever its snapshot has become otherwise, works on the same
  -- table; no table is opened for it.
  pub build_txn-shares :
      (ware ware' : BuildDbType) (name name' : Atom) (id id' : G) (writable writable' : Bool)
      (log log' : TabLog Atom EnumType T) (w : World G M T Atom EnumType F P)
      (info info' : TabInfo EnumType) (t : TxnType)
      → out.tab_trees.get log.map name ≡ some info
      → out.tab_trees.get log'.map name' ≡ some info'
      → info'.init ≡ info.init
      → info.init < length w.cells
      → (build_txn out ware name id writable log w).0 ≡ ok t
      → let w1 = (build_txn out ware name id writable log w).1 in
        let (r, w2) = build_txn out ware' name' id' writable' log' w1 in
        ((t' : TxnType) × (r ≡ ok t') × (table_of t' w2 ≡ table_of t w1)) × IsSameTables w1 w2
  build_txn-shares ware ware' name name' id id' writable writable' log log' w info info' t found
        found' same h e =
      let (tab, o) = build_txn-opened ware name id writable log w info t found e in
      let u = (open_cell out ware name info.init w).1 in
      let first = build_txn-start ware name id writable log w info tab found o in
      let cell = open_cell-opened ware name info.init w tab h o in
      let w1 = (start out tab id writable u).1 in
      let kept = start-IsSameTables tab id writable u in
      let cell1 : cell_at info'.init w1.cells ≡ record { tab_type = tab; wait = none } =
        rw (same, kept.cells) cell in
      let opened : open_cell out ware' name' info'.init w1 ≡ (ok tab, w1) =
        open_cell_done ware' name' info'.init w1 (rw cell1 refl)
        ∙ ap (λ (c : TabInit ℕ ℕ). (ok c.tab_type, w1)) cell1 in
      let started : (start out tab id writable u).0 ≡ ok t = sym (ap (λ p. p.0) first) ∙ e in
      let again = start_again tab id id' writable writable' u w1 t started in
      let second =
        build_txn-start ware' name' id' writable' log' w1 info' tab found' (ap (λ p. p.0) opened)
        ∙ ap
            (λ (p : SResult (TabType ℕ ℕ) × World G M T Atom EnumType F P).
              start out tab id' writable' p.1)
            opened in
      rw (first, second)
        (
          (
            again.0,
            again.1,
            start-table_of tab id' writable' w1 again.0 again.1
                ∙ sym (start-table_of tab id writable u t started),
          ),
          start-IsSameTables tab id' writable' w1,
        )
