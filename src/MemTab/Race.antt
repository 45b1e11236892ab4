-- ===== src/MemTab/Race.antt =====
-- Two commits of `MemeryTxn` (src/memery_db.rs) on one table at once.
use pi_db.OrdMap.{OrdMap}
use pi_db.Base.{
  if◌then◌else◌, Eq, ==-ne, nat_eq, list_eq, pair_eq, ℕ, ◌≡◌, ap, ◌∙◌, ◌≢◌, Bool, true, false,
  Option, none, some, List, [], ◌∷◌, arith,
}
use pi_db.Data.{Bytes, Bin, RwLog, ok, write}
use pi_db.HashMap.{HashMap, lookup, remove}
use pi_db.HashMap.Laws.{lookup-remove}
use pi_db.MemTab.{MemeryTab, MemeryTxn}
use pi_db.MemTab.Steps.{Phase, start, commit_step, finished}
use pi_db.Snapshot.Overlay.{overlay, IsOverlay}

-- the phases of the commits of `a` and `b`, with the table
abbrev pub World : Type 0 → Type 0 → Type 0 → Type 0
World G M Atom = Phase × Phase × MemeryTab G M Atom

-- both take their logs, both compare the roots, then both replace the table's tree
abbrev pub interleaved : List Bool
interleaved = true ∷ false ∷ true ∷ false ∷ true ∷ false ∷ true ∷ false ∷ []

module _ {G M Atom : Type 0} ⦃eg : Eq G⦄ (time : G → ℕ) {same : Bytes → Bytes → Bool}
    (om : OrdMap same Bin M) where
  -- one step of `a` (`true`) or of `b`
  unfoldable pub turn : MemeryTxn G M → MemeryTxn G M → Bool → World G M Atom → World G M Atom
  turn a b true (pa, pb, tab) = let (pa', tab') = commit_step time om a pa tab in (pa', pb, tab')
  turn a b false (pa, pb, tab) = let (pb', tab') = commit_step time om b pb tab in (pa, pb', tab')

  -- whose turn it is, step by step
  unfoldable pub run_both :
      MemeryTxn G M → MemeryTxn G M → List Bool → World G M Atom → World G M Atom
  unfolding turn
  run_both a b [] w = w
  run_both a b (t ∷ turns) w = run_both a b turns (turn a b t w)

  run_interleaved :
      (a b : MemeryTxn G M) (tab : MemeryTab G M Atom) (la lb : HashMap Bytes RwLog)
      → lookup a.id tab.prepare ≡ some la
      → lookup b.id (remove a.id tab.prepare) ≡ some lb
      → om.ptr_eq tab.root a.old ≡ true
      → om.ptr_eq tab.root b.old ≡ true
      → let (pa, pb, tab') = run_both a b interleaved (start, start, tab) in
        (pa ≡ finished (ok la)) × (pb ≡ finished (ok lb)) × (tab'.root ≡ b.root)
  unfolding run_both commit_step
  run_interleaved a b tab la lb ha hb ea eb = (ground arith, ground arith, ground arith)

  -- A committed write is lost: let two transactions be prepared, each with the table's present tree
  -- as its snapshot, and let the tree of the second be its snapshot under its log. In the
  -- interleaving where both compare the roots before either replaces the tree, both commits
  -- succeed, and a key that the first has written with a new value, and the second has no log of,
  -- has its former value.
  pub commit-loses_write :
      (a b : MemeryTxn G M) (tab : MemeryTab G M Atom) (la lb : HashMap Bytes RwLog) (k : Bytes)
      (v : Option Bin)
      → IsOverlay om b.root b.old lb
      → a.id ≢ b.id
      → lookup a.id tab.prepare ≡ some la
      → lookup b.id tab.prepare ≡ some lb
      → tab.root ≡ a.old
      → tab.root ≡ b.old
      → lookup k la ≡ some (write v)
      → lookup k lb ≡ none
      → om.get tab.root k ≢ v
      → let (pa, pb, tab') = run_both a b interleaved (start, start, tab) in
        (pa ≡ finished (ok la))
        × (pb ≡ finished (ok lb))
        × (om.get tab'.root k ≡ om.get tab.root k)
        × (om.get tab'.root k ≢ overlay la k (om.get tab.root k))
  commit-loses_write a b tab la lb k v hb ne pa pb ea eb wa nb new =
      let still =
        lookup-remove a.id b.id tab.prepare
        ∙ ap (λ t. if t then none else lookup b.id tab.prepare) (==-ne a.id b.id ne)
        ∙ pb in
      let (fa, fb, r) =
        run_interleaved a b tab la lb pa still (rw ea (om.ptr_eq_self a.old))
          (rw eb (om.ptr_eq_self b.old)) in
      let kept : om.get (run_both a b interleaved (start, start, tab)).2.root k
          ≡ om.get tab.root k =
        cc (r, hb.view k, nb, eb) in
      (fa, fb, kept, λ p. new (cc (kept, p, wa)))
