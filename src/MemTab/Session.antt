-- ===== src/MemTab/Session.antt =====
-- A whole transaction on a table in memory, through the calls of `RefMemeryTxn` (src/memery_db.rs).
use pi_db.Snapshot.Kept.{IsOverlay-new}
use pi_db.MemTab.Commit.{commit_inner-view}
use pi_db.Snapshot.Effect.{effect, answers}
use pi_db.Snapshot.{check_keys}
use pi_db.OrdMap.{OrdMap}
use pi_db.Base.{
  Eq, nat_eq, list_eq, pair_eq, ℕ, ◌≡◌, refl, sym, ◌∙◌, Bool, true, some, List, [], ◌∷◌, arith,
}
use pi_db.Data.{Bytes, Bin, SResult, DbResult, RwLog, TabKv, ok, prepar_ok, committing, commited}
use pi_db.HashMap.{HashMap, lookup}
use pi_db.HashMap.Laws.{lookup-insert_self}
use pi_db.Prepare.{Prepare, try_prepare}
use pi_db.MemTab.Calls.{modify_one-ok, query-answers, query-IsOverlay, modify-effect}
use pi_db.MemTab.{prepare_inner, transaction, MemeryTab, MemeryTxn, get, upsert, delete}
use pi_db.MemTab.Ref.{prepare, commit, query, modify, modify_one}
use pi_db.Snapshot.Overlay.{overlay, Canonical, IsOverlay}

module _ {G M Atom : Type 0} where
  -- What no call before the preparation changes.
  record IsFramed (txn : MemeryTxn G M) (tab : MemeryTab G M Atom) (txn' : MemeryTxn G M)
      (tab' : MemeryTab G M Atom) : Type 0 where
    id : txn'.id ≡ txn.id
    old : txn'.old ≡ txn.old
    tree : tab'.root ≡ tab.root
    prepared : tab'.prepare ≡ tab.prepare

  IsFramed-trans :
      (a b c : MemeryTxn G M) (s t u : MemeryTab G M Atom)
      → IsFramed a s b t
      → IsFramed b t c u
      → IsFramed a s c u
  IsFramed-trans a b c s t u h k = record {
    id = k.id ∙ h.id;
    old = k.old ∙ h.old;
    tree = k.tree ∙ h.tree;
    prepared = k.prepared ∙ h.prepared;
  }

module _ {G M Atom : Type 0} ⦃eg : Eq G⦄ (time : G → ℕ) {same : Bytes → Bytes → Bool}
    (om : OrdMap same Bin M) where
  get-IsFramed :
      (k : Bytes) (txn : MemeryTxn G M) (tab : MemeryTab G M Atom)
      → IsFramed txn tab (get time om k txn tab).1 (get time om k txn tab).2
  unfolding get
  get-IsFramed k txn tab = record {
    id = ground arith;
    old = ground arith;
    tree = ground arith;
    prepared = ground arith;
  }

  query-IsFramed :
      (arr : List (TabKv Atom)) (txn : MemeryTxn G M) (tab : MemeryTab G M Atom)
      → IsFramed txn tab (query time om arr txn tab).1 (query time om arr txn tab).2
  unfolding query
  query-IsFramed [] txn tab = record { id = refl; old = refl; tree = refl; prepared = refl }
  query-IsFramed (x ∷ arr) txn tab =
      let (v, txn', tab') = get time om x.key txn tab in
      IsFramed-trans txn txn' _ tab tab' _ (get-IsFramed x.key txn tab)
        (query-IsFramed arr txn' tab')

  modify_one-IsFramed :
      (x : TabKv Atom) (txn : MemeryTxn G M) (tab : MemeryTab G M Atom)
      → IsFramed txn tab (modify_one time om x txn tab).1 (modify_one time om x txn tab).2
  unfolding upsert delete
  modify_one-IsFramed x txn tab = record {
    id = ground arith;
    old = ground arith;
    tree = ground arith;
    prepared = ground arith;
  }

  modify-IsFramed :
      (arr : List (TabKv Atom)) (txn : MemeryTxn G M) (tab : MemeryTab G M Atom)
      → IsFramed txn tab (modify time om arr txn tab).1 (modify time om arr txn tab).2
  unfolding modify
  modify-IsFramed [] txn tab = record { id = refl; old = refl; tree = refl; prepared = refl }
  modify-IsFramed (x ∷ arr) txn tab =
      let (r, txn', tab') = modify_one time om x txn tab in
      rw (modify_one-ok time om x txn tab, modify)
        (IsFramed-trans txn txn' _ tab tab' _ (modify_one-IsFramed x txn tab)
          (modify-IsFramed arr txn' tab'))

module _ {G M : Type 0} ⦃eg : Eq G⦄ (time : G → ℕ) {same : Bytes → Bytes → Bool}
    (om : OrdMap same Bin M) where
  -- With nothing prepared and an unchanged table every log passes.
  check_keys_self :
      (slot : M → M → Bytes → Bool) (now : ℕ) (root : M) (log : HashMap Bytes RwLog)
      → check_keys time om slot now root root log [] ≡ (ok tt, [])
  unfolding check_keys try_prepare
  check_keys_self slot now root [] = refl
  check_keys_self slot now root (x ∷ log) =
      rw (om.ptr_eq_self root, check_keys) (check_keys_self slot now root log)

  pub check_keys-clear :
      (slot : M → M → Bytes → Bool) (now : ℕ) (root old : M) (log : HashMap Bytes RwLog)
      (p : Prepare G)
      → p ≡ []
      → root ≡ old
      → check_keys time om slot now root old log p ≡ (ok tt, [])
  check_keys-clear slot now root old log p h e = rw (h, e) (check_keys_self slot now old log)

module _ {G M Atom : Type 0} ⦃eg : Eq G⦄ (time : G → ℕ) {same : Bytes → Bytes → Bool}
    (om : OrdMap same Bin M) where
  -- The preparation of a transaction that is alone.
  pub prepared_alone :
      (now : ℕ) (txn : MemeryTxn G M) (tab : MemeryTab G M Atom)
      → tab.prepare ≡ []
      → tab.root ≡ txn.old
      → let (r, txn', tab') = prepare time om now txn tab in
        (r ≡ ok tt)
        × (txn'.state ≡ prepar_ok)
        × (tab'.root ≡ tab.root)
        × (lookup txn'.id tab'.prepare ≡ some txn.rwlog)
        × (txn'.id ≡ txn.id)
        × (txn'.root ≡ txn.root)
        × (txn'.old ≡ txn.old)
  unfolding prepare prepare_inner
  prepared_alone now txn tab h e =
      let passes =
        check_keys-clear time om om.same_slot now tab.root txn.old txn.rwlog tab.prepare h e in
      let stored = lookup-insert_self txn.id txn.rwlog [] in
      (
        ground (arith, passes),
        ground (arith, passes),
        ground (arith, passes),
        ground (arith, passes, stored),
        ground (arith, passes),
        ground (arith, passes),
        ground (arith, passes),
      )

  -- The calls of one transaction, from its beginning to its commit.
  unfoldable pub session :
      G
      → ℕ
      → List (TabKv Atom)
      → List (TabKv Atom)
      → MemeryTab G M Atom
      → List (TabKv Atom)
        × DbResult
        × SResult (HashMap Bytes RwLog)
        × MemeryTxn G M
        × MemeryTab G M Atom
  session id now reads writes tab =
      let (txn, tab1) = transaction time om tab id true in
      let (found, txn1, tab2) = query time om reads txn tab1 in
      let (_, txn2, tab3) = modify time om writes txn1 tab2 in
      let (prepared, txn3, tab4) = prepare time om now txn2 tab3 in
      let (committed, txn4, tab5) = commit time om txn3 tab4 in
      (found, prepared, committed, txn4, tab5)

  module _ (canon : Canonical same) where
    -- the commit of a prepared transaction, through `RefMemeryTxn`
    pub committed_view :
        (txn : MemeryTxn G M) (tab : MemeryTab G M Atom) (log : HashMap Bytes RwLog)
        → IsOverlay om txn.root txn.old log
        → lookup txn.id tab.prepare ≡ some log
        → let (r, txn', tab') = commit time om txn tab in
          (r ≡ ok log)
          × (txn'.state ≡ commited)
          × ((k : Bytes) → om.get tab'.root k ≡ overlay log k (om.get tab.root k))
    unfolding commit
    committed_view txn tab log h e =
        let (done, view, _) =
          commit_inner-view time om canon (record txn { state = committing }) tab log h e in
        (ground arith, ground arith, λ k. ground (arith, view k))

    -- A transaction that is alone on a table on which nothing is prepared, from its beginning to its
    -- commit, succeeds at every step and ends in the state `Commited`. Its queries are answered from
    -- the table as it was, and the table's values afterwards are those that its modifications make.
    pub session-effect :
        (id : G) (now : ℕ) (reads writes : List (TabKv Atom)) (tab : MemeryTab G M Atom)
        → tab.prepare ≡ []
        → let (found, prepared, committed, txn', tab') = session id now reads writes tab in
          (found ≡ answers (om.get tab.root) reads)
          × (prepared ≡ ok tt)
          × ((log : HashMap Bytes RwLog) × (committed ≡ ok log))
          × (txn'.state ≡ commited)
          × ((k : Bytes) → om.get tab'.root k ≡ effect writes k (om.get tab.root k))
    unfolding session transaction
    session-effect id now reads writes tab h =
        let (txn, tab1) = transaction time om tab id true in
        let (found, txn1, tab2) = query time om reads txn tab1 in
        let (_, txn2, tab3) = modify time om writes txn1 tab2 in
        let (prepared, txn3, tab4) = prepare time om now txn2 tab3 in
        let fq = query-IsFramed time om reads txn tab1 in
        let fm = modify-IsFramed time om writes txn1 tab2 in
        let frame = IsFramed-trans txn txn1 txn2 tab1 tab2 tab3 fq fm in
        let (answered, seen) = query-answers time om reads txn tab1 in
        let (modified, view, kept, _) =
          modify-effect time om canon writes txn1 tab2
            (query-IsOverlay time om canon reads txn tab1 (IsOverlay-new om canon tab.root)) in
        let (p_ok, _, p_root, p_stored, p_id, p_mine, p_old) =
          prepared_alone now txn2 tab3 (frame.prepared ∙ h) (frame.tree ∙ sym frame.old) in
        let (c_ok, c_state, c_view) =
          committed_view txn3 tab4 txn2.rwlog (rw (p_mine, p_old) kept) p_stored in
        (
          answered,
          p_ok,
          (txn2.rwlog, c_ok),
          c_state,
          λ k. cc (c_view k, p_root, frame.tree, frame.old, kept.view k, view k, seen),
        )
