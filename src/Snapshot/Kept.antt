-- ===== src/Snapshot/Kept.antt =====
-- A transaction's tree stays its snapshot under its log, and so a commit has the effect of the log.
use pi_db.Snapshot.{commit_root, note_read}
use pi_db.OrdMap.{OrdMap}
use pi_db.Base.{
  Bool-cases, nat_eq, list_eqb_iff, list_eq, pair_eq, ◌≡◌, refl, sym, ap, ◌∙◌, inl, inr, Bool, true,
  false, none, some, [], arith,
}
use pi_db.Data.{Bytes, Bin, RwLog, read, write}
use pi_db.HashMap.{HashMap, lookup, insert}
use pi_db.HashMap.Laws.{lookup-insert, Distinct-insert}
use pi_db.Snapshot.Overlay.{get-apply_log, overlay, Canonical, IsOverlay}

module _ {M : Type 0} {same : Bytes → Bytes → Bool} (om : OrdMap same Bin M)
    (canon : Canonical same) where
  pub IsOverlay-new : (old : M) → IsOverlay om old old []
  unfolding lookup
  IsOverlay-new old = record { distinct = tt; view = λ k. refl }

  pub IsOverlay-upsert :
      (root old : M) (log : HashMap Bytes RwLog) (k : Bytes) (v : Bin)
      → IsOverlay om root old log
      → IsOverlay om (om.upsert root k v) old (insert k (write (some v)) log)
  IsOverlay-upsert root old log k v h = record {
    distinct = Distinct-insert k (write (some v)) log h.distinct;
    view = λ j. ground (
      arith,
      om.get-upsert root k j v,
      canon k j,
      list_eqb_iff k j,
      lookup-insert k j (write (some v)) log,
      h.view j,
    );
  }

  pub IsOverlay-delete :
      (root old : M) (log : HashMap Bytes RwLog) (k : Bytes)
      → IsOverlay om root old log
      → IsOverlay om (om.delete root k) old (insert k (write none) log)
  IsOverlay-delete root old log k h = record {
    distinct = Distinct-insert k (write none) log h.distinct;
    view = λ j. ground (
      arith,
      om.get-delete root k j,
      canon k j,
      list_eqb_iff k j,
      lookup-insert k j (write none) log,
      h.view j,
    );
  }

  pub IsOverlay-note_read :
      (root old : M) (log : HashMap Bytes RwLog) (writable : Bool) (k : Bytes)
      → IsOverlay om root old log
      → IsOverlay om root old (note_read writable k log)
  IsOverlay-note_read root old log false k h = h
  IsOverlay-note_read root old log true k h = record {
    distinct = ground (arith, Distinct-insert k read log h.distinct);
    view = λ j. ground (arith, list_eqb_iff k j, lookup-insert k j read log, h.view j);
  }

  -- Whichever way it is brought up to date, the table has the effect of the log.
  pub get-commit_root :
      (mine old root : M) (log : HashMap Bytes RwLog) (k : Bytes)
      → IsOverlay om mine old log
      → om.get (commit_root om mine old log root) k ≡ overlay log k (om.get root k)
  get-commit_root mine old root log k h = elim (Bool-cases (om.ptr_eq root old)) [
    | inl t ↦ rw t (h.view k ∙ ap (overlay log k) (sym (om.get_of_ptr_eq root old k t)))
    | inr f ↦ rw f (get-apply_log om canon log root k h.distinct)
  ]
