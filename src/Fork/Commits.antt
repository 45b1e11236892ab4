-- ===== src/Fork/Commits.antt =====
-- The commits of src/log_file_db.rs on the entries of src/fork.rs, as wholes.
use pi_db.Fork.Children.{children-length}
use pi_db.HashMap.Laws.{lookup-insert_self, lookup-insert, lookup-remove}
use pi_db.Base.{
  ltb, Bool-cases, Option-cases, Eq, ◌==◌, nat_eq, list_eq, pair_eq, length, ℕ, ◌+◌, ◌≤◌, ◌<◌, ◌≡◌,
  refl, inl, inr, false, Option, none, some, [], ◌∷◌, arith,
}
use pi_db.Data.{Result-cases, SResult, TabMeta, ok}
use pi_db.HashMap.{lookup, insert, remove}
use pi_db.Fork.{
  inc_refcount, TableMetaInfo, Tables, new_info, dec_refcount, count_fork, usize_mod, Coding,
  fork_prepare_inner, fork_commit_inner,
}
use pi_db.Fork.Meta.{alter_one, release_parent, meta_commit, Alters}
use pi_db.Fork.Forest.{IsForest, create-IsForest, fork-IsForest}
use pi_db.Fork.Kept.{
  remove-IsForest, release-IsForest, length-insert, length-insert_old, length-remove,
}
use pi_db.LogStore.File.{LogFile}

module _ {Atom EnumType : Type 0} ⦃ea : Eq Atom⦄ where
  delete-IsForest :
      (tables : Tables Atom EnumType) (name : Atom) (tab : TableMetaInfo Atom EnumType)
      → IsForest tables
      → length tables < usize_mod
      → lookup name tables ≡ some tab
      → tab.ref_count ≡ 0
      → IsForest (release_parent tab.parent (remove name tables))
  delete-IsForest tables name tab h small found z = elim (Option-cases tab.parent) [
    | inl e ↦ rw e (remove-IsForest tables name tab h found z e)
    | inr (parent, e) ↦ elim (Option-cases (lookup parent (remove name tables))) [
      | inl gone ↦ absurd (
          h.present name parent tab found e (
            ground (
              arith,
              gone,
              lookup-remove name parent tables,
              h.ranked name parent tab found e,
              ea.beq_iff name parent,
            )))
      | inr (v, held) ↦
          rw (e, release_parent, held)
            (release-IsForest tables name parent tab v h small found z e held)
    ]
  ]

  length-release_parent :
      (parent : Option Atom) (tables : Tables Atom EnumType)
      → length (release_parent parent tables) ≡ length tables
  length-release_parent none tables = refl
  length-release_parent (some parent) tables = elim (Option-cases (lookup parent tables)) [
    | inl e ↦ rw (e, release_parent) refl
    | inr (v, e) ↦ rw (e, release_parent) (length-insert_old parent (dec_refcount v) v tables e)
  ]

module _ {Atom EnumType F : Type 0} ⦃ea : Eq Atom⦄ (coding : Coding Atom EnumType)
    (lf : LogFile F) where
  alter_one-IsForest :
      (name : Atom) (m : Option (TabMeta EnumType)) (tables : Tables Atom EnumType) (file : F)
      → IsForest tables
      → length tables < usize_mod
      → IsForest (alter_one coding lf name m tables file).1
        × (length (alter_one coding lf name m tables file).1 ≤ length tables + 1)
  unfolding alter_one
  alter_one-IsForest name (some m) tables file h small = elim (Option-cases (lookup name tables)) [
    | inl e ↦
        rw (e, alter_one)
          (create-IsForest tables name m h e, length-insert name (new_info name m) tables)
    | inr (t, e) ↦ rw (e, alter_one) (h, ground arith)
  ]
  alter_one-IsForest name none tables file h small = elim (Option-cases (lookup name tables)) [
    | inl e ↦ rw (e, alter_one) (h, ground arith)
    | inr (t, e) ↦ elim (Bool-cases (ltb 0 t.ref_count)) [
      | inl forked ↦ rw (e, alter_one, forked) (h, ground arith)
      | inr free ↦
          rw (e, alter_one, free)
            (
              delete-IsForest tables name t h small e (ground arith),
              ground (
                arith,
                length-release_parent t.parent (remove name tables),
                length-remove name tables,
              ),
            )
    ]
  ]

  -- Committing creations and deletions of tables, in whichever order the map yields them, keeps the
  -- tables a forest whose counts are the numbers of forks, also where the commit stops at an error,
  -- as long as the tables do not come near the bound of `usize`.
  pub meta_commit-IsForest :
      (alters : Alters Atom EnumType) (tables : Tables Atom EnumType) (file : F)
      → IsForest tables
      → length tables + length alters < usize_mod
      → IsForest (meta_commit coding lf alters tables file).1
  unfolding meta_commit
  meta_commit-IsForest [] tables file h small = h
  meta_commit-IsForest ((name, m) ∷ rest) tables file h small =
      let (r, tables', file') = alter_one coding lf name m tables file in
      let (kept, grown) = alter_one-IsForest name m tables file h (omega arith) in
      let ih = meta_commit-IsForest rest tables' file' kept (omega arith) in
      elim (Result-cases r) [
        | inl (_, e) ↦ rw (e, meta_commit) ih
        | inr (_, e) ↦ rw (e, meta_commit) kept
      ]

  -- A fork that passes `fork_prepare_inner`, of a table that is there, keeps the tables a forest whose
  -- counts are the numbers of forks, whether or not the log file can be split. If it can, the new
  -- table is there with the forked table as its parent, which counts one more.
  pub fork_commit-IsForest :
      (force_fork : F → SResult ℕ × F) (name fork : Atom) (m : TabMeta EnumType) (tab_file file : F)
      (tables : Tables Atom EnumType) (v : TableMetaInfo Atom EnumType)
      → IsForest tables
      → length tables + 1 < usize_mod
      → fork_prepare_inner tables fork ≡ ok tt
      → lookup name tables ≡ some v
      → let (r, tab_file', tables', file') =
          fork_commit_inner coding lf force_fork name fork m tab_file tables file in
        IsForest tables'
        × (r ≡ ok tt
            → ((t : TableMetaInfo Atom EnumType) × (lookup fork tables' ≡ some t)
                × (t.parent ≡ some name)
                × ((force_fork tab_file).0 ≡ ok (elim t.parent_log_id [ some i ↦ i | none ↦ 0 ])))
              × ((w : TableMetaInfo Atom EnumType) × (lookup name tables' ≡ some w)
                  × (w.ref_count ≡ v.ref_count + 1)))
  unfolding fork_commit_inner fork_prepare_inner
  fork_commit-IsForest force_fork name fork m tab_file file tables v h small free found =
      elim (Result-cases (force_fork tab_file).0) [
        | inr (_, e) ↦ rw (e, fork_commit_inner) (h, λ k. absurd (ground arith))
        | inl (index, e) ↦
            let tmi : TableMetaInfo Atom EnumType = record (new_info fork m) {
              parent = some name;
              parent_log_id = some index;
            } in
            let fresh : lookup fork tables ≡ none = ground arith in
            let apart : (fork == name) ≡ false = ground (arith, ea.beq_iff fork name) in
            let found1 : lookup name (insert fork tmi tables) ≡ some v =
              ground (arith, lookup-insert fork name tmi tables) in
            let counted = h.counted name v found in
            let bounded = children-length name tables in
            rw (e, fork_commit_inner)
              (
                fork-IsForest tables name fork tmi v h small fresh found refl refl,
                λ k.
                    rw (found1, count_fork)
                      (
                        (
                          tmi,
                          ground (
                            arith,
                            lookup-insert name fork (inc_refcount v) (insert fork tmi tables),
                            lookup-insert_self fork tmi tables,
                            ea.beq_iff name fork,
                            ea.beq_iff fork name,
                          ),
                          refl,
                          refl,
                        ),
                        (
                          inc_refcount v,
                          lookup-insert_self name (inc_refcount v) (insert fork tmi tables),
                          ground arith,
                        ),
                      ),
              )
      ]
