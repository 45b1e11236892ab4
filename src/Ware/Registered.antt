-- ===== src/Ware/Registered.antt =====
-- What the start of a library with log files has registered after its loop over `tabs_meta` (`new` of
-- `LogFileDB` in src/log_file_db.rs).

use pi_db.Ware.Startup.{register, Registered, Opening}
use pi_db.Tabs.{Cells, unkonwn}
use pi_db.Mgr.Phases.{names}
use mathlib.Core.List.{map-append, append_assoc}
use pi_db.Base.{
  true, length-append, length, ◌++◌, Eq, nat_eq, list_eq, pair_eq, ℕ, suc, ◌≡◌, ap, ◌∙◌, some, List,
  [], ◌∷◌, arith,
}
use pi_db.HashMap.{insert}
use pi_db.Fork.{Tables, TableMetaInfo}

module _ {Atom EnumType : Type 0} ⦃ea : Eq Atom⦄ where
  abbrev pub insert_infos :
      List (Atom × TableMetaInfo Atom EnumType) → Tables Atom EnumType → Tables Atom EnumType
  insert_infos [] tables = tables
  insert_infos ((name, info) ∷ l) tables = insert_infos l (insert name info tables)

module _ {Atom EnumType : Type 0} where
  -- a cell for each table, none of which is opened
  abbrev pub new_cells : List (Atom × TableMetaInfo Atom EnumType) → Cells ℕ ℕ
  new_cells [] = []
  new_cells (_ ∷ l) = record { tab_type = unkonwn; wait = some true } ∷ new_cells l

module _ {T Atom EnumType : Type 0} (o : Opening T Atom EnumType) where
  -- each table put into the map with its types, and with a cell of its own, from `n` on
  abbrev pub put_infos : List (Atom × TableMetaInfo Atom EnumType) → ℕ → T → T
  put_infos [] n m = m
  put_infos ((name, info) ∷ l) n m =
      put_infos l (suc n) (o.put m name (record { meta_info = info.meta_info; init = n })).1

module _ {T Atom EnumType : Type 0} ⦃ea : Eq Atom⦄ (o : Opening T Atom EnumType) where
  -- what the registration of the tables of a list has done
  pub record IsRegistered (l : List (Atom × TableMetaInfo Atom EnumType))
      (s s' : Registered T Atom EnumType) : Type 0 where
    pub tables : s'.all_tables ≡ insert_infos l s.all_tables
    pub map : s'.map ≡ put_infos o l (length s.cells) s.map
    pub cells : s'.cells ≡ s.cells ++ new_cells l
    pub tasks : names s'.tasks ≡ names s.tasks ++ names l

  pub IsRegistered-first :
      (name : Atom) (info : TableMetaInfo Atom EnumType)
      (chains : List (TableMetaInfo Atom EnumType)) (l : List (Atom × TableMetaInfo Atom EnumType))
      (s s' : Registered T Atom EnumType)
      → let s1 = register o name info s in
        IsRegistered l (record s1 { tasks = s1.tasks ++ ((name, chains) ∷ []) }) s'
        → IsRegistered ((name, info) ∷ l) s s'
  IsRegistered-first name info chains l s s' h = record {
    tables = h.tables;
    map =
        h.map
        ∙ ap (λ n. put_infos o l n (register o name info s).map)
            (length-append s.cells _ ∙ omega (arith));
    cells = h.cells ∙ append_assoc s.cells _ (new_cells l);
    tasks =
        h.tasks
        ∙ ap (λ a. a ++ names l) (map-append (λ e. e.0) s.tasks _)
        ∙ append_assoc (names s.tasks) _ (names l);
  }
