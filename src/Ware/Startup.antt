-- ===== src/Ware/Startup.antt =====
-- `new` of `LogFileDB` in src/log_file_db.rs: the tables that the log file `tabs_meta` names are
-- registered one after the other, in the order of their names' bytes, and then loaded.
--
-- The tasks that load the tables run one after the other here. A failure to open a file, to read a
-- name or an entry, or to follow a chain of forks panics.
use pi_db.Base.{
  nat_eqb, if◌then◌else◌, Eq, nat_eq, list_eq, pair_eq, ℕ, Bool, Option, none, some, List, [], ◌∷◌,
  ◌++◌, map,
}
use pi_db.Data.{Bytes, TabMeta}
use pi_db.HashMap.{HashMap, insert}
use pi_db.Tabs.{Cells, TabInfo, new_tab_info}
use pi_db.Fork.{Tables, TableMetaInfo, build_fork_chain, Outcome, finished, panicked, unfinished}
use pi_db.LogTab.Load.{new_log_file_tab}
use pi_db.Ware.{World, Outside, TabsRef, alloc, panic}

-- `Decode` of names and entries, and `insert` of the ordered map, which answers whether it has put
-- the entry in
pub record Opening (T Atom EnumType : Type 0) : Type 0 where
  pub name_of : Bytes → Option Atom
  pub info_of : Bytes → Option (TableMetaInfo Atom EnumType)
  pub put : T → Atom → TabInfo EnumType → Bool × T

-- What the loop over the entries builds up: the library's tables with their cells, `ALL_TABLES`, and
-- the tasks, each with the name and the chain of its table.
pub record Registered (T Atom EnumType : Type 0) : Type 0 where
  pub map : T
  pub cells : Cells ℕ ℕ
  pub all_tables : Tables Atom EnumType
  pub tasks : List (Atom × List (TableMetaInfo Atom EnumType))

module _ {T Atom EnumType : Type 0} ⦃ea : Eq Atom⦄ (o : Opening T Atom EnumType) where
  -- `set_tab_meta`
  abbrev pub set_tab_meta : Atom → TabMeta EnumType → T → Cells ℕ ℕ → Bool × T × Cells ℕ ℕ
  set_tab_meta tab m map cells =
      let (info, cells') = new_tab_info m cells in
      let (r, map') = o.put map tab info in (r, map', cells')

  -- one entry, up to the chain of its table
  abbrev pub register :
      Atom → TableMetaInfo Atom EnumType → Registered T Atom EnumType → Registered T Atom EnumType
  register name info s =
      let (_, map', cells') = set_tab_meta name info.meta_info s.map s.cells in
      record s { map = map'; cells = cells'; all_tables = insert name info s.all_tables }

  unfoldable pub register_all :
      ℕ → List (Bytes × Bytes) → Registered T Atom EnumType → Outcome (Registered T Atom EnumType)
  unfolding build_fork_chain insert
  register_all fuel [] s = finished s
  register_all fuel ((k, v) ∷ entries) s = elim (o.name_of k) [
    | none ↦ panicked
    | some name ↦ elim (o.info_of v) [
      | none ↦ panicked
      | some info ↦
          let s' = register name info s in
          elim (build_fork_chain fuel s'.all_tables name) [
            | panicked ↦ panicked
            | unfinished ↦ unfinished
            | finished chains ↦
                register_all fuel entries (record s' { tasks = s'.tasks ++ ((name, chains) ∷ []) })
          ]
    ]
  ]

module _ {G M T Atom EnumType F P : Type 0} ⦃eg : Eq G⦄ ⦃ea : Eq Atom⦄ ⦃ep : Eq P⦄
    (out : Outside G M T Atom EnumType F P) where
  -- the tasks, and the loop over their results
  unfoldable pub load_all_tabs :
      List (Atom × List (TableMetaInfo Atom EnumType))
      → World G M T Atom EnumType F P
      → World G M T Atom EnumType F P
  unfolding new_log_file_tab insert
  load_all_tabs [] w = w
  load_all_tabs ((name, chains) ∷ tasks) w =
      elim (new_log_file_tab out.reader out.trees (out.base name) name chains) [
        | none ↦ panic w
        | some t ↦
            let (at, file_tabs') = alloc t w.file_tabs in
            load_all_tabs tasks
              (record w { file_tabs = file_tabs'; log_file_tabs = insert name at w.log_file_tabs })
      ]

  -- `new`, with the entries of the store over `tabs_meta` after it is loaded
  unfoldable pub new_log_file_db :
      Opening T Atom EnumType
      → HashMap Bytes Bytes
      → World G M T Atom EnumType F P
      → TabsRef × World G M T Atom EnumType F P
  unfolding register_all load_all_tabs
  new_log_file_db o entries w =
      let (map_at, maps') = alloc out.tab_trees.new w.maps in
      let (prepare_at, prepares') = alloc [] w.prepares in
      let r : TabsRef = record { map_at = map_at; prepare_at = prepare_at } in
      elim (register_all o out.fuel entries (record {
        map = out.tab_trees.new;
        cells = w.cells;
        all_tables = w.all_tables;
        tasks = [];
      })) [
        | panicked ↦ (r, panic w)
        | unfinished ↦ (r, panic w)
        | finished s ↦ (
          r,
          load_all_tabs s.tasks (record w {
            maps = record maps' { cell = λ p. if nat_eqb map_at p then s.map else maps'.cell p };
            prepares = prepares';
            cells = s.cells;
            all_tables = s.all_tables;
          }),
        )
      ]
