-- ===== src/Ware/Shots.antt =====
-- `DatabaseWare` and `DatabaseWareSnapshot` of src/mgr.rs, with `MemDB` and `MemDBSnapshot` of
-- src/memery_db.rs and `LogFileDB` and `LogFileDBSnapshot` of src/log_file_db.rs, which do the same
-- but for the kind of table that they open and of transaction that they start.
--
-- The name iterator is the list of what it yields.
use pi_db.Base.{Eq, nat_eq, list_eq, pair_eq, Bool, false, Option, none, List, [], map}
use pi_db.Data.{SResult, DbResult, TabMeta, ok, err}
use pi_db.Tabs.{TabLog, alter, tab_meta}
use pi_db.Tabs.Phases.{snapshot, tabs_prepare, tabs_commit, tabs_rollback}
use pi_db.Ware.{
  World, Outside, alloc, assign, TxnType, mem_txn, log_file_txn, BuildDbType, memory_db,
  log_file_db, tabs_at, put_tabs, Shot, TabsRef, DatabaseWare, mem_ware, log_file_ware,
  DatabaseWareSnapshot, mem_snapshot, log_file_snapshot, DatabaseTabTxn, mem_tab_txn,
  log_file_tab_txn, DatabaseMetaTxn, mem_meta_txn, log_file_meta_txn,
}
use pi_db.Ware.Build.{build_txn}

-- The function of the payload that each function of the enums calls.
abbrev pub tabs_of : DatabaseWare → TabsRef
tabs_of (mem_ware db) = db
tabs_of (log_file_ware db) = db

abbrev pub shot_of : DatabaseWareSnapshot → Shot
shot_of (mem_snapshot shot) = shot
shot_of (log_file_snapshot shot) = shot

abbrev pub build_type : DatabaseWareSnapshot → BuildDbType
build_type (mem_snapshot shot) = memory_db
build_type (log_file_snapshot shot) = log_file_db

abbrev pub wrap : TxnType → DatabaseTabTxn
wrap (mem_txn t) = mem_tab_txn t
wrap (log_file_txn t) = log_file_tab_txn t

module _ {G M T Atom EnumType F P : Type 0} where
  abbrev pub log_of : DatabaseWareSnapshot → World G M T Atom EnumType F P → TabLog Atom EnumType T
  log_of ware w = w.logs.cell (shot_of ware).log_at

  -- `clone_map`: the map is shared, the preparations are new
  abbrev pub clone_map :
      TabsRef → World G M T Atom EnumType F P → TabsRef × World G M T Atom EnumType F P
  clone_map r w =
      let (at, prepares') = alloc [] w.prepares in
      (record { map_at = r.map_at; prepare_at = at }, record w { prepares = prepares' })

  -- `tabs_clone`
  unfoldable pub tabs_clone :
      DatabaseWare → World G M T Atom EnumType F P → DatabaseWare × World G M T Atom EnumType F P
  tabs_clone (mem_ware db) w = let (db', w') = clone_map db w in (mem_ware db', w')
  tabs_clone (log_file_ware db) w = let (db', w') = clone_map db w in (log_file_ware db', w')

  abbrev pub take_shot :
      TabsRef → World G M T Atom EnumType F P → Shot × World G M T Atom EnumType F P
  take_shot db w =
      let (at, logs') = alloc (snapshot (tabs_at db w)) w.logs in
      (record { db = db; log_at = at }, record w { logs = logs' })

  -- `snapshot` of `DatabaseWare`
  unfoldable pub ware_snapshot :
      DatabaseWare
      → World G M T Atom EnumType F P
      → DatabaseWareSnapshot × World G M T Atom EnumType F P
  unfolding snapshot
  ware_snapshot (mem_ware db) w = let (shot, w') = take_shot db w in (mem_snapshot shot, w')
  ware_snapshot (log_file_ware db) w =
      let (shot, w') = take_shot db w in (log_file_snapshot shot, w')

  -- `check` of both snapshots
  unfoldable pub shot_check :
      DatabaseWareSnapshot
      → Atom
      → Option (TabMeta EnumType)
      → World G M T Atom EnumType F P
      → DbResult
  shot_check ware tab m w = ok tt

  -- `meta_txn`: the transaction of a library with log files has its own changes
  unfoldable pub shot_meta_txn :
      DatabaseWareSnapshot
      → G
      → World G M T Atom EnumType F P
      → DatabaseMetaTxn × World G M T Atom EnumType F P
  shot_meta_txn (mem_snapshot shot) id w = (mem_meta_txn, w)
  shot_meta_txn (log_file_snapshot shot) id w =
      let (at, alters') = alloc [] w.alters in (log_file_meta_txn at, record w { alters = alters' })

module _ {G M T Atom EnumType F P : Type 0} ⦃ea : Eq Atom⦄
    (out : Outside G M T Atom EnumType F P) where
  -- `tab_info` and `list` of a library
  unfoldable pub ware_tab_info :
      DatabaseWare → Atom → World G M T Atom EnumType F P → Option (TabMeta EnumType)
  ware_tab_info ware tab_name w =
      tab_meta out.tab_trees (w.maps.cell (tabs_of ware).map_at) tab_name

  unfoldable pub ware_list : DatabaseWare → World G M T Atom EnumType F P → List Atom
  ware_list ware w =
      map (λ e. e.0) (out.tab_trees.iter (w.maps.cell (tabs_of ware).map_at) none false)

  -- `tab_info` and `list` of a snapshot
  unfoldable pub shot_tab_info :
      DatabaseWareSnapshot → Atom → World G M T Atom EnumType F P → Option (TabMeta EnumType)
  shot_tab_info ware tab_name w = tab_meta out.tab_trees (log_of ware w).map tab_name

  unfoldable pub shot_list : DatabaseWareSnapshot → World G M T Atom EnumType F P → List Atom
  shot_list ware w = map (λ e. e.0) (out.tab_trees.iter (log_of ware w).map none false)

  unfoldable pub shot_alter :
      DatabaseWareSnapshot
      → Atom
      → Option (TabMeta EnumType)
      → World G M T Atom EnumType F P
      → World G M T Atom EnumType F P
  unfolding alter
  shot_alter ware tab_name m w =
      let (log', cells') = alter out.tab_trees tab_name m (log_of ware w) w.cells in
      record w { logs = assign (shot_of ware).log_at log' w.logs; cells = cells' }

module _ {G M T Atom EnumType F P : Type 0} ⦃eg : Eq G⦄ ⦃ea : Eq Atom⦄
    (out : Outside G M T Atom EnumType F P) where
  unfoldable pub shot_prepare :
      DatabaseWareSnapshot
      → G
      → World G M T Atom EnumType F P
      → DbResult × World G M T Atom EnumType F P
  unfolding tabs_prepare
  shot_prepare ware id w =
      let shot = shot_of ware in
      let (r, log', tabs') = tabs_prepare out.tab_trees id (log_of ware w) (tabs_at shot.db w) in
      (r, put_tabs shot.db tabs' (record w { logs = assign shot.log_at log' w.logs }))

  unfoldable pub shot_commit :
      DatabaseWareSnapshot → G → World G M T Atom EnumType F P → World G M T Atom EnumType F P
  unfolding tabs_commit
  shot_commit ware id w =
      let shot = shot_of ware in
      let (tabs', cells') = tabs_commit out.tab_trees id (tabs_at shot.db w) w.cells in
      put_tabs shot.db tabs' (record w { cells = cells' })

  unfoldable pub shot_rollback :
      DatabaseWareSnapshot → G → World G M T Atom EnumType F P → World G M T Atom EnumType F P
  unfolding tabs_rollback
  shot_rollback ware id w =
      let shot = shot_of ware in put_tabs shot.db (tabs_rollback id (tabs_at shot.db w)) w

module _ {G M T Atom EnumType F P : Type 0} ⦃eg : Eq G⦄ ⦃ea : Eq Atom⦄ ⦃ep : Eq P⦄
    (out : Outside G M T Atom EnumType F P) where
  -- `tab_txn` of a snapshot
  unfoldable pub shot_tab_txn :
      DatabaseWareSnapshot
      → Atom
      → G
      → Bool
      → World G M T Atom EnumType F P
      → SResult DatabaseTabTxn × World G M T Atom EnumType F P
  unfolding build_txn
  shot_tab_txn ware tab_name id writable w =
      let (r, w') = build_txn out (build_type ware) tab_name id writable (log_of ware w) w in
      (elim r [ err e ↦ err e | ok t ↦ ok (wrap t) ], w')
