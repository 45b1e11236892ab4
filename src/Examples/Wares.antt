-- ===== src/Examples/Wares.antt =====
-- The theorems on libraries and on tables that are opened, at a concrete world.
use pi_db.Snapshot.Effect.{effect, answers}
use pi_db.Base.{
  nat_eq, list_eq, pair_eq, ℕ, ◌≡◌, refl, true, false, Option, none, some, List, [], ◌∷◌, arith,
}
use pi_db.Data.{Bytes, TabMeta, ok, doing}
use pi_db.HashMap.{HashMap, lookup}
use pi_db.Examples.{
  Tree, trees, same_bytes, same_bytes-Canonical, clock, key1, key2, value1, item, tree1, table1,
  txn2, MemFile, mem_file,
}
use pi_db.Examples.Changes.{Infos, infos, types1, types2, before, info_eq}
use pi_db.Examples.Tables.{txn2-IsOverlay}
use pi_db.OrdMap.Versioned.{versioned}
use pi_db.Tabs.{unkonwn}
use pi_db.Examples.Forks.{coding, root_info, leaf_info, forest}
use pi_db.LogStore.File.{Record, plain_append, removes, view}
use pi_db.LogTab.Load.{Reader, new_log_file_tab}
use pi_db.LogTab.Inherited.{new_log_file_tab-view, bytes_of, inherited}
use pi_db.LogTab.{LogFileTab}
use pi_db.LogStore.Recovery.{records}
use pi_db.Tabs.Altered.{changed}
use pi_db.Ware.{
  log_file_tab_txn, mem_txn, DatabaseWare, TxnType, World, Outside, Arena, mem_ware, mem_tab_txn,
  memory_db,
}
use pi_db.Ware.Build.{build_txn}
use pi_db.Ware.Opened.{build_txn-shares, IsSameTables, table_of}
use pi_db.Ware.Reads.{modify-query, IsOpen, seen}
use pi_db.Ware.Txns.{query, modify}
use pi_db.Ware.Clones.{tabs_clone-loses_first}
use pi_db.Ware.Shots.{
  tabs_clone, ware_snapshot, ware_tab_info, shot_tab_info, shot_prepare, shot_commit,
}
use pi_db.Ware.Changes.{shot_alter_all, changes_session}

-- the fork has removed the first key and written the second; its parent has the first
abbrev pub leaf_log : List (ℕ × Record)
leaf_log =
    (0, record { method = removes; key = key1; value = [] })
    ∷ (0, record { method = plain_append; key = key2; value = 5 ∷ [] })
    ∷ []

abbrev pub parent_log : List (ℕ × Record)
parent_log = (0, record { method = plain_append; key = key1; value = 4 ∷ [] }) ∷ []

abbrev pub reader : Reader ℕ MemFile ℕ
reader = record {
  open_leaf = λ name index. some (([], []), leaf_log);
  open_above = λ name index part. some (([], []), parent_log);
}

new_log_file_tab-view_example :
    (t : LogFileTab ℕ Tree ℕ MemFile ℕ) × (new_log_file_tab reader trees 50 2
        (leaf_info ∷ root_info ∷ [])
      ≡ some t)
    × ((k : Bytes) → lookup k t.store.map ≡ view (records leaf_log) k)
    × ((k : Bytes)
        → bytes_of (trees.get t.root k) ≡ inherited (parent_log ∷ []) k (view (records leaf_log) k))
    × (t.prepare ≡ [])
new_log_file_tab-view_example =
    new_log_file_tab-view reader trees same_bytes-Canonical 50 2 (leaf_info ∷ root_info ∷ [])
      ([], []) leaf_log (parent_log ∷ []) refl (((([], []), refl)), tt)

abbrev pub arena : {A : Type 0} → A → Arena A
arena a = record { next = 1; cell = λ p. a }

abbrev pub outside : Outside ℕ Tree Infos ℕ ℕ MemFile ℕ
outside = record {
  time = clock;
  now = 10;
  same = same_bytes;
  trees = trees;
  tab_trees = infos;
  log_file = mem_file;
  reader = reader;
  coding = coding;
  force_fork = λ f. (ok 3, f);
  base = λ tab. 50;
  fuel = 3;
}

abbrev pub world : World ℕ Tree Infos ℕ ℕ MemFile ℕ
world = record {
  mem_tabs = arena table1;
  mem_txns = arena (record { tab = 0; txn = txn2 });
  file_tabs = arena (record {
    prepare = [];
    root = tree1;
    tab = 2;
    store = record {
      removed = [];
      map = [];
      log_file = ([], []);
      tmp_map = [];
      writable_path = none;
      is_statistics = false;
      is_init = false;
      statistics = [];
    };
  });
  file_txns = arena (record {
    tab = 0;
    txn = record { id = 4; writable = true; root = tree1; old = tree1; rwlog = []; state = doing };
  });
  cells = record { tab_type = unkonwn; wait = some true } ∷ [];
  maps = arena before;
  prepares = arena [];
  logs = arena (record {
    map = before;
    old_map = before;
    meta_names = [];
    alter_logs = [];
    rename_logs = [];
  });
  alters = arena [];
  log_file_tabs = [];
  all_tables = forest;
  meta_file = ([], []);
  iters = record { next = 0; cell = λ p. none };
  key_iters = record { next = 0; cell = λ p. none };
  panicked = false;
}

modify-query_example :
    let writes = item key1 none ∷ item key2 (some value1) ∷ [] in
    let reads = item key1 none ∷ item key2 none ∷ [] in
    let (r, w1) = modify outside (mem_tab_txn 0) writes world in
    (r ≡ ok tt)
    × ((query outside (mem_tab_txn 0) reads w1).0
        ≡ ok (answers (λ k. effect writes k (seen outside (mem_tab_txn 0) world k)) reads))
    × IsOpen outside (mem_tab_txn 0) w1
modify-query_example =
    modify-query outside same_bytes-Canonical (mem_tab_txn 0)
      (item key1 none ∷ item key2 (some value1) ∷ []) (item key1 none ∷ item key2 none ∷ []) world
      txn2-IsOverlay

abbrev db : DatabaseWare
db = mem_ware (record { map_at = 0; prepare_at = 0 })

-- the first table gets other types, and a second one is created
abbrev two_changes : HashMap ℕ (Option (TabMeta ℕ))
two_changes = (1, some types2) ∷ (2, some types1) ∷ []

changes_session_example :
    let (shot, w1) = ware_snapshot db world in
    let w2 = shot_alter_all outside shot two_changes w1 in
    let (r, w3) = shot_prepare outside shot 9 w2 in
    let w4 = shot_commit outside shot 9 w3 in
    (r ≡ ok tt)
    × ((n : ℕ)
        → shot_tab_info outside shot n w2
          ≡ changed (lookup n two_changes) (ware_tab_info outside db n world))
    × ((n : ℕ) → ware_tab_info outside db n w3 ≡ ware_tab_info outside db n world)
    × ((n : ℕ)
        → ware_tab_info outside db n w4
          ≡ changed (lookup n two_changes) (ware_tab_info outside db n world))
unfolding lookup
changes_session_example = changes_session outside db 9 two_changes world (refl, (refl, tt)) refl

-- the transaction of the copy gives the first table its old types
abbrev other_changes : HashMap ℕ (Option (TabMeta ℕ))
other_changes = (1, some types1) ∷ []

tabs_clone-loses_first_example :
    let (copy, w1) = tabs_clone db world in
    let (shot, w2) = ware_snapshot db w1 in
    let w3 = shot_alter_all outside shot two_changes w2 in
    let (shot', w4) = ware_snapshot copy w3 in
    let w5 = shot_alter_all outside shot' other_changes w4 in
    let (r, w6) = shot_prepare outside shot 9 w5 in
    let (r', w7) = shot_prepare outside shot' 8 w6 in
    let w9 = shot_commit outside shot' 8 (shot_commit outside shot 9 w7) in
    (r ≡ ok tt)
    × (r' ≡ ok tt)
    × ((n : ℕ)
        → ware_tab_info outside db n w9
          ≡ changed
              (lookup n other_changes)
              (changed (lookup n two_changes) (ware_tab_info outside db n world)))
unfolding lookup
tabs_clone-loses_first_example =
    tabs_clone-loses_first outside db 9 8 two_changes other_changes world (refl, (refl, tt))
      (refl, tt) refl (omega arith)

build_txn-shares_example :
    let w1 = (build_txn outside memory_db 1 9 true (world.logs.cell 0) world).1 in
    let (r, w2) = build_txn outside memory_db 1 8 true (world.logs.cell 0) w1 in
    ((t' : TxnType) × (r ≡ ok t') × (table_of t' w2 ≡ table_of (mem_txn 1) w1)) × IsSameTables w1 w2
unfolding build_txn lookup versioned
build_txn-shares_example =
    build_txn-shares outside memory_db memory_db 1 1 9 8 true true (world.logs.cell 0)
      (world.logs.cell 0) world (record { meta_info = types1; init = 0 })
      (record { meta_info = types1; init = 0 }) (mem_txn 1) refl refl refl (omega arith) refl

pub txn4-IsOverlay : IsOpen outside (log_file_tab_txn 0) world
unfolding lookup
txn4-IsOverlay = record { distinct = tt; view = λ k. refl }
