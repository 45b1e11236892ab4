-- ===== src/Examples/Clients.antt =====
-- The theorems on a client of several tables and on iterators, at a concrete world.
use pi_db.Mgr.Written.{IsInjective, AllOpen}
use pi_db.Base.{
  nat_eq, list_eq, pair_eqb_iff, pair_eq, ℕ, ◌≡◌, refl, sym, ◌∙◌, ◌≢◌, ◌⊎◌, inl, inr, true, Option,
  none, some, List, [], ◌∷◌, map, arith,
}
use pi_db.Data.{
  TabMeta, duplicate_fork_tab_name_in_meta_tab, Bytes, prepar_ok, commited, TxState, TabKv, ok,
}
use pi_db.HashMap.{lookup}
use pi_db.Examples.{same_bytes-Canonical, key1, key2, value1, value2, item}
use pi_db.Examples.Tables.{txn2-IsOverlay}
use pi_db.Examples.Wares.{outside, world, txn4-IsOverlay}
use pi_db.Iter.{Boxes, done, fault, new_box, drain, drop_iter, next_key}
use pi_db.Iter.Drained.{drain-drops}
use pi_db.Iter.Freed.{next_key-frees}
use pi_db.Mgr.{failed, passed, Tr}
use pi_db.Mgr.Calls.{modify, query}
use pi_db.Mgr.Grouping.{numbered}
use pi_db.Mgr.Session.{answer_after, modify-answered}
use pi_db.Ware.{
  DatabaseWareSnapshot, DatabaseTabTxn, DatabaseMetaTxn, mem_tab_txn, log_file_tab_txn,
}
use pi_db.Ware.Dispatch.{libraries}
use pi_db.Mgr.Phases as Phases
use pi_db.Mgr.Phases.{values}
use pi_db.Mgr.Storing.{Each}
use pi_db.Ware.Apart.{IsAlone, stored}
use pi_db.Ware.Reads.{seen}
use pi_db.Ware.Stored.{libraries-stores_all}
use pi_db.Ware.Forked.{libraries-replaces_table}
use pi_db.Ware.Txns.{txn_fork_prepare}
use pi_db.Fork.{new_info}
use pi_db.Examples.Forks.{leaf_info}
use pi_db.Ware.Client.{libraries_tabular}

abbrev no_boxes : Boxes ℕ
no_boxes = record { next = 0; cell = λ p. none }

drain-drops_example :
    let (p, h1) = new_box (5 ∷ 6 ∷ []) no_boxes in
    (h2 h3 : Boxes ℕ) × (drain 3 p h1 ≡ done (some (5 ∷ 6 ∷ [])) h2)
    × (drop_iter p h2 ≡ done tt h3)
    × (h3.cell p ≡ none)
    × ((q : ℕ) → q ≢ p → h3.cell q ≡ no_boxes.cell q)
drain-drops_example = drain-drops (5 ∷ 6 ∷ []) 3 no_boxes (omega arith)

next_key-frees_example :
    let (p, h1) = new_box (5 ∷ 6 ∷ []) no_boxes in
    (r : Option ℕ) × (h2 : Boxes ℕ) × (next_key p h1 ≡ done r h2)
    × (next_key p h2 ≡ fault)
    × (drop_iter p h2 ≡ fault)
next_key-frees_example = next_key-frees (5 ∷ 6 ∷ []) no_boxes

-- a table in memory and one with a log file, each with a transaction
abbrev client : Tr DatabaseWareSnapshot DatabaseTabTxn DatabaseMetaTxn ℕ ℕ ℕ
client = record {
  writable = true;
  id = 9;
  ware_log_map = [];
  state = TxState.ok;
  tab_txns = ((0, 1), mem_tab_txn 0) ∷ ((0, 2), log_file_tab_txn 0) ∷ [];
  meta_txns = [];
  fork_txns = [];
}

abbrev writes : List (TabKv ℕ)
writes =
    item key1 (some value2) ∷ item key1 none ∷ record (item key2 (some value1)) { tab = 2 } ∷ []

abbrev reads : List (TabKv ℕ)
reads = record (item key2 none) { tab = 2 } ∷ item key1 none ∷ []

client-cases :
    (key : ℕ × ℕ) (t : DatabaseTabTxn)
    → lookup key client.tab_txns ≡ some t
    → ((key ≡ (0, 1)) × (t ≡ mem_tab_txn 0)) ⊎ ((key ≡ (0, 2)) × (t ≡ log_file_tab_txn 0))
unfolding lookup
client-cases key t e =
    ground (arith, pair_eqb_iff {B = ℕ} (0, 1) key, pair_eqb_iff {B = ℕ} (0, 2) key)

mem_ne_file : mem_tab_txn 0 ≢ log_file_tab_txn 0
mem_ne_file e = cc

client-IsInjective : IsInjective client.tab_txns
client-IsInjective a b t e f = elim (client-cases a t e) [
  | inl (p, q) ↦ elim (client-cases b t f) [
    | inl (r, s) ↦ p ∙ sym r
    | inr (r, s) ↦ absurd (mem_ne_file (sym q ∙ s))
  ]
  | inr (p, q) ↦ elim (client-cases b t f) [
    | inl (r, s) ↦ absurd (mem_ne_file (sym s ∙ q))
    | inr (r, s) ↦ p ∙ sym r
  ]
]

client-AllOpen :
    AllOpen
      (libraries outside)
      (libraries_tabular outside same_bytes-Canonical)
      client.tab_txns
      world
client-AllOpen key t e = elim (client-cases key t e) [
  | inl (p, q) ↦ rw q txn2-IsOverlay
  | inr (p, q) ↦ rw q txn4-IsOverlay
]

modify-answered_example :
    let libs = libraries outside in
    let tabular = libraries_tabular outside same_bytes-Canonical in
    let (r, tr1, w1) = modify libs writes client world in
    let (q, tr2, w2) = query libs (item [] none) reads tr1 w1 in
    (r ≡ ok tt)
    × (q
        ≡ some (
            ok (
              map
                (answer_after (λ t. tabular.seen t world) client.tab_txns writes)
                (numbered 1 reads))))
unfolding lookup
modify-answered_example =
    modify-answered (libraries outside) (libraries_tabular outside same_bytes-Canonical) writes
      reads (item [] none) client world
      ((mem_tab_txn 0, refl), ((mem_tab_txn 0, refl), ((log_file_tab_txn 0, refl), tt)))
      ((log_file_tab_txn 0, refl), ((mem_tab_txn 0, refl), tt)) client-IsInjective client-AllOpen
      (λ e. ground arith) (omega arith)

client-IsAlone : Each (λ t. IsAlone outside t world) (values client.tab_txns)
client-IsAlone = ((refl, refl, txn2-IsOverlay), ((refl, refl, txn4-IsOverlay), tt))

libraries-stores_all_example :
    let libs = libraries outside in
    let (v, tr1, w1) = Phases.prepare libs client world in
    let (v', tr2, w2) = Phases.commit libs tr1 w1 in
    (v ≡ passed)
    × (tr1.state ≡ prepar_ok)
    × (v' ≡ passed)
    × (tr2.state ≡ commited)
    × Each
        (λ t. (k : Bytes) → stored outside t w2 k ≡ seen outside t world k)
        (values client.tab_txns)
libraries-stores_all_example =
    libraries-stores_all outside same_bytes-Canonical client world refl refl (λ e. ground arith)
      ((tt, tt), (tt, tt)) client-IsAlone

-- the second table is there already
abbrev forking : Tr DatabaseWareSnapshot DatabaseTabTxn DatabaseMetaTxn ℕ ℕ ℕ
forking = record client {
  tab_txns = [];
  fork_txns = ((0, (1, 2)), (record { k = 0; v = 1 }, log_file_tab_txn 0)) ∷ [];
}

libraries-replaces_table_example :
    let libs = libraries outside in
    let m : TabMeta ℕ = record { k = 0; v = 1 } in
    let (v, tr1, w1) = Phases.prepare libs forking world in
    let (v', tr2, w2) = Phases.commit libs tr1 w1 in
    ((txn_fork_prepare outside (log_file_tab_txn 0) 0 1 2 m world).0
      ≡ failed duplicate_fork_tab_name_in_meta_tab)
    × (v ≡ passed)
    × (tr1.state ≡ prepar_ok)
    × (v' ≡ passed)
    × (tr2.state ≡ commited)
    × (lookup 2 w2.all_tables
        ≡ some (record (new_info 2 m) { parent = some 1; parent_log_id = some 3 }))
unfolding lookup
libraries-replaces_table_example =
    libraries-replaces_table outside forking world 0 0 1 2 (record { k = 0; v = 1 }) leaf_info 3
      refl refl refl refl (λ q. ground arith) refl
