-- ===== src/Ware/Libs.antt =====
-- `Mgr` and its `WareMap` in src/mgr.rs: the libraries by name, and the start of a transaction.
--
-- `N` is the tree of the libraries, an `OrdMap`; its `insert` and the generator of identifiers, which
-- are of other crates, are parameters.
use pi_db.Base.{
  if◌then◌else◌, ℕ, Eq, nat_eq, list_eq, pair_eq, Bool, true, false, Option, none, some, List, [],
  ◌∷◌, map,
}
use pi_db.Data.{TxState, TabMeta}
use pi_db.HashMap.{HashMap, insert}
use pi_db.OrdMap.{OrdMap}
use pi_db.Mgr.{Tr}
use pi_db.Ware.{World, Outside, DatabaseWare, DatabaseWareSnapshot, DatabaseTabTxn, DatabaseMetaTxn}
use pi_db.Ware.Shots.{ware_snapshot, tabs_clone, ware_tab_info}

-- What is used of the generator of identifiers, of the crate `guid`.
pub record Guids (GuidGen : Type 0) : Type 0 where
  pub new : ℕ → ℕ → GuidGen
  pub node_time : GuidGen → ℕ
  pub node_id : GuidGen → ℕ

-- `Mgr`; the map stands behind a lock, and the generator is shared
pub record Mgr (N GuidGen : Type 0) : Type 0 where
  pub ware_map : N
  pub guid : GuidGen

module _ {N Atom : Type 0} ⦃ea : Eq Atom⦄ (lm : OrdMap ea.beq DatabaseWare N) where
  -- `new`, with that of `WareMap`
  abbrev pub new_mgr : {GuidGen : Type 0} → GuidGen → Mgr N GuidGen
  new_mgr gen = record { ware_map = lm.new; guid = gen }

  unfoldable pub deep_clone :
      {GuidGen : Type 0} → Guids GuidGen → Bool → Mgr N GuidGen → Mgr N GuidGen
  deep_clone guids clone_guid_gen mgr = record {
    ware_map = lm.new;
    guid =
        if clone_guid_gen
        then mgr.guid
        else guids.new (guids.node_time mgr.guid) (guids.node_id mgr.guid);
  }

  -- `register`, of both; `put` is the map's `insert`
  abbrev pub register : (N → Atom → DatabaseWare → Bool × N) → Atom → DatabaseWare → N → Bool × N
  register put ware_name ware m = put m ware_name ware

  -- `find` of `WareMap` and of `Mgr`
  abbrev pub find : N → Atom → Option DatabaseWare
  find m ware_name = lm.get m ware_name

  -- `unregister`, of both
  unfoldable pub unregister : Atom → N → Bool × N
  unregister ware_name m =
      (elim (lm.get m ware_name) [ some _ ↦ true | none ↦ false ], lm.delete m ware_name)

  -- `ware_name_list`
  abbrev pub ware_name_list : N → List Atom
  ware_name_list m = map (λ e. e.0) (lm.iter m none false)

module _ {G M T Atom EnumType F P : Type 0} where
  -- the loop of `wares_clone`
  unfoldable pub clone_all :
      List (Atom × DatabaseWare)
      → World G M T Atom EnumType F P
      → List (Atom × DatabaseWare) × World G M T Atom EnumType F P
  unfolding tabs_clone
  clone_all [] w = ([], w)
  clone_all ((name, ware) ∷ wares) w =
      let (ware', w') = tabs_clone ware w in
      let (wares', w'') = clone_all wares w' in ((name, ware') ∷ wares', w'')

module _ {G M T Atom EnumType F P : Type 0} ⦃ea : Eq Atom⦄ where
  -- the loop of `transaction` over the libraries, into `map`
  unfoldable pub snapshot_all :
      List (Atom × DatabaseWare)
      → HashMap Atom DatabaseWareSnapshot
      → World G M T Atom EnumType F P
      → HashMap Atom DatabaseWareSnapshot × World G M T Atom EnumType F P
  unfolding ware_snapshot insert
  snapshot_all [] map w = (map, w)
  snapshot_all ((k, v) ∷ wares) map w =
      let (shot, w') = ware_snapshot v w in snapshot_all wares (insert k shot map) w'

module _ {N Atom G M T EnumType F P : Type 0} ⦃ea : Eq Atom⦄
    (lm : OrdMap ea.beq DatabaseWare N) where
  -- `transaction`, with the identifier that the generator has given
  unfoldable pub transaction :
      G
      → Bool
      → N
      → World G M T Atom EnumType F P
      → Tr DatabaseWareSnapshot DatabaseTabTxn DatabaseMetaTxn G Atom EnumType
        × World G M T Atom EnumType F P
  unfolding snapshot_all
  transaction id writable m w =
      let (map, w') = snapshot_all (lm.iter m none false) [] w in
      (
        record {
          writable = writable;
          id = id;
          ware_log_map = map;
          state = TxState.ok;
          tab_txns = [];
          meta_txns = [];
          fork_txns = [];
        },
        w',
      )

  -- `shallow_clone`, by `wares_clone`; `from_order` is `Tree::from_order`
  unfoldable pub shallow_clone :
      (List (Atom × DatabaseWare) → N)
      → N
      → World G M T Atom EnumType F P
      → N × World G M T Atom EnumType F P
  unfolding clone_all
  shallow_clone from_order m w =
      let (wares, w') = clone_all (lm.iter m none false) w in (from_order wares, w')

module _ {N G M T Atom EnumType F P : Type 0} ⦃ea : Eq Atom⦄ (out : Outside G M T Atom EnumType F P)
    (lm : OrdMap ea.beq DatabaseWare N) where
  -- `tab_info` of `Mgr`
  unfoldable pub mgr_tab_info :
      Atom → Atom → N → World G M T Atom EnumType F P → Option (TabMeta EnumType)
  unfolding ware_tab_info
  mgr_tab_info ware_name tab_name m w = elim (find lm m ware_name) [
    | some b ↦ ware_tab_info out b tab_name w
    | none ↦ none
  ]
