-- ===== src/Mgr/Written.antt =====
-- What modifications of several tables do (`modify` of `Tr` in src/mgr.rs).
use pi_db.Base.{
  ◌∙◌, ◌≢◌, Bool-cases, false, if◌then◌else◌, Option-cases, Eq, ◌==◌, nat_eq, list_eq, pair_eqb_iff,
  pair_eq, All, ℕ, suc, ◌≡◌, refl, ap, inl, inr, ◌&&◌, Option, none, some, List, [], ◌∷◌, ◌++◌,
  arith,
}
use pi_db.Data.{doing, Bytes, Bin, TabKv, ok}
use pi_db.HashMap.{HashMap, lookup}
use pi_db.HashMap.Laws.{Distinct, lookup-insert, Distinct-insert}
use pi_db.Mgr.{Database, Tr}
use pi_db.Mgr.Batch.{tab_map, Groups, push_item, tab_map_from}
use pi_db.Mgr.Calls.{modify, modify_all, build_all}
use pi_db.Mgr.Tabular.{Tabular}
use pi_db.Mgr.Served.{tab_map_from-IsServed, HasTxn, IsServed, build_known}
use pi_db.Snapshot.Effect.{effect}

module _ {Atom : Type 0} ⦃ea : Eq Atom⦄ where
  -- The value of a table's key after a call with the items: the first item of the key counts, since
  -- `tab_map` turns the items of a table round.
  abbrev pub tab_effect : Atom × Atom → List (TabKv Atom) → Bytes → Option Bin → Option Bin
  tab_effect key [] k o = o
  tab_effect key (x ∷ arr) k o =
      let rest = tab_effect key arr k o in
      if (x.ware, x.tab) == key && x.key == k then x.value else rest

  abbrev effect_of : Option (List (TabKv Atom)) → Bytes → Option Bin → Option Bin
  effect_of none k o = o
  effect_of (some g) k o = effect g k o

  effect-snoc :
      (g : List (TabKv Atom)) (x : TabKv Atom) (k : Bytes) (o : Option Bin)
      → effect (g ++ (x ∷ [])) k o ≡ (if x.key == k then x.value else effect g k o)
  unfolding effect
  effect-snoc [] x k o = refl
  effect-snoc (y ∷ g) x k o = effect-snoc g x k (if y.key == k then y.value else o)

  effect_of-push_item :
      (x : TabKv Atom) (m : Groups Atom) (key : Atom × Atom) (k : Bytes) (o : Option Bin)
      → effect_of (lookup key (push_item x m)) k o
        ≡ (if (x.ware, x.tab) == key && x.key == k then x.value else effect_of (lookup key m) k o)
  unfolding push_item effect
  effect_of-push_item x m key k o = elim (Option-cases (lookup (x.ware, x.tab) m)) [
    | inl e ↦
        ground
          (arith, lookup-insert (x.ware, x.tab) key (x ∷ []) m, pair_eqb_iff (x.ware, x.tab) key)
    | inr (r, e) ↦ ground (
      arith,
      lookup-insert (x.ware, x.tab) key (r ++ (x ∷ [])) m,
      pair_eqb_iff (x.ware, x.tab) key,
      effect-snoc r x k o,
    )
  ]

  effect_of-tab_map_from :
      (n : ℕ) (arr : List (TabKv Atom)) (key : Atom × Atom) (k : Bytes) (o : Option Bin)
      → effect_of (lookup key (tab_map_from n arr)) k o ≡ tab_effect key arr k o
  unfolding tab_map_from lookup
  effect_of-tab_map_from n [] key k o = refl
  effect_of-tab_map_from n (x ∷ arr) key k o = ground (
    arith,
    effect_of-push_item (record x { index = n }) (tab_map_from (suc n) arr) key k o,
    effect_of-tab_map_from (suc n) arr key k o,
  )

  tab_map_from-Distinct : (n : ℕ) (arr : List (TabKv Atom)) → Distinct (tab_map_from n arr)
  unfolding tab_map_from push_item
  tab_map_from-Distinct n [] = tt
  tab_map_from-Distinct n (x ∷ arr) =
      let m = tab_map_from (suc n) arr in
      let d = tab_map_from-Distinct (suc n) arr in
      elim (Option-cases (lookup (x.ware, x.tab) m)) [
        | inl e ↦ rw (push_item, e) (Distinct-insert (x.ware, x.tab) _ m d)
        | inr (r, e) ↦ rw (push_item, e) (Distinct-insert (x.ware, x.tab) _ m d)
      ]

module _ {Txn Atom : Type 0} ⦃ea : Eq Atom⦄ where
  -- the transactions of the groups
  abbrev served :
      (txns : HashMap (Atom × Atom) Txn) (gs : Groups Atom)
      → All (IsServed txns) gs
      → List (Txn × List (TabKv Atom))
  served txns [] h = []
  served txns ((key, g) ∷ gs) (((t, _), _), h) = (t, g) ∷ served txns gs h

  -- Two tables never share a transaction.
  abbrev pub IsInjective : HashMap (Atom × Atom) Txn → Type 0
  IsInjective txns =
      (a b : Atom × Atom) (t : Txn) → lookup a txns ≡ some t → lookup b txns ≡ some t → a ≡ b

module _ {W Ware Txn Meta G Atom EnumType : Type 0} ⦃ea : Eq Atom⦄
    (db : Database W Ware Txn Meta G Atom EnumType) {IsOpen : Txn → W → Type 0}
    (tabular : Tabular db IsOpen) where
  build_all-served :
      (gs : Groups Atom) (tr : Tr Ware Txn Meta G Atom EnumType) (w : W)
      (h : All (IsServed tr.tab_txns) gs)
      → build_all db gs tr w ≡ (ok (served tr.tab_txns gs h), tr, w)
  unfolding build_all
  build_all-served [] tr w h = refl
  build_all-served (((ware, tab), g) ∷ gs) tr w (((t, there), all), h) =
      let built = build_known db ware tab tr w t there in
      let rest = build_all-served gs tr w h in
      ground (
        arith,
        ap (λ p. p.0) built,
        ap (λ p. p.1) built,
        ap (λ p. p.2) built,
        ap (λ p. p.0) rest,
        ap (λ p. p.1) rest,
        ap (λ p. p.2) rest,
      )

  -- the transactions of the tables are not prepared
  abbrev pub AllOpen : HashMap (Atom × Atom) Txn → W → Type 0
  AllOpen txns w = (key : Atom × Atom) (t : Txn) → lookup key txns ≡ some t → IsOpen t w

  modify_all-seen :
      (txns : HashMap (Atom × Atom) Txn) (gs : Groups Atom) (w : W) (h : All (IsServed txns) gs)
      → IsInjective txns
      → Distinct gs
      → AllOpen txns w
      → let (error, w') = modify_all db (served txns gs h) w in
        (error ≡ false)
        × ((key : Atom × Atom) (t : Txn) (k : Bytes)
            → lookup key txns ≡ some t
            → tabular.seen t w' k ≡ effect_of (lookup key gs) k (tabular.seen t w k))
        × AllOpen txns w'
  unfolding modify_all lookup
  modify_all-seen txns [] w h inj d o = (refl, λ key t k e. refl, o)
  modify_all-seen txns ((key0, g) ∷ gs) w (((t0, there0), all), h) inj d o =
      let w1 = (db.txn_modify t0 g w).1 in
      let open0 = o key0 t0 there0 in
      let (fine, seen, kept) =
        modify_all-seen txns gs w1 h inj d.1
          (λ key t e. tabular.modify-IsOpen t0 t g w open0 (o key t e)) in
      (
        ground (arith, tabular.modify-ok t0 g w open0),
        λ key t k e. elim (Bool-cases (key0 == key)) [
          | inl same ↦
              let is_key : key0 ≡ key = (pair_eqb_iff key0 key).0 same in
              let is_t : t0 ≡ t = ground (arith, is_key) in
              ground (arith, seen key t k e, tabular.modify-seen t0 g w k open0, is_t, d.0)
          | inr other ↦
              let apart : t0 ≢ t = λ is_t.
                ground (arith, inj key0 key t (there0 ∙ ap some is_t) e, pair_eqb_iff key0 key) in
              ground (arith, seen key t k e, tabular.modify-other t0 t g w k apart)
        ],
        kept,
      )

  -- Let every table of the items have a transaction of its own that has not been prepared. Then
  -- modifications succeed, and each transaction sees of each key the value of the first item for it,
  -- or what it saw before if no item is for the key.
  pub modify-tab_effect :
      (arr : List (TabKv Atom)) (tr : Tr Ware Txn Meta G Atom EnumType) (w : W)
      → All (HasTxn tr.tab_txns) arr
      → IsInjective tr.tab_txns
      → AllOpen tr.tab_txns w
      → let (r, tr', w') = modify db arr tr w in
        (r ≡ ok tt)
        × (tr'.tab_txns ≡ tr.tab_txns)
        × ((key : Atom × Atom) (t : Txn) (k : Bytes)
            → lookup key tr.tab_txns ≡ some t
            → tabular.seen t w' k ≡ tab_effect key arr k (tabular.seen t w k))
        × AllOpen tr.tab_txns w'
  unfolding modify tab_map
  modify-tab_effect [] tr w h inj o = (refl, refl, λ key t k e. refl, o)
  modify-tab_effect (x ∷ arr) tr w h inj o =
      let gs = tab_map (x ∷ arr) in
      let txns = tr.tab_txns in
      let all = tab_map_from-IsServed txns 1 (x ∷ arr) h in
      let built = build_all-served gs (record tr { state = doing }) w all in
      let (fine, seen, kept) =
        modify_all-seen txns gs w all inj (tab_map_from-Distinct 1 (x ∷ arr)) o in
      let w2 = (modify_all db (served txns gs all) w).1 in
      let whole : modify db (x ∷ arr) tr w ≡ (ok tt, record tr { state = doing }, w2) =
        ground (arith, ap (λ p. p.0) built, ap (λ p. p.1) built, ap (λ p. p.2) built, fine) in
      rw whole (
        refl,
        refl,
        λ key t k e. seen key t k e ∙ effect_of-tab_map_from 1 (x ∷ arr) key k (tabular.seen t w k),
        kept,
      )
