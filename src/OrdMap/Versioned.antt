-- ===== src/OrdMap/Versioned.antt =====
-- A map that meets the laws of OrdMap.antt: an association list. Two of its handles are the same
-- if their contents are, and it holds each value at an address of its own.
use pi_db.Base.{
  Option, none, some, Bool, true, false, ◌≡◌, refl, ap, arith, [], length, Eq, ◌==◌, ==-refl,
  list_eq, pair_eq,
}
use pi_db.HashMap.{HashMap, lookup, insert, remove}
use pi_db.HashMap.Laws.{lookup-insert, lookup-remove}
use pi_db.OrdMap.{OrdMap}

module _ {V : Type 0} ⦃ev : Eq V⦄ where
  same_value : Option V → Option V → Bool
  same_value (some v) (some w) = v == w
  same_value _ _ = false

module _ {K V : Type 0} ⦃ek : Eq K⦄ ⦃ev : Eq V⦄ where
  ptr_eq_self_lem : (m : HashMap K V) → list_eq.beq m m ≡ true
  ptr_eq_self_lem m = ==-refl m

  get_of_ptr_eq_lem : (m n : HashMap K V) (k : K) → list_eq.beq m n ≡ true → lookup k m ≡ lookup k n
  get_of_ptr_eq_lem m n k h = ap (lookup k) ((list_eq.beq_iff m n).0 h)

  get_of_slot_lem :
      (m n : HashMap K V) (k : K) (v w : V)
      → lookup k m ≡ some v
      → lookup k n ≡ some w
      → same_value (lookup k m) (lookup k n) ≡ true
      → v ≡ w
  unfolding same_value
  get_of_slot_lem m n k v w p q h = ground (arith, ev.beq_iff v w)

  get-new_lem : (k : K) → lookup {V = V} k [] ≡ none
  unfolding lookup
  get-new_lem k = refl

  unfoldable pub versioned : OrdMap {K = K} ek.beq V (HashMap K V)
  unfolding same_value lookup insert remove ptr_eq_self_lem get_of_ptr_eq_lem get_of_slot_lem
      get-new_lem
  versioned = record {
    new = [];
    get = λ m k. lookup k m;
    upsert = λ m k v. insert k v m;
    delete = λ m k. remove k m;
    size = length;
    ptr_eq = list_eq.beq;
    same_slot = λ m n k. same_value (lookup k m) (lookup k n);
    iter = λ m k d. m;
    get-new = get-new_lem;
    get-upsert = λ m k j v. lookup-insert k j v m;
    get-delete = λ m k j. lookup-remove k j m;
    ptr_eq_self = ptr_eq_self_lem;
    get_of_ptr_eq = get_of_ptr_eq_lem;
    get_of_slot = get_of_slot_lem;
  }
