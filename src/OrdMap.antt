-- ===== src/OrdMap.antt =====
-- The persistent ordered map of the crate `ordmap`, which is not part of this repository: its
-- handles form a type `M`, and what the code relies on is the laws below. `same` is the `Equal` of
-- the keys' order. `ptr_eq` compares the root pointers of two handles, and `same_slot` compares the
-- addresses at which two trees hold the value of a key (`r1 as *const V == r2 as *const V`).
-- `iter key descending` is what the iterator of that name yields, in its order.
pub mod Versioned
use pi_db.Base.{ℕ, Option, none, some, Bool, true, ◌≡◌, List, if◌then◌else◌}

pub record OrdMap {K : Type 0} (same : K → K → Bool) (V M : Type 0) : Type 0 where
  pub new : M
  pub get : M → K → Option V
  pub upsert : M → K → V → M
  pub delete : M → K → M
  pub size : M → ℕ
  pub ptr_eq : M → M → Bool
  pub same_slot : M → M → K → Bool
  pub iter : M → Option K → Bool → List (K × V)
  pub get-new : (k : K) → get new k ≡ none
  pub get-upsert :
      (m : M) (k j : K) (v : V) → get (upsert m k v) j ≡ (if same k j then some v else get m j)
  pub get-delete : (m : M) (k j : K) → get (delete m k) j ≡ (if same k j then none else get m j)
  -- a handle is the clone of itself
  pub ptr_eq_self : (m : M) → ptr_eq m m ≡ true
  -- handles with one root are one tree
  pub get_of_ptr_eq : (m n : M) (k : K) → ptr_eq m n ≡ true → get m k ≡ get n k
  -- one address holds one value
  pub get_of_slot :
      (m n : M) (k : K) (v w : V)
      → get m k ≡ some v
      → get n k ≡ some w
      → same_slot m n k ≡ true
      → v ≡ w
