-- ===== src/Mgr/Order.antt =====
-- Putting the answers of `Tr::query` in src/mgr.rs together (`merge_result`).
use pi_db.Base.{
  nat_eqb, if◌then◌else◌, Bool-cases, nat_eqb_iff, nat_eq, list_eq, pair_eq, length, get_elem?, All,
  ℕ, zero, suc, ◌+◌, ◌-◌, ◌%◌, ◌≤◌, ◌<◌, ◌≡◌, refl, sym, ap, ◌∙◌, ◌≢◌, inl, inr, Bool, true, false,
  ◌||◌, Option, none, some, List, [], ◌∷◌, ◌++◌, arith,
}
use pi_db.Data.{TabKv}
use pi_db.Fork.{usize_mod}
use pi_db.Mgr.Batch.{set_at, place_one, place_all, merge_result}

module _ {A : Type 0} where
  set_at-get :
      (i : ℕ) (a b : A) (v t : List A)
      → length v ≡ length t
      → get_elem? t i ≡ some b
      → (v' : List A) × (set_at i a v ≡ some v')
        × (length v' ≡ length t)
        × ((j : ℕ) → get_elem? v' j ≡ (if nat_eqb i j then some a else get_elem? v j))
  unfolding set_at
  set_at-get i a b v [] e h = absurd (ground arith)
  set_at-get i a b [] (y ∷ t) e h = absurd (ground arith)
  set_at-get zero a b (x ∷ v) (y ∷ t) e h = (a ∷ v, refl, ground arith, λ j. at j)
    where
      at : (j : ℕ) → get_elem? (a ∷ v) j ≡ (if nat_eqb 0 j then some a else get_elem? (x ∷ v) j)
      at zero = refl
      at (suc j) = ground arith
  set_at-get (suc i) a b (x ∷ v) (y ∷ t) e h =
      let (v', s, l, g) = set_at-get i a b v t (ground arith) h in
      (x ∷ v', rw s refl, ground arith, λ j. at v' g j)
    where
      at :
          (v' : List A)
          → ((j : ℕ) → get_elem? v' j ≡ (if nat_eqb i j then some a else get_elem? v j))
          → (j : ℕ)
          → get_elem? (x ∷ v') j ≡ (if nat_eqb (suc i) j then some a else get_elem? (x ∷ v) j)
      at v' g zero = ground arith
      at v' g (suc j) = ground (arith, g j)

  beyond : (v : List A) (j : ℕ) → length v ≤ j → get_elem? v j ≡ none
  beyond [] j h = refl
  beyond (x ∷ v) zero h = absurd (omega arith)
  beyond (x ∷ v) (suc j) h = beyond v j (omega arith)

  get_elem?-ext : (v t : List A) → ((j : ℕ) → get_elem? v j ≡ get_elem? t j) → v ≡ t
  get_elem?-ext [] [] h = refl
  get_elem?-ext [] (y ∷ t) h = absurd (let p = h 0 in ground arith)
  get_elem?-ext (x ∷ v) [] h = absurd (let p = h 0 in ground arith)
  get_elem?-ext (x ∷ v) (y ∷ t) h =
      let p = h 0 in let ih = get_elem?-ext v t (λ j. h (suc j)) in ground arith

module _ {Atom : Type 0} where
  -- the item is the one that its index says, counted from 1
  abbrev pub Fits : List (TabKv Atom) → TabKv Atom → Type 0
  Fits t x = (i : ℕ) × (x.index ≡ suc i) × (get_elem? t i ≡ some x)

  -- some item has the position
  abbrev pub covers : ℕ → List (TabKv Atom) → Bool
  covers j [] = false
  covers j (x ∷ xs) = nat_eqb x.index (suc j) || covers j xs

  placed :
      (n i : ℕ) (x : TabKv Atom) (v : List (TabKv Atom))
      → n ≡ suc i
      → place_one n x v ≡ set_at i x v
  placed n i x v h = rw h refl

  place_all_step :
      (x : TabKv Atom) (vec v v1 : List (TabKv Atom))
      → place_one x.index x v ≡ some v1
      → place_all (x ∷ vec) v ≡ place_all vec v1
  unfolding place_all
  place_all_step x vec v v1 h = rw (h, place_all) refl

  place_all-Fits :
      (t vec v : List (TabKv Atom))
      → All (Fits t) vec
      → length v ≡ length t
      → (v' : List (TabKv Atom)) × (place_all vec v ≡ some v')
        × (length v' ≡ length t)
        × ((j : ℕ) → get_elem? v' j ≡ (if covers j vec then get_elem? t j else get_elem? v j))
  unfolding place_all
  place_all-Fits t [] v h e = (v, refl, e, λ j. refl)
  place_all-Fits t (x ∷ vec) v ((i, at, there), h) e =
      let (v1, s1, l1, g1) = set_at-get i x x v t e there in
      let (v2, s2, l2, g2) = place_all-Fits t vec v1 h l1 in
      (
        v2,
        place_all_step x vec v v1 (placed x.index i x v at ∙ s1) ∙ s2,
        l2,
        λ j. ground (arith, g1 j, g2 j, nat_eqb_iff i j),
      )

  abbrev pub total : List (List (TabKv Atom)) → ℕ
  total [] = 0
  total (g ∷ gs) = length g + total gs

  -- some item of some group has the position
  abbrev pub covered : ℕ → List (List (TabKv Atom)) → Bool
  covered j [] = false
  covered j (g ∷ gs) = covers j g || covered j gs

  -- the loop of `query` over the answers of the tables
  unfoldable pub merge_all :
      List (List (TabKv Atom))
      → ℕ × List (TabKv Atom)
      → List (TabKv Atom)
      → Option (List (TabKv Atom))
  unfolding merge_result
  merge_all [] rvec res = some res
  merge_all (vec ∷ rest) rvec res = elim (merge_result rvec vec) [
    | none ↦ none
    | some (v, rvec') ↦ merge_all rest rvec' (res ++ v)
  ]

  merged-last :
      (m : ℕ) (vec v v' : List (TabKv Atom))
      → place_all vec v ≡ some v'
      → m ≡ length vec
      → m < usize_mod
      → merge_result (m, v) vec ≡ some (v', (0, []))
  unfolding merge_result
  merged-last m vec v v' h e b =
      let gone : nat_eqb ((m + (usize_mod - length vec)) % usize_mod) 0 ≡ true = ground arith in
      let zero_left : (m + (usize_mod - length vec)) % usize_mod ≡ 0 = ground arith in
      rw (h, merge_result, zero_left) refl

  merged-more :
      (m k : ℕ) (vec v v' : List (TabKv Atom))
      → place_all vec v ≡ some v'
      → m ≡ length vec + suc k
      → m < usize_mod
      → merge_result (m, v) vec ≡ some ([], (suc k, v'))
  unfolding merge_result
  merged-more m k vec v v' h e b =
      let rest_left : (m + (usize_mod - length vec)) % usize_mod ≡ suc k = ground arith in
      rw (h, merge_result, rest_left) (ground arith)

  merge_last :
      (t g v : List (TabKv Atom)) (m : ℕ)
      → All (Fits t) g
      → length v ≡ length t
      → m ≡ length g
      → m < usize_mod
      → (v' : List (TabKv Atom)) × (merge_all (g ∷ []) (m, v) [] ≡ some v')
        × (length v' ≡ length t)
        × ((j : ℕ) → get_elem? v' j ≡ (if covers j g then get_elem? t j else get_elem? v j))
  unfolding merge_all
  merge_last t g v m f e s b =
      let (v1, p, l, at) = place_all-Fits t g v f e in
      (v1, rw (merged-last m g v v1 p s b, merge_all) refl, l, at)

  merge_step :
      (m k : ℕ) (g v v1 : List (TabKv Atom)) (rest : List (List (TabKv Atom)))
      → place_all g v ≡ some v1
      → m ≡ length g + suc k
      → m < usize_mod
      → merge_all (g ∷ rest) (m, v) [] ≡ merge_all rest (suc k, v1) []
  unfolding merge_all
  merge_step m k g v v1 rest p s b = rw (merged-more m k g v v1 p s b, merge_all) refl

  merge_groups :
      (t g v : List (TabKv Atom)) (gs : List (List (TabKv Atom))) (m : ℕ)
      → All (λ (h : List (TabKv Atom)). length h ≢ 0) (g ∷ gs)
      → All (All (Fits t)) (g ∷ gs)
      → length v ≡ length t
      → m ≡ total (g ∷ gs)
      → m < usize_mod
      → (v' : List (TabKv Atom)) × (merge_all (g ∷ gs) (m, v) [] ≡ some v')
        × (length v' ≡ length t)
        × ((j : ℕ) → get_elem? v' j ≡ (if covered j (g ∷ gs) then get_elem? t j else get_elem? v j))
  merge_groups t g v [] m filled fits e s b =
      let (v', p, l, at) = merge_last t g v m fits.0 e (omega arith) b in
      (v', p, l, λ j. ground (arith, at j))
  merge_groups t g v (g2 ∷ gs) m filled fits e s b =
      let (v1, p, l, at) = place_all-Fits t g v fits.0 e in
      let more : length g2 ≢ 0 = filled.1.0 in
      let k = total (g2 ∷ gs) - 1 in
      let left_over : total (g2 ∷ gs) ≡ suc k = ground arith in
      let (v', q, l', at') =
        merge_groups t g2 v1 gs (suc k) filled.1 fits.1 l (sym left_over) (omega arith) in
      (
        v',
        merge_step m k g v v1 (g2 ∷ gs) p (omega arith) b ∙ q,
        l',
        λ j. ground (arith, at j, at' j),
      )

  -- Let every table be asked for at least one item, every answer stand for the item that its position
  -- says, and every position be answered. Then the answers are put together in the order of the
  -- items, whichever order the tables are asked in and whatever filled the places before.
  pub merge_all-in_order :
      (t g v : List (TabKv Atom)) (gs : List (List (TabKv Atom)))
      → All (λ (h : List (TabKv Atom)). length h ≢ 0) (g ∷ gs)
      → All (All (Fits t)) (g ∷ gs)
      → ((j : ℕ) → j < length t → covered j (g ∷ gs) ≡ true)
      → length t ≡ total (g ∷ gs)
      → length t < usize_mod
      → length v ≡ length t
      → merge_all (g ∷ gs) (length t, v) [] ≡ some t
  merge_all-in_order t g v gs filled fits every s b e =
      let (v', p, l, at) = merge_groups t g v gs (length t) filled fits e s b in
      p
      ∙ ap some (
          get_elem?-ext v' t (λ j. elim (Bool-cases (covered j (g ∷ gs))) [
            | inl c ↦ at j ∙ ap (λ x. if x then get_elem? t j else get_elem? v j) c
            | inr c ↦
                let out : length t ≤ j = ground (arith, every j) in
                beyond v' j (omega arith) ∙ sym (beyond t j out)
          ]))
