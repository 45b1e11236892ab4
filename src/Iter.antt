-- ===== src/Iter.antt =====
-- The iterators of src/memery_db.rs and src/log_file_db.rs (`MemIter`, `MemKeyIter`) and of
-- src/tabs.rs (`TabIter`): each keeps the address of a box that holds an iterator of the crate
-- `ordmap`, and makes a box of the address again for each call.
--
-- A box holds what its iterator has not yielded yet. A box that is dropped gives its memory back,
-- one that is forgotten does not. To use memory that has been given back is undefined: a fault.
pub mod Drained
pub mod Freed
use pi_db.Base.{
  ltb, leb, nat_eqb, if◌then◌else◌, Bool-cases, Option-cases, Eq, ◌==◌, ==-refl, ==-ne, nat_eqb_iff,
  nat_eq, list_eqb, list_eqb_iff, list_eq, pair_eqb, pair_eqb_iff, pair_eq, length, get_elem?,
  length-append, length-map, All, ℕ, zero, suc, ◌+◌, ◌-◌, ◌*◌, ◌%◌, ◌^◌, ◌≤◌, ◌<◌, ◌≡◌, refl, sym,
  ap, ◌∙◌, ◌≢◌, ◌↔◌, ◌⊎◌, inl, inr, Bool, true, false, not, ◌&&◌, ◌||◌, Option, none, some, List,
  [], ◌∷◌, ◌++◌, map, arith,
}

pub record Boxes (A : Type 0) : Type 0 where
  pub next : ℕ
  pub cell : ℕ → Option (List A)

pub data Run (A B : Type 0) : Type 0 where
  done : B → Boxes A → Run A B
  fault : Run A B

-- what a box holds, or a fault
infixl 5 ◌>>=◌
abbrev pub ◌>>=◌ : {A B C : Type 0} → Run A B → (B → Boxes A → Run A C) → Run A C
done b h >>= f = f b h
fault >>= f = fault

module _ {A : Type 0} where
  abbrev pub put_box : ℕ → Option (List A) → Boxes A → Boxes A
  put_box p o h = record { next = h.next; cell = λ q. if nat_eqb p q then o else h.cell q }

  -- `Box::into_raw(Box::new(it)) as usize`
  abbrev pub new_box : List A → Boxes A → ℕ × Boxes A
  new_box it h = (
    h.next,
    record { next = suc h.next; cell = λ q. if nat_eqb h.next q then some it else h.cell q },
  )

  -- `Box::from_raw`, and a look at what the box holds
  abbrev pub load : ℕ → Boxes A → Run A (List A)
  load p h = elim (h.cell p) [ none ↦ fault | some it ↦ done it h ]

  -- a box goes out of scope
  abbrev pub free : ℕ → Boxes A → Run A (Unit {0})
  free p h = elim (h.cell p) [ none ↦ fault | some it ↦ done tt (put_box p none h) ]

  -- `it.next()` through the box
  abbrev pub step : ℕ → List A → Boxes A → Run A (Option A)
  step p [] h = done none h
  step p (x ∷ it) h = done (some x) (put_box p (some it) h)

  -- `next` of `MemIter` and of `TabIter`: the box is forgotten
  unfoldable pub next_item : ℕ → Boxes A → Run A (Option A)
  next_item p h = load p h >>= λ it h1. step p it h1

  -- `next` of `MemKeyIter`: of the two boxes that are made of the address, the second one, on which
  -- `next` is called, goes out of scope, and the first one is forgotten
  unfoldable pub next_key : ℕ → Boxes A → Run A (Option A)
  next_key p h = load p h >>= λ _ h1.
      load p h1 >>= λ it h2. step p it h2 >>= λ r h3. free p h3 >>= λ _ h4. done r h4

  -- `drop` of all three
  unfoldable pub drop_iter : ℕ → Boxes A → Run A (Unit {0})
  drop_iter p h = load p h >>= λ _ h1. free p h1

  -- a client that asks until there is no more
  unfoldable pub drain : ℕ → ℕ → Boxes A → Run A (Option (List A))
  unfolding next_item
  drain zero p h = done none h
  drain (suc n) p h = next_item p h >>= λ r h1. elim r [
    | none ↦ done (some []) h1
    | some x ↦
        drain n p h1 >>= λ more h2. done (elim more [ none ↦ none | some l ↦ some (x ∷ l) ]) h2
  ]
