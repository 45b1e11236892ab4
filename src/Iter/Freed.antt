-- ===== src/Iter/Freed.antt =====
-- `MemKeyIter` gives its memory back at its first call of `next`.
use pi_db.Base.{nat_eq, list_eq, pair_eq, ℕ, ◌≡◌, refl, Option, none, some, List, [], ◌∷◌, arith}
use pi_db.Iter.{Boxes, done, fault, put_box, new_box, next_key, drop_iter, load, free}

module _ {A : Type 0} where
  cell-put_box : (p : ℕ) (o : Option (List A)) (h : Boxes A) → (put_box p o h).cell p ≡ o
  cell-put_box p o h = ground arith

  next_key-last :
      (p : ℕ) (h : Boxes A) → h.cell p ≡ some [] → next_key p h ≡ done none (put_box p none h)
  unfolding next_key
  next_key-last p h e = rw (next_key, load, e, free) (ground arith)

  next_key-more :
      (p : ℕ) (h : Boxes A) (x : A) (it : List A)
      → h.cell p ≡ some (x ∷ it)
      → next_key p h ≡ done (some x) (put_box p none (put_box p (some it) h))
  unfolding next_key
  next_key-more p h x it e = rw (next_key, load, e, free) (ground arith)

  next_key-first :
      (it : List A) (p : ℕ) (h : Boxes A)
      → h.cell p ≡ some it
      → (r : Option A) × (h2 : Boxes A) × (next_key p h ≡ done r h2) × (h2.cell p ≡ none)
  next_key-first [] p h e = (none, put_box p none h, next_key-last p h e, cell-put_box p none h)
  next_key-first (x ∷ it) p h e = (
    some x,
    put_box p none (put_box p (some it) h),
    next_key-more p h x it e,
    cell-put_box p none (put_box p (some it) h),
  )

  -- The first call of `next` on an iterator of keys answers, and gives the box of the iterator back:
  -- a second call is a fault, and so is the end of the iterator's life, which comes in any case.
  pub next_key-frees :
      (it : List A) (h : Boxes A)
      → let (p, h1) = new_box it h in
        (r : Option A) × (h2 : Boxes A) × (next_key p h1 ≡ done r h2)
        × (next_key p h2 ≡ fault)
        × (drop_iter p h2 ≡ fault)
  unfolding next_key drop_iter
  next_key-frees it h =
      let (p, h1) = new_box it h in
      let (r, h2, run, gone) = next_key-first it p h1 (ground arith) in
      (r, h2, run, rw (next_key, load, gone) refl, rw (drop_iter, load, gone) refl)
