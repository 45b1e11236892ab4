-- ===== src/Iter/Drained.antt =====
-- `MemIter` and `TabIter` yield everything once, and their memory is given back once.
use pi_db.Base.{
  nat_eq, list_eq, pair_eq, length, ℕ, zero, suc, ◌<◌, ◌≡◌, refl, ◌∙◌, ◌≢◌, none, some, List, [],
  ◌∷◌, arith,
}
use pi_db.Iter.{load, free, Boxes, done, put_box, new_box, next_item, drop_iter, drain}

module _ {A : Type 0} where
  -- every box but one is as it was
  abbrev pub IsElsewhere : ℕ → Boxes A → Boxes A → Type 0
  IsElsewhere p h h' = (q : ℕ) → q ≢ p → h'.cell q ≡ h.cell q

  next_item-last : (p : ℕ) (h : Boxes A) → h.cell p ≡ some [] → next_item p h ≡ done none h
  unfolding next_item
  next_item-last p h e = rw (next_item, load, e) refl

  next_item-more :
      (p : ℕ) (h : Boxes A) (x : A) (it : List A)
      → h.cell p ≡ some (x ∷ it)
      → next_item p h ≡ done (some x) (put_box p (some it) h)
  unfolding next_item
  next_item-more p h x it e = rw (next_item, load, e) refl

  drain-all :
      (it : List A) (n p : ℕ) (h : Boxes A)
      → h.cell p ≡ some it
      → length it < n
      → (h' : Boxes A) × (drain n p h ≡ done (some it) h')
        × (h'.cell p ≡ some [])
        × IsElsewhere p h h'
  unfolding drain
  drain-all it zero p h e r = absurd (omega (arith, r))
  drain-all [] (suc n) p h e r = (h, rw (drain, next_item-last p h e) refl, e, λ q ne. refl)
  drain-all (x ∷ it) (suc n) p h e r =
      let h1 = put_box p (some it) h in
      let (h', run, last, same) = drain-all it n p h1 (ground arith) (omega (arith, r)) in
      (h', rw (drain, next_item-more p h x it e, run) refl, last, λ q ne. same q ne ∙ ground arith)

  drop_iter-frees :
      (p : ℕ) (it : List A) (h : Boxes A)
      → h.cell p ≡ some it
      → drop_iter p h ≡ done tt (put_box p none h)
  unfolding drop_iter
  drop_iter-frees p it h e = rw (drop_iter, load, e, free, e) refl

  -- An iterator is made, asked until it has no more, and dropped. No call is a fault, the answers are
  -- all items of its tree in their order, and afterwards no box holds anything that did not before:
  -- the iterator's box is given back, and every other one is as it was. The fuel is above the number
  -- of items.
  pub drain-drops :
      (it : List A) (n : ℕ) (h : Boxes A)
      → length it < n
      → let (p, h1) = new_box it h in
        (h2 h3 : Boxes A) × (drain n p h1 ≡ done (some it) h2)
        × (drop_iter p h2 ≡ done tt h3)
        × (h3.cell p ≡ none)
        × ((q : ℕ) → q ≢ p → h3.cell q ≡ h.cell q)
  drain-drops it n h r =
      let (p, h1) = new_box it h in
      let (h2, run, last, same) = drain-all it n p h1 (ground arith) r in
      (
        h2,
        put_box p none h2,
        run,
        drop_iter-frees p [] h2 last,
        ground arith,
        λ q ne. ground (arith, same q ne),
      )
