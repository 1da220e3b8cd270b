-- ===== src/Queue/Window.antt =====
-- The queue as a window on what was pushed.
use system_monitor_go.Base.{
  ℕ, zero, suc, ◌-◌, ◌≤◌, ◌<◌, ◌≡◌, refl, sym, ap, ◌∙◌, List, [], ◌∷◌, ◌++◌, append_assoc,
  append-nil, arith, pos, Outcome, ret, ◌>>=◌, length, drop, length-append, length-drop,
  drop-append, le→leb, lt→leb,
}
use native.Mathlib.Decide.{dec_le}
use system_monitor_go.Queue.{Queue, new_queue, tail_slice, push}

module _ {ℓ} {A : Type ℓ} where
  -- The newest `n` items of a list, oldest first: what a queue of capacity `n` should hold.
  abbrev pub newest : ℕ → List A → List A
  newest n xs = drop (length xs - n) xs

  -- A loop of `Push` calls.
  unfoldable pub push_all : Queue A → List A → Outcome (Queue A)
  push_all q [] = ret q
  push_all q (x ∷ xs) = push q x >>= λ r. push_all r xs

  tail_slice-drop :
      (k : ℕ) (xs : List A) → k < length xs → tail_slice (drop k xs) ≡ ret (drop (suc k) xs)
  unfolding tail_slice
  tail_slice-drop k [] h = absurd (omega arith)
  tail_slice-drop zero (x ∷ xs) h = refl
  tail_slice-drop (suc k) (x ∷ xs) h = tail_slice-drop k xs (omega arith)

  drop-zero : (k : ℕ) (xs : List A) → k ≡ 0 → drop k xs ≡ xs
  drop-zero k xs h = rw h

  length-newest : (n : ℕ) (xs : List A) → length (newest n xs) ≤ n
  length-newest n xs = omega (arith, length-drop (length xs - n) xs)

  newest_full :
      (n : ℕ) (hist : List A) (x : A)
      → 0 < n
      → n ≤ length hist
      → drop (suc (length hist - n)) hist ++ x ∷ [] ≡ newest n (hist ++ x ∷ [])
  newest_full n hist x h full =
      let e : length (hist ++ x ∷ []) - n ≡ suc (length hist - n) =
        omega (arith, length-append hist (x ∷ [])) in
      rw e (rw (drop-append (suc (length hist - n)) hist (x ∷ []) (omega arith)))

  newest_room :
      (n : ℕ) (hist : List A) (x : A)
      → length hist < n
      → newest n (hist ++ x ∷ []) ≡ newest n hist ++ x ∷ []
  newest_room n hist x h =
      let e : length (hist ++ x ∷ []) - n ≡ 0 = omega (arith, length-append hist (x ∷ [])) in
      let d : length hist - n ≡ 0 = omega arith in rw (e, d)

  pub push_full :
      (q : Queue A) (x : A) {xs : List A}
      → q.size ≤ length q.items
      → tail_slice q.items ≡ ret xs
      → push q x ≡ ret (record q { items = xs ++ x ∷ [] })
  unfolding push
  push_full q x h e = rw (le→leb _ _ h, e)

  pub push_room :
      (q : Queue A) (x : A)
      → length q.items < q.size
      → push q x ≡ ret (record q { items = q.items ++ x ∷ [] })
  unfolding push
  push_room q x h = rw (lt→leb _ _ h)

  abbrev window_of : ℕ → List A → Queue A
  window_of n hist = record { items = newest n hist; size = n }

  window_full :
      (n : ℕ) (hist : List A) (x : A)
      → 0 < n
      → n ≤ length hist
      → push (window_of n hist) x ≡ ret (window_of n (hist ++ x ∷ []))
  window_full n hist x h full =
      push_full (window_of n hist) x (omega (arith, length-drop (length hist - n) hist))
        (tail_slice-drop (length hist - n) hist (omega arith))
      ∙ ap (λ l. ret (record { items = l; size = n })) (newest_full n hist x h full)

  window_room :
      (n : ℕ) (hist : List A) (x : A)
      → length hist < n
      → push (window_of n hist) x ≡ ret (window_of n (hist ++ x ∷ []))
  window_room n hist x h =
      push_room (window_of n hist) x (omega (arith, length-drop (length hist - n) hist))
      ∙ ap (λ l. ret (record { items = l; size = n })) (sym (newest_room n hist x h))

  -- Whatever was pushed before, a push keeps the queue the window of the newest items.
  pub push-newest :
      (n : ℕ) (hist : List A) (x : A)
      → 0 < n
      → push (window_of n hist) x ≡ ret (window_of n (hist ++ x ∷ []))
  push-newest n hist x h = elim (dec_le n (length hist)) [
    | yes full ↦ window_full n hist x h full
    | no room ↦ window_room n hist x (omega arith)
  ]

  push_all-newest :
      (n : ℕ) (hist xs : List A)
      → 0 < n
      → push_all (window_of n hist) xs ≡ ret (window_of n (hist ++ xs))
  unfolding push_all
  push_all-newest n hist [] h = rw append-nil
  push_all-newest n hist (x ∷ xs) h =
      rw (push-newest n hist x h) (push_all-newest n (hist ++ x ∷ []) xs h ∙ rw append_assoc)

  -- Pushing any items into a new queue of a positive capacity `n` never panics, and leaves exactly
  -- the newest `n` of them, in the order in which they were pushed.
  pub push_all-window :
      (n : ℕ) (xs : List A)
      → 0 < n
      → (new_queue (pos n) >>= λ q. push_all q xs) ≡ ret (record { items = newest n xs; size = n })
  unfolding new_queue
  push_all-window n xs h =
      ap (λ l. push_all (record { items = l; size = n }) xs)
        (sym (drop-zero (0 - n) [] (omega arith)))
      ∙ push_all-newest n [] xs h
