-- ===== src/Queue/Schedule/Safety.antt =====
-- Every run of the queue keeps its invariant.
use system_monitor_go.Base.{
  ℕ, ◌↔◌, suc, ◌+◌, ◌-◌, ◌≤◌, ◌<◌, ◌≡◌, refl, List, [], ◌∷◌, ◌++◌, append_assoc, list_laws,
  append-nil, arith, drop, lt→ltb, not-lt→ltb, pos, ret, panic, index_out_of_range, ◌>>=◌, leb,
  length, length-append, length-drop, sym, ap, ◌∙◌, if◌then◌else◌,
}
use native.Mathlib.Decide.{dec_lt}
use system_monitor_go.Queue.{Queue, new_queue, tail_slice, push, take_head}
use system_monitor_go.Queue.Schedule.{
  Shared, Action, pushing, trying, popping, waking, signal, over, evicted, push_step, to_list,
  try_step, pop_step, wake_step, step, run, fresh, Inv,
}

module _ {ℓ} {A : Type ℓ} where
  push_items :
      (n : ℕ) (items : List A)
      → 0 < n
      → (if leb n (length items) then tail_slice items else ret items)
        ≡ ret (drop (if leb n (length items) then 1 else 0) items)
  unfolding tail_slice
  push_items n [] h = ground arith
  push_items n (x ∷ xs) h = ground arith

  -- With a positive capacity no push panics.
  pub push-ret :
      (q : Queue A) (x : A)
      → 0 < q.size
      → push q x ≡ ret (record q { items = drop (over q) q.items ++ x ∷ [] })
  unfolding push
  push-ret q x h = rw (push_items q.size q.items h)

  evicted_items : (q : Queue A) (items : List A) → evicted q items ++ drop (over q) items ≡ items
  unfolding evicted
  evicted_items q [] = ground arith
  evicted_items q (x ∷ xs) = ground arith

  length-kept-le : (k : ℕ) (items : List A) → length (drop k items) ≤ length items
  length-kept-le k items = omega (arith, length-drop k items)

  -- The state between the append and the signal.
  appended : Shared A → A → Shared A
  appended s x = record s {
    queue = record { items = drop (over s.queue) s.queue.items ++ x ∷ []; size = s.queue.size };
    pushed = s.pushed ++ x ∷ [];
    gone = s.gone ++ evicted s.queue s.queue.items;
  }

  push_step-ret :
      (s : Shared A) (x : A) → 0 < s.queue.size → push_step s x ≡ ret (signal (appended s x))
  unfolding push_step appended
  push_step-ret s x h = rw (push-ret s.queue x h)

  signal-Inv :
      (n : ℕ) (s : Shared A)
      → s.queue.size ≡ n
      → length s.queue.items ≤ n
      → s.gone ++ s.queue.items ≡ s.pushed
      → (0 < s.waiting → length s.queue.items ≤ s.notified + 1)
      → Inv n (signal s)
  unfolding signal
  signal-Inv n s a b c d = ground arith

  appended-in_order :
      (n : ℕ) (s : Shared A) (x : A)
      → Inv n s
      → (appended s x).gone ++ (appended s x).queue.items ≡ (appended s x).pushed
  unfolding appended
  appended-in_order n s x inv =
      append_assoc s.gone (evicted s.queue s.queue.items) _
      ∙ ap (λ l. s.gone ++ l)
          (sym (
              append_assoc (evicted s.queue s.queue.items) (drop (over s.queue) s.queue.items)
                (x ∷ []))
            ∙ ap (λ l. l ++ x ∷ []) (evicted_items s.queue s.queue.items))
      ∙ sym (append_assoc s.gone s.queue.items (x ∷ []))
      ∙ ap (λ l. l ++ x ∷ []) inv.in_order

  length-kept_size :
      (n : ℕ) (s : Shared A) → 0 < n → Inv n s → length (drop (over s.queue) s.queue.items) < n
  length-kept_size n s h inv =
      ground (arith, length-drop 0 s.queue.items, length-drop 1 s.queue.items)

  push_step-Inv : (n : ℕ) (s : Shared A) (x : A) → 0 < n → Inv n s → Inv n (signal (appended s x))
  unfolding appended
  push_step-Inv n s x h inv =
      let fits = length-kept_size n s h inv in
      let shorter = length-kept-le (over s.queue) s.queue.items in
      let grown = length-append (drop (over s.queue) s.queue.items) (x ∷ []) in
      signal-Inv n (appended s x) inv.size_kept (omega arith) (appended-in_order n s x inv)
        (λ w. omega (arith, inv.no_lost_wakeup w))

  -- Both ways in which an item is taken from the head.
  pop_items-Inv :
      (n : ℕ) (s : Shared A) (items : List A)
      → s.queue.items ≡ items
      → s.queue.size ≡ n
      → length items ≤ n
      → s.gone ++ items ≡ s.pushed
      → (0 < s.waiting → length items ≤ s.notified + 1)
      → Inv n (pop_step s items)
  unfolding pop_step
  pop_items-Inv n s [] e a b c d = record {
    size_kept = a;
    bounded = rw e b;
    in_order = rw e c;
    no_lost_wakeup = λ w. rw e (omega arith);
  }
  pop_items-Inv n s (x ∷ xs) e a b c d = record {
    size_kept = a;
    bounded = omega arith;
    in_order = simp list_laws c;
    no_lost_wakeup = λ w. omega (arith, d w);
  }

  pop_step-Inv : (n : ℕ) (s : Shared A) → Inv n s → Inv n (pop_step s s.queue.items)
  pop_step-Inv n s inv =
      pop_items-Inv n s s.queue.items refl inv.size_kept inv.bounded inv.in_order
        (λ w. omega (arith, inv.no_lost_wakeup w))

  wake_step-Inv : (n : ℕ) (s : Shared A) → Inv n s → Inv n (wake_step s)
  unfolding wake_step
  wake_step-Inv n s inv = elim (dec_lt 0 s.notified) [
    | yes some_one ↦ rw (lt→ltb _ _ some_one) (
        pop_items-Inv n (record s { notified = s.notified - 1 }) s.queue.items refl inv.size_kept
          inv.bounded inv.in_order (λ w. omega (arith, inv.no_lost_wakeup w)))
    | no none_one ↦ rw (not-lt→ltb _ _ none_one) inv
  ]

  try_items :
      (s : Shared A) (items : List A)
      → s.queue.items ≡ items
      → try_step s ≡ record s {
        queue = (take_head s.queue items).0;
        gone = s.gone ++ to_list (take_head s.queue items).1;
      }
  unfolding try_step
  try_items s items e = rw e

  try_items-Inv :
      (n : ℕ) (s : Shared A) (items : List A) → Inv n s → s.queue.items ≡ items → Inv n (try_step s)
  unfolding take_head to_list
  try_items-Inv n s [] inv e = rw (try_items s [] e) (record {
    size_kept = inv.size_kept;
    bounded = inv.bounded;
    in_order = rw append-nil inv.in_order;
    no_lost_wakeup = inv.no_lost_wakeup;
  })
  try_items-Inv n s (x ∷ xs) inv e =
      let shorter : length s.queue.items ≡ suc (length xs) = ap length e in
      rw (try_items s (x ∷ xs) e) (record {
        size_kept = inv.size_kept;
        bounded = omega (arith, inv.bounded);
        in_order = simp list_laws (ap (λ l. s.gone ++ l) (sym e) ∙ inv.in_order);
        no_lost_wakeup = λ w. omega (arith, inv.no_lost_wakeup w);
      })

  -- A step of any goroutine returns, and keeps the invariant.
  step-Inv :
      (n : ℕ) (s : Shared A) (a : Action A)
      → 0 < n
      → Inv n s
      → (t : Shared A) × (step s a ≡ ret t) × Inv n t
  unfolding step
  step-Inv n s (pushing x) h inv = (
    signal (appended s x),
    push_step-ret s x (omega (arith, inv.size_kept)),
    push_step-Inv n s x h inv,
  )
  step-Inv n s trying h inv = (try_step s, refl, try_items-Inv n s s.queue.items inv refl)
  step-Inv n s popping h inv = (pop_step s s.queue.items, refl, pop_step-Inv n s inv)
  step-Inv n s waking h inv = (wake_step s, refl, wake_step-Inv n s inv)

  run_from-Inv :
      (n : ℕ) (s : Shared A) (acts : List (Action A))
      → 0 < n
      → Inv n s
      → (t : Shared A) × (run s acts ≡ ret t) × Inv n t
  unfolding run
  run_from-Inv n s [] h inv = (s, refl, inv)
  run_from-Inv n s (a ∷ acts) h inv =
      let (t, e, inv') = step-Inv n s a h inv in
      let (u, e', inv'') = run_from-Inv n t acts h inv' in (u, rw e e', inv'')

  fresh-Inv : (n : ℕ) → Inv {A = A} n (fresh (record { items = []; size = n }))
  fresh-Inv n = record {
    size_kept = refl;
    bounded = omega arith;
    in_order = refl;
    no_lost_wakeup = λ w. omega arith;
  }

  -- With a positive capacity, no order of the steps of any number of pushing and popping goroutines
  -- panics, and in the state that is reached the queue is within its capacity, every pushed item is
  -- either gone or still queued in the order of the pushes, with none lost, doubled or overtaken,
  -- and while a goroutine waits in `Pop` there are at least as many signalled ones as items.
  pub run-Inv :
      (n : ℕ) (acts : List (Action A))
      → 0 < n
      → (t : Shared A) × ((new_queue (pos n) >>= λ q. run (fresh q) acts) ≡ ret t) × Inv n t
  unfolding new_queue
  run-Inv n acts h = run_from-Inv n (fresh (record { items = []; size = n })) acts h (fresh-Inv n)

module _ {ℓ} {A : Type ℓ} where
  abbrev sized : ℕ → List A → Queue A
  sized n items = record { items = items; size = n }

  push_items-panic :
      (n : ℕ) (items : List A) (x : A)
      → ((if leb n (length items) then tail_slice items else ret items) >>= λ kept.
          ret (sized n (kept ++ x ∷ [])))
        ≡ panic index_out_of_range
      → (n ≡ 0) × (items ≡ [])
  unfolding tail_slice
  push_items-panic n [] x e = ground arith
  push_items-panic n (y ∷ xs) x e = ground arith

  -- A push panics exactly on an empty queue that was made with the capacity 0.
  pub push-panic_iff :
      (q : Queue A) (x : A)
      → (push q x ≡ panic index_out_of_range) ↔ ((q.size ≡ 0) × (q.items ≡ []))
  unfolding push tail_slice
  push-panic_iff q x = (push_items-panic q.size q.items x, λ e. rw (e.0, e.1))
