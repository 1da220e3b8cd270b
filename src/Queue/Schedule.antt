-- ===== src/Queue/Schedule.antt =====
-- The queue under many goroutines: each method holds the lock, so a run is a list of the steps in
-- the order in which the lock was taken. `Pop` waits on the condition variable in a loop; `Push`
-- signals it. A goroutine that waits is counted in `waiting`, one that was signalled and has to
-- take the lock again in `notified`. `pushed` and `gone` record what entered and what left.
pub mod Safety
pub mod Progress
use system_monitor_go.Base.{
  ℕ, zero, suc, ◌+◌, ◌-◌, ◌≤◌, ◌<◌, ◌≡◌, refl, List, [], ◌∷◌, ◌++◌, append_assoc, append-nil, arith,
  Option, some, none, drop, lt→ltb, not-lt→ltb, pos, Outcome, ret, panic, index_out_of_range, ◌>>=◌,
  leb, ltb, length, length-append, length-drop, sym, ap, ◌∙◌, if◌then◌else◌,
}
use native.Mathlib.Decide.{dec_lt}
use system_monitor_go.Queue.{Queue, new_queue, tail_slice, push, take_head, try_pop}

pub record Shared {ℓ} (A : Type ℓ) : Type ℓ where
  pub queue : Queue A
  pub waiting : ℕ
  pub notified : ℕ
  pub pushed : List A
  pub gone : List A

-- One step of a goroutine: a `Push`, a `TryPop`, a call of `Pop`, or the way of a signalled `Pop`
-- out of `Wait`.
pub data Action {ℓ} (A : Type ℓ) : Type ℓ where
  pushing : A → Action A
  trying : Action A
  popping : Action A
  waking : Action A

module _ {ℓ} {A : Type ℓ} where
  -- `Signal` moves one waiting goroutine, if there is one.
  signal : Shared A → Shared A
  signal s =
      if ltb 0 s.waiting then record s { waiting = s.waiting - 1; notified = s.notified + 1 } else s

  -- How many items a `Push` drops.
  abbrev pub over : Queue A → ℕ
  over q = if leb q.size (length q.items) then 1 else 0

  evicted : Queue A → List A → List A
  evicted q [] = []
  evicted q (x ∷ xs) = if leb q.size (length q.items) then x ∷ [] else []

  push_step : Shared A → A → Outcome (Shared A)
  unfolding signal evicted
  push_step s x = push s.queue x >>= λ q. ret (
      signal (record s {
        queue = q;
        pushed = s.pushed ++ x ∷ [];
        gone = s.gone ++ evicted s.queue s.queue.items;
      }))

  to_list : Option A → List A
  to_list none = []
  to_list (some x) = x ∷ []

  try_step : Shared A → Shared A
  unfolding try_pop to_list
  try_step s =
      let (q, got) = try_pop s.queue in record s { queue = q; gone = s.gone ++ to_list got }

  -- The head of the loop in `Pop`: wait on an empty queue, else take the oldest item.
  pop_step : Shared A → List A → Shared A
  pop_step s [] = record s { waiting = s.waiting + 1 }
  pop_step s (x ∷ xs) = record s {
    queue = record { items = xs; size = s.queue.size };
    gone = s.gone ++ x ∷ [];
  }

  wake_step : Shared A → Shared A
  unfolding pop_step
  wake_step s =
      if ltb 0 s.notified
      then pop_step (record s { notified = s.notified - 1 }) s.queue.items
      else s

  unfoldable pub step : Shared A → Action A → Outcome (Shared A)
  unfolding push_step try_step pop_step wake_step
  step s (pushing x) = push_step s x
  step s trying = ret (try_step s)
  step s popping = ret (pop_step s s.queue.items)
  step s waking = ret (wake_step s)

  unfoldable pub run : Shared A → List (Action A) → Outcome (Shared A)
  unfolding step
  run s [] = ret s
  run s (a ∷ acts) = step s a >>= λ t. run t acts

  abbrev pub fresh : Queue A → Shared A
  fresh q = record { queue = q; waiting = 0; notified = 0; pushed = []; gone = [] }

  -- A capacity that is kept, a queue within it, every item that entered either gone or still there in
  -- its order, and as many signalled goroutines as items while another one waits.
  pub record Inv (n : ℕ) (s : Shared A) : Type ℓ where
    pub size_kept : s.queue.size ≡ n
    pub bounded : length s.queue.items ≤ n
    pub in_order : s.gone ++ s.queue.items ≡ s.pushed
    pub no_lost_wakeup : 0 < s.waiting → length s.queue.items ≤ s.notified
