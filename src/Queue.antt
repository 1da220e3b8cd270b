-- ===== src/Queue.antt =====
-- internal/common/queue.go: the bounded queue between the collectors and the sender. A method that
-- changes the queue returns the new record; the lock makes each method one step. The capacity is
-- the field `size`, as in the code.
pub mod Window
pub mod Schedule
mod Tests
use system_monitor_go.Base.{
  ℕ, ◌+◌, Bool, List, [], ◌∷◌, ◌++◌, Option, none, some, ℤ, pos, negsuc, Outcome, ret, panic,
  bad_length, index_out_of_range, ◌>>=◌, leb, length, if◌then◌else◌,
}

pub record Queue {ℓ} (A : Type ℓ) : Type ℓ where
  pub items : List A
  pub size : ℕ

module _ {ℓ} {A : Type ℓ} where
  -- `make` with a negative capacity panics.
  unfoldable pub new_queue : ℤ → Outcome (Queue A)
  new_queue (pos n) = ret (record { items = []; size = n })
  new_queue (negsuc n) = panic bad_length

  -- `items[1:]`, out of range on an empty slice
  unfoldable pub tail_slice : List A → Outcome (List A)
  tail_slice [] = panic index_out_of_range
  tail_slice (x ∷ xs) = ret xs

  -- A full queue loses its oldest item before the new one is appended.
  unfoldable pub push : Queue A → A → Outcome (Queue A)
  unfolding tail_slice
  push q x = (if leb q.size (length q.items) then tail_slice q.items else ret q.items) >>= λ kept.
      ret (record q { items = kept ++ x ∷ [] })

  take_head : Queue A → List A → Queue A × Option A
  take_head q [] = (q, none)
  take_head q (x ∷ xs) = (record q { items = xs }, some x)

  -- `TryPop`: the pair `(nil, false)` is `none`.
  unfoldable pub try_pop : Queue A → Queue A × Option A
  unfolding take_head
  try_pop q = take_head q q.items

  unfoldable pub queue_size : Queue A → ℕ
  queue_size q = length q.items
