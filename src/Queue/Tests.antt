-- ===== src/Queue/Tests.antt =====
-- Runs of the queue, and its theorems at concrete inputs.
use system_monitor_go.Base.{
  ℕ, ◌≡◌, refl, List, [], ◌∷◌, some, arith, pos, negsuc, ret, panic, bad_length, ◌>>=◌, ◌<◌, ◌++◌,
  take, drop,
}
use system_monitor_go.Queue.{new_queue, push, try_pop}
use system_monitor_go.Queue.Window.{newest, push_all, push_all-window}
use system_monitor_go.Queue.Schedule.{
  Shared, Action, pushing, trying, popping, waking, run, fresh, Inv,
}
use system_monitor_go.Queue.Schedule.Safety.{run-Inv}
use system_monitor_go.Queue.Schedule.Progress.{in_pop, wakes, run-drained}

abbrev three : List ℕ
three = 1 ∷ 2 ∷ 3 ∷ []

-- The oldest of three items is dropped at capacity two.
drops_oldest :
    (new_queue (pos 2) >>= λ q. push_all q three) ≡ ret (record { items = 2 ∷ 3 ∷ []; size = 2 })
unfolding new_queue push_all push
drops_oldest = refl

negative_capacity : new_queue {A = ℕ} (negsuc 0) ≡ panic bad_length
unfolding new_queue
negative_capacity = refl

takes_oldest :
    try_pop {A = ℕ} (record { items = three; size = 5 })
    ≡ (record { items = 2 ∷ 3 ∷ []; size = 5 }, some 1)
unfolding try_pop
takes_oldest = refl

-- A waiting `Pop` is signalled by a push, but a `TryPop` may come first: it waits again.
abbrev overtaken : List (Action ℕ)
overtaken = popping ∷ pushing 7 ∷ trying ∷ waking ∷ []

waits_again :
    run (fresh (record { items = []; size = 2 })) overtaken
    ≡ ret (record {
      queue = record { items = []; size = 2 };
      waiting = 1;
      notified = 0;
      pushed = 7 ∷ [];
      gone = 7 ∷ [];
    })
unfolding run push
waits_again = refl

push_all-window_example :
    (new_queue (pos 2) >>= λ q. push_all q three)
    ≡ ret (record { items = newest 2 three; size = 2 })
push_all-window_example = push_all-window 2 three (omega arith)

run-Inv_example :
    (t : Shared ℕ) × ((new_queue (pos 2) >>= λ q. run (fresh q) overtaken) ≡ ret t) × Inv 2 t
run-Inv_example = run-Inv 2 overtaken (omega arith)

-- Three goroutines wait, two are signalled.
abbrev three_wait : List (Action ℕ)
three_wait = popping ∷ popping ∷ popping ∷ pushing 7 ∷ pushing 8 ∷ []

run-drained_example :
    (t : Shared ℕ) × ((new_queue (pos 4) >>= λ q. run (fresh q) three_wait) ≡ ret t)
    × ((u : Shared ℕ) × (run t (wakes t.notified) ≡ ret u)
        × (u.gone ≡ t.gone ++ take (in_pop t) t.queue.items)
        × (u.queue.items ≡ drop (in_pop t) t.queue.items)
        × (0 < in_pop u → u.queue.items ≡ []))
run-drained_example = run-drained 4 three_wait (omega arith)
