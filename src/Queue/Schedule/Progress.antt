-- ===== src/Queue/Schedule/Progress.antt =====
-- What the goroutines in `Pop` get when they run: none is left asleep beside an item.
use system_monitor_go.Base.{
  ℕ, zero, suc, ◌+◌, ◌-◌, ◌≤◌, ◌<◌, ◌≡◌, refl, sym, ap, ◌∙◌, List, [], ◌∷◌, ◌++◌, list_laws,
  append-nil, arith, lt→ltb, take, drop, take-nil, drop-nil, pos, ret, ◌>>=◌, length,
}
use mathlib.Core.Path.{subst}
use system_monitor_go.Queue.{new_queue}
use system_monitor_go.Queue.Schedule.{Shared, Action, waking, pop_step, wake_step, step, run, fresh}
use system_monitor_go.Queue.Schedule.Safety.{run-Inv}

-- So many signalled goroutines take the lock, one after the other.
abbrev pub wakes {ℓ} : {A : Type ℓ} → ℕ → List (Action A)
wakes zero = []
wakes (suc k) = waking ∷ wakes k

module _ {ℓ} {A : Type ℓ} where
  -- The goroutines in `Pop`, asleep or signalled
  abbrev pub in_pop : Shared A → ℕ
  in_pop s = s.waiting + s.notified

  -- Of these items the first so many are gone after the others, and nobody stays beside an item.
  abbrev pub Took : Shared A → ℕ → List A → List A → Type ℓ
  Took u i items gone =
      (u.gone ≡ gone ++ take i items)
      × (u.queue.items ≡ drop i items)
      × (0 < u.waiting + u.notified → u.queue.items ≡ [])

  abbrev parts : ℕ → ℕ → List A → ℕ → List A → List A → Shared A
  parts n w pushed k items gone = record {
    queue = record { items = items; size = n };
    waiting = w;
    notified = k;
    pushed = pushed;
    gone = gone;
  }

  wake-signalled :
      (n w : ℕ) (pushed : List A) (k : ℕ) (items gone : List A)
      → run (parts n w pushed (suc k) items gone) (wakes (suc k))
        ≡ run (pop_step (parts n w pushed k items gone) items) (wakes k)
  unfolding run step wake_step
  wake-signalled n w pushed k items gone = rw (lt→ltb 0 (suc k) (omega arith)) (
      ap (λ i. run (pop_step (parts n w pushed i items gone) items) (wakes k)) {x = suc k - 1}
        (omega arith))

  wakes-Took :
      (n w : ℕ) (pushed : List A) (k : ℕ) (items gone : List A)
      → (0 < w → length items ≤ k)
      → (u : Shared A) × (run (parts n w pushed k items gone) (wakes k) ≡ ret u)
        × Took u (w + k) items gone
  unfolding run pop_step
  wakes-Took n zero pushed zero items gone h = (
    parts n 0 pushed 0 items gone,
    refl,
    (sym (append-nil gone), refl, λ p. absurd (omega arith)),
  )
  wakes-Took n (suc w) pushed zero [] gone h = (
    parts n (suc w) pushed 0 [] gone,
    refl,
    (rw (take-nil, append-nil) refl, rw drop-nil refl, λ p. refl),
  )
  wakes-Took n (suc w) pushed zero (x ∷ items) gone h = absurd (omega (arith, h (omega arith)))
  wakes-Took n w pushed (suc k) [] gone h =
      let (u, e, served) = wakes-Took n (w + 1) pushed k [] gone (λ p. omega arith) in
      (
        u,
        wake-signalled n w pushed k [] gone ∙ e,
        subst (λ i. Took u i [] gone) (omega arith) served,
      )
  wakes-Took n w pushed (suc k) (x ∷ items) gone h =
      let (u, e, served) =
        wakes-Took n w pushed k items (gone ++ x ∷ []) (λ p. omega (arith, h p)) in
      (
        u,
        wake-signalled n w pushed k (x ∷ items) gone ∙ e,
        subst (λ i. Took u i (x ∷ items) gone) {x = suc (w + k)} {y = w + suc k} (omega arith)
            (served.0 ∙ simp list_laws, served.1, served.2),
      )

  -- After any order of the steps of any number of goroutines on a new queue of positive capacity, if
  -- the signalled goroutines then take the lock one after the other, nothing panics, and they take from
  -- the head as many items as there are goroutines in `Pop`, asleep ones included, or all the items
  -- if there are fewer; no goroutine stays in `Pop` beside an item.
  pub run-drained :
      (n : ℕ) (acts : List (Action A))
      → 0 < n
      → (t : Shared A) × ((new_queue (pos n) >>= λ q. run (fresh q) acts) ≡ ret t)
        × ((u : Shared A) × (run t (wakes t.notified) ≡ ret u)
            × (u.gone ≡ t.gone ++ take (in_pop t) t.queue.items)
            × (u.queue.items ≡ drop (in_pop t) t.queue.items)
            × (0 < in_pop u → u.queue.items ≡ []))
  run-drained n acts h =
      let (t, e, inv) = run-Inv n acts h in
      let (u, f, took) =
        wakes-Took t.queue.size t.waiting t.pushed t.notified t.queue.items t.gone
          inv.no_lost_wakeup in
      (t, e, (u, f, took.0, took.1, took.2))
