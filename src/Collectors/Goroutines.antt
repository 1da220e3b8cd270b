-- ===== src/Collectors/Goroutines.antt =====
-- Goroutines that share a collector: each is in a phase, and a step of one of them, which the lock of the
-- collector makes whole, changes its phase and the collector. The orders of the steps are lists.
use system_monitor_go.Base.{
  ℕ, zero, suc, ◌≡◌, inl, inr, Option, none, some, Option-cases, List, [], ◌∷◌, ◌++◌, Time, All,
  get_elem?, set, All-append,
}
use mathlib.Core.Path.{subst}

pub record Shared (C P : Type 0) : Type 0 where
  pub collector : C
  pub phases : List P

-- A goroutine starts in a phase, or the one with this number takes its next step, at this time.
pub data Action (P : Type 0) : Type 0 where
  begin : P → Action P
  move : Time → ℕ → Action P

module _ {C P : Type 0} (step : Time → P → C → C × P) where
  moved : Time → ℕ → Option P → Shared C P → Shared C P
  moved now i none s = s
  moved now i (some p) s = record {
    collector = (step now p s.collector).0;
    phases = set s.phases i (step now p s.collector).1;
  }

  unfoldable pub react : Action P → Shared C P → Shared C P
  unfolding moved
  react (begin p) s = record s { phases = s.phases ++ p ∷ [] }
  react (move now i) s = moved now i (get_elem? s.phases i) s

  unfoldable pub run : List (Action P) → Shared C P → Shared C P
  unfolding react
  run [] s = s
  run (a ∷ acts) s = run acts (react a s)

-- So many steps of the first goroutine, all at this time
abbrev pub moves : {P : Type 0} → ℕ → Time → List (Action P)
moves zero now = []
moves (suc k) now = move now 0 ∷ moves k now

-- A goroutine that takes its steps one after the other
abbrev pub in_a_row : {P : Type 0} → ℕ → Time → P → List (Action P)
in_a_row k now p = begin p ∷ moves k now

-- No goroutine has started.
abbrev pub idle : {C P : Type 0} → C → Shared C P
idle c = record { collector = c; phases = [] }

module _ {ℓ} {A : Type ℓ} (P : A → Type 0) where
  All-get_elem? : (xs : List A) (i : ℕ) (x : A) → All P xs → get_elem? xs i ≡ some x → P x
  All-get_elem? [] i x h e = absurd (cc)
  All-get_elem? (y ∷ xs) zero x h e = let same : y ≡ x = cc in subst P same h.0
  All-get_elem? (y ∷ xs) (suc i) x h e = All-get_elem? xs i x h.1 e

  All-set : (xs : List A) (i : ℕ) (v : A) → All P xs → P v → All P (set xs i v)
  All-set [] i v h p = tt
  All-set (x ∷ xs) zero v h p = (p, h.1)
  All-set (x ∷ xs) (suc i) v h p = (h.0, All-set xs i v h.1 p)

pub All-implies :
    {A : Type 0} (P Q : A → Type 0) (xs : List A) → ((x : A) → P x → Q x) → All P xs → All Q xs
All-implies P Q [] f h = tt
All-implies P Q (x ∷ xs) f h = (f x h.0, All-implies P Q xs f h.1)

-- What holds of the collector and of every phase, where a step keeps it for its own phase and for
-- those of the others.
module _ {C P : Type 0} (step : Time → P → C → C × P) (I : C → Type 0) (J : C → P → Type 0) where
  abbrev pub Holds : Shared C P → Type 0
  Holds s = I s.collector × All (J s.collector) s.phases

  -- A goroutine that may start.
  abbrev pub Starts : Action P → Type 0
  Starts (begin p) = (c : C) → J c p
  Starts (move now i) = Unit

  pub record Keeps : Type 0 where
    pub of_own :
        (now : Time) (p : P) (c : C)
        → I c
        → J c p
        → I (step now p c).0 × J (step now p c).0 (step now p c).1
    pub of_others : (now : Time) (p q : P) (c : C) → I c → J c p → J c q → J (step now p c).0 q

  react-Holds :
      (a : Action P) (s : Shared C P) → Keeps → Starts a → Holds s → Holds (react step a s)
  unfolding react moved
  react-Holds (begin p) s k h (i, j) =
      (i, All-append (J s.collector) s.phases (p ∷ []) j (h s.collector, tt))
  react-Holds (move now n) s k h (i, j) = elim (Option-cases (get_elem? s.phases n)) [
    | inl e ↦ rw e (i, j)
    | inr (p, e) ↦
        let own = All-get_elem? (J s.collector) s.phases n p j e in
        let (i', j') = k.of_own now p s.collector i own in
        rw e (
          i',
          All-set (J (step now p s.collector).0) s.phases n _
              (All-implies (J s.collector) _ s.phases (λ q. k.of_others now p q s.collector i own)
                j)
              j',
        )
  ]

  pub run-Holds :
      (acts : List (Action P)) (s : Shared C P)
      → Keeps
      → All Starts acts
      → Holds s
      → Holds (run step acts s)
  unfolding run
  run-Holds [] s k h i = i
  run-Holds (a ∷ acts) s k h i = run-Holds acts (react step a s) k h.1 (react-Holds a s k h.0 i)
