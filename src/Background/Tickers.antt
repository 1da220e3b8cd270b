-- ===== src/Background/Tickers.antt =====
-- `time.NewTicker` between a first collection and the ones at the ticks.
use system_monitor_go.Base.{
  non_positive_ticker, wrap_int64, to_int64, ◌*ℤ◌, ℤ, pos, negsuc, ◌≤ℤ◌, ◌≡◌, refl, arith, ◌↔◌, inl,
  inr, Bool-cases, List, [], ◌∷◌, seconds, ltb_ℤ, Outcome, ret, panic, ◌>>=◌, Finishes,
  panic_not_Finishes, >>=-eq-ret, >>=-Finishes, new_ticker,
}
use system_monitor_go.Background.{rounds, background}

-- Positive numbers of seconds, and those that a `time.Duration` holds in nanoseconds
abbrev pub Positive : ℤ → Type 0
Positive n = pos 1 ≤ℤ n

abbrev pub InRange : ℤ → Type 0
InRange n = (negsuc 9223372035 ≤ℤ n) × (n ≤ℤ pos 9223372036)

seconds_lem : (n : ℤ) → InRange n → ltb_ℤ (pos 0) (seconds n) ≡ ltb_ℤ (pos 0) n
unfolding seconds wrap_int64 to_int64 ◌*ℤ◌
seconds_lem (pos n) h = ground arith
seconds_lem (negsuc n) h = ground arith

new_ticker-Finishes : (n : ℤ) → InRange n → Finishes (new_ticker (seconds n)) ↔ Positive n
unfolding new_ticker
new_ticker-Finishes n h = elim (Bool-cases (ltb_ℤ (pos 0) n)) [
  | inl e ↦ (λ f. ground arith, λ k. (tt, rw (seconds_lem n h, e, new_ticker) refl))
  | inr e ↦ (
    λ f. panic_not_Finishes non_positive_ticker (rw (seconds_lem n h, e, new_ticker) refl) f,
    λ k. absurd (ground arith),
  )
]

-- With a ticker in between, what finishes goes on doing so exactly for a positive number of seconds.
pub ticker_between {ℓ κ} :
    {A : Type ℓ} {B : Type κ} (n : ℤ) (m : Outcome A) (f : A → Outcome B)
    → InRange n
    → Finishes (m >>= f)
    → Finishes (m >>= λ a. new_ticker (seconds n) >>= λ u. f a) ↔ Positive n
ticker_between n (panic p) f h k = panic_not_Finishes p refl k
ticker_between n (ret a) f h k = (
  λ l.
      let (u, e, r) = >>=-eq-ret (new_ticker (seconds n)) (λ u. f a) l.1 in
      (new_ticker-Finishes n h).0 (u, e),
  λ l. >>=-Finishes (new_ticker (seconds n)) (λ u. f a) ((new_ticker-Finishes n h).1 l) (λ u. k),
)

module _ {I S : Type 0} where
  pub rounds-Finishes :
      (round : I → S → S) (is : List I) (s : S) → Finishes (rounds (λ i t. ret (round i t)) is s)
  unfolding rounds
  rounds-Finishes round [] s = (s, refl)
  rounds-Finishes round (i ∷ is) s = rounds-Finishes round is (round i s)

  pub background-Finishes :
      (round : I → S → S) (n : ℤ) (first : I) (ticks : List I) (s : S)
      → InRange n
      → Finishes (background (λ i t. ret (round i t)) (seconds n) first ticks s) ↔ Positive n
  unfolding background
  background-Finishes round n first ticks s h =
      ticker_between n (ret (round first s)) (λ t. rounds (λ i t. ret (round i t)) ticks t) h
        (rounds-Finishes round ticks (round first s))

module _ {I S : Type 0} (round : I → S → Outcome S) (Kept : S → Type 0)
    (step : (i : I) (s : S) → Kept s → (t : S) × (round i s ≡ ret t) × Kept t) where
  -- Rounds that return and keep something true go on.
  rounds_keep : (is : List I) (s : S) → Kept s → Finishes (rounds round is s)
  unfolding rounds
  rounds_keep [] s h = (s, refl)
  rounds_keep (i ∷ is) s h = let (t, e, k) = step i s h in rw e (rounds_keep is t k)

  pub background_keep :
      (n : ℤ) (first : I) (ticks : List I) (s : S)
      → InRange n
      → Kept s
      → Finishes (background round (seconds n) first ticks s) ↔ Positive n
  unfolding background rounds
  background_keep n first ticks s h k =
      ticker_between n (round first s) (λ t. rounds round ticks t) h
        (rounds_keep (first ∷ ticks) s k)
