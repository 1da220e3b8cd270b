-- ===== src/Collectors/Master/Kinds.antt =====
-- internal/collectors/collector.go: replies for different fields, told apart by the numbers of the fields.
use system_monitor_go.Base.{ℕ, ◌≡◌, sym, ◌∙◌, ◌≢◌, List, [], ◌∷◌, Text, Result, ok, err}
use system_monitor_go.Collectors.Master.{Payload}
use system_monitor_go.Collectors.Master.Order.{kind, Apart, Apart-IsProp}
use mathlib.Core.List.{Memᴰ, Pairwise}
use mathlib.Core.List.Memᴰ
use mathlib.Core.Path.{subst}
use mathlib.Core.Logic.{∥∥₁_elim}

abbrev pub LacksNumber : ℕ → List ℕ → Type 0
LacksNumber i [] = Unit
LacksNumber i (j ∷ js) = (i ≢ j) × LacksNumber i js

-- Numbers of which no two are the same
abbrev pub AllDistinct : List ℕ → Type 0
AllDistinct [] = Unit
AllDistinct (i ∷ is) = LacksNumber i is × AllDistinct is

module _ {F : Type 0} where
  -- A reply that, if it is data, is for the field of this number
  unfoldable pub HasKind : ℕ → Text × Result Text (Payload F) → Type 0
  unfolding kind
  HasKind i (n, ok v) = kind v ≡ i
  HasKind i (n, err e) = Unit

  -- Replies of the numbers given
  unfoldable pub HasKinds : List ℕ → List (Text × Result Text (Payload F)) → Type 0
  unfolding HasKind
  HasKinds [] [] = Unit
  HasKinds (i ∷ is) (r ∷ rs) = HasKind i r × HasKinds is rs
  HasKinds _ _ = ⊥

  Apart-kinds :
      (i j : ℕ) (a b : Text × Result Text (Payload F))
      → HasKind i a
      → HasKind j b
      → i ≢ j
      → Apart a b
  unfolding HasKind Apart
  Apart-kinds i j (n, ok v) (m, ok w) h k d = λ e. d (sym h ∙ e ∙ k)
  Apart-kinds i j (n, ok v) (m, err e) h k d = tt
  Apart-kinds i j (n, err e) b h k d = tt

  Apart-each :
      (i : ℕ) (js : List ℕ) (a : Text × Result Text (Payload F))
      (rs : List (Text × Result Text (Payload F)))
      → HasKind i a
      → HasKinds js rs
      → LacksNumber i js
      → (x : Text × Result Text (Payload F)) → Memᴰ x rs
      → Apart a x
  unfolding HasKinds
  Apart-each i (j ∷ js) a (r ∷ rs) h (k, ks) (d, ds) x (Memᴰ.head e) =
      subst (λ y. Apart a y) (sym e) (Apart-kinds i j a r h k d)
  Apart-each i (j ∷ js) a (r ∷ rs) h (k, ks) (d, ds) x (Memᴰ.tail m) =
      Apart-each i js a rs h ks ds x m
  Apart-each i [] a (r ∷ rs) h k d x m = absurd k
  Apart-each i [] a [] h k d x m = absurd (Memᴰ.not-nil m)
  Apart-each i (j ∷ js) a [] h k d x m = absurd k

  pub Pairwise-kinds :
      (is : List ℕ) (rs : List (Text × Result Text (Payload F)))
      → HasKinds is rs
      → AllDistinct is
      → Pairwise Apart rs
  unfolding HasKinds
  Pairwise-kinds [] [] h d = Pairwise.nil
  Pairwise-kinds (i ∷ is) (r ∷ rs) (h, hs) (d, ds) =
      Pairwise.cons (λ x m. ∥∥₁_elim m (Apart-IsProp r x) (λ e. Apart-each i is r rs h hs d x e))
        (Pairwise-kinds is rs hs ds)
  Pairwise-kinds (i ∷ is) [] h d = absurd h
  Pairwise-kinds [] (r ∷ rs) h d = absurd h
