-- ===== src/Base/Maps.antt =====
-- Go's maps keyed by texts, as association lists in which the first entry counts.
use mathlib.Core.Path.{◌≡◌, refl}
use mathlib.Core.Bool.{Bool, true, false}
use mathlib.Core.Option.{Option, none, some}
use mathlib.Core.List.{List, [], ◌∷◌}
use native.Mathlib.Omega.{arith}
use system_monitor_go.Base.Tests.{if◌then◌else◌}
use system_monitor_go.Base.Texts.{Text, text_eq, text_eq_iff}

module _ {ℓ} {V : Type ℓ} where
  unfoldable pub lookup : Text → List (Text × V) → Option V
  lookup k [] = none
  lookup k ((j, v) ∷ m) = if text_eq j k then some v else lookup k m

  -- `m[k] = v`: the entry is replaced where it stands, or put at the end.
  unfoldable pub insert : Text → V → List (Text × V) → List (Text × V)
  insert k v [] = (k, v) ∷ []
  insert k v ((j, w) ∷ m) = if text_eq j k then (k, v) ∷ m else (j, w) ∷ insert k v m

  pub lookup-insert :
      (k j : Text) (v : V) (m : List (Text × V))
      → lookup j (insert k v m) ≡ (if text_eq k j then some v else lookup j m)
  unfolding lookup insert
  lookup-insert k j v [] = refl
  lookup-insert k j v ((i, w) ∷ m) =
      ground (arith, text_eq_iff k j, text_eq_iff i k, text_eq_iff i j, lookup-insert k j v m)

module _ {ℓ} {V : Type ℓ} where
  -- The first of two values that is there
  unfoldable pub or_else : Option V → Option V → Option V
  or_else none o = o
  or_else (some v) o = some v

  pub or_else_assoc : (a b c : Option V) → or_else (or_else a b) c ≡ or_else a (or_else b c)
  unfolding or_else
  or_else_assoc none b c = refl
  or_else_assoc (some v) b c = refl

  pub or_else-none : (a : Option V) → or_else a none ≡ a
  unfolding or_else
  or_else-none none = refl
  or_else-none (some v) = refl

  pub or_else_if :
      (b : Bool) (v : V) (o : Option V)
      → (if b then some v else o) ≡ or_else (if b then some v else none) o
  unfolding or_else
  or_else_if true v o = refl
  or_else_if false v o = refl
