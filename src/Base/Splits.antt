-- ===== src/Base/Splits.antt =====
-- `strings.Split` on one character, and the joining that it undoes.
use Prim.Native.Nat.{ℕ}
use mathlib.Core.Path.{◌≡◌, refl, ap, ◌∙◌}
use mathlib.Core.Logic.{◌≢◌, inl, inr}
use mathlib.Core.Bool.{false}
use mathlib.Core.List.{List, [], ◌∷◌, ◌++◌}
use native.Mathlib.Omega.{arith}
use system_monitor_go.Base.Tests.{◌==◌, if◌then◌else◌, Bool-cases, ==_iff}
use system_monitor_go.Base.Lists.{All}
use system_monitor_go.Base.Texts.{Text}

-- A character put in front of the first part.
unfoldable pub cons_head : ℕ → List Text → List Text
cons_head c [] = (c ∷ []) ∷ []
cons_head c (p ∷ ps) = (c ∷ p) ∷ ps

-- `strings.Split(s, sep)` for a separator of one character
unfoldable pub split : Text → ℕ → List Text
unfolding cons_head
split [] sep = [] ∷ []
split (c ∷ s) sep = let rest = split s sep in if c == sep then [] ∷ rest else cons_head c rest

abbrev pub Lacks : ℕ → Text → Type 0
Lacks b = All (λ c. c ≢ b)

-- The text that has the parts `p` and `ps`, each of `ps` behind a separator.
abbrev pub joined : ℕ → Text → List Text → Text
joined sep p [] = p
joined sep p (q ∷ ps) = p ++ sep ∷ joined sep q ps

pub split_last : (p : Text) (sep : ℕ) → Lacks sep p → split p sep ≡ p ∷ []
unfolding split
split_last [] sep h = refl
split_last (c ∷ p) sep h = ground (arith, split_last p sep h.1)

pub split-append : (p s : Text) (sep : ℕ) → Lacks sep p → split (p ++ sep ∷ s) sep ≡ p ∷ split s sep
unfolding split
split-append [] s sep h = ground arith
split-append (c ∷ p) s sep h = ground (arith, split-append p s sep h.1)

-- The split of parts that hold no separator gives the parts back.
pub split-joined :
    (sep : ℕ) (p : Text) (ps : List Text)
    → All (Lacks sep) (p ∷ ps)
    → split (joined sep p ps) sep ≡ p ∷ ps
split-joined sep p [] h = split_last p sep h.0
split-joined sep p (q ∷ ps) h =
    split-append p (joined sep q ps) sep h.0 ∙ ap (λ l. p ∷ l) (split-joined sep q ps h.1)

abbrev pub rejoined : ℕ → List Text → Text
rejoined sep [] = []
rejoined sep (p ∷ ps) = joined sep p ps

rejoined-cons_head :
    (sep c : ℕ) (p : Text) (ps : List Text)
    → rejoined sep (cons_head c (p ∷ ps)) ≡ c ∷ joined sep p ps
unfolding cons_head
rejoined-cons_head sep c p [] = refl
rejoined-cons_head sep c p (q ∷ ps) = refl

-- A split is never empty.
pub split-cons : (s : Text) (sep : ℕ) → (p : Text) × (ps : List Text) × (split s sep ≡ p ∷ ps)
unfolding split cons_head
split-cons [] sep = ([], [], refl)
split-cons (c ∷ s) sep =
    let (p, ps, e) = split-cons s sep in
    elim (Bool-cases (c == sep)) [
      | inl at_sep ↦ ([], split s sep, rw at_sep)
      | inr inside ↦ (c ∷ p, ps, rw (inside, e))
    ]

-- Joining the parts of a split gives the text back, for every text.
pub rejoined-split : (s : Text) (sep : ℕ) → rejoined sep (split s sep) ≡ s
unfolding split
rejoined-split [] sep = refl
rejoined-split (c ∷ s) sep =
    let (p, ps, e) = split-cons s sep in
    let ih : joined sep p ps ≡ s = rw e at (rejoined-split s sep) in
    elim (Bool-cases (c == sep)) [
      | inl at_sep ↦ rw (at_sep, e) (cc (ih, (==_iff c sep).0 at_sep))
      | inr inside ↦ rw (inside, e) (rejoined-cons_head sep c p ps ∙ ap (λ l. c ∷ l) ih)
    ]

-- A first character that is no separator stands in the first part.
pub split_inside :
    (c : ℕ) (s : Text) (sep : ℕ)
    → (c == sep) ≡ false
    → (p : Text) × (ps : List Text) × (split (c ∷ s) sep ≡ (c ∷ p) ∷ ps)
unfolding split cons_head
split_inside c s sep h = let (p, ps, e) = split-cons s sep in (p, ps, rw (h, e))

-- `strings.SplitN(s, sep, 2)` for a separator of one character: a cut at the first of them.
unfoldable pub split_two : Text → ℕ → List Text
unfolding cons_head
split_two [] sep = [] ∷ []
split_two (c ∷ s) sep =
    let rest = split_two s sep in if c == sep then [] ∷ s ∷ [] else cons_head c rest

pub split_two-append :
    (p s : Text) (sep : ℕ) → Lacks sep p → split_two (p ++ sep ∷ s) sep ≡ p ∷ s ∷ []
unfolding split_two cons_head
split_two-append [] s sep h = ground arith
split_two-append (c ∷ p) s sep h = ground (arith, split_two-append p s sep h.1)

pub split_two_last : (p : Text) (sep : ℕ) → Lacks sep p → split_two p sep ≡ p ∷ []
unfolding split_two cons_head
split_two_last [] sep h = refl
split_two_last (c ∷ p) sep h = ground (arith, split_two_last p sep h.1)
