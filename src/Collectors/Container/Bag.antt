-- ===== src/Collectors/Container/Bag.antt =====
-- A collection of internal/collectors/container.go without the order of its goroutines: the metrics
-- as a bag, a list up to its order.
use system_monitor_go.Base.{
  ◌≡◌, sym, ap, ◌∙◌, inl, inr, Option, none, some, List, Outcome, ret, panic, Outcome-cases,
}
use mathlib.Core.List.{Permᴰ}
use mathlib.Core.List.Permᴰ
use mathlib.Core.Quot
use mathlib.Core.Quot.{Quot}
use system_monitor_go.Base.Floats.{Float64}
use system_monitor_go.Collectors.Container.{Listed}
use system_monitor_go.Collectors.Container.Collection.{gather}
use system_monitor_go.Collectors.Container.Gather.{gather-perm}

abbrev pub Bag {ℓ} : Type ℓ → Type ℓ
Bag A = Quot (Permᴰ {A = A})

-- What a collection comes to: a bag of metrics, or `none` for a panic, whichever it is.
abbrev pub bag_of {ℓ} : {A : Type ℓ} → Outcome (List A) → Option (Bag A)
bag_of (ret xs) = some (Quot.mk xs)
bag_of (panic p) = none

-- A collection in which the goroutines end in one order panics exactly if one in which they end in
-- another order does, and if they do not panic, both give the same metrics up to their order.
pub bag_of-gather :
    (fl : Float64) (cs ds : List Listed)
    → Permᴰ cs ds
    → bag_of (gather fl cs) ≡ bag_of (gather fl ds)
bag_of-gather fl cs ds d = elim (Outcome-cases (gather fl cs)) [
  | inl (xs, e) ↦
      let (ys, f, h) = gather-perm fl d e in
      ap bag_of e ∙ ap some (Quot.sound h) ∙ sym (ap bag_of f)
  | inr (p, e) ↦ elim (Outcome-cases (gather fl ds)) [
    | inl (ys, f) ↦ let (xs, g, h) = gather-perm fl (Permᴰ.symm d) f in absurd (cc (g, e))
    | inr (q, f) ↦ ap bag_of e ∙ sym (ap bag_of f)
  ]
]
