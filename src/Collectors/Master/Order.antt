-- ===== src/Collectors/Master/Order.antt =====
-- internal/collectors/collector.go: CollectAll under every order in which the goroutines finish.
use system_monitor_go.Base.{ℕ, ◌≡◌, refl, sym, ap, ◌∙◌, ◌≢◌, List, Text, Result, ok, err}
use system_monitor_go.Models.Report.{SystemMetrics}
use system_monitor_go.Collectors.Master.{
  Payload, system_info, cpu_metrics, memory_metrics, disk_metrics, network_metrics, process_infos,
  docker_containers, service_infos, other_data, merge, finish, finish_all,
}
use mathlib.Core.Path.{ap₂}
use mathlib.Core.HLevel.{¬_prop}
use mathlib.Core.List.{Permᴰ, Pairwise, mem-cons_self}
use mathlib.Core.List.Permᴰ

module _ {F : Type 0} where
  -- The case of the type switch that takes the data.
  unfoldable pub kind : Payload F → ℕ
  kind (system_info v) = 0
  kind (cpu_metrics v) = 1
  kind (memory_metrics v) = 2
  kind (disk_metrics v) = 3
  kind (network_metrics v) = 4
  kind (process_infos v) = 5
  kind (docker_containers v) = 6
  kind (service_infos v) = 7
  kind other_data = 8

  -- Two replies that are not data for the same field.
  unfoldable pub Apart : Text × Result Text (Payload F) → Text × Result Text (Payload F) → Type 0
  Apart (n, ok v) (m, ok w) = kind v ≢ kind w
  Apart (n, ok v) (m, err e) = Unit
  Apart (n, err d) r = Unit

  merge-swap :
      (m : SystemMetrics F) (v w : Payload F)
      → kind v ≢ kind w
      → merge (merge m v) w ≡ merge (merge m w) v
  unfolding merge kind
  merge-swap m (system_info a) (system_info b) h = absurd (h refl)
  merge-swap m (cpu_metrics a) (cpu_metrics b) h = absurd (h refl)
  merge-swap m (memory_metrics a) (memory_metrics b) h = absurd (h refl)
  merge-swap m (disk_metrics a) (disk_metrics b) h = absurd (h refl)
  merge-swap m (network_metrics a) (network_metrics b) h = absurd (h refl)
  merge-swap m (process_infos a) (process_infos b) h = absurd (h refl)
  merge-swap m (docker_containers a) (docker_containers b) h = absurd (h refl)
  merge-swap m (service_infos a) (service_infos b) h = absurd (h refl)
  merge-swap m v w h = refl

  pub Apart-IsProp : (a b : Text × Result Text (Payload F)) → IsProp (Apart a b)
  unfolding Apart
  Apart-IsProp (n, ok v) (m, ok w) = ¬_prop
  Apart-IsProp (n, ok v) (m, err e) = λ x y. refl
  Apart-IsProp (n, err d) r = λ x y. refl

  Apart-sym : (a b : Text × Result Text (Payload F)) → Apart a b → Apart b a
  unfolding Apart
  Apart-sym (n, ok v) (m, ok w) h = λ e. h (sym e)
  Apart-sym (n, ok v) (m, err e) h = tt
  Apart-sym (n, err d) (m, ok w) h = tt
  Apart-sym (n, err d) (m, err e) h = tt

  finish-swap :
      (m : SystemMetrics F) (a b : Text × Result Text (Payload F))
      → Apart a b
      → finish (finish m a) b ≡ finish (finish m b) a
  unfolding Apart finish
  finish-swap m (n, ok v) (k, ok w) h = merge-swap m v w h
  finish-swap m (n, ok v) (k, err e) h = refl
  finish-swap m (n, err d) (k, ok w) h = refl
  finish-swap m (n, err d) (k, err e) h = refl

  -- Whatever the order in which the goroutines finish, the report is the same, if no two of the
  -- replies are data for the same field.
  pub finish_all-perm :
      {rs ss : List (Text × Result Text (Payload F))} (m : SystemMetrics F)
      → Permᴰ rs ss
      → Pairwise Apart rs
      → finish_all m rs ≡ finish_all m ss
  unfolding finish_all
  finish_all-perm m Permᴰ.nil h = refl
  finish_all-perm m (Permᴰ.cons {a = a} {l₂ = l} e d) (Pairwise.cons g h) =
      finish_all-perm (finish m a) d h ∙ ap (λ r. finish_all (finish m r) l) e
  finish_all-perm m (Permᴰ.swap {a = a} {b = b} {l = l} e f) (Pairwise.cons g h) =
      ap (λ r. finish_all r l) (finish-swap m a b (g b mem-cons_self))
      ∙ ap₂ (λ r s. finish_all (finish (finish m s) r) l) e f
  finish_all-perm m (Permᴰ.trans d e) h =
      finish_all-perm m d h
      ∙ finish_all-perm m e (Permᴰ.pairwise {R = Apart} Apart-IsProp Apart-sym d h)
