-- ===== src/Collectors/Network/Reported.antt =====
-- internal/collectors/network.go: which interfaces are reported, by a round and from the cache.
use system_monitor_go.Base.{
  Bool, true, false, not, ◌&&◌, ◌||◌, ◌≡◌, refl, ap, ◌∙◌, arith, Option, none, some, List, [], ◌∷◌,
  map, Text, codes, text_eq, text_eq_iff, any, inl, inr, Bool-cases, Time, ok, err, Result-cases,
  lookup, if◌then◌else◌,
}
use mathlib.Core.Path.{ap₂}
use system_monitor_go.Base.Floats.{Float64}
use system_monitor_go.Config.Settings.{NetworkCollectorSettings}
use system_monitor_go.Models.Network.{NetworkMetrics}
use system_monitor_go.Collectors.Network.{
  InterfaceStat, IoCounters, Answers, NetworkCollector, blank_collector, get_interface_status,
  is_loopback,
}
use system_monitor_go.Collectors.Network.Metrics.{
  Round, with_addr, with_addrs, with_rates, with_counters, described, metric_of, collect_interfaces,
  collect_network_metrics, store, collect_and_cache, new_network_collector, collect,
}

-- Whether the flags have `up` and not `loopback`
abbrev pub is_reported : List Text → Bool
is_reported flags =
    any (λ f. text_eq f (codes "up")) flags && not (any (λ f. text_eq f (codes "loopback")) flags)

unfoldable pub up_interfaces : List InterfaceStat → List InterfaceStat
up_interfaces [] = []
up_interfaces (i ∷ is) = if is_reported i.flags then i ∷ up_interfaces is else up_interfaces is

-- A round, with the times at which it collects and at which it stores.
pub record Event : Type 0 where
  pub now : Time
  pub after : Time
  pub answers : Answers

-- The interfaces of a round in which both calls were answered, or those before it.
unfoldable pub listed : List InterfaceStat → Event → List InterfaceStat
listed is e = elim e.answers.interfaces [
  | err x ↦ is
  | ok js ↦ elim e.answers.io_counters [ err x ↦ is | ok cs ↦ js ]
]

unfoldable pub last_listed : List InterfaceStat → List Event → List InterfaceStat
unfolding listed
last_listed is [] = is
last_listed is (e ∷ es) = last_listed (listed is e) es

status_up :
    (flags : List Text)
    → text_eq (get_interface_status flags) (codes "up") ≡ any (λ f. text_eq f (codes "up")) flags
unfolding get_interface_status text_eq
status_up [] = refl
status_up (f ∷ fs) = elim (Bool-cases (text_eq f (codes "up"))) [
  | inl e ↦ rw e refl
  | inr e ↦ rw e (status_up fs)
]

-- A test that both branches answer alike
pub if_both {ℓ κ} :
    {A : Type ℓ} {B : Type κ} (p : A → B) (b : Bool) {x y : A} {z : B}
    → p x ≡ z
    → p y ≡ z
    → p (if b then x else y) ≡ z
if_both p true h k = h
if_both p false h k = k

left_out :
    {A B : Type 0} (f : A → B) (l u : Bool) (x : A) (xs : List A) (ys : List B)
    → ys ≡ map f xs
    → (if l || not u then ys else f x ∷ ys) ≡ map f (if u && not l then x ∷ xs else xs)
left_out f true true x xs ys h = h
left_out f true false x xs ys h = h
left_out f false true x xs ys h = ap (λ zs. f x ∷ zs) h
left_out f false false x xs ys h = h

module _ (fl : Float64) where
  -- The rounds of the background goroutine, one after the other.
  unfoldable pub run : List Event → NetworkCollector fl.F → NetworkCollector fl.F
  unfolding collect_and_cache
  run [] c = c
  run (e ∷ es) c = run es (collect_and_cache fl e.now e.after e.answers c)

  -- Nothing but the addresses depends on the addresses.
  pub with_addrs_keep :
      {A : Type 0} (p : NetworkMetrics fl.F → A) (rest : List Text) (m : NetworkMetrics fl.F)
      → ((ip : Text) (n : NetworkMetrics fl.F) → p (record n { ipv6 = ip }) ≡ p n)
      → ((ip : Text) (n : NetworkMetrics fl.F) → p (record n { ipv4 = ip }) ≡ p n)
      → p (with_addrs fl rest m) ≡ p m
  unfolding with_addrs with_addr
  with_addrs_keep p [] m h k = refl
  with_addrs_keep p (a ∷ rest) m h k =
      with_addrs_keep p rest (with_addr fl a m) h k ∙ if_both p _ (h _ m) (k _ m)

  -- What an interface is called in the report, and its status.
  named : NetworkMetrics fl.F → Text × Text
  named m = (m.interface, m.status)

  named-rates :
      (d : fl.F) (c : IoCounters) (o : Option IoCounters) (m : NetworkMetrics fl.F)
      → named (with_rates fl d c o m) ≡ named m
  unfolding named with_rates
  named-rates d c none m = refl
  named-rates d c (some prev) m = if_both named _ refl refl

  named-counters :
      (r : Round fl) (name : Text) (o : Option IoCounters) (m : NetworkMetrics fl.F)
      → named (with_counters fl r name o m) ≡ named m
  unfolding named with_counters
  named-counters r name none m = refl
  named-counters r name (some c) m = named-rates r.delta c (lookup name r.prev) _

  named-metric_of :
      (r : Round fl) (i : InterfaceStat)
      → named (metric_of fl r i) ≡ (i.name, get_interface_status i.flags)
  unfolding named metric_of described
  named-metric_of r i =
      named-counters r i.name (lookup i.name r.counters) (with_addrs fl i.addrs (described fl i))
      ∙ with_addrs_keep named i.addrs (described fl i) (λ ip n. refl) (λ ip n. refl)

  pub collect_interfaces-map :
      (r : Round fl) (is : List InterfaceStat)
      → collect_interfaces fl r is ≡ map (metric_of fl r) (up_interfaces is)
  unfolding collect_interfaces up_interfaces is_loopback
  collect_interfaces-map r [] = refl
  collect_interfaces-map r (i ∷ is) =
      rw (status_up i.flags)
        (left_out (metric_of fl r) _ _ i (up_interfaces is) _ (collect_interfaces-map r is))

  -- Interfaces that are up, by name and status
  up_names : List InterfaceStat → List (Text × Text)
  up_names is = map (λ i. (i.name, codes "up")) (up_interfaces is)

  up_text : (flags : List Text) → is_reported flags ≡ true → get_interface_status flags ≡ codes "up"
  up_text flags h =
      (text_eq_iff (get_interface_status flags) (codes "up")).0
        (status_up flags ∙ ground (arith, h))

  named_up :
      (r : Round fl) (is : List InterfaceStat)
      → map named (map (metric_of fl r) (up_interfaces is)) ≡ up_names is
  unfolding up_names up_interfaces
  named_up r [] = refl
  named_up r (i ∷ is) = elim (Bool-cases (is_reported i.flags)) [
    | inl e ↦ rw e (
        ap₂ (λ m ms. m ∷ ms) (named-metric_of r i ∙ ap (λ s. (i.name, s)) (up_text i.flags e))
          (named_up r is))
    | inr e ↦ rw e (named_up r is)
  ]

  named_all :
      (r : Round fl) (is : List InterfaceStat)
      → map named (collect_interfaces fl r is) ≡ up_names is
  named_all r is = ap (λ ms. map named ms) (collect_interfaces-map r is) ∙ named_up r is

  round_names :
      (e : Event) (c : NetworkCollector fl.F) (is : List InterfaceStat)
      → map named c.cached_metrics ≡ up_names is
      → map named (collect_and_cache fl e.now e.after e.answers c).cached_metrics
        ≡ up_names (listed is e)
  unfolding collect_and_cache collect_network_metrics store listed
  round_names e c is h = elim (Result-cases e.answers.interfaces) [
    | inr (x, f) ↦ rw (f, collect_network_metrics) h
    | inl (js, f) ↦ elim (Result-cases e.answers.io_counters) [
      | inr (x, g) ↦ rw (f, g, collect_network_metrics) h
      | inl (cs, g) ↦ rw (f, g, collect_network_metrics) (named_all _ js)
    ]
  ]

  run_names :
      (es : List Event) (c : NetworkCollector fl.F) (is : List InterfaceStat)
      → map named c.cached_metrics ≡ up_names is
      → map named (run es c).cached_metrics ≡ up_names (last_listed is es)
  unfolding run last_listed
  run_names [] c is h = h
  run_names (e ∷ es) c is h = run_names es _ (listed is e) (round_names e c is h)

  -- After the first round and any others, `Collect` returns reports on exactly the interfaces that
  -- are up and no loopback among those of the last round in which gopsutil answered both calls, in
  -- their order, each with its name and the status up; without such a round it returns none.
  pub collect-up :
      (cfg : NetworkCollectorSettings) (e : Event) (es : List Event)
      → (ms : List (NetworkMetrics fl.F)) × (collect fl
            (run es (new_network_collector fl cfg e.now e.after e.answers))
          ≡ ok ms)
        × (map {B = Text × Text} (λ m. (m.interface, m.status)) ms
            ≡ map (λ i. (i.name, codes "up")) (up_interfaces (last_listed [] (e ∷ es))))
  unfolding collect new_network_collector blank_collector named up_names up_interfaces last_listed
  collect-up cfg e es = (
    _,
    refl,
    run_names es (collect_and_cache fl e.now e.after e.answers (blank_collector fl.F cfg))
        (listed [] e) (round_names e (blank_collector fl.F cfg) [] refl),
  )
