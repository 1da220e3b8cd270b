-- ===== src/Collectors/Container/Gather.antt =====
-- internal/collectors/container.go: which containers a collection reports, in whatever order the
-- goroutines end.
use system_monitor_go.Base.{
  Bool, true, false, inl, inr, Result-cases, Option-cases, if◌then◌else◌, ◌≤◌, ◌≡◌, ◌≢◌, refl, ap,
  ◌∙◌, arith, Option, none, some, List, [], ◌∷◌, All, Text, ok, err, ret, >>=-eq-ret, byte_length,
  map,
}
use mathlib.Core.List.{Permᴰ}
use mathlib.Core.List.Permᴰ
use mathlib.Core.Path.{subst}
use system_monitor_go.Base.Floats.{Float64}
use system_monitor_go.Models.Container.{DockerContainer}
use system_monitor_go.Collectors.Container.{Listed, Details, DockerStats}
use system_monitor_go.Collectors.Container.Convert.{deref}
use system_monitor_go.Collectors.Container.Collection.{
  container_metric, gather, add_metric, log_failure, metric_of, metric_from, with_name,
}
use system_monitor_go.Collectors.Container.Parts.{
  HasParts, HasAnswer, convert_health-ret, convert_networks-ret,
}

add_metric-perm {ℓ} :
    {A : Type ℓ} (m : Option A) {xs ys : List A}
    → Permᴰ xs ys
    → Permᴰ (add_metric m xs) (add_metric m ys)
unfolding add_metric
add_metric-perm none d = d
add_metric-perm (some m) d = Permᴰ.cons refl d

add_metric-swap {ℓ} :
    {A : Type ℓ} (m n : Option A) (xs : List A)
    → Permᴰ (add_metric m (add_metric n xs)) (add_metric n (add_metric m xs))
unfolding add_metric
add_metric-swap none n xs = Permᴰ.refl _
add_metric-swap (some m) none xs = Permᴰ.refl _
add_metric-swap (some m) (some n) xs = Permᴰ.swap refl refl

module _ (fl : Float64) where
  -- What a collection of a first container and of others gives.
  gather-eq-ret :
      (c : Listed) (cs : List Listed) {xs : List (DockerContainer fl.F)}
      → gather fl (c ∷ cs) ≡ ret xs
      → (m : Option (DockerContainer fl.F)) × (ms : List (DockerContainer fl.F)) × (container_metric
            fl c
          ≡ ret m)
        × (gather fl cs ≡ ret ms)
        × (add_metric m ms ≡ xs)
  unfolding gather
  gather-eq-ret c cs h =
      let (m, e, k) = >>=-eq-ret (container_metric fl c) _ h in
      let (ms, f, l) = >>=-eq-ret (gather fl cs) _ k in (m, ms, e, f, cc l)

  pub gather-ret :
      (c : Listed) (cs : List Listed) (m : Option (DockerContainer fl.F))
      (ms : List (DockerContainer fl.F))
      → container_metric fl c ≡ ret m
      → gather fl cs ≡ ret ms
      → gather fl (c ∷ cs) ≡ ret (add_metric m ms)
  unfolding gather
  gather-ret c cs m ms e f = rw (e, f)

  -- If a collection in which the goroutines end in one order does not panic, then neither does one in
  -- which they end in any other, and its metrics are the same in another order.
  pub gather-perm :
      {cs ds : List Listed} {xs : List (DockerContainer fl.F)}
      → Permᴰ cs ds
      → gather fl cs ≡ ret xs
      → (ys : List (DockerContainer fl.F)) × (gather fl ds ≡ ret ys) × Permᴰ xs ys
  gather-perm {xs = xs} Permᴰ.nil h = (xs, h, Permᴰ.refl xs)
  gather-perm (Permᴰ.cons {a = a} {b = b} {l₁ = l} {l₂ = k} e d) h =
      let (m, ms, p, q, r) = gather-eq-ret a l h in
      let (ys, f, g) = gather-perm d q in
      (
        add_metric m ys,
        gather-ret b k m ys (subst (λ c. container_metric fl c ≡ ret m) e p) f,
        subst (λ zs. Permᴰ zs (add_metric m ys)) r (add_metric-perm m g),
      )
  gather-perm (Permᴰ.swap {a = a} {b = b} {a' = a'} {b' = b'} {l = l} e f) h =
      let (m, ms, p, q, r) = gather-eq-ret a (b ∷ l) h in
      let (n, ns, s, t, u) = gather-eq-ret b l q in
      (
        add_metric n (add_metric m ns),
        gather-ret a' (b' ∷ l) n (add_metric m ns) (subst (λ c. container_metric fl c ≡ ret n) f s)
            (gather-ret b' l m ns (subst (λ c. container_metric fl c ≡ ret m) e p) t),
        subst (λ zs. Permᴰ zs (add_metric n (add_metric m ns))) (ap (add_metric m) u ∙ r)
            (add_metric-swap m n ns),
      )
  gather-perm (Permᴰ.trans d e) h =
      let (ys, f, g) = gather-perm d h in
      let (zs, p, q) = gather-perm e f in (zs, p, Permᴰ.trans g q)

-- All the calls about the container are answered.
unfoldable pub is_answered : Listed → Bool
is_answered c = elim c.inspect [
  | err e ↦ false
  | ok d ↦ elim c.stats_error [
    | some e ↦ false
    | none ↦ elim c.body_error [
      | some e ↦ false
      | none ↦ elim c.stats [ err e ↦ false | ok s ↦ true ]
    ]
  ]
]

unfoldable pub answered_ids : List Listed → List Text
answered_ids [] = []
answered_ids (c ∷ cs) = if is_answered c then c.id ∷ answered_ids cs else answered_ids cs

module _ (fl : Float64) where
  id_of : Option (DockerContainer fl.F) → Option Text
  id_of none = none
  id_of (some m) = some m.id

  log_failure-ret :
      (id : Text) → 12 ≤ byte_length id → log_failure {A = DockerContainer fl.F} id ≡ ret none
  unfolding log_failure
  log_failure-ret id h = ground arith

  -- With the parts there, the metric can be built.
  whole_metric :
      (c : Listed) (name : Text) (d : Details) (s : DockerStats)
      → HasParts d
      → (m : DockerContainer fl.F) × (metric_of fl c name d s ≡ ret m) × (m.id ≡ c.id)
  unfolding metric_of metric_from deref
  whole_metric c name d s h =
      let (health, e) = convert_health-ret h.state.health h.log in
      let (networks, f) = convert_networks-ret h.net.networks s.networks h.endpoints in
      (
        metric_from fl c name d s h.base h.config health h.net networks,
        rw (h.base_eq, h.config_eq, h.state_eq, e, h.net_eq, f) refl,
        refl,
      )

  named :
      (c : Listed) (d : Details) (s : DockerStats) (names : List Text)
      → names ≢ []
      → HasParts d
      → (m : DockerContainer fl.F) × (with_name fl c d s names ≡ ret (some m)) × (m.id ≡ c.id)
  unfolding with_name
  named c d s [] h k = absurd (h refl)
  named c d s (n ∷ ns) h k = let (m, e, f) = whole_metric c n d s k in (m, rw e refl, f)

  -- A container that is named, identified and described as Docker does.
  abbrev pub IsNamed : Listed → Type 0
  IsNamed c = (c.names ≢ []) × (12 ≤ byte_length c.id) × HasAnswer c.inspect

  container_metric_id :
      (c : Listed)
      → IsNamed c
      → (m : Option (DockerContainer fl.F)) × (container_metric fl c ≡ ret m)
        × (id_of m ≡ (if is_answered c then some c.id else none))
  unfolding container_metric is_answered id_of
  container_metric_id c h = elim (Result-cases c.inspect) [
    | inr (x, e) ↦ (none, rw (e, container_metric) (log_failure-ret c.id h.1), rw (e, is_answered))
    | inl (d, e) ↦ elim (Option-cases c.stats_error) [
      | inr (x, f) ↦
          (none, rw (e, f, container_metric) (log_failure-ret c.id h.1), rw (e, f, is_answered))
      | inl f ↦ elim (Option-cases c.body_error) [
        | inr (x, g) ↦ (
          none,
          rw (e, f, g, container_metric) (log_failure-ret c.id h.1),
          rw (e, f, g, is_answered),
        )
        | inl g ↦ elim (Result-cases c.stats) [
          | inr (x, k) ↦ (
            none,
            rw (e, f, g, k, container_metric) (log_failure-ret c.id h.1),
            rw (e, f, g, k, is_answered),
          )
          | inl (s, k) ↦
              let parts : HasParts d = subst HasAnswer e h.2 in
              let (m, p, q) = named c d s c.names h.0 parts in
              (
                some m,
                simp (e, f, g, k, container_metric) p,
                simp (e, f, g, k, is_answered) (ap some q),
              )
        ]
      ]
    ]
  ]

  ids-add_metric :
      (m : Option (DockerContainer fl.F)) (b : Bool) (i : Text) (ms : List (DockerContainer fl.F))
      → id_of m ≡ (if b then some i else none)
      → map (λ n. n.id) (add_metric m ms)
        ≡ (if b then i ∷ map (λ n. n.id) ms else map (λ n. n.id) ms)
  unfolding add_metric id_of
  ids-add_metric none true i ms h = cc
  ids-add_metric none false i ms h = refl
  ids-add_metric (some m) true i ms h = ap (λ j. j ∷ map (λ n. n.id) ms) (cc h)
  ids-add_metric (some m) false i ms h = cc

  -- If every container has a name and an identifier of at least twelve bytes, and no reply of
  -- `ContainerInspect` has a nil pointer in what is read of it, a collection does not panic, and its
  -- metrics are those of exactly the containers about which all calls are answered.
  pub gather_ids :
      (cs : List Listed)
      → All IsNamed cs
      → (ms : List (DockerContainer fl.F)) × (gather fl cs ≡ ret ms)
        × (map (λ m. m.id) ms ≡ answered_ids cs)
  unfolding gather answered_ids
  gather_ids [] h = ([], refl, refl)
  gather_ids (c ∷ cs) h =
      let (m, p, q) = container_metric_id c h.0 in
      let (ms, r, s) = gather_ids cs h.1 in
      (
        add_metric m ms,
        gather-ret fl c cs m ms p r,
        ids-add_metric m (is_answered c) c.id ms q
            ∙ ap (λ l. if is_answered c then c.id ∷ l else l) s,
      )
