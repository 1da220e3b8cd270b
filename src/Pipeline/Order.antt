-- ===== src/Pipeline/Order.antt =====
-- What arrives of the reports, in which order.
use native.Mathlib.Decide.{dec_le}
use mathlib.Core.List.{Sublistᴰ}
use mathlib.Core.List.Sublistᴰ
use mathlib.Core.Path.{subst}
use system_monitor_go.Base.{
  insert, text_eq, ℕ, ◌<◌, ◌≡◌, refl, sym, ap, ◌∙◌, arith, inl, inr, Option-cases, Bool, true,
  false, Option, List, [], ◌∷◌, ◌++◌, append-nil, append_assoc, length, Time, ret, ◌>>=◌, Returns,
  if◌then◌else◌,
}
use system_monitor_go.Base.Floats.{Float64}
use system_monitor_go.Models.Report.{SystemMetrics}
use system_monitor_go.Config.Settings.{Config}
use system_monitor_go.Queue.{Queue, push, tail_slice, new_queue}
use system_monitor_go.Queue.Window.{push_full, push_room}
use system_monitor_go.Collectors.Master.{
  MasterCollector, MakeCollectors, Round, collect_tick, collect_all, new_master_collector, register,
  add_collector,
}
use system_monitor_go.Collectors.Master.Registered.{registered}
use system_monitor_go.Client.DataSender.{DataSender, send_tick}
use system_monitor_go.Client.Delivery.{HasConn, printed, tick_cons}
use system_monitor_go.Pipeline.{Event, collecting, sending, react, react_all, reports, printed_all}

module _ {ℓ} {A : Type ℓ} where
  Sublistᴰ-append :
      {xs ys : List A} (us vs : List A)
      → Sublistᴰ xs ys
      → Sublistᴰ us vs
      → Sublistᴰ (xs ++ us) (ys ++ vs)
  Sublistᴰ-append us vs Sublistᴰ.slnil h = h
  Sublistᴰ-append us vs (Sublistᴰ.cons d) h = Sublistᴰ.cons (Sublistᴰ-append us vs d h)
  Sublistᴰ-append us vs (Sublistᴰ.cons-cons e d) h =
      Sublistᴰ.cons-cons e (Sublistᴰ-append us vs d h)

  tail_of :
      (xs : List A) → 0 < length xs → (ys : List A) × (tail_slice xs ≡ ret ys) × Sublistᴰ ys xs
  unfolding tail_slice
  tail_of [] h = absurd (omega arith)
  tail_of (y ∷ ys) h = (ys, refl, Sublistᴰ.cons (Sublistᴰ.refl ys))

  -- A push keeps the items, or loses the first.
  push-Sublistᴰ :
      (q : Queue A) (x : A)
      → 0 < q.size
      → (ys : List A) × (push q x ≡ ret (record q { items = ys ++ x ∷ [] })) × Sublistᴰ ys q.items
  push-Sublistᴰ q x h = elim (dec_le q.size (length q.items)) [
    | no room ↦ (q.items, push_room q x (omega arith), Sublistᴰ.refl q.items)
    | yes full ↦ let (ys, e, d) = tail_of q.items (omega arith) in (ys, push_full q x full e, d)
  ]

module _ {ℓ} {A : Type ℓ} (kept items made : List A) where
  append_made :
      (ys : List A) (r : A)
      → Sublistᴰ (kept ++ items) made
      → Sublistᴰ ys items
      → Sublistᴰ (kept ++ (ys ++ r ∷ [])) (made ++ r ∷ [])
  append_made ys r d f =
      subst (λ l. Sublistᴰ l (made ++ r ∷ [])) (append_assoc kept ys (r ∷ []))
        (Sublistᴰ-append (r ∷ []) (r ∷ [])
          (Sublistᴰ.trans (Sublistᴰ-append ys items (Sublistᴰ.refl kept) f) d)
          (Sublistᴰ.refl (r ∷ [])))

  keep_more :
      {x : A} {more : List A}
      → Sublistᴰ (kept ++ x ∷ items) made
      → Sublistᴰ more (x ∷ [])
      → Sublistᴰ ((kept ++ more) ++ items) made
  keep_more {x = x} {more = more} d f =
      subst (λ l. Sublistᴰ l made) (sym (append_assoc kept more items))
        (Sublistᴰ.trans
          (Sublistᴰ-append (more ++ items) (x ∷ items) (Sublistᴰ.refl kept)
            (Sublistᴰ-append items items f (Sublistᴰ.refl items)))
          d)

pub printed_all-append :
    {M D : Type 0} (marshal : M → Option D) (xs ys : List M)
    → printed_all marshal (xs ++ ys) ≡ printed_all marshal xs ++ printed_all marshal ys
unfolding printed_all
printed_all-append marshal [] ys = refl
printed_all-append marshal (x ∷ xs) ys = elim (Option-cases (marshal x)) [
  | inl e ↦ rw (e, printed_all) (printed_all-append marshal xs ys)
  | inr (d, e) ↦ rw (e, printed_all) (ap (λ ds. d ∷ ds) (printed_all-append marshal xs ys))
]

module _ {M D : Type 0} (marshal : M → Option D) where
  -- What a tick of `sendLoop` adds is the printed form of the item, if it arrives, or nothing.
  arrives :
      (connected written : Bool) (x : M)
      → (more : List M) × Sublistᴰ more (x ∷ [])
        × ((if connected then printed marshal written (marshal x) else [])
            ≡ printed_all marshal more)
  unfolding printed_all
  arrives true true x = elim (Option-cases (marshal x)) [
    | inl e ↦ ([], Sublistᴰ.nil-sublist (x ∷ []), rw (e, printed_all) refl)
    | inr (d, e) ↦ (x ∷ [], Sublistᴰ.refl (x ∷ []), rw (e, printed_all) refl)
  ]
  arrives true false x = ([], Sublistᴰ.nil-sublist (x ∷ []), refl)
  arrives false written x = ([], Sublistᴰ.nil-sublist (x ∷ []), refl)

module _ {ℓ} {C : Type ℓ} {D : Type 0} (fl : Float64) (marshal : SystemMetrics fl.F → Option D)
    (mc : MasterCollector C fl.F) (ds : DataSender D) (n : ℕ) where
  -- The queue has these items, and these reports arrived.
  abbrev pub state :
      List (SystemMetrics fl.F) → List (SystemMetrics fl.F) → MasterCollector C fl.F × DataSender D
  state items kept = (
    record mc { metrics_queue = record { items = items; size = n } },
    record ds { sent = ds.sent ++ printed_all marshal kept },
  )

  abbrev pub new_report : Time → Round C fl.F → SystemMetrics fl.F
  new_report now rd = collect_all fl mc.user_key mc.local_key mc.external_ip mc.collectors now rd

  react_collecting :
      (now : Time) (rd : Round C fl.F) (items kept : List (SystemMetrics fl.F))
      → 0 < n
      → (ys : List (SystemMetrics fl.F)) × Sublistᴰ ys items
        × (react fl marshal (collecting now rd) (state items kept)
            ≡ ret (state (ys ++ new_report now rd ∷ []) kept))
  unfolding react collect_tick
  react_collecting now rd items kept h =
      let (ys, e, d) = push-Sublistᴰ (record { items = items; size = n }) (new_report now rd) h in
      (ys, d, rw e refl)

  -- A tick of `sendLoop` at a queue with items, by what it adds to what was sent.
  pub react_sent :
      (written : Bool) (x : SystemMetrics fl.F) (items kept more : List (SystemMetrics fl.F))
      → HasConn marshal ds
      → (if ds.is_connected then printed marshal written (marshal x) else [])
        ≡ printed_all marshal more
      → react fl marshal (sending written) (state (x ∷ items) kept)
        ≡ ret (state items (kept ++ more))
  unfolding react
  react_sent written x items kept more h e =
      ap (λ o. o >>= λ r. ret (record mc { metrics_queue = r.1 }, r.0))
        (tick_cons marshal written (state items kept).1 n x items h)
      ∙ ap
          (λ l. ret (
            record mc { metrics_queue = record { items = items; size = n } },
            record ds { sent = l },
          ))
          (append_assoc ds.sent (printed_all marshal kept) _
            ∙ ap (λ l. ds.sent ++ l)
                (ap (λ l. printed_all marshal kept ++ l) e
                  ∙ sym (printed_all-append marshal kept more)))

  react_sending :
      (written : Bool) (x : SystemMetrics fl.F) (items kept : List (SystemMetrics fl.F))
      → HasConn marshal ds
      → (more : List (SystemMetrics fl.F)) × Sublistᴰ more (x ∷ [])
        × (react fl marshal (sending written) (state (x ∷ items) kept)
            ≡ ret (state items (kept ++ more)))
  react_sending written x items kept h =
      let (more, d, e) = arrives marshal ds.is_connected written x in
      (more, d, react_sent written x items kept more h e)

  pub react_sending_empty :
      (written : Bool) (kept : List (SystemMetrics fl.F))
      → react fl marshal (sending written) (state [] kept) ≡ ret (state [] kept)
  unfolding react send_tick
  react_sending_empty written kept = refl

  -- From a queue and arrived reports that are, one after the other, some of `made`
  react_all-kept :
      (es : List (Event C fl.F)) (items kept made : List (SystemMetrics fl.F))
      → 0 < n
      → HasConn marshal ds
      → Sublistᴰ (kept ++ items) made
      → (left : List (SystemMetrics fl.F)) × (arrived : List (SystemMetrics fl.F)) × (react_all fl
            marshal es
            (state items kept)
          ≡ ret (state left arrived))
        × Sublistᴰ
            (arrived ++ left)
            (made ++ reports fl mc.user_key mc.local_key mc.external_ip mc.collectors es)
  unfolding react_all reports
  react_all-kept [] items kept made h c d =
      (items, kept, refl, subst (λ l. Sublistᴰ (kept ++ items) l) (sym (append-nil made)) d)
  react_all-kept (collecting now rd ∷ es) items kept made h c d =
      let (ys, f, e) = react_collecting now rd items kept h in
      let r : SystemMetrics fl.F = new_report now rd in
      let (left, arrived, g, k) =
        react_all-kept es (ys ++ r ∷ []) kept (made ++ r ∷ []) h c
          (append_made kept items made ys r d f) in
      (
        left,
        arrived,
        rw e g,
        subst (λ l. Sublistᴰ (arrived ++ left) l) (append_assoc made (r ∷ []) _) k,
      )
  react_all-kept (sending written ∷ es) [] kept made h c d =
      let (left, arrived, g, k) = react_all-kept es [] kept made h c d in
      (
        left,
        arrived,
        ap (λ o. o >>= λ t. react_all fl marshal es t) (react_sending_empty written kept) ∙ g,
        k,
      )
  react_all-kept (sending written ∷ es) (x ∷ items) kept made h c d =
      let (more, f, e) = react_sending written x items kept c in
      let (left, arrived, g, k) =
        react_all-kept es items (kept ++ more) made h c (keep_more kept items made d f) in
      (left, arrived, rw e g, k)

module _ {ℓ} {C : Type ℓ} {D : Type 0} (fl : Float64)
    (marshal : SystemMetrics fl.F → Option D) where
  -- From a new master collector on, under any order of the ticks of `Start` and of `sendLoop`, and
  -- for a sender that has a connection if it is connected: no tick panics, and what is added to what
  -- was sent is the printed forms of reports which, followed by those that are still in the queue, are
  -- among the reports that `Start` made, each at most as often as made and in the same order.
  pub react_all-in_order :
      (make : MakeCollectors C) (cfg : Config) (ds : DataSender D) (es : List (Event C fl.F))
      → HasConn marshal ds
      → Returns {A = MasterCollector C fl.F × DataSender D}
          (λ s.
            (arrived : List (SystemMetrics fl.F)) × Sublistᴰ (arrived ++ s.0.metrics_queue.items) (
              reports fl cfg.user_key cfg.local_key cfg.external_ip
                (registered make cfg.collectors)
                es)
            × (s.1.sent ≡ ds.sent ++ printed_all marshal arrived))
          (new_master_collector make cfg >>= λ mc. react_all fl marshal es (mc, ds))
  unfolding new_master_collector new_queue register add_collector printed_all insert text_eq
  react_all-in_order make cfg ds es c =
      let mc : MasterCollector C fl.F = register make cfg.collectors (record {
        collectors = [];
        metrics_queue = record { items = []; size = 100 };
        user_key = cfg.user_key;
        local_key = cfg.local_key;
        external_ip = cfg.external_ip;
      }) in
      let (left, arrived, e, d) =
        react_all-kept fl marshal mc ds 100 es [] [] [] (omega arith) c Sublistᴰ.slnil in
      rw
        (ap (λ l. react_all fl marshal es (mc, record ds { sent = l })) (sym (append-nil ds.sent))
          ∙ e)
        (arrived, d, refl)
