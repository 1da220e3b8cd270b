-- ===== src/Pipeline/Arrival.antt =====
-- When every report arrives: as long as `sendLoop` keeps up and the network takes what is written.
use system_monitor_go.Base.{
  insert, text_eq, ℕ, zero, suc, ◌+◌, ◌-◌, ◌<◌, ◌≤◌, ◌≡◌, ◌≢◌, refl, sym, ap, ◌∙◌, arith, inl, inr,
  Option-cases, Bool, true, false, Option, List, [], ◌∷◌, ◌++◌, append-nil, list_laws, length,
  length-append, Time, ret, ◌>>=◌, >>=_assoc, Returns, if◌then◌else◌, none,
}
use mathlib.Core.Path.{fun_ext, subst}
use system_monitor_go.Base.Floats.{Float64}
use system_monitor_go.Models.Report.{SystemMetrics}
use system_monitor_go.Config.Settings.{Config}
use system_monitor_go.Queue.{new_queue}
use system_monitor_go.Queue.Window.{push_room}
use system_monitor_go.Collectors.Master.{
  MasterCollector, MakeCollectors, Round, collect_tick, new_master_collector, register,
  add_collector,
}
use system_monitor_go.Collectors.Master.Registered.{registered}
use system_monitor_go.Client.DataSender.{DataSender}
use system_monitor_go.Client.Delivery.{printed}
use system_monitor_go.Pipeline.{Event, collecting, sending, react, react_all, reports, printed_all}
use system_monitor_go.Pipeline.Order.{state, new_report, react_sending_empty, react_sent}

-- From this many reports in the queue on, every report finds room, and every write is taken.
abbrev pub KeepsUp {ℓ} : {C : Type ℓ} {F : Type 0} → ℕ → List (Event C F) → Type 0
KeepsUp n [] = Unit
KeepsUp n (collecting now rd ∷ es) = n < 100 × KeepsUp (n + 1) es
KeepsUp n (sending written ∷ es) = (written ≡ true) × KeepsUp (n - 1) es

-- So many ticks of `sendLoop` at which the network takes what is written
abbrev pub sends {ℓ} : {C : Type ℓ} {F : Type 0} → ℕ → List (Event C F)
sends zero = []
sends (suc k) = sending true ∷ sends k

printed_one :
    {M D : Type 0} (marshal : M → Option D) (b : Bool) (x : M)
    → b ≡ true
    → (if b then printed marshal true (marshal x) else []) ≡ printed_all marshal (x ∷ [])
unfolding printed_all
printed_one marshal true x h = elim (Option-cases (marshal x)) [
  | inl e ↦ rw (e, printed_all) refl
  | inr (d, e) ↦ rw (e, printed_all) refl
]
printed_one marshal false x h = cc

module _ {ℓ} {C : Type ℓ} {D : Type 0} (fl : Float64)
    (marshal : SystemMetrics fl.F → Option D) where
  react_all-append :
      (es gs : List (Event C fl.F)) (s : MasterCollector C fl.F × DataSender D)
      → react_all fl marshal (es ++ gs) s
        ≡ (react_all fl marshal es s >>= λ t. react_all fl marshal gs t)
  unfolding react_all
  react_all-append [] gs s = refl
  react_all-append (e ∷ es) gs s =
      ap (λ k. react fl marshal e s >>= k) (fun_ext (λ t. react_all-append es gs t))
      ∙ sym (>>=_assoc (react fl marshal e s) _ _)

  module _ (mc : MasterCollector C fl.F) (ds : DataSender D) where
    collecting_room :
        (now : Time) (rd : Round C fl.F) (items kept : List (SystemMetrics fl.F))
        → length items < 100
        → react fl marshal (collecting now rd) (state fl marshal mc ds 100 items kept)
          ≡ ret (
              state fl marshal mc ds 100
                (items ++ new_report fl marshal mc ds 100 now rd ∷ [])
                kept)
    unfolding react collect_tick
    collecting_room now rd items kept h = rw (
        push_room (record { items = items; size = 100 }) (new_report fl marshal mc ds 100 now rd) h)

    sending_taken :
        (x : SystemMetrics fl.F) (items kept : List (SystemMetrics fl.F))
        → ds.is_connected ≡ true
        → ds.conn ≢ none
        → react fl marshal (sending true) (state fl marshal mc ds 100 (x ∷ items) kept)
          ≡ ret (state fl marshal mc ds 100 items (kept ++ x ∷ []))
    sending_taken x items kept h c =
        react_sent fl marshal mc ds 100 true x items kept (x ∷ []) (λ e. c)
          (printed_one marshal ds.is_connected x h)

    -- While it keeps up, nothing is lost.
    react_all-exact :
        (es : List (Event C fl.F)) (items kept : List (SystemMetrics fl.F))
        → ds.is_connected ≡ true
        → ds.conn ≢ none
        → length items ≤ 100
        → KeepsUp (length items) es
        → (left : List (SystemMetrics fl.F)) × (arrived : List (SystemMetrics fl.F)) × (react_all fl
              marshal es
              (state fl marshal mc ds 100 items kept)
            ≡ ret (state fl marshal mc ds 100 left arrived))
          × (arrived ++ left
              ≡ kept
                ++ (items ++ reports fl mc.user_key mc.local_key mc.external_ip mc.collectors es))
          × (length left ≤ 100)
    unfolding react_all reports
    react_all-exact [] items kept h c l k =
        (items, kept, refl, ap (λ l. kept ++ l) (sym (append-nil items)), l)
    react_all-exact (collecting now rd ∷ es) items kept h c l (r, k) =
        let x : SystemMetrics fl.F = new_report fl marshal mc ds 100 now rd in
        let (left, arrived, e, f, m) =
          react_all-exact es (items ++ x ∷ []) kept h c
            (omega (arith, length-append items (x ∷ [])))
            (subst (λ n. KeepsUp n es) (omega (arith, length-append items (x ∷ []))) k) in
        (left, arrived, rw (collecting_room now rd items kept r) e, f ∙ simp list_laws, m)
    react_all-exact (sending written ∷ es) [] kept h c l (w, k) =
        let (left, arrived, e, f, m) = react_all-exact es [] kept h c l k in
        (
          left,
          arrived,
          ap (λ o. o >>= λ t. react_all fl marshal es t)
                (react_sending_empty fl marshal mc ds 100 written kept)
              ∙ e,
          f,
          m,
        )
    react_all-exact (sending written ∷ es) (x ∷ items) kept h c l (w, k) =
        let (left, arrived, e, f, m) =
          react_all-exact es items (kept ++ x ∷ []) h c (omega arith)
            (subst (λ n. KeepsUp n es) (omega arith) k) in
        (
          left,
          arrived,
          ap
                (λ b.
                  react_all fl marshal (sending b ∷ es)
                    (state fl marshal mc ds 100 (x ∷ items) kept))
                w
              ∙ ap (λ o. o >>= λ t. react_all fl marshal es t) (sending_taken x items kept h c)
              ∙ e,
          f ∙ simp list_laws,
          m,
        )

    drained :
        (k : ℕ) (items kept : List (SystemMetrics fl.F))
        → ds.is_connected ≡ true
        → ds.conn ≢ none
        → length items ≤ k
        → react_all fl marshal (sends k) (state fl marshal mc ds 100 items kept)
          ≡ ret (state fl marshal mc ds 100 [] (kept ++ items))
    unfolding react_all
    drained zero [] kept h c l = rw append-nil
    drained zero (x ∷ items) kept h c l = absurd (omega arith)
    drained (suc k) [] kept h c l =
        ap (λ o. o >>= λ t. react_all fl marshal (sends k) t)
          (react_sending_empty fl marshal mc ds 100 true kept)
        ∙ drained k [] kept h c (omega arith)
    drained (suc k) (x ∷ items) kept h c l =
        rw (sending_taken x items kept h c)
          (drained k items (kept ++ x ∷ []) h c (omega arith) ∙ simp list_laws)

module _ {ℓ} {C : Type ℓ} {D : Type 0} (fl : Float64)
    (marshal : SystemMetrics fl.F → Option D) where
  -- From a new master collector on, with a connected sender that has a connection, under an order of
  -- the ticks of `Start` and of `sendLoop` in which at every tick of `Start` less than a hundred
  -- reports wait (each tick of `Start` adding one, each of `sendLoop` taking one), and in which the
  -- network takes every write: after another hundred or more ticks of `sendLoop` whose writes the
  -- network takes, no tick having panicked, the queue is empty, and what is added to what was sent is
  -- the printed forms of all the reports that `Start` made and that can be printed, in their order.
  pub react_all-delivers :
      (make : MakeCollectors C) (cfg : Config) (ds : DataSender D) (es : List (Event C fl.F))
      (k : ℕ)
      → ds.is_connected ≡ true
      → ds.conn ≢ none
      → KeepsUp 0 es
      → 100 ≤ k
      → Returns {A = MasterCollector C fl.F × DataSender D}
          (λ s.
            (s.0.metrics_queue.items ≡ [])
            × (s.1.sent
                ≡ ds.sent
                  ++ printed_all marshal (
                      reports fl cfg.user_key cfg.local_key cfg.external_ip
                        (registered make cfg.collectors)
                        es)))
          (new_master_collector make cfg >>= λ mc. react_all fl marshal (es ++ sends k) (mc, ds))
  unfolding new_master_collector new_queue register add_collector printed_all insert text_eq
  react_all-delivers make cfg ds es k h c up l =
      let mc : MasterCollector C fl.F = register make cfg.collectors (record {
        collectors = [];
        metrics_queue = record { items = []; size = 100 };
        user_key = cfg.user_key;
        local_key = cfg.local_key;
        external_ip = cfg.external_ip;
      }) in
      let (left, arrived, e, f, m) =
        react_all-exact fl marshal mc ds es [] [] h c (omega arith) up in
      rw
        (ap (λ l. react_all fl marshal (es ++ sends k) (mc, record ds { sent = l }))
            (sym (append-nil ds.sent))
          ∙ react_all-append fl marshal es (sends k) (state fl marshal mc ds 100 [] [])
          ∙ ap (λ o. o >>= λ t. react_all fl marshal (sends k) t) e
          ∙ drained fl marshal mc ds k left arrived h c (omega arith))
        (refl, ap (λ a. ds.sent ++ printed_all marshal a) f)
