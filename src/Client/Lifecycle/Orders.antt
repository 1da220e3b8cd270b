-- ===== src/Client/Lifecycle/Orders.antt =====
-- Every order of the events of a client: it panics in a race only.
use system_monitor_go.Base.{
  sym, ℕ, ◌+◌, ◌-◌, ◌<◌, ◌≡◌, refl, Bool, true, List, [], ◌∷◌, Option, some, ℤ, Text, arith, panic,
  nil_dereference, Returns, Returns-ret, Bool-cases, if◌then◌else◌, ltb, ◌⊎◌, inl, inr,
}
use mathlib.Core.Path.{subst}
use system_monitor_go.Client.DataSender.{DataSender, ServerInfo, receive_check}
use system_monitor_go.Client.SystemClient.{Manager, new_system_client, initialize}
use system_monitor_go.Client.Lifecycle.{
  Event, connecting, disconnecting, collected, ticking, writing, listening, reading, Running,
  write_parts, listen_parts, read_parts, react, react_all,
}
use system_monitor_go.Client.Lifecycle.Safety.{SenderOk, ClientOk, initialize-ClientOk}
use system_monitor_go.Client.Lifecycle.Races.{
  Phase, calm, after_check, next, is_torn, broken, raced, Pending, RunningOk, Pending-check,
  Pending-conn, Pending-write, Pending-read, write-is_torn, read-is_torn,
}
use system_monitor_go.Client.Lifecycle.Kept.{
  receive_check-SenderOk, receive_check-conn, receive_read-cases, send_write-cases,
  connect-RunningOk, disconnect-RunningOk, collect-RunningOk, tick-RunningOk,
}

module _ {D : Type 0} where
  listened-Pending :
      (p : Phase) (ws : List D) (n : ℕ) (ds : DataSender D)
      → Pending p ws n ds.conn
      → Pending
          (after_check p)
          ws
          (if (receive_check ds).1 then n + 1 else n)
          (receive_check ds).0.conn
  listened-Pending p ws n ds h =
      let (e, seen) = receive_check-conn ds in
      rw e (elim seen [
        | inl f ↦ rw f (Pending-check p ws n ds.conn h)
        | inr c ↦ Pending-conn p ws _ ds.conn c
      ])

module _ {M D : Type 0} where
  with_sender :
      {q : Phase} (p : Phase) (s : Running M D) (h : RunningOk q s) (ds : DataSender D)
      (ws : List D) (n : ℕ)
      → SenderOk s.client.is_disconnected ds
      → Pending p ws n ds.conn
      → RunningOk p
          (record { client = record s.client { data_sender = some ds }; writes = ws; reads = n })
  with_sender p s h ds ws n k pend = record {
    client_ok = record {
      manager = h.client_ok.manager;
      manager_eq = h.client_ok.manager_eq;
      roomy = h.client_ok.roomy;
      sender = ds;
      sender_eq = refl;
      sender_ok = k;
    };
    pending = pend;
  }

module _ {M D : Type 0} (marshal : M → Option D) where
  listen-RunningOk :
      (p : Phase) (s : Running M D)
      → RunningOk p s
      → RunningOk (after_check p) (listen_parts marshal s s.client.data_sender)
  unfolding listen_parts
  listen-RunningOk p s h =
      let k = h.client_ok in
      rw k.sender_eq (elim (Bool-cases (ltb s.reads k.sender.receivers)) [
        | inl live ↦ rw live (
            with_sender (after_check p) s h (receive_check k.sender).0 s.writes _
              (receive_check-SenderOk s.client.is_disconnected k.sender k.sender_ok)
              (listened-Pending p s.writes s.reads k.sender h.pending))
        | inr idle ↦ rw idle (
            with_sender (after_check p) s h k.sender s.writes s.reads k.sender_ok
              (Pending-check p s.writes s.reads k.sender.conn h.pending))
      ])

  -- A write returns, or it panics in a race.
  write-RunningOk :
      (p : Phase) (written : Bool) (s : Running M D) (ws : List D)
      → RunningOk p s
      → s.writes ≡ ws
      → Returns (RunningOk p) (write_parts marshal s written ws s.client.data_sender)
        ⊎ ((is_torn p ≡ true)
            × (write_parts marshal s written ws s.client.data_sender ≡ panic nil_dereference))
  unfolding write_parts
  write-RunningOk p written s [] h e =
      let k = h.client_ok in
      rw k.sender_eq (inl (with_sender p s h k.sender s.writes s.reads k.sender_ok h.pending))
  write-RunningOk p written s (d ∷ ws) h e =
      let k = h.client_ok in
      let pend : Pending p (d ∷ ws) s.reads k.sender.conn =
        subst (λ l. Pending p l s.reads k.sender.conn) e h.pending in
      rw k.sender_eq
        (elim (send_write-cases s.client.is_disconnected written k.sender d k.sender_ok) [
          | inl (r, f, c, o) ↦ inl (
              rw f (
                with_sender p s h r.0 ws s.reads o (
                  subst (λ l. Pending p ws s.reads l) (sym c)
                    (Pending-write p d ws s.reads k.sender.conn pend))))
          | inr (c, f) ↦ inr (write-is_torn p d ws s.reads k.sender.conn pend c, rw f refl)
        ])

  read-RunningOk :
      (p : Phase) (failed : Bool) (s : Running M D)
      → RunningOk p s
      → Returns (RunningOk p) (read_parts marshal s failed s.client.data_sender)
        ⊎ ((is_torn p ≡ true)
            × (read_parts marshal s failed s.client.data_sender ≡ panic nil_dereference))
  unfolding read_parts
  read-RunningOk p failed s h =
      let k = h.client_ok in
      rw k.sender_eq (elim (Bool-cases (ltb 0 s.reads)) [
        | inr idle ↦
            rw idle (inl (with_sender p s h k.sender s.writes s.reads k.sender_ok h.pending))
        | inl live ↦
            elim (receive_read-cases s.client.is_disconnected failed k.sender k.sender_ok) [
              | inl (r, f, c, o) ↦ inl (
                  rw (live, f)
                    (with_sender p s h r s.writes (s.reads - 1) o (
                      subst (λ l. Pending p s.writes (s.reads - 1) l) (sym c)
                        (Pending-read p s.writes s.reads k.sender.conn h.pending))))
              | inr (c, f) ↦ inr (
                read-is_torn p s.writes s.reads k.sender.conn (ground arith) h.pending c,
                rw (live, f) refl,
              )
            ]
      ])

  react_cases :
      (e : Event M) (p : Phase) (s : Running M D)
      → RunningOk p s
      → Returns (RunningOk (next e p)) (react marshal e s)
        ⊎ ((broken e p ≡ true) × (react marshal e s ≡ panic nil_dereference))
  unfolding react broken
  react_cases (connecting dial) p s h = inl (connect-RunningOk marshal p dial s h)
  react_cases disconnecting p s h = inl (disconnect-RunningOk marshal p s h)
  react_cases (collected x) p s h = inl (collect-RunningOk marshal p x s h)
  react_cases ticking p s h = inl (tick-RunningOk marshal p s h)
  react_cases (writing written) p s h = write-RunningOk p written s s.writes h refl
  react_cases listening p s h = inl (listen-RunningOk p s h)
  react_cases (reading failed) p s h = read-RunningOk p failed s h

  react_all_cases :
      (events : List (Event M)) (p : Phase) (s : Running M D)
      → RunningOk p s
      → Returns (λ t. ClientOk t.client) (react_all marshal events s)
        ⊎ ((raced p events ≡ true) × (react_all marshal events s ≡ panic nil_dereference))
  unfolding react_all raced
  react_all_cases [] p s h = inl h.client_ok
  react_all_cases (e ∷ events) p s h = elim (react_cases e p s h) [
    | inr (b, f) ↦ inr (rw b refl, rw f refl)
    | inl k ↦
        let (t, f, o) = Returns-ret (RunningOk (next e p)) (react marshal e s) k in
        elim (react_all_cases events (next e p) t o) [
          | inl r ↦ inl (rw f r)
          | inr (b, r) ↦ inr (ground arith, rw f r)
        ]
  ]

  -- Whatever happens to a new client after `Initialize`, in any order and number of calls of `Connect`
  -- and `Disconnect`, queued reports, ticks of the send loops up to the lock, writes under it, tests
  -- of the receivers and their reads, if the queue of the collectors has a positive capacity: either
  -- nothing panics, or somewhere in that order a check of a send loop or of a receiver, a `Disconnect`
  -- and a write or a read come one after the other, and the panic is the dereference of the missing
  -- connection. No channel is ever closed twice and no empty queue is cut.
  pub initialize-react_all_cases :
      {C : Type 0} (make : C → Manager M) (cfg : C) (info : ServerInfo) (key user : Text)
      (collection sending : ℤ) (events : List (Event M))
      → 0 < (make cfg).data_queue.size
      → Returns
          (λ t. ClientOk t.client)
          (react_all marshal events (record {
            client =
                (initialize make (some cfg) (new_system_client info key collection sending user)).0;
            writes = [];
            reads = 0;
          }))
        ⊎ ((raced calm events ≡ true)
            × (react_all marshal events (record {
              client =
                  (initialize make
                    (some cfg)
                    (new_system_client info key collection sending user)).0;
              writes = [];
              reads = 0;
            })
                ≡ panic nil_dereference))
  initialize-react_all_cases make cfg info key user collection sending events room =
      react_all_cases events calm _ (record {
        client_ok = initialize-ClientOk make cfg info key user collection sending room;
        pending = (refl, refl);
      })
