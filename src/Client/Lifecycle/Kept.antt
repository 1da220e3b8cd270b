-- ===== src/Client/Lifecycle/Kept.antt =====
-- What the single events of a client leave true.
use system_monitor_go.Base.{
  ℕ, drop, ◌++◌, ◌-◌, ◌<◌, ◌≡◌, ◌≢◌, refl, Bool, true, false, List, [], ◌∷◌, length, Option, none,
  some, arith, ret, panic, nil_dereference, Returns, Bool-cases, Option-cases, ltb, ◌⊎◌, inl, inr,
}
use system_monitor_go.Queue.{Queue, try_pop}
use system_monitor_go.Queue.Schedule.Safety.{push-ret}
use system_monitor_go.Queue.Schedule.{over}
use system_monitor_go.Client.DataSender.{
  DataSender, send_check, send_write, receive_check, receive_read,
}
use system_monitor_go.Client.SystemClient.{
  start_manager, connect_sender, client_connect, client_disconnect,
}
use system_monitor_go.Client.Lifecycle.{
  connecting, disconnecting, collected, Running, collect_parts, about_to_write, tick_parts, react,
}
use system_monitor_go.Client.Lifecycle.Safety.{
  SenderOk, connect_sender-SenderOk, shut_down, stop_sender-shut_down, shut_down-SenderOk,
}
use system_monitor_go.Client.Lifecycle.Races.{
  Phase, after_check, after_disconnect, Pending, RunningOk, connect_sender-Pending,
  disconnect-Pending, Pending-check, send_check-Pending,
}

module _ {D : Type 0} where
  pub receive_check-SenderOk :
      (shut : Bool) (ds : DataSender D) → SenderOk shut ds → SenderOk shut (receive_check ds).0
  unfolding receive_check
  receive_check-SenderOk shut ds h = ground arith

  pub receive_check-conn :
      (ds : DataSender D)
      → ((receive_check ds).0.conn ≡ ds.conn) × (((receive_check ds).1 ≡ false) ⊎ (ds.conn ≢ none))
  unfolding receive_check
  receive_check-conn ds = elim (Bool-cases ds.client_done) [
    | inl e ↦ rw e (refl, inl refl)
    | inr e ↦ elim (Option-cases ds.conn) [
      | inl f ↦ rw (e, f) (f, inl refl)
      | inr (c, f) ↦ rw (e, f) (f, inr (λ g. cc))
    ]
  ]

  pub receive_read-cases :
      (shut failed : Bool) (ds : DataSender D)
      → SenderOk shut ds
      → ((next : DataSender D) × (receive_read failed ds ≡ ret next)
          × (next.conn ≡ ds.conn)
          × SenderOk shut next)
        ⊎ ((ds.conn ≡ none) × (receive_read failed ds ≡ panic nil_dereference))
  unfolding receive_read
  receive_read-cases shut failed ds h = elim (Option-cases ds.conn) [
    | inl e ↦ inr (e, rw e refl)
    | inr (c, e) ↦ elim (Bool-cases failed) [
      | inl f ↦ inl (
        record ds { is_connected = false; receivers = ds.receivers - 1 },
        rw (e, f) refl,
        refl,
        record { has_conn = λ g. cc; channels_open = h.channels_open },
      )
      | inr f ↦ inl (ds, rw (e, f) refl, refl, h)
    ]
  ]

  pub send_write-cases :
      (shut written : Bool) (ds : DataSender D) (d : D)
      → SenderOk shut ds
      → ((r : DataSender D × Bool) × (send_write written ds d ≡ ret r)
          × (r.0.conn ≡ ds.conn)
          × SenderOk shut r.0)
        ⊎ ((ds.conn ≡ none) × (send_write written ds d ≡ panic nil_dereference))
  unfolding send_write
  send_write-cases shut written ds d h = elim (Option-cases ds.conn) [
    | inl e ↦ inr (e, rw e refl)
    | inr (c, e) ↦ elim (Bool-cases written) [
      | inl f ↦ inl (
        (record ds { sent = ds.sent ++ d ∷ [] }, true),
        rw (e, f) refl,
        refl,
        record { has_conn = h.has_conn; channels_open = h.channels_open },
      )
      | inr f ↦ inl ((ds, false), rw (e, f) refl, refl, h)
    ]
  ]

module _ {M D : Type 0} (marshal : M → Option D) where
  pub connect-RunningOk :
      (p : Phase) (dial : Option ℕ) (s : Running M D)
      → RunningOk p s
      → Returns (RunningOk p) (react marshal (connecting dial) s)
  unfolding react client_connect
  connect-RunningOk p dial s h =
      let k = h.client_ok in
      rw (k.manager_eq, k.sender_eq)
        (record {
          client_ok = record {
            manager = start_manager k.manager;
            manager_eq = refl;
            roomy = unfold start_manager in k.roomy;
            sender = (connect_sender dial k.sender).0;
            sender_eq = refl;
            sender_ok = connect_sender-SenderOk s.client.is_disconnected dial k.sender k.sender_ok;
          };
          pending = connect_sender-Pending p s.writes s.reads dial k.sender h.pending;
        })

  pub disconnect-RunningOk :
      (p : Phase) (s : Running M D)
      → RunningOk p s
      → Returns (RunningOk (after_disconnect p)) (react marshal disconnecting s)
  unfolding react client_disconnect
  disconnect-RunningOk p s h =
      let k = h.client_ok in
      elim (Bool-cases s.client.is_disconnected) [
        | inl e ↦ simp e (record {
          client_ok = k;
          pending = disconnect-Pending p s.writes s.reads k.sender.conn k.sender.conn h.pending;
        })
        | inr e ↦
            let (a, b) = k.sender_ok.channels_open e in
            rw (e, k.sender_eq, stop_sender-shut_down k.sender a b)
              (record {
                client_ok = record {
                  manager = k.manager;
                  manager_eq = k.manager_eq;
                  roomy = k.roomy;
                  sender = shut_down k.sender;
                  sender_eq = refl;
                  sender_ok = shut_down-SenderOk k.sender;
                };
                pending =
                    disconnect-Pending p s.writes s.reads k.sender.conn (shut_down k.sender).conn
                      h.pending;
              })
      ]

  pub collect-RunningOk :
      (p : Phase) (x : M) (s : Running M D)
      → RunningOk p s
      → Returns (RunningOk p) (react marshal (collected x) s)
  unfolding react collect_parts
  collect-RunningOk p x s h =
      let k = h.client_ok in
      rw (k.manager_eq, push-ret k.manager.data_queue x k.roomy)
        (record {
          client_ok = record {
            manager = record {
              data_queue = record {
                items = drop (over k.manager.data_queue) k.manager.data_queue.items ++ x ∷ [];
                size = k.manager.data_queue.size;
              };
              started = k.manager.started;
            };
            manager_eq = refl;
            roomy = k.roomy;
            sender = k.sender;
            sender_eq = k.sender_eq;
            sender_ok = k.sender_ok;
          };
          pending = h.pending;
        })

  pub popped-Pending :
      (p : Phase) (ws : List D) (n : ℕ) (shut : Bool) (ds : DataSender D) (o : Option M)
      → SenderOk shut ds
      → Pending p ws n ds.conn
      → Pending
          (after_check p)
          (elim o as (λ x. List D) [
            | none ↦ ws
            | some x ↦ about_to_write marshal (send_check marshal ds x) ws
          ])
          n
          ds.conn
  popped-Pending p ws n shut ds none k h = Pending-check p ws n ds.conn h
  popped-Pending p ws n shut ds (some x) k h = send_check-Pending marshal p ws n shut ds x k h

  pub try_pop-roomy : (q : Queue M) → 0 < q.size → 0 < (try_pop q).0.size
  unfolding try_pop
  try_pop-roomy q h = ground arith

  pub tick-RunningOk :
      (p : Phase) (s : Running M D)
      → RunningOk p s
      → RunningOk
          (after_check p)
          (tick_parts marshal s s.client.collector_manager s.client.data_sender)
  unfolding tick_parts
  tick-RunningOk p s h =
      let k = h.client_ok in
      rw (k.manager_eq, k.sender_eq)
        (elim (Bool-cases (ltb (length s.writes) k.sender.send_loops)) [
          | inl live ↦ rw live (record {
            client_ok = record {
              manager = record {
                data_queue = (try_pop k.manager.data_queue).0;
                started = k.manager.started;
              };
              manager_eq = refl;
              roomy = try_pop-roomy k.manager.data_queue k.roomy;
              sender = k.sender;
              sender_eq = refl;
              sender_ok = k.sender_ok;
            };
            pending =
                popped-Pending p s.writes s.reads s.client.is_disconnected k.sender
                  (try_pop k.manager.data_queue).1 k.sender_ok h.pending;
          })
          | inr idle ↦ rw idle (record {
            client_ok = record {
              manager = k.manager;
              manager_eq = refl;
              roomy = k.roomy;
              sender = k.sender;
              sender_eq = refl;
              sender_ok = k.sender_ok;
            };
            pending = Pending-check p s.writes s.reads k.sender.conn h.pending;
          })
        ])
