-- ===== src/Client/Delivery.antt =====
-- What the sender delivers, and what stopping it does.
use system_monitor_go.Base.{
  ℕ, drop, length, ◌++◌, append-nil, append_assoc, zero, suc, ◌≡◌, ◌≢◌, refl, sym, ap, ◌∙◌, Bool,
  true, false, List, [], ◌∷◌, Option, none, some, arith, Outcome, ret, panic, nil_dereference,
  close_of_closed_channel, ◌>>=◌, Returns, if◌then◌else◌,
}
use system_monitor_go.Queue.{Queue}
use system_monitor_go.Client.DataSender.{
  DataSender, connect, disconnect, start_sending, stop_sending, send_check, send_write, send_tick,
  receive_check, receive_read,
}
use system_monitor_go.Client.Lifecycle.Safety.{shut_down, stop_sender-shut_down}
use system_monitor_go.Client.SystemClient.{SystemClient, client_disconnect, client_is_connected}

drop-nil : {A : Type 0} (n : ℕ) → ◌≡◌ {A = List A} (drop n []) []
drop-nil zero = refl
drop-nil (suc n) = refl

nothing_new : {A : Type 0} (b : Bool) (xs : List A) → xs ++ (if b then [] else []) ≡ xs
nothing_new true xs = append-nil xs
nothing_new false xs = append-nil xs

both_new :
    {A : Type 0} (b : Bool) (xs ys zs : List A)
    → (xs ++ (if b then ys else [])) ++ (if b then zs else []) ≡ xs ++ (if b then ys ++ zs else [])
both_new true xs ys zs = append_assoc xs ys zs
both_new false xs ys zs = append-nil (xs ++ [])

module _ {M D : Type 0} (marshal : M → Option D) where
  -- Ticks of the send loop, each with the network's answer.
  unfoldable pub send_ticks : List Bool → DataSender D → Queue M → Outcome (DataSender D × Queue M)
  unfolding send_tick
  send_ticks [] ds q = ret (ds, q)
  send_ticks (written ∷ more) ds q = send_tick marshal written ds q >>= λ r. send_ticks more r.0 r.1

  abbrev pub printed : Bool → Option D → List D
  printed true (some d) = d ∷ []
  printed _ _ = []

  -- What should arrive of the items of a queue: each tick takes the oldest one, which arrives if it
  -- can be printed and the network took it.
  abbrev pub delivered : List Bool → List M → List D
  delivered [] items = []
  delivered (written ∷ more) [] = []
  delivered (written ∷ more) (x ∷ xs) = printed written (marshal x) ++ delivered more xs

  abbrev pub HasConn : DataSender D → Type 0
  HasConn ds = ds.is_connected ≡ true → ds.conn ≢ none

  delivered-nil : (flags : List Bool) → delivered flags [] ≡ []
  delivered-nil [] = refl
  delivered-nil (written ∷ more) = refl

  pub tick_cons :
      (written : Bool) (ds : DataSender D) (n : ℕ) (x : M) (xs : List M)
      → HasConn ds
      → send_tick marshal written ds (record { items = x ∷ xs; size = n })
        ≡ ret (
          record ds {
            sent = ds.sent ++ (if ds.is_connected then printed written (marshal x) else []);
          },
          record { items = xs; size = n },
        )
  unfolding send_tick
  tick_cons written ds n x xs h = ground (arith, append-nil ds.sent)

  -- While the connection does not change, any number of ticks returns, takes that many items from
  -- the head of the queue, and adds to what was sent exactly the printed items that the network took,
  -- each once and in the order of the queue: an item that cannot be printed or written is dropped,
  -- and without a connection all of them are dropped.
  pub send_ticks-delivered :
      (flags : List Bool) (ds : DataSender D) (n : ℕ) (items : List M)
      → HasConn ds
      → send_ticks flags ds (record { items = items; size = n })
        ≡ ret (
          record ds { sent = ds.sent ++ (if ds.is_connected then delivered flags items else []) },
          record { items = drop (length flags) items; size = n },
        )
  unfolding send_ticks
  send_ticks-delivered [] ds n items h =
      ap (λ l. ret (record ds { sent = l }, record { items = items; size = n }))
        (sym (nothing_new ds.is_connected ds.sent))
  send_ticks-delivered (written ∷ more) ds n [] h =
      (send_ticks-delivered more ds n [] h
        ∙ ap
            (λ l. ret (
              record ds { sent = ds.sent ++ (if ds.is_connected then l else []) },
              record { items = drop (length more) []; size = n },
            ))
            (delivered-nil more)
        ∙ ap
            (λ l. ret (
              record ds { sent = ds.sent ++ (if ds.is_connected then [] else []) },
              record { items = l; size = n },
            ))
            (drop-nil (length more)))
  send_ticks-delivered (written ∷ more) ds n (x ∷ xs) h =
      let new : List D = if ds.is_connected then printed written (marshal x) else [] in
      rw (tick_cons written ds n x xs h) (
        send_ticks-delivered more (record ds { sent = ds.sent ++ new }) n xs h
        ∙ ap (λ l. ret (record ds { sent = l }, record { items = drop (length more) xs; size = n }))
            (both_new ds.is_connected ds.sent (printed written (marshal x)) (delivered more xs)))

module _ {M D : Type 0} (marshal : M → Option D) where
  -- The check of `isConnected` in `sendMetrics` is made before the lock is taken. If `Disconnect` runs
  -- between the two, on a connected sender whose channel is open, the write that was found allowed
  -- panics on the connection that is gone; without `Disconnect` in between it would have returned.
  pub disconnect_between-panic :
      (ds : DataSender D) (m : M) (d : D) (written : Bool)
      → ds.client_done ≡ false
      → ds.conn ≢ none
      → send_check marshal ds m ≡ some d
      → ((disconnect ds >>= λ gone. send_write written gone d) ≡ panic nil_dereference)
        × Returns (λ r. r.1 ≡ written) (send_write written ds d)
  unfolding disconnect send_check send_write
  disconnect_between-panic ds m d written unshut c h = (ground arith, ground arith)

module _ {D : Type 0} where
  -- `receiveMessages` takes no lock. If `Disconnect` runs between its test of `conn` and its read, on a
  -- connected sender whose channel is open, the read that was found allowed panics on the connection
  -- that is gone; without `Disconnect` in between it would have returned.
  pub receive_between-panic :
      (ds : DataSender D) (failed : Bool)
      → ds.client_done ≡ false
      → ds.is_connected ≡ true
      → ds.conn ≢ none
      → ((receive_check ds).1 ≡ true)
        × ((disconnect (receive_check ds).0 >>= receive_read failed) ≡ panic nil_dereference)
        × Returns (λ after. after.conn ≡ ds.conn) (receive_read failed ds)
  unfolding disconnect receive_check receive_read
  receive_between-panic ds failed unshut h c = (ground arith, ground arith, ground arith)

  -- A connected and running sender whose channels are open has one life: `Disconnect`, a successful
  -- `Connect` and a second `Disconnect` close the closed channel and panic, and so do `StopSending`,
  -- `StartSending` and a second `StopSending`.
  pub second_stop-panic :
      (ds : DataSender D) (c : ℕ)
      → ds.is_connected ≡ true
      → ds.client_done ≡ false
      → ds.running ≡ true
      → ds.sender_done ≡ false
      → ((disconnect ds >>= λ gone. disconnect (connect (some c) gone).0)
          ≡ panic close_of_closed_channel)
        × ((stop_sending ds >>= λ stopped. stop_sending (start_sending stopped))
            ≡ panic close_of_closed_channel)
  unfolding disconnect connect stop_sending start_sending
  second_stop-panic ds c a b r d = (ground arith, ground arith)

module _ {M D : Type 0} where
  shut_client :
      (c : SystemClient M D) (ds : DataSender D)
      → c.is_disconnected ≡ false
      → c.data_sender ≡ some ds
      → ds.client_done ≡ false
      → ds.sender_done ≡ false
      → client_disconnect c
        ≡ ret (record c { is_disconnected = true; data_sender = some (shut_down ds) })
  unfolding client_disconnect
  shut_client c ds live e a b = rw (live, e, stop_sender-shut_down ds a b)

  -- `Disconnect` of an initialised client that was not shut leaves it without a connection and with
  -- its sender stopped, and touches neither the reports still queued nor what was sent; the senders'
  -- channels are closed if they were in use; and a second `Disconnect` changes nothing.
  pub client_disconnect-closes :
      (c : SystemClient M D) (ds : DataSender D)
      → c.is_disconnected ≡ false
      → c.data_sender ≡ some ds
      → ds.client_done ≡ false
      → ds.sender_done ≡ false
      → (client_disconnect c
          ≡ ret (record c { is_disconnected = true; data_sender = some (shut_down ds) }))
        × ((client_disconnect c >>= client_disconnect) ≡ client_disconnect c)
        × ((client_disconnect c >>= λ d. ret (client_is_connected d)) ≡ ret false)
  unfolding client_disconnect client_is_connected
  client_disconnect-closes c ds live e a b =
      let shut = shut_client c ds live e a b in (shut, rw shut, rw shut)
