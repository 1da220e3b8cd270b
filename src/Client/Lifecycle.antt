-- ===== src/Client/Lifecycle.antt =====
-- Everything that happens to a client after `Initialize`, as a list of events, each one step under
-- the locks that the code takes. `sendMetrics` looks at `isConnected` before it takes the lock, and
-- `receiveMessages` takes none between its test of `conn` and its read: both are two steps, and any
-- other event may come between them.
pub mod Safety
pub mod Races
pub mod Kept
pub mod Orders
use system_monitor_go.Base.{
  ℕ, ◌+◌, ◌-◌, Bool, true, false, List, [], ◌∷◌, ◌++◌, Option, none, some, length, Outcome, ret,
  ◌>>=◌, if◌then◌else◌, ltb,
}
use system_monitor_go.Queue.{Queue, push, try_pop}
use system_monitor_go.Client.DataSender.{
  DataSender, send_check, send_write, receive_check, receive_read,
}
use system_monitor_go.Client.SystemClient.{Manager, SystemClient, client_connect, client_disconnect}

-- A call of `Connect` with the dialler's answer, a call of `Disconnect`, a report that the manager
-- queues; a tick of a live send loop up to the lock, and the write of one that got so far with the
-- network's answer; a round of a live receiver up to the read, and the read of one that got so far,
-- with whether it fails.
pub data Event (M : Type 0) : Type 0 where
  connecting : Option ℕ → Event M
  disconnecting : Event M
  collected : M → Event M
  ticking : Event M
  writing : Bool → Event M
  listening : Event M
  reading : Bool → Event M

-- The client, what its send loops are about to write, and how many receivers are about to read.
pub record Running (M D : Type 0) : Type 0 where
  pub client : SystemClient M D
  pub writes : List D
  pub reads : ℕ

module _ {M D : Type 0} (marshal : M → Option D) where
  unfoldable collect_parts : SystemClient M D → M → Option (Manager M) → Outcome (SystemClient M D)
  collect_parts c x none = ret c
  collect_parts c x (some m) = push m.data_queue x >>= λ q.
      ret (record c { collector_manager = some (record m { data_queue = q }) })

  -- The item that was popped is dropped, or about to be written.
  unfoldable about_to_write : Option D → List D → List D
  about_to_write none ds = ds
  about_to_write (some d) ds = ds ++ d ∷ []

  pub tick_parts : Running M D → Option (Manager M) → Option (DataSender D) → Running M D
  unfolding try_pop send_check about_to_write
  tick_parts s none ds = s
  tick_parts s (some m) none = s
  tick_parts s (some m) (some ds) =
      if ltb (length s.writes) ds.send_loops
      then (let (q, item) = try_pop m.data_queue in
          record s {
            client = record s.client {
              collector_manager = some (record m { data_queue = q });
              data_sender = some ds;
            };
            writes = elim item [
              | none ↦ s.writes
              | some x ↦ about_to_write (send_check marshal ds x) s.writes
            ];
          })
      else s

  write_parts : Running M D → Bool → List D → Option (DataSender D) → Outcome (Running M D)
  unfolding send_write
  write_parts s written [] ds = ret s
  write_parts s written (d ∷ more) none = ret s
  write_parts s written (d ∷ more) (some ds) = send_write written ds d >>= λ r.
      ret (record s { client = record s.client { data_sender = some r.0 }; writes = more })

  listen_parts : Running M D → Option (DataSender D) → Running M D
  unfolding receive_check
  listen_parts s none = s
  listen_parts s (some ds) =
      if ltb s.reads ds.receivers
      then (let (seen, go) = receive_check ds in
          record s {
            client = record s.client { data_sender = some seen };
            reads = if go then s.reads + 1 else s.reads;
          })
      else s

  read_parts : Running M D → Bool → Option (DataSender D) → Outcome (Running M D)
  unfolding receive_read
  read_parts s failed none = ret s
  read_parts s failed (some ds) =
      if ltb 0 s.reads
      then (receive_read failed ds >>= λ next.
          ret (record s {
            client = record s.client { data_sender = some next };
            reads = s.reads - 1;
          }))
      else ret s

  unfoldable pub react : Event M → Running M D → Outcome (Running M D)
  unfolding collect_parts tick_parts write_parts listen_parts read_parts
  react (connecting dial) s = client_connect dial s.client >>= λ r. ret (record s { client = r.0 })
  react disconnecting s = client_disconnect s.client >>= λ c. ret (record s { client = c })
  react (collected x) s =
      collect_parts s.client x s.client.collector_manager >>= λ c. ret (record s { client = c })
  react ticking s = ret (tick_parts s s.client.collector_manager s.client.data_sender)
  react (writing written) s = write_parts s written s.writes s.client.data_sender
  react listening s = ret (listen_parts s s.client.data_sender)
  react (reading failed) s = read_parts s failed s.client.data_sender

  unfoldable pub react_all : List (Event M) → Running M D → Outcome (Running M D)
  unfolding react
  react_all [] s = ret s
  react_all (e ∷ events) s = react e s >>= λ t. react_all events t
