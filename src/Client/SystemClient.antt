-- ===== src/Client/SystemClient.antt =====
-- internal/network/client/system_client.go, and the events that reach a client: calls of its methods,
-- ticks of the send loop, and what the receiving goroutine reads. The metrics type `M`, the printed
-- form `D` and the printer are arguments, as in DataSender.
use system_monitor_go.Base.{
  ℕ, ◌+◌, Bool, true, false, Option, none, some, ℤ, Text, Outcome, ret, panic, nil_dereference,
  ◌>>=◌, if◌then◌else◌,
}
use system_monitor_go.Queue.{Queue}
use system_monitor_go.Client.DataSender.{
  ServerInfo, DataSender, new_data_sender, connect, disconnect, start_sending, stop_sending,
  sender_is_connected,
}

-- What the client uses of a MasterCollector: its queue, and how often `Start` was called on it.
pub record Manager (M : Type 0) : Type 0 where
  pub data_queue : Queue M
  pub started : ℕ

pub record SystemClient (M D : Type 0) : Type 0 where
  pub server_info : ServerInfo
  pub system_key : Text
  pub user_id : Text
  pub collection_interval : ℤ
  pub sending_interval : ℤ
  pub collector_manager : Option (Manager M)
  pub data_sender : Option (DataSender D)
  pub is_disconnected : Bool

pub data InitError : Type 0 where
  wrong_config_type : InitError

unfoldable pub start_manager : {M : Type 0} → Manager M → Manager M
start_manager m = record m { started = m.started + 1 }

-- `Connect` on the sender, and the send loop if that succeeds.
unfoldable pub connect_sender : {D : Type 0} → Option ℕ → DataSender D → DataSender D × Bool
unfolding connect start_sending
connect_sender dial ds =
    let (ds', connected) = connect dial ds in
    if connected then (start_sending ds', true) else (ds', false)

-- `StopSending`, then `MasterCollector.Stop`, which only writes to the log, then `Disconnect`.
unfoldable pub stop_sender : {D : Type 0} → Option (DataSender D) → Outcome (Option (DataSender D))
unfolding stop_sending disconnect
stop_sender none = ret none
stop_sender (some ds) =
    stop_sending ds >>= λ stopped. disconnect stopped >>= λ closed. ret (some closed)

unfoldable pub sender_connected : {D : Type 0} → Option (DataSender D) → Bool
sender_connected none = false
sender_connected (some ds) = sender_is_connected ds

module _ {M D : Type 0} where
  unfoldable pub new_system_client : ServerInfo → Text → ℤ → ℤ → Text → SystemClient M D
  new_system_client info key collection sending user = record {
    server_info = info;
    system_key = key;
    user_id = user;
    collection_interval = collection;
    sending_interval = sending;
    collector_manager = none;
    data_sender = none;
    is_disconnected = false;
  }

  -- `Initialize`: `none` is a value that is no `config.Config`, and `make` builds the collectors'
  -- manager from one.
  unfoldable pub initialize :
      {C : Type 0}
      → (C → Manager M)
      → Option C
      → SystemClient M D
      → SystemClient M D × Option InitError
  unfolding new_data_sender
  initialize make none c = (c, some wrong_config_type)
  initialize make (some cfg) c = (
    record c {
      collector_manager = some (make cfg);
      data_sender = some (new_data_sender c.server_info c.user_id);
    },
    none,
  )

  unfoldable pub connect_parts :
      Option ℕ
      → SystemClient M D
      → Option (Manager M)
      → Option (DataSender D)
      → Outcome (SystemClient M D × Bool)
  unfolding start_manager connect_sender
  connect_parts dial c none ds = panic nil_dereference
  connect_parts dial c (some m) none = panic nil_dereference
  connect_parts dial c (some m) (some ds) =
      let (ds', connected) = connect_sender dial ds in
      ret
        (record c { collector_manager = some (start_manager m); data_sender = some ds' }, connected)

  -- `Connect`; without `Initialize` the manager and the sender are nil.
  unfoldable pub client_connect : Option ℕ → SystemClient M D → Outcome (SystemClient M D × Bool)
  unfolding connect_parts
  client_connect dial c = connect_parts dial c c.collector_manager c.data_sender

  unfoldable pub client_disconnect : SystemClient M D → Outcome (SystemClient M D)
  unfolding stop_sender
  client_disconnect c =
      if c.is_disconnected
      then ret c
      else (stop_sender c.data_sender >>= λ ds.
          ret (record c { is_disconnected = true; data_sender = ds }))

  unfoldable pub client_is_connected : SystemClient M D → Bool
  unfolding sender_connected
  client_is_connected c = sender_connected c.data_sender
