-- ===== src/Client/Lifecycle/Safety.antt =====
-- What keeps an initialised client from a panic, whatever happens to it.
use system_monitor_go.Base.{
  ℕ, ◌<◌, ◌≡◌, ◌≢◌, refl, Bool, true, false, Option, none, some, ℤ, Text, arith, ret, if◌then◌else◌,
}
use system_monitor_go.Client.DataSender.{DataSender, ServerInfo, new_data_sender}
use system_monitor_go.Client.SystemClient.{
  Manager, SystemClient, new_system_client, initialize, connect_sender, stop_sender,
}

-- What keeps the sender's methods from a panic: `shut` says that `Disconnect` was called.
pub record SenderOk {D : Type 0} (shut : Bool) (ds : DataSender D) : Type 0 where
  pub has_conn : ds.is_connected ≡ true → ds.conn ≢ none
  pub channels_open : shut ≡ false → (ds.client_done ≡ false) × (ds.sender_done ≡ false)

-- An initialised client with a queue of positive capacity.
pub record ClientOk {M D : Type 0} (c : SystemClient M D) : Type 0 where
  pub manager : Manager M
  pub manager_eq : c.collector_manager ≡ some manager
  pub roomy : 0 < manager.data_queue.size
  pub sender : DataSender D
  pub sender_eq : c.data_sender ≡ some sender
  pub sender_ok : SenderOk c.is_disconnected sender

module _ {D : Type 0} where
  pub connect_sender-SenderOk :
      (shut : Bool) (dial : Option ℕ) (ds : DataSender D)
      → SenderOk shut ds
      → SenderOk shut (connect_sender dial ds).0
  unfolding connect_sender
  connect_sender-SenderOk shut dial ds h = ground arith

  -- The sender after a shutdown that found its channels open.
  abbrev pub shut_down : DataSender D → DataSender D
  shut_down ds = record ds {
    running = false;
    sender_done = if ds.running then true else ds.sender_done;
    is_connected = false;
    conn = if ds.is_connected then none else ds.conn;
    client_done = if ds.is_connected then true else ds.client_done;
  }

  pub stop_sender-shut_down :
      (ds : DataSender D)
      → ds.client_done ≡ false
      → ds.sender_done ≡ false
      → stop_sender (some ds) ≡ ret (some (shut_down ds))
  unfolding stop_sender
  stop_sender-shut_down ds a b = ground arith

  pub shut_down-SenderOk : (ds : DataSender D) → SenderOk true (shut_down ds)
  shut_down-SenderOk ds = ground arith

module _ {M D : Type 0} where
  pub initialize-ClientOk :
      {C : Type 0} (make : C → Manager M) (cfg : C) (info : ServerInfo) (key user : Text)
      (collection sending : ℤ)
      → 0 < (make cfg).data_queue.size
      → ClientOk {D = D}
          (initialize make (some cfg) (new_system_client info key collection sending user)).0
  unfolding initialize new_system_client
  initialize-ClientOk make cfg info key user collection sending room = record {
    manager = make cfg;
    manager_eq = refl;
    roomy = room;
    sender = new_data_sender info user;
    sender_eq = refl;
    sender_ok = ground arith;
  }
