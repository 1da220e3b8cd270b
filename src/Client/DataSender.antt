-- ===== src/Client/DataSender.antt =====
-- internal/network/client/data_sender.go. A method returns the new record; the channels
-- `senderDone` and `clientDone` are the facts that they were closed, and closing one twice panics.
-- A connection is a number. The JSON printer, the dialler and the network are arguments: a write or
-- a dial that fails is an argument `false`. Log lines and clock readings are left out.
use system_monitor_go.Base.{
  ℕ, ◌+◌, ◌-◌, Bool, true, false, List, [], ◌∷◌, ◌++◌, Option, none, some, ℤ, Text, codes, text_eq,
  lookup, Outcome, ret, panic, nil_dereference, close_of_closed_channel, ◌>>=◌, if◌then◌else◌,
}
use system_monitor_go.Queue.{Queue, try_pop}

pub record ServerInfo : Type 0 where
  pub address : Text
  pub port : ℤ

-- `send_loops` and `receivers` count the goroutines that were started and have not returned; `sent`
-- is what was written to the network.
pub record DataSender (D : Type 0) : Type 0 where
  pub server_info : ServerInfo
  pub user_id : Text
  pub conn : Option ℕ
  pub is_connected : Bool
  pub running : Bool
  pub sender_done : Bool
  pub client_done : Bool
  pub send_loops : ℕ
  pub receivers : ℕ
  pub sent : List D

-- `close` of a channel that the argument says was closed already
abbrev pub close_channel : Bool → Outcome Bool
close_channel true = panic close_of_closed_channel
close_channel false = ret true

module _ {D : Type 0} where
  unfoldable pub new_data_sender : ServerInfo → Text → DataSender D
  new_data_sender info user = record {
    server_info = info;
    user_id = user;
    conn = none;
    is_connected = false;
    running = false;
    sender_done = false;
    client_done = false;
    send_loops = 0;
    receivers = 0;
    sent = [];
  }

  -- `Connect`, with what the dialler gave.
  unfoldable pub connect : Option ℕ → DataSender D → DataSender D × Bool
  connect none ds = (ds, false)
  connect (some c) ds =
      (record ds { conn = some c; is_connected = true; receivers = ds.receivers + 1 }, true)

  -- `Disconnect`; the close message and `Close` have no effect on the record but `conn = nil`.
  unfoldable pub disconnect : DataSender D → Outcome (DataSender D)
  disconnect ds =
      if ds.is_connected
      then (close_channel ds.client_done >>= λ closed.
          ret (record ds { client_done = closed; conn = none; is_connected = false }))
      else ret ds

  unfoldable pub start_sending : DataSender D → DataSender D
  start_sending ds =
      if ds.running then ds else record ds { running = true; send_loops = ds.send_loops + 1 }

  unfoldable pub stop_sending : DataSender D → Outcome (DataSender D)
  stop_sending ds =
      if ds.running
      then (close_channel ds.sender_done >>= λ closed.
          ret (record ds { running = false; sender_done = closed }))
      else ret ds

  abbrev pub sender_is_connected : DataSender D → Bool
  sender_is_connected ds = ds.is_connected

  -- The first part of `sendMetrics`, up to the lock: nothing to write if there is no connection or
  -- the metrics cannot be printed.
  unfoldable pub send_check : {M : Type 0} → (M → Option D) → DataSender D → M → Option D
  send_check marshal ds m = if ds.is_connected then marshal m else none

  -- The part under the lock: `conn.WriteMessage` with what the network says to it.
  unfoldable pub send_write : Bool → DataSender D → D → Outcome (DataSender D × Bool)
  send_write written ds d = elim ds.conn [
    | none ↦ panic nil_dereference
    | some c ↦
        if written then ret (record ds { sent = ds.sent ++ d ∷ [] }, true) else ret (ds, false)
  ]

  unfoldable pub send_metrics :
      {M : Type 0} → (M → Option D) → Bool → DataSender D → M → Outcome (DataSender D × Bool)
  unfolding send_check send_write
  send_metrics marshal written ds m = elim (send_check marshal ds m) [
    | none ↦ ret (ds, false)
    | some d ↦ send_write written ds d
  ]

  -- One tick of `sendLoop`: the oldest item is taken from the queue and sent, whatever comes of it.
  unfoldable pub send_tick :
      {M : Type 0}
      → (M → Option D)
      → Bool
      → DataSender D
      → Queue M
      → Outcome (DataSender D × Queue M)
  unfolding try_pop send_metrics
  send_tick marshal written ds q =
      let (q', item) = try_pop q in
      elim item [
        | none ↦ ret (ds, q')
        | some m ↦ send_metrics marshal written ds m >>= λ r. ret (r.0, q')
      ]

  -- The first part of a round of a live `receiveMessages`, without a lock: it returns when
  -- `clientDone` is closed, and goes on to the read if it sees a connection.
  unfoldable pub receive_check : DataSender D → DataSender D × Bool
  receive_check ds =
      if ds.client_done
      then (record ds { receivers = ds.receivers - 1 }, false)
      else elim ds.conn [ none ↦ (ds, false) | some c ↦ (ds, true) ]

  -- The second part, which takes `conn` from the record again: `ReadMessage`, with whether it gives
  -- an error, on which the goroutine returns. A message only makes log lines.
  unfoldable pub receive_read : Bool → DataSender D → Outcome (DataSender D)
  receive_read failed ds = elim ds.conn [
    | none ↦ panic nil_dereference
    | some c ↦
        if failed
        then ret (record ds { is_connected = false; receivers = ds.receivers - 1 })
        else ret ds
  ]

-- What `handleMessage` writes to the log about a message, which the JSON reader gives as a map.
pub data Notice : Type 0 where
  not_json : Notice
  missing_field : Notice
  metrics_response : Text → Notice
  error_response : Text → Notice
  unknown_type : Text → Notice

notice_of : Option Text → Option Text → Notice
notice_of none result = missing_field
notice_of (some typ) none = missing_field
notice_of (some typ) (some result) =
    if text_eq typ (codes "metrics_response")
    then metrics_response result
    else if text_eq typ (codes "error")
    then error_response result
    else unknown_type typ

unfoldable pub handle_message : Option (List (Text × Text)) → Notice
unfolding notice_of lookup text_eq
handle_message none = not_json
handle_message (some response) =
    notice_of (lookup (codes "type") response) (lookup (codes "result") response)
