-- ===== src/Client/Tests.antt =====
-- Runs of the client, and its theorems at concrete inputs. A report is a number that is printed as
-- itself, and 0 cannot be printed.
use system_monitor_go.Base.{
  ◌⊎◌, ℕ, ◌≡◌, refl, true, false, List, [], ◌∷◌, Option, none, some, pos, codes, arith, Outcome,
  ret, panic, nil_dereference, close_of_closed_channel, ◌>>=◌, Returns, if◌then◌else◌, ◌==◌,
}
use system_monitor_go.Queue.{push}
use system_monitor_go.Client.DataSender.{
  ServerInfo, DataSender, connect, disconnect, start_sending, stop_sending, send_check, send_write,
  receive_check, receive_read, handle_message, error_response,
}
use system_monitor_go.Client.SystemClient.{
  Manager, SystemClient, new_system_client, initialize, client_connect, client_disconnect,
}
use system_monitor_go.Client.Lifecycle.{
  Event, connecting, disconnecting, collected, ticking, writing, listening, reading, Running,
  react_all,
}
use system_monitor_go.Client.Lifecycle.Safety.{ClientOk}
use system_monitor_go.Client.Lifecycle.Races.{calm, raced}
use system_monitor_go.Client.Lifecycle.Orders.{initialize-react_all_cases}
use system_monitor_go.Client.Delivery.{
  send_ticks, send_ticks-delivered, disconnect_between-panic, receive_between-panic,
  second_stop-panic,
}

abbrev print : ℕ → Option ℕ
print n = if n == 0 then none else some n

abbrev info : ServerInfo
info = record { address = codes "host"; port = pos 8087 }

abbrev make : ℕ → Manager ℕ
make n = record { data_queue = record { items = []; size = n }; started = 0 }

-- A client with the queue of two places.
abbrev client : SystemClient ℕ ℕ
client = record {
  server_info = info;
  system_key = [];
  user_id = [];
  collection_interval = pos 2;
  sending_interval = pos 2;
  collector_manager = some (make 2);
  data_sender = some sender;
  is_disconnected = false;
}
  where
    sender : DataSender ℕ
    sender = record {
      server_info = info;
      user_id = [];
      conn = none;
      is_connected = false;
      running = false;
      sender_done = false;
      client_done = false;
      send_loops = 0;
      receivers = 0;
      sent = [];
    }

abbrev linked : DataSender ℕ
linked = record {
  server_info = info;
  user_id = [];
  conn = some 4;
  is_connected = true;
  running = true;
  sender_done = false;
  client_done = false;
  send_loops = 1;
  receivers = 1;
  sent = [];
}

-- Three reports are collected, two are kept, one arrives and one is lost on the network.
abbrev day : List (Event ℕ)
day =
    connecting (some 4)
    ∷ collected 1
    ∷ collected 2
    ∷ collected 3
    ∷ ticking
    ∷ listening
    ∷ writing true
    ∷ reading false
    ∷ ticking
    ∷ writing false
    ∷ disconnecting
    ∷ disconnecting
    ∷ []

-- A report is printed and taken for a connection, which is then taken away.
abbrev torn_day : List (Event ℕ)
torn_day = connecting (some 4) ∷ collected 1 ∷ ticking ∷ disconnecting ∷ writing true ∷ []

-- A receiver sees the connection that is then taken away.
abbrev deaf_day : List (Event ℕ)
deaf_day = connecting (some 4) ∷ listening ∷ disconnecting ∷ reading false ∷ []

abbrev start : Running ℕ ℕ
start = record {
  client = (initialize make (some 2) (new_system_client info [] (pos 2) (pos 2) [])).0;
  writes = [];
  reads = 0;
}

sent_of : Outcome (Running ℕ ℕ) → List ℕ
sent_of (panic p) = []
sent_of (ret s) = elim s.client.data_sender [ none ↦ [] | some ds ↦ ds.sent ]

day_sends : sent_of (react_all print day start) ≡ 2 ∷ []
unfolding sent_of react_all initialize new_system_client push client_connect client_disconnect
day_sends = refl

torn_panics : react_all print torn_day start ≡ panic nil_dereference
unfolding react_all initialize new_system_client push client_connect client_disconnect
torn_panics = refl

deaf_panics : react_all print deaf_day start ≡ panic nil_dereference
unfolding react_all initialize new_system_client client_connect client_disconnect
deaf_panics = refl

error_message :
    handle_message (some ((codes "type", codes "error") ∷ (codes "result", codes "no key") ∷ []))
    ≡ error_response (codes "no key")
unfolding handle_message
error_message = refl

initialize-react_all_cases_example :
    Returns (λ s. ClientOk s.client) (react_all print torn_day start)
    ⊎ ((raced calm torn_day ≡ true) × (react_all print torn_day start ≡ panic nil_dereference))
initialize-react_all_cases_example =
    initialize-react_all_cases print make 2 info [] [] (pos 2) (pos 2) torn_day (omega arith)

receive_between-panic_example :
    ((receive_check linked).1 ≡ true)
    × ((disconnect (receive_check linked).0 >>= receive_read false) ≡ panic nil_dereference)
    × Returns (λ after. after.conn ≡ some 4) (receive_read false linked)
receive_between-panic_example = receive_between-panic linked false refl refl (λ e. cc e)

send_ticks-delivered_example :
    send_ticks print
      (true ∷ false ∷ true ∷ [])
      linked
      (record { items = 5 ∷ 6 ∷ 0 ∷ 7 ∷ []; size = 9 })
    ≡ ret (record linked { sent = 5 ∷ [] }, record { items = 7 ∷ []; size = 9 })
send_ticks-delivered_example =
    send_ticks-delivered print (true ∷ false ∷ true ∷ []) linked 9 (5 ∷ 6 ∷ 0 ∷ 7 ∷ []) (λ e. cc)

disconnect_between-panic_example :
    ((disconnect linked >>= λ gone. send_write true gone 5) ≡ panic nil_dereference)
    × Returns (λ r. r.1 ≡ true) (send_write true linked 5)
unfolding send_check
disconnect_between-panic_example = disconnect_between-panic print linked 5 5 true refl (cc) refl

second_stop-panic_example :
    ((disconnect linked >>= λ gone. disconnect (connect (some 5) gone).0)
      ≡ panic close_of_closed_channel)
    × ((stop_sending linked >>= λ stopped. stop_sending (start_sending stopped))
        ≡ panic close_of_closed_channel)
second_stop-panic_example = second_stop-panic linked 5 refl refl refl refl

abbrev linked_client : SystemClient ℕ ℕ
linked_client = record client { data_sender = some linked }
