-- ===== src/Pipeline/Tests.antt =====
-- A run of both loops, and its theorem at a concrete input.
use system_monitor_go.Base.{
  ◌==◌, if◌then◌else◌, err, insert, text_eq, ℕ, true, false, ◌≡◌, refl, Option, some, List, [], ◌∷◌,
  ◌++◌, ok, codes, pos, Returns, ◌>>=◌, arith,
}
use mathlib.Core.List.{Sublistᴰ, reverse}
use system_monitor_go.Base.Floats.{whole}
use system_monitor_go.Models.Report.{SystemMetrics}
use system_monitor_go.Config.Settings.{default_config}
use system_monitor_go.Collectors.Master.{
  MasterCollector, collect_all, MakeCollectors, Round, other_data, process_infos,
  new_master_collector,
}
use system_monitor_go.Collectors.Master.Registered.{registered}
use system_monitor_go.Client.DataSender.{DataSender}
use system_monitor_go.Pipeline.{Event, collecting, sending, react_all, reports, printed_all}
use system_monitor_go.Pipeline.Order.{react_all-in_order}
use system_monitor_go.Pipeline.Arrival.{sends, react_all-delivers}

abbrev numbered : MakeCollectors ℕ
numbered = record {
  system = λ s. 0;
  cpu = λ s. 1;
  memory = λ s. 2;
  disk = λ s. 3;
  container = λ s. 4;
  network = λ s. 5;
  process = λ s. 6;
  service = λ s. 7;
}

abbrev sender : DataSender ℕ
sender = record {
  server_info = record { address = codes "host"; port = pos 8087 };
  user_id = [];
  conn = some 4;
  is_connected = true;
  running = true;
  sender_done = false;
  client_done = false;
  send_loops = 1;
  receivers = 1;
  sent = 1 ∷ [];
}

-- No collector gives anything that is known.
abbrev silent : Round ℕ ℕ
silent = record { collect = λ c. ok other_data; order = λ rs. rs }

-- The sixth collector finds no process, and is the first to reply.
abbrev no_processes : Round ℕ ℕ
no_processes = record {
  collect = λ c. if c == 6 then ok (process_infos []) else err (codes "down");
  order = reverse;
}

-- Reports are printed as their times.
abbrev print : SystemMetrics ℕ → Option ℕ
print m = some m.timestamp

-- The second report is lost, since the network fails.
abbrev events : List (Event ℕ ℕ)
events =
    sending true
    ∷ collecting 5 silent
    ∷ collecting 7 silent
    ∷ sending true
    ∷ sending false
    ∷ collecting 9 no_processes
    ∷ sending true
    ∷ collecting 11 silent
    ∷ []

react_all-in_order_example :
    Returns {A = MasterCollector ℕ ℕ × DataSender ℕ}
      (λ s.
        (arrived : List (SystemMetrics ℕ)) × Sublistᴰ
          (arrived ++ s.0.metrics_queue.items)
          (reports whole [] [] [] (registered numbered default_config.collectors) events)
        × (s.1.sent ≡ 1 ∷ printed_all print arrived))
      (new_master_collector numbered default_config >>= λ mc.
        react_all whole print events (mc, sender))
react_all-in_order_example =
    react_all-in_order whole print numbered default_config sender events (λ e h. cc)

-- The same ticks on a network that takes everything
abbrev calm : List (Event ℕ ℕ)
calm =
    sending true
    ∷ collecting 5 silent
    ∷ collecting 7 silent
    ∷ sending true
    ∷ collecting 9 no_processes
    ∷ []

react_all-delivers_example :
    Returns {A = MasterCollector ℕ ℕ × DataSender ℕ}
      (λ s.
        (s.0.metrics_queue.items ≡ [])
        × (s.1.sent
            ≡ 1
              ∷ printed_all print
                  (reports whole [] [] [] (registered numbered default_config.collectors) calm)))
      (new_master_collector numbered default_config >>= λ mc.
        react_all whole print (calm ++ sends 100) (mc, sender))
react_all-delivers_example =
    react_all-delivers whole print numbered default_config sender calm 100 refl (λ e. cc)
      (refl, (omega arith, (omega arith, (refl, (omega arith, tt))))) (omega arith)

delivers_three :
    printed_all print (reports whole [] [] [] (registered numbered default_config.collectors) calm)
    ≡ 5 ∷ 7 ∷ 9 ∷ []
unfolding printed_all reports system_monitor_go.Collectors.Master.replies_of
    system_monitor_go.Collectors.Master.finish_all system_monitor_go.Collectors.Master.finish
    system_monitor_go.Collectors.Master.merge
delivers_three = refl

sends_two :
    Returns {A = MasterCollector ℕ ℕ × DataSender ℕ}
      (λ s. s.1.sent ≡ 1 ∷ 5 ∷ 9 ∷ [])
      (new_master_collector numbered default_config >>= λ mc.
        react_all whole print events (mc, sender))
unfolding new_master_collector system_monitor_go.Queue.new_queue
    system_monitor_go.Collectors.Master.register system_monitor_go.Collectors.Master.add_collector
    system_monitor_go.Collectors.Master.finish_all system_monitor_go.Collectors.Master.finish
    system_monitor_go.Collectors.Master.merge react_all insert text_eq collect_all
    system_monitor_go.Collectors.Master.replies_of
sends_two = refl
