-- ===== src/Logging/Tests.antt =====
-- The log at concrete inputs. A log writes a list of lines.
use system_monitor_go.Base.{
  ◌≡◌, refl, arith, true, false, List, [], ◌∷◌, ◌++◌, codes, text_eq, pos, has_suffix, atoi, leb,
  if◌then◌else◌,
}
use system_monitor_go.Logging.{LogFiles, Host, is_there, group_of, log_path}
use system_monitor_go.Logging.Writers.{
  info_level, error_level, greeting, Log, Zerolog, init, init_logger, caller_name,
}
use system_monitor_go.Logging.Handover.{init_logger-owner}
use system_monitor_go.Logging.Filtered.{
  informing, debugging, failing, initializing, Call, call, calls, Entry, rank, Documented, lines_of,
  calls-lines_of,
}

abbrev list_log : Zerolog (List Entry)
list_log = record {
  msg = λ g l level msg lines.
      if leb (rank g) (rank level) then lines ++ (l.file.filename, (level, msg)) ∷ [] else lines;
}

documented_list : Documented list_log
documented_list = record {
  entries = λ lines. lines;
  below = λ g level l msg s h. ground arith;
  from_level = λ g level l msg s h. ground arith;
}

abbrev host : Host
host = record {
  date = codes "2025-05-01";
  getenv = λ name. if text_eq name (codes "SUDO_UID") then codes "1000" else [];
  mkdir_fails = false;
  open_fails = false;
  atoi_failed = λ t. pos 0;
}

abbrev no_files : LogFiles
no_files = record { dirs = []; files = []; chowns = [] }

main_caller : caller_name (codes "/src/cmd/main.go") (pos 42) ≡ codes "main.go:42"
unfolding caller_name
main_caller = refl

abbrev some_calls : List Call
some_calls =
    informing (codes "x")
    ∷ debugging (codes "y")
    ∷ initializing host (codes "/l")
    ∷ failing (codes "z")
    ∷ []

abbrev fresh_log : Log (List Entry)
fresh_log = init host no_files []

writes_three :
    (calls list_log some_calls fresh_log).written
    ≡ (codes "logs/2025-05-01.log", (info_level, codes "x"))
      ∷ (codes "/l/2025-05-01.log", (info_level, greeting (codes "/l/2025-05-01.log")))
      ∷ (codes "/l/2025-05-01.log", (error_level, codes "z"))
      ∷ []
unfolding calls init call has_suffix
writes_three = refl

calls-lines_of_example :
    (calls list_log some_calls fresh_log).written
    ≡ lines_of (log_path host (codes "logs")) some_calls
unfolding documented_list
calls-lines_of_example = calls-lines_of list_log documented_list host no_files [] some_calls

init_logger-owner_example :
    (is_there (init_logger list_log host (codes "/l") fresh_log).files.dirs (codes "/l") ≡ true)
    × (is_there
          (init_logger list_log host (codes "/l") fresh_log).files.files
          (log_path host (codes "/l"))
        ≡ true)
    × ((init_logger list_log host (codes "/l") fresh_log).files.chowns
        ≡ fresh_log.files.chowns
          ++ (log_path host (codes "/l"), (pos 1000, group_of host))
            ∷ (codes "/l", (pos 1000, group_of host))
            ∷ [])
    × ((init_logger list_log host (codes "/l") fresh_log).logger.file.filename
        ≡ log_path host (codes "/l"))
unfolding text_eq atoi
init_logger-owner_example =
    init_logger-owner list_log host (codes "/l") fresh_log (pos 1000) refl refl (λ e. cc e) refl
