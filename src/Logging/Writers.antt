-- ===== src/Logging/Writers.antt =====
-- internal/logger/logger.go: the writers of the log, and the functions that write to it. What zerolog does
-- with an event is an argument.
use system_monitor_go.Base.{ℕ, ◌++◌, ◌∷◌, Bool, true, Text, codes, ℤ, itoa, base_name}
use system_monitor_go.Logging.{LogFiles, Host, log_path, init_files, prepare_files}

-- The levels that are used, lowest first.
pub data Level : Type 0 where
  debug_level : Level
  info_level : Level
  warn_level : Level
  error_level : Level

-- `lumberjack.Logger`; sizes in megabytes, ages in days.
pub record FileWriter : Type 0 where
  pub filename : Text
  pub max_size : ℕ
  pub max_backups : ℕ
  pub max_age : ℕ
  pub compress : Bool

-- `zerolog.ConsoleWriter`, which writes to the standard output.
pub record ConsoleWriter : Type 0 where
  pub time_format : Text

-- `zerolog.Logger`: both writers, and what each line gets besides the message.
pub record Logger : Type 0 where
  pub console : ConsoleWriter
  pub file : FileWriter
  pub timestamp : Bool
  pub caller_skip : ℕ

-- The global state: the files, the settings of zerolog, `Logger`, and what was written, in a form
-- that zerolog chooses.
pub record Log (S : Type 0) : Type 0 where
  pub files : LogFiles
  pub time_field_format : Text
  pub caller_marshal : Text → ℤ → Text
  pub global_level : Level
  pub logger : Logger
  pub written : S

-- What `Msg` does with an event, at this global level.
pub record Zerolog (S : Type 0) : Type 0 where
  pub msg : Level → Logger → Level → Text → S → S

unfoldable pub file_writer : Text → FileWriter
file_writer path = record {
  filename = path;
  max_size = 5;
  max_backups = 10;
  max_age = 14;
  compress = true;
}

unfoldable pub console_writer : ConsoleWriter
console_writer = record { time_format = codes "2006-01-02 15:04:05.000" }

unfoldable pub new_logger : Text → Logger
unfolding file_writer console_writer
new_logger path = record {
  console = console_writer;
  file = file_writer path;
  timestamp = true;
  caller_skip = 3;
}

-- `CallerMarshalFunc`: the name of the file without its directory, and the line.
unfoldable pub caller_name : Text → ℤ → Text
unfolding base_name itoa
caller_name file line = base_name file ++ b':' ∷ itoa line

-- `init`, which runs before `main`; `time.RFC3339Nano` is written out.
unfoldable pub init : {S : Type 0} → Host → LogFiles → S → Log S
unfolding init_files new_logger
init h d written = record {
  files = init_files h d;
  time_field_format = codes "2006-01-02T15:04:05.999999999Z07:00";
  caller_marshal = caller_name;
  global_level = info_level;
  logger = new_logger (log_path h (codes "logs"));
  written = written;
}

-- The first line of a log that `InitLogger` directed to a file
abbrev pub greeting : Text → Text
greeting path = codes "로그 시스템 초기화 완료: " ++ path

module _ {S : Type 0} (z : Zerolog S) where
  unfoldable pub at_level : Level → Text → Log S → Log S
  at_level level msg log = record log {
    written = z.msg log.global_level log.logger level msg log.written;
  }

  unfoldable pub info : Text → Log S → Log S
  unfolding at_level
  info msg log = at_level info_level msg log

  unfoldable pub error : Text → Log S → Log S
  unfolding at_level
  error msg log = at_level error_level msg log

  unfoldable pub debug : Text → Log S → Log S
  unfolding at_level
  debug msg log = at_level debug_level msg log

  unfoldable pub warn : Text → Log S → Log S
  unfolding at_level
  warn msg log = at_level warn_level msg log

  unfoldable pub init_logger : Host → Text → Log S → Log S
  unfolding prepare_files new_logger info
  init_logger h dir log = info (greeting (log_path h dir)) (record log {
    files = prepare_files h dir log.files;
    caller_marshal = caller_name;
    global_level = info_level;
    logger = new_logger (log_path h dir);
  })
