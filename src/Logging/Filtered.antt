-- ===== src/Logging/Filtered.antt =====
-- internal/logger/logger.go: which messages are in which file of the log.
use system_monitor_go.Base.{
  ℕ, ◌<◌, ◌≤◌, ◌≡◌, refl, sym, ap, ◌∙◌, arith, List, [], ◌∷◌, ◌++◌, append-nil, list_laws, Text,
  codes,
}
use system_monitor_go.Logging.{LogFiles, Host, log_path, prepare_files}
use system_monitor_go.Logging.Writers.{
  Level, debug_level, info_level, warn_level, error_level, Logger, Log, Zerolog, new_logger, init,
  at_level, info, error, debug, warn, greeting, init_logger, caller_name,
}

-- A call of a function of the package, by whatever part of the program.
pub data Call : Type 0 where
  informing : Text → Call
  failing : Text → Call
  debugging : Text → Call
  warning : Text → Call
  initializing : Host → Text → Call

module _ {S : Type 0} (z : Zerolog S) where
  unfoldable pub call : Call → Log S → Log S
  unfolding info error debug warn init_logger
  call (informing msg) log = info z msg log
  call (failing msg) log = error z msg log
  call (debugging msg) log = debug z msg log
  call (warning msg) log = warn z msg log
  call (initializing h dir) log = init_logger z h dir log

  unfoldable pub calls : List Call → Log S → Log S
  unfolding call
  calls [] log = log
  calls (c ∷ cs) log = calls cs (call c log)

-- A line of a file: the file, the level and the message.
abbrev pub Entry : Type 0
Entry = Text × (Level × Text)

abbrev pub rank : Level → ℕ
rank debug_level = 0
rank info_level = 1
rank warn_level = 2
rank error_level = 3

-- What zerolog documents: an event below the global level is dropped, any other is written once.
pub record Documented {S : Type 0} (z : Zerolog S) : Type 0 where
  pub entries : S → List Entry
  pub below :
      (g level : Level) (l : Logger) (msg : Text) (s : S)
      → rank level < rank g
      → entries (z.msg g l level msg s) ≡ entries s
  pub from_level :
      (g level : Level) (l : Logger) (msg : Text) (s : S)
      → rank g ≤ rank level
      → entries (z.msg g l level msg s) ≡ entries s ++ (l.file.filename, (level, msg)) ∷ []

-- The lines of the calls, for a log that goes to this file at first.
abbrev pub lines_of : Text → List Call → List Entry
lines_of path [] = []
lines_of path (informing msg ∷ cs) = (path, (info_level, msg)) ∷ lines_of path cs
lines_of path (failing msg ∷ cs) = (path, (error_level, msg)) ∷ lines_of path cs
lines_of path (debugging msg ∷ cs) = lines_of path cs
lines_of path (warning msg ∷ cs) = (path, (warn_level, msg)) ∷ lines_of path cs
lines_of path (initializing h dir ∷ cs) =
    (log_path h dir, (info_level, greeting (log_path h dir))) ∷ lines_of (log_path h dir) cs

module _ {S : Type 0} (z : Zerolog S) (d : Documented z) where
  adds :
      (level : Level) (msg : Text) (log : Log S)
      → log.global_level ≡ info_level
      → 1 ≤ rank level
      → d.entries (at_level z level msg log).written
        ≡ d.entries log.written ++ (log.logger.file.filename, (level, msg)) ∷ []
  unfolding at_level
  adds level msg log e h =
      d.from_level log.global_level level log.logger msg log.written (omega (arith, ap rank e))

  -- The lines of a call that is written, followed by those of others
  followed :
      (level : Level) (msg : Text) (log : Log S) (rest : List Entry)
      → log.global_level ≡ info_level
      → 1 ≤ rank level
      → d.entries (at_level z level msg log).written ++ rest
        ≡ d.entries log.written ++ (log.logger.file.filename, (level, msg)) ∷ rest
  followed level msg log rest e h = ap (λ l. l ++ rest) (adds level msg log e h) ∙ simp list_laws

  calls_from :
      (cs : List Call) (log : Log S)
      → log.global_level ≡ info_level
      → d.entries (calls z cs log).written
        ≡ d.entries log.written ++ lines_of log.logger.file.filename cs
  unfolding calls at_level init_logger
  calls_from [] log e = sym (append-nil _)
  calls_from (informing msg ∷ cs) log e =
      calls_from cs (at_level z info_level msg log) e
      ∙ followed info_level msg log _ e (omega arith)
  calls_from (failing msg ∷ cs) log e =
      calls_from cs (at_level z error_level msg log) e
      ∙ followed error_level msg log _ e (omega arith)
  calls_from (debugging msg ∷ cs) log e =
      calls_from cs (at_level z debug_level msg log) e
      ∙ ap (λ l. l ++ lines_of log.logger.file.filename cs)
          (d.below log.global_level debug_level log.logger msg log.written
            (omega (arith, ap rank e)))
  calls_from (warning msg ∷ cs) log e =
      calls_from cs (at_level z warn_level msg log) e
      ∙ followed warn_level msg log _ e (omega arith)
  calls_from (initializing h dir ∷ cs) log e =
      calls_from cs (init_logger z h dir log) refl
      ∙ followed info_level (greeting (log_path h dir))
          (record log {
            files = prepare_files h dir log.files;
            caller_marshal = caller_name;
            global_level = info_level;
            logger = new_logger (log_path h dir);
          })
          _ refl (omega arith)

-- From the start of the program on, whatever calls are made of the four functions and of `InitLogger`,
-- the lines that are added are the messages of `Info`, `Warn` and `Error`, in the order of the calls
-- and at their levels, none of `Debug`, and one of each `InitLogger`; each is in the file of the last
-- `InitLogger`, which starts with its own line, or before the first one in the file of `init`.
pub calls-lines_of :
    {S : Type 0} (z : Zerolog S) (d : Documented z) (h : Host) (files : LogFiles) (written : S)
    (cs : List Call)
    → d.entries (calls z cs (init h files written)).written
      ≡ d.entries written ++ lines_of (log_path h (codes "logs")) cs
unfolding init new_logger
calls-lines_of z d h files written cs = calls_from z d cs (init h files written) refl
