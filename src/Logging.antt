-- ===== src/Logging.antt =====
-- internal/logger/logger.go: what `init` and `InitLogger` do to the file system before the writers are
-- made; the writers are in Writers. The date, the environment and which calls fail are arguments.
pub mod Writers
pub mod Handover
pub mod Filtered
mod Tests
use system_monitor_go.Base.{
  Bool, true, false, not, ◌&&◌, ◌||◌, Option, none, some, List, [], ◌∷◌, ◌++◌, Text, codes, text_eq,
  any, ℤ, pos, negsuc, atoi, if◌then◌else◌,
}
use system_monitor_go.Config.Storage.{join_path}

-- The directories and files that are there, and the calls of `os.Chown` with user and group.
pub record LogFiles : Type 0 where
  pub dirs : List Text
  pub files : List Text
  pub chowns : List (Text × (ℤ × ℤ))

-- `atoi_failed` is the number that `strconv.Atoi` returns beside an error.
pub record Host : Type 0 where
  pub date : Text
  pub getenv : Text → Text
  pub mkdir_fails : Bool
  pub open_fails : Bool
  pub atoi_failed : Text → ℤ

unfoldable pub is_there : List Text → Text → Bool
unfolding text_eq
is_there paths path = any (λ p. text_eq p path) paths

-- `MkdirAll` of a directory that is not there; its parents are not kept track of.
unfoldable pub ensure_dir : Host → Text → LogFiles → LogFiles
unfolding is_there
ensure_dir h dir d =
    if is_there d.dirs dir || h.mkdir_fails then d else record d { dirs = dir ∷ d.dirs }

-- `OpenFile` with `O_CREATE`, in a directory that is there.
unfoldable pub ensure_file : Host → Text → Text → LogFiles → LogFiles
unfolding is_there
ensure_file h dir path d =
    if is_there d.files path || (h.open_fails || not (is_there d.dirs dir))
    then d
    else record d { files = path ∷ d.files }

unfoldable pub group_of : Host → ℤ
unfolding text_eq atoi
group_of h =
    let gid : Text = h.getenv (codes "SUDO_GID") in
    if text_eq gid [] then negsuc 0 else elim (atoi gid) [ some n ↦ n | none ↦ h.atoi_failed gid ]

-- The log goes to the user who called sudo; errors of `Chown` are ignored.
unfoldable pub hand_over : Host → Text → Text → LogFiles → LogFiles
unfolding group_of text_eq atoi
hand_over h dir path d =
    let uid : Text = h.getenv (codes "SUDO_UID") in
    if text_eq uid [] then d else elim (atoi uid) [
      | none ↦ d
      | some n ↦ record d {
        chowns = d.chowns ++ (path, (n, group_of h)) ∷ (dir, (n, group_of h)) ∷ [];
      }
    ]

abbrev pub log_path : Host → Text → Text
log_path h dir = join_path dir (h.date ++ codes ".log")

-- The part of `init` before the writers: the directory of the running process.
unfoldable pub init_files : Host → LogFiles → LogFiles
unfolding ensure_dir
init_files h d = ensure_dir h (codes "logs") d

-- The part of `InitLogger` before the writers
unfoldable pub prepare_files : Host → Text → LogFiles → LogFiles
unfolding ensure_dir ensure_file hand_over join_path
prepare_files h dir d =
    hand_over h dir (log_path h dir) (ensure_file h dir (log_path h dir) (ensure_dir h dir d))
