-- ===== src/Logging/Handover.antt =====
-- internal/logger/logger.go: the state in which `InitLogger` leaves the log.
use system_monitor_go.Base.{
  ◌≡◌, ◌≢◌, refl, ap, ◌∙◌, arith, true, false, some, inl, inr, Bool-cases, List, [], ◌∷◌, ◌++◌,
  Text, codes, text_eq, text_eq_iff, text_eq_refl, ℤ, atoi,
}
use system_monitor_go.Logging.{
  LogFiles, Host, is_there, ensure_dir, ensure_file, group_of, hand_over, log_path, prepare_files,
}
use system_monitor_go.Logging.Writers.{Zerolog, Log, init_logger}

is_there-cons : (path : Text) (paths : List Text) → is_there (path ∷ paths) path ≡ true
unfolding is_there
is_there-cons path paths = ground (arith, text_eq_refl path)

ensure_dir-there :
    (h : Host) (dir : Text) (d : LogFiles)
    → h.mkdir_fails ≡ false
    → (is_there (ensure_dir h dir d).dirs dir ≡ true) × ((ensure_dir h dir d).chowns ≡ d.chowns)
unfolding ensure_dir
ensure_dir-there h dir d f = elim (Bool-cases (is_there d.dirs dir)) [
  | inl e ↦ rw (e, ensure_dir) (e, refl)
  | inr e ↦ rw (e, f, ensure_dir) (is_there-cons dir d.dirs, refl)
]

ensure_file-there :
    (h : Host) (dir path : Text) (d : LogFiles)
    → h.open_fails ≡ false
    → is_there d.dirs dir ≡ true
    → (is_there (ensure_file h dir path d).files path ≡ true)
      × ((ensure_file h dir path d).dirs ≡ d.dirs)
      × ((ensure_file h dir path d).chowns ≡ d.chowns)
unfolding ensure_file
ensure_file-there h dir path d f g = elim (Bool-cases (is_there d.files path)) [
  | inl e ↦ rw (e, ensure_file) (e, refl, refl)
  | inr e ↦ rw (e, f, g, ensure_file) (is_there-cons path d.files, refl, refl)
]

hand_over-owner :
    (h : Host) (dir path : Text) (d : LogFiles) (n : ℤ)
    → h.getenv (codes "SUDO_UID") ≢ []
    → atoi (h.getenv (codes "SUDO_UID")) ≡ some n
    → hand_over h dir path d
      ≡ record d { chowns = d.chowns ++ (path, (n, group_of h)) ∷ (dir, (n, group_of h)) ∷ [] }
unfolding hand_over
hand_over-owner h dir path d n f g = elim (Bool-cases (text_eq (h.getenv (codes "SUDO_UID")) [])) [
  | inl e ↦ absurd (f ((text_eq_iff (h.getenv (codes "SUDO_UID")) []).0 e))
  | inr e ↦ rw (e, g, hand_over) refl
]

prepare_files-owner :
    (h : Host) (dir : Text) (d : LogFiles) (n : ℤ)
    → h.mkdir_fails ≡ false
    → h.open_fails ≡ false
    → h.getenv (codes "SUDO_UID") ≢ []
    → atoi (h.getenv (codes "SUDO_UID")) ≡ some n
    → (is_there (prepare_files h dir d).dirs dir ≡ true)
      × (is_there (prepare_files h dir d).files (log_path h dir) ≡ true)
      × ((prepare_files h dir d).chowns
          ≡ d.chowns ++ (log_path h dir, (n, group_of h)) ∷ (dir, (n, group_of h)) ∷ [])
unfolding prepare_files
prepare_files-owner h dir d n f g u v =
    let (there, kept) = ensure_dir-there h dir d f in
    let (file, dirs, chowns) =
      ensure_file-there h dir (log_path h dir) (ensure_dir h dir d) g there in
    rw
      (hand_over-owner h dir (log_path h dir)
        (ensure_file h dir (log_path h dir) (ensure_dir h dir d)) n u v)
      (
        ap (λ l. is_there l dir) dirs ∙ there,
        file,
        ap (λ l. l ++ (log_path h dir, (n, group_of h)) ∷ (dir, (n, group_of h)) ∷ [])
            (chowns ∙ kept),
      )

-- Where directories and files can be made and a user called sudo, `InitLogger` leaves the directory
-- and the file of the day, gives both, the file first, to that user and the group, and directs the
-- log to that file.
pub init_logger-owner :
    {S : Type 0} (z : Zerolog S) (h : Host) (dir : Text) (log : Log S) (n : ℤ)
    → h.mkdir_fails ≡ false
    → h.open_fails ≡ false
    → h.getenv (codes "SUDO_UID") ≢ []
    → atoi (h.getenv (codes "SUDO_UID")) ≡ some n
    → (is_there (init_logger z h dir log).files.dirs dir ≡ true)
      × (is_there (init_logger z h dir log).files.files (log_path h dir) ≡ true)
      × ((init_logger z h dir log).files.chowns
          ≡ log.files.chowns ++ (log_path h dir, (n, group_of h)) ∷ (dir, (n, group_of h)) ∷ [])
      × ((init_logger z h dir log).logger.file.filename ≡ log_path h dir)
unfolding init_logger
init_logger-owner z h dir log n f g u v =
    let (dirs, file, chowns) = prepare_files-owner h dir log.files n f g u v in
    (dirs, file, chowns, refl)
