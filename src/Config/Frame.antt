-- ===== src/Config/Frame.antt =====
-- Which files a load can change.
use system_monitor_go.Base.{
  ◌≡◌, refl, inl, inr, false, [], Option, none, some, Text, Result, ok, err, Option-cases,
  Bool-cases, lookup, insert, lookup-insert, text_eq,
}
use system_monitor_go.Config.Settings.{Config, default_config}
use system_monitor_go.Config.Storage.{
  Machine, Files, KeyError, SaveError, generate_system_key, WriteFate, done, refused, torn,
  write_as, print_and_write, save_config_to_path,
}
use system_monitor_go.Config.Loading.{
  saved, with_new_key, use_parsed, use_contents, is_missing, load_config_from_path,
}

module _ {B : Type 0} (m : Machine B) (path other : Text) (apart : text_eq path other ≡ false) where
  insert-other : (b : B) (files : Files B) → lookup other (insert path b files) ≡ lookup other files
  insert-other b files = rw (lookup-insert, apart)

  write_as-other :
      (b : B) (files : Files B) (w : WriteFate B)
      → lookup other (write_as path b files w).0 ≡ lookup other files
  unfolding write_as
  write_as-other b files done = insert-other b files
  write_as-other b files refused = refl
  write_as-other b files (torn part) = insert-other part files

  print-other :
      (c : Config) (files : Files B)
      → lookup other (print_and_write m path c files).0 ≡ lookup other files
  unfolding print_and_write
  print-other c files = elim (Option-cases (m.marshal c)) [
    | inl e ↦ rw (e, print_and_write)
    | inr (b, e) ↦ rw (e, print_and_write) (write_as-other b files m.writing)
  ]

  save-other :
      (c : Config) (files : Files B)
      → lookup other (save_config_to_path m path c files).0 ≡ lookup other files
  unfolding save_config_to_path
  save-other c files = elim (Bool-cases m.mkdir_fails) [
    | inl e ↦ simp e
    | inr e ↦ simp e (print-other c files)
  ]

  saved-files : (c : Config) (r : Files B × Option SaveError) → (saved c r).files ≡ r.0
  unfolding saved
  saved-files c (files, none) = refl
  saved-files c (files, some e) = refl

  new_key-other :
      (c : Config) (key : Result KeyError Text)
      (save : Config → Files B → Files B × Option SaveError) (files : Files B)
      → ((c : Config) → lookup other (save c files).0 ≡ lookup other files)
      → lookup other (with_new_key c key save files).files ≡ lookup other files
  unfolding with_new_key
  new_key-other c (err e) save files h = refl
  new_key-other c (ok key) save files h =
      rw (saved-files (record c { local_key = key })) (h (record c { local_key = key }))

  parsed-other :
      (o : Option Config) (key : Result KeyError Text) (files : Files B)
      → lookup other (use_parsed o key (print_and_write m path) files).files ≡ lookup other files
  unfolding use_parsed
  parsed-other none key files = refl
  parsed-other (some c) key files = elim (Bool-cases (text_eq c.local_key [])) [
    | inl e ↦ rw e (new_key-other c key (print_and_write m path) files (λ c. print-other c files))
    | inr e ↦ rw e
  ]

  contents-other :
      (o : Option B) (files : Files B)
      → lookup other (use_contents m o (print_and_write m path) files).files ≡ lookup other files
  unfolding use_contents
  contents-other none files = refl
  contents-other (some b) files = elim (Bool-cases m.read_fails) [
    | inl e ↦ simp e
    | inr e ↦ simp e (parsed-other (m.unmarshal b) (generate_system_key m) files)
  ]

  -- A load, on every branch and also when a write breaks off, leaves every file as it was but the one
  -- at its own path.
  pub load-other_files :
      (files : Files B)
      → lookup other (load_config_from_path m path files).files ≡ lookup other files
  unfolding load_config_from_path
  load-other_files files = elim (Bool-cases (is_missing m path files)) [
    | inl e ↦ rw e (
        new_key-other default_config (generate_system_key m) (save_config_to_path m path) files
          (λ c. save-other c files))
    | inr e ↦ rw e (contents-other (lookup path files) files)
  ]
