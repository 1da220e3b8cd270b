-- ===== src/Config/Reload.antt =====
-- What a load leaves in the files, and that a second load finds it.
use system_monitor_go.Base.{
  ℕ, codes, ◌≡◌, ◌≢◌, refl, sym, ap, ◌∙◌, ◌⊎◌, inl, inr, false, List, [], ◌∷◌, ◌++◌, Option, none,
  some, Text, Result, ok, err, Option-cases, Bool-cases, arith, lookup, insert, lookup-insert,
  text_eq, text_eq_refl, text_eq_iff,
}
use system_monitor_go.Config.Settings.{Config, default_config}
use system_monitor_go.Config.Storage.{
  Machine, Files, KeyError, SaveError, hex, key_of, generate_system_key, print_and_write,
  save_config_to_path,
}
use system_monitor_go.Config.Loading.{
  Loaded, saved, with_new_key, use_parsed, use_contents, is_missing, load_config_from_path,
}

hex-ne-nil : (bytes : List ℕ) → bytes ≢ [] → hex bytes ≢ []
unfolding hex
hex-ne-nil [] h = absurd (h refl)
hex-ne-nil (b ∷ bytes) h = cc

module _ {B : Type 0} (m : Machine B) (path : Text) where
  -- What `encoding/json` and `crypto/sha512` are relied on for: what is printed is read back, and a
  -- digest is not empty.
  pub record Documented : Type 0 where
    pub read_back : (c : Config) (b : B) → m.marshal c ≡ some b → m.unmarshal b ≡ some c
    pub digest_bytes : (t : Text) → m.digest t ≢ []

  -- The configuration has a key and stands in the file.
  abbrev pub Stored : Loaded B → Type 0
  Stored r =
      (r.config.local_key ≢ [])
      × (b : B) × (lookup path r.files ≡ some b)
      × (m.unmarshal b ≡ some r.config)

  -- The file is no JSON: it is left alone, and the default settings, which have no key, are used.
  abbrev pub Unparsed : Files B → Loaded B → Type 0
  Unparsed files r =
      (b : B) × (lookup path files ≡ some b)
      × (m.unmarshal b ≡ none)
      × (r.config ≡ default_config)
      × (r.files ≡ files)

  lookup-insert_self : (b : B) (files : Files B) → lookup path (insert path b files) ≡ some b
  lookup-insert_self b files = rw (lookup-insert, text_eq_refl)

  print_inserts :
      (c : Config) (files files' : Files B)
      → print_and_write m path c files ≡ (files', none)
      → (b : B) × (m.marshal c ≡ some b) × (files' ≡ insert path b files)
  unfolding print_and_write
  print_inserts c files files' h = elim (Option-cases (m.marshal c)) [
    | inl e ↦ absurd (ground arith)
    | inr (b, e) ↦ (b, e, ground arith)
  ]

  save_inserts :
      (c : Config) (files files' : Files B)
      → save_config_to_path m path c files ≡ (files', none)
      → (b : B) × (m.marshal c ≡ some b) × (files' ≡ insert path b files)
  unfolding save_config_to_path
  save_inserts c files files' h = elim (Bool-cases m.mkdir_fails) [
    | inl e ↦ absurd (ground arith)
    | inr e ↦ print_inserts c files files' (ground arith)
  ]

  key_of-ne-nil :
      (host : Option Text) (bytes : Option (List ℕ)) (key : Text)
      → Documented
      → key_of m host bytes ≡ ok key
      → key ≢ []
  unfolding key_of
  key_of-ne-nil none bytes key d h = cc
  key_of-ne-nil (some host) none key d h = cc
  key_of-ne-nil (some host) (some bytes) key d h =
      let source = host ++ codes "_" ++ hex bytes in
      let e : hex (m.digest source) ≡ key = cc in
      rw (← e) (hex-ne-nil (m.digest source) (d.digest_bytes source))

  -- Whatever saves it, a configuration with a new key that is returned without an error is stored.
  new_key-Stored :
      (c : Config) (key : Result KeyError Text)
      (save : Config → Files B → Files B × Option SaveError) (files : Files B)
      → Documented
      → ((k : Text) → key ≡ ok k → k ≢ [])
      → ((c : Config) (files files' : Files B)
          → save c files ≡ (files', none)
          → (b : B) × (m.marshal c ≡ some b) × (files' ≡ insert path b files))
      → (with_new_key c key save files).error ≡ none
      → Stored (with_new_key c key save files)
  unfolding with_new_key
  new_key-Stored c (err e) save files d k s h = absurd (cc)
  new_key-Stored c (ok key) save files d k s h =
      let keyed = record c { local_key = key } in go (save keyed files) refl h
    where
      go :
          (r : Files B × Option SaveError)
          → save (record c { local_key = key }) files ≡ r
          → (saved (record c { local_key = key }) r).error ≡ none
          → Stored (saved (record c { local_key = key }) r)
      go (files', some e) q h = absurd (cc)
      go (files', none) q h =
          let keyed = record c { local_key = key } in
          let (b, printed, e) = s keyed files files' q in
          (k key refl, b, rw e (lookup-insert_self b files), d.read_back keyed b printed)

  generated-ne-nil : Documented → (k : Text) → generate_system_key m ≡ ok k → k ≢ []
  unfolding generate_system_key
  generated-ne-nil d k e = key_of-ne-nil m.hostname m.random k d e

  not_empty : (t : Text) → text_eq t [] ≡ false → t ≢ []
  not_empty t h e = ground (arith, text_eq_iff t [])

  abbrev Good : Files B → Loaded B → Type 0
  Good files r = Stored r ⊎ Unparsed files r

  parsed-Good :
      (o : Option Config) (b : B) (files : Files B)
      → Documented
      → m.unmarshal b ≡ o
      → lookup path files ≡ some b
      → (use_parsed o (generate_system_key m) (print_and_write m path) files).error ≡ none
      → Good files (use_parsed o (generate_system_key m) (print_and_write m path) files)
  unfolding use_parsed
  parsed-Good none b files d e l h = inr (b, l, e, refl, refl)
  parsed-Good (some c) b files d e l h = elim (Bool-cases (text_eq c.local_key [])) [
    | inl without ↦ rw without (
        inl (
          new_key-Stored c (generate_system_key m) (print_and_write m path) files d
            (generated-ne-nil d) print_inserts (rw without at h)))
    | inr keyed ↦ rw keyed (inl (not_empty c.local_key keyed, b, l, e))
  ]

  reads_contents :
      (b : B) (save : Config → Files B → Files B × Option SaveError) (files : Files B)
      → m.read_fails ≡ false
      → use_contents m (some b) save files
        ≡ use_parsed (m.unmarshal b) (generate_system_key m) save files
  unfolding use_contents
  reads_contents b save files e = simp e

  parsed_keyed :
      (c : Config) (key : Result KeyError Text)
      (save : Config → Files B → Files B × Option SaveError) (files : Files B)
      → c.local_key ≢ []
      → use_parsed (some c) key save files ≡ record { files = files; config = c; error = none }
  unfolding use_parsed
  parsed_keyed c key save files h =
      let keyed : text_eq c.local_key [] ≡ false = ground (arith, text_eq_iff c.local_key []) in
      simp keyed

  not_missing :
      (b : B) (files : Files B) → lookup path files ≡ some b → is_missing m path files ≡ false
  not_missing b files e = ground arith

  contents-Good :
      (o : Option B) (files : Files B)
      → Documented
      → lookup path files ≡ o
      → (use_contents m o (print_and_write m path) files).error ≡ none
      → Good files (use_contents m o (print_and_write m path) files)
  unfolding use_contents
  contents-Good none files d l h = absurd (cc)
  contents-Good (some b) files d l h = elim (Bool-cases m.read_fails) [
    | inl e ↦ absurd (ground arith)
    | inr e ↦
        let same = reads_contents b (print_and_write m path) files e in
        rw same (parsed-Good (m.unmarshal b) b files d refl l (ap (λ r. r.error) (sym same) ∙ h))
  ]

  -- If what is printed as JSON is read back and no digest is empty, a load that returns no error gives
  -- either a configuration with a key that the file at its path holds, or, where that file is no
  -- JSON, the default settings with the files left as they were.
  pub load_config_from_path-Stored :
      (files : Files B)
      → Documented
      → (load_config_from_path m path files).error ≡ none
      → Stored (load_config_from_path m path files)
        ⊎ Unparsed files (load_config_from_path m path files)
  unfolding load_config_from_path
  load_config_from_path-Stored files d h = elim (Bool-cases (is_missing m path files)) [
    | inl e ↦ rw e (
        inl (
          new_key-Stored default_config (generate_system_key m) (save_config_to_path m path) files d
            (generated-ne-nil d) save_inserts (rw e at h)))
    | inr e ↦ rw e (contents-Good (lookup path files) files d refl (rw e at h))
  ]

  -- Once a configuration is stored, loading it returns it with no error and writes nothing, whatever
  -- the system would give for a key or do with a write.
  pub load-Stored :
      (r : Loaded B)
      → Stored r
      → m.read_fails ≡ false
      → load_config_from_path m path r.files
        ≡ record { files = r.files; config = r.config; error = none }
  unfolding load_config_from_path
  load-Stored r (k, b, l, e) reads = rw (not_missing b r.files l) (
      rw l (
        reads_contents b (print_and_write m path) r.files reads
        ∙ ap (λ o. use_parsed o (generate_system_key m) (print_and_write m path) r.files) e
        ∙ parsed_keyed r.config (generate_system_key m) (print_and_write m path) r.files k))

  load-Unparsed :
      (b : B) (files : Files B)
      → lookup path files ≡ some b
      → m.unmarshal b ≡ none
      → m.read_fails ≡ false
      → load_config_from_path m path files
        ≡ record { files = files; config = default_config; error = none }
  unfolding load_config_from_path
  load-Unparsed b files l e reads = rw (not_missing b files l) (
      rw l (
        reads_contents b (print_and_write m path) files reads
        ∙ ap (λ o. use_parsed o (generate_system_key m) (print_and_write m path) files) e
        ∙ unfold use_parsed in refl))

-- If what is printed as JSON is read back and no digest is empty, a second load, on a system that
-- reads the same JSON and can read the file, returns the same configuration as a first one that gave
-- no error, gives no error itself, and changes no file; so the key is made once.
pub load-load :
    {B : Type 0} (m m' : Machine B) (path : Text) (files : Files B)
    → Documented m path
    → m'.unmarshal ≡ m.unmarshal
    → m'.read_fails ≡ false
    → (load_config_from_path m path files).error ≡ none
    → load_config_from_path m' path (load_config_from_path m path files).files ≡ record {
      files = (load_config_from_path m path files).files;
      config = (load_config_from_path m path files).config;
      error = none;
    }
load-load m m' path files d same reads h = elim (load_config_from_path-Stored m path files d h) [
  | inl (k, b, l, e) ↦
      load-Stored m' path (load_config_from_path m path files) (k, b, l, ap (λ f. f b) same ∙ e)
        reads
  | inr (b, l, e, c, kept) ↦
      let again = load-Unparsed m' path b files l (ap (λ f. f b) same ∙ e) reads in
      rw (kept, c) again
]
