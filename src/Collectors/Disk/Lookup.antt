-- ===== src/Collectors/Disk/Lookup.antt =====
-- internal/collectors/disk.go: the cache of the block devices and the way down to a physical disk.
use system_monitor_go.Base.{
  ℕ, ◌+◌, ◌<◌, zero, suc, ◌≡◌, refl, ap, arith, none, some, List, [], ◌∷◌, Text, map, inl, inr,
  Option-cases, lookup, insert, lookup-insert, text_eq_iff,
}
use mathlib.Core.Path.{ap₂}
use system_monitor_go.Collectors.Disk.Device.{
  SysBlock, Cache, block_device, get_block_device, first_slave, get_disk_info, info_at,
}

module _ (sys : SysBlock) where
  -- Every entry is what a lookup without the cache would give.
  abbrev pub Sound : Cache → Type 0
  Sound cache = (k v : Text) → lookup k cache ≡ some v → v ≡ block_device sys k

  insert-Sound :
      (cache : Cache) (k : Text) → Sound cache → Sound (insert k (block_device sys k) cache)
  insert-Sound cache k s j v h =
      ground (arith, lookup-insert k j (block_device sys k) cache, text_eq_iff k j, s j v, h)

  pub get_block_device-Sound :
      (cache : Cache) (k : Text)
      → Sound cache
      → Sound (get_block_device sys cache k).0
        × ((get_block_device sys cache k).1 ≡ block_device sys k)
  unfolding get_block_device
  get_block_device-Sound cache k s = elim (Option-cases (lookup k cache)) [
    | inl e ↦ rw (e, get_block_device) (insert-Sound cache k s, refl)
    | inr (v, e) ↦ rw (e, get_block_device) (s, s k v e)
  ]

  -- Lookups one after another.
  unfoldable pub get_block_devices : Cache → List Text → List Text
  unfolding get_block_device
  get_block_devices cache [] = []
  get_block_devices cache (k ∷ ks) =
      let found : Cache × Text = get_block_device sys cache k in
      found.1 ∷ get_block_devices found.0 ks

  devices_from :
      (cache : Cache) (ks : List Text)
      → Sound cache
      → get_block_devices cache ks ≡ map (block_device sys) ks
  unfolding get_block_devices
  devices_from cache [] s = refl
  devices_from cache (k ∷ ks) s =
      let (t, e) = get_block_device-Sound cache k s in
      ap₂ (λ a b. a ∷ b) e (devices_from (get_block_device sys cache k).0 ks t)

  -- While /sys/block does not change, lookups from an empty cache give, whatever was looked up
  -- before, the devices that each would give without a cache.
  pub get_block_devices-map : (ks : List Text) → get_block_devices [] ks ≡ map (block_device sys) ks
  unfolding lookup
  get_block_devices-map ks = devices_from [] ks (λ k v h. ground arith)

  -- The way from a name over the first slaves to a device without slaves.
  pub data Leads : Text → Text → Type 0 where
    here : {d : Text} → first_slave sys (block_device sys d) ≡ none → Leads d (block_device sys d)
    down : {d s e : Text} → first_slave sys (block_device sys d) ≡ some s → Leads s e → Leads d e

  pub info_from :
      (rank : Text → ℕ) (n : ℕ) (cache : Cache) (d : Text)
      → Sound cache
      → ((c s : Text) → first_slave sys (block_device sys c) ≡ some s → rank s < rank c)
      → rank d < n
      → (after : Cache) × (e : Text) × Leads d e
        × Sound after
        × (get_disk_info n sys cache d ≡ some (after, info_at sys e))
  unfolding get_disk_info
  info_from rank zero cache d s r h = absurd (omega arith)
  info_from rank (suc n) cache d s r h =
      let t = get_block_device-Sound cache d s in
      elim (Option-cases (first_slave sys (block_device sys d))) [
        | inl q ↦ (
          (get_block_device sys cache d).0,
          block_device sys d,
          Leads.here q,
          t.0,
          rw (t.1, q, get_disk_info)
              (ap (λ x. some ((get_block_device sys cache d).0, info_at sys x)) t.1),
        )
        | inr (c, q) ↦
            let (after, x, l, z, p) =
              info_from rank n (get_block_device sys cache d).0 c t.0 r (omega (arith, r d c q)) in
            (after, x, Leads.down q l, z, rw (t.1, q, get_disk_info) p)
      ]

  -- If the first slaves of device-mapper devices descend in some rank, `getDiskInfo` ends, with fuel
  -- above the rank of the name, and gives the model and the type of the device to which the name
  -- leads over the first slaves.
  pub get_disk_info-Leads :
      (rank : Text → ℕ) (d : Text)
      → ((c s : Text) → first_slave sys (block_device sys c) ≡ some s → rank s < rank c)
      → (after : Cache) × (e : Text) × Leads d e
        × (get_disk_info (rank d + 1) sys [] d ≡ some (after, info_at sys e))
  unfolding lookup
  get_disk_info-Leads rank d r =
      let (after, e, l, s, p) =
        info_from rank (rank d + 1) [] d (λ k v h. ground arith) r (omega arith) in
      (after, e, l, p)
