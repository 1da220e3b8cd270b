-- ===== src/Collectors/Container/Totals.antt =====
-- internal/collectors/container.go: the sums of calculateNetworkIO and calculateBlockIO.
use system_monitor_go.Base.{
  ℕ, ◌+◌, ◌≡◌, sym, ap, ◌∙◌, List, [], ◌∷◌, arith, Text, codes, text_eq, text_eq_iff, true, false,
  inl, inr, Bool-cases, to_int64, to_int64-pos, add_int64-to_int64, if◌then◌else◌,
}
use mathlib.Core.Path.{ap₂}
use system_monitor_go.Collectors.Container.{DockerStats, InterfaceStats, BlockStat}
use system_monitor_go.Collectors.Container.Usage.{
  add_networks, calculate_network_io, add_block, add_blocks, calculate_block_io,
}

-- The bytes of all the interfaces, and those of all the statistics of one operation.
abbrev pub total_rx : List (Text × InterfaceStats) → ℕ
total_rx [] = 0
total_rx (n ∷ ns) = n.1.rx_bytes + total_rx ns

abbrev pub total_tx : List (Text × InterfaceStats) → ℕ
total_tx [] = 0
total_tx (n ∷ ns) = n.1.tx_bytes + total_tx ns

abbrev pub total_of : Text → List BlockStat → ℕ
total_of op [] = 0
total_of op (b ∷ bs) = (if text_eq b.op op then b.value else 0) + total_of op bs

add_networks-total :
    (ns : List (Text × InterfaceStats)) (r t : ℕ)
    → add_networks ns (to_int64 r, to_int64 t)
      ≡ (to_int64 (r + total_rx ns), to_int64 (t + total_tx ns))
unfolding add_networks
add_networks-total [] r t = ap₂ (λ a b. (to_int64 a, to_int64 b)) (omega arith) (omega arith)
add_networks-total ((name, n) ∷ ns) r t =
    rw (add_int64-to_int64 r n.rx_bytes, add_int64-to_int64 t n.tx_bytes)
      (add_networks-total ns (r + n.rx_bytes) (t + n.tx_bytes)
        ∙ ap₂ (λ a b. (to_int64 a, to_int64 b)) (omega arith) (omega arith))

-- A container's received and sent bytes are the sums over its interfaces, each wrapped around to
-- `int64` once, in whatever order the interfaces are listed: they are the sums themselves below
-- `2 ^ 63`.
pub calculate_network_io-total :
    (s : DockerStats)
    → calculate_network_io s ≡ (to_int64 (total_rx s.networks), to_int64 (total_tx s.networks))
unfolding calculate_network_io
calculate_network_io-total s =
    ap (λ z. add_networks s.networks (z, z)) (sym (to_int64-pos 0 (omega arith)))
    ∙ add_networks-total s.networks 0 0
    ∙ ap₂ (λ a b. (to_int64 a, to_int64 b)) (omega arith) (omega arith)

read_no_write : (op : Text) → text_eq op (codes "Read") ≡ true → text_eq op (codes "Write") ≡ false
unfolding text_eq
read_no_write op e = ap (λ t. text_eq t (codes "Write")) ((text_eq_iff op (codes "Read")).0 e)

add_block-total :
    (b : BlockStat) (r w : ℕ)
    → add_block b (to_int64 r, to_int64 w) ≡ (
      to_int64 (r + (if text_eq b.op (codes "Read") then b.value else 0)),
      to_int64 (w + (if text_eq b.op (codes "Write") then b.value else 0)),
    )
unfolding add_block
add_block-total b r w = elim (Bool-cases (text_eq b.op (codes "Read"))) [
  | inl e ↦
      let k : text_eq b.op (codes "Write") ≡ false = read_no_write b.op e in
      rw (e, k, add_int64-to_int64 r b.value)
        (ap₂ (λ x y. (to_int64 x, to_int64 y)) (omega arith) (omega arith))
  | inr e ↦ elim (Bool-cases (text_eq b.op (codes "Write"))) [
    | inl f ↦
        rw (e, f, add_int64-to_int64 w b.value)
          (ap₂ (λ x y. (to_int64 x, to_int64 y)) (omega arith) (omega arith))
    | inr f ↦ rw (e, f) (ap₂ (λ x y. (to_int64 x, to_int64 y)) (omega arith) (omega arith))
  ]
]

add_blocks-total :
    (bs : List BlockStat) (r w : ℕ)
    → add_blocks bs (to_int64 r, to_int64 w)
      ≡ (to_int64 (r + total_of (codes "Read") bs), to_int64 (w + total_of (codes "Write") bs))
unfolding add_blocks
add_blocks-total [] r w = ap₂ (λ a b. (to_int64 a, to_int64 b)) (omega arith) (omega arith)
add_blocks-total (b ∷ bs) r w =
    rw (add_block-total b r w)
      (add_blocks-total bs _ _ ∙ ap₂ (λ a b. (to_int64 a, to_int64 b)) (omega arith) (omega arith))

-- A container's read and written bytes are the sums of the statistics of the operations `Read` and
-- `Write`, each wrapped around to `int64` once; other operations do not count.
pub calculate_block_io-total :
    (s : DockerStats)
    → calculate_block_io s ≡ (
      to_int64 (total_of (codes "Read") s.io_service_bytes),
      to_int64 (total_of (codes "Write") s.io_service_bytes),
    )
unfolding calculate_block_io
calculate_block_io-total s =
    ap (λ z. add_blocks s.io_service_bytes (z, z)) (sym (to_int64-pos 0 (omega arith)))
    ∙ add_blocks-total s.io_service_bytes 0 0
    ∙ ap₂ (λ a b. (to_int64 a, to_int64 b)) (omega arith) (omega arith)
