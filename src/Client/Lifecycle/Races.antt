-- ===== src/Client/Lifecycle/Races.antt =====
-- When a check and the write or read that it allows are torn apart by `Disconnect`.
use system_monitor_go.Base.{
  ℕ, ◌-◌, ◌<◌, ◌≡◌, ◌≢◌, refl, Bool, true, false, ◌||◌, List, [], ◌∷◌, Option, none, arith,
  Bool-cases, ◌⊎◌, inl, inr,
}
use system_monitor_go.Client.DataSender.{DataSender, send_check}
use system_monitor_go.Client.SystemClient.{connect_sender}
use system_monitor_go.Client.Lifecycle.{
  Event, disconnecting, ticking, writing, listening, reading, Running, about_to_write,
}
use system_monitor_go.Client.Lifecycle.Safety.{SenderOk, ClientOk}

-- How far a race has come: no check was made yet, one was made, and one was made before `Disconnect`.
pub data Phase : Type 0 where
  calm : Phase
  checked : Phase
  torn : Phase

abbrev pub after_check : Phase → Phase
after_check calm = checked
after_check checked = checked
after_check torn = torn

abbrev pub after_disconnect : Phase → Phase
after_disconnect calm = calm
after_disconnect checked = torn
after_disconnect torn = torn

abbrev pub next : {M : Type 0} → Event M → Phase → Phase
next ticking p = after_check p
next listening p = after_check p
next disconnecting p = after_disconnect p
next _ p = p

abbrev pub is_torn : Phase → Bool
is_torn torn = true
is_torn _ = false

-- A write or a read in a race.
unfoldable pub broken : {M : Type 0} → Event M → Phase → Bool
broken (writing w) p = is_torn p
broken (reading f) p = is_torn p
broken _ p = false

-- Somewhere in the list stand, in this order, a check of a send loop or of a receiver, a `Disconnect`,
-- and a write or a read.
unfoldable pub raced : {M : Type 0} → Phase → List (Event M) → Bool
unfolding broken
raced p [] = false
raced p (e ∷ events) = broken e p || raced (next e p) events

-- Without a race, what is about to be written or read has a connection.
abbrev pub Pending : {D : Type 0} → Phase → List D → ℕ → Option ℕ → Type 0
Pending calm ws n conn = (ws ≡ []) × (n ≡ 0)
Pending checked ws n conn = ((ws ≡ []) × (n ≡ 0)) ⊎ (conn ≢ none)
Pending torn ws n conn = Unit

pub record RunningOk {M D : Type 0} (p : Phase) (s : Running M D) : Type 0 where
  pub client_ok : ClientOk s.client
  pub pending : Pending p s.writes s.reads client_ok.sender.conn

module _ {D : Type 0} where
  pub connect_sender-Pending :
      (p : Phase) (ws : List D) (n : ℕ) (dial : Option ℕ) (ds : DataSender D)
      → Pending p ws n ds.conn
      → Pending p ws n (connect_sender dial ds).0.conn
  unfolding connect_sender
  connect_sender-Pending calm ws n dial ds h = h
  connect_sender-Pending checked ws n dial ds h = ground arith
  connect_sender-Pending torn ws n dial ds h = tt

  pub disconnect-Pending :
      (p : Phase) (ws : List D) (n : ℕ) (c d : Option ℕ)
      → Pending p ws n c
      → Pending (after_disconnect p) ws n d
  disconnect-Pending calm ws n c d h = h
  disconnect-Pending checked ws n c d h = tt
  disconnect-Pending torn ws n c d h = tt

  pub Pending-check :
      (p : Phase) (ws : List D) (n : ℕ) (c : Option ℕ)
      → Pending p ws n c
      → Pending (after_check p) ws n c
  Pending-check calm ws n c h = inl h
  Pending-check checked ws n c h = h
  Pending-check torn ws n c h = tt

  pub Pending-conn :
      (p : Phase) (ws : List D) (n : ℕ) (c : Option ℕ) → c ≢ none → Pending (after_check p) ws n c
  Pending-conn calm ws n c h = inr h
  Pending-conn checked ws n c h = inr h
  Pending-conn torn ws n c h = tt

  -- One write or read less
  pub Pending-write :
      (p : Phase) (d : D) (ws : List D) (n : ℕ) (c : Option ℕ)
      → Pending p (d ∷ ws) n c
      → Pending p ws n c
  Pending-write calm d ws n c h = cc h.0
  Pending-write checked d ws n c (inl h) = cc h.0
  Pending-write checked d ws n c (inr h) = inr h
  Pending-write torn d ws n c h = tt

  pub Pending-read :
      (p : Phase) (ws : List D) (n : ℕ) (c : Option ℕ) → Pending p ws n c → Pending p ws (n - 1) c
  Pending-read calm ws n c h = (h.0, omega (arith, h.1))
  Pending-read checked ws n c (inl h) = inl (h.0, omega (arith, h.1))
  Pending-read checked ws n c (inr h) = inr h
  Pending-read torn ws n c h = tt

  -- What is about to happen without a connection is in a race.
  pub write-is_torn :
      (p : Phase) (d : D) (ws : List D) (n : ℕ) (c : Option ℕ)
      → Pending p (d ∷ ws) n c
      → c ≡ none
      → is_torn p ≡ true
  write-is_torn calm d ws n c h e = cc h.0
  write-is_torn checked d ws n c (inl h) e = cc h.0
  write-is_torn checked d ws n c (inr h) e = absurd (h e)
  write-is_torn torn d ws n c h e = refl

  pub read-is_torn :
      (p : Phase) (ws : List D) (n : ℕ) (c : Option ℕ)
      → 0 < n
      → Pending p ws n c
      → c ≡ none
      → is_torn p ≡ true
  read-is_torn calm ws n c l h e = absurd (omega (arith, h.1))
  read-is_torn checked ws n c l (inl h) e = absurd (omega (arith, h.1))
  read-is_torn checked ws n c l (inr h) e = absurd (h e)
  read-is_torn torn ws n c l h e = refl

module _ {M D : Type 0} (marshal : M → Option D) where
  pub send_check-Pending :
      (p : Phase) (ws : List D) (n : ℕ) (shut : Bool) (ds : DataSender D) (x : M)
      → SenderOk shut ds
      → Pending p ws n ds.conn
      → Pending (after_check p) (about_to_write marshal (send_check marshal ds x) ws) n ds.conn
  unfolding send_check about_to_write
  send_check-Pending p ws n shut ds x k h = elim (Bool-cases ds.is_connected) [
    | inl e ↦ Pending-conn p _ n ds.conn (k.has_conn e)
    | inr e ↦ rw e (Pending-check p ws n ds.conn h)
  ]
