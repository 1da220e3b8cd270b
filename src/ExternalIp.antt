-- ===== src/ExternalIp.antt =====
-- internal/utils/network.go: the public address of the host, asked of several services in turn.
-- What a service answers is an argument; the log lines are left out.
pub mod Format
pub mod Services
mod Tests
use system_monitor_go.Base.{
  ℕ, Bool, true, false, not, ◌&&◌, ◌||◌, List, [], ◌∷◌, Option, none, some, Text, codes, Result, ok,
  err, ltb, ◌==◌, if◌then◌else◌, length, all, split, byte_length, is_digit, trim_space, text_eq,
}

-- A part is refused if it is empty, longer than three bytes, or holds something else than digits.
valid_part : Text → Bool
valid_part part =
    if byte_length part == 0 || ltb 3 (byte_length part) then false else all is_digit part

unfoldable pub is_valid_ip : Text → Bool
unfolding valid_part split byte_length
is_valid_ip ip =
    let parts = split ip b'.' in if length parts == 4 then all valid_part parts else false

-- What one service answers: no connection, a status other than 200, a body that cannot be read, or
-- a body.
pub data Reply : Type 0 where
  unreachable : Reply
  bad_status : Text → Reply
  unreadable : Reply
  body : Text → Reply

pub data FetchError : Type 0 where
  connection : FetchError
  http_status : Text → FetchError
  reading : FetchError
  invalid_format : Text → FetchError

-- `ExternalIPServices`
abbrev pub external_ip_services : List Text
external_ip_services =
    codes "https://ipv4.icanhazip.com"
    ∷ codes "https://api.ipify.org"
    ∷ codes "https://checkip.amazonaws.com"
    ∷ codes "https://ipinfo.io/ip"
    ∷ codes "https://ifconfig.me/ip"
    ∷ []

-- One round of the loop: an address, or the error that becomes `lastErr`.
unfoldable pub ask : Reply → Result FetchError Text
unfolding is_valid_ip trim_space
ask unreachable = err connection
ask (bad_status s) = err (http_status s)
ask unreadable = err reading
ask (body b) =
    let ip = trim_space b in
    if not (text_eq ip []) && is_valid_ip ip then ok ip else err (invalid_format ip)

-- The loop over the services, with `lastErr`.
try_services : (Text → Reply) → List Text → Option FetchError → Result (Option FetchError) Text
try_services reply [] last_err = err last_err
try_services reply (s ∷ services) last_err = elim (ask (reply s)) [
  | ok ip ↦ ok ip
  | err e ↦ try_services reply services (some e)
]

-- `GetExternalIP`; its error wraps `lastErr`.
unfoldable pub get_external_ip : (Text → Reply) → Result (Option FetchError) Text
unfolding try_services
get_external_ip reply = try_services reply external_ip_services none
