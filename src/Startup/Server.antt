-- ===== src/Startup/Server.antt =====
-- What `main` makes of `serverUrl`.
use system_monitor_go.Base.{
  ◌<◌, ◌≡◌, ◌≢◌, refl, ap, ◌∙◌, List, [], ◌∷◌, ◌++◌, Option, arith, pos, Text, Lacks, split,
  split_last, split-append, split_inside, ℤ, atoi-decimal, atoi_no_digit, decimal, IsDigits,
  i64_lim,
}
use system_monitor_go.Client.DataSender.{ServerInfo}
use system_monitor_go.Startup.{parse_server, server_of, port_or}

parse_split :
    (url : Text) (parts : List Text) → split url b':' ≡ parts → parse_server url ≡ server_of parts
unfolding parse_server
parse_split url parts e = ap server_of e

IsDigits-Lacks : (s : Text) → IsDigits s → Lacks b':' s
IsDigits-Lacks [] h = tt
IsDigits-Lacks (c ∷ s) h = (omega arith, IsDigits-Lacks s h.1)

abbrev at_port : Text → Option ℤ → ServerInfo
at_port host port = record { address = host; port = port_or port }

-- A URL with a scheme is not read as one: the scheme becomes the host, at port 8080, whatever host
-- and port follow the two slashes.
parse_server_scheme :
    (scheme rest : Text)
    → Lacks b':' scheme
    → parse_server (scheme ++ b':' ∷ b'/' ∷ b'/' ∷ rest)
      ≡ record { address = scheme; port = pos 8080 }
unfolding server_of port_or
parse_server_scheme scheme rest lacks =
    let (p, ps, e) = split_inside b'/' (b'/' ∷ rest) b':' refl in
    parse_split (scheme ++ b':' ∷ b'/' ∷ b'/' ∷ rest) (scheme ∷ (b'/' ∷ p) ∷ ps)
      (split-append scheme (b'/' ∷ b'/' ∷ rest) b':' lacks ∙ ap (λ l. scheme ∷ l) e)
    ∙ ap (at_port scheme) (atoi_no_digit b'/' p refl (omega arith) (omega arith))

-- `host:port` with a port of decimal digits that fits an `int` gives the two; a text without a colon
-- is the host at port 8080; and a URL with a scheme is not read as one: the scheme becomes the host,
-- at port 8080, whatever follows the two slashes.
pub parse_server-host_port :
    (host port rest : Text)
    → Lacks b':' host
    → port ≢ []
    → IsDigits port
    → decimal port < i64_lim
    → (parse_server (host ++ b':' ∷ port) ≡ record { address = host; port = pos (decimal port) })
      × (parse_server host ≡ record { address = host; port = pos 8080 })
      × (parse_server (host ++ b':' ∷ b'/' ∷ b'/' ∷ rest)
          ≡ record { address = host; port = pos 8080 })
unfolding server_of port_or
parse_server-host_port host port rest lacks some_digit digits fits = (
  parse_split (host ++ b':' ∷ port) (host ∷ port ∷ []) (
        split-append host port b':' lacks
        ∙ ap (λ l. host ∷ l) (split_last port b':' (IsDigits-Lacks port digits)))
      ∙ ap (at_port host) (atoi-decimal port some_digit digits fits),
  parse_split host (host ∷ []) (split_last host b':' lacks),
  parse_server_scheme host rest lacks,
)
