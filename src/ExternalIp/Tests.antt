-- ===== src/ExternalIp/Tests.antt =====
-- The address test and the services at concrete inputs.
use system_monitor_go.Base.{
  ◌≡◌, refl, ◌↔◌, true, false, ok, err, some, Text, codes, text_eq, if◌then◌else◌,
}
use system_monitor_go.ExternalIp.{
  is_valid_ip, Reply, unreachable, body, invalid_format, external_ip_services, ask, get_external_ip,
}
use system_monitor_go.ExternalIp.Services.{FirstAnswer, get_external_ip_iff}

good : is_valid_ip (codes "10.0.200.7") ≡ true
unfolding is_valid_ip
good = refl

-- The value of a group is not bounded by 255.
too_large : is_valid_ip (codes "999.1.1.1") ≡ true
unfolding is_valid_ip
too_large = refl

five_groups : is_valid_ip (codes "1.2.3.4.5") ≡ false
unfolding is_valid_ip
five_groups = refl

-- The first service is down, the second answers with a line end.
second_answers : Text → Reply
second_answers s =
    if text_eq s (codes "https://ipv4.icanhazip.com")
    then unreachable
    else body (codes "10.0.200.7\n")

second_wins : get_external_ip second_answers ≡ ok (codes "10.0.200.7")
unfolding get_external_ip second_answers ask text_eq
second_wins = refl

all_garbled :
    get_external_ip (λ s. body (codes "<html>")) ≡ err (some (invalid_format (codes "<html>")))
unfolding get_external_ip ask text_eq
all_garbled = refl

get_external_ip_iff_example :
    (get_external_ip second_answers ≡ ok (codes "10.0.200.7"))
    ↔ FirstAnswer second_answers external_ip_services (codes "10.0.200.7")
get_external_ip_iff_example = get_external_ip_iff second_answers (codes "10.0.200.7")
