-- ===== src/ExternalIp/Services.antt =====
-- The loop of `GetExternalIP` over the services.
use system_monitor_go.Base.{
  ◌≡◌, refl, sym, ap, ◌∙◌, ◌↔◌, inl, inr, true, false, List, [], ◌∷◌, ◌++◌, arith, Text, Option,
  none, some, ok, err, Result-cases, All, trim_space, text_eq,
}
use system_monitor_go.ExternalIp.{
  is_valid_ip, Reply, unreachable, bad_status, unreadable, body, FetchError, external_ip_services,
  ask, try_services, get_external_ip,
}
use system_monitor_go.ExternalIp.Format.{DottedQuad, is_valid_ip_iff}

-- A reply from which the address `ip` is read: a body that is four groups of digits, between spaces.
abbrev pub Usable : Reply → Text → Type 0
Usable r ip = (b : Text) × (r ≡ body b) × (trim_space b ≡ ip) × DottedQuad ip

abbrev pub Useless : Reply → Type 0
Useless r = (ip : Text) → ¬ Usable r ip

-- The first service of a list that gives a usable reply, and the address in it.
abbrev pub FirstAnswer : (Text → Reply) → List Text → Text → Type 0
FirstAnswer reply services ip =
    (pre : List Text) × (s : Text) × (post : List Text) × (services ≡ pre ++ s ∷ post)
    × All (λ t. Useless (reply t)) pre
    × Usable (reply s) ip

nonempty_of_valid : (ip : Text) → is_valid_ip ip ≡ true → text_eq ip [] ≡ false
unfolding is_valid_ip text_eq
nonempty_of_valid [] h = cc
nonempty_of_valid (c ∷ ip) h = refl

ask_body :
    (b ip : Text) → ask (body b) ≡ ok ip → (trim_space b ≡ ip) × (is_valid_ip (trim_space b) ≡ true)
unfolding ask
ask_body b ip h = ground arith

ask-Usable : (r : Reply) (ip : Text) → ask r ≡ ok ip → Usable r ip
unfolding ask
ask-Usable unreachable ip h = cc
ask-Usable (bad_status s) ip h = cc
ask-Usable unreadable ip h = cc
ask-Usable (body b) ip h =
    let (e, v) = ask_body b ip h in (b, refl, e, (is_valid_ip_iff ip).0 (rw e at v))

Usable-ask : (r : Reply) (ip : Text) → Usable r ip → ask r ≡ ok ip
unfolding ask
Usable-ask r ip (b, e, t, q) =
    let v = (is_valid_ip_iff ip).1 q in rw (e, t, v, nonempty_of_valid ip v)

ask-Useless : (r : Reply) {e : FetchError} → ask r ≡ err e → Useless r
ask-Useless r h ip u = cc (Usable-ask r ip u)

first_later :
    (reply : Text → Reply) (s : Text) (services : List Text) (ip : Text)
    → Useless (reply s)
    → FirstAnswer reply services ip
    → FirstAnswer reply (s ∷ services) ip
first_later reply s services ip u (pre, t, post, e, a, h) =
    (s ∷ pre, t, post, ap (λ l. s ∷ l) e, (u, a), h)

try_ok :
    (reply : Text → Reply) (s : Text) (services : List Text) (last_err : Option FetchError)
    {ip : Text}
    → ask (reply s) ≡ ok ip
    → try_services reply (s ∷ services) last_err ≡ ok ip
unfolding try_services
try_ok reply s services last_err e = rw (e, try_services)

try_err :
    (reply : Text → Reply) (s : Text) (services : List Text) (last_err : Option FetchError)
    {e : FetchError}
    → ask (reply s) ≡ err e
    → try_services reply (s ∷ services) last_err ≡ try_services reply services (some e)
unfolding try_services
try_err reply s services last_err e = rw (e, try_services)

try_services-FirstAnswer :
    (reply : Text → Reply) (services : List Text) (last_err : Option FetchError) (ip : Text)
    → try_services reply services last_err ≡ ok ip
    → FirstAnswer reply services ip
try_services-FirstAnswer reply [] last_err ip h = unfold try_services in cc
try_services-FirstAnswer reply (s ∷ services) last_err ip h =
    let later = λ (e : FetchError). try_services-FirstAnswer reply services (some e) ip in
    elim (Result-cases (ask (reply s))) [
      | inl (a, e) ↦ (
        [],
        s,
        services,
        refl,
        tt,
        let same : a ≡ ip = cc (try_ok reply s services last_err e) in
            ask-Usable (reply s) ip (e ∙ ap ok same),
      )
      | inr (x, e) ↦
          first_later reply s services ip (ask-Useless (reply s) e)
            (later x (sym (try_err reply s services last_err e) ∙ h))
    ]

FirstAnswer-try_services :
    (reply : Text → Reply) (pre post : List Text) (s : Text) (last_err : Option FetchError)
    (ip : Text)
    → All (λ t. Useless (reply t)) pre
    → Usable (reply s) ip
    → try_services reply (pre ++ s ∷ post) last_err ≡ ok ip
FirstAnswer-try_services reply [] post s last_err ip a u =
    try_ok reply s post last_err (Usable-ask (reply s) ip u)
FirstAnswer-try_services reply (t ∷ pre) post s last_err ip a u =
    let later = λ (e : Option FetchError). FirstAnswer-try_services reply pre post s e ip a.1 u in
    elim (Result-cases (ask (reply t))) [
      | inl (x, e) ↦ absurd (a.0 x (ask-Usable (reply t) x e))
      | inr (x, e) ↦ try_err reply t (pre ++ s ∷ post) last_err e ∙ later (some x)
    ]

-- The call returns an address exactly when some service of the list gives a usable reply, and then
-- it is the trimmed body of the first such service, the services before it having been useless.
pub get_external_ip_iff :
    (reply : Text → Reply) (ip : Text)
    → (get_external_ip reply ≡ ok ip) ↔ FirstAnswer reply external_ip_services ip
unfolding get_external_ip
get_external_ip_iff reply ip = (
  try_services-FirstAnswer reply external_ip_services none ip,
  λ f.
      let (pre, s, post, e, a, u) = f in
      ap (λ l. try_services reply l none) e ∙ FirstAnswer-try_services reply pre post s none ip a u,
)
