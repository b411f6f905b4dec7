-- ===== src/Webhook/Public.antt =====
-- Where the URLs lead that crates/core/seidrum-eventbus/src/delivery/webhook.rs accepts.
use seidrum.Base.{
  Option, none, ℕ, if◌then◌else◌, true, Text, codes, text_eq, some, List, [], ◌∷◌, ◌≡◌, ◌≢◌, inl,
  inr, refl, sym, ap, subst, ◌∙◌, Bool-cases,
}
use seidrum.Error.{Result, ok, err, ◌>>=◌, ok_injective}
use seidrum.Webhook.{
  private_address, insecure_scheme, no_host, IpAddr, Host, ipv4, ipv6, domain, Url,
  ValidatedWebhookUrl, strict, WebhookUrlError, is_private_ip, check_address_against_policy,
  check_each, check_scheme, some_or, or_443, or_dns_error, first_of, resolve, validate_parsed,
  parsed_or_error, validate_webhook_url_resolved,
}
use seidrum.Webhook.Addresses.{IsPublic, is_private_ip-IsPublic}

-- What a step that succeeded went on with.
bind_ok {ℓ} :
    {A B : Type ℓ} {E : Type 0} (m : Result E A) (k : A → Result E B) {b : B}
    → (m >>= k) ≡ ok b
    → (a : A) × ((m ≡ ok a) × (k a ≡ ok b))
bind_ok (ok a) k h = (a, (refl, h))
bind_ok (err e) k h = cc

err≢ok {ℓ} : {A : Type ℓ} {E : Type 0} {e : E} {a : A} → ◌≢◌ {A = Result E A} (err e) (ok a)
err≢ok h = cc

check_address-IsPublic :
    (host : Text) (ip : IpAddr) {u : Unit {0}}
    → check_address_against_policy host ip strict ≡ ok u
    → IsPublic ip
unfolding check_address_against_policy
check_address-IsPublic host ip h = elim (Bool-cases (is_private_ip ip)) [
  | inl private ↦
      absurd
        (err≢ok (ap (λ t. if t then err (private_address host ip) else ok tt) (sym private) ∙ h))
  | inr open_ ↦ is_private_ip-IsPublic ip open_
]

abbrev pub AllPublic : List IpAddr → Type 0
AllPublic [] = Unit
AllPublic (ip ∷ ips) = IsPublic ip × AllPublic ips

check_each-AllPublic :
    (host : Text) (ips : List IpAddr) {u : Unit {0}}
    → check_each host ips strict ≡ ok u
    → AllPublic ips
unfolding check_each
check_each-AllPublic host [] h = tt
check_each-AllPublic host (ip ∷ ips) h =
    let (u, (one, others)) = bind_ok (check_address_against_policy host ip strict) _ h in
    (check_address-IsPublic host ip one, check_each-AllPublic host ips others)

or_dns_error-ok {ℓ} :
    {A : Type ℓ} (name : Text) (r : Result Text A) {a : A} → or_dns_error name r ≡ ok a → r ≡ ok a
or_dns_error-ok name (ok a) h = ap ok (ok_injective h)
or_dns_error-ok name (err e) h = absurd (err≢ok h)

some_or-ok {ℓ} :
    {A : Type ℓ} (e : WebhookUrlError) (o : Option A) {a : A} → some_or e o ≡ ok a → o ≡ some a
some_or-ok e none h = absurd (err≢ok h)
some_or-ok e (some a) h = ap some (ok_injective h)

parsed-ok : (r : Result Text Url) {url : Url} → parsed_or_error r ≡ ok url → r ≡ ok url
parsed-ok (ok url) h = ap ok (ok_injective h)
parsed-ok (err e) h = absurd (err≢ok h)

https :
    (scheme : Text) {u : Unit {0}}
    → check_scheme scheme strict ≡ ok u
    → text_eq scheme (codes "https") ≡ true
https scheme h = elim (Bool-cases (text_eq scheme (codes "https"))) [
  | inl same ↦ same
  | inr other ↦
      absurd (err≢ok (ap (λ t. if t then ok tt else err (insecure_scheme scheme)) (sym other) ∙ h))
]

module _ (first second : Text → ℕ → Result Text (List IpAddr)) where
  -- The second lookup of a name gave public addresses only.
  abbrev pub Vetted : ℕ → Host → Type 0
  Vetted port (ipv4 a) = Unit
  Vetted port (ipv6 a) = Unit
  Vetted port (domain name) = (ips : List IpAddr) × ((second name port ≡ ok ips) × AllPublic ips)

  resolve-Vetted :
      (name : Text) (port : ℕ) (host : Host) {ip : IpAddr}
      → resolve first second name port strict host ≡ ok ip
      → Vetted port host
  unfolding resolve
  resolve-Vetted name port (ipv4 a) h = tt
  resolve-Vetted name port (ipv6 a) h = tt
  resolve-Vetted name port (domain d) h =
      let (found, (_, h₁)) = bind_ok (or_dns_error d (first d port)) _ h in
      let (ip, (_, h₂)) = bind_ok (first_of d found) _ h₁ in
      let (again, (looked_up, h₃)) = bind_ok (or_dns_error d (second d port)) _ h₂ in
      let (u, (each, _)) = bind_ok (check_each name again strict) _ h₃ in
      (again, (or_dns_error-ok d (second d port) looked_up, check_each-AllPublic name again each))

  -- A URL that the strict policy accepts parses, has the scheme `https` and a host, and resolves
  -- to a public address; if its host is a name, the second lookup gave public addresses only.
  pub validate_webhook_url_resolved-Safe :
      (url_parse : Text → Result Text Url) (url : Text) (u : ValidatedWebhookUrl)
      → validate_webhook_url_resolved first second url_parse url strict ≡ ok u
      → (url' : Url) × ((url_parse url ≡ ok url')
          × ((text_eq url'.scheme (codes "https") ≡ true)
              × (((host : Host) × ((url'.host ≡ some host) × Vetted u.port host))
                  × IsPublic u.resolved_ip)))
  unfolding validate_webhook_url_resolved validate_parsed
  validate_webhook_url_resolved-Safe url_parse url u h =
      let (url', (parses, h₁)) = bind_ok (parsed_or_error (url_parse url)) _ h in
      let (_, (scheme, h₂)) = bind_ok (check_scheme url'.scheme strict) _ h₁ in
      let (host, (has_host, h₃)) = bind_ok (some_or no_host url'.host) _ h₂ in
      let (name, (_, h₄)) = bind_ok (some_or no_host url'.host_str) _ h₃ in
      let port = or_443 url'.port_or_known_default in
      let (ip, (resolved, h₅)) = bind_ok (resolve first second name port strict host) _ h₄ in
      let (_, (public, h₆)) = bind_ok (check_address_against_policy name ip strict) _ h₅ in
      let same = ok_injective h₆ in
      (
        url',
        (
          parsed-ok (url_parse url) parses,
          (
            https url'.scheme scheme,
            (
              (
                host,
                (
                  some_or-ok no_host url'.host has_host,
                  subst (λ p. Vetted p host) (ap (λ v. v.port) same)
                      (resolve-Vetted name port host resolved),
                ),
              ),
              subst IsPublic (ap (λ v. v.resolved_ip) same) (check_address-IsPublic name ip public),
            ),
          ),
        ),
      )
