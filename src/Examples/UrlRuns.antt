-- ===== src/Examples/UrlRuns.antt =====
-- The validation of webhook URLs at concrete inputs.
use seidrum.Base.{ℕ, Text, codes, some, List, [], ◌∷◌, ◌≡◌, refl, text_eq, true}
use seidrum.Error.{Result, ok, err}
use seidrum.Webhook.{
  octets, segments, IpAddr, v4, v6, Host, domain, Url, ValidatedWebhookUrl, strict, permissive,
  private_address, insecure_scheme, is_private_ip, check_address_against_policy, check_each,
  resolve, validate_parsed, validate_webhook_url_resolved,
}
use seidrum.Webhook.Addresses.{IsPublic}
use seidrum.Webhook.Public.{Vetted, validate_webhook_url_resolved-Safe}

-- A parser that knows one URL, its scheme the text, and lookups that find one address.
abbrev url_parse : Text → Result Text Url
url_parse s = ok (record {
  scheme = s;
  host = some (domain (codes "hooks"));
  host_str = some (codes "hooks");
  port_or_known_default = some 8443;
})

abbrev outside : IpAddr
outside = v4 (octets 93 184 216 34)

abbrev inside : IpAddr
inside = v6 (segments 0 0 0 0 0 65535 2560 1)

abbrev finds : IpAddr → Text → ℕ → Result Text (List IpAddr)
finds ip name port = ok (ip ∷ [])

abbrev validated : ValidatedWebhookUrl
validated = record { host = codes "hooks"; port = 8443; resolved_ip = outside }

validates :
    validate_webhook_url_resolved (finds outside) (finds outside) url_parse (codes "https") strict
    ≡ ok validated
unfolding validate_webhook_url_resolved validate_parsed resolve check_each
    check_address_against_policy text_eq is_private_ip
validates = refl

-- A name that changes to an address of a private network between the lookups.
rebinding_refused :
    validate_webhook_url_resolved (finds outside) (finds inside) url_parse (codes "https") strict
    ≡ err (private_address (codes "hooks") inside)
unfolding validate_webhook_url_resolved validate_parsed resolve check_each
    check_address_against_policy text_eq is_private_ip
rebinding_refused = refl

plain_refused :
    validate_webhook_url_resolved (finds outside) (finds outside) url_parse (codes "http") strict
    ≡ err (insecure_scheme (codes "http"))
unfolding validate_webhook_url_resolved validate_parsed text_eq
plain_refused = refl

permissive_plain :
    validate_webhook_url_resolved (finds inside) (finds inside) url_parse (codes "http") permissive
    ≡ ok (record { host = codes "hooks"; port = 8443; resolved_ip = inside })
unfolding validate_webhook_url_resolved validate_parsed resolve check_each
    check_address_against_policy text_eq
permissive_plain = refl

validate_webhook_url_resolved-Safe_example :
    (url' : Url) × ((url_parse (codes "https") ≡ ok url')
      × ((text_eq url'.scheme (codes "https") ≡ true)
          × (((host : Host) × ((url'.host ≡ some host)
                  × Vetted (finds outside) (finds outside) validated.port host))
              × IsPublic validated.resolved_ip)))
validate_webhook_url_resolved-Safe_example =
    validate_webhook_url_resolved-Safe (finds outside) (finds outside) url_parse (codes "https")
      validated validates
