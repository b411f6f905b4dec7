-- ===== src/Webhook.antt =====
-- The validation of webhook URLs, crates/core/seidrum-eventbus/src/delivery/webhook.rs. The parser of
-- the url crate and the name lookups are parameters; the two lookups of a name may differ.
pub mod Addresses
pub mod Public
pub mod Circuit
pub mod Channel
use seidrum.Base.{
  ℕ, ◌*◌, ◌/◌, ◌%◌, if◌then◌else◌, ltb, leb, ◌==◌, Text, codes, text_eq, Bool, true, false, not,
  ◌&&◌, ◌||◌, Option, none, some, List, [], ◌∷◌,
}
use seidrum.Error.{Result, ok, err, ◌>>=◌, ◌>>◌}

-- The four bytes of an address.
pub data Ipv4 : Type 0 where
  octets : ℕ → ℕ → ℕ → ℕ → Ipv4

-- The eight words of an address.
pub data Ipv6 : Type 0 where
  segments : ℕ → ℕ → ℕ → ℕ → ℕ → ℕ → ℕ → ℕ → Ipv6

pub data IpAddr : Type 0 where
  v4 : Ipv4 → IpAddr
  v6 : Ipv6 → IpAddr

pub data WebhookUrlError : Type 0 where
  parse : Text → WebhookUrlError
  insecure_scheme : Text → WebhookUrlError
  no_host : WebhookUrlError
  private_address : Text → IpAddr → WebhookUrlError
  dns_error : Text → Text → WebhookUrlError

pub record ValidatedWebhookUrl : Type 0 where
  pub host : Text
  pub port : ℕ
  pub resolved_ip : IpAddr

pub data WebhookUrlPolicy : Type 0 where
  strict permissive : WebhookUrlPolicy

-- `url::Host`.
pub data Host : Type 0 where
  ipv4 : Ipv4 → Host
  ipv6 : Ipv6 → Host
  domain : Text → Host

-- What the validation reads of a `url::Url`.
pub record Url : Type 0 where
  pub scheme : Text
  pub host : Option Host
  pub host_str : Option Text
  pub port_or_known_default : Option ℕ

-- The tests of `std::net::Ipv4Addr`, and that of the shared address space.
abbrev pub is_unspecified_v4 : Ipv4 → Bool
is_unspecified_v4 (octets a b c d) = (a == 0) && ((b == 0) && ((c == 0) && (d == 0)))

abbrev pub is_private_range : Ipv4 → Bool
is_private_range (octets a b c d) =
    (a == 10) || (((a == 172) && (leb 16 b && leb b 31)) || ((a == 192) && (b == 168)))

abbrev pub is_broadcast : Ipv4 → Bool
is_broadcast (octets a b c d) = (a == 255) && ((b == 255) && ((c == 255) && (d == 255)))

-- A word with only the bits from the given power of two on, as `&` with a mask of high bits leaves it.
abbrev pub high_bits : ℕ → ℕ → ℕ
high_bits power x = x / power * power

abbrev pub is_shared : Ipv4 → Bool
is_shared (octets a b c d) = (a == 100) && (high_bits 64 b == 64)

abbrev pub is_loopback_v4 : Ipv4 → Bool
is_loopback_v4 (octets a b c d) = a == 127

abbrev pub is_link_local : Ipv4 → Bool
is_link_local (octets a b c d) = (a == 169) && (b == 254)

abbrev pub is_multicast_v4 : Ipv4 → Bool
is_multicast_v4 (octets a b c d) = leb 224 a && leb a 239

abbrev pub is_private_v4 : Ipv4 → Bool
is_private_v4 a =
    is_loopback_v4 a
    || (is_private_range a
        || (is_link_local a
            || (is_unspecified_v4 a || (is_multicast_v4 a || (is_broadcast a || is_shared a)))))

-- The tests of `std::net::Ipv6Addr`.
abbrev pub first_segments_zero : Ipv6 → Bool
first_segments_zero (segments a b c d e f g h) =
    (a == 0) && ((b == 0) && ((c == 0) && ((d == 0) && (e == 0))))

abbrev pub is_unspecified_v6 : Ipv6 → Bool
is_unspecified_v6 (segments a b c d e f g h) =
    first_segments_zero (segments a b c d e f g h) && ((f == 0) && ((g == 0) && (h == 0)))

abbrev pub is_loopback_v6 : Ipv6 → Bool
is_loopback_v6 (segments a b c d e f g h) =
    first_segments_zero (segments a b c d e f g h) && ((f == 0) && ((g == 0) && (h == 1)))

abbrev pub is_multicast_v6 : Ipv6 → Bool
is_multicast_v6 (segments a b c d e f g h) = high_bits 256 a == 65280

abbrev pub is_unique_local : Ipv6 → Bool
is_unique_local (segments a b c d e f g h) = high_bits 512 a == 64512

abbrev pub is_link_local_v6 : Ipv6 → Bool
is_link_local_v6 (segments a b c d e f g h) = high_bits 64 a == 65152

-- The address in the last two words, byte by byte.
abbrev pub embedded : Ipv6 → Ipv4
embedded (segments a b c d e f g h) = octets (g / 256) (g % 256) (h / 256) (h % 256)

abbrev pub is_mapped : Ipv6 → Bool
is_mapped (segments a b c d e f g h) =
    first_segments_zero (segments a b c d e f g h) && (f == 65535)

abbrev pub is_private_v6 : Ipv6 → Bool
is_private_v6 a =
    is_loopback_v6 a
    || (is_unspecified_v6 a
        || (is_multicast_v6 a
            || (is_unique_local a
                || (is_link_local_v6 a || (is_mapped a && is_private_v4 (embedded a))))))

unfoldable pub is_private_ip : IpAddr → Bool
is_private_ip (v4 a) = is_private_v4 a
is_private_ip (v6 a) = is_private_v6 a

abbrev pub is_unspecified : IpAddr → Bool
is_unspecified (v4 a) = is_unspecified_v4 a
is_unspecified (v6 a) = is_unspecified_v6 a

unfoldable pub check_address_against_policy :
    Text → IpAddr → WebhookUrlPolicy → Result WebhookUrlError (Unit {0})
check_address_against_policy host ip strict =
    if is_private_ip ip then err (private_address host ip) else ok tt
check_address_against_policy host ip permissive =
    if is_unspecified ip then err (private_address host ip) else ok tt

unfoldable pub check_each :
    Text → List IpAddr → WebhookUrlPolicy → Result WebhookUrlError (Unit {0})
check_each host [] policy = ok tt
check_each host (ip ∷ ips) policy =
    check_address_against_policy host ip policy >> check_each host ips policy

abbrev pub check_scheme : Text → WebhookUrlPolicy → Result WebhookUrlError (Unit {0})
check_scheme scheme strict =
    if text_eq scheme (codes "https") then ok tt else err (insecure_scheme scheme)
check_scheme scheme permissive =
    if text_eq scheme (codes "http") || text_eq scheme (codes "https")
    then ok tt
    else err (insecure_scheme scheme)

abbrev pub some_or {ℓ} : {A : Type ℓ} → WebhookUrlError → Option A → Result WebhookUrlError A
some_or e none = err e
some_or e (some a) = ok a

abbrev pub or_443 : Option ℕ → ℕ
or_443 none = 443
or_443 (some port) = port

abbrev pub or_dns_error {ℓ} : {A : Type ℓ} → Text → Result Text A → Result WebhookUrlError A
or_dns_error name (ok a) = ok a
or_dns_error name (err e) = err (dns_error name e)

abbrev pub first_of : Text → List IpAddr → Result WebhookUrlError IpAddr
first_of name [] = err (dns_error name (codes "no address resolved"))
first_of name (ip ∷ ips) = ok ip

abbrev pub parsed_or_error : Result Text Url → Result WebhookUrlError Url
parsed_or_error (ok url) = ok url
parsed_or_error (err e) = err (parse e)

-- The first and the second lookup of a name and a port.
module _ (first second : Text → ℕ → Result Text (List IpAddr)) where
  unfoldable pub resolve : Text → ℕ → WebhookUrlPolicy → Host → Result WebhookUrlError IpAddr
  resolve host port policy (ipv4 a) = ok (v4 a)
  resolve host port policy (ipv6 a) = ok (v6 a)
  resolve host port policy (domain name) = do
    found ← or_dns_error name (first name port)
    ip ← first_of name found
    again ← or_dns_error name (second name port)
    _ ← check_each host again policy
    ok ip

  unfoldable pub validate_parsed :
      Url → WebhookUrlPolicy → Result WebhookUrlError ValidatedWebhookUrl
  validate_parsed url policy = do
    _ ← check_scheme url.scheme policy
    host ← some_or no_host url.host
    name ← some_or no_host url.host_str
    ip ← resolve name (or_443 url.port_or_known_default) policy host
    _ ← check_address_against_policy name ip policy
    ok (record { host = name; port = or_443 url.port_or_known_default; resolved_ip = ip })

  unfoldable pub validate_webhook_url_resolved :
      (Text → Result Text Url)
      → Text
      → WebhookUrlPolicy
      → Result WebhookUrlError ValidatedWebhookUrl
  validate_webhook_url_resolved url_parse url policy = do
    url' ← parsed_or_error (url_parse url)
    validate_parsed url' policy
