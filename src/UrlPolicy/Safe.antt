-- ===== src/UrlPolicy/Safe.antt =====
-- What internal/webhookspec/url.go lets through, and which of its errors a delivery tries again.
use tronvent.Base.{
  String, Bool, true, false, not, ◌&&◌, ◌||◌, Option, none, some, List, [], ◌∷◌, ◌≡◌, refl, arith,
  str_eq, has_suffix, trim_space,
}
use tronvent.UrlPolicy.{
  Url, Addr, Lookup, resolved, no_such_host, lookup_failed, Network, UrlPolicy, UrlError,
  is_retryable_url_error, reject_private_addr, reject_any, reject_lookup, reject_private_host,
  check_parsed, validate_webhook_url,
}

-- An address of the public network.
abbrev pub is_public : Addr → Bool
is_public ip =
    ip.is_valid
    && not ip.is_loopback
    && not ip.is_private
    && not ip.is_link_local_unicast
    && not ip.is_link_local_multicast
    && not ip.is_unspecified

abbrev pub all_public : List (Option Addr) → Bool
all_public [] = true
all_public (none ∷ ips) = all_public ips
all_public (some ip ∷ ips) = is_public ip && all_public ips

abbrev pub resolves_public : Lookup → Bool
resolves_public no_such_host = false
resolves_public lookup_failed = false
resolves_public (resolved []) = false
resolves_public (resolved (ip ∷ ips)) = all_public (ip ∷ ips)

-- The host is a public address, or a name other than localhost that resolves to public addresses.
abbrev pub is_public_host : Network → String → Bool
is_public_host net host = elim (net.parse_addr host) [
  | some ip ↦ is_public ip
  | none ↦ resolves_public (net.lookup host)
]

abbrev pub SafeUrl : Network → UrlPolicy → Option Url → Type 0
SafeUrl net p none = ⊥
SafeUrl net p (some u) =
    ((str_eq (net.to_lower u.scheme) "https"
        || (str_eq (net.to_lower u.scheme) "http" && p.allow_http))
      ≡ true)
    × (p.allow_private_hosts ≡ false
        → (str_eq (net.to_lower u.hostname) "localhost" ≡ false)
          × (has_suffix ".localhost" (net.to_lower u.hostname) ≡ false)
          × (is_public_host net (net.to_lower u.hostname) ≡ true))

reject_any-all_public : (ips : List (Option Addr)) → reject_any ips ≡ none → all_public ips ≡ true
unfolding reject_any reject_private_addr
reject_any-all_public [] h = refl
reject_any-all_public (none ∷ ips) h = reject_any-all_public ips h
reject_any-all_public (some ip ∷ ips) h = ground (arith, h, reject_any-all_public ips)

reject_lookup-public : (found : Lookup) → reject_lookup found ≡ none → resolves_public found ≡ true
reject_lookup-public no_such_host h = ground (arith, h)
reject_lookup-public lookup_failed h = ground (arith, h)
reject_lookup-public (resolved []) h = ground (arith, h)
reject_lookup-public (resolved (ip ∷ ips)) h = reject_any-all_public (ip ∷ ips) h

reject_private_host-public :
    (net : Network) (host : String)
    → reject_private_host net host ≡ none
    → is_public_host net host ≡ true
unfolding reject_private_host reject_private_addr
reject_private_host-public net host h = ground (arith, h, reject_lookup-public (net.lookup host))

check_parsed-SafeUrl :
    (net : Network) (p : UrlPolicy) (u : Option Url) → check_parsed net p u ≡ none → SafeUrl net p u
check_parsed-SafeUrl net p none h = ground (arith, h)
check_parsed-SafeUrl net p (some u) h =
    ground (arith, h, reject_private_host-public net (net.to_lower u.hostname))

-- A URL that ValidateWebhookURL accepts parses, is https (or http, where the policy allows it), and,
-- unless the policy allows private hosts, its host is neither localhost nor below it, and is a
-- public address or a name with at least one address, all of whose readable addresses are public:
-- valid, and neither loopback, private, link-local nor unspecified.
pub validate_webhook_url-SafeUrl :
    (net : Network) (p : UrlPolicy) (raw : String)
    → validate_webhook_url net p raw ≡ none
    → SafeUrl net p (net.parse_url (trim_space raw))
unfolding validate_webhook_url
validate_webhook_url-SafeUrl net p raw h =
    check_parsed-SafeUrl net p (net.parse_url (trim_space raw)) (ground (arith, h))

-- The resolver has no answer.
abbrev pub is_unresolved : Lookup → Bool
is_unresolved no_such_host = true
is_unresolved lookup_failed = true
is_unresolved (resolved ips) = false

abbrev is_address : Option Addr → Bool
is_address none = false
is_address (some ip) = true

-- The URL passes every test before the resolver is asked, and the resolver gives no answer.
abbrev pub fails_to_resolve : Network → UrlPolicy → Option Url → Bool
fails_to_resolve net p none = false
fails_to_resolve net p (some u) =
    not (str_eq u.scheme "" || str_eq u.host "")
    && (str_eq (net.to_lower u.scheme) "https"
        || (str_eq (net.to_lower u.scheme) "http" && p.allow_http))
    && not p.allow_private_hosts
    && not (str_eq (net.to_lower u.hostname) "localhost")
    && not (has_suffix ".localhost" (net.to_lower u.hostname))
    && not (is_address (net.parse_addr (net.to_lower u.hostname)))
    && is_unresolved (net.lookup (net.to_lower u.hostname))

retryable_of : Option UrlError → Bool
retryable_of none = false
retryable_of (some e) = is_retryable_url_error e

reject_any-retryable : (ips : List (Option Addr)) → retryable_of (reject_any ips) ≡ false
unfolding retryable_of reject_any reject_private_addr
reject_any-retryable [] = refl
reject_any-retryable (none ∷ ips) = reject_any-retryable ips
reject_any-retryable (some ip ∷ ips) = ground (arith, reject_any-retryable ips)

reject_lookup-retryable :
    (found : Lookup) → retryable_of (reject_lookup found) ≡ is_unresolved found
unfolding retryable_of
reject_lookup-retryable no_such_host = refl
reject_lookup-retryable lookup_failed = refl
reject_lookup-retryable (resolved []) = refl
reject_lookup-retryable (resolved (ip ∷ ips)) = reject_any-retryable (ip ∷ ips)

reject_private_host-retryable :
    (net : Network) (host : String)
    → retryable_of (reject_private_host net host)
      ≡ not (is_address (net.parse_addr host)) && is_unresolved (net.lookup host)
unfolding retryable_of reject_private_host reject_private_addr
reject_private_host-retryable net host = ground (arith, reject_lookup-retryable (net.lookup host))

check_parsed-retryable :
    (net : Network) (p : UrlPolicy) (u : Option Url)
    → retryable_of (check_parsed net p u) ≡ fails_to_resolve net p u
unfolding retryable_of
check_parsed-retryable net p none = refl
check_parsed-retryable net p (some u) =
    ground (arith, reject_private_host-retryable net (net.to_lower u.hostname))

-- The errors that a delivery tries again are the resolver's, and no others. Where ValidateWebhookURL
-- fails, its error is one that is tried again exactly if the URL passes every test before the
-- resolver is asked (it parses, has a scheme and a host, is https, or http where the policy allows
-- it, and private hosts are not allowed, its host being neither localhost nor below it nor an
-- address) and the resolver gives no answer for the host.
pub validate_webhook_url-retryable :
    (net : Network) (p : UrlPolicy) (raw : String) (e : UrlError)
    → validate_webhook_url net p raw ≡ some e
    → is_retryable_url_error e
      ≡ not (str_eq (trim_space raw) "") && fails_to_resolve net p (net.parse_url (trim_space raw))
unfolding validate_webhook_url retryable_of
validate_webhook_url-retryable net p raw e h =
    ground (arith, h, check_parsed-retryable net p (net.parse_url (trim_space raw)))
