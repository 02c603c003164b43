-- ===== src/UrlPolicy/Examples.antt =====
-- Witnesses for the theorems on the URL policy (internal/webhookspec/url.go).
use tronvent.Base.{true, false, none, some, [], ◌∷◌, ◌≡◌, refl, trim_space, has_suffix}
use tronvent.UrlPolicy.{
  Addr, Lookup, resolved, no_such_host, Network, UrlPolicy, host_not_found, is_retryable_url_error,
  validate_webhook_url, reject_private_host, reject_any, reject_private_addr,
}
use tronvent.UrlPolicy.Safe.{
  SafeUrl, fails_to_resolve, validate_webhook_url-SafeUrl, validate_webhook_url-retryable,
}

abbrev pub address : Addr
address = record {
  is_valid = true;
  is_loopback = false;
  is_private = false;
  is_link_local_unicast = false;
  is_link_local_multicast = false;
  is_unspecified = false;
  is4 = true;
  first_byte = 203;
  second_byte = 0;
}

abbrev pub network : Lookup → Network
network found = record {
  parse_url = λ raw. some (record { scheme = "https"; host = "h.example"; hostname = "h.example" });
  parse_addr = λ host. none;
  to_lower = λ s. s;
  lookup = λ host. found;
}

abbrev pub strict : UrlPolicy
strict = record { allow_http = false; allow_private_hosts = false }

validate_webhook_url-SafeUrl_example :
    SafeUrl
      (network (resolved (some address ∷ none ∷ [])))
      strict
      (some (record { scheme = "https"; host = "h.example"; hostname = "h.example" }))
unfolding validate_webhook_url reject_private_host reject_any reject_private_addr trim_space
    has_suffix
validate_webhook_url-SafeUrl_example =
    validate_webhook_url-SafeUrl (network (resolved (some address ∷ none ∷ []))) strict
      "https://h.example" refl

validate_webhook_url-retryable_example :
    is_retryable_url_error host_not_found
    ≡ fails_to_resolve
        (network no_such_host)
        strict
        (some (record { scheme = "https"; host = "h.example"; hostname = "h.example" }))
unfolding validate_webhook_url reject_private_host trim_space has_suffix
validate_webhook_url-retryable_example =
    validate_webhook_url-retryable (network no_such_host) strict "https://h.example" host_not_found
      refl
