-- ===== src/UrlPolicy.antt =====
-- internal/webhookspec/url.go: which subscriber URLs a webhook is sent to. Parameters: the parsers
-- (net/url, net/netip), the lower case of a text (strings.ToLower), the classes of an address
-- (methods of netip.Addr) and the resolver (net.LookupIP).
pub mod Safe
pub mod Examples
use tronvent.Base.{
  ℕ, String, Bool, true, false, not, ◌&&◌, ◌||◌, Option, none, some, List, [], ◌∷◌, ◌==◌, str_eq,
  has_suffix, trim_space, if◌then◌else◌,
}

pub record Url : Type 0 where
  pub scheme : String
  pub host : String
  pub hostname : String

-- A netip.Addr, by what the code asks of it; the first two bytes are those of As4().
pub record Addr : Type 0 where
  pub is_valid : Bool
  pub is_loopback : Bool
  pub is_private : Bool
  pub is_link_local_unicast : Bool
  pub is_link_local_multicast : Bool
  pub is_unspecified : Bool
  pub is4 : Bool
  pub first_byte : ℕ
  pub second_byte : ℕ

-- What the resolver answers: `none` is an address that netip.AddrFromSlice refuses.
pub data Lookup : Type 0 where
  resolved : List (Option Addr) → Lookup
  no_such_host lookup_failed : Lookup

pub record Network : Type 0 where
  pub parse_url : String → Option Url
  pub parse_addr : String → Option Addr
  pub to_lower : String → String
  pub lookup : String → Lookup

pub record UrlPolicy : Type 0 where
  pub allow_http : Bool
  pub allow_private_hosts : Bool

pub data UrlError : Type 0 where
  url_required invalid_url not_absolute not_https localhost_url host_not_found host_lookup :
      UrlError
  no_addresses invalid_address private_address metadata_address : UrlError

abbrev pub is_retryable_url_error : UrlError → Bool
is_retryable_url_error host_lookup = true
is_retryable_url_error host_not_found = true
is_retryable_url_error url_required = false
is_retryable_url_error invalid_url = false
is_retryable_url_error not_absolute = false
is_retryable_url_error not_https = false
is_retryable_url_error localhost_url = false
is_retryable_url_error no_addresses = false
is_retryable_url_error invalid_address = false
is_retryable_url_error private_address = false
is_retryable_url_error metadata_address = false

-- `none` is nil.
unfoldable pub reject_private_addr : Addr → Option UrlError
reject_private_addr ip =
    if not ip.is_valid
    then some invalid_address
    else if ip.is_loopback || ip.is_private || ip.is_link_local_unicast
        || ip.is_link_local_multicast || ip.is_unspecified
    then some private_address
    else if ip.is4 && ip.first_byte == 169 && ip.second_byte == 254
    then some metadata_address
    else none

abbrev or_else : Option UrlError → Option UrlError → Option UrlError
or_else (some e) rest = some e
or_else none rest = rest

-- The loop over the addresses: the first error ends it.
unfoldable pub reject_any : List (Option Addr) → Option UrlError
reject_any [] = none
reject_any (none ∷ ips) = reject_any ips
reject_any (some ip ∷ ips) = or_else (reject_private_addr ip) (reject_any ips)

abbrev pub reject_lookup : Lookup → Option UrlError
reject_lookup no_such_host = some host_not_found
reject_lookup lookup_failed = some host_lookup
reject_lookup (resolved []) = some no_addresses
reject_lookup (resolved (ip ∷ ips)) = reject_any (ip ∷ ips)

abbrev pub reject_parsed : Option Addr → Lookup → Option UrlError
reject_parsed (some ip) found = reject_private_addr ip
reject_parsed none found = reject_lookup found

module _ (net : Network) where
  unfoldable pub reject_private_host : String → Option UrlError
  reject_private_host host = reject_parsed (net.parse_addr host) (net.lookup host)

  abbrev pub check_host : String → Option UrlError
  check_host host =
      if str_eq host "localhost" || has_suffix ".localhost" host
      then some localhost_url
      else reject_private_host host

  abbrev pub check_parsed : UrlPolicy → Option Url → Option UrlError
  check_parsed p none = some invalid_url
  check_parsed p (some u) =
      if str_eq u.scheme "" || str_eq u.host ""
      then some not_absolute
      else if not (str_eq (net.to_lower u.scheme) "https")
          && (not (str_eq (net.to_lower u.scheme) "http") || not p.allow_http)
      then some not_https
      else if not p.allow_private_hosts
      then check_host (net.to_lower u.hostname)
      else none

  unfoldable pub validate_webhook_url : UrlPolicy → String → Option UrlError
  validate_webhook_url p raw =
      if str_eq (trim_space raw) ""
      then some url_required
      else check_parsed p (net.parse_url (trim_space raw))
