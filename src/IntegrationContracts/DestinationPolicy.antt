-- ===== src/IntegrationContracts/DestinationPolicy.antt =====
-- packages/integration-contracts/src/destination-policy.ts: to which addresses a webhook may be sent.
-- Hosts and addresses are ASCII, and `isIP` has accepted an address before its parts are read, so
-- letters are put in lower case as ASCII and a group of an IPv6 address holds hexadecimal digits only.
pub mod Addresses
pub mod Ranges
pub mod Safe
use appspine_packages.Base.{
  ℕ, Bool, true, false, ◌&&◌, ◌||◌, not, Option, none, some, List, [], ◌∷◌, if◌then◌else◌, any,
  is_empty, get_or, Text, text, same, includes, Result, ok, err, ◌>>=◌, ◌>>◌, guard, need,
}
use appspine_packages.IntegrationContracts.DestinationPolicy.Addresses.{
  to_lower, strip_brackets, strip_dot, is_blocked_groups, is_blocked_ipv4_text, expand_ipv6,
  Expansion, groups, undefined, range_error,
}

-- The fields of a `URL` that the code reads.
pub record Url : Type 0 where
  pub protocol : Text
  pub hostname : Text
  pub username : Text
  pub password : Text

pub record DestinationPolicyOptions : Type 0 where
  pub production : Bool
  pub allowed_hosts : Option (List Text)

pub record SafeDestination : Type 0 where
  pub url : Url
  pub addresses : List Text

-- The answers 0, 4 and 6 of `isIP`.
pub data IpVersion : Type 0 where
  not_ip ipv4 ipv6 : IpVersion

pub data DestinationError : Type 0 where
  invalid_url not_http no_hostname allowlist_required https_required has_credentials :
      DestinationError
  lookup_failed invalid_array_length : DestinationError
  not_allowlisted not_resolved blocked_address : Text → DestinationError

unfoldable pub normalize_host : Text → Text
normalize_host value = strip_dot (strip_brackets (to_lower value))

unfoldable pub is_allowlisted : Option (List Text) → Text → Bool
is_allowlisted none host = true
is_allowlisted (some allowed) host = any (λ a. same (normalize_host a) host) allowed

-- The URL parser and `isIP` of the platform, and the lookup of a host's addresses.
module _ (parse_url : Text → Option Url) (is_ip : Text → IpVersion)
    (lookup : Text → Option (List Text)) where
  unfoldable pub parse_destination_url : Text → Result DestinationError Url
  parse_destination_url value = do
    url ← need (parse_url value) invalid_url
    guard (includes (text "http:" ∷ text "https:" ∷ []) url.protocol) not_http
    guard (not (is_empty url.hostname)) no_hostname
    ok url

  -- The verdict on the groups of an IPv6 address.
  unfoldable pub blocked_expansion : Expansion → Result DestinationError Bool
  blocked_expansion range_error = err invalid_array_length
  blocked_expansion undefined = ok true
  blocked_expansion (groups gs) = ok (is_blocked_groups gs)

  unfoldable pub blocked_of : IpVersion → Text → Result DestinationError Bool
  unfolding blocked_expansion
  blocked_of ipv4 normalized = ok (is_blocked_ipv4_text normalized)
  blocked_of ipv6 normalized = blocked_expansion (expand_ipv6 normalized)
  blocked_of not_ip normalized = ok true

  unfoldable pub is_blocked_address : Text → Result DestinationError Bool
  unfolding blocked_of
  is_blocked_address address =
      let normalized = strip_brackets (to_lower address) in blocked_of (is_ip normalized) normalized

  -- The loop over the addresses.
  unfoldable pub check_addresses : List Text → Result DestinationError (Unit {0})
  check_addresses [] = ok tt
  check_addresses (address ∷ rest) = do
    blocked ← is_blocked_address address
    guard (not blocked) (blocked_address address)
    check_addresses rest

  unfoldable pub addresses_of : Text → Result DestinationError (List Text)
  addresses_of host = elim (is_ip host) [
    | not_ip ↦ need (lookup host) lookup_failed
    | _ ↦ ok (host ∷ [])
  ]

  unfoldable pub resolve_safe_destination :
      Text → DestinationPolicyOptions → Result DestinationError SafeDestination
  resolve_safe_destination value options = do
    url ← parse_destination_url value
    let host = strip_dot (to_lower url.hostname)
    guard (not (options.production && is_empty (get_or options.allowed_hosts [])))
        allowlist_required
    guard (is_allowlisted options.allowed_hosts host) (not_allowlisted host)
    guard (not (options.production && not (same url.protocol (text "https:")))) https_required
    guard (is_empty url.username && is_empty url.password) has_credentials
    addresses ← addresses_of host
    guard (not (is_empty addresses)) (not_resolved host)
    check_addresses addresses
    ok (record { url = url; addresses = addresses })
