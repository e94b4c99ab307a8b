-- ===== src/IntegrationContracts/Samples.antt =====
-- A destination, a webhook that is signed and verified, and an answer to it.
use appspine_packages.Base.{
  if◌then◌else◌, ◌≡◌, refl, true, Option, some, List, [], ◌∷◌, any, ltb, Text, text, same, includes,
  split_on, cut, ok, arith,
}
use appspine_packages.IntegrationContracts.DestinationPolicy.{
  Url, DestinationPolicyOptions, SafeDestination, IpVersion, not_ip, ipv4, normalize_host,
  parse_destination_url, is_blocked_address, blocked_of, check_addresses, addresses_of,
  is_allowlisted, resolve_safe_destination,
}
use appspine_packages.IntegrationContracts.DestinationPolicy.Addresses.{
  to_lower, strip_dot, strip_brackets, is_blocked_ipv4_text, is_blocked_ipv4_value, ipv4_value,
  decimal_value, expand_ipv6, groups,
}
use appspine_packages.IntegrationContracts.DestinationPolicy.Ranges.{
  in_block, special_blocks, is_blocked_ipv4_value-in_block,
}
use appspine_packages.IntegrationContracts.DestinationPolicy.Safe.{
  IsSafe, resolve_safe_destination-IsSafe,
}

-- 169.254.169.254, the metadata service of clouds.
is_blocked_ipv4_value-in_block_example :
    is_blocked_ipv4_value 2852039166 ≡ any (in_block 2852039166) special_blocks
is_blocked_ipv4_value-in_block_example = is_blocked_ipv4_value-in_block 2852039166 (omega arith)

mapped_test :
    expand_ipv6 (text "::ffff:127.0.0.1") ≡ groups (0 ∷ 0 ∷ 0 ∷ 0 ∷ 0 ∷ 65535 ∷ 32512 ∷ 1 ∷ [])
unfolding expand_ipv6 text split_on cut decimal_value
mapped_test = refl

loopback_test : expand_ipv6 (text "0:0:0:0:0:0:0:1") ≡ groups (0 ∷ 0 ∷ 0 ∷ 0 ∷ 0 ∷ 0 ∷ 0 ∷ 1 ∷ [])
unfolding expand_ipv6 text split_on cut decimal_value
loopback_test = refl

abbrev url : Url
unfolding text
url = record {
  protocol = text "https:";
  hostname = text "hooks.example.com";
  username = [];
  password = [];
}

abbrev parse : Text → Option Url
parse t = some url

abbrev versions : Text → IpVersion
versions [] = not_ip
versions (c ∷ t) = if ltb c 58 then ipv4 else not_ip

abbrev lookup : Text → Option (List Text)
unfolding text
lookup host = some (text "93.184.216.34" ∷ [])

abbrev options : DestinationPolicyOptions
unfolding text
options = record { production = true; allowed_hosts = some (text "Hooks.Example.com." ∷ []) }

abbrev destination : SafeDestination
unfolding text
destination = record { url = url; addresses = text "93.184.216.34" ∷ [] }

resolved :
    resolve_safe_destination parse versions lookup (text "https://hooks.example.com/in") options
    ≡ ok destination
unfolding resolve_safe_destination parse_destination_url is_allowlisted addresses_of check_addresses
    is_blocked_address blocked_of normalize_host to_lower strip_dot strip_brackets
    is_blocked_ipv4_text is_blocked_ipv4_value ipv4_value decimal_value text same includes split_on
resolved = refl

resolve_safe_destination-IsSafe_example :
    IsSafe (is_blocked_address parse versions lookup) options destination
resolve_safe_destination-IsSafe_example =
    resolve_safe_destination-IsSafe parse versions lookup (text "https://hooks.example.com/in")
      options destination resolved
