-- ===== src/IntegrationContracts/DestinationPolicy/Safe.antt =====
-- packages/integration-contracts/src/destination-policy.ts: what `resolveSafeDestination` lets through.
use appspine_packages.Base.{
  ◌≡◌, ap, subst, ◌∙◌, Bool, true, false, ◌&&◌, ◌||◌, not, Option, List, [], ◌∷◌, arith, All,
  is_empty, get_or, Text, text, same, includes, Result, ok, >>=-eq-ok, >>-eq-ok, guard-eq-ok,
  need-eq-ok, ok-inj,
}
use appspine_packages.IntegrationContracts.DestinationPolicy.{
  Url, DestinationPolicyOptions, SafeDestination, IpVersion, DestinationError,
  parse_destination_url, is_blocked_address, check_addresses, addresses_of, is_allowlisted,
  resolve_safe_destination, allowlist_required, https_required, has_credentials, not_allowlisted,
  not_resolved,
}
use appspine_packages.IntegrationContracts.DestinationPolicy.Addresses.{to_lower, strip_dot}

-- What a destination that is returned is guaranteed.
pub record IsSafe (blocked : Text → Result DestinationError Bool)
    (options : DestinationPolicyOptions) (destination : SafeDestination) : Type 0 where
  pub web : includes (text "http:" ∷ text "https:" ∷ []) destination.url.protocol ≡ true
  pub no_credentials :
      (is_empty destination.url.username && is_empty destination.url.password) ≡ true
  pub listed :
      is_allowlisted options.allowed_hosts (strip_dot (to_lower destination.url.hostname)) ≡ true
  pub production :
      (not options.production
        || (same destination.url.protocol (text "https:")
            && not (is_empty (get_or options.allowed_hosts []))))
      ≡ true
  pub resolved : is_empty destination.addresses ≡ false
  pub open_addresses : All (λ address. blocked address ≡ ok false) destination.addresses

module _ (parse_url : Text → Option Url) (is_ip : Text → IpVersion)
    (lookup : Text → Option (List Text)) where
  parse_destination_url-web :
      (value : Text) (url : Url)
      → parse_destination_url parse_url is_ip lookup value ≡ ok url
      → includes (text "http:" ∷ text "https:" ∷ []) url.protocol ≡ true
  unfolding parse_destination_url
  parse_destination_url-web value url h =
      let (u, _, k) = need-eq-ok (parse_url value) _ _ h in
      let (web, l) = guard-eq-ok _ _ _ k in
      let (_, e) = guard-eq-ok _ _ _ l in
      subst (λ v. includes (text "http:" ∷ text "https:" ∷ []) v.protocol ≡ true) (ok-inj e) web

  check_addresses-open :
      (addresses : List Text)
      → check_addresses parse_url is_ip lookup addresses ≡ ok tt
      → All (λ address. is_blocked_address parse_url is_ip lookup address ≡ ok false) addresses
  unfolding check_addresses
  check_addresses-open [] h = tt
  check_addresses-open (address ∷ rest) h =
      let (blocked, e, k) = >>=-eq-ok (is_blocked_address parse_url is_ip lookup address) _ h in
      let (free, l) = guard-eq-ok (not blocked) _ (check_addresses parse_url is_ip lookup rest) k in
      (e ∙ ap ok (ground arith), check_addresses-open rest l)

  -- A destination that is returned is safe: its URL is HTTP or HTTPS, without credentials, of a host on
  -- the allowlist if there is one; in production it is HTTPS and there is a non-empty allowlist; the
  -- host has an address, and none of its addresses is blocked.
  pub resolve_safe_destination-IsSafe :
      (value : Text) (options : DestinationPolicyOptions) (destination : SafeDestination)
      → resolve_safe_destination parse_url is_ip lookup value options ≡ ok destination
      → IsSafe (is_blocked_address parse_url is_ip lookup) options destination
  unfolding resolve_safe_destination
  resolve_safe_destination-IsSafe value options destination h =
      let (url, parsed, a) = >>=-eq-ok (parse_destination_url parse_url is_ip lookup value) _ h in
      let host = strip_dot (to_lower url.hostname) in
      let hosts = get_or options.allowed_hosts [] in
      let secure = same url.protocol (text "https:") in
      let (some_hosts, b) =
        guard-eq-ok (not (options.production && is_empty hosts)) allowlist_required _ a in
      let (listed, c) =
        guard-eq-ok (is_allowlisted options.allowed_hosts host) (not_allowlisted host) _ b in
      let (https, d) = guard-eq-ok (not (options.production && not secure)) https_required _ c in
      let (bare, e) =
        guard-eq-ok (is_empty url.username && is_empty url.password) has_credentials _ d in
      let (addresses, found, f) = >>=-eq-ok (addresses_of parse_url is_ip lookup host) _ e in
      let (resolved, g) = guard-eq-ok (not (is_empty addresses)) (not_resolved host) _ f in
      let (checked, last) = >>-eq-ok (check_addresses parse_url is_ip lookup addresses) _ g in
      subst (IsSafe (is_blocked_address parse_url is_ip lookup) options) (ok-inj last) (record {
        web = parse_destination_url-web value url parsed;
        no_credentials = bare;
        listed = listed;
        production = ground (arith, some_hosts, https);
        resolved = ground (arith, resolved);
        open_addresses = check_addresses-open addresses checked;
      })
