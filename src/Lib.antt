-- ===== src/Lib.antt =====
-- Verification of the core of the appspine packages: how an App's plugins are wired together, started
-- and stopped (packages/plugin-api), how changes of its files and permissions are planned
-- (packages/plugin-cli), how domain events are delivered and received (packages/domain-events,
-- packages/integration-contracts), and who may do what on behalf of whom (packages/rbac,
-- packages/m2m-api-key, packages/mcp-server, packages/oidc-delegation).
--
-- The parts and how they interact:
--   * An inventory (packages/plugin-api/src/inventory.ts) lists the plugin instances of an App, and
--     each installed package has a manifest (manifest.ts). `resolvePlugins` (resolver/index.ts) joins
--     the two, checks them, and orders the instances; it returns a graph, or diagnostics
--     (diagnostics.ts). A digest of the graph (loader/canonicalize.ts, loader/digest.ts) identifies it.
--   * `PluginLifecycleRunner` (runtime/index.ts) takes the instances in the order of the graph, boots
--     them through the stages of lifecycle.ts and shuts them down in reverse.
--   * The command line (packages/plugin-cli/src) plans before it writes: `reconcilePermissions`
--     (permission-reconciler.ts) compares the permissions an App has with those its plugins declare;
--     plan.ts shows the difference of files and applies it; `compareLockfile` (lockfile.ts) compares the
--     lock that was committed with what is installed.
--   * `DomainEventDispatcherService` (packages/domain-events/src/domain-event-dispatcher.service.ts) runs
--     in each process of an App: a tick reclaims stale locks, claims deliveries that are due, and calls
--     their handlers. The processes meet only in the table of deliveries.
--   * A delivery to another App is a webhook (packages/integration-contracts/src): destination-policy.ts
--     says where it may go, webhook.ts signs and verifies it, delivery.ts reads the answer, and
--     `withIntegrationEventReceipt` (packages/domain-events/src/receipt.ts) lets it take effect once.
--   * Roles (packages/rbac/src) are managed by `RolesService` (roles/roles.service.ts) and flattened to a
--     caller's authorization by `buildUserContext` (user-context.util.ts), which `PermissionGuard`
--     (guards/permission.guard.ts) reads; `RbacPolicyService` (rbac-policy.service.ts) assigns them to users.
--   * An API key (packages/m2m-api-key/src) is created by `ApiKeysService`, becomes a principal in
--     `ApiKeyGuard` or `ApiKeyMachineStrategy`, is counted by `ApiKeyRateLimiter`, and is held to its scopes
--     by `ScopeGuard`; `McpToolRegistry` (packages/mcp-server/src) lists tools by the same scopes.
--   * `OidcDelegationService` (packages/oidc-delegation/src) exchanges a user's token under a policy of
--     `PolicyRegistry`, behind `OutboundThrottle`.
--
-- Which file models which part:
--   * Base and its children: lists, association lists for `Map` and plain objects (`Dict`, in the order of
--     insertion), JavaScript strings (`Text`, lists of UTF-16 code units, compared by code unit as `<`
--     does), code that throws (`Result`), stable sorting, integers.
--   * PluginApi.Inventory, Capabilities, Diagnostics, Manifest, Lifecycle: the files of those names.
--     PluginApi.Json: canonical JSON and its digest.
--   * PluginApi.Resolver.Records, Instances, Intake, Checks, Requirements, Contributions, Topology and
--     Graph: resolver/index.ts from top to bottom; `resolve_plugins` is `resolvePlugins`. A loop over a
--     list is a recursion over it, and the variables that it changes are its state. Keys, Providers,
--     Needs, Lookup, Wiring, Edges, Sound, Enabled, Exact, Shutdown, Exclusive and the children of Topology
--     hold the proofs.
--   * PluginApi.Runtime with Boot, Shutdown and Health: runtime/index.ts. A `Runner` holds the fields of
--     the class, and each method takes one and returns the next. Verdicts is an independent account of
--     what a boot should come to; Stages, Entries, Booted and Released hold the proofs.
--   * PluginCli.Permissions: the reconciler; Plans holds the proofs. PluginCli.Diff and ChangePlan: plan.ts;
--     a store of files stands for the App's root; Diff.Replay, Diff.Minimal and ChangePlan.Faithful hold
--     the proofs. PluginCli.Lockfile: `compareLockfile`; Lockfile.Current and Drift hold the proof.
--   * DomainEvents (the table and the errors), DomainEvents.Backoff (`retryDelayMs`) and
--     DomainEvents.Dispatcher (the other methods): a Prisma `updateMany` is a map over the rows. Workers
--     puts the steps of several processes in any order; Settled, Claims, Identity and Attempts hold the
--     proofs. DomainEvents.Receipt: receipt.ts, as the two steps between which other transactions may
--     commit; Receipt.Once puts them in any order.
--   * IntegrationContracts.DestinationPolicy with Addresses, Webhook and Delivery: the files of those
--     names. Ranges states the blocked addresses as CIDR blocks; Safe, Webhook.Authentic, Webhook.Signed and
--     Webhook.Binding hold the proofs.
--   * Rbac.Policy: the flattening of roles and the guard of permissions; Grants holds the proofs.
--     Rbac.Roles and Rbac.Assignments: the services on the tables of roles and assignments; Kept, Protected
--     and Assigned hold the proofs.
--   * M2mApiKey.RateLimiter, Scopes, ApiKeys and Guard: the rate limiter, the guard of scopes, the service
--     on the table of keys, and the guard and the strategy; Windows, Eviction, Scopes.Matching, Admission and
--     Validity hold the proofs. A database operation is a function on the table.
--   * McpServer.ToolRegistry and RequestState: the files of those names; ToolRegistry.Catalog holds proofs.
--   * OidcDelegation.Policies, Throttle and Exchange: the registry, the throttle with its rate limiter, and
--     the exchange, which returns the calls that it made beside its answer; Delegated holds the proofs.
--     InFlight splits the exchange where it awaits the provider, and lets several run at the same time;
--     Breaker holds the proof about them.
--   * The modules whose names end in Samples run the definitions on small examples.
--
-- Parameters: `sha256_hex`, `sha256_digest` and the fields of `Platform` are the hashes of node:crypto,
-- the size of a body and `Date.parse`; `now n` is the n-th reading of the runner's clock; what a hook
-- does is a `HookRun`, one for each stage of an instance: it settles after some milliseconds, or never.
-- How a call of an event handler ends, and what the lookup of an integration binding answers, are
-- arguments of the dispatcher's steps; both may never settle, and a tick then stays where it is. The URL parser, `isIP` and the lookup of a host are parameters of
-- the destination policy; the RBAC policy and the users are parameters of the guards of API keys, the
-- enumeration of permissions, which each App has in its schema, is one of the service of roles; the codec of
-- @modelcontextprotocol/server, the decoding of a token and what the token endpoint answers are
-- parameters of the rounds and of the exchange.
--
-- Bounds and fuel: `topologicalOrder` runs one round for each unit of fuel and starts with as many as
-- there are keys, since every round that goes on removes a key. Every other loop is structural, the walk
-- of `diffLines` in both files at once. Numbers are natural numbers without a bound, as the code counts
-- only list lengths, milliseconds and seconds; durations are integers, since a clock may go back. An IPv4
-- address is a number below 2 ^ 32, and its shifts and masks are divisions and remainders.
--
-- Not modelled: plain objects list keys that look like array indices before all others, so capability
-- names of that form are outside the model of the digest. The manifest's fields that neither the
-- resolver nor the runner reads stand only in `document`, its JSON. `config` and `redactedConfig` are
-- only handed through to the hooks and left out. Letters are put in lower and upper case as ASCII: hosts,
-- methods and header names hold no others. Exceptions of the canonical form for values outside JSON,
-- values of another type than the declared one, the loader, the validation of schemas, the command
-- line's reading of files, timers, logs, failures of the database, and the packages that bind plugins to
-- NestJS, to a database or to a user interface are not modelled.
pub mod Base
pub mod PluginApi
pub mod DomainEvents
pub mod PluginCli
pub mod Rbac
pub mod M2mApiKey
pub mod McpServer
pub mod IntegrationContracts
pub mod OidcDelegation
