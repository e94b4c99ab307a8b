-- ===== src/PluginCli/Lockfile/Drift.antt =====
-- packages/plugin-cli/src/lockfile.ts: when `compareLockfile` reports nothing.
use appspine_packages.Base.{
  ◌≡◌, true, Option, none, some, List, [], ◌∷◌, any, All, find, Text, same, or_else, if◌then◌else◌,
}
use appspine_packages.PluginCli.Lockfile.{LockedPackage, LockedArtifact, PluginLockfile}

-- The last of the packages with a name.
abbrev pub last_named : Text → List LockedPackage → Option LockedPackage
last_named name [] = none
last_named name (p ∷ ps) = or_else (last_named name ps) (if same p.name name then some p else none)

-- The lock holds the package at its version and with its digests.
pub record IsRecorded (lock : PluginLockfile) (e : LockedPackage) : Type 0 where
  pub recorded : LockedPackage
  pub found : last_named e.name lock.packages ≡ some recorded
  pub version : recorded.version ≡ e.version
  pub manifest : recorded.manifest_digest ≡ e.manifest_digest
  pub schema : recorded.schema_digest ≡ e.schema_digest

-- The lock holds the artifact with its digest.
pub record IsBuilt (lock : PluginLockfile) (artifact : LockedArtifact) : Type 0 where
  pub recorded : LockedArtifact
  pub found : find (λ candidate. same candidate.path artifact.path) lock.artifacts ≡ some recorded
  pub digest : recorded.digest ≡ artifact.digest

-- The lock describes what is installed: its packages and no others, the resolution, and every artifact.
pub record Describes (lock fresh : PluginLockfile) : Type 0 where
  pub packages : All (IsRecorded lock) fresh.packages
  pub no_others :
      All (λ e. any (λ candidate. same candidate.name e.name) fresh.packages ≡ true) lock.packages
  pub resolution : lock.resolution_digest ≡ fresh.resolution_digest
  pub artifacts : All (IsBuilt lock) fresh.artifacts
