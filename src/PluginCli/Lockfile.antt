-- ===== src/PluginCli/Lockfile.antt =====
-- packages/plugin-cli/src/lockfile.ts: `compareLockfile`.
pub mod Current
pub mod Drift
use appspine_packages.Base.{
  String, Bool, true, false, ◌&&◌, not, Option, none, some, List, [], ◌∷◌, ◌++◌, map, flat_map,
  if◌then◌else◌, any, find, Text, text, say, same, Dict, get, put,
}
use appspine_packages.PluginApi.Diagnostics.{PluginDiagnostic, diagnostic}

-- The fields that are compared.
pub record LockedPackage : Type 0 where
  pub name : Text
  pub version : Text
  pub manifest_digest : Text
  pub schema_digest : Option Text

pub record LockedArtifact : Type 0 where
  pub path : Text
  pub digest : Text

pub record PluginLockfile : Type 0 where
  pub resolution_digest : Text
  pub packages : List LockedPackage
  pub artifacts : List LockedArtifact

abbrev pub lockfile_name : Text
unfolding text
lockfile_name = text "appspine.plugin-lock.json"

unfoldable pub drift : String → List Text → String → PluginDiagnostic
drift code message part = diagnostic (text code) (say message) (record {
  plugin_id = none;
  instance_id = none;
  path = some (lockfile_name ++ text part);
  severity = none;
})

-- `===` on digests that may be null.
abbrev pub same_digest : Option Text → Option Text → Bool
same_digest none none = true
same_digest (some a) (some b) = same a b
same_digest _ _ = false

index_from : Dict LockedPackage → List LockedPackage → Dict LockedPackage
index_from seen [] = seen
index_from seen (e ∷ rest) = index_from (put e.name e seen) rest

-- `new Map(onDisk.packages.map((entry) => [entry.name, entry]))`; `Map.set` keeps a key's place and
-- takes the last value.
unfoldable pub packages_before : PluginLockfile → Dict LockedPackage
unfolding index_from
packages_before lock = index_from [] lock.packages

-- The body of the first loop.
unfoldable pub package_drift : Option LockedPackage → LockedPackage → List PluginDiagnostic
package_drift none e =
    drift "plugin-lock-package-added" (e.name ∷ text " is installed but not in the lock" ∷ [])
      "#packages"
    ∷ []
package_drift (some previous) e =
    if not (same previous.version e.version)
    then drift "plugin-lock-version-drift"
        (e.name
          ∷ text " is installed at "
          ∷ e.version
          ∷ text " but the lock records "
          ∷ previous.version
          ∷ text
              ". The package manager ran without `appspine build`, so the reviewed capability graph describes the previous version"
          ∷ [])
        "#packages"
      ∷ []
    else (if same previous.manifest_digest e.manifest_digest
        then []
        else drift "plugin-lock-manifest-tampered"
            (e.name
              ∷ text "@"
              ∷ e.version
              ∷ text
                  " has a different manifest than the lock recorded for the same version. The installed package was modified after it was locked"
              ∷ [])
            "#packages"
          ∷ [])
      ++ (if same_digest previous.schema_digest e.schema_digest
          then []
          else drift "plugin-lock-schema-drift"
              (e.name
                ∷ text "@"
                ∷ e.version
                ∷ text " ships a different Prisma fragment than the lock recorded"
                ∷ [])
              "#packages"
            ∷ [])

unfoldable pub removed_drift : List LockedPackage → LockedPackage → List PluginDiagnostic
removed_drift fresh e =
    if any (λ candidate. same candidate.name e.name) fresh
    then []
    else drift "plugin-lock-package-removed"
        (e.name ∷ text " is in the lock but no longer referenced by the inventory" ∷ []) "#packages"
      ∷ []

abbrev pub is_current_artifact : LockedArtifact → Option LockedArtifact → Bool
is_current_artifact artifact none = false
is_current_artifact artifact (some previous) = same previous.digest artifact.digest

unfoldable pub artifact_drift : List LockedArtifact → LockedArtifact → List PluginDiagnostic
artifact_drift locked artifact =
    if is_current_artifact artifact (find (λ candidate. same candidate.path artifact.path) locked)
    then []
    else drift "plugin-lock-artifact-drift"
        (artifact.path ∷ text " does not match the digest recorded in the lock" ∷ []) "#artifacts"
      ∷ []

unfoldable pub resolution_drift : PluginLockfile → PluginLockfile → List PluginDiagnostic
resolution_drift lock fresh =
    if same lock.resolution_digest fresh.resolution_digest
    then []
    else drift "plugin-lock-resolution-drift"
        (text
            "the resolved capability graph differs from the one in the lock. Run `appspine build` and review the diff"
          ∷ [])
        "#resolutionDigest"
      ∷ []

-- `compareLockfile`
unfoldable pub compare_lockfile : Option PluginLockfile → PluginLockfile → List PluginDiagnostic
compare_lockfile none fresh =
    drift "plugin-lock-missing"
      (lockfile_name
        ∷ text " is missing or unreadable. Run `appspine build` and commit the result"
        ∷ [])
      ""
    ∷ []
compare_lockfile (some lock) fresh =
    flat_map (λ e. package_drift (get e.name (packages_before lock)) e) fresh.packages
    ++ (flat_map (removed_drift fresh.packages) lock.packages
        ++ (resolution_drift lock fresh
            ++ flat_map (artifact_drift lock.artifacts) fresh.artifacts))
