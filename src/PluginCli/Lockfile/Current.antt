-- ===== src/PluginCli/Lockfile/Current.antt =====
-- packages/plugin-cli/src/lockfile.ts: the tests of `compareLockfile` without its reports.
use appspine_packages.Base.{
  ◌≡◌, refl, Bool, false, ◌&&◌, Option, none, some, List, [], ◌∷◌, ◌++◌, flat_map, arith, any, all,
  find, is_empty, same, get,
}
use appspine_packages.PluginApi.Diagnostics.{PluginDiagnostic}
use appspine_packages.PluginCli.Lockfile.{
  LockedPackage, PluginLockfile, same_digest, packages_before, package_drift, removed_drift,
  is_current_artifact, artifact_drift, resolution_drift, compare_lockfile,
}

abbrev pub is_current_package : LockedPackage → Option LockedPackage → Bool
is_current_package e none = false
is_current_package e (some previous) =
    same previous.version e.version
    && (same previous.manifest_digest e.manifest_digest
        && same_digest previous.schema_digest e.schema_digest)

-- The comparison's tests, without its reports.
abbrev pub is_current : Option PluginLockfile → PluginLockfile → Bool
is_current none fresh = false
is_current (some lock) fresh =
    all (λ e. is_current_package e (get e.name (packages_before lock))) fresh.packages
    && (all (λ e. any (λ candidate. same candidate.name e.name) fresh.packages) lock.packages
        && (same lock.resolution_digest fresh.resolution_digest
            && all
                (λ artifact.
                  is_current_artifact artifact
                    (find (λ candidate. same candidate.path artifact.path) lock.artifacts))
                fresh.artifacts))

is_empty-append {ℓ} :
    {A : Type ℓ} (xs ys : List A) → is_empty (xs ++ ys) ≡ (is_empty xs && is_empty ys)
is_empty-append [] ys = refl
is_empty-append (x ∷ xs) ys = refl

is_empty-flat_map {ℓ} :
    {A : Type ℓ} (f : A → List PluginDiagnostic) (p : A → Bool) (xs : List A)
    → ((x : A) → is_empty (f x) ≡ p x)
    → is_empty (flat_map f xs) ≡ all p xs
is_empty-flat_map f p [] h = refl
is_empty-flat_map f p (x ∷ xs) h =
    ground (arith, is_empty-append (f x) (flat_map f xs), h x, is_empty-flat_map f p xs h)

package_drift-current :
    (found : Option LockedPackage) (e : LockedPackage)
    → is_empty (package_drift found e) ≡ is_current_package e found
unfolding package_drift
package_drift-current none e = refl
package_drift-current (some previous) e = ground arith

pub compare_lockfile-current :
    (lock : Option PluginLockfile) (fresh : PluginLockfile)
    → is_empty (compare_lockfile lock fresh) ≡ is_current lock fresh
unfolding compare_lockfile removed_drift artifact_drift resolution_drift
compare_lockfile-current none fresh = refl
compare_lockfile-current (some lock) fresh =
    let installed =
      flat_map (λ e. package_drift (get e.name (packages_before lock)) e) fresh.packages in
    let removed = flat_map (removed_drift fresh.packages) lock.packages in
    let resolved = resolution_drift lock fresh in
    let built = flat_map (artifact_drift lock.artifacts) fresh.artifacts in
    ground (
      arith,
      is_empty-append installed (removed ++ (resolved ++ built)),
      is_empty-append removed (resolved ++ built),
      is_empty-append resolved built,
      is_empty-flat_map (λ e. package_drift (get e.name (packages_before lock)) e) _ fresh.packages
          (λ e. package_drift-current (get e.name (packages_before lock)) e),
      is_empty-flat_map (removed_drift fresh.packages)
          (λ e. any (λ candidate. same candidate.name e.name) fresh.packages) lock.packages
          (λ e. ground arith),
      is_empty-flat_map (artifact_drift lock.artifacts)
          (λ artifact.
            is_current_artifact artifact
              (find (λ candidate. same candidate.path artifact.path) lock.artifacts))
          fresh.artifacts (λ artifact. ground arith),
    )
