-- ===== src/PluginApi/Runtime/Health.antt =====
-- packages/plugin-api/src/runtime/index.ts: `aggregateHealth`, and the outcome of the boot.
use appspine_packages.Base.{
  ℕ, ◌≡◌, refl, ◌∙◌, sym, ap, inl, inr, Bool, true, false, not, List, [], ◌∷◌, map, arith,
  if◌then◌else◌, any, Bool-cases, Text, Distinct,
}
use appspine_packages.PluginApi.Lifecycle.{PluginInstanceStatus, HostBootOutcome}
use appspine_packages.PluginApi.Runtime.{RuntimeInstance, CatalogEntry, Runner, new_runner}
use appspine_packages.PluginApi.Runtime.Boot.{HostCatalog, finished, boot}
use appspine_packages.PluginApi.Runtime.Verdicts.{
  is_failed, is_degraded, verdict_of, verdicts, outcome_spec,
}
use appspine_packages.Base.{is_empty, select, sorted, sorted-perm, length-eq_of_Perm, length}
use appspine_packages.PluginApi.Runtime.Entries.{runtime_keys}
use appspine_packages.PluginApi.Runtime.Booted.{boot_lem}

pub data HealthStatus : Type 0 where
  ready degraded failed : HealthStatus

pub record Health : Type 0 where
  pub status : HealthStatus
  pub degraded : List Text
  pub failed : List Text

-- `status === 'failed' || status === 'not-reached'`
abbrev pub is_down : PluginInstanceStatus → Bool
is_down PluginInstanceStatus.failed = true
is_down PluginInstanceStatus.not_reached = true
is_down _ = false

unfoldable pub aggregate_health : HostCatalog → Health
aggregate_health catalog =
    let degraded = sorted (map (λ e. e.key) (select (λ e. is_degraded e.status) catalog.entries)) in
    let failed = sorted (map (λ e. e.key) (select (λ e. is_down e.status) catalog.entries)) in
    record {
      status =
          if not (is_empty failed)
          then HealthStatus.failed
          else if not (is_empty degraded)
          then HealthStatus.degraded
          else HealthStatus.ready;
      degraded = degraded;
      failed = failed;
    }

-- The health that an outcome of the boot stands for.
unfoldable pub health_of_outcome : HostBootOutcome → HealthStatus
health_of_outcome HostBootOutcome.ready = HealthStatus.ready
health_of_outcome HostBootOutcome.degraded_ready = HealthStatus.degraded
health_of_outcome HostBootOutcome.boot_aborted = HealthStatus.failed

same_emptiness : (xs ys : List Text) → length xs ≡ length ys → is_empty xs ≡ is_empty ys
same_emptiness [] [] h = refl
same_emptiness [] (y ∷ ys) h = ground arith
same_emptiness (x ∷ xs) [] h = ground arith
same_emptiness (x ∷ xs) (y ∷ ys) h = refl

is_empty-sorted : (xs : List Text) → is_empty (sorted xs) ≡ is_empty xs
is_empty-sorted xs = same_emptiness (sorted xs) xs (length-eq_of_Perm (sorted-perm xs))

found-any :
    (p : PluginInstanceStatus → Bool) (entries : List CatalogEntry)
    → not (is_empty (map (λ e. e.key) (select (λ e. p e.status) entries)))
      ≡ any {A = Text × PluginInstanceStatus} (λ e. p e.1) (map (λ e. (e.key, e.status)) entries)
found-any p [] = refl
found-any p (e ∷ rest) = ground (arith, found-any p rest)

verdict_of-up :
    (budget : ℕ) (i : RuntimeInstance)
    → is_down (verdict_of budget i) ≡ is_failed (verdict_of budget i)
unfolding verdict_of
verdict_of-up budget i = ground arith

-- No instance is left unreached unless one before it failed.
any_down-verdicts :
    (budget : ℕ) (instances : List RuntimeInstance)
    → any {A = Text × PluginInstanceStatus} (λ e. is_down e.1) (verdicts budget false instances)
      ≡ any {A = Text × PluginInstanceStatus} (λ e. is_failed e.1) (verdicts budget false instances)
unfolding verdicts
any_down-verdicts budget [] = refl
any_down-verdicts budget (i ∷ rest) = elim (Bool-cases (is_failed (verdict_of budget i))) [
  | inl e ↦ rw (verdict_of-up budget i, e) refl
  | inr e ↦ rw (verdict_of-up budget i, e) (any_down-verdicts budget rest)
]

health_of_outcome-outcome_spec :
    (l : List (Text × PluginInstanceStatus))
    → health_of_outcome (outcome_spec l) ≡ (
        if any (λ e. is_failed e.1) l
        then HealthStatus.failed
        else if any (λ e. is_degraded e.1) l
        then HealthStatus.degraded
        else HealthStatus.ready)
unfolding health_of_outcome outcome_spec
health_of_outcome-outcome_spec l = elim (Bool-cases (any (λ e. is_failed e.1) l)) [
  | inl e ↦ rw e refl
  | inr e ↦ elim (Bool-cases (any (λ e. is_degraded e.1) l)) [
    | inl f ↦ rw (e, f) refl
    | inr f ↦ rw (e, f) refl
  ]
]

abbrev statuses_of : HostCatalog → List (Text × PluginInstanceStatus)
statuses_of catalog = map (λ e. (e.key, e.status)) catalog.entries

aggregate_status :
    (catalog : HostCatalog)
    → (aggregate_health catalog).status ≡ (
        if any (λ e. is_down e.1) (statuses_of catalog)
        then HealthStatus.failed
        else if any (λ e. is_degraded e.1) (statuses_of catalog)
        then HealthStatus.degraded
        else HealthStatus.ready)
unfolding aggregate_health
aggregate_status catalog =
    rw
      (
        is_empty-sorted (map (λ e. e.key) (select (λ e. is_down e.status) catalog.entries)),
        is_empty-sorted (map (λ e. e.key) (select (λ e. is_degraded e.status) catalog.entries)),
        found-any is_down catalog.entries,
        found-any is_degraded catalog.entries,
      )
      refl

-- The aggregated health of the catalog that the first boot of a runner returns is the one its outcome
-- stands for: failed if the boot was aborted, degraded if it was ready but degraded, ready otherwise.
-- The instances have different keys.
pub aggregate_health-boot :
    (now : ℕ → ℕ) (budget : ℕ) (instances : List RuntimeInstance)
    → Distinct (runtime_keys instances)
    → (catalog : HostCatalog) × (r : Runner) × (boot now budget (new_runner instances)
        ≡ finished catalog r)
      × ((aggregate_health catalog).status ≡ health_of_outcome catalog.outcome)
aggregate_health-boot now budget instances d =
    let (catalog, r, ran, listed, outcome, started, again) = boot_lem now budget instances d in
    (
      catalog,
      r,
      ran,
      aggregate_status catalog
          ∙ ap
              (λ l.
                if any (λ e. is_down e.1) l
                then HealthStatus.failed
                else if any (λ e. is_degraded e.1) l
                then HealthStatus.degraded
                else HealthStatus.ready)
              listed
          ∙ ap
              (λ b.
                if b
                then HealthStatus.failed
                else if any (λ e. is_degraded e.1) (verdicts budget false instances)
                then HealthStatus.degraded
                else HealthStatus.ready)
              (any_down-verdicts budget instances)
          ∙ sym (ap health_of_outcome outcome ∙ health_of_outcome-outcome_spec _),
    )
