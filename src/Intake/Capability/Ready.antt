-- ===== src/Intake/Capability/Ready.antt =====
-- When the universal intake is ready (clerksan/ingest/activation.py).
use clerk_san.Prelude.{
  Bool, In, List, Option, Option-cases, String, [], ap, arith, eq_iff, false, get_elem?, inl, inr,
  is_some, none, refl, some, sym, true, ℕ, ◌<◌, ◌∙◌, ◌∷◌, ◌≡◌, ◌≢◌, ◌≤◌,
}
use clerk_san.Models.{IntakeMode}
use clerk_san.Jobs.Row.{Job, Settings, Registry}
use clerk_san.Intake.Capability.{
  ActivationStatus, CapabilityLease, Leases, any_job, evaluate_universal_activation, is_blocking,
  judge, latest,
}

any_job-In :
    (test : Job → Bool) (jobs : List Job) (job : Job)
    → any_job test jobs ≡ false
    → In job jobs
    → test job ≡ false
unfolding any_job
any_job-In test [] job h m = absurd m
any_job-In test (x ∷ jobs) job h m = ground (arith, any_job-In test jobs job)

-- A lease that proves the registry current
pub record IsCurrent (registry : Registry) (now : ℕ) (lease : CapabilityLease) : Type 0 where
  pub live : now < lease.expires_at
  pub verified : lease.sandbox_verified ≡ true
  pub registry_digest : lease.registry_digest ≡ registry.registry_digest
  pub capabilities_digest : lease.capabilities_digest ≡ registry.capabilities_digest

module _ (id_ltb : String → String → Bool) where
  latest-In :
      (leases : Leases) (lease : CapabilityLease)
      → latest id_ltb leases ≡ some lease
      → In lease leases
  unfolding latest
  latest-In [] lease h = cc
  latest-In (x ∷ leases) lease h = elim (Option-cases (latest id_ltb leases)) [
    | inl e ↦ ground (arith, e)
    | inr (other, e) ↦ ground (arith, e, latest-In leases other e)
  ]

  latest-none :
      (leases : Leases) (other : CapabilityLease)
      → latest id_ltb leases ≡ none
      → In other leases
      → ⊥
  unfolding latest
  latest-none [] other h m = m
  latest-none (x ∷ leases) other h m = cc

  latest-beats :
      (leases : Leases) (lease other : CapabilityLease)
      → latest id_ltb leases ≡ some lease
      → In other leases
      → other.heartbeat_at ≤ lease.heartbeat_at
  unfolding latest
  latest-beats [] lease other h m = absurd m
  latest-beats (x ∷ leases) lease other h m = elim (Option-cases (latest id_ltb leases)) [
    | inl e ↦ ground (arith, e, latest-none leases other e)
    | inr (best, e) ↦ ground (arith, e, latest-beats leases best other e)
  ]

  -- The evidence behind a ready status of the universal mode
  pub record IsProven (jobs : List Job) (leases : Leases) (registry : Registry)
      (formats : List String) (now : ℕ) (status : ActivationStatus) : Type 0 where
    pub sandboxed : registry.sandbox_verified ≡ true
    pub processes : formats ≢ []
    pub drained : (job : Job) → In job jobs → is_blocking job ≡ false
    pub lease : CapabilityLease
    pub offered : status.lease ≡ some lease
    pub stored : In lease leases
    pub latest :
        (other : CapabilityLease) → In other leases → other.heartbeat_at ≤ lease.heartbeat_at
    pub current : IsCurrent registry now lease

  judge-ready :
      (o : Option CapabilityLease) (registry : Registry) (now : ℕ)
      → (judge id_ltb o registry now).ready ≡ true
      → (lease : CapabilityLease) × (o ≡ some lease)
        × ((judge id_ltb o registry now).lease ≡ some lease)
        × IsCurrent registry now lease
  unfolding judge
  judge-ready none registry now h = cc
  judge-ready (some lease) registry now h = (
    lease,
    refl,
    ground arith,
    record {
      live = ground arith;
      verified = ground arith;
      registry_digest = ground (arith, eq_iff lease.registry_digest registry.registry_digest);
      capabilities_digest =
          ground (arith, eq_iff lease.capabilities_digest registry.capabilities_digest);
    },
  )

  -- In the universal mode the intake is ready only where the registry is sandboxed and processes
  -- some format, no queued or running job is bound to another profile, and the worker lease with
  -- the latest heartbeat is alive, verified and of the registry's own digests.
  pub evaluate_universal_activation_lem :
      (jobs : List Job) (leases : Leases) (settings : Settings) (registry : Registry)
      (formats : List String) (now : ℕ)
      → settings.intake_mode ≡ IntakeMode.universal
      → (evaluate_universal_activation id_ltb jobs leases settings registry formats now).ready
        ≡ true
      → IsProven jobs leases registry formats now
          (evaluate_universal_activation id_ltb jobs leases settings registry formats now)
  unfolding evaluate_universal_activation
  evaluate_universal_activation_lem jobs leases settings registry formats now mode h =
      let sandboxed : registry.sandbox_verified ≡ true = ground arith in
      let processes : is_some (get_elem? formats 0) ≡ true = ground arith in
      let drained : any_job is_blocking jobs ≡ false = ground arith in
      let judged : evaluate_universal_activation id_ltb jobs leases settings registry formats now
          ≡ judge id_ltb (latest id_ltb leases) registry now =
        ground arith in
      let (lease, found, offered, current) =
        judge-ready (latest id_ltb leases) registry now
          (ap (λ (s : ActivationStatus). s.ready) (sym judged) ∙ h) in
      record {
        sandboxed = sandboxed;
        processes = λ e. cc;
        drained = λ job m. any_job-In is_blocking jobs job drained m;
        lease = lease;
        offered = ap (λ (s : ActivationStatus). s.lease) judged ∙ offered;
        stored = latest-In leases lease found;
        latest = λ other m. latest-beats leases lease other found m;
        current = current;
      }
