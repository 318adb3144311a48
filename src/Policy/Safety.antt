-- ===== src/Policy/Safety.antt =====
-- What `decide_intake` (clerksan/ingest/policy.py) never does.
use clerk_san.Prelude.{
  >>=-eq-ok, Bool, Bool-cases, List, Option, Option-cases, String, [], arith, false, if◌then◌else◌,
  inl, inr, is_some, none, ok, ok_injective, refl, some, str_eq, subst, true, ◌&&◌, ◌||◌, ◌∷◌, ◌≡◌,
}
use clerk_san.Models.{IntakeIntent, IntentArgument}
use clerk_san.Policy.Reasons.{
  PublicReasonCode, generic_candidate_deferred, inspection_ambiguous, intake_intent_mismatch,
  is_policy_rejection, mapping_required, processing_queued, reason_is_retryable, reason_of,
}
use clerk_san.Policy.Decide.{
  DetectedFormat, IntakeDecision, among, decide_for_intent, decide_intake, dispatch,
  evidence_rejection, family_rejection, is_bill_scan, is_bill_scan_format, is_generic_file,
  is_tabular_format, normalize_intake_intent, or_else, process, processed_by, reject, rejected,
  rejection_of, remove_prefix, store_unprocessed, stored, structural_rejection, unprocessed_reason,
  or_empty,
}

-- An adapter is named for a source that is processed and for no other; a rejection is explained by
-- a policy reason, a stored source by a reason that can be retried; the decision's retry flag is
-- the reason's where the source is not processed, and down where it is.
pub record IsCoherent (d : IntakeDecision) : Type 0 where
  pub processed : d.action ≡ process → (is_some d.adapter_key ≡ true) × (d.retryable ≡ false)
  pub unprocessed :
      d.action ≡ store_unprocessed
      → (d.adapter_key ≡ none)
        × (is_policy_rejection d.reason_code ≡ false)
        × (reason_is_retryable d.reason_code ≡ true)
        × (d.retryable ≡ true)
  pub refused :
      d.action ≡ reject
      → (d.adapter_key ≡ none)
        × (is_policy_rejection d.reason_code ≡ true)
        × (d.retryable ≡ reason_is_retryable d.reason_code)

-- What a decision may be, given the source and the formats that have an adapter.
pub record IsPermitted (detected : DetectedFormat) (formats : List String) (intent : IntakeIntent)
    (d : IntakeDecision) : Type 0 where
  pub coherent : IsCoherent d
  pub adapted :
      d.action ≡ process
      → (among detected.format formats || is_generic_file intent && is_tabular_format detected)
        ≡ true
  pub contained :
      str_eq detected.family "container" ≡ true
      → among detected.format formats ≡ false
      → d.action ≡ reject
  pub matched :
      is_bill_scan intent ≡ true → is_bill_scan_format detected ≡ false → d.action ≡ reject

-- The reason that closes the case before the intent is read
abbrev pub early_reason : DetectedFormat → Option PublicReasonCode → Option PublicReasonCode
early_reason detected (some violation) = some violation
early_reason detected none = structural_rejection detected

pub record IsDecided (detected : DetectedFormat) (formats : List String)
    (violation : Option PublicReasonCode) (argument : IntentArgument) (d : IntakeDecision)
    : Type 0 where
  pub coherent : IsCoherent d
  pub closed :
      (reason : PublicReasonCode)
      → early_reason detected violation ≡ some reason
      → (d.action ≡ reject) × (d.reason_code ≡ reason)
  pub read :
      early_reason detected violation ≡ none
      → (intent : IntakeIntent) × (normalize_intake_intent argument ≡ ok intent)
        × IsPermitted detected formats intent d

-- Both branches have the property, so the conditional has it.
if_closed :
    (P : IntakeDecision → Type 0) (b : Bool) {x y : IntakeDecision}
    → P x
    → P y
    → P (if b then x else y)
if_closed P true h k = h
if_closed P false h k = k

rejected-IsCoherent :
    (reason : PublicReasonCode) → is_policy_rejection reason ≡ true → IsCoherent (rejected reason)
rejected-IsCoherent reason h = record {
  processed = λ e. cc;
  unprocessed = λ e. cc;
  refused = λ e. (refl, h, refl);
}

stored-IsCoherent :
    (reason : PublicReasonCode)
    → is_policy_rejection reason ≡ false
    → reason_is_retryable reason ≡ true
    → IsCoherent (stored reason)
stored-IsCoherent reason h k = record {
  processed = λ e. cc;
  unprocessed = λ e. (refl, h, k, k);
  refused = λ e. cc;
}

processed_by-IsCoherent :
    (reason : PublicReasonCode) (key : String) → IsCoherent (processed_by reason key)
processed_by-IsCoherent reason key = record {
  processed = λ e. (refl, refl);
  unprocessed = λ e. cc;
  refused = λ e. cc;
}

unprocessed_reason-IsCoherent :
    (detected : DetectedFormat) → IsCoherent (stored (unprocessed_reason detected))
unfolding unprocessed_reason
unprocessed_reason-IsCoherent detected = stored-IsCoherent _ (ground arith) (ground arith)

decide_for_intent-IsCoherent :
    (detected : DetectedFormat) (formats : List String) (keys : List (String × String))
    (intent : IntakeIntent)
    → IsCoherent (decide_for_intent detected formats keys intent)
unfolding decide_for_intent dispatch
decide_for_intent-IsCoherent detected formats keys intent =
    if_closed IsCoherent _ (rejected-IsCoherent intake_intent_mismatch refl) (
      if_closed IsCoherent _ (rejected-IsCoherent inspection_ambiguous refl) (
        if_closed IsCoherent _ (processed_by-IsCoherent mapping_required _) (
          if_closed IsCoherent _ (stored-IsCoherent generic_candidate_deferred refl refl) (
            if_closed IsCoherent _ (processed_by-IsCoherent processing_queued _)
              (unprocessed_reason-IsCoherent detected)))))

decide_for_intent-IsPermitted :
    (detected : DetectedFormat) (formats : List String) (keys : List (String × String))
    (intent : IntakeIntent)
    → IsPermitted detected formats intent (decide_for_intent detected formats keys intent)
unfolding decide_for_intent dispatch unprocessed_reason
decide_for_intent-IsPermitted detected formats keys intent = record {
  coherent = decide_for_intent-IsCoherent detected formats keys intent;
  adapted = ground arith;
  contained = ground arith;
  matched = ground arith;
}

-- Where there is a reason, it is a policy rejection.
pub IsRefusal : Option PublicReasonCode → Type 0
IsRefusal o = (reason : PublicReasonCode) → o ≡ some reason → is_policy_rejection reason ≡ true

or_else-IsRefusal :
    (o rest : Option PublicReasonCode) → IsRefusal o → IsRefusal rest → IsRefusal (or_else o rest)
or_else-IsRefusal none rest h k = k
or_else-IsRefusal (some reason) rest h k = h

rejection_of-IsRefusal : (o : Option PublicReasonCode) → IsRefusal (rejection_of o)
unfolding IsRefusal
rejection_of-IsRefusal none reason h = cc
rejection_of-IsRefusal (some found) reason h = ground arith

evidence_rejection-IsRefusal : (evidence : List String) → IsRefusal (evidence_rejection evidence)
unfolding evidence_rejection
evidence_rejection-IsRefusal [] = unfold IsRefusal in λ reason h. cc
evidence_rejection-IsRefusal (item ∷ items) =
    or_else-IsRefusal (rejection_of (reason_of (remove_prefix "risk:" item)))
      (evidence_rejection items) (rejection_of-IsRefusal (reason_of (remove_prefix "risk:" item)))
      (evidence_rejection-IsRefusal items)

family_rejection-IsRefusal : (family : String) → IsRefusal (family_rejection family)
unfolding family_rejection IsRefusal
family_rejection-IsRefusal family reason h = ground arith

structural_rejection-IsRefusal :
    (detected : DetectedFormat) → IsRefusal (structural_rejection detected)
unfolding structural_rejection
structural_rejection-IsRefusal detected =
    or_else-IsRefusal (evidence_rejection detected.evidence) (family_rejection detected.family)
      (evidence_rejection-IsRefusal detected.evidence) (family_rejection-IsRefusal detected.family)

rejected-IsDecided :
    (detected : DetectedFormat) (formats : List String) (violation : Option PublicReasonCode)
    (argument : IntentArgument) (reason : PublicReasonCode)
    → early_reason detected violation ≡ some reason
    → is_policy_rejection reason ≡ true
    → IsDecided detected formats violation argument (rejected reason)
rejected-IsDecided detected formats violation argument reason e h = record {
  coherent = rejected-IsCoherent reason h;
  closed = λ other f. (refl, cc);
  read = λ f. cc;
}

-- Of the decisions returned: each is coherent; under a violation, or when the evidence or the
-- family gives a rejection, it rejects the source with that very reason; and otherwise the intent
-- was readable and the decision is permitted by it: only a source with an adapter, or a table
-- offered as a generic file, is processed, a container without an adapter is rejected, and so is
-- any but an image or a PDF offered as a bill scan.
pub decide_intake_lem :
    (detected : DetectedFormat) (formats : List String) (keys : Option (List (String × String)))
    (violation : Option PublicReasonCode) (argument : IntentArgument) (d : IntakeDecision)
    → decide_intake detected formats keys violation argument ≡ ok d
    → IsDecided detected formats violation argument d
unfolding decide_intake
decide_intake_lem detected formats keys none argument d h =
    elim (Option-cases (structural_rejection detected)) [
      | inl e ↦
          let (intent, readable, g) =
            >>=-eq-ok (normalize_intake_intent argument)
              (λ intent. ok (decide_for_intent detected formats (or_empty keys) intent))
              (rw (decide_intake, e) at h) in
          subst (IsDecided detected formats none argument) (ok_injective g) record {
            coherent = decide_for_intent-IsCoherent detected formats (or_empty keys) intent;
            closed = λ other f. cc;
            read = λ f. (
              intent,
              readable,
              decide_for_intent-IsPermitted detected formats (or_empty keys) intent,
            );
          }
      | inr (reason, e) ↦
          subst (IsDecided detected formats none argument)
            (ok_injective (rw (decide_intake, e) at h))
            (rejected-IsDecided detected formats none argument reason e
              (unfold IsRefusal in structural_rejection-IsRefusal detected reason e))
    ]
decide_intake_lem detected formats keys (some reason) argument d h =
    elim (Bool-cases (is_policy_rejection reason)) [
      | inl e ↦
          subst (IsDecided detected formats (some reason) argument)
            (ok_injective (rw (decide_intake, e) at h))
            (rejected-IsDecided detected formats (some reason) argument reason refl e)
      | inr e ↦ ground arith
    ]
