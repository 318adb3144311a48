-- ===== src/Tests/Policy.antt =====
-- Decisions of clerksan/ingest/policy.py on concrete sources.
use clerk_san.Prelude.{[], none, ok, refl, ◌∷◌, ◌≡◌}
use clerk_san.Models.{IntentArgument}
use clerk_san.Policy.Reasons.{processing_queued}
use clerk_san.Policy.Decide.{
  DetectedFormat, decide_intake, processed_by, evidence_rejection, family_rejection,
}
use clerk_san.Policy.Safety.{IsDecided, decide_intake_lem}

abbrev scan : DetectedFormat
scan = record {
  family = "document";
  format = "pdf";
  canonical_mime = "application/pdf";
  charset = none;
  evidence = [];
}

scan_processed :
    decide_intake scan ("pdf" ∷ []) none none (IntentArgument.named "bill_scan")
    ≡ ok (processed_by processing_queued "pdf")
unfolding decide_intake evidence_rejection family_rejection
scan_processed = refl

decide_intake_lem_example :
    IsDecided scan
      ("pdf" ∷ [])
      none
      (IntentArgument.named "bill_scan")
      (processed_by processing_queued "pdf")
decide_intake_lem_example =
    decide_intake_lem scan ("pdf" ∷ []) none none (IntentArgument.named "bill_scan")
      (processed_by processing_queued "pdf") scan_processed
