-- ===== src/Tests/Record.antt =====
-- Recorded bills at concrete tables (clerksan/bills/service.py).
use clerk_san.Prelude.{Ensures, [], ltb, none, ok, refl, some, ℕ, ◌%◌, ◌+◌, ◌∷◌, ◌≡◌}
use clerk_san.Bills.Record.{
  BillArguments, Numbers, RecurringBill, Tables, approved, gas, number, record_verified_bill,
  superseded, text,
}
use clerk_san.Bills.Record.Periods.{IsValid}
use clerk_san.Bills.Record.Recorded.{
  IsRecorded, record_verified_bill-IsRecorded, record_verified_bill_again,
}

abbrev numbers : Numbers ℕ ℕ
numbers = record {
  day = λ date. date % 30 + 1;
  to_decimal = λ n. some n;
  is_positive = λ n. some (ltb 0 n);
}

-- A bill whose extraction was superseded, and a newer verified record of the same document
abbrev old_bill : RecurringBill ℕ ℕ
old_bill = record {
  id = 4;
  issuer_id = 3;
  document_id = 5;
  verified_record_id = 2;
  billing_period = 60;
  amount = 290;
  due_date = none;
  consumption_value = none;
  consumption_unit = none;
  reviewer = none;
  review_corrections = [];
  superseded_at = none;
}

abbrev old_tables : Tables ℕ ℕ
old_tables = record {
  verified_records =
      record { id = 1; document_id = 5; total_amount = 300; extraction_status = some approved }
      ∷ record { id = 2; document_id = 5; total_amount = 290; extraction_status = some superseded }
      ∷ [];
  issuers = record { id = 3; name = "Gas"; kind = gas } ∷ [];
  recurring_bills = old_bill ∷ [];
}

abbrev arguments : BillArguments ℕ
arguments = record {
  verified_record_id = 1;
  issuer_name = " Gas ";
  issuer_kind = text "gas";
  billing_period = 60;
  due_date = some 90;
  consumption_value = some (number 12);
  consumption_unit = some "m3 ";
  reviewer = none;
  review_corrections = [];
}

bill_recorded :
    (recorded : RecurringBill ℕ ℕ × Tables ℕ ℕ) × (record_verified_bill numbers arguments 7 8 1000
        old_tables
      ≡ ok recorded)
    × (recorded.0.amount ≡ 300)
    × (recorded.1.recurring_bills ≡ recorded.0 ∷ record old_bill { superseded_at = some 1000 } ∷ [])
unfolding record_verified_bill
bill_recorded = (_, refl, refl, refl)

old_tables-IsValid : IsValid numbers old_tables
old_tables-IsValid = record { periods = (tt, tt); sources = (tt, tt); names = (tt, tt) }

record_verified_bill-IsRecorded_example :
    Ensures
      (IsRecorded numbers arguments old_tables)
      (record_verified_bill numbers arguments 7 8 1000 old_tables)
record_verified_bill-IsRecorded_example =
    record_verified_bill-IsRecorded numbers arguments 7 8 1000 old_tables old_tables-IsValid

record_verified_bill_again_example :
    Ensures
      (λ recorded.
        (other_issuer other_bill later : ℕ)
        → record_verified_bill numbers arguments other_issuer other_bill later recorded.1
          ≡ ok recorded)
      (record_verified_bill numbers arguments 7 8 1000 old_tables)
record_verified_bill_again_example =
    record_verified_bill_again numbers arguments 7 8 1000 old_tables
