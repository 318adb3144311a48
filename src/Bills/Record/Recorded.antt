-- ===== src/Bills/Record/Recorded.antt =====
-- A verified record is recorded once (clerksan/bills/service.py).
use clerk_san.Prelude.{
  All, Bool, Bool-cases, Ensures, Ensures-bind, Ensures-ok, In, List, Option, Option-cases, [], ap,
  arith, false, inl, inr, none, ok, refl, require, some, subst, sym, true, ℕ, ◌==◌, ◌∙◌, ◌∷◌, ◌≡◌,
}
use clerk_san.Bills.Record.{
  BillArguments, BillError, Checked, Numbers, RecurringBill, Tables, VerifiedRecord,
  bill_validation_error, check_arguments, cleaned, first_row, given, insert_bill, new_bill,
  not_blank, only_fields, record_verified_bill, release_period, resolve_issuer,
}
use clerk_san.Bills.Record.Periods.{
  IsValid, first_row-none, first_row-some, release_period-Released, resolve_issuer-AreDistinct,
}

first_row-In :
    {A : Type 0} (p : A → Bool) (rows : List A) (row : A)
    → first_row p rows ≡ some row
    → In row rows
first_row-In p [] row e = absurd (cc)
first_row-In p (head ∷ rows) row e = elim (Bool-cases (p head)) [
  | inl t ↦ let found : some head ≡ some row = rw t at e in inl (cc)
  | inr f ↦ inr (first_row-In p rows row (rw f at e))
]

given-some : {A : Type 0} (o : Option A) (e : BillError) (a : A) → given o e ≡ ok a → o ≡ some a
given-some none e a h = absurd (cc)
given-some (some b) e a h = cc

module _ {Decimal Object : Type 0} (numbers : Numbers Decimal Object) where
  -- What a recorded bill says of its source
  pub record IsRecorded (arguments : BillArguments Object) (tables : Tables Decimal Object)
      (recorded : RecurringBill Decimal Object × Tables Decimal Object) : Type 0 where
    pub valid : IsValid numbers recorded.1
    pub stored : In recorded.0 recorded.1.recurring_bills
    pub source : recorded.0.verified_record_id ≡ arguments.verified_record_id
    pub unchanged : recorded.1.verified_records ≡ tables.verified_records

  insert_bill-IsRecorded :
      (arguments : BillArguments Object) (checked : Checked Decimal)
      (verified : VerifiedRecord Decimal) (fresh_issuer fresh_bill now : ℕ)
      (tables : Tables Decimal Object)
      → IsValid numbers tables
      → verified.id ≡ arguments.verified_record_id
      → All
          (λ bill. (bill.verified_record_id == arguments.verified_record_id) ≡ false)
          tables.recurring_bills
      → Ensures
          (IsRecorded arguments tables)
          (insert_bill numbers arguments checked verified fresh_issuer fresh_bill now tables)
  unfolding insert_bill new_bill
  insert_bill-IsRecorded arguments checked verified fresh_issuer fresh_bill now tables h same
        unused =
      Ensures-bind
        (require (only_fields numbers arguments.review_corrections) bill_validation_error) _
        λ a _.
          Ensures-bind
            (require (not_blank numbers (cleaned numbers arguments.reviewer)) bill_validation_error)
            _
            λ b _.
              Ensures-bind
                (resolve_issuer numbers checked.clean_name checked.kind fresh_issuer tables.issuers)
                _
                λ resolved r.
                  Ensures-bind
                    (release_period numbers resolved.0.id arguments.billing_period verified now
                      tables)
                    _
                    λ bills e.
                      let free =
                        (release_period-Released numbers resolved.0.id arguments.billing_period
                            verified now tables h).at
                          bills e in
                      let issuers =
                        (resolve_issuer-AreDistinct numbers checked.clean_name checked.kind
                            fresh_issuer tables.issuers h.names).at
                          resolved r in
                      Ensures-ok _ record {
                        valid = record {
                          periods = (free.2, free.0);
                          sources = (
                            subst
                                (λ id. All (λ bill. (bill.verified_record_id == id) ≡ false) bills)
                                (sym same) (free.3 arguments.verified_record_id unused),
                            free.1,
                          );
                          names = issuers;
                        };
                        stored = inl refl;
                        source = same;
                        unchanged = refl;
                      }

  -- A bill that is recorded leaves at most one active bill for an issuer and a period, at most one bill
  -- for a verified record and at most one issuer for a name, where this held before; the bill that is
  -- returned is one of the table's, for the verified record that was asked for, and no verified record
  -- changes.
  pub record_verified_bill-IsRecorded :
      (arguments : BillArguments Object) (fresh_issuer fresh_bill now : ℕ)
      (tables : Tables Decimal Object)
      → IsValid numbers tables
      → Ensures
          (IsRecorded arguments tables)
          (record_verified_bill numbers arguments fresh_issuer fresh_bill now tables)
  unfolding record_verified_bill
  record_verified_bill-IsRecorded arguments fresh_issuer fresh_bill now tables h =
      let source = λ (bill : RecurringBill Decimal Object).
        bill.verified_record_id == arguments.verified_record_id in
      Ensures-bind (check_arguments numbers arguments) _ λ checked _.
        Ensures-bind
          (given (first_row (λ row. row.id == arguments.verified_record_id) tables.verified_records)
            bill_validation_error)
          _
          λ verified v.
            let found =
              first_row-some
                (λ (row : VerifiedRecord Decimal). row.id == arguments.verified_record_id)
                tables.verified_records verified (given-some _ _ verified v) in
            elim (Option-cases (first_row source tables.recurring_bills)) [
              | inl e ↦ rw e (
                  insert_bill-IsRecorded arguments checked verified fresh_issuer fresh_bill now
                    tables h (ground (arith, found))
                    (first_row-none source tables.recurring_bills e))
              | inr (existing, e) ↦ rw e (
                  Ensures-ok (existing, tables)
                    record {
                      valid = h;
                      stored = first_row-In source tables.recurring_bills existing e;
                      source =
                          (let same = first_row-some source tables.recurring_bills existing e in
                            ground (arith, same));
                      unchanged = refl;
                    })
            ]

  abbrev source_of : ℕ → RecurringBill Decimal Object → Bool
  source_of id bill = bill.verified_record_id == id

  abbrev verified_of : ℕ → VerifiedRecord Decimal → Bool
  verified_of id row = row.id == id

  -- The call finds the bill that is there.
  replayed :
      (arguments : BillArguments Object) (checked : Checked Decimal)
      (verified : VerifiedRecord Decimal)
      (recorded : RecurringBill Decimal Object × Tables Decimal Object)
      (fresh_issuer fresh_bill now : ℕ)
      → check_arguments numbers arguments ≡ ok checked
      → first_row (verified_of arguments.verified_record_id) recorded.1.verified_records
        ≡ some verified
      → first_row (source_of arguments.verified_record_id) recorded.1.recurring_bills
        ≡ some recorded.0
      → record_verified_bill numbers arguments fresh_issuer fresh_bill now recorded.1 ≡ ok recorded
  unfolding record_verified_bill
  replayed arguments checked verified recorded fresh_issuer fresh_bill now c v e =
      rw (c, record_verified_bill) (rw v (rw e refl))

  insert_bill-first :
      (arguments : BillArguments Object) (checked : Checked Decimal)
      (verified : VerifiedRecord Decimal) (fresh_issuer fresh_bill now : ℕ)
      (tables : Tables Decimal Object)
      → verified.id ≡ arguments.verified_record_id
      → Ensures
          (λ recorded.
            (recorded.1.verified_records ≡ tables.verified_records)
            × (first_row (source_of arguments.verified_record_id) recorded.1.recurring_bills
                ≡ some recorded.0))
          (insert_bill numbers arguments checked verified fresh_issuer fresh_bill now tables)
  unfolding insert_bill new_bill
  insert_bill-first arguments checked verified fresh_issuer fresh_bill now tables same =
      Ensures-bind
        (require (only_fields numbers arguments.review_corrections) bill_validation_error) _
        λ a _.
          Ensures-bind
            (require (not_blank numbers (cleaned numbers arguments.reviewer)) bill_validation_error)
            _
            λ b _.
              Ensures-bind
                (resolve_issuer numbers checked.clean_name checked.kind fresh_issuer tables.issuers)
                _
                λ resolved r.
                  Ensures-bind
                    (release_period numbers resolved.0.id arguments.billing_period verified now
                      tables)
                    _
                    λ bills e.
                      let its_own : (verified.id == arguments.verified_record_id) ≡ true =
                        ground (arith, same) in
                      Ensures-ok _ (refl, rw its_own refl)

  -- Recording the same bill again, at any time and with any new identifiers, returns the bill that is
  -- there, and changes nothing.
  pub record_verified_bill_again :
      (arguments : BillArguments Object) (fresh_issuer fresh_bill now : ℕ)
      (tables : Tables Decimal Object)
      → Ensures
          (λ recorded.
            (other_issuer other_bill later : ℕ)
            → record_verified_bill numbers arguments other_issuer other_bill later recorded.1
              ≡ ok recorded)
          (record_verified_bill numbers arguments fresh_issuer fresh_bill now tables)
  unfolding record_verified_bill
  record_verified_bill_again arguments fresh_issuer fresh_bill now tables =
      Ensures-bind (check_arguments numbers arguments) _ λ checked c.
        Ensures-bind
          (given (first_row (verified_of arguments.verified_record_id) tables.verified_records)
            bill_validation_error)
          _
          λ verified v.
            let row = given-some _ _ verified v in
            let its_id =
              first_row-some (verified_of arguments.verified_record_id) tables.verified_records
                verified row in
            elim (Option-cases
              (first_row (source_of arguments.verified_record_id) tables.recurring_bills)) [
                | inl e ↦ rw e record {
                  at = λ recorded r other_issuer other_bill later.
                      let first =
                        (insert_bill-first arguments checked verified fresh_issuer fresh_bill now
                            tables (ground (arith, its_id))).at
                          recorded r in
                      replayed arguments checked verified recorded other_issuer other_bill later c
                        (ap (first_row (verified_of arguments.verified_record_id)) first.0 ∙ row)
                        first.1;
                }
                | inr (existing, e) ↦ rw e (
                    Ensures-ok (existing, tables)
                      λ other_issuer other_bill later.
                        replayed arguments checked verified (existing, tables) other_issuer
                          other_bill later c row e)
              ]
