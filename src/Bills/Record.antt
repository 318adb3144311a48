-- ===== src/Bills/Record.antt =====
-- `record_verified_bill` of clerksan/bills/service.py. Dates are their ordinals and identifiers
-- numbers; the new identifiers and the clock are arguments.
pub mod Periods
pub mod Recorded
use clerk_san.Prelude.{
  Bool, List, Option, Result, String, [], err, false, if◌then◌else◌, is_some, map, none, not, ok,
  require, some, str_eq, true, ℕ, ◌&&◌, ◌==◌, ◌>>=◌, ◌>>◌, ◌||◌, ◌∷◌,
}
use clerk_san.Prelude.Strings.{is_empty, strip}

pub data BillError : Type 0 where
  bill_validation_error bill_conflict_error invalid_operation : BillError

pub data IssuerKind : Type 0 where
  electric gas water nhi tax other : IssuerKind

pub data ExtractionStatus : Type 0 where
  pending_review approved rejected superseded : ExtractionStatus

pub data KindArgument : Type 0 where
  member : IssuerKind → KindArgument
  text : String → KindArgument

abbrev pub same_kind : IssuerKind → IssuerKind → Bool
same_kind electric electric = true
same_kind gas gas = true
same_kind water water = true
same_kind nhi nhi = true
same_kind tax tax = true
same_kind other other = true
same_kind _ _ = false

-- `IssuerKind(issuer_kind)`
abbrev pub read_kind : KindArgument → Option IssuerKind
read_kind (member kind) = some kind
read_kind (text value) =
    if str_eq value "electric"
    then some electric
    else if str_eq value "gas"
    then some gas
    else if str_eq value "water"
    then some water
    else if str_eq value "nhi"
    then some nhi
    else if str_eq value "tax"
    then some tax
    else if str_eq value "other"
    then some other
    else none

pub record Issuer : Type 0 where
  pub id : ℕ
  pub name : String
  pub kind : IssuerKind

-- A verified record, with the status of the extracted record that it and its document refer to
pub record VerifiedRecord (Decimal : Type 0) : Type 0 where
  pub id : ℕ
  pub document_id : ℕ
  pub total_amount : Decimal
  pub extraction_status : Option ExtractionStatus

pub record RecurringBill (Decimal Object : Type 0) : Type 0 where
  pub id : ℕ
  pub issuer_id : ℕ
  pub document_id : ℕ
  pub verified_record_id : ℕ
  pub billing_period : ℕ
  pub amount : Decimal
  pub due_date : Option ℕ
  pub consumption_value : Option Decimal
  pub consumption_unit : Option String
  pub reviewer : Option String
  pub review_corrections : List (String × Object)
  pub superseded_at : Option ℕ

-- The tables that the function reads and writes
pub record Tables (Decimal Object : Type 0) : Type 0 where
  pub verified_records : List (VerifiedRecord Decimal)
  pub issuers : List Issuer
  pub recurring_bills : List (RecurringBill Decimal Object)

-- A consumption as it is given
pub data Consumption (Object : Type 0) : Type 0 where
  boolean : Bool → Consumption Object
  number : Object → Consumption Object

pub record BillArguments (Object : Type 0) : Type 0 where
  pub verified_record_id : ℕ
  pub issuer_name : String
  pub issuer_kind : KindArgument
  pub billing_period : ℕ
  pub due_date : Option ℕ
  pub consumption_value : Option (Consumption Object)
  pub consumption_unit : Option String
  pub reviewer : Option String
  pub review_corrections : List (String × Object)

-- What the standard library does with dates and decimals: the day of the month, `Decimal(str(value))`
-- where it does not raise, and `value > 0`, which raises for what cannot be compared
pub record Numbers (Decimal Object : Type 0) : Type 0 where
  pub day : ℕ → ℕ
  pub to_decimal : Object → Option Decimal
  pub is_positive : Decimal → Option Bool

-- The first row with the property
abbrev pub first_row : {A : Type 0} → (A → Bool) → List A → Option A
first_row p [] = none
first_row p (row ∷ rows) = if p row then some row else first_row p rows

abbrev pub is_field : String → Bool
is_field key =
    str_eq key "issuer_name"
    || str_eq key "issuer_kind"
    || str_eq key "billing_period"
    || str_eq key "due_date"
    || str_eq key "consumption_value"
    || str_eq key "consumption_unit"

abbrev pub given : {A : Type 0} → Option A → BillError → Result BillError A
given none raised = err raised
given (some value) raised = ok value

abbrev pub superseded_status : Option ExtractionStatus → Bool
superseded_status (some superseded) = true
superseded_status _ = false

-- What the guards before the first query leave
pub record Checked (Decimal : Type 0) : Type 0 where
  pub clean_name : String
  pub kind : IssuerKind
  pub value : Option Decimal

module _ {Decimal Object : Type 0} (numbers : Numbers Decimal Object) where
  abbrev pub has_text : Option String → Bool
  has_text none = false
  has_text (some unit) = not (is_empty (strip unit))

  -- The checks of a consumption
  unfoldable pub check_consumption :
      Option (Consumption Object) → Option String → Result BillError (Option Decimal)
  unfolding strip
  check_consumption none none = ok none
  check_consumption none (some unit) = err bill_validation_error
  check_consumption (some (boolean b)) unit = err bill_validation_error
  check_consumption (some (number object)) unit = do
    value ← given (numbers.to_decimal object) bill_validation_error
    positive ← given (numbers.is_positive value) invalid_operation
    require positive bill_validation_error
    require (has_text unit) bill_validation_error
    ok (some value)

  unfoldable pub check_arguments : BillArguments Object → Result BillError (Checked Decimal)
  unfolding strip check_consumption
  check_arguments arguments = do
    require (not (is_empty (strip arguments.issuer_name))) bill_validation_error
    require (numbers.day arguments.billing_period == 1) bill_validation_error
    value ← check_consumption arguments.consumption_value arguments.consumption_unit
    kind ← given (read_kind arguments.issuer_kind) bill_validation_error
    ok record { clean_name = strip arguments.issuer_name; kind = kind; value = value }

  abbrev pub cleaned : Option String → Option String
  cleaned none = none
  cleaned (some reviewer) = some (strip reviewer)

  abbrev pub not_blank : Option String → Bool
  not_blank none = true
  not_blank (some reviewer) = not (is_empty reviewer)

  abbrev pub clean_unit : Option String → Option String
  clean_unit none = none
  clean_unit (some unit) = if is_empty unit then none else some (strip unit)

  abbrev pub only_fields : List (String × Object) → Bool
  only_fields [] = true
  only_fields (correction ∷ corrections) = is_field correction.0 && only_fields corrections

  -- The issuer's row and the issuers with it
  unfoldable pub resolve_issuer :
      String → IssuerKind → ℕ → List Issuer → Result BillError (Issuer × List Issuer)
  resolve_issuer name kind fresh issuers =
      elim (first_row (λ issuer. str_eq issuer.name name) issuers) [
        | none ↦ ok (
          record { id = fresh; name = name; kind = kind },
          record { id = fresh; name = name; kind = kind } ∷ issuers,
        )
        | some issuer ↦
            if same_kind issuer.kind kind then ok (issuer, issuers) else err bill_validation_error
      ]

  -- An active bill of the issuer for the period
  abbrev pub owns : ℕ → ℕ → RecurringBill Decimal Object → Bool
  owns issuer_id period bill =
      not (is_some bill.superseded_at)
      && (bill.issuer_id == issuer_id && bill.billing_period == period)

  abbrev pub superseded_by : ℕ → ℕ → RecurringBill Decimal Object → RecurringBill Decimal Object
  superseded_by id now bill =
      if bill.id == id then record bill { superseded_at = some now } else bill

  abbrev pub status_of : Option (VerifiedRecord Decimal) → Option ExtractionStatus
  status_of none = none
  status_of (some verified) = verified.extraction_status

  -- The owner of the period gives way to a newer record of its own document.
  unfoldable pub release_period :
      ℕ
      → ℕ
      → VerifiedRecord Decimal
      → ℕ
      → Tables Decimal Object
      → Result BillError (List (RecurringBill Decimal Object))
  release_period issuer_id period verified now tables =
      elim (first_row (owns issuer_id period) tables.recurring_bills) [
        | none ↦ ok tables.recurring_bills
        | some owner ↦
            if owner.document_id == verified.document_id
              && superseded_status (
                  status_of
                    (first_row (λ row. row.id == owner.verified_record_id) tables.verified_records))
            then ok (map (superseded_by owner.id now) tables.recurring_bills)
            else err bill_conflict_error
      ]

  unfoldable pub new_bill :
      BillArguments Object
      → Checked Decimal
      → VerifiedRecord Decimal
      → ℕ
      → ℕ
      → RecurringBill Decimal Object
  unfolding strip
  new_bill arguments checked verified issuer_id fresh = record {
    id = fresh;
    issuer_id = issuer_id;
    document_id = verified.document_id;
    verified_record_id = verified.id;
    billing_period = arguments.billing_period;
    amount = verified.total_amount;
    due_date = arguments.due_date;
    consumption_value = checked.value;
    consumption_unit = clean_unit arguments.consumption_unit;
    reviewer = cleaned arguments.reviewer;
    review_corrections = arguments.review_corrections;
    superseded_at = none;
  }

  -- From the first write on
  unfoldable pub insert_bill :
      BillArguments Object
      → Checked Decimal
      → VerifiedRecord Decimal
      → ℕ
      → ℕ
      → ℕ
      → Tables Decimal Object
      → Result BillError (RecurringBill Decimal Object × Tables Decimal Object)
  unfolding resolve_issuer release_period new_bill strip
  insert_bill arguments checked verified fresh_issuer fresh_bill now tables = do
    require (only_fields arguments.review_corrections) bill_validation_error
    require (not_blank (cleaned arguments.reviewer)) bill_validation_error
    resolved ← resolve_issuer checked.clean_name checked.kind fresh_issuer tables.issuers
    bills ← release_period resolved.0.id arguments.billing_period verified now tables
    ok (
      new_bill arguments checked verified resolved.0.id fresh_bill,
      record tables {
        issuers = resolved.1;
        recurring_bills = new_bill arguments checked verified resolved.0.id fresh_bill ∷ bills;
      },
    )

  -- The function: the bill that it returns, and the tables that it leaves
  unfoldable pub record_verified_bill :
      BillArguments Object
      → ℕ
      → ℕ
      → ℕ
      → Tables Decimal Object
      → Result BillError (RecurringBill Decimal Object × Tables Decimal Object)
  unfolding check_arguments insert_bill
  record_verified_bill arguments fresh_issuer fresh_bill now tables = do
    checked ← check_arguments arguments
    verified ←
        given (first_row (λ row. row.id == arguments.verified_record_id) tables.verified_records)
          bill_validation_error
    elim (first_row (λ bill. bill.verified_record_id == arguments.verified_record_id)
        tables.recurring_bills) [
          | some existing ↦ ok (existing, tables)
          | none ↦ insert_bill arguments checked verified fresh_issuer fresh_bill now tables
        ]
