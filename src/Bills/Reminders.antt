-- ===== src/Bills/Reminders.antt =====
-- `bucket_reminders` of clerksan/bills/reminders.py. Dates are their ordinals (`date.toordinal`), which
-- end at `max_ordinal`; identifiers are numbers;
-- `text_of` is `str(id)`, and amounts are of any type, since the code only hands them on.
pub mod Collect
pub mod Listed
pub mod Buckets
use clerk_san.Prelude.{
  Bool, List, Option, Result, String, [], err, if◌then◌else◌, leb, ltb, negsuc, none, not, ok, pos,
  some, str_eq, ℕ, ℤ, ◌&&◌, ◌+◌, ◌-◌, ◌==◌, ◌||◌, ◌∷◌,
}
use clerk_san.Prelude.Sorting.{sorted}
use clerk_san.Jobs.Fields.{str_leb}

-- `BillView` of clerksan/bills/analysis.py, as far as the reminders read it
pub record BillView (Decimal : Type 0) : Type 0 where
  pub id : ℕ
  pub issuer_id : ℕ
  pub issuer : String
  pub issuer_kind : String
  pub billing_period : ℕ
  pub amount : Decimal
  pub due_date : Option ℕ
  pub payment_status : String

pub record ReminderItem (Decimal : Type 0) : Type 0 where
  pub id : ℕ
  pub issuer_id : ℕ
  pub issuer : String
  pub issuer_kind : String
  pub billing_period : ℕ
  pub amount : Decimal
  pub due_date : ℕ
  pub days_left : ℤ
  pub payment_status : String

pub data ReminderError : Type 0 where
  value_error overflow_error : ReminderError

-- `dt.date.max`, behind which a sum of a date and days raises
abbrev pub max_ordinal : ℕ
max_ordinal = 3652059

-- `(due_date - as_of).days`
unfoldable pub days_between : ℕ → ℕ → ℤ
days_between due_date as_of =
    if leb as_of due_date then pos (due_date - as_of) else negsuc (as_of - due_date - 1)

pub data Bucket : Type 0 where
  upcoming overdue skipped : Bucket

-- The branches of the loop's body
unfoldable pub bucket_of : ℕ → ℕ → Option ℕ → String → Bucket
bucket_of as_of days_ahead none payment_status = skipped
bucket_of as_of days_ahead (some due_date) payment_status =
    if str_eq payment_status "paid"
    then skipped
    else if ltb due_date as_of
    then overdue
    else if leb due_date (as_of + days_ahead)
    then upcoming
    else skipped

abbrev pub due_or : Option ℕ → ℕ
due_or none = 0
due_or (some due_date) = due_date

-- The upcoming and the overdue items
abbrev pub Buckets : Type 0 → Type 0
Buckets Decimal = List (ReminderItem Decimal) × List (ReminderItem Decimal)

module _ {Decimal : Type 0} (text_of : ℕ → String) where
  abbrev pub item : BillView Decimal → ℕ → ℕ → String → ReminderItem Decimal
  item bill due_date as_of payment_status = record {
    id = bill.id;
    issuer_id = bill.issuer_id;
    issuer = bill.issuer;
    issuer_kind = bill.issuer_kind;
    billing_period = bill.billing_period;
    amount = bill.amount;
    due_date = due_date;
    days_left = days_between due_date as_of;
    payment_status = payment_status;
  }

  -- What the loop appends for one bill
  abbrev pub appended : Bucket → BillView Decimal → ℕ → ℕ → Buckets Decimal → Buckets Decimal
  appended upcoming bill due_date as_of buckets =
      (item bill due_date as_of "unpaid" ∷ buckets.0, buckets.1)
  appended overdue bill due_date as_of buckets =
      (buckets.0, item bill due_date as_of "overdue" ∷ buckets.1)
  appended skipped bill due_date as_of buckets = buckets

  -- The loop: the upcoming and the overdue items, in the order of the bills
  unfoldable pub collect : List (BillView Decimal) → ℕ → ℕ → Buckets Decimal
  unfolding bucket_of
  collect [] as_of days_ahead = ([], [])
  collect (bill ∷ bills) as_of days_ahead =
      appended (bucket_of as_of days_ahead bill.due_date bill.payment_status) bill
        (due_or bill.due_date) as_of (collect bills as_of days_ahead)

  -- The sort key `(due_date, issuer, str(id))`
  unfoldable pub item_leb : ReminderItem Decimal → ReminderItem Decimal → Bool
  unfolding str_leb
  item_leb a b =
      ltb a.due_date b.due_date
      || (a.due_date == b.due_date
          && (not (str_eq a.issuer b.issuer) && str_leb a.issuer b.issuer
              || str_eq a.issuer b.issuer && str_leb (text_of a.id) (text_of b.id)))

  unfoldable pub bucket_reminders :
      List (BillView Decimal) → ℕ → ℤ → Result ReminderError (Buckets Decimal)
  unfolding collect item_leb sorted
  bucket_reminders bills as_of (negsuc n) = err value_error
  bucket_reminders bills as_of (pos days_ahead) =
      let buckets = collect bills as_of days_ahead in
      if ltb max_ordinal (as_of + days_ahead)
      then err overflow_error
      else ok (sorted item_leb buckets.0, sorted item_leb buckets.1)
