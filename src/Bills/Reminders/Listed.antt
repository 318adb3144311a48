-- ===== src/Bills/Reminders/Listed.antt =====
-- The reminders that a list of bills calls for, bill by bill, as a description that does not go
-- through the branches of the loop of `bucket_reminders` (clerksan/bills/reminders.py).
use clerk_san.Prelude.{
  Bool, List, Option, String, [], ap, arith, false, if◌then◌else◌, leb, ltb, none, not, refl, some,
  str_eq, ℕ, ◌&&◌, ◌+◌, ◌∙◌, ◌∷◌, ◌≡◌,
}
use clerk_san.Bills.Reminders.{
  BillView, Buckets, ReminderItem, appended, bucket_of, collect, due_or, item,
}

-- The bill has a due date from the day of asking to the last of the days ahead.
unfoldable pub is_upcoming : ℕ → ℕ → Option ℕ → Bool
is_upcoming as_of days_ahead none = false
is_upcoming as_of days_ahead (some due_date) =
    leb as_of due_date && leb due_date (as_of + days_ahead)

-- The bill has a due date before the day of asking.
unfoldable pub is_overdue : ℕ → Option ℕ → Bool
is_overdue as_of none = false
is_overdue as_of (some due_date) = ltb due_date as_of

module _ {Decimal : Type 0} (text_of : ℕ → String) (as_of : ℕ) where
  -- One item for each bill that is not paid and whose due date passes the test
  unfoldable pub listed :
      (Option ℕ → Bool) → String → List (BillView Decimal) → List (ReminderItem Decimal)
  listed test payment_status [] = []
  listed test payment_status (bill ∷ bills) =
      let rest = listed test payment_status bills in
      if not (str_eq bill.payment_status "paid") && test bill.due_date
      then item text_of bill (due_or bill.due_date) as_of payment_status ∷ rest
      else rest

  appended-bucket_of :
      (days_ahead : ℕ) (bill : BillView Decimal) (d : Option ℕ) (status : String)
      (rest : Buckets Decimal)
      → ((appended text_of (bucket_of as_of days_ahead d status) bill (due_or d) as_of rest).0 ≡ (
          if not (str_eq status "paid") && is_upcoming as_of days_ahead d
          then item text_of bill (due_or d) as_of "unpaid" ∷ rest.0
          else rest.0))
        × ((appended text_of (bucket_of as_of days_ahead d status) bill (due_or d) as_of rest).1 ≡ (
            if not (str_eq status "paid") && is_overdue as_of d
            then item text_of bill (due_or d) as_of "overdue" ∷ rest.1
            else rest.1))
  unfolding bucket_of is_upcoming is_overdue
  appended-bucket_of days_ahead bill none status rest = (ground arith, ground arith)
  appended-bucket_of days_ahead bill (some due_date) status rest = (ground arith, ground arith)

  -- The loop appends these items and no other, each once.
  pub collect-eq-listed :
      (bills : List (BillView Decimal)) (days_ahead : ℕ)
      → ((collect text_of bills as_of days_ahead).0
          ≡ listed (is_upcoming as_of days_ahead) "unpaid" bills)
        × ((collect text_of bills as_of days_ahead).1 ≡ listed (is_overdue as_of) "overdue" bills)
  unfolding collect listed
  collect-eq-listed [] days_ahead = (refl, refl)
  collect-eq-listed (bill ∷ bills) days_ahead =
      let rest = collect-eq-listed bills days_ahead in
      let step =
        appended-bucket_of days_ahead bill bill.due_date bill.payment_status
          (collect text_of bills as_of days_ahead) in
      (
        step.0
            ∙ ap
                (λ items.
                  if not (str_eq bill.payment_status "paid")
                    && is_upcoming as_of days_ahead bill.due_date
                  then item text_of bill (due_or bill.due_date) as_of "unpaid" ∷ items
                  else items)
                rest.0,
        step.1
            ∙ ap
                (λ items.
                  if not (str_eq bill.payment_status "paid") && is_overdue as_of bill.due_date
                  then item text_of bill (due_or bill.due_date) as_of "overdue" ∷ items
                  else items)
                rest.1,
      )
