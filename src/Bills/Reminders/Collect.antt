-- ===== src/Bills/Reminders/Collect.antt =====
-- The loop of `bucket_reminders` (clerksan/bills/reminders.py): what it appends, and for which bill.

use clerk_san.Prelude.{
  In, List, Option, String, [], arith, false, inl, inr, none, refl, some, str_eq, subst, ℕ, ◌+◌,
  ◌<◌, ◌∷◌, ◌≡◌, ◌≤◌, ◌⊎◌,
}
use clerk_san.Bills.Reminders.{
  BillView, Bucket, Buckets, ReminderItem, appended, bucket_of, collect, due_or, item, overdue,
  skipped, upcoming,
}

bucket_of-upcoming :
    (as_of days_ahead : ℕ) (d : Option ℕ) (payment_status : String)
    → bucket_of as_of days_ahead d payment_status ≡ upcoming
    → (d ≡ some (due_or d))
      × (str_eq payment_status "paid" ≡ false)
      × (as_of ≤ due_or d)
      × (due_or d ≤ as_of + days_ahead)
unfolding bucket_of
bucket_of-upcoming as_of days_ahead none payment_status h = cc
bucket_of-upcoming as_of days_ahead (some due_date) payment_status h =
    (refl, ground arith, ground arith, ground arith)

bucket_of-overdue :
    (as_of days_ahead : ℕ) (d : Option ℕ) (payment_status : String)
    → bucket_of as_of days_ahead d payment_status ≡ overdue
    → (d ≡ some (due_or d)) × (str_eq payment_status "paid" ≡ false) × (due_or d < as_of)
unfolding bucket_of
bucket_of-overdue as_of days_ahead none payment_status h = cc
bucket_of-overdue as_of days_ahead (some due_date) payment_status h =
    (refl, ground arith, ground arith)

pub upcoming-bucket_of :
    (as_of days_ahead due_date : ℕ) (payment_status : String)
    → str_eq payment_status "paid" ≡ false
    → as_of ≤ due_date
    → due_date ≤ as_of + days_ahead
    → bucket_of as_of days_ahead (some due_date) payment_status ≡ upcoming
unfolding bucket_of
upcoming-bucket_of as_of days_ahead due_date payment_status h low high = ground arith

pub overdue-bucket_of :
    (as_of days_ahead due_date : ℕ) (payment_status : String)
    → str_eq payment_status "paid" ≡ false
    → due_date < as_of
    → bucket_of as_of days_ahead (some due_date) payment_status ≡ overdue
unfolding bucket_of
overdue-bucket_of as_of days_ahead due_date payment_status h past = ground arith

module _ {Decimal : Type 0} (text_of : ℕ → String) where
  -- A bill that is to be reminded of, with its due date
  pub record IsDue (bills : List (BillView Decimal)) (bill : BillView Decimal) (due_date : ℕ)
      : Type 0 where
    pub listed : In bill bills
    pub due : bill.due_date ≡ some due_date
    pub unpaid : str_eq bill.payment_status "paid" ≡ false

  abbrev pub UpcomingItem : List (BillView Decimal) → ℕ → ℕ → ReminderItem Decimal → Type 0
  UpcomingItem bills as_of days_ahead i =
      (bill : BillView Decimal) × (due_date : ℕ) × IsDue bills bill due_date
      × (as_of ≤ due_date)
      × (due_date ≤ as_of + days_ahead)
      × (i ≡ item text_of bill due_date as_of "unpaid")

  abbrev pub OverdueItem : List (BillView Decimal) → ℕ → ReminderItem Decimal → Type 0
  OverdueItem bills as_of i =
      (bill : BillView Decimal) × (due_date : ℕ) × IsDue bills bill due_date
      × (due_date < as_of)
      × (i ≡ item text_of bill due_date as_of "overdue")

  later-IsDue :
      (bill : BillView Decimal) (bills : List (BillView Decimal)) {other : BillView Decimal}
      {due_date : ℕ}
      → IsDue bills other due_date
      → IsDue (bill ∷ bills) other due_date
  later-IsDue bill bills h = record { listed = inr h.listed; due = h.due; unpaid = h.unpaid }

  appended-upcoming :
      (b : Bucket) (bill : BillView Decimal) (due_date as_of : ℕ) (rest : Buckets Decimal)
      (i : ReminderItem Decimal)
      → In i (appended text_of b bill due_date as_of rest).0
      → ((b ≡ upcoming) × (i ≡ item text_of bill due_date as_of "unpaid")) ⊎ In i rest.0
  appended-upcoming upcoming bill due_date as_of rest i (inl e) = inl (refl, e)
  appended-upcoming upcoming bill due_date as_of rest i (inr m) = inr m
  appended-upcoming overdue bill due_date as_of rest i m = inr m
  appended-upcoming skipped bill due_date as_of rest i m = inr m

  appended-overdue :
      (b : Bucket) (bill : BillView Decimal) (due_date as_of : ℕ) (rest : Buckets Decimal)
      (i : ReminderItem Decimal)
      → In i (appended text_of b bill due_date as_of rest).1
      → ((b ≡ overdue) × (i ≡ item text_of bill due_date as_of "overdue")) ⊎ In i rest.1
  appended-overdue overdue bill due_date as_of rest i (inl e) = inl (refl, e)
  appended-overdue overdue bill due_date as_of rest i (inr m) = inr m
  appended-overdue upcoming bill due_date as_of rest i m = inr m
  appended-overdue skipped bill due_date as_of rest i m = inr m

  In-appended :
      (b : Bucket) (bill : BillView Decimal) (due_date as_of : ℕ) (rest : Buckets Decimal)
      (i : ReminderItem Decimal)
      → (In i rest.0 → In i (appended text_of b bill due_date as_of rest).0)
        × (In i rest.1 → In i (appended text_of b bill due_date as_of rest).1)
  In-appended upcoming bill due_date as_of rest i = (λ m. inr m, λ m. m)
  In-appended overdue bill due_date as_of rest i = (λ m. m, λ m. inr m)
  In-appended skipped bill due_date as_of rest i = (λ m. m, λ m. m)

  pub collect-upcoming :
      (bills : List (BillView Decimal)) (as_of days_ahead : ℕ) (i : ReminderItem Decimal)
      → In i (collect text_of bills as_of days_ahead).0
      → UpcomingItem bills as_of days_ahead i
  unfolding collect
  collect-upcoming [] as_of days_ahead i m = absurd m
  collect-upcoming (bill ∷ bills) as_of days_ahead i m =
      elim (appended-upcoming (bucket_of as_of days_ahead bill.due_date bill.payment_status) bill
        (due_or bill.due_date) as_of (collect text_of bills as_of days_ahead) i m) [
          | inl (e, p) ↦
              let (due, unpaid, low, high) =
                bucket_of-upcoming as_of days_ahead bill.due_date bill.payment_status e in
              (
                bill,
                due_or bill.due_date,
                record { listed = inl refl; due = due; unpaid = unpaid },
                low,
                high,
                p,
              )
          | inr n ↦
              let (other, due_date, due, low, high, p) =
                collect-upcoming bills as_of days_ahead i n in
              (other, due_date, later-IsDue bill bills due, low, high, p)
        ]

  pub collect-overdue :
      (bills : List (BillView Decimal)) (as_of days_ahead : ℕ) (i : ReminderItem Decimal)
      → In i (collect text_of bills as_of days_ahead).1
      → OverdueItem bills as_of i
  unfolding collect
  collect-overdue [] as_of days_ahead i m = absurd m
  collect-overdue (bill ∷ bills) as_of days_ahead i m =
      elim (appended-overdue (bucket_of as_of days_ahead bill.due_date bill.payment_status) bill
        (due_or bill.due_date) as_of (collect text_of bills as_of days_ahead) i m) [
          | inl (e, p) ↦
              let (due, unpaid, past) =
                bucket_of-overdue as_of days_ahead bill.due_date bill.payment_status e in
              (
                bill,
                due_or bill.due_date,
                record { listed = inl refl; due = due; unpaid = unpaid },
                past,
                p,
              )
          | inr n ↦
              let (other, due_date, due, past, p) = collect-overdue bills as_of days_ahead i n in
              (other, due_date, later-IsDue bill bills due, past, p)
        ]

  pub upcoming-collect :
      (bills : List (BillView Decimal)) (as_of days_ahead due_date : ℕ) (bill : BillView Decimal)
      → In bill bills
      → bill.due_date ≡ some due_date
      → bucket_of as_of days_ahead (some due_date) bill.payment_status ≡ upcoming
      → In (item text_of bill due_date as_of "unpaid") (collect text_of bills as_of days_ahead).0
  unfolding collect
  upcoming-collect [] as_of days_ahead due_date bill m d b = absurd m
  upcoming-collect (first ∷ bills) as_of days_ahead due_date bill (inl e) d b =
      subst
        (λ (f : BillView Decimal).
          In (item text_of bill due_date as_of "unpaid")
            (collect text_of (f ∷ bills) as_of days_ahead).0)
        e (rw (d, b) (inl refl))
  upcoming-collect (first ∷ bills) as_of days_ahead due_date bill (inr n) d b =
      (In-appended (bucket_of as_of days_ahead first.due_date first.payment_status) first
          (due_or first.due_date) as_of (collect text_of bills as_of days_ahead)
          (item text_of bill due_date as_of "unpaid")).0
        (upcoming-collect bills as_of days_ahead due_date bill n d b)

  pub overdue-collect :
      (bills : List (BillView Decimal)) (as_of days_ahead due_date : ℕ) (bill : BillView Decimal)
      → In bill bills
      → bill.due_date ≡ some due_date
      → bucket_of as_of days_ahead (some due_date) bill.payment_status ≡ overdue
      → In (item text_of bill due_date as_of "overdue") (collect text_of bills as_of days_ahead).1
  unfolding collect
  overdue-collect [] as_of days_ahead due_date bill m d b = absurd m
  overdue-collect (first ∷ bills) as_of days_ahead due_date bill (inl e) d b =
      subst
        (λ (f : BillView Decimal).
          In (item text_of bill due_date as_of "overdue")
            (collect text_of (f ∷ bills) as_of days_ahead).1)
        e (rw (d, b) (inl refl))
  overdue-collect (first ∷ bills) as_of days_ahead due_date bill (inr n) d b =
      (In-appended (bucket_of as_of days_ahead first.due_date first.payment_status) first
          (due_or first.due_date) as_of (collect text_of bills as_of days_ahead)
          (item text_of bill due_date as_of "overdue")).1
        (overdue-collect bills as_of days_ahead due_date bill n d b)
