-- ===== src/Bills/Reminders/Buckets.antt =====
-- The reminders that a list of bills gives (clerksan/bills/reminders.py, `bucket_reminders`).

use clerk_san.Prelude.{
  Bool-cases, In, List, String, arith, eq_iff, err, false, inl, inr, ltb, negsuc, ok, pos, refl,
  subst, sym, true, ℕ, ◌+◌, ◌<◌, ◌↔◌, ◌≡◌, ◌≤◌, ◌⊎◌,
}
use clerk_san.Prelude.Sorting.{sorted}
use clerk_san.Prelude.Sorting.Laws.{In-sorted, IsOrdered, sorted-In, sorted-IsOrdered, sorted-Perm}
use clerk_san.Jobs.Fields.{str_leb}
use clerk_san.Bills.Reminders.{
  BillView, Buckets, ReminderItem, bucket_reminders, collect, item, item_leb, max_ordinal,
  overflow_error, value_error,
}
use clerk_san.Bills.Reminders.Collect.{
  OverdueItem, UpcomingItem, collect-overdue, collect-upcoming, overdue-bucket_of, overdue-collect,
  upcoming-bucket_of, upcoming-collect,
}
use clerk_san.Bills.Reminders.Listed.{collect-eq-listed, is_overdue, is_upcoming, listed}
use mathlib.Core.List.{Perm}

str_leb-total : (s t : String) → str_leb s t ≡ false → str_leb t s ≡ true
unfolding str_leb
str_leb-total String.[] t h = cc
str_leb-total (String.◌∷◌ c s) String.[] h = refl
str_leb-total (String.◌∷◌ c s) (String.◌∷◌ d t) h = ground (arith, str_leb-total s t)

module _ {Decimal : Type 0} (text_of : ℕ → String) where
  item_leb-total :
      (a b : ReminderItem Decimal) → item_leb text_of a b ≡ false → item_leb text_of b a ≡ true
  unfolding item_leb
  item_leb-total a b h = ground (
    arith,
    str_leb-total a.issuer b.issuer,
    str_leb-total (text_of a.id) (text_of b.id),
    eq_iff a.issuer b.issuer,
    eq_iff b.issuer a.issuer,
  )

  -- Both lists, by their members and how often they stand there, and by their order
  pub record IsBucketed (bills : List (BillView Decimal)) (as_of days_ahead : ℕ)
      (buckets : Buckets Decimal) : Type 0 where
    pub upcoming :
        (i : ReminderItem Decimal) → In i buckets.0 ↔ UpcomingItem text_of bills as_of days_ahead i
    pub overdue : (i : ReminderItem Decimal) → In i buckets.1 ↔ OverdueItem text_of bills as_of i
    pub upcoming_once :
        Perm buckets.0 (listed text_of as_of (is_upcoming as_of days_ahead) "unpaid" bills)
    pub overdue_once : Perm buckets.1 (listed text_of as_of (is_overdue as_of) "overdue" bills)
    pub upcoming_order : IsOrdered (item_leb text_of) buckets.0
    pub overdue_order : IsOrdered (item_leb text_of) buckets.1

  sorted-IsBucketed :
      (bills : List (BillView Decimal)) (as_of n : ℕ)
      → IsBucketed bills as_of n (
        sorted (item_leb text_of) (collect text_of bills as_of n).0,
        sorted (item_leb text_of) (collect text_of bills as_of n).1,
      )
  sorted-IsBucketed bills as_of n =
      let found = collect text_of bills as_of n in
      let leb = item_leb text_of in
      let same = collect-eq-listed text_of as_of bills n in
      record {
        upcoming = λ i. (
          λ m. collect-upcoming text_of bills as_of n i (In-sorted leb i found.0 m),
          λ (bill, due_date, due, low, high, p).
              subst (λ j. In j (sorted leb found.0)) (sym p)
                (sorted-In leb (item text_of bill due_date as_of "unpaid") found.0 (
                  upcoming-collect text_of bills as_of n due_date bill due.listed due.due
                    (upcoming-bucket_of as_of n due_date bill.payment_status due.unpaid low high))),
        );
        overdue = λ i. (
          λ m. collect-overdue text_of bills as_of n i (In-sorted leb i found.1 m),
          λ (bill, due_date, due, past, p).
              subst (λ j. In j (sorted leb found.1)) (sym p)
                (sorted-In leb (item text_of bill due_date as_of "overdue") found.1 (
                  overdue-collect text_of bills as_of n due_date bill due.listed due.due
                    (overdue-bucket_of as_of n due_date bill.payment_status due.unpaid past))),
        );
        upcoming_once = subst (Perm (sorted leb found.0)) same.0 (sorted-Perm leb found.0);
        overdue_once = subst (Perm (sorted leb found.1)) same.1 (sorted-Perm leb found.1);
        upcoming_order = sorted-IsOrdered leb found.0 (item_leb-total);
        overdue_order = sorted-IsOrdered leb found.1 (item_leb-total);
      }

  -- Where the last of the days ahead is a date, the reminders are those of the bills that are not
  -- paid and have a due date: a bill due before the day of asking is listed as overdue, one due from
  -- that day to the last of the days ahead as upcoming, each once, no other bill is listed, and both
  -- lists are in the order of due date, issuer and identifier. Where the last day is past the last
  -- date, an overflow is raised, and for a negative number of days ahead a value error.
  pub bucket_reminders_lem :
      (bills : List (BillView Decimal)) (as_of n : ℕ)
      → (((as_of + n ≤ max_ordinal)
            × (buckets : Buckets Decimal) × (bucket_reminders text_of bills as_of (pos n)
                ≡ ok buckets)
            × IsBucketed bills as_of n buckets)
          ⊎ ((max_ordinal < as_of + n)
              × (bucket_reminders text_of bills as_of (pos n) ≡ err overflow_error)))
        × (bucket_reminders text_of bills as_of (negsuc n) ≡ err value_error)
  unfolding bucket_reminders
  bucket_reminders_lem bills as_of n = (
    elim (Bool-cases (ltb max_ordinal (as_of + n))) [
      | inl late ↦ inr (ground arith, rw late refl)
      | inr early ↦ inl (ground arith, _, rw early refl, sorted-IsBucketed bills as_of n)
    ],
    refl,
  )
