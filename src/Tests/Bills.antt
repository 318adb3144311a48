-- ===== src/Tests/Bills.antt =====
-- Reminders of concrete bills (clerksan/bills/reminders.py).
use clerk_san.Prelude.{
  List, String, [], err, negsuc, ok, pos, some, ℕ, ◌+◌, ◌<◌, ◌∷◌, ◌≡◌, ◌≤◌, ◌⊎◌,
}
use clerk_san.Bills.Reminders.{
  BillView, Buckets, bucket_reminders, max_ordinal, overflow_error, value_error,
}
use clerk_san.Bills.Reminders.Buckets.{IsBucketed, bucket_reminders_lem}

abbrev bill : ℕ → ℕ → String → BillView ℕ
bill id due_date payment_status = record {
  id = id;
  issuer_id = 1;
  issuer = "Power";
  issuer_kind = "utility";
  billing_period = 90;
  amount = 4200;
  due_date = some due_date;
  payment_status = payment_status;
}

abbrev bills : List (BillView ℕ)
bills = bill 1 100 "unpaid" ∷ bill 2 95 "unpaid" ∷ bill 3 104 "paid" ∷ bill 4 120 "unpaid" ∷ []

abbrev text_of : ℕ → String
text_of id = "id"

bucket_reminders_lem_example :
    (((98 + 7 ≤ max_ordinal)
        × (buckets : Buckets ℕ) × (bucket_reminders text_of bills 98 (pos 7) ≡ ok buckets)
        × IsBucketed text_of bills 98 7 buckets)
      ⊎ ((max_ordinal < 98 + 7) × (bucket_reminders text_of bills 98 (pos 7) ≡ err overflow_error)))
    × (bucket_reminders text_of bills 98 (negsuc 7) ≡ err value_error)
bucket_reminders_lem_example = bucket_reminders_lem text_of bills 98 7
