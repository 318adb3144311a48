-- ===== src/Tests/Analysis.antt =====
-- Bill series of concrete amounts (clerksan/bills/analysis.py).
use clerk_san.Prelude.{
  Ensures, List, [], leb, none, ok, refl, some, true, ℕ, ◌++◌, ◌+◌, ◌-◌, ◌/◌, ◌==◌, ◌∷◌, ◌≡◌,
}
use clerk_san.Prelude.Sorting.{sorted}
use clerk_san.Bills.Analysis.{
  AnomalyFlag, BillPoint, Decimals, Metric, PeriodDelta, compare_points, date_leb, last_months,
  ordered_unique_points,
}
use clerk_san.Bills.Analysis.References.{AreDeltas, compare_points_lem}
use clerk_san.Bills.Anomalies.{flag_anomalies_for_points}
use clerk_san.Bills.Anomalies.Causal.{FlagsOf, flag_anomalies_for_points_lem}

abbrev amounts : Decimals ℕ
amounts = record {
  decimal_leb = λ a b. leb a b;
  zero_value = 0;
  is_zero = λ a. a == 0;
  difference = λ a b. (a - b) + (b - a);
  absolute = λ a. a;
  quotient = λ a b. a / b;
  mean = λ a b. (a + b) / 2;
  scaled = λ a. a;
}

abbrev point_of : ℕ → ℕ → ℕ → BillPoint ℕ
point_of year month amount = record {
  billing_period = record { year = year; month = month; day = 1 };
  amount = amount;
  consumption_value = none;
  consumption_unit = none;
}

abbrev two_points : List (BillPoint ℕ)
two_points = point_of 2025 1 130 ∷ point_of 2024 12 100 ∷ []

month_compared :
    (a : PeriodDelta ℕ) × (b : PeriodDelta ℕ) × (compare_points amounts two_points none
      ≡ ok (a ∷ b ∷ []))
    × (a.month_over_month.missing_reference ≡ true)
    × (b.month_over_month.amount_delta ≡ some 30)
unfolding compare_points
month_compared = (_, _, refl, refl, refl)

compare_points_lem_example :
    Ensures
      (AreDeltas amounts two_points (
        last_months amounts none
          (sorted (λ a b. date_leb a.billing_period b.billing_period) two_points)))
      (compare_points amounts two_points none)
compare_points_lem_example = compare_points_lem amounts two_points none

abbrev half_year : List (BillPoint ℕ)
half_year =
    point_of 2024 1 10
    ∷ point_of 2024 2 10
    ∷ point_of 2024 3 10
    ∷ point_of 2024 4 10
    ∷ point_of 2024 5 10
    ∷ point_of 2024 6 10
    ∷ []

abbrev july : BillPoint ℕ
july = point_of 2024 7 90

abbrev july_flag : AnomalyFlag ℕ
july_flag = record {
  billing_period = july.billing_period;
  metric = Metric.amount;
  value = 90;
  median = 10;
  mad = 0;
  robust_z = none;
  unit = none;
}

half_year_ordered : ordered_unique_points amounts half_year ≡ ok half_year
unfolding ordered_unique_points
half_year_ordered = refl

longer_ordered : ordered_unique_points amounts (july ∷ half_year) ≡ ok (half_year ++ (july ∷ []))
unfolding ordered_unique_points
longer_ordered = refl

july_flagged : flag_anomalies_for_points amounts (july ∷ half_year) 12 3 ≡ ok (july_flag ∷ [])
unfolding flag_anomalies_for_points
july_flagged = refl

flag_anomalies_for_points_lem_example :
    (first : List (AnomalyFlag ℕ)) × (rest : List (AnomalyFlag ℕ)) × (flag_anomalies_for_points
        amounts half_year 12 3
      ≡ ok first)
    × ((july_flag ∷ []) ≡ first ++ rest)
    × FlagsOf half_year first
    × FlagsOf (july ∷ []) rest
flag_anomalies_for_points_lem_example =
    flag_anomalies_for_points_lem amounts half_year (july ∷ half_year) half_year (july ∷ []) 12 3
      (july_flag ∷ []) half_year_ordered longer_ordered july_flagged
