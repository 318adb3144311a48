-- ===== src/Bills/Analysis.antt =====
-- `compare_points` of clerksan/bills/analysis.py, over any decimals.
pub mod References
use clerk_san.Prelude.{
  Bool, List, Option, Result, String, [], drop, err, false, if◌then◌else◌, is_some, leb, length,
  ltb, none, not, ok, require, some, str_eq, true, ℕ, ◌%◌, ◌&&◌, ◌*◌, ◌+◌, ◌-◌, ◌/◌, ◌==◌, ◌>>=◌,
  ◌>>◌, ◌||◌, ◌∷◌,
}
use clerk_san.Prelude.Strings.{is_empty}
use clerk_san.Prelude.Sorting.{sorted}

pub data AnalysisError : Type 0 where
  value_error : AnalysisError

pub record Date : Type 0 where
  pub year : ℕ
  pub month : ℕ
  pub day : ℕ

abbrev pub same_date : Date → Date → Bool
same_date a b = a.year == b.year && a.month == b.month && a.day == b.day

abbrev pub date_leb : Date → Date → Bool
date_leb a b =
    ltb a.year b.year
    || (a.year == b.year && (ltb a.month b.month || (a.month == b.month && leb a.day b.day)))

-- `_shift_month` by so many months back. A year before the first raises.
unfoldable pub shift_back : Date → ℕ → Result AnalysisError Date
shift_back value months =
    let month_index = value.year * 12 + value.month - 1 in
    if ltb month_index (months + 12)
    then err value_error
    else ok record {
      year = (month_index - months) / 12;
      month = (month_index - months) % 12 + 1;
      day = 1;
    }

-- The standard library's decimals, as far as the code uses them
pub record Decimals (Decimal : Type 0) : Type 0 where
  pub decimal_leb : Decimal → Decimal → Bool
  pub zero_value : Decimal
  pub is_zero : Decimal → Bool
  pub difference : Decimal → Decimal → Decimal
  pub absolute : Decimal → Decimal
  pub quotient : Decimal → Decimal → Decimal
  pub mean : Decimal → Decimal → Decimal
  pub scaled : Decimal → Decimal

pub record BillPoint (Decimal : Type 0) : Type 0 where
  pub billing_period : Date
  pub amount : Decimal
  pub consumption_value : Option Decimal
  pub consumption_unit : Option String

pub record ReferenceDelta (Decimal : Type 0) : Type 0 where
  pub reference : String
  pub reference_period : Date
  pub missing_reference : Bool
  pub amount_delta : Option Decimal
  pub consumption_delta : Option Decimal
  pub unit_price_delta : Option Decimal

pub record PeriodDelta (Decimal : Type 0) : Type 0 where
  pub billing_period : Date
  pub amount : Decimal
  pub consumption : Option Decimal
  pub consumption_unit : Option String
  pub unit_price : Option Decimal
  pub month_over_month : ReferenceDelta Decimal
  pub year_over_year : ReferenceDelta Decimal

pub data Metric : Type 0 where
  amount consumption unit_price : Metric

-- The explanation is a text of the metric, the unit and whether there is a deviation.
pub record AnomalyFlag (Decimal : Type 0) : Type 0 where
  pub billing_period : Date
  pub metric : Metric
  pub value : Decimal
  pub median : Decimal
  pub mad : Decimal
  pub robust_z : Option Decimal
  pub unit : Option String

module _ {Decimal : Type 0} (decimals : Decimals Decimal) where
  abbrev pub has_unit : Option String → Bool
  has_unit none = false
  has_unit (some unit) = not (is_empty unit)

  -- The checks of one point
  unfoldable pub well_formed : BillPoint Decimal → Bool
  well_formed point =
      point.billing_period.day == 1
      && not (not (is_some point.consumption_value) && is_some point.consumption_unit)
      && not (is_some point.consumption_value && not (has_unit point.consumption_unit))

  -- The first point of a period
  unfoldable pub find_period : List (BillPoint Decimal) → Date → Option (BillPoint Decimal)
  find_period [] period = none
  find_period (point ∷ points) period =
      if same_date point.billing_period period then some point else find_period points period

  unfoldable pub unique_periods : List (BillPoint Decimal) → Bool
  unfolding find_period
  unique_periods [] = true
  unique_periods (point ∷ points) =
      not (is_some (find_period points point.billing_period)) && unique_periods points

  abbrev pub all_well_formed : List (BillPoint Decimal) → Bool
  all_well_formed [] = true
  all_well_formed (point ∷ points) = well_formed point && all_well_formed points

  unfoldable pub ordered_unique_points :
      List (BillPoint Decimal) → Result AnalysisError (List (BillPoint Decimal))
  unfolding sorted unique_periods well_formed
  ordered_unique_points points = do
    let ordered = sorted (λ a b. date_leb a.billing_period b.billing_period) points
    require (unique_periods ordered) value_error
    require (all_well_formed ordered) value_error
    ok ordered

  -- `_unit_price`
  abbrev pub unit_price_of : BillPoint Decimal → Option Decimal
  unit_price_of point = elim point.consumption_value [
    | none ↦ none
    | some value ↦
        if decimals.is_zero value then none else some (decimals.quotient point.amount value)
  ]

  abbrev pub same_unit : Option String → Option String → Bool
  same_unit (some a) (some b) = not (is_empty a) && str_eq a b
  same_unit _ _ = false

  unfoldable pub same_consumption_unit : BillPoint Decimal → BillPoint Decimal → Bool
  same_consumption_unit left right =
      is_some left.consumption_value
      && is_some right.consumption_value
      && same_unit left.consumption_unit right.consumption_unit

  abbrev pub delta_of : Bool → Option Decimal → Option Decimal → Option Decimal
  delta_of true (some a) (some b) = some (decimals.difference a b)
  delta_of _ _ _ = none

  unfoldable pub reference_delta :
      BillPoint Decimal → Option (BillPoint Decimal) → String → Date → ReferenceDelta Decimal
  unfolding same_consumption_unit
  reference_delta point none reference expected_period = record {
    reference = reference;
    reference_period = expected_period;
    missing_reference = true;
    amount_delta = none;
    consumption_delta = none;
    unit_price_delta = none;
  }
  reference_delta point (some other) reference expected_period = record {
    reference = reference;
    reference_period = expected_period;
    missing_reference = false;
    amount_delta = some (decimals.difference point.amount other.amount);
    consumption_delta =
        delta_of (same_consumption_unit point other) point.consumption_value
          other.consumption_value;
    unit_price_delta =
        delta_of (same_consumption_unit point other) (unit_price_of point) (unit_price_of other);
  }

  -- One row of the comparison
  unfoldable pub period_delta :
      List (BillPoint Decimal) → BillPoint Decimal → Result AnalysisError (PeriodDelta Decimal)
  unfolding shift_back find_period reference_delta
  period_delta ordered point = do
    last_month ← shift_back point.billing_period 1
    last_year ← shift_back point.billing_period 12
    ok record {
      billing_period = point.billing_period;
      amount = point.amount;
      consumption = point.consumption_value;
      consumption_unit = point.consumption_unit;
      unit_price = unit_price_of point;
      month_over_month =
          reference_delta point (find_period ordered last_month) "previous_month" last_month;
      year_over_year =
          reference_delta point (find_period ordered last_year) "same_month_last_year" last_year;
    }

  unfoldable pub period_deltas :
      List (BillPoint Decimal)
      → List (BillPoint Decimal)
      → Result AnalysisError (List (PeriodDelta Decimal))
  unfolding period_delta
  period_deltas ordered [] = ok []
  period_deltas ordered (point ∷ selected) = do
    delta ← period_delta ordered point
    deltas ← period_deltas ordered selected
    ok (delta ∷ deltas)

  -- `ordered[-months:]`
  abbrev pub last_months : Option ℕ → List (BillPoint Decimal) → List (BillPoint Decimal)
  last_months none ordered = ordered
  last_months (some months) ordered = drop (length ordered - months) ordered

  abbrev pub months_given : Option ℕ → Bool
  months_given none = true
  months_given (some months) = leb 1 months

  unfoldable pub compare_points :
      List (BillPoint Decimal) → Option ℕ → Result AnalysisError (List (PeriodDelta Decimal))
  unfolding ordered_unique_points period_deltas
  compare_points points months = do
    require (months_given months) value_error
    ordered ← ordered_unique_points points
    period_deltas ordered (last_months months ordered)
