-- ===== src/Bills/Anomalies.antt =====
-- `flag_anomalies_for_points` of clerksan/bills/analysis.py, over any decimals.
pub mod Causal
use clerk_san.Prelude.{
  List, Option, Result, String, [], drop, err, get_elem?, if◌then◌else◌, is_some, leb, length, ltb,
  map, none, not, ok, require, select, some, ℕ, ◌%◌, ◌&&◌, ◌++◌, ◌-◌, ◌/◌, ◌==◌, ◌>>=◌, ◌>>◌, ◌∷◌,
}
use clerk_san.Prelude.Sorting.{sorted}
use clerk_san.Bills.Analysis.{
  AnalysisError, AnomalyFlag, BillPoint, Date, Decimals, Metric, ordered_unique_points,
  same_consumption_unit, unit_price_of, value_error,
}

module _ {Decimal : Type 0} (decimals : Decimals Decimal) where
  abbrev pub element : List Decimal → ℕ → Result AnalysisError Decimal
  element values place = elim (get_elem? values place) [
    | none ↦ err value_error
    | some value ↦ ok value
  ]

  -- What `_median` returns of the ordered values
  abbrev pub middle : List Decimal → Result AnalysisError Decimal
  middle ordered =
      if length ordered % 2 == 1
      then element ordered (length ordered / 2)
      else (element ordered (length ordered / 2 - 1) >>= λ low.
          element ordered (length ordered / 2) >>= λ high. ok (decimals.mean low high))

  unfoldable pub median_of : List Decimal → Result AnalysisError Decimal
  unfolding sorted
  median_of values = do
    require (not (length values == 0)) value_error
    let ordered = sorted decimals.decimal_leb values
    middle ordered

  abbrev pub deviation : Decimal → Decimal → Decimal
  deviation median value = decimals.absolute (decimals.difference value median)

  -- `_metric_anomaly`
  unfoldable pub metric_anomaly :
      Date
      → Metric
      → Decimal
      → List Decimal
      → Decimal
      → Option String
      → Result AnalysisError (Option (AnomalyFlag Decimal))
  unfolding median_of
  metric_anomaly period metric value history threshold unit = do
    median ← median_of history
    mad ← median_of (map (deviation median) history)
    let difference = deviation median value
    let robust_z = decimals.quotient (decimals.scaled difference) mad
    ok (
        if decimals.is_zero mad
        then (if decimals.is_zero difference
            then none
            else some record {
              billing_period = period;
              metric = metric;
              value = value;
              median = median;
              mad = mad;
              robust_z = none;
              unit = unit;
            })
        else if decimals.decimal_leb robust_z threshold
        then none
        else some record {
          billing_period = period;
          metric = metric;
          value = value;
          median = median;
          mad = mad;
          robust_z = some robust_z;
          unit = unit;
        })

  abbrev pub present : List (Option Decimal) → List Decimal
  present [] = []
  present (none ∷ values) = present values
  present (some value ∷ values) = value ∷ present values

  -- The flag if there is one, else what comes next
  abbrev pub or_else :
      Result AnalysisError (Option (AnomalyFlag Decimal))
      → Result AnalysisError (Option (AnomalyFlag Decimal))
      → Result AnalysisError (Option (AnomalyFlag Decimal))
  or_else (err raised) rest = err raised
  or_else (ok none) rest = rest
  or_else (ok (some flag)) rest = ok (some flag)

  -- The check of a metric, where the point has it and the history has it six times
  abbrev pub metric_check :
      Date
      → Metric
      → Option Decimal
      → List Decimal
      → Decimal
      → Option String
      → Result AnalysisError (Option (AnomalyFlag Decimal))
  metric_check period metric none history threshold unit = ok none
  metric_check period metric (some value) history threshold unit =
      if leb 6 (length history)
      then metric_anomaly period metric value history threshold unit
      else ok none

  unfoldable pub point_anomaly :
      BillPoint Decimal
      → List (BillPoint Decimal)
      → Decimal
      → Result AnalysisError (Option (AnomalyFlag Decimal))
  unfolding same_consumption_unit metric_anomaly
  point_anomaly point history threshold =
      let same_unit_history = select (same_consumption_unit decimals point) history in
      let period = point.billing_period in
      or_else
        (if leb 6 (length same_unit_history) && is_some point.consumption_value
          then or_else
              (metric_check period Metric.consumption point.consumption_value
                (present (map (λ item. item.consumption_value) same_unit_history)) threshold
                point.consumption_unit)
              (metric_check period Metric.unit_price (unit_price_of decimals point)
                (present (map (unit_price_of decimals) same_unit_history)) threshold
                point.consumption_unit)
          else ok none)
        (metric_anomaly period Metric.amount point.amount (map (λ item. item.amount) history)
          threshold none)

  abbrev pub flag_list : Option (AnomalyFlag Decimal) → List (AnomalyFlag Decimal)
  flag_list none = []
  flag_list (some flag) = flag ∷ []

  -- The loop, with the points before
  unfoldable pub flags_from :
      ℕ
      → Decimal
      → List (BillPoint Decimal)
      → List (BillPoint Decimal)
      → Result AnalysisError (List (AnomalyFlag Decimal))
  unfolding point_anomaly
  flags_from window threshold before [] = ok []
  flags_from window threshold before (point ∷ points) =
      let history = drop (length before - window) before in
      do
        flag ← (if ltb (length history) 6 then ok none else point_anomaly point history threshold)
        flags ← flags_from window threshold (before ++ (point ∷ [])) points
        ok (flag_list flag ++ flags)

  unfoldable pub flag_anomalies_for_points :
      List (BillPoint Decimal) → ℕ → Decimal → Result AnalysisError (List (AnomalyFlag Decimal))
  unfolding ordered_unique_points flags_from
  flag_anomalies_for_points points window threshold = do
    require (leb 6 window) value_error
    require (not (decimals.decimal_leb threshold decimals.zero_value)) value_error
    ordered ← ordered_unique_points decimals points
    flags_from window threshold [] ordered
