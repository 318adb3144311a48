-- ===== src/Bills/Anomalies/Causal.antt =====
-- A flag depends only on the periods before it (clerksan/bills/analysis.py).
use clerk_san.Prelude.{
  >>=-eq-ok, Bool, Bool-cases, Ensures, Ensures-bind, Ensures-ok, List, Option, Result, String, [],
  ap, append_assoc, append_nil, drop, err, false, if◌then◌else◌, inl, inr, is_some, leb, length,
  ltb, map, none, not, ok, ok_injective, refl, require, select, some, subst, sym, true, ℕ, ◌&&◌,
  ◌++◌, ◌-◌, ◌∙◌, ◌∷◌, ◌≡◌,
}
use clerk_san.Bills.Analysis.{
  AnalysisError, AnomalyFlag, BillPoint, Date, Decimals, Metric, ordered_unique_points,
  same_consumption_unit, unit_price_of, value_error,
}
use clerk_san.Bills.Anomalies.{
  deviation, flag_anomalies_for_points, flag_list, flags_from, median_of, metric_anomaly,
  metric_check, or_else, point_anomaly, present,
}

-- The flags are of these points, in their order, and each point has at most one.
pub data FlagsOf {Decimal : Type 0}
    : List (BillPoint Decimal) → List (AnomalyFlag Decimal) → Type 0 where
  nothing : FlagsOf [] []
  unflagged :
      {points : List (BillPoint Decimal)} {flags : List (AnomalyFlag Decimal)}
      (point : BillPoint Decimal)
      → FlagsOf points flags
      → FlagsOf (point ∷ points) flags
  flagged :
      {points : List (BillPoint Decimal)} {flags : List (AnomalyFlag Decimal)}
      (point : BillPoint Decimal) (flag : AnomalyFlag Decimal)
      → flag.billing_period ≡ point.billing_period
      → FlagsOf points flags
      → FlagsOf (point ∷ points) (flag ∷ flags)

module _ {Decimal : Type 0} (decimals : Decimals Decimal) where
  abbrev OfPeriod : Date → Option (AnomalyFlag Decimal) → Type 0
  OfPeriod period none = Unit
  OfPeriod period (some flag) = flag.billing_period ≡ period

  either-OfPeriod :
      (period : Date) (test : Bool) (first rest : Option (AnomalyFlag Decimal))
      → OfPeriod period first
      → OfPeriod period rest
      → OfPeriod period (if test then first else rest)
  either-OfPeriod period true first rest h k = h
  either-OfPeriod period false first rest h k = k

  metric_anomaly-OfPeriod :
      (period : Date) (metric : Metric) (value : Decimal) (history : List Decimal)
      (threshold : Decimal) (unit : Option String)
      → Ensures
          (OfPeriod period)
          (metric_anomaly decimals period metric value history threshold unit)
  unfolding metric_anomaly
  metric_anomaly-OfPeriod period metric value history threshold unit =
      Ensures-bind (median_of decimals history) _ λ median _.
        Ensures-bind (median_of decimals (map (deviation decimals median) history)) _ λ mad _.
          let difference = deviation decimals median value in
          let robust_z = decimals.quotient (decimals.scaled difference) mad in
          let flag : Option Decimal → AnomalyFlag Decimal = (λ z. record {
            billing_period = period;
            metric = metric;
            value = value;
            median = median;
            mad = mad;
            robust_z = z;
            unit = unit;
          }) in
          Ensures-ok _ (
            either-OfPeriod period (decimals.is_zero mad)
              (if decimals.is_zero difference then none else some (flag none))
              (if decimals.decimal_leb robust_z threshold
                then none
                else some (flag (some robust_z)))
              (either-OfPeriod period (decimals.is_zero difference) none (some (flag none)) tt refl)
              (either-OfPeriod period (decimals.decimal_leb robust_z threshold) none
                (some (flag (some robust_z))) tt refl))

  or_else-OfPeriod :
      (period : Date) (first rest : Result AnalysisError (Option (AnomalyFlag Decimal)))
      → Ensures (OfPeriod period) first
      → Ensures (OfPeriod period) rest
      → Ensures (OfPeriod period) (or_else decimals first rest)
  or_else-OfPeriod period (err e) rest h k = record { at = λ a r. absurd (cc) }
  or_else-OfPeriod period (ok none) rest h k = k
  or_else-OfPeriod period (ok (some flag)) rest h k = h

  none-OfPeriod : (period : Date) → Ensures {E = AnalysisError} (OfPeriod period) (ok none)
  none-OfPeriod period = Ensures-ok none tt

  metric_check-OfPeriod :
      (period : Date) (metric : Metric) (value : Option Decimal) (history : List Decimal)
      (threshold : Decimal) (unit : Option String)
      → Ensures (OfPeriod period) (metric_check decimals period metric value history threshold unit)
  metric_check-OfPeriod period metric none history threshold unit = none-OfPeriod period
  metric_check-OfPeriod period metric (some value) history threshold unit =
      elim (Bool-cases (leb 6 (length history))) [
        | inl t ↦ rw t (metric_anomaly-OfPeriod period metric value history threshold unit)
        | inr f ↦ rw f (none-OfPeriod period)
      ]

  if-OfPeriod :
      (period : Date) (test : Bool)
      (first rest : Result AnalysisError (Option (AnomalyFlag Decimal)))
      → Ensures (OfPeriod period) first
      → Ensures (OfPeriod period) rest
      → Ensures (OfPeriod period) (if test then first else rest)
  if-OfPeriod period true first rest h k = h
  if-OfPeriod period false first rest h k = k

  point_anomaly-OfPeriod :
      (point : BillPoint Decimal) (history : List (BillPoint Decimal)) (threshold : Decimal)
      → Ensures (OfPeriod point.billing_period) (point_anomaly decimals point history threshold)
  unfolding point_anomaly
  point_anomaly-OfPeriod point history threshold =
      let period = point.billing_period in
      let same_unit_history = select (same_consumption_unit decimals point) history in
      let values =
        present decimals
          (map (λ (item : BillPoint Decimal). item.consumption_value) same_unit_history) in
      let unit_history = present decimals (map (unit_price_of decimals) same_unit_history) in
      let consumptions =
        metric_check decimals period Metric.consumption point.consumption_value values threshold
          point.consumption_unit in
      let prices =
        metric_check decimals period Metric.unit_price (unit_price_of decimals point) unit_history
          threshold point.consumption_unit in
      or_else-OfPeriod period
        (if leb 6 (length same_unit_history) && is_some point.consumption_value
          then or_else decimals consumptions prices
          else ok none)
        (metric_anomaly decimals period Metric.amount point.amount
          (map (λ (item : BillPoint Decimal). item.amount) history) threshold none)
        (if-OfPeriod period (leb 6 (length same_unit_history) && is_some point.consumption_value)
          (or_else decimals consumptions prices) (ok none)
          (or_else-OfPeriod period consumptions prices
            (metric_check-OfPeriod period Metric.consumption point.consumption_value values
              threshold point.consumption_unit)
            (metric_check-OfPeriod period Metric.unit_price (unit_price_of decimals point)
              unit_history threshold point.consumption_unit))
          (none-OfPeriod period))
        (metric_anomaly-OfPeriod period Metric.amount point.amount
          (map (λ (item : BillPoint Decimal). item.amount) history) threshold none)

  flags_from-FlagsOf :
      (window : ℕ) (threshold : Decimal) (points before : List (BillPoint Decimal))
      → Ensures (FlagsOf points) (flags_from decimals window threshold before points)
  unfolding flags_from
  flags_from-FlagsOf window threshold [] before = Ensures-ok [] nothing
  flags_from-FlagsOf window threshold (point ∷ points) before =
      let history = drop (length before - window) before in
      let own =
        if-OfPeriod point.billing_period (ltb (length history) 6) (ok none)
          (point_anomaly decimals point history threshold) (none-OfPeriod point.billing_period)
          (point_anomaly-OfPeriod point history threshold) in
      Ensures-bind
        (if ltb (length history) 6 then ok none else point_anomaly decimals point history threshold)
        _
        λ flag f.
          Ensures-bind (flags_from decimals window threshold (before ++ (point ∷ [])) points) _
            λ flags r. Ensures-ok _ (
              with_flag point flag points flags (own.at flag f)
                ((flags_from-FlagsOf window threshold points (before ++ (point ∷ []))).at flags r))
    where
      with_flag :
          (point : BillPoint Decimal) (flag : Option (AnomalyFlag Decimal))
          (points : List (BillPoint Decimal)) (flags : List (AnomalyFlag Decimal))
          → OfPeriod point.billing_period flag
          → FlagsOf points flags
          → FlagsOf (point ∷ points) (flag_list decimals flag ++ flags)
      with_flag point none points flags h k = unflagged point k
      with_flag point (some flag) points flags h k = flagged point flag h k

  -- The loop over a longer series
  flags_from-append :
      (window : ℕ) (threshold : Decimal) (before xs ys : List (BillPoint Decimal))
      (flags : List (AnomalyFlag Decimal))
      → flags_from decimals window threshold before (xs ++ ys) ≡ ok flags
      → (first : List (AnomalyFlag Decimal)) × (rest : List (AnomalyFlag Decimal)) × (flags_from
            decimals window threshold before xs
          ≡ ok first)
        × (flags_from decimals window threshold (before ++ xs) ys ≡ ok rest)
        × (flags ≡ first ++ rest)
  unfolding flags_from
  flags_from-append window threshold before [] ys flags e = (
    [],
    flags,
    refl,
    subst (λ past. flags_from decimals window threshold past ys ≡ ok flags)
        (sym (append_nil before)) e,
    refl,
  )
  flags_from-append window threshold before (point ∷ xs) ys flags e =
      let own =
        (if ltb (length (drop (length before - window) before)) 6
          then ok none
          else point_anomaly decimals point (drop (length before - window) before) threshold) in
      let (flag, f, e1) = >>=-eq-ok own _ e in
      let (flags_behind, r, e2) =
        >>=-eq-ok (flags_from decimals window threshold (before ++ (point ∷ [])) (xs ++ ys)) _ e1 in
      let (first, rest, a, b, same) =
        flags_from-append window threshold (before ++ (point ∷ [])) xs ys flags_behind r in
      let joined : flags_from decimals window threshold before (point ∷ xs)
          ≡ ok (flag_list decimals flag ++ first) =
        rw f (rw a refl) in
      (
        flag_list decimals flag ++ first,
        rest,
        joined,
        subst (λ past. flags_from decimals window threshold past ys ≡ ok rest)
            (append_assoc before (point ∷ []) xs) b,
        sym (ok_injective e2)
            ∙ ap (λ behind. flag_list decimals flag ++ behind) same
            ∙ sym (append_assoc (flag_list decimals flag) first rest),
      )

  -- Where a series, in order, is the start of a longer one, and the longer one is flagged without an
  -- error, so is the shorter one, and its flags are the start of the longer one's: later periods never
  -- change the flag of an earlier one. The flags of both parts stand in the order of the periods, and no
  -- point has more than one.
  pub flag_anomalies_for_points_lem :
      (points longer ordered later : List (BillPoint Decimal)) (window : ℕ) (threshold : Decimal)
      (flags : List (AnomalyFlag Decimal))
      → ordered_unique_points decimals points ≡ ok ordered
      → ordered_unique_points decimals longer ≡ ok (ordered ++ later)
      → flag_anomalies_for_points decimals longer window threshold ≡ ok flags
      → (first : List (AnomalyFlag Decimal)) × (rest : List (AnomalyFlag Decimal))
        × (flag_anomalies_for_points decimals points window threshold ≡ ok first)
        × (flags ≡ first ++ rest)
        × FlagsOf ordered first
        × FlagsOf later rest
  unfolding flag_anomalies_for_points
  flag_anomalies_for_points_lem points longer ordered later window threshold flags short long e =
      let (a, wide, e1) = >>=-eq-ok (require (leb 6 window) value_error) _ e in
      let (b, positive, e2) =
        >>=-eq-ok (require (not (decimals.decimal_leb threshold decimals.zero_value)) value_error) _
          e1 in
      let flagged_all : flags_from decimals window threshold [] (ordered ++ later) ≡ ok flags =
        rw long at e2 in
      let (first, rest, f, r, same) =
        flags_from-append window threshold [] ordered later flags flagged_all in
      let shorter : flag_anomalies_for_points decimals points window threshold ≡ ok first =
        rw (wide, positive, short) f in
      (
        first,
        rest,
        shorter,
        same,
        (flags_from-FlagsOf window threshold ordered []).at first f,
        (flags_from-FlagsOf window threshold later ordered).at rest r,
      )
