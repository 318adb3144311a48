-- ===== src/Bills/Analysis/References.antt =====
-- The periods that a bill is compared with (clerksan/bills/analysis.py).
use clerk_san.Prelude.{
  >>=-eq-ok, Bool-cases, Ensures, Ensures-bind, Ensures-ok, In, List, Option, Option-cases, String,
  [], arith, false, inl, inr, ltb, none, ok, ok_injective, refl, require, some, subst, sym, true, ℕ,
  ◌*◌, ◌+◌, ◌-◌, ◌↔◌, ◌∷◌, ◌≡◌, ◌≤◌,
}
use clerk_san.Prelude.Sorting.Laws.{In-sorted, sorted-In}
use clerk_san.Prelude.Sorting.{sorted}
use clerk_san.Bills.Analysis.{
  BillPoint, Date, Decimals, PeriodDelta, ReferenceDelta, all_well_formed, compare_points, date_leb,
  find_period, last_months, months_given, ordered_unique_points, period_delta, period_deltas,
  reference_delta, same_date, shift_back, unique_periods, value_error,
}

-- Months since the year 0
abbrev pub month_number : Date → ℕ
month_number date = date.year * 12 + date.month - 1

-- So many months back, to the month's first day
pub record IsBack (months : ℕ) (value back : Date) : Type 0 where
  pub count : month_number back + months ≡ month_number value
  pub first_day : back.day ≡ 1
  pub month_low : 1 ≤ back.month
  pub month_high : back.month ≤ 12
  pub year_low : 1 ≤ back.year

shift_back-IsBack :
    (value : Date) (months : ℕ) → Ensures (IsBack months value) (shift_back value months)
unfolding shift_back
shift_back-IsBack value months = elim (Bool-cases (ltb (month_number value) (months + 12))) [
  | inl t ↦ rw t record { at = λ a r. absurd (cc) }
  | inr f ↦
      let enough : months + 12 ≤ month_number value = ground (arith, f) in
      rw f (
        Ensures-ok _ record {
          count = omega (arith, enough);
          first_day = refl;
          month_low = omega arith;
          month_high = omega arith;
          year_low = omega (arith, enough);
        })
]

module _ {Decimal : Type 0} (decimals : Decimals Decimal) where
  find_period-none :
      (points : List (BillPoint Decimal)) (period : Date)
      → find_period decimals points period ≡ none
      → (other : BillPoint Decimal) → In other points
      → same_date other.billing_period period ≡ false
  unfolding find_period
  find_period-none [] period e other m = absurd m
  find_period-none (point ∷ points) period e other m =
      elim (Bool-cases (same_date point.billing_period period)) [
        | inl t ↦ let found : some point ≡ none = rw t at e in absurd (cc)
        | inr f ↦ elim m [
          | inl here ↦
              subst (λ (o : BillPoint Decimal). same_date o.billing_period period ≡ false)
                (sym here) f
          | inr later ↦ find_period-none points period (rw f at e) other later
        ]
      ]

  find_period-some :
      (points : List (BillPoint Decimal)) (period : Date) (other : BillPoint Decimal)
      → find_period decimals points period ≡ some other
      → In other points × (same_date other.billing_period period ≡ true)
  unfolding find_period
  find_period-some [] period other e = absurd (cc)
  find_period-some (point ∷ points) period other e =
      elim (Bool-cases (same_date point.billing_period period)) [
        | inl t ↦
            let found : some point ≡ some other = rw t at e in
            let same : point ≡ other = cc in
            (
              inl (sym same),
              subst (λ (o : BillPoint Decimal). same_date o.billing_period period ≡ true) same t,
            )
        | inr f ↦ let (m, s) = find_period-some points period other (rw f at e) in (inr m, s)
      ]

  -- The comparison of a point with the month so many months back
  pub record IsReference (points : List (BillPoint Decimal)) (point : BillPoint Decimal)
      (months : ℕ) (delta : ReferenceDelta Decimal) : Type 0 where
    pub period : IsBack months point.billing_period delta.reference_period
    pub missing :
        delta.missing_reference ≡ true
        → (other : BillPoint Decimal) → In other points
        → same_date other.billing_period delta.reference_period ≡ false
    pub compared :
        delta.missing_reference ≡ false
        → (other : BillPoint Decimal) × In other points
          × (same_date other.billing_period delta.reference_period ≡ true)
          × (delta.amount_delta ≡ some (decimals.difference point.amount other.amount))

  reference_delta-IsReference :
      (ordered points : List (BillPoint Decimal)) (point : BillPoint Decimal) (months : ℕ)
      (reference : String) (back : Date)
      → ((other : BillPoint Decimal) → In other points ↔ In other ordered)
      → IsBack months point.billing_period back
      → IsReference points point months
          (reference_delta decimals point (find_period decimals ordered back) reference back)
  unfolding reference_delta
  reference_delta-IsReference ordered points point months reference back same h =
      elim (Option-cases (find_period decimals ordered back)) [
        | inl e ↦
            rw (e, reference_delta)
              record {
                period = h;
                missing = λ m other k. find_period-none ordered back e other ((same other).0 k);
                compared = λ m. absurd (cc);
              }
        | inr (other, e) ↦
            let (stands, its) = find_period-some ordered back other e in
            rw (e, reference_delta)
              record {
                period = h;
                missing = λ m. absurd (cc);
                compared = λ m. (other, (same other).1 stands, its, refl);
              }
      ]

  -- A row of the comparison
  pub record IsDelta (points : List (BillPoint Decimal)) (point : BillPoint Decimal)
      (delta : PeriodDelta Decimal) : Type 0 where
    pub of_period : delta.billing_period ≡ point.billing_period
    pub of_amount : delta.amount ≡ point.amount
    pub month : IsReference points point 1 delta.month_over_month
    pub year : IsReference points point 12 delta.year_over_year

  -- The rows are of these points, in their order.
  abbrev pub AreDeltas :
      List (BillPoint Decimal) → List (BillPoint Decimal) → List (PeriodDelta Decimal) → Type 0
  AreDeltas points [] [] = Unit
  AreDeltas points [] (delta ∷ deltas) = ⊥
  AreDeltas points (point ∷ selected) [] = ⊥
  AreDeltas points (point ∷ selected) (delta ∷ deltas) =
      IsDelta points point delta × AreDeltas points selected deltas

  period_deltas-AreDeltas :
      (ordered points selected : List (BillPoint Decimal))
      → ((other : BillPoint Decimal) → In other points ↔ In other ordered)
      → Ensures (AreDeltas points selected) (period_deltas decimals ordered selected)
  unfolding period_deltas period_delta
  period_deltas-AreDeltas ordered points [] same = Ensures-ok [] tt
  period_deltas-AreDeltas ordered points (point ∷ selected) same =
      Ensures-bind (period_delta decimals ordered point) _ λ delta d.
        Ensures-bind (period_deltas decimals ordered selected) _ λ deltas r.
          Ensures-ok (delta ∷ deltas) (
            (one point).at delta d,
            (period_deltas-AreDeltas ordered points selected same).at deltas r,
          )
    where
      one :
          (point : BillPoint Decimal)
          → Ensures (IsDelta points point) (period_delta decimals ordered point)
      one point = Ensures-bind (shift_back point.billing_period 1) _ λ last_month m.
          Ensures-bind (shift_back point.billing_period 12) _ λ last_year y. Ensures-ok _ record {
            of_period = refl;
            of_amount = refl;
            month =
                reference_delta-IsReference ordered points point 1 "previous_month" last_month same
                  ((shift_back-IsBack point.billing_period 1).at last_month m);
            year =
                reference_delta-IsReference ordered points point 12 "same_month_last_year" last_year
                  same ((shift_back-IsBack point.billing_period 12).at last_year y);
          }

  ordered_unique_points-eq-sorted :
      (points ordered : List (BillPoint Decimal))
      → ordered_unique_points decimals points ≡ ok ordered
      → sorted (λ (a b : BillPoint Decimal). date_leb a.billing_period b.billing_period) points
        ≡ ordered
  unfolding ordered_unique_points
  ordered_unique_points-eq-sorted points ordered e =
      let (a, _, e1) =
        >>=-eq-ok
          (require
            (unique_periods decimals (
              sorted (λ (a b : BillPoint Decimal). date_leb a.billing_period b.billing_period)
                points))
            value_error)
          _ e in
      let (b, _, e2) =
        >>=-eq-ok
          (require
            (all_well_formed decimals (
              sorted (λ (a b : BillPoint Decimal). date_leb a.billing_period b.billing_period)
                points))
            value_error)
          _ e1 in
      ok_injective e2

  -- Every comparison that is returned has one row for each of the selected points, which are the last
  -- ones in the order of their periods. Each row is compared with the first of the month one month
  -- before and with that twelve months before, across the turn of a year too; it is marked as having no
  -- reference exactly if no given point has that period, and its difference is otherwise that to such a
  -- point's amount.
  pub compare_points_lem :
      (points : List (BillPoint Decimal)) (months : Option ℕ)
      → Ensures
          (AreDeltas points (
            last_months decimals months
              (sorted (λ a b. date_leb a.billing_period b.billing_period) points)))
          (compare_points decimals points months)
  unfolding compare_points
  compare_points_lem points months =
      let by_period = λ (a b : BillPoint Decimal). date_leb a.billing_period b.billing_period in
      Ensures-bind (require (months_given decimals months) value_error) _ λ a _.
        Ensures-bind (ordered_unique_points decimals points) _ λ ordered o.
          let same = ordered_unique_points-eq-sorted points ordered o in
          subst
            (λ s.
              Ensures (AreDeltas points (last_months decimals months s))
                (period_deltas decimals ordered (last_months decimals months ordered)))
            (sym same)
            (period_deltas-AreDeltas ordered points (last_months decimals months ordered) (λ other.
              (
                λ m. subst (In other) same (sorted-In by_period other points m),
                λ m. In-sorted by_period other points (subst (In other) (sym same) m),
              )))
