-- ===== src/Bills/Record/Periods.antt =====
-- One bill for an issuer and a period (clerksan/bills/service.py).
use clerk_san.Prelude.{
  All, Bool, Bool-cases, Ensures, Ensures-ok, List, Option-cases, String, [], arith, false, inl,
  inr, is_some, map, none, not, refl, some, str_eq, subst, true, ℕ, ◌&&◌, ◌==◌, ◌∷◌, ◌≡◌,
}
use clerk_san.Bills.Record.{
  Issuer, IssuerKind, Numbers, RecurringBill, Tables, VerifiedRecord, first_row, owns,
  release_period, resolve_issuer, same_kind, status_of, superseded_by, superseded_status,
}

-- No two rows clash.
abbrev pub AreDistinct : {A : Type 0} → (A → A → Bool) → List A → Type 0
AreDistinct clash [] = Unit
AreDistinct clash (row ∷ rows) =
    All (λ other. clash row other ≡ false) rows × AreDistinct clash rows

All-false-map :
    {A : Type 0} (p q : A → Bool) (f : A → A) (rows : List A)
    → ((b : A) → p b ≡ false → q (f b) ≡ false)
    → All (λ row. p row ≡ false) rows
    → All (λ row. q row ≡ false) (map f rows)
All-false-map p q f [] keep h = tt
All-false-map p q f (row ∷ rows) keep h = (keep row h.0, All-false-map p q f rows keep h.1)

AreDistinct-map :
    {A : Type 0} (clash : A → A → Bool) (f : A → A) (rows : List A)
    → ((a b : A) → clash a b ≡ false → clash (f a) (f b) ≡ false)
    → AreDistinct clash rows
    → AreDistinct clash (map f rows)
AreDistinct-map clash f [] keep h = tt
AreDistinct-map clash f (row ∷ rows) keep h = (
  All-false-map (clash row) (clash (f row)) f rows (keep row) h.0,
  AreDistinct-map clash f rows keep h.1,
)

pub first_row-none :
    {A : Type 0} (p : A → Bool) (rows : List A)
    → first_row p rows ≡ none
    → All (λ row. p row ≡ false) rows
first_row-none p [] e = tt
first_row-none p (row ∷ rows) e = elim (Bool-cases (p row)) [
  | inl t ↦ let found : some row ≡ none = rw t at e in absurd (cc)
  | inr f ↦ (f, first_row-none p rows (rw f at e))
]

pub first_row-some :
    {A : Type 0} (p : A → Bool) (rows : List A) (row : A)
    → first_row p rows ≡ some row
    → p row ≡ true
first_row-some p [] row e = absurd (cc)
first_row-some p (head ∷ rows) row e = elim (Bool-cases (p head)) [
  | inl t ↦
      let found : some head ≡ some row = rw t at e in
      let same : head ≡ row = cc in subst (λ r. p r ≡ true) same t
  | inr f ↦ first_row-some p rows row (rw f at e)
]

module _ {Decimal Object : Type 0} (numbers : Numbers Decimal Object) where
  -- Two active bills of one issuer for one period
  abbrev pub same_period : RecurringBill Decimal Object → RecurringBill Decimal Object → Bool
  same_period a b = not (is_some a.superseded_at) && owns numbers a.issuer_id a.billing_period b

  abbrev pub same_source : RecurringBill Decimal Object → RecurringBill Decimal Object → Bool
  same_source a b = b.verified_record_id == a.verified_record_id

  abbrev pub same_name : Issuer → Issuer → Bool
  same_name a b = str_eq b.name a.name

  -- An issuer has at most one active bill for a period, a verified record at most one bill, and a name
  -- at most one issuer.
  pub record IsValid (tables : Tables Decimal Object) : Type 0 where
    pub periods : AreDistinct same_period tables.recurring_bills
    pub sources : AreDistinct same_source tables.recurring_bills
    pub names : AreDistinct same_name tables.issuers

  superseded-same_period :
      (id now : ℕ) (a b : RecurringBill Decimal Object)
      → same_period a b ≡ false
      → same_period (superseded_by numbers id now a) (superseded_by numbers id now b) ≡ false
  superseded-same_period id now a b h = elim (Bool-cases (a.id == id)) [
    | inl t ↦ rw t refl
    | inr f ↦ elim (Bool-cases (b.id == id)) [
      | inl t ↦ rw (f, t) (ground (arith, h))
      | inr g ↦ rw (f, g) h
    ]
  ]

  superseded-same_source :
      (id now : ℕ) (a b : RecurringBill Decimal Object)
      → same_source a b ≡ false
      → same_source (superseded_by numbers id now a) (superseded_by numbers id now b) ≡ false
  superseded-same_source id now a b h = elim (Bool-cases (a.id == id)) [
    | inl t ↦ elim (Bool-cases (b.id == id)) [ inl s ↦ rw (t, s) h | inr g ↦ rw (t, g) h ]
    | inr f ↦ elim (Bool-cases (b.id == id)) [ inl s ↦ rw (f, s) h | inr g ↦ rw (f, g) h ]
  ]

  superseded-owns :
      (id now issuer_id period : ℕ) (b : RecurringBill Decimal Object)
      → owns numbers issuer_id period b ≡ false
      → owns numbers issuer_id period (superseded_by numbers id now b) ≡ false
  superseded-owns id now issuer_id period b h = elim (Bool-cases (b.id == id)) [
    | inl t ↦ rw t refl
    | inr f ↦ rw f h
  ]

  owns-same_period :
      (issuer_id period : ℕ) (a b : RecurringBill Decimal Object)
      → owns numbers issuer_id period a ≡ true
      → same_period a b ≡ false
      → owns numbers issuer_id period b ≡ false
  owns-same_period issuer_id period a b t h = ground (arith, t, h)

  superseded-source :
      (owner now id : ℕ) (b : RecurringBill Decimal Object)
      → (b.verified_record_id == id) ≡ false
      → ((superseded_by numbers owner now b).verified_record_id == id) ≡ false
  superseded-source owner now id b h = elim (Bool-cases (b.id == owner)) [
    | inl s ↦ rw s h
    | inr g ↦ rw g h
  ]

  -- Behind the superseding of its owner the period is free.
  released :
      (issuer_id period now : ℕ) (bills : List (RecurringBill Decimal Object))
      (owner : RecurringBill Decimal Object)
      → AreDistinct same_period bills
      → first_row (owns numbers issuer_id period) bills ≡ some owner
      → All
          (λ bill. owns numbers issuer_id period bill ≡ false)
          (map (superseded_by numbers owner.id now) bills)
  released issuer_id period now [] owner h e = tt
  released issuer_id period now (bill ∷ bills) owner h e =
      elim (Bool-cases (owns numbers issuer_id period bill)) [
        | inl t ↦
            let found : some bill ≡ some owner = rw t at e in
            let same : bill ≡ owner = cc in
            let gone : owns numbers issuer_id period (superseded_by numbers bill.id now bill)
                ≡ false =
              (let itself : (bill.id == bill.id) ≡ true = ground arith in rw itself refl) in
            subst
              (λ (o : RecurringBill Decimal Object).
                All (λ b. owns numbers issuer_id period b ≡ false)
                  (map (superseded_by numbers o.id now) (bill ∷ bills)))
              same
              (
                gone,
                All-false-map (same_period bill) (owns numbers issuer_id period)
                    (superseded_by numbers bill.id now) bills
                    (λ b k.
                      superseded-owns bill.id now issuer_id period b
                        (owns-same_period issuer_id period bill b t k))
                    h.0,
              )
        | inr f ↦ (
          superseded-owns owner.id now issuer_id period bill f,
          released issuer_id period now bills owner h.1 (rw f at e),
        )
      ]

  abbrev pub Released : ℕ → ℕ → Tables Decimal Object → List (RecurringBill Decimal Object) → Type 0
  Released issuer_id period tables bills =
      AreDistinct same_period bills
      × AreDistinct same_source bills
      × All (λ bill. owns numbers issuer_id period bill ≡ false) bills
      × ((id : ℕ)
          → All (λ bill. (bill.verified_record_id == id) ≡ false) tables.recurring_bills
          → All (λ bill. (bill.verified_record_id == id) ≡ false) bills)

  pub release_period-Released :
      (issuer_id period : ℕ) (verified : VerifiedRecord Decimal) (now : ℕ)
      (tables : Tables Decimal Object)
      → IsValid tables
      → Ensures
          (Released issuer_id period tables)
          (release_period numbers issuer_id period verified now tables)
  unfolding release_period
  release_period-Released issuer_id period verified now tables h =
      elim (Option-cases (first_row (owns numbers issuer_id period) tables.recurring_bills)) [
        | inl e ↦
            rw (e, release_period)
              (Ensures-ok tables.recurring_bills (
                h.periods,
                h.sources,
                first_row-none (owns numbers issuer_id period) tables.recurring_bills e,
                λ id k. k,
              ))
        | inr (owner, e) ↦
            rw (e, release_period)
              (elim (Bool-cases (
                owner.document_id == verified.document_id
                && superseded_status (
                    status_of numbers (
                      first_row (λ row. row.id == owner.verified_record_id)
                        tables.verified_records)))) [
                          | inl t ↦ rw t (
                              Ensures-ok
                                (map (superseded_by numbers owner.id now) tables.recurring_bills)
                                (
                                  AreDistinct-map same_period (superseded_by numbers owner.id now)
                                      tables.recurring_bills (superseded-same_period owner.id now)
                                      h.periods,
                                  AreDistinct-map same_source (superseded_by numbers owner.id now)
                                      tables.recurring_bills (superseded-same_source owner.id now)
                                      h.sources,
                                  released issuer_id period now tables.recurring_bills owner
                                      h.periods e,
                                  λ id k.
                                      All-false-map
                                        (λ (b : RecurringBill Decimal Object).
                                          b.verified_record_id == id)
                                        (λ b. b.verified_record_id == id)
                                        (superseded_by numbers owner.id now) tables.recurring_bills
                                        (superseded-source owner.id now id) k,
                                ))
                          | inr f ↦ rw f record { at = λ a k. absurd (cc) }
                        ])
      ]

  pub resolve_issuer-AreDistinct :
      (name : String) (kind : IssuerKind) (fresh : ℕ) (issuers : List Issuer)
      → AreDistinct same_name issuers
      → Ensures
          (λ resolved. AreDistinct same_name resolved.1)
          (resolve_issuer numbers name kind fresh issuers)
  unfolding resolve_issuer
  resolve_issuer-AreDistinct name kind fresh issuers h =
      elim (Option-cases (first_row (λ issuer. str_eq issuer.name name) issuers)) [
        | inl e ↦
            rw (e, resolve_issuer)
              (Ensures-ok _
                (first_row-none (λ (issuer : Issuer). str_eq issuer.name name) issuers e, h))
        | inr (issuer, e) ↦
            rw (e, resolve_issuer)
              (elim (Bool-cases (same_kind issuer.kind kind)) [
                | inl t ↦ rw t (Ensures-ok (issuer, issuers) h)
                | inr f ↦ rw f record { at = λ a k. absurd (cc) }
              ])
      ]
