-- ===== src/Intake/Reserve/Exclusive.antt =====
-- An upload key is new for one session alone (clerksan/db/repositories.py,
-- `SourceIntakeRepo.reserve_upload_idempotency`).
use clerk_san.Intake.Fields.{validate_digest}
use clerk_san.Intake.Transition.{find}
use clerk_san.Intake.Row.{SourceIntake}
use clerk_san.Prelude.{
  >>=-eq-ok, Bool, Bool-cases, List, Option, Option-cases, String, ap, arith, false, inl, inr,
  is_some, none, ok, ok_injective, refl, some, str_eq, subst, sym, true, ℕ, ◌&&◌, ◌>>=◌, ◌∙◌, ◌≡◌,
  ◌≢◌,
}
use clerk_san.Intake.Reserve.{
  KeyArgument, Reservation, Session, Surroundings, UploadIdempotency, fresh_upload, held,
  insert_reservation, normalize_key, pruned, replay_bound, reserve_key, reserve_upload_idempotency,
  reserved, resolve, resolve_bound, validate_sha256,
}

-- The key has a row.
abbrev pub IsReserved : ℕ → Session → Type 0
IsReserved key session = is_some (reserved key session.reservations) ≡ true

abbrev is_fresh : UploadIdempotency → Bool
is_fresh fresh_upload = true
is_fresh _ = false

module _ (env : Surroundings) (key : ℕ) (sha256 intent : String) where
  replay_bound-is_fresh : (o : Option SourceIntake) → is_fresh (replay_bound env key o) ≡ false
  replay_bound-is_fresh none = refl
  replay_bound-is_fresh (some intake) = ground arith

  resolve_bound-is_fresh : (o : Option ℕ) → is_fresh (resolve_bound env false key o) ≡ false
  resolve_bound-is_fresh none = refl
  resolve_bound-is_fresh (some intake_id) = replay_bound-is_fresh (find intake_id env.intakes)

  resolve-foreign :
      (o : Option Reservation) (outcome : UploadIdempotency)
      → resolve env false key sha256 intent o ≡ ok outcome
      → is_fresh outcome ≡ false
  resolve-foreign none outcome e = cc
  resolve-foreign (some row) outcome e =
      elim (Bool-cases (str_eq row.source_sha256 sha256 && str_eq row.intent_digest intent)) [
        | inl t ↦
            subst (λ o. is_fresh o ≡ false) (ok_injective (rw t at e))
              (resolve_bound-is_fresh row.source_intake_id)
        | inr f ↦ subst (λ o. is_fresh o ≡ false) (ok_injective (rw f at e)) refl
      ]

  resolve-found :
      (owned : Bool) (o : Option Reservation) (outcome : UploadIdempotency)
      → resolve env owned key sha256 intent o ≡ ok outcome
      → is_some o ≡ true
  resolve-found owned none outcome e = cc
  resolve-found owned (some row) outcome e = refl

  -- To a session that does not own the key, a reserved key stays as it is.
  reserve_key-foreign :
      (session : Session)
      → IsReserved key session
      → held key session.owned ≡ false
      → reserve_key env session key sha256 intent ≡ (
          resolve env false key sha256 intent (reserved key session.reservations) >>= λ o.
          ok (session, o))
  unfolding reserve_key
  reserve_key-foreign session h k = rw (k, h) (rw k refl)

  reserve_key-IsReserved :
      (session : Session) (result : Session × UploadIdempotency)
      → reserve_key env session key sha256 intent ≡ ok result
      → IsReserved key result.0
  unfolding reserve_key insert_reservation reserved
  reserve_key-IsReserved session result e = elim (Bool-cases (held key (pruned session key))) [
    | inl t ↦
        let (outcome, r, last) =
          >>=-eq-ok (resolve env true key sha256 intent (reserved key session.reservations)) _
            (rw (reserve_key, t) at e) in
        subst (IsReserved key) (ap (λ (p : Session × UploadIdempotency). p.0) (ok_injective last))
          (resolve-found true (reserved key session.reservations) outcome r)
    | inr f ↦ elim (Option-cases (reserved key session.reservations)) [
      | inl n ↦
          subst (λ (p : Session × UploadIdempotency). IsReserved key p.0)
            (ok_injective (rw (reserve_key, f, insert_reservation, n) at e)) (ground arith)
      | inr (row, n) ↦
          let (outcome, r, last) =
            >>=-eq-ok (resolve env false key sha256 intent (some row)) _
              (rw (reserve_key, f, insert_reservation, n) at e) in
          subst (IsReserved key) (ap (λ (p : Session × UploadIdempotency). p.0) (ok_injective last))
            (ap is_some n)
    ]
  ]

-- A call that does not raise reserves the normalized key.
reserve_upload_idempotency-eq-ok :
    (env : Surroundings) (session : Session) (argument : KeyArgument) (key : ℕ)
    (sha256 intent : String) (result : Session × UploadIdempotency)
    → normalize_key env.read_uuid argument ≡ ok key
    → reserve_upload_idempotency env session argument sha256 intent ≡ ok result
    → (digest : String) × (reserve_key env session key sha256 digest ≡ ok result)
unfolding reserve_upload_idempotency
reserve_upload_idempotency-eq-ok env session argument key sha256 intent result p e =
    let (normalized, n, e1) = >>=-eq-ok (normalize_key env.read_uuid argument) _ e in
    let (u, v, e2) = >>=-eq-ok (validate_sha256 sha256) _ e1 in
    let (digest, d, e3) = >>=-eq-ok (validate_digest intent) _ e2 in
    (
      digest,
      subst (λ k. reserve_key env session k sha256 digest ≡ ok result) (ok_injective (sym n ∙ p))
          e3,
    )

-- Once a call has found an upload key new, the same key, in whatever form and for whatever content,
-- is not new to a session that does not own it and sees the reservations of the first.
pub reserve_once :
    (env other : Surroundings) (session after : Session) (first second : KeyArgument) (key : ℕ)
    (sha256 intent sha256' intent' : String) (owned : List ℕ) (result : Session × UploadIdempotency)
    → normalize_key env.read_uuid first ≡ ok key
    → normalize_key other.read_uuid second ≡ ok key
    → reserve_upload_idempotency env session first sha256 intent ≡ ok (after, fresh_upload)
    → held key owned ≡ false
    → reserve_upload_idempotency other (record after { owned = owned }) second sha256' intent'
      ≡ ok result
    → result.1 ≢ fresh_upload
reserve_once env other session after first second key sha256 intent sha256' intent' owned result p q
      e k e' fresh =
    let (digest, won) =
      reserve_upload_idempotency-eq-ok env session first key sha256 intent (after, fresh_upload) p
        e in
    let seen : Session = record after { owned = owned } in
    let (digest', lost) =
      reserve_upload_idempotency-eq-ok other seen second key sha256' intent' result q e' in
    let found = reserve_key-IsReserved env key sha256 digest session (after, fresh_upload) won in
    let (outcome, r, last) =
      >>=-eq-ok (resolve other false key sha256' digest' (reserved key after.reservations)) _
        (sym (reserve_key-foreign other key sha256' digest' seen found k) ∙ lost) in
    let foreign =
      resolve-foreign other key sha256' digest' (reserved key after.reservations) outcome r in
    let same : outcome ≡ result.1 =
      ap (λ (x : Session × UploadIdempotency). x.1) (ok_injective last) in
    let clash = ap is_fresh (same ∙ fresh) in cc
