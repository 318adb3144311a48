-- ===== src/Prelude/Outcome.antt =====
-- The outcome of code that may raise.
use mathlib.Core.Path.{◌≡◌, refl, subst}
use mathlib.Core.Bool.{Bool, true, false}

pub data Result {ℓ} (E A : Type ℓ) : Type ℓ where
  err : E → Result E A
  ok : A → Result E A

-- `if not test: raise raised`
abbrev pub require : {E : Type 0} → Bool → E → Result E (Unit {0})
require false raised = err raised
require true raised = ok tt

infixl 5 ◌>>=◌ ◌>>◌
abbrev pub ◌>>=◌ {ℓ} : {E A B : Type ℓ} → Result E A → (A → Result E B) → Result E B
err raised >>= rest = err raised
ok value >>= rest = rest value

abbrev pub ◌>>◌ : {E B : Type 0} → Result E (Unit {0}) → Result E B → Result E B
first >> rest = first >>= λ done. rest

pub require-holds :
    {E : Type 0} (test : Bool) (e : E) (u : Unit {0}) → require test e ≡ ok u → test ≡ true
require-holds true e u h = refl
require-holds false e u h = cc

pub ok_injective : {E A : Type 0} {a b : A} → ◌≡◌ {A = Result E A} (ok a) (ok b) → a ≡ b
ok_injective h = cc

module _ {E A B : Type 0} where
  -- What a chain that did not raise went through
  pub >>=-eq-ok :
      (first : Result E A) (rest : A → Result E B) {last : B}
      → (first >>= rest) ≡ ok last
      → (between : A) × (first ≡ ok between) × (rest between ≡ ok last)
  >>=-eq-ok (err raised) rest returned = cc
  >>=-eq-ok (ok between) rest returned = (between, refl, returned)

-- Every value that `m` returns has the property.
pub record Ensures {E A : Type 0} (P : A → Type 0) (m : Result E A) : Type 0 where
  pub at : (a : A) → m ≡ ok a → P a

pub Ensures-bind :
    {E A B : Type 0} {P : B → Type 0} (m : Result E A) (f : A → Result E B)
    → ((a : A) → m ≡ ok a → Ensures P (f a))
    → Ensures P (m >>= f)
Ensures-bind m f h = record {
  at = λ b e. let (a, returned, rest) = >>=-eq-ok m f e in (h a returned).at b rest;
}

pub Ensures-ok : {E A : Type 0} {P : A → Type 0} (a : A) → P a → Ensures {E = E} P (ok a)
Ensures-ok {P} a h = record { at = λ b e. subst P (ok_injective e) h }
