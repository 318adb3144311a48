-- ===== src/Search/Tokens/Strip.antt =====
-- White space in texts: what stripping leaves (clerksan/search/chunking.py).
use clerk_san.Prelude.{
  Bool-cases, List, [], ap, arith, false, inl, inr, not, refl, select, subst, sym, true, ℕ, ◌&&◌,
  ◌++◌, ◌+◌, ◌∙◌, ◌∷◌, ◌≡◌, ◌≢◌, ◌≤◌, ◌⊎◌,
}
use clerk_san.Search.Text.{Text, is_space, lstrip, null, rstrip, strip_text}
use clerk_san.Search.Tokens.{estimate_tokens, jump, run, tokens_from, weight}
use clerk_san.Search.Tokens.Sum.{estimate_tokens-append, estimate_tokens-prefix}

-- White space before and behind
estimate_tokens-space :
    (c : ℕ) (text : Text) → is_space c ≡ true → estimate_tokens (c ∷ text) ≡ estimate_tokens text
unfolding estimate_tokens tokens_from weight jump
estimate_tokens-space c text h = rw h (omega arith)

pub estimate_tokens-char :
    (c : ℕ) (text : Text) → estimate_tokens (c ∷ text) ≤ estimate_tokens text + 1
estimate_tokens-char c text =
    let alone : estimate_tokens (c ∷ []) ≤ 1 =
      unfold estimate_tokens tokens_from weight run in ground arith in
    omega (arith, estimate_tokens-append (c ∷ []) text, alone)

pub estimate_tokens-snoc :
    (text : Text) (c : ℕ) → estimate_tokens (text ++ (c ∷ [])) ≤ estimate_tokens text + 1
estimate_tokens-snoc text c =
    let alone : estimate_tokens (c ∷ []) ≤ 1 =
      unfold estimate_tokens tokens_from weight run in ground arith in
    omega (arith, estimate_tokens-append text (c ∷ []), alone)

-- The text without its white space
unfoldable pub dense : Text → Text
unfolding is_space
dense text = select (λ c. not (is_space c)) text

pub estimate_tokens-positive : (text : Text) → dense text ≢ [] → 1 ≤ estimate_tokens text
estimate_tokens-positive [] h = absurd (h (unfold dense in refl))
estimate_tokens-positive (c ∷ text) h = elim (Bool-cases (is_space c)) [
  | inl t ↦
      let same : dense (c ∷ text) ≡ dense text = unfold dense in rw t refl in
      omega
        (arith, estimate_tokens-space c text t, estimate_tokens-positive text (λ e. h (same ∙ e)))
  | inr f ↦ unfold estimate_tokens tokens_from weight in ground (arith, f)
]

pub estimate_tokens-blank : (text : Text) → dense text ≡ [] → estimate_tokens text ≡ 0
estimate_tokens-blank [] h = unfold estimate_tokens tokens_from in refl
estimate_tokens-blank (c ∷ text) h = elim (Bool-cases (is_space c)) [
  | inl t ↦
      let same : dense (c ∷ text) ≡ dense text = unfold dense in rw t refl in
      estimate_tokens-space c text t ∙ estimate_tokens-blank text (sym same ∙ h)
  | inr f ↦ let same : dense (c ∷ text) ≡ c ∷ dense text = unfold dense in rw f refl in absurd (cc)
]

estimate_tokens-lstrip : (text : Text) → estimate_tokens (lstrip text) ≡ estimate_tokens text
unfolding lstrip
estimate_tokens-lstrip [] = refl
estimate_tokens-lstrip (c ∷ text) = elim (Bool-cases (is_space c)) [
  | inl t ↦ rw t (estimate_tokens-lstrip text ∙ sym (estimate_tokens-space c text t))
  | inr f ↦ rw f refl
]

rstrip-append : (text : Text) → (rest : Text) × (rstrip text ++ rest ≡ text)
unfolding rstrip
rstrip-append [] = ([], refl)
rstrip-append (c ∷ text) = elim (Bool-cases (is_space c && null (rstrip text))) [
  | inl t ↦ rw t (c ∷ text, refl)
  | inr f ↦ let (rest, same) = rstrip-append text in rw f (rest, ap (λ xs. c ∷ xs) same)
]

pub estimate_tokens-strip : (text : Text) → estimate_tokens (strip_text text) ≤ estimate_tokens text
unfolding strip_text
estimate_tokens-strip text =
    let (rest, same) = rstrip-append (lstrip text) in
    let short : estimate_tokens (rstrip (lstrip text)) ≤ estimate_tokens (lstrip text) =
      subst (λ t. estimate_tokens (rstrip (lstrip text)) ≤ estimate_tokens t) same
        (estimate_tokens-prefix (rstrip (lstrip text)) rest) in
    omega (arith, short, estimate_tokens-lstrip text)

pub dense-append : (xs ys : Text) → dense (xs ++ ys) ≡ dense xs ++ dense ys
unfolding dense
dense-append [] ys = refl
dense-append (c ∷ xs) ys = elim (Bool-cases (is_space c)) [
  | inl t ↦ rw t (dense-append xs ys)
  | inr f ↦ rw f (ap (λ text. c ∷ text) (dense-append xs ys))
]

dense-lstrip : (text : Text) → dense (lstrip text) ≡ dense text
unfolding dense lstrip
dense-lstrip [] = refl
dense-lstrip (c ∷ text) = elim (Bool-cases (is_space c)) [
  | inl t ↦ rw t (dense-lstrip text)
  | inr f ↦ rw f (rw f refl)
]

pub null-eq : {A : Type 0} (xs : List A) → null xs ≡ true → xs ≡ []
null-eq [] h = refl
null-eq (x ∷ xs) h = absurd (cc)

dense-rstrip : (text : Text) → dense (rstrip text) ≡ dense text
unfolding dense rstrip
dense-rstrip [] = refl
dense-rstrip (c ∷ text) = elim (Bool-cases (is_space c)) [
  | inl t ↦ elim (Bool-cases (null (rstrip text))) [
    | inl n ↦ rw (t, n) (sym (ap dense (null-eq (rstrip text) n)) ∙ dense-rstrip text)
    | inr m ↦ rw (t, m) (rw t (dense-rstrip text))
  ]
  | inr f ↦ rw f (rw f (ap (λ rest. c ∷ rest) (dense-rstrip text)))
]

pub dense-strip : (text : Text) → dense (strip_text text) ≡ dense text
unfolding strip_text
dense-strip text = dense-rstrip (lstrip text) ∙ dense-lstrip text

lstrip-head :
    (text : Text)
    → (lstrip text ≡ [])
      ⊎ ((c : ℕ) × (rest : Text) × (lstrip text ≡ c ∷ rest) × (is_space c ≡ false))
unfolding lstrip
lstrip-head [] = inl refl
lstrip-head (c ∷ text) = elim (Bool-cases (is_space c)) [
  | inl t ↦ rw t (lstrip-head text)
  | inr f ↦ rw f (inr (c, text, refl, f))
]

dense-head : (c : ℕ) (text : Text) → is_space c ≡ false → dense (c ∷ text) ≢ []
unfolding dense
dense-head c text f e = let head : c ∷ dense text ≡ [] = rw f at e in cc

-- A text strips to nothing exactly if it is white space.
pub strip-eq-nil : (text : Text) → dense text ≡ [] → strip_text text ≡ []
unfolding strip_text
strip-eq-nil text e = elim (lstrip-head text) [
  | inl h ↦ ap rstrip h ∙ (unfold rstrip in refl)
  | inr (c, rest, h, f) ↦ absurd (dense-head c rest f (ap dense (sym h) ∙ dense-lstrip text ∙ e))
]

pub dense-eq-nil : (text : Text) → strip_text text ≡ [] → dense text ≡ []
dense-eq-nil text e = sym (dense-strip text) ∙ ap dense e ∙ (unfold dense in refl)

pub estimate_tokens-strip-positive :
    (text : Text) → strip_text text ≢ [] → 1 ≤ estimate_tokens (strip_text text)
estimate_tokens-strip-positive text h =
    estimate_tokens-positive (strip_text text)
      (λ e. h (strip-eq-nil text (sym (dense-strip text) ∙ e)))
