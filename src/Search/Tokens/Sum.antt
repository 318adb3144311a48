-- ===== src/Search/Tokens/Sum.antt =====
-- The estimate of joined texts (clerksan/search/chunking.py).
use clerk_san.Prelude.{
  Bool-cases, [], ap, arith, false, if◌then◌else◌, inl, inr, refl, suc, sym, true, zero, ℕ, ◌++◌,
  ◌+◌, ◌-◌, ◌/◌, ◌==◌, ◌∙◌, ◌∷◌, ◌≡◌, ◌≤◌,
}
use clerk_san.Search.Text.{Text, is_cjk, is_space, is_word}
use clerk_san.Search.Tokens.{estimate_tokens, jump, run, tokens_from, weight}

-- The estimate by a state instead of a look ahead: how many more word characters the last token takes
count : ℕ → Text → ℕ
count left [] = 0
count left (c ∷ text) =
    let rest = count (if is_word c then (if left == 0 then 3 else left - 1) else 0) text in
    (if is_word c then (if left == 0 then 1 else 0) else if is_space c then 0 else 1) + rest

count-first : (c : ℕ) (text : Text) → is_word c ≡ true → count 0 (c ∷ text) ≡ 1 + count 3 text
unfolding count
count-first c text w = rw w refl

count-next :
    (c : ℕ) (text : Text) (left : ℕ)
    → is_word c ≡ true
    → count (suc left) (c ∷ text) ≡ count left text
count-next c text left w =
    let positive : (suc left == 0) ≡ false = ground arith in
    let less : suc left - 1 ≡ left = omega arith in
    let step : count (suc left) (c ∷ text) ≡ 0 + count (suc left - 1) text =
      unfold count in rw (w, positive) refl in
    step ∙ omega (arith, ap (λ n. count n text) less)

count-other :
    (c : ℕ) (text : Text) (left : ℕ)
    → is_word c ≡ false
    → count left (c ∷ text) ≡ (if is_space c then 0 else 1) + count 0 text
unfolding count
count-other c text left f = rw f refl

word-no_space : (c : ℕ) → is_word c ≡ true → is_space c ≡ false
unfolding is_word is_space
word-no_space c h = ground (arith, h)

word-no_cjk : (c : ℕ) → is_word c ≡ true → is_cjk c ≡ false
unfolding is_word is_cjk
word-no_cjk c h = ground (arith, h)

cjk-no_space : (c : ℕ) → is_cjk c ≡ true → is_space c ≡ false
unfolding is_cjk is_space
cjk-no_space c h = ground (arith, h)

-- The tokens of the rest of a word, and of what stands behind it
tokens_left : ℕ → Text → ℕ
tokens_left left text = (run text - left + 3) / 4 + tokens_from (run text) text

weight-word :
    (c : ℕ) (text : Text)
    → is_word c ≡ true
    → (weight c text ≡ (run text + 4) / 4) × (jump c text ≡ run text)
unfolding weight jump
weight-word c text w = ground (arith, w, word-no_space c w, word-no_cjk c w)

weight-other :
    (c : ℕ) (text : Text)
    → is_word c ≡ false
    → (weight c text ≡ (if is_space c then 0 else 1)) × (jump c text ≡ 0)
unfolding weight jump
weight-other c text f = ground (arith, f)

tokens_left-word :
    (c : ℕ) (text : Text) (left : ℕ)
    → is_word c ≡ true
    → tokens_left left (c ∷ text) ≡ (run text + 1 - left + 3) / 4 + tokens_from (run text) text
unfolding tokens_left
tokens_left-word c text left w =
    let long : run (c ∷ text) ≡ suc (run text) = unfold run in ground (arith, w) in
    let at : tokens_from (suc (run text)) (c ∷ text) ≡ tokens_from (run text) text =
      unfold tokens_from in refl in
    rw (long, at) (omega arith)

tokens_left-other :
    (c : ℕ) (text : Text) (left : ℕ)
    → is_word c ≡ false
    → tokens_left left (c ∷ text) ≡ tokens_from 0 (c ∷ text)
unfolding tokens_left
tokens_left-other c text left f =
    let short : run (c ∷ text) ≡ 0 = unfold run in ground (arith, f) in rw short (omega arith)

tokens_from-char :
    (c : ℕ) (text : Text)
    → tokens_from 0 (c ∷ text) ≡ weight c text + tokens_from (jump c text) text
unfolding tokens_from
tokens_from-char c text = refl

tokens_from-word :
    (c : ℕ) (text : Text)
    → is_word c ≡ true
    → tokens_from 0 (c ∷ text) ≡ (run text + 4) / 4 + tokens_from (run text) text
tokens_from-word c text w =
    let (heavy, jumps) = weight-word c text w in tokens_from-char c text ∙ (rw (heavy, jumps) refl)

tokens_from-other :
    (c : ℕ) (text : Text)
    → is_word c ≡ false
    → tokens_from 0 (c ∷ text) ≡ (if is_space c then 0 else 1) + tokens_from 0 text
tokens_from-other c text f =
    let (light, stays) = weight-other c text f in tokens_from-char c text ∙ (rw (light, stays) refl)

tokens_left_lem :
    (text : Text) (left : ℕ)
    → tokens_left left text ≡ (run text - left + 3) / 4 + tokens_from (run text) text
unfolding tokens_left
tokens_left_lem text left = refl

nothing : count 0 [] ≡ tokens_from 0 []
unfolding count tokens_from
nothing = refl

nothing_left : (left : ℕ) → count left [] ≡ tokens_left left []
unfolding count tokens_left tokens_from run
nothing_left left = omega arith

mutual
  count-tokens_from : (text : Text) → count 0 text ≡ tokens_from 0 text
  count-tokens_from [] = nothing
  count-tokens_from (c ∷ text) = elim (Bool-cases (is_word c)) [
    | inl w ↦ omega (
      arith,
      count-first c text w,
      tokens_from-word c text w,
      count-tokens_left text 3,
      tokens_left_lem text 3,
    )
    | inr f ↦
        count-other c text 0 f
        ∙ ap (λ n. (if is_space c then 0 else 1) + n) (count-tokens_from text)
        ∙ sym (tokens_from-other c text f)
  ]

  count-tokens_left : (text : Text) (left : ℕ) → count left text ≡ tokens_left left text
  count-tokens_left [] left = nothing_left left
  count-tokens_left (c ∷ text) zero = elim (Bool-cases (is_word c)) [
    | inl w ↦ omega (
      arith,
      count-first c text w,
      tokens_left-word c text 0 w,
      count-tokens_left text 3,
      tokens_left_lem text 3,
    )
    | inr f ↦
        count-other c text 0 f
        ∙ ap (λ n. (if is_space c then 0 else 1) + n) (count-tokens_from text)
        ∙ sym (tokens_from-other c text f)
        ∙ sym (tokens_left-other c text 0 f)
  ]
  count-tokens_left (c ∷ text) (suc left) = elim (Bool-cases (is_word c)) [
    | inl w ↦ omega (
      arith,
      count-next c text left w,
      tokens_left-word c text (suc left) w,
      count-tokens_left text left,
      tokens_left_lem text left,
    )
    | inr f ↦
        count-other c text (suc left) f
        ∙ ap (λ n. (if is_space c then 0 else 1) + n) (count-tokens_from text)
        ∙ sym (tokens_from-other c text f)
        ∙ sym (tokens_left-other c text (suc left) f)
  ]

estimate_tokens-count : (text : Text) → estimate_tokens text ≡ count 0 text
unfolding estimate_tokens
estimate_tokens-count text = sym (count-tokens_from text)

abbrev IsNear : Text → ℕ → ℕ → Type 0
IsNear text more less =
    (count more text ≤ count less text) × (count less text ≤ count more text + 1)

count-IsNear_word :
    (c : ℕ) (text : Text) (more less : ℕ)
    → is_word c ≡ true
    → ((m l : ℕ) → l ≤ m → m ≤ 3 → IsNear text m l)
    → less ≤ more
    → more ≤ 3
    → IsNear (c ∷ text) more less
count-IsNear_word c text zero zero w ih h k = (omega arith, omega arith)
count-IsNear_word c text zero (suc less) w ih h k = absurd (omega arith)
count-IsNear_word c text (suc more) zero w ih h k =
    let a = count-next c text more w in
    let b = count-first c text w in
    let near = ih 3 more (omega (arith, k)) (omega arith) in
    (omega (arith, a, b, near), omega (arith, a, b, near))
count-IsNear_word c text (suc more) (suc less) w ih h k =
    let a = count-next c text more w in
    let b = count-next c text less w in
    let near = ih more less (omega (arith, h)) (omega (arith, k)) in
    (omega (arith, a, b, near), omega (arith, a, b, near))

-- A token that is further along counts no less, and at most one more.
count-IsNear : (text : Text) (more less : ℕ) → less ≤ more → more ≤ 3 → IsNear text more less
count-IsNear [] more less h k = unfold count in (omega arith, omega arith)
count-IsNear (c ∷ text) more less h k = elim (Bool-cases (is_word c)) [
  | inl w ↦ count-IsNear_word c text more less w (λ m l. count-IsNear text m l) h k
  | inr f ↦
      let a = count-other c text more f in
      let b = count-other c text less f in (omega (arith, a, b), omega (arith, a, b))
]

-- The state behind a text
left_behind : ℕ → Text → ℕ
left_behind left [] = left
left_behind left (c ∷ text) =
    left_behind (if is_word c then (if left == 0 then 3 else left - 1) else 0) text

left_behind-small : (text : Text) (left : ℕ) → left ≤ 3 → left_behind left text ≤ 3
unfolding left_behind
left_behind-small [] left h = h
left_behind-small (c ∷ text) left h = left_behind-small text _ (ground arith)

count-append :
    (xs ys : Text) (left : ℕ)
    → count left (xs ++ ys) ≡ count left xs + count (left_behind left xs) ys
unfolding count left_behind
count-append [] ys left = omega arith
count-append (c ∷ xs) ys left =
    omega (arith, count-append xs ys (if is_word c then (if left == 0 then 3 else left - 1) else 0))

pub estimate_tokens-append :
    (xs ys : Text) → estimate_tokens (xs ++ ys) ≤ estimate_tokens xs + estimate_tokens ys
estimate_tokens-append xs ys =
    let near =
      count-IsNear ys (left_behind 0 xs) 0 (omega arith) (left_behind-small xs 0 (omega arith)) in
    omega (
      arith,
      estimate_tokens-count (xs ++ ys),
      estimate_tokens-count xs,
      estimate_tokens-count ys,
      count-append xs ys 0,
      near,
    )

pub estimate_tokens-prefix : (xs ys : Text) → estimate_tokens xs ≤ estimate_tokens (xs ++ ys)
estimate_tokens-prefix xs ys =
    omega (arith, estimate_tokens-count (xs ++ ys), estimate_tokens-count xs, count-append xs ys 0)
