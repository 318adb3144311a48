-- ===== src/Requests/Multipart/Find.antt =====
-- `bytes.find`, by its documentation.
use clerk_san.Prelude.{
  Bool, Bool-cases, List, Option, Option-cases, [], ap, arith, drop, false, if◌then◌else◌, inl, inr,
  leb, length, length-drop, ltb, none, refl, some, subst, suc, true, zero, ℕ, ◌&&◌, ◌+◌, ◌<◌, ◌==◌,
  ◌∙◌, ◌∷◌, ◌≡◌, ◌≤◌,
}

unfoldable pub starts_with : List ℕ → List ℕ → Bool
starts_with [] bytes = true
starts_with (c ∷ wanted) [] = false
starts_with (c ∷ wanted) (d ∷ bytes) = c == d && starts_with wanted bytes

-- The first place of `wanted` in the bytes, which start at `place`
unfoldable pub find_at : List ℕ → List ℕ → ℕ → Option ℕ
unfolding starts_with
find_at wanted [] place = if starts_with wanted [] then some place else none
find_at wanted (c ∷ bytes) place =
    let rest = find_at wanted bytes (place + 1) in
    if starts_with wanted (c ∷ bytes) then some place else rest

unfoldable pub find : List ℕ → List ℕ → ℕ → Option ℕ
unfolding find_at
find body wanted start =
    let found = find_at wanted (drop start body) start in
    if leb start (length body) then found else none

-- The place is the first one
pub record IsFirst (body wanted : List ℕ) (start place : ℕ) : Type 0 where
  pub late : start ≤ place
  pub inside : place + length wanted ≤ length body
  pub there : starts_with wanted (drop place body) ≡ true
  pub before :
      (other : ℕ) → start ≤ other → other < place → starts_with wanted (drop other body) ≡ false

starts_with-length :
    (wanted bytes : List ℕ) → starts_with wanted bytes ≡ true → length wanted ≤ length bytes
unfolding starts_with
starts_with-length [] bytes h = omega arith
starts_with-length (c ∷ wanted) [] h = cc
starts_with-length (c ∷ wanted) (d ∷ bytes) h = elim (Bool-cases (c == d)) [
  | inl t ↦
      let tail : starts_with wanted bytes ≡ true = rw t at h in
      omega (arith, starts_with-length wanted bytes tail)
  | inr f ↦ ground (arith, f, h)
]

drop-suc :
    {A : Type 0} (n : ℕ) (xs : List A) {x : A} {rest : List A}
    → drop n xs ≡ x ∷ rest
    → drop (suc n) xs ≡ rest
drop-suc zero [] e = absurd (cc)
drop-suc zero (y ∷ xs) e = cc
drop-suc (suc n) [] e = absurd (cc)
drop-suc (suc n) (y ∷ xs) e = drop-suc n xs e

module _ (body wanted : List ℕ) where
  here-IsFirst :
      (start place : ℕ)
      → start ≤ length body
      → starts_with wanted (drop start body) ≡ true
      → some start ≡ some place
      → IsFirst body wanted start place
  here-IsFirst start place low there e =
      let same : start ≡ place = cc in
      let short = starts_with-length wanted (drop start body) there in
      record {
        late = omega (arith, same);
        inside = omega (arith, same, short, length-drop start body);
        there = subst (λ n. starts_with wanted (drop n body) ≡ true) same there;
        before = λ other a b. absurd (omega (arith, same, a, b));
      }

  -- By recursion on the bytes behind the place, which are the body's
  find_at-IsFirst :
      (bytes : List ℕ) (start place : ℕ)
      → start ≤ length body
      → drop start body ≡ bytes
      → find_at wanted bytes start ≡ some place
      → IsFirst body wanted start place
  unfolding find_at
  find_at-IsFirst [] start place low same e = elim (Bool-cases (starts_with wanted [])) [
    | inl t ↦ here-IsFirst start place low (ap (starts_with wanted) same ∙ t) (rw t at e)
    | inr f ↦ let raised : none ≡ some place = rw f at e in absurd (cc)
  ]
  find_at-IsFirst (c ∷ bytes) start place low same e =
      elim (Bool-cases (starts_with wanted (c ∷ bytes))) [
        | inl t ↦ here-IsFirst start place low (ap (starts_with wanted) same ∙ t) (rw t at e)
        | inr f ↦
            let later : find_at wanted bytes (start + 1) ≡ some place = rw f at e in
            let size = ap (λ (b : List ℕ). length b) same in
            let first : IsFirst body wanted (start + 1) place =
              find_at-IsFirst bytes (start + 1) place (omega (arith, size, length-drop start body))
                (let next : drop (suc start) body ≡ bytes = drop-suc start body same in
                  let same_place : suc start ≡ start + 1 = omega arith in
                  subst (λ n. drop n body ≡ bytes) same_place next)
                later in
            record {
              late = omega (arith, first.late);
              inside = first.inside;
              there = first.there;
              before = λ other a b. elim (Bool-cases (leb (start + 1) other)) [
                | inl h ↦ first.before other (ground (arith, h)) b
                | inr h ↦
                    let here : start ≡ other = ground (arith, a, h) in
                    subst (λ n. starts_with wanted (drop n body) ≡ false) here
                      (ap (starts_with wanted) same ∙ f)
              ];
            }
      ]

pub find-IsFirst :
    (body wanted : List ℕ) (start place : ℕ)
    → find body wanted start ≡ some place
    → IsFirst body wanted start place
unfolding find
find-IsFirst body wanted start place e = elim (Bool-cases (leb start (length body))) [
  | inl t ↦
      find_at-IsFirst body wanted (drop start body) start place (ground (arith, t)) refl (rw t at e)
  | inr f ↦ let raised : none ≡ some place = rw f at e in absurd (cc)
]

module _ (body wanted : List ℕ) where
  find_at-none :
      (bytes : List ℕ) (start other : ℕ)
      → drop start body ≡ bytes
      → find_at wanted bytes start ≡ none
      → start ≤ other
      → other ≤ length body
      → starts_with wanted (drop other body) ≡ false
  unfolding find_at
  find_at-none [] start other same e low high = elim (Bool-cases (starts_with wanted [])) [
    | inl t ↦ let found : some start ≡ none = rw t at e in absurd (cc)
    | inr f ↦
        let size = ap (λ (b : List ℕ). length b) same in
        let here : start ≡ other = omega (arith, size, length-drop start body, low, high) in
        subst (λ n. starts_with wanted (drop n body) ≡ false) here
          (ap (starts_with wanted) same ∙ f)
  ]
  find_at-none (c ∷ bytes) start other same e low high =
      elim (Bool-cases (starts_with wanted (c ∷ bytes))) [
        | inl t ↦ let found : some start ≡ none = rw t at e in absurd (cc)
        | inr f ↦
            let later : find_at wanted bytes (start + 1) ≡ none = rw f at e in
            elim (Bool-cases (leb (start + 1) other)) [
              | inl h ↦
                  find_at-none bytes (start + 1) other
                    (let next : drop (suc start) body ≡ bytes = drop-suc start body same in
                      let same_place : suc start ≡ start + 1 = omega arith in
                      subst (λ n. drop n body ≡ bytes) same_place next)
                    later (ground (arith, h)) high
              | inr h ↦
                  let here : start ≡ other = ground (arith, low, h) in
                  subst (λ n. starts_with wanted (drop n body) ≡ false) here
                    (ap (starts_with wanted) same ∙ f)
            ]
      ]

  IsFirst-unique :
      (start place other : ℕ)
      → IsFirst body wanted start place
      → IsFirst body wanted start other
      → place ≡ other
  IsFirst-unique start place other h k = elim (Bool-cases (ltb place other)) [
    | inl t ↦ let no = k.before place h.late (ground (arith, t)) in let yes = h.there in absurd (cc)
    | inr f ↦ elim (Bool-cases (ltb other place)) [
      | inl t ↦
          let no = h.before other k.late (ground (arith, t)) in let yes = k.there in absurd (cc)
      | inr g ↦ ground (arith, f, g)
    ]
  ]

  pub IsFirst-find :
      (start place : ℕ) → IsFirst body wanted start place → find body wanted start ≡ some place
  IsFirst-find start place h = elim (Option-cases (find body wanted start)) [
    | inl e ↦
        let missing : find_at wanted (drop start body) start ≡ none =
          unfold find in
          let low : leb start (length body) ≡ true = ground (arith, h.late, h.inside) in
          rw low at e in
        let no =
          find_at-none (drop start body) start place refl missing h.late
            (omega (arith, h.inside)) in
        let yes = h.there in absurd (cc)
    | inr (other, e) ↦
        e ∙ ap some (IsFirst-unique start other place (find-IsFirst body wanted start other e) h)
  ]
