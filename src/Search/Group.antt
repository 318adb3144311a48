-- ===== src/Search/Group.antt =====
-- Texts joined to one within the token budget (clerksan/search/chunking.py).
use clerk_san.Prelude.{
  All, Bool-cases, List, [], ap, append_assoc, append_nil, arith, if◌then◌else◌, inl, inr, ltb, not,
  refl, sym, ℕ, ◌&&◌, ◌++◌, ◌+◌, ◌∙◌, ◌∷◌, ◌≡◌, ◌≢◌, ◌≤◌,
}
use clerk_san.Search.Text.{Text, join_texts, null}
use clerk_san.Search.Tokens.{estimate_tokens, tokens_from}
use clerk_san.Search.Tokens.Sum.{estimate_tokens-append}
use clerk_san.Search.Tokens.Strip.{dense, dense-append, estimate_tokens-blank}

-- The texts without their white space, in order
unfoldable pub dense_all : List Text → Text
dense_all [] = []
dense_all (text ∷ texts) = dense text ++ dense_all texts

pub dense_all-append : (xs ys : List Text) → dense_all (xs ++ ys) ≡ dense_all xs ++ dense_all ys
unfolding dense_all
dense_all-append [] ys = refl
dense_all-append (x ∷ xs) ys =
    ap (λ rest. dense x ++ rest) (dense_all-append xs ys)
    ∙ sym (append_assoc (dense x) (dense_all xs) (dense_all ys))

pub dense_all-snoc :
    (xs : List Text) (x : Text) → dense_all (xs ++ (x ∷ [])) ≡ dense_all xs ++ dense x
dense_all-snoc xs x =
    dense_all-append xs (x ∷ [])
    ∙ ap (λ rest. dense_all xs ++ rest) (unfold dense_all in append_nil (dense x))

pub dense_all-one : (text : Text) → dense_all (text ∷ []) ≡ dense text
unfolding dense_all
dense_all-one text = append_nil (dense text)

pub dense-join :
    (separator : Text) (parts : List Text)
    → dense separator ≡ []
    → dense (join_texts separator parts) ≡ dense_all parts
unfolding dense_all join_texts
dense-join separator [] blank = unfold dense in refl
dense-join separator (part ∷ []) blank = sym (append_nil (dense part))
dense-join separator (part ∷ (next ∷ parts)) blank =
    dense-append part (separator ++ join_texts separator (next ∷ parts))
    ∙ ap (λ rest. dense part ++ rest)
        (dense-append separator (join_texts separator (next ∷ parts))
          ∙ ap (λ start. start ++ dense (join_texts separator (next ∷ parts))) blank
          ∙ dense-join separator (next ∷ parts) blank)

pub join-snoc :
    (separator first : Text) (parts : List Text) (last : Text)
    → join_texts separator ((first ∷ parts) ++ (last ∷ []))
      ≡ join_texts separator (first ∷ parts) ++ (separator ++ last)
unfolding join_texts
join-snoc separator first [] last = refl
join-snoc separator first (next ∷ parts) last =
    ap (λ rest. first ++ (separator ++ rest)) (join-snoc separator next parts last)
    ∙ ap (λ rest. first ++ rest)
        (sym (append_assoc separator (join_texts separator (next ∷ parts)) (separator ++ last)))
    ∙ sym
        (append_assoc first (separator ++ join_texts separator (next ∷ parts)) (separator ++ last))

pub first-nil : (xs ys : Text) → xs ++ ys ≡ [] → xs ≡ []
first-nil [] ys e = refl
first-nil (x ∷ xs) ys e = absurd (cc)

pub dense_all-cons : (x : Text) (xs : List Text) → dense x ++ dense_all xs ≡ dense_all (x ∷ xs)
unfolding dense_all
dense_all-cons x xs = refl

pub dense_all-none : (xs : List Text) → dense_all [] ++ dense_all xs ≡ dense_all xs
unfolding dense_all
dense_all-none xs = refl

-- A piece has some text, and is within the budget.
pub record IsPiece (max_tokens : ℕ) (text : Text) : Type 0 where
  pub some_text : dense text ≢ []
  pub within : estimate_tokens text ≤ max_tokens

-- The texts that wait to be joined, with their count
pub record IsGroup (separator : Text) (max_tokens : ℕ) (current : List Text) (tokens : ℕ)
    : Type 0 where
  pub pieces : All (IsPiece max_tokens) current
  pub within : estimate_tokens (join_texts separator current) ≤ max_tokens
  pub counted : estimate_tokens (join_texts separator current) ≤ tokens

pub All-append :
    {A : Type 0} (P : A → Type 0) (xs ys : List A) → All P xs → All P ys → All P (xs ++ ys)
All-append P [] ys h k = k
All-append P (x ∷ xs) ys h k = (h.0, All-append P xs ys h.1 k)

module _ (separator : Text) (blank : dense separator ≡ []) (max_tokens : ℕ) where
  pub no_texts-IsGroup : IsGroup separator max_tokens [] 0
  unfolding join_texts estimate_tokens tokens_from
  no_texts-IsGroup = record { pieces = tt; within = omega arith; counted = omega arith }

  alone-IsGroup :
      (piece : Text) (tokens : ℕ)
      → IsPiece max_tokens piece
      → estimate_tokens piece ≤ tokens
      → IsGroup separator max_tokens (piece ∷ []) tokens
  unfolding join_texts
  alone-IsGroup piece tokens h k = record { pieces = (h, tt); within = h.within; counted = k }

  -- A further piece joins the group, or starts the next one where the group is full.
  pub next-IsGroup :
      (current : List Text) (tokens : ℕ) (piece : Text)
      → IsGroup separator max_tokens current tokens
      → IsPiece max_tokens piece
      → let full =
          not (null current)
          && ltb max_tokens (tokens + (if null current then 0 else 1) + estimate_tokens piece) in
        IsGroup separator max_tokens
          ((if full then [] else current) ++ (piece ∷ []))
          ((if full then 0 else tokens) + (estimate_tokens piece + (if null current then 0 else 1)))
  next-IsGroup [] tokens piece h k =
      alone-IsGroup piece (tokens + (estimate_tokens piece + 0)) k (omega arith)
  next-IsGroup (first ∷ current) tokens piece h k =
      elim (Bool-cases (ltb max_tokens (tokens + 1 + estimate_tokens piece))) [
        | inl t ↦ rw t (alone-IsGroup piece (0 + (estimate_tokens piece + 1)) k (omega arith))
        | inr f ↦ rw f (
            let a =
              estimate_tokens-append (join_texts separator (first ∷ current))
                (separator ++ piece) in
            let b = estimate_tokens-append separator piece in
            let c = estimate_tokens-blank separator blank in
            let joined = ap estimate_tokens (join-snoc separator first current piece) in
            let room : tokens + 1 + estimate_tokens piece ≤ max_tokens = ground (arith, f) in
            record {
              pieces =
                  All-append (IsPiece max_tokens) (first ∷ current) (piece ∷ []) h.pieces (k, tt);
              within = omega (arith, a, b, c, joined, room, h.counted);
              counted = omega (arith, a, b, c, joined, h.counted);
            })
      ]
