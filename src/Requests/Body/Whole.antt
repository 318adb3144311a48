-- ===== src/Requests/Body/Whole.antt =====
-- The body that is read is the whole of what was sent (clerksan/api/request_boundaries.py).
use clerk_san.Requests.Json.{BoundaryError}
use clerk_san.Prelude.{
  Bool-cases, List, [], ap, append_assoc, append_nil, arith, err, false, if◌then◌else◌, inl, inr,
  length, ltb, ok, ok_injective, refl, subst, suc, sym, true, ℕ, ◌++◌, ◌+◌, ◌↔◌, ◌∙◌, ◌∷◌, ◌≡◌, ◌≤◌,
}
use clerk_san.Requests.Body.{
  Message, disconnect, join, other, read_body, read_chunks, replay, replays, request,
}

-- What the messages send, up to the one that says that no more follows
pub data Sends : List Message → List ℕ → Type 0 where
  last : {messages : List Message} (chunk : List ℕ) → Sends (request chunk false ∷ messages) chunk
  more :
      {messages : List Message} {body sent : List ℕ} (chunk : List ℕ)
      → Sends messages body
      → sent ≡ chunk ++ body
      → Sends (request chunk true ∷ messages) sent
  skip :
      {messages : List Message} {body : List ℕ}
      → Sends messages body
      → Sends (other ∷ messages) body

length-append : {A : Type 0} (xs ys : List A) → length (xs ++ ys) ≡ length xs + length ys
length-append [] ys = omega arith
length-append (x ∷ xs) ys = omega (arith, length-append xs ys)

join-snoc :
    (chunks : List (List ℕ)) (chunk : List ℕ) → join (chunks ++ (chunk ∷ [])) ≡ join chunks ++ chunk
unfolding join
join-snoc [] chunk = append_nil chunk
join-snoc (c ∷ chunks) chunk =
    ap (λ rest. c ++ rest) (join-snoc chunks chunk) ∙ sym (append_assoc c (join chunks) chunk)

-- A body that is sent within the limit
abbrev pub Received : List Message → List ℕ → ℕ → Type 0
Received messages body limit = Sends messages body × (length body ≤ limit)

read_chunks-Sends :
    (limit : ℕ) (messages : List Message) (chunks : List (List ℕ)) (observed : ℕ) (body : List ℕ)
    → read_chunks limit messages chunks observed ≡ ok body
    → (rest : List ℕ) × Sends messages rest
      × (body ≡ join chunks ++ rest)
      × (observed + length rest ≤ limit)
unfolding read_chunks
read_chunks-Sends limit [] chunks observed body e = cc
read_chunks-Sends limit (disconnect ∷ messages) chunks observed body e = cc
read_chunks-Sends limit (other ∷ messages) chunks observed body e =
    let (rest, sends, same, low) = read_chunks-Sends limit messages chunks observed body e in
    (rest, skip sends, same, low)
read_chunks-Sends limit (request chunk false ∷ messages) chunks observed body e =
    elim (Bool-cases (ltb limit (observed + length chunk))) [
      | inl t ↦ ground (arith, t, e)
      | inr f ↦
          let same : join (chunks ++ (chunk ∷ [])) ≡ body = ok_injective (rw f at e) in
          (chunk, last chunk, sym same ∙ join-snoc chunks chunk, ground (arith, f))
    ]
read_chunks-Sends limit (request chunk true ∷ messages) chunks observed body e =
    elim (Bool-cases (ltb limit (observed + length chunk))) [
      | inl t ↦ ground (arith, t, e)
      | inr f ↦
          let rest_ok : read_chunks limit messages (chunks ++ (chunk ∷ []))
                (observed + length chunk)
              ≡ ok body =
            rw f at e in
          let (rest, sends, same, low) =
            read_chunks-Sends limit messages (chunks ++ (chunk ∷ [])) (observed + length chunk) body
              rest_ok in
          (
            chunk ++ rest,
            more chunk sends refl,
            same
                ∙ ap (λ start. start ++ rest) (join-snoc chunks chunk)
                ∙ append_assoc (join chunks) chunk rest,
            omega (arith, low, length-append chunk rest),
          )
    ]

Sends-read_chunks :
    (limit : ℕ) {messages : List Message} (chunks : List (List ℕ)) (observed : ℕ) {rest : List ℕ}
    → Sends messages rest
    → observed + length rest ≤ limit
    → read_chunks limit messages chunks observed ≡ ok (join chunks ++ rest)
unfolding read_chunks
Sends-read_chunks limit chunks observed (last chunk) low =
    let fits : ltb limit (observed + length chunk) ≡ false = ground arith in
    rw fits (ap ok (join-snoc chunks chunk))
Sends-read_chunks limit chunks observed (more {body} chunk sends same) low =
    let size = ap (λ (b : List ℕ). length b) same ∙ length-append chunk body in
    let ih =
      Sends-read_chunks limit (chunks ++ (chunk ∷ [])) (observed + length chunk) sends
        (omega (arith, size)) in
    let fits : ltb limit (observed + length chunk) ≡ false = ground (arith, size) in
    rw fits (
      ih
      ∙ ap (λ bytes. ok bytes)
          (ap (λ start. start ++ body) (join-snoc chunks chunk)
            ∙ append_assoc (join chunks) chunk body
            ∙ ap (λ bytes. join chunks ++ bytes) (sym same)))
Sends-read_chunks limit chunks observed (skip sends) low =
    Sends-read_chunks limit chunks observed sends low

replayed-whole :
    (limit : ℕ) (body : List ℕ) (messages : List Message)
    → read_chunks limit (request body false ∷ messages) [] 0
      ≡ (if ltb limit (length body) then err BoundaryError.request_too_large else ok body)
unfolding read_chunks join
replayed-whole limit body messages = elim (Bool-cases (ltb limit (length body))) [
  | inl t ↦ let over : ltb limit (0 + length body) ≡ true = ground (arith, t) in rw (over, t) refl
  | inr f ↦
      let fits : ltb limit (0 + length body) ≡ false = ground (arith, f) in
      rw (fits, f) (ap (λ bytes. ok bytes) (append_nil body))
]

-- Reading returns a body exactly if the messages send it, up to the first one that says that no more
-- follows and with no disconnection before, and it is within the limit; and what is handed on to the
-- application, which asks at least once, is read back as the same bytes, or refused where they are
-- more than the limit.
pub read_body-iff-Sends :
    (messages : List Message) (limit : ℕ) (body : List ℕ) (calls : ℕ)
    → ((read_body messages limit ≡ ok body) ↔ Received messages body limit)
      × (read_body (replays (suc calls) body false) limit
          ≡ (if ltb limit (length body) then err BoundaryError.request_too_large else ok body))
unfolding read_body replays replay
read_body-iff-Sends messages limit body calls = (
  (
    λ e.
        let (rest, sends, same, low) = read_chunks-Sends limit messages [] 0 body e in
        (
          subst (Sends messages) (sym same) sends,
          omega (arith, low, ap (λ (b : List ℕ). length b) same),
        ),
    λ p. Sends-read_chunks limit [] 0 p.0 (omega (arith, p.1)),
  ),
  replayed-whole limit body (replays calls body true),
)
