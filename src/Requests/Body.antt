-- ===== src/Requests/Body.antt =====
-- How a request's body is received: `_read_body`, `_bounded_receive` and `_replay_body` of
-- clerksan/api/request_boundaries.py.
pub mod Whole
use clerk_san.Prelude.{
  Bool, List, Result, [], err, false, if◌then◌else◌, length, ltb, not, ok, suc, true, zero, ℕ, ◌++◌,
  ◌+◌, ◌∷◌,
}
use clerk_san.Requests.Json.{
  BoundaryError, malformed_content, request_receive_timeout, request_too_large,
}

-- An ASGI message, by its type
pub data Message : Type 0 where
  request : (chunk : List ℕ) → (more_body : Bool) → Message
  disconnect other : Message

unfoldable pub join : List (List ℕ) → List ℕ
join [] = []
join (chunk ∷ chunks) = chunk ++ join chunks

-- The loop of `_read_body` over the messages that arrive before the deadline: the wait for one more
-- raises. The chunks are kept in order.
unfoldable pub read_chunks : ℕ → List Message → List (List ℕ) → ℕ → Result BoundaryError (List ℕ)
unfolding join
read_chunks limit [] chunks observed = err request_receive_timeout
read_chunks limit (disconnect ∷ messages) chunks observed = err malformed_content
read_chunks limit (other ∷ messages) chunks observed = read_chunks limit messages chunks observed
read_chunks limit (request chunk more_body ∷ messages) chunks observed =
    let rest = read_chunks limit messages (chunks ++ (chunk ∷ [])) (observed + length chunk) in
    if ltb limit (observed + length chunk)
    then err request_too_large
    else if not more_body
    then ok (join (chunks ++ (chunk ∷ [])))
    else rest

unfoldable pub read_body : List Message → ℕ → Result BoundaryError (List ℕ)
unfolding read_chunks
read_body messages limit = read_chunks limit messages [] 0

-- One call of the function that `_bounded_receive` returns, on the bytes observed so far and the
-- messages to come: the message, the bytes observed and the messages left
unfoldable pub bounded : ℕ → ℕ → List Message → Result BoundaryError (Message × ℕ × List Message)
bounded limit observed [] = err request_receive_timeout
bounded limit observed (request chunk more_body ∷ messages) =
    if ltb limit (observed + length chunk)
    then err request_too_large
    else ok (request chunk more_body, observed + length chunk, messages)
bounded limit observed (disconnect ∷ messages) = ok (disconnect, observed, messages)
bounded limit observed (other ∷ messages) = ok (other, observed, messages)

-- One call of the function that `_replay_body` returns, on whether it has delivered
unfoldable pub replay : List ℕ → Bool → Message × Bool
replay body true = (disconnect, true)
replay body false = (request body false, true)

-- The messages of so many calls
unfoldable pub replays : ℕ → List ℕ → Bool → List Message
unfolding replay
replays zero body delivered = []
replays (suc calls) body delivered =
    (replay body delivered).0 ∷ replays calls body (replay body delivered).1
