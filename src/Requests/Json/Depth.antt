-- ===== src/Requests/Json/Depth.antt =====
-- The scanner measures the nesting of every JSON text (clerksan/api/request_boundaries.py).
use clerk_san.Prelude.{
  List, [], ap, arith, false, length, max, ok, refl, subst, true, ℕ, ◌++◌, ◌+◌, ◌==◌, ◌||◌, ◌↔◌,
  ◌∙◌, ◌∷◌, ◌≡◌, ◌≤◌,
}
use clerk_san.Requests.Json.{Scan, json_depth, scan_byte, scan_bytes, validate_json_body}
use clerk_san.Requests.Json.Text.{
  AreJson, Character, HaveJson, IsJson, IsPlain, IsSpaces, IsText, Members, Value, Values, array,
  comma, escape, member_then, nesting, nesting_members, nesting_values, no_member, no_value, object,
  raw, render, render_characters, render_key, render_members, render_text, render_values, scalar,
  spaced, text, value_then,
}

scan_bytes-append :
    (xs ys : List ℕ) (scan : Scan) → scan_bytes (xs ++ ys) scan ≡ scan_bytes ys (scan_bytes xs scan)
unfolding scan_bytes
scan_bytes-append [] ys scan = refl
scan_bytes-append (x ∷ xs) ys scan = scan_bytes-append xs ys (scan_byte x scan)

-- The scanner between two values
abbrev outside : ℕ → ℕ → Scan
outside depth maximum = record {
  depth = depth;
  maximum = maximum;
  in_string = false;
  escaped = false;
}

abbrev inside : ℕ → ℕ → Scan
inside depth maximum = record {
  depth = depth;
  maximum = maximum;
  in_string = true;
  escaped = false;
}

scan_bytes-plain :
    (bytes : List ℕ) (depth maximum : ℕ)
    → IsPlain bytes
    → scan_bytes bytes (outside depth maximum) ≡ outside depth maximum
unfolding scan_bytes scan_byte
scan_bytes-plain [] depth maximum h = refl
scan_bytes-plain (c ∷ bytes) depth maximum h =
    ground (arith, scan_bytes-plain bytes depth maximum h.1)

scan_bytes-characters :
    (characters : List Character) (depth maximum : ℕ)
    → IsText characters
    → scan_bytes (render_characters characters) (inside depth maximum) ≡ inside depth maximum
unfolding scan_bytes scan_byte render_characters
scan_bytes-characters [] depth maximum h = refl
scan_bytes-characters (raw c ∷ characters) depth maximum h =
    ground (arith, scan_bytes-characters characters depth maximum h.1)
scan_bytes-characters (escape c ∷ characters) depth maximum h =
    ground (arith, scan_bytes-characters characters depth maximum h)

scan_bytes-text :
    (characters : List Character) (depth maximum : ℕ)
    → IsText characters
    → scan_bytes (render_text characters) (outside depth maximum) ≡ outside depth maximum
unfolding scan_bytes scan_byte render_text
scan_bytes-text characters depth maximum h =
    scan_bytes-append (render_characters characters) (0x22 ∷ []) (inside depth maximum)
    ∙ ap (scan_bytes (0x22 ∷ [])) (scan_bytes-characters characters depth maximum h)

scan_bytes-then :
    (xs ys : List ℕ) (scan : Scan) {scan' : Scan}
    → scan_bytes xs scan ≡ scan'
    → scan_bytes (xs ++ ys) scan ≡ scan_bytes ys scan'
scan_bytes-then xs ys scan e = scan_bytes-append xs ys scan ∙ ap (scan_bytes ys) e

scan_bytes-close :
    (close depth maximum : ℕ)
    → (close == 0x7d || close == 0x5d) ≡ true
    → scan_bytes (close ∷ []) (outside (depth + 1) maximum) ≡ outside depth maximum
unfolding scan_bytes scan_byte
scan_bytes-close close depth maximum h = ground arith

-- A bracket that closes what the first byte opened
scan_bytes-closed :
    (xs : List ℕ) (close depth maximum maximum' : ℕ)
    → (close == 0x7d || close == 0x5d) ≡ true
    → scan_bytes xs (outside (depth + 1) maximum) ≡ outside (depth + 1) maximum'
    → scan_bytes (xs ++ (close ∷ [])) (outside (depth + 1) maximum) ≡ outside depth maximum'
scan_bytes-closed xs close depth maximum maximum' h e =
    scan_bytes-then xs (close ∷ []) (outside (depth + 1) maximum) e
    ∙ scan_bytes-close close depth maximum' h

IsPlain-of_IsSpaces : (bytes : List ℕ) → IsSpaces bytes → IsPlain bytes
IsPlain-of_IsSpaces [] h = tt
IsPlain-of_IsSpaces (c ∷ bytes) h = (ground (arith, h.0), IsPlain-of_IsSpaces bytes h.1)

-- White space changes nothing between two values.
scan_bytes-spaces :
    (spaces ys : List ℕ) (depth maximum : ℕ)
    → IsSpaces spaces
    → scan_bytes (spaces ++ ys) (outside depth maximum) ≡ scan_bytes ys (outside depth maximum)
scan_bytes-spaces spaces ys depth maximum h =
    scan_bytes-then spaces ys (outside depth maximum)
      (scan_bytes-plain spaces depth maximum (IsPlain-of_IsSpaces spaces h))

scan_bytes-key :
    (before : List ℕ) (key : List Character) (after ys : List ℕ) (depth maximum : ℕ)
    → IsSpaces before
    → IsText key
    → IsSpaces after
    → scan_bytes (render_key before key after ++ ys) (outside depth maximum)
      ≡ scan_bytes ys (outside depth maximum)
unfolding render_key scan_bytes scan_byte
scan_bytes-key before key after ys depth maximum hb hk ha =
    scan_bytes-then (render_key before key after) ys (outside depth maximum) (
      scan_bytes-spaces before (render_text key ++ (after ++ (0x3a ∷ []))) depth maximum hb
      ∙ scan_bytes-then (render_text key) (after ++ (0x3a ∷ [])) (outside depth maximum)
          (scan_bytes-text key depth maximum hk)
      ∙ scan_bytes-spaces after (0x3a ∷ []) depth maximum ha)

mutual
  unfolding scan_bytes scan_byte render nesting

  scan_bytes-value :
      (value : Value) (depth maximum : ℕ)
      → IsJson value
      → depth ≤ maximum
      → scan_bytes (render value) (outside depth maximum)
        ≡ outside depth (max maximum (depth + nesting value))
  scan_bytes-value (scalar bytes) depth maximum h low =
      scan_bytes-plain bytes depth maximum h ∙ ap (outside depth) (omega arith)
  scan_bytes-value (text characters) depth maximum h low =
      scan_bytes-text characters depth maximum h ∙ ap (outside depth) (omega arith)
  scan_bytes-value (array spaces values) depth maximum h low =
      let maximum' = max maximum (depth + 1) in
      scan_bytes-closed (spaces ++ render_values values) 0x5d depth maximum' _ refl (
        scan_bytes-spaces spaces (render_values values) (depth + 1) maximum' h.0
        ∙ scan_bytes-values values (depth + 1) maximum' h.1 (omega arith))
      ∙ ap (outside depth) (omega arith)
  scan_bytes-value (object spaces members) depth maximum h low =
      let maximum' = max maximum (depth + 1) in
      scan_bytes-closed (spaces ++ render_members members) 0x7d depth maximum' _ refl (
        scan_bytes-spaces spaces (render_members members) (depth + 1) maximum' h.0
        ∙ scan_bytes-members members (depth + 1) maximum' h.1 (omega arith))
      ∙ ap (outside depth) (omega arith)
  scan_bytes-value (spaced before value after) depth maximum h low =
      scan_bytes-spaces before (render value ++ after) depth maximum h.0
      ∙ scan_bytes-then (render value) after (outside depth maximum)
          (scan_bytes-value value depth maximum h.1 low)
      ∙ scan_bytes-plain after depth (max maximum (depth + nesting value))
          (IsPlain-of_IsSpaces after h.2)

  scan_bytes-values :
      (values : Values) (depth maximum : ℕ)
      → AreJson values
      → depth ≤ maximum
      → scan_bytes (render_values values) (outside depth maximum)
        ≡ outside depth (max maximum (depth + nesting_values values))
  scan_bytes-values no_value depth maximum h low = ap (outside depth) (omega arith)
  scan_bytes-values (value_then value no_value) depth maximum h low =
      scan_bytes-value value depth maximum h.0 low ∙ ap (outside depth) (omega arith)
  scan_bytes-values (value_then value (value_then other values)) depth maximum h low =
      scan_bytes-then (render value) (comma ++ render_values (value_then other values))
        (outside depth maximum) (scan_bytes-value value depth maximum h.0 low)
      ∙ scan_bytes-values (value_then other values) depth (max maximum (depth + nesting value)) h.1
          (omega arith)
      ∙ ap (outside depth) (omega arith)

  scan_bytes-members :
      (members : Members) (depth maximum : ℕ)
      → HaveJson members
      → depth ≤ maximum
      → scan_bytes (render_members members) (outside depth maximum)
        ≡ outside depth (max maximum (depth + nesting_members members))
  scan_bytes-members no_member depth maximum h low = ap (outside depth) (omega arith)
  scan_bytes-members (member_then before key after value no_member) depth maximum h low =
      scan_bytes-key before key after (render value) depth maximum h.0 h.1 h.2
      ∙ scan_bytes-value value depth maximum h.3 low
      ∙ ap (outside depth) (omega arith)
  scan_bytes-members
        (member_then before key after value (member_then before' key' after' value' members)) depth
        maximum h low =
      let others = member_then before' key' after' value' members in
      scan_bytes-key before key after (render value ++ (comma ++ render_members others)) depth
        maximum h.0 h.1 h.2
      ∙ scan_bytes-then (render value) (comma ++ render_members others) (outside depth maximum)
          (scan_bytes-value value depth maximum h.3 low)
      ∙ scan_bytes-members (member_then before' key' after' value' members) depth
          (max maximum (depth + nesting value)) h.4 (omega arith)
      ∙ ap (outside depth) (omega arith)

json_depth-render : (value : Value) → IsJson value → json_depth (render value) ≡ nesting value
unfolding json_depth
json_depth-render value h =
    ap (λ (scan : Scan). scan.maximum) (scan_bytes-value value 0 0 h (omega arith)) ∙ omega arith

validate_json_body_iff :
    (body : List ℕ) (max_json_bytes max_json_depth : ℕ)
    → (validate_json_body body max_json_bytes max_json_depth ≡ ok tt)
      ↔ ((length body ≤ max_json_bytes) × (json_depth body ≤ max_json_depth))
unfolding validate_json_body
validate_json_body_iff body max_json_bytes max_json_depth =
    (λ e. ground (arith, e), λ p. ground (arith, p))

-- On the bytes of a JSON value, whatever stands in its strings and with white space wherever JSON
-- allows it, the scanner returns how deep the
-- value's arrays and objects are nested; so such a body is let pass exactly if it is no longer and
-- no deeper than the limits.
pub json_depth-eq-nesting :
    (value : Value) (max_json_bytes max_json_depth : ℕ)
    → IsJson value
    → (json_depth (render value) ≡ nesting value)
      × ((validate_json_body (render value) max_json_bytes max_json_depth ≡ ok tt)
          ↔ ((length (render value) ≤ max_json_bytes) × (nesting value ≤ max_json_depth)))
json_depth-eq-nesting value max_json_bytes max_json_depth h = (
  json_depth-render value h,
  subst
      (λ depth.
        (validate_json_body (render value) max_json_bytes max_json_depth ≡ ok tt)
        ↔ ((length (render value) ≤ max_json_bytes) × (depth ≤ max_json_depth)))
      (json_depth-render value h)
      (validate_json_body_iff (render value) max_json_bytes max_json_depth),
)
