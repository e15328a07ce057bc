-- ===== src/Strip/Safety.antt =====
-- Whatever the body was: if a member was removed the body was an object, and what is left has no
-- key that is spelt like a routing key.
use metrics_agent.Prelude.{
  ◌≡◌, ◌≢◌, refl, ap, ◌∙◌, Bool, true, false, inl, inr, ◌⊎◌, List, [], ◌∷◌, ◌++◌, arith, ◌==◌,
  ==_iff, length, length-append, Bytes, Bool-cases,
}
use metrics_agent.Scan.{scan_ws}
use metrics_agent.Scan.Spaces.{Spaces, scan_ws-Skipped}
use metrics_agent.Strip.{
  Codec, Span, RoutingFields, WalkState, Walked, finished, malformed, out_of_fuel, miss,
  malformed_body, removed_fields, strip_result, walk, walk_start, of_walk, strip_members,
  strip_object, lacks_markers, extract_and_strip_fields,
}
use metrics_agent.Strip.Walk.{walk-WalkRead, walk-ne-out_of_fuel}
use metrics_agent.Strip.Survivors.{
  Entry, entries, without_routing, has_routing, has_routing-without_routing,
}
use metrics_agent.Strip.Object.{IsObject}
use metrics_agent.Strip.Extract.{extract-Extracted}

-- The three ways the function ends.
pub data Outcome (b : Bytes) (f : RoutingFields) : Type 0 where
  passed : f ≡ miss b → Outcome b f
  refused : f ≡ malformed_body b → Outcome b f
  removed : (es : List Entry) → IsObject b es → f.removed ≡ true → Outcome b f

module _ (b : Bytes) where
  strip_result-cases :
      (st : WalkState) → (strip_result b st ≡ miss b) ⊎ (strip_result b st ≡ removed_fields b st)
  unfolding strip_result
  strip_result-cases st = go st.hits
    where
      go :
          (hs : List Span)
          → ((elim hs [ [] ↦ miss b | h ∷ rest ↦ removed_fields b st ]) ≡ miss b)
            ⊎ ((elim hs [ [] ↦ miss b | h ∷ rest ↦ removed_fields b st ]) ≡ removed_fields b st)
      go [] = inl refl
      go (h ∷ hs) = inr refl

module _ (codec : Codec) (with_token : Bool) (b : Bytes) where
  walked-Outcome :
      (front gap s : Bytes) (w : Walked)
      → Spaces front
      → Spaces gap
      → b ≡ front ++ b'{' ∷ (gap ++ s)
      → walk codec with_token b (length b) s walk_start ≡ w
      → Outcome b (of_walk codec b w)
  walked-Outcome front gap s malformed f g e h = refused refl
  walked-Outcome front gap s out_of_fuel f g e h = refused refl
  walked-Outcome front gap s (finished st) f g e h = elim (strip_result-cases b st) [
    | inl none_found ↦ passed none_found
    | inr found ↦
        let w = walk-WalkRead codec with_token b (length b) s walk_start h in
        removed (entries (w.first ∷ w.others))
          (record {
            front = front;
            gap = gap;
            pieces = w.first ∷ w.others;
            tail = w.tail;
            front_spaces = f;
            gap_spaces = g;
            are_pieces = w.pieces;
            splits = e ∙ ap (λ x. front ++ b'{' ∷ (gap ++ x)) w.splits;
            entries_are = refl;
          })
          (ap (λ r. r.removed) found)
  ]

  members-Outcome :
      (front gap s : Bytes)
      → Spaces front
      → Spaces gap
      → b ≡ front ++ b'{' ∷ (gap ++ s)
      → Outcome b (strip_members codec with_token b s)
  unfolding strip_members
  members-Outcome front gap [] f g e = refused refl
  members-Outcome front gap (c ∷ r) f g e = elim (Bool-cases (c == b'}')) [
    | inl close ↦ passed (rw close refl)
    | inr open_text ↦ rw open_text (walked-Outcome front gap (c ∷ r) _ f g e refl)
  ]

  object-Outcome :
      (front s : Bytes)
      → Spaces front
      → b ≡ front ++ s
      → Outcome b (strip_object codec with_token b s)
  unfolding strip_object
  object-Outcome front [] f e = refused refl
  object-Outcome front (c ∷ r) f e = elim (Bool-cases (c == b'{')) [
    | inl brace ↦
        let k = scan_ws-Skipped r in
        rw brace (
          members-Outcome front k.spaces (scan_ws r) f k.are_spaces (
            e
            ∙ ap (λ x. front ++ x ∷ r) ((==_iff c b'{').0 brace)
            ∙ ap (λ x. front ++ b'{' ∷ x) k.splits))
    | inr other ↦ passed (rw other refl)
  ]

  -- Every body is passed on untouched, refused as malformed, or an object with members removed.
  pub extract-Outcome : Outcome b (extract_and_strip_fields codec with_token b)
  unfolding extract_and_strip_fields
  extract-Outcome = elim (Bool-cases (lacks_markers with_token b)) [
    | inl h ↦ passed (rw h refl)
    | inr h ↦
        let k = scan_ws-Skipped b in
        rw h (object-Outcome k.spaces (scan_ws b) k.are_spaces k.splits)
  ]

  extract-miss :
      (f : RoutingFields) → Outcome b f → f.removed ≡ false → f.malformed ≡ false → f ≡ miss b
  extract-miss f (passed e) r m = e
  extract-miss f (refused e) r m = cc
  extract-miss f (removed es o k) r m = cc

-- An object with no routing member comes back as it is.
extract-without_routing :
    (codec : Codec) (with_token : Bool) (b : Bytes) (es : List Entry)
    → IsObject b es
    → has_routing with_token es ≡ false
    → extract_and_strip_fields codec with_token b ≡ miss b
extract-without_routing codec with_token b es o h =
    let x = extract-Extracted codec with_token b es o in
    extract-miss codec with_token b _ (extract-Outcome codec with_token b) (x.removed_is ∙ h)
      x.well_formed

-- The body that is left, as an object with the members that are left.
pub record Clean (codec : Codec) (with_token : Bool) (b : Bytes) : Type 0 where
  pub members : List Entry
  pub object : IsObject b members
  -- No key between its quotes is, byte for byte, `_project` or, with tokens, `_token`.
  pub no_routing : has_routing with_token members ≡ false
  pub stable : extract_and_strip_fields codec with_token b ≡ miss b

-- Once the function has removed a member, the body that it returns is an object none of whose
-- members has the key `_project` or `_token` as it is spelt, byte for byte, and a second scan hands
-- that body back unchanged. A key that spells the name with escapes is not compared with them.
pub extract_again :
    (codec : Codec) (with_token : Bool) (b : Bytes)
    → (extract_and_strip_fields codec with_token b).removed ≡ true
    → Clean codec with_token (extract_and_strip_fields codec with_token b).stripped
extract_again codec with_token b h = elim (extract-Outcome codec with_token b) [
  | passed e ↦ absurd (cc)
  | refused e ↦ absurd (cc)
  | removed es o k ↦
      let left = (extract-Extracted codec with_token b es o).object in
      let none_left = has_routing-without_routing with_token es in
      record {
        members = without_routing with_token es;
        object = left;
        no_routing = none_left;
        stable =
            extract-without_routing codec with_token _ (without_routing with_token es) left
              none_left;
      }
]

-- The loop's fuel, the length of the body, is enough behind the opening brace.
pub walk-fuel :
    (codec : Codec) (with_token : Bool) (front s : Bytes)
    → walk codec with_token (front ++ b'{' ∷ s) (length (front ++ b'{' ∷ s)) s walk_start
      ≢ out_of_fuel
walk-fuel codec with_token front s =
    walk-ne-out_of_fuel codec with_token (front ++ b'{' ∷ s) _ s walk_start
      (omega (arith, length-append front (b'{' ∷ s)))
