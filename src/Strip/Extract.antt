-- ===== src/Strip/Extract.antt =====
-- `extractAndStripFields` on the bodies that are JSON objects, and on all others.
use metrics_agent.Prelude.{
  ◌≡◌, refl, sym, ap, ◌∙◌, subst, Bool, true, false, inl, inr, List, [], ◌∷◌, ◌++◌, append_assoc,
  Bytes, Bool-cases,
}
use metrics_agent.Scan.{is_json_space, scan_ws}
use metrics_agent.Scan.Spaces.{Spaces, Spaces-append, scan_ws-append, scan_ws-stop}
use metrics_agent.Strip.{
  Codec, miss, strip_members, strip_object, lacks_markers, extract_and_strip_fields,
}
use metrics_agent.Strip.Layout.{Piece, IsPiece, key_text}
use metrics_agent.Strip.Walk.{behind, Pieces}
use metrics_agent.Strip.Survivors.{Entry, entries, has_routing}
use metrics_agent.Strip.Prefilter.{has_routing-marker}
use metrics_agent.Strip.Object.{IsObject, inside}
use metrics_agent.Strip.Extracted.{
  Extracted, strip_object-open, close_no_space, strip_members-close, strip_members-quote,
  miss-Extracted, walk-state, strip_result-Extracted,
}

quote_no_space : is_json_space b'"' ≡ false
unfolding is_json_space
quote_no_space = refl

-- The piece without its leading white space.
abbrev bare : Piece → Piece
bare p = record p { lead = [] }

bare-IsPiece : (p : Piece) → IsPiece p → IsPiece (bare p)
bare-IsPiece p h = record {
  lead_spaces = tt;
  key_scans = h.key_scans;
  before_spaces = h.before_spaces;
  after_spaces = h.after_spaces;
  value_starts = h.value_starts;
  value_ne_nil = h.value_ne_nil;
  value_scans = h.value_scans;
  trail_spaces = h.trail_spaces;
}

module _ (codec : Codec) (with_token : Bool) (b : Bytes) where
  empty-Extracted :
      (front gap tail : Bytes)
      → Spaces front
      → Spaces gap
      → b ≡ front ++ b'{' ∷ (gap ++ b'}' ∷ tail)
      → strip_object codec with_token b (scan_ws b) ≡ miss b
  empty-Extracted front gap tail f g e =
      strip_object-open codec with_token b front (gap ++ b'}' ∷ tail) f e
      ∙ ap (strip_members codec with_token b)
          (scan_ws-append gap (b'}' ∷ tail) g ∙ close_no_space codec with_token b tail)
      ∙ strip_members-close codec with_token b tail

  Pieces-Extracted :
      (front gap : Bytes) (ps : List Piece) (tail : Bytes)
      → Spaces front
      → Spaces gap
      → Pieces ps
      → b ≡ front ++ b'{' ∷ (gap ++ inside ps tail)
      → Extracted codec with_token b (entries ps) (strip_object codec with_token b (scan_ws b))
  Pieces-Extracted front gap [] tail f g good e =
      subst (Extracted codec with_token b []) (sym (empty-Extracted front gap tail f g e)) (
        miss-Extracted codec with_token b []
          (record {
            front = front;
            gap = gap;
            pieces = [];
            tail = tail;
            front_spaces = f;
            gap_spaces = g;
            are_pieces = tt;
            splits = e;
            entries_are = refl;
          })
          refl)
  Pieces-Extracted front gap (p ∷ ps) tail f g good e =
      let q = bare p in
      let wide = Spaces-append gap p.lead g good.0.lead_spaces in
      let rest = key_text p (behind ps tail) in
      let pieces : Pieces (q ∷ ps) = (bare-IsPiece p good.0, good.1) in
      let split : b ≡ front ++ b'{' ∷ ((gap ++ p.lead) ++ rest) =
        e ∙ ap (λ x. front ++ b'{' ∷ x) (sym (append_assoc gap p.lead rest)) in
      subst (Extracted codec with_token b (entries (q ∷ ps)))
        (sym (
          strip_object-open codec with_token b front ((gap ++ p.lead) ++ rest) f split
          ∙ ap (strip_members codec with_token b)
              (scan_ws-append (gap ++ p.lead) rest wide ∙ scan_ws-stop rest quote_no_space)
          ∙ strip_members-quote codec with_token b _
          ∙ walk-state codec with_token b q ps tail front (gap ++ p.lead) pieces f wide split))
        (strip_result-Extracted codec with_token b q ps tail front (gap ++ p.lead) pieces f wide
          split)

  strip_object-Extracted :
      (es : List Entry)
      → IsObject b es
      → Extracted codec with_token b es (strip_object codec with_token b (scan_ws b))
  strip_object-Extracted es o =
      subst (λ x. Extracted codec with_token b x (strip_object codec with_token b (scan_ws b)))
        o.entries_are
        (Pieces-Extracted o.front o.gap o.pieces o.tail o.front_spaces o.gap_spaces o.are_pieces
          o.splits)

  pieces-marker :
      (front gap : Bytes) (ps : List Piece) (tail : Bytes)
      → b ≡ front ++ b'{' ∷ (gap ++ inside ps tail)
      → has_routing with_token (entries ps) ≡ true
      → lacks_markers with_token b ≡ false
  pieces-marker front gap [] tail e h = cc
  pieces-marker front gap (p ∷ ps) tail e h =
      has_routing-marker with_token b (front ++ b'{' ∷ gap) p ps tail
        (e ∙ sym (append_assoc front (b'{' ∷ gap) _)) h

  IsObject-marker :
      (es : List Entry)
      → IsObject b es
      → lacks_markers with_token b ≡ true
      → has_routing with_token es ≡ false
  IsObject-marker es o h = elim (Bool-cases (has_routing with_token es)) [
    | inl r ↦ absurd (
        cc (
          pieces-marker o.front o.gap o.pieces o.tail o.splits
            (ap (has_routing with_token) o.entries_are ∙ r)))
    | inr r ↦ r
  ]

  -- From a body that is an object, exactly the routing members are removed: the result is an
  -- object with all other members, byte for byte and in order, and the fields hold the value of
  -- the last `_project` and of the last `_token`.
  pub extract-Extracted :
      (es : List Entry)
      → IsObject b es
      → Extracted codec with_token b es (extract_and_strip_fields codec with_token b)
  unfolding extract_and_strip_fields
  extract-Extracted es o = elim (Bool-cases (lacks_markers with_token b)) [
    | inl h ↦ rw h (miss-Extracted codec with_token b es o (IsObject-marker es o h))
    | inr h ↦ rw h (strip_object-Extracted es o)
  ]
