-- ===== src/Strip/Extracted.antt =====
-- What `extractAndStripFields` returns at the end of a walk over an object.
use metrics_agent.Prelude.{
  ◌≡◌, ◌≢◌, refl, sym, ap, ◌∙◌, subst, Bool, true, false, not, inl, inr, List, [], ◌∷◌, ◌++◌, none,
  append_assoc, arith, ◌==◌, length, length-append, Bytes, codes, Bool-cases,
}
use metrics_agent.Scan.{is_json_space, scan_ws}
use metrics_agent.Scan.Spaces.{Spaces, scan_ws-append, scan_ws-stop}
use metrics_agent.Strip.{
  Codec, RoutingFields, WalkState, miss, removed_fields, strip_result, walk, walk_start, of_walk,
  is_project_key, is_token_key, project_key, token_key, strip_members, strip_object, splice,
  cuts_of,
}
use metrics_agent.Strip.Layout.{Piece, text}
use metrics_agent.Strip.Walk.{behind, Pieces, notes, walk-Pieces}
use metrics_agent.Strip.Splice.{is_routing, survives, spans, left, body, splice-left}
use metrics_agent.Strip.Survivors.{
  Entry, entries, is_routing_key, without_routing, has_routing, left-Pieces, entries-left,
  without_routing-nil, same_key,
}
use metrics_agent.Strip.Notes.{found, found_bad, notes-Noted, notes-hits, notes-idx, last_value}
use metrics_agent.Strip.Object.{IsObject, inside}
use metrics_agent.Strip.Result.{
  strip_result_none, strip_result_some, spans-nil, spans-ne-nil, length-spans-survives,
}

module _ (codec : Codec) (with_token : Bool) (b : Bytes) where
  brace_no_space : is_json_space b'{' ≡ false
  unfolding is_json_space
  brace_no_space = refl

  pub strip_object-open :
      (front x : Bytes)
      → Spaces front
      → b ≡ front ++ b'{' ∷ x
      → strip_object codec with_token b (scan_ws b) ≡ strip_members codec with_token b (scan_ws x)
  unfolding strip_object
  strip_object-open front x h e =
      rw (ap scan_ws e ∙ scan_ws-append front (b'{' ∷ x) h ∙ scan_ws-stop (b'{' ∷ x) brace_no_space)
        refl

  pub close_no_space : (tail : Bytes) → scan_ws (b'}' ∷ tail) ≡ b'}' ∷ tail
  unfolding is_json_space
  close_no_space tail = scan_ws-stop _ refl

  pub strip_members-close : (tail : Bytes) → strip_members codec with_token b (b'}' ∷ tail) ≡ miss b
  unfolding strip_members
  strip_members-close tail = refl

  pub strip_members-quote :
      (x : Bytes)
      → strip_members codec with_token b (b'"' ∷ x)
        ≡ of_walk codec b (walk codec with_token b (length b) (b'"' ∷ x) walk_start)
  unfolding strip_members
  strip_members-quote x = refl

  -- What the function returns for an object with the members `es`.
  pub record Extracted (es : List Entry) (f : RoutingFields) : Type 0 where
    pub well_formed : f.malformed ≡ false
    pub removed_is : f.removed ≡ has_routing with_token es
    pub object : IsObject f.stripped (without_routing with_token es)
    pub project_is : f.project ≡ found codec is_project_key es
    pub bad_project_is : f.bad_project ≡ found_bad codec is_project_key es
    pub token_is : f.token ≡ found codec (is_token_key with_token) es
    pub bad_token_is : f.bad_token ≡ found_bad codec (is_token_key with_token) es

  last_value-none :
      (test : Bytes → Bool) (es : List Entry)
      → ((key : Bytes) → is_routing_key with_token key ≡ false → test key ≡ false)
      → has_routing with_token es ≡ false
      → last_value codec test es ≡ none
  last_value-none test [] t h = refl
  last_value-none test (e ∷ es) t h =
      rw (last_value-none test es t (ground arith)) (rw (t e.key (ground arith)) refl)

  project_test : (key : Bytes) → is_routing_key with_token key ≡ false → is_project_key key ≡ false
  project_test key h = same_key key project_key ∙ ground arith

  token_test :
      (key : Bytes) → is_routing_key with_token key ≡ false → is_token_key with_token key ≡ false
  token_test key h = rw (same_key key token_key) (ground arith)

  without_routing_self :
      (es : List Entry) → has_routing with_token es ≡ false → without_routing with_token es ≡ es
  without_routing_self [] h = refl
  without_routing_self (e ∷ es) h =
      let kept : is_routing_key with_token e.key ≡ false = ground arith in
      rw kept (ap (◌∷◌ e) (without_routing_self es (ground arith)))

  -- An object with no routing member is passed on as it is.
  pub miss-Extracted :
      (es : List Entry) → IsObject b es → has_routing with_token es ≡ false → Extracted es (miss b)
  miss-Extracted es o h =
      let project_none = last_value-none is_project_key es project_test h in
      let token_none = last_value-none (is_token_key with_token) es token_test h in
      record {
        well_formed = refl;
        removed_is = sym h;
        object = subst (IsObject b) (sym (without_routing_self es h)) o;
        project_is = rw (project_none, found) refl;
        bad_project_is = rw (project_none, found_bad) refl;
        token_is = rw (token_none, found) refl;
        bad_token_is = rw (token_none, found_bad) refl;
      }

  -- The first member of an object, whose white space `scanWS` has read already.
  module _ (p : Piece) (ps : List Piece) (tail front gap : Bytes) (good : Pieces (p ∷ ps))
      (front_spaces : Spaces front) (gap_spaces : Spaces gap)
      (e : b ≡ front ++ b'{' ∷ (gap ++ text p (behind ps tail))) where
    abbrev members : List Entry
    members = entries (p ∷ ps)

    abbrev pub state : WalkState
    state = notes codec with_token b (p ∷ ps) tail walk_start

    abbrev opening : Bytes
    opening = front ++ b'{' ∷ gap

    opening_splits : b ≡ opening ++ text p (behind ps tail)
    opening_splits = e ∙ sym (append_assoc front (b'{' ∷ gap) (text p (behind ps tail)))

    pub walk-state :
        of_walk codec b (walk codec with_token b (length b) (text p (behind ps tail)) walk_start)
        ≡ strip_result b state
    walk-state = ap (of_walk codec b) (
        walk-Pieces codec with_token b (length b) p ps tail walk_start good (
          omega (arith, ap length opening_splits, length-append opening (text p (behind ps tail)))))

    hits-spans : state.hits ≡ spans with_token b (p ∷ ps) tail 0
    hits-spans = notes-hits codec with_token b (p ∷ ps) tail walk_start

    idx-length : state.idx ≡ length (p ∷ ps)
    idx-length = omega (arith, notes-idx codec with_token b (p ∷ ps) tail walk_start)

    all_hits : (length state.hits == state.idx) ≡ not (survives with_token (p ∷ ps))
    all_hits =
        ap (λ hs. length hs == state.idx) hits-spans
        ∙ ap (λ n. length (spans with_token b (p ∷ ps) tail 0) == n) idx-length
        ∙ length-spans-survives with_token b tail (p ∷ ps) 0

    body-inside : (qs : List Piece) → qs ≢ [] → body with_token qs tail ≡ inside qs tail
    body-inside [] ne = absurd (ne refl)
    body-inside (q ∷ qs) ne = refl

    left-ne-nil :
        (w : Bytes) (qs : List Piece) → survives with_token qs ≡ true → left with_token w qs ≢ []
    left-ne-nil w [] h = λ x. cc
    left-ne-nil w (q ∷ qs) h = elim (Bool-cases (is_routing with_token q)) [
      | inl hit ↦ rw hit (left-ne-nil (w ++ q.lead) qs (ground arith))
      | inr kept ↦ rw kept (λ x. cc)
    ]

    spliced-IsObject :
        survives with_token (p ∷ ps) ≡ true
        → IsObject (splice b 0 (cuts_of b 0 state.hits)) (without_routing with_token members)
    spliced-IsObject h = record {
      front = front;
      gap = gap;
      pieces = left with_token [] (p ∷ ps);
      tail = tail;
      front_spaces = front_spaces;
      gap_spaces = gap_spaces;
      are_pieces = left-Pieces with_token [] (p ∷ ps) tt good;
      splits =
          ap (λ hs. splice b 0 (cuts_of b 0 hs)) hits-spans
          ∙ splice-left with_token b opening p ps tail good opening_splits h
          ∙ ap (λ x. opening ++ x) (body-inside _ (left-ne-nil [] (p ∷ ps) h))
          ∙ append_assoc front (b'{' ∷ gap) _;
      entries_are = entries-left with_token [] (p ∷ ps);
    }

    empty-IsObject :
        survives with_token (p ∷ ps) ≡ false
        → IsObject (codes "{}") (without_routing with_token members)
    empty-IsObject h = record {
      front = [];
      gap = [];
      pieces = [];
      tail = [];
      front_spaces = tt;
      gap_spaces = tt;
      are_pieces = tt;
      splits = refl;
      entries_are = sym (without_routing-nil with_token (p ∷ ps) h);
    }

    stripped-IsObject :
        IsObject (removed_fields b state).stripped (without_routing with_token members)
    stripped-IsObject = elim (Bool-cases (survives with_token (p ∷ ps))) [
      | inl h ↦ rw (all_hits ∙ ap not h) (spliced-IsObject h)
      | inr h ↦ rw (all_hits ∙ ap not h) (empty-IsObject h)
    ]

    removed-Extracted :
        has_routing with_token members ≡ true → Extracted members (removed_fields b state)
    removed-Extracted h =
        let n = notes-Noted codec with_token b (p ∷ ps) tail in
        record {
          well_formed = refl;
          removed_is = sym h;
          object = stripped-IsObject;
          project_is = n.project_is;
          bad_project_is = n.bad_project_is;
          token_is = n.token_is;
          bad_token_is = n.bad_token_is;
        }

    abbrev whole : IsObject b members
    whole = record {
      front = front;
      gap = gap;
      pieces = p ∷ ps;
      tail = tail;
      front_spaces = front_spaces;
      gap_spaces = gap_spaces;
      are_pieces = good;
      splits = e;
      entries_are = refl;
    }

    pub strip_result-Extracted : Extracted members (strip_result b state)
    strip_result-Extracted = elim (Bool-cases (has_routing with_token members)) [
      | inl h ↦
          subst (Extracted members)
            (sym (
              strip_result_some b state
                (λ x. spans-ne-nil with_token b tail (p ∷ ps) 0 h (sym hits-spans ∙ x))))
            (removed-Extracted h)
      | inr h ↦
          subst (Extracted members)
            (sym
              (strip_result_none b state (hits-spans ∙ spans-nil with_token b tail (p ∷ ps) 0 h)))
            (miss-Extracted members whole h)
    ]
