-- ===== src/Strip/Notes.antt =====
-- What the walk has noted down at its end: a span for each routing member, and the last value of
-- each of the two keys.
use metrics_agent.Prelude.{
  ◌+◌, ◌≡◌, refl, sym, ap, ◌∙◌, subst, Bool, true, false, ◌||◌, inl, inr, List, [], ◌∷◌, ◌++◌,
  append_assoc, append-nil, Option, none, some, arith, length, Bytes, equal_iff, until, Bool-cases,
  Option-cases, if◌then◌else◌,
}
use metrics_agent.Strip.{
  Codec, Member, WalkState, is_project_key, is_token_key, project_key, span_of, routing_value, note,
  walk_start,
}
use metrics_agent.Strip.Layout.{Piece, member_of, until-append}
use metrics_agent.Strip.Walk.{behind, notes}
use metrics_agent.Strip.Splice.{is_routing, spans}
use metrics_agent.Strip.Survivors.{Entry, entries, same_key}

-- A decoded value, `""` where there is none; and whether a value was there and was unusable.
abbrev pub value_or_nil : Option Bytes → Bytes
value_or_nil none = []
value_or_nil (some v) = v

abbrev pub is_bad : Option Bytes → Bool
is_bad none = true
is_bad (some v) = false

module _ (codec : Codec) where
  -- The value of the last member whose key passes the test, if there is one: `some none` where
  -- that value is no string that can be decoded.
  abbrev pub last_value : (Bytes → Bool) → List Entry → Option (Option Bytes)
  last_value test [] = none
  last_value test (e ∷ es) = elim (last_value test es) [
    | some v ↦ some v
    | none ↦ if test e.key then some (routing_value codec e.kind e.value) else none
  ]

  -- The routing value that a key has in an object: `""` if it has none.
  abbrev pub found : (Bytes → Bool) → List Entry → Bytes
  found test es = elim (last_value test es) [ none ↦ [] | some v ↦ value_or_nil v ]

  abbrev pub found_bad : (Bytes → Bool) → List Entry → Bool
  found_bad test es = elim (last_value test es) [ none ↦ false | some v ↦ is_bad v ]

  module _ (with_token : Bool) (b : Bytes) where
    abbrev value_of : Member → Option Bytes
    value_of m = routing_value codec m.kind (until m.val_at m.val_end)

    note_project :
        (m : Member) (st : WalkState)
        → is_project_key m.key ≡ true
        → note codec with_token b m st ≡ record st {
          hits = st.hits ++ span_of b m st.idx ∷ [];
          idx = st.idx + 1;
          project = value_or_nil (value_of m);
          bad_project = is_bad (value_of m);
        }
    unfolding note
    note_project m st h = rw h (ground arith)

    note_token :
        (m : Member) (st : WalkState)
        → is_project_key m.key ≡ false
        → is_token_key with_token m.key ≡ true
        → note codec with_token b m st ≡ record st {
          hits = st.hits ++ span_of b m st.idx ∷ [];
          idx = st.idx + 1;
          token = value_or_nil (value_of m);
          bad_token = is_bad (value_of m);
        }
    unfolding note
    note_token m st h k = rw h (rw k (ground arith))

    note_other :
        (m : Member) (st : WalkState)
        → is_project_key m.key ≡ false
        → is_token_key with_token m.key ≡ false
        → note codec with_token b m st ≡ record st { idx = st.idx + 1 }
    unfolding note
    note_other m st h k = rw h (rw k refl)

    value_of-member :
        (p : Piece) (r : Bytes) → value_of (member_of p r) ≡ routing_value codec p.kind p.value
    value_of-member p r = ap (routing_value codec p.kind) (until-append p.value (p.trail ++ r))

    project-ne-token :
        (key : Bytes) → is_project_key key ≡ true → is_token_key with_token key ≡ false
    project-ne-token key h =
        let e : key ≡ project_key =
          (equal_iff key project_key).0 (sym (same_key key project_key) ∙ h) in
        subst (λ k. is_token_key with_token k ≡ false) (sym e) (ground arith)

    -- What one round changes, field by field.
    module _ (m : Member) (st : WalkState) where
      abbrev round : WalkState
      round = note codec with_token b m st

      note-hits : round.hits ≡ (
          if is_project_key m.key || is_token_key with_token m.key
          then st.hits ++ span_of b m st.idx ∷ []
          else st.hits)
      unfolding note
      note-hits = elim (Bool-cases (is_project_key m.key)) [
        | inl h ↦ rw h refl
        | inr h ↦ elim (Bool-cases (is_token_key with_token m.key)) [
          | inl k ↦ rw h (rw k refl)
          | inr k ↦ rw h (rw k refl)
        ]
      ]

      note-idx : round.idx ≡ st.idx + 1
      unfolding note
      note-idx = elim (Bool-cases (is_project_key m.key)) [
        | inl h ↦ rw h refl
        | inr h ↦ elim (Bool-cases (is_token_key with_token m.key)) [
          | inl k ↦ rw h (rw k refl)
          | inr k ↦ rw h (rw k refl)
        ]
      ]

      record Round : Type 0 where
        project_is :
            round.project ≡ (if is_project_key m.key then value_or_nil (value_of m) else st.project)
        bad_project_is :
            round.bad_project
            ≡ (if is_project_key m.key then is_bad (value_of m) else st.bad_project)
        token_is :
            round.token
            ≡ (if is_token_key with_token m.key then value_or_nil (value_of m) else st.token)
        bad_token_is :
            round.bad_token
            ≡ (if is_token_key with_token m.key then is_bad (value_of m) else st.bad_token)

      note-Round : Round
      note-Round = elim (Bool-cases (is_project_key m.key)) [
        | inl h ↦
            let e = note_project m st h in
            let k = project-ne-token m.key h in
            record {
              project_is = rw h (ap (λ r. r.project) e);
              bad_project_is = rw h (ap (λ r. r.bad_project) e);
              token_is = rw k (ap (λ r. r.token) e);
              bad_token_is = rw k (ap (λ r. r.bad_token) e);
            }
        | inr h ↦ elim (Bool-cases (is_token_key with_token m.key)) [
          | inl k ↦
              let e = note_token m st h k in
              record {
                project_is = rw h (ap (λ r. r.project) e);
                bad_project_is = rw h (ap (λ r. r.bad_project) e);
                token_is = rw k (ap (λ r. r.token) e);
                bad_token_is = rw k (ap (λ r. r.bad_token) e);
              }
          | inr k ↦
              let e = note_other m st h k in
              record {
                project_is = rw h (ap (λ r. r.project) e);
                bad_project_is = rw h (ap (λ r. r.bad_project) e);
                token_is = rw k (ap (λ r. r.token) e);
                bad_token_is = rw k (ap (λ r. r.bad_token) e);
              }
        ]
      ]

    pub notes-idx :
        (ps : List Piece) (tail : Bytes) (st : WalkState)
        → (notes codec with_token b ps tail st).idx ≡ st.idx + length ps
    notes-idx [] tail st = omega arith
    notes-idx (p ∷ ps) tail st =
        let m = member_of p (behind ps tail) in
        omega (arith, notes-idx ps tail (note codec with_token b m st), note-idx m st)

    -- A span for each routing member, in order.
    pub notes-hits :
        (ps : List Piece) (tail : Bytes) (st : WalkState)
        → (notes codec with_token b ps tail st).hits ≡ st.hits ++ spans with_token b ps tail st.idx
    notes-hits [] tail st = sym (append-nil st.hits)
    notes-hits (p ∷ ps) tail st =
        let m = member_of p (behind ps tail) in
        notes-hits ps tail (note codec with_token b m st)
        ∙ ap (λ i. (note codec with_token b m st).hits ++ spans with_token b ps tail i)
            (note-idx m st)
        ∙ elim (Bool-cases (is_routing with_token p)) [
          | inl hit ↦ rw hit (
              ap (λ x. x ++ spans with_token b ps tail (st.idx + 1)) (note-hits m st ∙ rw hit refl)
              ∙ append_assoc st.hits (span_of b m st.idx ∷ []) _)
          | inr kept ↦ rw kept (
              ap (λ x. x ++ spans with_token b ps tail (st.idx + 1))
                (note-hits m st ∙ rw kept refl))
        ]

    -- A field that each round sets where the key passes the test.
    field-last {ℓ} :
        {A : Type ℓ} (test : Bytes → Bool) (get : WalkState → A) (set : Option Bytes → A)
        → ((m : Member) (st : WalkState)
            → get (note codec with_token b m st)
              ≡ (if test m.key then set (value_of m) else get st))
        → (ps : List Piece) (tail : Bytes) (st : WalkState)
        → get (notes codec with_token b ps tail st)
          ≡ elim (last_value test (entries ps)) [ none ↦ get st | some v ↦ set v ]
    field-last test get set each [] tail st = refl
    field-last test get set each (p ∷ ps) tail st =
        let m = member_of p (behind ps tail) in
        field-last test get set each ps tail (note codec with_token b m st)
        ∙ elim (Option-cases (last_value test (entries ps))) [
          | inl nothing ↦ rw nothing (
              each m st ∙ elim (Bool-cases (test p.key)) [
                | inl t ↦ rw t (ap set (value_of-member p (behind ps tail)))
                | inr t ↦ rw t refl
              ])
          | inr (v, later) ↦ rw later refl
        ]

    pub record Noted (es : List Entry) (st : WalkState) : Type 0 where
      pub project_is : st.project ≡ found is_project_key es
      pub bad_project_is : st.bad_project ≡ found_bad is_project_key es
      pub token_is : st.token ≡ found (is_token_key with_token) es
      pub bad_token_is : st.bad_token ≡ found_bad (is_token_key with_token) es

    pub notes-Noted :
        (ps : List Piece) (tail : Bytes)
        → Noted (entries ps) (notes codec with_token b ps tail walk_start)
    notes-Noted ps tail = record {
      project_is =
          field-last is_project_key (λ r. r.project) value_or_nil
            (λ m st. (note-Round m st).project_is) ps tail walk_start;
      bad_project_is =
          field-last is_project_key (λ r. r.bad_project) is_bad
            (λ m st. (note-Round m st).bad_project_is) ps tail walk_start;
      token_is =
          field-last (is_token_key with_token) (λ r. r.token) value_or_nil
            (λ m st. (note-Round m st).token_is) ps tail walk_start;
      bad_token_is =
          field-last (is_token_key with_token) (λ r. r.bad_token) is_bad
            (λ m st. (note-Round m st).bad_token_is) ps tail walk_start;
    }
