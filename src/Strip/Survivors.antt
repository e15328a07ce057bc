-- ===== src/Strip/Survivors.antt =====
-- The members of an object as entries, and what removing the routing members does to them.
use metrics_agent.Prelude.{
  ◌≡◌, refl, sym, ap, ◌∙◌, Bool, true, false, ◌||◌, ◌&&◌, inl, inr, List, [], ◌∷◌, ◌++◌, arith,
  length, Bytes, ◌==◌, equal, equal_iff, Bool-cases, if◌then◌else◌,
}
use metrics_agent.Scan.{ValueKind}
use metrics_agent.Scan.Spaces.{Spaces, Spaces-append}
use metrics_agent.Strip.{project_key, token_key}
use metrics_agent.Strip.Layout.{Piece, IsPiece}
use metrics_agent.Strip.Walk.{Pieces}
use metrics_agent.Strip.Splice.{is_routing, survives, left_trail, left_rest, left}

-- A top-level member: the bytes between its key's quotes, its value's text and kind.
pub record Entry : Type 0 where
  pub key : Bytes
  pub value : Bytes
  pub kind : ValueKind

abbrev pub entry_of : Piece → Entry
entry_of p = record { key = p.key; value = p.value; kind = p.kind }

abbrev pub entries : List Piece → List Entry
entries [] = []
entries (p ∷ ps) = entry_of p ∷ entries ps

-- The comparison of lengths in front of `bytes.Equal` changes nothing.
pub same_key : (k c : Bytes) → (length k == length c && equal k c) ≡ equal k c
same_key k c = elim (Bool-cases (equal k c)) [
  | inl same ↦ rw same (ground (arith, ap length ((equal_iff k c).0 same)))
  | inr other ↦ rw other (ground arith)
]

module _ (with_token : Bool) where
  -- The keys that the agent takes for itself.
  abbrev pub is_routing_key : Bytes → Bool
  is_routing_key key = equal key project_key || with_token && equal key token_key

  -- The members that are left for the gateway.
  abbrev pub without_routing : List Entry → List Entry
  without_routing [] = []
  without_routing (e ∷ es) =
      if is_routing_key e.key then without_routing es else e ∷ without_routing es

  abbrev pub has_routing : List Entry → Bool
  has_routing [] = false
  has_routing (e ∷ es) = is_routing_key e.key || has_routing es

  pub is_routing-eq : (p : Piece) → is_routing with_token p ≡ is_routing_key p.key
  is_routing-eq p = rw (same_key p.key project_key, same_key p.key token_key) refl

  left_trail-Spaces : (ps : List Piece) → Pieces ps → Spaces (left_trail with_token ps)
  left_trail-Spaces [] h = tt
  left_trail-Spaces (p ∷ ps) h = elim (Bool-cases (is_routing with_token p)) [
    | inl hit ↦ rw hit (
        Spaces-append p.trail (left_trail with_token ps) h.0.trail_spaces
          (left_trail-Spaces ps h.1))
    | inr kept ↦ rw kept tt
  ]

  widen :
      (w t : Bytes) (p : Piece)
      → Spaces w
      → Spaces t
      → IsPiece p
      → IsPiece (record p { lead = w ++ p.lead; trail = p.trail ++ t })
  widen w t p a b h = record {
    lead_spaces = Spaces-append w p.lead a h.lead_spaces;
    key_scans = h.key_scans;
    before_spaces = h.before_spaces;
    after_spaces = h.after_spaces;
    value_starts = h.value_starts;
    value_ne_nil = h.value_ne_nil;
    value_scans = h.value_scans;
    trail_spaces = Spaces-append p.trail t h.trail_spaces b;
  }

  left_rest-Pieces : (ps : List Piece) → Pieces ps → Pieces (left_rest with_token ps)
  left_rest-Pieces [] h = tt
  left_rest-Pieces (p ∷ ps) h = elim (Bool-cases (is_routing with_token p)) [
    | inl hit ↦ rw hit (left_rest-Pieces ps h.1)
    | inr kept ↦ rw kept (
      widen [] (left_trail with_token ps) p tt (left_trail-Spaces ps h.1) h.0,
      left_rest-Pieces ps h.1,
    )
  ]

  pub left-Pieces :
      (w : Bytes) (ps : List Piece) → Spaces w → Pieces ps → Pieces (left with_token w ps)
  left-Pieces w [] a h = tt
  left-Pieces w (p ∷ ps) a h = elim (Bool-cases (is_routing with_token p)) [
    | inl hit ↦ rw hit (left-Pieces (w ++ p.lead) ps (Spaces-append w p.lead a h.0.lead_spaces) h.1)
    | inr kept ↦ rw kept (
      widen w (left_trail with_token ps) p a (left_trail-Spaces ps h.1) h.0,
      left_rest-Pieces ps h.1,
    )
  ]

  entries-left_rest :
      (ps : List Piece) → entries (left_rest with_token ps) ≡ without_routing (entries ps)
  entries-left_rest [] = refl
  entries-left_rest (p ∷ ps) = elim (Bool-cases (is_routing with_token p)) [
    | inl hit ↦ rw (hit, sym (is_routing-eq p) ∙ hit) (entries-left_rest ps)
    | inr kept ↦
        rw (kept, sym (is_routing-eq p) ∙ kept) (ap (◌∷◌ (entry_of p)) (entries-left_rest ps))
  ]

  -- The pieces that are left are the members that are no routing members, in their order.
  pub entries-left :
      (w : Bytes) (ps : List Piece) → entries (left with_token w ps) ≡ without_routing (entries ps)
  entries-left w [] = refl
  entries-left w (p ∷ ps) = elim (Bool-cases (is_routing with_token p)) [
    | inl hit ↦ rw (hit, sym (is_routing-eq p) ∙ hit) (entries-left (w ++ p.lead) ps)
    | inr kept ↦
        rw (kept, sym (is_routing-eq p) ∙ kept) (ap (◌∷◌ (entry_of p)) (entries-left_rest ps))
  ]

  -- Where there is no routing member, there is nothing to remove.
  pub without_routing-id : (es : List Entry) → has_routing es ≡ false → without_routing es ≡ es
  without_routing-id [] h = refl
  without_routing-id (e ∷ es) h = elim (Bool-cases (is_routing_key e.key)) [
    | inl hit ↦ absurd (ground (arith, hit, h))
    | inr kept ↦ rw kept (ap (◌∷◌ e) (without_routing-id es (ground (arith, kept, h))))
  ]

  pub has_routing-without_routing : (es : List Entry) → has_routing (without_routing es) ≡ false
  has_routing-without_routing [] = refl
  has_routing-without_routing (e ∷ es) = elim (Bool-cases (is_routing_key e.key)) [
    | inl hit ↦ rw hit (has_routing-without_routing es)
    | inr kept ↦ rw kept (rw kept (has_routing-without_routing es))
  ]

  -- Nothing is left where every member is a routing member.
  pub without_routing-nil :
      (ps : List Piece) → survives with_token ps ≡ false → without_routing (entries ps) ≡ []
  without_routing-nil [] h = refl
  without_routing-nil (p ∷ ps) h =
      let hit : is_routing with_token p ≡ true = ground arith in
      rw (sym (is_routing-eq p) ∙ hit) (without_routing-nil ps (ground arith))
