-- ===== src/Strip/Result.antt =====
-- `strip_result`, at the end of a walk over an object's members.
use metrics_agent.Prelude.{
  ℕ, ◌+◌, ◌≤◌, ◌≡◌, ◌≢◌, refl, ap, Bool, true, false, not, inl, inr, List, [], ◌∷◌, arith, ◌==◌,
  length, Bytes, Bool-cases,
}
use metrics_agent.Strip.{Span, WalkState, RoutingFields, miss, removed_fields, strip_result}
use metrics_agent.Strip.Layout.{Piece}
use metrics_agent.Strip.Splice.{is_routing, survives, spans}
use metrics_agent.Strip.Survivors.{entries, has_routing, is_routing-eq}

pub strip_result_none : (b : Bytes) (st : WalkState) → st.hits ≡ [] → strip_result b st ≡ miss b
unfolding strip_result
strip_result_none b st e = rw (e, strip_result) refl

pub strip_result_some :
    (b : Bytes) (st : WalkState) → st.hits ≢ [] → strip_result b st ≡ removed_fields b st
unfolding strip_result
strip_result_some b st ne = go st.hits refl
  where
    go : (hs : List Span) → st.hits ≡ hs → strip_result b st ≡ removed_fields b st
    go [] e = absurd (ne e)
    go (h ∷ hs) e =
        ap {B = RoutingFields} (λ x. elim x [ [] ↦ miss b | g ∷ gs ↦ removed_fields b st ]) e

module _ (with_token : Bool) (b : Bytes) (tail : Bytes) where
  pub spans-nil :
      (ps : List Piece) (i : ℕ)
      → has_routing with_token (entries ps) ≡ false
      → spans with_token b ps tail i ≡ []
  spans-nil [] i h = refl
  spans-nil (p ∷ ps) i h =
      let kept : is_routing with_token p ≡ false = ground (arith, is_routing-eq with_token p) in
      rw kept (spans-nil ps (i + 1) (ground arith))

  pub spans-ne-nil :
      (ps : List Piece) (i : ℕ)
      → has_routing with_token (entries ps) ≡ true
      → spans with_token b ps tail i ≢ []
  spans-ne-nil [] i h = λ e. cc
  spans-ne-nil (p ∷ ps) i h = elim (Bool-cases (is_routing with_token p)) [
    | inl hit ↦ rw hit (λ e. cc)
    | inr kept ↦ rw kept (spans-ne-nil ps (i + 1) (ground (arith, is_routing-eq with_token p)))
  ]

  pub length-spans-le :
      (ps : List Piece) (i : ℕ) → length (spans with_token b ps tail i) ≤ length ps
  length-spans-le [] i = omega arith
  length-spans-le (p ∷ ps) i = elim (Bool-cases (is_routing with_token p)) [
    | inl hit ↦ rw hit (omega (arith, length-spans-le ps (i + 1)))
    | inr kept ↦ rw kept (omega (arith, length-spans-le ps (i + 1)))
  ]

  -- Every member is a hit exactly when none survives.
  pub length-spans-survives :
      (ps : List Piece) (i : ℕ)
      → (length (spans with_token b ps tail i) == length ps) ≡ not (survives with_token ps)
  length-spans-survives [] i = refl
  length-spans-survives (p ∷ ps) i = elim (Bool-cases (is_routing with_token p)) [
    | inl hit ↦ rw hit (ground (arith, length-spans-survives ps (i + 1)))
    | inr kept ↦ rw kept (ground (arith, length-spans-le ps (i + 1)))
  ]
