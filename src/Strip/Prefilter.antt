-- ===== src/Strip/Prefilter.antt =====
-- The prefilter lets through every body that has a routing member.
use metrics_agent.Prelude.{
  ◌≡◌, refl, sym, ap, ◌∙◌, Bool, true, false, inl, inr, List, [], ◌∷◌, ◌++◌, append_assoc, arith,
  Bytes, contains, has_prefix, equal, equal_iff, Bool-cases,
}
use metrics_agent.Strip.{
  project_key, token_key, project_key_marker, token_key_marker, lacks_markers,
}
use metrics_agent.Strip.Layout.{Piece, text, key_text, value_text}
use metrics_agent.Strip.Walk.{behind}
use metrics_agent.Strip.Splice.{text-append}
use metrics_agent.Strip.Survivors.{entries, is_routing_key, has_routing}

has_prefix_self : (m v : Bytes) → has_prefix (m ++ v) m ≡ true
unfolding has_prefix
has_prefix_self [] [] = refl
has_prefix_self [] (c ∷ v) = refl
has_prefix_self (c ∷ m) v = ground (arith, has_prefix_self m v)

contains-prefix : (s m : Bytes) → has_prefix s m ≡ true → contains s m ≡ true
unfolding contains
contains-prefix [] m h = h
contains-prefix (c ∷ s) m h = rw h refl

contains-append : (u m v : Bytes) → contains (u ++ (m ++ v)) m ≡ true
unfolding contains
contains-append [] m v = contains-prefix (m ++ v) m (has_prefix_self m v)
contains-append (c ∷ u) m v = ground (arith, contains-append u m v)

module _ (with_token : Bool) (b : Bytes) where
  -- A routing key in its quotes is one of the markers.
  routing_key-marker :
      (u key v : Bytes)
      → b ≡ u ++ (b'"' ∷ (key ++ b'"' ∷ v))
      → is_routing_key with_token key ≡ true
      → lacks_markers with_token b ≡ false
  routing_key-marker u key v e h = elim (Bool-cases (equal key project_key)) [
    | inl is_project ↦
        let k : b ≡ u ++ (project_key_marker ++ v) =
          e ∙ ap (λ x. u ++ (b'"' ∷ (x ++ b'"' ∷ v))) ((equal_iff key project_key).0 is_project) in
        rw (ap (λ x. contains x project_key_marker) k ∙ contains-append u project_key_marker v) refl
    | inr other ↦
        let is_token : equal key token_key ≡ true = ground arith in
        let on : with_token ≡ true = ground arith in
        let k : b ≡ u ++ (token_key_marker ++ v) =
          e ∙ ap (λ x. u ++ (b'"' ∷ (x ++ b'"' ∷ v))) ((equal_iff key token_key).0 is_token) in
        let found =
          ap (λ x. contains x token_key_marker) k ∙ contains-append u token_key_marker v in
        ground (arith, found)
  ]

  head-marker :
      (u : Bytes) (p : Piece) (r : Bytes)
      → b ≡ u ++ text p r
      → is_routing_key with_token p.key ≡ true
      → lacks_markers with_token b ≡ false
  head-marker u p r e hit =
      routing_key-marker (u ++ p.lead) p.key (p.before ++ b':' ∷ (p.after ++ value_text p r))
        (e ∙ sym (append_assoc u p.lead (key_text p r))) hit

  -- A body with a routing member has a marker.
  pub has_routing-marker :
      (u : Bytes) (p : Piece) (ps : List Piece) (tail : Bytes)
      → b ≡ u ++ text p (behind ps tail)
      → has_routing with_token (entries (p ∷ ps)) ≡ true
      → lacks_markers with_token b ≡ false
  has_routing-marker u p [] tail e h = head-marker u p (b'}' ∷ tail) e (ground arith)
  has_routing-marker u p (q ∷ qs) tail e h = elim (Bool-cases (is_routing_key with_token p.key)) [
    | inl hit ↦ head-marker u p (behind (q ∷ qs) tail) e hit
    | inr other ↦
        has_routing-marker (u ++ (text p [] ++ b',' ∷ [])) q qs tail
          (e ∙ ap (λ x. u ++ x) (text-append p (behind (q ∷ qs) tail)) ∙ simp append_assoc)
          (rw other at h)
  ]
