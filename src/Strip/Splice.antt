-- ===== src/Strip/Splice.antt =====
-- What the cuts leave of a body: the pieces that survive, each as it was, with the white space of
-- their removed neighbours.
use metrics_agent.Prelude.{
  ℕ, ◌+◌, ◌<◌, ◌≡◌, refl, sym, ap, ◌∙◌, Bool, true, false, not, ◌||◌, inl, inr, List, [], ◌∷◌, ◌++◌,
  append_assoc, append-nil, arith, length, Bytes, Bool-cases, if◌then◌else◌,
}
use metrics_agent.Scan.Spaces.{Spaces}
use metrics_agent.Strip.{
  Span, Cut, is_project_key, is_token_key, span_of, cut_of, cuts_of, cut_end, cut_start, splice,
}
use metrics_agent.Strip.Layout.{Piece, text, key_text, member_of}
use metrics_agent.Strip.Walk.{behind, Pieces}
use metrics_agent.Strip.Cuts.{
  offset-append, drop-append, slice-append, cut_end-append, cut_start-append,
}

-- A text is a piece in front of what stands behind it.
pub text-append : (p : Piece) (r : Bytes) → text p r ≡ text p [] ++ r
text-append p r = simp (append_assoc, append-nil)

module _ (with_token : Bool) where
  -- The members that the walk takes out.
  abbrev pub is_routing : Piece → Bool
  is_routing p = is_project_key p.key || is_token_key with_token p.key

  abbrev pub survives : List Piece → Bool
  survives [] = false
  survives (p ∷ ps) = not (is_routing p) || survives ps

  abbrev pub spans : Bytes → List Piece → Bytes → ℕ → List Span
  spans b [] tail i = []
  spans b (p ∷ ps) tail i =
      if is_routing p
      then span_of b (member_of p (behind ps tail)) i ∷ spans b ps tail (i + 1)
      else spans b ps tail (i + 1)

  -- What is left behind a member that survives.
  abbrev kept_rest : List Piece → Bytes → Bytes
  kept_rest [] tail = b'}' ∷ tail
  kept_rest (p ∷ ps) tail =
      if is_routing p then p.trail ++ kept_rest ps tail else b',' ∷ text p (kept_rest ps tail)

  -- What is left from the first member on, as long as none survives.
  abbrev kept_lead : List Piece → Bytes → Bytes
  kept_lead [] tail = []
  kept_lead (p ∷ ps) tail =
      if is_routing p then p.lead ++ kept_lead ps tail else text p (kept_rest ps tail)

  splice-cons :
      (b u w : Bytes) (pos : ℕ) (c : Cut) (cs : List Cut) (s : Bytes)
      → b ≡ u ++ (w ++ s)
      → pos ≡ length u
      → c.start ≡ length (u ++ w)
      → splice b pos (c ∷ cs) ≡ w ++ splice b c.end cs
  unfolding splice
  splice-cons b u w pos c cs s e h k =
      ap (λ x. x ++ splice b c.end cs) (slice-append b u w s pos c.start e h k)

  cut_of-later :
      (b : Bytes) (k : ℕ) (h : Span)
      → k < h.idx
      → cut_of b k h ≡ record { start = cut_start b h.key_start; end = h.val_end }
  unfolding cut_of
  cut_of-later b k h lt = ground arith

  cut_of-first :
      (b : Bytes) (k : ℕ) (h : Span)
      → h.idx ≡ k
      → cut_of b k h ≡ record { start = h.key_start; end = cut_end b h.val_end }
  unfolding cut_of
  cut_of-first b k h e = ground arith

  -- A removed member behind one that survives: from the comma in front of it to its value's end.
  module _ (b u w : Bytes) (p : Piece) (r : Bytes) (k i pos : ℕ) where
    abbrev up_to_value : Bytes
    up_to_value =
        u
        ++ (w
            ++ (b','
                ∷ (p.lead ++ (b'"' ∷ (p.key ++ b'"' ∷ (p.before ++ b':' ∷ (p.after ++ p.value)))))))

    later_split : b ≡ u ++ (w ++ b',' ∷ text p r) → b ≡ up_to_value ++ (p.trail ++ r)
    later_split e = e ∙ simp append_assoc

    splice_later :
        (hs : List Span)
        → b ≡ u ++ (w ++ b',' ∷ text p r)
        → pos ≡ length u
        → k < i
        → Spaces p.lead
        → splice b pos (cuts_of b k (span_of b (member_of p r) i ∷ hs))
          ≡ w ++ splice b (length up_to_value) (cuts_of b (k + 1) hs)
    unfolding cuts_of span_of
    splice_later hs e h lt spaces =
        let key_start =
          offset-append b ((u ++ w) ++ b',' ∷ p.lead) (key_text p r) (e ∙ simp append_assoc) in
        let val_end = offset-append b up_to_value (p.trail ++ r) (later_split e) in
        ap (λ c. splice b pos (c ∷ cuts_of b (k + 1) hs))
          (cut_of-later b k (span_of b (member_of p r) i) lt)
        ∙ splice-cons b u w pos _ _ (b',' ∷ text p r) e h (
            cut_start-append b (u ++ w) p.lead (key_text p r) _ (e ∙ simp append_assoc) spaces
              key_start)
        ∙ ap (λ n. w ++ splice b n (cuts_of b (k + 1) hs)) val_end

    -- A removed member that no survivor precedes: from its key to the comma behind it.
    abbrev up_to_trail : Bytes
    up_to_trail =
        u ++ (w ++ (p.lead ++ (b'"' ∷ (p.key ++ b'"' ∷ (p.before ++ b':' ∷ (p.after ++ p.value))))))

    splice_first :
        (hs : List Span) (x : Bytes)
        → b ≡ u ++ (w ++ text p r)
        → r ≡ b',' ∷ x
        → pos ≡ length u
        → i ≡ k
        → Spaces p.trail
        → splice b pos (cuts_of b k (span_of b (member_of p r) i ∷ hs))
          ≡ (w ++ p.lead)
            ++ splice b (length (up_to_trail ++ (p.trail ++ b',' ∷ []))) (cuts_of b (k + 1) hs)
    unfolding cuts_of span_of
    splice_first hs x e comma h first spaces =
        let key_start =
          offset-append b (u ++ (w ++ p.lead)) (key_text p r) (e ∙ simp append_assoc) in
        let split : b ≡ up_to_trail ++ (p.trail ++ r) = e ∙ simp append_assoc in
        ap (λ c. splice b pos (c ∷ cuts_of b (k + 1) hs))
          (cut_of-first b k (span_of b (member_of p r) i) first)
        ∙ splice-cons b u (w ++ p.lead) pos _ _ (key_text p r) (e ∙ simp append_assoc) h key_start
        ∙ ap (λ n. (w ++ p.lead) ++ splice b n (cuts_of b (k + 1) hs))
            (cut_end-append b up_to_trail p.trail x _
              (split ∙ ap (λ y. up_to_trail ++ (p.trail ++ y)) comma) spaces
              (offset-append b up_to_trail (p.trail ++ r) split))

  splice-nil : (b u w : Bytes) (pos : ℕ) → b ≡ u ++ w → pos ≡ length u → splice b pos [] ≡ w
  unfolding splice
  splice-nil b u w pos e h = drop-append b u w pos e h

  cuts_of-nil : (b : Bytes) (k : ℕ) → cuts_of b k [] ≡ []
  unfolding cuts_of
  cuts_of-nil b k = refl

  splice-rest :
      (b u w : Bytes) (ps : List Piece) (tail : Bytes) (k i pos : ℕ)
      → Pieces ps
      → b ≡ u ++ (w ++ behind ps tail)
      → pos ≡ length u
      → k < i
      → splice b pos (cuts_of b k (spans b ps tail i)) ≡ w ++ kept_rest ps tail
  splice-rest b u w [] tail k i pos good e h lt =
      ap (splice b pos) (cuts_of-nil b k) ∙ splice-nil b u (w ++ b'}' ∷ tail) pos e h
  splice-rest b u w (p ∷ ps) tail k i pos good e h lt = elim (Bool-cases (is_routing p)) [
    | inl hit ↦
        let r = behind ps tail in
        rw hit (
          splice_later b u w p r k i pos (spans b ps tail (i + 1)) e h lt good.0.lead_spaces
          ∙ ap (λ x. w ++ x)
              (splice-rest b (up_to_value b u w p r k i pos) p.trail ps tail (k + 1) (i + 1) _
                good.1 (later_split b u w p r k i pos e) refl (omega arith)))
    | inr kept ↦ rw kept (
        splice-rest b u (w ++ b',' ∷ text p []) ps tail k (i + 1) pos good.1
          (e ∙ ap (λ x. u ++ (w ++ b',' ∷ x)) (text-append p (behind ps tail)) ∙ simp append_assoc)
          h (omega arith)
        ∙ append_assoc w (b',' ∷ text p []) (kept_rest ps tail)
        ∙ ap (λ x. w ++ b',' ∷ x) (sym (text-append p (kept_rest ps tail))))
  ]

  splice-survivor :
      (b u w : Bytes) (p : Piece) (ps : List Piece) (tail : Bytes) (k i pos : ℕ)
      → Pieces ps
      → b ≡ u ++ (w ++ text p (behind ps tail))
      → pos ≡ length u
      → k < i
      → splice b pos (cuts_of b k (spans b ps tail i)) ≡ w ++ text p (kept_rest ps tail)
  splice-survivor b u w p ps tail k i pos good e h lt =
      splice-rest b u (w ++ text p []) ps tail k i pos good
        (e ∙ ap (λ x. u ++ (w ++ x)) (text-append p (behind ps tail)) ∙ simp append_assoc) h lt
      ∙ append_assoc w (text p []) (kept_rest ps tail)
      ∙ ap (λ x. w ++ x) (sym (text-append p (kept_rest ps tail)))

  splice-lead :
      (b u w : Bytes) (p : Piece) (ps : List Piece) (tail : Bytes) (k i pos : ℕ)
      → Pieces (p ∷ ps)
      → b ≡ u ++ (w ++ text p (behind ps tail))
      → pos ≡ length u
      → i ≡ k
      → survives (p ∷ ps) ≡ true
      → splice b pos (cuts_of b k (spans b (p ∷ ps) tail i)) ≡ w ++ kept_lead (p ∷ ps) tail
  splice-lead b u w p [] tail k i pos good e h first some_left =
      let kept : is_routing p ≡ false = ground arith in
      rw kept (splice-survivor b u w p [] tail k (i + 1) pos good.1 e h (omega arith))
  splice-lead b u w p (q ∷ qs) tail k i pos good e h first some_left =
      elim (Bool-cases (is_routing p)) [
        | inl hit ↦
            let x = text q (behind qs tail) in
            let v = up_to_trail b u w p (b',' ∷ x) k i pos ++ (p.trail ++ b',' ∷ []) in
            rw hit (
              splice_first b u w p (b',' ∷ x) k i pos (spans b (q ∷ qs) tail (i + 1)) x e refl h
                first good.0.trail_spaces
              ∙ ap (λ y. (w ++ p.lead) ++ y)
                  (splice-lead b v [] q qs tail (k + 1) (i + 1) (length v) good.1
                    (e ∙ simp append_assoc) refl (omega arith) (ground arith))
              ∙ append_assoc w p.lead (kept_lead (q ∷ qs) tail))
        | inr kept ↦
            rw kept (splice-survivor b u w p (q ∷ qs) tail k (i + 1) pos good.1 e h (omega arith))
      ]

  -- The surviving pieces, and the white space that their neighbours leave with them.
  abbrev pub left_trail : List Piece → Bytes
  left_trail [] = []
  left_trail (p ∷ ps) = if is_routing p then p.trail ++ left_trail ps else []

  abbrev pub left_rest : List Piece → List Piece
  left_rest [] = []
  left_rest (p ∷ ps) =
      if is_routing p
      then left_rest ps
      else record p { trail = p.trail ++ left_trail ps } ∷ left_rest ps

  abbrev pub left : Bytes → List Piece → List Piece
  left w [] = []
  left w (p ∷ ps) =
      if is_routing p
      then left (w ++ p.lead) ps
      else record p { lead = w ++ p.lead; trail = p.trail ++ left_trail ps } ∷ left_rest ps

  -- The text of a non-empty list of pieces.
  abbrev pub body : List Piece → Bytes → Bytes
  body [] tail = []
  body (p ∷ ps) tail = text p (behind ps tail)

  kept_rest-left :
      (ps : List Piece) (tail : Bytes)
      → kept_rest ps tail ≡ left_trail ps ++ behind (left_rest ps) tail
  kept_rest-left [] tail = refl
  kept_rest-left (p ∷ ps) tail = elim (Bool-cases (is_routing p)) [
    | inl hit ↦ rw hit (
        ap (λ x. p.trail ++ x) (kept_rest-left ps tail)
        ∙ sym (append_assoc p.trail (left_trail ps) _))
    | inr kept ↦ rw kept (
        ap (λ x. b',' ∷ text p x) (kept_rest-left ps tail)
        ∙ ap
            (λ x.
              b','
              ∷ (p.lead
                  ++ (b'"' ∷ (p.key ++ b'"' ∷ (p.before ++ b':' ∷ (p.after ++ (p.value ++ x)))))))
            (sym (append_assoc p.trail (left_trail ps) (behind (left_rest ps) tail))))
  ]

  kept_lead-left :
      (w : Bytes) (ps : List Piece) (tail : Bytes)
      → survives ps ≡ true
      → w ++ kept_lead ps tail ≡ body (left w ps) tail
  kept_lead-left w [] tail h = cc
  kept_lead-left w (p ∷ ps) tail h = elim (Bool-cases (is_routing p)) [
    | inl hit ↦
        rw hit (sym (append_assoc w p.lead _) ∙ kept_lead-left (w ++ p.lead) ps tail (ground arith))
    | inr kept ↦ rw kept (
        ap (λ x. w ++ text p x) (kept_rest-left ps tail)
        ∙ sym (append_assoc w p.lead _)
        ∙ ap
            (λ x.
              (w ++ p.lead)
              ++ (b'"' ∷ (p.key ++ b'"' ∷ (p.before ++ b':' ∷ (p.after ++ (p.value ++ x))))))
            (sym (append_assoc p.trail (left_trail ps) (behind (left_rest ps) tail))))
  ]

  -- With the cuts of a body's routing members made, the surviving pieces are left.
  pub splice-left :
      (b u : Bytes) (p : Piece) (ps : List Piece) (tail : Bytes)
      → Pieces (p ∷ ps)
      → b ≡ u ++ text p (behind ps tail)
      → survives (p ∷ ps) ≡ true
      → splice b 0 (cuts_of b 0 (spans b (p ∷ ps) tail 0)) ≡ u ++ body (left [] (p ∷ ps)) tail
  splice-left b u p ps tail good e some_left =
      splice-lead b [] u p ps tail 0 0 0 good e refl refl some_left
      ∙ ap (λ x. u ++ x) (kept_lead-left [] (p ∷ ps) tail some_left)
