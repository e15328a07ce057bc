-- ===== src/Events/Members.antt =====
-- The text of an object's members without its braces, and what trimming takes off it.
use metrics_agent.Prelude.{
  ℕ, ◌≡◌, refl, sym, ap, ◌∙◌, Bool, true, false, ◌&&◌, List, [], ◌∷◌, ◌++◌, append-nil,
  append_assoc, ltb, Bytes,
}
use metrics_agent.Scan.Spaces.{Spaces}
use metrics_agent.Strip.Layout.{Piece, IsPiece, key_text, value_text, text}
use metrics_agent.Strip.Walk.{Pieces}
use metrics_agent.Strip.Object.{inside}
use metrics_agent.Strip.Survivors.{entry_of, entries}

-- A character of ASCII that is no white space.
abbrev pub printed : ℕ → Bool
printed c = ltb 32 c && ltb c 127

abbrev pub begins_printed : Bytes → Bool
begins_printed [] = false
begins_printed (c ∷ r) = printed c

abbrev pub ends_printed : Bytes → Bool
ends_printed [] = false
ends_printed (c ∷ []) = printed c
ends_printed (c ∷ d ∷ r) = ends_printed (d ∷ r)

ends_printed-append : (u v : Bytes) → ends_printed v ≡ true → ends_printed (u ++ v) ≡ true
ends_printed-append [] v h = h
ends_printed-append (c ∷ []) [] h = cc
ends_printed-append (c ∷ []) (d ∷ v) h = h
ends_printed-append (c ∷ d ∷ u) v h = ends_printed-append (d ∷ u) v h

-- The members with commas between them.
abbrev pub joined : List Piece → Bytes
joined [] = []
joined (p ∷ []) = text p []
joined (p ∷ q ∷ ps) = text p (b',' ∷ joined (q ∷ ps))

-- The last value ends in such a character.
abbrev pub EndsPrinted : List Piece → Type 0
EndsPrinted [] = Unit
EndsPrinted (p ∷ []) = ends_printed p.value ≡ true
EndsPrinted (p ∷ q ∷ ps) = EndsPrinted (q ∷ ps)

value_text-append : (p : Piece) (r s : Bytes) → value_text p (r ++ s) ≡ value_text p r ++ s
value_text-append p r s =
    ap (λ x. p.value ++ x) (sym (append_assoc p.trail r s))
    ∙ sym (append_assoc p.value (p.trail ++ r) s)

key_text-append : (p : Piece) (r s : Bytes) → key_text p (r ++ s) ≡ key_text p r ++ s
key_text-append p r s =
    ap (λ x. b'"' ∷ (p.key ++ b'"' ∷ (p.before ++ b':' ∷ (p.after ++ x)))) (value_text-append p r s)
    ∙ ap (λ x. b'"' ∷ (p.key ++ b'"' ∷ (p.before ++ b':' ∷ x)))
        (sym (append_assoc p.after (value_text p r) s))
    ∙ ap (λ x. b'"' ∷ (p.key ++ b'"' ∷ x)) (sym (append_assoc p.before _ s))
    ∙ ap (λ x. b'"' ∷ x) (sym (append_assoc p.key _ s))

pub text-append : (p : Piece) (r s : Bytes) → text p (r ++ s) ≡ text p r ++ s
text-append p r s =
    ap (λ x. p.lead ++ x) (key_text-append p r s) ∙ sym (append_assoc p.lead (key_text p r) s)

pub inside-joined : (ps : List Piece) → inside ps [] ≡ joined ps ++ b'}' ∷ []
inside-joined [] = refl
inside-joined (p ∷ []) = text-append p [] (b'}' ∷ [])
inside-joined (p ∷ q ∷ ps) =
    ap (λ x. text p (b',' ∷ x)) (inside-joined (q ∷ ps))
    ∙ text-append p (b',' ∷ joined (q ∷ ps)) (b'}' ∷ [])

-- The last member without the white space behind it, and that white space.
abbrev pub tidy_end : List Piece → List Piece
tidy_end [] = []
tidy_end (p ∷ []) = record p { trail = [] } ∷ []
tidy_end (p ∷ q ∷ ps) = p ∷ tidy_end (q ∷ ps)

abbrev pub end_space : List Piece → Bytes
end_space [] = []
end_space (p ∷ []) = p.trail
end_space (p ∷ q ∷ ps) = end_space (q ∷ ps)

-- The first member without the white space in front of it.
abbrev pub tidy_front : List Piece → List Piece
tidy_front [] = []
tidy_front (p ∷ ps) = record p { lead = [] } ∷ ps

abbrev pub front_space : List Piece → Bytes
front_space [] = []
front_space (p ∷ ps) = p.lead

abbrev pub tidy : List Piece → List Piece
tidy ps = tidy_front (tidy_end ps)

module _ (p : Piece) where
  joined_one : joined (p ∷ []) ≡ joined (tidy_end (p ∷ [])) ++ p.trail
  joined_one =
      let bare : Piece = record p { trail = [] } in
      ap (λ x. p.lead ++ b'"' ∷ (p.key ++ b'"' ∷ (p.before ++ b':' ∷ (p.after ++ (p.value ++ x)))))
        (append-nil p.trail)
      ∙ text-append bare [] p.trail

pub joined-tidy_end : (ps : List Piece) → joined ps ≡ joined (tidy_end ps) ++ end_space ps
joined-tidy_end [] = refl
joined-tidy_end (p ∷ []) = joined_one p
joined-tidy_end (p ∷ q ∷ []) =
    ap (λ x. text p (b',' ∷ x)) (joined_one q)
    ∙ text-append p (b',' ∷ joined (tidy_end (q ∷ []))) q.trail
joined-tidy_end (p ∷ q ∷ q1 ∷ ps) =
    ap (λ x. text p (b',' ∷ x)) (joined-tidy_end (q ∷ q1 ∷ ps))
    ∙ text-append p (b',' ∷ joined (tidy_end (q ∷ q1 ∷ ps))) (end_space (q1 ∷ ps))

pub joined-tidy_front : (ps : List Piece) → joined ps ≡ front_space ps ++ joined (tidy_front ps)
joined-tidy_front [] = refl
joined-tidy_front (p ∷ []) = refl
joined-tidy_front (p ∷ q ∷ ps) = refl

without_trail : (p : Piece) → IsPiece p → IsPiece (record p { trail = [] })
without_trail p h = record {
  lead_spaces = h.lead_spaces;
  key_scans = h.key_scans;
  before_spaces = h.before_spaces;
  after_spaces = h.after_spaces;
  value_starts = h.value_starts;
  value_ne_nil = h.value_ne_nil;
  value_scans = h.value_scans;
  trail_spaces = tt;
}

without_lead : (p : Piece) → IsPiece p → IsPiece (record p { lead = [] })
without_lead p h = record {
  lead_spaces = tt;
  key_scans = h.key_scans;
  before_spaces = h.before_spaces;
  after_spaces = h.after_spaces;
  value_starts = h.value_starts;
  value_ne_nil = h.value_ne_nil;
  value_scans = h.value_scans;
  trail_spaces = h.trail_spaces;
}

Pieces-tidy_end : (ps : List Piece) → Pieces ps → Pieces (tidy_end ps)
Pieces-tidy_end [] h = tt
Pieces-tidy_end (p ∷ []) h = (without_trail p h.0, tt)
Pieces-tidy_end (p ∷ q ∷ ps) h = (h.0, Pieces-tidy_end (q ∷ ps) h.1)

Pieces-tidy_front : (ps : List Piece) → Pieces ps → Pieces (tidy_front ps)
Pieces-tidy_front [] h = tt
Pieces-tidy_front (p ∷ ps) h = (without_lead p h.0, h.1)

pub Pieces-tidy : (ps : List Piece) → Pieces ps → Pieces (tidy ps)
Pieces-tidy ps h = Pieces-tidy_front (tidy_end ps) (Pieces-tidy_end ps h)

entries-tidy_end : (ps : List Piece) → entries (tidy_end ps) ≡ entries ps
entries-tidy_end [] = refl
entries-tidy_end (p ∷ []) = refl
entries-tidy_end (p ∷ q ∷ ps) = ap (◌∷◌ (entry_of p)) (entries-tidy_end (q ∷ ps))

entries-tidy_front : (ps : List Piece) → entries (tidy_front ps) ≡ entries ps
entries-tidy_front [] = refl
entries-tidy_front (p ∷ ps) = refl

pub entries-tidy : (ps : List Piece) → entries (tidy ps) ≡ entries ps
entries-tidy ps = entries-tidy_front (tidy_end ps) ∙ entries-tidy_end ps

EndsPrinted-tidy_end : (ps : List Piece) → EndsPrinted ps → EndsPrinted (tidy_end ps)
EndsPrinted-tidy_end [] h = tt
EndsPrinted-tidy_end (p ∷ []) h = h
EndsPrinted-tidy_end (p ∷ q ∷ []) h = h
EndsPrinted-tidy_end (p ∷ q ∷ q1 ∷ ps) h = EndsPrinted-tidy_end (q ∷ q1 ∷ ps) h

EndsPrinted-tidy_front : (ps : List Piece) → EndsPrinted ps → EndsPrinted (tidy_front ps)
EndsPrinted-tidy_front [] h = tt
EndsPrinted-tidy_front (p ∷ []) h = h
EndsPrinted-tidy_front (p ∷ q ∷ ps) h = h

pub EndsPrinted-tidy : (ps : List Piece) → EndsPrinted ps → EndsPrinted (tidy ps)
EndsPrinted-tidy ps h = EndsPrinted-tidy_front (tidy_end ps) (EndsPrinted-tidy_end ps h)

-- What is left between the white space.
pub begins_printed-tidy :
    (p : Piece) (ps : List Piece) → begins_printed (joined (tidy (p ∷ ps))) ≡ true
begins_printed-tidy p [] = refl
begins_printed-tidy p (q ∷ []) = refl
begins_printed-tidy p (q ∷ q1 ∷ ps) = refl

text-ends :
    (p : Piece) (r : Bytes) → ends_printed (value_text p r) ≡ true → ends_printed (text p r) ≡ true
text-ends p r h = ends_printed-append p.lead _ (
    ends_printed-append (b'"' ∷ p.key) _
      (ends_printed-append (b'"' ∷ p.before) _ (ends_printed-append (b':' ∷ p.after) _ h)))

joined-ends :
    (p : Piece) (ps : List Piece)
    → EndsPrinted (p ∷ ps)
    → end_space (p ∷ ps) ≡ []
    → ends_printed (joined (p ∷ ps)) ≡ true
joined-ends p [] h e = text-ends p [] (rw e (ap ends_printed (append-nil p.value) ∙ h))
joined-ends p (q ∷ ps) h e = text-ends p _ (
    ends_printed-append p.value _ (
      ends_printed-append p.trail _
        (ends_printed-append (b',' ∷ []) (joined (q ∷ ps)) (joined-ends q ps h e))))

end_space-tidy_end : (ps : List Piece) → end_space (tidy_end ps) ≡ []
end_space-tidy_end [] = refl
end_space-tidy_end (p ∷ []) = refl
end_space-tidy_end (p ∷ q ∷ []) = refl
end_space-tidy_end (p ∷ q ∷ q1 ∷ ps) = end_space-tidy_end (q ∷ q1 ∷ ps)

end_space-tidy : (ps : List Piece) → end_space (tidy ps) ≡ []
end_space-tidy [] = refl
end_space-tidy (p ∷ []) = refl
end_space-tidy (p ∷ q ∷ []) = refl
end_space-tidy (p ∷ q ∷ q1 ∷ ps) = end_space-tidy_end (q ∷ q1 ∷ ps)

pub ends_printed-tidy :
    (p : Piece) (ps : List Piece)
    → EndsPrinted (p ∷ ps)
    → ends_printed (joined (tidy (p ∷ ps))) ≡ true
ends_printed-tidy p [] h = joined-ends (record p { lead = []; trail = [] }) [] h refl
ends_printed-tidy p (q ∷ ps) h =
    joined-ends (record p { lead = [] }) (tidy_end (q ∷ ps)) (EndsPrinted-tidy (p ∷ q ∷ ps) h)
      (end_space-tidy (p ∷ q ∷ ps))

pub Spaces-end : (ps : List Piece) → Pieces ps → Spaces (end_space ps)
Spaces-end [] h = tt
Spaces-end (p ∷ []) h = h.0.trail_spaces
Spaces-end (p ∷ q ∷ ps) h = Spaces-end (q ∷ ps) h.1

pub Spaces-front : (ps : List Piece) → Pieces ps → Spaces (front_space (tidy_end ps))
Spaces-front [] h = tt
Spaces-front (p ∷ []) h = h.0.lead_spaces
Spaces-front (p ∷ q ∷ ps) h = h.0.lead_spaces
