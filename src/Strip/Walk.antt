-- ===== src/Strip/Walk.antt =====
-- The loop over the members: it accepts exactly the texts that a list of pieces makes, and it
-- never runs out of fuel.
use metrics_agent.Prelude.{
  ℕ, zero, suc, ◌≤◌, ◌<◌, ◌≡◌, ◌≢◌, refl, sym, ap, subst, ◌∙◌, Bool, inl, inr, List, [], ◌∷◌, ◌++◌,
  none, some, arith, length, length-append, Bytes, Option-cases,
}
use metrics_agent.Scan.{scan_ws}
use metrics_agent.Scan.Numbers.{NumberEnds}
use metrics_agent.Scan.Spaces.{scan_ws-append, scan_ws-stop}
use metrics_agent.Scan.{is_json_space}
use metrics_agent.Strip.{
  Codec, Member, Separator, comma, close, broken, WalkState, finished, malformed, out_of_fuel,
  scan_member, separator, note, walk,
}
use metrics_agent.Strip.Layout.{
  Piece, IsPiece, text, key_text, value_text, member_of, scan_member-PieceRead, scan_member-IsPiece,
}

-- The text behind a piece: a comma and the other pieces, or the closing brace.
abbrev pub behind : List Piece → Bytes → Bytes
behind [] tail = b'}' ∷ tail
behind (p ∷ ps) tail = b',' ∷ text p (behind ps tail)

abbrev pub Pieces : List Piece → Type 0
Pieces [] = Unit
Pieces (p ∷ ps) = IsPiece p × Pieces ps

pub length-text-lt : (p : Piece) (r : Bytes) → length r < length (text p r)
length-text-lt p r = omega (
  arith,
  length-append p.trail r,
  length-append p.value (p.trail ++ r),
  length-append p.after (value_text p r),
  length-append p.before (b':' ∷ (p.after ++ value_text p r)),
  length-append p.key (b'"' ∷ (p.before ++ b':' ∷ (p.after ++ value_text p r))),
  length-append p.lead (key_text p r),
)

NumberEnds-behind : (ps : List Piece) (tail : Bytes) → NumberEnds (behind ps tail)
NumberEnds-behind [] tail = record { no_digit = refl; no_dot = refl; no_e = refl }
NumberEnds-behind (p ∷ ps) tail = record { no_digit = refl; no_dot = refl; no_e = refl }

scan_ws-behind : (ps : List Piece) (tail : Bytes) → scan_ws (behind ps tail) ≡ behind ps tail
unfolding is_json_space
scan_ws-behind [] tail = scan_ws-stop _ refl
scan_ws-behind (p ∷ ps) tail = scan_ws-stop _ refl

separator_close : (tail : Bytes) → separator (b'}' ∷ tail) ≡ close
unfolding separator
separator_close tail = refl

separator_comma : (r : Bytes) → separator (b',' ∷ r) ≡ comma r
unfolding separator
separator_comma r = refl

separator-close : (s : Bytes) → separator s ≡ close → (tail : Bytes) × (s ≡ b'}' ∷ tail)
unfolding separator
separator-close [] h = cc
separator-close (c ∷ r) h = (r, ground arith)

separator-comma : (s : Bytes) {r : Bytes} → separator s ≡ comma r → s ≡ b',' ∷ r
unfolding separator
separator-comma [] h = cc
separator-comma (c ∷ r) h = ground arith

pub data SeparatorIs (s : Bytes) : Type 0 where
  is_comma : (r : Bytes) → separator s ≡ comma r → SeparatorIs s
  is_close : separator s ≡ close → SeparatorIs s
  is_broken : separator s ≡ broken → SeparatorIs s

separator-SeparatorIs : (s : Bytes) → SeparatorIs s
separator-SeparatorIs s = go (separator s) refl
  where
    go : (x : Separator) → separator s ≡ x → SeparatorIs s
    go (comma r) e = is_comma r e
    go close e = is_close e
    go broken e = is_broken e

module _ (codec : Codec) (with_token : Bool) (b : Bytes) where
  -- What the rounds note down.
  abbrev pub notes : List Piece → Bytes → WalkState → WalkState
  notes [] tail st = st
  notes (p ∷ ps) tail st = notes ps tail (note codec with_token b (member_of p (behind ps tail)) st)

  pub record WalkRead (s : Bytes) (st final : WalkState) : Type 0 where
    pub first : Piece
    pub others : List Piece
    pub tail : Bytes
    pub pieces : Pieces (first ∷ others)
    pub splits : s ≡ text first (behind others tail)
    pub final_is : final ≡ notes (first ∷ others) tail st

  walk_close :
      (fuel : ℕ) (s : Bytes) (m : Member) (st : WalkState)
      → scan_member s ≡ some m
      → separator (scan_ws m.val_end) ≡ close
      → walk codec with_token b (suc fuel) s st ≡ finished (note codec with_token b m st)
  unfolding walk
  walk_close fuel s m st e d = rw (e, walk) (rw d refl)

  walk_comma :
      (fuel : ℕ) (s : Bytes) (m : Member) (r : Bytes) (st : WalkState)
      → scan_member s ≡ some m
      → separator (scan_ws m.val_end) ≡ comma r
      → walk codec with_token b (suc fuel) s st
        ≡ walk codec with_token b fuel r (note codec with_token b m st)
  unfolding walk
  walk_comma fuel s m r st e d = rw (e, walk) (rw d refl)

  walk_broken :
      (fuel : ℕ) (s : Bytes) (m : Member) (st : WalkState)
      → scan_member s ≡ some m
      → separator (scan_ws m.val_end) ≡ broken
      → walk codec with_token b (suc fuel) s st ≡ malformed
  unfolding walk
  walk_broken fuel s m st e d = rw (e, walk) (rw d refl)

  walk-zero : (s : Bytes) (st : WalkState) → walk codec with_token b zero s st ≡ out_of_fuel
  unfolding walk
  walk-zero s st = refl

  walk-none :
      (fuel : ℕ) (s : Bytes) (st : WalkState)
      → scan_member s ≡ none
      → walk codec with_token b (suc fuel) s st ≡ malformed
  unfolding walk
  walk-none fuel s st e = rw (e, walk) refl

  -- The loop goes through any list of pieces to its closing brace.
  pub walk-Pieces :
      (fuel : ℕ) (p : Piece) (ps : List Piece) (tail : Bytes) (st : WalkState)
      → Pieces (p ∷ ps)
      → length (text p (behind ps tail)) ≤ fuel
      → walk codec with_token b fuel (text p (behind ps tail)) st
        ≡ finished (notes (p ∷ ps) tail st)
  walk-Pieces zero p ps tail st h n =
      absurd (omega (arith, length-append p.lead (key_text p (behind ps tail))))
  walk-Pieces (suc fuel) p [] tail st h n =
      walk_close fuel _ (member_of p (b'}' ∷ tail)) st
        (scan_member-IsPiece p (b'}' ∷ tail) h.0 (NumberEnds-behind [] tail))
        (ap separator
            (scan_ws-append p.trail (b'}' ∷ tail) h.0.trail_spaces ∙ scan_ws-behind [] tail)
          ∙ separator_close tail)
  walk-Pieces (suc fuel) p (q ∷ ps) tail st h n =
      let r = text q (behind ps tail) in
      walk_comma fuel _ (member_of p (b',' ∷ r)) r st
        (scan_member-IsPiece p (b',' ∷ r) h.0 (NumberEnds-behind (q ∷ ps) tail))
        (ap separator
            (scan_ws-append p.trail (b',' ∷ r) h.0.trail_spaces ∙ scan_ws-behind (q ∷ ps) tail)
          ∙ separator_comma r)
      ∙ walk-Pieces fuel q ps tail (note codec with_token b (member_of p (b',' ∷ r)) st) h.1
          (omega (arith, length-text-lt p (b',' ∷ r)))

  WalkRead-last :
      (s : Bytes) (m : Member) (st : WalkState)
      → scan_member s ≡ some m
      → separator (scan_ws m.val_end) ≡ close
      → WalkRead s st (note codec with_token b m st)
  WalkRead-last s m st e d =
      let read = scan_member-PieceRead s e in
      let (tail, t) = separator-close (scan_ws m.val_end) d in
      record {
        first = read.piece;
        others = [];
        tail = tail;
        pieces = (read.is_piece, tt);
        splits = read.splits ∙ ap (text read.piece) t;
        final_is =
            ap (λ x. note codec with_token b x st) (read.member_is ∙ ap (member_of read.piece) t);
      }

  WalkRead-cons :
      (s r : Bytes) (m : Member) (st final : WalkState)
      → scan_member s ≡ some m
      → separator (scan_ws m.val_end) ≡ comma r
      → WalkRead r (note codec with_token b m st) final
      → WalkRead s st final
  WalkRead-cons s r m st final e d rest =
      let read = scan_member-PieceRead s e in
      let t = separator-comma (scan_ws m.val_end) d ∙ ap (◌∷◌ b',') rest.splits in
      record {
        first = read.piece;
        others = rest.first ∷ rest.others;
        tail = rest.tail;
        pieces = (read.is_piece, rest.pieces);
        splits = read.splits ∙ ap (text read.piece) t;
        final_is =
            rest.final_is
            ∙ ap (λ x. notes (rest.first ∷ rest.others) rest.tail (note codec with_token b x st))
                (read.member_is ∙ ap (member_of read.piece) t);
      }

  -- A walk that ends has gone through a list of pieces.
  pub walk-WalkRead :
      (fuel : ℕ) (s : Bytes) (st : WalkState) {final : WalkState}
      → walk codec with_token b fuel s st ≡ finished final
      → WalkRead s st final
  walk-WalkRead zero s st h = absurd (cc (walk-zero s st))
  walk-WalkRead (suc fuel) s st {final = final} h = elim (Option-cases (scan_member s)) [
    | inl bad ↦ absurd (cc (walk-none fuel s st bad))
    | inr (m, e) ↦ elim (separator-SeparatorIs (scan_ws m.val_end)) [
      | is_comma r d ↦ WalkRead-cons s r m st final e d (
          walk-WalkRead fuel r (note codec with_token b m st)
            (sym (walk_comma fuel s m r st e d) ∙ h))
      | is_close d ↦
          subst (WalkRead s st) (cc (walk_close fuel s m st e d)) (WalkRead-last s m st e d)
      | is_broken d ↦ absurd (cc (walk_broken fuel s m st e d))
    ]
  ]

  -- The fuel that the code's loop is given is enough.
  pub walk-ne-out_of_fuel :
      (fuel : ℕ) (s : Bytes) (st : WalkState)
      → length s < fuel
      → walk codec with_token b fuel s st ≢ out_of_fuel
  walk-ne-out_of_fuel zero s st n h = absurd (omega arith)
  walk-ne-out_of_fuel (suc fuel) s st n h = elim (Option-cases (scan_member s)) [
    | inl bad ↦ cc (walk-none fuel s st bad)
    | inr (m, e) ↦ elim (separator-SeparatorIs (scan_ws m.val_end)) [
      | is_comma r d ↦
          let read = scan_member-PieceRead s e in
          walk-ne-out_of_fuel fuel r (note codec with_token b m st)
            (omega (
              arith,
              length-text-lt read.piece (scan_ws m.val_end),
              ap length read.splits,
              ap length (separator-comma (scan_ws m.val_end) d),
            ))
            (sym (walk_comma fuel s m r st e d) ∙ h)
      | is_close d ↦ cc (walk_close fuel s m st e d)
      | is_broken d ↦ cc (walk_broken fuel s m st e d)
    ]
  ]
