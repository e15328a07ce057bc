-- ===== src/Events/Stamp.antt =====
-- What `injectTopLevelField` makes of a whole object.
use metrics_agent.Prelude.{
  ◌-◌, ◌≤◌, ◌≡◌, ◌≢◌, refl, sym, ap, ◌∙◌, true, false, List, [], ◌∷◌, ◌++◌, append-nil,
  append_assoc, arith, ltb, if◌then◌else◌, some, length, length-append, take, drop,
  take-length-append, Bytes, codes,
}
use metrics_agent.Scan.{scan_value, string_loop, is_json_space, kind_string}
use metrics_agent.Scan.Local.{starts}
use metrics_agent.Scan.Numbers.{NumberEnds}
use metrics_agent.Scan.Spaces.{Spaces, Spaces-append}
use metrics_agent.Strip.Layout.{Piece, IsPiece, key_text}
use metrics_agent.Strip.Walk.{Pieces}
use metrics_agent.Strip.Object.{inside}
use metrics_agent.Strip.Survivors.{Entry, entries}
use metrics_agent.Events.{Runtime, inject_top_level_field}
use metrics_agent.Events.Members.{
  begins_printed, ends_printed, joined, EndsPrinted, inside-joined, tidy_end, end_space,
  front_space, tidy, joined-tidy_end, joined-tidy_front, Pieces-tidy, entries-tidy,
  EndsPrinted-tidy, begins_printed-tidy, ends_printed-tidy, Spaces-end, Spaces-front,
}

-- An object from its first brace to its last, as the scanner of the routing fields reads it; the
-- last value ends in a printed character of ASCII, as each JSON value does.
pub record Whole (t : Bytes) (es : List Entry) : Type 0 where
  pub gap : Bytes
  pub pieces : List Piece
  pub gap_spaces : Spaces gap
  pub are_pieces : Pieces pieces
  pub ends : EndsPrinted pieces
  pub splits : t ≡ b'{' ∷ (gap ++ inside pieces [])
  pub entries_are : entries pieces ≡ es

-- What the code relies on in `bytes.TrimSpace`.
pub record Trimming (trim : Bytes → Bytes) : Type 0 where
  pub shorter : (s : Bytes) → length (trim s) ≤ length s
  pub blank : (s : Bytes) → Spaces s → trim s ≡ []
  pub between :
      (u m v : Bytes)
      → Spaces u
      → Spaces v
      → begins_printed m ≡ true
      → ends_printed m ≡ true
      → trim (u ++ (m ++ v)) ≡ m

-- The text of a JSON string.
pub record Quoted (ts : Bytes) : Type 0 where
  pub no_space : starts is_json_space ts ≡ false
  pub ne_nil : ts ≢ []
  pub scans : (r : Bytes) → NumberEnds r → scan_value (ts ++ r) ≡ some (r, kind_string)
  pub last_printed : ends_printed ts ≡ true

abbrev pub timestamp_entry : Bytes → Entry
timestamp_entry ts = record { key = codes "timestamp"; value = ts; kind = kind_string }

abbrev timestamp_piece : Bytes → Piece
timestamp_piece ts = record {
  lead = [];
  key = codes "timestamp";
  before = [];
  after = [];
  value = ts;
  trail = [];
  kind = kind_string;
}

timestamp-IsPiece : (ts : Bytes) → Quoted ts → IsPiece (timestamp_piece ts)
unfolding string_loop
timestamp-IsPiece ts q = record {
  lead_spaces = tt;
  key_scans = λ r. refl;
  before_spaces = tt;
  after_spaces = tt;
  value_starts = q.no_space;
  value_ne_nil = q.ne_nil;
  value_scans = q.scans;
  trail_spaces = tt;
}

-- The text between the braces.
inner_text : (m : Bytes) → take (length (b'{' ∷ (m ++ b'}' ∷ [])) - 2) (m ++ b'}' ∷ []) ≡ m
inner_text m =
    ap (λ n. take n (m ++ b'}' ∷ [])) (omega (arith, length-append m (b'}' ∷ [])))
    ∙ take-length-append m (b'}' ∷ [])

module _ (trim : Bytes → Bytes) (law : Trimming trim) where
  trim-joined :
      (gap : Bytes) (ps : List Piece)
      → Spaces gap
      → Pieces ps
      → EndsPrinted ps
      → trim (gap ++ joined ps) ≡ joined (tidy ps)
  trim-joined gap [] g h e = ap trim (append-nil gap) ∙ law.blank gap g
  trim-joined gap (p ∷ ps) g h e =
      let whole = p ∷ ps in
      let front = front_space (tidy_end whole) in
      ap (λ x. trim (gap ++ x))
        (joined-tidy_end whole
          ∙ ap (λ x. x ++ end_space whole) (joined-tidy_front (tidy_end whole))
          ∙ append_assoc front (joined (tidy whole)) (end_space whole))
      ∙ ap trim (sym (append_assoc gap front (joined (tidy whole) ++ end_space whole)))
      ∙ law.between (gap ++ front) (joined (tidy whole)) (end_space whole)
          (Spaces-append gap front g (Spaces-front whole h)) (Spaces-end whole h)
          (begins_printed-tidy p ps) (ends_printed-tidy p ps e)

module _ {D : Type 0} (rt : Runtime D) where
  -- The member's text, and the object's others behind it.
  joined-pos : (p : Piece) (ps : List Piece) → ltb 0 (length (joined (p ∷ ps))) ≡ true
  joined-pos p [] = ground (arith, length-append p.lead (key_text p []))
  joined-pos p (q ∷ ps) = ground (arith, length-append p.lead (key_text p (b',' ∷ joined (q ∷ ps))))

  last_ends :
      (p : Piece) (ps : List Piece)
      → ends_printed p.value ≡ true
      → EndsPrinted ps
      → EndsPrinted (p ∷ ps)
  last_ends p [] h e = h
  last_ends p (q ∷ ps) h e = e

  inject-joined :
      (t ts : Bytes) (ps : List Piece)
      → rt.trim_space (take (length t - 2) (drop 1 t)) ≡ joined ps
      → inject_top_level_field rt t (codes "\"timestamp\":") ts
        ≡ b'{' ∷ (joined (timestamp_piece ts ∷ ps) ++ b'}' ∷ [])
  unfolding inject_top_level_field
  inject-joined t ts [] h =
      rw h (ap (λ x. b'{' ∷ (codes "\"timestamp\":" ++ (x ++ b'}' ∷ []))) (sym (append-nil ts)))
  inject-joined t ts (p ∷ ps) h = rw h (
      ap
        (λ x.
          b'{'
          ∷ (codes "\"timestamp\":"
              ++ (ts ++ ((if x then b',' ∷ joined (p ∷ ps) else []) ++ b'}' ∷ []))))
        (joined-pos p ps)
      ∙ ap (λ x. b'{' ∷ (codes "\"timestamp\":" ++ x))
          (sym (append_assoc ts (b',' ∷ joined (p ∷ ps)) (b'}' ∷ []))))

  pub inject-Whole :
      Trimming (rt.trim_space)
      → (t ts : Bytes) (es : List Entry) → Whole t es
      → Quoted ts
      → Whole (inject_top_level_field rt t (codes "\"timestamp\":") ts) (timestamp_entry ts ∷ es)
  inject-Whole law t ts es w q =
      let m = w.gap ++ joined w.pieces in
      let whole : t ≡ b'{' ∷ (m ++ b'}' ∷ []) =
        w.splits
        ∙ ap (λ x. b'{' ∷ (w.gap ++ x)) (inside-joined w.pieces)
        ∙ ap (λ x. b'{' ∷ x) (sym (append_assoc w.gap (joined w.pieces) (b'}' ∷ []))) in
      record {
        gap = [];
        pieces = timestamp_piece ts ∷ tidy w.pieces;
        gap_spaces = tt;
        are_pieces = (timestamp-IsPiece ts q, Pieces-tidy w.pieces w.are_pieces);
        ends =
            last_ends (timestamp_piece ts) (tidy w.pieces) q.last_printed
              (EndsPrinted-tidy w.pieces w.ends);
        splits =
            inject-joined t ts (tidy w.pieces) (
              ap (λ x. rt.trim_space (take (length x - 2) (drop 1 x))) whole
              ∙ ap (rt.trim_space) (inner_text m)
              ∙ trim-joined (rt.trim_space) law w.gap w.pieces w.gap_spaces w.are_pieces w.ends)
            ∙ ap (λ x. b'{' ∷ x) (sym (inside-joined (timestamp_piece ts ∷ tidy w.pieces)));
        entries_are = ap (λ x. timestamp_entry ts ∷ x) (entries-tidy w.pieces ∙ w.entries_are);
      }
