-- ===== src/Strip/Layout.antt =====
-- The text of one top-level member, taken apart; `scan_member` accepts exactly such texts.
use metrics_agent.Prelude.{
  ℕ, ◌≡◌, ◌≢◌, refl, sym, ap, ◌∙◌, false, inl, inr, [], ◌∷◌, ◌++◌, some, arith, length-append,
  Bytes, until, take-length-append, take, Option-cases,
}
use metrics_agent.Scan.{ValueKind, is_json_space, scan_ws, string_loop, after_quote, scan_value}
use metrics_agent.Scan.Local.{starts}
use metrics_agent.Scan.Numbers.{NumberEnds}
use metrics_agent.Scan.Spaces.{
  Spaces, Skipped, scan_ws-stop, scan_ws-append, scan_ws-starts, scan_ws-Skipped, NumberEnds-Spaces,
}
use metrics_agent.Scan.Strings.{StringRead, string_loop-StringRead}
use metrics_agent.Scan.Values.{ValueRead, scan_value-ValueRead}
use metrics_agent.Strip.{Member, expect, scan_member}

-- White space, the quoted key, white space round a colon, the value, white space.
pub record Piece : Type 0 where
  pub lead : Bytes
  pub key : Bytes
  pub before : Bytes
  pub after : Bytes
  pub value : Bytes
  pub trail : Bytes
  pub kind : ValueKind

-- The piece's text from the value on, with `r` behind it; from the opening quote on; and whole.
abbrev pub value_text : Piece → Bytes → Bytes
value_text p r = p.value ++ (p.trail ++ r)

abbrev pub key_text : Piece → Bytes → Bytes
key_text p r = b'"' ∷ (p.key ++ b'"' ∷ (p.before ++ b':' ∷ (p.after ++ value_text p r)))

abbrev pub text : Piece → Bytes → Bytes
text p r = p.lead ++ key_text p r

pub record IsPiece (p : Piece) : Type 0 where
  pub lead_spaces : Spaces p.lead
  pub key_scans : (r : Bytes) → string_loop (p.key ++ b'"' ∷ r) 0 ≡ some (b'"' ∷ r)
  pub before_spaces : Spaces p.before
  pub after_spaces : Spaces p.after
  pub value_starts : starts is_json_space p.value ≡ false
  pub value_ne_nil : p.value ≢ []
  pub value_scans : (r : Bytes) → NumberEnds r → scan_value (p.value ++ r) ≡ some (r, p.kind)
  pub trail_spaces : Spaces p.trail

-- What the loop's body reads from the piece.
abbrev pub member_of : Piece → Bytes → Member
member_of p r = record {
  key_at = key_text p r;
  key = p.key;
  val_at = value_text p r;
  val_end = p.trail ++ r;
  kind = p.kind;
}

pub until-append : (s t : Bytes) → until (s ++ t) t ≡ s
unfolding until
until-append s t =
    ap (λ n. take n (s ++ t)) (omega (arith, length-append s t)) ∙ take-length-append s t

starts-append : (u v : Bytes) → u ≢ [] → starts is_json_space (u ++ v) ≡ starts is_json_space u
starts-append [] v h = absurd (h refl)
starts-append (c ∷ u) v h = refl

pub expect_self : (x : ℕ) (r : Bytes) → expect x (x ∷ r) ≡ some r
unfolding expect
expect_self x r = ground arith

expect-eq : (x : ℕ) (s : Bytes) {r : Bytes} → expect x s ≡ some r → s ≡ x ∷ r
unfolding expect
expect-eq x [] e = cc
expect-eq x (c ∷ s) e = ground arith

after_quote-cons : (c : ℕ) (r : Bytes) → after_quote (c ∷ r) ≡ r
unfolding after_quote
after_quote-cons c r = refl

quote_no_space : is_json_space b'"' ≡ false
unfolding is_json_space
quote_no_space = refl

colon_no_space : is_json_space b':' ≡ false
unfolding is_json_space
colon_no_space = refl

-- The steps of `scan_member` joined.
scan_member-some :
    (s content q v e : Bytes) (k : ValueKind)
    → expect b'"' (scan_ws s) ≡ some content
    → string_loop content 0 ≡ some q
    → expect b':' (scan_ws (after_quote q)) ≡ some v
    → scan_value (scan_ws v) ≡ some (e, k)
    → scan_member s
      ≡ some (record {
        key_at = scan_ws s;
        key = until content q;
        val_at = scan_ws v;
        val_end = e;
        kind = k;
      })
unfolding scan_member
scan_member-some s content q v e k a b c d = rw a (rw b (rw c (rw d refl)))

-- `scan_member` reads a piece.
pub scan_member-IsPiece :
    (p : Piece) (r : Bytes)
    → IsPiece p
    → NumberEnds r
    → scan_member (text p r) ≡ some (member_of p r)
scan_member-IsPiece p r h n =
    let ws =
      scan_ws-append p.lead (key_text p r) h.lead_spaces
      ∙ scan_ws-stop (key_text p r) quote_no_space in
    let tail = p.before ++ b':' ∷ (p.after ++ value_text p r) in
    let content = p.key ++ b'"' ∷ tail in
    let colon =
      scan_ws-append p.before (b':' ∷ (p.after ++ value_text p r)) h.before_spaces
      ∙ scan_ws-stop (b':' ∷ (p.after ++ value_text p r)) colon_no_space in
    let val =
      scan_ws-append p.after (value_text p r) h.after_spaces
      ∙ scan_ws-stop (value_text p r)
          (starts-append p.value (p.trail ++ r) h.value_ne_nil ∙ h.value_starts) in
    scan_member-some (text p r) content (b'"' ∷ tail) (p.after ++ value_text p r) (p.trail ++ r)
      p.kind (ap (expect b'"') ws ∙ expect_self b'"' content) (h.key_scans tail)
      (ap (λ x. expect b':' (scan_ws x)) (after_quote-cons b'"' tail)
        ∙ ap (expect b':') colon
        ∙ expect_self b':' _)
      (ap scan_value val
        ∙ h.value_scans (p.trail ++ r) (NumberEnds-Spaces p.trail r h.trail_spaces n))
    ∙ λ i. some (record {
      key_at = ws i;
      key = until-append p.key (b'"' ∷ tail) i;
      val_at = val i;
      val_end = p.trail ++ r;
      kind = p.kind;
    })

-- What `scan_member` has read, with the text behind it from the next byte that is no white space.
pub record PieceRead (s : Bytes) (m : Member) : Type 0 where
  pub piece : Piece
  pub is_piece : IsPiece piece
  pub splits : s ≡ text piece (scan_ws m.val_end)
  pub member_is : m ≡ member_of piece (scan_ws m.val_end)

-- The steps of `scan_member` taken apart.
record Steps (s : Bytes) (m : Member) : Type 0 where
  content : Bytes
  quote : Bytes
  value_from : Bytes
  opens : expect b'"' (scan_ws s) ≡ some content
  closes : string_loop content 0 ≡ some quote
  colon : expect b':' (scan_ws (after_quote quote)) ≡ some value_from
  value : scan_value (scan_ws value_from) ≡ some (m.val_end, m.kind)
  member_is : m ≡ record {
    key_at = scan_ws s;
    key = until content quote;
    val_at = scan_ws value_from;
    val_end = m.val_end;
    kind = m.kind;
  }

scan_member-Steps : (s : Bytes) {m : Member} → scan_member s ≡ some m → Steps s m
unfolding scan_member
scan_member-Steps s h = elim (Option-cases (expect b'"' (scan_ws s))) [
  | inl a ↦ absurd (ground arith)
  | inr (content, a) ↦ elim (Option-cases (string_loop content 0)) [
    | inl b ↦ absurd (ground arith)
    | inr (q, b) ↦ elim (Option-cases (expect b':' (scan_ws (after_quote q)))) [
      | inl c ↦ absurd (ground arith)
      | inr (v, c) ↦ elim (Option-cases (scan_value (scan_ws v))) [
        | inl d ↦ absurd (ground arith)
        | inr ((e, k), d) ↦ record {
          content = content;
          quote = q;
          value_from = v;
          opens = a;
          closes = b;
          colon = c;
          value = ground arith;
          member_is = ground arith;
        }
      ]
    ]
  ]
]

module _ (s : Bytes) (m : Member) (st : Steps s m) (l : Skipped s)
    (k : StringRead st.content 0 st.quote) (b : Skipped k.rest) (a : Skipped st.value_from)
    (v : ValueRead (scan_ws st.value_from) m.val_end m.kind) (t : Skipped m.val_end) where
  abbrev read_piece : Piece
  read_piece = record {
    lead = l.spaces;
    key = k.body;
    before = b.spaces;
    after = a.spaces;
    value = v.text;
    trail = t.spaces;
    kind = m.kind;
  }

  abbrev behind : Bytes
  behind = scan_ws m.val_end

  value_from-eq : scan_ws st.value_from ≡ value_text read_piece behind
  value_from-eq = v.splits ∙ ap (λ x. v.text ++ x) t.splits

  rest-eq : k.rest ≡ b.spaces ++ b':' ∷ (a.spaces ++ value_text read_piece behind)
  rest-eq =
      b.splits
      ∙ ap (λ x. b.spaces ++ x)
          (ap scan_ws (sym (ap after_quote k.at_quote ∙ after_quote-cons b'"' k.rest))
            ∙ expect-eq b':' _ st.colon
            ∙ ap (◌∷◌ b':') (a.splits ∙ ap (λ x. a.spaces ++ x) value_from-eq))

  key-eq : scan_ws s ≡ key_text read_piece behind
  key-eq =
      expect-eq b'"' _ st.opens ∙ ap (◌∷◌ b'"') (k.splits ∙ ap (λ x. k.body ++ b'"' ∷ x) rest-eq)

  until-eq : until st.content st.quote ≡ k.body
  until-eq =
      ap (λ x. until x st.quote) (k.splits ∙ ap (λ x. k.body ++ x) (sym k.at_quote))
      ∙ until-append k.body st.quote

  read_piece-PieceRead : PieceRead s m
  read_piece-PieceRead = record {
    piece = read_piece;
    is_piece = record {
      lead_spaces = l.are_spaces;
      key_scans = k.again;
      before_spaces = b.are_spaces;
      after_spaces = a.are_spaces;
      value_starts =
          sym (starts-append v.text m.val_end v.ne_nil)
          ∙ sym (ap (starts is_json_space) v.splits)
          ∙ scan_ws-starts st.value_from;
      value_ne_nil = v.ne_nil;
      value_scans = v.again;
      trail_spaces = t.are_spaces;
    };
    splits = l.splits ∙ ap (λ x. l.spaces ++ x) key-eq;
    member_is = st.member_is ∙ λ i. record {
      key_at = key-eq i;
      key = until-eq i;
      val_at = value_from-eq i;
      val_end = t.splits i;
      kind = m.kind;
    };
  }

-- Whatever `scan_member` accepts is a piece.
pub scan_member-PieceRead : (s : Bytes) {m : Member} → scan_member s ≡ some m → PieceRead s m
scan_member-PieceRead s {m = m} h =
    let st = scan_member-Steps s h in
    let k = string_loop-StringRead st.content 0 st.closes in
    read_piece-PieceRead s m st (scan_ws-Skipped s) k (scan_ws-Skipped k.rest)
      (scan_ws-Skipped st.value_from) (scan_value-ValueRead (scan_ws st.value_from) st.value)
      (scan_ws-Skipped m.val_end)
