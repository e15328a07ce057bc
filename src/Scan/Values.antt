-- ===== src/Scan/Values.antt =====
-- `scanValue` reads one JSON value off the front, whatever follows it, unless that goes on with
-- a number.
use metrics_agent.Prelude.{
  ℕ, ◌≡◌, ◌≢◌, refl, sym, ap, ◌∙◌, true, false, inl, inr, [], ◌∷◌, ◌++◌, append_assoc, ◌||◌, none,
  some, arith, Bytes, codes, ◌==◌, if◌then◌else◌, Bool-cases, Option-cases,
}
use metrics_agent.Scan.{
  ValueKind, kind_string, kind_number, kind_object, kind_array, kind_true, kind_false, kind_null,
  string_loop, scan_container, scan_literal, scan_number, after_quote, scan_value,
}
use metrics_agent.Scan.Local.{Reads}
use metrics_agent.Scan.Strings.{StringRead, string_loop-StringRead}
use metrics_agent.Scan.Numbers.{NumberEnds, scan_number-Reads}
use metrics_agent.Scan.Containers.{Always, scan_container-Reads}

pub record ValueRead (s t : Bytes) (k : ValueKind) : Type 0 where
  pub text : Bytes
  pub splits : s ≡ text ++ t
  pub ne_nil : text ≢ []
  pub again : (r : Bytes) → NumberEnds r → scan_value (text ++ r) ≡ some (r, k)

scan_literal-eq : (w s : Bytes) {t : Bytes} → scan_literal w s ≡ some t → s ≡ w ++ t
unfolding scan_literal
scan_literal-eq [] s e = ground arith
scan_literal-eq (w ∷ ws) [] e = cc
scan_literal-eq (w ∷ ws) (c ∷ r) {t = t} e = ground (arith, scan_literal-eq ws r {t = t})

scan_literal-again : (w r : Bytes) → scan_literal w (w ++ r) ≡ some r
unfolding scan_literal
scan_literal-again [] r = refl
scan_literal-again (c ∷ w) r = ground (arith, scan_literal-again w r)

scan_value-literal :
    (word : Bytes) (k : ValueKind) (s t : Bytes)
    → word ≢ []
    → ((r : Bytes) → scan_value (word ++ r) ≡ some (r, k))
    → scan_literal word s ≡ some t
    → ValueRead s t k
scan_value-literal word k s t ne run e = record {
  text = word;
  splits = scan_literal-eq word s e;
  ne_nil = ne;
  again = λ r _. run r;
}

scan_value_true : (r : Bytes) → scan_value (codes "true" ++ r) ≡ some (r, kind_true)
unfolding scan_value scan_literal
scan_value_true r = refl

scan_value_false : (r : Bytes) → scan_value (codes "false" ++ r) ≡ some (r, kind_false)
unfolding scan_value scan_literal
scan_value_false r = refl

scan_value_null : (r : Bytes) → scan_value (codes "null" ++ r) ≡ some (r, kind_null)
unfolding scan_value scan_literal
scan_value_null r = refl

scan_value-string :
    (c : ℕ) (r q : Bytes)
    → (c == b'"') ≡ true
    → StringRead r 0 q
    → ValueRead (c ∷ r) (after_quote q) kind_string
unfolding scan_value after_quote
scan_value-string c r q quote h = record {
  text = c ∷ (h.body ++ b'"' ∷ []);
  splits = ap (◌∷◌ c) (
      h.splits
      ∙ sym (append_assoc h.body (b'"' ∷ []) h.rest)
      ∙ ap (λ x. (h.body ++ b'"' ∷ []) ++ after_quote x) (sym h.at_quote));
  ne_nil = λ e. cc;
  again = λ x _. rw (quote, append_assoc h.body (b'"' ∷ []) x, h.again x) refl;
}

-- The first byte of what is read off the front.
head_of : (c : ℕ) (r text t : Bytes) → c ∷ r ≡ text ++ t → text ≢ [] → (w : Bytes) × (text ≡ c ∷ w)
head_of c r [] t e ne = absurd (ne refl)
head_of c r (d ∷ w) t e ne = (w, cc)

scan_value_opens :
    (c : ℕ) (x : Bytes) {t : Bytes}
    → (c == b'{' || c == b'[') ≡ true
    → scan_container (c ∷ x) ≡ some t
    → scan_value (c ∷ x) ≡ some (t, if c == b'[' then kind_array else kind_object)
unfolding scan_value
scan_value_opens c x o e = ground arith

scan_container-nil : scan_container [] ≡ none
unfolding scan_container
scan_container-nil = refl

scan_value-container :
    (c : ℕ) (r t : Bytes)
    → (c == b'{' || c == b'[') ≡ true
    → Reads Always scan_container (c ∷ r) t
    → ValueRead (c ∷ r) t (if c == b'[' then kind_array else kind_object)
scan_value-container c r t opens h =
    let ne : h.text ≢ [] =
      λ e. cc (scan_container-nil, ap (λ x. scan_container (x ++ [])) e, h.again [] tt) in
    let (w, e) = head_of c r h.text t h.splits ne in
    record {
      text = h.text;
      splits = h.splits;
      ne_nil = ne;
      again = λ x _.
          ap (λ y. scan_value (y ++ x)) e
          ∙ scan_value_opens c (w ++ x) opens
              (ap (λ y. scan_container (y ++ x)) (sym e) ∙ h.again x tt);
    }

-- The bytes that do not select another case of the switch.
abbrev IsOther : ℕ → Type 0
IsOther c = (c == b'"' || c == b'{' || c == b'[' || c == b't' || c == b'f' || c == b'n') ≡ false

scan_value_other :
    (c : ℕ) (x : Bytes) {t : Bytes}
    → IsOther c
    → scan_number (c ∷ x) ≡ some t
    → scan_value (c ∷ x) ≡ some (t, kind_number)
unfolding scan_value
scan_value_other c x o e = ground arith

scan_number-nil : scan_number [] ≡ none
unfolding scan_number
scan_number-nil = refl

scan_value-number :
    (c : ℕ) (r t : Bytes)
    → IsOther c
    → Reads NumberEnds scan_number (c ∷ r) t
    → ValueRead (c ∷ r) t kind_number
scan_value-number c r t other h =
    let ends : NumberEnds [] = record { no_digit = refl; no_dot = refl; no_e = refl } in
    let ne : h.text ≢ [] =
      λ e. cc (scan_number-nil, ap (λ x. scan_number (x ++ [])) e, h.again [] ends) in
    let (w, e) = head_of c r h.text t h.splits ne in
    record {
      text = h.text;
      splits = h.splits;
      ne_nil = ne;
      again = λ x k.
          ap (λ y. scan_value (y ++ x)) e
          ∙ scan_value_other c (w ++ x) other
              (ap (λ y. scan_number (y ++ x)) (sym e) ∙ h.again x k);
    }

-- Which scanner found the value.
data Found (c : ℕ) (r t : Bytes) (k : ValueKind) : Type 0 where
  string :
      (q : Bytes)
      → (c == b'"') ≡ true
      → string_loop r 0 ≡ some q
      → t ≡ after_quote q
      → k ≡ kind_string
      → Found c r t k
  container :
      (c == b'{' || c == b'[') ≡ true
      → scan_container (c ∷ r) ≡ some t
      → k ≡ (if c == b'[' then kind_array else kind_object)
      → Found c r t k
  literal_true : scan_literal (codes "true") (c ∷ r) ≡ some t → k ≡ kind_true → Found c r t k
  literal_false : scan_literal (codes "false") (c ∷ r) ≡ some t → k ≡ kind_false → Found c r t k
  literal_null : scan_literal (codes "null") (c ∷ r) ≡ some t → k ≡ kind_null → Found c r t k
  number : IsOther c → scan_number (c ∷ r) ≡ some t → k ≡ kind_number → Found c r t k

scan_value-Found :
    (c : ℕ) (r : Bytes) {t : Bytes} {k : ValueKind}
    → scan_value (c ∷ r) ≡ some (t, k)
    → Found c r t k
unfolding scan_value
scan_value-Found c r e = elim (Bool-cases (c == b'"')) [
  | inl quote ↦ elim (Option-cases (string_loop r 0)) [
    | inl bad ↦ absurd (ground arith)
    | inr (q, good) ↦ string q quote good (ground arith) (ground arith)
  ]
  | inr h1 ↦ elim (Bool-cases (c == b'{' || c == b'[')) [
    | inl opens ↦ container opens (ground arith) (ground arith)
    | inr h2 ↦ elim (Bool-cases (c == b't')) [
      | inl is_t ↦ literal_true (ground arith) (ground arith)
      | inr h3 ↦ elim (Bool-cases (c == b'f')) [
        | inl is_f ↦ literal_false (ground arith) (ground arith)
        | inr h4 ↦ elim (Bool-cases (c == b'n')) [
          | inl is_n ↦ literal_null (ground arith) (ground arith)
          | inr h5 ↦ number (ground arith) (ground arith) (ground arith)
        ]
      ]
    ]
  ]
]

Found-ValueRead : (c : ℕ) (r t : Bytes) (k : ValueKind) → Found c r t k → ValueRead (c ∷ r) t k
Found-ValueRead c r t k (string q quote e a b) =
    rw (a, b) (scan_value-string c r q quote (string_loop-StringRead r 0 e))
Found-ValueRead c r t k (container opens e b) =
    rw b (scan_value-container c r t opens (scan_container-Reads (c ∷ r) e))
Found-ValueRead c r t k (literal_true e b) =
    rw b (scan_value-literal (codes "true") kind_true (c ∷ r) t (λ h. cc) scan_value_true e)
Found-ValueRead c r t k (literal_false e b) =
    rw b (scan_value-literal (codes "false") kind_false (c ∷ r) t (λ h. cc) scan_value_false e)
Found-ValueRead c r t k (literal_null e b) =
    rw b (scan_value-literal (codes "null") kind_null (c ∷ r) t (λ h. cc) scan_value_null e)
Found-ValueRead c r t k (number other e b) =
    rw b (scan_value-number c r t other (scan_number-Reads (c ∷ r) e))

scan_value-nil : scan_value [] ≡ none
unfolding scan_value
scan_value-nil = refl

-- `scan_value` reads a piece of text, and the same piece again before anything that does not go
-- on with a number.
pub scan_value-ValueRead :
    (s : Bytes) {t : Bytes} {k : ValueKind} → scan_value s ≡ some (t, k) → ValueRead s t k
scan_value-ValueRead [] e = absurd (cc scan_value-nil)
scan_value-ValueRead (c ∷ r) {t = t} {k = k} e = Found-ValueRead c r t k (scan_value-Found c r e)
