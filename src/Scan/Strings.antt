-- ===== src/Scan/Strings.antt =====
-- `scanStringBody` reads a string's body off the front, whatever follows the closing quote.
use metrics_agent.Prelude.{
  ℕ, zero, suc, ◌≤◌, ◌≡◌, refl, sym, ap, ◌∙◌, true, false, inl, inr, [], ◌∷◌, ◌++◌, some, arith,
  length, Bytes, ltb, ◌==◌, Bool-cases, Option-cases,
}
use metrics_agent.Scan.{four_hex, escape_length, string_loop}

pub record StringRead (s : Bytes) (skip : ℕ) (q : Bytes) : Type 0 where
  pub body : Bytes
  pub rest : Bytes
  pub at_quote : q ≡ b'"' ∷ rest
  pub splits : s ≡ body ++ b'"' ∷ rest
  pub long : skip ≤ length body
  pub again : (r : Bytes) → string_loop (body ++ b'"' ∷ r) skip ≡ some (b'"' ∷ r)

four_hex-again : (w x y : Bytes) → 4 ≤ length w → four_hex (w ++ x) ≡ four_hex (w ++ y)
unfolding four_hex
four_hex-again [] x y h = absurd (omega arith)
four_hex-again (a ∷ []) x y h = absurd (omega arith)
four_hex-again (a ∷ b ∷ []) x y h = absurd (omega arith)
four_hex-again (a ∷ b ∷ c ∷ []) x y h = absurd (omega arith)
four_hex-again (a ∷ b ∷ c ∷ d ∷ w) x y h = refl

escape_length-again :
    (w x y : Bytes) {n : ℕ}
    → escape_length (w ++ x) ≡ some n
    → n ≤ length w
    → 1 ≤ n
    → escape_length (w ++ y) ≡ some n
unfolding escape_length
escape_length-again [] x y e h p = absurd (omega arith)
escape_length-again (c ∷ w) x y e h p = ground (arith, four_hex-again w x y)

escape_length-pos : (s : Bytes) {n : ℕ} → escape_length s ≡ some n → 1 ≤ n
unfolding escape_length
escape_length-pos [] e = cc
escape_length-pos (c ∷ r) e = ground arith

module _ (c : ℕ) (r : Bytes) {q : Bytes} where
  StringRead-skip : (k : ℕ) → StringRead r k q → StringRead (c ∷ r) (suc k) q
  unfolding string_loop
  StringRead-skip k h = record {
    body = c ∷ h.body;
    rest = h.rest;
    at_quote = h.at_quote;
    splits = ap (◌∷◌ c) h.splits;
    long = omega (arith, h.long);
    again = h.again;
  }

  StringRead-plain :
      (c == b'"') ≡ false
      → (c == b'\\') ≡ false
      → ltb c 0x20 ≡ false
      → StringRead r 0 q
      → StringRead (c ∷ r) 0 q
  unfolding string_loop
  StringRead-plain a b d h = record {
    body = c ∷ h.body;
    rest = h.rest;
    at_quote = h.at_quote;
    splits = ap (◌∷◌ c) h.splits;
    long = omega arith;
    again = λ x. ground (arith, h.again x);
  }

  StringRead-escape :
      (n : ℕ)
      → (c == b'"') ≡ false
      → (c == b'\\') ≡ true
      → escape_length r ≡ some n
      → StringRead r n q
      → StringRead (c ∷ r) 0 q
  unfolding string_loop
  StringRead-escape n a b e h = record {
    body = c ∷ h.body;
    rest = h.rest;
    at_quote = h.at_quote;
    splits = ap (◌∷◌ c) h.splits;
    long = omega arith;
    again = λ x. ground (
      arith,
      h.again x,
      escape_length-again h.body (b'"' ∷ h.rest) (b'"' ∷ x) (sym (ap escape_length h.splits) ∙ e)
          h.long (escape_length-pos r e),
    );
  }

pub string_loop-StringRead :
    (s : Bytes) (skip : ℕ) {q : Bytes} → string_loop s skip ≡ some q → StringRead s skip q
unfolding string_loop
string_loop-StringRead [] skip e = cc
string_loop-StringRead (c ∷ r) (suc k) e = StringRead-skip c r k (string_loop-StringRead r k e)
string_loop-StringRead (c ∷ r) zero {q} e = elim (Bool-cases (c == b'"')) [
  | inl quote ↦ record {
    body = [];
    rest = r;
    at_quote = ground arith;
    splits = ground arith;
    long = omega arith;
    again = λ x. refl;
  }
  | inr other ↦ elim (Bool-cases (c == b'\\')) [
    | inl escape ↦ elim (Option-cases (escape_length r)) [
      | inl bad ↦ ground arith
      | inr (n, good) ↦
          StringRead-escape c r n other escape good (string_loop-StringRead r n (ground arith))
    ]
    | inr plain ↦ elim (Bool-cases (ltb c 0x20)) [
      | inl control ↦ ground arith
      | inr text ↦ StringRead-plain c r other plain text (string_loop-StringRead r 0 (ground arith))
    ]
  ]
]
