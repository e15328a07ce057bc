-- ===== src/Scan/Numbers.antt =====
-- `scanNumber` reads one number off the front; what follows must not go on with it.
use metrics_agent.Prelude.{
  ◌≡◌, ◌≢◌, ◌↔◌, refl, sym, ap, ◌∙◌, true, false, inl, inr, [], ◌∷◌, ◌++◌, append_assoc, ◌||◌,
  Option, some, arith, length, length-append, Bytes, ◌==◌, Bool-cases, >>=-eq-some, ◌>>=◌,
}
use metrics_agent.Scan.{
  is_digit, scan_digits, skip_minus, scan_integer, some_digits, scan_fraction, skip_sign,
  scan_exponent, scan_number,
}
use metrics_agent.Scan.Local.{Reads, starts}

-- What may follow a number.
pub record NumberEnds (r : Bytes) : Type 0 where
  pub no_digit : starts is_digit r ≡ false
  pub no_dot : starts (λ c. c == b'.') r ≡ false
  pub no_e : starts (λ c. c == b'e' || c == b'E') r ≡ false

abbrev NoDigit : Bytes → Type 0
NoDigit r = starts is_digit r ≡ false

record Digits (s : Bytes) : Type 0 where
  text : Bytes
  splits : s ≡ text ++ scan_digits s
  again : (r : Bytes) → NoDigit r → scan_digits (text ++ r) ≡ r

scan_digits-stop : (r : Bytes) → NoDigit r → scan_digits r ≡ r
unfolding scan_digits
scan_digits-stop [] h = refl
scan_digits-stop (c ∷ r) h = ground arith

scan_digits_lem : (s : Bytes) → Digits s
unfolding scan_digits
scan_digits_lem [] = record { text = []; splits = refl; again = scan_digits-stop }
scan_digits_lem (c ∷ r) = elim (Bool-cases (is_digit c)) [
  | inl d ↦
      let rest = scan_digits_lem r in
      record {
        text = c ∷ rest.text;
        splits = ground (arith, rest.splits);
        again = λ x n. ground (arith, rest.again x n);
      }
  | inr n ↦ record { text = []; splits = ground arith; again = scan_digits-stop }
]

some_digits-Reads : (s : Bytes) {t : Bytes} → some_digits s ≡ some t → Reads NoDigit some_digits s t
unfolding some_digits
some_digits-Reads [] e = cc
some_digits-Reads (c ∷ r) e = elim (Bool-cases (is_digit c)) [
  | inl d ↦
      let rest = scan_digits_lem r in
      record {
        text = c ∷ rest.text;
        splits = ground (arith, rest.splits);
        again = λ x n. ground (arith, rest.again x n);
      }
  | inr n ↦ absurd (ground arith)
]

scan_integer-Reads :
    (s : Bytes) {t : Bytes} → scan_integer s ≡ some t → Reads NoDigit scan_integer s t
unfolding scan_integer
scan_integer-Reads [] e = cc
scan_integer-Reads (c ∷ r) e = elim (Bool-cases (c == b'0')) [
  | inl z ↦ record { text = c ∷ []; splits = ground arith; again = λ x n. ground arith }
  | inr d ↦
      let rest = scan_digits_lem r in
      record {
        text = c ∷ rest.text;
        splits = ground (arith, rest.splits);
        again = λ x n. ground (arith, rest.again x n);
      }
]

-- An optional sign in front of a digit.
record Sign (skip : Bytes → Bytes) (s : Bytes) : Type 0 where
  sign : Bytes
  splits : s ≡ sign ++ skip s
  again : (x : Bytes) → starts is_digit x ≡ true → skip (sign ++ x) ≡ x

skip_minus-unsigned : (x : Bytes) → starts is_digit x ≡ true → skip_minus x ≡ x
unfolding skip_minus
skip_minus-unsigned [] h = refl
skip_minus-unsigned (c ∷ r) h = ground arith

skip_minus-Sign : (s : Bytes) → Sign skip_minus s
unfolding skip_minus
skip_minus-Sign [] = record { sign = []; splits = refl; again = skip_minus-unsigned }
skip_minus-Sign (c ∷ r) = elim (Bool-cases (c == b'-')) [
  | inl p ↦ record { sign = c ∷ []; splits = ground arith; again = λ x h. ground arith }
  | inr p ↦ record { sign = []; splits = ground arith; again = skip_minus-unsigned }
]

skip_sign-unsigned : (x : Bytes) → starts is_digit x ≡ true → skip_sign x ≡ x
unfolding skip_sign
skip_sign-unsigned [] h = refl
skip_sign-unsigned (c ∷ r) h = ground arith

skip_sign-Sign : (s : Bytes) → Sign skip_sign s
unfolding skip_sign
skip_sign-Sign [] = record { sign = []; splits = refl; again = skip_sign-unsigned }
skip_sign-Sign (c ∷ r) = elim (Bool-cases (c == b'+' || c == b'-')) [
  | inl p ↦ record { sign = c ∷ []; splits = ground arith; again = λ x h. ground arith }
  | inr p ↦ record { sign = []; splits = ground arith; again = skip_sign-unsigned }
]

some_digits-starts : (s : Bytes) {t : Bytes} → some_digits s ≡ some t → starts is_digit s ≡ true
unfolding some_digits
some_digits-starts [] e = cc
some_digits-starts (c ∷ r) e = ground arith

scan_integer-starts : (s : Bytes) {t : Bytes} → scan_integer s ≡ some t → starts is_digit s ≡ true
unfolding scan_integer
scan_integer-starts [] e = cc
scan_integer-starts (c ∷ r) e = ground arith

signed-Reads :
    (skip : Bytes → Bytes) (f : Bytes → Option Bytes) (s : Bytes) {t : Bytes}
    → ((x t : Bytes) → f x ≡ some t → starts is_digit x ≡ true)
    → Sign skip s
    → Reads NoDigit f (skip s) t
    → Reads NoDigit (λ x. f (skip x)) s t
signed-Reads skip f s first sign read = record {
  text = sign.sign ++ read.text;
  splits =
      sign.splits ∙ ap (λ x. sign.sign ++ x) read.splits ∙ sym (append_assoc sign.sign read.text _);
  again = λ r h.
      ap (λ x. f (skip x)) (append_assoc sign.sign read.text r)
      ∙ ap f (sign.again (read.text ++ r) (first (read.text ++ r) r (read.again r h)))
      ∙ read.again r h;
}

exponent_digits-Reads :
    (s : Bytes) {t : Bytes}
    → some_digits (skip_sign s) ≡ some t
    → Reads NoDigit (λ x. some_digits (skip_sign x)) s t
exponent_digits-Reads s e =
    signed-Reads skip_sign some_digits s (λ x t. some_digits-starts x) (skip_sign-Sign s)
      (some_digits-Reads (skip_sign s) e)

integer-Reads :
    (s : Bytes) {t : Bytes}
    → scan_integer (skip_minus s) ≡ some t
    → Reads NoDigit (λ x. scan_integer (skip_minus x)) s t
integer-Reads s e =
    signed-Reads skip_minus scan_integer s (λ x t. scan_integer-starts x) (skip_minus-Sign s)
      (scan_integer-Reads (skip_minus s) e)

abbrev NoDot : Bytes → Type 0
NoDot r = starts (λ c. c == b'.') r ≡ false

-- What `scan_exponent` and `scan_fraction` read, and how it goes on from the part before.
record Exponent (s t : Bytes) : Type 0 where
  text : Bytes
  splits : s ≡ text ++ t
  again : (r : Bytes) → NumberEnds r → scan_exponent (text ++ r) ≡ some r
  no_digit : (r : Bytes) → NumberEnds r → NoDigit (text ++ r)
  no_dot : (r : Bytes) → NumberEnds r → NoDot (text ++ r)

record Fraction (s t : Bytes) : Type 0 where
  text : Bytes
  splits : s ≡ text ++ t
  again : (r : Bytes) → NoDigit r → NoDot r → scan_fraction (text ++ r) ≡ some r
  no_digit : (r : Bytes) → NoDigit r → NoDigit (text ++ r)

scan_exponent-none : (r : Bytes) → NumberEnds r → scan_exponent r ≡ some r
unfolding scan_exponent
scan_exponent-none [] h = refl
scan_exponent-none (c ∷ r) h = rw h.no_e refl

scan_exponent-Exponent : (s : Bytes) {t : Bytes} → scan_exponent s ≡ some t → Exponent s t
unfolding scan_exponent
scan_exponent-Exponent [] e = record {
  text = [];
  splits = ground arith;
  again = scan_exponent-none;
  no_digit = λ r h. h.no_digit;
  no_dot = λ r h. h.no_dot;
}
scan_exponent-Exponent (c ∷ s) {t = t} e = elim (Bool-cases (c == b'e' || c == b'E')) [
  | inl p ↦
      let read = exponent_digits-Reads s {t = t} (ground arith) in
      record {
        text = c ∷ read.text;
        splits = ap (◌∷◌ c) read.splits;
        again = λ r h. rw p (read.again r h.no_digit);
        no_digit = λ r h. ground arith;
        no_dot = λ r h. ground arith;
      }
  | inr p ↦ record {
    text = [];
    splits = ground arith;
    again = scan_exponent-none;
    no_digit = λ r h. h.no_digit;
    no_dot = λ r h. h.no_dot;
  }
]

scan_fraction-none : (r : Bytes) → NoDot r → scan_fraction r ≡ some r
unfolding scan_fraction
scan_fraction-none [] h = refl
scan_fraction-none (c ∷ r) h = rw h refl

scan_fraction-Fraction : (s : Bytes) {t : Bytes} → scan_fraction s ≡ some t → Fraction s t
unfolding scan_fraction
scan_fraction-Fraction [] e = record {
  text = [];
  splits = ground arith;
  again = λ r d h. scan_fraction-none r h;
  no_digit = λ r h. h;
}
scan_fraction-Fraction (c ∷ s) {t = t} e = elim (Bool-cases (c == b'.')) [
  | inl p ↦
      let read = some_digits-Reads s {t = t} (ground arith) in
      record {
        text = c ∷ read.text;
        splits = ap (◌∷◌ c) read.splits;
        again = λ r d h. rw p (read.again r d);
        no_digit = λ r h. ground arith;
      }
  | inr p ↦ record {
    text = [];
    splits = ground arith;
    again = λ r d h. scan_fraction-none r h;
    no_digit = λ r h. h;
  }
]

-- The three parts in turn, before the test that something was read.
number_parts : Bytes → Option Bytes
number_parts s = scan_integer (skip_minus s) >>= scan_fraction >>= scan_exponent

number_parts-some :
    (s : Bytes) {u v t : Bytes}
    → scan_integer (skip_minus s) ≡ some u
    → scan_fraction u ≡ some v
    → scan_exponent v ≡ some t
    → number_parts s ≡ some t
unfolding number_parts
number_parts-some s a b c = rw a (rw b c)

number_parts-join :
    (s u v t : Bytes)
    → Reads NoDigit (λ x. scan_integer (skip_minus x)) s u
    → Fraction u v
    → Exponent v t
    → Reads NumberEnds number_parts s t
number_parts-join s u v t i f x = record {
  text = i.text ++ (f.text ++ x.text);
  splits =
      i.splits
      ∙ ap (λ y. i.text ++ y)
          (f.splits ∙ ap (λ y. f.text ++ y) x.splits ∙ sym (append_assoc f.text x.text t))
      ∙ sym (append_assoc i.text (f.text ++ x.text) t);
  again = λ r h.
      let e : (i.text ++ (f.text ++ x.text)) ++ r ≡ i.text ++ (f.text ++ (x.text ++ r)) =
        append_assoc i.text (f.text ++ x.text) r
        ∙ ap (λ y. i.text ++ y) (append_assoc f.text x.text r) in
      let d = x.no_digit r h in
      ap number_parts e
      ∙ number_parts-some _ (i.again (f.text ++ (x.text ++ r)) (f.no_digit _ d))
          (f.again (x.text ++ r) d (x.no_dot r h)) (x.again r h);
}

number_parts-Reads :
    (s : Bytes) {t : Bytes} → number_parts s ≡ some t → Reads NumberEnds number_parts s t
unfolding number_parts
number_parts-Reads s {t = t} e =
    let (v, e1, g) = >>=-eq-some (scan_integer (skip_minus s) >>= scan_fraction) scan_exponent e in
    let (u, e2, e3) = >>=-eq-some (scan_integer (skip_minus s)) scan_fraction e1 in
    number_parts-join s u v t (integer-Reads s e2) (scan_fraction-Fraction u e3)
      (scan_exponent-Exponent v g)

scan_number-parts :
    (s : Bytes) {t : Bytes}
    → (scan_number s ≡ some t) ↔ ((number_parts s ≡ some t) × (length t ≢ length s))
unfolding scan_number number_parts
scan_number-parts s = (
  λ e.
      let (v, e1, g) =
        >>=-eq-some (scan_integer (skip_minus s) >>= scan_fraction >>= scan_exponent) _ e in
      (ground arith, ground arith),
  λ e. rw e.0 (ground arith),
)

pub scan_number-Reads :
    (s : Bytes) {t : Bytes} → scan_number s ≡ some t → Reads NumberEnds scan_number s t
scan_number-Reads s {t = t} e =
    let (parts, moved) = (scan_number-parts s).0 e in
    let read = number_parts-Reads s parts in
    record {
      text = read.text;
      splits = read.splits;
      again = λ r h. (scan_number-parts (read.text ++ r)).1 (
        read.again r h,
        λ same. moved (
            omega
              (arith, ap length read.splits, length-append read.text t, length-append read.text r)),
      );
    }
