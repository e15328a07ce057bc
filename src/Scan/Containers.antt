-- ===== src/Scan/Containers.antt =====
-- `scanContainer` reads one bracketed text off the front, whatever follows its last bracket.
use metrics_agent.Prelude.{
  ℕ, zero, suc, ◌+◌, ◌-◌, ◌≤◌, ◌≡◌, refl, sym, ap, ◌∙◌, true, false, inl, inr, List, [], ◌∷◌, ◌++◌,
  append_assoc, some, arith, length, length-append, Bytes, ◌==◌, Bool-cases, Option-cases,
}
use metrics_agent.Scan.{push, string_loop, next_stack, container_loop, scan_container}
use metrics_agent.Scan.Local.{Reads, split_later}
use metrics_agent.Scan.Strings.{StringRead, string_loop-StringRead}

record LoopRead (s : Bytes) (skip : ℕ) (stack : List ℕ) (t : Bytes) : Type 0 where
  text : Bytes
  splits : s ≡ text ++ t
  long : skip ≤ length text
  again : (r : Bytes) → container_loop (text ++ r) skip stack ≡ some r

container_loop-string :
    (c : ℕ) (z : Bytes) (o : ℕ) (stack : List ℕ) (q : Bytes)
    → (c == b'"') ≡ true
    → string_loop z 0 ≡ some q
    → container_loop (c ∷ z) 0 (o ∷ stack) ≡ container_loop z (length z - length q + 1) (o ∷ stack)
unfolding container_loop
container_loop-string c z o stack q quote e = rw quote (rw e refl)

container_loop-byte :
    (c : ℕ) (z : Bytes) (o : ℕ) (stack next : List ℕ)
    → (c == b'"') ≡ false
    → next_stack c (o ∷ stack) ≡ some next
    → container_loop (c ∷ z) 0 (o ∷ stack) ≡ container_loop z 0 next
unfolding container_loop
container_loop-byte c z o stack next plain e = ground arith

string_fits : (r q : Bytes) → StringRead r 0 q → length r - length q + 1 ≤ length r
string_fits r q h =
    omega (arith, ap length h.splits ∙ length-append h.body (b'"' ∷ h.rest), ap length h.at_quote)

-- Where the string of body `u` ends, counted in any text that starts with it.
string_skip :
    (u : Bytes) (x : ℕ) (y : Bytes) → length (u ++ x ∷ y) - suc (length y) + 1 ≡ length u + 1
string_skip u x y = omega (arith, length-append u (x ∷ y))

module _ (c : ℕ) (r : Bytes) {t : Bytes} where
  LoopRead-skip : (k : ℕ) (stack : List ℕ) → LoopRead r k stack t → LoopRead (c ∷ r) (suc k) stack t
  unfolding container_loop
  LoopRead-skip k stack h = record {
    text = c ∷ h.text;
    splits = ap (◌∷◌ c) h.splits;
    long = omega (arith, h.long);
    again = h.again;
  }

  module _ (o : ℕ) (stack : List ℕ) where
    -- One byte that is no quote: the loop goes on with another stack.
    LoopRead-byte :
        (next : List ℕ)
        → ((x : Bytes) → container_loop (c ∷ x) 0 (o ∷ stack) ≡ container_loop x 0 next)
        → LoopRead r 0 next t
        → LoopRead (c ∷ r) 0 (o ∷ stack) t
    LoopRead-byte next e h = record {
      text = c ∷ h.text;
      splits = ap (◌∷◌ c) h.splits;
      long = omega arith;
      again = λ x. e (h.text ++ x) ∙ h.again x;
    }

    -- A string inside: its body and closing quote lie within what the loop reads.
    LoopRead-string :
        (q : Bytes)
        → (c == b'"') ≡ true
        → StringRead r 0 q
        → LoopRead r (length r - length q + 1) (o ∷ stack) t
        → LoopRead (c ∷ r) 0 (o ∷ stack) t
    LoopRead-string q quote h l =
        let size = ap length h.splits ∙ length-append h.body (b'"' ∷ h.rest) in
        let size' = ap length h.at_quote in
        let (x, p, _) =
          split_later (h.body ++ b'"' ∷ []) h.rest l.text t
            (append_assoc h.body (b'"' ∷ []) h.rest ∙ sym h.splits ∙ l.splits)
            (omega (arith, l.long, length-append h.body (b'"' ∷ []), size, size')) in
        record {
          text = c ∷ l.text;
          splits = ap (◌∷◌ c) l.splits;
          long = omega arith;
          again = λ y.
              let e : l.text ++ y ≡ h.body ++ b'"' ∷ (x ++ y) =
                ap (λ z. z ++ y) p
                ∙ append_assoc (h.body ++ b'"' ∷ []) x y
                ∙ append_assoc h.body (b'"' ∷ []) (x ++ y) in
              container_loop-string c (l.text ++ y) o stack (b'"' ∷ (x ++ y)) quote
                (ap (λ z. string_loop z 0) e ∙ h.again (x ++ y))
              ∙ ap (λ k. container_loop (l.text ++ y) k (o ∷ stack))
                  (ap (λ z. length z - suc (length (x ++ y)) + 1) e
                    ∙ string_skip h.body b'"' (x ++ y)
                    ∙ omega (arith, size, size'))
              ∙ l.again y;
        }

container_loop-nil : (r : Bytes) → container_loop r 0 [] ≡ some r
unfolding container_loop
container_loop-nil [] = refl
container_loop-nil (c ∷ r) = refl

LoopRead-nil : (s : Bytes) {t : Bytes} → container_loop s 0 [] ≡ some t → LoopRead s 0 [] t
LoopRead-nil s e = record {
  text = [];
  splits = ground (arith, container_loop-nil s);
  long = omega arith;
  again = container_loop-nil;
}

container_loop-LoopRead :
    (s : Bytes) (skip : ℕ) (stack : List ℕ) {t : Bytes}
    → container_loop s skip stack ≡ some t
    → skip ≤ length s
    → LoopRead s skip stack t
unfolding container_loop
container_loop-LoopRead s zero [] e h = LoopRead-nil s e
container_loop-LoopRead [] (suc k) [] e h = absurd (omega arith)
container_loop-LoopRead [] skip (o ∷ stack) e h = ground arith
container_loop-LoopRead (c ∷ r) (suc k) stack e h =
    LoopRead-skip c r k stack (container_loop-LoopRead r k stack e (omega arith))
container_loop-LoopRead (c ∷ r) zero (o ∷ stack) {t} e h = elim (Bool-cases (c == b'"')) [
  | inl quote ↦ elim (Option-cases (string_loop r 0)) [
    | inl bad ↦ absurd (ground arith)
    | inr (q, good) ↦
        let read = string_loop-StringRead r 0 good in
        LoopRead-string c r o stack q quote read (
          container_loop-LoopRead r (length r - length q + 1) (o ∷ stack) (ground arith)
            (string_fits r q read))
  ]
  | inr plain ↦ elim (Option-cases (next_stack c (o ∷ stack))) [
    | inl bad ↦ absurd (ground arith)
    | inr (st, good) ↦
        LoopRead-byte c r o stack st (λ x. container_loop-byte c x o stack st plain good)
          (container_loop-LoopRead r 0 st (ground arith) (omega arith))
  ]
]

push-nil : (c : ℕ) → push c [] ≡ some (c ∷ [])
unfolding push
push-nil c = refl

abbrev pub Always : Bytes → Type 0
Always r = Unit

pub scan_container-Reads :
    (s : Bytes) {t : Bytes} → scan_container s ≡ some t → Reads Always scan_container s t
unfolding scan_container
scan_container-Reads [] e = cc
scan_container-Reads (c ∷ r) {t = t} e =
    let l = container_loop-LoopRead r 0 (c ∷ []) (ground (arith, push-nil c)) (omega arith) in
    record {
      text = c ∷ l.text;
      splits = ap (◌∷◌ c) l.splits;
      again = λ x _. ground (arith, push-nil c, l.again x);
    }
