-- ===== src/Scan/Local.antt =====
-- What a scanner promises: it reads a piece of text off the front, and reads the same piece
-- whatever stands behind it, as long as that stops the scanner.
use metrics_agent.Prelude.{
  ℕ, ◌≤◌, ◌≡◌, refl, Bool, false, [], ◌∷◌, ◌++◌, Option, some, arith, length, Bytes,
}

pub record Reads (Stop : Bytes → Type 0) (f : Bytes → Option Bytes) (s t : Bytes) : Type 0 where
  pub text : Bytes
  pub splits : s ≡ text ++ t
  pub again : (r : Bytes) → Stop r → f (text ++ r) ≡ some r

abbrev pub starts : (ℕ → Bool) → Bytes → Bool
starts p [] = false
starts p (c ∷ r) = p c

-- A text that is split in two ways, the second time further on.
pub split_later :
    (u v w t : Bytes)
    → u ++ v ≡ w ++ t
    → length u ≤ length w
    → (x : Bytes) × (w ≡ u ++ x) × (v ≡ x ++ t)
split_later [] v w t e h = (w, refl, e)
split_later (c ∷ u) v [] t e h = absurd (omega arith)
split_later (c ∷ u) v (d ∷ w) t e h =
    let (x, p, q) = split_later u v w t (cc) (omega arith) in (x, cc, q)
