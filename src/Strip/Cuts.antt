-- ===== src/Strip/Cuts.antt =====
-- Where a cut starts and ends, for a body split at the cut.
use metrics_agent.Prelude.{
  ℕ, ◌-◌, ◌≡◌, refl, sym, ap, ◌∙◌, inl, inr, [], ◌∷◌, ◌++◌, append_assoc, reverse, reverse-append,
  arith, ltb, length, length-append, length-reverse, take, drop, take-length-append,
  drop-length-append, Bytes, Bool-cases, if◌then◌else◌, offset,
}
use metrics_agent.Scan.{is_json_space, scan_ws}
use metrics_agent.Scan.Spaces.{Spaces, Spaces-reverse, scan_ws-append, scan_ws-stop}
use metrics_agent.Strip.{past_comma, cut_end, cut_start, slice}

pub offset-append : (b v s : Bytes) → b ≡ v ++ s → offset b s ≡ length v
unfolding offset
offset-append b v s e = omega (arith, ap length e ∙ length-append v s)

pub drop-append : (b v s : Bytes) (n : ℕ) → b ≡ v ++ s → n ≡ length v → drop n b ≡ s
drop-append b v s n e h = ap (drop n) e ∙ ap (λ k. drop k (v ++ s)) h ∙ drop-length-append v s

pub slice-append :
    (b u w s : Bytes) (m n : ℕ)
    → b ≡ u ++ (w ++ s)
    → m ≡ length u
    → n ≡ length (u ++ w)
    → (if ltb m n then slice b m n else []) ≡ w
slice-append b u w s m n e h k = elim (Bool-cases (ltb m n)) [
  | inl some_bytes ↦ rw some_bytes (
      ap (take (n - m)) (drop-append b u (w ++ s) m e h)
      ∙ ap (λ j. take j (w ++ s)) (omega (arith, length-append u w))
      ∙ take-length-append w s)
  | inr no_bytes ↦ rw no_bytes (empty w (ground (arith, length-append u w)))
]
  where
    empty : (w : Bytes) → length w ≡ 0 → [] ≡ w
    empty [] e = refl
    empty (c ∷ w) e = absurd (omega arith)

past_comma-comma : (x : Bytes) → past_comma (b',' ∷ x) ≡ x
unfolding past_comma
past_comma-comma x = refl

scan_ws-comma : (x : Bytes) → scan_ws (b',' ∷ x) ≡ b',' ∷ x
unfolding is_json_space
scan_ws-comma x = scan_ws-stop _ refl

-- Past the white space and the comma behind a value.
pub cut_end-append :
    (b v trail x : Bytes) (n : ℕ)
    → b ≡ v ++ (trail ++ b',' ∷ x)
    → Spaces trail
    → n ≡ length v
    → cut_end b n ≡ length (v ++ (trail ++ b',' ∷ []))
unfolding cut_end
cut_end-append b v trail x n e h k =
    ap (λ y. length b - length (past_comma (scan_ws y))) (drop-append b v (trail ++ b',' ∷ x) n e k)
    ∙ ap (λ y. length b - length (past_comma y))
        (scan_ws-append trail (b',' ∷ x) h ∙ scan_ws-comma x)
    ∙ ap (λ y. length b - length y) (past_comma-comma x)
    ∙ omega (
      arith,
      ap length e,
      length-append v (trail ++ b',' ∷ x),
      length-append v (trail ++ b',' ∷ []),
      length-append trail (b',' ∷ x),
      length-append trail (b',' ∷ []),
    )

-- Back over the white space and the comma in front of a key.
pub cut_start-append :
    (b v lead x : Bytes) (n : ℕ)
    → b ≡ v ++ b',' ∷ (lead ++ x)
    → Spaces lead
    → n ≡ length (v ++ b',' ∷ lead)
    → cut_start b n ≡ length v
unfolding cut_start
cut_start-append b v lead x n e h k =
    ap (λ y. length (past_comma (scan_ws (reverse y))))
      (ap (take n) (e ∙ sym (append_assoc v (b',' ∷ lead) x))
        ∙ ap (λ j. take j ((v ++ b',' ∷ lead) ++ x)) k
        ∙ take-length-append (v ++ b',' ∷ lead) x)
    ∙ ap (λ y. length (past_comma (scan_ws y)))
        (reverse-append v (b',' ∷ lead)
          ∙ ap (λ y. y ++ reverse v) (reverse-append (b',' ∷ []) lead)
          ∙ append_assoc (reverse lead) (b',' ∷ []) (reverse v))
    ∙ ap (λ y. length (past_comma y))
        (scan_ws-append (reverse lead) (b',' ∷ reverse v) (Spaces-reverse lead h)
          ∙ scan_ws-comma (reverse v))
    ∙ ap length (past_comma-comma (reverse v))
    ∙ length-reverse v
