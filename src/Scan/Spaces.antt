-- ===== src/Scan/Spaces.antt =====
-- `scanWS` reads the white space off the front.
use metrics_agent.Prelude.{
  ◌≡◌, refl, sym, ap, subst, true, false, inl, inr, [], ◌∷◌, ◌++◌, reverse, reverse-append, arith,
  Bytes, Bool-cases,
}
use metrics_agent.Scan.{is_json_space, scan_ws}
use metrics_agent.Scan.Local.{starts}
use metrics_agent.Scan.Numbers.{NumberEnds}

abbrev pub Spaces : Bytes → Type 0
Spaces [] = Unit
Spaces (c ∷ r) = (is_json_space c ≡ true) × Spaces r

pub Spaces-append : (u v : Bytes) → Spaces u → Spaces v → Spaces (u ++ v)
Spaces-append [] v a b = b
Spaces-append (c ∷ u) v a b = (a.0, Spaces-append u v a.1 b)

pub Spaces-reverse : (u : Bytes) → Spaces u → Spaces (reverse u)
Spaces-reverse [] a = tt
Spaces-reverse (c ∷ u) a =
    subst Spaces (sym (reverse-append (c ∷ []) u))
      (Spaces-append (reverse u) (c ∷ []) (Spaces-reverse u a.1) (a.0, tt))

pub scan_ws-stop : (s : Bytes) → starts is_json_space s ≡ false → scan_ws s ≡ s
unfolding scan_ws
scan_ws-stop [] h = refl
scan_ws-stop (c ∷ r) h = rw h refl

pub scan_ws-append : (w s : Bytes) → Spaces w → scan_ws (w ++ s) ≡ scan_ws s
unfolding scan_ws
scan_ws-append [] s h = refl
scan_ws-append (c ∷ w) s h = rw h.0 (scan_ws-append w s h.1)

pub scan_ws-starts : (s : Bytes) → starts is_json_space (scan_ws s) ≡ false
unfolding scan_ws
scan_ws-starts [] = refl
scan_ws-starts (c ∷ r) = elim (Bool-cases (is_json_space c)) [
  | inl h ↦ rw h (scan_ws-starts r)
  | inr h ↦ rw h h
]

pub record Skipped (s : Bytes) : Type 0 where
  pub spaces : Bytes
  pub are_spaces : Spaces spaces
  pub splits : s ≡ spaces ++ scan_ws s

pub scan_ws-Skipped : (s : Bytes) → Skipped s
unfolding scan_ws
scan_ws-Skipped [] = record { spaces = []; are_spaces = tt; splits = refl }
scan_ws-Skipped (c ∷ r) = elim (Bool-cases (is_json_space c)) [
  | inl h ↦
      let rest = scan_ws-Skipped r in
      record {
        spaces = c ∷ rest.spaces;
        are_spaces = (h, rest.are_spaces);
        splits = rw h (ap (◌∷◌ c) rest.splits);
      }
  | inr h ↦ record { spaces = []; are_spaces = tt; splits = rw h refl }
]

-- A number ends at white space too.
pub NumberEnds-Spaces : (w r : Bytes) → Spaces w → NumberEnds r → NumberEnds (w ++ r)
unfolding is_json_space
NumberEnds-Spaces [] r a h = h
NumberEnds-Spaces (c ∷ w) r a h = record {
  no_digit = ground arith;
  no_dot = ground arith;
  no_e = ground arith;
}
