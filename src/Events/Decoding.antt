-- ===== src/Events/Decoding.antt =====
-- `hasTopLevelKey` ends: each turn of its loop reads at least one byte of the text.
use metrics_agent.Prelude.{
  ℕ, zero, suc, ◌≤◌, ◌<◌, ◌≡◌, inl, inr, refl, Bool, true, false, Option, some, arith, length,
  Bytes, Bool-cases, Option-cases,
}
use metrics_agent.Events.{Token, Runtime, is_open_brace, is_key, key_loop, has_top_level_key}

-- What the code relies on in `json.Decoder`: a token takes bytes from the text, and nothing that is
-- decoded gives bytes back.
pub record Reading {D : Type 0} (rt : Runtime D) : Type 0 where
  pub left : D → ℕ
  pub new_left : (b : Bytes) → left (rt.new_decoder b) ≤ length b
  pub token_left : (d e : D) (t : Token) → rt.token d ≡ some (t, e) → left e < left d
  pub decode_left : (d e : D) → rt.decode d ≡ some e → left e ≤ left d

module _ {D : Type 0} (rt : Runtime D) (law : Reading rt) where
  abbrev Ends : Option Bool → Type 0
  Ends r = (found : Bool) × (r ≡ some found)

  key_loop-Ends :
      (key : Bytes) (fuel : ℕ) (d : D) → law.left d < fuel → Ends (key_loop rt key fuel d)
  unfolding key_loop
  key_loop-Ends key zero d h = elim h [ ]
  key_loop-Ends key (suc fuel) d h = elim (Bool-cases (rt.more d)) [
    | inr e ↦ rw e (false, refl)
    | inl m ↦ rw m (elim (Option-cases (rt.token d)) [
      | inl e ↦ rw e (false, refl)
      | inr ((k, after), e) ↦ rw e (elim (Bool-cases (is_key key k)) [
        | inl y ↦ rw y (true, refl)
        | inr n ↦ rw n (elim (Option-cases (rt.decode after)) [
          | inl f ↦ rw f (false, refl)
          | inr (rest, f) ↦ rw f (
              key_loop-Ends key fuel rest
                (omega (arith, law.token_left d after k e, law.decode_left after rest f)))
        ])
      ])
    ])
  ]

  pub has_top_level_key-Ends : (b key : Bytes) → Ends (has_top_level_key rt b key)
  unfolding has_top_level_key
  has_top_level_key-Ends b key = elim (Option-cases (rt.token (rt.new_decoder b))) [
    | inl e ↦ rw (e, has_top_level_key) (false, refl)
    | inr ((t, d), e) ↦
        rw (e, has_top_level_key)
          (elim (Bool-cases (is_open_brace t)) [
            | inr n ↦ rw n (false, refl)
            | inl y ↦ rw y (
                key_loop-Ends key (suc (length b)) d
                  (omega (arith, law.token_left (rt.new_decoder b) d t e, law.new_left b)))
          ])
  ]
