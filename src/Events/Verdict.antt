-- ===== src/Events/Verdict.antt =====
-- What `validateEvent` answers on every body.
use metrics_agent.Prelude.{
  ℕ, ◌≤◌, ◌<◌, ◌≡◌, inl, inr, refl, sym, ap, ◌∙◌, Bool, true, false, [], ◌++◌, Option, none, some,
  arith, ltb, length, length-append, Bytes, codes, Bool-cases,
}
use metrics_agent.Events.{
  ValidateReason, validate_ok, validate_oversize, validate_parse_error, Runtime, trimmed, in_braces,
  has_top_level_key, inject_top_level_field, stamp, with_timestamp, validate_event,
}
use metrics_agent.Events.Trimmed.{Wrapped, Wrapped-trimmed, braces-in_braces, in_braces-Wrapped}
use metrics_agent.Events.Decoding.{Reading, has_top_level_key-Ends}

module _ {D : Type 0} (rt : Runtime D) where
  -- The event that is made of an object.
  pub data Stamped (t : Bytes) : Bytes → Type 0 where
    has_one : has_top_level_key rt t (codes "timestamp") ≡ some true → Stamped t t
    unmade :
        has_top_level_key rt t (codes "timestamp") ≡ some false → rt.timestamp ≡ none → Stamped t t
    stamped :
        (ts : Bytes)
        → has_top_level_key rt t (codes "timestamp") ≡ some false
        → rt.timestamp ≡ some ts
        → Stamped t (inject_top_level_field rt t (codes "\"timestamp\":") ts)

  pub data Verdict (b : Bytes) (max_bytes : ℕ) : Bytes × ValidateReason → Type 0 where
    too_long : max_bytes < length b → Verdict b max_bytes ([], validate_oversize)
    no_object :
        length b ≤ max_bytes
        → ((t : Bytes) → Wrapped b t → rt.valid t ≡ false)
        → Verdict b max_bytes ([], validate_parse_error)
    accepted :
        {t ev : Bytes}
        → length b ≤ max_bytes
        → Wrapped b t
        → rt.valid t ≡ true
        → Stamped t ev
        → Verdict b max_bytes (ev, validate_ok)

  stamp-Stamped :
      (t : Bytes) (o : Option Bytes)
      → has_top_level_key rt t (codes "timestamp") ≡ some false
      → rt.timestamp ≡ o
      → Stamped t (stamp rt t o)
  unfolding stamp
  stamp-Stamped t none h e = unmade h e
  stamp-Stamped t (some ts) h e = stamped ts h e

  with_timestamp-Stamped :
      (t : Bytes) (found : Bool)
      → has_top_level_key rt t (codes "timestamp") ≡ some found
      → Stamped t (with_timestamp rt t found)
  unfolding with_timestamp
  with_timestamp-Stamped t true h = has_one h
  with_timestamp-Stamped t false h = stamp-Stamped t (rt.timestamp) h refl

  not_braced : (b t : Bytes) → in_braces (trimmed b) ≡ false → Wrapped b t → rt.valid t ≡ false
  not_braced b t h w =
      let braced = ap in_braces (Wrapped-trimmed b t w ∙ w.braces) ∙ braces-in_braces w.inner in
      ground (arith, braced)

  unwrapped_nil : (b t : Bytes) → length b < 1 → Wrapped b t → rt.valid t ≡ false
  unwrapped_nil b t h w = absurd (
      omega (
        arith,
        ap length w.splits,
        length-append w.front (t ++ w.back),
        length-append t w.back,
        ap length w.braces,
      ))

  -- On every body, `validateEvent` comes to an end and answers: too long for the limit, where the body
  -- is; a parse error, where the body is no valid JSON in braces with white space round it; and
  -- otherwise that JSON text, with a timestamp put in front where it has none.
  pub validate_event-Verdict :
      (b : Bytes) (max_bytes : ℕ)
      → Reading rt
      → (r : Bytes × ValidateReason) × (validate_event rt b max_bytes ≡ some r)
        × Verdict b max_bytes r
  unfolding validate_event
  validate_event-Verdict b max_bytes law = elim (Bool-cases (ltb max_bytes (length b))) [
    | inl long ↦ rw long (_, refl, too_long (ground arith))
    | inr fits ↦ rw fits (elim (Bool-cases (ltb (length b) 1)) [
      | inl z ↦ rw z (_, refl, no_object (ground arith) (λ t. unwrapped_nil b t (ground arith)))
      | inr nz ↦ rw nz (elim (Bool-cases (in_braces (trimmed b))) [
        | inr bare ↦ rw bare (_, refl, no_object (ground arith) (λ t. not_braced b t bare))
        | inl braced ↦ rw braced (elim (Bool-cases (rt.valid (trimmed b))) [
          | inr bad ↦ rw bad (
            _,
            refl,
            no_object (ground arith) λ t w. ap (rt.valid) (sym (Wrapped-trimmed b t w)) ∙ bad,
          )
          | inl good ↦ rw good (
              let (found, e) = has_top_level_key-Ends rt law (trimmed b) (codes "timestamp") in
              rw e (
                _,
                refl,
                accepted (ground arith) (in_braces-Wrapped b braced) good
                    (with_timestamp-Stamped (trimmed b) found e),
              ))
        ])
      ])
    ])
  ]
