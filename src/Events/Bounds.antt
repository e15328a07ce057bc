-- ===== src/Events/Bounds.antt =====
-- How long an accepted event can be.
use metrics_agent.Prelude.{
  ℕ, zero, suc, ◌+◌, ◌-◌, ◌≤◌, ◌≡◌, ap, List, [], ◌∷◌, ◌++◌, Option, none, some, arith, ltb,
  if◌then◌else◌, length, length-append, take, drop, Bytes, codes,
}
use metrics_agent.Events.{
  ValidateReason, validate_ok, Runtime, inject_top_level_field, validate_event,
}
use metrics_agent.Events.Trimmed.{Wrapped}
use metrics_agent.Events.Decoding.{Reading}
use metrics_agent.Events.Verdict.{
  Stamped, has_one, unmade, stamped, Verdict, too_long, no_object, accepted, validate_event-Verdict,
}
use metrics_agent.Events.Stamp.{Trimming}

pub length-take-le {ℓ} : {A : Type ℓ} (n : ℕ) (s : List A) → length (take n s) ≤ n
length-take-le zero s = omega arith
length-take-le (suc n) [] = omega arith
length-take-le (suc n) (c ∷ s) = omega (arith, length-take-le n s)

-- The bytes of the member that is put in front: its name and colon, the time, and a comma.
abbrev pub added : Option Bytes → ℕ
added none = 0
added (some ts) = 13 + length ts

module _ {D : Type 0} (rt : Runtime D) (law : Trimming (rt.trim_space)) where
  length-inject :
      (t ts : Bytes)
      → 2 ≤ length t
      → length (inject_top_level_field rt t (codes "\"timestamp\":") ts)
        ≤ length t + (13 + length ts)
  unfolding inject_top_level_field
  length-inject t ts h =
      let inner = rt.trim_space (take (length t - 2) (drop 1 t)) in
      let back : Bytes = if ltb 0 (length inner) then b',' ∷ inner else [] in
      let short : length back ≤ suc (length inner) = ground arith in
      omega (
        arith,
        short,
        law.shorter (take (length t - 2) (drop 1 t)),
        length-take-le (length t - 2) (drop 1 t),
        length-append ts (back ++ b'}' ∷ []),
        length-append back (b'}' ∷ []),
      )

  Stamped-length :
      (t ev : Bytes) → 2 ≤ length t → Stamped rt t ev → length ev ≤ length t + added (rt.timestamp)
  Stamped-length t ev h (has_one e) = omega arith
  Stamped-length t ev h (unmade e n) = omega arith
  Stamped-length t ev h (stamped ts e n) = omega (arith, ap added n, length-inject t ts h)

  length-Wrapped : (b t : Bytes) → Wrapped b t → (2 ≤ length t) × (length t ≤ length b)
  length-Wrapped b t w = (
    omega (arith, ap length w.braces, length-append w.inner (b'}' ∷ [])),
    omega (arith, ap length w.splits, length-append w.front (t ++ w.back), length-append t w.back),
  )

  Verdict-length :
      (b ev : Bytes) (max_bytes : ℕ) (r : Bytes × ValidateReason)
      → Verdict rt b max_bytes r
      → r ≡ (ev, validate_ok)
      → length ev ≤ max_bytes + added (rt.timestamp)
  Verdict-length b ev max_bytes r (too_long h) e = absurd (cc)
  Verdict-length b ev max_bytes r (no_object h k) e = absurd (cc)
  Verdict-length b ev max_bytes r (accepted {t = t} {ev = ev0} fits w good s) e =
      let two = length-Wrapped b t w in
      let same : ev0 ≡ ev = cc in omega (arith, two, ap length same, Stamped-length t ev0 two.0 s)

  -- The limit is on the body as received. An accepted event is within it where the event brings its
  -- own timestamp, and beyond it by at most the thirteen bytes and the time that are put in front.
  pub length-validate_event :
      (b ev : Bytes) (max_bytes : ℕ)
      → Reading rt
      → validate_event rt b max_bytes ≡ some (ev, validate_ok)
      → length ev ≤ max_bytes + added (rt.timestamp)
  length-validate_event b ev max_bytes reads h =
      let (r, e, v) = validate_event-Verdict rt b max_bytes reads in
      Verdict-length b ev max_bytes r v (cc)
