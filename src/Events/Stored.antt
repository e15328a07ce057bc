-- ===== src/Events/Stored.antt =====
-- The event that `validateEvent` makes of a body that is an object.
use metrics_agent.Prelude.{
  ℕ, zero, suc, ◌≤◌, ◌≡◌, inl, inr, refl, sym, ap, ◌∙◌, subst, Bool, true, false, ◌||◌, List, [],
  ◌∷◌, ◌++◌, none, some, arith, length, length-append, if◌then◌else◌, Bytes, codes, equal,
  Bool-cases, ltb,
}
use metrics_agent.Strip.Survivors.{Entry}
use metrics_agent.Events.{
  validate_ok, delim, string_token, Runtime, in_braces, key_loop, has_top_level_key, with_timestamp,
  stamp, validate_event,
}
use metrics_agent.Events.Trimmed.{Wrapped, Wrapped-trimmed, braces-in_braces}
use metrics_agent.Events.Decoding.{Reading, has_top_level_key-Ends}
use metrics_agent.Events.Stamp.{Whole, Trimming, Quoted, timestamp_entry, inject-Whole}

module _ {D : Type 0} (rt : Runtime D) (unquoted : Bytes → Bytes) where
  -- What a `json.Decoder` that stands between the members of an object reads from it: the key of
  -- each as a string, its value, and `More` until the last.
  pub data Members : D → List Entry → Type 0 where
    done : {d : D} → rt.more d ≡ false → Members d []
    next :
        {d d1 d2 : D} {e : Entry} {es : List Entry}
        → rt.more d ≡ true
        → rt.token d ≡ some (string_token (unquoted e.key), d1)
        → rt.decode d1 ≡ some d2
        → Members d2 es
        → Members d (e ∷ es)

  pub record Decoded (t : Bytes) (es : List Entry) : Type 0 where
    pub start : D
    pub opens : rt.token (rt.new_decoder t) ≡ some (delim b'{', start)
    pub members : Members start es

  -- The members' keys, tested without the decoder.
  abbrev pub named : Bytes → List Entry → Bool
  named key [] = false
  named key (e ∷ es) = equal (unquoted e.key) key || named key es

  -- The members of the event: a timestamp in front, if there is none.
  abbrev pub timestamped : Bytes → List Entry → List Entry
  timestamped ts es = if named (codes "timestamp") es then es else timestamp_entry ts ∷ es

  out_of_fuel : (key : Bytes) (d : D) → key_loop rt key 0 d ≡ none
  unfolding key_loop
  out_of_fuel key d = refl

  key_loop-stop :
      (key : Bytes) (fuel : ℕ) (d : D)
      → rt.more d ≡ false
      → key_loop rt key (suc fuel) d ≡ some false
  unfolding key_loop
  key_loop-stop key fuel d m = rw m refl

  module _ (key k : Bytes) (fuel : ℕ) (d d1 d2 : D) where
    key_loop-next :
        rt.more d ≡ true
        → rt.token d ≡ some (string_token k, d1)
        → rt.decode d1 ≡ some d2
        → key_loop rt key (suc fuel) d
          ≡ (if equal k key then some true else key_loop rt key fuel d2)
    unfolding key_loop
    key_loop-next m t v = elim (Bool-cases (equal k key)) [
      | inl y ↦ rw m (rw t (rw y refl))
      | inr n ↦ rw m (rw t (rw n (rw v refl)))
    ]

  key_loop-named :
      (key : Bytes) (fuel : ℕ) (d : D) (es : List Entry) (found : Bool)
      → Members d es
      → key_loop rt key fuel d ≡ some found
      → found ≡ named key es
  key_loop-named key zero d es found m h = let dry = out_of_fuel key d in absurd (cc)
  key_loop-named key (suc fuel) d [] found (done e) h = ground (arith, key_loop-stop key fuel d e)
  key_loop-named key (suc fuel) d (e ∷ es) found (next {d1 = d1} {d2 = d2} m t v rest) h = ground (
    arith,
    key_loop-next key (unquoted e.key) fuel d d1 d2 m t v,
    key_loop-named key fuel d2 es found rest,
  )

  has_top_level_key-named :
      (t key : Bytes) (es : List Entry)
      → Reading rt
      → Decoded t es
      → has_top_level_key rt t key ≡ some (named key es)
  unfolding has_top_level_key
  has_top_level_key-named t key es law dec =
      let (found, e) = has_top_level_key-Ends rt law t key in
      let loop : key_loop rt key (suc (length t)) dec.start ≡ some found =
        sym (rw (dec.opens, has_top_level_key) refl) ∙ e in
      e ∙ ap some (key_loop-named key (suc (length t)) dec.start es found dec.members loop)

  -- The event is the object itself, or the object with one member more.
  with_timestamp-Whole :
      (t ts : Bytes) (es : List Entry)
      → Trimming (rt.trim_space)
      → Whole t es
      → rt.timestamp ≡ some ts
      → Quoted ts
      → Whole (with_timestamp rt t (named (codes "timestamp") es)) (timestamped ts es)
  unfolding with_timestamp stamp
  with_timestamp-Whole t ts es law w time q = elim (Bool-cases (named (codes "timestamp") es)) [
    | inl y ↦ rw y w
    | inr n ↦ rw n (
        subst (λ o. Whole (stamp rt t o) (timestamp_entry ts ∷ es)) (sym time)
          (inject-Whole rt law t ts es w q))
  ]

  validate_event-accepts :
      (b t : Bytes) (max_bytes : ℕ) (found : Bool)
      → Wrapped b t
      → length b ≤ max_bytes
      → rt.valid t ≡ true
      → has_top_level_key rt t (codes "timestamp") ≡ some found
      → validate_event rt b max_bytes ≡ some (with_timestamp rt t found, validate_ok)
  unfolding validate_event
  validate_event-accepts b t max_bytes found w fits good h =
      let same = Wrapped-trimmed b t w in
      let braced : in_braces t ≡ true = ap in_braces w.braces ∙ braces-in_braces w.inner in
      let room : ltb max_bytes (length b) ≡ false = ground arith in
      let there : ltb (length b) 1 ≡ false = ground (
        arith,
        ap length w.splits,
        length-append w.front (t ++ w.back),
        length-append t w.back,
        ap length w.braces,
      ) in
      rw room (rw there (rw same (rw braced (rw good (rw h refl)))))

  -- A body that holds a valid object, with white space round it, becomes an event with the same
  -- members, and a member `timestamp` in front of them where they have none. This rests on what the
  -- decoder reads from the object, on what trimming takes off, and on a time whose text is a string.
  pub validate_event-Whole :
      (b t ts : Bytes) (es : List Entry) (max_bytes : ℕ)
      → Reading rt
      → Trimming (rt.trim_space)
      → Wrapped b t
      → length b ≤ max_bytes
      → rt.valid t ≡ true
      → Whole t es
      → Decoded t es
      → rt.timestamp ≡ some ts
      → Quoted ts
      → (ev : Bytes) × (validate_event rt b max_bytes ≡ some (ev, validate_ok))
        × Whole ev (timestamped ts es)
  validate_event-Whole b t ts es max_bytes law trims wrapped fits good w dec time q = (
    with_timestamp rt t (named (codes "timestamp") es),
    validate_event-accepts b t max_bytes _ wrapped fits good
        (has_top_level_key-named t (codes "timestamp") es law dec),
    with_timestamp-Whole t ts es trims w time q,
  )
