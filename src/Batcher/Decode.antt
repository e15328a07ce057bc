-- ===== src/Batcher/Decode.antt =====
-- What a reader of the posted body finds: the events of the batch.
use metrics_agent.Prelude.{
  ℕ, zero, suc, ◌≤◌, ◌<◌, ◌≡◌, refl, ap, ◌∙◌, true, false, List, [], ◌∷◌, ◌++◌, append_assoc,
  Option, none, some, arith, ◌>>=◌, if◌then◌else◌, length, length-append, drop, drop-length-append,
  Bytes, codes, equal, has_prefix, until, Each,
}
use metrics_agent.Data.{EventBatch}
use metrics_agent.Scan.{scan_value, kind_object}
use metrics_agent.Strip.Layout.{until-append, expect_self}
use metrics_agent.Strip.{expect}
use metrics_agent.Batcher.{join_events, encode_event_batch}

-- A text that the scanner reads as one object, whatever follows.
abbrev pub IsEvent : Bytes → Type 0
IsEvent e = (r : Bytes) → scan_value (e ++ r) ≡ some (r, kind_object)

-- A reader of the array: a value, then a comma and the rest, or the end of the body.
abbrev ending : Bytes
ending = codes "]}"

unfoldable pub read_values : ℕ → Bytes → Option (List Bytes)
read_values zero s = none
read_values (suc fuel) s = elim (scan_value s) [
  | none ↦ none
  | some (r, k) ↦
      if equal r ending
      then some (until s r ∷ [])
      else expect b',' r >>= λ q. read_values fuel q >>= λ es. some (until s r ∷ es)
]

unfoldable pub decode_event_batch : Bytes → Option (List Bytes)
unfolding read_values
decode_event_batch body =
    if has_prefix body (codes "{\"events\":[")
    then read_values (length body) (drop (length (codes "{\"events\":[")) body)
    else none

read_last :
    (fuel : ℕ) (e : Bytes) → IsEvent e → read_values (suc fuel) (e ++ ending) ≡ some (e ∷ [])
unfolding read_values equal
read_last fuel e h = rw (read_values, h ending) (ap (λ x. some (x ∷ [])) (until-append e ending))

comma_first : (q : Bytes) → equal (b',' ∷ q) ending ≡ false
unfolding equal
comma_first q = refl

read_more :
    (fuel : ℕ) (e q : Bytes) (es : List Bytes)
    → IsEvent e
    → read_values fuel q ≡ some es
    → read_values (suc fuel) (e ++ b',' ∷ q) ≡ some (e ∷ es)
unfolding read_values
read_more fuel e q es h rest =
    rw (read_values, h (b',' ∷ q), comma_first q, expect_self b',' q, rest)
      (ap (λ x. some (x ∷ es)) (until-append e (b',' ∷ q)))

read-join :
    (fuel : ℕ) (e : Bytes) (es : List Bytes)
    → length es < fuel
    → IsEvent e
    → Each IsEvent es
    → read_values fuel (join_events (e ∷ es) ++ ending) ≡ some (e ∷ es)
unfolding join_events
read-join zero e es n h hs = elim n [ ]
read-join (suc fuel) e [] n h hs = read_last fuel e h
read-join (suc fuel) e (f ∷ es) n h hs =
    ap (read_values (suc fuel)) (append_assoc e (b',' ∷ join_events (f ∷ es)) ending)
    ∙ read_more fuel e (join_events (f ∷ es) ++ ending) (f ∷ es) h
        (read-join fuel f es (omega arith) hs.0 hs.1)

enough : (e : Bytes) (es : List Bytes) → length es ≤ length (join_events (e ∷ es) ++ ending)
unfolding join_events
enough e [] = omega arith
enough e (f ∷ es) = omega (
  arith,
  length-append (e ++ b',' ∷ join_events (f ∷ es)) ending,
  length-append e (b',' ∷ join_events (f ∷ es)),
  length-append (join_events (f ∷ es)) ending,
  enough f es,
)

has_prefix-append : (p s : Bytes) → has_prefix (p ++ s) p ≡ true
unfolding has_prefix
has_prefix-append [] s = refl
has_prefix-append (c ∷ p) s = ground (arith, has_prefix-append p s)

-- The body of a batch whose events are objects is read back as these events, in their order, each
-- byte for byte.
pub decode-encode_event_batch :
    (e : Bytes) (es : List Bytes) (batch : EventBatch)
    → batch.events ≡ e ∷ es
    → IsEvent e
    → Each IsEvent es
    → decode_event_batch (encode_event_batch batch) ≡ some batch.events
unfolding decode_event_batch encode_event_batch
decode-encode_event_batch e es batch same h hs =
    let prefix = codes "{\"events\":[" in
    let inner = join_events (e ∷ es) ++ ending in
    rw same (
      rw (has_prefix-append prefix inner, drop-length-append prefix inner)
        (read-join (length (prefix ++ inner)) e es
          (omega (arith, length-append prefix inner, enough e es)) h hs))
