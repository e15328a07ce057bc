-- ===== src/Events/Tests.antt =====
-- `validateEvent` on a concrete body, with a decoder that knows its tokens.
use metrics_agent.Prelude.{
  ℕ, ◌+◌, ◌≤◌, ◌<◌, ◌≡◌, refl, sym, ap, ◌∙◌, Bool, true, false, List, [], ◌∷◌, ◌++◌, reverse,
  reverse-append, reverse-reverse, append-nil, Option, none, some, arith, length, length-reverse,
  take, Bytes, codes, equal,
}
use metrics_agent.Scan.{is_json_space, scan_ws, scan_value, string_loop, after_quote}
use metrics_agent.Scan.Spaces.{Spaces, Spaces-reverse, scan_ws-stop, scan_ws-append}
use metrics_agent.Strip.Survivors.{entries}
use metrics_agent.Strip.Tests.{second, second-IsPiece}
use metrics_agent.Events.{
  ValidateReason, validate_ok, Token, delim, string_token, Runtime, trimmed, in_braces, key_loop,
  has_top_level_key, inject_top_level_field, stamp, with_timestamp, validate_event,
}
use metrics_agent.Events.Trimmed.{Wrapped}
use metrics_agent.Events.Decoding.{Reading}
use metrics_agent.Events.Verdict.{Verdict, validate_event-Verdict}
use metrics_agent.Events.Members.{printed, begins_printed, ends_printed}
use metrics_agent.Events.Stamp.{Whole, Trimming, Quoted}
use metrics_agent.Events.Stored.{done, next, Decoded, timestamped, validate_event-Whole}
use metrics_agent.Events.Bounds.{added, length-take-le, length-validate_event}

abbrev object : Bytes
object = codes "{\"a\":\"x\"}"

abbrev pub body : Bytes
body = codes " {\"a\":\"x\"}\n"

abbrev tokens : List Token
tokens = delim b'{' ∷ string_token (codes "a") ∷ []

abbrev now : Bytes
now = codes "\"now\""

abbrev next_token : List Token → Option (Token × List Token)
next_token [] = none
next_token (t ∷ ts) = some (t, ts)

abbrev any_left : List Token → Bool
any_left [] = false
any_left (t ∷ ts) = true

abbrev pub plain_runtime : Runtime (List Token)
plain_runtime = record {
  valid = equal object;
  new_decoder = λ b. take (length b) tokens;
  token = next_token;
  more = any_left;
  decode = some;
  trim_space = trimmed;
  timestamp = some now;
}

pub plain-Reading : Reading plain_runtime
plain-Reading = record {
  left = length;
  new_left = λ b. length-take-le (length b) tokens;
  token_left = next-shorter;
  decode_left = λ d e h. omega (arith, ap length (some-inj h));
}
  where
    some-inj : {d e : List Token} → some d ≡ some e → d ≡ e
    some-inj h = cc

    next-shorter : (d e : List Token) (t : Token) → next_token d ≡ some (t, e) → length e < length d
    next-shorter [] e t h = cc
    next-shorter (x ∷ d) e t h = let same : d ≡ e = cc in omega (arith, ap length same)

printed_no_space : (c : ℕ) → printed c ≡ true → is_json_space c ≡ false
unfolding is_json_space
printed_no_space c h = ground arith

begins-starts : (s : Bytes) → begins_printed s ≡ true → (r : Bytes) → scan_ws (s ++ r) ≡ s ++ r
begins-starts [] h r = cc
begins-starts (c ∷ s) h r = scan_ws-stop (c ∷ (s ++ r)) (printed_no_space c h)

begins_printed-append : (s t : Bytes) → begins_printed s ≡ true → begins_printed (s ++ t) ≡ true
begins_printed-append [] t h = cc
begins_printed-append (c ∷ s) t h = h

ends-begins : (s : Bytes) → ends_printed s ≡ true → begins_printed (reverse s) ≡ true
ends-begins [] h = cc
ends-begins (c ∷ []) h = h
ends-begins (c ∷ d ∷ s) h =
    ap begins_printed (reverse-append (c ∷ []) (d ∷ s))
    ∙ begins_printed-append (reverse (d ∷ s)) (c ∷ []) (ends-begins (d ∷ s) h)

length-scan_ws-le : (s : Bytes) → length (scan_ws s) ≤ length s
unfolding scan_ws
length-scan_ws-le [] = omega arith
length-scan_ws-le (c ∷ s) = ground (arith, length-scan_ws-le s)

scan_ws-blank : (s : Bytes) → Spaces s → scan_ws s ≡ []
unfolding scan_ws
scan_ws-blank s h = ap scan_ws (sym (append-nil s)) ∙ scan_ws-append s [] h

trimmed-Trimming : Trimming trimmed
unfolding trimmed scan_ws
trimmed-Trimming = record {
  shorter = λ s. omega (
    arith,
    length-reverse (scan_ws (reverse (scan_ws s))),
    length-scan_ws-le (reverse (scan_ws s)),
    length-reverse (scan_ws s),
    length-scan_ws-le s,
  );
  blank = λ s h. ap (λ x. reverse (scan_ws (reverse x))) (scan_ws-blank s h);
  between = λ u m v a b p q.
      ap (λ x. reverse (scan_ws (reverse x))) (scan_ws-append u (m ++ v) a ∙ begins-starts m p v)
      ∙ ap (λ x. reverse (scan_ws x)) (reverse-append m v)
      ∙ ap reverse (scan_ws-append (reverse v) (reverse m) (Spaces-reverse v b))
      ∙ ap (λ x. reverse (scan_ws x)) (sym (append-nil (reverse m)))
      ∙ ap reverse (begins-starts (reverse m) (ends-begins m q) [])
      ∙ ap reverse (append-nil (reverse m))
      ∙ reverse-reverse m;
}

body-Wrapped : Wrapped body object
unfolding is_json_space
body-Wrapped = record {
  front = codes " ";
  inner = codes "\"a\":\"x\"";
  back = codes "\n";
  front_spaces = (refl, tt);
  back_spaces = (refl, tt);
  braces = refl;
  splits = refl;
}

object-Whole : Whole object (entries (second ∷ []))
object-Whole = record {
  gap = [];
  pieces = second ∷ [];
  gap_spaces = tt;
  are_pieces = (second-IsPiece, tt);
  ends = refl;
  splits = refl;
  entries_are = refl;
}

object-Decoded : Decoded plain_runtime (λ k. k) object (entries (second ∷ []))
object-Decoded = record {
  start = string_token (codes "a") ∷ [];
  opens = refl;
  members = next refl refl refl (done refl);
}

now-Quoted : Quoted now
unfolding scan_value string_loop after_quote is_json_space
now-Quoted = record { no_space = refl; ne_nil = λ e. cc; scans = λ r h. refl; last_printed = refl }

body_fits : length body ≤ 20
body_fits = omega arith

object_valid : plain_runtime.valid object ≡ true
unfolding equal
object_valid = refl

abbrev pub event : Bytes
event = codes "{\"timestamp\":\"now\",\"a\":\"x\"}"

body_accepted : validate_event plain_runtime body 20 ≡ some (event, validate_ok)
unfolding validate_event trimmed in_braces has_top_level_key key_loop with_timestamp stamp
    inject_top_level_field scan_ws is_json_space equal
body_accepted = refl

validate_event-Verdict_example :
    (r : Bytes × ValidateReason) × (validate_event plain_runtime body 20 ≡ some r)
    × Verdict plain_runtime body 20 r
validate_event-Verdict_example = validate_event-Verdict plain_runtime body 20 plain-Reading

validate_event-Whole_example :
    (ev : Bytes) × (validate_event plain_runtime body 20 ≡ some (ev, validate_ok))
    × Whole ev (timestamped plain_runtime (λ k. k) now (entries (second ∷ [])))
validate_event-Whole_example =
    validate_event-Whole plain_runtime (λ k. k) body object now (entries (second ∷ [])) 20
      plain-Reading trimmed-Trimming body-Wrapped body_fits object_valid object-Whole object-Decoded
      refl now-Quoted

length-validate_event_example : length event ≤ 20 + added (some now)
length-validate_event_example =
    length-validate_event plain_runtime trimmed-Trimming body event 20 plain-Reading body_accepted
