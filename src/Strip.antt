-- ===== src/Strip.antt =====
-- `extractAndStripFields` of routing.go: one walk over the top-level members of a datagram, which
-- finds `_project` and `_token` and cuts them out of the body. `utf8.Valid` and `json.Unmarshal`
-- into a string are not code of the repository: they are the fields of `Codec`.
pub mod Layout
pub mod Walk
mod Cuts
mod Splice
pub mod Survivors
pub mod Notes
mod Prefilter
pub mod Object
mod Result
pub mod Extracted
pub mod Extract
pub mod Safety
pub mod Tests
use metrics_agent.Prelude.{
  ℕ, zero, suc, ◌+◌, ◌-◌, Bool, true, false, not, ◌&&◌, ◌||◌, List, [], ◌∷◌, ◌++◌, reverse, Option,
  none, some, ltb, ◌==◌, if◌then◌else◌, ◌>>=◌, length, take, drop, Bytes, codes, equal, contains,
  offset, until,
}
use metrics_agent.Scan.{
  ValueKind, kind_string, is_json_space, scan_ws, scan_string_body, after_quote, scan_value,
}

pub record Codec : Type 0 where
  pub utf8_valid : Bytes → Bool
  pub unmarshal_string : Bytes → Option Bytes

abbrev pub project_key : Bytes
project_key = codes "_project"

abbrev pub token_key : Bytes
token_key = codes "_token"

abbrev pub project_key_marker : Bytes
project_key_marker = codes "\"_project\""

abbrev pub token_key_marker : Bytes
token_key_marker = codes "\"_token\""

pub record RoutingFields : Type 0 where
  pub project : Bytes
  pub token : Bytes
  pub stripped : Bytes
  pub removed : Bool
  pub malformed : Bool
  pub bad_project : Bool
  pub bad_token : Bool

-- `routingFields{stripped: b}`, and the same with `malformed: true`.
abbrev pub miss : Bytes → RoutingFields
miss b = record {
  project = [];
  token = [];
  stripped = b;
  removed = false;
  malformed = false;
  bad_project = false;
  bad_token = false;
}

abbrev pub malformed_body : Bytes → RoutingFields
malformed_body b = record (miss b) { malformed = true }

-- All but the last byte, and the last byte.
unfoldable pub unsnoc : Bytes → Option (Bytes × ℕ)
unsnoc [] = none
unsnoc (c ∷ r) = elim (unsnoc r) [ none ↦ some ([], c) | some (s, d) ↦ some (c ∷ s, d) ]

unfoldable pub has_byte : ℕ → Bytes → Bool
has_byte x [] = false
has_byte x (c ∷ r) = c == x || has_byte x r

-- A hit: where its key starts and its value ends, and which member it is.
pub record Span : Type 0 where
  pub key_start : ℕ
  pub val_end : ℕ
  pub idx : ℕ

-- What one round of the loop has read: the text from the key's opening quote on, the key's bytes,
-- the text from the value on, and the text behind the value.
pub record Member : Type 0 where
  pub key_at : Bytes
  pub key : Bytes
  pub val_at : Bytes
  pub val_end : Bytes
  pub kind : ValueKind

unfoldable pub expect : ℕ → Bytes → Option Bytes
expect x [] = none
expect x (c ∷ r) = if c == x then some r else none

-- The loop's body up to the value, which ends in `malformed` wherever a step fails.
unfoldable pub scan_member : Bytes → Option Member
scan_member s = expect b'"' (scan_ws s) >>= λ content. scan_string_body content >>= λ q.
    expect b':' (scan_ws (after_quote q)) >>= λ v. scan_value (scan_ws v) >>= λ (e, k).
    some (record {
      key_at = scan_ws s;
      key = until content q;
      val_at = scan_ws v;
      val_end = e;
      kind = k;
    })

pub data Separator : Type 0 where
  comma : Bytes → Separator
  close broken : Separator

-- The loop's last step, at the text behind the value.
unfoldable pub separator : Bytes → Separator
separator [] = broken
separator (c ∷ r) = if c == b',' then comma r else if c == b'}' then close else broken

-- The variables of the loop.
pub record WalkState : Type 0 where
  pub hits : List Span
  pub idx : ℕ
  pub project : Bytes
  pub token : Bytes
  pub bad_project : Bool
  pub bad_token : Bool

abbrev pub walk_start : WalkState
walk_start = record {
  hits = [];
  idx = 0;
  project = [];
  token = [];
  bad_project = false;
  bad_token = false;
}

abbrev pub is_project_key : Bytes → Bool
is_project_key key = length key == length project_key && equal key project_key

abbrev pub is_token_key : Bool → Bytes → Bool
is_token_key with_token key = with_token && (length key == length token_key && equal key token_key)

unfoldable pub span_of : Bytes → Member → ℕ → Span
unfolding offset
span_of b m i = record { key_start = offset b m.key_at; val_end = offset b m.val_end; idx = i }

pub data Walked : Type 0 where
  malformed out_of_fuel : Walked
  finished : WalkState → Walked

-- The bounds of a cut, as indices into the body.
pub record Cut : Type 0 where
  pub start : ℕ
  pub end : ℕ

unfoldable pub past_comma : Bytes → Bytes
past_comma [] = []
past_comma (c ∷ r) = if c == b',' then r else c ∷ r

-- `for end < len(b) && isJSONSpace(b[end]) { end++ }`, then past a comma.
unfoldable pub cut_end : Bytes → ℕ → ℕ
cut_end b end = length b - length (past_comma (scan_ws (drop end b)))

-- The same backwards from `start`: the bytes before it, the last one first.
unfoldable pub cut_start : Bytes → ℕ → ℕ
cut_start b start = length (past_comma (scan_ws (reverse (take start b))))

-- A member owns the comma behind it while no surviving member stands in front, `h.idx == k`.
unfoldable pub cut_of : Bytes → ℕ → Span → Cut
cut_of b k h =
    if h.idx == k
    then record { start = h.key_start; end = cut_end b h.val_end }
    else record { start = cut_start b h.key_start; end = h.val_end }

unfoldable pub cuts_of : Bytes → ℕ → List Span → List Cut
cuts_of b k [] = []
cuts_of b k (h ∷ hs) = cut_of b k h ∷ cuts_of b (k + 1) hs

-- `b[from:to]`
abbrev pub slice : Bytes → ℕ → ℕ → Bytes
slice b from to = take (to - from) (drop from b)

-- The loop over the cuts, and the `append` behind it.
unfoldable pub splice : Bytes → ℕ → List Cut → Bytes
splice b pos [] = drop pos b
splice b pos (c ∷ cs) = (if ltb pos c.start then slice b pos c.start else []) ++ splice b c.end cs

-- The result where a member was removed.
abbrev pub removed_fields : Bytes → WalkState → RoutingFields
removed_fields b st = record {
  project = st.project;
  token = st.token;
  stripped = if length st.hits == st.idx then codes "{}" else splice b 0 (cuts_of b 0 st.hits);
  removed = true;
  malformed = false;
  bad_project = st.bad_project;
  bad_token = st.bad_token;
}

-- What the function returns after the loop.
unfoldable pub strip_result : Bytes → WalkState → RoutingFields
strip_result b st = elim st.hits [ [] ↦ miss b | h ∷ hs ↦ removed_fields b st ]

-- The prefilter.
abbrev pub lacks_markers : Bool → Bytes → Bool
lacks_markers with_token b =
    not (contains b project_key_marker) && not (with_token && contains b token_key_marker)

module _ (codec : Codec) where
  unfoldable pub unquote_json_string : Bytes → Option Bytes
  unquote_json_string [] = none
  unquote_json_string (c ∷ r) = if not (c == b'"') then none else elim (unsnoc r) [
    | none ↦ none
    | some (inner, d) ↦
        if not (d == b'"')
        then none
        else if not (has_byte b'\\' inner) && codec.utf8_valid inner
        then some inner
        else codec.unmarshal_string (c ∷ r)
  ]

  -- The value of a routing member, if it is a string that can be decoded.
  unfoldable pub routing_value : ValueKind → Bytes → Option Bytes
  routing_value kind_string value = unquote_json_string value
  routing_value _ value = none

  -- The switch on the key. A later occurrence overrides an earlier one.
  unfoldable pub note : Bool → Bytes → Member → WalkState → WalkState
  unfolding span_of
  note with_token b m st =
      let value = routing_value m.kind (until m.val_at m.val_end) in
      if is_project_key m.key
      then record st {
        hits = st.hits ++ span_of b m st.idx ∷ [];
        idx = st.idx + 1;
        project = elim value [ none ↦ [] | some v ↦ v ];
        bad_project = elim value [ none ↦ true | some v ↦ false ];
      }
      else if is_token_key with_token m.key
      then record st {
        hits = st.hits ++ span_of b m st.idx ∷ [];
        idx = st.idx + 1;
        token = elim value [ none ↦ [] | some v ↦ v ];
        bad_token = elim value [ none ↦ true | some v ↦ false ];
      }
      else record st { idx = st.idx + 1 }

  -- The loop. Each round reads a key at least, so the length of the body is fuel enough.
  unfoldable pub walk : Bool → Bytes → ℕ → Bytes → WalkState → Walked
  walk with_token b zero s st = out_of_fuel
  walk with_token b (suc fuel) s st = elim (scan_member s) [
    | none ↦ malformed
    | some m ↦ elim (separator (scan_ws m.val_end)) [
      | broken ↦ malformed
      | close ↦ finished (note with_token b m st)
      | comma r ↦ walk with_token b fuel r (note with_token b m st)
    ]
  ]

  abbrev pub of_walk : Bytes → Walked → RoutingFields
  of_walk b malformed = malformed_body b
  of_walk b out_of_fuel = malformed_body b
  of_walk b (finished st) = strip_result b st

  -- At the text behind the opening brace.
  unfoldable pub strip_members : Bool → Bytes → Bytes → RoutingFields
  strip_members with_token b [] = malformed_body b
  strip_members with_token b (c ∷ r) =
      if c == b'}' then miss b else of_walk b (walk with_token b (length b) (c ∷ r) walk_start)

  unfoldable pub strip_object : Bool → Bytes → Bytes → RoutingFields
  strip_object with_token b [] = malformed_body b
  strip_object with_token b (c ∷ r) =
      if not (c == b'{') then miss b else strip_members with_token b (scan_ws r)

  unfoldable pub extract_and_strip_fields : Bool → Bytes → RoutingFields
  extract_and_strip_fields with_token b =
      if lacks_markers with_token b then miss b else strip_object with_token b (scan_ws b)

  unfoldable pub extract_and_strip_routing : Bytes → RoutingFields
  unfolding extract_and_strip_fields
  extract_and_strip_routing b = extract_and_strip_fields true b
