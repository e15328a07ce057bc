-- ===== src/Events.antt =====
-- `validateEvent` of events.go and its helpers. The calls of encoding/json, of bytes.TrimSpace and
-- of time.Now are the fields of `Runtime`.
mod Trimmed
pub mod Decoding
pub mod Verdict
mod Members
mod Stamp
mod Stored
mod Bounds
pub mod Tests
use metrics_agent.Prelude.{
  ℕ, zero, suc, ◌-◌, Bool, true, false, not, ◌&&◌, ◌||◌, List, [], ◌∷◌, ◌++◌, reverse, Option, none,
  some, ltb, ◌==◌, ◌>>=◌, if◌then◌else◌, length, take, drop, Bytes, codes, equal,
}
use metrics_agent.Scan.{scan_ws}

pub data ValidateReason : Type 0 where
  validate_ok validate_oversize validate_parse_error : ValidateReason

-- `json.Token`: a `json.Delim`, a string, or a value of another type.
pub data Token : Type 0 where
  delim : ℕ → Token
  string_token : Bytes → Token
  other_token : Token

-- What the code calls: `json.Valid`, a `json.Decoder` on a text with its `Token`, `More` and
-- `Decode` into a raw message, `bytes.TrimSpace`, and `json.Marshal` of the time; `none` is an error.
pub record Runtime (D : Type 0) : Type 0 where
  pub valid : Bytes → Bool
  pub new_decoder : Bytes → D
  pub token : D → Option (Token × D)
  pub more : D → Bool
  pub decode : D → Option D
  pub trim_space : Bytes → Bytes
  pub timestamp : Option Bytes

abbrev pub is_open_brace : Token → Bool
is_open_brace (delim c) = c == b'{'
is_open_brace (string_token s) = false
is_open_brace other_token = false

abbrev pub is_key : Bytes → Token → Bool
is_key key (delim c) = false
is_key key (string_token s) = equal s key
is_key key other_token = false

-- The text between the two loops on `start` and `end`, which pass over white space.
unfoldable pub trimmed : Bytes → Bytes
trimmed b = reverse (scan_ws (reverse (scan_ws b)))

abbrev pub head_is : ℕ → Bytes → Bool
head_is x [] = false
head_is x (c ∷ r) = c == x

-- The negation of `end-start < 2 || b[start] != '{' || b[end-1] != '}'`.
unfoldable pub in_braces : Bytes → Bool
in_braces t = not (ltb (length t) 2 || (not (head_is b'{' t) || not (head_is b'}' (reverse t))))

module _ {D : Type 0} (rt : Runtime D) where
  -- The loop of `hasTopLevelKey`; `none` is a lack of fuel.
  unfoldable pub key_loop : Bytes → ℕ → D → Option Bool
  key_loop key zero d = none
  key_loop key (suc fuel) d = if not (rt.more d) then some false else elim (rt.token d) [
    | none ↦ some false
    | some (k, after) ↦
        if is_key key k
        then some true
        else elim (rt.decode after) [ none ↦ some false | some rest ↦ key_loop key fuel rest ]
  ]

  -- `hasTopLevelKey`
  unfoldable pub has_top_level_key : Bytes → Bytes → Option Bool
  unfolding key_loop
  has_top_level_key b key = elim (rt.token (rt.new_decoder b)) [
    | none ↦ some false
    | some (t, d) ↦ if is_open_brace t then key_loop key (suc (length b)) d else some false
  ]

  -- `injectTopLevelField`
  unfoldable pub inject_top_level_field : Bytes → Bytes → Bytes → Bytes
  inject_top_level_field obj key_colon value =
      let inner = rt.trim_space (take (length obj - 2) (drop 1 obj)) in
      b'{'
      ∷ (key_colon ++ (value ++ ((if ltb 0 (length inner) then b',' ∷ inner else []) ++ b'}' ∷ [])))

  -- The event with a timestamp, where it has none and the time has a text.
  unfoldable pub stamp : Bytes → Option Bytes → Bytes
  stamp t none = t
  stamp t (some ts) = inject_top_level_field t (codes "\"timestamp\":") ts

  unfoldable pub with_timestamp : Bytes → Bool → Bytes
  unfolding stamp
  with_timestamp t true = t
  with_timestamp t false = stamp t (rt.timestamp)

  -- `validateEvent`
  unfoldable pub validate_event : Bytes → ℕ → Option (Bytes × ValidateReason)
  unfolding trimmed in_braces has_top_level_key with_timestamp
  validate_event b max_bytes =
      let t = trimmed b in
      if ltb max_bytes (length b)
      then some ([], validate_oversize)
      else if ltb (length b) 1
      then some ([], validate_parse_error)
      else if not (in_braces t)
      then some ([], validate_parse_error)
      else if not (rt.valid t)
      then some ([], validate_parse_error)
      else has_top_level_key t (codes "timestamp") >>= λ found.
          some (with_timestamp t found, validate_ok)
