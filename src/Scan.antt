-- ===== src/Scan.antt =====
-- The byte scanners of routing.go over JSON text: `scanWS`, `scanStringBody`, `scanNumber`,
-- `scanContainer` and `scanValue`. An index `i` into the datagram `b` is the suffix `b[i:]`, so
-- `i >= len(b)` is the empty list and `b[i]` its head; `ok = false` is `none`.
pub mod Local
pub mod Strings
pub mod Numbers
pub mod Spaces
mod Containers
pub mod Values
use metrics_agent.Prelude.{
  ℕ, zero, suc, ◌+◌, ◌-◌, Bool, false, ◌&&◌, ◌||◌, List, [], ◌∷◌, Option, none, some, ltb, leb,
  ◌==◌, if◌then◌else◌, ◌>>=◌, length, Bytes, codes,
}

-- `isJSONSpace`, and the test that `scanWS` writes out.
unfoldable pub is_json_space : ℕ → Bool
is_json_space c = c == b' ' || c == b'\t' || c == b'\n' || c == b'\r'

unfoldable pub scan_ws : Bytes → Bytes
scan_ws [] = []
scan_ws (c ∷ r) = let rest = scan_ws r in if is_json_space c then rest else c ∷ r

abbrev within : ℕ → ℕ → ℕ → Bool
within lo hi c = leb lo c && leb c hi

unfoldable pub is_hex : ℕ → Bool
is_hex c = within b'0' b'9' c || within b'a' b'f' c || within b'A' b'F' c

unfoldable pub four_hex : Bytes → Bool
unfolding is_hex
four_hex (h1 ∷ h2 ∷ h3 ∷ h4 ∷ r) = is_hex h1 && is_hex h2 && is_hex h3 && is_hex h4
four_hex _ = false

-- How many bytes after a backslash belong to its escape: `\uXXXX` wants four hex digits, and any
-- other byte stands alone.
unfoldable pub escape_length : Bytes → Option ℕ
unfolding four_hex
escape_length [] = none
escape_length (c ∷ r) = if c == b'u' then (if four_hex r then some 5 else none) else some 1

-- The loop of `scanStringBody`; `skip` counts the bytes that `i` has already been moved past.
-- The result starts at the closing quote.
unfoldable pub string_loop : Bytes → ℕ → Option Bytes
unfolding escape_length
string_loop [] skip = none
string_loop (c ∷ r) (suc skip) = string_loop r skip
string_loop (c ∷ r) zero =
    let plain = string_loop r 0 in
    if c == b'"'
    then some (c ∷ r)
    else if c == b'\\'
    then elim (escape_length r) [ none ↦ none | some n ↦ string_loop r n ]
    else if ltb c 0x20
    then none
    else plain

abbrev pub scan_string_body : Bytes → Option Bytes
scan_string_body s = string_loop s 0

abbrev is_digit : ℕ → Bool
is_digit = within b'0' b'9'

unfoldable pub scan_digits : Bytes → Bytes
scan_digits [] = []
scan_digits (c ∷ r) = let rest = scan_digits r in if is_digit c then rest else c ∷ r

unfoldable pub skip_minus : Bytes → Bytes
skip_minus [] = []
skip_minus (c ∷ r) = if c == b'-' then r else c ∷ r

unfoldable pub scan_integer : Bytes → Option Bytes
unfolding scan_digits
scan_integer [] = none
scan_integer (c ∷ r) =
    if c == b'0' then some r else if within b'1' b'9' c then some (scan_digits (c ∷ r)) else none

-- At least one digit, then all that follow.
unfoldable pub some_digits : Bytes → Option Bytes
unfolding scan_digits
some_digits [] = none
some_digits (c ∷ r) = if is_digit c then some (scan_digits (c ∷ r)) else none

unfoldable pub scan_fraction : Bytes → Option Bytes
unfolding some_digits
scan_fraction [] = some []
scan_fraction (c ∷ r) = if c == b'.' then some_digits r else some (c ∷ r)

unfoldable pub skip_sign : Bytes → Bytes
skip_sign [] = []
skip_sign (c ∷ r) = if c == b'+' || c == b'-' then r else c ∷ r

unfoldable pub scan_exponent : Bytes → Option Bytes
unfolding some_digits skip_sign
scan_exponent [] = some []
scan_exponent (c ∷ r) = if c == b'e' || c == b'E' then some_digits (skip_sign r) else some (c ∷ r)

-- The last test is `i == start`.
unfoldable pub scan_number : Bytes → Option Bytes
unfolding skip_minus scan_integer scan_fraction scan_exponent
scan_number s = scan_integer (skip_minus s) >>= scan_fraction >>= scan_exponent >>= λ t.
    if length t == length s then none else some t

abbrev pub max_scan_depth : ℕ
max_scan_depth = 256

-- The innermost open bracket heads the stack.
unfoldable pub push : ℕ → List ℕ → Option (List ℕ)
push open_byte stack = if leb max_scan_depth (length stack) then none else some (open_byte ∷ stack)

unfoldable pub pop : ℕ → List ℕ → Option (List ℕ)
pop close_byte [] = none
pop close_byte (o ∷ stack) =
    if (if o == b'[' then b']' else b'}') == close_byte then some stack else none

-- The brackets that the loop of `scanContainer` keeps track of, at a byte that is no quote.
unfoldable pub next_stack : ℕ → List ℕ → Option (List ℕ)
unfolding push pop
next_stack c stack =
    if c == b'{' || c == b'['
    then push c stack
    else if c == b'}' || c == b']'
    then pop c stack
    else some stack

-- The loop of `scanContainer`, while `depth > 0`; `skip` as above, for the strings inside.
unfoldable pub container_loop : Bytes → ℕ → List ℕ → Option Bytes
unfolding string_loop next_stack
container_loop [] skip [] = some []
container_loop [] skip (o ∷ stack) = none
container_loop (c ∷ r) (suc skip) stack = container_loop r skip stack
container_loop (c ∷ r) zero [] = some (c ∷ r)
container_loop (c ∷ r) zero (o ∷ stack) =
    if c == b'"'
    then elim (scan_string_body r) [
      | none ↦ none
      | some q ↦ container_loop r (length r - length q + 1) (o ∷ stack)
    ]
    else elim (next_stack c (o ∷ stack)) [ none ↦ none | some st ↦ container_loop r 0 st ]

unfoldable pub scan_container : Bytes → Option Bytes
unfolding container_loop
scan_container [] = none
scan_container (c ∷ r) = push c [] >>= container_loop r 0

pub data ValueKind : Type 0 where
  kind_unknown kind_string kind_number kind_object : ValueKind
  kind_array kind_true kind_false kind_null : ValueKind

-- The text after the literal `word`, if the text starts with it.
unfoldable pub scan_literal : Bytes → Bytes → Option Bytes
scan_literal [] s = some s
scan_literal (w ∷ ws) [] = none
scan_literal (w ∷ ws) (c ∷ r) = if c == w then scan_literal ws r else none

abbrev as_kind : ValueKind → Option Bytes → Option (Bytes × ValueKind)
as_kind k none = none
as_kind k (some s) = some (s, k)

-- The text after the closing quote.
unfoldable pub after_quote : Bytes → Bytes
after_quote [] = []
after_quote (c ∷ r) = r

unfoldable pub scan_value : Bytes → Option (Bytes × ValueKind)
scan_value [] = none
scan_value (c ∷ r) =
    if c == b'"'
    then as_kind kind_string (scan_string_body r >>= λ q. some (after_quote q))
    else if c == b'{' || c == b'['
    then as_kind (if c == b'[' then kind_array else kind_object) (scan_container (c ∷ r))
    else if c == b't'
    then as_kind kind_true (scan_literal (codes "true") (c ∷ r))
    else if c == b'f'
    then as_kind kind_false (scan_literal (codes "false") (c ∷ r))
    else if c == b'n'
    then as_kind kind_null (scan_literal (codes "null") (c ∷ r))
    else as_kind kind_number (scan_number (c ∷ r))
