-- ===== src/Strip/Tests.antt =====
-- Runs of the scanner on concrete datagrams.
use metrics_agent.Prelude.{
  Bytes, [], ◌∷◌, ◌++◌, ◌≢◌, length, ◌≡◌, refl, none, true, false, codes, equal, contains, until,
}
use metrics_agent.Strip.Layout.{Piece, IsPiece}
use metrics_agent.Strip.Survivors.{entries}
use metrics_agent.Strip.Object.{IsObject}
use metrics_agent.Strip.Extracted.{Extracted}
use metrics_agent.Strip.Extract.{extract-Extracted}
use metrics_agent.Strip.Safety.{Outcome, Clean, extract-Outcome, extract_again, walk-fuel}
use metrics_agent.Scan.{
  kind_string, scan_value, scan_container, scan_literal, scan_number, container_loop, string_loop,
  is_json_space, scan_ws, after_quote,
}
use metrics_agent.Strip.{
  Codec, walk_start, out_of_fuel, RoutingFields, extract_and_strip_fields, walk, note,
  strip_members, strip_object, scan_member, separator, expect, unquote_json_string, has_byte,
  unsnoc, routing_value, span_of, strip_result, splice, cuts_of, cut_of, cut_start, cut_end,
  past_comma,
}

-- A codec for texts with no escapes.
abbrev pub plain : Codec
plain = record { utf8_valid = λ s. true; unmarshal_string = λ s. none }

run_strip : RoutingFields
run_strip =
    extract_and_strip_fields plain true
      (codes "{ \"_project\":\"acme\", \"_token\" : \"t0\" , \"a\":[1,{\"b\":\"]\"}]}")

strip_both : run_strip ≡ record {
  project = codes "acme";
  token = codes "t0";
  stripped = codes "{   \"a\":[1,{\"b\":\"]\"}]}";
  removed = true;
  malformed = false;
  bad_project = false;
  bad_token = false;
}
unfolding run_strip extract_and_strip_fields walk note strip_members strip_object scan_member
    separator expect unquote_json_string has_byte unsnoc routing_value span_of strip_result splice
    cuts_of cut_of cut_start cut_end past_comma scan_value scan_container scan_literal scan_number
    container_loop string_loop is_json_space scan_ws after_quote equal contains until
strip_both = refl

-- An object with a token and another member.
abbrev body : Bytes
body = codes "{\"_token\":\"t0\",\"a\":\"x\"}"

abbrev first : Piece
first = record {
  lead = [];
  key = codes "_token";
  before = [];
  after = [];
  value = codes "\"t0\"";
  trail = [];
  kind = kind_string;
}

abbrev pub second : Piece
second = record {
  lead = [];
  key = codes "a";
  before = [];
  after = [];
  value = codes "\"x\"";
  trail = [];
  kind = kind_string;
}

first-IsPiece : IsPiece first
unfolding string_loop scan_value is_json_space after_quote
first-IsPiece = record {
  lead_spaces = tt;
  key_scans = λ r. refl;
  before_spaces = tt;
  after_spaces = tt;
  value_starts = refl;
  value_ne_nil = λ e. cc;
  value_scans = λ r h. refl;
  trail_spaces = tt;
}

pub second-IsPiece : IsPiece second
unfolding string_loop scan_value is_json_space after_quote
second-IsPiece = record {
  lead_spaces = tt;
  key_scans = λ r. refl;
  before_spaces = tt;
  after_spaces = tt;
  value_starts = refl;
  value_ne_nil = λ e. cc;
  value_scans = λ r h. refl;
  trail_spaces = tt;
}

body-IsObject : IsObject body (entries (first ∷ second ∷ []))
body-IsObject = record {
  front = [];
  gap = [];
  pieces = first ∷ second ∷ [];
  tail = [];
  front_spaces = tt;
  gap_spaces = tt;
  are_pieces = (first-IsPiece, (second-IsPiece, tt));
  splits = refl;
  entries_are = refl;
}

body_removed : (extract_and_strip_fields plain true body).removed ≡ true
unfolding extract_and_strip_fields walk note strip_members strip_object scan_member separator expect
    unquote_json_string has_byte unsnoc routing_value span_of strip_result splice cuts_of cut_of
    cut_start cut_end past_comma scan_value scan_container scan_literal scan_number container_loop
    string_loop is_json_space scan_ws after_quote equal contains until
body_removed = refl

extract-Extracted_example :
    Extracted plain true body
      (entries (first ∷ second ∷ []))
      (extract_and_strip_fields plain true body)
extract-Extracted_example =
    extract-Extracted plain true body (entries (first ∷ second ∷ [])) body-IsObject

extract_again_example : Clean plain true (extract_and_strip_fields plain true body).stripped
extract_again_example = extract_again plain true body body_removed

extract-Outcome_example : Outcome body (extract_and_strip_fields plain true body)
extract-Outcome_example = extract-Outcome plain true body

walk-fuel_example :
    walk plain true
      ([] ++ body)
      (length ([] ++ body))
      (codes "\"_token\":\"t0\",\"a\":\"x\"}")
      walk_start
    ≢ out_of_fuel
walk-fuel_example = walk-fuel plain true [] (codes "\"_token\":\"t0\",\"a\":\"x\"}")
