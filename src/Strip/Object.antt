-- ===== src/Strip/Object.antt =====
-- A body that is a JSON object as the scanner reads it, with its top-level members.
use metrics_agent.Prelude.{◌≡◌, List, [], ◌∷◌, ◌++◌, Bytes}
use metrics_agent.Scan.Spaces.{Spaces}
use metrics_agent.Strip.Layout.{Piece, text}
use metrics_agent.Strip.Walk.{behind, Pieces}
use metrics_agent.Strip.Survivors.{Entry, entries}

-- The text from the first member to the end of the body.
abbrev pub inside : List Piece → Bytes → Bytes
inside [] tail = b'}' ∷ tail
inside (p ∷ ps) tail = text p (behind ps tail)

pub record IsObject (b : Bytes) (es : List Entry) : Type 0 where
  pub front : Bytes
  pub gap : Bytes
  pub pieces : List Piece
  pub tail : Bytes
  pub front_spaces : Spaces front
  pub gap_spaces : Spaces gap
  pub are_pieces : Pieces pieces
  pub splits : b ≡ front ++ b'{' ∷ (gap ++ inside pieces tail)
  pub entries_are : entries pieces ≡ es
