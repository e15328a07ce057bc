-- ===== src/Registry/Stripped.antt =====
-- What is left of the body of a datagram on the shared queue.
use metrics_agent.Prelude.{
  ℕ, ◌≡◌, inl, inr, refl, sym, ap, ◌∙◌, subst, Bool, true, false, List, [], ◌∷◌, ◌++◌, Option, none,
  some, Bool-cases,
}
use metrics_agent.Data.{RawDatagram, Config}
use metrics_agent.Strip.{Codec, RoutingFields, extract_and_strip_routing}
use metrics_agent.Strip.{is_project_key, is_token_key}
use metrics_agent.Strip.Survivors.{
  Entry, has_routing, without_routing, without_routing-id, has_routing-without_routing,
}
use metrics_agent.Strip.Notes.{found}
use metrics_agent.Strip.Object.{IsObject}
use metrics_agent.Strip.Extracted.{Extracted}
use metrics_agent.Strip.Extract.{extract-Extracted}
use metrics_agent.Registry.{Registry, dispatch}
use metrics_agent.Registry.Queued.{body_left, token_brought, delivered-Joined}

-- The last datagram of a queue.
abbrev pub last_of : List RawDatagram → Option RawDatagram
last_of [] = none
last_of (d ∷ []) = some d
last_of (d ∷ e ∷ ds) = last_of (e ∷ ds)

last_of-snoc : (ds : List RawDatagram) (d : RawDatagram) → last_of (ds ++ d ∷ []) ≡ some d
last_of-snoc [] d = refl
last_of-snoc (c ∷ []) d = refl
last_of-snoc (c ∷ e ∷ ds) d = last_of-snoc (e ∷ ds) d

-- The datagram that a body with these members becomes.
pub record Stripped (codec : Codec) (es : List Entry) (dg : RawDatagram) (cfg : Config)
    (o : Option RawDatagram) : Type 0 where
  pub datagram : RawDatagram
  pub is_last : o ≡ some datagram
  -- All other members, byte for byte and in order, and no routing member.
  pub object : IsObject datagram.bytes (without_routing true es)
  pub no_routing : has_routing true (without_routing true es) ≡ false
  pub project_is : datagram.project ≡ found codec is_project_key es
  pub token_is : cfg.inline_tokens ≡ true → datagram.token ≡ found codec (is_token_key true) es

body_left-IsObject :
    (codec : Codec) (dg : RawDatagram) (es : List Entry) (f : RoutingFields)
    → IsObject dg.bytes es
    → Extracted codec true dg.bytes es f
    → IsObject (body_left f dg) (without_routing true es)
body_left-IsObject codec dg es f o x = elim (Bool-cases f.removed) [
  | inl h ↦ rw h x.object
  | inr h ↦
      rw h (subst (IsObject dg.bytes) (sym (without_routing-id true es (sym x.removed_is ∙ h))) o)
]

token_found :
    (codec : Codec) (dg : RawDatagram) (es : List Entry) (f : RoutingFields) (b : Bool)
    → Extracted codec true dg.bytes es f
    → b ≡ true
    → token_brought b f dg ≡ found codec (is_token_key true) es
token_found codec dg es f true x h = x.token_is
token_found codec dg es f false x h = cc

-- A datagram that `dispatch` has put on the queue, and whose body was an object, is there with
-- exactly the members whose keys are not spelt `_project` or `_token`; it goes to the project of
-- its last `_project`, and brings the value of its last `_token` where tokens are honoured.
pub dispatch-Stripped :
    (codec : Codec) (now : ℕ) (dg : RawDatagram) (r : Registry) (es : List Entry)
    → IsObject dg.bytes es
    → (dispatch codec now dg r).delivered ≡ true
    → Stripped codec es dg r.cfg (last_of (dispatch codec now dg r).after.shared_raw_ch)
unfolding dispatch extract_and_strip_routing
dispatch-Stripped codec now dg r es o h =
    let f = extract_and_strip_routing codec dg.bytes in
    let x = extract-Extracted codec true dg.bytes es o in
    record {
      datagram = record {
        bytes = body_left f dg;
        at = dg.at;
        project = f.project;
        token = token_brought r.cfg.inline_tokens f dg;
      };
      is_last = ap last_of (delivered-Joined now f dg r h) ∙ last_of-snoc r.shared_raw_ch _;
      object = body_left-IsObject codec dg es f o x;
      no_routing = has_routing-without_routing true es;
      project_is = x.project_is;
      token_is = token_found codec dg es f r.cfg.inline_tokens x;
    }
