-- ===== src/Batcher/Groups.antt =====
-- `run` as a grouping of its datagrams: which datagrams make up each batch, and what the batch has
-- of them.
use metrics_agent.Prelude.{
  ℕ, ◌+◌, ◌&&◌, ltb, leb, length, if_both, ◌≡◌, refl, sym, ap, ◌∙◌, subst, Bool, true, false, not,
  List, [], ◌∷◌, ◌++◌, append-nil, append_assoc, Option, none, some, Bytes, inl, inr, Bool-cases,
  if◌then◌else◌,
}
use metrics_agent.Data.{RawDatagram, EventBatch, max_batch_bytes}
use metrics_agent.Events.{
  Runtime, validate_event, ValidateReason, validate_ok, validate_oversize, validate_parse_error,
}
use metrics_agent.Batcher.{
  Batching, is_nil, Input, datagram, window_end, flush, append_event, count_received, make_room,
  flush_full, accept, receive,
}

-- A datagram with the event that its body becomes.
abbrev pub Member : Type 0
Member = RawDatagram × Bytes

abbrev pub events : List Member → List Bytes
events [] = []
events ((dg, ev) ∷ ms) = ev ∷ events ms

-- The last token that one of them brings, or else the token before them.
abbrev pub last_token : Bytes → List Member → Bytes
last_token token [] = token
last_token token ((dg, ev) ∷ ms) = last_token (if is_nil dg.token then token else dg.token) ms

-- The time of the first of them.
abbrev pub first_at : List Member → ℕ
first_at [] = 0
first_at ((dg, ev) ∷ ms) = dg.at

-- The batch of some datagrams.
abbrev pub batch_for : List Member → EventBatch
batch_for ms = record { events = events ms; started_at = first_at ms; token = last_token [] ms }

-- A batch that was sent, or dropped when its send was interrupted.
pub record Group : Type 0 where
  pub members : List Member
  pub sent : Bool

abbrev pub sent_batches : List Group → List EventBatch
sent_batches [] = []
sent_batches (g ∷ gs) =
    let rest = sent_batches gs in if g.sent then batch_for g.members ∷ rest else rest

abbrev pub all_members : List Group → List Member
all_members [] = []
all_members (g ∷ gs) = g.members ++ all_members gs

-- The datagrams with a valid event.
abbrev pub valid_of : RawDatagram → Option (Bytes × ValidateReason) → List Member
valid_of dg none = []
valid_of dg (some (ev, validate_ok)) = (dg, ev) ∷ []
valid_of dg (some (ev, validate_oversize)) = []
valid_of dg (some (ev, validate_parse_error)) = []

abbrev pub valid_in : {D : Type 0} → Runtime D → ℕ → List Input → List Member
valid_in rt limit [] = []
valid_in rt limit (datagram a b dg ∷ is) =
    valid_of dg (validate_event rt dg.bytes limit) ++ valid_in rt limit is
valid_in rt limit (window_end sent ∷ is) = valid_in rt limit is

events-snoc :
    (ms : List Member) (dg : RawDatagram) (ev : Bytes)
    → events (ms ++ (dg, ev) ∷ []) ≡ events ms ++ ev ∷ []
events-snoc [] dg ev = refl
events-snoc (m ∷ ms) dg ev = ap (◌∷◌ m.1) (events-snoc ms dg ev)

last_token-snoc :
    (token : Bytes) (ms : List Member) (dg : RawDatagram) (ev : Bytes)
    → last_token token (ms ++ (dg, ev) ∷ [])
      ≡ (if not (is_nil dg.token) then dg.token else last_token token ms)
last_token-snoc token [] dg ev = elim (Bool-cases (is_nil dg.token)) [
  | inl e ↦ rw e refl
  | inr e ↦ rw e refl
]
last_token-snoc token (m ∷ ms) dg ev =
    last_token-snoc (if is_nil m.0.token then token else m.0.token) ms dg ev

first_at-snoc :
    (ms : List Member) (dg : RawDatagram) (ev : Bytes)
    → first_at (ms ++ (dg, ev) ∷ []) ≡ (if is_nil (events ms) then dg.at else first_at ms)
first_at-snoc [] dg ev = refl
first_at-snoc (m ∷ ms) dg ev = refl

all_members-snoc :
    (gs : List Group) (g : Group) → all_members (gs ++ g ∷ []) ≡ all_members gs ++ g.members
all_members-snoc [] g = append-nil g.members
all_members-snoc (x ∷ gs) g =
    ap (λ y. x.members ++ y) (all_members-snoc gs g)
    ∙ sym (append_assoc x.members (all_members gs) g.members)

sent_batches-sent :
    (gs : List Group) (ms : List Member)
    → sent_batches (gs ++ record { members = ms; sent = true } ∷ [])
      ≡ sent_batches gs ++ batch_for ms ∷ []
sent_batches-sent [] ms = refl
sent_batches-sent (x ∷ gs) ms = elim (Bool-cases x.sent) [
  | inl e ↦ rw e (ap (◌∷◌ (batch_for x.members)) (sent_batches-sent gs ms))
  | inr e ↦ rw e (sent_batches-sent gs ms)
]

sent_batches-lost :
    (gs : List Group) (ms : List Member)
    → sent_batches (gs ++ record { members = ms; sent = false } ∷ []) ≡ sent_batches gs
sent_batches-lost [] ms = refl
sent_batches-lost (x ∷ gs) ms = elim (Bool-cases x.sent) [
  | inl e ↦ rw e (ap (◌∷◌ (batch_for x.members)) (sent_batches-lost gs ms))
  | inr e ↦ rw e (sent_batches-lost gs ms)
]

-- The state of the batcher after the datagrams `past`, in groups and those in flight.
pub record Grouped (out : List EventBatch) (cur : List Bytes) (token : Bytes) (seen : ℕ)
    (past : List Member) : Type 0 where
  pub groups : List Group
  pub flying : List Member
  pub out_is : out ≡ sent_batches groups
  pub cur_is : cur ≡ events flying
  pub token_is : token ≡ last_token [] flying
  pub seen_is : seen ≡ first_at flying
  pub past_is : all_members groups ++ flying ≡ past

abbrev pub After : Batching → List Member → Type 0
After w past = Grouped w.out w.batcher.cur w.batcher.cur_token w.batcher.first_seen past

batch-eq :
    {a b : List Bytes} {m n : ℕ} {s t : Bytes}
    → a ≡ b
    → m ≡ n
    → s ≡ t
    → ◌≡◌ {A = EventBatch}
        (record { events = a; started_at = m; token = s })
        (record { events = b; started_at = n; token = t })
batch-eq p q h = cc

pub flush-After :
    (sent : Bool) (w : Batching) (past : List Member) → After w past → After (flush sent w) past
unfolding flush
flush-After sent w past g = elim (Bool-cases (is_nil w.batcher.cur)) [
  | inl empty ↦ rw empty g
  | inr full ↦
      let moved : (s : Bool)
          → all_members (g.groups ++ record { members = g.flying; sent = s } ∷ []) ++ [] ≡ past =
        λ s.
          append-nil (all_members (g.groups ++ record { members = g.flying; sent = s } ∷ []))
          ∙ all_members-snoc g.groups (record { members = g.flying; sent = s })
          ∙ g.past_is in
      elim (Bool-cases sent) [
        | inl went ↦
            rw (full, went)
              (record {
                groups = g.groups ++ record { members = g.flying; sent = true } ∷ [];
                flying = [];
                out_is =
                    ap (λ x. w.out ++ x ∷ []) (batch-eq g.cur_is g.seen_is g.token_is)
                    ∙ ap (λ x. x ++ batch_for g.flying ∷ []) g.out_is
                    ∙ sym (sent_batches-sent g.groups g.flying);
                cur_is = refl;
                token_is = refl;
                seen_is = refl;
                past_is = moved true;
              })
        | inr lost ↦
            rw (full, lost)
              (record {
                groups = g.groups ++ record { members = g.flying; sent = false } ∷ [];
                flying = [];
                out_is = g.out_is ∙ sym (sent_batches-lost g.groups g.flying);
                cur_is = refl;
                token_is = refl;
                seen_is = refl;
                past_is = moved false;
              })
      ]
]

append_event-After :
    (dg : RawDatagram) (ev : Bytes) (w : Batching) (past : List Member)
    → After w past
    → After (append_event dg ev w) (past ++ (dg, ev) ∷ [])
unfolding append_event
append_event-After dg ev w past g = record {
  groups = g.groups;
  flying = g.flying ++ (dg, ev) ∷ [];
  out_is = g.out_is;
  cur_is = ap (λ x. x ++ ev ∷ []) g.cur_is ∙ sym (events-snoc g.flying dg ev);
  token_is =
      ap (λ x. if not (is_nil dg.token) then dg.token else x) g.token_is
      ∙ sym (last_token-snoc [] g.flying dg ev);
  seen_is =
      ap (λ x. if is_nil w.batcher.cur then dg.at else x) g.seen_is
      ∙ ap (λ x. if is_nil x then dg.at else first_at g.flying) g.cur_is
      ∙ sym (first_at-snoc g.flying dg ev);
  past_is =
      sym (append_assoc (all_members g.groups) g.flying ((dg, ev) ∷ []))
      ∙ ap (λ x. x ++ (dg, ev) ∷ []) g.past_is;
}

make_room-After :
    (sent : Bool) (ev : Bytes) (w : Batching) (past : List Member)
    → After w past
    → After (make_room sent ev w) past
unfolding make_room
make_room-After sent ev w past g =
    if_both (λ (x : Batching). After x past)
      (ltb 0 (length w.batcher.cur) && ltb max_batch_bytes (w.batcher.cur_bytes + length ev + 1))
      (flush-After sent w past g) g

flush_full-After :
    (sent : Bool) (w : Batching) (past : List Member)
    → After w past
    → After (flush_full sent w) past
unfolding flush_full
flush_full-After sent w past g =
    if_both (λ (x : Batching). After x past) (leb w.batcher.max_events (length w.batcher.cur))
      (flush-After sent w past g) g

pub receive-After :
    (a b : Bool) (dg : RawDatagram) (r : Bytes × ValidateReason) (w : Batching) (past : List Member)
    → After w past
    → After (receive a b dg r w) (past ++ valid_of dg (some r))
unfolding receive accept
receive-After a b dg (ev, validate_ok) w past g =
    flush_full-After b (append_event dg ev (make_room a ev (count_received w)))
      (past ++ (dg, ev) ∷ [])
      (append_event-After dg ev (make_room a ev (count_received w)) past
        (make_room-After a ev (count_received w) past g))
receive-After a b dg (ev, validate_oversize) w past g = subst (After w) (sym (append-nil past)) g
receive-After a b dg (ev, validate_parse_error) w past g = subst (After w) (sym (append-nil past)) g
