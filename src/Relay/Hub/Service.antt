-- ===== src/Relay/Hub/Service.antt =====
-- The hub's calls from its HTTP server in hub.ts: a socket that arrives, `/health`, media by id, and
-- the end of the relay. `request.socket.remoteAddress` is a text, empty where node has none.
use dumbwaystodie.Prelude.{
  ℕ, Bool, false, ◌||◌, Option, none, some, List, [], ◌∷◌, ◌++◌, map, Text, lit, take, keep,
  if◌then◌else◌, length, lookup, ◌==◌, nat_eq, list_eq, refl, Bool-cases, inl, inr,
}
use dumbwaystodie.Protocol.Wire.{editor, provider, browser, AttachmentRef}
use dumbwaystodie.Relay.Hub.{Hub, Connection, closed, has_kind, ids_where}
use dumbwaystodie.Relay.Hub.Objects.{Fades}
use dumbwaystodie.Relay.Hub.Session.{accept}

abbrev starts_with : Text → Text → Bool
starts_with prefix t = take (length prefix) t == prefix

unfoldable pub is_loopback : Text → Bool
is_loopback address =
    address == lit "127.0.0.1"
    || address == lit "::1"
    || address == lit "::ffff:127.0.0.1"
    || starts_with (lit "127.") address

-- The handler of the server's `connection` event, with the id that `accept` creates: the hub, and
-- the code that the socket is closed with if it is refused.
unfoldable pub on_connection : Text → Text → ℕ → Hub → Option ℕ × Hub
unfolding is_loopback
on_connection remote id now h =
    if is_loopback remote then (none, accept id now h) else (some 1008, h)

pub record Snapshot : Type 0 where
  pub has_editor : Bool
  pub has_provider : Bool
  pub has_browser : Bool
  pub connections : ℕ
  pub pending : ℕ
  pub media : ℕ

unfoldable pub snapshot : Hub → Snapshot
snapshot h = record {
  has_editor = has_kind editor h;
  has_provider = has_kind provider h || has_kind browser h;
  has_browser = has_kind browser h;
  connections = length (keep (λ (c : Connection). c.listed) h.objects);
  pending = length h.pending;
  media = length h.media;
}

unfoldable pub lookup_media : Text → Hub → Option AttachmentRef
lookup_media id h = lookup id h.media

-- What `close` does to the object of a listed connection.
abbrev end : Connection → Connection
end c = record c { handshake_timer = false; listed = false; is_open = false }

pub end_all : List Connection → List Connection
end_all [] = []
end_all (c ∷ cs) = (if c.listed then end c else c) ∷ end_all cs

unfoldable pub close : Hub → Hub
unfolding end_all
close h = record h {
  outbox = h.outbox ++ map (λ id. closed id 1001) (ids_where (λ c. c.listed) h.objects);
  objects = end_all h.objects;
  pending = [];
}

pub Fades-end_all : (cs : List Connection) → Fades cs (end_all cs)
unfolding end_all
Fades-end_all [] = tt
Fades-end_all (c ∷ cs) = elim (Bool-cases c.listed) [
  | inl l ↦ rw l (refl, λ k s. cc, Fades-end_all cs)
  | inr l ↦ rw l (refl, λ k s. s, Fades-end_all cs)
]
