-- ===== src/Relay/Hub.antt =====
-- The state of packages/relay/src/hub.ts and its socket operations. A `Connection` object outlives
-- its entry in the `connections` map, since a handler closes over it: `objects` holds every one, in
-- the order of arrival, and `listed` says that the map has it. What goes out is kept in `outbox`,
-- oldest first. The log, the envelope's id and time, and timers that only call back are left out.
pub mod Route
pub mod Session
pub mod Service
pub mod Served
pub mod Asking
pub mod Objects
pub mod Roles
pub mod Exclusive
pub mod Events
pub mod Authority
pub mod Correlation
pub mod Pairing
use dumbwaystodie.Prelude.{
  ℕ, ◌+◌, ◌-◌, Bool, true, false, not, ◌&&◌, ◌||◌, Option, none, some, List, [], ◌∷◌, ◌++◌, map,
  Text, lit, keep, find, any, if◌then◌else◌, ltb, ◌==◌, list_eq, nat_eq, Eq, Map, is_some, ◌≡◌, ◌↔◌,
  arith,
}
use dumbwaystodie.Protocol.Wire.{
  AdapterKind, editor, provider, browser, mcp, RejectReason, WireMessage, adapter_registry,
  adapter_rejected, AttachmentRef,
}

abbrev pub kind_beq : AdapterKind → AdapterKind → Bool
kind_beq editor editor = true
kind_beq provider provider = true
kind_beq browser browser = true
kind_beq mcp mcp = true
kind_beq _ _ = false

pub kind_beq_iff : (a b : AdapterKind) → (kind_beq a b ≡ true) ↔ (a ≡ b)
kind_beq_iff editor _ = ground arith
kind_beq_iff provider _ = ground arith
kind_beq_iff browser _ = ground arith
kind_beq_iff mcp _ = ground arith

instance abbrev pub kind_eq : Eq AdapterKind
kind_eq = record { beq = kind_beq; beq_iff = kind_beq_iff }

pub record Connection : Type 0 where
  pub id : Text
  pub kind : Option AdapterKind
  pub adapter_id : Option Text
  pub authenticated : Bool
  pub last_seen_at : ℕ
  pub handshake_timer : Bool
  pub listed : Bool
  -- `socket.readyState === socket.OPEN`
  pub is_open : Bool

pub record PendingRequest : Type 0 where
  pub request_id : Text
  pub session_id : Text
  pub started_at : ℕ

pub data Effect : Type 0 where
  -- A message, with its session, to the socket of a connection.
  sent : (to session : Text) → WireMessage → Effect
  closed : (id : Text) → (code : ℕ) → Effect
  terminated : (id : Text) → Effect
  pinged : (id : Text) → Effect
  -- The promise of `ask` for a request is resolved, or rejected.
  answered : (request_id text : Text) → Effect
  refused : (request_id error : Text) → Effect

pub record Hub : Type 0 where
  pub token : Text
  pub objects : List Connection
  pub pending : Map Text PendingRequest
  pub media : Map Text AttachmentRef
  -- The requests that an HTTP caller waits for.
  pub answers : Map Text (Unit {0})
  pub tool_callers : Map Text Text
  pub tools : Option WireMessage
  pub pairing_open_until : ℕ
  pub outbox : List Effect

abbrev pub emit : Effect → Hub → Hub
emit e h = record h { outbox = h.outbox ++ e ∷ [] }

-- An assignment to fields of the object with this id.
unfoldable pub modify : Text → (Connection → Connection) → List Connection → List Connection
modify id f [] = []
modify id f (c ∷ cs) = if c.id == id then f c ∷ cs else c ∷ modify id f cs

abbrev pub update : Text → (Connection → Connection) → Hub → Hub
update id f h = record h { objects = modify id f h.objects }

unfoldable pub object : Text → Hub → Option Connection
object id h = find (λ c. c.id == id) h.objects

-- `this.connections.get(id)`
pub listed_object : Text → Hub → Option Connection
listed_object id h = find (λ c. c.listed && c.id == id) h.objects

abbrev pub is_kind : AdapterKind → Option AdapterKind → Bool
is_kind k none = false
is_kind k (some k') = kind_beq k' k

abbrev pub serves : AdapterKind → Connection → Bool
serves k c = c.listed && c.authenticated && is_kind k c.kind

unfoldable pub find_by_kind : AdapterKind → Hub → Option Connection
find_by_kind k h = find (serves k) h.objects

abbrev pub has_kind : AdapterKind → Hub → Bool
has_kind k h = is_some (find_by_kind k h)

-- `this.findByKind("browser") ?? this.findByKind("provider")`
unfoldable pub provider_connection : Hub → Option Connection
provider_connection h = elim (find_by_kind browser h) [
  | some c ↦ some c
  | none ↦ find_by_kind provider h
]

-- `send` and `forward`: nothing is written to a socket that is not open.
unfoldable pub send : Text → Text → WireMessage → Hub → Hub
send id session message h = elim (object id h) [
  | none ↦ h
  | some c ↦ if c.is_open then emit (sent id session message) h else h
]

-- The loop of `broadcastRegistry`, over the ids in the map's order.
unfoldable pub send_all : List Text → WireMessage → Hub → Hub
send_all [] message h = h
send_all (id ∷ ids) message h = send_all ids message (send id (lit "relay") message h)

abbrev pub ids_where : (Connection → Bool) → List Connection → List Text
ids_where p cs = map (λ (c : Connection). c.id) (keep p cs)

unfoldable pub broadcast_registry : Hub → Hub
broadcast_registry h =
    send_all (ids_where (λ c. c.listed && c.authenticated) h.objects)
      (adapter_registry (has_kind editor h) (has_kind provider h || has_kind browser h)
        (has_kind browser h))
      h

pub drop_connection : Text → Hub → Hub
drop_connection id h = elim (object id h) [
  | none ↦ h
  | some c ↦
      if c.listed
      then (let h' = update id (λ c. record c { handshake_timer = false; listed = false }) h in
          if is_some c.kind then broadcast_registry h' else h')
      else update id (λ c. record c { handshake_timer = false }) h
]

pub reject : Text → RejectReason → Text → Hub → Hub
reject id reason message h =
    let told = send id (lit "relay") (adapter_rejected reason message) h in
    let shut = update id (λ c. record c { is_open = false }) (emit (closed id 1008) told) in
    drop_connection id shut
