-- ===== src/Relay/Hub/Session.antt =====
-- The life of a connection in hub.ts: acceptance, the handshake, incoming frames, the heartbeat, and
-- the calls from the HTTP side (`ask`, pairing). `hmac` is that of Relay.Auth.
use dumbwaystodie.Prelude.{
  ℕ, ◌-◌, Bool, true, false, not, ◌&&◌, Option, none, some, List, [], ◌∷◌, ◌++◌, Text, lit, decimal,
  keep, if◌then◌else◌, ltb, insert, has, ◌==◌, nat_eq, list_eq,
}
use dumbwaystodie.Protocol.Wire.{
  AdapterKind, editor, browser, mcp, AdapterHello, RejectReason, bad_token, bad_version, malformed,
  timeout, WireMessage, adapter_hello, adapter_welcome, coach_request, CoachRequest,
  protocol_version, no_capabilities,
}
use dumbwaystodie.Relay.Auth.{may_connect_as, derive_grant}
use dumbwaystodie.Relay.Hub.{
  Hub, Connection, closed, terminated, pinged, refused, emit, update, object, find_by_kind,
  provider_connection, send, broadcast_registry, drop_connection, reject, kind_eq,
}
use dumbwaystodie.Relay.Hub.Route.{route, settle}

pub data HelloResult : Type 0 where
  good : AdapterHello → HelloResult
  bad : RejectReason → Text → HelloResult

abbrev or_empty : Option (List Text) → List Text
or_empty none = []
or_empty (some l) = l

abbrev is_empty : Option Text → Bool
is_empty none = true
is_empty (some []) = true
is_empty (some (c ∷ t)) = false

abbrev or_blank : Option Text → Text
or_blank none = []
or_blank (some t) = t

-- `parseAdapterHello` of packages/protocol/src/wire.ts.
unfoldable pub parse_adapter_hello : WireMessage → HelloResult
parse_adapter_hello (adapter_hello raw) = elim raw.adapter_kind [
  | none ↦ bad malformed (lit "Unknown adapterKind.")
  | some kind ↦
      if is_empty raw.adapter_id
      then bad malformed (lit "adapterId must be a non-empty string.")
      else if is_empty raw.token
      then bad bad_token (lit "Missing token.")
      else good (record {
        adapter_kind = kind;
        adapter_id = or_blank raw.adapter_id;
        protocol_version = raw.protocol_version;
        token = or_blank raw.token;
        host = raw.host;
        capabilities = or_empty raw.capabilities;
      })
]
parse_adapter_hello other = bad malformed (lit "Expected adapter.hello.")

-- What a socket delivers, after `JSON.parse`, `parseEnvelope` and `parseWireMessage`.
pub data Frame : Type 0 where
  not_json bad_envelope unknown_type : Frame
  payload : WireMessage → Frame

abbrev pub speaks : Option ℕ → Bool
speaks none = false
speaks (some version) = version == protocol_version

-- `hello.protocolVersion` is -1 where none is given.
abbrev version_text : Option ℕ → Text
version_text none = lit "-1"
version_text (some version) = decimal version

abbrev version_refused : Option ℕ → Text
version_refused version =
    lit "Unsupported protocol version "
    ++ version_text version
    ++ lit "; this relay speaks "
    ++ decimal protocol_version
    ++ lit "."

abbrev peers_of : List Connection → List AdapterKind
peers_of [] = []
peers_of (c ∷ cs) = elim c.kind [
  | none ↦ peers_of cs
  | some k ↦ if c.listed && c.authenticated then k ∷ peers_of cs else peers_of cs
]

abbrev pub fresh_connection : Text → ℕ → Connection
fresh_connection id now = record {
  id = id;
  kind = none;
  adapter_id = none;
  authenticated = false;
  last_seen_at = now;
  handshake_timer = true;
  listed = true;
  is_open = true;
}

unfoldable pub accept : Text → ℕ → Hub → Hub
accept id now h = record h { objects = h.objects ++ fresh_connection id now ∷ [] }

-- The connection that a newcomer of this kind displaces; agents displace nobody.
unfoldable pub displaced_by : AdapterKind → Hub → Option Connection
displaced_by mcp h = none
displaced_by kind h = find_by_kind kind h

unfoldable pub displace : Option Connection → Hub → Hub
displace none h = h
displace (some existing) h =
    update existing.id (λ c. record c { listed = false; is_open = false })
      (emit (closed existing.id 1000) h)

-- The connection is marked as authenticated, and told so.
unfoldable pub welcome : Text → AdapterHello → Hub → Hub
welcome id hello h =
    let h' =
      update id
        (λ c. record c {
          authenticated = true;
          kind = some hello.adapter_kind;
          adapter_id = some hello.adapter_id;
          handshake_timer = false;
        })
        h in
    send id (lit "relay") (adapter_welcome id protocol_version (peers_of h'.objects)) h'

-- An adapter that joins after the editor is sent the editor's tools.
unfoldable pub replay_tools : Text → AdapterKind → Hub → Hub
replay_tools id kind h = elim h.tools [
  | none ↦ h
  | some message ↦ if kind == editor then h else send id (lit "relay") message h
]

module _ (hmac : Text → Text → Text) where
  unfoldable pub authenticate : Text → WireMessage → Hub → Hub
  authenticate id message h = elim (parse_adapter_hello message) [
    | bad reason text ↦ reject id reason text h
    | good hello ↦
        if not (speaks hello.protocol_version)
        then reject id bad_version (version_refused hello.protocol_version) h
        else if not (may_connect_as hmac h.token hello.token hello.adapter_kind)
        then reject id bad_token (lit "Token rejected.") h
        else broadcast_registry (
            replay_tools id hello.adapter_kind
              (welcome id hello (displace (displaced_by hello.adapter_kind h) h)))
  ]

  unfoldable pub handle : ℕ → Connection → Frame → Hub → Hub
  handle now c not_json h = h
  handle now c bad_envelope h =
      if c.authenticated then h else reject c.id bad_version (lit "Envelope rejected.") h
  handle now c unknown_type h = h
  handle now c (payload message) h =
      if c.authenticated then route now c message h else authenticate c.id message h

  -- The handler of a socket's `message` event.
  unfoldable pub on_message : ℕ → Text → Frame → Hub → Hub
  on_message now id frame h =
      let h' = update id (λ c. record c { last_seen_at = now }) h in
      elim (object id h') [ none ↦ h' | some c ↦ handle now c frame h' ]

  -- `claimBrowserPairing`, with `isPairingOpen`.
  unfoldable pub claim_browser_pairing : ℕ → Hub → Option Text × Hub
  claim_browser_pairing now h =
      if ltb now h.pairing_open_until
      then (some (derive_grant hmac h.token browser), record h { pairing_open_until = 0 })
      else (none, h)

unfoldable pub on_pong : ℕ → Text → Hub → Hub
on_pong now id h = update id (λ c. record c { last_seen_at = now }) h

-- A socket's `close` and `error` events: the socket is no longer open, and the connection is dropped.
unfoldable pub on_close : Text → Hub → Hub
on_close id h = drop_connection id (update id (λ c. record c { is_open = false }) h)

-- The timer that `accept` starts.
unfoldable pub on_handshake_timeout : Text → Hub → Hub
on_handshake_timeout id h = elim (object id h) [
  | none ↦ h
  | some c ↦
      if c.handshake_timer && not c.authenticated
      then reject id timeout (lit "No adapter.hello within the handshake window.") h
      else h
]

-- One connection of the heartbeat's loop.
unfoldable pub sweep_one : ℕ → ℕ → Connection → Hub → Hub
sweep_one now stale_ms c h =
    if ltb stale_ms (now - c.last_seen_at)
    then drop_connection c.id
        (update c.id (λ c. record c { is_open = false }) (emit (terminated c.id) h))
    else if c.is_open
    then emit (pinged c.id) h
    else h

unfoldable pub sweep_all : ℕ → ℕ → List Connection → Hub → Hub
sweep_all now stale_ms [] h = h
sweep_all now stale_ms (c ∷ cs) h = sweep_all now stale_ms cs (sweep_one now stale_ms c h)

unfoldable pub sweep : ℕ → ℕ → Hub → Hub
sweep now stale_ms h = sweep_all now stale_ms (keep (λ c. c.listed) h.objects) h

-- `ask`, with the id that it creates: the request, or the error of its promise.
unfoldable pub ask : Text → Text → Text → Hub → Hub
ask request_id session message h = elim (provider_connection h) [
  | none ↦
      emit (refused request_id (lit "No chat is connected. Pair a tab in the browser add-on.")) h
  | some target ↦
      let request : CoachRequest = record {
        id = request_id;
        session_id = session;
        message = message;
        workspace = record { name = lit "harness"; roots = [] };
        editor_context = none;
        rendered = none;
        model = none;
        context_items = [];
        attachments = [];
        learning = none;
        coaching = none;
        client_capabilities = no_capabilities;
        available_tools = [];
      } in
      send target.id session (coach_request request)
        (record h { answers = insert request_id tt h.answers })
]

-- The timer of `ask`; a settled request has cleared it.
unfoldable pub on_ask_timeout : Text → Hub → Hub
on_ask_timeout id h =
    if has id h.answers
    then settle id (refused id (lit "The chat did not answer in time.")) h
    else h
