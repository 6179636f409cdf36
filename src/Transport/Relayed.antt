-- ===== src/Transport/Relayed.antt =====
-- The connection of RelayCoachProvider.ts: what it reports to the provider, and what the provider
-- sends through it.
use dumbwaystodie.Prelude.{
  ℕ, suc, zero, ◌++◌, Bool, true, false, none, some, Option, List, [], ◌∷◌, Text, lit,
}
use dumbwaystodie.Protocol.Wire.{
  WireMessage, HopState, OpenStatus, ToolDescriptor, ToolCallResult, AdapterKind,
}
use dumbwaystodie.Relay.Client.{
  RelayConnection, RelayConnectionOptions, ClientEffect, ClientEvent, new_connection, step,
}
use dumbwaystodie.Relay.Client
use dumbwaystodie.Transport.{
  RelayCoachProvider, relay_state, provider_presence, wired, effect, on_state_change, handle,
  finish_all_surface_opens, SurfaceOpenResult,
}

-- What the connection does, as the provider sees it: its callbacks are called at once.
unfoldable pub relay_effect : ClientEffect → RelayCoachProvider → RelayCoachProvider
unfolding on_state_change handle
relay_effect (ClientEffect.state_changed state detail) p = on_state_change state detail p
relay_effect (ClientEffect.delivered message) p = handle message p
relay_effect e p = effect (wired e) p

unfoldable pub relay_effects : List ClientEffect → RelayCoachProvider → RelayCoachProvider
unfolding relay_effect
relay_effects [] p = p
relay_effects (e ∷ es) p = relay_effect e (relay_effects es p)

-- An operation of the connection starts with no effects, and those it has are reported.
abbrev pub unreported : RelayConnection → RelayConnection
unreported c = record c { effects = [] }

abbrev pub reported :
    RelayConnectionOptions → RelayConnection → RelayCoachProvider → RelayCoachProvider
reported options c p =
    relay_effects c.effects (record p { connection = some (options, unreported c) })

-- `connection.send(sessionId, message)`, which throws where it gives `none`.
abbrev pub reported_if :
    RelayConnectionOptions → Option RelayConnection → RelayCoachProvider → Option RelayCoachProvider
reported_if options none p = none
reported_if options (some c) p = some (reported options c p)

abbrev pub sent_through :
    Text
    → WireMessage
    → RelayConnectionOptions × RelayConnection
    → RelayCoachProvider
    → Option RelayCoachProvider
sent_through session_id message (options, c) p =
    reported_if options (Client.send session_id message (unreported c)) p

abbrev pub attempt : Option RelayCoachProvider → RelayCoachProvider → RelayCoachProvider
attempt none p = p
attempt (some q) p = q

-- A socket or a timer of the connection.
abbrev pub relay_step :
    Option (RelayConnectionOptions × RelayConnection)
    → ClientEvent
    → RelayCoachProvider
    → RelayCoachProvider
relay_step none e p = p
relay_step (some (options, c)) e p = reported options (step options e (unreported c)) p

unfoldable pub on_relay_event : ClientEvent → RelayCoachProvider → RelayCoachProvider
unfolding relay_effects
on_relay_event e p = relay_step p.connection e p

-- A socket or a timer of a connection that the provider no longer has.
abbrev pub former_set :
    ℕ
    → RelayConnectionOptions × RelayConnection
    → List (RelayConnectionOptions × RelayConnection)
    → List (RelayConnectionOptions × RelayConnection)
former_set i c [] = []
former_set zero c (d ∷ ds) = c ∷ ds
former_set (suc i) c (d ∷ ds) = d ∷ former_set i c ds

abbrev pub former_get :
    ℕ
    → List (RelayConnectionOptions × RelayConnection)
    → Option (RelayConnectionOptions × RelayConnection)
former_get i [] = none
former_get zero (d ∷ ds) = some d
former_get (suc i) (d ∷ ds) = former_get i ds

abbrev pub former_step :
    ℕ
    → Option (RelayConnectionOptions × RelayConnection)
    → ClientEvent
    → RelayCoachProvider
    → RelayCoachProvider
former_step i none e p = p
former_step i (some (options, c)) e p =
    let d = step options e (unreported c) in
    relay_effects d.effects (record p { former = former_set i (options, unreported d) p.former })

unfoldable pub on_former_event : ℕ → ClientEvent → RelayCoachProvider → RelayCoachProvider
unfolding relay_effects
on_former_event i e p = former_step i (former_get i p.former) e p

-- The field is given another connection, or none.
abbrev pub retired :
    Option (RelayConnectionOptions × RelayConnection)
    → List (RelayConnectionOptions × RelayConnection)
    → List (RelayConnectionOptions × RelayConnection)
retired none former = former
retired (some c) former = former ++ c ∷ []

abbrev pub let_go : RelayCoachProvider → RelayCoachProvider
let_go p = record p { connection = none; former = retired p.connection p.former }

-- `connect`, up to the launcher.
unfoldable pub connect : Text → RelayCoachProvider → RelayCoachProvider
connect session_id p =
    effect (relay_state HopState.connecting none)
      (record p { primer_sent = false; session_id = session_id })

abbrev pub close_connection :
    Option (RelayConnectionOptions × RelayConnection) → RelayCoachProvider → RelayCoachProvider
close_connection none p = p
close_connection (some (options, c)) p = reported options (Client.close (unreported c)) p

abbrev pub editor_options : Text → ℕ → Text → Text → RelayConnectionOptions
editor_options host port token adapter_id = record {
  host = host;
  port = port;
  token = token;
  adapter_kind = AdapterKind.editor;
  adapter_id = adapter_id;
  capabilities = some (
      lit "editor.active_document"
      ∷ lit "editor.diagnostics"
      ∷ lit "workspace.read_file"
      ∷ lit "workspace.search"
      ∷ []);
  auto_reconnect = none;
  max_reconnect_attempts = none;
}

-- `connect`, from the launcher's endpoint to the answer of the relay.
unfoldable pub connect_to : Text → ℕ → Text → Text → RelayCoachProvider → RelayCoachProvider
unfolding relay_effects
connect_to host port token adapter_id p =
    let options = editor_options host port token adapter_id in
    let closed = close_connection p.connection p in
    reported options (Client.connect options new_connection) (let_go closed)

abbrev pub publish :
    Option (RelayConnectionOptions × RelayConnection)
    → List ToolDescriptor
    → RelayCoachProvider
    → RelayCoachProvider
publish (some c) (t ∷ ts) p =
    attempt (sent_through p.session_id (WireMessage.tools_available (t ∷ ts)) c p) p
publish none tools p = p
publish (some c) [] p = p

-- `connect`, after the welcome: the tools of the editor.
unfoldable pub connected : List ToolDescriptor → RelayCoachProvider → RelayCoachProvider
connected tools p = publish p.connection tools p

-- `openPairing`: whether there was a connection to ask. A send that throws gives `none`.
abbrev pub pairing_asked : Option RelayCoachProvider → Option (RelayCoachProvider × Bool)
pairing_asked none = none
pairing_asked (some p) = some (p, true)

abbrev pub pair_through :
    Option (RelayConnectionOptions × RelayConnection)
    → ℕ
    → RelayCoachProvider
    → Option (RelayCoachProvider × Bool)
pair_through none duration p = some (p, false)
pair_through (some c) duration p =
    pairing_asked (sent_through p.session_id (WireMessage.pair_open duration) c p)

unfoldable pub open_pairing : ℕ → RelayCoachProvider → Option (RelayCoachProvider × Bool)
open_pairing duration p = pair_through p.connection duration p

-- `sendToolResult`; `none` where it throws.
abbrev pub result_through :
    Option (RelayConnectionOptions × RelayConnection)
    → ToolCallResult
    → RelayCoachProvider
    → Option RelayCoachProvider
result_through none result p = none
result_through (some c) result p =
    sent_through result.session_id (WireMessage.tool_result result) c p

unfoldable pub send_tool_result : ToolCallResult → RelayCoachProvider → Option RelayCoachProvider
send_tool_result result p = result_through p.connection result p

abbrev pub lost_relay : SurfaceOpenResult
lost_relay = record {
  status = OpenStatus.failed;
  detail = some (lit "The relay disconnected before the chat was paired.");
}

unfoldable pub disconnect : RelayCoachProvider → RelayCoachProvider
unfolding finish_all_surface_opens relay_effects
disconnect p =
    let finished = finish_all_surface_opens lost_relay p in
    let closed = close_connection finished.connection finished in
    effect (provider_presence false)
      (effect (relay_state HopState.disconnected none) (record (let_go closed) { listeners = [] }))
