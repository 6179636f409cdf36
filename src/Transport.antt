-- ===== src/Transport.antt =====
-- The provider on the far side of the relay, packages/extension/src/transport/RelayCoachProvider.ts,
-- over the connection of Relay/Client. A method is split where it waits. Promises of `openSurface` and
-- `listModels` go by their request ids, and so do their timers.
pub mod Relayed
pub mod Openings
pub mod Requests
pub mod Events
mod Settled
mod Primer
mod Tests
use dumbwaystodie.Prelude.{
  ℕ, Bool, true, false, none, some, Option, List, [], ◌∷◌, ◌++◌, Text, lit, newline, if◌then◌else◌,
  Map, has, not, lookup, insert, erase, keep, map, length, ◌||◌, ◌==◌, nat_eq, list_eq,
}
use dumbwaystodie.Protocol.Wire.{
  WireMessage, HopState, OpenStatus, SurfaceState, AvailableSurface, ToolDescriptor, CoachRequest,
  ToolCallResult, ConnectionState, AdapterKind, AttachmentRef,
}
use dumbwaystodie.Relay.Client.{RelayConnection, RelayConnectionOptions, ClientEffect}

pub record SurfaceOpenResult : Type 0 where
  pub status : OpenStatus
  pub detail : Option Text

-- What the provider does, the latest first. `open_asked` and `models_asked` are the promises that
-- it makes, `open_settled` and `models_settled` those that it keeps.
pub data ProviderEffect : Type 0 where
  relay_state : HopState → Option Text → ProviderEffect
  provider_presence browser_presence : Bool → ProviderEffect
  surface_status : Bool → Option Text → Option Text → ProviderEffect
  surfaces_known : List AvailableSurface → ProviderEffect
  addon_build : Option Text → ProviderEffect
  emitted : ℕ → WireMessage → ProviderEffect
  open_asked : Text → ProviderEffect
  open_settled : Text → SurfaceOpenResult → ProviderEffect
  models_asked : Text → ProviderEffect
  models_settled : Text → List Text → Option Text → ProviderEffect
  wired : ClientEffect → ProviderEffect

pub record RelayCoachProvider : Type 0 where
  pub connection : Option (RelayConnectionOptions × RelayConnection)
  -- Connections that were replaced or let go: their callbacks still call the provider.
  pub former : List (RelayConnectionOptions × RelayConnection)
  pub listeners : List ℕ
  pub session_id : Text
  pub primer_sent : Bool
  -- The model that each pending opening is of, and the timers that are to fire.
  pub pending_surface_opens : Map Text Text
  pub open_timers : Map Text ℕ
  pub pending_model_lists : Map Text (Unit {0})
  pub model_timers : Map Text ℕ
  pub effects : List ProviderEffect

abbrev pub surface_open_timeout_ms : ℕ
surface_open_timeout_ms = 35_000

abbrev pub model_list_timeout_ms : ℕ
model_list_timeout_ms = 15_000

abbrev pub new_provider : RelayCoachProvider
new_provider = record {
  connection = none;
  former = [];
  listeners = [];
  session_id = lit "relay";
  primer_sent = false;
  pending_surface_opens = [];
  open_timers = [];
  pending_model_lists = [];
  model_timers = [];
  effects = [];
}

abbrev pub effect : ProviderEffect → RelayCoachProvider → RelayCoachProvider
effect e p = record p { effects = e ∷ p.effects }

abbrev pub to_hop_state : ConnectionState → HopState
to_hop_state ConnectionState.connected = HopState.connected
to_hop_state ConnectionState.connecting = HopState.connecting
to_hop_state ConnectionState.reconnecting = HopState.connecting
to_hop_state ConnectionState.error = HopState.error
to_hop_state ConnectionState.disconnected = HopState.disconnected

-- `...(detail ? { detail } : {})`: an empty detail is left out.
abbrev pub present : Option Text → Option Text
present none = none
present (some t) = if t == [] then none else some t

-- The `onStateChange` of the connection.
unfoldable pub on_state_change :
    ConnectionState → Option Text → RelayCoachProvider → RelayCoachProvider
on_state_change state detail p =
    let told = effect (relay_state (to_hop_state state) detail) p in
    elim state [ ConnectionState.connected ↦ told | _ ↦ effect (provider_presence false) told ]

-- Settles these openings: their timers are cleared, and their promises kept.
unfoldable pub settle_opens :
    Map Text Text → SurfaceOpenResult → RelayCoachProvider → RelayCoachProvider
settle_opens [] result p = p
settle_opens ((id, model) ∷ entries) result p = settle_opens entries result (record p {
  open_timers = erase id p.open_timers;
  pending_surface_opens = erase id p.pending_surface_opens;
  effects = open_settled id result ∷ p.effects;
})

abbrev is_of : Text → Text × Text → Bool
is_of model (id, other) = other == model

-- By the id of an opening, or else by the model.
abbrev pub entries_for : Text → Map Text Text → Option Text → Map Text Text
entries_for id opens (some model) = (id, model) ∷ []
entries_for id opens none = keep (is_of id) opens

unfoldable pub finish_surface_open :
    Text → SurfaceOpenResult → RelayCoachProvider → RelayCoachProvider
unfolding settle_opens
finish_surface_open id result p =
    settle_opens (entries_for id p.pending_surface_opens (lookup id p.pending_surface_opens)) result
      p

unfoldable pub finish_all_surface_opens :
    SurfaceOpenResult → RelayCoachProvider → RelayCoachProvider
unfolding settle_opens
finish_all_surface_opens result p = settle_opens p.pending_surface_opens result p

abbrev pub settle_models :
    Bool → Text → List Text → Option Text → RelayCoachProvider → RelayCoachProvider
settle_models false id models detail p = p
settle_models true id models detail p = record p {
  pending_model_lists = erase id p.pending_model_lists;
  model_timers = erase id p.model_timers;
  effects = models_settled id models detail ∷ p.effects;
}

-- `handle`: what arrives from the relay.
abbrev terminal_status : SurfaceState → Option OpenStatus
terminal_status SurfaceState.ready = some OpenStatus.ready
terminal_status SurfaceState.blocked = some OpenStatus.blocked
terminal_status state = none

abbrev acknowledge : Option OpenStatus → AvailableSurface → RelayCoachProvider → RelayCoachProvider
acknowledge none surface p = p
acknowledge (some status) surface p =
    finish_surface_open surface.id (record { status = status; detail = present surface.detail }) p

unfoldable pub acknowledge_all : List AvailableSurface → RelayCoachProvider → RelayCoachProvider
unfolding finish_surface_open
acknowledge_all [] p = p
acknowledge_all (s ∷ ss) p = acknowledge_all ss (acknowledge (terminal_status s.status) s p)

unfoldable pub emit_to : List ℕ → WireMessage → RelayCoachProvider → RelayCoachProvider
emit_to [] message p = p
emit_to (l ∷ ls) message p = emit_to ls message (effect (emitted l message) p)

abbrev known_surfaces : Option (List AvailableSurface) → List AvailableSurface
known_surfaces none = []
known_surfaces (some surfaces) = surfaces

unfoldable pub handle : WireMessage → RelayCoachProvider → RelayCoachProvider
unfolding acknowledge_all emit_to finish_surface_open
handle (WireMessage.adapter_registry editor provider browser) p =
    effect (browser_presence browser) (effect (provider_presence provider) p)
handle (WireMessage.surface_status m) p = acknowledge_all (known_surfaces m.surfaces) (
    effect (addon_build m.build) (
      effect (surfaces_known (known_surfaces m.surfaces))
        (effect (surface_status m.paired m.surface_type m.detail) p)))
handle (WireMessage.surface_models_list m) p =
    settle_models (has m.request_id p.pending_model_lists) m.request_id m.models (present m.detail)
      p
handle (WireMessage.surface_opened m) p =
    finish_surface_open m.request_id (record { status = m.status; detail = present m.detail }) p
handle (WireMessage.coach_response r) p = emit_to p.listeners (WireMessage.coach_response r) p
handle (WireMessage.tool_call call) p = emit_to p.listeners (WireMessage.tool_call call) p
handle (WireMessage.provider_status status text) p =
    emit_to p.listeners (WireMessage.provider_status status text) p
handle (WireMessage.provider_error text code) p =
    emit_to p.listeners (WireMessage.provider_error text code) p
handle message p = p

-- `onMessage`: a listener is added, and disposed of.
unfoldable pub listen : ℕ → RelayCoachProvider → RelayCoachProvider
listen id p = record p { listeners = p.listeners ++ id ∷ [] }

unfoldable pub unlisten : ℕ → RelayCoachProvider → RelayCoachProvider
unlisten id p = record p { listeners = keep (λ l. not (l == id)) p.listeners }
