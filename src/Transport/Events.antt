-- ===== src/Transport/Events.antt =====
-- What may happen to the provider of RelayCoachProvider.ts: its methods are called, its timers fire,
-- and its connection, or one that it had, reports, in any order. An exception is the caller's.
use dumbwaystodie.Prelude.{ℕ, Bool, none, some, Option, List, [], ◌∷◌, Text}
use dumbwaystodie.Protocol.Wire.{ToolDescriptor, CoachRequest, ToolCallResult}
use dumbwaystodie.Relay.Client.{ClientEvent}
use dumbwaystodie.Transport.{RelayCoachProvider, listen, unlisten}
use dumbwaystodie.Transport.Relayed.{
  attempt, on_relay_event, on_former_event, connect, connect_to, connected, disconnect,
  open_pairing, send_tool_result,
}
use dumbwaystodie.Transport.Openings.{open_surface, on_open_timeout, list_models, on_models_timeout}
use dumbwaystodie.Transport.Requests.{send_request}

pub data ProviderEvent : Type 0 where
  connect_called : Text → ProviderEvent
  endpoint_found : Text → ℕ → Text → Text → ProviderEvent
  welcomed : List ToolDescriptor → ProviderEvent
  pair_called : ℕ → ProviderEvent
  open_called : Text → Text → Option Text → Option Text → ProviderEvent
  models_called : Text → Text → ProviderEvent
  request_called : CoachRequest → ProviderEvent
  result_called : ToolCallResult → ProviderEvent
  listen_called unlisten_called : ℕ → ProviderEvent
  relay_event : ClientEvent → ProviderEvent
  former_event : ℕ → ClientEvent → ProviderEvent
  open_timeout models_timeout : Text → ProviderEvent
  disconnect_called : ProviderEvent

abbrev pub after_pairing :
    Option (RelayCoachProvider × Bool) → RelayCoachProvider → RelayCoachProvider
after_pairing none p = p
after_pairing (some (q, b)) p = q

module _ (primer : List ToolDescriptor → Text) (render : Option (CoachRequest → Text))
    (tools : List ToolDescriptor) where
  unfoldable pub step : ProviderEvent → RelayCoachProvider → RelayCoachProvider
  unfolding connect connect_to connected open_pairing open_surface list_models send_request
      send_tool_result listen unlisten on_relay_event on_former_event on_open_timeout
      on_models_timeout disconnect
  step (connect_called session_id) p = connect session_id p
  step (endpoint_found host port token adapter_id) p = connect_to host port token adapter_id p
  step (welcomed published) p = connected published p
  step (pair_called duration) p = after_pairing (open_pairing duration p) p
  step (open_called id model page variant) p = open_surface id model page variant p
  step (models_called id model) p = list_models id model p
  step (request_called request) p = (send_request primer render tools request p).0
  step (result_called result) p = attempt (send_tool_result result p) p
  step (listen_called id) p = listen id p
  step (unlisten_called id) p = unlisten id p
  step (relay_event e) p = on_relay_event e p
  step (former_event i e) p = on_former_event i e p
  step (open_timeout id) p = on_open_timeout id p
  step (models_timeout id) p = on_models_timeout id p
  step disconnect_called p = disconnect p

  unfoldable pub run : List ProviderEvent → RelayCoachProvider → RelayCoachProvider
  unfolding step
  run [] p = p
  run (e ∷ es) p = run es (step e p)
