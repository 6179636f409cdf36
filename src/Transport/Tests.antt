-- ===== src/Transport/Tests.antt =====
-- The theorems about RelayCoachProvider.ts at a provider that opens two chats.
use dumbwaystodie.Prelude.{
  ◌+◌, ◌≤◌, false, none, some, List, [], ◌∷◌, Text, lit, lookup, insert, nat_eq, list_eq, ◌≡◌, refl,
}
use dumbwaystodie.Protocol.Wire.{
  PermissionClass, ToolDescriptor, CoachRequest, WireMessage, OpenStatus, no_capabilities,
}
use dumbwaystodie.Relay.Client
use dumbwaystodie.Relay.Client.{
  RelayConnection, RelayConnectionOptions, ClientEvent, new_connection, open_socket, set_state,
  clear_timers, on_socket_open, on_socket_message, handle_message, send,
}
use dumbwaystodie.Transport.{RelayCoachProvider, new_provider, on_state_change}
use dumbwaystodie.Transport.Relayed.{
  editor_options, relay_effect, relay_effects, on_relay_event, connect, connect_to, disconnect,
}
use dumbwaystodie.Transport.Requests.{send_request, render_for}
use dumbwaystodie.Transport.Events
use dumbwaystodie.Transport.Events.{
  ProviderEvent, endpoint_found, open_called, relay_event, open_timeout, connect_called,
}
use dumbwaystodie.Transport.Settled.{asked, settled, occurs}
use dumbwaystodie.Transport.Settled.Kept.{run-settled, disconnect-settled}
use dumbwaystodie.Transport.Primer.{send_request-unsent}

abbrev tool : ToolDescriptor
tool = record {
  name = lit "fs.read";
  description = lit "Read a file";
  permission = PermissionClass.read;
}

abbrev primer : List ToolDescriptor → Text
primer tools = lit "rules"

abbrev words_of : CoachRequest → Text
words_of request = request.message

-- The relay answers, a chat is opened, and an answer to its opening comes.
abbrev events : List ProviderEvent
events =
    connect_called (lit "s")
    ∷ endpoint_found (lit "h") 1 (lit "t") (lit "e")
    ∷ relay_event (ClientEvent.opened_at 5 1)
    ∷ open_called (lit "o1") (lit "chatgpt") none none
    ∷ relay_event (
        ClientEvent.message_at 6 1 (
          some (
            WireMessage.surface_opened record {
              request_id = lit "o1";
              model = lit "chatgpt";
              status = OpenStatus.ready;
              detail = none;
            })))
    ∷ []

run-settled_example :
    (asked (lit "o1") (Events.run primer (some words_of) (tool ∷ []) events new_provider).effects
      ≡ settled
          (lit "o1")
          (Events.run primer (some words_of) (tool ∷ []) events new_provider).effects
        + occurs
            (lit "o1")
            (Events.run primer (some words_of) (tool ∷ []) events new_provider).open_timers)
    × (occurs
          (lit "o1")
          (Events.run primer (some words_of) (tool ∷ []) events new_provider).open_timers
        ≤ 1)
unfolding Events.step connect connect_to Client.connect open_socket set_state relay_effects
    relay_effect on_state_change on_relay_event Client.step on_socket_open lookup insert
run-settled_example =
    run-settled primer (some words_of) (tool ∷ []) events (lit "o1")
      (tt, (tt, (tt, (refl, (tt, tt)))))

disconnect-settled_example :
    settled
      (lit "o1")
      (disconnect (Events.run primer (some words_of) (tool ∷ []) events new_provider)).effects
    ≡ asked
        (lit "o1")
        (disconnect (Events.run primer (some words_of) (tool ∷ []) events new_provider)).effects
unfolding Events.step connect connect_to Client.connect open_socket set_state relay_effects
    relay_effect on_state_change on_relay_event Client.step on_socket_open lookup insert
disconnect-settled_example =
    disconnect-settled primer (some words_of) (tool ∷ []) events (lit "o1")
      (tt, (tt, (tt, (refl, (tt, tt)))))

abbrev options : RelayConnectionOptions
options = editor_options (lit "h") 1 (lit "t") (lit "e")

-- A connection whose socket is not open yet.
abbrev opening : RelayConnection
opening = Client.connect options new_connection

abbrev provider : RelayCoachProvider
provider = record new_provider { connection = some (options, opening) }

abbrev request : CoachRequest
request = record {
  id = lit "r";
  session_id = lit "s";
  message = lit "why?";
  workspace = record { name = lit "w"; roots = [] };
  editor_context = none;
  rendered = none;
  model = none;
  context_items = [];
  attachments = [];
  learning = none;
  coaching = none;
  client_capabilities = no_capabilities;
  available_tools = [];
}

send_request-unsent_example :
    ((send_request primer (some words_of) (tool ∷ []) request provider).1 ≡ false)
    × ((send_request primer (some words_of) (tool ∷ []) request provider).0.effects ≡ [])
    × ((render_for primer
          (some words_of)
          (tool ∷ [])
          request
          (send_request primer (some words_of) (tool ∷ []) request provider).0).0
        ≡ lit "why?")
unfolding Client.connect Client.send open_socket set_state lookup insert
send_request-unsent_example =
    send_request-unsent primer words_of tool [] request request options opening provider refl refl
      refl (λ message. refl)
