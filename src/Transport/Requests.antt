-- ===== src/Transport/Requests.antt =====
-- `sendRequest` of RelayCoachProvider.ts. `primer` is `buildChatPrimer` of
-- packages/protocol/src/chat.ts, `render` the option `renderRequest`, and `tools` what `listTools`
-- gives.
use dumbwaystodie.Prelude.{
  Bool, true, false, not, none, some, Option, List, [], ◌∷◌, ◌++◌, Text, lit, newline,
  if◌then◌else◌, ltb, length, is_some, ◌||◌,
}
use dumbwaystodie.Protocol.Wire.{WireMessage, ToolDescriptor, CoachRequest, AttachmentRef}
use dumbwaystodie.Relay.Client.{RelayConnection, RelayConnectionOptions}
use dumbwaystodie.Transport.{RelayCoachProvider}
use dumbwaystodie.Transport.Relayed.{sent_through}

-- What a send leaves, and whether it was made; where it throws, the rest is not done.
abbrev pub as_sent : Option RelayCoachProvider → RelayCoachProvider → RelayCoachProvider × Bool
as_sent none p = (p, false)
as_sent (some q) p = (q, true)

abbrev pub then_send :
    (RelayCoachProvider → RelayCoachProvider × Bool)
    → RelayCoachProvider × Bool
    → RelayCoachProvider × Bool
then_send next (p, false) = (p, false)
then_send next (p, true) = next p

-- `connection.send`; the connection that a request has is there until it is sent.
abbrev pub send_on :
    Option (RelayConnectionOptions × RelayConnection)
    → Text
    → WireMessage
    → RelayCoachProvider
    → RelayCoachProvider × Bool
send_on none session_id message p = (p, false)
send_on (some c) session_id message p = as_sent (sent_through session_id message c p) p

abbrev pub separator : Text
separator = newline ∷ newline ∷ lit "---" ++ newline ∷ newline ∷ []

unfoldable pub register_media :
    Text → List AttachmentRef → RelayCoachProvider → RelayCoachProvider × Bool
register_media session_id [] p = (p, true)
register_media session_id (a ∷ attachments) p =
    then_send (register_media session_id attachments)
      (send_on p.connection session_id (WireMessage.media_register a) p)

module _ (primer : List ToolDescriptor → Text) (render : Option (CoachRequest → Text))
    (tools : List ToolDescriptor) where
  abbrev pub is_primed : RelayCoachProvider → Bool
  is_primed p = p.primer_sent || not (ltb 0 (length tools))

  abbrev pub rendered_by :
      Option (CoachRequest → Text) → CoachRequest → RelayCoachProvider → Text × RelayCoachProvider
  rendered_by none request p = (request.message, p)
  rendered_by (some f) request p =
      if is_primed p
      then (f request, p)
      else (primer tools ++ separator ++ f request, record p { primer_sent = true })

  unfoldable pub render_for : CoachRequest → RelayCoachProvider → Text × RelayCoachProvider
  render_for request p = rendered_by render request p

  abbrev pub send_rendered : CoachRequest → Text × RelayCoachProvider → RelayCoachProvider × Bool
  send_rendered request (text, p) =
      send_on p.connection request.session_id
        (WireMessage.coach_request (record request { rendered = some text })) p

  unfoldable pub send_request : CoachRequest → RelayCoachProvider → RelayCoachProvider × Bool
  unfolding register_media render_for
  send_request request p =
      then_send (λ q. send_rendered request (render_for request q))
        (then_send (register_media request.session_id request.attachments)
          (p, is_some p.connection))
