-- ===== src/Relay/Hub/Asking.antt =====
-- Questions of HTTP callers, `ask` of hub.ts, and the replies that they wait for.
use dumbwaystodie.Prelude.{
  true, some, Text, [], ◌∷◌, ◌++◌, erase, trim, if◌then◌else◌, has, lookup-insert_self, nat_eq,
  list_eq, ◌≡◌, refl,
}
use dumbwaystodie.Protocol.Wire.{CoachResponse}
use dumbwaystodie.Relay.Hub.{Hub, Connection, answered, provider_connection}
use dumbwaystodie.Relay.Hub.Route.{route_coach_response, is_partial, text_of, settle}
use dumbwaystodie.Relay.Hub.Session.{ask}
use dumbwaystodie.Relay.Hub.Authority.{send-keeps}

waits-ask :
    (id session message : Text) (target : Connection) (h : Hub)
    → provider_connection h ≡ some target
    → has id (ask id session message h).answers ≡ true
unfolding ask
waits-ask id session message target h e =
    rw (e, ask, (send-keeps target.id session _ _).2, lookup-insert_self id tt h.answers) refl

-- While a provider is connected, a reply that is not partial to a question that was just asked answers
-- its caller with the joined text of the reply, and the question is no longer waited for; nothing else
-- changes. A partial reply changes nothing.
pub ask-answered :
    (id session message : Text) (target : Connection) (r : CoachResponse) (h : Hub)
    → provider_connection h ≡ some target
    → r.request_id ≡ id
    → route_coach_response r (ask id session message h) ≡ (
        if is_partial r.state then ask id session message h else record (ask id session message h) {
          outbox = (ask id session message h).outbox ++ answered id (trim (text_of r.content)) ∷ [];
          answers = erase id (ask id session message h).answers;
        })
unfolding route_coach_response settle
ask-answered id session message target r h e same =
    rw (same, route_coach_response, waits-ask id session message target h e) refl
