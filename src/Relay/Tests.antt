-- ===== src/Relay/Tests.antt =====
-- The theorems about the relay at a hub to which an editor and a browser are attached.
use dumbwaystodie.Prelude.{
  ℕ, Bool, erase, ◌≤◌, ◌<◌, true, false, none, some, List, [], ◌∷◌, ◌++◌, lit, lookup, has, ◌==◌,
  nat_eq, list_eq, ◌≡◌, ◌≢◌, ◌↔◌, refl, sym, ap, ◌∙◌, subst, length, inl, arith,
}
use dumbwaystodie.Protocol.Wire.{
  AdapterKind, editor, browser, provider, mcp, WireMessage, AdapterHello, CompletionState,
}
use dumbwaystodie.Relay.Auth.{
  utf8, derive_grant, tokens_match, is_match, IsAscii, tokens_match_iff, may_connect_as,
}
use dumbwaystodie.Relay.Hub.{
  Hub, sent, object, modify, send, send_all, broadcast_registry, find_by_kind, provider_connection,
}
use dumbwaystodie.Relay.Hub.Route.{route, route_coach_response}
use dumbwaystodie.Relay.Hub.Session.{
  payload, on_message, handle, accept, authenticate, welcome, replay_tools, displaced_by, displace,
  parse_adapter_hello, good, claim_browser_pairing,
}
use dumbwaystodie.Relay.Hub.Service.{on_connection, is_loopback}
use dumbwaystodie.Relay.Hub.Objects.{Fades}
use dumbwaystodie.Relay.Hub.Roles.{IsExclusive, serving}
use dumbwaystodie.Relay.Hub.Events.{
  init, Event, accepted, message, step, Reachable, start, next, Allowed, Reachable-IsExclusive,
}
use dumbwaystodie.Relay.Hub.Authority.{route-authority, on_message-admits, may_connect_as-grant}
use dumbwaystodie.Relay.Hub.Correlation.{response-once, response-delivered}
use dumbwaystodie.Relay.Hub.Pairing.{claim-once, pair_open-opens}
use dumbwaystodie.Relay.Examples.{hmac, token, the_editor, the_browser, hub, hello_of, reply}
use dumbwaystodie.Relay.Hub.Asking.{ask-answered}
use dumbwaystodie.Relay.Hub.{answered}
use dumbwaystodie.Relay.Hub.Route.{text_of}
use dumbwaystodie.Relay.Hub.Session.{ask}
use dumbwaystodie.Prelude.{trim}

-- Two editors come one after the other.
abbrev first_arrives : Event
first_arrives = accepted (lit "127.0.0.1") (lit "c1") 1

abbrev first_says : Event
first_says = message 2 (lit "c1") (payload (hello_of editor token))

abbrev second_arrives : Event
second_arrives = accepted (lit "127.0.0.1") (lit "c2") 3

abbrev second_says : Event
second_says = message 4 (lit "c2") (payload (hello_of editor token))

abbrev after_first : Hub
after_first = step hmac first_says (step hmac first_arrives (init token))

first_Reachable : Reachable hmac token after_first
unfolding step
first_Reachable = next first_says (next first_arrives start tt) tt

second_Allowed : Allowed second_arrives after_first
unfolding step on_message handle on_connection accept object modify authenticate welcome send
    broadcast_registry send_all replay_tools displaced_by displace find_by_kind parse_adapter_hello
    may_connect_as is_match tokens_match utf8 is_loopback
second_Allowed = (refl, tt)

Reachable-IsExclusive_example :
    IsExclusive (step hmac second_says (step hmac second_arrives after_first))
Reachable-IsExclusive_example =
    Reachable-IsExclusive hmac token
      (next second_says (next second_arrives first_Reachable second_Allowed) tt)

other_length : (n : ℕ) (a b : List ℕ) → (length a == n) ≡ true → (length b == n) ≡ false → a ≢ b
other_length n a b h k e = ground (arith, ap length e)

master_apart : utf8 token ≢ utf8 (derive_grant hmac token browser)
unfolding derive_grant utf8
master_apart = other_length 2 (utf8 token) (utf8 (derive_grant hmac token browser)) refl refl

roles_apart : utf8 (derive_grant hmac token editor) ≢ utf8 (derive_grant hmac token browser)
unfolding derive_grant utf8
roles_apart =
    other_length 19 (utf8 (derive_grant hmac token editor)) (utf8 (derive_grant hmac token browser))
      refl refl

one_each : (k : AdapterKind) → k ≢ mcp → serving k hub.objects ≤ 1
unfolding serving
one_each editor ne = omega arith
one_each provider ne = omega arith
one_each browser ne = omega arith
one_each mcp ne = absurd (ne refl)

hub-IsExclusive : IsExclusive hub
hub-IsExclusive = record { distinct = ((refl, (refl, tt)), ((refl, tt), (tt, tt))); one = one_each }

abbrev browser_hello : AdapterHello
browser_hello = record {
  adapter_kind = editor;
  adapter_id = lit "a";
  protocol_version = some 1;
  token = derive_grant hmac token browser;
  host = none;
  capabilities = [];
}

abbrev claims_editor : WireMessage
claims_editor = hello_of editor (derive_grant hmac token browser)

claims_parsed : parse_adapter_hello claims_editor ≡ good browser_hello
unfolding parse_adapter_hello derive_grant
claims_parsed = refl

barred :
    (m : WireMessage) (hello : AdapterHello)
    → payload claims_editor ≡ payload m
    → parse_adapter_hello m ≡ good hello
    → may_connect_as hmac token hello.token hello.adapter_kind ≡ false
barred m hello e p =
    let same : claims_editor ≡ m = cc in
    let parsed : good browser_hello ≡ good hello =
      sym claims_parsed ∙ (ap parse_adapter_hello same ∙ p) in
    let known : browser_hello ≡ hello = cc in
    subst (λ (x : AdapterHello). may_connect_as hmac token x.token x.adapter_kind ≡ false) known
      (may_connect_as-grant hmac token browser editor master_apart roles_apart)

on_message-admits_example :
    Fades hub.objects (on_message hmac 9 (lit "c3") (payload claims_editor) hub).objects
on_message-admits_example = on_message-admits hmac 9 (lit "c3") (payload claims_editor) hub barred

tokens_match_iff_example :
    (same : Bool) × (tokens_match (lit "e") (lit "é") ≡ some same)
    × ((same ≡ true) ↔ (utf8 (lit "e") ≡ utf8 (lit "é")))
    × (IsAscii (lit "e") → ((same ≡ true) ↔ (lit "e" ≡ lit "é")))
tokens_match_iff_example = tokens_match_iff (lit "e") (lit "é")

utf8_test :
    utf8 (lit "é€" ++ 0xd83d ∷ 0xde00 ∷ [])
    ≡ 0xc3 ∷ 0xa9 ∷ 0xe2 ∷ 0x82 ∷ 0xac ∷ 0xf0 ∷ 0x9f ∷ 0x98 ∷ 0x80 ∷ []
unfolding utf8
utf8_test = refl

response-delivered_example :
    let r = reply (lit "r1") CompletionState.partial in
    let g = route_coach_response r hub in
    (g.outbox ≡ [] ++ sent (lit "c1") (lit "s") (WireMessage.coach_response r) ∷ [])
    × (has (lit "r1") g.pending ≡ true)
unfolding find_by_kind lookup
response-delivered_example =
    response-delivered (reply (lit "r1") CompletionState.partial) the_editor hub hub-IsExclusive
      refl refl refl refl

response-once_example :
    route_coach_response
      (reply (lit "r1") CompletionState.partial)
      (route_coach_response (reply (lit "r1") CompletionState.complete) hub)
    ≡ route_coach_response (reply (lit "r1") CompletionState.complete) hub
unfolding lookup
response-once_example =
    response-once (reply (lit "r1") CompletionState.complete)
      (reply (lit "r1") CompletionState.partial) hub refl refl refl

route-authority_example :
    let g = route 5 the_browser (WireMessage.pair_open 60_000) hub in
    (g.pairing_open_until ≡ 50)
    × (g.media ≡ [])
    × (g.tools ≡ none)
    × (has (lit "r2") g.pending ≡ false)
unfolding lookup
route-authority_example =
    route-authority 5 the_browser (WireMessage.pair_open 60_000) hub (lit "r2") refl refl

served : (claim_browser_pairing hmac 40 hub).0 ≡ some (lit "dwtd-grant:browsert0")
unfolding claim_browser_pairing derive_grant
served = refl

claim-once_example :
    let g = (claim_browser_pairing hmac 40 hub).1 in
    ((claim_browser_pairing hmac 45 g).0 ≡ none)
    × (lit "dwtd-grant:browsert0" ≡ derive_grant hmac token browser)
    × (40 < 50)
claim-once_example = claim-once hmac 40 45 hub (lit "dwtd-grant:browsert0") served

pair_open-opens_example :
    (claim_browser_pairing hmac 900 (route 100 the_editor (WireMessage.pair_open 10) hub)).0
    ≡ some (derive_grant hmac token browser)
pair_open-opens_example = pair_open-opens hmac 100 900 10 the_editor hub refl (inl (omega arith))

attached : provider_connection hub ≡ some the_browser
unfolding provider_connection find_by_kind
attached = refl

ask-answered_example :
    route_coach_response
      (reply (lit "q1") CompletionState.complete)
      (ask (lit "q1") (lit "s") (lit "why?") hub)
    ≡ record (ask (lit "q1") (lit "s") (lit "why?") hub) {
      outbox =
          (ask (lit "q1") (lit "s") (lit "why?") hub).outbox
          ++ answered (lit "q1") (lit "look again") ∷ [];
      answers = erase (lit "q1") (ask (lit "q1") (lit "s") (lit "why?") hub).answers;
    }
unfolding trim text_of
ask-answered_example =
    ask-answered (lit "q1") (lit "s") (lit "why?") the_browser
      (reply (lit "q1") CompletionState.complete) hub attached refl
