-- ===== src/Transport/Settled/Methods.antt =====
-- The methods of RelayCoachProvider.ts keep the promises in balance.
use dumbwaystodie.Prelude.{
  ℕ, Bool, true, false, none, some, Option, List, [], ◌∷◌, inl, inr, Text, lookup, Bool-cases,
  if_both, is_some, ◌==◌, nat_eq, list_eq, ◌≡◌, refl, subst, arith,
}
use dumbwaystodie.Protocol.Wire.{
  WireMessage, AttachmentRef, ToolDescriptor, ToolCallResult, CoachRequest,
}
use dumbwaystodie.Relay.Client
use dumbwaystodie.Relay.Client.{
  RelayConnection, RelayConnectionOptions, ClientEffect, ClientEvent, new_connection, step,
}
use dumbwaystodie.Transport.{RelayCoachProvider, ProviderEffect}
use dumbwaystodie.Transport.Relayed.{
  reported_if, attempt, relay_step, close_connection, connect_to, editor_options, publish,
  pair_through, pairing_asked, result_through, let_go, retired, former_step, unreported,
}
use dumbwaystodie.Transport.Openings.{
  opened_or_failed, ask_open, open_through, open_expired, ask_models, list_through,
}
use dumbwaystodie.Transport.Requests.{
  as_sent, then_send, send_on, register_media, is_primed, rendered_by, render_for, send_rendered,
  send_request,
}
use dumbwaystodie.Transport.Events.{after_pairing}
use dumbwaystodie.Transport.Settled.{
  occurs, asked, IsBalanced, finish-IsBalanced, occurs-insert, occurs-some, text_eq,
  settle_one-IsBalanced,
}
use dumbwaystodie.Transport.Settled.Steps.{
  effect-IsBalanced, relay_effects-IsBalanced, reported-IsBalanced,
}

pub reported_if-IsBalanced :
    (options : RelayConnectionOptions) (o : Option RelayConnection) (p : RelayCoachProvider)
    → IsBalanced p
    → IsBalanced (attempt (reported_if options o p) p)
reported_if-IsBalanced options none p h = h
reported_if-IsBalanced options (some c) p h = reported-IsBalanced options c p h

-- An opening whose id is new.
pub ask-IsBalanced :
    (id model : Text) (p : RelayCoachProvider)
    → asked id p.effects ≡ 0
    → IsBalanced p
    → IsBalanced (ask_open id model p)
unfolding IsBalanced
ask-IsBalanced id model p new h key =
    let (a, t, o) = h id in
    let (a', t', o') = h key in
    let no_timer : occurs id p.open_timers ≡ 0 = omega (arith, a, new) in
    let no_entry : occurs id p.pending_surface_opens ≡ 0 = omega (arith, no_timer, t) in
    let timers = occurs-insert id key 35_000 p.open_timers no_timer in
    let entries = occurs-insert id key model p.pending_surface_opens no_entry in
    elim (Bool-cases (id == key)) [
      | inl e ↦
          let empty =
            subst (λ j. occurs j p.pending_surface_opens ≡ 0) ((text_eq.beq_iff id key).0 e)
              no_entry in
          ground arith
      | inr e ↦ ground arith
    ]

pub opened-IsBalanced :
    (id : Text) (options : RelayConnectionOptions) (o : Option RelayConnection)
    (p : RelayCoachProvider)
    → IsBalanced p
    → IsBalanced (opened_or_failed id (reported_if options o p) p)
opened-IsBalanced id options none p h = finish-IsBalanced id _ p h
opened-IsBalanced id options (some c) p h = reported-IsBalanced options c p h

-- Without a connection, the opening is asked for and settled at once.
pub refused-IsBalanced :
    (id model : Text) (page variant : Option Text) (p : RelayCoachProvider)
    → IsBalanced p
    → IsBalanced (open_through none id model page variant p)
unfolding IsBalanced
refused-IsBalanced id model page variant p h key = let (a, t, o) = h key in (omega (arith, a), t, o)

pub open_through-IsBalanced :
    (c : Option (RelayConnectionOptions × RelayConnection)) (id model : Text)
    (page variant : Option Text) (p : RelayCoachProvider)
    → asked id p.effects ≡ 0
    → IsBalanced p
    → IsBalanced (open_through c id model page variant p)
open_through-IsBalanced none id model page variant p new h =
    refused-IsBalanced id model page variant p h
open_through-IsBalanced (some (options, c)) id model page variant p new h =
    opened-IsBalanced id options _ (ask_open id model p) (ask-IsBalanced id model p new h)

timer-pending :
    (id : Text) (delay : ℕ) (p : RelayCoachProvider)
    → lookup id p.open_timers ≡ some delay
    → IsBalanced p
    → occurs id p.pending_surface_opens ≡ 1
unfolding IsBalanced
timer-pending id delay p found h =
    let there = occurs-some id delay p.open_timers found in
    let (a, t, o) = h id in omega (arith, there, t, o)

pub open_expired-IsBalanced :
    (o : Option ℕ) (id : Text) (p : RelayCoachProvider)
    → lookup id p.open_timers ≡ o
    → IsBalanced p
    → IsBalanced (open_expired o id p)
open_expired-IsBalanced none id p found h = h
open_expired-IsBalanced (some delay) id p found h =
    settle_one-IsBalanced id _ p (timer-pending id delay p found h) h

pub asked_models-IsBalanced :
    (id : Text) (p : RelayCoachProvider) → IsBalanced p → IsBalanced (ask_models id p)
unfolding IsBalanced
asked_models-IsBalanced id p h key = let (a, t, o) = h key in (omega (arith, a), t, o)

pub list_through-IsBalanced :
    (c : Option (RelayConnectionOptions × RelayConnection)) (id model : Text)
    (p : RelayCoachProvider)
    → IsBalanced p
    → IsBalanced (list_through c id model p)
list_through-IsBalanced none id model p h =
    effect-IsBalanced (ProviderEffect.models_settled id [] _) _ (λ i. refl) (λ i. refl)
      (effect-IsBalanced (ProviderEffect.models_asked id) p (λ i. refl) (λ i. refl) h)
list_through-IsBalanced (some (options, c)) id model p h =
    reported_if-IsBalanced options _ (ask_models id p) (asked_models-IsBalanced id p h)

pub close-IsBalanced :
    (c : Option (RelayConnectionOptions × RelayConnection)) (p : RelayCoachProvider)
    → IsBalanced p
    → IsBalanced (close_connection c p)
close-IsBalanced none p h = h
close-IsBalanced (some (options, c)) p h = reported-IsBalanced options _ p h

pub relay_step-IsBalanced :
    (c : Option (RelayConnectionOptions × RelayConnection)) (e : ClientEvent)
    (p : RelayCoachProvider)
    → IsBalanced p
    → IsBalanced (relay_step c e p)
relay_step-IsBalanced none e p h = h
relay_step-IsBalanced (some (options, c)) e p h = reported-IsBalanced options _ p h

pub publish-IsBalanced :
    (c : Option (RelayConnectionOptions × RelayConnection)) (tools : List ToolDescriptor)
    (p : RelayCoachProvider)
    → IsBalanced p
    → IsBalanced (publish c tools p)
publish-IsBalanced none tools p h = h
publish-IsBalanced (some (options, c)) [] p h = h
publish-IsBalanced (some (options, c)) (t ∷ ts) p h = reported_if-IsBalanced options _ p h

pub pairing_asked-IsBalanced :
    (options : RelayConnectionOptions) (o : Option RelayConnection) (p : RelayCoachProvider)
    → IsBalanced p
    → IsBalanced (after_pairing (pairing_asked (reported_if options o p)) p)
pairing_asked-IsBalanced options none p h = h
pairing_asked-IsBalanced options (some c) p h = reported-IsBalanced options c p h

pub pair-IsBalanced :
    (c : Option (RelayConnectionOptions × RelayConnection)) (duration : ℕ) (p : RelayCoachProvider)
    → IsBalanced p
    → IsBalanced (after_pairing (pair_through c duration p) p)
pair-IsBalanced none duration p h = h
pair-IsBalanced (some (options, c)) duration p h = pairing_asked-IsBalanced options _ p h

pub result-IsBalanced :
    (c : Option (RelayConnectionOptions × RelayConnection)) (result : ToolCallResult)
    (p : RelayCoachProvider)
    → IsBalanced p
    → IsBalanced (attempt (result_through c result p) p)
result-IsBalanced none result p h = h
result-IsBalanced (some (options, c)) result p h = reported_if-IsBalanced options _ p h

pub as_sent-IsBalanced :
    (options : RelayConnectionOptions) (o : Option RelayConnection) (p : RelayCoachProvider)
    → IsBalanced p
    → IsBalanced (as_sent (reported_if options o p) p).0
as_sent-IsBalanced options none p h = h
as_sent-IsBalanced options (some c) p h = reported-IsBalanced options c p h

pub send_on-IsBalanced :
    (c : Option (RelayConnectionOptions × RelayConnection)) (session_id : Text)
    (message : WireMessage) (p : RelayCoachProvider)
    → IsBalanced p
    → IsBalanced (send_on c session_id message p).0
send_on-IsBalanced none session_id message p h = h
send_on-IsBalanced (some (options, c)) session_id message p h = as_sent-IsBalanced options _ p h

pub then_send-IsBalanced :
    (next : RelayCoachProvider → RelayCoachProvider × Bool) (r : RelayCoachProvider × Bool)
    → ((q : RelayCoachProvider) → IsBalanced q → IsBalanced (next q).0)
    → IsBalanced r.0
    → IsBalanced (then_send next r).0
then_send-IsBalanced next (p, false) n h = h
then_send-IsBalanced next (p, true) n h = n p h

pub register-IsBalanced :
    (session_id : Text) (attachments : List AttachmentRef) (p : RelayCoachProvider)
    → IsBalanced p
    → IsBalanced (register_media session_id attachments p).0
unfolding register_media
register-IsBalanced session_id [] p h = h
register-IsBalanced session_id (a ∷ attachments) p h =
    then_send-IsBalanced (register_media session_id attachments) _
      (λ q k. register-IsBalanced session_id attachments q k)
      (send_on-IsBalanced p.connection session_id (WireMessage.media_register a) p h)

-- The other fields do not matter.
pub fields-IsBalanced :
    (connection : Option (RelayConnectionOptions × RelayConnection))
    (former : List (RelayConnectionOptions × RelayConnection)) (listeners : List ℕ)
    (session_id : Text) (primer_sent : Bool) (p : RelayCoachProvider)
    → IsBalanced p
    → IsBalanced (record p {
      connection = connection;
      former = former;
      listeners = listeners;
      session_id = session_id;
      primer_sent = primer_sent;
    })
unfolding IsBalanced
fields-IsBalanced connection former listeners session_id primer_sent p h = h

pub let_go-IsBalanced : (p : RelayCoachProvider) → IsBalanced p → IsBalanced (let_go p)
let_go-IsBalanced p h =
    fields-IsBalanced none (retired p.connection p.former) p.listeners p.session_id p.primer_sent p
      h

pub former_step-IsBalanced :
    (i : ℕ) (c : Option (RelayConnectionOptions × RelayConnection)) (e : ClientEvent)
    (p : RelayCoachProvider)
    → IsBalanced p
    → IsBalanced (former_step i c e p)
former_step-IsBalanced i none e p h = h
former_step-IsBalanced i (some (options, c)) e p h =
    relay_effects-IsBalanced (step options e (unreported c)).effects _
      (fields-IsBalanced p.connection _ p.listeners p.session_id p.primer_sent p h)

pub connect_to-IsBalanced :
    (host : Text) (port : ℕ) (token adapter_id : Text) (p : RelayCoachProvider)
    → IsBalanced p
    → IsBalanced (connect_to host port token adapter_id p)
unfolding connect_to
connect_to-IsBalanced host port token adapter_id p h =
    let options = editor_options host port token adapter_id in
    reported-IsBalanced options (Client.connect options new_connection)
      (let_go (close_connection p.connection p))
      (let_go-IsBalanced (close_connection p.connection p) (close-IsBalanced p.connection p h))

module _ (primer : List ToolDescriptor → Text) (render : Option (CoachRequest → Text))
    (tools : List ToolDescriptor) where
  pub rendered-IsBalanced :
      (f : Option (CoachRequest → Text)) (request : CoachRequest) (p : RelayCoachProvider)
      → IsBalanced p
      → IsBalanced (rendered_by primer render tools f request p).1
  unfolding IsBalanced
  rendered-IsBalanced none request p h = h
  rendered-IsBalanced (some f) request p h =
      if_both (λ (r : Text × RelayCoachProvider). IsBalanced r.1) (is_primed primer render tools p)
        _ _ h h

  pub send_rendered-IsBalanced :
      (request : CoachRequest) (r : Text × RelayCoachProvider)
      → IsBalanced r.1
      → IsBalanced (send_rendered primer render tools request r).0
  send_rendered-IsBalanced request (text, p) h = send_on-IsBalanced p.connection _ _ p h

  pub request-IsBalanced :
      (request : CoachRequest) (p : RelayCoachProvider)
      → IsBalanced p
      → IsBalanced (send_request primer render tools request p).0
  unfolding send_request render_for
  request-IsBalanced request p h =
      let media =
        then_send (register_media request.session_id request.attachments)
          (p, is_some p.connection) in
      then_send-IsBalanced
        (λ q. send_rendered primer render tools request (render_for primer render tools request q))
        media
        (λ q k.
          send_rendered-IsBalanced request (render_for primer render tools request q)
            (rendered-IsBalanced render request q k))
        (then_send-IsBalanced (register_media request.session_id request.attachments)
          (p, is_some p.connection)
          (λ q k. register-IsBalanced request.session_id request.attachments q k) h)
