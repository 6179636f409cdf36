-- ===== src/Transport/Primer.antt =====
-- When RelayCoachProvider.ts tells a chat the rules.
use dumbwaystodie.Prelude.{
  if_false, Bool, true, false, none, some, Option, List, [], ◌∷◌, Text, ◌++◌, is_some, sym, subst,
  ap, ◌∙◌, ◌≡◌, refl, nat_eq, list_eq, arith,
}
use dumbwaystodie.Protocol.Wire.{WireMessage, ToolDescriptor, CoachRequest}
use dumbwaystodie.Relay.Client
use dumbwaystodie.Relay.Client.{RelayConnection, RelayConnectionOptions}
use dumbwaystodie.Transport.{RelayCoachProvider}
use dumbwaystodie.Transport.Relayed.{unreported, reported_if}
use dumbwaystodie.Transport.Requests.{
  as_sent, then_send, send_on, register_media, is_primed, render_for, send_rendered, send_request,
  separator,
}

module _ (primer : List ToolDescriptor → Text) (f : CoachRequest → Text) (tool : ToolDescriptor)
    (tools : List ToolDescriptor) where
  abbrev primed : RelayCoachProvider → RelayCoachProvider
  primed p = record p { primer_sent = true }

  no_media :
      (request : CoachRequest) (p : RelayCoachProvider)
      → request.attachments ≡ []
      → is_some p.connection ≡ true
      → then_send (register_media request.session_id request.attachments) (p, is_some p.connection)
        ≡ (p, true)
  unfolding register_media
  no_media request p none_attached there =
      subst
        (λ b. then_send (register_media request.session_id request.attachments) (p, b) ≡ (p, true))
        (sym there)
        (subst (λ l. register_media request.session_id l p ≡ (p, true)) (sym none_attached) refl)

  first_rendered :
      (request : CoachRequest) (p : RelayCoachProvider)
      → p.primer_sent ≡ false
      → render_for primer (some f) (tool ∷ tools) request p
        ≡ (primer (tool ∷ tools) ++ separator ++ f request, primed p)
  unfolding render_for
  first_rendered request p unsent =
      let unprimed : is_primed primer (some f) (tool ∷ tools) p ≡ false = ground arith in
      if_false
        (λ (r : Text × RelayCoachProvider).
          r ≡ (primer (tool ∷ tools) ++ separator ++ f request, primed p))
        (is_primed primer (some f) (tool ∷ tools) p) _ _ unprimed refl

  throws :
      (o : Option (RelayConnectionOptions × RelayConnection)) (options : RelayConnectionOptions)
      (c : RelayConnection) (session_id : Text) (message : WireMessage) (q : RelayCoachProvider)
      → o ≡ some (options, c)
      → Client.send session_id message (unreported c) ≡ none
      → send_on o session_id message q ≡ (q, false)
  throws o options c session_id message q there shut =
      subst (λ o. send_on o session_id message q ≡ (q, false)) (sym there)
        (subst (λ r. as_sent (reported_if options r q) q ≡ (q, false)) (sym shut) refl)

  request-unsent :
      (request : CoachRequest) (options : RelayConnectionOptions) (c : RelayConnection)
      (p : RelayCoachProvider)
      → p.connection ≡ some (options, c)
      → p.primer_sent ≡ false
      → request.attachments ≡ []
      → ((message : WireMessage) → Client.send request.session_id message (unreported c) ≡ none)
      → send_request primer (some f) (tool ∷ tools) request p ≡ (primed p, false)
  unfolding send_request
  request-unsent request options c p connected unsent none_attached shut =
      let there : is_some p.connection ≡ true = rw (connected) refl in
      let next = λ (q : RelayCoachProvider).
        send_rendered primer (some f) (tool ∷ tools) request
          (render_for primer (some f) (tool ∷ tools) request q) in
      ap (then_send next) (no_media request p none_attached there)
      ∙ ap (send_rendered primer (some f) (tool ∷ tools) request) (first_rendered request p unsent)
      ∙ throws p.connection options c request.session_id _ (primed p) connected (shut _)

  -- The first request of a session, without attachments, over a connection whose socket is not open:
  -- the send throws and sends nothing, but the primer counts as sent, and the next request is
  -- rendered without it.
  pub send_request-unsent :
      (request next : CoachRequest) (options : RelayConnectionOptions) (c : RelayConnection)
      (p : RelayCoachProvider)
      → p.connection ≡ some (options, c)
      → p.primer_sent ≡ false
      → request.attachments ≡ []
      → ((message : WireMessage) → Client.send request.session_id message (unreported c) ≡ none)
      → let (q, sent) = send_request primer (some f) (tool ∷ tools) request p in
        (sent ≡ false)
        × (q.effects ≡ p.effects)
        × ((render_for primer (some f) (tool ∷ tools) next q).0 ≡ f next)
  unfolding render_for
  send_request-unsent request next options c p connected unsent none_attached shut =
      subst
        (λ (r : RelayCoachProvider × Bool).
          (r.1 ≡ false)
          × (r.0.effects ≡ p.effects)
          × ((render_for primer (some f) (tool ∷ tools) next r.0).0 ≡ f next))
        (sym (request-unsent request options c p connected unsent none_attached shut))
        (refl, refl, refl)
