-- ===== src/Transport/Settled/Kept.antt =====
-- Every opening that RelayCoachProvider.ts is asked for is settled, and once.
use dumbwaystodie.Prelude.{
  ℕ, ◌+◌, ◌≤◌, none, some, Option, List, [], ◌∷◌, false, Text, lookup, nat_eq, list_eq, if_both,
  ◌≡◌, refl, ◌∙◌, ap, arith,
}
use dumbwaystodie.Protocol.Wire.{ToolDescriptor, CoachRequest, HopState, ConnectionState}
use dumbwaystodie.Relay.Client
use dumbwaystodie.Relay.Client.{
  RelayConnection, RelayConnectionOptions, ClientEffect, clear_timers, set_state, same_state,
  effect_on,
}
use dumbwaystodie.Transport.{
  on_state_change, new_provider, RelayCoachProvider, ProviderEffect, listen, unlisten,
  finish_all_surface_opens,
}
use dumbwaystodie.Transport.Relayed.{
  on_former_event, former_get, retired, connect, connect_to, connected, disconnect, open_pairing,
  send_tool_result, on_relay_event, close_connection, lost_relay, relay_effects, relay_effect,
}
use dumbwaystodie.Transport.Openings.{open_surface, on_open_timeout, list_models, on_models_timeout}
use dumbwaystodie.Transport.Events
use dumbwaystodie.Transport.Events.{
  ProviderEvent, connect_called, endpoint_found, welcomed, pair_called, open_called, models_called,
  request_called, result_called, listen_called, unlisten_called, relay_event, former_event,
  open_timeout, models_timeout, disconnect_called,
}
use dumbwaystodie.Transport.Settled.{
  occurs, asked, settled, IsBalanced, finish_all-IsBalanced, finish_all-none,
}
use dumbwaystodie.Transport.Settled.Steps.{effect-IsBalanced, settle_models-IsBalanced}
use dumbwaystodie.Transport.Settled.Methods.{
  open_through-IsBalanced, open_expired-IsBalanced, list_through-IsBalanced, close-IsBalanced,
  relay_step-IsBalanced, publish-IsBalanced, pair-IsBalanced, result-IsBalanced, request-IsBalanced,
  connect_to-IsBalanced, fields-IsBalanced, former_step-IsBalanced,
}

on_state_change-pending :
    (state : ConnectionState) (detail : Option Text) (p : RelayCoachProvider)
    → (on_state_change state detail p).pending_surface_opens ≡ p.pending_surface_opens
unfolding on_state_change
on_state_change-pending ConnectionState.connected detail p = refl
on_state_change-pending state detail p = refl

shut-pending :
    (o : Option ℕ) (p : RelayCoachProvider)
    → (relay_effects (effect_on ClientEffect.closed o []) p).pending_surface_opens
      ≡ p.pending_surface_opens
unfolding relay_effects relay_effect
shut-pending none p = refl
shut-pending (some id) p = refl

set_state-pending :
    (state : ConnectionState) (detail : Option Text) (c : RelayConnection) (p : RelayCoachProvider)
    → (relay_effects (set_state state detail c).effects p).pending_surface_opens
      ≡ (relay_effects c.effects p).pending_surface_opens
unfolding relay_effects relay_effect set_state
set_state-pending state detail c p =
    if_both
      (λ (d : RelayConnection).
        (relay_effects d.effects p).pending_surface_opens
        ≡ (relay_effects c.effects p).pending_surface_opens)
      (same_state c.state state) c (record c { state = state; effects = _ }) refl
      (on_state_change-pending state detail (relay_effects c.effects p))

-- Closing the connection delivers nothing.
close-pending :
    (c : Option (RelayConnectionOptions × RelayConnection)) (p : RelayCoachProvider)
    → (close_connection c p).pending_surface_opens ≡ p.pending_surface_opens
unfolding Client.close clear_timers
close-pending none p = refl
close-pending (some (options, c)) p = set_state-pending _ _ _ _ ∙ shut-pending c.socket _

-- An id is used for one opening.
abbrev pub IsNew : ProviderEvent → RelayCoachProvider → Type 0
IsNew (open_called id model page variant) p = asked id p.effects ≡ 0
IsNew e p = Unit

module _ (primer : List ToolDescriptor → Text) (render : Option (CoachRequest → Text))
    (tools : List ToolDescriptor) where
  abbrev pub AreNew : List ProviderEvent → RelayCoachProvider → Type 0
  AreNew [] p = Unit
  AreNew (e ∷ es) p = IsNew e p × AreNew es (Events.step primer render tools e p)

  disconnect-IsBalanced : (p : RelayCoachProvider) → IsBalanced p → IsBalanced (disconnect p)
  unfolding disconnect
  disconnect-IsBalanced p h =
      let finished = finish_all_surface_opens lost_relay p in
      let closed = close_connection finished.connection finished in
      effect-IsBalanced (ProviderEffect.provider_presence false) _ (λ i. refl) (λ i. refl)
        (effect-IsBalanced (ProviderEffect.relay_state HopState.disconnected none) _ (λ i. refl)
          (λ i. refl)
          (fields-IsBalanced none (retired closed.connection closed.former) [] closed.session_id
            closed.primer_sent closed
            (close-IsBalanced finished.connection finished (finish_all-IsBalanced lost_relay p h))))

  step-IsBalanced :
      (e : ProviderEvent) (p : RelayCoachProvider)
      → IsNew e p
      → IsBalanced p
      → IsBalanced (Events.step primer render tools e p)
  unfolding Events.step connect connect_to connected open_pairing open_surface list_models
      send_tool_result listen unlisten on_relay_event on_former_event on_open_timeout
      on_models_timeout
  step-IsBalanced (connect_called session_id) p n h =
      effect-IsBalanced (ProviderEffect.relay_state HopState.connecting none) _ (λ i. refl)
        (λ i. refl) (fields-IsBalanced p.connection p.former p.listeners session_id false p h)
  step-IsBalanced (endpoint_found host port token adapter_id) p n h =
      connect_to-IsBalanced host port token adapter_id p h
  step-IsBalanced (welcomed published) p n h = publish-IsBalanced p.connection published p h
  step-IsBalanced (pair_called duration) p n h = pair-IsBalanced p.connection duration p h
  step-IsBalanced (open_called id model page variant) p n h =
      open_through-IsBalanced p.connection id model page variant p n h
  step-IsBalanced (models_called id model) p n h = list_through-IsBalanced p.connection id model p h
  step-IsBalanced (request_called request) p n h =
      request-IsBalanced primer render tools request p h
  step-IsBalanced (result_called result) p n h = result-IsBalanced p.connection result p h
  step-IsBalanced (listen_called id) p n h =
      fields-IsBalanced p.connection p.former _ p.session_id p.primer_sent p h
  step-IsBalanced (unlisten_called id) p n h =
      fields-IsBalanced p.connection p.former _ p.session_id p.primer_sent p h
  step-IsBalanced (relay_event e) p n h = relay_step-IsBalanced p.connection e p h
  step-IsBalanced (former_event i e) p n h = former_step-IsBalanced i (former_get i p.former) e p h
  step-IsBalanced (open_timeout id) p n h =
      open_expired-IsBalanced (lookup id p.open_timers) id p refl h
  step-IsBalanced (models_timeout id) p n h = settle_models-IsBalanced _ id [] _ p h
  step-IsBalanced disconnect_called p n h = disconnect-IsBalanced p h

  run-IsBalanced :
      (es : List ProviderEvent) (p : RelayCoachProvider)
      → AreNew es p
      → IsBalanced p
      → IsBalanced (Events.run primer render tools es p)
  unfolding Events.run
  run-IsBalanced [] p n h = h
  run-IsBalanced (e ∷ es) p (n, ns) h = run-IsBalanced es _ ns (step-IsBalanced e p n h)

  new-IsBalanced : IsBalanced new_provider
  unfolding IsBalanced
  new-IsBalanced id = (refl, refl, omega arith)

  -- Whatever happens, an opening that was asked for is settled already, once, or it has a timer that
  -- is to fire.
  pub run-settled :
      (es : List ProviderEvent) (id : Text)
      → AreNew es new_provider
      → let p = Events.run primer render tools es new_provider in
        (asked id p.effects ≡ settled id p.effects + occurs id p.open_timers)
        × (occurs id p.open_timers ≤ 1)
  unfolding IsBalanced
  run-settled es id n =
      let (a, t, o) = run-IsBalanced es new_provider n new-IsBalanced id in (a, omega (arith, t, o))

  -- After any calls, timers and events of the present connection and of earlier ones, and a disconnect,
  -- every opening that was asked for is settled, and once, where ids are new.
  pub disconnect-settled :
      (es : List ProviderEvent) (id : Text)
      → AreNew es new_provider
      → let p = disconnect (Events.run primer render tools es new_provider) in
        settled id p.effects ≡ asked id p.effects
  unfolding IsBalanced disconnect
  disconnect-settled es id n =
      let p = Events.run primer render tools es new_provider in
      let (a, t, o) =
        disconnect-IsBalanced p (run-IsBalanced es new_provider n new-IsBalanced) id in
      let finished = finish_all_surface_opens lost_relay p in
      let closed = ap (λ m. occurs id m) (close-pending finished.connection finished) in
      let nothing = finish_all-none lost_relay p id in omega (arith, a, t, closed, nothing)
