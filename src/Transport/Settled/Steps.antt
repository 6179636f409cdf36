-- ===== src/Transport/Settled/Steps.antt =====
-- Each operation of RelayCoachProvider.ts keeps the promises in balance.
use dumbwaystodie.Prelude.{
  ℕ, Bool, true, false, none, some, Option, List, [], ◌∷◌, Text, nat_eq, list_eq, ◌≡◌, refl, arith,
}
use dumbwaystodie.Protocol.Wire.{WireMessage, ConnectionState, OpenStatus, AvailableSurface}
use dumbwaystodie.Relay.Client.{RelayConnection, RelayConnectionOptions, ClientEffect}
use dumbwaystodie.Transport.{
  RelayCoachProvider, ProviderEffect, on_state_change, terminal_status, acknowledge,
  acknowledge_all, known_surfaces, emit_to, handle, settle_models, effect,
}
use dumbwaystodie.Transport.Relayed.{relay_effect, relay_effects, unreported, reported}
use dumbwaystodie.Transport.Settled.{counts_asked, counts_settled, IsBalanced, finish-IsBalanced}

-- An effect that is about no opening.
pub effect-IsBalanced :
    (e : ProviderEffect) (p : RelayCoachProvider)
    → ((id : Text) → counts_asked id e ≡ 0)
    → ((id : Text) → counts_settled id e ≡ 0)
    → IsBalanced p
    → IsBalanced (effect e p)
unfolding IsBalanced
effect-IsBalanced e p a s h id =
    let none_asked = a id in
    let none_settled = s id in
    let (b, t, o) = h id in (omega (arith, none_asked, none_settled, b), t, o)

acknowledge-IsBalanced :
    (o : Option OpenStatus) (surface : AvailableSurface) (p : RelayCoachProvider)
    → IsBalanced p
    → IsBalanced (acknowledge o surface p)
acknowledge-IsBalanced none surface p h = h
acknowledge-IsBalanced (some status) surface p h = finish-IsBalanced surface.id _ p h

acknowledge_all-IsBalanced :
    (surfaces : List AvailableSurface) (p : RelayCoachProvider)
    → IsBalanced p
    → IsBalanced (acknowledge_all surfaces p)
unfolding acknowledge_all
acknowledge_all-IsBalanced [] p h = h
acknowledge_all-IsBalanced (s ∷ ss) p h =
    acknowledge_all-IsBalanced ss _ (acknowledge-IsBalanced (terminal_status s.status) s p h)

emit_to-IsBalanced :
    (listeners : List ℕ) (message : WireMessage) (p : RelayCoachProvider)
    → IsBalanced p
    → IsBalanced (emit_to listeners message p)
unfolding emit_to
emit_to-IsBalanced [] message p h = h
emit_to-IsBalanced (l ∷ ls) message p h =
    emit_to-IsBalanced ls message _
      (effect-IsBalanced (ProviderEffect.emitted l message) p (λ id. refl) (λ id. refl) h)

pub settle_models-IsBalanced :
    (b : Bool) (id : Text) (models : List Text) (detail : Option Text) (p : RelayCoachProvider)
    → IsBalanced p
    → IsBalanced (settle_models b id models detail p)
unfolding IsBalanced
settle_models-IsBalanced false id models detail p h = h
settle_models-IsBalanced true id models detail p h =
    effect-IsBalanced (ProviderEffect.models_settled id models detail) p (λ i. refl) (λ i. refl) h

handle-IsBalanced :
    (message : WireMessage) (p : RelayCoachProvider) → IsBalanced p → IsBalanced (handle message p)
unfolding handle
handle-IsBalanced (WireMessage.adapter_registry editor provider browser) p h =
    effect-IsBalanced (ProviderEffect.browser_presence browser) _ (λ i. refl) (λ i. refl)
      (effect-IsBalanced (ProviderEffect.provider_presence provider) p (λ i. refl) (λ i. refl) h)
handle-IsBalanced (WireMessage.surface_status m) p h =
    acknowledge_all-IsBalanced (known_surfaces m.surfaces) _ (
      effect-IsBalanced (ProviderEffect.addon_build m.build) _ (λ i. refl) (λ i. refl)
        (effect-IsBalanced (ProviderEffect.surfaces_known (known_surfaces m.surfaces)) _ (λ i. refl)
          (λ i. refl)
          (effect-IsBalanced (ProviderEffect.surface_status m.paired m.surface_type m.detail) p
            (λ i. refl) (λ i. refl) h)))
handle-IsBalanced (WireMessage.surface_models_list m) p h =
    settle_models-IsBalanced _ m.request_id m.models _ p h
handle-IsBalanced (WireMessage.surface_opened m) p h = finish-IsBalanced m.request_id _ p h
handle-IsBalanced (WireMessage.coach_response r) p h = emit_to-IsBalanced p.listeners _ p h
handle-IsBalanced (WireMessage.tool_call call) p h = emit_to-IsBalanced p.listeners _ p h
handle-IsBalanced (WireMessage.provider_status status text) p h =
    emit_to-IsBalanced p.listeners _ p h
handle-IsBalanced (WireMessage.provider_error text code) p h = emit_to-IsBalanced p.listeners _ p h
handle-IsBalanced message p h = h

state_change-IsBalanced :
    (state : ConnectionState) (detail : Option Text) (p : RelayCoachProvider)
    → IsBalanced p
    → IsBalanced (on_state_change state detail p)
unfolding on_state_change
state_change-IsBalanced ConnectionState.connected detail p h =
    effect-IsBalanced (ProviderEffect.relay_state _ _) p (λ i. refl) (λ i. refl) h
state_change-IsBalanced state detail p h =
    effect-IsBalanced (ProviderEffect.provider_presence false) _ (λ i. refl) (λ i. refl)
      (effect-IsBalanced (ProviderEffect.relay_state _ _) p (λ i. refl) (λ i. refl) h)

relay_effect-IsBalanced :
    (e : ClientEffect) (p : RelayCoachProvider) → IsBalanced p → IsBalanced (relay_effect e p)
unfolding relay_effect
relay_effect-IsBalanced (ClientEffect.state_changed state detail) p h =
    state_change-IsBalanced state detail p h
relay_effect-IsBalanced (ClientEffect.delivered message) p h = handle-IsBalanced message p h
relay_effect-IsBalanced e p h =
    effect-IsBalanced (ProviderEffect.wired e) p (λ i. refl) (λ i. refl) h

pub relay_effects-IsBalanced :
    (es : List ClientEffect) (p : RelayCoachProvider)
    → IsBalanced p
    → IsBalanced (relay_effects es p)
unfolding relay_effects
relay_effects-IsBalanced [] p h = h
relay_effects-IsBalanced (e ∷ es) p h =
    relay_effect-IsBalanced e _ (relay_effects-IsBalanced es p h)

pub reported-IsBalanced :
    (options : RelayConnectionOptions) (c : RelayConnection) (p : RelayCoachProvider)
    → IsBalanced p
    → IsBalanced (reported options c p)
unfolding IsBalanced
reported-IsBalanced options c p h =
    relay_effects-IsBalanced c.effects (record p { connection = some (options, unreported c) }) h
