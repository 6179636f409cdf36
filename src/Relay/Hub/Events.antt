-- ===== src/Relay/Hub/Events.antt =====
-- What happens to the hub of hub.ts from outside, in any order, and the states that it reaches.
use dumbwaystodie.Prelude.{
  ℕ, ◌-◌, not, ◌&&◌, Option, none, List, [], ◌∷◌, Text, lit, ltb, nat_eq, list_eq, ◌≡◌, refl, inl,
  inr, arith, Option-cases, if_both,
}
use dumbwaystodie.Protocol.Wire.{timeout}
use dumbwaystodie.Relay.Hub.{Hub, Connection, Effect, emit, update, object, reject}
use dumbwaystodie.Relay.Hub.Objects.{
  objects-send, Fades, Fades-refl, Fades-trans, Fades-modify, Fades-drop_connection, Fades-reject,
  shut, shut-Dims,
}
use dumbwaystodie.Relay.Hub.Route.{settle}
use dumbwaystodie.Relay.Hub.Session.{
  Frame, on_message, on_pong, on_close, on_handshake_timeout, sweep_one, sweep_all, sweep, ask,
  on_ask_timeout, claim_browser_pairing,
}
use dumbwaystodie.Relay.Hub.Service.{is_loopback, on_connection, close, Fades-end_all}
use dumbwaystodie.Relay.Hub.Roles.{serving, Fresh, IsExclusive, Fades-IsExclusive}
use dumbwaystodie.Relay.Hub.Exclusive.{
  accept-IsExclusive, touched-IsExclusive, Eq-IsExclusive, on_message-IsExclusive,
}

abbrev pub init : Text → Hub
init token = record {
  token = token;
  objects = [];
  pending = [];
  media = [];
  answers = [];
  tool_callers = [];
  tools = none;
  pairing_open_until = 0;
  outbox = [];
}

pub data Event : Type 0 where
  accepted : (remote id : Text) (now : ℕ) → Event
  message : (now : ℕ) (id : Text) → Frame → Event
  ponged : (now : ℕ) (id : Text) → Event
  gone : (id : Text) → Event
  handshake_over : (id : Text) → Event
  heartbeat : (now stale_ms : ℕ) → Event
  pairing_claimed : (now : ℕ) → Event
  asked : (request_id session text : Text) → Event
  ask_over : (request_id : Text) → Event
  closing : Event

-- `createId` gives a new connection an id that no other has.
abbrev pub Allowed : Event → Hub → Type 0
Allowed (accepted remote id now) h = Fresh id h.objects
Allowed _ h = Unit

module _ (hmac : Text → Text → Text) where
  unfoldable pub step : Event → Hub → Hub
  step (accepted remote id now) h = (on_connection remote id now h).1
  step (message now id frame) h = on_message hmac now id frame h
  step (ponged now id) h = on_pong now id h
  step (gone id) h = on_close id h
  step (handshake_over id) h = on_handshake_timeout id h
  step (heartbeat now stale_ms) h = sweep now stale_ms h
  step (pairing_claimed now) h = (claim_browser_pairing hmac now h).1
  step (asked id session text) h = ask id session text h
  step (ask_over id) h = on_ask_timeout id h
  step closing h = close h

  pub data Reachable (token : Text) : Hub → Type 0 where
    start : Reachable token (init token)
    next : {h : Hub} (e : Event) → Reachable token h → Allowed e h → Reachable token (step e h)

init-IsExclusive : (token : Text) → IsExclusive (init token)
unfolding serving
init-IsExclusive token = record { distinct = tt; one = λ k ne. omega arith }

Fades-sweep_one :
    (now stale_ms : ℕ) (c : Connection) (h : Hub)
    → Fades h.objects (sweep_one now stale_ms c h).objects
unfolding sweep_one
Fades-sweep_one now stale_ms c h =
    let shut_hub = update c.id shut (emit (Effect.terminated c.id) h) in
    if_both (λ (g : Hub). Fades h.objects g.objects) (ltb stale_ms (now - c.last_seen_at)) _ _
      (Fades-trans h.objects shut_hub.objects _ (Fades-modify c.id shut h.objects shut-Dims)
        (Fades-drop_connection c.id shut_hub))
      (if_both (λ (g : Hub). Fades h.objects g.objects) c.is_open _ _ (Fades-refl h.objects)
        (Fades-refl h.objects))

Fades-sweep_all :
    (now stale_ms : ℕ) (cs : List Connection) (h : Hub)
    → Fades h.objects (sweep_all now stale_ms cs h).objects
unfolding sweep_all
Fades-sweep_all now stale_ms [] h = Fades-refl h.objects
Fades-sweep_all now stale_ms (c ∷ cs) h =
    Fades-trans h.objects (sweep_one now stale_ms c h).objects _ (Fades-sweep_one now stale_ms c h)
      (Fades-sweep_all now stale_ms cs (sweep_one now stale_ms c h))

on_close-IsExclusive : (id : Text) (h : Hub) → IsExclusive h → IsExclusive (on_close id h)
unfolding on_close
on_close-IsExclusive id h v =
    Fades-IsExclusive _ _ (Fades-drop_connection id _) (touched-IsExclusive shut id h shut-Dims v)

on_handshake_timeout-IsExclusive :
    (id : Text) (h : Hub) → IsExclusive h → IsExclusive (on_handshake_timeout id h)
unfolding on_handshake_timeout
on_handshake_timeout-IsExclusive id h v =
    let late = reject id timeout (lit "No adapter.hello within the handshake window.") h in
    elim (Option-cases (object id h)) [
      | inl e ↦ rw (e, on_handshake_timeout) v
      | inr (c, e) ↦
          rw (e, on_handshake_timeout)
            (if_both IsExclusive (c.handshake_timer && not c.authenticated) late h
              (Fades-IsExclusive h late (Fades-reject id timeout _ h) v) v)
    ]

objects-ask : (id session text : Text) (h : Hub) → (ask id session text h).objects ≡ h.objects
unfolding ask
objects-ask id session text h = grind (arith, objects-send)

objects-on_ask_timeout : (id : Text) (h : Hub) → (on_ask_timeout id h).objects ≡ h.objects
unfolding on_ask_timeout settle
objects-on_ask_timeout id h = ground arith

objects-claim :
    (hmac : Text → Text → Text) (now : ℕ) (h : Hub)
    → (claim_browser_pairing hmac now h).1.objects ≡ h.objects
unfolding claim_browser_pairing
objects-claim hmac now h = ground arith

module _ (hmac : Text → Text → Text) where
  step-IsExclusive :
      (e : Event) (h : Hub) → Allowed e h → IsExclusive h → IsExclusive (step hmac e h)
  unfolding step on_pong sweep on_connection close
  step-IsExclusive (accepted remote id now) h a v =
      if_both (λ (g : Option ℕ × Hub). IsExclusive g.1) (is_loopback remote) _ _
        (accept-IsExclusive id now h a v) v
  step-IsExclusive (message now id frame) h a v = on_message-IsExclusive hmac now id frame h v
  step-IsExclusive (ponged now id) h a v =
      touched-IsExclusive (λ c. record c { last_seen_at = now }) id h
        (record { same_id = λ c. refl; no_role = λ k c s. s }) v
  step-IsExclusive (gone id) h a v = on_close-IsExclusive id h v
  step-IsExclusive (handshake_over id) h a v = on_handshake_timeout-IsExclusive id h v
  step-IsExclusive (heartbeat now stale_ms) h a v =
      Fades-IsExclusive h _ (Fades-sweep_all now stale_ms _ h) v
  step-IsExclusive (pairing_claimed now) h a v = Eq-IsExclusive h _ (objects-claim hmac now h) v
  step-IsExclusive (asked id session text) h a v =
      Eq-IsExclusive h _ (objects-ask id session text h) v
  step-IsExclusive (ask_over id) h a v = Eq-IsExclusive h _ (objects-on_ask_timeout id h) v
  step-IsExclusive closing h a v = Fades-IsExclusive h (close h) (Fades-end_all h.objects) v

  -- Whatever happens, at most one connection is attached as editor, one as provider and one as
  -- browser, and no two connections share an id.
  pub Reachable-IsExclusive : (token : Text) {h : Hub} → Reachable hmac token h → IsExclusive h
  Reachable-IsExclusive token start = init-IsExclusive token
  Reachable-IsExclusive token (next {h} e r a) =
      step-IsExclusive e h a (Reachable-IsExclusive token r)
