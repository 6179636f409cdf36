-- ===== src/Relay/Client/Link/Runs.antt =====
-- A run of client.ts is a run of the link.
use dumbwaystodie.Prelude.{
  ℕ, suc, Bool, true, false, none, some, Option, List, [], ◌∷◌, Text, Map, lookup, if◌then◌else◌,
  if_both, All, ◌&&◌, is_some, ap, nat_eq, ◌≡◌, refl, arith, ltb, ◌-◌,
}
use dumbwaystodie.Protocol.Wire.{WireMessage, heartbeat_stale_ms}
use dumbwaystodie.Relay.Client.{
  RelayConnectionOptions, Socket, RelayConnection, closing, connect, open_socket, on_socket_open,
  on_socket_message, on_heartbeat, send, send_on, or_thrown, socket_connecting, if_connecting,
  ClientEvent, step, run, ClientEffect, effect_on, has_ready_state, socket_open,
}
use dumbwaystodie.Relay.Client.Link.{
  Link, is_live, is_turn, offline, ending, live, waiting, LinkStep, Refines, Moves, insert-none,
  insert-one, closing-one, closing-none, not_found,
}
use dumbwaystodie.Relay.Client.Link.Handlers.{
  close-Refines, socket_close-Refines, timer-Refines, message-Refines, with_found-Moves,
  set_state-IsDown,
}

-- The callers may connect once only, so that no other socket is there.
abbrev pub is_reconnected : ClientEvent → Bool
is_reconnected ClientEvent.connect_called = true
is_reconnected event = false

-- Other effects and another time change nothing, nor does another state of the socket.
shape-Refines :
    (m : Map ℕ Socket) (now : ℕ) (effects : List ClientEffect) (c : RelayConnection) (l : Link)
    → Refines c l
    → (c.sockets ≡ [] → m ≡ [])
    → ((id : ℕ) → (s : Socket) → c.sockets ≡ (id, s) ∷ [] → (s' : Socket) × (m ≡ (id, s') ∷ []))
    → Refines (record c { sockets = m; last_seen_at = now; effects = effects }) l
shape-Refines m now effects c offline (s, t) empty one = (empty s, t)
shape-Refines m now effects c ending ((id, r, s), t, b) empty one =
    let (r', s') = one id r s in ((id, r', s'), t, b)
shape-Refines m now effects c (live n) ((id, r, s), t, b, a) empty one =
    let (r', s') = one id r s in ((id, r', s'), t, b, a)
shape-Refines m now effects c (waiting n) (t, s, b, a) empty one = (t, empty s, b, a)

seen-Refines :
    (now : ℕ) (effects : List ClientEffect) (c : RelayConnection) (l : Link)
    → Refines c l
    → Refines (record c { last_seen_at = now; effects = effects }) l
seen-Refines now effects c l h =
    shape-Refines c.sockets now effects c l h (λ s. s) (λ id r s. (r, s))

send-Refines :
    (o : Option ℕ) (session_id : Text) (message : WireMessage) (c : RelayConnection) (l : Link)
    → Refines c l
    → Refines (or_thrown (send_on o session_id message c) c) l
send-Refines none session_id message c l h = h
send-Refines (some id) session_id message c l h =
    if_both (λ o. Refines (or_thrown o c) l) (has_ready_state socket_open (lookup id c.sockets)) _
      none (seen-Refines c.last_seen_at (ClientEffect.sent id session_id message ∷ c.effects) c l h)
      h

opened-Refines :
    (options : RelayConnectionOptions) (now id : ℕ) (s : Socket) (c : RelayConnection) (l : Link)
    → Refines c l
    → lookup id c.sockets ≡ some s
    → Refines (if_connecting (on_socket_open options now id) s c) l
unfolding on_socket_open
opened-Refines options now id s c l h found =
    if_both (λ d. Refines d l) (has_ready_state socket_connecting (some s))
      (on_socket_open options now id s c) c
      (shape-Refines _ now (on_socket_open options now id s c).effects c l h
        (λ e. not_found id s c.sockets e found)
        (λ j r e. (_, insert-one id j s r _ c.sockets e found)))
      h

heartbeat-Refines :
    (options : RelayConnectionOptions) (now : ℕ) (c : RelayConnection) (l : Link)
    → Refines c l
    → Refines (if c.heartbeat_timer then on_heartbeat options now c else c) l
unfolding on_heartbeat
heartbeat-Refines options now c l h =
    let stale =
      shape-Refines (closing c.socket c.sockets) c.last_seen_at
        (effect_on ClientEffect.terminated c.socket c.effects) c l h
        (closing-none c.socket c.sockets) (λ id s e. closing-one c.socket id s c.sockets e) in
    if_both (λ d. Refines d l) c.heartbeat_timer (on_heartbeat options now c) c
      (if_both (λ d. Refines d l) (ltb heartbeat_stale_ms (now - c.last_seen_at)) _ c stale h) h

nothing_due : (a b : Bool) → (a && (b && false)) ≡ false
nothing_due true true = refl
nothing_due true false = refl
nothing_due false b = refl

pub step-Moves :
    (options : RelayConnectionOptions) (e : ClientEvent) (c : RelayConnection) (l : Link)
    → is_reconnected e ≡ false
    → Refines c l
    → Moves options c e l (step options e c)
unfolding step send on_socket_message
step-Moves options ClientEvent.connect_called c l n h = let no : ⊥ = ground arith in absurd no
step-Moves options ClientEvent.close_called c l n h = close-Refines options c l h
step-Moves options (ClientEvent.send_called session message) c l n h =
    (l, LinkStep.stayed refl, send-Refines c.socket session message c l h)
step-Moves options (ClientEvent.opened_at now id) c l n h =
    with_found-Moves options (ClientEvent.opened_at now id) (lookup id c.sockets) _ c l h
      (λ e. refl)
      (λ s found. (l, LinkStep.stayed refl, opened-Refines options now id s c l h found))
step-Moves options (ClientEvent.message_at now id none) c l n h =
    with_found-Moves options (ClientEvent.message_at now id none) (lookup id c.sockets) _ c l h
      (λ e. refl) (λ s found. (l, LinkStep.stayed refl, seen-Refines now c.effects c l h))
step-Moves options (ClientEvent.message_at now id (some message)) c l n h =
    with_found-Moves options (ClientEvent.message_at now id (some message)) (lookup id c.sockets) _
      c l h (λ e. rw (e) (nothing_due (is_live l) (is_turn message)))
      (λ s found.
        message-Refines options c now id s.fatal message (record c { last_seen_at = now }) l
          (seen-Refines now c.effects c l h) id s found)
step-Moves options (ClientEvent.ping_at now id) c l n h =
    with_found-Moves options (ClientEvent.ping_at now id) (lookup id c.sockets) _ c l h (λ e. refl)
      (λ s found. (l, LinkStep.stayed refl, seen-Refines now c.effects c l h))
step-Moves options (ClientEvent.socket_closed id) c l n h =
    with_found-Moves options (ClientEvent.socket_closed id) (lookup id c.sockets) _ c l h
      (λ e. ap is_some e) (λ s found. socket_close-Refines options id s c l h found)
step-Moves options (ClientEvent.timer_fired id) c l n h =
    with_found-Moves options (ClientEvent.timer_fired id) (lookup id c.timers) _ c l h
      (λ e. ap is_some e) (λ t found. timer-Refines options id t c l h found)
step-Moves options (ClientEvent.heartbeat_at now) c l n h =
    (l, LinkStep.stayed refl, heartbeat-Refines options now c l h)

-- A step of the link for each event.
pub data LinkRun (options : RelayConnectionOptions)
    : RelayConnection → List ClientEvent → Link → Link → Type 0 where
  done : {c : RelayConnection} {l : Link} → LinkRun options c [] l l
  next :
      {c : RelayConnection} {e : ClientEvent} {es : List ClientEvent} {l l' l'' : Link}
      → LinkStep options c e l l'
      → LinkRun options (step options e c) es l' l''
      → LinkRun options c (e ∷ es) l l''

-- Through any events but a further `connect`, a connection stays one of the four things, and moves
-- between them by the steps that `LinkStep` has for each event; it passes over no `close`, no welcome
-- and no refusal while it is live, no end of its socket and no timer of its own.
pub run-LinkRun :
    (options : RelayConnectionOptions) (es : List ClientEvent) (c : RelayConnection) (l : Link)
    → All (λ e. is_reconnected e ≡ false) es
    → Refines c l
    → (l' : Link) × LinkRun options c es l l' × Refines (run options es c) l'
unfolding run
run-LinkRun options [] c l a h = (l, LinkRun.done, h)
run-LinkRun options (e ∷ es) c l (n, a) h =
    let (l', s, h') = step-Moves options e c l n h in
    let (l'', r, h'') = run-LinkRun options es (step options e c) l' a h' in
    (l'', LinkRun.next s r, h'')

-- A connection that has just been made has a socket, and no try is spent.
pub connect-Refines :
    (options : RelayConnectionOptions) (c : RelayConnection)
    → Refines c offline
    → Refines (connect options c) (live c.attempts)
unfolding connect open_socket
connect-Refines options c (s, t) =
    let (s', t', b', a') =
      set_state-IsDown _ none
        (record c { closed_by_us = false; welcomed = some c.next_id; next_id = suc c.next_id })
        c.attempts (s, t, refl, refl) in
    ((_, _, insert-none _ _ _ s'), t', b', a')
