-- ===== src/Relay/Client/Final.antt =====
-- A connection of client.ts that was closed, or refused, opens no further socket.
use dumbwaystodie.Prelude.{
  if_true, ℕ, ◌-◌, true, false, none, some, Option, List, [], ◌∷◌, Text, lookup, if_both, All,
  nat_eq, ◌≡◌, refl, arith, ltb,
}
use dumbwaystodie.Protocol.Wire.{WireMessage, RejectReason, ConnectionState, heartbeat_stale_ms}
use dumbwaystodie.Relay.Client.{
  RelayConnectionOptions, Socket, RelayConnection, set_state, ClientEffect, clear_timer,
  clear_timers, close, connect, new_connection, on_socket_open, on_welcome, on_rejected,
  handle_message, on_socket_message, on_socket_close, on_heartbeat, send, send_on, or_thrown,
  has_ready_state, socket_open, socket_connecting, ClientEvent, step, run, with_found, same_state,
}
use dumbwaystodie.Relay.Client.Link.{
  Link, offline, ending, live, waiting, Refines, not_found, clear_timer-none, clear_timer-one,
}
use dumbwaystodie.Relay.Client.Link.Runs.{is_reconnected, run-LinkRun, connect-Refines}
use dumbwaystodie.Relay.Client.Retries.{opens, effect_on-opens}

-- Closed by the caller or refused, without a timer, after `k` sockets.
abbrev IsShut : ℕ → RelayConnection → Type 0
IsShut k c = (c.timers ≡ []) × (c.closed_by_us ≡ true) × (opens c.effects ≡ k)

set_state-IsShut :
    (state : ConnectionState) (detail : Option Text) (k : ℕ) (c : RelayConnection)
    → IsShut k c
    → IsShut k (set_state state detail c)
unfolding set_state
set_state-IsShut state detail k c (t, b, o) =
    if_both (λ d. IsShut k d) (same_state c.state state) c _ (t, b, o) (t, b, omega (arith, o))

-- Without a timer, or with the one that `clearTimers` knows.
close-IsShut :
    (c : RelayConnection) (k : ℕ)
    → clear_timer c.reconnect_timer c.timers ≡ []
    → opens c.effects ≡ k
    → IsShut k (close c)
unfolding close clear_timers
close-IsShut c k t o =
    let same = effect_on-opens ClientEffect.closed c.socket c.effects (λ id. refl) in
    set_state-IsShut ConnectionState.disconnected none k _ (t, refl, omega (arith, same, o))

Refines-clear :
    (c : RelayConnection) (l : Link) → Refines c l → clear_timer c.reconnect_timer c.timers ≡ []
Refines-clear c offline (s, t) = clear_timer-none c.reconnect_timer c.timers t
Refines-clear c ending (s, t, b) = clear_timer-none c.reconnect_timer c.timers t
Refines-clear c (live n) (s, t, b, a) = clear_timer-none c.reconnect_timer c.timers t
Refines-clear c (waiting n) ((id, r, t, o), s, b, a) =
    clear_timer-one c.reconnect_timer c.timers id r t o

module _ (options : RelayConnectionOptions) where
  rejected-IsShut :
      (fatal k : ℕ) (text : Text) (c : RelayConnection)
      → c.timers ≡ []
      → opens c.effects ≡ k
      → IsShut k (on_rejected options fatal text c)
  unfolding on_rejected
  rejected-IsShut fatal k text c t o =
      let c' : RelayConnection = record c { closed_by_us = true } in
      let d = set_state ConnectionState.error (some text) c' in
      let (t', b', o') = set_state-IsShut ConnectionState.error (some text) k c' (t, refl, o) in
      let same =
        effect_on-opens ClientEffect.closed d.socket (ClientEffect.rejected fatal text ∷ d.effects)
          (λ id. refl) in
      (t', b', omega (arith, same, o'))

  message-IsShut :
      (fatal k : ℕ) (message : WireMessage) (c : RelayConnection)
      → IsShut k c
      → IsShut k (handle_message options fatal message c)
  unfolding handle_message on_welcome
  message-IsShut fatal k (WireMessage.adapter_welcome i j ks) c h =
      let c' : RelayConnection = record c { attempts = 0 } in
      let d = set_state ConnectionState.connected none c' in
      let (t', b', o') = set_state-IsShut ConnectionState.connected none k c' h in
      let same = effect_on-opens ClientEffect.resolved d.welcomed d.effects (λ id. refl) in
      (t', b', omega (arith, same, o'))
  message-IsShut fatal k (WireMessage.adapter_rejected i text) c (t, b, o) =
      rejected-IsShut fatal k text c t o
  message-IsShut fatal k message c (t, b, o) = (t, b, omega (arith, o))

  with_found-IsShut :
      {A : Type 0} (k : ℕ) (o : Option A) (handle : A → RelayConnection → RelayConnection)
      (c : RelayConnection)
      → IsShut k c
      → ((a : A) → o ≡ some a → IsShut k (handle a c))
      → IsShut k (with_found o handle c)
  with_found-IsShut k none handle c h found = h
  with_found-IsShut k (some a) handle c h found = found a refl

  send-IsShut :
      (k : ℕ) (o : Option ℕ) (session_id : Text) (message : WireMessage) (c : RelayConnection)
      → IsShut k c
      → IsShut k (or_thrown (send_on o session_id message c) c)
  send-IsShut k none session_id message c h = h
  send-IsShut k (some id) session_id message c (t, b, o) =
      if_both (λ d. IsShut k (or_thrown d c)) (has_ready_state socket_open (lookup id c.sockets)) _
        none (t, b, omega (arith, o)) (t, b, o)

  step-IsShut :
      (k : ℕ) (e : ClientEvent) (c : RelayConnection)
      → is_reconnected e ≡ false
      → IsShut k c
      → IsShut k (step options e c)
  unfolding step send on_socket_message on_socket_open on_socket_close clear_timers on_heartbeat
  step-IsShut k ClientEvent.connect_called c n h = let no : ⊥ = ground arith in absurd no
  step-IsShut k ClientEvent.close_called c n (t, b, o) =
      close-IsShut c k (clear_timer-none c.reconnect_timer c.timers t) o
  step-IsShut k (ClientEvent.send_called session message) c n h =
      send-IsShut k c.socket session message c h
  step-IsShut k (ClientEvent.opened_at now id) c n (t, b, o) =
      with_found-IsShut k (lookup id c.sockets) _ c (t, b, o)
        (λ s found.
          if_both (λ d. IsShut k d) (has_ready_state socket_connecting (some s))
            (on_socket_open options now id s c) c (t, b, omega (arith, o)) (t, b, o))
  step-IsShut k (ClientEvent.message_at now id none) c n h =
      with_found-IsShut k (lookup id c.sockets) _ c h (λ s found. h)
  step-IsShut k (ClientEvent.message_at now id (some message)) c n h =
      with_found-IsShut k (lookup id c.sockets) _ c h
        (λ s found. message-IsShut s.fatal k message (record c { last_seen_at = now }) h)
  step-IsShut k (ClientEvent.ping_at now id) c n h =
      with_found-IsShut k (lookup id c.sockets) _ c h (λ s found. h)
  step-IsShut k (ClientEvent.socket_closed id) c n (t, b, o) =
      with_found-IsShut k (lookup id c.sockets) _ c (t, b, o)
        (λ s found.
          if_true (λ d. IsShut k d) c.closed_by_us _ _ b
            (clear_timer-none c.reconnect_timer c.timers t, b, o))
  step-IsShut k (ClientEvent.timer_fired id) c n (t, b, o) =
      with_found-IsShut k (lookup id c.timers) _ c (t, b, o)
        (λ r found. not_found id r c.timers t found)
  step-IsShut k (ClientEvent.heartbeat_at now) c n (t, b, o) =
      let same = effect_on-opens ClientEffect.terminated c.socket c.effects (λ id. refl) in
      if_both (λ d. IsShut k d) c.heartbeat_timer (on_heartbeat options now c) c
        (if_both (λ d. IsShut k d) (ltb heartbeat_stale_ms (now - c.last_seen_at)) _ c
          (t, b, omega (arith, same, o)) (t, b, o))
        (t, b, o)

  run-IsShut :
      (k : ℕ) (es : List ClientEvent) (c : RelayConnection)
      → All (λ e. is_reconnected e ≡ false) es
      → IsShut k c
      → IsShut k (run options es c)
  unfolding run
  run-IsShut k [] c a h = h
  run-IsShut k (e ∷ es) c (n, a) h = run-IsShut k es (step options e c) a (step-IsShut k e c n h)

  link-final :
      (es : List ClientEvent) (c : RelayConnection) (l : Link)
      → All (λ e. is_reconnected e ≡ false) es
      → Refines c l
      → (opens (run options es (close c)).effects ≡ opens c.effects)
        × ((run options es (close c)).timers ≡ [])
  link-final es c l a h =
      let (t, b, o) =
        run-IsShut (opens c.effects) es (close c) a
          (close-IsShut c (opens c.effects) (Refines-clear c l h) refl) in
      (o, t)

  -- A connection that connects once, has any events, and is closed: whatever comes then but a call of
  -- `connect`, no socket is opened, and no reconnect timer waits.
  pub close-final :
      (before es : List ClientEvent)
      → All (λ e. is_reconnected e ≡ false) before
      → All (λ e. is_reconnected e ≡ false) es
      → let c = run options before (connect options new_connection) in
        (opens (run options es (close c)).effects ≡ opens c.effects)
        × ((run options es (close c)).timers ≡ [])
  close-final before es a b =
      let (l, steps, h) =
        run-LinkRun options before (connect options new_connection) (live 0) a
          (connect-Refines options new_connection (refl, refl)) in
      link-final es (run options before (connect options new_connection)) l b h

  -- After a refusal, whatever comes but a call of `connect`, no socket is opened and no reconnect timer
  -- waits.
  pub rejected-final :
      (es : List ClientEvent) (now id n : ℕ) (reason : RejectReason) (text : Text) (s : Socket)
      (c : RelayConnection)
      → All (λ e. is_reconnected e ≡ false) es
      → Refines c (live n)
      → lookup id c.sockets ≡ some s
      → let refused =
          step options
            (ClientEvent.message_at now id (some (WireMessage.adapter_rejected reason text)))
            c in
        (opens (run options es refused).effects ≡ opens c.effects)
        × ((run options es refused).timers ≡ [])
  unfolding step on_socket_message handle_message
  rejected-final es now id n reason text s c a (h, t, b, at) found =
      let refused =
        step options
          (ClientEvent.message_at now id (some (WireMessage.adapter_rejected reason text))) c in
      let shut : IsShut (opens c.effects) refused =
        rw (found) (
          rejected-IsShut s.fatal (opens c.effects) text (record c { last_seen_at = now }) t
            refl) in
      let (t', b', o') = run-IsShut (opens c.effects) es refused a shut in (o', t')
