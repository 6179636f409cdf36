-- ===== src/Relay/Client/Retries.antt =====
-- How often client.ts tries again: the waits of the backoff, and the number of sockets that a
-- connection opens without a welcome.
use dumbwaystodie.Prelude.{
  ℕ, suc, zero, ◌+◌, ◌-◌, ◌*◌, ◌≤◌, ◌<◌, min, Bool, true, false, none, some, Option, List, [], ◌∷◌,
  Text, length, All, Map, lookup, erase, length-insert-le, if_both, nat_eq, ◌≡◌, refl, arith,
}
use dumbwaystodie.Protocol.Wire.{WireMessage, ConnectionState}
use dumbwaystodie.Relay.Client.{
  RelayConnectionOptions, Socket, ReconnectTimer, ClientEffect, RelayConnection, set_state,
  power_of_2, backoff, cap_of, clear_timer, clear_timers, effect_on, close, open_socket,
  schedule_reconnect, on_socket_open, on_rejected, handle_message, on_socket_close,
  on_reconnect_timer, send, send_on, or_thrown, ClientEvent, step, run, with_found,
  same_ready_state, socket_connecting,
}

power_of_2-positive : (n : ℕ) → 1 ≤ power_of_2 n
power_of_2-positive zero = omega arith
power_of_2-positive (suc n) = omega (arith, power_of_2-positive n)

-- A wait is never shorter than half a second nor longer than fifteen, and doubles in between.
pub backoff-bounds :
    (n : ℕ)
    → (500 ≤ backoff n) × (backoff n ≤ 15_000) × (backoff (suc n) ≡ min (2 * backoff n) 15_000)
unfolding backoff
backoff-bounds n =
    let positive = power_of_2-positive n in
    (omega (arith, positive), omega arith, omega (arith, positive))

length-erase-le : {V : Type 0} (k : ℕ) (m : Map ℕ V) → length (erase k m) ≤ length m
unfolding erase
length-erase-le k [] = omega arith
length-erase-le k ((j, w) ∷ m) = ground (arith, length-erase-le k m)

length-erase-lt :
    {V : Type 0} (k : ℕ) (v : V) (m : Map ℕ V) → lookup k m ≡ some v → length (erase k m) < length m
unfolding erase lookup
length-erase-lt k v [] h = ground arith
length-erase-lt k v ((j, w) ∷ m) h = ground (arith, length-erase-le k m, length-erase-lt k v m)

abbrev is_opened : ClientEffect → ℕ
is_opened (ClientEffect.opened id url) = 1
is_opened effect = 0

-- The number of sockets that were opened.
abbrev pub opens : List ClientEffect → ℕ
opens [] = 0
opens (e ∷ es) = is_opened e + opens es

-- Neither a call of `connect` nor a welcome.
abbrev pub is_unwelcomed : ClientEvent → Bool
is_unwelcomed ClientEvent.connect_called = false
is_unwelcomed (ClientEvent.message_at now id (some (WireMessage.adapter_welcome a b c))) = false
is_unwelcomed event = true

abbrev budget : RelayConnectionOptions → RelayConnection → ℕ
budget options c = opens c.effects + length c.timers + (cap_of options - c.attempts)

set_state-budget :
    (options : RelayConnectionOptions) (state : ConnectionState) (detail : _) (c : RelayConnection)
    → budget options (set_state state detail c) ≡ budget options c
unfolding set_state
set_state-budget options state detail c = ground arith

clear_timer-le :
    (o : Option ℕ) (timers : Map ℕ ReconnectTimer) → length (clear_timer o timers) ≤ length timers
clear_timer-le none timers = omega arith
clear_timer-le (some id) timers = length-erase-le id timers

pub effect_on-opens :
    (make : ℕ → ClientEffect) (o : Option ℕ) (effects : List ClientEffect)
    → ((id : ℕ) → is_opened (make id) ≡ 0)
    → opens (effect_on make o effects) ≡ opens effects
effect_on-opens make none effects h = refl
effect_on-opens make (some id) effects h = let made = h id in omega (arith, made)

with_found-budget :
    {A : Type 0} (options : RelayConnectionOptions) (o : Option A)
    (handle : A → RelayConnection → RelayConnection) (c : RelayConnection)
    → ((a : A) → o ≡ some a → budget options (handle a c) ≤ budget options c)
    → budget options (with_found o handle c) ≤ budget options c
with_found-budget options none handle c h = omega arith
with_found-budget options (some a) handle c h = h a refl

close-budget :
    (options : RelayConnectionOptions) (c : RelayConnection)
    → budget options (close c) ≤ budget options c
unfolding close set_state clear_timers
close-budget options c = ground (
  arith,
  clear_timer-le c.reconnect_timer c.timers,
  effect_on-opens ClientEffect.closed c.socket c.effects (λ id. refl),
)

schedule-budget :
    (options : RelayConnectionOptions) (fatal : ℕ) (c : RelayConnection)
    → budget options (schedule_reconnect options fatal c) ≤ budget options c
unfolding schedule_reconnect set_state
schedule-budget options fatal c = ground (
  arith,
  length-insert-le c.next_id (record { fatal = fatal; delay = backoff c.attempts }) c.timers,
)

socket_close-budget :
    (options : RelayConnectionOptions) (id : ℕ) (s : Socket) (c : RelayConnection)
    → budget options (on_socket_close options id s c) ≤ budget options c
unfolding on_socket_close clear_timers
socket_close-budget options id s c =
    let cleared = clear_timers (record c { sockets = erase id c.sockets }) in
    let fewer = clear_timer-le c.reconnect_timer c.timers in
    let down = set_state ConnectionState.disconnected none cleared in
    let same = set_state-budget options ConnectionState.disconnected none cleared in
    let tried = schedule-budget options s.fatal down in
    if_both (λ d. budget options d ≤ budget options c) cleared.closed_by_us cleared
      (schedule_reconnect options s.fatal down) (omega (arith, fewer))
      (omega (arith, fewer, same, tried))

timer-budget :
    (options : RelayConnectionOptions) (id : ℕ) (t : ReconnectTimer) (c : RelayConnection)
    → lookup id c.timers ≡ some t
    → budget options (on_reconnect_timer options id t c) ≤ budget options c
unfolding on_reconnect_timer open_socket set_state
timer-budget options id t c h = ground (arith, length-erase-lt id t c.timers h)

rejected-budget :
    (options : RelayConnectionOptions) (fatal : ℕ) (text : Text) (c : RelayConnection)
    → budget options (on_rejected options fatal text c) ≤ budget options c
unfolding on_rejected
rejected-budget options fatal text c =
    let down = set_state ConnectionState.error (some text) (record c { closed_by_us = true }) in
    let same =
      set_state-budget options ConnectionState.error (some text)
        (record c { closed_by_us = true }) in
    let shut =
      effect_on-opens ClientEffect.closed down.socket
        (ClientEffect.rejected fatal text ∷ down.effects) (λ id. refl) in
    omega (arith, same, shut)

message-budget :
    (options : RelayConnectionOptions) (now fatal : ℕ) (message : WireMessage) (c : RelayConnection)
    → is_unwelcomed (ClientEvent.message_at now fatal (some message)) ≡ true
    → budget options (handle_message options fatal message c) ≤ budget options c
unfolding handle_message on_rejected set_state
message-budget options now fatal (WireMessage.adapter_welcome id interval peers) c h = ground arith
message-budget options now fatal (WireMessage.adapter_rejected reason text) c h =
    rejected-budget options fatal text c
message-budget options now fatal message c h = omega arith

send-budget :
    (options : RelayConnectionOptions) (o : Option ℕ) (session_id : Text) (message : WireMessage)
    (c : RelayConnection)
    → budget options (or_thrown (send_on o session_id message c) c) ≤ budget options c
send-budget options none session_id message c = omega arith
send-budget options (some id) session_id message c = ground arith

step-budget :
    (options : RelayConnectionOptions) (e : ClientEvent) (c : RelayConnection)
    → is_unwelcomed e ≡ true
    → budget options (step options e c) ≤ budget options c
unfolding step send
step-budget options ClientEvent.connect_called c h = ground arith
step-budget options ClientEvent.close_called c h = close-budget options c
step-budget options (ClientEvent.send_called session message) c h =
    send-budget options c.socket session message c
step-budget options (ClientEvent.opened_at now id) c h =
    with_found-budget options (lookup id c.sockets) _ c (λ s found.
      if_both (λ d. budget options d ≤ budget options c)
        (same_ready_state s.ready_state socket_connecting) (on_socket_open options now id s c) c
        (omega arith) (omega arith))
step-budget options (ClientEvent.message_at now id none) c h =
    with_found-budget options (lookup id c.sockets) _ c (λ s found. omega arith)
step-budget options (ClientEvent.message_at now id (some message)) c h =
    with_found-budget options (lookup id c.sockets) _ c (λ (s : Socket) found.
      message-budget options now s.fatal message (record c { last_seen_at = now }) h)
step-budget options (ClientEvent.ping_at now id) c h =
    with_found-budget options (lookup id c.sockets) _ c (λ s found. omega arith)
step-budget options (ClientEvent.socket_closed id) c h =
    with_found-budget options (lookup id c.sockets) _ c
      (λ s found. socket_close-budget options id s c)
step-budget options (ClientEvent.timer_fired id) c h =
    with_found-budget options (lookup id c.timers) _ c
      (λ t found. timer-budget options id t c found)
step-budget options (ClientEvent.heartbeat_at now) c h =
    let tick = effect_on-opens ClientEffect.terminated c.socket c.effects (λ id. refl) in
    ground (arith, tick)

pub run-retries :
    (options : RelayConnectionOptions) (es : List ClientEvent) (c : RelayConnection)
    → All (λ e. is_unwelcomed e ≡ true) es
    → let d = run options es c in
      opens d.effects + length d.timers
      ≤ opens c.effects + length c.timers + (cap_of options - c.attempts)
unfolding run
run-retries options [] c h = omega arith
run-retries options (e ∷ es) c (h, k) =
    let first = step-budget options e c h in
    let rest = run-retries options es (step options e c) k in omega (arith, first, rest)
