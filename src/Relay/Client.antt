-- ===== src/Relay/Client.antt =====
-- The client half of the relay protocol, `RelayConnection` of packages/relay/src/client.ts: the
-- handshake, the heartbeat and the reconnection with backoff. Sockets, timers and promises are
-- numbers; a callback of one of them is an event, which may come at any time.
mod Retries
mod Link
mod Lifetime
mod Final
mod Tests
use dumbwaystodie.Prelude.{
  ℕ, suc, zero, ◌+◌, ◌-◌, ◌*◌, min, Bool, true, false, none, some, Option, List, [], ◌∷◌, ◌++◌, not,
  ◌&&◌, Text, lit, decimal, leb, ltb, if◌then◌else◌, Map, lookup, insert, erase, ◌==◌, nat_eq,
}
use dumbwaystodie.Protocol.Wire.{
  AdapterKind, ConnectionState, WireMessage, protocol_version, heartbeat_stale_ms,
}

pub record RelayConnectionOptions : Type 0 where
  pub host : Text
  pub port : ℕ
  pub token : Text
  pub adapter_kind : AdapterKind
  pub adapter_id : Text
  pub capabilities : Option (List Text)
  pub auto_reconnect : Option Bool
  pub max_reconnect_attempts : Option ℕ

pub data ReadyState : Type 0 where
  socket_connecting socket_open socket_closing : ReadyState

-- A socket whose `close` event has not come, with the promise that `onFatal` rejects.
pub record Socket : Type 0 where
  pub fatal : ℕ
  pub ready_state : ReadyState

-- A timer that has neither fired nor been cleared.
pub record ReconnectTimer : Type 0 where
  pub fatal : ℕ
  pub delay : ℕ

-- What the connection does to the world, the latest first.
pub data ClientEffect : Type 0 where
  opened : ℕ → Text → ClientEffect
  sent : ℕ → Text → WireMessage → ClientEffect
  closed : ℕ → ClientEffect
  terminated : ℕ → ClientEffect
  state_changed : ConnectionState → Option Text → ClientEffect
  delivered : WireMessage → ClientEffect
  resolved : ℕ → ClientEffect
  rejected : ℕ → Text → ClientEffect

pub record RelayConnection : Type 0 where
  pub socket : Option ℕ
  pub state : ConnectionState
  pub attempts : ℕ
  pub reconnect_timer : Option ℕ
  pub heartbeat_timer : Bool
  pub last_seen_at : ℕ
  pub closed_by_us : Bool
  pub welcomed : Option ℕ
  pub sockets : Map ℕ Socket
  pub timers : Map ℕ ReconnectTimer
  pub next_id : ℕ
  pub effects : List ClientEffect

abbrev pub new_connection : RelayConnection
new_connection = record {
  socket = none;
  state = ConnectionState.disconnected;
  attempts = 0;
  reconnect_timer = none;
  heartbeat_timer = false;
  last_seen_at = 0;
  closed_by_us = false;
  welcomed = none;
  sockets = [];
  timers = [];
  next_id = 0;
  effects = [];
}

abbrev pub same_state : ConnectionState → ConnectionState → Bool
same_state ConnectionState.disconnected ConnectionState.disconnected = true
same_state ConnectionState.connecting ConnectionState.connecting = true
same_state ConnectionState.connected ConnectionState.connected = true
same_state ConnectionState.reconnecting ConnectionState.reconnecting = true
same_state ConnectionState.error ConnectionState.error = true
same_state a b = false

unfoldable pub set_state : ConnectionState → Option Text → RelayConnection → RelayConnection
set_state state detail c =
    if same_state c.state state
    then c
    else record c { state = state; effects = state_changed state detail ∷ c.effects }

abbrev base_backoff_ms : ℕ
base_backoff_ms = 500

abbrev max_backoff_ms : ℕ
max_backoff_ms = 15_000

abbrev pub power_of_2 : ℕ → ℕ
power_of_2 zero = 1
power_of_2 (suc n) = 2 * power_of_2 n

unfoldable pub backoff : ℕ → ℕ
backoff attempts = min (base_backoff_ms * power_of_2 attempts) max_backoff_ms

abbrev pub cap_of : RelayConnectionOptions → ℕ
cap_of options = elim options.max_reconnect_attempts [ none ↦ 10 | some cap ↦ cap ]

-- `this.options.autoReconnect === false`
abbrev pub never_reconnects : Option Bool → Bool
never_reconnects none = false
never_reconnects (some b) = not b

-- `clearTimeout` of a timer that has fired does nothing.
abbrev clear_timer : Option ℕ → Map ℕ ReconnectTimer → Map ℕ ReconnectTimer
clear_timer none timers = timers
clear_timer (some id) timers = erase id timers

unfoldable pub clear_timers : RelayConnection → RelayConnection
clear_timers c = record c {
  heartbeat_timer = false;
  reconnect_timer = none;
  timers = clear_timer c.reconnect_timer c.timers;
}

-- `socket.close()` or `terminate()`: the `close` event comes later.
abbrev closing_found : ℕ → Map ℕ Socket → Option Socket → Map ℕ Socket
closing_found id sockets none = sockets
closing_found id sockets (some s) = insert id (record s { ready_state = socket_closing }) sockets

abbrev closing : Option ℕ → Map ℕ Socket → Map ℕ Socket
closing none sockets = sockets
closing (some id) sockets = closing_found id sockets (lookup id sockets)

abbrev pub effect_on : (ℕ → ClientEffect) → Option ℕ → List ClientEffect → List ClientEffect
effect_on make none effects = effects
effect_on make (some id) effects = make id ∷ effects

unfoldable pub close : RelayConnection → RelayConnection
unfolding clear_timers set_state
close c =
    let cleared = clear_timers (record c { closed_by_us = true }) in
    set_state ConnectionState.disconnected none (record cleared {
      sockets = closing cleared.socket cleared.sockets;
      socket = none;
      effects = effect_on closed cleared.socket cleared.effects;
    })

abbrev same_ready_state : ReadyState → ReadyState → Bool
same_ready_state socket_connecting socket_connecting = true
same_ready_state socket_open socket_open = true
same_ready_state socket_closing socket_closing = true
same_ready_state a b = false

abbrev has_ready_state : ReadyState → Option Socket → Bool
has_ready_state state none = false
has_ready_state state (some s) = same_ready_state s.ready_state state

module _ (options : RelayConnectionOptions) where
  abbrev url : Text
  url = lit "ws://" ++ options.host ++ lit ":" ++ decimal options.port ++ lit "/transport"

  unfoldable pub open_socket : ℕ → RelayConnection → RelayConnection
  unfolding set_state
  open_socket fatal c =
      let state =
        if c.attempts == 0 then ConnectionState.connecting else ConnectionState.reconnecting in
      let c' = set_state state none c in
      record c' {
        socket = some c'.next_id;
        sockets =
            insert c'.next_id (record { fatal = fatal; ready_state = socket_connecting })
              c'.sockets;
        next_id = suc c'.next_id;
        effects = opened c'.next_id url ∷ c'.effects;
      }

  unfoldable pub connect : RelayConnection → RelayConnection
  unfolding open_socket
  connect c =
      open_socket c.next_id
        (record c { closed_by_us = false; welcomed = some c.next_id; next_id = suc c.next_id })

  unfoldable pub schedule_reconnect : ℕ → RelayConnection → RelayConnection
  unfolding set_state backoff
  schedule_reconnect fatal c =
      let cap = cap_of options in
      let gave_up =
        set_state ConnectionState.error
          (some (lit "Gave up reconnecting after " ++ decimal cap ++ lit " attempts.")) c in
      if never_reconnects options.auto_reconnect
      then c
      else if leb cap c.attempts
      then record gave_up {
        effects = rejected fatal (lit "Could not reach the relay.") ∷ gave_up.effects;
      }
      else record c {
        attempts = suc c.attempts;
        reconnect_timer = some c.next_id;
        timers = insert c.next_id (record { fatal = fatal; delay = backoff c.attempts }) c.timers;
        next_id = suc c.next_id;
      }

  -- The `open` event of a socket: the hello.
  unfoldable pub on_socket_open : ℕ → ℕ → Socket → RelayConnection → RelayConnection
  on_socket_open now id s c = record c {
    last_seen_at = now;
    sockets = insert id (record s { ready_state = socket_open }) c.sockets;
    effects =
        sent id (lit "relay") (
          WireMessage.adapter_hello record {
            adapter_kind = some options.adapter_kind;
            adapter_id = some options.adapter_id;
            protocol_version = some protocol_version;
            token = some options.token;
            host = none;
            capabilities = some (elim options.capabilities [ none ↦ [] | some names ↦ names ]);
          })
        ∷ c.effects;
  }

  -- `startHeartbeat`, and the promise of `connect`.
  unfoldable pub on_welcome : RelayConnection → RelayConnection
  unfolding set_state
  on_welcome c =
      let c' = set_state ConnectionState.connected none (record c { attempts = 0 }) in
      record c' {
        heartbeat_timer = true;
        welcomed = none;
        effects = effect_on resolved c'.welcomed c'.effects;
      }

  unfoldable pub on_rejected : ℕ → Text → RelayConnection → RelayConnection
  unfolding set_state
  on_rejected fatal reason c =
      let c' = set_state ConnectionState.error (some reason) (record c { closed_by_us = true }) in
      record c' {
        sockets = closing c'.socket c'.sockets;
        effects = effect_on closed c'.socket (rejected fatal reason ∷ c'.effects);
      }

  unfoldable pub handle_message : ℕ → WireMessage → RelayConnection → RelayConnection
  unfolding on_welcome on_rejected
  handle_message fatal (WireMessage.adapter_welcome id interval peers) c = on_welcome c
  handle_message fatal (WireMessage.adapter_rejected reason text) c = on_rejected fatal text c
  handle_message fatal message c = record c { effects = delivered message ∷ c.effects }

  -- The `message` event; `none` is a frame that is malformed or holds no message.
  unfoldable pub on_socket_message :
      ℕ → Socket → Option WireMessage → RelayConnection → RelayConnection
  unfolding handle_message
  on_socket_message now s none c = record c { last_seen_at = now }
  on_socket_message now s (some message) c =
      handle_message s.fatal message (record c { last_seen_at = now })

  -- The `close` event, after which the socket has no further event.
  unfoldable pub on_socket_close : ℕ → Socket → RelayConnection → RelayConnection
  unfolding clear_timers schedule_reconnect set_state
  on_socket_close id s c =
      let cleared = clear_timers (record c { sockets = erase id c.sockets }) in
      let tried =
        schedule_reconnect s.fatal (set_state ConnectionState.disconnected none cleared) in
      if cleared.closed_by_us then cleared else tried

  -- The timer of `scheduleReconnect` fires. Its number stays in the field.
  unfoldable pub on_reconnect_timer : ℕ → ReconnectTimer → RelayConnection → RelayConnection
  unfolding open_socket
  on_reconnect_timer id t c = open_socket t.fatal (record c { timers = erase id c.timers })

  -- One round of the interval of `startHeartbeat`.
  unfoldable pub on_heartbeat : ℕ → RelayConnection → RelayConnection
  on_heartbeat now c =
      if ltb heartbeat_stale_ms (now - c.last_seen_at)
      then record c {
        sockets = closing c.socket c.sockets;
        effects = effect_on terminated c.socket c.effects;
      }
      else c

-- `send`, which throws where it gives `none`.
abbrev send_on : Option ℕ → Text → WireMessage → RelayConnection → Option RelayConnection
send_on none session_id message c = none
send_on (some id) session_id message c =
    if has_ready_state socket_open (lookup id c.sockets)
    then some (record c { effects = sent id session_id message ∷ c.effects })
    else none

unfoldable pub send : Text → WireMessage → RelayConnection → Option RelayConnection
send session_id message c = send_on c.socket session_id message c

-- An exception is the caller's: the connection is as before.
abbrev or_thrown : Option RelayConnection → RelayConnection → RelayConnection
or_thrown none c = c
or_thrown (some d) c = d

-- What may happen to a connection: its callers, its sockets and its timers.
pub data ClientEvent : Type 0 where
  connect_called close_called : ClientEvent
  send_called : Text → WireMessage → ClientEvent
  opened_at : ℕ → ℕ → ClientEvent
  message_at : ℕ → ℕ → Option WireMessage → ClientEvent
  ping_at : ℕ → ℕ → ClientEvent
  socket_closed : ℕ → ClientEvent
  timer_fired : ℕ → ClientEvent
  heartbeat_at : ℕ → ClientEvent

-- An event of a socket or a timer that is gone does not come.
abbrev with_found :
    {A : Type 0}
    → Option A
    → (A → RelayConnection → RelayConnection)
    → RelayConnection
    → RelayConnection
with_found none handle c = c
with_found (some a) handle c = handle a c

-- The `open` event comes once, and not for a socket that was closed before.
abbrev if_connecting :
    (Socket → RelayConnection → RelayConnection) → Socket → RelayConnection → RelayConnection
if_connecting handle s c = if has_ready_state socket_connecting (some s) then handle s c else c

module _ (options : RelayConnectionOptions) where
  unfoldable pub step : ClientEvent → RelayConnection → RelayConnection
  unfolding connect close send on_socket_open on_socket_message on_socket_close on_reconnect_timer
      on_heartbeat
  step connect_called c = connect options c
  step close_called c = close c
  step (send_called session_id message) c = or_thrown (send session_id message c) c
  step (opened_at now id) c =
      with_found (lookup id c.sockets) (if_connecting (on_socket_open options now id)) c
  step (message_at now id message) c =
      with_found (lookup id c.sockets) (λ s. on_socket_message options now s message) c
  step (ping_at now id) c =
      with_found (lookup id c.sockets)
        (λ (s : Socket) (c : RelayConnection). record c { last_seen_at = now }) c
  step (socket_closed id) c = with_found (lookup id c.sockets) (on_socket_close options id) c
  step (timer_fired id) c = with_found (lookup id c.timers) (on_reconnect_timer options id) c
  step (heartbeat_at now) c = if c.heartbeat_timer then on_heartbeat options now c else c

  unfoldable pub run : List ClientEvent → RelayConnection → RelayConnection
  unfolding step
  run [] c = c
  run (e ∷ es) c = run es (step e c)
