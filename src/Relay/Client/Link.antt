-- ===== src/Relay/Client/Link.antt =====
-- What a user of client.ts may rely on: a connection is one of four things, and moves between them
-- by the steps of `LinkStep`.
mod Handlers
pub mod Runs
use dumbwaystodie.Prelude.{
  ℕ, suc, zero, ◌<◌, ◌≤◌, ◌⊎◌, Bool, true, false, none, some, Option, List, [], ◌∷◌, inl, inr, Text,
  Map, lookup, insert, erase, if◌then◌else◌, Bool-cases, if_both, All, has, ◌&&◌, ◌==◌, nat_eq, ◌≡◌,
  refl, sym, subst, arith, leb, ltb, ◌-◌,
}
use dumbwaystodie.Protocol.Wire.{WireMessage, ConnectionState, heartbeat_stale_ms}
use dumbwaystodie.Relay.Client.{
  RelayConnectionOptions, ReadyState, Socket, ReconnectTimer, RelayConnection, set_state, cap_of,
  never_reconnects, clear_timer, clear_timers, closing_found, closing, close, connect, open_socket,
  schedule_reconnect, on_socket_open, on_welcome, on_rejected, handle_message, on_socket_message,
  on_socket_close, on_reconnect_timer, on_heartbeat, send, send_on, or_thrown, with_found,
  same_ready_state, socket_connecting, socket_closing, if_connecting, ClientEvent, step, run,
  ClientEffect, effect_on, has_ready_state, socket_open,
}

-- A link is off; or has a socket, or waits for a timer, with a number of tries since the last
-- welcome; or has a socket that is not to be replaced.
pub data Link : Type 0 where
  offline ending : Link
  live waiting : ℕ → Link

-- What an event is to a link.
abbrev pub is_welcome : ClientEvent → Bool
is_welcome (ClientEvent.message_at now id (some (WireMessage.adapter_welcome i j k))) = true
is_welcome e = false

abbrev pub is_end : ClientEvent → Bool
is_end ClientEvent.close_called = true
is_end (ClientEvent.message_at now id (some (WireMessage.adapter_rejected i j))) = true
is_end e = false

abbrev pub is_close : ClientEvent → Bool
is_close ClientEvent.close_called = true
is_close e = false

abbrev pub is_loss : ClientEvent → Bool
is_loss (ClientEvent.socket_closed id) = true
is_loss e = false

abbrev pub is_timer : ClientEvent → Bool
is_timer (ClientEvent.timer_fired id) = true
is_timer e = false

abbrev pub is_live : Link → Bool
is_live (live n) = true
is_live l = false

abbrev pub is_on : Link → Bool
is_on (live n) = true
is_on (waiting n) = true
is_on l = false

abbrev pub is_turn : WireMessage → Bool
is_turn (WireMessage.adapter_welcome i j k) = true
is_turn (WireMessage.adapter_rejected i j) = true
is_turn message = false

-- An event that the link is not to pass over: `close`, a welcome or a refusal while it is live, the end
-- of its socket, and its timer.
abbrev pub is_due : Link → RelayConnection → ClientEvent → Bool
is_due l c ClientEvent.close_called = is_on l
is_due l c (ClientEvent.message_at now id (some message)) =
    is_live l && (is_turn message && has id c.sockets)
is_due l c (ClientEvent.socket_closed id) = has id c.sockets
is_due l c (ClientEvent.timer_fired id) = has id c.timers
is_due l c e = false

-- The step that an event may make: a lost socket is followed by a timer exactly while the options allow
-- it and tries are left, only a timer gives a further socket, and only `close` drops a timer.
pub data LinkStep (options : RelayConnectionOptions) (c : RelayConnection) (e : ClientEvent)
    : Link → Link → Type 0 where
  stayed : {l : Link} → is_due l c e ≡ false → LinkStep options c e l l
  welcomed : {n : ℕ} → is_welcome e ≡ true → LinkStep options c e (live n) (live 0)
  lost :
      {n : ℕ}
      → is_loss e ≡ true
      → never_reconnects options.auto_reconnect ≡ false
      → n < cap_of options
      → LinkStep options c e (live n) (waiting (suc n))
  given_up :
      {n : ℕ}
      → is_loss e ≡ true
      → (never_reconnects options.auto_reconnect ≡ true) ⊎ (cap_of options ≤ n)
      → LinkStep options c e (live n) offline
  retried : {n : ℕ} → is_timer e ≡ true → LinkStep options c e (waiting n) (live n)
  dropped : {n : ℕ} → is_close e ≡ true → LinkStep options c e (waiting n) offline
  shut : {n : ℕ} → is_end e ≡ true → LinkStep options c e (live n) ending
  ended : is_loss e ≡ true → LinkStep options c e ending offline

abbrev HasSocket : RelayConnection → Type 0
HasSocket c = (id : ℕ) × (s : Socket) × (c.sockets ≡ (id, s) ∷ [])

abbrev HasTimer : RelayConnection → Type 0
HasTimer c =
    (id : ℕ) × (t : ReconnectTimer) × (c.timers ≡ (id, t) ∷ []) × (c.reconnect_timer ≡ some id)

-- The connection is the link, seen from outside.
abbrev pub Refines : RelayConnection → Link → Type 0
Refines c offline = (c.sockets ≡ []) × (c.timers ≡ [])
Refines c ending = HasSocket c × (c.timers ≡ []) × (c.closed_by_us ≡ true)
Refines c (live n) = HasSocket c × (c.timers ≡ []) × (c.closed_by_us ≡ false) × (c.attempts ≡ n)
Refines c (waiting n) = HasTimer c × (c.sockets ≡ []) × (c.closed_by_us ≡ false) × (c.attempts ≡ n)

set_state-Refines :
    (state : ConnectionState) (detail : Option Text) (c : RelayConnection) (l : Link)
    → Refines c l
    → Refines (set_state state detail c) l
unfolding set_state
set_state-Refines state detail c offline h = if_both (λ d. Refines d offline) _ c _ h h
set_state-Refines state detail c ending h = if_both (λ d. Refines d ending) _ c _ h h
set_state-Refines state detail c (live n) h = if_both (λ d. Refines d (live n)) _ c _ h h
set_state-Refines state detail c (waiting n) h = if_both (λ d. Refines d (waiting n)) _ c _ h h

pub insert-none :
    {A : Type 0} (id : ℕ) (a : A) (m : Map ℕ A) → m ≡ [] → insert id a m ≡ (id, a) ∷ []
unfolding insert
insert-none id a m h = rw (h) refl

insert-one :
    (j id : ℕ) (r s t : Socket) (m : Map ℕ Socket)
    → m ≡ (id, s) ∷ []
    → lookup j m ≡ some r
    → insert j t m ≡ (id, t) ∷ []
unfolding lookup insert
insert-one j id r s t m h found = ground arith

closing_found-one :
    (o : Option Socket) (j id : ℕ) (s : Socket) (m : Map ℕ Socket)
    → m ≡ (id, s) ∷ []
    → lookup j m ≡ o
    → (s' : Socket) × (closing_found j m o ≡ (id, s') ∷ [])
closing_found-one none j id s m h found = (s, h)
closing_found-one (some r) j id s m h found = (_, insert-one j id r s _ m h found)

closing-one :
    (o : Option ℕ) (id : ℕ) (s : Socket) (m : Map ℕ Socket)
    → m ≡ (id, s) ∷ []
    → (s' : Socket) × (closing o m ≡ (id, s') ∷ [])
closing-one none id s m h = (s, h)
closing-one (some j) id s m h = closing_found-one (lookup j m) j id s m h refl

erase-one :
    {A : Type 0} (j id : ℕ) (r s : A) (m : Map ℕ A)
    → m ≡ (id, s) ∷ []
    → lookup j m ≡ some r
    → erase j m ≡ []
unfolding lookup erase
erase-one j id r s m h found = ground arith

-- The links that `c'` may be, after a step from `l`.
abbrev Moves :
    RelayConnectionOptions → RelayConnection → ClientEvent → Link → RelayConnection → Type 0
Moves options c e l d = (l' : Link) × LinkStep options c e l l' × Refines d l'

closing-none : (o : Option ℕ) (m : Map ℕ Socket) → m ≡ [] → closing o m ≡ []
unfolding lookup
closing-none none m h = h
closing-none (some j) m h = rw (h) refl

pub clear_timer-none : (o : Option ℕ) (m : Map ℕ ReconnectTimer) → m ≡ [] → clear_timer o m ≡ []
unfolding erase
clear_timer-none none m h = h
clear_timer-none (some j) m h = rw (h) refl

pub clear_timer-one :
    (o : Option ℕ) (m : Map ℕ ReconnectTimer) (id : ℕ) (t : ReconnectTimer)
    → m ≡ (id, t) ∷ []
    → o ≡ some id
    → clear_timer o m ≡ []
unfolding erase
clear_timer-one none m id t h k = ground arith
clear_timer-one (some j) m id t h k = ground arith

pub not_found : {A B : Type 0} (id : ℕ) (a : A) (m : Map ℕ A) → m ≡ [] → lookup id m ≡ some a → B
unfolding lookup
not_found id a m h found = let no : ⊥ = ground arith in absurd no
