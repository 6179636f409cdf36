-- ===== src/Relay/Client/Link/Handlers.antt =====
-- Each handler of client.ts moves the link by a step.
use dumbwaystodie.Prelude.{
  if_true, if_false, ℕ, suc, ◌<◌, ◌≤◌, true, false, none, some, Option, [], ◌∷◌, inl, inr, Text,
  lookup, insert, erase, Bool-cases, if_both, nat_eq, ◌≡◌, refl, arith, leb,
}
use dumbwaystodie.Protocol.Wire.{WireMessage, ConnectionState}
use dumbwaystodie.Relay.Client.{
  RelayConnectionOptions, Socket, ReconnectTimer, RelayConnection, set_state, cap_of,
  never_reconnects, clear_timers, close, open_socket, schedule_reconnect, on_welcome, on_rejected,
  handle_message, on_socket_close, on_reconnect_timer, with_found, ClientEvent,
}
use dumbwaystodie.Relay.Client.Link.{
  Link, offline, ending, live, waiting, LinkStep, Refines, Moves, is_due, set_state-Refines,
  insert-none, erase-one, closing-one, closing-none, clear_timer-none, clear_timer-one, not_found,
}

pub close-Refines :
    (options : RelayConnectionOptions) (c : RelayConnection) (l : Link)
    → Refines c l
    → Moves options c ClientEvent.close_called l (close c)
unfolding close clear_timers
close-Refines options c offline (s, t) = (
  offline,
  LinkStep.stayed refl,
  set_state-Refines ConnectionState.disconnected none _ offline
      (closing-none c.socket c.sockets s, clear_timer-none c.reconnect_timer c.timers t),
)
close-Refines options c ending ((id, r, s), t, b) =
    let (r', s') = closing-one c.socket id r c.sockets s in
    (
      ending,
      LinkStep.stayed refl,
      set_state-Refines ConnectionState.disconnected none _ ending
          ((id, r', s'), clear_timer-none c.reconnect_timer c.timers t, refl),
    )
close-Refines options c (live n) ((id, r, s), t, b, a) =
    let (r', s') = closing-one c.socket id r c.sockets s in
    (
      ending,
      LinkStep.shut refl,
      set_state-Refines ConnectionState.disconnected none _ ending
          ((id, r', s'), clear_timer-none c.reconnect_timer c.timers t, refl),
    )
close-Refines options c (waiting n) ((id, r, t, k), s, b, a) = (
  offline,
  LinkStep.dropped refl,
  set_state-Refines ConnectionState.disconnected none _ offline
      (closing-none c.socket c.sockets s, clear_timer-one c.reconnect_timer c.timers id r t k),
)

-- Neither a socket nor a timer, and `n` tries.
abbrev pub IsDown : ℕ → RelayConnection → Type 0
IsDown n c = (c.sockets ≡ []) × (c.timers ≡ []) × (c.closed_by_us ≡ false) × (c.attempts ≡ n)

pub set_state-IsDown :
    (state : ConnectionState) (detail : Option Text) (c : RelayConnection) (n : ℕ)
    → IsDown n c
    → IsDown n (set_state state detail c)
unfolding set_state
set_state-IsDown state detail c n h = if_both (λ d. IsDown n d) _ c _ h h

schedule-Refines :
    (options : RelayConnectionOptions) (before : RelayConnection) (id fatal : ℕ)
    (c : RelayConnection) (n : ℕ)
    → IsDown n c
    → Moves options before
        (ClientEvent.socket_closed id)
        (live n)
        (schedule_reconnect options fatal c)
unfolding schedule_reconnect insert
schedule-Refines options before id fatal c n (s, t, b, a) =
    elim (Bool-cases (never_reconnects options.auto_reconnect)) [
      | inl e ↦ rw (e) (offline, LinkStep.given_up refl (inl e), (s, t))
      | inr e ↦ elim (Bool-cases (leb (cap_of options) c.attempts)) [
        | inl f ↦
            let spent : cap_of options ≤ n = ground arith in
            rw (e, f)
              (
                offline,
                LinkStep.given_up refl (inr spent),
                set_state-Refines ConnectionState.error _ c offline (s, t),
              )
        | inr f ↦
            let room : n < cap_of options = ground arith in
            let next : suc c.attempts ≡ suc n = ground arith in
            rw (e, f)
              (
                waiting (suc n),
                LinkStep.lost refl e room,
                ((c.next_id, _, insert-none c.next_id _ c.timers t, refl), s, b, next),
              )
      ]
    ]

pub socket_close-Refines :
    (options : RelayConnectionOptions) (id : ℕ) (s : Socket) (c : RelayConnection) (l : Link)
    → Refines c l
    → lookup id c.sockets ≡ some s
    → Moves options c (ClientEvent.socket_closed id) l (on_socket_close options id s c)
unfolding on_socket_close clear_timers
socket_close-Refines options id s c offline (h, t) found = not_found id s c.sockets h found
socket_close-Refines options id s c (waiting n) (t, h, b, a) found =
    not_found id s c.sockets h found
socket_close-Refines options id s c ending ((j, r, h), t, b) found =
    if_true (Moves options c (ClientEvent.socket_closed id) ending) c.closed_by_us _ _ b (
      offline,
      LinkStep.ended refl,
      (erase-one id j s r c.sockets h found, clear_timer-none c.reconnect_timer c.timers t),
    )
socket_close-Refines options id s c (live n) ((j, r, h), t, b, a) found =
    if_false (Moves options c (ClientEvent.socket_closed id) (live n)) c.closed_by_us _ _ b (
      schedule-Refines options c id s.fatal _ n (
        set_state-IsDown ConnectionState.disconnected none _ n (
          erase-one id j s r c.sockets h found,
          clear_timer-none c.reconnect_timer c.timers t,
          b,
          a,
        )))

pub timer-Refines :
    (options : RelayConnectionOptions) (id : ℕ) (t : ReconnectTimer) (c : RelayConnection)
    (l : Link)
    → Refines c l
    → lookup id c.timers ≡ some t
    → Moves options c (ClientEvent.timer_fired id) l (on_reconnect_timer options id t c)
unfolding on_reconnect_timer open_socket insert
timer-Refines options id t c offline (s, h) found = not_found id t c.timers h found
timer-Refines options id t c ending (s, h, b) found = not_found id t c.timers h found
timer-Refines options id t c (live n) (s, h, b, a) found = not_found id t c.timers h found
timer-Refines options id t c (waiting n) ((j, r, h, k), s, b, a) found =
    let (s', h', b', a') =
      set_state-IsDown _ none (record c { timers = erase id c.timers }) n
        (s, erase-one id j t r c.timers h found, b, a) in
    (live n, LinkStep.retried refl, ((_, _, insert-none _ _ _ s'), h', b', a'))

rejected-ending :
    (options : RelayConnectionOptions) (fatal : ℕ) (text : Text) (c : RelayConnection) (id : ℕ)
    (s : Socket)
    → c.sockets ≡ (id, s) ∷ []
    → c.timers ≡ []
    → Refines (on_rejected options fatal text c) ending
unfolding on_rejected
rejected-ending options fatal text c id s h t =
    let d = set_state ConnectionState.error (some text) (record c { closed_by_us = true }) in
    let ((i, r, h'), t', b') =
      set_state-Refines ConnectionState.error (some text) (record c { closed_by_us = true }) ending
        ((id, s, h), t, refl) in
    let (r', k) = closing-one d.socket i r d.sockets h' in ((i, r', k), t', b')

pub message-Refines :
    (options : RelayConnectionOptions) (before : RelayConnection) (now from fatal : ℕ)
    (message : WireMessage) (c : RelayConnection) (l : Link)
    → Refines c l
    → (id : ℕ) → (s : Socket) → lookup id c.sockets ≡ some s
    → Moves options before
        (ClientEvent.message_at now from (some message))
        l
        (handle_message options fatal message c)
unfolding handle_message on_welcome on_rejected
message-Refines options before now from fatal message c offline (h, t) id s found =
    not_found id s c.sockets h found
message-Refines options before now from fatal message c (waiting n) (t, h, b, a) id s found =
    not_found id s c.sockets h found
message-Refines options before now from fatal (WireMessage.adapter_welcome i j k) c ending h id s
      found =
    (ending, LinkStep.stayed refl, set_state-Refines ConnectionState.connected none _ ending h)
message-Refines options before now from fatal (WireMessage.adapter_rejected i j) c ending
      ((p, r, h), t, b) id s found =
    (ending, LinkStep.stayed refl, rejected-ending options fatal j c p r h t)
message-Refines options before now from fatal message c ending h id s found =
    (ending, LinkStep.stayed refl, h)
message-Refines options before now from fatal (WireMessage.adapter_welcome i j k) c (live n)
      (h, t, b, a) id s found =
    (
      live 0,
      LinkStep.welcomed refl,
      set_state-Refines ConnectionState.connected none _ (live 0) (h, t, b, refl),
    )
message-Refines options before now from fatal (WireMessage.adapter_rejected i j) c (live n)
      ((p, r, h), t, b, a) id s found =
    (ending, LinkStep.shut refl, rejected-ending options fatal j c p r h t)
message-Refines options before now from fatal message c (live n) h id s found =
    (live n, LinkStep.stayed refl, h)

pub with_found-Moves :
    {A : Type 0} (options : RelayConnectionOptions) (e : ClientEvent) (o : Option A)
    (handle : A → RelayConnection → RelayConnection) (c : RelayConnection) (l : Link)
    → Refines c l
    → (o ≡ none → is_due l c e ≡ false)
    → ((a : A) → o ≡ some a → Moves options c e l (handle a c))
    → Moves options c e l (with_found o handle c)
with_found-Moves options e none handle c l h due found = (l, LinkStep.stayed (due refl), h)
with_found-Moves options e (some a) handle c l h due found = found a refl
