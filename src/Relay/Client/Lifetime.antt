-- ===== src/Relay/Client/Lifetime.antt =====
-- How a connection of client.ts ends: by the caller or a refusal, for good; or by giving up.
use dumbwaystodie.Prelude.{
  if_false, ℕ, suc, zero, ◌+◌, ◌<◌, true, false, none, some, Option, List, [], ◌∷◌, ◌++◌, decimal,
  Text, lit, Map, lookup, insert, erase, if_both, nat_eq, beq_refl, ◌≡◌, refl, sym, subst, ap,
  arith, leb,
}
use dumbwaystodie.Protocol.Wire.{ConnectionState}
use dumbwaystodie.Relay.Client.{
  RelayConnectionOptions, Socket, ReconnectTimer, RelayConnection, set_state, cap_of, ClientEffect,
  never_reconnects, clear_timers, open_socket, schedule_reconnect, on_socket_close,
  on_reconnect_timer, ClientEvent, step, same_state,
}
use dumbwaystodie.Relay.Client.Link.{insert-none, clear_timer-none}
use dumbwaystodie.Relay.Client.Retries.{opens}

-- The socket of a connection closes, or its timer fires.
abbrev pub lose : RelayConnectionOptions → Map ℕ Socket → RelayConnection → RelayConnection
lose options [] c = c
lose options ((id, s) ∷ sockets) c = step options (ClientEvent.socket_closed id) c

abbrev pub fire : RelayConnectionOptions → Map ℕ ReconnectTimer → RelayConnection → RelayConnection
fire options [] c = c
fire options ((id, t) ∷ timers) c = step options (ClientEvent.timer_fired id) c

-- The relay does not answer: the socket closes, and the timer opens another, so many times.
unfoldable pub fail : RelayConnectionOptions → ℕ → RelayConnection → RelayConnection
unfolding step
fail options zero c = c
fail options (suc n) c =
    let lost = lose options c.sockets c in fail options n (fire options lost.timers lost)

-- One socket, opened for the promise `p`, and `n` tries.
abbrev pub Tries : ℕ → ℕ → RelayConnection → Type 0
Tries p n c =
    (id : ℕ) × (s : Socket) × (c.sockets ≡ (id, s) ∷ [])
    × (s.fatal ≡ p)
    × (c.timers ≡ [])
    × (c.closed_by_us ≡ false)
    × (c.attempts ≡ n)

abbrev Waits : ℕ → ℕ → RelayConnection → Type 0
Waits p n c =
    (id : ℕ) × (t : ReconnectTimer) × (c.timers ≡ (id, t) ∷ [])
    × (t.fatal ≡ p)
    × (c.sockets ≡ [])
    × (c.closed_by_us ≡ false)
    × (c.attempts ≡ n)

lookup-head : {A : Type 0} (id : ℕ) (a : A) (m : Map ℕ A) → m ≡ (id, a) ∷ [] → lookup id m ≡ some a
unfolding lookup
lookup-head id a m h = ground (arith, beq_refl id)

erase-head : {A : Type 0} (id : ℕ) (a : A) (m : Map ℕ A) → m ≡ (id, a) ∷ [] → erase id m ≡ []
unfolding erase
erase-head id a m h = ground (arith, beq_refl id)

-- Neither a socket nor a timer, `n` tries, and `k` sockets so far.
abbrev Idle : ℕ → ℕ → RelayConnection → Type 0
Idle n k c =
    (c.sockets ≡ [])
    × (c.timers ≡ [])
    × (c.closed_by_us ≡ false)
    × (c.attempts ≡ n)
    × (opens c.effects ≡ k)

set_state-Idle :
    (state : ConnectionState) (detail : Option Text) (n k : ℕ) (c : RelayConnection)
    → Idle n k c
    → Idle n k (set_state state detail c)
unfolding set_state
set_state-Idle state detail n k c (s, t, b, a, o) =
    if_both (λ d. Idle n k d) (same_state c.state state) c _ (s, t, b, a, o)
      (s, t, b, a, omega (arith, o))

set_state-state :
    (state : ConnectionState) (detail : Option Text) (c : RelayConnection)
    → (set_state state detail c).state ≡ state
unfolding set_state
set_state-state state detail c = ground arith

module _ (options : RelayConnectionOptions) where
  schedule-Waits :
      (p n k : ℕ) (c : RelayConnection)
      → never_reconnects options.auto_reconnect ≡ false
      → n < cap_of options
      → Idle n k c
      → Waits p (suc n) (schedule_reconnect options p c)
        × (opens (schedule_reconnect options p c).effects ≡ k)
  unfolding schedule_reconnect insert
  schedule-Waits p n k c never room (s, t, b, a, o) =
      let more : leb (cap_of options) c.attempts ≡ false = ground arith in
      rw (never, more) ((c.next_id, _, insert-none c.next_id _ c.timers t, refl, s, b, ap suc a), o)

  schedule-gives_up :
      (p k : ℕ) (c : RelayConnection)
      → never_reconnects options.auto_reconnect ≡ false
      → Idle (cap_of options) k c
      → let d = schedule_reconnect options p c in
        (d.state ≡ ConnectionState.error)
        × (opens d.effects ≡ k)
        × ((es : List ClientEffect) × (d.effects
              ≡ ClientEffect.rejected p (lit "Could not reach the relay.") ∷ es))
  unfolding schedule_reconnect
  schedule-gives_up p k c never (s, t, b, a, o) =
      let text =
        some (lit "Gave up reconnecting after " ++ decimal (cap_of options) ++ lit " attempts.") in
      let capped : leb (cap_of options) c.attempts ≡ true = ground arith in
      let (s', t', b', a', o') =
        set_state-Idle ConnectionState.error text (cap_of options) k c (s, t, b, a, o) in
      rw (never, capped)
        (set_state-state ConnectionState.error text c, omega (arith, o'), (_, refl))

  abbrev down : ℕ → RelayConnection → RelayConnection
  down id c =
      set_state ConnectionState.disconnected none
        (clear_timers (record c { sockets = erase id c.sockets }))

  lose-at :
      (m : Map ℕ Socket) (id : ℕ) (s : Socket) (c : RelayConnection)
      → m ≡ (id, s) ∷ []
      → lookup id c.sockets ≡ some s
      → c.closed_by_us ≡ false
      → lose options m c ≡ schedule_reconnect options s.fatal (down id c)
  unfolding step on_socket_close clear_timers
  lose-at m id s c h found b =
      rw (h, found)
        (if_false (λ d. d ≡ schedule_reconnect options s.fatal (down id c)) c.closed_by_us _ _ b
          refl)

  lose-one :
      (p n : ℕ) (c : RelayConnection)
      → Tries p n c
      → (d : RelayConnection) × (lose options c.sockets c ≡ schedule_reconnect options p d)
        × Idle n (opens c.effects) d
  unfolding clear_timers
  lose-one p n c (id, s, h, f, t, b, a) =
      let found = lookup-head id s c.sockets h in
      let lost = lose-at c.sockets id s c h found b in
      (
        down id c,
        subst (λ q. lose options c.sockets c ≡ schedule_reconnect options q (down id c)) f lost,
        set_state-Idle ConnectionState.disconnected none n (opens c.effects) _ (
          erase-head id s c.sockets h,
          clear_timer-none c.reconnect_timer c.timers t,
          b,
          a,
          refl,
        ),
      )

  open_socket-Tries :
      (p n k : ℕ) (c : RelayConnection)
      → Idle n k c
      → Tries p n (open_socket options p c) × (opens (open_socket options p c).effects ≡ suc k)
  unfolding open_socket
  open_socket-Tries p n k c h =
      let (s, t, b, a, o) = set_state-Idle _ none n k c h in
      ((_, _, insert-none _ _ _ s, refl, t, b, a), omega (arith, o))

  fire-at :
      (m : Map ℕ ReconnectTimer) (id : ℕ) (t : ReconnectTimer) (c : RelayConnection)
      → m ≡ (id, t) ∷ []
      → lookup id c.timers ≡ some t
      → fire options m c ≡ open_socket options t.fatal (record c { timers = erase id c.timers })
  unfolding step on_reconnect_timer
  fire-at m id t c h found = rw (h, found) refl

  fire-one :
      (p n : ℕ) (c : RelayConnection)
      → Waits p n c
      → Tries p n (fire options c.timers c)
        × (opens (fire options c.timers c).effects ≡ suc (opens c.effects))
  fire-one p n c (id, r, h, f, s, b, a) =
      let c' : RelayConnection = record c { timers = erase id c.timers } in
      let fired = fire-at c.timers id r c h (lookup-head id r c.timers h) in
      let fired' = subst (λ q. fire options c.timers c ≡ open_socket options q c') f fired in
      subst (λ d. Tries p n d × (opens d.effects ≡ suc (opens c.effects))) (sym fired')
        (open_socket-Tries p n (opens c.effects) c' (s, erase-head id r c.timers h, b, a, refl))

  -- A relay that is never reached: after as many more sockets as tries are left, the connection
  -- gives up, its state is an error, and the promise of `connect` is rejected.
  pub fail-rejects :
      (k p n : ℕ) (c : RelayConnection)
      → never_reconnects options.auto_reconnect ≡ false
      → n + k ≡ cap_of options
      → Tries p n c
      → let last = fail options k c in
        let d = lose options last.sockets last in
        (d.state ≡ ConnectionState.error)
        × (opens d.effects ≡ opens c.effects + k)
        × ((es : List ClientEffect) × (d.effects
              ≡ ClientEffect.rejected p (lit "Could not reach the relay.") ∷ es))
  unfolding fail
  fail-rejects zero p n c never capped h =
      let (d, lost, idle) = lose-one p n c h in
      let full : n ≡ cap_of options = omega (arith, capped) in
      let (state, count, effects) =
        schedule-gives_up p (opens c.effects) d never
          (subst (λ m. Idle m (opens c.effects) d) full idle) in
      rw (lost) (state, omega (arith, count), effects)
  fail-rejects (suc k) p n c never capped h =
      let (d, lost, idle) = lose-one p n c h in
      let e = lose options c.sockets c in
      let room : n < cap_of options = omega (arith, capped) in
      let (waits, count) = schedule-Waits p n (opens c.effects) d never room idle in
      let waits' : Waits p (suc n) e = rw (lost) waits in
      let count' : opens e.effects ≡ opens c.effects = rw (lost) count in
      let (tries, more) = fire-one p (suc n) e waits' in
      let (state, all, effects) =
        fail-rejects k p (suc n) (fire options e.timers e) never (omega (arith, capped)) tries in
      (state, omega (arith, all, more, count'), effects)
