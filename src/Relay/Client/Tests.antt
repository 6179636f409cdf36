-- ===== src/Relay/Client/Tests.antt =====
-- The theorems about client.ts at a connection that has just been made.
use dumbwaystodie.Prelude.{
  ◌+◌, ◌-◌, ◌≤◌, none, some, List, [], ◌∷◌, lit, length, lookup, insert, erase, nat_eq, ◌≡◌, refl,
}
use dumbwaystodie.Protocol.Wire.{editor, ConnectionState}
use dumbwaystodie.Relay.Client.{
  RelayConnectionOptions, RelayConnection, new_connection, connect, open_socket, set_state, close,
  clear_timers, step, on_socket_close, schedule_reconnect, backoff, ClientEvent, ClientEffect, run,
}
use dumbwaystodie.Relay.Client.Link.{live, Link, Refines}
use dumbwaystodie.Relay.Client.Link.Runs.{LinkRun, run-LinkRun, connect-Refines}
use dumbwaystodie.Relay.Client.Retries.{opens, run-retries}
use dumbwaystodie.Relay.Client.Lifetime.{fail, lose, fail-rejects}
use dumbwaystodie.Relay.Client.Final.{close-final}

abbrev options : RelayConnectionOptions
options = record {
  host = lit "127.0.0.1";
  port = 8765;
  token = lit "t";
  adapter_kind = editor;
  adapter_id = lit "e1";
  capabilities = none;
  auto_reconnect = none;
  max_reconnect_attempts = some 2;
}

abbrev made : RelayConnection
made = connect options new_connection

abbrev closings : List ClientEvent
closings =
    ClientEvent.socket_closed 1
    ∷ ClientEvent.timer_fired 2
    ∷ ClientEvent.opened_at 7 3
    ∷ ClientEvent.socket_closed 3
    ∷ []

-- The second socket is lost, too, and a third is to be opened after a second.
made_twice : (run options closings made).attempts ≡ 2
unfolding run step connect open_socket set_state on_socket_close clear_timers schedule_reconnect
    backoff lookup insert erase
made_twice = refl

made_tries : (made.timers ≡ []) × (made.attempts ≡ 0)
unfolding connect open_socket set_state
made_tries = (refl, refl)

run-retries_example :
    opens (run options closings made).effects + length (run options closings made).timers
    ≤ opens made.effects + length made.timers + (2 - made.attempts)
run-retries_example = run-retries options closings made (refl, (refl, (refl, (refl, tt))))

run-LinkRun_example :
    (l : Link) × LinkRun options made closings (live 0) l × Refines (run options closings made) l
run-LinkRun_example =
    run-LinkRun options closings made (live 0) (refl, (refl, (refl, (refl, tt))))
      (connect-Refines options new_connection (refl, refl))

fail-rejects_example :
    ((lose options (fail options 2 made).sockets (fail options 2 made)).state
      ≡ ConnectionState.error)
    × (opens (lose options (fail options 2 made).sockets (fail options 2 made)).effects
        ≡ opens made.effects + 2)
    × ((es : List ClientEffect) × ((lose options
            (fail options 2 made).sockets
            (fail options 2 made)).effects
          ≡ ClientEffect.rejected 0 (lit "Could not reach the relay.") ∷ es))
unfolding connect open_socket set_state insert
fail-rejects_example =
    fail-rejects options 2 0 0 made refl refl (1, _, refl, refl, refl, refl, refl)

close-final_example :
    (opens (run options closings (close (run options closings made))).effects
      ≡ opens (run options closings made).effects)
    × ((run options closings (close (run options closings made))).timers ≡ [])
close-final_example =
    close-final options closings closings (refl, (refl, (refl, (refl, tt))))
      (refl, (refl, (refl, (refl, tt))))
