-- ===== src/Transport/Openings.antt =====
-- `openSurface` and `listModels` of RelayCoachProvider.ts, and their timers.
use dumbwaystodie.Prelude.{
  ℕ, none, some, Option, [], ◌∷◌, Text, lit, lookup, insert, erase, has, nat_eq, list_eq,
}
use dumbwaystodie.Protocol.Wire.{WireMessage, OpenStatus}
use dumbwaystodie.Relay.Client.{RelayConnection, RelayConnectionOptions}
use dumbwaystodie.Transport.{
  RelayCoachProvider, open_asked, open_settled, models_asked, models_settled, present,
  settle_models, finish_surface_open, surface_open_timeout_ms, model_list_timeout_ms,
}
use dumbwaystodie.Transport.Relayed.{sent_through, attempt}

-- `openSurface`: what is sent, and what becomes of a send that throws.
abbrev pub opened_or_failed :
    Text → Option RelayCoachProvider → RelayCoachProvider → RelayCoachProvider
opened_or_failed id none p =
    finish_surface_open id
      (record {
        status = OpenStatus.failed;
        detail = some (lit "The local relay is not connected: Not connected to the relay.");
      })
      p
opened_or_failed id (some q) p = q

-- The promise of `openSurface`, with its timer.
abbrev pub ask_open : Text → Text → RelayCoachProvider → RelayCoachProvider
ask_open id model p = record p {
  pending_surface_opens = insert id model p.pending_surface_opens;
  open_timers = insert id surface_open_timeout_ms p.open_timers;
  effects = open_asked id ∷ p.effects;
}

abbrev pub open_through :
    Option (RelayConnectionOptions × RelayConnection)
    → Text
    → Text
    → Option Text
    → Option Text
    → RelayCoachProvider
    → RelayCoachProvider
open_through none id model page variant p = record p {
  effects =
      open_settled id (record {
        status = OpenStatus.failed;
        detail = some (lit "The local relay is not connected.");
      })
      ∷ open_asked id
      ∷ p.effects;
}
open_through (some c) id model page variant p =
    let asked = ask_open id model p in
    opened_or_failed id
      (sent_through p.session_id
        (WireMessage.surface_open record {
          request_id = some id;
          model = model;
          variant = present variant;
          url = present page;
        })
        c asked)
      asked

unfoldable pub open_surface :
    Text → Text → Option Text → Option Text → RelayCoachProvider → RelayCoachProvider
unfolding finish_surface_open
open_surface id model page variant p = open_through p.connection id model page variant p

abbrev pub open_expired : Option ℕ → Text → RelayCoachProvider → RelayCoachProvider
open_expired none id p = p
open_expired (some delay) id p = record p {
  open_timers = erase id p.open_timers;
  pending_surface_opens = erase id p.pending_surface_opens;
  effects =
      open_settled id (record {
        status = OpenStatus.failed;
        detail =
            some (
              lit "The browser did not finish pairing this chat. Reload the add-on and try again.");
      })
      ∷ p.effects;
}

-- The timer of `openSurface`.
unfoldable pub on_open_timeout : Text → RelayCoachProvider → RelayCoachProvider
on_open_timeout id p = open_expired (lookup id p.open_timers) id p

-- `listModels`, whose promise is refused where the send throws, while its timer goes on.
abbrev pub ask_models : Text → RelayCoachProvider → RelayCoachProvider
ask_models id p = record p {
  pending_model_lists = insert id tt p.pending_model_lists;
  model_timers = insert id model_list_timeout_ms p.model_timers;
  effects = models_asked id ∷ p.effects;
}

abbrev pub list_through :
    Option (RelayConnectionOptions × RelayConnection)
    → Text
    → Text
    → RelayCoachProvider
    → RelayCoachProvider
list_through none id model p = record p {
  effects =
      models_settled id [] (some (lit "The local relay is not connected."))
      ∷ models_asked id
      ∷ p.effects;
}
list_through (some c) id model p =
    let asked = ask_models id p in
    attempt (sent_through p.session_id (WireMessage.surface_models id model) c asked) asked

unfoldable pub list_models : Text → Text → RelayCoachProvider → RelayCoachProvider
list_models id model p = list_through p.connection id model p

unfoldable pub on_models_timeout : Text → RelayCoachProvider → RelayCoachProvider
on_models_timeout id p =
    settle_models (has id p.model_timers) id [] (some (lit "The browser did not answer in time.")) p
