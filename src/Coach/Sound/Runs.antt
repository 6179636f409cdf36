-- ===== src/Coach/Sound/Runs.antt =====
-- Soundness over runs of the controller of CoachController.ts.
use dumbwaystodie.Prelude.{ℕ, List, [], ◌∷◌, Text, nat_eq, list_eq, refl}
use dumbwaystodie.Session.{SessionMessageRole}
use dumbwaystodie.Coach.{Coach}
use dumbwaystodie.Coach.Requests.{send_taken, send_failed, cancel_taken, reset_session}
use dumbwaystodie.Coach.Inbound.{handle_provider_status, result_taken, result_failed}
use dumbwaystodie.Coach.Runs.{
  Operation, sent, taken, not_taken, cancelled, cancel_answered, renewed, timer_fired, settled,
  paused, resumed, replied, provider_failed, status_changed, tool_called, tool_ended,
  result_accepted, result_refused, perform, run,
}
use dumbwaystodie.Coach.Kept.{active-new_session, Same-say}
use dumbwaystodie.Coach.Sound.{IsSound, Same-IsSound, idle-IsSound, finish-IsSound}
use dumbwaystodie.Coach.Sound.Steps.{
  send-IsSound, cancel-IsSound, timeout-IsSound, response-IsSound, tool_call-IsSound,
  tool_finished-IsSound, provider_error-IsSound, settled-IsSound, pause-IsSound, resume-IsSound,
}

module _ (message_id : ℕ → Text) where
  perform-IsSound : (op : Operation) (c : Coach) → IsSound c → IsSound (perform message_id op c)
  unfolding perform send_taken send_failed cancel_taken reset_session handle_provider_status
      result_taken result_failed
  perform-IsSound (sent now text request notes receipt) c v =
      send-IsSound message_id now text request notes receipt c v
  perform-IsSound taken c v = record { in_step = v.in_step; watched = v.watched }
  perform-IsSound (not_taken now reason) c v =
      Same-IsSound _ _ (Same-say message_id now SessionMessageRole.error _ _ _)
        (finish-IsSound _ _ c)
  perform-IsSound cancelled c v = cancel-IsSound message_id c v
  perform-IsSound (cancel_answered now id) c v = finish-IsSound _ _ _
  perform-IsSound (renewed id now roots) c v =
      idle-IsSound _ refl (active-new_session id now roots c.sessions)
  perform-IsSound (timer_fired now) c v = timeout-IsSound message_id now c v
  perform-IsSound settled c v = settled-IsSound c v
  perform-IsSound paused c v = pause-IsSound c v
  perform-IsSound resumed c v = resume-IsSound c v
  perform-IsSound (replied now chosen r) c v = response-IsSound message_id now chosen r c v
  perform-IsSound (provider_failed now text id) c v =
      provider_error-IsSound message_id now text id c v
  perform-IsSound (status_changed status) c v = record { in_step = v.in_step; watched = v.watched }
  perform-IsSound (tool_called now args call) c v = tool_call-IsSound message_id now args call c v
  perform-IsSound (tool_ended now entry result summary) c v =
      tool_finished-IsSound message_id now entry result summary c v
  perform-IsSound result_accepted c v = record { in_step = v.in_step; watched = v.watched }
  perform-IsSound (result_refused now reason) c v = finish-IsSound _ _ _

  -- Through any operations in any order, from a controller that is sound: the session names the request
  -- in flight, and that request has a timer which is to fire unless the clock is stopped.
  pub run-IsSound : (ops : List Operation) (c : Coach) → IsSound c → IsSound (run message_id ops c)
  unfolding run
  run-IsSound [] c v = v
  run-IsSound (op ∷ ops) c v = run-IsSound ops (perform message_id op c) (perform-IsSound op c v)
