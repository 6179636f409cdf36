-- ===== src/Coach/Sound.antt =====
-- What it is for the controller of CoachController.ts to be sound: its session and its timer match
-- the request in flight.
pub mod Steps
pub mod Runs
use dumbwaystodie.Prelude.{
  ℕ, true, false, Option, none, some, List, [], ◌∷◌, Text, trim, ◌==◌, nat_eq, list_eq, ◌≡◌, refl,
  sym, ap, ◌∙◌, ◌⊎◌, inl, inr, arith, Bool-cases, Option-cases, if_both, beq_refl,
}
use dumbwaystodie.Protocol.Wire.{
  RequestLifecycleState, CoachResponse, CompletionState, CoachRequest, ToolCallRequest,
  ToolCallResult,
}
use dumbwaystodie.Session.{SessionMessageRole, MessageReceipt}
use dumbwaystodie.Coach.{Coach, Timeout, finish, on_settled, pause_timeout, resume_timeout}
use dumbwaystodie.Coach.Requests.{
  send, send_taken, send_failed, cancel, cancel_taken, reset_session, on_timeout,
}
use dumbwaystodie.Coach.Inbound.{
  stream, handle_response, handle_partial, handle_complete, handle_unfinished,
  handle_provider_error, handle_provider_status, handle_tool_call, reject_tool_call, tool_finished,
  result_taken, result_failed, is_pending, flatten_parts,
}
use dumbwaystodie.Coach.Runs.{
  Operation, sent, taken, not_taken, cancelled, cancel_answered, renewed, timer_fired, settled,
  paused, resumed, replied, provider_failed, status_changed, tool_called, tool_ended,
  result_accepted, result_refused, perform, run,
}
use dumbwaystodie.Coach.Kept.{
  active_of, active-set, active-new_session, active-update_message, Same, Same-refl, Same-say,
  Same-stream, finish-idle,
}

abbrev armed_for : Text → Option Timeout
armed_for id = some (record { request = id; live = true })

-- The session names the request that the controller waits for, and that request has a timer which is
-- to fire, unless the clock is stopped.
pub record IsSound (c : Coach) : Type 0 where
  pub in_step : active_of c.sessions ≡ c.pending
  pub watched :
      (id : Text) → c.pending ≡ some id → (c.timeout ≡ armed_for id) ⊎ (c.timeout_paused ≡ true)

pub Same-IsSound : (c d : Coach) → Same c d → IsSound c → IsSound d
Same-IsSound c d s v = record {
  in_step = s.active ∙ (v.in_step ∙ sym s.pending);
  watched = λ id e. elim (v.watched id (sym s.pending ∙ e)) [
    | inl t ↦ inl (s.timeout ∙ t)
    | inr p ↦ inr (s.paused ∙ p)
  ];
}

pub idle-IsSound : (c : Coach) → c.pending ≡ none → active_of c.sessions ≡ none → IsSound c
idle-IsSound c p a = record { in_step = a ∙ sym p; watched = λ id e. absurd (cc (p, e)) }

pub armed-IsSound :
    (c : Coach) (id : Text)
    → c.pending ≡ some id
    → active_of c.sessions ≡ some id
    → c.timeout ≡ armed_for id
    → IsSound c
armed-IsSound c id p a t = record {
  in_step = a ∙ sym p;
  watched = λ j e. inl (t ∙ ap armed_for (cc (p, e)));
}

pub finish-IsSound :
    (state : RequestLifecycleState) (error : Option Text) (c : Coach)
    → IsSound (finish state error c)
finish-IsSound state error c =
    idle-IsSound (finish state error c) (finish-idle state error c).0 (finish-idle state error c).1
