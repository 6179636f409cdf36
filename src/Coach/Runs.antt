-- ===== src/Coach/Runs.antt =====
-- Everything that can happen to the controller of CoachController.ts, in any order.
use dumbwaystodie.Prelude.{ℕ, Option, List, [], ◌∷◌, Text}
use dumbwaystodie.Protocol.Context.{WorkspaceRootRef}
use dumbwaystodie.Protocol.Wire.{
  CoachRequest, CoachResponse, ToolCallRequest, ToolCallResult, ProviderStatus,
}
use dumbwaystodie.Session.{MessageReceipt}
use dumbwaystodie.Coach.{Coach, on_settled, pause_timeout, resume_timeout}
use dumbwaystodie.Coach.Requests.{
  send, send_taken, send_failed, cancel, cancel_taken, reset_session, on_timeout,
}
use dumbwaystodie.Coach.Inbound.{
  handle_response, handle_provider_error, handle_provider_status, handle_tool_call, tool_finished,
  result_taken, result_failed,
}

pub data Operation : Type 0 where
  sent : (now text : Text) → CoachRequest → List Text → MessageReceipt → Operation
  taken : Operation
  not_taken : (now reason : Text) → Operation
  cancelled : Operation
  cancel_answered : (now id : Text) → Operation
  renewed : (id now : Text) → List WorkspaceRootRef → Operation
  timer_fired : (now : Text) → Operation
  settled paused resumed : Operation
  replied : (now : Text) → Option Text → CoachResponse → Operation
  provider_failed : (now text : Text) → Option Text → Operation
  status_changed : ProviderStatus → Operation
  tool_called : (now args : Text) → ToolCallRequest → Operation
  tool_ended : (now entry : Text) → ToolCallResult → Text → Operation
  result_accepted : Operation
  result_refused : (now reason : Text) → Operation

module _ (message_id : ℕ → Text) where
  unfoldable pub perform : Operation → Coach → Coach
  perform (sent now text request notes receipt) c = send message_id now text request notes receipt c
  perform taken c = send_taken message_id c
  perform (not_taken now reason) c = send_failed message_id now reason c
  perform cancelled c = cancel message_id c
  perform (cancel_answered now id) c = cancel_taken message_id now id c
  perform (renewed id now roots) c = reset_session message_id id now roots c
  perform (timer_fired now) c = on_timeout message_id now c
  perform settled c = on_settled c
  perform paused c = pause_timeout c
  perform resumed c = resume_timeout c
  perform (replied now chosen r) c = handle_response message_id now chosen r c
  perform (provider_failed now text id) c = handle_provider_error message_id now text id c
  perform (status_changed status) c = handle_provider_status message_id status c
  perform (tool_called now args call) c = handle_tool_call message_id now args call c
  perform (tool_ended now entry result summary) c =
      tool_finished message_id now entry result summary c
  perform result_accepted c = result_taken message_id c
  perform (result_refused now reason) c = result_failed message_id now reason c

  unfoldable pub run : List Operation → Coach → Coach
  run [] c = c
  run (op ∷ ops) c = run ops (perform op c)
