-- ===== src/Coach/Inbound.antt =====
-- What the provider sends to the controller of CoachController.ts: replies, errors, status and calls
-- of tools. `args_summary` and `result_summary` are those of packages/extension/src/tools/summarize.ts.
use dumbwaystodie.Prelude.{
  ℕ, suc, Bool, true, false, ◌&&◌, not, Option, none, some, List, [], ◌∷◌, ◌++◌, map, Text, lit,
  join, trim, if◌then◌else◌, ◌==◌, nat_eq, list_eq,
}
use dumbwaystodie.Protocol.Wire.{
  RequestLifecycleState, provider_processing, tool_running, tool_result_sent, response_received,
  delivered, failed, cancelled, CompletionState, CoachResponse, ResponseContentPart, text_part,
  code_part, attachment_part, ToolCallRequest, ToolCallResult, ToolErrorCode, ToolError,
  ProviderStatus, HopState,
}
use dumbwaystodie.Session.{SessionMessage, error, tool, ToolActivity, ToolStatus}
use dumbwaystodie.Session.Messages.{replace_streaming_message, update_message}
use dumbwaystodie.Coach.{
  Coach, executed, returned, set_request_state, plain, about, arm_timeout, finish, say,
}

abbrev or_blank : Option Text → Text
or_blank none = []
or_blank (some t) = t

abbrev part_text : ResponseContentPart → Text
part_text (text_part t) = t
part_text (code_part language code) =
    lit "```" ++ or_blank language ++ lit "\n" ++ code ++ lit "\n```"
part_text (attachment_part a) = lit "[attachment: " ++ a.filename ++ lit "]"

pub flatten_parts : List ResponseContentPart → Text
flatten_parts parts = join (lit "\n\n") (map part_text parts)

abbrev pub is_pending : Text → Coach → Bool
is_pending id c = elim c.pending [ none ↦ false | some p ↦ id == p ]

abbrev state_text : CompletionState → Text
state_text CompletionState.partial = lit "partial"
state_text CompletionState.complete = lit "complete"
state_text CompletionState.cancelled = lit "cancelled"
state_text CompletionState.failed = lit "failed"

abbrev end_state : CompletionState → RequestLifecycleState
end_state CompletionState.cancelled = cancelled
end_state _ = failed

-- A reason that is empty is left out.
abbrev reason_text : Option Text → Text
reason_text none = []
reason_text (some []) = []
reason_text (some (u ∷ t)) = lit " — " ++ (u ∷ t)

-- A different chat answered than the one that was chosen.
abbrev pub misrouted : Option Text → Option Text → Option (Text × Text)
misrouted none answered = none
misrouted (some []) answered = none
misrouted (some (u ∷ chosen)) none = none
misrouted (some (u ∷ chosen)) (some []) = none
misrouted (some (u ∷ chosen)) (some (v ∷ answered)) =
    if not ((v ∷ answered) == u ∷ chosen) && not ((v ∷ answered) == lit "unknown")
    then some (v ∷ answered, u ∷ chosen)
    else none

pub tool_failure : ToolCallRequest → Text → Option (List (Text × Text)) → ToolCallResult
tool_failure call message details = record {
  id = call.id;
  session_id = call.session_id;
  ok = false;
  result = none;
  error =
      some
        (record { code = ToolErrorCode.permission_denied; message = message; details = details });
  duration_ms = 0;
}

abbrev pub correlates : Option Text → Text → Bool
correlates none id = true
correlates (some r) id = r == id

unfoldable pub reject_tool_call : ToolCallRequest → Coach → Option ToolCallResult
reject_tool_call call c = elim c.pending [
  | none ↦ some (
      tool_failure call
        (lit "No request is in flight. Tools can only be called while answering a request.") none)
  | some id ↦
      if not (correlates call.request_id id)
      then some (
          tool_failure call (lit "This tool call does not correlate to the request in flight.")
            (some ((lit "expected", id) ∷ (lit "received", or_blank call.request_id) ∷ [])))
      else if not (call.session_id == c.sessions.session.id)
      then some (tool_failure call (lit "This tool call is for a different session.") none)
      else none
]

abbrev hop_of : ProviderStatus → HopState
hop_of ProviderStatus.ready = HopState.ready
hop_of ProviderStatus.busy = HopState.busy
hop_of ProviderStatus.waiting_for_tool = HopState.busy
hop_of ProviderStatus.error = HopState.error
hop_of ProviderStatus.connecting = HopState.connecting
hop_of ProviderStatus.disconnected = HopState.disconnected

-- `deliverToolResult`, up to the provider's answer.
abbrev deliver_tool_result : ToolCallResult → Coach → Coach
deliver_tool_result result c = record c {
  request_state = tool_result_sent;
  last_error = none;
  effects = returned result ∷ c.effects;
}

module _ (message_id : ℕ → Text) where
  unfoldable pub stream : Text → Text → Text → Option (List ResponseContentPart) → Coach → Coach
  stream now id text parts c = record c {
    sessions = replace_streaming_message (message_id c.minted) now id text parts c.sessions;
    minted = suc c.minted;
  }

  unfoldable pub handle_partial : Text → CoachResponse → Coach → Coach
  handle_partial now r c =
      let text = flatten_parts r.content in
      arm_timeout r.request_id (if text == [] then c else stream now r.request_id text none c)

  unfoldable pub handle_unfinished : Text → CoachResponse → Coach → Coach
  handle_unfinished now r c =
      let told =
        say message_id now error
          (lit "The reply did not finish: " ++ state_text r.state ++ reason_text r.reason)
          (about r.request_id) c in
      finish (end_state r.state) none told

  abbrev pub warn : Text → Text → Option (Text × Text) → Coach → Coach
  warn now id none c = c
  warn now id (some (answered, model)) c =
      say message_id now error
        (lit "That answer came from "
          ++ answered
          ++ lit ", not "
          ++ model
          ++ lit ". Pick the chat again before trusting it.")
        (about id) c

  -- `chosen` is `chosenModel()`.
  unfoldable pub handle_complete : Text → Option Text → CoachResponse → Coach → Coach
  handle_complete now chosen r c =
      let told = warn now r.request_id (misrouted chosen r.surface_type) c in
      finish delivered none
        (stream now r.request_id (flatten_parts r.content) (some r.content) told)

  unfoldable pub handle_response : Text → Option Text → CoachResponse → Coach → Coach
  handle_response now chosen r c =
      if not (is_pending r.request_id c)
      then c
      else let received = set_request_state response_received none c in
        elim r.state [
          | CompletionState.partial ↦ handle_partial now r received
          | CompletionState.complete ↦ handle_complete now chosen r received
          | CompletionState.cancelled ↦ handle_unfinished now r received
          | CompletionState.failed ↦ handle_unfinished now r received
        ]

  -- `!message.requestId || message.requestId === this.pendingRequestId`
  abbrev concerns : Option Text → Coach → Bool
  concerns none c = true
  concerns (some []) c = true
  concerns (some (u ∷ id)) c = is_pending (u ∷ id) c

  unfoldable pub handle_provider_error : Text → Text → Option Text → Coach → Coach
  handle_provider_error now message id c =
      let told = say message_id now error message plain c in
      if concerns id told then finish failed (some message) told else told

  unfoldable pub handle_provider_status : ProviderStatus → Coach → Coach
  handle_provider_status status c = record c { provider_hop = hop_of status }

  -- `handleToolCall`, up to the run of the tool or the delivery of the refusal.
  unfoldable pub handle_tool_call : Text → Text → ToolCallRequest → Coach → Coach
  handle_tool_call now args_summary call c = elim (reject_tool_call call c) [
    | some rejection ↦ deliver_tool_result rejection c
    | none ↦
        let activity : ToolActivity = record {
          call_id = call.id;
          tool = call.tool;
          args_summary = args_summary;
          status = ToolStatus.running;
          duration_ms = none;
          result_summary = none;
          error_code = none;
        } in
        let noted =
          say message_id now tool (trim (call.tool ++ lit " " ++ args_summary))
            (record plain { request_id = c.pending; tool = some activity }) c in
        record noted {
          request_state = tool_running;
          last_error = none;
          effects = executed call ∷ noted.effects;
        }
  ]

  abbrev code_of : Option ToolError → Option ToolErrorCode → Option ToolErrorCode
  code_of none old = old
  code_of (some e) old = some e.code

  abbrev with_result : ToolCallResult → Text → SessionMessage → SessionMessage
  with_result result summary m = elim m.tool [
    | none ↦ m
    | some t ↦ record m {
      tool = some (record t {
        status = if result.ok then ToolStatus.ok else ToolStatus.failed;
        duration_ms = some result.duration_ms;
        result_summary = some summary;
        error_code = code_of result.error t.error_code;
      });
    }
  ]

  -- `handleToolCall`, after the tool has run; `entry` is the id of its message.
  unfoldable pub tool_finished : Text → Text → ToolCallResult → Text → Coach → Coach
  tool_finished now entry result summary c =
      let updated = record c {
        sessions = update_message now entry (with_result result summary) c.sessions;
      } in
      deliver_tool_result result
        (elim c.pending [ none ↦ updated | some id ↦ arm_timeout id updated ])

  -- `deliverToolResult`, after the provider took the result, or did not.
  unfoldable pub result_taken : Coach → Coach
  result_taken c = set_request_state provider_processing none c

  unfoldable pub result_failed : Text → Text → Coach → Coach
  result_failed now reason c = finish failed (some (lit "Tool result could not be delivered.")) (
      say message_id now error
        (lit "Could not return the tool result to " ++ c.provider_name ++ lit ": " ++ reason) plain
        c)
