-- ===== src/Coach/Tests.antt =====
-- The theorems about CoachController.ts at a request that is sent, streamed and answered.
use dumbwaystodie.Prelude.{
  ℕ, true, false, none, some, List, [], ◌∷◌, ◌++◌, Text, lit, decimal, nat_eq, list_eq, ◌≡◌, ◌≢◌,
  refl, arith,
}
use dumbwaystodie.Protocol.Wire.{
  RequestLifecycleState, HopState, CoachRequest, CoachResponse, CompletionState, SourceKind,
  ResponseContentPart, ToolCallRequest, no_capabilities,
}
use dumbwaystodie.Session.{SessionStore, create_session, MessageReceipt}
use dumbwaystodie.Session.Streaming.{messages_of, replies}
use dumbwaystodie.Coach.{Coach, executed, say, finish}
use dumbwaystodie.Coach.Requests.{cancel, cancel_taken}
use dumbwaystodie.Coach.Inbound.{handle_response, handle_tool_call, reject_tool_call, correlates}
use dumbwaystodie.Coach.Runs.{Operation, run}
use dumbwaystodie.Coach.Sound.{IsSound}
use dumbwaystodie.Coach.Sound.Runs.{run-IsSound}
use dumbwaystodie.Coach.Replies.{executed-correlates, complete-delivered}

abbrev message_id : ℕ → Text
message_id n = lit "m" ++ decimal n

abbrev store : SessionStore
store = record { session = create_session (lit "s") (lit "t0") []; storage = some none; fired = [] }

abbrev at_rest : Coach
at_rest = record {
  sessions = store;
  request_state = RequestLifecycleState.idle;
  last_error = none;
  attachments = [];
  provider_hop = HopState.ready;
  provider_name = lit "Relay";
  pending = none;
  timeout = none;
  settling = false;
  timeout_paused = false;
  abort_controller = false;
  minted = 0;
  effects = [];
}

abbrev question : Text → CoachRequest
question id = record {
  id = id;
  session_id = lit "s";
  message = lit "why?";
  workspace = record { name = lit "w"; roots = [] };
  editor_context = none;
  rendered = none;
  model = none;
  context_items = [];
  attachments = [];
  learning = none;
  coaching = none;
  client_capabilities = no_capabilities;
  available_tools = [];
}

abbrev receipt : MessageReceipt
receipt = record {
  summary = lit "1 message";
  destination = lit "Relay";
  included = [];
  withheld = [];
  characters = 4;
}

abbrev answer : CompletionState → CoachResponse
answer state = record {
  id = lit "a1";
  request_id = lit "r1";
  session_id = lit "s";
  content = ResponseContentPart.text_part (lit "Look again") ∷ [];
  source_kind = SourceKind.browser;
  surface_type = none;
  state = state;
  reason = none;
}

abbrev waiting : Coach
waiting = record at_rest { pending = some (lit "r1"); abort_controller = true }

rest-IsSound : IsSound at_rest
unfolding create_session
rest-IsSound = record { in_step = refl; watched = λ id e. absurd cc }

abbrev operations : List Operation
operations =
    Operation.sent (lit "t1") (lit "why?") (question (lit "r1")) [] receipt
    ∷ Operation.replied (lit "t2") none (answer CompletionState.partial)
    ∷ Operation.paused
    ∷ Operation.resumed
    ∷ []

run-IsSound_example : IsSound (run message_id operations at_rest)
run-IsSound_example = run-IsSound message_id operations at_rest rest-IsSound

some_request : lit "r1" ≢ []
some_request e = cc

complete-delivered_example :
    let g = handle_response message_id (lit "t2") none (answer CompletionState.complete) waiting in
    (g.pending ≡ none)
    × (g.request_state ≡ RequestLifecycleState.delivered)
    × (replies (lit "r1") (messages_of g.sessions) ≡ 1)
unfolding create_session
complete-delivered_example =
    complete-delivered message_id (lit "t2") none (answer CompletionState.complete) waiting refl
      refl some_request (omega arith)

abbrev call : ToolCallRequest
call = record {
  id = lit "k1";
  session_id = lit "s";
  request_id = some (lit "r1");
  tool = lit "workspace.read_file";
  arguments = lit "{}";
}

runs :
    (handle_tool_call message_id (lit "t2") (lit "a.ts") call waiting).effects ≡ executed call ∷ []
unfolding handle_tool_call reject_tool_call create_session say
runs = refl

executed-correlates_example :
    (id : Text) × (some (lit "r1") ≡ some id)
    × (correlates (some (lit "r1")) id ≡ true)
    × (lit "s" ≡ waiting.sessions.session.id)
executed-correlates_example =
    executed-correlates message_id (lit "t2") (lit "a.ts") call waiting runs

-- The user cancels the request r1 and sends r2 before the provider has answered the cancellation: when
-- it does, r2 is given up too.
abbrev sent_again : Coach
sent_again = record (cancel message_id waiting) { pending = some (lit "r2") }

cancel_taken_test : (cancel_taken message_id (lit "t3") (lit "r1") sent_again).pending ≡ none
unfolding cancel_taken finish say
cancel_taken_test = refl
