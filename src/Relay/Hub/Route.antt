-- ===== src/Relay/Hub/Route.antt =====
-- `route` of hub.ts: what the hub does with a message of an authenticated connection. `c` is the
-- connection as the handler finds it.
use dumbwaystodie.Prelude.{
  ℕ, ◌+◌, min, max, Bool, true, false, not, ◌&&◌, Option, none, some, List, [], ◌∷◌, ◌++◌, Text,
  lit, trim, if◌then◌else◌, lookup, insert, erase, has, ◌==◌, nat_eq, list_eq,
}
use dumbwaystodie.Protocol.Wire.{
  editor, browser, WireMessage, adapter_hello, adapter_welcome, adapter_rejected, adapter_registry,
  surface_status, tools_available, pair_open, surface_open, surface_opened, surface_models,
  surface_models_list, media_register, media_unregister, coach_request, coach_response, tool_call,
  tool_result, provider_status, provider_error, ping, pong, AttachmentRef, CoachRequest,
  CoachResponse, ResponseContentPart, text_part, CompletionState, ToolCallRequest, ToolCallResult,
  ToolErrorCode, SurfaceOpenMessage, OpenStatus, ToolDescriptor,
}
use dumbwaystodie.Relay.Hub.{
  Hub, Connection, PendingRequest, Effect, answered, refused, emit, listed_object, is_kind,
  find_by_kind, provider_connection, send, send_all, ids_where,
}

abbrev pub is_partial : CompletionState → Bool
is_partial CompletionState.partial = true
is_partial CompletionState.complete = false
is_partial CompletionState.cancelled = false
is_partial CompletionState.failed = false

-- `forward` to a connection that may not be there.
abbrev pub forward_to : Option Connection → Text → WireMessage → Hub → Hub
forward_to none session message h = h
forward_to (some target) session message h = send target.id session message h

unfoldable pub route_coach_request : ℕ → Connection → CoachRequest → Hub → Hub
route_coach_request now c r h =
    if not (is_kind editor c.kind) then h else elim (provider_connection h) [
      | none ↦
          send c.id r.session_id
            (provider_error
              (lit
                "No provider is connected to the relay. Start the provider process and try again.")
              (some r.id))
            h
      | some target ↦
          let entry : PendingRequest = record {
            request_id = r.id;
            session_id = r.session_id;
            started_at = now;
          } in
          send target.id r.session_id (coach_request r)
            (record h { pending = insert r.id entry h.pending })
    ]

-- `part.type === "text" ? part.text : ""`, joined.
unfoldable pub text_of : List ResponseContentPart → Text
text_of [] = []
text_of (text_part t ∷ parts) = t ++ text_of parts
text_of (other ∷ parts) = text_of parts

-- A waiter of `ask`: it leaves the table and its promise is settled.
unfoldable pub settle : Text → Effect → Hub → Hub
settle id effect h = emit effect (record h { answers = erase id h.answers })

unfoldable pub route_coach_response : CoachResponse → Hub → Hub
route_coach_response r h =
    if has r.request_id h.answers
    then if is_partial r.state
      then h
      else settle r.request_id (answered r.request_id (trim (text_of r.content))) h
    else if not (has r.request_id h.pending)
    then h
    else forward_to (find_by_kind editor h) r.session_id (coach_response r)
        (if is_partial r.state then h else record h { pending = erase r.request_id h.pending })

pub no_editor : ToolCallRequest → ToolCallResult
no_editor call = record {
  id = call.id;
  session_id = call.session_id;
  ok = false;
  result = none;
  error = some (record {
    code = ToolErrorCode.internal;
    message = lit "The editor is not connected to the relay.";
    details = none;
  });
  duration_ms = 0;
}

unfoldable pub route_tool_call : Connection → ToolCallRequest → Hub → Hub
route_tool_call c call h = elim (find_by_kind editor h) [
  | none ↦ send c.id call.session_id (tool_result (no_editor call)) h
  | some target ↦
      send target.id call.session_id (tool_call call)
        (record h { tool_callers = insert call.id c.id h.tool_callers })
]

-- Where a result goes: to the caller, if its call is known, and to the provider otherwise.
unfoldable pub result_target : Text → Hub → Option Connection
result_target id h = elim (lookup id h.tool_callers) [
  | some caller ↦ listed_object caller h
  | none ↦ provider_connection h
]

unfoldable pub route_tool_result : ToolCallResult → Hub → Hub
route_tool_result r h =
    forward_to (result_target r.id h) r.session_id (tool_result r)
      (record h { tool_callers = erase r.id h.tool_callers })

unfoldable pub route_surface_open : Connection → SurfaceOpenMessage → Hub → Hub
route_surface_open c m h =
    if not (is_kind editor c.kind) then h else elim (find_by_kind browser h) [
      | some target ↦ send target.id (lit "relay") (surface_open m) h
      | none ↦ elim m.request_id [
        | none ↦ h
        | some id ↦
            send c.id (lit "relay")
              (surface_opened (record {
                request_id = id;
                model = m.model;
                status = OpenStatus.failed;
                detail = some (lit "The browser add-on is not connected.");
              }))
              h
      ]
    ]

unfoldable pub route_surface_models : Connection → Text → Text → Hub → Hub
route_surface_models c request_id model h =
    if not (is_kind editor c.kind) then h else elim (find_by_kind browser h) [
      | some target ↦ send target.id (lit "relay") (surface_models request_id model) h
      | none ↦
          send c.id (lit "relay")
            (surface_models_list (record {
              request_id = request_id;
              model = model;
              models = [];
              detail = some (lit "No browser is connected.");
            }))
            h
    ]

-- What only a browser may send goes to the editor.
unfoldable pub route_from_browser : Connection → WireMessage → Hub → Hub
route_from_browser c m h =
    if is_kind browser c.kind then forward_to (find_by_kind editor h) (lit "relay") m h else h

abbrev not_editor : Connection → Bool
not_editor p = p.listed && p.authenticated && not (is_kind editor p.kind)

unfoldable pub route_tools_available : Connection → List ToolDescriptor → Hub → Hub
route_tools_available c tools h =
    if not (is_kind editor c.kind)
    then h
    else send_all (ids_where not_editor h.objects) (tools_available tools)
        (record h { tools = some (tools_available tools) })

-- The waiter, called with an error: an empty one resolves the promise with the empty text.
abbrev pub waiter_error : Text → Text → Effect
waiter_error id error = if error == [] then answered id [] else refused id error

unfoldable pub route_provider_error : Text → Option Text → Hub → Hub
route_provider_error message none h =
    forward_to (find_by_kind editor h) (lit "relay") (provider_error message none) h
route_provider_error message (some id) h =
    if not (id == []) && has id h.answers
    then settle id (waiter_error id message) h
    else forward_to (find_by_kind editor h) (lit "relay") (provider_error message (some id)) h

unfoldable pub route_pair_open : ℕ → Connection → ℕ → Hub → Hub
route_pair_open now c duration_ms h =
    if is_kind editor c.kind
    then record h { pairing_open_until = now + min (max duration_ms 1000) 300_000 }
    else h

unfoldable pub route_media_register : Connection → AttachmentRef → Hub → Hub
route_media_register c media h =
    if is_kind editor c.kind then record h { media = insert media.id media h.media } else h

unfoldable pub route_media_unregister : Connection → Text → Hub → Hub
route_media_unregister c id h =
    if is_kind editor c.kind then record h { media = erase id h.media } else h

unfoldable pub route : ℕ → Connection → WireMessage → Hub → Hub
route now c (ping at) h = send c.id (lit "relay") (pong at) h
route now c (pong at) h = h
route now c (coach_request r) h = route_coach_request now c r h
route now c (coach_response r) h = route_coach_response r h
route now c (tool_call call) h = route_tool_call c call h
route now c (tool_result r) h = route_tool_result r h
route now c (media_register media) h = route_media_register c media h
route now c (media_unregister id) h = route_media_unregister c id h
route now c (pair_open duration_ms) h = route_pair_open now c duration_ms h
route now c (surface_open m) h = route_surface_open c m h
route now c (surface_models id model) h = route_surface_models c id model h
route now c (surface_models_list m) h = route_from_browser c (surface_models_list m) h
route now c (surface_opened m) h = route_from_browser c (surface_opened m) h
route now c (tools_available tools) h = route_tools_available c tools h
route now c (provider_error message id) h = route_provider_error message id h
route now c (provider_status status detail) h =
    forward_to (find_by_kind editor h) (lit "relay") (provider_status status detail) h
route now c (surface_status m) h =
    forward_to (find_by_kind editor h) (lit "relay") (surface_status m) h
route now c (adapter_hello hello) h = h
route now c (adapter_welcome id version peers) h = h
route now c (adapter_rejected reason message) h = h
route now c (adapter_registry e p b) h = h
