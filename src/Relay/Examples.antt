-- ===== src/Relay/Examples.antt =====
-- A hub to which an editor and a browser are attached, with messages for it.
use dumbwaystodie.Prelude.{true, false, none, some, [], ◌∷◌, ◌++◌, Text, lit, nat_eq, list_eq}
use dumbwaystodie.Protocol.Wire.{
  AdapterKind, editor, browser, WireMessage, SourceKind, CoachResponse, CompletionState,
  ToolCallRequest, ToolCallResult, AttachmentRef, MediaSource, ResponseContentPart,
}
use dumbwaystodie.Relay.Hub.{Hub, Connection, PendingRequest}
use dumbwaystodie.Relay.Hub.Events.{init}

-- Any function will do for the examples: this one tells the roles apart.
abbrev pub hmac : Text → Text → Text
hmac key text = text ++ key

abbrev pub token : Text
token = lit "t0"

abbrev connection_of : Text → AdapterKind → Connection
connection_of id kind = record {
  id = id;
  kind = some kind;
  adapter_id = some id;
  authenticated = true;
  last_seen_at = 0;
  handshake_timer = false;
  listed = true;
  is_open = true;
}

abbrev pub the_editor : Connection
the_editor = connection_of (lit "c1") editor

abbrev pub the_browser : Connection
the_browser = connection_of (lit "c2") browser

abbrev stranger : Connection
stranger = record the_browser {
  id = lit "c3";
  kind = none;
  adapter_id = none;
  authenticated = false;
}

abbrev pub entry : PendingRequest
entry = record { request_id = lit "r1"; session_id = lit "s"; started_at = 0 }

abbrev pub hub : Hub
hub = record (init token) {
  objects = the_editor ∷ the_browser ∷ stranger ∷ [];
  pending = (lit "r1", entry) ∷ [];
  pairing_open_until = 50;
}

abbrev pub hello_of : AdapterKind → Text → WireMessage
hello_of kind tok = WireMessage.adapter_hello (record {
  adapter_kind = some kind;
  adapter_id = some (lit "a");
  protocol_version = some 1;
  token = some tok;
  host = none;
  capabilities = none;
})

abbrev pub reply : Text → CompletionState → CoachResponse
reply id state = record {
  id = lit "m1";
  request_id = id;
  session_id = lit "s";
  content = ResponseContentPart.text_part (lit "look again") ∷ [];
  source_kind = SourceKind.browser;
  surface_type = none;
  state = state;
  reason = none;
}

abbrev pub call : ToolCallRequest
call = record {
  id = lit "k1";
  session_id = lit "s";
  request_id = none;
  tool = lit "workspace.read_file";
  arguments = lit "{}";
}

abbrev pub call_result : ToolCallResult
call_result = record {
  id = lit "k1";
  session_id = lit "s";
  ok = true;
  result = none;
  error = none;
  duration_ms = 3;
}

abbrev pub picture : AttachmentRef
picture = record {
  id = lit "p1";
  filename = lit "a.png";
  mime_type = lit "image/png";
  size = 10;
  sha256 = lit "ab";
  source = MediaSource.clipboard;
  local_media_path = lit "/media/p1";
}
