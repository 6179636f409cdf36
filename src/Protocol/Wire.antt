-- ===== src/Protocol/Wire.antt =====
-- The messages of packages/protocol/src: wire.ts, messages.ts and tools.ts. Creation times
-- are left out; any other field is kept, since a message is passed on whole. Arguments and results of tools, which
-- are `unknown` in the source, are their JSON text.
use dumbwaystodie.Prelude.{ℕ, Bool, false, Option, List, Text}
use dumbwaystodie.Protocol.Context.{WorkspaceContext, EditorContext, ContextItem, LearningState}

pub data AdapterKind : Type 0 where
  editor provider browser mcp : AdapterKind

-- A hello as it arrives: a field of the wrong type reads as `none`.
pub record RawHello : Type 0 where
  pub adapter_kind : Option AdapterKind
  pub adapter_id : Option Text
  pub protocol_version : Option ℕ
  pub token : Option Text
  pub host : Option Text
  pub capabilities : Option (List Text)

pub record AdapterHello : Type 0 where
  pub adapter_kind : AdapterKind
  pub adapter_id : Text
  pub protocol_version : Option ℕ
  pub token : Text
  pub host : Option Text
  pub capabilities : List Text

pub data RejectReason : Type 0 where
  bad_token bad_version malformed timeout : RejectReason

pub data SurfaceState : Type 0 where
  ready lost closed blocked : SurfaceState

pub record AvailableSurface : Type 0 where
  pub id : Text
  pub surface_type : Text
  pub label : Text
  pub status : SurfaceState
  pub detail : Option Text

pub record SurfaceStatusMessage : Type 0 where
  pub build : Option Text
  pub paired : Bool
  pub surface_type : Option Text
  pub detail : Option Text
  pub surfaces : Option (List AvailableSurface)

pub data PermissionClass : Type 0 where
  read execute write destructive : PermissionClass

pub data LearningMode : Type 0 where
  strict_coach guided normal_agent : LearningMode

pub record CoachingMetadata : Type 0 where
  pub mode : LearningMode
  pub rules : Option (List Text)
  pub current_micro_skill : Option Text
  pub require_prediction_before_run : Option Bool
  pub require_user_attempt_before_write : Option Bool

pub record ToolDescriptor : Type 0 where
  pub name : Text
  pub description : Text
  pub permission : PermissionClass

pub record SurfaceOpenMessage : Type 0 where
  pub request_id : Option Text
  pub model : Text
  pub variant : Option Text
  pub url : Option Text

pub data OpenStatus : Type 0 where
  ready blocked failed : OpenStatus

pub record SurfaceOpenedMessage : Type 0 where
  pub request_id : Text
  pub model : Text
  pub status : OpenStatus
  pub detail : Option Text

pub record SurfaceModelsListMessage : Type 0 where
  pub request_id : Text
  pub model : Text
  pub models : List Text
  pub detail : Option Text

pub data MediaSource : Type 0 where
  clipboard screenshot filesystem editor_source import_source : MediaSource

pub record AttachmentRef : Type 0 where
  pub id : Text
  pub filename : Text
  pub mime_type : Text
  pub size : ℕ
  pub sha256 : Text
  pub source : MediaSource
  pub local_media_path : Text

pub record ClientCapabilities : Type 0 where
  pub read_active_document : Bool
  pub read_file : Bool
  pub search_files : Bool
  pub list_directory : Bool
  pub project_tree : Bool
  pub read_diagnostics : Bool
  pub run_command : Bool
  pub attachments : Bool

abbrev pub no_capabilities : ClientCapabilities
no_capabilities = record {
  read_active_document = false;
  read_file = false;
  search_files = false;
  list_directory = false;
  project_tree = false;
  read_diagnostics = false;
  run_command = false;
  attachments = false;
}

pub record CoachRequest : Type 0 where
  pub id : Text
  pub session_id : Text
  pub message : Text
  pub workspace : WorkspaceContext
  pub editor_context : Option EditorContext
  pub rendered : Option Text
  pub model : Option Text
  pub context_items : List ContextItem
  pub attachments : List AttachmentRef
  pub learning : Option LearningState
  pub coaching : Option CoachingMetadata
  pub client_capabilities : ClientCapabilities
  pub available_tools : List ToolDescriptor

pub data ResponseContentPart : Type 0 where
  text_part : Text → ResponseContentPart
  code_part : Option Text → Text → ResponseContentPart
  attachment_part : AttachmentRef → ResponseContentPart

pub data CompletionState : Type 0 where
  partial complete cancelled failed : CompletionState

pub data SourceKind : Type 0 where
  browser mock other : SourceKind

pub record CoachResponse : Type 0 where
  pub id : Text
  pub request_id : Text
  pub session_id : Text
  pub content : List ResponseContentPart
  pub source_kind : SourceKind
  pub surface_type : Option Text
  pub state : CompletionState
  pub reason : Option Text

pub data ToolErrorCode : Type 0 where
  not_found permission_denied outside_workspace timeout invalid_argument too_large : ToolErrorCode
  execution_failed unsupported internal : ToolErrorCode

pub record ToolError : Type 0 where
  pub code : ToolErrorCode
  pub message : Text
  pub details : Option (List (Text × Text))

pub record ToolCallRequest : Type 0 where
  pub id : Text
  pub session_id : Text
  pub request_id : Option Text
  pub tool : Text
  pub arguments : Text

pub record ToolCallResult : Type 0 where
  pub id : Text
  pub session_id : Text
  pub ok : Bool
  pub result : Option Text
  pub error : Option ToolError
  pub duration_ms : ℕ

pub data RequestLifecycleState : Type 0 where
  idle capturing_context request_ready sending was_sent provider_processing : RequestLifecycleState
  tool_requested tool_running tool_result_sent response_received delivered failed :
      RequestLifecycleState
  cancelled timed_out permission_denied provider_disconnected : RequestLifecycleState

pub data ProviderStatus : Type 0 where
  connecting ready busy waiting_for_tool disconnected error : ProviderStatus

pub data HopState : Type 0 where
  not_implemented disconnected connecting connected ready busy lost error : HopState

pub data ConnectionState : Type 0 where
  disconnected connecting connected reconnecting error : ConnectionState

pub data WireMessage : Type 0 where
  adapter_hello : RawHello → WireMessage
  adapter_welcome : Text → ℕ → List AdapterKind → WireMessage
  adapter_rejected : RejectReason → Text → WireMessage
  adapter_registry : (editor provider browser : Bool) → WireMessage
  surface_status : SurfaceStatusMessage → WireMessage
  tools_available : List ToolDescriptor → WireMessage
  pair_open : (duration_ms : ℕ) → WireMessage
  surface_open : SurfaceOpenMessage → WireMessage
  surface_opened : SurfaceOpenedMessage → WireMessage
  surface_models : (request_id model : Text) → WireMessage
  surface_models_list : SurfaceModelsListMessage → WireMessage
  media_register : AttachmentRef → WireMessage
  media_unregister : Text → WireMessage
  coach_request : CoachRequest → WireMessage
  coach_response : CoachResponse → WireMessage
  tool_call : ToolCallRequest → WireMessage
  tool_result : ToolCallResult → WireMessage
  provider_status : ProviderStatus → Option Text → WireMessage
  provider_error : Text → Option Text → WireMessage
  ping pong : Text → WireMessage

abbrev pub protocol_version : ℕ
protocol_version = 1

abbrev pub heartbeat_stale_ms : ℕ
heartbeat_stale_ms = 45_000

abbrev handshake_timeout_ms : ℕ
handshake_timeout_ms = 5_000
