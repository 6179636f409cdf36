-- ===== src/Session.antt =====
-- The conversation that is kept: packages/extension/src/session/SessionStore.ts and persistence.ts,
-- with the types of packages/protocol/src/session.ts and permissions.ts. Times and new ids are
-- arguments. `storage` is what the `SessionStorage` holds, whose `write` is taken to copy.
pub mod Order
pub mod Messages
pub mod Restore
pub mod Streaming
mod Tests
use dumbwaystodie.Prelude.{
  ℕ, suc, ◌-◌, Bool, true, false, ◌&&◌, Option, none, some, List, [], ◌∷◌, ◌++◌, map, Text, lit,
  join, find, drop, length, if◌then◌else◌, leb, ltb, ◌==◌, nat_eq, list_eq,
}
use dumbwaystodie.Protocol.Context.{LearningState, WorkspaceRootRef}
use dumbwaystodie.Protocol.Wire.{
  ResponseContentPart, ToolErrorCode, PermissionClass, read, execute, write, destructive,
}
use dumbwaystodie.Protocol.Wire.{LearningMode, strict_coach}
use dumbwaystodie.Permissions.{PermissionDecision, allow, ask, deny}

pub data PermissionMode : Type 0 where
  ask_every_time allow_read allow_safe custom : PermissionMode

pub record SessionPermissions : Type 0 where
  pub mode : PermissionMode
  pub learning_mode : LearningMode
  pub by_class : PermissionClass → PermissionDecision

abbrev strict_coach_classes : PermissionClass → PermissionDecision
strict_coach_classes read = allow
strict_coach_classes execute = ask
strict_coach_classes write = deny
strict_coach_classes destructive = deny

abbrev strict_coach_permissions : SessionPermissions
strict_coach_permissions = record {
  mode = PermissionMode.allow_read;
  learning_mode = strict_coach;
  by_class = strict_coach_classes;
}

pub data SessionMessageRole : Type 0 where
  user coach system error tool : SessionMessageRole

abbrev pub is_coach : SessionMessageRole → Bool
is_coach SessionMessageRole.coach = true
is_coach _ = false

pub data ToolStatus : Type 0 where
  running ok failed : ToolStatus

pub record ToolActivity : Type 0 where
  pub call_id : Text
  pub tool : Text
  pub args_summary : Text
  pub status : ToolStatus
  pub duration_ms : Option ℕ
  pub result_summary : Option Text
  pub error_code : Option ToolErrorCode

pub record MessageReceipt : Type 0 where
  pub summary : Text
  pub destination : Text
  pub included : List (Text × Text)
  pub withheld : List Text
  pub characters : ℕ

pub record SessionMessage : Type 0 where
  pub id : Text
  pub role : SessionMessageRole
  pub created_at : Text
  pub text : Text
  pub parts : Option (List ResponseContentPart)
  pub request_id : Option Text
  pub tool : Option ToolActivity
  pub receipt : Option MessageReceipt

pub record CoachSession : Type 0 where
  pub id : Text
  pub name : Text
  pub created_at : Text
  pub updated_at : Text
  pub workspace_roots : List WorkspaceRootRef
  pub learning : Option LearningState
  pub active_request_id : Option Text
  pub messages : List SessionMessage
  pub permissions : SessionPermissions

-- `storage` is `none` without a `SessionStorage`; `fired` has the sessions that the listeners were
-- called with, the last one first.
pub record SessionStore : Type 0 where
  pub session : CoachSession
  pub storage : Option (Option CoachSession)
  pub fired : List CoachSession

abbrev max_persisted_messages : ℕ
max_persisted_messages = 200

-- `sort` compares texts by their code units.
pub leb_text : Text → Text → Bool
leb_text [] b = true
leb_text (c ∷ a) [] = false
leb_text (c ∷ a) (d ∷ b) =
    let rest = leb_text a b in if ltb c d then true else if ltb d c then false else rest

pub insert_text : Text → List Text → List Text
insert_text t [] = t ∷ []
insert_text t (u ∷ l) = let rest = insert_text t l in if leb_text t u then t ∷ u ∷ l else u ∷ rest

pub sort : List Text → List Text
sort [] = []
sort (t ∷ l) = insert_text t (sort l)

pub fingerprint : List WorkspaceRootRef → Text
fingerprint roots = join (lit "|") (sort (map (λ (r : WorkspaceRootRef). r.path) roots))

pub belongs_to_workspace : Option CoachSession → List WorkspaceRootRef → Bool
belongs_to_workspace none roots = false
belongs_to_workspace (some saved) roots = fingerprint saved.workspace_roots == fingerprint roots

-- `messages.slice(-max)` is the whole list where `max` is 0.
pub bound_messages : List SessionMessage → ℕ → List SessionMessage
bound_messages messages max =
    if leb (length messages) max
    then messages
    else if max == 0
    then messages
    else drop (length messages - max) messages

abbrev first_name : List WorkspaceRootRef → Text
first_name [] = lit "Dumb Ways to Die"
first_name (r ∷ roots) = r.name

unfoldable pub create_session : Text → Text → List WorkspaceRootRef → CoachSession
create_session id now roots = record {
  id = id;
  name = first_name roots;
  created_at = now;
  updated_at = now;
  workspace_roots = roots;
  learning = none;
  active_request_id = none;
  messages = [];
  permissions = strict_coach_permissions;
}

abbrev saved_in : Option (Option CoachSession) → Option CoachSession
saved_in none = none
saved_in (some saved) = saved

pub restore : Option (Option CoachSession) → List WorkspaceRootRef → Option CoachSession
restore storage roots = elim (saved_in storage) [
  | none ↦ none
  | some saved ↦ if belongs_to_workspace (some saved) roots then some saved else none
]

-- The constructor; `id` and `now` are used if a session is created.
pub open_store : Text → Text → List WorkspaceRootRef → Option (Option CoachSession) → SessionStore
open_store id now roots storage = elim (restore storage roots) [
  | some saved ↦ record { session = saved; storage = storage; fired = [] }
  | none ↦ record { session = create_session id now roots; storage = storage; fired = [] }
]

-- What `persist` writes.
abbrev pub bounded : CoachSession → CoachSession
bounded s = record s { messages = bound_messages s.messages max_persisted_messages }

-- `persist`, and then `changeEmitter.fire`.
pub persist_and_fire : SessionStore → SessionStore
persist_and_fire s = elim s.storage [
  | none ↦ record s { fired = s.session ∷ s.fired }
  | some old ↦ record s { storage = some (some (bounded s.session)); fired = s.session ∷ s.fired }
]

unfoldable pub new_session : Text → Text → List WorkspaceRootRef → SessionStore → SessionStore
new_session id now roots s = persist_and_fire (record s { session = create_session id now roots })
