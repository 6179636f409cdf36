-- ===== src/Panel.antt =====
-- The state behind the panel, `ExtensionState` of packages/extension/src/state/ExtensionState.ts.
-- `changed` counts the events that it fires. `state_beq` and the like are `===` on values without
-- identity.
pub mod Choice
mod Tests
use dumbwaystodie.Prelude.{
  ℕ, suc, ◌+◌, Bool, true, false, not, none, some, Option, List, [], ◌∷◌, ◌++◌, ◌&&◌, Text, lit,
  nat_beq, if◌then◌else◌, length, keep, any, ◌==◌, Eq, nat_eq, list_eq,
}
use dumbwaystodie.Protocol.Wire.{
  AttachmentRef, AvailableSurface, SurfaceState, HopState, RequestLifecycleState,
}

pub record ConnectionSnapshot : Type 0 where
  pub editor : HopState
  pub provider : HopState
  pub relay : HopState
  pub browser : HopState
  pub chat_surface : HopState
  pub provider_name : Text

pub data Hop : Type 0 where
  editor_hop provider_hop relay_hop browser_hop chat_surface_hop : Hop

pub record ExtensionState : Type 0 where
  pub connections : ConnectionSnapshot
  pub request_state : RequestLifecycleState
  pub last_error : Option Text
  pub attachments : List AttachmentRef
  pub awaiting_paste : Option Text
  pub surfaces : List AvailableSurface
  pub chosen_model : Option Text
  pub changed : ℕ

abbrev pub new_state : ExtensionState
new_state = record {
  connections = record {
    editor = HopState.connected;
    provider = HopState.disconnected;
    relay = HopState.not_implemented;
    browser = HopState.not_implemented;
    chat_surface = HopState.not_implemented;
    provider_name = lit "Mock (in-process)";
  };
  request_state = RequestLifecycleState.idle;
  last_error = none;
  attachments = [];
  awaiting_paste = none;
  surfaces = [];
  chosen_model = none;
  changed = 0;
}

abbrev announced : ExtensionState → ExtensionState
announced s = record s { changed = suc s.changed }

abbrev same_text : Option Text → Option Text → Bool
same_text none none = true
same_text (some s) (some t) = s == t
same_text none (some t) = false
same_text (some s) none = false

unfoldable pub set_awaiting_paste : Option Text → ExtensionState → ExtensionState
set_awaiting_paste kind s =
    if same_text s.awaiting_paste kind then s else announced (record s { awaiting_paste = kind })

abbrev pub has_id : Text → AttachmentRef → Bool
has_id id a = a.id == id

unfoldable pub add_attachment : AttachmentRef → ExtensionState → ExtensionState
add_attachment a s =
    if any (has_id a.id) s.attachments
    then s
    else announced (record s { attachments = s.attachments ++ a ∷ [] })

unfoldable pub remove_attachment : Text → ExtensionState → ExtensionState
remove_attachment id s =
    let next = keep (λ a. not (has_id id a)) s.attachments in
    if nat_beq (length next) (length s.attachments)
    then s
    else announced (record s { attachments = next })

unfoldable pub clear_attachments : ExtensionState → ExtensionState
clear_attachments s =
    if nat_beq (length s.attachments) 0 then s else announced (record s { attachments = [] })

unfoldable pub set_provider_name : Text → ExtensionState → ExtensionState
set_provider_name name s =
    if s.connections.provider_name == name
    then s
    else announced (record s { connections = record s.connections { provider_name = name } })

abbrev is_ready : SurfaceState → Bool
is_ready SurfaceState.ready = true
is_ready state = false

-- Whether the chat can answer now.
abbrev pub can_answer : Text → AvailableSurface → Bool
can_answer model entry = entry.id == model && is_ready entry.status

-- The choice that is left when these are the chats.
abbrev pub still_chosen : List AvailableSurface → Option Text → Option Text
still_chosen surfaces none = none
still_chosen surfaces (some []) = some []
still_chosen surfaces (some (c ∷ model)) =
    if any (can_answer (c ∷ model)) surfaces then some (c ∷ model) else none

abbrev status_code : SurfaceState → ℕ
status_code SurfaceState.ready = 0
status_code SurfaceState.lost = 1
status_code SurfaceState.closed = 2
status_code SurfaceState.blocked = 3

abbrev same_surface : AvailableSurface → AvailableSurface → Bool
same_surface a b =
    a.id == b.id
    && a.surface_type == b.surface_type
    && a.label == b.label
    && nat_beq (status_code a.status) (status_code b.status)
    && same_text a.detail b.detail

-- The comparison of the JSON texts.
abbrev same_surfaces : List AvailableSurface → List AvailableSurface → Bool
same_surfaces [] [] = true
same_surfaces (a ∷ xs) (b ∷ ys) = same_surface a b && same_surfaces xs ys
same_surfaces [] (b ∷ ys) = false
same_surfaces (a ∷ xs) [] = false

unfoldable pub set_surfaces : List AvailableSurface → ExtensionState → ExtensionState
set_surfaces surfaces s =
    let next = record s {
      surfaces = surfaces;
      chosen_model = still_chosen surfaces s.chosen_model;
    } in
    if same_surfaces s.surfaces surfaces then next else announced next

unfoldable pub set_model : Option Text → ExtensionState → ExtensionState
set_model model s =
    if same_text s.chosen_model model then s else announced (record s { chosen_model = model })

abbrev hop_code : HopState → ℕ
hop_code HopState.not_implemented = 0
hop_code HopState.disconnected = 1
hop_code HopState.connecting = 2
hop_code HopState.connected = 3
hop_code HopState.ready = 4
hop_code HopState.busy = 5
hop_code HopState.lost = 6
hop_code HopState.error = 7

abbrev hop_value : Hop → ConnectionSnapshot → HopState
hop_value editor_hop c = c.editor
hop_value provider_hop c = c.provider
hop_value relay_hop c = c.relay
hop_value browser_hop c = c.browser
hop_value chat_surface_hop c = c.chat_surface

abbrev with_hop : Hop → HopState → ConnectionSnapshot → ConnectionSnapshot
with_hop editor_hop value c = record c { editor = value }
with_hop provider_hop value c = record c { provider = value }
with_hop relay_hop value c = record c { relay = value }
with_hop browser_hop value c = record c { browser = value }
with_hop chat_surface_hop value c = record c { chat_surface = value }

unfoldable pub set_hop : Hop → HopState → ExtensionState → ExtensionState
set_hop hop value s =
    if nat_beq (hop_code (hop_value hop s.connections)) (hop_code value)
    then s
    else announced (record s { connections = with_hop hop value s.connections })

unfoldable pub set_request : RequestLifecycleState → Option Text → ExtensionState → ExtensionState
set_request state error s = announced (record s { request_state = state; last_error = error })

-- What the parts of the extension do to it.
pub data StateEvent : Type 0 where
  paste_awaited : Option Text → StateEvent
  attached : AttachmentRef → StateEvent
  detached : Text → StateEvent
  attachments_cleared : StateEvent
  provider_named : Text → StateEvent
  surfaces_told : List AvailableSurface → StateEvent
  model_chosen : Option Text → StateEvent
  hop_told : Hop → HopState → StateEvent
  request_told : RequestLifecycleState → Option Text → StateEvent

unfoldable pub apply_event : StateEvent → ExtensionState → ExtensionState
unfolding set_awaiting_paste add_attachment remove_attachment clear_attachments set_provider_name
    set_surfaces set_model set_hop set_request
apply_event (paste_awaited kind) s = set_awaiting_paste kind s
apply_event (attached a) s = add_attachment a s
apply_event (detached id) s = remove_attachment id s
apply_event attachments_cleared s = clear_attachments s
apply_event (provider_named name) s = set_provider_name name s
apply_event (surfaces_told surfaces) s = set_surfaces surfaces s
apply_event (model_chosen model) s = set_model model s
apply_event (hop_told hop value) s = set_hop hop value s
apply_event (request_told state error) s = set_request state error s
