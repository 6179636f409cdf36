-- ===== src/Coach.antt =====
-- The request in flight of packages/extension/src/coach/CoachController.ts, over the session store.
-- A method is split where it waits: what follows an `await`, and what a timer calls, is an operation
-- of its own. Ids of messages come from `message_id`; those of requests are not empty.
pub mod Requests
pub mod Inbound
pub mod Runs
pub mod Kept
pub mod Sound
pub mod Replies
mod Tests
use dumbwaystodie.Prelude.{
  ℕ, suc, Bool, true, false, Option, none, some, List, [], ◌∷◌, ◌++◌, Text, if◌then◌else◌, ◌==◌,
  nat_eq, list_eq,
}
use dumbwaystodie.Protocol.Wire.{
  RequestLifecycleState, idle, delivered, failed, cancelled, timed_out, permission_denied,
  provider_disconnected, AttachmentRef, CoachRequest, ToolCallRequest, ToolCallResult, HopState,
}
use dumbwaystodie.Session.{SessionStore, SessionMessageRole}
use dumbwaystodie.Session.Messages.{Extra, append_message, set_active_request}

-- `timeoutHandle`: the request that it was armed for, and whether it has still to fire.
pub record Timeout : Type 0 where
  pub request : Text
  pub live : Bool

pub data CoachEffect : Type 0 where
  requested : CoachRequest → CoachEffect
  cancel_requested : Text → CoachEffect
  executed : ToolCallRequest → CoachEffect
  returned : ToolCallResult → CoachEffect
  aborted : CoachEffect

pub record Coach : Type 0 where
  pub sessions : SessionStore
  pub request_state : RequestLifecycleState
  pub last_error : Option Text
  pub attachments : List AttachmentRef
  pub provider_hop : HopState
  pub provider_name : Text
  pub pending : Option Text
  pub timeout : Option Timeout
  pub settling : Bool
  pub timeout_paused : Bool
  pub abort_controller : Bool
  -- How many messages were given an id.
  pub minted : ℕ
  -- What the provider and the tools were asked, the last one first.
  pub effects : List CoachEffect

abbrev pub set_request_state : RequestLifecycleState → Option Text → Coach → Coach
set_request_state state error c = record c { request_state = state; last_error = error }

is_terminal : RequestLifecycleState → Bool
is_terminal delivered = true
is_terminal failed = true
is_terminal cancelled = true
is_terminal timed_out = true
is_terminal permission_denied = true
is_terminal provider_disconnected = true
is_terminal _ = false

abbrev pub plain : Extra
plain = record { parts = none; request_id = none; tool = none; receipt = none }

abbrev pub about : Text → Extra
about id = record plain { request_id = some id }

abbrev pub clear_timeout : Coach → Coach
clear_timeout c = record c { timeout = none; settling = false }

abbrev pub arm_timeout : Text → Coach → Coach
arm_timeout id c = record c {
  timeout = some (record { request = id; live = true });
  settling = false;
}

-- `delete this.session.activeRequestId`, with what goes with it.
abbrev pub activate : Option Text → Coach → Coach
activate id c = record c { sessions = set_active_request id c.sessions }

pub finish : RequestLifecycleState → Option Text → Coach → Coach
finish state error c =
    let c' =
      activate none (record (clear_timeout c) { abort_controller = false; pending = none }) in
    record c' { request_state = state; last_error = error; settling = is_terminal state }

-- The timer that `finish` starts.
pub on_settled : Coach → Coach
on_settled c =
    if c.settling
    then (elim c.pending [
      | none ↦ record c { settling = false; request_state = idle; last_error = none }
      | some id ↦ record c { settling = false }
    ])
    else c

pub pause_timeout : Coach → Coach
pause_timeout c = elim c.timeout [
  | none ↦ c
  | some t ↦ record c { timeout = none; timeout_paused = true }
]

pub resume_timeout : Coach → Coach
resume_timeout c =
    if c.timeout_paused
    then (elim c.pending [
      | none ↦ record c { timeout_paused = false }
      | some id ↦ arm_timeout id (record c { timeout_paused = false })
    ])
    else c

module _ (message_id : ℕ → Text) where
  pub say : Text → SessionMessageRole → Text → Extra → Coach → Coach
  say now role text extra c = record c {
    sessions = append_message (message_id c.minted) now role text extra c.sessions;
    minted = suc c.minted;
  }
