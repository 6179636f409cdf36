-- ===== src/Coach/Kept.antt =====
-- What the operations of CoachController.ts that only show something leave as it was.
use dumbwaystodie.Prelude.{
  ℕ, Option, none, List, [], ◌∷◌, Text, find, ◌==◌, nat_eq, list_eq, ◌≡◌, refl, ap, ◌∙◌, inl, inr,
  Option-cases,
}
use dumbwaystodie.Protocol.Context.{WorkspaceRootRef}
use dumbwaystodie.Protocol.Wire.{RequestLifecycleState, ResponseContentPart}
use dumbwaystodie.Session.{
  SessionStore, CoachSession, SessionMessage, SessionMessageRole, persist_and_fire, new_session,
  create_session,
}
use dumbwaystodie.Session.Messages.{
  Extra, append_message, replace_streaming_message, update_message, set_active_request,
}
use dumbwaystodie.Session.Messages
use dumbwaystodie.Session.Streaming.{session-persist_and_fire}
use dumbwaystodie.Coach.{Coach, finish, say}
use dumbwaystodie.Coach.Requests.{say_all}
use dumbwaystodie.Coach.Inbound.{stream}

abbrev pub active_of : SessionStore → Option Text
active_of s = s.session.active_request_id

active-persist_and_fire : (s : SessionStore) → active_of (persist_and_fire s) ≡ active_of s
active-persist_and_fire s =
    ap (λ (c : CoachSession). c.active_request_id) (session-persist_and_fire s)

active-append_message :
    (id now : Text) (role : SessionMessageRole) (text : Text) (extra : Extra) (s : SessionStore)
    → active_of (append_message id now role text extra s) ≡ active_of s
unfolding append_message
active-append_message id now role text extra s = active-persist_and_fire _

pub active-set : (id : Option Text) (s : SessionStore) → active_of (set_active_request id s) ≡ id
unfolding set_active_request
active-set id s = active-persist_and_fire _

pub active-new_session :
    (id now : Text) (roots : List WorkspaceRootRef) (s : SessionStore)
    → active_of (new_session id now roots s) ≡ none
unfolding new_session create_session
active-new_session id now roots s = active-persist_and_fire _

active-replace :
    (id now r text : Text) (parts : Option (List ResponseContentPart)) (s : SessionStore)
    → active_of (replace_streaming_message id now r text parts s) ≡ active_of s
unfolding replace_streaming_message
active-replace id now r text parts s =
    elim (Option-cases (find (Messages.answers r) s.session.messages)) [
      | inl e ↦ rw (e, replace_streaming_message) (active-append_message id now _ text _ s)
      | inr (m, e) ↦ rw (e, replace_streaming_message) (active-persist_and_fire _)
    ]

pub active-update_message :
    (now id : Text) (f : SessionMessage → SessionMessage) (s : SessionStore)
    → active_of (update_message now id f s) ≡ active_of s
unfolding update_message
active-update_message now id f s = elim (Option-cases (find (λ m. m.id == id) s.session.messages)) [
  | inl e ↦ rw (e, update_message) refl
  | inr (m, e) ↦ rw (e, update_message) (active-persist_and_fire _)
]

-- The same request in flight, timeout and active request.
pub record Same (c d : Coach) : Type 0 where
  pub pending : d.pending ≡ c.pending
  pub timeout : d.timeout ≡ c.timeout
  pub paused : d.timeout_paused ≡ c.timeout_paused
  pub active : active_of d.sessions ≡ active_of c.sessions

pub Same-refl : (c : Coach) → Same c c
Same-refl c = record { pending = refl; timeout = refl; paused = refl; active = refl }

Same-trans : (a b c : Coach) → Same a b → Same b c → Same a c
Same-trans a b c p q = record {
  pending = q.pending ∙ p.pending;
  timeout = q.timeout ∙ p.timeout;
  paused = q.paused ∙ p.paused;
  active = q.active ∙ p.active;
}

module _ (message_id : ℕ → Text) where
  pub Same-say :
      (now : Text) (role : SessionMessageRole) (text : Text) (extra : Extra) (c : Coach)
      → Same c (say message_id now role text extra c)
  unfolding say
  Same-say now role text extra c = record {
    pending = refl;
    timeout = refl;
    paused = refl;
    active = active-append_message _ now role text extra c.sessions;
  }

  pub Same-stream :
      (now id text : Text) (parts : Option (List ResponseContentPart)) (c : Coach)
      → Same c (stream message_id now id text parts c)
  unfolding stream
  Same-stream now id text parts c = record {
    pending = refl;
    timeout = refl;
    paused = refl;
    active = active-replace _ now id text parts c.sessions;
  }

  pub Same-say_all :
      (now id : Text) (notes : List Text) (c : Coach) → Same c (say_all message_id now id notes c)
  unfolding say_all
  Same-say_all now id [] c = Same-refl c
  Same-say_all now id (note ∷ notes) c =
      Same-trans c (say message_id now SessionMessageRole.system note _ c) _
        (Same-say now SessionMessageRole.system note _ c) (Same-say_all now id notes _)

pub finish-idle :
    (state : RequestLifecycleState) (error : Option Text) (c : Coach)
    → ((finish state error c).pending ≡ none) × (active_of (finish state error c).sessions ≡ none)
unfolding finish
finish-idle state error c = (refl, active-set none c.sessions)
