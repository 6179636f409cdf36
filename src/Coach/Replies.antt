-- ===== src/Coach/Replies.antt =====
-- What a reply, a cancellation and a call of a tool lead to in CoachController.ts.
use dumbwaystodie.Prelude.{
  ℕ, ◌≤◌, true, Option, none, some, [], ◌∷◌, Text, ◌==◌, nat_eq, list_eq, ◌≡◌, ◌≢◌, refl, sym, ap,
  ◌∙◌, inl, inr, arith, Bool-cases, Option-cases, beq_refl,
}
use dumbwaystodie.Protocol.Wire.{
  RequestLifecycleState, CoachResponse, CompletionState, ToolCallRequest,
}
use dumbwaystodie.Session.{SessionStore, SessionMessageRole}
use dumbwaystodie.Session.Messages.{set_active_request}
use dumbwaystodie.Session.Streaming.{
  messages_of, replies, replies-streamed, replies-append_message, session-persist_and_fire,
}
use dumbwaystodie.Coach.{Coach, executed, returned, finish, say}
use dumbwaystodie.Coach.Requests.{cancel}
use dumbwaystodie.Coach.Inbound.{
  handle_response, handle_complete, handle_tool_call, reject_tool_call, correlates, stream, warn,
  misrouted,
}

accepted :
    (call : ToolCallRequest) (c : Coach)
    → reject_tool_call call c ≡ none
    → (id : Text) × (c.pending ≡ some id)
      × (correlates call.request_id id ≡ true)
      × (call.session_id ≡ c.sessions.session.id)
unfolding reject_tool_call
accepted call c e = elim (Option-cases c.pending) [
  | inl p ↦ absurd (cc (rw p at e))
  | inr (id, p) ↦
      let e' = rw p at e in
      (
        id,
        p,
        ground arith,
        ground (arith, (list_eq {A = ℕ}).beq_iff call.session_id c.sessions.session.id),
      )
]

module _ (message_id : ℕ → Text) where
  -- A reply that is not to the request in flight changes nothing.
  pub response-stale :
      (now : Text) (chosen : Option Text) (r : CoachResponse) (c : Coach)
      → c.pending ≢ some r.request_id
      → handle_response message_id now chosen r c ≡ c
  unfolding handle_response
  response-stale now chosen r c ne = elim (Option-cases c.pending) [
    | inl e ↦ rw (e, handle_response) refl
    | inr (p, e) ↦ elim (Bool-cases (r.request_id == p)) [
      | inl same ↦
          absurd (ne (e ∙ ap some (sym (((list_eq {A = ℕ}).beq_iff r.request_id p).0 same))))
      | inr other ↦ rw (e, handle_response, other) refl
    ]
  ]

  pending-cancel : (c : Coach) → (cancel message_id c).pending ≡ none
  unfolding cancel
  pending-cancel c = elim (Option-cases c.pending) [
    | inl e ↦ rw (e, cancel) e
    | inr (id, e) ↦ rw (e, cancel) refl
  ]

  -- Once the user has cancelled, no reply that still arrives is shown: it changes nothing at all.
  pub cancel-drops :
      (now : Text) (chosen : Option Text) (r : CoachResponse) (c : Coach)
      → handle_response message_id now chosen r (cancel message_id c) ≡ cancel message_id c
  cancel-drops now chosen r c =
      response-stale now chosen r (cancel message_id c) (λ e. absurd (cc (pending-cancel c, e)))

  -- A tool is run only while a request is in flight, for a call that names this request or none, and
  -- that is for the current session.
  pub executed-correlates :
      (now args : Text) (call : ToolCallRequest) (c : Coach)
      → (handle_tool_call message_id now args call c).effects ≡ executed call ∷ c.effects
      → (id : Text) × (c.pending ≡ some id)
        × (correlates call.request_id id ≡ true)
        × (call.session_id ≡ c.sessions.session.id)
  unfolding handle_tool_call
  executed-correlates now args call c e = elim (Option-cases (reject_tool_call call c)) [
    | inl p ↦ accepted call c p
    | inr (result, p) ↦
        let told : returned result ∷ c.effects ≡ executed call ∷ c.effects =
          rw (p, handle_tool_call) at e in
        absurd cc
  ]

  messages-set_active_request :
      (id : Option Text) (s : SessionStore) → messages_of (set_active_request id s) ≡ messages_of s
  unfolding set_active_request
  messages-set_active_request id s = ap (λ c. c.messages) (session-persist_and_fire _)

  replies-warn :
      (now id : Text) (told : Option (Text × Text)) (c : Coach) (r : Text)
      → replies r (messages_of (warn message_id now id told c).sessions)
        ≡ replies r (messages_of c.sessions)
  unfolding say
  replies-warn now id none c r = refl
  replies-warn now id (some (answered, model)) c r =
      replies-append_message _ now SessionMessageRole.error _ _ c.sessions r refl

  -- A complete reply to the request in flight is delivered: the request is no longer in flight, and it
  -- has exactly one coach message, if it had one at most.
  pub complete-delivered :
      (now : Text) (chosen : Option Text) (r : CoachResponse) (c : Coach)
      → c.pending ≡ some r.request_id
      → r.state ≡ CompletionState.complete
      → r.request_id ≢ []
      → replies r.request_id (messages_of c.sessions) ≤ 1
      → let g = handle_response message_id now chosen r c in
        (g.pending ≡ none)
        × (g.request_state ≡ RequestLifecycleState.delivered)
        × (replies r.request_id (messages_of g.sessions) ≡ 1)
  unfolding handle_response handle_complete finish stream
  complete-delivered now chosen r c p s ne le =
      rw (p, handle_response, beq_refl r.request_id, s)
        (
          refl,
          refl,
          ap (replies r.request_id) (messages-set_active_request none _)
              ∙ replies-streamed _ now r.request_id _ (some r.content) _ ne (
                  rw
                    (replies-warn now r.request_id (misrouted chosen r.surface_type) _ r.request_id)
                    le),
        )
