-- ===== src/Coach/Sound/Steps.antt =====
-- Soundness and the single operations of CoachController.ts.
use dumbwaystodie.Prelude.{
  ℕ, true, false, Option, none, some, List, [], Text, trim, ◌==◌, nat_eq, list_eq, ◌≡◌, refl, sym,
  ap, ◌∙◌, ◌⊎◌, inl, inr, arith, Bool-cases, Option-cases, if_both, beq_refl,
}
use dumbwaystodie.Protocol.Wire.{
  CoachResponse, CompletionState, CoachRequest, ToolCallRequest, ToolCallResult,
}
use dumbwaystodie.Session.{SessionMessageRole, MessageReceipt}
use dumbwaystodie.Coach.{Coach, Timeout, on_settled, pause_timeout, resume_timeout}
use dumbwaystodie.Coach.Requests.{send, cancel, on_timeout}
use dumbwaystodie.Coach.Inbound.{
  stream, handle_response, handle_partial, handle_complete, handle_unfinished,
  handle_provider_error, handle_tool_call, reject_tool_call, tool_finished, is_pending,
  flatten_parts,
}
use dumbwaystodie.Coach.Kept.{
  active-set, active-update_message, Same, Same-refl, Same-say, Same-stream,
}
use dumbwaystodie.Coach.Sound.{IsSound, Same-IsSound, idle-IsSound, armed-IsSound, finish-IsSound}

Completion-cases :
    (s : CompletionState)
    → (s ≡ CompletionState.partial)
      ⊎ ((s ≡ CompletionState.complete)
          ⊎ ((s ≡ CompletionState.cancelled) ⊎ (s ≡ CompletionState.failed)))
Completion-cases CompletionState.partial = inl refl
Completion-cases CompletionState.complete = inr (inl refl)
Completion-cases CompletionState.cancelled = inr (inr (inl refl))
Completion-cases CompletionState.failed = inr (inr (inr refl))

module _ (message_id : ℕ → Text) where
  pub send-IsSound :
      (now text : Text) (request : CoachRequest) (notes : List Text) (receipt : MessageReceipt)
      (c : Coach)
      → IsSound c
      → IsSound (send message_id now text request notes receipt c)
  unfolding send
  send-IsSound now text request notes receipt c v =
      if_both IsSound (trim text == []) c _ v elim (Option-cases c.pending) [
        | inl e ↦ rw e (armed-IsSound _ request.id refl (active-set (some request.id) _) refl)
        | inr (id, e) ↦ rw e (Same-IsSound c _ (Same-say message_id now _ _ _ c) v)
      ]

  pub cancel-IsSound : (c : Coach) → IsSound c → IsSound (cancel message_id c)
  unfolding cancel
  cancel-IsSound c v = elim (Option-cases c.pending) [
    | inl e ↦ rw (e, cancel) v
    | inr (id, e) ↦ rw (e, cancel) (idle-IsSound _ refl (active-set none c.sessions))
  ]

  -- A timer that fires for a request which is no longer in flight.
  stale-IsSound :
      (c : Coach) (t : Timeout) (id : Text)
      → c.timeout ≡ some t
      → c.pending ≡ some id
      → (id == t.request) ≡ false
      → IsSound c
      → IsSound (record c { timeout = some (record t { live = false }) })
  stale-IsSound c t id e p ne v = record {
    in_step = v.in_step;
    watched = λ j q. elim (v.watched j q) [
      | inl a ↦
          let same : t ≡ record { request = j; live = true } = cc (e, a) in
          let here : id ≡ j = cc (p, q) in
          absurd (ground (arith, ap (λ (x : Timeout). x.request) same, here, ne, beq_refl j))
      | inr stopped ↦ inr stopped
    ];
  }

  pub timeout-IsSound : (now : Text) (c : Coach) → IsSound c → IsSound (on_timeout message_id now c)
  unfolding on_timeout
  timeout-IsSound now c v = elim (Option-cases c.timeout) [
    | inl e ↦ rw (e, on_timeout) v
    | inr (t, e) ↦
        rw (e, on_timeout)
          (if_both IsSound t.live _ c
            elim (Option-cases c.pending) [
              | inl p ↦ rw p (idle-IsSound _ p (v.in_step ∙ p))
              | inr (id, p) ↦ rw p elim (Bool-cases (id == t.request)) [
                | inl same ↦ rw same (finish-IsSound _ _ _)
                | inr ne ↦ rw ne (stale-IsSound c t id e p ne v)
              ]
            ]
            v)
  ]

  pending_of : (id : Text) (c : Coach) → is_pending id c ≡ true → c.pending ≡ some id
  pending_of id c h = elim (Option-cases c.pending) [
    | inl e ↦ absurd (cc (rw e at h))
    | inr (p, e) ↦ e ∙ ap some (sym (((list_eq {A = ℕ}).beq_iff id p).0 (rw e at h)))
  ]

  partial-IsSound :
      (now : Text) (r : CoachResponse) (c : Coach)
      → c.pending ≡ some r.request_id
      → IsSound c
      → IsSound (handle_partial message_id now r c)
  unfolding handle_partial
  partial-IsSound now r c e v =
      let shown = stream message_id now r.request_id (flatten_parts r.content) none c in
      let same =
        if_both (Same c) (flatten_parts r.content == []) c shown (Same-refl c)
          (Same-stream message_id now r.request_id _ none c) in
      armed-IsSound _ r.request_id (same.pending ∙ e) (same.active ∙ (v.in_step ∙ e)) refl

  pub response-IsSound :
      (now : Text) (chosen : Option Text) (r : CoachResponse) (c : Coach)
      → IsSound c
      → IsSound (handle_response message_id now chosen r c)
  unfolding handle_response handle_complete handle_unfinished
  response-IsSound now chosen r c v = elim (Bool-cases (is_pending r.request_id c)) [
    | inr stale ↦ rw (stale, handle_response) v
    | inl ours ↦
        rw (ours, handle_response)
          elim (Completion-cases r.state) [
            | inl e ↦ rw e (
                partial-IsSound now r _ (pending_of r.request_id c ours)
                  (record { in_step = v.in_step; watched = v.watched }))
            | inr (inl e) ↦ rw e (finish-IsSound _ _ _)
            | inr (inr (inl e)) ↦ rw e (finish-IsSound _ _ _)
            | inr (inr (inr e)) ↦ rw e (finish-IsSound _ _ _)
          ]
  ]

  pub tool_call-IsSound :
      (now args : Text) (call : ToolCallRequest) (c : Coach)
      → IsSound c
      → IsSound (handle_tool_call message_id now args call c)
  unfolding handle_tool_call
  tool_call-IsSound now args call c v = elim (Option-cases (reject_tool_call call c)) [
    | inr (result, e) ↦
        rw (e, handle_tool_call) (record { in_step = v.in_step; watched = v.watched })
    | inl e ↦
        rw (e, handle_tool_call)
          (Same-IsSound c _
            (let said = Same-say message_id now SessionMessageRole.tool _ _ c in
              record {
                pending = said.pending;
                timeout = said.timeout;
                paused = said.paused;
                active = said.active;
              })
            v)
  ]

  pub tool_finished-IsSound :
      (now entry : Text) (result : ToolCallResult) (summary : Text) (c : Coach)
      → IsSound c
      → IsSound (tool_finished message_id now entry result summary c)
  unfolding tool_finished
  tool_finished-IsSound now entry result summary c v =
      let kept = active-update_message now entry _ c.sessions in
      elim (Option-cases c.pending) [
        | inl e ↦ rw (e, tool_finished) (idle-IsSound _ e (kept ∙ (v.in_step ∙ e)))
        | inr (id, e) ↦ rw (e, tool_finished) (armed-IsSound _ id e (kept ∙ (v.in_step ∙ e)) refl)
      ]

  pub provider_error-IsSound :
      (now text : Text) (id : Option Text) (c : Coach)
      → IsSound c
      → IsSound (handle_provider_error message_id now text id c)
  unfolding handle_provider_error
  provider_error-IsSound now text id c v =
      if_both IsSound _ _ _ (finish-IsSound _ _ _)
        (Same-IsSound c _ (Same-say message_id now SessionMessageRole.error text _ c) v)

pub settled-IsSound : (c : Coach) → IsSound c → IsSound (on_settled c)
unfolding on_settled
settled-IsSound c v =
    if_both IsSound c.settling _ c
      elim (Option-cases c.pending) [
        | inl e ↦ rw e (record { in_step = v.in_step; watched = v.watched })
        | inr (id, e) ↦ rw e (record { in_step = v.in_step; watched = v.watched })
      ]
      v

pub pause-IsSound : (c : Coach) → IsSound c → IsSound (pause_timeout c)
unfolding pause_timeout
pause-IsSound c v = elim (Option-cases c.timeout) [
  | inl e ↦ rw (e, pause_timeout) v
  | inr (t, e) ↦ rw (e, pause_timeout) (record { in_step = v.in_step; watched = λ id p. inr refl })
]

pub resume-IsSound : (c : Coach) → IsSound c → IsSound (resume_timeout c)
unfolding resume_timeout
resume-IsSound c v =
    if_both IsSound c.timeout_paused _ c
      elim (Option-cases c.pending) [
        | inl e ↦ rw e (idle-IsSound _ e (v.in_step ∙ e))
        | inr (id, e) ↦ rw e (armed-IsSound _ id e (v.in_step ∙ e) refl)
      ]
      v
