-- ===== src/Relay/Hub/Correlation.antt =====
-- Where replies and tool results go in hub.ts.
use dumbwaystodie.Prelude.{
  true, false, Option, none, some, List, [], ◌∷◌, ◌++◌, Text, find, if◌then◌else◌, ◌==◌, nat_eq,
  list_eq, ◌≡◌, refl, ap, ◌∙◌, inl, inr, arith, Bool-cases, lookup, insert, erase, has,
  lookup-erase, lookup-insert_self, lookup-insert_ne, lookup-erase_self, beq_refl,
}
use dumbwaystodie.Protocol.Wire.{
  AdapterKind, editor, WireMessage, CoachResponse, ToolCallRequest, ToolCallResult, coach_response,
  tool_result, tool_call,
}
use dumbwaystodie.Relay.Hub.{
  Hub, Connection, sent, object, listed_object, find_by_kind, serves, send,
}
use dumbwaystodie.Relay.Hub.Route.{
  is_partial, result_target, forward_to, route_coach_response, route_tool_call, route_tool_result,
}
use dumbwaystodie.Relay.Hub.Roles.{IsExclusive, Distinct, find-Fresh}
use dumbwaystodie.Relay.Hub.Authority.{send-keeps}

-- What is found for a role is the object that its id names.
find-serves :
    (k : AdapterKind) (cs : List Connection) (e : Connection)
    → Distinct cs
    → find (serves k) cs ≡ some e
    → (find (λ c. c.id == e.id) cs ≡ some e) × (serves k e ≡ true)
find-serves k [] e d f = cc
find-serves k (c ∷ cs) e d f = elim (Bool-cases (serves k c)) [
  | inl s ↦ ground (arith, beq_refl e.id)
  | inr s ↦
      let found : find (serves k) cs ≡ some e = rw s at f in
      let ih = find-serves k cs e d.1 found in ground (arith, find-Fresh k c.id cs e d.0 found, ih)
]

-- A reply that belongs to no request is dropped.
response-uncorrelated :
    (r : CoachResponse) (h : Hub)
    → has r.request_id h.answers ≡ false
    → has r.request_id h.pending ≡ false
    → route_coach_response r h ≡ h
unfolding route_coach_response
response-uncorrelated r h a p = ground arith

forward_to-keeps :
    (o : Option Connection) (session : Text) (m : WireMessage) (h : Hub)
    → let g = forward_to o session m h in
      (g.pending ≡ h.pending) × (g.answers ≡ h.answers) × (g.tool_callers ≡ h.tool_callers)
forward_to-keeps none session m h = (refl, refl, refl)
forward_to-keeps (some c) session m h = ground (arith, send-keeps c.id session m h)

-- What a reply to an editor's request does, in one equation.
response-pending :
    (r : CoachResponse) (h : Hub)
    → has r.request_id h.answers ≡ false
    → has r.request_id h.pending ≡ true
    → route_coach_response r h
      ≡ forward_to
          (find_by_kind editor h)
          r.session_id
          (coach_response r)
          (if is_partial r.state then h else record h { pending = erase r.request_id h.pending })
unfolding route_coach_response
response-pending r h a p = rw (a, p) refl

-- A reply leaves no trace of a finished request, and keeps one whose reply is partial.
response-keeps :
    (r : CoachResponse) (h : Hub)
    → has r.request_id h.answers ≡ false
    → has r.request_id h.pending ≡ true
    → let g = route_coach_response r h in
      (g.answers ≡ h.answers)
      × (g.pending ≡ (if is_partial r.state then h.pending else erase r.request_id h.pending))
response-keeps r h a p =
    let closing =
      if is_partial r.state then h else record h { pending = erase r.request_id h.pending } in
    let kept = forward_to-keeps (find_by_kind editor h) r.session_id (coach_response r) closing in
    rw (response-pending r h a p) (ground (arith, kept))

-- Where no HTTP caller waits for a request, a reply to it that is not partial closes it: whatever reply
-- to it comes next changes nothing.
pub response-once :
    (r later : CoachResponse) (h : Hub)
    → has r.request_id h.answers ≡ false
    → is_partial r.state ≡ false
    → later.request_id ≡ r.request_id
    → route_coach_response later (route_coach_response r h) ≡ route_coach_response r h
response-once r later h a p e = elim (Bool-cases (has r.request_id h.pending)) [
  | inr none_open ↦
      rw (response-uncorrelated r h a none_open)
        (response-uncorrelated later h (rw e a) (rw e none_open))
  | inl open_request ↦
      let (answers, pending) = response-keeps r h a open_request in
      let g = route_coach_response r h in
      let gone : lookup r.request_id g.pending ≡ none =
        ap (lookup r.request_id) (rw p at pending) ∙ lookup-erase_self r.request_id h.pending in
      response-uncorrelated later g (rw (e, answers) a) (rw (e, gone) refl)
]

send-open :
    (c : Connection) (session : Text) (m : WireMessage) (h : Hub)
    → object c.id h ≡ some c
    → c.is_open ≡ true
    → (send c.id session m h).outbox ≡ h.outbox ++ sent c.id session m ∷ []
unfolding send
send-open c session m h o op = rw (o, send, op) refl

-- In a hub whose roles are exclusive and whose editor's socket is open, a reply to a request in flight
-- that no HTTP caller waits for is written to the editor's socket once, and the request stays open
-- exactly when the reply is partial.
pub response-delivered :
    (r : CoachResponse) (e : Connection) (h : Hub)
    → IsExclusive h
    → find_by_kind editor h ≡ some e
    → e.is_open ≡ true
    → has r.request_id h.answers ≡ false
    → has r.request_id h.pending ≡ true
    → let g = route_coach_response r h in
      (g.outbox ≡ h.outbox ++ sent e.id r.session_id (coach_response r) ∷ [])
      × (has r.request_id g.pending ≡ is_partial r.state)
unfolding find_by_kind object
response-delivered r e h v found op a p =
    let closing =
      if is_partial r.state then h else record h { pending = erase r.request_id h.pending } in
    let same : (closing.objects ≡ h.objects) × (closing.outbox ≡ h.outbox) = ground arith in
    let here : object e.id closing ≡ some e =
      rw same.0 (find-serves editor h.objects e v.distinct found).0 in
    let (answers, pending) = response-keeps r h a p in
    (
      ap (λ (g : Hub). g.outbox) (response-pending r h a p)
          ∙ rw found (send-open e r.session_id (coach_response r) closing here op ∙ rw same.1 refl),
      rw pending elim (Bool-cases (is_partial r.state)) [
        | inl t ↦ rw t p
        | inr t ↦ rw (t, lookup-erase_self r.request_id h.pending) refl
      ],
    )

callers-tool_call :
    (c e : Connection) (call : ToolCallRequest) (h : Hub)
    → find_by_kind editor h ≡ some e
    → (route_tool_call c call h).tool_callers ≡ insert call.id c.id h.tool_callers
unfolding route_tool_call
callers-tool_call c e call h found =
    rw (found, route_tool_call) (send-keeps e.id call.session_id (tool_call call) _).3

result_target-known :
    (id caller : Text) (h : Hub)
    → lookup id h.tool_callers ≡ some caller
    → result_target id h ≡ listed_object caller h
unfolding result_target
result_target-known id caller h e = rw (e, result_target) refl

-- While an editor is attached, a routed call's result is addressed to the connection that made the
-- call, if it is still listed, and a call with another id keeps its caller.
pub tool_call-caller :
    (c e : Connection) (call : ToolCallRequest) (h : Hub) (id : Text)
    → find_by_kind editor h ≡ some e
    → (call.id == id) ≡ false
    → let g = route_tool_call c call h in
      (result_target call.id g ≡ listed_object c.id g)
      × (lookup id g.tool_callers ≡ lookup id h.tool_callers)
tool_call-caller c e call h id found ne =
    let callers = callers-tool_call c e call h found in
    (
      result_target-known call.id c.id _
          (ap (lookup call.id) callers ∙ lookup-insert_self call.id c.id h.tool_callers),
      ap (lookup id) callers ∙ lookup-insert_ne call.id id c.id h.tool_callers ne,
    )

callers-tool_result :
    (r : ToolCallResult) (h : Hub)
    → (route_tool_result r h).tool_callers ≡ erase r.id h.tool_callers
unfolding route_tool_result
callers-tool_result r h = (forward_to-keeps (result_target r.id h) r.session_id (tool_result r) _).2

-- Once a result has been routed, its call has no caller on record, and every other call has the caller
-- that it had.
pub tool_result-once :
    (r : ToolCallResult) (h : Hub) (id : Text)
    → (r.id == id) ≡ false
    → let g = route_tool_result r h in
      (lookup r.id g.tool_callers ≡ none) × (lookup id g.tool_callers ≡ lookup id h.tool_callers)
tool_result-once r h id ne =
    rw (callers-tool_result r h) (
      lookup-erase_self r.id h.tool_callers,
      ground (arith, lookup-erase r.id id h.tool_callers, ne),
    )
