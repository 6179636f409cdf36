-- ===== src/Coach/Requests.antt =====
-- What the user does to the controller of CoachController.ts: sending, cancelling, a new session, and
-- the timeout. `request`, `notes` and `receipt` of a message are what the context engine, the
-- ledger and the receipt make of it.
use dumbwaystodie.Prelude.{
  ℕ, true, false, none, some, List, [], ◌∷◌, ◌++◌, Text, lit, trim, if◌then◌else◌, ◌==◌, nat_eq,
  list_eq,
}
use dumbwaystodie.Protocol.Context.{WorkspaceRootRef}
use dumbwaystodie.Protocol.Wire.{
  idle, sending, provider_processing, failed, cancelled, timed_out, CoachRequest,
}
use dumbwaystodie.Session.{user, system, error, MessageReceipt, new_session}
use dumbwaystodie.Coach.{
  Coach, requested, cancel_requested, aborted, set_request_state, plain, about, clear_timeout,
  arm_timeout, activate, finish, say,
}

module _ (message_id : ℕ → Text) where
  unfoldable pub say_all : Text → Text → List Text → Coach → Coach
  unfolding say
  say_all now id [] c = c
  say_all now id (note ∷ notes) c =
      say_all now id notes (say message_id now system note (about id) c)

  -- `send`, up to the provider's answer.
  unfoldable pub send : Text → Text → CoachRequest → List Text → MessageReceipt → Coach → Coach
  unfolding say_all
  send now message request notes receipt c =
      let text = trim message in
      if text == [] then c else elim c.pending [
        | some id ↦
            say message_id now system
              (lit
                "Still working on your last message. Wait for it to land before sending another.")
              plain c
        | none ↦
            let said =
              say message_id now user text (record (about request.id) { receipt = some receipt })
                c in
            let noted = say_all now request.id notes said in
            let armed = arm_timeout request.id (
              activate (some request.id) (record noted {
                attachments = [];
                pending = some request.id;
                abort_controller = true;
              })) in
            record armed {
              request_state = sending;
              last_error = none;
              effects = requested request ∷ armed.effects;
            }
      ]

  -- `send`, after the provider took the request, or did not.
  unfoldable pub send_taken : Coach → Coach
  send_taken c = set_request_state provider_processing none c

  unfoldable pub send_failed : Text → Text → Coach → Coach
  send_failed now reason c =
      let name = c.provider_name in
      say message_id now error
        (lit "Could not deliver the request to " ++ name ++ lit ": " ++ reason) plain
        (finish failed (some (lit "Could not deliver the request to " ++ name ++ lit ".")) c)

  -- `cancel`, up to the answer of a provider that has `cancelRequest`.
  unfoldable pub cancel : Coach → Coach
  cancel c = elim c.pending [
    | none ↦ c
    | some id ↦
        let abort = if c.abort_controller then aborted ∷ c.effects else c.effects in
        activate none (record c {
          abort_controller = false;
          pending = none;
          effects = cancel_requested id ∷ abort;
        })
  ]

  -- `cancel` of the request `id`, after the provider's answer.
  unfoldable pub cancel_taken : Text → Text → Coach → Coach
  cancel_taken now id c = finish cancelled none (
      say message_id now system (lit "Cancelled. Any answer that arrives now is ignored.")
        (about id) c)

  -- `resetSession`, up to the provider's `connect`.
  unfoldable pub reset_session : Text → Text → List WorkspaceRootRef → Coach → Coach
  reset_session id now roots c =
      let c' = set_request_state idle none (record (clear_timeout c) { pending = none }) in
      record c' { sessions = new_session id now roots c'.sessions }

  -- The timer of `armTimeout`.
  unfoldable pub on_timeout : Text → Coach → Coach
  on_timeout now c = elim c.timeout [
    | none ↦ c
    | some t ↦
        if t.live
        then (let fired = record c { timeout = some (record t { live = false }) } in
            elim c.pending [
              | none ↦ fired
              | some id ↦
                  if id == t.request
                  then finish timed_out (some (lit "Provider did not respond in time.")) (
                      say message_id now error
                        (lit "No response from "
                          ++ c.provider_name
                          ++ lit " after 60s. The request was abandoned.")
                        (about t.request) fired)
                  else fired
            ])
        else c
  ]
