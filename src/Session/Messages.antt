-- ===== src/Session/Messages.antt =====
-- The operations of SessionStore.ts on the messages of the current session.
use dumbwaystodie.Prelude.{
  Bool, false, ◌&&◌, Option, none, some, List, [], ◌∷◌, ◌++◌, Text, find, if◌then◌else◌, ◌==◌,
  nat_eq, list_eq,
}
use dumbwaystodie.Protocol.Wire.{ResponseContentPart}
use dumbwaystodie.Session.{
  SessionStore, SessionMessage, SessionMessageRole, is_coach, ToolActivity, MessageReceipt,
  persist_and_fire,
}

-- The `extra` of `appendMessage`.
pub record Extra : Type 0 where
  pub parts : Option (List ResponseContentPart)
  pub request_id : Option Text
  pub tool : Option ToolActivity
  pub receipt : Option MessageReceipt

-- `if (extra.requestId)`: an empty id is left out.
abbrev nonempty : Option Text → Option Text
nonempty none = none
nonempty (some []) = none
nonempty (some (c ∷ t)) = some (c ∷ t)

abbrev pub message_of : Text → Text → SessionMessageRole → Text → Extra → SessionMessage
message_of id now role text extra = record {
  id = id;
  role = role;
  created_at = now;
  text = text;
  parts = extra.parts;
  request_id = nonempty extra.request_id;
  tool = extra.tool;
  receipt = extra.receipt;
}

abbrev pub with_messages : List SessionMessage → Text → SessionStore → SessionStore
with_messages messages now s = record s {
  session = record s.session { messages = messages; updated_at = now };
}

unfoldable pub append_message :
    Text → Text → SessionMessageRole → Text → Extra → SessionStore → SessionStore
append_message id now role text extra s =
    persist_and_fire
      (with_messages (s.session.messages ++ message_of id now role text extra ∷ []) now s)

abbrev asks : Option Text → Text → Bool
asks none id = false
asks (some r) id = r == id

-- `message.role === "coach" && message.requestId === requestId`
abbrev pub answers : Text → SessionMessage → Bool
answers request_id m = is_coach m.role && asks m.request_id request_id

-- An assignment to the first message that a test finds.
unfoldable pub change_first :
    (SessionMessage → Bool)
    → (SessionMessage → SessionMessage)
    → List SessionMessage
    → List SessionMessage
change_first p f [] = []
change_first p f (m ∷ ms) = let rest = change_first p f ms in if p m then f m ∷ ms else m ∷ rest

abbrev or_else :
    Option (List ResponseContentPart)
    → Option (List ResponseContentPart)
    → Option (List ResponseContentPart)
or_else none old = old
or_else (some parts) old = some parts

abbrev pub rewritten : Text → Option (List ResponseContentPart) → SessionMessage → SessionMessage
rewritten text parts m = record m { text = text; parts = or_else parts m.parts }

-- `id` is used if a message is created.
unfoldable pub replace_streaming_message :
    Text → Text → Text → Text → Option (List ResponseContentPart) → SessionStore → SessionStore
replace_streaming_message id now request_id text parts s =
    elim (find (answers request_id) s.session.messages) [
      | none ↦
          append_message id now SessionMessageRole.coach text
            (record { parts = parts; request_id = some request_id; tool = none; receipt = none }) s
      | some m ↦ persist_and_fire (
          with_messages
            (change_first (answers request_id) (rewritten text parts) s.session.messages) now s)
    ]

unfoldable pub update_message :
    Text → Text → (SessionMessage → SessionMessage) → SessionStore → SessionStore
update_message now id mutate s = elim (find (λ m. m.id == id) s.session.messages) [
  | none ↦ s
  | some m ↦
      persist_and_fire
        (with_messages (change_first (λ m. m.id == id) mutate s.session.messages) now s)
]

unfoldable pub set_active_request : Option Text → SessionStore → SessionStore
set_active_request request_id s =
    persist_and_fire (record s { session = record s.session { active_request_id = request_id } })
