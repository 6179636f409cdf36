-- ===== src/Session/Tests.antt =====
-- The theorems about SessionStore.ts at a conversation with a streamed reply.
use dumbwaystodie.Prelude.{
  none, some, List, [], ◌∷◌, Text, lit, length, nat_eq, list_eq, ◌≡◌, ◌≢◌, refl, ap, join, arith,
}
use mathlib.Core.List.{Permᴰ}
use dumbwaystodie.Protocol.Context.{WorkspaceRootRef}
use dumbwaystodie.Session.{
  SessionStore, SessionMessage, SessionMessageRole, fingerprint, bounded, open_store,
  create_session, new_session, sort, insert_text, leb_text, persist_and_fire,
}
use dumbwaystodie.Session.Messages
use dumbwaystodie.Session.Messages.{Extra, answers, replace_streaming_message}
use dumbwaystodie.Session.Restore.{Operation, run, reopen-run}
use dumbwaystodie.Session.Streaming.{messages_of, replies, streaming-one}

abbrev app : WorkspaceRootRef
app = record { name = lit "app"; path = lit "/w/app" }

abbrev docs : WorkspaceRootRef
docs = record { name = lit "docs"; path = lit "/w/docs" }

abbrev roots : List WorkspaceRootRef
roots = docs ∷ app ∷ []

abbrev folders : List WorkspaceRootRef
folders = app ∷ docs ∷ []

abbrev store : SessionStore
store = record {
  session = create_session (lit "s0") (lit "t0") roots;
  storage = some none;
  fired = [];
}

fingerprint_test : fingerprint roots ≡ lit "/w/app|/w/docs"
unfolding fingerprint join sort insert_text leb_text
fingerprint_test = refl

reordered : Permᴰ roots folders
reordered = Permᴰ.swap refl refl

abbrev operations : List Operation
operations =
    Operation.appended (lit "m1") (lit "t1") SessionMessageRole.user (lit "why?")
      (record { parts = none; request_id = none; tool = none; receipt = none })
    ∷ Operation.streamed (lit "m2") (lit "t2") (lit "r1") (lit "Look") none
    ∷ Operation.streamed (lit "m3") (lit "t3") (lit "r1") (lit "Look again") none
    ∷ []

abbrev conversation : SessionStore
conversation = run operations (new_session (lit "s1") (lit "t0") roots store)

roots_of_conversation : Permᴰ conversation.session.workspace_roots folders
unfolding new_session run Messages.append_message Messages.replace_streaming_message
    Messages.change_first persist_and_fire create_session
roots_of_conversation = Permᴰ.swap refl refl

reopen-run_example :
    (open_store (lit "s2") (lit "t9") folders conversation.storage).session
    ≡ bounded conversation.session
reopen-run_example =
    reopen-run (lit "s1") (lit "t0") (lit "s2") (lit "t9") roots folders operations store none refl
      roots_of_conversation

apart : fingerprint folders ≢ fingerprint (docs ∷ [])
unfolding fingerprint join sort insert_text leb_text
apart e = ground (arith, ap length e)

abbrev message : Text → SessionMessage
message text = record {
  id = text;
  role = SessionMessageRole.user;
  created_at = lit "t";
  text = text;
  parts = none;
  request_id = none;
  tool = none;
  receipt = none;
}

abbrev three : List SessionMessage
three = message (lit "a") ∷ message (lit "b") ∷ message (lit "c") ∷ []

some_request : lit "r1" ≢ []
some_request e = cc

streaming-one_example :
    let g = replace_streaming_message (lit "m4") (lit "t4") (lit "r1") (lit "Look") none store in
    (replies (lit "r1") (messages_of g) ≡ 1)
    × (replies (lit "r2") (messages_of g) ≡ replies (lit "r2") (messages_of store))
unfolding create_session
streaming-one_example =
    streaming-one (lit "m4") (lit "t4") (lit "r1") (lit "Look") none store (lit "r2") some_request
      refl (omega arith)
