-- ===== src/Session/Restore.antt =====
-- What a reload of the window brings back: SessionStore.ts with persistence.ts.
use dumbwaystodie.Prelude.{
  ℕ, ◌-◌, ◌<◌, min, Option, some, List, [], ◌∷◌, ◌++◌, Text, find, take, length, leb, ◌==◌, nat_eq,
  list_eq, ◌≡◌, ◌≢◌, ap, inl, inr, arith, Bool-cases, Option-cases, beq_refl, length-drop,
  take-append-drop,
}
use mathlib.Core.List.{Permᴰ}
use dumbwaystodie.Protocol.Wire.{ResponseContentPart}
use dumbwaystodie.Protocol.Context.{WorkspaceRootRef}
use dumbwaystodie.Session.{
  SessionStore, CoachSession, SessionMessage, SessionMessageRole, fingerprint, belongs_to_workspace,
  bound_messages, bounded, restore, open_store, create_session, persist_and_fire, new_session,
}
use dumbwaystodie.Session.Order.{fingerprint-Perm}
use dumbwaystodie.Session.Messages
use dumbwaystodie.Session.Messages.{
  Extra, append_message, replace_streaming_message, update_message, set_active_request,
  change_first, with_messages,
}

-- What is kept are the last messages, as many as there are up to the limit.
pub bound_messages-suffix :
    (ms : List SessionMessage) (max : ℕ)
    → 0 < max
    → (take (length ms - max) ms ++ bound_messages ms max ≡ ms)
      × (length (bound_messages ms max) ≡ min max (length ms))
unfolding bound_messages
bound_messages-suffix ms max pos = elim (Bool-cases (leb (length ms) max)) [
  | inl short ↦
      rw (short, bound_messages)
        (ap (λ n. take n ms ++ ms) {y = 0} (ground (arith, short)), ground (arith, short))
  | inr long ↦
      rw (long, bound_messages)
        (
          ground (arith, take-append-drop (length ms - max) ms),
          ground (arith, length-drop (length ms - max) ms, long),
        )
]

pub data Operation : Type 0 where
  renewed : (id now : Text) → List WorkspaceRootRef → Operation
  appended : (id now : Text) → SessionMessageRole → (text : Text) → Extra → Operation
  streamed : (id now request_id text : Text) → Option (List ResponseContentPart) → Operation
  updated : (now id : Text) → (SessionMessage → SessionMessage) → Operation
  activated : Option Text → Operation

abbrev apply : Operation → SessionStore → SessionStore
apply (renewed id now roots) s = new_session id now roots s
apply (appended id now role text extra) s = append_message id now role text extra s
apply (streamed id now r text parts) s = replace_streaming_message id now r text parts s
apply (updated now id mutate) s = update_message now id mutate s
apply (activated r) s = set_active_request r s

-- The storage has the session of the store, with its last messages.
abbrev IsSaved : SessionStore → Type 0
IsSaved s = s.storage ≡ some (some (bounded s.session))

persist-IsSaved :
    (s : SessionStore) (saved : Option CoachSession)
    → s.storage ≡ some saved
    → IsSaved (persist_and_fire s)
unfolding persist_and_fire
persist-IsSaved s saved e = ground (arith, e)

-- Every operation leaves the storage with the session that it makes.
apply-IsSaved : (op : Operation) (s : SessionStore) → IsSaved s → IsSaved (apply op s)
unfolding new_session append_message set_active_request update_message replace_streaming_message
apply-IsSaved (renewed id now roots) s h = persist-IsSaved _ _ h
apply-IsSaved (appended id now role text extra) s h = persist-IsSaved _ _ h
apply-IsSaved (activated r) s h = persist-IsSaved _ _ h
apply-IsSaved (updated now id mutate) s h =
    elim (Option-cases (find (λ m. m.id == id) s.session.messages)) [
      | inl e ↦ rw (e, update_message) h
      | inr (m, e) ↦ rw (e, update_message) (persist-IsSaved _ _ h)
    ]
apply-IsSaved (streamed id now r text parts) s h =
    elim (Option-cases (find (Messages.answers r) s.session.messages)) [
      | inl e ↦ rw (e, replace_streaming_message) (persist-IsSaved _ _ h)
      | inr (m, e) ↦ rw (e, replace_streaming_message) (persist-IsSaved _ _ h)
    ]

unfoldable pub run : List Operation → SessionStore → SessionStore
run [] s = s
run (op ∷ ops) s = run ops (apply op s)

run-IsSaved : (ops : List Operation) (s : SessionStore) → IsSaved s → IsSaved (run ops s)
unfolding run
run-IsSaved [] s h = h
run-IsSaved (op ∷ ops) s h = run-IsSaved ops (apply op s) (apply-IsSaved op s h)

reopened :
    (id now : Text) (roots : List WorkspaceRootRef) (s : SessionStore)
    → IsSaved s
    → Permᴰ s.session.workspace_roots roots
    → (open_store id now roots s.storage).session ≡ bounded s.session
unfolding open_store restore belongs_to_workspace
reopened id now roots s h p =
    let same = fingerprint-Perm p in ground (arith, h, same, beq_refl (fingerprint roots))

-- After any operations on a new session, a window with the same folders, in any order, opens with the
-- session as it was, less the messages beyond the last two hundred.
pub reopen-run :
    (id now id' now' : Text) (roots roots' : List WorkspaceRootRef) (ops : List Operation)
    (s : SessionStore) (old : Option CoachSession)
    → s.storage ≡ some old
    → Permᴰ (run ops (new_session id now roots s)).session.workspace_roots roots'
    → (open_store id' now' roots' (run ops (new_session id now roots s)).storage).session
      ≡ bounded (run ops (new_session id now roots s)).session
unfolding new_session
reopen-run id now id' now' roots roots' ops s old e p =
    let start = record s { session = create_session id now roots } in
    reopened id' now' roots' (run ops (new_session id now roots s))
      (run-IsSaved ops (new_session id now roots s) (persist-IsSaved start old e)) p

-- A session that belongs to other folders is not shown: the store opens with a new one.
pub open_store-other :
    (id now : Text) (roots : List WorkspaceRootRef) (saved : CoachSession)
    → fingerprint saved.workspace_roots ≢ fingerprint roots
    → (open_store id now roots (some (some saved))).session ≡ create_session id now roots
unfolding open_store restore belongs_to_workspace
open_store-other id now roots saved ne =
    ground
      (arith, ne, (list_eq {A = ℕ}).beq_iff (fingerprint saved.workspace_roots) (fingerprint roots))
