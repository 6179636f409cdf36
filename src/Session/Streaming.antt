-- ===== src/Session/Streaming.antt =====
-- A reply that streams into the panel: `replaceStreamingMessage` of SessionStore.ts.
use dumbwaystodie.Prelude.{
  ℕ, suc, ◌+◌, ◌≤◌, Bool, true, false, Option, none, some, List, [], ◌∷◌, ◌++◌, Text, find, length,
  if◌then◌else◌, ◌==◌, nat_eq, list_eq, ◌≡◌, ◌≢◌, refl, ap, ◌∙◌, inl, inr, arith, Bool-cases,
  Option-cases, beq_refl,
}
use dumbwaystodie.Protocol.Wire.{ResponseContentPart}
use dumbwaystodie.Session.{
  SessionStore, CoachSession, SessionMessage, SessionMessageRole, is_coach, persist_and_fire,
}
use dumbwaystodie.Session.Messages.{
  Extra, append_message, answers, change_first, rewritten, replace_streaming_message, message_of,
}

pub session-persist_and_fire : (s : SessionStore) → (persist_and_fire s).session ≡ s.session
unfolding persist_and_fire
session-persist_and_fire s = ground arith

abbrev pub messages_of : SessionStore → List SessionMessage
messages_of s = s.session.messages

-- How many coach messages belong to a request.
abbrev pub replies : Text → List SessionMessage → ℕ
replies r [] = 0
replies r (m ∷ ms) = if answers r m then suc (replies r ms) else replies r ms

replies-append :
    (r : Text) (a b : List SessionMessage) → replies r (a ++ b) ≡ replies r a + replies r b
replies-append r [] b = omega arith
replies-append r (m ∷ a) b = ground (arith, replies-append r a b)

replies-none : (r : Text) (ms : List SessionMessage) → find (answers r) ms ≡ none → replies r ms ≡ 0
replies-none r [] h = refl
replies-none r (m ∷ ms) h = ground (arith, replies-none r ms)

-- Changing a message in a way that keeps whom it answers changes no count.
replies-change_first :
    (r q text : Text) (parts : Option (List ResponseContentPart)) (ms : List SessionMessage)
    → replies q (change_first (answers r) (rewritten text parts) ms) ≡ replies q ms
unfolding change_first
replies-change_first r q text parts [] = refl
replies-change_first r q text parts (m ∷ ms) = elim (Bool-cases (answers r m)) [
  | inl hit ↦ rw (hit, change_first) refl
  | inr miss ↦
      rw (miss, change_first)
        (ap (λ n. if answers q m then suc n else n) (replies-change_first r q text parts ms))
]

replies-some :
    (r : Text) (ms : List SessionMessage) (m : SessionMessage)
    → find (answers r) ms ≡ some m
    → 1 ≤ replies r ms
replies-some r [] m h = absurd cc
replies-some r (n ∷ ms) m h = ground (arith, replies-some r ms m)

abbrev extra_of : Text → Option (List ResponseContentPart) → Extra
extra_of r parts = record { parts = parts; request_id = some r; tool = none; receipt = none }

module _ (id now r text : Text) (parts : Option (List ResponseContentPart)) (s : SessionStore) where
  abbrev streamed : SessionStore
  streamed = replace_streaming_message id now r text parts s

  streamed-new :
      find (answers r) (messages_of s) ≡ none
      → messages_of streamed
        ≡ messages_of s ++ message_of id now SessionMessageRole.coach text (extra_of r parts) ∷ []
  unfolding replace_streaming_message append_message
  streamed-new e =
      rw (e, replace_streaming_message)
        (ap (λ (c : CoachSession). c.messages) (session-persist_and_fire _))

  streamed-old :
      (m : SessionMessage)
      → find (answers r) (messages_of s) ≡ some m
      → messages_of streamed ≡ change_first (answers r) (rewritten text parts) (messages_of s)
  unfolding replace_streaming_message
  streamed-old m e =
      rw (e, replace_streaming_message)
        (ap (λ (c : CoachSession). c.messages) (session-persist_and_fire _))

replies-new :
    (id now r text : Text) (parts : Option (List ResponseContentPart)) (q : Text)
    → r ≢ []
    → replies q (message_of id now SessionMessageRole.coach text (extra_of r parts) ∷ [])
      ≡ (if r == q then 1 else 0)
replies-new id now [] text parts q ne = absurd (ne refl)
replies-new id now (c ∷ t) text parts q ne = refl

pub replies-streamed :
    (id now r text : Text) (parts : Option (List ResponseContentPart)) (s : SessionStore)
    → r ≢ []
    → replies r (messages_of s) ≤ 1
    → replies r (messages_of (replace_streaming_message id now r text parts s)) ≡ 1
replies-streamed id now r text parts s ne le =
    let ms = messages_of s in
    elim (Option-cases (find (answers r) ms)) [
      | inl e ↦
          let added = message_of id now SessionMessageRole.coach text (extra_of r parts) ∷ [] in
          rw (streamed-new id now r text parts s e) (
            ground (
              arith,
              replies-append r ms added,
              replies-none r ms e,
              replies-new id now r text parts r ne,
              beq_refl r,
            ))
      | inr (m, e) ↦
          rw (streamed-old id now r text parts s m e)
            (omega (arith, replies-change_first r r text parts ms, replies-some r ms m e, le))
    ]

replies-others :
    (id now r text : Text) (parts : Option (List ResponseContentPart)) (s : SessionStore) (q : Text)
    → r ≢ []
    → (r == q) ≡ false
    → replies q (messages_of (replace_streaming_message id now r text parts s))
      ≡ replies q (messages_of s)
replies-others id now r text parts s q ne other =
    let ms = messages_of s in
    elim (Option-cases (find (answers r) ms)) [
      | inl e ↦
          let added = message_of id now SessionMessageRole.coach text (extra_of r parts) ∷ [] in
          rw (streamed-new id now r text parts s e)
            (ground (arith, replies-append q ms added, replies-new id now r text parts q ne, other))
      | inr (m, e) ↦
          rw (streamed-old id now r text parts s m e) (replies-change_first r q text parts ms)
    ]

-- Where a request has at most one coach message, showing its streaming reply leaves it with exactly
-- one, and every other request with as many as it had. An empty request id is excluded.
pub streaming-one :
    (id now r text : Text) (parts : Option (List ResponseContentPart)) (s : SessionStore) (q : Text)
    → r ≢ []
    → (r == q) ≡ false
    → replies r (messages_of s) ≤ 1
    → let g = replace_streaming_message id now r text parts s in
      (replies r (messages_of g) ≡ 1) × (replies q (messages_of g) ≡ replies q (messages_of s))
streaming-one id now r text parts s q ne other le =
    (replies-streamed id now r text parts s ne le, replies-others id now r text parts s q ne other)

-- A message of another role than the coach is no reply.
pub replies-append_message :
    (id now : Text) (role : SessionMessageRole) (text : Text) (extra : Extra) (s : SessionStore)
    (r : Text)
    → is_coach role ≡ false
    → replies r (messages_of (append_message id now role text extra s)) ≡ replies r (messages_of s)
unfolding append_message
replies-append_message id now role text extra s r h =
    ap (λ (c : CoachSession). replies r c.messages) (session-persist_and_fire _)
    ∙ ground (arith, replies-append r (messages_of s) (message_of id now role text extra ∷ []), h)

find-append_self :
    (r : Text) (ms : List SessionMessage) (m : SessionMessage)
    → find (answers r) ms ≡ none
    → answers r m ≡ true
    → find (answers r) (ms ++ m ∷ []) ≡ some m
find-append_self r [] m h a = rw a refl
find-append_self r (n ∷ ms) m h a = ground (arith, find-append_self r ms m)

find-change_first :
    (r text : Text) (parts : Option (List ResponseContentPart)) (ms : List SessionMessage)
    (m : SessionMessage)
    → find (answers r) ms ≡ some m
    → find (answers r) (change_first (answers r) (rewritten text parts) ms)
      ≡ some (rewritten text parts m)
unfolding change_first
find-change_first r text parts [] m h = absurd cc
find-change_first r text parts (n ∷ ms) m h = elim (Bool-cases (answers r n)) [
  | inl hit ↦
      let same : n ≡ m = cc (rw hit at h) in
      rw (hit, change_first, hit) (ap some (ap (rewritten text parts) same))
  | inr miss ↦ rw (miss, change_first, miss) (find-change_first r text parts ms m (rw miss at h))
]

length-change_first :
    (p : SessionMessage → Bool) (f : SessionMessage → SessionMessage) (ms : List SessionMessage)
    → length (change_first p f ms) ≡ length ms
unfolding change_first
length-change_first p f [] = refl
length-change_first p f (m ∷ ms) = ground (arith, length-change_first p f ms)

-- After an update the request's coach message is found, with the text of the update.
streamed-found :
    (id now r text : Text) (parts : Option (List ResponseContentPart)) (s : SessionStore)
    → r ≢ []
    → let g = replace_streaming_message id now r text parts s in
      (m : SessionMessage) × (find (answers r) (messages_of g) ≡ some m) × (m.text ≡ text)
streamed-found id now [] text parts s ne = absurd (ne refl)
streamed-found id now (c ∷ t) text parts s ne =
    let r = c ∷ t in
    let ms = messages_of s in
    elim (Option-cases (find (answers r) ms)) [
      | inl e ↦
          let m = message_of id now SessionMessageRole.coach text (extra_of r parts) in
          (
            m,
            ap (find (answers r)) (streamed-new id now r text parts s e)
                ∙ find-append_self r ms m e (beq_refl r),
            refl,
          )
      | inr (m, e) ↦ (
        rewritten text parts m,
        ap (find (answers r)) (streamed-old id now r text parts s m e)
            ∙ find-change_first r text parts ms m e,
        refl,
      )
    ]

-- A second update of a reply adds no message: it rewrites the one that the first update showed, which
-- then has the second text.
pub streaming-updates :
    (id id' now now' r text text' : Text) (parts parts' : Option (List ResponseContentPart))
    (s : SessionStore)
    → r ≢ []
    → let g = replace_streaming_message id now r text parts s in
      let g' = replace_streaming_message id' now' r text' parts' g in
      (length (messages_of g') ≡ length (messages_of g))
      × ((m : SessionMessage) × (find (answers r) (messages_of g') ≡ some m) × (m.text ≡ text'))
streaming-updates id id' now now' r text text' parts parts' s ne =
    let g = replace_streaming_message id now r text parts s in
    let (m, found, t) = streamed-found id now r text parts s ne in
    (
      ap length (streamed-old id' now' r text' parts' g m found)
          ∙ length-change_first (answers r) (rewritten text' parts') (messages_of g),
      streamed-found id' now' r text' parts' g ne,
    )
