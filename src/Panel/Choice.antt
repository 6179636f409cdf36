-- ===== src/Panel/Choice.antt =====
-- What ExtensionState.ts keeps: one attachment for an id, and a chosen chat that can answer.
use dumbwaystodie.Prelude.{
  ℕ, suc, ◌+◌, ◌≤◌, Bool, true, false, not, none, some, Option, List, [], ◌∷◌, ◌++◌, inl, inr, ◌⊎◌,
  Text, if◌then◌else◌, if_both, if_true, if_false, Bool-cases, length, keep, any, All, ◌==◌,
  nat_beq, nat_eq, list_eq, Eq, ◌≡◌, refl, subst, arith,
}
use dumbwaystodie.Protocol.Wire.{AttachmentRef, AvailableSurface}
use dumbwaystodie.Panel.{
  ExtensionState, new_state, has_id, add_attachment, remove_attachment, clear_attachments,
  can_answer, still_chosen, set_surfaces, set_awaiting_paste, set_provider_name, set_model, set_hop,
  set_request, StateEvent, paste_awaited, attached, detached, attachments_cleared, provider_named,
  surfaces_told, model_chosen, hop_told, request_told, apply_event, same_surfaces, same_text,
  hop_code, hop_value,
}

abbrev text_eq : Eq Text
text_eq = list_eq

-- How many attachments have the id.
abbrev pub with_id : Text → List AttachmentRef → ℕ
with_id id [] = 0
with_id id (a ∷ rest) = (if has_id id a then 1 else 0) + with_id id rest

unfoldable pub IsDistinct : ExtensionState → Type 0
IsDistinct s = (id : Text) → with_id id s.attachments ≤ 1

with_id-none : (id : Text) (l : List AttachmentRef) → any (has_id id) l ≡ false → with_id id l ≡ 0
with_id-none id [] h = refl
with_id-none id (a ∷ l) h = ground (arith, with_id-none id l)

with_id-append :
    (id : Text) (l m : List AttachmentRef) → with_id id (l ++ m) ≡ with_id id l + with_id id m
with_id-append id [] m = omega arith
with_id-append id (a ∷ l) m = omega (arith, with_id-append id l m)

with_id-keep :
    (p : AttachmentRef → Bool) (id : Text) (l : List AttachmentRef)
    → with_id id (keep p l) ≤ with_id id l
with_id-keep p id [] = omega arith
with_id-keep p id (a ∷ l) = ground (arith, with_id-keep p id l)

add-IsDistinct :
    (a : AttachmentRef) (s : ExtensionState) → IsDistinct s → IsDistinct (add_attachment a s)
unfolding IsDistinct add_attachment
add-IsDistinct a s h = elim (Bool-cases (any (has_id a.id) s.attachments)) [
  | inl e ↦ if_true IsDistinct (any (has_id a.id) s.attachments) s _ e h
  | inr e ↦ if_false IsDistinct (any (has_id a.id) s.attachments) s _ e (λ id.
      let both = with_id-append id s.attachments (a ∷ []) in
      let old = h id in
      elim (Bool-cases (has_id id a)) [
        | inl same ↦
            let new =
              subst (λ j. with_id j s.attachments ≡ 0) ((text_eq.beq_iff a.id id).0 same)
                (with_id-none a.id s.attachments e) in
            ground arith
        | inr other ↦ ground arith
      ])
]

remove-IsDistinct :
    (id : Text) (s : ExtensionState) → IsDistinct s → IsDistinct (remove_attachment id s)
unfolding IsDistinct remove_attachment
remove-IsDistinct id s h =
    let next = keep (λ a. not (has_id id a)) s.attachments in
    if_both IsDistinct (nat_beq (length next) (length s.attachments)) s _ h (λ j.
      let kept = with_id-keep (λ a. not (has_id id a)) j s.attachments in
      let old = h j in omega (arith, kept, old))

apply-IsDistinct :
    (e : StateEvent) (s : ExtensionState) → IsDistinct s → IsDistinct (apply_event e s)
unfolding IsDistinct apply_event set_awaiting_paste clear_attachments set_provider_name set_surfaces
    set_model set_hop set_request
apply-IsDistinct (paste_awaited kind) s h =
    if_both IsDistinct (same_text s.awaiting_paste kind) s _ h h
apply-IsDistinct (attached a) s h = add-IsDistinct a s h
apply-IsDistinct (detached id) s h = remove-IsDistinct id s h
apply-IsDistinct attachments_cleared s h =
    if_both IsDistinct (nat_beq (length s.attachments) 0) s _ h (λ id. omega arith)
apply-IsDistinct (provider_named name) s h =
    if_both IsDistinct (s.connections.provider_name == name) s _ h h
apply-IsDistinct (surfaces_told surfaces) s h =
    if_both IsDistinct (same_surfaces s.surfaces surfaces) _ _ h h
apply-IsDistinct (model_chosen model) s h =
    if_both IsDistinct (same_text s.chosen_model model) s _ h h
apply-IsDistinct (hop_told hop value) s h =
    if_both IsDistinct (nat_beq (hop_code (hop_value hop s.connections)) (hop_code value)) s _ h h
apply-IsDistinct (request_told state error) s h = h

unfoldable pub apply_all : List StateEvent → ExtensionState → ExtensionState
unfolding apply_event
apply_all [] s = s
apply_all (e ∷ es) s = apply_all es (apply_event e s)

apply_all-IsDistinct :
    (es : List StateEvent) (s : ExtensionState) → IsDistinct s → IsDistinct (apply_all es s)
unfolding apply_all
apply_all-IsDistinct [] s h = h
apply_all-IsDistinct (e ∷ es) s h = apply_all-IsDistinct es _ (apply-IsDistinct e s h)

-- In every state that the panel reaches, an id has at most one staged attachment.
pub apply_all-distinct :
    (es : List StateEvent) (id : Text) → with_id id (apply_all es new_state).attachments ≤ 1
unfolding IsDistinct
apply_all-distinct es id = apply_all-IsDistinct es new_state (λ j. omega arith) id

-- The chosen chat is one that can answer, unless none is chosen (an empty choice is none).
abbrev pub CanAnswer : ExtensionState → Type 0
CanAnswer s =
    (s.chosen_model ≡ none)
    ⊎ ((s.chosen_model ≡ some [])
        ⊎ ((model : Text) × (s.chosen_model ≡ some model)
            × (any (can_answer model) s.surfaces ≡ true)))

abbrev pub is_choice : StateEvent → Bool
is_choice (model_chosen model) = true
is_choice e = false

still_chosen-CanAnswer :
    (surfaces : List AvailableSurface) (o : Option Text) (s : ExtensionState)
    → CanAnswer (record s { surfaces = surfaces; chosen_model = still_chosen surfaces o })
still_chosen-CanAnswer surfaces none s = inl refl
still_chosen-CanAnswer surfaces (some []) s = inr (inl refl)
still_chosen-CanAnswer surfaces (some (c ∷ model)) s =
    elim (Bool-cases (any (can_answer (c ∷ model)) surfaces)) [
      | inl e ↦ inr (inr (c ∷ model, rw (e) refl, e))
      | inr e ↦ inl (rw (e) refl)
    ]

surfaces-CanAnswer :
    (surfaces : List AvailableSurface) (s : ExtensionState) → CanAnswer (set_surfaces surfaces s)
unfolding set_surfaces
surfaces-CanAnswer surfaces s =
    let h = still_chosen-CanAnswer surfaces s.chosen_model s in
    if_both (λ t. CanAnswer t) (same_surfaces s.surfaces surfaces) _ _ h h

apply-CanAnswer :
    (e : StateEvent) (s : ExtensionState)
    → is_choice e ≡ false
    → CanAnswer s
    → CanAnswer (apply_event e s)
unfolding apply_event set_awaiting_paste add_attachment remove_attachment clear_attachments
    set_provider_name set_hop set_request
apply-CanAnswer (paste_awaited kind) s n h =
    if_both (λ t. CanAnswer t) (same_text s.awaiting_paste kind) s _ h h
apply-CanAnswer (attached a) s n h =
    if_both (λ t. CanAnswer t) (any (has_id a.id) s.attachments) s _ h h
apply-CanAnswer (detached id) s n h =
    let next = keep (λ a. not (has_id id a)) s.attachments in
    if_both (λ t. CanAnswer t) (nat_beq (length next) (length s.attachments)) s
      (record s { attachments = next; changed = suc s.changed }) h h
apply-CanAnswer attachments_cleared s n h =
    if_both (λ t. CanAnswer t) (nat_beq (length s.attachments) 0) s _ h h
apply-CanAnswer (provider_named name) s n h =
    if_both (λ t. CanAnswer t) (s.connections.provider_name == name) s _ h h
apply-CanAnswer (surfaces_told surfaces) s n h = surfaces-CanAnswer surfaces s
apply-CanAnswer (model_chosen model) s n h = let no : ⊥ = ground arith in absurd no
apply-CanAnswer (hop_told hop value) s n h =
    if_both (λ t. CanAnswer t) (nat_beq (hop_code (hop_value hop s.connections)) (hop_code value)) s
      _ h h
apply-CanAnswer (request_told state error) s n h = h

events-CanAnswer :
    (es : List StateEvent) (s : ExtensionState)
    → All (λ e. is_choice e ≡ false) es
    → CanAnswer s
    → CanAnswer (apply_all es s)
unfolding apply_all
events-CanAnswer [] s n h = h
events-CanAnswer (e ∷ es) s (n, ns) h = events-CanAnswer es _ ns (apply-CanAnswer e s n h)

-- Once the chats have been told, and until the user chooses, whatever else happens, the chosen
-- model is that of a chat that is ready, or there is none.
pub apply_all-CanAnswer :
    (surfaces : List AvailableSurface) (es : List StateEvent) (s : ExtensionState)
    → All (λ e. is_choice e ≡ false) es
    → CanAnswer (apply_all es (set_surfaces surfaces s))
apply_all-CanAnswer surfaces es s n =
    events-CanAnswer es (set_surfaces surfaces s) n (surfaces-CanAnswer surfaces s)
