-- ===== src/Media/Register.antt =====
-- What a registration of MediaRegistry.ts gives.
use dumbwaystodie.Prelude.{
  ℕ, ◌≤◌, Bool, true, false, Option, none, some, List, [], ◌∷◌, Text, inl, inr, if_true, if_false,
  if_both, Bool-cases, ltb, length, find, inl, inr, ◌⊎◌, ◌==◌, list_eq, nat_eq, Eq, Map, lookup,
  lookup-insert_self, ◌≡◌, refl, sym, subst, ap, ◌∙◌, arith,
}
use dumbwaystodie.Protocol.Wire.{AttachmentRef, MediaSource, ToolError}
use dumbwaystodie.Media.{
  Item, Entry, regular, special, Media, Registered, refused, registered, MediaHost, exists, load,
  values, get, attachment_found, register, register_typed, register_entry, mime_type_for, add_copy,
  add_unless, store_bytes, new_item, has_digest, limit_of,
}
use dumbwaystodie.Media.Index.{IsKeyed}
use dumbwaystodie.Media.Held.{Held-IsKeyed, load-Held}
use dumbwaystodie.Media.Reload.{MediaEvent, perform_all, perform_all-Held, fresh, fresh-Held}

abbrev text_eq : Eq Text
text_eq = list_eq

-- The attachment has the digest of the bytes and is found under its id. Its copy holds the bytes, and
-- the index lists the items; or it was there already, with its file, and nothing is changed.
abbrev pub IsKept : MediaHost → Text → AttachmentRef → Media → Media → Type 0
IsKept h bytes r s t =
    (r.sha256 ≡ h.digest bytes)
    × (get r.id t ≡ some r)
    × (((lookup r.local_media_path t.files ≡ some (regular bytes))
          × (t.index ≡ some (values t.items)))
        ⊎ ((t ≡ s) × (exists s r.local_media_path ≡ true)))

abbrev outcome : AttachmentRef → Registered → AttachmentRef
outcome r (refused error) = r
outcome r (registered q) = q

abbrev is_refused : Registered → Bool
is_refused (refused error) = true
is_refused (registered q) = false

refused_not : {error : ToolError} {r : AttachmentRef} → ¬ (refused error ≡ registered r)
refused_not e = ground (arith, ap is_refused e)

load-files : (s : Media) → (load s).files ≡ s.files
unfolding load
load-files s = if_both (λ (t : Media). t.files ≡ s.files) s.loaded _ _ refl refl

find-has_digest :
    (h : MediaHost) (d : Text) (m : Map Text Item) (i : Item)
    → IsKeyed m
    → find (has_digest h d) (values m) ≡ some i
    → (i.attachment.sha256 ≡ d) × (lookup i.attachment.id m ≡ some i)
unfolding IsKeyed lookup
find-has_digest h d [] i k e = ground arith
find-has_digest h d ((j, v) ∷ m) i (same, once, k) e = elim (Bool-cases (has_digest h d v)) [
  | inl y ↦
      let it : v ≡ i = ground arith in
      let here : (j == v.attachment.id) ≡ true = (text_eq.beq_iff j v.attachment.id).1 same in
      subst (λ q. (q.attachment.sha256 ≡ d) × (lookup q.attachment.id ((j, v) ∷ m) ≡ some q)) it
        ((text_eq.beq_iff v.attachment.sha256 d).0 y, rw (here) refl)
  | inr n ↦
      let later : find (has_digest h d) (values m) ≡ some i = ground arith in
      let (digested, found) = find-has_digest h d m i k later in
      (
        digested,
        elim (Bool-cases (j == i.attachment.id)) [
          | inl z ↦
              let gone =
                subst (λ id. lookup id m ≡ none) ((text_eq.beq_iff j i.attachment.id).0 z) once in
              let no : ⊥ = ground (arith, gone, found) in absurd no
          | inr z ↦ rw (z) found
        ],
      )
]

-- If the outcome is a registration, it is kept.
abbrev Keeps : MediaHost → Text → AttachmentRef → Media → Registered × Media → Type 0
Keeps h bytes r s (outcome, t) = outcome ≡ registered r → IsKept h bytes r s t

abbrev FitsAndKeeps : MediaHost → Text → AttachmentRef → Media → Registered × Media → Type 0
FitsAndKeeps h bytes r s (outcome, t) =
    outcome ≡ registered r → (length bytes ≤ limit_of h h.max_bytes) × IsKept h bytes r s t

module _ (h : MediaHost) (s : Media) (r : AttachmentRef) (keyed : IsKeyed s.items) where
  add-Keeps :
      (i : Item) (bytes : Text)
      → i.attachment.sha256 ≡ h.digest bytes
      → Keeps h bytes r s (add_copy h i bytes s)
  unfolding get
  add-Keeps i bytes d e =
      subst (λ q. IsKept h bytes q s (add_copy h i bytes s).1) (ap (outcome r) e)
        (
          d,
          ap attachment_found (lookup-insert_self i.attachment.id i s.items),
          inl (lookup-insert_self i.attachment.local_media_path (regular bytes) s.files, refl),
        )

  add_unless-Keeps :
      (i : Item) (bytes : Text) (o : Option Item)
      → i.attachment.sha256 ≡ h.digest bytes
      → ((old : Item)
          → o ≡ some old
          → (old.attachment.sha256 ≡ h.digest bytes)
            × (lookup old.attachment.id s.items ≡ some old))
      → Keeps h bytes r s (add_unless h i bytes s o)
  unfolding get
  add_unless-Keeps i bytes none d found = add-Keeps i bytes d
  add_unless-Keeps i bytes (some old) d found =
      let (digested, there) = found old refl in
      elim (Bool-cases (exists s old.attachment.local_media_path)) [
        | inl y ↦ if_true (Keeps h bytes r s) (exists s old.attachment.local_media_path) _ _ y (λ e.
            subst (λ q. IsKept h bytes q s s) (ap (outcome r) e)
              (digested, ap attachment_found there, inr (refl, y)))
        | inr n ↦
            if_false (Keeps h bytes r s) (exists s old.attachment.local_media_path) _ _ n
              (add-Keeps i bytes d)
      ]

  store_bytes-Keeps :
      (now : ℕ) (path mime_type : Text) (source : MediaSource) (bytes : Text)
      → Keeps h bytes r s (store_bytes h now path mime_type source bytes s)
  store_bytes-Keeps now path mime_type source bytes =
      add_unless-Keeps (new_item h now path mime_type source bytes) bytes
        (find (has_digest h (h.digest bytes)) (values s.items)) refl
        (λ old e. find-has_digest h (h.digest bytes) s.items old keyed e)

  bytes-Keeps :
      (now : ℕ) (path mime_type : Text) (source : MediaSource) (bytes : Text)
      → (register_entry h now path mime_type source s (some (regular bytes))).0 ≡ registered r
      → (length bytes ≤ limit_of h h.max_bytes)
        × IsKept h bytes r s (register_entry h now path mime_type source s (some (regular bytes))).1
  bytes-Keeps now path mime_type source bytes =
      elim (Bool-cases (ltb (limit_of h h.max_bytes) (length bytes))) [
        | inl y ↦
            if_true (FitsAndKeeps h bytes r s) (ltb (limit_of h h.max_bytes) (length bytes)) _ _ y
              (λ e. absurd (refused_not e))
        | inr n ↦
            if_false (FitsAndKeeps h bytes r s) (ltb (limit_of h h.max_bytes) (length bytes)) _ _ n
              (λ e. (ground arith, store_bytes-Keeps now path mime_type source bytes e))
      ]

  entry-Keeps :
      (now : ℕ) (path mime_type : Text) (source : MediaSource) (o : Option Entry)
      → (register_entry h now path mime_type source s o).0 ≡ registered r
      → (bytes : Text) × (o ≡ some (regular bytes))
        × (length bytes ≤ limit_of h h.max_bytes)
        × IsKept h bytes r s (register_entry h now path mime_type source s o).1
  entry-Keeps now path mime_type source none e = absurd (refused_not e)
  entry-Keeps now path mime_type source (some special) e = absurd (refused_not e)
  entry-Keeps now path mime_type source (some (regular bytes)) e =
      let (small, kept) = bytes-Keeps now path mime_type source bytes e in
      (bytes, refl, small, kept)

  typed-Keeps :
      (now : ℕ) (path : Text) (source : MediaSource) (o : Option Text)
      → (register_typed h now path source s o).0 ≡ registered r
      → (bytes : Text) × (lookup path s.files ≡ some (regular bytes))
        × (length bytes ≤ limit_of h h.max_bytes)
        × IsKept h bytes r s (register_typed h now path source s o).1
  typed-Keeps now path source none e = absurd (refused_not e)
  typed-Keeps now path source (some mime_type) e =
      entry-Keeps now path mime_type source (lookup path s.files) e

-- Where each call ends before the next one begins: in every state that the registry reaches, a
-- registration that is not refused is of a regular file within the limit, and its attachment has the
-- digest of the bytes and is found under its id. Its copy holds the bytes and the index lists the
-- items; or it was registered before, with its file there, and nothing is changed.
pub register-IsKept :
    (h : MediaHost) (files : Map Text Entry) (es : List MediaEvent)
    → (now : ℕ) (path : Text) (source : MediaSource) (r : AttachmentRef)
    → let s = perform_all h es (fresh files) in
      (register h now path source s).0 ≡ registered r
      → (bytes : Text) × (lookup path s.files ≡ some (regular bytes))
        × (length bytes ≤ limit_of h h.max_bytes)
        × IsKept h bytes r (load s) (register h now path source s).1
unfolding register
register-IsKept h files es now path source r e =
    let s = perform_all h es (fresh files) in
    let held = load-Held s (perform_all-Held h es (fresh files) (fresh-Held files)) in
    let (bytes, there, small, kept) =
      typed-Keeps h (load s) r (Held-IsKeyed (load s) held) now path source (mime_type_for h path)
        e in
    (bytes, ap (λ fs. lookup path fs) (sym (load-files s)) ∙ there, small, kept)
