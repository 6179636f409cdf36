-- ===== src/Media/Held.antt =====
-- Registry and index of MediaRegistry.ts agree after each operation.
use dumbwaystodie.Prelude.{
  ℕ, Bool, true, false, Option, none, some, List, [], ◌∷◌, Text, inl, inr, if_both, if_true,
  if_false, Bool-cases, nat_beq, ltb, length, find, list_eq, nat_eq, Map, lookup, insert, erase,
  lookup-erase, ◌≡◌, refl, sym, subst, ap, ◌∙◌, arith,
}
use dumbwaystodie.Protocol.Wire.{MediaSource}
use dumbwaystodie.Media.{
  Item, Entry, regular, special, Media, limit_of, Registered, MediaHost, exists, load_items,
  index_items, load, values, persist, remove, removed_one, is_old, remove_old, cleaned, cleanup,
  register, register_typed, register_entry, mime_type_for, add_copy, add_unless, new_item,
  has_digest,
}
use dumbwaystodie.Media.Index.{
  IsKeyed, present_item, or_else, insert-IsKeyed, erase-IsKeyed, load-IsKeyed, lookup-load_items,
}

-- The index lists a map that has what the registry has, of the items whose files are there.
unfoldable pub Held : Media → Type 0
Held s =
    (m : Map Text Item) × IsKeyed s.items
    × IsKeyed m
    × (index_items s.index ≡ values m)
    × (s.loaded ≡ false → s.items ≡ [])
    × (s.loaded ≡ true
        → (id : Text)
        → present_item (exists s) (lookup id s.items) ≡ present_item (exists s) (lookup id m))

persist-Held : (s : Media) → s.loaded ≡ true → IsKeyed s.items → Held (persist s)
unfolding Held
persist-Held s l h = (s.items, h, h, refl, (λ n. ground arith), λ y id. refl)

pub present_item_twice :
    (present : Text → Bool) (o : Option Item)
    → present_item present (or_else (present_item present o) none) ≡ present_item present o
present_item_twice present none = refl
present_item_twice present (some i) = elim (Bool-cases (present i.attachment.local_media_path)) [
  | inl there ↦ rw (there, there) refl
  | inr gone ↦ rw (gone) refl
]

pub load-loaded : (s : Media) → (load s).loaded ≡ true
unfolding load
load-loaded s = elim (Bool-cases s.loaded) [ inl y ↦ rw (y) refl | inr n ↦ rw (n) refl ]

pub lookup-load_all :
    (present : Text → Bool) (m items : Map Text Item) (is : List Item) (id : Text)
    → items ≡ []
    → is ≡ values m
    → IsKeyed m
    → lookup id (load_items present items is) ≡ or_else (present_item present (lookup id m)) none
unfolding lookup
lookup-load_all present m items is id none_yet listed h =
    rw (none_yet, listed) (lookup-load_items present m [] id h)

pub load-Held : (s : Media) → Held s → Held (load s)
unfolding load Held lookup
load-Held s (m, k, km, listed, empty, same) = elim (Bool-cases s.loaded) [
  | inl y ↦ if_true Held s.loaded _ _ y (m, k, km, listed, empty, same)
  | inr n ↦ if_false Held s.loaded _ _ n (
    m,
    load-IsKeyed (exists s) (index_items s.index) s.items k,
    km,
    listed,
    (λ z. ground arith),
    λ z id.
        ap (present_item (exists s))
          (lookup-load_all (exists s) m s.items (index_items s.index) id (empty n) listed km)
        ∙ present_item_twice (exists s) (lookup id m),
  )
]

pub Held-IsKeyed : (s : Media) → Held s → IsKeyed s.items
unfolding Held
Held-IsKeyed s h = h.1

removed_one-Held :
    (id : Text) (s : Media) (o : Option Item)
    → s.loaded ≡ true
    → Held s
    → Held (removed_one id s o).1
removed_one-Held id s none l h = h
removed_one-Held id s (some i) l h =
    persist-Held
      (record s { items = erase id s.items; files = erase i.attachment.local_media_path s.files }) l
      (erase-IsKeyed id s.items (Held-IsKeyed s h))

pub remove-Held : (id : Text) (s : Media) → Held s → Held (remove id s).1
unfolding remove
remove-Held id s h =
    removed_one-Held id (load s) (lookup id (load s).items) (load-loaded s) (load-Held s h)

-- What the loop of `cleanup` leaves: where it removes nothing, it changes nothing.
abbrev Cleaned : Media → ℕ × Media → Type 0
Cleaned s (removed, t) = (t.loaded ≡ true) × IsKeyed t.items × (removed ≡ 0 → t ≡ s)

remove_old-Cleaned :
    (now days : ℕ) (is : List Item) (s : Media) (c : ℕ × Media)
    → Cleaned s c
    → Cleaned s (remove_old now days is c)
unfolding remove_old
remove_old-Cleaned now days [] s c h = h
remove_old-Cleaned now days (i ∷ is) s (n, t) (l, k, same) = remove_old-Cleaned now days is s _ (
    if_both (Cleaned s) (is_old now days i) _ _
      (l, erase-IsKeyed i.attachment.id t.items k, λ z. ground arith) (l, k, same))

cleaned-Held : (s : Media) (c : ℕ × Media) → Held s → Cleaned s c → Held (cleaned c).1
cleaned-Held s (n, t) h (l, k, same) = elim (Bool-cases (nat_beq n 0)) [
  | inl z ↦ rw (z) (subst Held (sym (same ((nat_eq.beq_iff n 0).0 z))) h)
  | inr z ↦ rw (z) (persist-Held t l k)
]

pub cleanup-Held : (now days : ℕ) (s : Media) → Held s → Held (cleanup now days s).1
unfolding cleanup
cleanup-Held now days s h =
    let held = load-Held s h in
    cleaned-Held (load s) _ held (
      remove_old-Cleaned now days (values (load s).items) (load s) (0, load s)
        (load-loaded s, Held-IsKeyed (load s) held, λ z. refl))

module _ (h : MediaHost) (s : Media) (l : s.loaded ≡ true) (held : Held s) where
  add-Held : (i : Item) (bytes : Text) → Held (add_copy h i bytes s).1
  add-Held i bytes =
      persist-Held
        (record s {
          files = insert i.attachment.local_media_path (regular bytes) s.files;
          items = insert i.attachment.id i s.items;
        })
        l (insert-IsKeyed i s.items (Held-IsKeyed s held))

  add_unless-Held : (i : Item) (bytes : Text) (o : Option Item) → Held (add_unless h i bytes s o).1
  add_unless-Held i bytes none = add-Held i bytes
  add_unless-Held i bytes (some old) =
      if_both (λ (r : Registered × Media). Held r.1) (exists s old.attachment.local_media_path) _ _
        held (add-Held i bytes)

  entry-Held :
      (now : ℕ) (path mime_type : Text) (source : MediaSource) (o : Option Entry)
      → Held (register_entry h now path mime_type source s o).1
  entry-Held now path mime_type source none = held
  entry-Held now path mime_type source (some special) = held
  entry-Held now path mime_type source (some (regular bytes)) =
      if_both (λ (r : Registered × Media). Held r.1) (ltb (limit_of h h.max_bytes) (length bytes)) _
        _ held
        (add_unless-Held (new_item h now path mime_type source bytes) bytes
          (find (has_digest h (h.digest bytes)) (values s.items)))

  typed-Held :
      (now : ℕ) (path : Text) (source : MediaSource) (o : Option Text)
      → Held (register_typed h now path source s o).1
  typed-Held now path source none = held
  typed-Held now path source (some mime_type) =
      entry-Held now path mime_type source (lookup path s.files)

pub register-Held :
    (h : MediaHost) (now : ℕ) (path : Text) (source : MediaSource) (s : Media)
    → Held s
    → Held (register h now path source s).1
unfolding register
register-Held h now path source s held =
    typed-Held h (load s) (load-loaded s) (load-Held s held) now path source (mime_type_for h path)

present_item-both :
    (few many : Text → Bool) (o : Option Item)
    → ((path : Text) → few path ≡ true → many path ≡ true)
    → present_item few (present_item many o) ≡ present_item few o
present_item-both few many none fewer = refl
present_item-both few many (some i) fewer =
    let path = i.attachment.local_media_path in
    elim (Bool-cases (many path)) [
      | inl there ↦ rw (there) refl
      | inr gone ↦ elim (Bool-cases (few path)) [
        | inl y ↦ let no : ⊥ = ground (arith, fewer path y) in absurd no
        | inr n ↦ rw (gone, n) refl
      ]
    ]

delete-exists :
    (path : Text) (s : Media) (at : Text)
    → exists (record s { files = erase path s.files }) at ≡ true
    → exists s at ≡ true
delete-exists path s at h = ground (arith, lookup-erase path at s.files)

pub delete-Held :
    (path : Text) (s : Media) → Held s → Held (record s { files = erase path s.files })
unfolding Held
delete-Held path s (m, k, km, listed, empty, same) =
    let t = record s { files = erase path s.files } in
    let fewer = delete-exists path s in
    (
      m,
      k,
      km,
      listed,
      empty,
      λ y id.
          sym (present_item-both (exists t) (exists s) (lookup id s.items) fewer)
          ∙ ap (present_item (exists t)) (same y id)
          ∙ present_item-both (exists t) (exists s) (lookup id m) fewer,
    )
