-- ===== src/Media/Index.antt =====
-- The items of MediaRegistry.ts under their ids, and what the index gives back of them.
use dumbwaystodie.Prelude.{
  Bool, true, false, Option, none, some, List, [], ◌∷◌, Text, inl, inr, if◌then◌else◌, if_both,
  Bool-cases, ◌==◌, ◌&&◌, list_eq, nat_eq, Eq, Map, lookup, insert, erase, lookup-insert,
  lookup-erase, ◌≡◌, refl, sym, subst, ap, ◌∙◌, arith,
}
use dumbwaystodie.Media.{Item, load_items, values}

abbrev text_eq : Eq Text
text_eq = list_eq

-- Each item stands under its id, once.
unfoldable pub IsKeyed : Map Text Item → Type 0
IsKeyed [] = Unit
IsKeyed ((k, i) ∷ m) = (k ≡ i.attachment.id) × (lookup k m ≡ none) × IsKeyed m

-- An item whose file is there.
abbrev pub present_item : (Text → Bool) → Option Item → Option Item
present_item present none = none
present_item present (some i) = if present i.attachment.local_media_path then some i else none

abbrev pub or_else : Option Item → Option Item → Option Item
or_else (some i) o = some i
or_else none o = o

not_found_after :
    (k j : Text) (i : Item) (m : Map Text Item)
    → (j == k) ≡ false
    → lookup j m ≡ none
    → lookup j (insert k i m) ≡ none
not_found_after k j i m other n =
    ground (arith, lookup-insert k j i m, text_eq.beq_iff k j, text_eq.beq_iff j k, n)

pub insert-IsKeyed :
    (i : Item) (m : Map Text Item) → IsKeyed m → IsKeyed (insert i.attachment.id i m)
unfolding IsKeyed insert lookup
insert-IsKeyed i [] h = (refl, refl, tt)
insert-IsKeyed i ((k, j) ∷ m) (e, n, h) = elim (Bool-cases (k == i.attachment.id)) [
  | inl same ↦ rw (same) ((text_eq.beq_iff k i.attachment.id).0 same, n, h)
  | inr other ↦ rw (other) (e, not_found_after i.attachment.id k i m other n, insert-IsKeyed i m h)
]

pub erase-IsKeyed : (k : Text) (m : Map Text Item) → IsKeyed m → IsKeyed (erase k m)
unfolding IsKeyed erase
erase-IsKeyed k [] h = tt
erase-IsKeyed k ((j, i) ∷ m) (e, n, h) = elim (Bool-cases (j == k)) [
  | inl same ↦ rw (same) (erase-IsKeyed k m h)
  | inr other ↦ rw (other) (e, ground (arith, lookup-erase k j m, n), erase-IsKeyed k m h)
]

pub load-IsKeyed :
    (present : Text → Bool) (is : List Item) (m : Map Text Item)
    → IsKeyed m
    → IsKeyed (load_items present m is)
unfolding load_items
load-IsKeyed present [] m h = h
load-IsKeyed present (i ∷ is) m h =
    load-IsKeyed present is _
      (if_both IsKeyed (present i.attachment.local_media_path) _ m (insert-IsKeyed i m h) h)

lookup-load_one :
    (present : Text → Bool) (i : Item) (acc : Map Text Item) (id : Text)
    → lookup id
        (if present i.attachment.local_media_path then insert i.attachment.id i acc else acc)
      ≡ (if present i.attachment.local_media_path && (i.attachment.id == id)
          then some i
          else lookup id acc)
lookup-load_one present i acc id = elim (Bool-cases (present i.attachment.local_media_path)) [
  | inl there ↦ rw (there) (lookup-insert i.attachment.id id i acc)
  | inr gone ↦ rw (gone) refl
]

or_else-load_one :
    (present : Text → Bool) (i : Item) (same : Bool) (later earlier : Option Item)
    → (same ≡ true → later ≡ none)
    → or_else
        (present_item present later)
        (if present i.attachment.local_media_path && same then some i else earlier)
      ≡ or_else (present_item present (if same then some i else later)) earlier
or_else-load_one present i true later earlier once =
    elim (Bool-cases (present i.attachment.local_media_path)) [
      | inl there ↦ rw (once refl, there) refl
      | inr gone ↦ rw (once refl, gone) refl
    ]
or_else-load_one present i false later earlier once =
    elim (Bool-cases (present i.attachment.local_media_path)) [
      | inl there ↦ rw (there) refl
      | inr gone ↦ rw (gone) refl
    ]

-- Loading finds what the index says, of the items whose files are there.
pub lookup-load_items :
    (present : Text → Bool) (m acc : Map Text Item) (id : Text)
    → IsKeyed m
    → lookup id (load_items present acc (values m))
      ≡ or_else (present_item present (lookup id m)) (lookup id acc)
unfolding load_items IsKeyed lookup
lookup-load_items present [] acc id h = refl
lookup-load_items present ((k, i) ∷ m) acc id (e, n, h) =
    lookup-load_items present m _ id h
    ∙ ap (or_else (present_item present (lookup id m))) (lookup-load_one present i acc id)
    ∙ or_else-load_one present i (i.attachment.id == id) (lookup id m) (lookup id acc)
        (λ same. subst (λ j. lookup j m ≡ none) (e ∙ (text_eq.beq_iff i.attachment.id id).0 same) n)
    ∙ ap
        (λ j.
          or_else (present_item present (if j == id then some i else lookup id m)) (lookup id acc))
        (sym e)
