-- ===== src/Media/Reload.antt =====
-- What a new window finds in the index that MediaRegistry.ts writes.
use dumbwaystodie.Prelude.{
  ℕ, false, Option, none, some, List, [], ◌∷◌, Text, inl, inr, if_true, if_false, Bool-cases,
  list_eq, nat_eq, Map, lookup, erase, ◌≡◌, refl, sym, ap, ◌∙◌, arith,
}
use dumbwaystodie.Protocol.Wire.{MediaSource}
use dumbwaystodie.Media.{
  Item, Entry, Media, attachment_found, MediaHost, exists, index_items, load, get, remove, cleanup,
  register,
}
use dumbwaystodie.Media.Index.{IsKeyed, present_item, or_else}
use dumbwaystodie.Media.Held.{
  Held, remove-Held, cleanup-Held, register-Held, delete-Held, present_item_twice, lookup-load_all,
}

pub data MediaEvent : Type 0 where
  registering : ℕ → Text → MediaSource → MediaEvent
  removing : Text → MediaEvent
  cleaning : ℕ → ℕ → MediaEvent
  deleted : Text → MediaEvent
  reopened : MediaEvent

-- A new window, with the disk as it is.
abbrev pub reopen : Media → Media
reopen s = record s { items = []; loaded = false }

unfoldable pub perform : MediaHost → MediaEvent → Media → Media
perform h (registering now path source) s = (register h now path source s).1
perform h (removing id) s = (remove id s).1
perform h (cleaning now days) s = (cleanup now days s).1
perform h (deleted path) s = record s { files = erase path s.files }
perform h reopened s = reopen s

unfoldable pub perform_all : MediaHost → List MediaEvent → Media → Media
unfolding perform
perform_all h [] s = s
perform_all h (e ∷ es) s = perform_all h es (perform h e s)

-- No index yet, and any files.
abbrev pub fresh : Map Text Entry → Media
fresh files = record { items = []; loaded = false; files = files; index = none }

reopen-Held : (s : Media) → Held s → Held (reopen s)
unfolding Held IsKeyed
reopen-Held s (m, k, km, listed, empty, same) =
    (m, tt, km, listed, (λ n. refl), (λ y. ground arith))

perform-Held : (h : MediaHost) (e : MediaEvent) (s : Media) → Held s → Held (perform h e s)
unfolding perform
perform-Held h (registering now path source) s held = register-Held h now path source s held
perform-Held h (removing id) s held = remove-Held id s held
perform-Held h (cleaning now days) s held = cleanup-Held now days s held
perform-Held h (deleted path) s held = delete-Held path s held
perform-Held h reopened s held = reopen-Held s held

pub perform_all-Held :
    (h : MediaHost) (es : List MediaEvent) (s : Media) → Held s → Held (perform_all h es s)
unfolding perform_all
perform_all-Held h [] s held = held
perform_all-Held h (e ∷ es) s held = perform_all-Held h es _ (perform-Held h e s held)

pub fresh-Held : (files : Map Text Entry) → Held (fresh files)
unfolding Held IsKeyed
fresh-Held files = ([], tt, tt, refl, (λ n. refl), (λ y. ground arith))

or_else-none : (o : Option Item) → or_else o none ≡ o
or_else-none none = refl
or_else-none (some i) = refl

reload-Held :
    (s : Media) (id : Text)
    → Held s
    → attachment_found (lookup id (load (reopen s)).items)
      ≡ attachment_found (present_item (exists s) (lookup id (load s).items))
unfolding load Held
reload-Held s id (m, k, km, listed, empty, same) =
    let present = exists s in
    let again =
      lookup-load_all present m [] (index_items s.index) id refl listed km
      ∙ or_else-none (present_item present (lookup id m)) in
    elim (Bool-cases s.loaded) [
      | inl y ↦
          if_true
            (λ (t : Media).
              attachment_found (lookup id (load (reopen s)).items)
              ≡ attachment_found (present_item present (lookup id t.items)))
            s.loaded _ _ y (ap attachment_found (again ∙ sym (same y id)))
      | inr n ↦
          if_false
            (λ (t : Media).
              attachment_found (lookup id (load (reopen s)).items)
              ≡ attachment_found (present_item present (lookup id t.items)))
            s.loaded _ _ n
            (ap attachment_found (
              again
              ∙ sym (
                  ap (present_item present)
                    (lookup-load_all present m s.items (index_items s.index) id (empty n) listed km)
                  ∙ present_item_twice present (lookup id m))))
    ]

-- Where each call ends before the next one begins: after any registrations, removals, clean-ups, new
-- windows and deletions of files, from a folder without an index, a new window finds for an id what
-- the registry had of it, if its file is there.
pub reload-perform_all :
    (h : MediaHost) (files : Map Text Entry) (es : List MediaEvent) (id : Text)
    → let s = perform_all h es (fresh files) in
      get id (load (reopen s))
      ≡ attachment_found (present_item (exists s) (lookup id (load s).items))
unfolding get
reload-perform_all h files es id =
    let s = perform_all h es (fresh files) in
    reload-Held s id (perform_all-Held h es (fresh files) (fresh-Held files))
