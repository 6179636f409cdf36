-- ===== src/Context/Budget.antt =====
-- The total budget of ContextEngine.ts: how much a request carries, and what is said of the rest.
use dumbwaystodie.Prelude.{
  ℕ, ◌+◌, ◌≤◌, none, some, Option, List, [], ◌∷◌, ◌++◌, inl, inr, Text, if_both, Option-cases,
  Bool-cases, length, length-append, map, ◌≡◌, refl, ap, ◌∙◌, sym, subst, arith,
}
use dumbwaystodie.Protocol.Context.{
  ContextItem, selection_item, file_item, diagnostics_item, note_item, SelectionContextItem,
  FileContextItem, DocumentSnapshot, SelectionSnapshot, DiagnosticSnapshot, DiagnosticContextItem,
  ContextBudget,
}
use dumbwaystodie.Secrets.{inspect_path}
use dumbwaystodie.Context.{
  Editor, ToolDirectory, BuildRequestInput, Gathered, Droppable, has_type, without_first,
  total_characters, drop_type, drop_found, gather_document, drop_types, apply_total_budget,
  gather_selection, gather_buffer, gather_diagnostics, gather_content, gather, build_request,
  nothing_gathered,
}

total_characters-append :
    (xs ys : List ContextItem)
    → total_characters (xs ++ ys) ≡ total_characters xs + total_characters ys
unfolding total_characters
total_characters-append [] ys = omega arith
total_characters-append (x ∷ xs) ys = omega (arith, total_characters-append xs ys)

-- The items that the engine gathers: at most one of each type, in this order.
abbrev items_of :
    Option SelectionContextItem
    → Option FileContextItem
    → Option DiagnosticContextItem
    → List ContextItem
items_of (some s) (some f) (some d) = selection_item s ∷ file_item f ∷ diagnostics_item d ∷ []
items_of (some s) (some f) none = selection_item s ∷ file_item f ∷ []
items_of (some s) none (some d) = selection_item s ∷ diagnostics_item d ∷ []
items_of (some s) none none = selection_item s ∷ []
items_of none (some f) (some d) = file_item f ∷ diagnostics_item d ∷ []
items_of none (some f) none = file_item f ∷ []
items_of none none (some d) = diagnostics_item d ∷ []
items_of none none none = []

HasShape : List ContextItem → Type 0
HasShape items =
    (s : Option SelectionContextItem) × (f : Option FileContextItem) × (d : Option
      DiagnosticContextItem)
    × (items ≡ items_of s f d)

apply_total_budget-fits :
    (budget : ContextBudget) (s : Option SelectionContextItem) (f : Option FileContextItem)
    (d : Option DiagnosticContextItem) (notes : List Text)
    → total_characters
        (apply_total_budget budget record { items = items_of s f d; notes = notes }).items
      ≤ budget.max_characters
unfolding apply_total_budget drop_types drop_type without_first has_type total_characters
apply_total_budget-fits budget (some s) (some f) (some d) notes = ground arith
apply_total_budget-fits budget (some s) (some f) none notes = ground arith
apply_total_budget-fits budget (some s) none (some d) notes = ground arith
apply_total_budget-fits budget (some s) none none notes = ground arith
apply_total_budget-fits budget none (some f) (some d) notes = ground arith
apply_total_budget-fits budget none (some f) none notes = ground arith
apply_total_budget-fits budget none none (some d) notes = ground arith
apply_total_budget-fits budget none none none notes = ground arith

selection-shape :
    (budget : ContextBudget) (selection : Option SelectionSnapshot)
    → (s : Option SelectionContextItem) × ((gather_selection budget selection
          nothing_gathered).items
        ≡ items_of s none none)
unfolding gather_selection
selection-shape budget none = (none, refl)
selection-shape budget (some s) = (some _, refl)

with_file :
    (s : Option SelectionContextItem) (f : FileContextItem)
    → items_of s none none ++ file_item f ∷ [] ≡ items_of s (some f) none
with_file none f = refl
with_file (some s) f = refl

with_diagnostics :
    (s : Option SelectionContextItem) (f : Option FileContextItem) (d : DiagnosticContextItem)
    → items_of s f none ++ diagnostics_item d ∷ [] ≡ items_of s f (some d)
with_diagnostics none none d = refl
with_diagnostics none (some f) d = refl
with_diagnostics (some s) none d = refl
with_diagnostics (some s) (some f) d = refl

HasContentShape : List ContextItem → Type 0
HasContentShape items =
    (s : Option SelectionContextItem) × (f : Option FileContextItem) × (items ≡ items_of s f none)

added_file :
    (items : List ContextItem) (item : FileContextItem)
    → (s : Option SelectionContextItem) × (items ≡ items_of s none none)
    → HasContentShape (items ++ file_item item ∷ [])
unfolding HasContentShape
added_file items item (s, h) =
    (s, some item, ap (λ items. items ++ file_item item ∷ []) h ∙ with_file s item)

buffer-HasShape :
    (budget : ContextBudget) (d : DocumentSnapshot) (selection : Option SelectionSnapshot)
    → HasContentShape
        (gather_buffer budget d (gather_selection budget selection nothing_gathered)).items
unfolding gather_buffer
buffer-HasShape budget d selection = added_file _ _ (selection-shape budget selection)

content-HasShape :
    (fold : ℕ → Text) (budget : ContextBudget) (e : Editor) (d : DocumentSnapshot)
    → HasContentShape (gather_content fold budget e d).items
unfolding gather_content HasContentShape
content-HasShape fold budget e d =
    if_both (λ (g : Gathered). HasContentShape g.items) (inspect_path fold d.path).blocked _
      (gather_buffer budget d (gather_selection budget e.selection nothing_gathered))
      (none, none, refl) (buffer-HasShape budget d e.selection)

added-HasShape :
    (items : List ContextItem) (item : DiagnosticContextItem)
    → HasContentShape items
    → HasShape (items ++ diagnostics_item item ∷ [])
unfolding HasShape HasContentShape
added-HasShape items item (s, f, h) = (
  s,
  f,
  some item,
  ap (λ items. items ++ diagnostics_item item ∷ []) h ∙ with_diagnostics s f item,
)

diagnostics-HasShape :
    (budget : ContextBudget) (d : DocumentSnapshot) (ds : List DiagnosticSnapshot) (g : Gathered)
    → HasContentShape g.items
    → HasShape (gather_diagnostics budget d ds g).items
unfolding HasShape HasContentShape gather_diagnostics
diagnostics-HasShape budget d [] g (s, f, h) = (s, f, none, h)
diagnostics-HasShape budget d (x ∷ xs) g h = added-HasShape g.items _ h

document-HasShape :
    (fold : ℕ → Text) (budget : ContextBudget) (e : Editor) (o : Option DocumentSnapshot)
    → HasShape (gather_document fold budget e o).items
unfolding gather_document HasShape
document-HasShape fold budget e none = (none, none, none, refl)
document-HasShape fold budget e (some d) =
    diagnostics-HasShape budget d e.diagnostics (gather_content fold budget e d)
      (content-HasShape fold budget e d)

gather-HasShape :
    (fold : ℕ → Text) (budget : ContextBudget) (e : Editor) → HasShape (gather fold budget e).items
unfolding gather
gather-HasShape fold budget e = document-HasShape fold budget e e.document

without_first-length :
    (type : Droppable) (items rest : List ContextItem)
    → without_first type items ≡ some rest
    → length items ≡ length rest + 1
unfolding without_first
without_first-length type [] rest h = ground arith
without_first-length type (item ∷ items) rest h = elim (Bool-cases (has_type type item)) [
  | inl e ↦ ground arith
  | inr e ↦ elim (Option-cases (without_first type items)) [
    | inl o ↦ ground arith
    | inr (tail, o) ↦ ground (arith, without_first-length type items tail o)
  ]
]

drop_found-notes :
    (budget : ContextBudget) (type : Droppable) (g : Gathered) (o : Option (List ContextItem))
    → ((rest : List ContextItem) → o ≡ some rest → length g.items ≡ length rest + 1)
    → let h = drop_found budget type g o in
      length h.items + length h.notes ≡ length g.items + length g.notes
drop_found-notes budget type g none found = refl
drop_found-notes budget type g (some rest) found =
    let fewer = found rest refl in omega (arith, fewer, length-append g.notes _)

drop_type-notes :
    (budget : ContextBudget) (type : Droppable) (g : Gathered)
    → let h = drop_type budget type g in
      length h.items + length h.notes ≡ length g.items + length g.notes
unfolding drop_type
drop_type-notes budget type g =
    drop_found-notes budget type g (without_first type g.items) (without_first-length type g.items)

-- The engine names in a note each item that the total budget drops: items and notes together are
-- as many as before.
pub drop_types-notes :
    (budget : ContextBudget) (types : List Droppable) (g : Gathered)
    → let h = drop_types budget types g in
      length h.items + length h.notes ≡ length g.items + length g.notes
unfolding drop_types
drop_types-notes budget [] g = refl
drop_types-notes budget (type ∷ types) g =
    ground (
      arith,
      drop_type-notes budget type g,
      drop_types-notes budget types (drop_type budget type g),
    )

pub build_request-fits :
    (fold : ℕ → Text) (budget : ContextBudget) (directory : ToolDirectory) (e : Editor) (id : Text)
    (input : BuildRequestInput)
    → let (request, notes) = build_request fold budget directory e id input in
      total_characters request.context_items
      ≤ budget.max_characters + total_characters (map note_item notes)
unfolding build_request HasShape
build_request-fits fold budget directory e id input =
    let (s, f, d, h) = gather-HasShape fold budget e in
    let g = gather fold budget e in
    let fits : total_characters (apply_total_budget budget g).items ≤ budget.max_characters =
      subst
        (λ items.
          total_characters
            (apply_total_budget budget record { items = items; notes = g.notes }).items
          ≤ budget.max_characters)
        (sym h) (apply_total_budget-fits budget s f d g.notes) in
    rw
      (total_characters-append (apply_total_budget budget g).items
        (map note_item (apply_total_budget budget g).notes))
      (omega (arith, fits))
