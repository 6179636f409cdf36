-- ===== src/Context/Withheld.antt =====
-- What ContextEngine.ts keeps back: the text of a secret file, and what is beyond a file's budget.
use dumbwaystodie.Prelude.{
  ℕ, ◌<◌, none, some, Option, List, [], ◌∷◌, ◌++◌, inl, inr, ◌⊎◌, Text, leb, Bool, if_both,
  Option-cases, Bool-cases, length, take, map, All, ◌≡◌, refl, sym, subst, arith, true, false,
}
use dumbwaystodie.Protocol.Context.{
  ContextItem, selection_item, file_item, diagnostics_item, note_item, TruncationInfo,
  DocumentSnapshot, DiagnosticSnapshot, SelectionSnapshot, ContextBudget,
}
use dumbwaystodie.Secrets.{inspect_path}
use dumbwaystodie.Context.{
  Editor, ToolDirectory, BuildRequestInput, Gathered, Droppable, has_type, without_first,
  total_characters, drop_type, drop_found, drop_types, apply_total_budget, truncate,
  nothing_gathered, gather_selection, gather_buffer, gather_diagnostics, gather_document,
  gather_content, gather, build_request, drop_order,
}

module _ (P : ContextItem → Type 0) where
  All-append : (xs ys : List ContextItem) → All P xs → All P ys → All P (xs ++ ys)
  All-append [] ys h k = k
  All-append (x ∷ xs) ys (p, h) k = (p, All-append xs ys h k)

  All-map :
      {A : Type 0} (f : A → ContextItem) → ((a : A) → P (f a)) → (xs : List A) → All P (map f xs)
  All-map f h [] = tt
  All-map f h (x ∷ xs) = (h x, All-map f h xs)

  without_first-All :
      (type : Droppable) (items rest : List ContextItem)
      → without_first type items ≡ some rest
      → All P items
      → All P rest
  unfolding without_first
  without_first-All type [] rest h k = ground arith
  without_first-All type (item ∷ items) rest h (p, k) = elim (Bool-cases (has_type type item)) [
    | inl e ↦ let same : items ≡ rest = ground arith in subst (All P) same k
    | inr e ↦ elim (Option-cases (without_first type items)) [
      | inl o ↦ ground arith
      | inr (tail, o) ↦
          let same : item ∷ tail ≡ rest = ground arith in
          subst (All P) same (p, without_first-All type items tail o k)
    ]
  ]

  drop_found-All :
      (budget : ContextBudget) (type : Droppable) (g : Gathered) (o : Option (List ContextItem))
      → ((rest : List ContextItem) → o ≡ some rest → All P rest)
      → All P g.items
      → All P (drop_found budget type g o).items
  drop_found-All budget type g none h k = k
  drop_found-All budget type g (some rest) h k = h rest refl

  -- What holds of all the gathered items holds of those that the budget leaves.
  drop_types-All :
      (budget : ContextBudget) (types : List Droppable) (g : Gathered)
      → All P g.items
      → All P (drop_types budget types g).items
  unfolding drop_types drop_type
  drop_types-All budget [] g k = k
  drop_types-All budget (type ∷ types) g k =
      if_both (λ (h : Gathered). All P h.items)
        (leb (total_characters g.items) budget.max_characters) g _ k
        (drop_types-All budget types (drop_type budget type g) (
          drop_found-All budget type g (without_first type g.items)
            (λ rest h. without_first-All type g.items rest h k) k))

  request-All :
      (fold : ℕ → Text) (budget : ContextBudget) (directory : ToolDirectory) (e : Editor)
      (id : Text) (input : BuildRequestInput)
      → ((note : Text) → P (note_item note))
      → All P (gather fold budget e).items
      → All P (build_request fold budget directory e id input).0.context_items
  unfolding build_request apply_total_budget
  request-All fold budget directory e id input n k =
      let g = gather fold budget e in
      All-append _ _ (drop_types-All budget drop_order g k)
        (All-map note_item n (apply_total_budget budget g).notes)

-- Items whose text is that of a file.
abbrev pub has_text : ContextItem → Bool
has_text (diagnostics_item item) = false
has_text (note_item note) = false
has_text item = true

gather_diagnostics-All :
    (P : ContextItem → Type 0) (budget : ContextBudget) (d : DocumentSnapshot)
    (ds : List DiagnosticSnapshot) (g : Gathered)
    → ((omitted : Option ℕ)
        → P (
            diagnostics_item record {
              path = d.path;
              diagnostics = take budget.max_diagnostic_items ds;
              omitted_count = omitted;
            }))
    → All P g.items
    → All P (gather_diagnostics budget d ds g).items
unfolding gather_diagnostics
gather_diagnostics-All P budget d [] g p k = k
gather_diagnostics-All P budget d (x ∷ xs) g p k = All-append P g.items _ k (p _, tt)

gather-All :
    (P : ContextItem → Type 0) (fold : ℕ → Text) (budget : ContextBudget) (e : Editor)
    (d : DocumentSnapshot)
    → e.document ≡ some d
    → ((omitted : Option ℕ)
        → P (
            diagnostics_item record {
              path = d.path;
              diagnostics = take budget.max_diagnostic_items e.diagnostics;
              omitted_count = omitted;
            }))
    → All P (gather_content fold budget e d).items
    → All P (gather fold budget e).items
unfolding gather gather_document
gather-All P fold budget e d h p k =
    subst (λ o. All P (gather_document fold budget e o).items) (sym h)
      (gather_diagnostics-All P budget d e.diagnostics (gather_content fold budget e d) p k)

-- Of a secret file the request holds no text, neither the buffer nor the selection: what it carries
-- are diagnostics and notes.
pub build_request-withheld :
    (fold : ℕ → Text) (budget : ContextBudget) (directory : ToolDirectory) (e : Editor) (id : Text)
    (input : BuildRequestInput) (d : DocumentSnapshot)
    → e.document ≡ some d
    → (inspect_path fold d.path).blocked ≡ true
    → All
        (λ item. has_text item ≡ false)
        (build_request fold budget directory e id input).0.context_items
unfolding gather_content
build_request-withheld fold budget directory e id input d h blocked =
    request-All (λ item. has_text item ≡ false) fold budget directory e id input (λ note. refl)
      (gather-All _ fold budget e d h (λ omitted. refl) (rw (gather_content, blocked) tt))

-- The text of an item is `text`, or the first characters of it with their number and that of all.
abbrev pub IsCutFrom : ℕ → Text → Text → Option TruncationInfo → Type 0
IsCutFrom max text content truncation =
    ((content ≡ text) × (truncation ≡ none))
    ⊎ ((max < length text)
        × (content ≡ take max text)
        × (truncation
            ≡ some record { original_characters = length text; included_characters = max }))

-- What the items of a request say of the file that the editor shows.
abbrev pub IsHonest : ContextBudget → Editor → DocumentSnapshot → ContextItem → Type 0
IsHonest budget e d (file_item f) =
    (f.path ≡ d.path)
    × (f.document_version ≡ some d.document_version)
    × IsCutFrom budget.max_file_characters d.content f.content f.truncation
IsHonest budget e d (selection_item s) =
    (t : SelectionSnapshot) × (e.selection ≡ some t)
    × IsCutFrom budget.max_file_characters t.content s.content s.truncation
IsHonest budget e d (diagnostics_item i) =
    (i.path ≡ d.path) × (i.diagnostics ≡ take budget.max_diagnostic_items e.diagnostics)
IsHonest budget e d (note_item note) = Unit
IsHonest budget e d item = ⊥

truncate-IsCutFrom :
    (max : ℕ) (text : Text) → IsCutFrom max text (truncate text max).0 (truncate text max).1
unfolding truncate
truncate-IsCutFrom max text = elim (Bool-cases (leb (length text) max)) [
  | inl e ↦ rw (e) (inl (refl, refl))
  | inr e ↦ rw (e) (inr (ground arith, refl, refl))
]

selection-IsHonest :
    (budget : ContextBudget) (e : Editor) (d : DocumentSnapshot) (o : Option SelectionSnapshot)
    → e.selection ≡ o
    → All (IsHonest budget e d) (gather_selection budget o nothing_gathered).items
unfolding gather_selection
selection-IsHonest budget e d none h = tt
selection-IsHonest budget e d (some t) h =
    ((t, h, truncate-IsCutFrom budget.max_file_characters t.content), tt)

content-IsHonest :
    (fold : ℕ → Text) (budget : ContextBudget) (e : Editor) (d : DocumentSnapshot)
    → All (IsHonest budget e d) (gather_content fold budget e d).items
unfolding gather_content gather_buffer
content-IsHonest fold budget e d =
    if_both (λ (g : Gathered). All (IsHonest budget e d) g.items) (inspect_path fold d.path).blocked
      _ (gather_buffer budget d (gather_selection budget e.selection nothing_gathered)) tt
      (All-append (IsHonest budget e d) (gather_selection budget e.selection nothing_gathered).items
        _ (selection-IsHonest budget e d e.selection refl)
        ((refl, refl, truncate-IsCutFrom budget.max_file_characters d.content), tt))

-- Every item of a request says what the editor shows: the file's text whole, or its first
-- characters with the number of those left out, and so the selection.
pub build_request-IsHonest :
    (fold : ℕ → Text) (budget : ContextBudget) (directory : ToolDirectory) (e : Editor) (id : Text)
    (input : BuildRequestInput) (d : DocumentSnapshot)
    → e.document ≡ some d
    → All (IsHonest budget e d) (build_request fold budget directory e id input).0.context_items
build_request-IsHonest fold budget directory e id input d h =
    request-All (IsHonest budget e d) fold budget directory e id input (λ note. tt)
      (gather-All _ fold budget e d h (λ omitted. (refl, refl)) (content-IsHonest fold budget e d))
