-- ===== src/Protocol/Size.antt =====
-- The size of a context item, `contextItemCharacters` of packages/protocol/src/context.ts.
use dumbwaystodie.Prelude.{
  ℕ, ◌+◌, ◌-◌, Bool, none, some, Option, List, [], ◌∷◌, ◌++◌, ◌&&◌, ◌||◌, Text, lit, leb, ltb,
  nat_beq, if◌then◌else◌, length, map, ◌≡◌, refl,
}
use dumbwaystodie.Protocol.Context.{
  ContextItem, selection_item, file_item, diagnostics_item, terminal_item, git_item, note_item,
  tree_item, learning_item, LearningState, DiagnosticSnapshot, ProjectTreeEntry,
}

abbrev pub sum : List ℕ → ℕ
sum [] = 0
sum (n ∷ ns) = n + sum ns

abbrev is_high_surrogate : ℕ → Bool
is_high_surrogate c = leb 0xd800 c && ltb c 0xdc00

abbrev is_low_surrogate : ℕ → Bool
is_low_surrogate c = leb 0xdc00 c && ltb c 0xe000

-- The escapes of `JSON.stringify`: two code units for a quote, a backslash and the control
-- characters that have a short form, six for another control character or a lone surrogate.
abbrev escaped : ℕ → ℕ
escaped c =
    if nat_beq c 34 || nat_beq c 92 || (leb 8 c && leb c 10) || nat_beq c 12 || nat_beq c 13
    then 2
    else if ltb c 32 || is_high_surrogate c || is_low_surrogate c
    then 6
    else 1

json_units : Text → ℕ
json_units [] = 0
json_units (c ∷ []) = escaped c
json_units (c ∷ d ∷ t) =
    let pair = json_units t in
    let rest = json_units (d ∷ t) in
    if is_high_surrogate c && is_low_surrogate d then 2 + pair else escaped c + rest

json_text : Text → ℕ
unfolding json_units
json_text t = 2 + json_units t

-- The parts of a JSON array or object, with the brackets and the commas between them.
json_parts : List ℕ → ℕ
json_parts parts = 2 + sum parts + (length parts - 1)

-- A property `"name":value` that is there.
json_field : Text → Option ℕ → List ℕ
unfolding json_text
json_field name none = []
json_field name (some value) = (json_text name + 1 + value) ∷ []

json_optional : Option Text → Option ℕ
unfolding json_text
json_optional none = none
json_optional (some t) = some (json_text t)

json_texts : Option (List Text) → Option ℕ
unfolding json_text json_parts
json_texts none = none
json_texts (some ts) = some (json_parts (map json_text ts))

learning_characters : LearningState → ℕ
unfolding json_parts json_field json_optional json_texts
learning_characters l = json_parts (
    json_field (lit "currentGoal") (json_optional l.current_goal)
    ++ json_field (lit "currentFeature") (json_optional l.current_feature)
    ++ json_field (lit "currentMicroSkill") (json_optional l.current_micro_skill)
    ++ json_field (lit "currentUnderstanding") (json_optional l.current_understanding)
    ++ json_field (lit "prediction") (json_optional l.prediction)
    ++ json_field (lit "observedResult") (json_optional l.observed_result)
    ++ json_field (lit "demonstrated") (json_texts l.demonstrated)
    ++ json_field (lit "shaky") (json_texts l.shaky))

abbrev text_characters : Option Text → ℕ
text_characters none = 0
text_characters (some t) = length t

unfoldable pub context_item_characters : ContextItem → ℕ
unfolding learning_characters
context_item_characters (selection_item item) = length item.content
context_item_characters (file_item item) = length item.content
context_item_characters (diagnostics_item item) =
    sum (map (λ (d : DiagnosticSnapshot). length d.message + 40) item.diagnostics)
context_item_characters (terminal_item item) = length item.content
context_item_characters (git_item item) = text_characters item.diff + text_characters item.status
context_item_characters (note_item note) = length note
context_item_characters (tree_item entries truncated) =
    sum (map (λ (e : ProjectTreeEntry). length e.path + 12) entries)
context_item_characters (learning_item learning) = learning_characters learning

test_learning :
    context_item_characters (
      learning_item record {
        current_goal = some (lit "a\"b");
        current_feature = none;
        current_micro_skill = none;
        current_understanding = none;
        prediction = none;
        observed_result = none;
        demonstrated = some (lit "x" ∷ lit "y" ∷ []);
        shaky = none;
      })
    ≡ length (lit "{\"currentGoal\":\"a\\\"b\",\"demonstrated\":[\"x\",\"y\"]}")
unfolding context_item_characters learning_characters json_parts json_field json_optional json_texts
    json_text json_units
test_learning = refl
