-- ===== src/Context/Markdown/Fence.antt =====
-- A reader of fenced blocks, and what it reads of a block that `fence` of serialize.ts writes.
use dumbwaystodie.Prelude.{
  ℕ, suc, zero, ◌≤◌, ◌<◌, Bool, true, false, none, some, Option, List, [], ◌∷◌, ◌++◌, inl, inr,
  Text, newline, split, join, join-split, split-append, nat_beq, leb, if◌then◌else◌, if_true,
  Bool-cases, All, drop, append_assoc, append-nil, ◌≡◌, refl, subst, ap, ◌∙◌, arith,
}
use dumbwaystodie.Context.Markdown.{tick, leading, longest_run, repeated, fence_length, fence}

abbrev skip_spaces : Text → Text
skip_spaces [] = []
skip_spaces (c ∷ t) = if nat_beq c 32 then skip_spaces t else c ∷ t

-- A line that ends a block whose fence has `n` backticks.
abbrev closes : ℕ → Text → Bool
closes n line = leb n (leading (skip_spaces line))

unfoldable pub until_closing : ℕ → List Text → Option (List Text)
until_closing n [] = none
until_closing n (line ∷ lines) =
    if closes n line
    then some []
    else elim (until_closing n lines) [ none ↦ none | some read ↦ some (line ∷ read) ]

-- Language and content of the block at the start of a text.
abbrev block_of : ℕ → Text → Option (List Text) → Option (Text × Text)
block_of n first none = none
block_of n first (some read) = some (drop n first, join (newline ∷ []) read)

abbrev read_lines : List Text → Option (Text × Text)
read_lines [] = none
read_lines (first ∷ lines) =
    if leb 3 (leading first)
    then block_of (leading first) first (until_closing (leading first) lines)
    else none

unfoldable pub read_block : Text → Option (Text × Text)
unfolding split join until_closing
read_block t = read_lines (split newline t)

leading-skip_spaces : (t : Text) → leading (skip_spaces t) ≤ longest_run t
leading-skip_spaces [] = omega arith
leading-skip_spaces (c ∷ t) = ground (arith, leading-skip_spaces t)

weaken-runs :
    (j k : ℕ) (ls : List Text)
    → j ≤ k
    → All (λ l. longest_run l ≤ j) ls
    → All (λ l. longest_run l ≤ k) ls
weaken-runs j k [] le h = tt
weaken-runs j k (l ∷ ls) le (h, hs) = (omega (arith, le, h), weaken-runs j k ls le hs)

-- A line of a text has no longer run than the text, and the first none at its start.
split-runs :
    (t : Text)
    → (l : Text) × (ls : List Text) × (split newline t ≡ l ∷ ls)
      × (leading l ≤ leading t)
      × (longest_run l ≤ longest_run t)
      × All (λ m. longest_run m ≤ longest_run t) ls
unfolding split
split-runs [] = ([], [], refl, omega arith, omega arith, tt)
split-runs (c ∷ t) =
    let (l, ls, h, a, b, all) = split-runs t in
    let le : longest_run t ≤ longest_run (c ∷ t) = omega arith in
    elim (Bool-cases (nat_beq c newline)) [
      | inl e ↦ (
        [],
        l ∷ ls,
        rw (e, h) refl,
        ground arith,
        ground arith,
        (omega (arith, le, b), weaken-runs _ _ ls le all),
      )
      | inr e ↦ (
        c ∷ l,
        ls,
        rw (e, h) refl,
        ground (arith, a),
        ground (arith, a, b),
        weaken-runs _ _ ls le all,
      )
    ]

until_closing-fence :
    (n : ℕ) (lines : List Text) (line : Text) (more : List Text)
    → All (λ l. longest_run l < n) lines
    → closes n line ≡ true
    → until_closing n (lines ++ line ∷ more) ≡ some lines
unfolding until_closing
until_closing-fence n [] line more h c = rw (c) refl
until_closing-fence n (l ∷ ls) line more (h, hs) c =
    let short = leading-skip_spaces l in
    let open_line : closes n l ≡ false = ground arith in
    rw (open_line, until_closing-fence n ls line more hs c) refl

leading-repeated : (n : ℕ) (t : Text) → leading t ≡ 0 → leading (repeated tick n ++ t) ≡ n
leading-repeated zero t h = h
leading-repeated (suc n) t h = ap suc (leading-repeated n t h)

drop-repeated : (n : ℕ) (t : Text) → drop n (repeated tick n ++ t) ≡ t
drop-repeated zero t = refl
drop-repeated (suc n) t = drop-repeated n t

-- A text of one line.
abbrev pub IsLine : Text → Type 0
IsLine t = All (λ c. nat_beq c newline ≡ false) t

IsLine-append : (s t : Text) → IsLine s → IsLine t → IsLine (s ++ t)
IsLine-append [] t h k = k
IsLine-append (c ∷ s) t (e, h) k = (e, IsLine-append s t h k)

IsLine-repeated : (n : ℕ) → IsLine (repeated tick n)
IsLine-repeated zero = tt
IsLine-repeated (suc n) = (refl, IsLine-repeated n)

split-line : (t : Text) → IsLine t → split newline t ≡ t ∷ []
unfolding split
split-line [] h = refl
split-line (c ∷ t) (e, h) = rw (e, split-line t h) refl

skip_spaces-repeated : (n : ℕ) → skip_spaces (repeated tick n) ≡ repeated tick n
skip_spaces-repeated zero = refl
skip_spaces-repeated (suc n) = refl

closes-repeated : (n : ℕ) → closes n (repeated tick n) ≡ true
closes-repeated n =
    let run : leading (repeated tick n) ≡ n =
      subst (λ t. leading t ≡ n) (append-nil (repeated tick n)) (leading-repeated n [] refl) in
    rw (skip_spaces-repeated n, run) (ground arith)

read_lines-block :
    (n : ℕ) (first : Text) (lines read : List Text)
    → leading first ≡ n
    → 3 ≤ n
    → until_closing n lines ≡ some read
    → read_lines (first ∷ lines) ≡ some (drop n first, join (newline ∷ []) read)
read_lines-block n first lines read h long closed =
    if_true (λ r. r ≡ some (drop n first, join (newline ∷ []) read)) (leb 3 (leading first)) _ _
      (ground arith) (rw (h, closed) refl)

regroup : (x : ℕ) (a b c d : Text) → (a ++ x ∷ (b ++ x ∷ c)) ++ d ≡ a ++ x ∷ (b ++ x ∷ (c ++ d))
regroup x a b c d =
    append_assoc a (x ∷ (b ++ x ∷ c)) d ∙ ap (λ t. a ++ x ∷ t) (append_assoc b (x ∷ c) d)

shorter_runs :
    (j k : ℕ) (ls : List Text)
    → j < k
    → All (λ l. longest_run l ≤ j) ls
    → All (λ l. longest_run l < k) ls
shorter_runs j k [] lt h = tt
shorter_runs j k (l ∷ ls) lt (h, hs) = (omega (arith, lt, h), shorter_runs j k ls lt hs)

fence-lines :
    (language content rest : Text)
    → IsLine language
    → let ticks = repeated tick (fence_length content) in
      split newline (fence language content ++ newline ∷ rest)
      ≡ (ticks ++ language) ∷ (split newline content ++ ticks ∷ split newline rest)
unfolding fence
fence-lines language content rest one =
    let k = fence_length content in
    let ticks = repeated tick k in
    let end = ticks ++ newline ∷ rest in
    let first =
      split-line (ticks ++ language) (IsLine-append ticks language (IsLine-repeated k) one) in
    let closing = split-line ticks (IsLine-repeated k) in
    let shape : fence language content ++ newline ∷ rest
        ≡ (ticks ++ language) ++ newline ∷ (content ++ newline ∷ end) =
      regroup newline (ticks ++ language) content ticks (newline ∷ rest) in
    ap (split newline) shape
    ∙ split-append newline (ticks ++ language) (content ++ newline ∷ end)
    ∙ ap (λ p. p ++ split newline (content ++ newline ∷ end)) first
    ∙ ap (λ p. (ticks ++ language) ∷ p)
        (split-append newline content end
          ∙ ap (λ p. split newline content ++ p)
              (split-append newline ticks rest ∙ ap (λ p. p ++ split newline rest) closing))

-- A block that the renderer fences is read back, language and content, whatever follows it: no
-- line of the content ends it.
pub read_block-fence :
    (language content rest : Text)
    → IsLine language
    → leading language ≡ 0
    → read_block (fence language content ++ newline ∷ rest) ≡ some (language, content)
unfolding read_block
read_block-fence language content rest one plain =
    let k = fence_length content in
    let (l, ls, h, a, b, all) = split-runs content in
    let short : All (λ m. longest_run m < k) (split newline content) =
      rw (h) (shorter_runs (longest_run content) k (l ∷ ls) (omega arith) (b, all)) in
    let read =
      read_lines-block k (repeated tick k ++ language)
        (split newline content ++ repeated tick k ∷ split newline rest) (split newline content)
        (leading-repeated k language plain) (omega arith)
        (until_closing-fence k (split newline content) (repeated tick k) (split newline rest) short
          (closes-repeated k)) in
    ap read_lines (fence-lines language content rest one)
    ∙ read
    ∙ rw (drop-repeated k language, join-split newline content) refl
