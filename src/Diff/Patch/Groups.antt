-- ===== src/Diff/Patch/Groups.antt =====
-- The groups of diff.ts and their windows, and whole texts with the patch between them.
use dumbwaystodie.Prelude.{
  ℕ, suc, ◌+◌, ◌-◌, ◌*◌, ◌≤◌, ◌<◌, ◌≡◌, refl, sym, ap, ◌∙◌, List, [], ◌∷◌, map, Bool, true, false,
  none, some, if◌then◌else◌, ltb, ltb→lt, leb, length, drop, Text, ◌==◌, nat_eq, list_eq, arith,
  inl, inr, Bool-cases, newline, split, join, join-split, length-drop, ◌⊎◌,
}
use dumbwaystodie.Diff.{Op, same, operations}
use dumbwaystodie.Diff.Minimal.{operations-sides, drop-suc}
use mathlib.Core.Option
use dumbwaystodie.Diff.Hunks.{
  DiffHunk, DiffResult, is_same, changed_indexes, groups_from, groups, to_index, from_index,
  hunk_of, diff_ops, diff_lines,
}
use dumbwaystodie.Diff.Patch.{patch}
use dumbwaystodie.Diff.Patch.Hunk.{Ops}
use dumbwaystodie.Diff.Patch.Applies.{same_at, same_at-drop, Covers, patch-Covers}

groups_from-join :
    (context first last k : ℕ) (ks : List ℕ)
    → leb (k - last) (context * 2) ≡ true
    → groups_from context first last (k ∷ ks) ≡ groups_from context first k ks
unfolding groups_from
groups_from-join context first last k ks h = ground arith

groups_from-open :
    (context first last k : ℕ) (ks : List ℕ)
    → leb (k - last) (context * 2) ≡ false
    → groups_from context first last (k ∷ ks) ≡ (first, last) ∷ groups_from context k k ks
unfolding groups_from
groups_from-open context first last k ks h = ground arith

List-cases : (l : List ℕ) → (l ≡ []) ⊎ ((k : ℕ) × (ks : List ℕ) × (l ≡ k ∷ ks))
List-cases [] = inl refl
List-cases (k ∷ ks) = inr (k, ks, refl)

leb→lt : (a b : ℕ) → leb a b ≡ false → b < a
leb→lt a b h = ground arith

changed_indexes-same :
    (m : ℕ) (x : Text) (rest : Ops)
    → changed_indexes m (same x ∷ rest) ≡ changed_indexes (suc m) rest
unfolding changed_indexes
changed_indexes-same m x rest = refl

changed_indexes-changed :
    (m : ℕ) (op : Op Text) (rest : Ops)
    → is_same op ≡ false
    → changed_indexes m (op ∷ rest) ≡ m ∷ changed_indexes (suc m) rest
unfolding changed_indexes
changed_indexes-changed m op rest h = ground arith

module _ (context : ℕ) (ops : Ops) where
  abbrev Quiet : ℕ → ℕ → Type 0
  Quiet a b = (i : ℕ) → a ≤ i → i < b → same_at ops i ≡ true

  drop-next :
      (m : ℕ) (op : Op Text) (rest : Ops)
      → drop m ops ≡ op ∷ rest
      → (drop (suc m) ops ≡ rest) × (same_at ops m ≡ is_same op) × (m < length ops)
  drop-next m op rest e = (
    drop-suc m ops op rest e,
    ap (same_at ops) {x = m} {y = m + 0} (omega arith)
        ∙ sym (same_at-drop m 0 ops)
        ∙ ap (λ l. same_at l 0) e,
    omega (arith, length-drop m ops, ap length e),
  )

  -- Behind the last operation nothing changes.
  quiet-end : (m : ℕ) → drop m ops ≡ [] → (i : ℕ) → m ≤ i → same_at ops i ≡ true
  quiet-end m e i h =
      ap (same_at ops) {x = i} {y = m + (i - m)} (omega arith)
      ∙ sym (same_at-drop m (i - m) ops)
      ∙ ap (λ l. same_at l (i - m)) e

  Quiet-suc : (a m : ℕ) → Quiet a m → same_at ops m ≡ true → Quiet a (suc m)
  Quiet-suc a m q h i le lt = elim (Bool-cases (i == m)) [
    | inl e ↦ ap (same_at ops) ((nat_eq.beq_iff i m).0 e) ∙ h
    | inr e ↦ q i le (ground (arith, nat_eq.beq_iff i m))
  ]

  groups_from-Covers :
      (rest : Ops) (k first last m : ℕ)
      → drop m ops ≡ rest
      → first ≤ last
      → last < m
      → last < length ops
      → k ≤ from_index context first
      → Quiet k (from_index context first)
      → Quiet (suc last) m
      → Covers context ops k (groups_from context first last (changed_indexes m rest))
  unfolding groups_from changed_indexes
  groups_from-Covers [] k first last m e p q r le before after = (
    le,
    omega arith,
    before,
    λ i lt. elim (Bool-cases (ltb i m)) [
      | inl near ↦ after i (omega arith) (ltb→lt i m near)
      | inr far ↦ quiet-end m e i (ground arith)
    ],
  )
  groups_from-Covers (same x ∷ rest) k first last m e p q r le before after =
      let (e', at, lt) = drop-next m (same x) rest e in
      rw (changed_indexes-same m x rest) (
        groups_from-Covers rest k first last (suc m) e' p (omega arith) r le before
          (Quiet-suc (suc last) m after at))
  groups_from-Covers (op ∷ rest) k first last m e p q r le before after =
      let (e', at, lt) = drop-next m op rest e in
      rw (changed_indexes-changed m op rest refl) elim (Bool-cases (leb (m - last) (context * 2))) [
        | inl near ↦
            rw (groups_from-join context first last m (changed_indexes (suc m) rest) near) (
              groups_from-Covers rest k first m (suc m) e' (omega arith) (omega arith) lt le before
                (λ i a b. absurd (omega arith)))
        | inr far ↦ rw (groups_from-open context first last m (changed_indexes (suc m) rest) far) (
          le,
          omega arith,
          before,
          groups_from-Covers rest (suc (to_index context ops last)) m m (suc m) e' (omega arith)
              (omega arith) lt (omega (arith, leb→lt (m - last) (context * 2) far))
              (λ i a b. after i (omega arith) (omega arith)) (λ i a b. absurd (omega arith)),
        )
      ]

  groups-Covers :
      (rest : Ops) (m : ℕ)
      → drop m ops ≡ rest
      → Quiet 0 m
      → Covers context ops 0 (groups context (changed_indexes m rest))
  unfolding groups changed_indexes
  groups-Covers [] m e q = λ i h. elim (Bool-cases (ltb i m)) [
    | inl near ↦ q i h (ltb→lt i m near)
    | inr far ↦ quiet-end m e i (ground arith)
  ]
  groups-Covers (same x ∷ rest) m e q =
      let (e', at, lt) = drop-next m (same x) rest e in
      rw (changed_indexes-same m x rest) (groups-Covers rest (suc m) e' (Quiet-suc 0 m q at))
  groups-Covers (op ∷ rest) m e q =
      let (e', at, lt) = drop-next m op rest e in
      (groups_from-Covers rest 0 m m (suc m) e' (omega arith) (omega arith) lt (omega arith)
        (λ i a b. q i a (omega arith)) (λ i a b. absurd (omega arith)))

diff_ops-hunks :
    (context : ℕ) (ops : Ops)
    → (diff_ops context ops).hunks
      ≡ map (hunk_of context ops) (groups context (changed_indexes 0 ops))
unfolding diff_ops
diff_ops-hunks context ops = elim (List-cases (changed_indexes 0 ops)) [
  | inl e ↦ rw e refl
  | inr (k, ks, e) ↦ rw e (ground arith)
]

abbrev hunks_of : DiffResult → List DiffHunk
hunks_of r = r.hunks

some_of_guard {ℓ} :
    {A : Type ℓ} (b : Bool) (x r : A) → (if b then none else some x) ≡ some r → x ≡ r
some_of_guard b x r h = ground arith

-- Applied to the old text, the diff gives the new one, whatever the number of context lines.
pub diff_lines-patch :
    (before after : Text) (context : ℕ) (r : DiffResult)
    → diff_lines before after context ≡ some r
    → Option.map (join (newline ∷ [])) (patch (split newline before) 1 1 r.hunks) ≡ some after
unfolding diff_lines
diff_lines-patch before after context r h =
    let old = split newline before in
    let new = split newline after in
    let ops = operations old new in
    let (olds, news) = operations-sides old new in
    let same_hunks = ap hunks_of (sym (some_of_guard _ _ r h)) ∙ diff_ops-hunks context ops in
    let fits =
      patch-Covers context ops 0 _
        (groups-Covers context ops ops 0 refl (λ i a b. absurd (omega arith))) in
    let applied : patch old 1 1 r.hunks ≡ some new =
      ap (patch old 1 1) same_hunks ∙ (rw (olds, news) at fits) in
    ap (Option.map (join (newline ∷ []))) applied ∙ ap some (join-split newline after)
