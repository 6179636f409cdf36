-- ===== src/Search/Matches.antt =====
-- What the search of search.ts finds, against the matching lines of the text.
use dumbwaystodie.Prelude.{
  ℕ, suc, zero, ◌-◌, max, Bool, none, some, Option, List, [], ◌∷◌, inl, inr, Text, leb, Bool-cases,
  take, keep, map, includes, ◌≡◌, refl, sym, ap, ◌∙◌, arith,
}
use dumbwaystodie.Search.{
  TextMatch, make_preview, split_lines, cased, or_false, scan, find_matches_in_text,
}

-- The lines with their numbers.
abbrev pub numbered : ℕ → List Text → List (ℕ × Text)
numbered n [] = []
numbered n (line ∷ lines) = (suc n, line) ∷ numbered (suc n) lines

abbrev pub match_of : ℕ × Text → TextMatch
match_of (n, line) = record { line = n; preview = make_preview line }

-- At most the limit; a limit of zero is read as one.
abbrev pub limited : Option ℕ → List TextMatch → List TextMatch
limited none matches = matches
limited (some limit) matches = take (max 1 limit) matches

take-none : (n : ℕ) → take {A = TextMatch} n [] ≡ []
take-none zero = refl
take-none (suc n) = refl

module _ (fold : ℕ → Text) (sensitive : Bool) (needle : Text) where
  abbrev pub is_hit : ℕ × Text → Bool
  is_hit (n, line) = includes needle (cased fold sensitive line)

  abbrev pub hits : ℕ → List Text → List TextMatch
  hits index lines = map match_of (keep is_hit (numbered index lines))

  scan-unlimited :
      (found index : ℕ) (lines : List Text)
      → scan fold sensitive needle none found index lines ≡ hits index lines
  unfolding scan
  scan-unlimited found index [] = refl
  scan-unlimited found index (line ∷ lines) =
      elim (Bool-cases (includes needle (cased fold sensitive line))) [
        | inl e ↦ rw (e, scan-unlimited (suc found) (suc index) lines) refl
        | inr e ↦ rw (e, scan-unlimited found (suc index) lines) refl
      ]

  scan-limited :
      (limit found index : ℕ) (lines : List Text)
      → scan fold sensitive needle (some limit) found index lines
        ≡ take (max 1 (limit - found)) (hits index lines)
  unfolding scan
  scan-limited limit found index [] = sym (take-none (max 1 (limit - found)))
  scan-limited limit found index (line ∷ lines) =
      elim (Bool-cases (includes needle (cased fold sensitive line))) [
        | inl e ↦ elim (Bool-cases (leb limit (suc found))) [
          | inl f ↦ let one : max 1 (limit - found) ≡ 1 = ground arith in rw (e, f, one) refl
          | inr f ↦
              let more : max 1 (limit - found) ≡ suc (max 1 (limit - suc found)) = ground arith in
              rw (e, f, more, scan-limited limit (suc found) (suc index) lines) refl
        ]
        | inr e ↦ rw (e, scan-limited limit found (suc index) lines) refl
      ]

-- The matches are those of the lines that hold the query, in order and with their numbers, up to
-- the limit, where a limit of zero counts as one, for a query that is not empty.
pub find_matches_in_text-limited :
    (fold : ℕ → Text) (content : Text) (c : ℕ) (query : Text) (case_sensitive : Option Bool)
    (limit : Option ℕ)
    → let sensitive = or_false case_sensitive in
      find_matches_in_text fold content (c ∷ query) case_sensitive limit
      ≡ limited limit
          (hits fold sensitive (cased fold sensitive (c ∷ query)) 0 (split_lines content))
unfolding find_matches_in_text
find_matches_in_text-limited fold content c query case_sensitive none =
    scan-unlimited fold _ _ 0 0 (split_lines content)
find_matches_in_text-limited fold content c query case_sensitive (some limit) =
    let sensitive = or_false case_sensitive in
    let needle = cased fold sensitive (c ∷ query) in
    let all : limit - 0 ≡ limit = omega arith in
    scan-limited fold sensitive needle limit 0 0 (split_lines content)
    ∙ ap (λ n. take (max 1 n) (hits fold sensitive needle 0 (split_lines content))) all
