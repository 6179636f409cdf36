-- ===== src/Ledger/Notes.antt =====
-- How the notes of ledger.ts end: an edit ends in a fence, a description does not.
use dumbwaystodie.Prelude.{
  ℕ, Bool, false, nat_beq, ◌++◌, List, [], ◌∷◌, Text, newline, join, list_eq, nat_eq, ◌≡◌, refl, ap,
  sym, ◌∙◌,
}
use dumbwaystodie.Context.Markdown.{tick}
use dumbwaystodie.Ledger.{described_lines, describe_instead_of_sending}

-- The text ends in a backtick.
abbrev pub ends_tick : Text → Bool
ends_tick [] = false
ends_tick (c ∷ []) = nat_beq c tick
ends_tick (c ∷ d ∷ t) = ends_tick (d ∷ t)

-- A text that does not end in a backtick, whatever stands before it.
abbrev pub EndsPlain : Text → Type 0
EndsPlain t = (c : ℕ) × (rest : Text) × (t ≡ c ∷ rest) × (ends_tick t ≡ false)

pub append-EndsPlain : (p t : Text) → EndsPlain t → EndsPlain (p ++ t)
append-EndsPlain [] t h = h
append-EndsPlain (b ∷ []) t (c, rest, e, h) = rw (e) (b, c ∷ rest, refl, ap ends_tick (sym e) ∙ h)
append-EndsPlain (b ∷ d ∷ p) t h =
    let (c, rest, e, k) = append-EndsPlain (d ∷ p) t h in (b, d ∷ p ++ t, refl, k)

pub ends_plain : (t : Text) → EndsPlain t → ends_tick t ≡ false
ends_plain t (c, rest, e, h) = h

abbrev LastPlain : List Text → Type 0
LastPlain [] = ⊥
LastPlain (l ∷ []) = EndsPlain l
LastPlain (l ∷ m ∷ ls) = LastPlain (m ∷ ls)

join-EndsPlain : (sep : Text) (ls : List Text) → LastPlain ls → EndsPlain (join sep ls)
unfolding join
join-EndsPlain sep [] h = absurd h
join-EndsPlain sep (l ∷ []) h = h
join-EndsPlain sep (l ∷ m ∷ ls) h =
    append-EndsPlain (l ++ sep) (join sep (m ∷ ls)) (join-EndsPlain sep (m ∷ ls) h)

pub described-EndsPlain :
    (path content : Text) → EndsPlain (describe_instead_of_sending path content)
unfolding describe_instead_of_sending
described-EndsPlain path content =
    let plain : LastPlain (described_lines path content) = (_, _, refl, refl) in
    join-EndsPlain (newline ∷ []) (described_lines path content) plain
