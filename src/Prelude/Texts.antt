-- ===== src/Prelude/Texts.antt =====
-- Texts as lists of UTF-16 code units: literals, `split`, `join` and the decimal form of a number.
use Prim.Native.Nat.{ℕ, zero, suc, ◌+◌, ◌/◌, ◌%◌}
use Prim.Native.Char.{code}
use Prim.Native.String.{String}
use mathlib.Core.Path.{◌≡◌, refl, ap, ◌∙◌}
use mathlib.Core.Logic.{inl, inr}
use mathlib.Core.List.{List, [], ◌∷◌, ◌++◌, reverse}
use mathlib.Core.Bool.{Bool, ◌&&◌, ◌||◌}
use native.Mathlib.Omega.{arith}
use dumbwaystodie.Prelude.Tests.{leb, if◌then◌else◌, nat_beq, Bool-cases}
use dumbwaystodie.Prelude.Equality.{nat_beq_iff}

abbrev pub Text : Type 0
Text = List ℕ

-- The code units of a literal, which holds no character above U+FFFF.
abbrev pub lit : String → Text
lit String.[] = []
lit (String.◌∷◌ c s) = code c ∷ lit s

abbrev pub newline : ℕ
newline = 10

abbrev cons_head : ℕ → List Text → List Text
cons_head c [] = (c ∷ []) ∷ []
cons_head c (l ∷ ls) = (c ∷ l) ∷ ls

-- `text.split(separator)`, for a separator of one code unit.
unfoldable pub split : ℕ → Text → List Text
split sep [] = [] ∷ []
split sep (c ∷ cs) =
    let rest = split sep cs in if nat_beq c sep then [] ∷ rest else cons_head c rest

-- `parts.join(separator)`
unfoldable pub join : Text → List Text → Text
join sep [] = []
join sep (l ∷ []) = l
join sep (l ∷ m ∷ ls) = l ++ sep ++ join sep (m ∷ ls)

-- The white space that `trim` and `\s` know.
abbrev pub is_space : ℕ → Bool
is_space c =
    (leb 9 c && leb c 13)
    || nat_beq c 32
    || nat_beq c 160
    || nat_beq c 0x1680
    || (leb 0x2000 c && leb c 0x200a)
    || nat_beq c 0x2028
    || nat_beq c 0x2029
    || nat_beq c 0x202f
    || nat_beq c 0x205f
    || nat_beq c 0x3000
    || nat_beq c 0xfeff

unfoldable pub trim_start : Text → Text
trim_start [] = []
trim_start (c ∷ cs) = let rest = trim_start cs in if is_space c then rest else c ∷ cs

unfoldable pub trim : Text → Text
unfolding trim_start
trim t = reverse (trim_start (reverse (trim_start t)))

trim_runs : trim (lit " \n a b\t") ≡ lit "a b"
unfolding trim
trim_runs = refl

digits_from : ℕ → ℕ → Text → Text
digits_from zero n acc = acc
digits_from (suc fuel) n acc =
    let longer = digits_from fuel (n / 10) ((b'0' + n % 10) ∷ acc) in
    if nat_beq (n / 10) 0 then (b'0' + n % 10) ∷ acc else longer

-- A number in a template string. One round for each digit, and a number has no more digits than
-- its value plus one.
unfoldable pub decimal : ℕ → Text
unfolding digits_from
decimal n = digits_from (suc n) n []

decimal_runs : decimal 12_000 ≡ lit "12000"
unfolding decimal
decimal_runs = refl

split-cases : (sep : ℕ) (t : Text) → (l : Text) × (ls : List Text) × (split sep t ≡ l ∷ ls)
unfolding split
split-cases sep [] = ([], [], refl)
split-cases sep (c ∷ cs) =
    let (l, ls, h) = split-cases sep cs in
    elim (Bool-cases (nat_beq c sep)) [
      | inl e ↦ ([], l ∷ ls, rw (e, h))
      | inr e ↦ (c ∷ l, ls, rw (e, h))
    ]

join-cons_head :
    (sep : Text) (c : ℕ) (l : Text) (ls : List Text)
    → join sep (cons_head c (l ∷ ls)) ≡ c ∷ join sep (l ∷ ls)
unfolding join
join-cons_head sep c l [] = refl
join-cons_head sep c l (m ∷ ls) = refl

-- Joining the lines of a text gives the text back.
pub join-split : (sep : ℕ) (t : Text) → join (sep ∷ []) (split sep t) ≡ t
unfolding split join
join-split sep [] = refl
join-split sep (c ∷ cs) =
    let (l, ls, h) = split-cases sep cs in
    let ih : join (sep ∷ []) (l ∷ ls) ≡ cs = rw (← h) (join-split sep cs) in
    elim (Bool-cases (nat_beq c sep)) [
      | inl e ↦ rw (e, h) (ground (arith, ih, nat_beq_iff c sep))
      | inr e ↦ rw (e, h) (join-cons_head (sep ∷ []) c l ls ∙ ap (◌∷◌ c) ih)
    ]

cons_head-append :
    (c : ℕ) (ps qs : List Text)
    → (l : Text) × (ls : List Text) × (ps ≡ l ∷ ls)
    → cons_head c (ps ++ qs) ≡ cons_head c ps ++ qs
cons_head-append c [] qs h = ground arith
cons_head-append c (p ∷ ps) qs h = refl

-- Two texts around a separator have the pieces of both.
pub split-append : (sep : ℕ) (s t : Text) → split sep (s ++ sep ∷ t) ≡ split sep s ++ split sep t
unfolding split
split-append sep [] t = let same = (nat_beq_iff sep sep).1 refl in rw (same) refl
split-append sep (c ∷ cs) t = elim (Bool-cases (nat_beq c sep)) [
  | inl e ↦ rw (e, split-append sep cs t) refl
  | inr e ↦
      rw (e, split-append sep cs t)
        (cons_head-append c (split sep cs) (split sep t) (split-cases sep cs))
]
