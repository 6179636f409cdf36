-- ===== src/Prelude/Substrings.antt =====
-- `startsWith`, `endsWith`, `includes` and `lastIndexOf` of texts, and `slice` from the end.
use Prim.Native.Nat.{ℕ, suc, ◌-◌}
use mathlib.Core.Bool.{Bool, true, false, ◌&&◌, ◌||◌}
use mathlib.Core.List.{List, [], ◌∷◌, reverse}
use mathlib.Core.Option.{Option, none, some}
use dumbwaystodie.Prelude.Tests.{if◌then◌else◌, nat_beq}
use dumbwaystodie.Prelude.Lists.{length, take}
use dumbwaystodie.Prelude.Texts.{Text}

-- `t.startsWith(s)` is `starts_with s t`, and so on: the text that is looked for comes first.
unfoldable pub starts_with : Text → Text → Bool
starts_with [] t = true
starts_with (c ∷ s) [] = false
starts_with (c ∷ s) (d ∷ t) = nat_beq c d && starts_with s t

unfoldable pub ends_with : Text → Text → Bool
unfolding starts_with
ends_with s t = starts_with (reverse s) (reverse t)

unfoldable pub includes : Text → Text → Bool
unfolding starts_with
includes s [] = starts_with s []
includes s (c ∷ t) = starts_with s (c ∷ t) || includes s t

unfoldable pub last_index_of : ℕ → Text → Option ℕ
last_index_of c [] = none
last_index_of c (d ∷ t) = elim (last_index_of c t) [
  | some i ↦ some (suc i)
  | none ↦ if nat_beq c d then some 0 else none
]

-- `list.slice(0, -n)`
unfoldable pub drop_end {ℓ} : {A : Type ℓ} → ℕ → List A → List A
drop_end n xs = take (length xs - n) xs

abbrev pub last {ℓ} : {A : Type ℓ} → List A → Option A
last [] = none
last (x ∷ []) = some x
last (x ∷ y ∷ xs) = last (y ∷ xs)
