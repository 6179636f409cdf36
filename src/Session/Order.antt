-- ===== src/Session/Order.antt =====
-- The order of workspace folders and the fingerprint of persistence.ts.
use dumbwaystodie.Prelude.{
  true, false, List, [], ◌∷◌, map, Text, lit, join, ◌≡◌, refl, ap, ◌∙◌, arith,
}
use mathlib.Core.List.{Permᴰ}
use dumbwaystodie.Protocol.Context.{WorkspaceRootRef}
use dumbwaystodie.Session.{leb_text, insert_text, sort, fingerprint}

leb_text_total : (a b : Text) → leb_text a b ≡ false → leb_text b a ≡ true
unfolding leb_text
leb_text_total [] b h = absurd cc
leb_text_total (c ∷ a) [] h = refl
leb_text_total (c ∷ a) (d ∷ b) h = ground (arith, leb_text_total a b)

leb_text_antisym : (a b : Text) → leb_text a b ≡ true → leb_text b a ≡ true → a ≡ b
unfolding leb_text
leb_text_antisym [] [] p q = refl
leb_text_antisym [] (d ∷ b) p q = absurd cc
leb_text_antisym (c ∷ a) [] p q = absurd cc
leb_text_antisym (c ∷ a) (d ∷ b) p q = ground (arith, leb_text_antisym a b)

leb_text_trans : (a b c : Text) → leb_text a b ≡ true → leb_text b c ≡ true → leb_text a c ≡ true
unfolding leb_text
leb_text_trans [] b c p q = refl
leb_text_trans (x ∷ a) [] c p q = absurd cc
leb_text_trans (x ∷ a) (y ∷ b) [] p q = absurd cc
leb_text_trans (x ∷ a) (y ∷ b) (z ∷ c) p q = ground (arith, leb_text_trans a b c)

insert-insert :
    (x y : Text) (l : List Text) → insert_text x (insert_text y l) ≡ insert_text y (insert_text x l)
unfolding insert_text
insert-insert x y [] = ground (arith, leb_text_total x y, leb_text_antisym x y)
insert-insert x y (z ∷ l) = ground (
  arith,
  leb_text_total x y,
  leb_text_antisym x y,
  leb_text_total x z,
  leb_text_total y z,
  leb_text_trans x y z,
  leb_text_trans y x z,
  insert-insert x y l,
)

paths : List WorkspaceRootRef → List Text
paths roots = map (λ (r : WorkspaceRootRef). r.path) roots

sort-Perm : {a b : List WorkspaceRootRef} → Permᴰ a b → sort (paths a) ≡ sort (paths b)
unfolding sort paths
sort-Perm Permᴰ.nil = refl
sort-Perm (Permᴰ.cons e p) = cc (e, sort-Perm p)
sort-Perm (Permᴰ.swap {a} {b} {a'} {b'} {l} e f) =
    insert-insert a.path b.path (sort (paths l)) ∙ cc (e, f)
sort-Perm (Permᴰ.trans p q) = sort-Perm p ∙ sort-Perm q

-- Two windows with the same folders have the same fingerprint, in whatever order they come.
pub fingerprint-Perm : {a b : List WorkspaceRootRef} → Permᴰ a b → fingerprint a ≡ fingerprint b
unfolding fingerprint paths
fingerprint-Perm p = ap (join (lit "|")) (sort-Perm p)
