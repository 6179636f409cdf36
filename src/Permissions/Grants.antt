-- ===== src/Permissions/Grants.antt =====
-- What a remembered approval of PermissionManager.ts covers.
use dumbwaystodie.Prelude.{
  ℕ, Bool, false, not, ◌&&◌, ◌||◌, some, List, [], ◌∷◌, ◌++◌, Text, any, ◌==◌, nat_eq, list_eq, ◌≡◌,
  ◌≢◌, refl, ◌⊎◌, inl, inr, arith, beq_refl,
}
use dumbwaystodie.Protocol.Wire.{write, destructive}
use dumbwaystodie.Protocol.Wire.{LearningMode, strict_coach}
use dumbwaystodie.Permissions.{
  allow, deny, PermissionQuery, ApprovalOutcome, mode_policies, grant_key, includes, decide,
  unique_from, remember, conclude,
}

-- No unit of the text is a colon.
abbrev has_colon : Text → Bool
has_colon = any (λ c. c == b':')

split_at_colon :
    (a b s t : Text)
    → has_colon a ≡ false
    → has_colon b ≡ false
    → a ++ (b':' ∷ s) ≡ b ++ (b':' ∷ t)
    → (a ≡ b) × (s ≡ t)
split_at_colon [] [] s t p q e = (refl, cc)
split_at_colon [] (d ∷ b) s t p q e = let c : b':' ≡ d = cc in absurd (ground (arith, c))
split_at_colon (c ∷ a) [] s t p q e = let d : c ≡ b':' = cc in absurd (ground (arith, d))
split_at_colon (c ∷ a) (d ∷ b) s t p q e =
    let head : c ≡ d = cc in
    let tail : a ++ (b':' ∷ s) ≡ b ++ (b':' ∷ t) = cc in
    let (same, rest) = split_at_colon a b s t (ground arith) (ground arith) tail in (cc, rest)

-- A key stands for one tool and one summary, where names of tools have no colon.
pub grant_key-injective :
    (p q : PermissionQuery)
    → has_colon p.tool ≡ false
    → has_colon q.tool ≡ false
    → grant_key p ≡ grant_key q
    → (p.tool ≡ q.tool) × (p.summary ≡ q.summary)
unfolding grant_key
grant_key-injective p q a b e =
    let (tools, rest) = split_at_colon p.tool q.tool (b':' ∷ p.summary) (b':' ∷ q.summary) a b e in
    (tools, cc)

includes-append :
    (k : Text) (a b : List Text) → includes k (a ++ b) ≡ (includes k a || includes k b)
includes-append k [] b = refl
includes-append k (x ∷ a) b = ground (arith, includes-append k a b)

includes-unique_from :
    (k : Text) (seen ks : List Text)
    → includes k (unique_from seen ks) ≡ (not (includes k seen) && includes k ks)
unfolding unique_from
includes-unique_from k seen [] = ground arith
includes-unique_from k seen (j ∷ ks) = ground (
  arith,
  includes-unique_from k seen ks,
  includes-unique_from k (j ∷ seen) ks,
  (list_eq {A = ℕ}).beq_iff j k,
)

-- Remembering a key adds that one and loses none.
pub includes-remember :
    (k key : Text) (keys : List Text)
    → includes k (remember key keys) ≡ (includes k keys || key == k)
unfolding remember
includes-remember k key keys =
    ground (arith, includes-unique_from k [] (keys ++ key ∷ []), includes-append k keys (key ∷ []))

-- In strict-coach mode nothing is written or destroyed: the user is not even asked, and no
-- remembered approval helps.
pub decide-strict :
    (keys : List Text) (q : PermissionQuery)
    → (q.permission ≡ write) ⊎ (q.permission ≡ destructive)
    → decide strict_coach keys q ≡ some deny
unfolding decide mode_policies
decide-strict keys q (inl w) = rw (w, decide) refl
decide-strict keys q (inr d) = rw (d, decide) refl

-- After "always allow" the same tool and summary are allowed without a prompt, whatever the call and
-- the mode, unless the mode denies the class of the call.
pub conclude-decide :
    (mode : LearningMode) (keys : List Text) (p q : PermissionQuery)
    → p.tool ≡ q.tool
    → p.summary ≡ q.summary
    → mode_policies mode q.permission ≢ deny
    → decide mode (conclude (some ApprovalOutcome.allow_always) keys p).1 q ≡ some allow
unfolding decide conclude grant_key
conclude-decide mode keys p q t s nd =
    ground
      (arith, includes-remember (grant_key q) (grant_key p) keys, beq_refl (grant_key q), t, s, nd)
