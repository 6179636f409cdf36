-- ===== src/Secrets.antt =====
-- The filter of packages/extension/src/security/secretFilter.ts: which paths hold secrets, by their
-- names. `fold` is `toLowerCase` on a code unit that is not ASCII.
mod Paths
mod Tests
use dumbwaystodie.Prelude.{
  ℕ, ◌+◌, Bool, true, false, none, some, Option, List, [], ◌∷◌, ◌++◌, ◌&&◌, ◌||◌, Text, lit, leb,
  ltb, nat_beq, if◌then◌else◌, ◌==◌, nat_eq, list_eq, length, find, keep, any, drop, drop_end, last,
  starts_with, ends_with, includes, last_index_of,
}

pub record SecretFilterVerdict : Type 0 where
  pub blocked : Bool
  pub reason : Option Text

abbrev pub secret_directories : List Text
secret_directories = lit ".ssh" ∷ lit ".aws" ∷ lit ".gnupg" ∷ lit ".docker" ∷ []

abbrev pub secret_basenames : List Text
secret_basenames =
    lit "id_rsa"
    ∷ lit "id_dsa"
    ∷ lit "id_ecdsa"
    ∷ lit "id_ed25519"
    ∷ lit "credentials"
    ∷ lit "secrets"
    ∷ lit ".npmrc"
    ∷ lit ".netrc"
    ∷ lit ".pgpass"
    ∷ []

abbrev pub secret_extensions : List Text
secret_extensions =
    lit ".pem" ∷ lit ".key" ∷ lit ".p12" ∷ lit ".pfx" ∷ lit ".keystore" ∷ lit ".jks" ∷ []

-- `set.has(text)`
abbrev pub among : List Text → Text → Bool
among set t = any (λ s. s == t) set

abbrev pub is_separator : ℕ → Bool
is_separator c = nat_beq c b'/' || nat_beq c b'\\'

abbrev pub cons_first : ℕ → List Text → List Text
cons_first c [] = (c ∷ []) ∷ []
cons_first c (s ∷ ss) = (c ∷ s) ∷ ss

-- The pieces between separators. Those between adjacent separators are empty, and `segments_of`
-- leaves them out.
unfoldable pub pieces_of : Text → List Text
pieces_of [] = [] ∷ []
pieces_of (c ∷ cs) =
    let rest = pieces_of cs in if is_separator c then [] ∷ rest else cons_first c rest

abbrev pub is_present : Text → Bool
is_present s = ltb 0 (length s)

unfoldable pub segments_of : Text → List Text
unfolding pieces_of
segments_of path = keep is_present (pieces_of path)

-- What of the name decides, once it is in lower case.
abbrev pub extension_from : Text → Option ℕ → Text
extension_from name none = []
extension_from name (some dot) = if leb dot 0 then [] else drop dot name

module _ (fold : ℕ → Text) where
  unfoldable pub to_lower : Text → Text
  to_lower [] = []
  to_lower (c ∷ cs) =
      let rest = to_lower cs in
      if leb b'A' c && leb c b'Z'
      then (c + 32) ∷ rest
      else if ltb c 128
      then c ∷ rest
      else fold c ++ rest

  unfoldable pub extension_of : Text → Text
  unfolding to_lower last_index_of
  extension_of name = to_lower (extension_from name (last_index_of b'.' name))

  unfoldable pub inspect_basename : Text → SecretFilterVerdict
  unfolding extension_of starts_with ends_with includes drop_end
  inspect_basename basename =
      let without_pub = if ends_with (lit ".pub") basename then drop_end 4 basename else basename in
      if basename == lit ".env" || starts_with (lit ".env.") basename
      then record { blocked = true; reason = some (lit "environment files can hold credentials") }
      else if among secret_basenames without_pub
      then record {
        blocked = true;
        reason = some (lit "\"" ++ basename ++ lit "\" is a known credential filename");
      }
      else if among secret_extensions (extension_of basename)
      then record {
        blocked = true;
        reason =
            some
              (lit "\"" ++ extension_of basename ++ lit "\" files commonly contain private keys");
      }
      else if includes (lit "credential") basename || includes (lit "secret") basename
      then record {
        blocked = true;
        reason = some (lit "\"" ++ basename ++ lit "\" looks like a credential file");
      }
      else record { blocked = false; reason = none }

  abbrev pub is_secret_directory : Text → Bool
  is_secret_directory segment = among secret_directories (to_lower segment)

  abbrev pub basename_of : List Text → Text
  basename_of segments = elim (last segments) [ none ↦ [] | some s ↦ to_lower s ]

  -- The verdict where a folder on the way is secret, or where the name decides.
  unfoldable pub verdict_of : Option Text → Text → SecretFilterVerdict
  unfolding inspect_basename
  verdict_of (some segment) basename = record {
    blocked = true;
    reason = some (lit "path is inside a " ++ segment ++ lit " directory");
  }
  verdict_of none basename = inspect_basename basename

  unfoldable pub inspect_segments : List Text → SecretFilterVerdict
  unfolding verdict_of drop_end to_lower
  inspect_segments segments =
      verdict_of (find is_secret_directory (drop_end 1 segments)) (basename_of segments)

  unfoldable pub inspect_path : Text → SecretFilterVerdict
  unfolding inspect_segments segments_of
  inspect_path path = inspect_segments (segments_of path)

  unfoldable pub is_likely_secret_path : Text → Bool
  unfolding inspect_path
  is_likely_secret_path path = (inspect_path path).blocked
