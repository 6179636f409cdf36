-- ===== src/Secrets/Tests.antt =====
-- The filter of secretFilter.ts on paths.
use dumbwaystodie.Prelude.{
  ℕ, ◌∷◌, true, false, some, [], Text, lit, ◌≡◌, refl, starts_with, ends_with, includes,
  last_index_of, drop_end,
}
use dumbwaystodie.Secrets.Paths.{inspect_path-under}
use dumbwaystodie.Secrets.{
  inspect_path, inspect_segments, segments_of, pieces_of, inspect_basename, to_lower, extension_of,
  verdict_of,
}

test_pem : (inspect_path (λ c. []) (lit "src/Server.PEM")).blocked ≡ true
unfolding inspect_path inspect_segments segments_of pieces_of inspect_basename to_lower extension_of
    starts_with ends_with includes last_index_of drop_end verdict_of
test_pem = refl

test_plain : (inspect_path (λ c. []) (lit "src/.gitignore")).blocked ≡ false
unfolding inspect_path inspect_segments segments_of pieces_of inspect_basename to_lower extension_of
    starts_with ends_with includes last_index_of drop_end verdict_of
test_plain = refl

test_directory :
    (inspect_path (λ c. []) (lit "\\home\\.SSH\\config")).reason
    ≡ some (lit "path is inside a .SSH directory")
unfolding inspect_path inspect_segments segments_of pieces_of inspect_basename to_lower extension_of
    starts_with ends_with includes last_index_of drop_end verdict_of
test_directory = refl

abbrev ascii : ℕ → Text
ascii c = c ∷ []

id_rsa_is_blocked : (inspect_path ascii (lit "keys/id_rsa")).blocked ≡ true
unfolding inspect_path inspect_segments segments_of pieces_of inspect_basename to_lower extension_of
    starts_with ends_with includes last_index_of drop_end verdict_of
id_rsa_is_blocked = refl

inspect_path-under_example : (inspect_path ascii (lit "home/me/keys/id_rsa")).blocked ≡ true
inspect_path-under_example =
    inspect_path-under ascii (lit "home/me") (lit "keys/id_rsa") b'/' refl id_rsa_is_blocked
