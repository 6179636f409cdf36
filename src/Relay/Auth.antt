-- ===== src/Relay/Auth.antt =====
-- Credentials of packages/relay/src/auth.ts. `hmac` stands for HMAC-SHA256 in hexadecimal, as
-- node:crypto computes it, and is any function of a key and a text.
use dumbwaystodie.Prelude.{
  ℕ, ◌+◌, ◌-◌, ◌*◌, ◌/◌, ◌%◌, Bool, true, false, ◌&&◌, List, [], ◌∷◌, ◌++◌, Text, lit, length,
  if◌then◌else◌, ltb, leb, ◌==◌, nat_eq, list_eq, ◌≡◌, ◌↔◌, sym, refl, ap, ◌∙◌, arith, All, inl,
  inr, ◌⊎◌, ◌≤◌, ◌<◌, Option, none, some, not, Bool-cases, if_both, lt→ltb,
}
use dumbwaystodie.Protocol.Wire.{AdapterKind, editor, provider, browser, mcp}

kind_text : AdapterKind → Text
kind_text editor = lit "editor"
kind_text provider = lit "provider"
kind_text browser = lit "browser"
kind_text mcp = lit "mcp"

unfoldable pub derive_grant : (Text → Text → Text) → Text → AdapterKind → Text
unfolding kind_text
derive_grant hmac master kind = hmac master (lit "dwtd-grant:" ++ kind_text kind)

-- `Buffer.from(text, "utf8")`: a surrogate pair takes four bytes, and a lone surrogate becomes U+FFFD.
abbrev is_high : ℕ → Bool
is_high c = leb 0xd800 c && leb c 0xdbff

abbrev is_low : ℕ → Bool
is_low c = leb 0xdc00 c && leb c 0xdfff

encode_unit : ℕ → List ℕ
encode_unit c =
    if ltb c 0x80
    then c ∷ []
    else if ltb c 0x800
    then (0xc0 + c / 64) ∷ (0x80 + c % 64) ∷ []
    else if is_high c
    then 0xef ∷ 0xbf ∷ 0xbd ∷ []
    else if is_low c
    then 0xef ∷ 0xbf ∷ 0xbd ∷ []
    else (0xe0 + c / 4096) ∷ (0x80 + c / 64 % 64) ∷ (0x80 + c % 64) ∷ []

encode_pair : ℕ → ℕ → List ℕ
encode_pair high low =
    let point = 0x10000 + (high - 0xd800) * 1024 + (low - 0xdc00) in
    (0xf0 + point / 0x40000)
    ∷ (0x80 + point / 4096 % 64)
    ∷ (0x80 + point / 64 % 64)
    ∷ (0x80 + point % 64)
    ∷ []

unfoldable pub utf8 : Text → List ℕ
unfolding encode_unit encode_pair
utf8 [] = []
utf8 (c ∷ []) = encode_unit c
utf8 (c ∷ d ∷ t) =
    let pair = utf8 t in
    let rest = utf8 (d ∷ t) in
    if is_high c && is_low d then encode_pair c d ++ pair else encode_unit c ++ rest

-- `timingSafeEqual` of node:crypto, which throws where it gives `none`.
unfoldable timing_safe_equal : List ℕ → List ℕ → Option Bool
timing_safe_equal a b = if length a == length b then some (a == b) else none

unfoldable compare_bytes : List ℕ → List ℕ → Option Bool
unfolding timing_safe_equal
compare_bytes a b = if not (length a == length b) then some false else timing_safe_equal a b

unfoldable pub tokens_match : Text → Text → Option Bool
unfolding compare_bytes utf8
tokens_match expected received = compare_bytes (utf8 expected) (utf8 received)

compare_bytes-some :
    (a b : List ℕ) → (same : Bool) × (compare_bytes a b ≡ some same) × ((same ≡ true) ↔ (a ≡ b))
unfolding compare_bytes timing_safe_equal
compare_bytes-some a b = elim (Bool-cases (length a == length b)) [
  | inl e ↦ (a == b, rw (e) refl, (list_eq {A = ℕ}).beq_iff a b)
  | inr e ↦ (false, rw (e) refl, (λ h. ground arith, λ h. let same = ap length h in ground arith))
]

abbrev pub IsAscii : Text → Type 0
IsAscii t = All (λ c. c < 0x80) t

-- The bytes of a character: the character itself, or a first byte of 0x80 or more.
abbrev IsCoded : ℕ → List ℕ → Type 0
IsCoded c bytes = (bytes ≡ c ∷ []) ⊎ ((b : ℕ) × (rest : List ℕ) × (bytes ≡ b ∷ rest) × (0x80 ≤ b))

encode_unit-IsCoded : (c : ℕ) → IsCoded c (encode_unit c)
unfolding encode_unit
encode_unit-IsCoded c =
    let P = λ (bytes : List ℕ). IsCoded c bytes in
    if_both P (ltb c 0x80) _ _ (inl refl) (
      if_both P (ltb c 0x800) _ _ (inr (_, _, refl, omega arith)) (
        if_both P (is_high c) _ _ (inr (_, _, refl, omega arith)) (
          if_both P (is_low c) _ _ (inr (_, _, refl, omega arith))
            (inr (_, _, refl, omega arith)))))

encode_unit-ascii : (c : ℕ) → c < 0x80 → encode_unit c ≡ c ∷ []
unfolding encode_unit
encode_unit-ascii c h = rw (lt→ltb c 0x80 h) refl

utf8-IsAscii : (t : Text) → IsAscii t → utf8 t ≡ t
unfolding utf8
utf8-IsAscii [] h = refl
utf8-IsAscii (c ∷ []) (h, n) = encode_unit-ascii c h
utf8-IsAscii (c ∷ d ∷ t) (h, n) =
    let plain : (is_high c && is_low d) ≡ false = ground arith in
    rw (plain, encode_unit-ascii c h) (ap (λ u. c ∷ u) (utf8-IsAscii (d ∷ t) n))

-- No such byte is in an ASCII text.
not_ascii : (b : ℕ) (rest bytes : List ℕ) → IsAscii bytes → b ∷ rest ≡ bytes → ¬ (0x80 ≤ b)
not_ascii b rest [] h e large = ground arith
not_ascii b rest (c ∷ bytes) (h, n) e large = ground arith

cons-ascii :
    (c : ℕ) (t u bytes : Text)
    → IsAscii bytes
    → c ∷ u ≡ bytes
    → ((rest : Text) → IsAscii rest → u ≡ rest → t ≡ rest)
    → c ∷ t ≡ bytes
cons-ascii c t u [] h e next = ground arith
cons-ascii c t u (b ∷ rest) (h, n) e next =
    let first : c ≡ b = ground arith in
    let others : u ≡ rest = ground arith in rw (first, next rest n others) refl

-- A text whose bytes are those of an ASCII text is that text.
utf8-ascii : (t bytes : Text) → IsAscii bytes → utf8 t ≡ bytes → t ≡ bytes
unfolding utf8 encode_pair
utf8-ascii [] bytes h e = e
utf8-ascii (c ∷ []) bytes h e = elim (encode_unit-IsCoded c) [
  | inl one ↦ sym one ∙ e
  | inr (b, rest, first, large) ↦ absurd (not_ascii b rest bytes h (sym first ∙ e) large)
]
utf8-ascii (c ∷ d ∷ t) bytes h e =
    let branch =
      λ (b : Bool). if b then encode_pair c d ++ utf8 t else encode_unit c ++ utf8 (d ∷ t) in
    elim (Bool-cases (is_high c && is_low d)) [
      | inl pair ↦ absurd (not_ascii _ _ bytes h (ap branch (sym pair) ∙ e) (omega arith))
      | inr single ↦
          let whole : encode_unit c ++ utf8 (d ∷ t) ≡ bytes = ap branch (sym single) ∙ e in
          let after = λ (u : Text). u ++ utf8 (d ∷ t) in
          elim (encode_unit-IsCoded c) [
            | inl one ↦
                cons-ascii c (d ∷ t) (utf8 (d ∷ t)) bytes h (ap after (sym one) ∙ whole)
                  (utf8-ascii (d ∷ t))
            | inr (b, rest, first, large) ↦
                absurd
                  (not_ascii b (rest ++ utf8 (d ∷ t)) bytes h (ap after (sym first) ∙ whole) large)
          ]
    ]

-- The comparison never throws. It tells whether the bytes are the same; and for an expected token in
-- ASCII, as the relay makes them, whether the token received is the expected one.
pub tokens_match_iff :
    (expected received : Text)
    → (same : Bool) × (tokens_match expected received ≡ some same)
      × ((same ≡ true) ↔ (utf8 expected ≡ utf8 received))
      × (IsAscii expected → ((same ≡ true) ↔ (expected ≡ received)))
unfolding tokens_match
tokens_match_iff expected received =
    let (same, found, bytes) = compare_bytes-some (utf8 expected) (utf8 received) in
    (
      same,
      found,
      bytes,
      λ ascii. (
        λ h.
            sym
              (utf8-ascii received expected ascii (sym (bytes.0 h) ∙ utf8-IsAscii expected ascii)),
        λ e. bytes.1 (ap utf8 e),
      ),
    )

-- An exception would be the caller's; there is none.
abbrev returned : Option Bool → Bool
returned none = false
returned (some same) = same

unfoldable pub is_match : Text → Text → Bool
unfolding tokens_match
is_match expected received = returned (tokens_match expected received)

pub is_match_iff :
    (expected received : Text)
    → (is_match expected received ≡ true) ↔ (utf8 expected ≡ utf8 received)
unfolding is_match
is_match_iff expected received =
    let (same, found, bytes, ascii) = tokens_match_iff expected received in
    (λ h. bytes.0 (sym (ap returned found) ∙ h), λ e. ap returned found ∙ bytes.1 e)

module _ (hmac : Text → Text → Text) (master : Text) where
  -- `mayConnectAs`: the master token admits every role, and a derived one the role it was made for.
  -- The loop over the other roles only writes to the log.
  unfoldable pub may_connect_as : Text → AdapterKind → Bool
  may_connect_as token kind =
      if is_match master token
      then true
      else if is_match (derive_grant hmac master kind) token
      then true
      else false
