-- ===== src/Relay/Origin.antt =====
-- Who may talk to the loopback listener, packages/relay/src/auth.ts: the `Host` and `Origin` headers.
-- The regular expressions are matchers. `fold` stands for `toLowerCase` beyond ASCII.
pub mod Names
mod Tests
use dumbwaystodie.Prelude.{
  ℕ, ◌+◌, ◌-◌, ◌*◌, Bool, true, false, not, ◌&&◌, ◌||◌, Option, none, some, List, [], ◌∷◌, ◌++◌,
  Text, lit, trim, length, take, if◌then◌else◌, nat_beq, leb, ◌==◌, nat_eq, list_eq, starts_with,
  ends_with,
}
use dumbwaystodie.Secrets.{to_lower}

-- The part before the first `c`, and the part from there.
unfoldable pub split_before : ℕ → Text → Text × Text
split_before c [] = ([], [])
split_before c (d ∷ t) =
    let (before, from) = split_before c t in if nat_beq d c then ([], d ∷ t) else (d ∷ before, from)

abbrev pub is_digit : ℕ → Bool
is_digit c = leb b'0' c && leb c b'9'

abbrev pub all_digits : Text → Bool
all_digits [] = true
all_digits (c ∷ t) = is_digit c && all_digits t

-- `Number` of a run of digits, after the value of those before it.
abbrev pub number_from : ℕ → Text → ℕ
number_from n [] = n
number_from n (c ∷ t) = number_from (n * 10 + (c - b'0')) t

-- `(?::(\d+))?$`
unfoldable pub port_part : Text → Option (Option ℕ)
port_part [] = some none
port_part (c ∷ []) = none
port_part (c ∷ d ∷ t) =
    if nat_beq c b':' && all_digits (d ∷ t) then some (some (number_from 0 (d ∷ t))) else none

abbrev pub with_port : Text → Option (Option ℕ) → Option (Text × Option ℕ)
with_port name none = none
with_port name (some port) = some (name, port)

abbrev pub closed_name : Text × Text → Option (Text × Option ℕ)
closed_name ([], from) = none
closed_name (c ∷ before, []) = none
closed_name (c ∷ before, d ∷ rest) = with_port (b'[' ∷ c ∷ before ++ d ∷ []) (port_part rest)

-- A name in brackets, as IPv6 has it.
abbrev pub bracketed : Text → Option (Text × Option ℕ)
bracketed [] = none
bracketed (c ∷ t) = if nat_beq c b'[' then closed_name (split_before b']' t) else none

abbrev pub open_name : Text × Text → Option (Text × Option ℕ)
open_name ([], from) = none
open_name (c ∷ before, from) = with_port (c ∷ before) (port_part from)

abbrev pub either_part :
    Option (Text × Option ℕ) → Option (Text × Option ℕ) → Option (Text × Option ℕ)
either_part (some part) later = some part
either_part none later = later

unfoldable pub host_part : Text → Option (Text × Option ℕ)
unfolding split_before port_part
host_part t = either_part (bracketed t) (open_name (split_before b':' t))

abbrev unopened : Text → Text
unopened [] = []
unopened (c ∷ t) = if nat_beq c b'[' then t else c ∷ t

-- `replace(/^\[|\]$/g, "")`
unfoldable pub unbracketed : Text → Text
unfolding ends_with
unbracketed t =
    let rest = unopened t in if ends_with (lit "]") rest then take (length rest - 1) rest else rest

unfoldable pub is_loopback_name : (ℕ → Text) → Text → Bool
unfolding to_lower unbracketed
is_loopback_name fold name =
    let host = unbracketed (to_lower fold name) in
    host == lit "127.0.0.1" || host == lit "localhost" || host == lit "::1"

abbrev pub other_port : Option ℕ → ℕ → Bool
other_port none port = false
other_port (some named) port = not (nat_beq named port)

abbrev pub is_loopback_part : (ℕ → Text) → ℕ → Option (Text × Option ℕ) → Bool
is_loopback_part fold port none = false
is_loopback_part fold port (some (name, named)) =
    if other_port named port then false else is_loopback_name fold name

unfoldable pub is_loopback_host : (ℕ → Text) → Option Text → ℕ → Bool
unfolding trim host_part is_loopback_name
is_loopback_host fold none port = false
is_loopback_host fold (some []) port = false
is_loopback_host fold (some (c ∷ header)) port =
    is_loopback_part fold port (host_part (trim (c ∷ header)))

-- The flag `i` of a regular expression, for the ASCII letters of this one.
abbrev plain_lower : ℕ → Text
plain_lower c = c ∷ []

unfoldable pub is_from_web_page : Option Text → Bool
unfolding to_lower starts_with
is_from_web_page none = false
is_from_web_page (some []) = false
is_from_web_page (some (c ∷ origin)) =
    let lower = to_lower plain_lower (c ∷ origin) in
    if (c ∷ origin) == lit "null"
    then false
    else starts_with (lit "http://") lower || starts_with (lit "https://") lower
