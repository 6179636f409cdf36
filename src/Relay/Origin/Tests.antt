-- ===== src/Relay/Origin/Tests.antt =====
-- The headers of auth.ts: an address of this machine, a name of another, and origins.
use dumbwaystodie.Prelude.{
  ℕ, true, false, some, [], ◌∷◌, Text, lit, trim, starts_with, ends_with, ◌≡◌, refl,
}
use dumbwaystodie.Secrets.{to_lower}
use dumbwaystodie.Relay.Origin.{
  split_before, port_part, host_part, unbracketed, is_loopback_name, is_loopback_host,
  is_from_web_page,
}
use dumbwaystodie.Relay.Origin.Names.{IsNamed, is_loopback_host-IsNamed}

abbrev fold : ℕ → Text
fold c = c ∷ []

let_in : is_loopback_host fold (some (lit " [::1]:43123")) 43123 ≡ true
unfolding is_loopback_host host_part split_before port_part is_loopback_name unbracketed to_lower
    ends_with trim
let_in = refl

rebound : is_loopback_host fold (some (lit "evil.example:43123")) 43123 ≡ false
unfolding is_loopback_host host_part split_before port_part is_loopback_name unbracketed to_lower
    ends_with trim
rebound = refl

from_page : is_from_web_page (some (lit "HTTPS://evil.example")) ≡ true
unfolding is_from_web_page to_lower starts_with
from_page = refl

from_extension : is_from_web_page (some (lit "chrome-extension://id")) ≡ false
unfolding is_from_web_page to_lower starts_with
from_extension = refl

is_loopback_host-IsNamed_example : IsNamed fold 43123 (trim (lit " [::1]:43123"))
is_loopback_host-IsNamed_example = is_loopback_host-IsNamed fold (lit " [::1]:43123") 43123 let_in
