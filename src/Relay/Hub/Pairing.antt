-- ===== src/Relay/Hub/Pairing.antt =====
-- The pairing window of hub.ts.
use dumbwaystodie.Prelude.{
  ℕ, ◌+◌, ◌≤◌, ◌<◌, true, none, some, Text, nat_eq, list_eq, ◌≡◌, ◌⊎◌, inl, inr, arith,
}
use dumbwaystodie.Protocol.Wire.{editor, browser, WireMessage}
use dumbwaystodie.Relay.Auth.{derive_grant}
use dumbwaystodie.Relay.Hub.{Hub, Connection, is_kind}
use dumbwaystodie.Relay.Hub.Route.{route, route_pair_open}
use dumbwaystodie.Relay.Hub.Session.{claim_browser_pairing}

-- A claim that is served gets the browser's grant while the window is open, and the claim after it,
-- whenever it comes, gets nothing.
pub claim-once :
    (hmac : Text → Text → Text) (now later : ℕ) (h : Hub) (grant : Text)
    → (claim_browser_pairing hmac now h).0 ≡ some grant
    → ((claim_browser_pairing hmac later (claim_browser_pairing hmac now h).1).0 ≡ none)
      × (grant ≡ derive_grant hmac h.token browser)
      × (now < h.pairing_open_until)
unfolding claim_browser_pairing
claim-once hmac now later h grant e = ground arith

-- After the editor's `pair.open`, a claim gets the browser's grant for a second at least, and for as
-- long as was asked for, up to five minutes.
pub pair_open-opens :
    (hmac : Text → Text → Text) (now at duration : ℕ) (c : Connection) (h : Hub)
    → is_kind editor c.kind ≡ true
    → (at < now + 1000) ⊎ ((at < now + duration) × (at < now + 300_000))
    → let g = route now c (WireMessage.pair_open duration) h in
      (claim_browser_pairing hmac at g).0 ≡ some (derive_grant hmac h.token browser)
unfolding claim_browser_pairing route route_pair_open
pair_open-opens hmac now at duration c h e (inl early) = ground arith
pair_open-opens hmac now at duration c h e (inr asked) = ground arith

-- Five minutes after the editor's `pair.open` a claim gets nothing, whatever duration was asked for.
pub pair_open-closes :
    (hmac : Text → Text → Text) (now at duration : ℕ) (c : Connection) (h : Hub)
    → is_kind editor c.kind ≡ true
    → now + 300_000 ≤ at
    → let g = route now c (WireMessage.pair_open duration) h in
      claim_browser_pairing hmac at g ≡ (none, g)
unfolding claim_browser_pairing route route_pair_open
pair_open-closes hmac now at duration c h e late = ground arith
