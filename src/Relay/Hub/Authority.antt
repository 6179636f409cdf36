-- ===== src/Relay/Hub/Authority.antt =====
-- Who may do what at the hub of hub.ts: hellos, grants, and what the hub keeps for the editor.
use dumbwaystodie.Prelude.{
  ℕ, false, none, some, List, [], ◌∷◌, Text, lit, nat_eq, list_eq, ◌≡◌, ◌≢◌, refl, sym, inl, inr,
  arith, Option-cases, if_both, has, lookup-erase,
}
use dumbwaystodie.Protocol.Wire.{AdapterKind, editor, WireMessage, bad_version, AdapterHello}
use dumbwaystodie.Relay.Auth.{may_connect_as, derive_grant, is_match_iff, utf8}
use dumbwaystodie.Relay.Hub.{Hub, Connection, update, object, is_kind, send, send_all}
use dumbwaystodie.Relay.Hub.Objects.{
  objects-route, Fades, Fades-refl, Fades-trans, Fades-modify, Fades-reject, Fades-of_eq,
}
use dumbwaystodie.Relay.Hub.Route
use dumbwaystodie.Relay.Hub.Route.{
  route, is_partial, settle, text_of, result_target, forward_to, route_coach_response,
  route_tool_call, route_tool_result, route_pair_open,
}
use dumbwaystodie.Relay.Hub.Session.{
  good, Frame, not_json, bad_envelope, unknown_type, payload, parse_adapter_hello, authenticate,
  handle, on_message,
}
use dumbwaystodie.Relay.Hub.Exclusive.{authenticate_cases}

-- What `send` leaves as it was.
pub send-keeps :
    (id session : Text) (m : WireMessage) (h : Hub)
    → let g = send id session m h in
      (g.pending ≡ h.pending)
      × (g.media ≡ h.media)
      × (g.answers ≡ h.answers)
      × (g.tool_callers ≡ h.tool_callers)
      × (g.tools ≡ h.tools)
      × (g.pairing_open_until ≡ h.pairing_open_until)
unfolding send
send-keeps id session m h = ground arith

send_all-keeps :
    (ids : List Text) (m : WireMessage) (h : Hub)
    → let g = send_all ids m h in
      (g.pending ≡ h.pending)
      × (g.media ≡ h.media)
      × (g.answers ≡ h.answers)
      × (g.tool_callers ≡ h.tool_callers)
      × (g.tools ≡ h.tools)
      × (g.pairing_open_until ≡ h.pairing_open_until)
unfolding send_all
send_all-keeps [] m h = (refl, refl, refl, refl, refl, refl)
send_all-keeps (id ∷ ids) m h =
    ground
      (arith, send-keeps id (lit "relay") m h, send_all-keeps ids m (send id (lit "relay") m h))

ruleset kept = (arith, send-keeps, send_all-keeps)

-- A message from anyone but the editor leaves the pairing window, the media and the published tools
-- as they are, and an id with no request in flight still has none.
pub route-authority :
    (now : ℕ) (c : Connection) (m : WireMessage) (h : Hub) (id : Text)
    → is_kind editor c.kind ≡ false
    → has id h.pending ≡ false
    → let g = route now c m h in
      (g.pairing_open_until ≡ h.pairing_open_until)
      × (g.media ≡ h.media)
      × (g.tools ≡ h.tools)
      × (has id g.pending ≡ false)
unfolding route Route.route_coach_request Route.route_coach_response Route.settle
    Route.route_tool_call Route.route_tool_result Route.route_surface_open
    Route.route_surface_models Route.route_from_browser Route.route_tools_available
    Route.route_provider_error Route.route_pair_open Route.route_media_register
    Route.route_media_unregister
route-authority now c (WireMessage.coach_response r) h id e p =
    grind (arith, send-keeps, lookup-erase r.request_id id h.pending)
route-authority now c (WireMessage.provider_error t none) h id e p = grind kept
route-authority now c (WireMessage.provider_error t (some i)) h id e p = grind kept
route-authority now c m h id e p = grind kept

abbrev Keeps : Hub → Hub → Type 0
Keeps h g = Fades h.objects g.objects

handle-admits :
    (hmac : Text → Text → Text) (now : ℕ) (c : Connection) (frame : Frame) (h : Hub)
    → ((m : WireMessage) (hello : AdapterHello)
        → frame ≡ payload m
        → parse_adapter_hello m ≡ good hello
        → may_connect_as hmac h.token hello.token hello.adapter_kind ≡ false)
    → Keeps h (handle hmac now c frame h)
unfolding handle
handle-admits hmac now c not_json h barred = Fades-refl h.objects
handle-admits hmac now c unknown_type h barred = Fades-refl h.objects
handle-admits hmac now c bad_envelope h barred =
    if_both (Keeps h) c.authenticated h _ (Fades-refl h.objects) (Fades-reject c.id bad_version _ h)
handle-admits hmac now c (payload m) h barred =
    if_both (Keeps h) c.authenticated (route now c m h) (authenticate hmac c.id m h)
      (Fades-of_eq _ _ (sym (objects-route now c m h)))
      (authenticate_cases hmac (Keeps h) c.id m h (λ reason text. Fades-reject c.id reason text h)
        (λ hello e t. absurd (cc (barred m hello refl e))))

-- A frame gives no connection a role unless it is a hello whose token admits the role that it claims.
pub on_message-admits :
    (hmac : Text → Text → Text) (now : ℕ) (id : Text) (frame : Frame) (h : Hub)
    → ((m : WireMessage) (hello : AdapterHello)
        → frame ≡ payload m
        → parse_adapter_hello m ≡ good hello
        → may_connect_as hmac h.token hello.token hello.adapter_kind ≡ false)
    → Fades h.objects (on_message hmac now id frame h).objects
unfolding on_message
on_message-admits hmac now id frame h barred =
    let seen = λ (c : Connection). record c { last_seen_at = now } in
    let h' = update id seen h in
    let touched =
      Fades-modify id seen h.objects (record { same_id = λ c. refl; no_role = λ k c s. s }) in
    elim (Option-cases (object id h')) [
      | inl e ↦ rw (e, on_message) touched
      | inr (c, e) ↦
          rw (e, on_message)
            (Fades-trans h.objects h'.objects _ touched (handle-admits hmac now c frame h' barred))
    ]

-- A derived grant admits no role but its own, where its bytes are neither those of the master token
-- nor those of another role's grant.
pub may_connect_as-grant :
    (hmac : Text → Text → Text) (master : Text) (granted claimed : AdapterKind)
    → utf8 master ≢ utf8 (derive_grant hmac master granted)
    → utf8 (derive_grant hmac master claimed) ≢ utf8 (derive_grant hmac master granted)
    → may_connect_as hmac master (derive_grant hmac master granted) claimed ≡ false
unfolding may_connect_as
may_connect_as-grant hmac master granted claimed m d = ground (
  arith,
  is_match_iff master (derive_grant hmac master granted),
  is_match_iff (derive_grant hmac master claimed) (derive_grant hmac master granted),
)
