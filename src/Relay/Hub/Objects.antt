-- ===== src/Relay/Hub/Objects.antt =====
-- How the operations of hub.ts change the connection objects.
use dumbwaystodie.Prelude.{
  ℕ, true, false, Option, none, some, List, [], ◌∷◌, Text, lit, ◌==◌, nat_eq, list_eq, ◌≡◌, refl,
  sym, ◌∙◌, inl, inr, arith, Bool-cases, Option-cases, is_some,
}
use dumbwaystodie.Protocol.Wire.{AdapterKind, WireMessage, RejectReason}
use dumbwaystodie.Relay.Hub.{
  Hub, Connection, Effect, emit, modify, update, object, serves, send, send_all, broadcast_registry,
  drop_connection, reject,
}
use dumbwaystodie.Relay.Hub.Route
use dumbwaystodie.Relay.Hub.Route.{route}

pub objects-send :
    (id session : Text) (m : WireMessage) (h : Hub) → (send id session m h).objects ≡ h.objects
unfolding send
objects-send id session m h = ground arith

objects-send_all :
    (ids : List Text) (m : WireMessage) (h : Hub) → (send_all ids m h).objects ≡ h.objects
unfolding send_all
objects-send_all [] m h = refl
objects-send_all (id ∷ ids) m h =
    objects-send_all ids m (send id (lit "relay") m h) ∙ objects-send id (lit "relay") m h

pub objects-broadcast_registry : (h : Hub) → (broadcast_registry h).objects ≡ h.objects
unfolding broadcast_registry
objects-broadcast_registry h = objects-send_all _ _ h

objects-forward_to :
    (target : Option Connection) (session : Text) (m : WireMessage) (h : Hub)
    → (Route.forward_to target session m h).objects ≡ h.objects
objects-forward_to none session m h = refl
objects-forward_to (some c) session m h = objects-send c.id session m h

ruleset sending = (arith, objects-send, objects-send_all, objects-forward_to)

pub objects-route :
    (now : ℕ) (c : Connection) (m : WireMessage) (h : Hub) → (route now c m h).objects ≡ h.objects
unfolding route Route.route_coach_request Route.route_coach_response Route.settle
    Route.route_tool_call Route.route_tool_result Route.route_surface_open
    Route.route_surface_models Route.route_from_browser Route.route_tools_available
    Route.route_provider_error Route.route_pair_open Route.route_media_register
    Route.route_media_unregister
objects-route now c (WireMessage.ping at) h =
    objects-send c.id (lit "relay") (WireMessage.pong at) h
objects-route now c (WireMessage.provider_error t none) h = grind sending
objects-route now c (WireMessage.provider_error t (some id)) h = grind sending
objects-route now c m h = grind sending

-- `f` keeps the id of an object and gives it no role that it did not have.
pub record Dims (f : Connection → Connection) : Type 0 where
  pub same_id : (c : Connection) → (f c).id ≡ c.id
  pub no_role : (k : AdapterKind) (c : Connection) → serves k (f c) ≡ true → serves k c ≡ true

-- The same objects, some of them with fewer roles.
abbrev pub Fades : List Connection → List Connection → Type 0
Fades [] [] = Unit
Fades [] (d ∷ ds) = ⊥
Fades (c ∷ cs) [] = ⊥
Fades (c ∷ cs) (d ∷ ds) =
    (d.id ≡ c.id) × ((k : AdapterKind) → serves k d ≡ true → serves k c ≡ true) × Fades cs ds

pub Fades-refl : (cs : List Connection) → Fades cs cs
Fades-refl [] = tt
Fades-refl (c ∷ cs) = (refl, λ k s. s, Fades-refl cs)

pub Fades-trans : (cs ds es : List Connection) → Fades cs ds → Fades ds es → Fades cs es
Fades-trans [] [] [] p q = tt
Fades-trans (c ∷ cs) (d ∷ ds) (e ∷ es) p q =
    (q.0 ∙ p.0, λ k s. p.1 k (q.1 k s), Fades-trans cs ds es p.2 q.2)
Fades-trans [] [] (e ∷ es) p q = absurd q
Fades-trans [] (d ∷ ds) es p q = absurd p
Fades-trans (c ∷ cs) [] es p q = absurd p
Fades-trans (c ∷ cs) (d ∷ ds) [] p q = absurd q

pub Fades-of_eq : (cs ds : List Connection) → cs ≡ ds → Fades cs ds
Fades-of_eq cs ds e = rw (← e) (Fades-refl cs)

pub Fades-modify :
    (id : Text) (f : Connection → Connection) (cs : List Connection)
    → Dims f
    → Fades cs (modify id f cs)
unfolding modify
Fades-modify id f [] w = tt
Fades-modify id f (c ∷ cs) w = elim (Bool-cases (c.id == id)) [
  | inl hit ↦ rw (hit, modify) (w.same_id c, λ k s. w.no_role k c s, Fades-refl cs)
  | inr miss ↦ rw (miss, modify) (refl, λ k s. s, Fades-modify id f cs w)
]

abbrev unlist : Connection → Connection
unlist c = record c { handshake_timer = false; listed = false }

unlist-Dims : Dims unlist
unlist-Dims = record { same_id = λ c. refl; no_role = λ k c s. cc }

abbrev untime : Connection → Connection
untime c = record c { handshake_timer = false }

untime-Dims : Dims untime
untime-Dims = record { same_id = λ c. refl; no_role = λ k c s. s }

abbrev pub shut : Connection → Connection
shut c = record c { is_open = false }

pub shut-Dims : Dims shut
shut-Dims = record { same_id = λ c. refl; no_role = λ k c s. s }

pub Fades-drop_connection : (id : Text) (h : Hub) → Fades h.objects (drop_connection id h).objects
unfolding drop_connection
Fades-drop_connection id h = elim (Option-cases (object id h)) [
  | inl e ↦ rw (e, drop_connection) (Fades-refl h.objects)
  | inr (c, e) ↦
      rw (e, drop_connection)
        elim (Bool-cases c.listed) [
          | inl l ↦ rw l elim (Bool-cases (is_some c.kind)) [
            | inl s ↦
                rw (s, objects-broadcast_registry (update id unlist h))
                  (Fades-modify id unlist h.objects unlist-Dims)
            | inr s ↦ rw s (Fades-modify id unlist h.objects unlist-Dims)
          ]
          | inr l ↦ rw l (Fades-modify id untime h.objects untime-Dims)
        ]
]

pub Fades-reject :
    (id : Text) (reason : RejectReason) (text : Text) (h : Hub)
    → Fades h.objects (reject id reason text h).objects
unfolding reject
Fades-reject id reason text h =
    let told = send id (lit "relay") (WireMessage.adapter_rejected reason text) h in
    let closing = update id shut (emit (Effect.closed id 1008) told) in
    Fades-trans h.objects told.objects _ (Fades-of_eq _ _ (sym (objects-send id (lit "relay") _ h)))
      (Fades-trans told.objects closing.objects _ (Fades-modify id shut told.objects shut-Dims)
        (Fades-drop_connection id closing))
