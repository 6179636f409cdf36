-- ===== src/Relay/Hub/Exclusive.antt =====
-- Who holds a role after a socket of hub.ts is accepted or a frame comes in.
use dumbwaystodie.Prelude.{
  ℕ, true, Text, nat_eq, list_eq, ◌≡◌, refl, sym, subst, ◌∙◌, ◌⊎◌, inl, inr, arith, Bool-cases,
  Option-cases, if_both,
}
use dumbwaystodie.Protocol.Wire.{WireMessage, RejectReason, bad_version, AdapterHello}
use dumbwaystodie.Relay.Auth.{may_connect_as}
use dumbwaystodie.Relay.Hub.{
  Hub, Connection, modify, update, object, broadcast_registry, reject, kind_beq, kind_beq_iff,
}
use dumbwaystodie.Relay.Hub.Objects.{
  objects-route, objects-broadcast_registry, Dims, Fades-of_eq, Fades-modify, Fades-reject,
}
use dumbwaystodie.Relay.Hub.Route.{route}
use dumbwaystodie.Relay.Hub.Session.{
  HelloResult, good, bad, Frame, not_json, bad_envelope, unknown_type, payload, parse_adapter_hello,
  speaks, displaced_by, displace, welcome, replay_tools, authenticate, handle, on_message, accept,
  fresh_connection,
}
use dumbwaystodie.Relay.Hub.Roles.{
  serving, Fresh, IsExclusive, Fades-IsExclusive, serving-displace, serving-welcomed,
  Distinct-modify, Distinct-Fades, serving-Fades, displace-Fades, objects-welcome,
  objects-replay_tools, welcomed, Distinct-snoc, serving-snoc,
}

joined-IsExclusive :
    (id : Text) (hello : AdapterHello) (h h' : Hub)
    → IsExclusive h
    → h'.objects
      ≡ modify id (welcomed hello) (displace (displaced_by hello.adapter_kind h) h).objects
    → IsExclusive h'
joined-IsExclusive id hello h h' v e =
    let free = displace (displaced_by hello.adapter_kind h) h in
    let fading = displace-Fades (displaced_by hello.adapter_kind h) h in
    record {
      distinct = rw e (
          Distinct-modify id (welcomed hello) free.objects (λ c. refl)
            (Distinct-Fades _ _ fading v.distinct));
      one = λ k ne. rw e elim (Bool-cases (kind_beq hello.adapter_kind k)) [
        | inl same ↦
            let role = (kind_beq_iff hello.adapter_kind k).0 same in
            let none_left : serving k free.objects ≡ 0 =
              subst (λ r. serving k (displace (displaced_by r h) h).objects ≡ 0) (sym role)
                (serving-displace k h v ne) in
            ground (arith, serving-welcomed k hello id free.objects, none_left)
        | inr other ↦ ground (
          arith,
          serving-welcomed k hello id free.objects,
          v.one k ne,
          serving-Fades k _ _ fading,
        )
      ];
    }

HelloResult-cases :
    (r : HelloResult)
    → ((reason : RejectReason) × (text : Text) × (r ≡ bad reason text))
      ⊎ ((hello : AdapterHello) × (r ≡ good hello))
HelloResult-cases (bad reason text) = inl (reason, text, refl)
HelloResult-cases (good hello) = inr (hello, refl)

pub Eq-IsExclusive : (h h' : Hub) → h'.objects ≡ h.objects → IsExclusive h → IsExclusive h'
Eq-IsExclusive h h' e v = Fades-IsExclusive h h' (Fades-of_eq _ _ (sym e)) v

pub accept-IsExclusive :
    (id : Text) (now : ℕ) (h : Hub)
    → Fresh id h.objects
    → IsExclusive h
    → IsExclusive (accept id now h)
unfolding accept
accept-IsExclusive id now h fresh v = record {
  distinct = Distinct-snoc h.objects (fresh_connection id now) fresh v.distinct;
  one = λ k ne. omega (arith, serving-snoc k h.objects (fresh_connection id now) refl, v.one k ne);
}

pub touched-IsExclusive :
    (f : Connection → Connection) (id : Text) (h : Hub)
    → Dims f
    → IsExclusive h
    → IsExclusive (update id f h)
touched-IsExclusive f id h d v =
    Fades-IsExclusive h (update id f h) (Fades-modify id f h.objects d) v

module _ (hmac : Text → Text → Text) where
  -- The two ways in which a handshake ends.
  pub authenticate_cases {ℓ} :
      (P : Hub → Type ℓ) (id : Text) (m : WireMessage) (h : Hub)
      → ((reason : RejectReason) (text : Text) → P (reject id reason text h))
      → ((hello : AdapterHello)
          → parse_adapter_hello m ≡ good hello
          → may_connect_as hmac h.token hello.token hello.adapter_kind ≡ true
          → P (
              broadcast_registry (
                replay_tools id hello.adapter_kind
                  (welcome id hello (displace (displaced_by hello.adapter_kind h) h)))))
      → P (authenticate hmac id m h)
  unfolding authenticate
  authenticate_cases P id m h refused admitted = elim (HelloResult-cases (parse_adapter_hello m)) [
    | inl (reason, text, e) ↦ rw (e, authenticate) (refused reason text)
    | inr (hello, e) ↦
        rw (e, authenticate)
          elim (Bool-cases (speaks hello.protocol_version)) [
            | inr s ↦ rw s (refused _ _)
            | inl s ↦
                rw s
                  elim (Bool-cases (may_connect_as hmac h.token hello.token hello.adapter_kind)) [
                    | inr t ↦ rw t (refused _ _)
                    | inl t ↦ rw t (admitted hello e t)
                  ]
          ]
  ]

  authenticate-IsExclusive :
      (id : Text) (m : WireMessage) (h : Hub)
      → IsExclusive h
      → IsExclusive (authenticate hmac id m h)
  authenticate-IsExclusive id m h v =
      authenticate_cases IsExclusive id m h
        (λ reason text. Fades-IsExclusive h _ (Fades-reject id reason text h) v)
        (λ hello e t. joined-IsExclusive id hello h _ v (
          objects-broadcast_registry _
          ∙ objects-replay_tools id hello.adapter_kind _
          ∙ objects-welcome id hello _))

  handle-IsExclusive :
      (now : ℕ) (c : Connection) (frame : Frame) (h : Hub)
      → IsExclusive h
      → IsExclusive (handle hmac now c frame h)
  unfolding handle
  handle-IsExclusive now c not_json h v = v
  handle-IsExclusive now c unknown_type h v = v
  handle-IsExclusive now c bad_envelope h v =
      if_both IsExclusive c.authenticated h _ v
        (Fades-IsExclusive h _ (Fades-reject c.id bad_version _ h) v)
  handle-IsExclusive now c (payload m) h v =
      if_both IsExclusive c.authenticated (route now c m h) (authenticate hmac c.id m h)
        (Eq-IsExclusive h _ (objects-route now c m h) v) (authenticate-IsExclusive c.id m h v)

  pub on_message-IsExclusive :
      (now : ℕ) (id : Text) (frame : Frame) (h : Hub)
      → IsExclusive h
      → IsExclusive (on_message hmac now id frame h)
  unfolding on_message
  on_message-IsExclusive now id frame h v =
      let h' = update id (λ c. record c { last_seen_at = now }) h in
      let v' =
        touched-IsExclusive (λ c. record c { last_seen_at = now }) id h
          (record { same_id = λ c. refl; no_role = λ k c s. s }) v in
      elim (Option-cases (object id h')) [
        | inl e ↦ rw (e, on_message) v'
        | inr (c, e) ↦ rw (e, on_message) (handle-IsExclusive now c frame h' v')
      ]
