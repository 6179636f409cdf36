-- ===== src/Relay/Origin/Names.antt =====
-- Which `Host` headers auth.ts takes for its own.
use dumbwaystodie.Prelude.{
  ℕ, Bool, true, false, Option, none, some, [], ◌∷◌, ◌++◌, inl, inr, ◌⊎◌, Text, trim, if◌then◌else◌,
  Bool-cases, nat_beq, nat_eq, append_assoc, Option-cases, ◌≡◌, refl, sym, subst, ap, ◌∙◌, arith,
}
use dumbwaystodie.Relay.Origin.{
  split_before, all_digits, number_from, port_part, with_port, closed_name, bracketed, open_name,
  either_part, host_part, is_loopback_name, other_port, is_loopback_part, is_loopback_host,
}

-- Nothing, or a colon and the digits of the port.
abbrev pub IsPort : ℕ → Text → Type 0
IsPort port rest =
    (rest ≡ [])
    ⊎ ((digits : Text) × (rest ≡ b':' ∷ digits)
        × (all_digits digits ≡ true)
        × (number_from 0 digits ≡ port))

split_before-append : (c : ℕ) (t : Text) → (split_before c t).0 ++ (split_before c t).1 ≡ t
unfolding split_before
split_before-append c [] = refl
split_before-append c (d ∷ t) = elim (Bool-cases (nat_beq d c)) [
  | inl e ↦ rw (e) refl
  | inr e ↦ rw (e) (ap (λ u. d ∷ u) (split_before-append c t))
]

port_part-IsPort :
    (rest : Text) (named : Option ℕ) (port : ℕ)
    → port_part rest ≡ some named
    → other_port named port ≡ false
    → IsPort port rest
unfolding port_part
port_part-IsPort [] named port e o = inl refl
port_part-IsPort (c ∷ []) named port e o = ground arith
port_part-IsPort (c ∷ d ∷ t) none port e o = ground arith
port_part-IsPort (c ∷ d ∷ t) (some n) port e o =
    let colon : c ≡ b':' = ground arith in
    let digits : all_digits (d ∷ t) ≡ true = ground arith in
    let same : number_from 0 (d ∷ t) ≡ port = ground arith in
    inr (d ∷ t, ap (λ x. x ∷ d ∷ t) colon, digits, same)

-- A text is a loopback name, and nothing or the port after it.
abbrev pub IsNamed : (ℕ → Text) → ℕ → Text → Type 0
IsNamed fold port t =
    (name : Text) × (rest : Text) × (t ≡ name ++ rest)
    × (is_loopback_name fold name ≡ true)
    × IsPort port rest

module _ (fold : ℕ → Text) (port : ℕ) where
  with_port-IsNamed :
      (t name rest : Text)
      → t ≡ name ++ rest
      → is_loopback_part fold port (with_port name (port_part rest)) ≡ true
      → IsNamed fold port t
  with_port-IsNamed t name rest whole h = elim (Option-cases (port_part rest)) [
    | inl e ↦
        let no : false ≡ true =
          ap (λ o. is_loopback_part fold port (with_port name o)) (sym e) ∙ h in
        ground arith
    | inr (named, e) ↦
        let part : (if other_port named port then false else is_loopback_name fold name) ≡ true =
          ap (λ o. is_loopback_part fold port (with_port name o)) (sym e) ∙ h in
        let own : other_port named port ≡ false = ground arith in
        let known : is_loopback_name fold name ≡ true = ground arith in
        (name, rest, whole, known, port_part-IsPort rest named port e own)
  ]

  closed_name-IsNamed :
      (before from : Text)
      → is_loopback_part fold port (closed_name (before, from)) ≡ true
      → IsNamed fold port (b'[' ∷ before ++ from)
  closed_name-IsNamed [] from h = ground arith
  closed_name-IsNamed (c ∷ before) [] h = ground arith
  closed_name-IsNamed (c ∷ before) (d ∷ rest) h =
      with_port-IsNamed _ (b'[' ∷ c ∷ before ++ d ∷ []) rest
        (ap (λ u. b'[' ∷ c ∷ u) (sym (append_assoc before (d ∷ []) rest))) h

  open_name-IsNamed :
      (before from : Text)
      → is_loopback_part fold port (open_name (before, from)) ≡ true
      → IsNamed fold port (before ++ from)
  open_name-IsNamed [] from h = ground arith
  open_name-IsNamed (c ∷ before) from h = with_port-IsNamed _ (c ∷ before) from refl h

  bracketed-IsNamed :
      (t : Text) → is_loopback_part fold port (bracketed t) ≡ true → IsNamed fold port t
  bracketed-IsNamed [] h = ground arith
  bracketed-IsNamed (c ∷ t) h =
      let inside = split_before b']' t in
      let branch =
        λ (b : Bool). is_loopback_part fold port (if b then closed_name inside else none) in
      elim (Bool-cases (nat_beq c b'[')) [
        | inl e ↦
            let opened : b'[' ≡ c = ground arith in
            subst (IsNamed fold port)
              (ap (λ u. b'[' ∷ u) (split_before-append b']' t) ∙ ap (λ d. d ∷ t) opened)
              (closed_name-IsNamed inside.0 inside.1 (ap branch (sym e) ∙ h))
        | inr e ↦ let no : false ≡ true = ap branch (sym e) ∙ h in ground arith
      ]

  host_part-IsNamed :
      (t : Text) → is_loopback_part fold port (host_part t) ≡ true → IsNamed fold port t
  unfolding host_part
  host_part-IsNamed t h = elim (Option-cases (bracketed t)) [
    | inl e ↦
        let plain = split_before b':' t in
        subst (IsNamed fold port) (split_before-append b':' t) (
          open_name-IsNamed plain.0 plain.1
            (ap (λ o. is_loopback_part fold port (either_part o (open_name plain))) (sym e) ∙ h))
    | inr (part, e) ↦
        let plain = split_before b':' t in
        bracketed-IsNamed t (
          ap (is_loopback_part fold port) e
          ∙ ap (λ o. is_loopback_part fold port (either_part o (open_name plain))) (sym e)
          ∙ h)
  ]

-- A `Host` header that is let in is, without the white space around it, a loopback name alone or with
-- the port that the relay listens on.
pub is_loopback_host-IsNamed :
    (fold : ℕ → Text) (header : Text) (port : ℕ)
    → is_loopback_host fold (some header) port ≡ true
    → IsNamed fold port (trim header)
unfolding is_loopback_host
is_loopback_host-IsNamed fold [] port h = ground arith
is_loopback_host-IsNamed fold (c ∷ header) port h =
    host_part-IsNamed fold port (trim (c ∷ header)) h
