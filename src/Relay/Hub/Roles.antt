-- ===== src/Relay/Hub/Roles.antt =====
-- Counting the connections that hold a role in the hub of hub.ts.
use dumbwaystodie.Prelude.{
  ℕ, suc, ◌+◌, ◌≤◌, true, false, Option, none, some, List, [], ◌∷◌, ◌++◌, Text, find, if◌then◌else◌,
  ◌==◌, nat_eq, list_eq, ◌≡◌, ◌≢◌, refl, inl, inr, arith, Bool-cases, Option-cases,
}
use dumbwaystodie.Protocol.Wire.{AdapterKind, editor, provider, browser, mcp, AdapterHello}
use dumbwaystodie.Relay.Hub.{Hub, Connection, modify, find_by_kind, serves, kind_beq}
use dumbwaystodie.Relay.Hub.Objects.{objects-send, Dims, Fades, Fades-refl, Fades-modify}
use dumbwaystodie.Relay.Hub.Session.{displaced_by, displace, welcome, replay_tools}

-- How many connections are attached in a role.
unfoldable pub serving : AdapterKind → List Connection → ℕ
serving k [] = 0
serving k (c ∷ cs) = if serves k c then suc (serving k cs) else serving k cs

abbrev pub Fresh : Text → List Connection → Type 0
Fresh id [] = Unit
Fresh id (c ∷ cs) = ((c.id == id) ≡ false) × Fresh id cs

abbrev pub Distinct : List Connection → Type 0
Distinct [] = Unit
Distinct (c ∷ cs) = Fresh c.id cs × Distinct cs

-- Ids tell the connections apart, and each role but that of an agent is taken once at most.
pub record IsExclusive (h : Hub) : Type 0 where
  pub distinct : Distinct h.objects
  pub one : (k : AdapterKind) → k ≢ mcp → serving k h.objects ≤ 1

Fresh-Fades : (id : Text) (cs ds : List Connection) → Fades cs ds → Fresh id cs → Fresh id ds
Fresh-Fades id [] [] f h = tt
Fresh-Fades id (c ∷ cs) (d ∷ ds) f h = (rw f.0 h.0, Fresh-Fades id cs ds f.2 h.1)
Fresh-Fades id [] (d ∷ ds) f h = absurd f
Fresh-Fades id (c ∷ cs) [] f h = absurd f

pub Distinct-Fades : (cs ds : List Connection) → Fades cs ds → Distinct cs → Distinct ds
Distinct-Fades [] [] f h = tt
Distinct-Fades (c ∷ cs) (d ∷ ds) f h =
    (rw f.0 (Fresh-Fades c.id cs ds f.2 h.0), Distinct-Fades cs ds f.2 h.1)
Distinct-Fades [] (d ∷ ds) f h = absurd f
Distinct-Fades (c ∷ cs) [] f h = absurd f

pub serving-Fades :
    (k : AdapterKind) (cs ds : List Connection) → Fades cs ds → serving k ds ≤ serving k cs
unfolding serving
serving-Fades k [] [] f = omega arith
serving-Fades k (c ∷ cs) (d ∷ ds) f = ground (arith, f.1 k, serving-Fades k cs ds f.2)
serving-Fades k [] (d ∷ ds) f = absurd f
serving-Fades k (c ∷ cs) [] f = absurd f

pub Fades-IsExclusive : (h h' : Hub) → Fades h.objects h'.objects → IsExclusive h → IsExclusive h'
Fades-IsExclusive h h' f v = record {
  distinct = Distinct-Fades h.objects h'.objects f v.distinct;
  one = λ k ne. omega (arith, v.one k ne, serving-Fades k h.objects h'.objects f);
}

-- The connection that is found for a role is displaced, and the role is free.
pub find-Fresh :
    (k : AdapterKind) (id : Text) (cs : List Connection) (c : Connection)
    → Fresh id cs
    → find (serves k) cs ≡ some c
    → (id == c.id) ≡ false
find-Fresh k id [] c h e = cc
find-Fresh k id (x ∷ cs) c h e = elim (Bool-cases (serves k x)) [
  | inl s ↦ ground (arith, (list_eq {A = ℕ}).beq_iff x.id id, (list_eq {A = ℕ}).beq_iff id c.id)
  | inr s ↦ find-Fresh k id cs c h.1 (rw s at e)
]

abbrev displaced : Connection → Connection
displaced c = record c { listed = false; is_open = false }

displaced-Dims : Dims displaced
displaced-Dims = record { same_id = λ c. refl; no_role = λ k c s. cc }

serving-displaced :
    (k : AdapterKind) (cs : List Connection) (c : Connection)
    → Distinct cs
    → find (serves k) cs ≡ some c
    → suc (serving k (modify c.id displaced cs)) ≡ serving k cs
unfolding serving modify
serving-displaced k [] c d e = cc
serving-displaced k (x ∷ cs) c d e = elim (Bool-cases (serves k x)) [
  | inl s ↦
      let same : x.id ≡ c.id = ground arith in
      rw (((list_eq {A = ℕ}).beq_iff x.id c.id).1 same, s) refl
  | inr s ↦
      let found : find (serves k) cs ≡ some c = rw s at e in
      rw (find-Fresh k x.id cs c d.0 found, s, serving) (serving-displaced k cs c d.1 found)
]

serving-none :
    (k : AdapterKind) (cs : List Connection) → find (serves k) cs ≡ none → serving k cs ≡ 0
unfolding serving
serving-none k [] e = refl
serving-none k (c ∷ cs) e = ground (arith, serving-none k cs)

pub displace-Fades : (o : Option Connection) (h : Hub) → Fades h.objects (displace o h).objects
unfolding displace
displace-Fades none h = Fades-refl h.objects
displace-Fades (some c) h = Fades-modify c.id displaced h.objects displaced-Dims

displaced_by-lem : (k : AdapterKind) (h : Hub) → k ≢ mcp → displaced_by k h ≡ find_by_kind k h
unfolding displaced_by
displaced_by-lem editor h ne = refl
displaced_by-lem provider h ne = refl
displaced_by-lem browser h ne = refl
displaced_by-lem mcp h ne = absurd (ne refl)

pub serving-displace :
    (k : AdapterKind) (h : Hub)
    → IsExclusive h
    → k ≢ mcp
    → serving k (displace (displaced_by k h) h).objects ≡ 0
unfolding displace find_by_kind
serving-displace k h v ne =
    rw (displaced_by-lem k h ne) elim (Option-cases (find (serves k) h.objects)) [
      | inl e ↦ rw e (serving-none k h.objects e)
      | inr (c, e) ↦ rw e (omega (arith, serving-displaced k h.objects c v.distinct e, v.one k ne))
    ]

-- A welcome gives one connection one role.
abbrev pub welcomed : AdapterHello → Connection → Connection
welcomed hello c = record c {
  authenticated = true;
  kind = some hello.adapter_kind;
  adapter_id = some hello.adapter_id;
  handshake_timer = false;
}

pub serving-welcomed :
    (k : AdapterKind) (hello : AdapterHello) (id : Text) (cs : List Connection)
    → serving k (modify id (welcomed hello) cs)
      ≤ serving k cs + (if kind_beq hello.adapter_kind k then 1 else 0)
unfolding serving modify
serving-welcomed k hello id [] = omega arith
serving-welcomed k hello id (c ∷ cs) = ground (arith, serving-welcomed k hello id cs)

Fresh-modify :
    (i id : Text) (f : Connection → Connection) (cs : List Connection)
    → ((c : Connection) → (f c).id ≡ c.id)
    → Fresh i cs
    → Fresh i (modify id f cs)
unfolding modify
Fresh-modify i id f [] same h = tt
Fresh-modify i id f (c ∷ cs) same h = elim (Bool-cases (c.id == id)) [
  | inl hit ↦ rw (hit, modify) (rw (same c) h.0, h.1)
  | inr miss ↦ rw (miss, modify) (h.0, Fresh-modify i id f cs same h.1)
]

pub Distinct-modify :
    (id : Text) (f : Connection → Connection) (cs : List Connection)
    → ((c : Connection) → (f c).id ≡ c.id)
    → Distinct cs
    → Distinct (modify id f cs)
unfolding modify
Distinct-modify id f [] same d = tt
Distinct-modify id f (c ∷ cs) same d = elim (Bool-cases (c.id == id)) [
  | inl hit ↦ rw (hit, modify) (rw (same c) d.0, d.1)
  | inr miss ↦
      rw (miss, modify) (Fresh-modify c.id id f cs same d.0, Distinct-modify id f cs same d.1)
]

pub objects-welcome :
    (id : Text) (hello : AdapterHello) (h : Hub)
    → (welcome id hello h).objects ≡ modify id (welcomed hello) h.objects
unfolding welcome
objects-welcome id hello h = objects-send _ _ _ _

pub objects-replay_tools :
    (id : Text) (k : AdapterKind) (h : Hub) → (replay_tools id k h).objects ≡ h.objects
unfolding replay_tools
objects-replay_tools id k h = grind (arith, objects-send)

Fresh-snoc :
    (id : Text) (cs : List Connection) (c : Connection)
    → Fresh id cs
    → (c.id == id) ≡ false
    → Fresh id (cs ++ c ∷ [])
Fresh-snoc id [] c f n = (n, tt)
Fresh-snoc id (x ∷ cs) c f n = (f.0, Fresh-snoc id cs c f.1 n)

pub Distinct-snoc :
    (cs : List Connection) (c : Connection) → Fresh c.id cs → Distinct cs → Distinct (cs ++ c ∷ [])
Distinct-snoc [] c f d = (tt, tt)
Distinct-snoc (x ∷ cs) c f d = (
  Fresh-snoc x.id cs c d.0 (
      ground
        (arith, (list_eq {A = ℕ}).beq_iff x.id c.id, (list_eq {A = ℕ}).beq_iff c.id x.id, f.0)),
  Distinct-snoc cs c f.1 d.1,
)

pub serving-snoc :
    (k : AdapterKind) (cs : List Connection) (c : Connection)
    → serves k c ≡ false
    → serving k (cs ++ c ∷ []) ≡ serving k cs
unfolding serving
serving-snoc k [] c n = rw n
serving-snoc k (x ∷ cs) c n = ground (arith, serving-snoc k cs c n)
