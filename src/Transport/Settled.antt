-- ===== src/Transport/Settled.antt =====
-- The promises of `openSurface` in RelayCoachProvider.ts: each that is asked for is kept once, or has
-- a timer that is to fire.
mod Steps
mod Methods
pub mod Kept
use dumbwaystodie.Prelude.{
  ℕ, suc, ◌+◌, ◌≤◌, Bool, true, false, none, some, Option, List, [], ◌∷◌, inl, inr, Text, Map,
  lookup, insert, erase, keep, if◌then◌else◌, Bool-cases, Option-cases, Eq, beq_refl, ◌==◌, nat_eq,
  list_eq, ◌≡◌, refl, sym, subst, arith,
}
use dumbwaystodie.Transport.{
  RelayCoachProvider, ProviderEffect, SurfaceOpenResult, settle_opens, entries_for, is_of,
  finish_surface_open, finish_all_surface_opens,
}

-- How many entries a key has.
abbrev pub occurs {ℓ} : {V : Type ℓ} → Text → Map Text V → ℕ
occurs id [] = 0
occurs id ((k, v) ∷ m) = (if k == id then 1 else 0) + occurs id m

abbrev pub counts_asked : Text → ProviderEffect → ℕ
counts_asked id (ProviderEffect.open_asked k) = if k == id then 1 else 0
counts_asked id e = 0

abbrev pub counts_settled : Text → ProviderEffect → ℕ
counts_settled id (ProviderEffect.open_settled k result) = if k == id then 1 else 0
counts_settled id e = 0

-- How often the opening `id` was asked for, and settled.
abbrev pub asked : Text → List ProviderEffect → ℕ
asked id [] = 0
asked id (e ∷ es) = counts_asked id e + asked id es

abbrev pub settled : Text → List ProviderEffect → ℕ
settled id [] = 0
settled id (e ∷ es) = counts_settled id e + settled id es

unfoldable pub IsBalanced : RelayCoachProvider → Type 0
IsBalanced p =
    (id : Text)
    → (asked id p.effects ≡ settled id p.effects + occurs id p.open_timers)
      × (occurs id p.open_timers ≡ occurs id p.pending_surface_opens)
      × (occurs id p.pending_surface_opens ≤ 1)

abbrev pub text_eq : Eq Text
text_eq = list_eq

module _ {ℓ} {V : Type ℓ} where
  pub occurs-erase :
      (k id : Text) (m : Map Text V) → occurs id (erase k m) ≡ (if k == id then 0 else occurs id m)
  unfolding erase
  occurs-erase k id [] = ground arith
  occurs-erase k id ((j, v) ∷ m) =
      ground (
        arith,
        text_eq.beq_iff k id,
        text_eq.beq_iff j k,
        text_eq.beq_iff j id,
        occurs-erase k id m,
      )

  pub occurs-insert :
      (k id : Text) (v : V) (m : Map Text V)
      → occurs k m ≡ 0
      → occurs id (insert k v m) ≡ occurs id m + (if k == id then 1 else 0)
  unfolding insert
  occurs-insert k id v [] h = omega arith
  occurs-insert k id v ((j, w) ∷ m) h = ground (
    arith,
    text_eq.beq_iff k id,
    text_eq.beq_iff j k,
    text_eq.beq_iff j id,
    occurs-insert k id v m,
  )

  pub occurs-keep :
      (p : Text × V → Bool) (id : Text) (m : Map Text V) → occurs id (keep p m) ≤ occurs id m
  occurs-keep p id [] = omega arith
  occurs-keep p id ((j, w) ∷ m) = ground (arith, occurs-keep p id m)

  pub occurs-some : (k : Text) (v : V) (m : Map Text V) → lookup k m ≡ some v → 1 ≤ occurs k m
  unfolding lookup
  occurs-some k v [] h = ground arith
  occurs-some k v ((j, w) ∷ m) h = ground (arith, occurs-some k v m)

pub settle_one-IsBalanced :
    (k : Text) (result : SurfaceOpenResult) (p : RelayCoachProvider)
    → occurs k p.pending_surface_opens ≡ 1
    → IsBalanced p
    → IsBalanced (record p {
      open_timers = erase k p.open_timers;
      pending_surface_opens = erase k p.pending_surface_opens;
      effects = ProviderEffect.open_settled k result ∷ p.effects;
    })
unfolding IsBalanced
settle_one-IsBalanced k result p one h id =
    let (a, t, o) = h id in
    let timers = occurs-erase k id p.open_timers in
    let pending = occurs-erase k id p.pending_surface_opens in
    elim (Bool-cases (k == id)) [
      | inl e ↦
          let here =
            subst (λ j. occurs j p.pending_surface_opens ≡ 1) ((text_eq.beq_iff k id).0 e) one in
          ground arith
      | inr e ↦ ground arith
    ]

settle_opens-IsBalanced :
    (entries : Map Text Text) (result : SurfaceOpenResult) (p : RelayCoachProvider)
    → ((id : Text) → occurs id entries ≤ occurs id p.pending_surface_opens)
    → IsBalanced p
    → IsBalanced (settle_opens entries result p)
unfolding settle_opens IsBalanced
settle_opens-IsBalanced [] result p le h = h
settle_opens-IsBalanced ((k, model) ∷ entries) result p le h =
    let q : RelayCoachProvider = record p {
      open_timers = erase k p.open_timers;
      pending_surface_opens = erase k p.pending_surface_opens;
      effects = ProviderEffect.open_settled k result ∷ p.effects;
    } in
    let (a, t, o) = h k in
    let same = beq_refl k in
    let le_k = le k in
    let one : occurs k p.pending_surface_opens ≡ 1 = ground arith in
    settle_opens-IsBalanced entries result q
      (λ id.
        let pending = occurs-erase k id p.pending_surface_opens in
        let (a', t', o') = h id in let le' = le id in ground arith)
      (settle_one-IsBalanced k result p one h)

entries_for-le :
    (id key : Text) (opens : Map Text Text) (o : Option Text)
    → lookup id opens ≡ o
    → occurs key (entries_for id opens o) ≤ occurs key opens
entries_for-le id key opens none h = occurs-keep (is_of id) key opens
entries_for-le id key opens (some model) h =
    let there = occurs-some id model opens h in
    elim (Bool-cases (id == key)) [
      | inl e ↦
          let here = subst (λ j. 1 ≤ occurs j opens) ((text_eq.beq_iff id key).0 e) there in
          ground arith
      | inr e ↦ ground arith
    ]

pub finish-IsBalanced :
    (id : Text) (result : SurfaceOpenResult) (p : RelayCoachProvider)
    → IsBalanced p
    → IsBalanced (finish_surface_open id result p)
unfolding finish_surface_open
finish-IsBalanced id result p h =
    settle_opens-IsBalanced _ result p
      (λ key.
        entries_for-le id key p.pending_surface_opens (lookup id p.pending_surface_opens) refl)
      h

-- All of them: nothing is pending any more.
settle_opens-none :
    (entries : Map Text Text) (result : SurfaceOpenResult) (p : RelayCoachProvider)
    → ((id : Text) → occurs id p.pending_surface_opens ≤ occurs id entries)
    → (id : Text) → occurs id (settle_opens entries result p).pending_surface_opens ≡ 0
unfolding settle_opens
settle_opens-none [] result p le id = let none_left = le id in omega (arith, none_left)
settle_opens-none ((k, model) ∷ entries) result p le id =
    settle_opens-none entries result _
      (λ key.
        let fewer = occurs-erase k key p.pending_surface_opens in let le' = le key in ground arith)
      id

pub finish_all-IsBalanced :
    (result : SurfaceOpenResult) (p : RelayCoachProvider)
    → IsBalanced p
    → IsBalanced (finish_all_surface_opens result p)
unfolding finish_all_surface_opens
finish_all-IsBalanced result p h =
    settle_opens-IsBalanced p.pending_surface_opens result p (λ id. omega arith) h

pub finish_all-none :
    (result : SurfaceOpenResult) (p : RelayCoachProvider) (id : Text)
    → occurs id (finish_all_surface_opens result p).pending_surface_opens ≡ 0
unfolding finish_all_surface_opens
finish_all-none result p id =
    settle_opens-none p.pending_surface_opens result p (λ key. omega arith) id
