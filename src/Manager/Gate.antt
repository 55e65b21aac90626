-- ===== src/Manager/Gate.antt =====
-- The request handlers, and what lets a request through: the credentials of a live registration.
use mathlib.Core.Path.{subst}
use tycho_sipwitchqt.Prelude.{
  ℕ, String, ◌≡◌, ◌≢◌, refl, sym, true, false, none, some, List, [], ◌∷◌, ◌⊎◌, inl, inr, arith,
  Bool-cases,
}
use tycho_sipwitchqt.UString.{Bytes}
use tycho_sipwitchqt.Sip.{Event, Status, ok, forbidden, Algorithm}
use tycho_sipwitchqt.Registry.{Registry, Store, Found, key_of, has_expired}
use tycho_sipwitchqt.Registry.Index.{LivesAt}
use tycho_sipwitchqt.Registry.Invariant.{Inv}
use tycho_sipwitchqt.Registry.Lifecycle.{IsFound, find_event-Inv}
use tycho_sipwitchqt.Registry.Access.{authenticate, HasCredentials, authenticate-ok}
use tycho_sipwitchqt.Manager.{
  Action, reply, emit, relay, challenge_with, when_authentic, gate_found, gate,
}

-- A live registration of the event's number and label, with a context, whose credentials the event has.
pub record IsTrusted (hash : Algorithm → String → String) (hex : Bytes → String) (now : ℕ)
    (ev : Event) (s : Store) (r : Registry) : Type 0 where
  pub address : ℕ
  pub live : LivesAt s.heap address r
  pub fresh : has_expired now r ≡ false
  pub key : key_of r ≡ (ev.number, ev.label)
  pub context : r.context ≢ none
  pub credentials : HasCredentials hash hex r ev

-- An answer to the request, and no signal.
abbrev pub IsAnswer : Action → Type 0
IsAnswer (emit signal) = ⊥
IsAnswer relay = ⊥
IsAnswer _ = Unit

-- The actions are one answer that is no signal, or those of `rest` for a trusted registration.
abbrev pub IsGated :
    (Algorithm → String → String)
    → (Bytes → String)
    → ℕ
    → Event
    → (Registry → List Action)
    → Store × List Action
    → Type 0
IsGated hash hex now ev rest (t, acts) =
    ((a : Action) × (acts ≡ a ∷ []) × IsAnswer a)
    ⊎ ((r : Registry) × IsTrusted hash hex now ev t r × (acts ≡ rest r))

module _ (hash : Algorithm → String → String) (hex : Bytes → String) (now : ℕ) (ev : Event)
    (rest : Registry → List Action) where
  when_authentic-refused :
      (r : Registry)
      → authenticate hash hex now ev r ≢ ok
      → when_authentic hash hex now ev r (rest r) ≡ reply (authenticate hash hex now ev r) ∷ []
  unfolding when_authentic
  when_authentic-refused r n = ground arith

  when_authentic-ok :
      (r : Registry)
      → authenticate hash hex now ev r ≡ ok
      → when_authentic hash hex now ev r (rest r) ≡ rest r
  unfolding when_authentic
  when_authentic-ok r e = rw (e, when_authentic) refl

  ok-cases : (result : Status) → (result ≡ ok) ⊎ (result ≢ ok)
  ok-cases result = ground arith

  gate_found-missing :
      (t : Store) (p : ℕ) (r : Registry)
      → ev.authorization ≡ false
      → gate_found hash hex now ev rest (t, some (p, r)) ≡ (t, challenge_with ev r r.random ∷ [])
  unfolding gate_found
  gate_found-missing t p r e = ground arith

  gate_found-given :
      (t : Store) (p : ℕ) (r : Registry)
      → ev.authorization ≡ true
      → gate_found hash hex now ev rest (t, some (p, r))
        ≡ (t, when_authentic hash hex now ev r (rest r))
  unfolding gate_found
  gate_found-given t p r e = ground arith

  gate_found-IsGated :
      (f : Found)
      → IsFound now (λ r. key_of r ≡ (ev.number, ev.label)) f
      → IsGated hash hex now ev rest (gate_found hash hex now ev rest f)
  gate_found-IsGated (t, none) i = unfold gate_found in inl (reply forbidden, refl, tt)
  gate_found-IsGated (t, some (p, r)) (live, fresh, key) = elim (Bool-cases ev.authorization) [
    | inl given ↦
        rw (gate_found-given t p r given) (elim (ok-cases (authenticate hash hex now ev r)) [
          | inl e ↦
              let (_, context, credentials, _) = (authenticate-ok hash hex now ev r).0 e in
              inr (
                r,
                record {
                  address = p;
                  live = live;
                  fresh = fresh;
                  key = key;
                  context = context;
                  credentials = credentials;
                },
                when_authentic-ok r e,
              )
          | inr n ↦ inl (reply (authenticate hash hex now ev r), when_authentic-refused r n, tt)
        ])
    | inr missing ↦
        rw (gate_found-missing t p r missing)
          (inl (challenge_with ev r r.random, refl, unfold challenge_with in tt))
  ]

  gate_found-store : (f : Found) → (gate_found hash hex now ev rest f).0 ≡ f.0
  unfolding gate_found
  gate_found-store (t, none) = refl
  gate_found-store (t, some (p, r)) = ground arith

  pub gate-IsGated :
      (s : Store)
      → Inv s
      → (o : Store × List Action) × (gate hash hex now ev rest s ≡ some o)
        × Inv o.0
        × IsGated hash hex now ev rest o
  unfolding gate
  gate-IsGated s inv =
      let (f, e, i, found) = find_event-Inv now s inv ev in
      (
        gate_found hash hex now ev rest f,
        rw (e, gate) refl,
        subst Inv (sym (gate_found-store f)) i,
        gate_found-IsGated f found,
      )
