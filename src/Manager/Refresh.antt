-- ===== src/Manager/Refresh.antt =====
-- What Manager::refreshRegistration answers, and that it keeps the registry's invariant.
use tycho_sipwitchqt.Prelude.{
  Option-cases, ℕ, String, ◌≡◌, ◌≢◌, refl, ap, true, false, not, Option, none, some, List, [], ◌∷◌,
  ◌++◌, ◌⊎◌, inl, inr, arith, Bool-cases, if◌then◌else◌, either,
}
use tycho_sipwitchqt.UString.{Bytes}
use tycho_sipwitchqt.Sip.{Event, Status, ok, forbidden, Algorithm}
use tycho_sipwitchqt.Hash.{lookup}
use tycho_sipwitchqt.Registry.{
  Registry, Store, key_eq, key_of, find_event, check_found, unless_expired, destroy, has_expired,
}
use tycho_sipwitchqt.Registry.Index.{LivesAt, IsIndex-lookup, lookup-write}
use tycho_sipwitchqt.Registry.Invariant.{Inv, destroy-Inv}
use tycho_sipwitchqt.Registry.Lifecycle.{write-Inv}
use tycho_sipwitchqt.Registry.Access.{
  set_nounce, authorize, HasCredentials, authorize-ok, authorize-refused,
}
use tycho_sipwitchqt.Registry.Replay.{authorize-keys}
use tycho_sipwitchqt.Manager.{
  Action, Outcome, reply, authorized, emit, find_endpoint_for, last_access, challenge_with, put,
  expires_of, uri_of, Xdp,
}
use tycho_sipwitchqt.Manager.Register.{Served, refreshed, refresh_found, refresh_registration}

pub put-LivesAt :
    (p : ℕ) (r v : Registry) (s : Store) → LivesAt s.heap p r → LivesAt (put p v s).heap p v
put-LivesAt p r v s l = rw (lookup-write s.heap p p v) (ground (arith, l))

pub set_nounce-Inv :
    (now p : ℕ) (r : Registry) (s : Store) (nonce : Bytes)
    → Inv s
    → LivesAt s.heap p r
    → Inv (put p (set_nounce nonce r) s)
unfolding set_nounce
set_nounce-Inv now p r s nonce i l = write-Inv now s i p r _ l refl refl refl refl

module _ (hash : Algorithm → String → String) (hex : Bytes → String) (now : ℕ) (nonce : Bytes)
    (served : Served) (ev : Event) where
  abbrev pub after : Registry → Registry
  after r = (authorize hash hex now ev r).1

  -- The last access is recorded of a registration that was not active.
  abbrev pub accessed : Registry → List Action
  accessed r =
      if not r.active then emit (last_access (after r).endpoint (uri_of (after r))) ∷ [] else []

  abbrev settled : Store → ℕ → Registry → Store
  settled s p r =
      if has_expired now (after r)
      then destroy p (after r) (put p (after r) s)
      else put p (after r) s

  abbrev pub IsAccepted : Registry → Type 0
  IsAccepted r = HasCredentials hash hex r ev × (ev.once ≡ hex r.random)

  -- What the registration `r` at the address `p` of the store `s` makes of the event. Without authorization
  -- it is challenged with the new nonce, which the registration then holds; otherwise the registration
  -- is then as `authorize` leaves it, or deleted where it has expired so, and the answer is 200 where the event
  -- has the credentials under the present nonce, and 403 where it has not.
  abbrev pub IsAnswered : Store → Registry → ℕ → Store × List Action → Type 0
  IsAnswered s r p (t, acts) =
      ((ev.authorization ≡ false)
        × (acts ≡ challenge_with ev r nonce ∷ [])
        × (t ≡ put p (set_nounce nonce r) s))
      ⊎ ((ev.authorization ≡ true)
          × (t ≡ settled s p r)
          × ((IsAccepted r
                × ((x : Option Xdp) × (acts
                      ≡ accessed r ++ authorized (expires_of (after r)) x ∷ [])))
              ⊎ ((¬ IsAccepted r) × (acts ≡ reply forbidden ∷ []))))

  -- The live object of the event's number and label at an address of a store.
  abbrev pub IsOwn : Store → ℕ → Registry → Type 0
  IsOwn s p r = LivesAt s.heap p r × (key_of r ≡ (ev.number, ev.label))

  -- The database is asked where the store has no registration for the event, or one that has expired and is
  -- deleted; or the store's registration answers.
  abbrev pub IsRefreshed : Store → Store × List Action → Type 0
  IsRefreshed s (t, acts) =
      ((acts ≡ emit find_endpoint_for ∷ [])
        × (((lookup key_eq (ev.number, ev.label) s.registries ≡ none) × (t ≡ s))
            ⊎ ((p : ℕ) × (r : Registry) × IsOwn s p r
                × (has_expired now r ≡ true)
                × (t ≡ destroy p r s))))
      ⊎ ((p : ℕ) × (r : Registry) × IsOwn s p r
          × (has_expired now r ≡ false)
          × IsAnswered s r p (t, acts))

  refresh_found-missing :
      (s : Store) (p : ℕ) (r : Registry)
      → ev.authorization ≡ false
      → refresh_found hash hex now nonce served ev (s, some (p, r))
        ≡ (put p (set_nounce nonce r) s, challenge_with ev r nonce ∷ [])
  unfolding refresh_found
  refresh_found-missing s p r e = ground arith

  refresh_found-given :
      (s : Store) (p : ℕ) (r : Registry)
      → ev.authorization ≡ true
      → refresh_found hash hex now nonce served ev (s, some (p, r)) ≡ (
        settled s p r,
        refreshed served ev r (authorize hash hex now ev r).0 (after r) (put p (after r) s),
      )
  unfolding refresh_found
  refresh_found-given s p r e = ground arith

  authorized-Inv :
      (s : Store) (p : ℕ) (r : Registry) → Inv s → LivesAt s.heap p r → Inv (settled s p r)
  authorized-Inv s p r i l =
      let (en, el, eu, ee, _) = authorize-keys hash hex now ev r in
      let kept : Inv (put p (after r) s) = write-Inv now s i p r (after r) l en el eu ee in
      either Inv (has_expired now (after r)) _ _
        (λ old. destroy-Inv (put p (after r) s) kept p (after r) (put-LivesAt p r (after r) s l))
        (λ new. kept)

  refreshed-ok :
      (r : Registry) (s : Store)
      → (x : Option Xdp) × (refreshed served ev r ok (after r) s
          ≡ accessed r ++ authorized (expires_of (after r)) x ∷ [])
  unfolding refreshed
  refreshed-ok r s = (_, refl)

  refreshed-refused :
      (s : Store) (r : Registry)
      → (authorize hash hex now ev r).0 ≢ ok
      → refreshed served ev r (authorize hash hex now ev r).0 (after r) s ≡ reply forbidden ∷ []
  unfolding refreshed
  refreshed-refused s r n =
      let status : (authorize hash hex now ev r).0 ≡ forbidden =
        ap (λ (o : Status × Registry). o.0) (authorize-refused hash hex now ev r n) in
      rw (status, refreshed) refl

  ok-cases : (result : Status) → (result ≡ ok) ⊎ (result ≢ ok)
  ok-cases result = ground arith

  given-IsAnswered :
      (s s' : Store) (p : ℕ) (r : Registry)
      → ev.authorization ≡ true
      → IsAnswered s r p
          (settled s p r, refreshed served ev r (authorize hash hex now ev r).0 (after r) s')
  given-IsAnswered s s' p r given = elim (ok-cases (authorize hash hex now ev r).0) [
    | inl e ↦
        rw e (inr (given, refl, inl ((authorize-ok hash hex now ev r).0 e, refreshed-ok r s')))
    | inr n ↦
        inr (
          given,
          refl,
          inr (λ h. n ((authorize-ok hash hex now ev r).1 h), refreshed-refused s' r n),
        )
  ]

  live-IsRefreshed :
      (s : Store) (p : ℕ) (r : Registry)
      → Inv s
      → IsOwn s p r
      → has_expired now r ≡ false
      → Inv (refresh_found hash hex now nonce served ev (s, some (p, r))).0
        × IsRefreshed s (refresh_found hash hex now nonce served ev (s, some (p, r)))
  live-IsRefreshed s p r i own fresh = elim (Bool-cases ev.authorization) [
    | inl given ↦ rw (refresh_found-given s p r given) (
      authorized-Inv s p r i own.0,
      inr (p, r, own, fresh, given-IsAnswered s (put p (after r) s) p r given),
    )
    | inr missing ↦
        rw (refresh_found-missing s p r missing) (
          set_nounce-Inv now p r s nonce i own.0,
          inr (p, r, own, fresh, inl (missing, refl, refl)),
        )
  ]

  abbrev IsDone : Store → Outcome → Type 0
  IsDone s out = (o : Store × List Action) × (out ≡ some o) × Inv o.0 × IsRefreshed s o

  refresh-absent :
      (s : Store)
      → Inv s
      → lookup key_eq (ev.number, ev.label) s.registries ≡ none
      → IsDone s (refresh_registration hash hex now nonce served ev s)
  unfolding refresh_registration find_event check_found refresh_found
  refresh-absent s inv gone = (
    (s, emit find_endpoint_for ∷ []),
    rw (gone, refresh_registration) refl,
    inv,
    inl (refl, inl (gone, refl)),
  )

  find_event-live :
      (s : Store) (p : ℕ) (r : Registry)
      → lookup key_eq (ev.number, ev.label) s.registries ≡ some p
      → LivesAt s.heap p r
      → find_event now ev s ≡ some (unless_expired now s p r)
  unfolding find_event check_found
  find_event-live s p r at live = rw at (rw (live, check_found) refl)

  found_event :
      (s : Store) (p : ℕ) (r : Registry)
      → lookup key_eq (ev.number, ev.label) s.registries ≡ some p
      → LivesAt s.heap p r
      → refresh_registration hash hex now nonce served ev s
        ≡ some (refresh_found hash hex now nonce served ev (unless_expired now s p r))
  unfolding refresh_registration
  found_event s p r at live = rw (find_event-live s p r at live, refresh_registration) refl

  refresh-own :
      (s : Store) (p : ℕ) (r : Registry)
      → Inv s
      → lookup key_eq (ev.number, ev.label) s.registries ≡ some p
      → IsOwn s p r
      → IsDone s (refresh_registration hash hex now nonce served ev s)
  unfolding unless_expired refresh_found
  refresh-own s p r inv at own =
      rw (found_event s p r at own.0) (elim (Bool-cases (has_expired now r)) [
        | inl old ↦ rw old (
          (destroy p r s, emit find_endpoint_for ∷ []),
          refl,
          destroy-Inv s inv p r own.0,
          inl (refl, inr (p, r, own, old, refl)),
        )
        | inr fresh ↦
            let (kept, refreshes) = live-IsRefreshed s p r inv own fresh in
            rw fresh
              (refresh_found hash hex now nonce served ev (s, some (p, r)), refl, kept, refreshes)
      ])

  -- In a store that has the registry's invariant, a REGISTER that reaches the manager never uses a
  -- deleted object and keeps the invariant. The database is asked exactly where the store has no
  -- registration of its number and label, or an expired one, which is deleted. Otherwise the store's live
  -- registration answers: without authorization it challenges with the new nonce, and then holds it; with
  -- its own credentials under its present nonce it answers 200, after the last access where it was not
  -- active; with any others 403. It is then as `authorize` leaves it, or deleted where it has expired so.
  pub refresh_registration-IsRefreshed :
      (s : Store)
      → Inv s
      → (o : Store × List Action) × (refresh_registration hash hex now nonce served ev s ≡ some o)
        × Inv o.0
        × IsRefreshed s o
  refresh_registration-IsRefreshed s inv =
      elim (Option-cases (lookup key_eq (ev.number, ev.label) s.registries)) [
        | inl gone ↦ refresh-absent s inv gone
        | inr (p, at) ↦
            let (r, live, key) =
              IsIndex-lookup key_eq key_of s.heap s.registries (ev.number, ev.label) p at
                inv.registries in
            refresh-own s p r inv at (live, key)
      ]
