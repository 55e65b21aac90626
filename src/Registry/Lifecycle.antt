-- ===== src/Registry/Lifecycle.antt =====
-- Finding, cleaning up and writing registrations: no operation uses a deleted object, and all keep the
-- invariant.
use mathlib.Core.Path.{subst}
use tycho_sipwitchqt.Prelude.{
  ℕ, ◌≡◌, refl, false, none, some, List, [], ◌∷◌, inl, inr, arith, if◌then◌else◌, Bool-cases,
  Option-cases,
}
use tycho_sipwitchqt.Sip.{Event}
use tycho_sipwitchqt.Hash.{lookup, remove, nat_eq}
use tycho_sipwitchqt.Registry.{
  Registry, Store, Key, Found, key_eq, string_eq, key_of, release, write, destroy, has_expired,
  unless_expired, check_found, find_event, find_endpoint, sweep, cleanup,
}
use tycho_sipwitchqt.Registry.Index.{
  LivesAt, IsIndex, IsDistinct, remove-absent, Below-write, IsIndex-remove, IsIndex-write,
  IsIndex-lookup,
}
use tycho_sipwitchqt.Registry.Invariant.{
  Inv, number_of, user_of, endpoint_of, population-write, IsRanged-write, IsRanged-lookup,
  destroy-Inv,
}

-- The result of a find: an object that is found is live, has not expired and passes the test.
abbrev pub IsFound : ℕ → (Registry → Type 0) → Found → Type 0
IsFound now P (s, none) = Unit
IsFound now P (s, some (p, r)) = LivesAt s.heap p r × (has_expired now r ≡ false) × P r

module _ (now : ℕ) (s : Store) (inv : Inv s) where
  unless_expired-Inv :
      (P : Registry → Type 0) (p : ℕ) (r : Registry)
      → LivesAt s.heap p r
      → P r
      → Inv (unless_expired now s p r).0 × IsFound now P (unless_expired now s p r)
  unfolding unless_expired
  unless_expired-Inv P p r l h = elim (Bool-cases (has_expired now r)) [
    | inl old ↦ rw old (destroy-Inv s inv p r l, tt)
    | inr new ↦ rw new (inv, (l, new, h))
  ]

  found_at :
      (P : Registry → Type 0) (p : ℕ) (r : Registry)
      → LivesAt s.heap p r
      → P r
      → (f : Found) × (check_found now s (some p) ≡ some f) × Inv f.0 × IsFound now P f
  unfolding check_found
  found_at P p r l h =
      let (i, f) = unless_expired-Inv P p r l h in
      (unless_expired now s p r, rw (l, check_found) refl, i, f)

  -- Looking up the registration of an event never uses a deleted object, keeps the invariant, and
  -- finds only a live registration of the event's number and label that has not expired.
  pub find_event-Inv :
      (ev : Event)
      → (f : Found) × (find_event now ev s ≡ some f)
        × Inv f.0
        × IsFound now (λ r. key_of r ≡ (ev.number, ev.label)) f
  unfolding find_event check_found
  find_event-Inv ev = elim (Option-cases (lookup key_eq (ev.number, ev.label) s.registries)) [
    | inl e ↦ ((s, none), rw e refl, inv, tt)
    | inr (p, e) ↦
        let (r, l, k) =
          IsIndex-lookup key_eq key_of s.heap s.registries (ev.number, ev.label) p e
            inv.registries in
        rw e (found_at (λ r. key_of r ≡ (ev.number, ev.label)) p r l k)
  ]

  -- The same of looking up an endpoint by its id.
  pub find_endpoint-Inv :
      (key : ℕ)
      → (f : Found) × (find_endpoint now key s ≡ some f)
        × Inv f.0
        × IsFound now (λ r. r.endpoint ≡ key) f
  unfolding find_endpoint check_found
  find_endpoint-Inv key = elim (Option-cases (lookup nat_eq key s.endpoints)) [
    | inl e ↦ ((s, none), rw e refl, inv, tt)
    | inr (p, e) ↦
        let (r, l, k) =
          IsIndex-lookup nat_eq endpoint_of s.heap s.endpoints key p e inv.endpoints in
        rw e (found_at (λ r. r.endpoint ≡ key) p r l k)
  ]

  -- Writing a live object whose number, label, user and endpoint are as they were.
  pub write-Inv :
      (p : ℕ) (r v : Registry)
      → LivesAt s.heap p r
      → v.number ≡ r.number
      → v.label ≡ r.label
      → v.user ≡ r.user
      → v.endpoint ≡ r.endpoint
      → Inv (record s { heap = write p v s.heap })
  write-Inv p r v l en el eu ee = record {
    fresh = Below-write s.heap s.next p v inv.fresh;
    ranged =
        IsRanged-write s.heap s.first p v
          (omega (arith, IsRanged-lookup s.heap s.first p r l inv.ranged)) inv.ranged;
    extensions = IsIndex-write nat_eq number_of s.heap s.extensions p r v l en inv.extensions;
    aliases = IsIndex-write string_eq user_of s.heap s.aliases p r v l eu inv.aliases;
    registries = IsIndex-write key_eq key_of s.heap s.registries p r v l (cc) inv.registries;
    endpoints = IsIndex-write nat_eq endpoint_of s.heap s.endpoints p r v l ee inv.endpoints;
    distinct = inv.distinct;
    room = λ n. omega (arith, inv.room n, population-write s.heap p n r v l en);
    counted = λ n. omega (arith, inv.counted n, population-write s.heap p n r v l en);
    bytes = inv.bytes;
    shown = λ n h. rw (population-write s.heap p n r v l en) (inv.shown n h);
  }

pub sweep-cons :
    (now : ℕ) (k : Key) (p : ℕ) (m : List (Key × ℕ)) (s : Store) (r : Registry)
    → LivesAt s.heap p r
    → sweep now ((k, p) ∷ m) s ≡ sweep now m (if has_expired now r then destroy p r s else s)
unfolding sweep
sweep-cons now k p m s r l = rw (l, sweep) refl

-- What is left of the snapshot names live objects after the head's object is deleted.
destroy-IsIndex :
    (m : List (Key × ℕ)) (s : Store) (k : Key) (p : ℕ) (r : Registry)
    → LivesAt s.heap p r
    → key_of r ≡ k
    → lookup key_eq k m ≡ none
    → IsIndex key_eq key_of s.heap m
    → IsIndex key_eq key_of (destroy p r s).heap m
unfolding destroy
destroy-IsIndex m s k p r l e absent i =
    let kept : IsIndex key_eq key_of (release p s.heap) (remove key_eq (key_of r) m) =
      IsIndex-remove key_eq key_of s.heap m p r l i in
    let same : remove key_eq (key_of r) m ≡ m = rw e (remove-absent key_eq m k absent) in
    subst (IsIndex key_eq key_of (release p s.heap)) same kept

sweep-Inv :
    (now : ℕ) (m : List (Key × ℕ)) (s : Store)
    → Inv s
    → IsIndex key_eq key_of s.heap m
    → IsDistinct key_eq m
    → (t : Store) × (sweep now m s ≡ some t) × Inv t
sweep-Inv now [] s inv i d = (s, unfold sweep in refl, inv)
sweep-Inv now ((k, p) ∷ m) s inv i d =
    let (r, l, e) = i.0 in
    elim (Bool-cases (has_expired now r)) [
      | inl old ↦
          rw (sweep-cons now k p m s r l, old)
            (sweep-Inv now m (destroy p r s) (destroy-Inv s inv p r l)
              (destroy-IsIndex m s k p r l e d.0 i.1) d.1)
      | inr new ↦ rw (sweep-cons now k p m s r l, new) (sweep-Inv now m s inv i.1 d.1)
    ]

-- The cleanup never uses a deleted object, though it walks a snapshot of the hash while it deletes,
-- and it keeps the invariant.
pub cleanup-Inv : (now : ℕ) (s : Store) → Inv s → (t : Store) × (cleanup now s ≡ some t) × Inv t
unfolding cleanup
cleanup-Inv now s inv = sweep-Inv now s.registries s inv inv.registries inv.distinct
