-- ===== src/Database/Wiring/Gone.antt =====
-- From the database back to the registry: which registrations its signals delete.
use tycho_sipwitchqt.Prelude.{
  ℕ, ◌≡◌, refl, ap, none, some, List, [], ◌∷◌, ◌⊎◌, inl, inr, arith, Option-cases,
}
use mathlib.Core.Path.{subst}
use tycho_sipwitchqt.Hash.{lookup, nat_eq}
use tycho_sipwitchqt.Registry.{Registry, Store, find_endpoint, check_found, unless_expired, destroy}
use tycho_sipwitchqt.Registry.Index.{
  LivesAt, IsIndex-lookup, lookup-remove_self, lookup-remove-none,
}
use tycho_sipwitchqt.Registry.Invariant.{Inv, destroy-Inv, endpoint_of}
use tycho_sipwitchqt.Manager.Register.{drop_endpoint, dropped}
use tycho_sipwitchqt.Database.Profile.{disconnect_endpoint}
use tycho_sipwitchqt.Database.Wiring.{Told, sent, disconnect}

-- No registration is found for an endpoint.
abbrev pub Gone : ℕ → Store → Type 0
Gone e s = lookup nat_eq e s.endpoints ≡ none

destroy-Gone : (p e : ℕ) (r : Registry) (s : Store) → r.endpoint ≡ e → Gone e (destroy p r s)
unfolding destroy
destroy-Gone p e r s same = rw same (lookup-remove_self nat_eq s.endpoints e)

Gone-destroy : (p e : ℕ) (r : Registry) (s : Store) → Gone e s → Gone e (destroy p r s)
unfolding destroy
Gone-destroy p e r s gone = lookup-remove-none nat_eq s.endpoints e r.endpoint gone

-- A store after an endpoint is dropped: nothing was found, or one object is deleted, be it expired or not.
record Drops (now e : ℕ) (s t : Store) : Type 0 where
  runs : drop_endpoint now e s ≡ some t
  inv : Inv t
  gone : Gone e t
  keeps : (k : ℕ) → Gone k s → Gone k t

find_endpoint-live :
    (now e p : ℕ) (r : Registry) (s : Store)
    → lookup nat_eq e s.endpoints ≡ some p
    → LivesAt s.heap p r
    → find_endpoint now e s ≡ some (unless_expired now s p r)
unfolding find_endpoint check_found
find_endpoint-live now e p r s at live = rw at (rw (live, check_found) refl)

dropped-unless_expired :
    (now p : ℕ) (r : Registry) (s : Store) → dropped (unless_expired now s p r) ≡ destroy p r s
unfolding dropped unless_expired
dropped-unless_expired now p r s = ground arith

drop_found :
    (now e p : ℕ) (r : Registry) (s : Store)
    → lookup nat_eq e s.endpoints ≡ some p
    → LivesAt s.heap p r
    → drop_endpoint now e s ≡ some (destroy p r s)
unfolding drop_endpoint
drop_found now e p r s at live =
    rw (find_endpoint-live now e p r s at live, drop_endpoint)
      (ap some (dropped-unless_expired now p r s))

find_endpoint-Gone : (now e : ℕ) (s : Store) → Gone e s → find_endpoint now e s ≡ some (s, none)
unfolding find_endpoint check_found
find_endpoint-Gone now e s gone = rw gone refl

drop_none : (now e : ℕ) (s : Store) → Gone e s → drop_endpoint now e s ≡ some s
unfolding drop_endpoint dropped
drop_none now e s gone = rw (find_endpoint-Gone now e s gone, drop_endpoint) refl

drop_endpoint-Drops : (now e : ℕ) (s : Store) → Inv s → (t : Store) × Drops now e s t
drop_endpoint-Drops now e s inv = elim (Option-cases (lookup nat_eq e s.endpoints)) [
  | inl gone ↦
      (s, record { runs = drop_none now e s gone; inv = inv; gone = gone; keeps = λ k g. g })
  | inr (p, at) ↦
      let (r, live, same) =
        IsIndex-lookup nat_eq endpoint_of s.heap s.endpoints e p at inv.endpoints in
      (
        destroy p r s,
        record {
          runs = drop_found now e p r s at live;
          inv = destroy-Inv s inv p r live;
          gone = destroy-Gone p e r s same;
          keeps = λ k. Gone-destroy p k r s;
        },
      )
]

-- The endpoint is one that the slot told the manager to disconnect.
abbrev pub IsTold : ℕ → List Told → Type 0
IsTold e [] = ⊥
IsTold e (sent (disconnect_endpoint k) ∷ told) = (k ≡ e) ⊎ IsTold e told
IsTold e (_ ∷ told) = IsTold e told

record Disconnects (now : ℕ) (told : List Told) (s t : Store) : Type 0 where
  runs : disconnect now told s ≡ some t
  inv : Inv t
  gone : (e : ℕ) → IsTold e told → Gone e t
  keeps : (e : ℕ) → Gone e s → Gone e t

disconnect-Disconnects :
    (now : ℕ) (told : List Told) (s : Store) → Inv s → (t : Store) × Disconnects now told s t
unfolding disconnect
disconnect-Disconnects now [] s inv =
    (s, record { runs = refl; inv = inv; gone = λ e (h : ⊥). absurd h; keeps = λ e g. g })
disconnect-Disconnects now (sent (disconnect_endpoint k) ∷ told) s inv =
    let (t, d) = drop_endpoint-Drops now k s inv in
    let (u, rest) = disconnect-Disconnects now told t d.inv in
    (
      u,
      record {
        runs = rw (d.runs, disconnect) rest.runs;
        inv = rest.inv;
        gone = λ e told_so. elim told_so [
          | inl same ↦ rest.keeps e (subst (λ i. Gone i t) same d.gone)
          | inr later ↦ rest.gone e later
        ];
        keeps = λ e g. rest.keeps e (d.keeps e g);
      },
    )
disconnect-Disconnects now (_ ∷ told) s inv =
    let (u, rest) = disconnect-Disconnects now told s inv in
    (u, record { runs = rest.runs; inv = rest.inv; gone = rest.gone; keeps = rest.keeps })

-- Whatever the slots of the database send, in a store that has the registry's invariant: the manager
-- carries out all the disconnects with no use of a deleted object and keeps the invariant, and then at no
-- time is a registration found for an endpoint that the database has named, or that had none before.
pub disconnect-Gone :
    (now later : ℕ) (told : List Told) (s : Store)
    → Inv s
    → (t : Store) × (disconnect now told s ≡ some t)
      × Inv t
      × ((e : ℕ) → IsTold e told ⊎ Gone e s → find_endpoint later e t ≡ some (t, none))
disconnect-Gone now later told s inv =
    let (t, d) = disconnect-Disconnects now told s inv in
    (
      t,
      d.runs,
      d.inv,
      λ e why. elim why [
        | inl named ↦ find_endpoint-Gone later e t (d.gone e named)
        | inr before ↦ find_endpoint-Gone later e t (d.keeps e before)
      ],
    )
