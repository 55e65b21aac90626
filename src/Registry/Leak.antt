-- ===== src/Registry/Leak.antt =====
-- Two registrations with one key: the first is lost to the cleanup.
use mathlib.Core.Path.{subst}
use tycho_sipwitchqt.Prelude.{
  ℕ, ◌+◌, ◌^◌, ◌≤◌, ◌<◌, ◌≡◌, ◌≢◌, sym, ◌∙◌, true, none, some, List, [], ◌∷◌, inl, inr, arith, All,
  Bool-cases, Option-cases,
}
use tycho_sipwitchqt.Hash.{lookup, remove, insert}
use tycho_sipwitchqt.Registry.{
  Registry, Endpoint, Store, Key, key_eq, key_of, registry_of, create, destroy, deref, has_expired,
  sweep, cleanup,
}
use tycho_sipwitchqt.Registry.Index.{Heap, LivesAt, Below, IsIndex, lookup-release, lookup-Below}
use tycho_sipwitchqt.Registry.Bits.{is_online}
use tycho_sipwitchqt.Registry.Invariant.{Inv, population, IsRanged-lookup, create-Inv}
use tycho_sipwitchqt.Registry.Lifecycle.{sweep-cons, cleanup-Inv}

-- No entry names the address.
abbrev pub Avoids : ℕ → List (Key × ℕ) → Type 0
Avoids p = All (λ (e : Key × ℕ). e.1 ≢ p)

Avoids-fresh :
    (h : Heap) (n : ℕ) (m : List (Key × ℕ)) → Below n h → IsIndex key_eq key_of h m → Avoids n m
Avoids-fresh h n [] b i = tt
Avoids-fresh h n ((k, p) ∷ m) b i =
    let (r, l, _) = i.0 in
    ((λ e. omega (arith, lookup-Below h n p r b l)), Avoids-fresh h n m b i.1)

Avoids-remove : (p : ℕ) (m : List (Key × ℕ)) (k : Key) → Avoids p m → Avoids p (remove key_eq k m)
unfolding remove
Avoids-remove p [] k a = tt
Avoids-remove p ((j, q) ∷ m) k a = elim (Bool-cases (key_eq.same j k)) [
  | inl same ↦ rw same (Avoids-remove p m k a.1)
  | inr other ↦ rw other (a.0, Avoids-remove p m k a.1)
]

sweep-dangling :
    (now : ℕ) (k : Key) (q : ℕ) (m : List (Key × ℕ)) (s t : Store)
    → deref s q ≡ none
    → sweep now ((k, q) ∷ m) s ≢ some t
unfolding sweep
sweep-dangling now k q m s t e = rw (e, sweep) (λ h. cc)

destroy-keeps :
    (s : Store) (q p : ℕ) (v r : Registry)
    → p ≢ q
    → LivesAt s.heap p r
    → LivesAt (destroy q v s).heap p r
unfolding destroy
destroy-keeps s q p v r n l = lookup-release s.heap q p n ∙ l

sweep-keeps :
    (now : ℕ) (m : List (Key × ℕ)) (s t : Store) (p : ℕ) (r : Registry)
    → Avoids p m
    → LivesAt s.heap p r
    → sweep now m s ≡ some t
    → LivesAt t.heap p r
sweep-keeps now [] s t p r a l h =
    let e : s ≡ t = unfold sweep in cc h in subst (λ (u : Store). LivesAt u.heap p r) e l
sweep-keeps now ((k, q) ∷ m) s t p r a l h = elim (Option-cases (deref s q)) [
  | inl e ↦ absurd (sweep-dangling now k q m s t e h)
  | inr (v, e) ↦ elim (Bool-cases (has_expired now v)) [
    | inl old ↦
        sweep-keeps now m (destroy q v s) t p r a.1 (destroy-keeps s q p v r (λ z. a.0 (sym z)) l)
          (rw (sweep-cons now k q m s v e, old) at h)
    | inr new ↦ sweep-keeps now m s t p r a.1 l (rw (sweep-cons now k q m s v e, new) at h)
  ]
]

population-lives : (h : Heap) (p : ℕ) (r : Registry) → LivesAt h p r → 0 < population r.number h
unfolding lookup
population-lives [] p r l = cc
population-lives ((q, v) ∷ h) p r l = ground (arith, population-lives h p r)

module _ (now later : ℕ) (ep twin : Endpoint) (s : Store) (inv : Inv s)
    (first_le : s.first ≤ ep.number) (room : population ep.number s.heap + 2 < 2 ^ 32)
    (same_number : twin.number ≡ ep.number) (same_label : twin.label ≡ ep.label) where
  abbrev pub both : Store
  both = create later twin (create now ep s)

  both-Inv : Inv both
  both-Inv =
      let once : Inv (create now ep s) = create-Inv now ep s inv first_le (omega arith) in
      create-Inv later twin (create now ep s) once (unfold create in omega arith)
        (unfold create in ground (arith, room))

  both-Avoids : Avoids s.next both.registries
  unfolding create insert remove
  both-Avoids = (
    (λ e. omega arith),
    ground (
      arith,
      (key_eq.same_iff (key_of (registry_of now ep)) (key_of (registry_of later twin))).1 (cc),
      Avoids-remove s.next (remove key_eq (key_of (registry_of now ep)) s.registries)
          (key_of (registry_of later twin))
          (Avoids-remove s.next s.registries (key_of (registry_of now ep))
            (Avoids-fresh s.heap s.next s.registries inv.fresh inv.registries)),
    ),
  )

  both-LivesAt : LivesAt both.heap s.next (registry_of now ep)
  unfolding create lookup
  both-LivesAt = ground arith

  -- Where two registrations with the same number and label are created, no cleanup deletes the first,
  -- however late it runs and whatever the timeout: its object stays on the heap, and its number
  -- stays marked as online.
  pub cleanup-both :
      (at : ℕ)
      → (t : Store) × (cleanup at both ≡ some t)
        × LivesAt t.heap s.next (registry_of now ep)
        × (is_online t.first t.online ep.number ≡ true)
  cleanup-both at =
      let (t, e, i) = cleanup-Inv at both both-Inv in
      let live : LivesAt t.heap s.next (registry_of now ep) =
        sweep-keeps at both.registries both t s.next (registry_of now ep) both-Avoids both-LivesAt
          (unfold cleanup in e) in
      (
        t,
        e,
        live,
        ground (
          arith,
          i.shown ep.number (IsRanged-lookup t.heap t.first s.next _ live i.ranged),
          population-lives t.heap s.next _ live,
        ),
      )
