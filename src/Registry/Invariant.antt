-- ===== src/Registry/Invariant.antt =====
-- The invariant of the registry's static data, and that every operation keeps it.
use tycho_sipwitchqt.Prelude.{
  ℕ, suc, ◌+◌, ◌-◌, ◌%◌, ◌^◌, ◌≤◌, ◌<◌, ◌≡◌, false, [], ◌∷◌, String, arith, ltb, eqb, if◌then◌else◌,
  All,
}
use tycho_sipwitchqt.Hash.{lookup, nat_eq}
use tycho_sipwitchqt.Registry.{
  Registry, Endpoint, Store, key_eq, string_eq, key_of, release, write, create, destroy,
}
use tycho_sipwitchqt.Registry.Index.{
  Heap, LivesAt, Below, IsIndex, IsDistinct, IsDistinct-insert, IsDistinct-remove, Below-suc,
  Below-release, IsIndex-remove, IsIndex-remove_pair, IsIndex-insert, IsIndex-multi_insert,
}
use tycho_sipwitchqt.Registry.Bits.{
  IsBytes, test_bit, is_online, set_bit-IsBytes, unset_bit-IsBytes, is_online-set_bit,
  is_online-unset_bit,
}

-- How many live objects have a number.
abbrev pub population : ℕ → Heap → ℕ
population n [] = 0
population n ((p, r) ∷ h) = let rest = population n h in if eqb r.number n then suc rest else rest

abbrev pub IsRanged : ℕ → Heap → Type 0
IsRanged first = All (λ (e : ℕ × Registry). first ≤ e.1.number)

abbrev pub number_of : Registry → ℕ
number_of r = r.number

abbrev pub user_of : Registry → String
user_of r = r.user

abbrev pub endpoint_of : Registry → ℕ
endpoint_of r = r.endpoint

-- The hashes name live objects under their own keys, `count` counts the live objects, and the bits
-- of `online` show where it is not 0.
pub record Inv (s : Store) : Type 0 where
  pub fresh : Below s.next s.heap
  pub ranged : IsRanged s.first s.heap
  pub extensions : IsIndex nat_eq number_of s.heap s.extensions
  pub aliases : IsIndex string_eq user_of s.heap s.aliases
  pub registries : IsIndex key_eq key_of s.heap s.registries
  pub endpoints : IsIndex nat_eq endpoint_of s.heap s.endpoints
  pub distinct : IsDistinct key_eq s.registries
  pub room : (n : ℕ) → population n s.heap < 2 ^ 32
  pub counted : (n : ℕ) → s.count n ≡ population n s.heap
  pub bytes : IsBytes s.online
  pub shown : (n : ℕ) → s.first ≤ n → is_online s.first s.online n ≡ ltb 0 (population n s.heap)

population-release :
    (h : Heap) (p n : ℕ) (r : Registry)
    → LivesAt h p r
    → population n (release p h) + (if eqb r.number n then 1 else 0) ≡ population n h
unfolding lookup release
population-release [] p n r l = cc
population-release ((q, v) ∷ h) p n r l = ground (arith, population-release h p n r)

pub population-write :
    (h : Heap) (p n : ℕ) (r v : Registry)
    → LivesAt h p r
    → v.number ≡ r.number
    → population n (write p v h) ≡ population n h
unfolding lookup write
population-write [] p n r v l e = cc
population-write ((q, w) ∷ h) p n r v l e = ground (arith, population-write h p n r v)

IsRanged-release : (h : Heap) (first p : ℕ) → IsRanged first h → IsRanged first (release p h)
unfolding release
IsRanged-release [] first p i = tt
IsRanged-release ((q, v) ∷ h) first p i = ground (arith, i.1, IsRanged-release h first p i.1)

pub IsRanged-lookup :
    (h : Heap) (first p : ℕ) (r : Registry) → LivesAt h p r → IsRanged first h → first ≤ r.number
unfolding lookup
IsRanged-lookup [] first p r l i = cc
IsRanged-lookup ((q, v) ∷ h) first p r l i = ground (arith, IsRanged-lookup h first p r, i.1)

pub IsRanged-write :
    (h : Heap) (first p : ℕ) (v : Registry)
    → first ≤ v.number
    → IsRanged first h
    → IsRanged first (write p v h)
unfolding write
IsRanged-write [] first p v f i = tt
IsRanged-write ((q, w) ∷ h) first p v f i = ground (arith, i.1, IsRanged-write h first p v f i.1)

zero_bit : (k : ℕ) → test_bit 0 k ≡ false
unfolding test_bit
zero_bit k = ground arith

pub empty_online : (first n : ℕ) → is_online first (λ i. 0) n ≡ false
empty_online first n = unfold is_online in zero_bit ((n - first) % 8)

module _ (now : ℕ) (ep : Endpoint) (s : Store) (inv : Inv s) (first_le : s.first ≤ ep.number)
    (room : population ep.number s.heap + 1 < 2 ^ 32) where
  create-counted : (n : ℕ) → (create now ep s).count n ≡ population n (create now ep s).heap
  unfolding create
  create-counted n = ground (arith, inv.counted n, inv.counted ep.number)

  create-shown :
      (n : ℕ)
      → s.first ≤ n
      → is_online s.first (create now ep s).online n ≡ ltb 0 (population n (create now ep s).heap)
  unfolding create
  create-shown n h = ground (
    arith,
    inv.shown n h,
    inv.counted ep.number,
    inv.shown ep.number first_le,
    is_online-set_bit s.first s.online ep.number inv.bytes n first_le h,
  )

  create-IsBytes : IsBytes (create now ep s).online
  unfolding create
  create-IsBytes i =
      ground (arith, inv.bytes i, set_bit-IsBytes s.first s.online ep.number inv.bytes i)

  create-room : (n : ℕ) → population n (create now ep s).heap < 2 ^ 32
  unfolding create
  create-room n = ground (arith, inv.room n)

  -- A new registration, for a number of the extension range, keeps the invariant.
  pub create-Inv : Inv (create now ep s)
  unfolding create
  create-Inv = record {
    fresh = (omega arith, Below-suc s.heap s.next inv.fresh);
    ranged = (first_le, inv.ranged);
    extensions =
        IsIndex-multi_insert nat_eq number_of s.heap s.extensions s.next _ inv.fresh inv.extensions;
    aliases =
        IsIndex-multi_insert string_eq user_of s.heap s.aliases s.next _ inv.fresh inv.aliases;
    registries = IsIndex-insert key_eq key_of s.heap s.registries s.next _ inv.fresh inv.registries;
    endpoints =
        IsIndex-insert nat_eq endpoint_of s.heap s.endpoints s.next _ inv.fresh inv.endpoints;
    distinct = IsDistinct-insert key_eq s.registries _ s.next inv.distinct;
    room = create-room;
    counted = create-counted;
    bytes = create-IsBytes;
    shown = create-shown;
  }

module _ (s : Store) (inv : Inv s) (p : ℕ) (r : Registry) (live : LivesAt s.heap p r) where
  destroy-counted : (n : ℕ) → (destroy p r s).count n ≡ population n (destroy p r s).heap
  unfolding destroy
  destroy-counted n = ground (
    arith,
    inv.counted n,
    inv.counted r.number,
    inv.room r.number,
    population-release s.heap p n r live,
    population-release s.heap p r.number r live,
  )

  destroy-shown :
      (n : ℕ)
      → s.first ≤ n
      → is_online s.first (destroy p r s).online n ≡ ltb 0 (population n (destroy p r s).heap)
  unfolding destroy
  destroy-shown n h = ground (
    arith,
    inv.shown n h,
    inv.counted r.number,
    inv.room r.number,
    population-release s.heap p n r live,
    population-release s.heap p r.number r live,
    is_online-unset_bit s.first s.online r.number inv.bytes n
        (IsRanged-lookup s.heap s.first p r live inv.ranged) h,
  )

  destroy-IsBytes : IsBytes (destroy p r s).online
  unfolding destroy
  destroy-IsBytes i =
      ground (arith, inv.bytes i, unset_bit-IsBytes s.first s.online r.number inv.bytes i)

  -- Deleting a live object keeps the invariant.
  pub destroy-Inv : Inv (destroy p r s)
  unfolding destroy
  destroy-Inv = record {
    fresh = Below-release s.heap s.next p inv.fresh;
    ranged = IsRanged-release s.heap s.first p inv.ranged;
    extensions = IsIndex-remove_pair nat_eq number_of s.heap s.extensions p r live inv.extensions;
    aliases = IsIndex-remove_pair string_eq user_of s.heap s.aliases p r live inv.aliases;
    registries = IsIndex-remove key_eq key_of s.heap s.registries p r live inv.registries;
    endpoints = IsIndex-remove nat_eq endpoint_of s.heap s.endpoints p r live inv.endpoints;
    distinct = IsDistinct-remove key_eq s.registries _ inv.distinct;
    room = λ n. omega (arith, inv.room n, population-release s.heap p n r live);
    counted = destroy-counted;
    bytes = destroy-IsBytes;
    shown = destroy-shown;
  }
