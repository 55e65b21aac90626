-- ===== src/Registry/Index.antt =====
-- The hashes of the registry against its heap: no entry outlives the object that it names.
use tycho_sipwitchqt.Prelude.{
  ℕ, suc, ◌<◌, ◌≡◌, ◌≢◌, refl, sym, ◌∙◌, false, ◌&&◌, none, some, List, [], ◌∷◌, inl, inr, arith,
  eqb, if◌then◌else◌, All, Bool-cases,
}
use tycho_sipwitchqt.Hash.{KeyEq, lookup, remove, insert, remove_pair, nat_eq}
use tycho_sipwitchqt.Registry.{Registry, release, write}

abbrev pub Heap : Type 0
Heap = List (ℕ × Registry)

-- The address holds a live object.
abbrev pub LivesAt : Heap → ℕ → Registry → Type 0
LivesAt h p r = lookup nat_eq p h ≡ some r

-- Addresses that were given out lie below the next one.
abbrev pub Below : ℕ → Heap → Type 0
Below n = All (λ (e : ℕ × Registry). e.0 < n)

pub lookup-release :
    (h : Heap) (p q : ℕ) → q ≢ p → lookup nat_eq q (release p h) ≡ lookup nat_eq q h
unfolding lookup release
lookup-release [] p q n = refl
lookup-release ((j, r) ∷ h) p q n = ground (arith, lookup-release h p q n)

pub lookup-write :
    (h : Heap) (p q : ℕ) (v : Registry)
    → lookup nat_eq q (write p v h) ≡ (
        if eqb q p
        then (elim (lookup nat_eq q h) [ none ↦ none | some r ↦ some v ])
        else lookup nat_eq q h)
unfolding lookup write
lookup-write [] p q v = ground arith
lookup-write ((j, r) ∷ h) p q v = ground (arith, lookup-write h p q v)

pub lookup-Below : (h : Heap) (n p : ℕ) (r : Registry) → Below n h → LivesAt h p r → p < n
unfolding lookup
lookup-Below [] n p r b l = cc
lookup-Below ((q, v) ∷ h) n p r b l = ground (arith, lookup-Below h n p r b.1)

pub Below-suc : (h : Heap) (n : ℕ) → Below n h → Below (suc n) h
Below-suc [] n b = tt
Below-suc ((q, v) ∷ h) n b = (omega arith, Below-suc h n b.1)

pub Below-release : (h : Heap) (n p : ℕ) → Below n h → Below n (release p h)
unfolding release
Below-release [] n p b = tt
Below-release ((q, v) ∷ h) n p b = ground (arith, b.1, Below-release h n p b.1)

pub Below-write : (h : Heap) (n p : ℕ) (v : Registry) → Below n h → Below n (write p v h)
unfolding write
Below-write [] n p v b = tt
Below-write ((q, r) ∷ h) n p v b = ground (arith, b.1, Below-write h n p v b.1)

module _ {K : Type 0} (e : KeyEq K) (key : Registry → K) where
  -- An entry of a hash names a live object that has the entry's key.
  abbrev pub Names : Heap → K × ℕ → Type 0
  Names h entry = (r : Registry) × LivesAt h entry.1 r × (key r ≡ entry.0)

  abbrev pub IsIndex : Heap → List (K × ℕ) → Type 0
  IsIndex h = All (Names h)

  Names-release :
      (h : Heap) (p : ℕ) (k : K) (q : ℕ) → q ≢ p → Names h (k, q) → Names (release p h) (k, q)
  Names-release h p k q n (r, l, i) = (r, lookup-release h p q n ∙ l, i)

  -- Two objects at one address are one object.
  LivesAt-unique : (h : Heap) (p : ℕ) (r v : Registry) → LivesAt h p r → LivesAt h p v → r ≡ v
  LivesAt-unique h p r v l m = cc

  -- Where the key differs, the address differs.
  key-ne :
      (h : Heap) (p q : ℕ) (k : K) (r : Registry)
      → LivesAt h p r
      → Names h (k, q)
      → key r ≢ k
      → q ≢ p
  key-ne h p q k r l (v, m, i) n z = n (cc (l, m, i, z))

  pair-ne :
      (h : Heap) (p q : ℕ) (k : K) (r : Registry)
      → LivesAt h p r
      → Names h (k, q)
      → (e.same k (key r) && eqb q p) ≡ false
      → q ≢ p
  pair-ne h p q k r l (v, m, i) f z =
      let kr : key r ≡ k = cc (l, m, i, z) in
      ground (arith, (e.same_iff k (key r)).1 (sym kr), z, f)

  -- Removing an object's key from a hash keeps the hash in step with the heap.
  pub IsIndex-remove :
      (h : Heap) (m : List (K × ℕ)) (p : ℕ) (r : Registry)
      → LivesAt h p r
      → IsIndex h m
      → IsIndex (release p h) (remove e (key r) m)
  unfolding remove
  IsIndex-remove h [] p r l i = tt
  IsIndex-remove h ((k, q) ∷ m) p r l i = elim (Bool-cases (e.same k (key r))) [
    | inl same ↦ rw same (IsIndex-remove h m p r l i.1)
    | inr other ↦ rw other (
      Names-release h p k q
          (key-ne h p q k r l i.0 λ eq. ground (arith, (e.same_iff k (key r)).1 (sym eq))) i.0,
      IsIndex-remove h m p r l i.1,
    )
  ]

  -- So does removing the pair of its key and its address.
  pub IsIndex-remove_pair :
      (h : Heap) (m : List (K × ℕ)) (p : ℕ) (r : Registry)
      → LivesAt h p r
      → IsIndex h m
      → IsIndex (release p h) (remove_pair e eqb (key r) p m)
  unfolding remove_pair
  IsIndex-remove_pair h [] p r l i = tt
  IsIndex-remove_pair h ((k, q) ∷ m) p r l i = elim (Bool-cases (e.same k (key r) && eqb q p)) [
    | inl same ↦ rw same (IsIndex-remove_pair h m p r l i.1)
    | inr other ↦ rw other (
      Names-release h p k q (pair-ne h p q k r l i.0 other) i.0,
      IsIndex-remove_pair h m p r l i.1,
    )
  ]

  Names-create :
      (h : Heap) (n : ℕ) (v : Registry) (entry : K × ℕ)
      → Below n h
      → Names h entry
      → Names ((n, v) ∷ h) entry
  unfolding lookup
  Names-create h n v (k, q) b (r, l, i) = (r, ground (arith, lookup-Below h n q r b l), i)

  -- A hash stays in step when an object is put at a fresh address.
  pub IsIndex-create :
      (h : Heap) (m : List (K × ℕ)) (n : ℕ) (v : Registry)
      → Below n h
      → IsIndex h m
      → IsIndex ((n, v) ∷ h) m
  IsIndex-create h [] n v b i = tt
  IsIndex-create h (x ∷ m) n v b i = (Names-create h n v x b i.0, IsIndex-create h m n v b i.1)

  Names-self : (h : Heap) (n : ℕ) (v : Registry) → Names ((n, v) ∷ h) (key v, n)
  unfolding lookup
  Names-self h n v = (v, ground arith, refl)

  IsIndex-without : (h : Heap) (m : List (K × ℕ)) (k : K) → IsIndex h m → IsIndex h (remove e k m)
  unfolding remove
  IsIndex-without h [] k i = tt
  IsIndex-without h ((j, q) ∷ m) k i = elim (Bool-cases (e.same j k)) [
    | inl same ↦ rw same (IsIndex-without h m k i.1)
    | inr other ↦ rw other (i.0, IsIndex-without h m k i.1)
  ]

  -- Entering the new object, in place of what its key named or beside it.
  pub IsIndex-insert :
      (h : Heap) (m : List (K × ℕ)) (n : ℕ) (v : Registry)
      → Below n h
      → IsIndex h m
      → IsIndex ((n, v) ∷ h) (insert e (key v) n m)
  unfolding insert
  IsIndex-insert h m n v b i =
      (Names-self h n v, IsIndex-without _ m (key v) (IsIndex-create h m n v b i))

  pub IsIndex-multi_insert :
      (h : Heap) (m : List (K × ℕ)) (n : ℕ) (v : Registry)
      → Below n h
      → IsIndex h m
      → IsIndex ((n, v) ∷ h) ((key v, n) ∷ m)
  IsIndex-multi_insert h m n v b i = (Names-self h n v, IsIndex-create h m n v b i)

  Names-write :
      (h : Heap) (p : ℕ) (r v : Registry) (entry : K × ℕ)
      → LivesAt h p r
      → key v ≡ key r
      → Names h entry
      → Names (write p v h) entry
  Names-write h p r v (k, q) l same (w, m, i) = elim (Bool-cases (eqb q p)) [
    | inl eq ↦
        (v, rw (lookup-write h p q v) (ground (arith, eq, m)), ground (arith, eq, l, m, i, same))
    | inr ne ↦ (w, rw (lookup-write h p q v) (ground (arith, ne, m)), i)
  ]

  -- Writing an object whose key has not changed.
  pub IsIndex-write :
      (h : Heap) (m : List (K × ℕ)) (p : ℕ) (r v : Registry)
      → LivesAt h p r
      → key v ≡ key r
      → IsIndex h m
      → IsIndex (write p v h) m
  IsIndex-write h [] p r v l same i = tt
  IsIndex-write h (x ∷ m) p r v l same i =
      (Names-write h p r v x l same i.0, IsIndex-write h m p r v l same i.1)

  -- What a lookup finds is live and has the key.
  pub IsIndex-lookup :
      (h : Heap) (m : List (K × ℕ)) (k : K) (p : ℕ)
      → lookup e k m ≡ some p
      → IsIndex h m
      → Names h (k, p)
  unfolding lookup
  IsIndex-lookup h [] k p f i = cc
  IsIndex-lookup h ((j, q) ∷ m) k p f i = elim (Bool-cases (e.same j k)) [
    | inl same ↦ let (w, l, at_j) = i.0 in (w, cc (l, rw same at f), at_j ∙ (e.same_iff j k).0 same)
    | inr other ↦ IsIndex-lookup h m k p (rw other at f) i.1
  ]

module _ {K : Type 0} (e : KeyEq K) where
  -- No key stands twice.
  abbrev pub IsDistinct : List (K × ℕ) → Type 0
  IsDistinct [] = Unit
  IsDistinct ((k, p) ∷ m) = (lookup e k m ≡ none) × IsDistinct m

  pub remove-absent : (m : List (K × ℕ)) (k : K) → lookup e k m ≡ none → remove e k m ≡ m
  unfolding lookup remove
  remove-absent [] k h = refl
  remove-absent ((j, p) ∷ m) k h = ground (arith, remove-absent m k)

  pub lookup-remove_self : (m : List (K × ℕ)) (k : K) → lookup e k (remove e k m) ≡ none
  unfolding lookup remove
  lookup-remove_self [] k = refl
  lookup-remove_self ((j, p) ∷ m) k = ground (arith, lookup-remove_self m k)

  pub lookup-remove-none :
      (m : List (K × ℕ)) (j k : K) → lookup e j m ≡ none → lookup e j (remove e k m) ≡ none
  unfolding lookup remove
  lookup-remove-none [] j k h = refl
  lookup-remove-none ((i, p) ∷ m) j k h = ground (arith, lookup-remove-none m j k)

  pub IsDistinct-remove : (m : List (K × ℕ)) (k : K) → IsDistinct m → IsDistinct (remove e k m)
  unfolding remove
  IsDistinct-remove [] k d = tt
  IsDistinct-remove ((j, p) ∷ m) k d = elim (Bool-cases (e.same j k)) [
    | inl same ↦ rw same (IsDistinct-remove m k d.1)
    | inr other ↦ rw other (lookup-remove-none m j k d.0, IsDistinct-remove m k d.1)
  ]

  pub IsDistinct-insert :
      (m : List (K × ℕ)) (k : K) (p : ℕ) → IsDistinct m → IsDistinct (insert e k p m)
  unfolding insert
  IsDistinct-insert m k p d = (lookup-remove_self m k, IsDistinct-remove m k d)
