-- ===== src/Hash.antt =====
-- QHash and QMultiHash as association lists over a key's `operator==`. The program never depends on
-- the order in which a hash is walked.
use tycho_sipwitchqt.Prelude.{
  ◌≡◌, ◌↔◌, Bool, true, ◌&&◌, Option, none, some, List, [], ◌∷◌, ℕ, eqb, if◌then◌else◌, eqb_iff,
}

-- A key type with its `operator==`.
pub record KeyEq {ℓ} (Key : Type ℓ) : Type ℓ where
  pub same : Key → Key → Bool
  pub same_iff : (k j : Key) → (same k j ≡ true) ↔ (k ≡ j)

module _ {ℓ κ} {K : Type ℓ} {V : Type κ} (e : KeyEq K) where
  -- value(key)
  unfoldable pub lookup : K → List (K × V) → Option V
  lookup k [] = none
  lookup k ((j, v) ∷ m) = let rest = lookup k m in if e.same j k then some v else rest

  -- remove(key)
  unfoldable pub remove : K → List (K × V) → List (K × V)
  remove k [] = []
  remove k ((j, v) ∷ m) = let rest = remove k m in if e.same j k then rest else (j, v) ∷ rest

  -- insert(key, value) of a QHash: the key's former value is gone.
  unfoldable pub insert : K → V → List (K × V) → List (K × V)
  unfolding remove
  insert k v m = (k, v) ∷ remove k m

  -- values(key) of a QMultiHash
  unfoldable pub values : K → List (K × V) → List V
  values k [] = []
  values k ((j, v) ∷ m) = let rest = values k m in if e.same j k then v ∷ rest else rest

  -- remove(key, value) of a QMultiHash
  unfoldable pub remove_pair : (V → V → Bool) → K → V → List (K × V) → List (K × V)
  remove_pair same k v [] = []
  remove_pair same k v ((j, w) ∷ m) =
      let rest = remove_pair same k v m in if e.same j k && same w v then rest else (j, w) ∷ rest

abbrev pub nat_eq : KeyEq ℕ
nat_eq = record { same = eqb; same_iff = eqb_iff }
