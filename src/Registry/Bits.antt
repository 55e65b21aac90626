-- ===== src/Registry/Bits.antt =====
-- The bits of `online`: what setting and clearing one bit of a byte does to all bits of the array.
use Prim.Native.Nat.{bit_and, bit_or}
use tycho_sipwitchqt.Prelude.{
  ℕ, zero, suc, ◌-◌, ◌/◌, ◌%◌, ◌^◌, ◌≤◌, ◌<◌, ◌≡◌, refl, Bool, true, false, not, ◌&&◌, ◌||◌, arith,
  ltb, eqb,
}
use tycho_sipwitchqt.Registry.{set_bit, unset_bit}

-- Bit k of a byte.
unfoldable pub test_bit : ℕ → ℕ → Bool
test_bit b k = eqb (b / 2 ^ k % 2) 1

abbrev same_bool : Bool → Bool → Bool
same_bool true b = b
same_bool false b = not b

-- A test holds of every number under a bound.
holds_under : (ℕ → Bool) → ℕ → Bool
holds_under test zero = true
holds_under test (suc m) = holds_under test m && test m

holds_under-at : (test : ℕ → Bool) (m j : ℕ) → j < m → holds_under test m ≡ true → test j ≡ true
unfolding holds_under
holds_under-at test zero j less all = absurd (omega arith)
holds_under-at test (suc m) j less all = ground (arith, holds_under-at test m j)

abbrev or_bit : ℕ → ℕ → ℕ → Bool
or_bit b k j = same_bool (test_bit (bit_or b (2 ^ k)) j) (eqb j k || test_bit b j)

abbrev or_fits : ℕ → ℕ → Bool
or_fits b k = ltb (bit_or b (2 ^ k)) 256 && holds_under (or_bit b k) 8

abbrev and_bit : ℕ → ℕ → ℕ → Bool
and_bit b k j = same_bool (test_bit (bit_and b (255 - 2 ^ k)) j) (not (eqb j k) && test_bit b j)

abbrev and_fits : ℕ → ℕ → Bool
and_fits b k = ltb (bit_and b (255 - 2 ^ k)) 256 && holds_under (and_bit b k) 8

or_table : holds_under (λ b. holds_under (or_fits b) 8) 256 ≡ true
unfolding holds_under test_bit
or_table = refl

and_table : holds_under (λ b. holds_under (and_fits b) 8) 256 ≡ true
unfolding holds_under test_bit
and_table = refl

same_bool_iff : (a b : Bool) → same_bool a b ≡ true → a ≡ b
same_bool_iff true b h = ground arith
same_bool_iff false b h = ground arith

table_lookup :
    (p : ℕ → ℕ → Bool) (b k : ℕ)
    → holds_under (λ x. holds_under (p x) 8) 256 ≡ true
    → b < 256
    → k < 8
    → p b k ≡ true
table_lookup p b k t hb hk =
    holds_under-at (p b) 8 k hk (holds_under-at (λ x. holds_under (p x) 8) 256 b hb t)

bit_or-fits : (b k : ℕ) → b < 256 → k < 8 → bit_or b (2 ^ k) < 256
bit_or-fits b k hb hk = ground (arith, table_lookup or_fits b k or_table hb hk)

bit_and-fits : (b k : ℕ) → b < 256 → k < 8 → bit_and b (255 - 2 ^ k) < 256
bit_and-fits b k hb hk = ground (arith, table_lookup and_fits b k and_table hb hk)

test_bit-or :
    (b k j : ℕ)
    → b < 256
    → k < 8
    → j < 8
    → test_bit (bit_or b (2 ^ k)) j ≡ (eqb j k || test_bit b j)
test_bit-or b k j hb hk hj =
    same_bool_iff _ _
      (holds_under-at (or_bit b k) 8 j hj (ground (arith, table_lookup or_fits b k or_table hb hk)))

test_bit-and :
    (b k j : ℕ)
    → b < 256
    → k < 8
    → j < 8
    → test_bit (bit_and b (255 - 2 ^ k)) j ≡ (not (eqb j k) && test_bit b j)
test_bit-and b k j hb hk hj = same_bool_iff _ _ (
    holds_under-at (and_bit b k) 8 j hj (ground (arith, table_lookup and_fits b k and_table hb hk)))

-- Every element of the array is a byte.
abbrev pub IsBytes : (ℕ → ℕ) → Type 0
IsBytes online = (i : ℕ) → online i < 256

-- What a client reads off the bitmask for a number.
unfoldable pub is_online : ℕ → (ℕ → ℕ) → ℕ → Bool
is_online first online number = test_bit (online ((number - first) / 8)) ((number - first) % 8)

module _ (first : ℕ) (online : ℕ → ℕ) (n : ℕ) (bytes : IsBytes online) where
  pub set_bit-IsBytes : IsBytes (set_bit first online n)
  unfolding set_bit
  set_bit-IsBytes i = ground (
    arith,
    bytes i,
    bit_or-fits (online ((n - first) / 8)) ((n - first) % 8) (bytes ((n - first) / 8))
        (omega arith),
  )

  pub unset_bit-IsBytes : IsBytes (unset_bit first online n)
  unfolding unset_bit
  unset_bit-IsBytes i = ground (
    arith,
    bytes i,
    bit_and-fits (online ((n - first) / 8)) ((n - first) % 8) (bytes ((n - first) / 8))
        (omega arith),
  )

  -- `set` turns its own bit on and leaves all others.
  pub is_online-set_bit :
      (m : ℕ)
      → first ≤ n
      → first ≤ m
      → is_online first (set_bit first online n) m ≡ (eqb m n || is_online first online m)
  unfolding set_bit is_online
  is_online-set_bit m hn hm = ground (
    arith,
    test_bit-or (online ((n - first) / 8)) ((n - first) % 8) ((m - first) % 8)
        (bytes ((n - first) / 8)) (omega arith) (omega arith),
  )

  -- `unset` turns its own bit off and leaves all others.
  pub is_online-unset_bit :
      (m : ℕ)
      → first ≤ n
      → first ≤ m
      → is_online first (unset_bit first online n) m ≡ (not (eqb m n) && is_online first online m)
  unfolding unset_bit is_online
  is_online-unset_bit m hn hm = ground (
    arith,
    test_bit-and (online ((n - first) / 8)) ((n - first) % 8) ((m - first) % 8)
        (bytes ((n - first) / 8)) (omega arith) (omega arith),
  )
