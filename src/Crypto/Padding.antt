-- ===== src/Crypto/Padding.antt =====
-- `pad` and `unpad`: whole blocks, and the round trip.
use tycho_sipwitchqt.Prelude.{
  ℕ, ◌+◌, ◌-◌, ◌*◌, ◌/◌, ◌%◌, ◌≤◌, ◌<◌, ◌≡◌, ap, ◌∙◌, true, Option, some, [], ◌∷◌, ◌++◌, inl, inr,
  arith, ltb, eqb, if◌then◌else◌, length, Bool-cases, length-append, take-length-append,
  get_last?-append,
}
use mathlib.Core.List.{append_assoc}
use native.Mathlib.Nat.{div-add-mod, mul-mod_right}
use tycho_sipwitchqt.UString.{Bytes}
use tycho_sipwitchqt.Crypto.{random, padding, pad, resize_by, unpad}

-- The generator never fails, and gives as many bytes as were asked for.
abbrev pub IsReliable : (ℕ → Option Bytes) → Type 0
IsReliable rand_bytes = (n : ℕ) → length (random rand_bytes n) ≡ n

round_up : (n s : ℕ) → 0 < s → n + (s - n % s) ≡ s * (n / s + 1)
round_up n s h = omega (arith, div-add-mod n s)

-- Cutting off the last byte and as many bytes as it says.
resize_by-append :
    (fresh : ℕ → Bytes) (text front : Bytes) (n : ℕ)
    → length front + 1 ≡ n
    → n < 128
    → unpad fresh (text ++ (front ++ n ∷ [])) 0 ≡ some text
unfolding unpad
resize_by-append fresh text front n e h = rw (← append_assoc text front (n ∷ [])) (
    rw (get_last?-append (text ++ front) n, resize_by, small)
      (rw (append_assoc text front (n ∷ [])) (ap some (rw count (take-length-append text _)))))
  where
    small : ltb n 128 ≡ true
    small = ground arith

    count : length (text ++ (front ++ n ∷ [])) - n ≡ length text
    count = omega (arith, length-append text (front ++ n ∷ []), length-append front (n ∷ []))

module _ (rand_bytes : ℕ → Option Bytes) where
  -- The random bytes of a padding, which its length follows.
  filler : ℕ → ℕ → Bytes
  filler size offset =
      if eqb offset 0
      then random rand_bytes (size - 1)
      else if ltb 1 (size - offset)
      then random rand_bytes (size - offset - 1)
      else []

  padding-eq :
      (size offset : ℕ)
      → offset < size
      → size ≤ 64
      → padding rand_bytes size offset ≡ filler size offset ++ (size - offset) ∷ []
  unfolding padding filler
  padding-eq size offset h k = elim (Bool-cases (eqb offset 0)) [
    | inl z ↦ rw z (ap (λ n. random rand_bytes (size - 1) ++ n ∷ []) (ground arith))
    | inr z ↦ rw z (ap (λ n. rest ++ n ∷ []) (omega arith))
  ]
    where
      rest : Bytes
      rest = if ltb 1 (size - offset) then random rand_bytes (size - offset - 1) else []

module _ (rand_bytes : ℕ → Option Bytes) (reliable : IsReliable rand_bytes) where
  length-filler :
      (size offset : ℕ) → offset < size → length (filler rand_bytes size offset) + 1 ≡ size - offset
  unfolding filler
  length-filler size offset h = ground (arith, reliable (size - 1), reliable (size - offset - 1))

  length-padding :
      (size offset : ℕ)
      → offset < size
      → size ≤ 64
      → length (padding rand_bytes size offset) ≡ size - offset
  length-padding size offset h k = rw (padding-eq rand_bytes size offset h k) (
      omega (
        arith,
        length-append (filler rand_bytes size offset) ((size - offset) ∷ []),
        length-filler size offset h,
      ))

  -- For a block size from 1 to 64 and a generator that does not fail, a padded text fills whole
  -- blocks, and it is longer than the text by one byte at least and one block at most.
  pub length-pad :
      (text : Bytes) (size : ℕ)
      → 0 < size
      → size ≤ 64
      → (length (pad rand_bytes text size) % size ≡ 0)
        × (length text < length (pad rand_bytes text size))
        × (length (pad rand_bytes text size) ≤ length text + size)
  unfolding pad
  length-pad text size h k = (whole, omega (arith, total), omega (arith, total))
    where
      total :
          length (text ++ padding rand_bytes size (length text % size))
          ≡ length text + (size - length text % size)
      total =
          length-append text (padding rand_bytes size (length text % size))
          ∙ ap (λ n. length text + n) (length-padding size (length text % size) (omega arith) k)

      whole : length (text ++ padding rand_bytes size (length text % size)) % size ≡ 0
      whole =
          rw (total, round_up (length text) size h) (mul-mod_right size (length text / size + 1))

  -- For a block size from 1 to 64 and a generator that does not fail, `unpad` without an
  -- initialisation vector gives back the text that `pad` padded, also where the text is empty.
  pub unpad-pad :
      (fresh : ℕ → Bytes) (text : Bytes) (size : ℕ)
      → 0 < size
      → size ≤ 64
      → unpad fresh (pad rand_bytes text size) 0 ≡ some text
  unfolding pad
  unpad-pad fresh text size h k =
      rw (padding-eq rand_bytes size (length text % size) (omega arith) k) (
        resize_by-append fresh text (filler rand_bytes size (length text % size)) _
          (length-filler size (length text % size) (omega arith)) (omega arith))
