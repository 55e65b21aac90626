-- ===== src/Crypto.antt =====
-- Common/crypto.cpp: `random`, `pad` and `unpad`. OpenSSL's `RAND_bytes` is the parameter
-- `rand_bytes`, with `none` for its failure; ciphers, keys and hashes are OpenSSL's and not modelled.
pub mod Padding
pub mod Tests
use tycho_sipwitchqt.Prelude.{
  ℕ, ◌-◌, ◌%◌, Bool, Option, none, some, List, [], ◌∷◌, ◌++◌, ltb, eqb, if◌then◌else◌, length, take,
  drop, get_last?,
}
use tycho_sipwitchqt.UString.{Bytes}

module _ (rand_bytes : ℕ → Option Bytes) where
  abbrev or_empty : Option Bytes → Bytes
  or_empty none = []
  or_empty (some bytes) = bytes

  unfoldable pub random : ℕ → Bytes
  random size = or_empty (rand_bytes size)

  -- The padding of a last block of `offset` bytes.
  unfoldable pub padding : ℕ → ℕ → Bytes
  unfolding random
  padding size offset =
      if eqb offset 0
      then random (size - 1) ++ (size % 256) ∷ []
      else (let size' = size - offset in
          (if ltb 1 size' then random (size' - 1) else []) ++ (size' % 256) ∷ [])

  unfoldable pub pad : Bytes → ℕ → Bytes
  unfolding padding
  pad unpadded size = unpadded ++ padding size (length unpadded % size)

-- `data.resize(count - *cp)`: a negative size is 0, and `*cp` is a signed char, so a last byte from
-- 128 on grows the data by bytes that nothing has written, the parameter `fresh`.
module _ (fresh : ℕ → Bytes) where
  unfoldable pub resize_by : Bytes → Option ℕ → Option Bytes
  resize_by bytes none = none
  resize_by bytes (some cp) =
      if ltb cp 128 then some (take (length bytes - cp) bytes) else some (bytes ++ fresh (256 - cp))

  -- `none` is the read before the first byte of empty data.
  unfoldable pub unpad : Bytes → ℕ → Option Bytes
  unfolding resize_by
  unpad padded iv =
      let bytes = if eqb iv 0 then padded else drop iv padded in resize_by bytes (get_last? bytes)
