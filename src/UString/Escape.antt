-- ===== src/UString/Escape.antt =====
-- `escape` and `unescape`: the round trip, and what an escaped text cannot hold.
use tycho_sipwitchqt.Prelude.{
  ℕ, ◌+◌, ◌*◌, ◌-◌, ◌%◌, ◌<◌, ◌≡◌, ◌≢◌, ◌∙◌, refl, ap, Bool, false, ◌&&◌, ◌||◌, Option, none, some,
  [], ◌∷◌, ◌++◌, arith, leb, eqb, if◌then◌else◌, All, All-append,
}
use tycho_sipwitchqt.UString.{Bytes, c_str, unescape_from, unescape, escape_byte, escape}

-- The value of a hexadecimal digit, as the documentation of `toInt` with base 16 has it.
abbrev pub hex_digit : ℕ → Option ℕ
hex_digit c =
    if leb b'0' c && leb c b'9'
    then some (c - b'0')
    else if leb b'a' c && leb c b'f'
    then some (c - b'a' + 10)
    else if leb b'A' c && leb c b'F'
    then some (c - b'A' + 10)
    else none

-- Two hexadecimal digits are read as the number that they write.
abbrev pub ReadsHex : (ℕ → ℕ → ℕ) → Type 0
ReadsHex to_int16 =
    (a b x y : ℕ) → hex_digit a ≡ some x → hex_digit b ≡ some y → to_int16 a b ≡ 16 * x + y

-- No byte is NUL, and all are bytes.
abbrev pub IsText : Bytes → Type 0
IsText = All (λ c. (c ≢ 0) × (c < 256))

-- The bytes that have a meaning of their own in a SIP uri.
abbrev pub is_reserved : ℕ → Bool
is_reserved c = eqb c b' ' || eqb c b'&' || eqb c b'<' || eqb c b'>' || eqb c b'@' || eqb c b':'

module _ (to_int16 : ℕ → ℕ → ℕ) where
  unescape_from-plain :
      (c : ℕ) (cs : Bytes)
      → eqb c b'%' ≡ false
      → unescape_from to_int16 (c ∷ cs) ≡ c ∷ unescape_from to_int16 cs
  unfolding unescape_from
  unescape_from-plain c [] h = rw h
  unescape_from-plain c (a ∷ []) h = rw h
  unescape_from-plain c (a ∷ b ∷ cs) h = rw h

c_str-append : (xs ys : Bytes) → All (λ c. c ≢ 0) xs → c_str (xs ++ ys) ≡ xs ++ c_str ys
unfolding c_str
c_str-append [] ys h = refl
c_str-append (x ∷ xs) ys h = ground (arith, c_str-append xs ys h.1)

escape_byte-no_nul : (c : ℕ) → c ≢ 0 → All (λ d. d ≢ 0) (escape_byte c)
unfolding escape_byte
escape_byte-no_nul c h = ground arith

c_str-escape : (s : Bytes) → IsText s → c_str (escape s) ≡ escape s
unfolding escape
c_str-escape [] h = unfold c_str in refl
c_str-escape (c ∷ cs) h =
    rw (c_str-append (escape_byte c) (escape cs) (escape_byte-no_nul c h.0.0))
      (ap (λ t. escape_byte c ++ t) (c_str-escape cs h.1))

module _ (to_int16 : ℕ → ℕ → ℕ) (reads : ReadsHex to_int16) where
  -- Each escape is undone by one round of the loop, whatever follows.
  unescape_from-byte :
      (c : ℕ) (rest : Bytes)
      → c < 256
      → unescape_from to_int16 (escape_byte c ++ rest) ≡ c ∷ unescape_from to_int16 rest
  unfolding escape_byte
  unescape_from-byte c rest h = ground (
    arith,
    unescape_from-plain to_int16 c rest,
    decoded b'2' b'0',
    decoded b'2' b'6',
    decoded b'3' b'c',
    decoded b'3' b'e',
    decoded b'4' b'0',
    decoded b'2' b'5',
    decoded b'3' b'a',
    reads b'2' b'0' 2 0 refl refl,
    reads b'2' b'6' 2 6 refl refl,
    reads b'3' b'c' 3 12 refl refl,
    reads b'3' b'e' 3 14 refl refl,
    reads b'4' b'0' 4 0 refl refl,
    reads b'2' b'5' 2 5 refl refl,
    reads b'3' b'a' 3 10 refl refl,
  )
    where
      decoded :
          (a b : ℕ)
          → unescape_from to_int16 (b'%' ∷ a ∷ b ∷ rest)
            ≡ (to_int16 a b % 256) ∷ unescape_from to_int16 rest
      decoded a b = unfold unescape_from in refl

  unescape_from-escape : (s : Bytes) → IsText s → unescape_from to_int16 (escape s) ≡ s
  unfolding escape
  unescape_from-escape [] h = unfold unescape_from in refl
  unescape_from-escape (c ∷ cs) h =
      unescape_from-byte c (escape cs) h.0.1 ∙ ap (λ t. c ∷ t) (unescape_from-escape cs h.1)

  -- For a text without NUL bytes, whose hexadecimal pairs `toInt` reads as documented, `unescape`
  -- of `escape` of the text is the text.
  pub unescape-escape : (s : Bytes) → IsText s → unescape to_int16 (escape s) ≡ s
  unfolding unescape
  unescape-escape s h = rw (c_str-escape s h) (unescape_from-escape s h)

escape_byte-safe : (c : ℕ) → All (λ d. is_reserved d ≡ false) (escape_byte c)
unfolding escape_byte
escape_byte-safe c = ground arith

-- Whatever the text, no byte of its escaped form is one of the bytes that would end a uri's
-- argument: space, `&`, `<`, `>`, `@` and `:`.
pub escape-safe : (s : Bytes) → All (λ d. is_reserved d ≡ false) (escape s)
unfolding escape
escape-safe [] = tt
escape-safe (c ∷ cs) =
    All-append (λ d. is_reserved d ≡ false) (escape_byte c) (escape cs) (escape-safe cs)
      (escape_byte-safe c)
