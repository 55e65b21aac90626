-- ===== src/UString/Quote.antt =====
-- `quote` and `unquote`: the round trip.
use tycho_sipwitchqt.Prelude.{
  ℕ, ◌-◌, ◌≡◌, refl, true, [], ◌∷◌, ◌++◌, arith, eqb_refl, length, length-append,
  take-length-append, get_last?-append,
}
use tycho_sipwitchqt.UString.{Bytes, c_str, is_quoted, quote, unquote}

-- The first and the last byte of a quoted text are the quotes.
pub is_quoted-quote : (q1 q2 : ℕ) (s : Bytes) → is_quoted q1 q2 (quote q1 q2 s) ≡ true
unfolding is_quoted quote
is_quoted-quote q1 q2 s = rw (get_last?-append (q1 ∷ c_str s) q2, eqb_refl q1, eqb_refl q2) refl

-- Taking the quotes off a quoted text gives what C sees of the text, for every pair of quotes.
pub unquote-quote :
    (trimmed : Bytes → Bytes) (q1 q2 : ℕ) (s : Bytes)
    → unquote trimmed q1 q2 (quote q1 q2 s) ≡ c_str s
unfolding unquote quote
unquote-quote trimmed q1 q2 s =
    rw (get_last?-append (q1 ∷ c_str s) q2, eqb_refl q1, eqb_refl q2)
      (rw inner (take-length-append (c_str s) (q2 ∷ [])))
  where
    inner : length (q1 ∷ (c_str s ++ q2 ∷ [])) - 2 ≡ length (c_str s)
    inner = omega (arith, length-append (c_str s) (q2 ∷ []))
