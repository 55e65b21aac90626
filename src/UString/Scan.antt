-- ===== src/UString/Scan.antt =====
-- `isNumber` and `isLabel` against a plain description of their texts.
use tycho_sipwitchqt.Prelude.{◌≡◌, refl, Bool, true, false, [], ◌∷◌, arith, if◌then◌else◌}
use tycho_sipwitchqt.UString.{
  Bytes, number_from, label_from, c_str, is_digit, scan, is_number, is_label,
}

abbrev pub is_empty : Bytes → Bool
is_empty [] = true
is_empty (c ∷ cs) = false

-- A number is a text with at least one byte before the first NUL, all of them digits: the source's
-- early return for "0" makes no difference.
pub is_number-eq :
    (s : Bytes) → is_number s ≡ (if is_empty (c_str s) then false else scan is_digit (c_str s))
unfolding is_number
is_number-eq s = from (c_str s)
  where
    from : (t : Bytes) → number_from t ≡ (if is_empty t then false else scan is_digit t)
    from [] = refl
    from (c ∷ []) = ground arith
    from (c ∷ d ∷ ds) = refl

-- No text is both a label and a number, so a label never names an extension.
pub is_label-not-is_number : (s : Bytes) → is_label s ≡ true → is_number s ≡ false
unfolding is_label is_number
is_label-not-is_number s = from (c_str s)
  where
    from : (t : Bytes) → label_from t ≡ true → number_from t ≡ false
    from [] h = cc
    from (c ∷ []) h = ground arith
    from (c ∷ d ∷ ds) h = ground arith
