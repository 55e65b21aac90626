-- ===== src/UString/Tests.antt =====
-- Runs and instances for Common/types.cpp.
use tycho_sipwitchqt.Prelude.{ℕ, ◌+◌, ◌*◌, ◌≡◌, refl, true, Option, none, some, arith}
use tycho_sipwitchqt.UString.{Bytes, codes, is_number, unescape, escape}
use tycho_sipwitchqt.UString.Escape.{hex_digit, ReadsHex, unescape-escape}

abbrev digit_value : Option ℕ → ℕ
digit_value none = 0
digit_value (some x) = x

-- A reader of two hexadecimal digits.
abbrev read_hex : ℕ → ℕ → ℕ
read_hex a b = 16 * digit_value (hex_digit a) + digit_value (hex_digit b)

read_hex-ReadsHex : ReadsHex read_hex
read_hex-ReadsHex a b x y p q = ground arith

abbrev sample : Bytes
sample = codes "a b<50%@c:&"

escape-sample : escape sample ≡ codes "a%20b%3c50%25%40c%3a%26"
unfolding escape
escape-sample = refl

unescape_cut : unescape read_hex (codes "ab%4") ≡ codes "ab"
unfolding unescape
unescape_cut = refl

unescape-escape_example : unescape read_hex (escape sample) ≡ sample
unescape-escape_example = unescape-escape read_hex read_hex-ReadsHex sample (omega arith)

is_number_zero : is_number (codes "0") ≡ true
unfolding is_number
is_number_zero = refl
