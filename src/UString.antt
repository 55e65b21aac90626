-- ===== src/UString.antt =====
-- Common/types.cpp: the byte strings of the program. A `UString` is the list of its bytes; what the
-- source reads through `constData()` ends at the first NUL, `c_str` here. Qt's `trimmed`, `toLower`,
-- `number`, `toInt` and C's `atoi` are parameters.
pub mod Escape
pub mod Quote
pub mod Scan
pub mod Tests
use Prim.Native.Char.{code}
use Prim.Native.String
use tycho_sipwitchqt.Prelude.{
  ℕ, zero, suc, ◌-◌, ◌%◌, String, Bool, true, false, ◌&&◌, ◌||◌, Option, none, some, List, [], ◌∷◌,
  ◌++◌, ◌≡◌, ◌↔◌, arith, leb, eqb, ltb, if◌then◌else◌, length, take, drop, get_last?,
}

abbrev pub Bytes : Type 0
Bytes = List ℕ

-- The bytes of an ASCII literal.
abbrev pub codes : String → Bytes
codes String.[] = []
codes (String.◌∷◌ c s) = code c ∷ codes s

-- `operator==` of two byte arrays.
abbrev pub eq_bytes : Bytes → Bytes → Bool
eq_bytes [] [] = true
eq_bytes (x ∷ xs) (y ∷ ys) = eqb x y && eq_bytes xs ys
eq_bytes _ _ = false

pub eq_bytes_iff : (xs ys : Bytes) → (eq_bytes xs ys ≡ true) ↔ (xs ≡ ys)
eq_bytes_iff [] [] = ground arith
eq_bytes_iff (x ∷ xs) (y ∷ ys) = ground (arith, eq_bytes_iff xs ys)
eq_bytes_iff [] (y ∷ ys) = ground arith
eq_bytes_iff (x ∷ xs) [] = ground arith

-- What a C string function sees of the bytes.
unfoldable pub c_str : Bytes → Bytes
c_str [] = []
c_str (c ∷ cs) = let rest = c_str cs in if eqb c 0 then [] else c ∷ rest

abbrev pub is_digit : ℕ → Bool
is_digit c = leb b'0' c && leb c b'9'

abbrev pub is_alpha : ℕ → Bool
is_alpha c = (leb b'a' c && leb c b'z') || (leb b'A' c && leb c b'Z')

abbrev pub is_alnum : ℕ → Bool
is_alnum c = is_alpha c || is_digit c

-- while(*cp) { if(!test(*(cp++))) return false; } return true;
unfoldable pub scan : (ℕ → Bool) → Bytes → Bool
scan test [] = true
scan test (c ∷ cs) = test c && scan test cs

unfoldable pub number_from : Bytes → Bool
unfolding scan
number_from [] = false
number_from (c ∷ []) = if eqb c b'0' then true else scan is_digit (c ∷ [])
number_from (c ∷ d ∷ ds) = scan is_digit (c ∷ d ∷ ds)

unfoldable pub is_number : Bytes → Bool
unfolding number_from c_str
is_number s = number_from (c_str s)

unfoldable pub label_from : Bytes → Bool
unfolding scan
label_from [] = false
label_from (c ∷ cs) = if is_alpha c then scan is_alnum (c ∷ cs) else false

unfoldable pub is_label : Bytes → Bool
unfolding label_from c_str
is_label s = label_from (c_str s)

-- `s.startsWith(q)` and `s.endsWith(q)` for one character q.
abbrev pub starts_with : ℕ → Bytes → Bool
starts_with q [] = false
starts_with q (c ∷ cs) = eqb c q

abbrev ends_from : ℕ → Option ℕ → Bool
ends_from q none = false
ends_from q (some c) = eqb c q

abbrev pub ends_with : ℕ → Bytes → Bool
ends_with q s = ends_from q (get_last? s)

unfoldable pub is_quoted : ℕ → ℕ → Bytes → Bool
is_quoted q1 q2 s = starts_with q1 s && ends_with q2 s

unfoldable pub quote : ℕ → ℕ → Bytes → Bytes
unfolding c_str
quote q1 q2 s = q1 ∷ (c_str s ++ q2 ∷ [])

-- toBool: "yes", "true" in any case, or a positive leading number.
module _ (to_lower : Bytes → Bytes) (atoi_pos : Bytes → Bool) where
  bool_from : Bytes → Bytes → Bool
  bool_from s [] = false
  bool_from s (c ∷ cs) =
      if eq_bytes (to_lower s) (codes "yes") || eq_bytes (to_lower s) (codes "true")
      then true
      else atoi_pos (c ∷ cs)

  unfoldable pub to_bool : Bytes → Bool
  unfolding bool_from c_str
  to_bool s = bool_from s (c_str s)

module _ (trimmed : Bytes → Bytes) where
  unfoldable pub unquote : ℕ → ℕ → Bytes → Bytes
  unquote q1 q2 s =
      if starts_with q1 s && ends_with q2 s then take (length s - 2) (drop 1 s) else trimmed s

-- The loop of `unescape`. `value.toInt(nullptr, 16)` of two digits is the parameter.
module _ (to_int16 : ℕ → ℕ → ℕ) where
  unfoldable pub unescape_from : Bytes → Bytes
  unescape_from [] = []
  unescape_from (c ∷ []) = if eqb c b'%' then [] else c ∷ []
  unescape_from (c ∷ a ∷ []) =
      let rest = c ∷ unescape_from (a ∷ []) in if eqb c b'%' then [] else rest
  unescape_from (c ∷ a ∷ b ∷ cs) =
      let decoded = (to_int16 a b % 256) ∷ unescape_from cs in
      let plain = c ∷ unescape_from (a ∷ b ∷ cs) in if eqb c b'%' then decoded else plain

  unfoldable pub unescape : Bytes → Bytes
  unfolding unescape_from c_str
  unescape s = unescape_from (c_str s)

unfoldable pub escape_byte : ℕ → Bytes
escape_byte ch =
    if eqb ch b' '
    then codes "%20"
    else if eqb ch b'&'
    then codes "%26"
    else if eqb ch b'<'
    then codes "%3c"
    else if eqb ch b'>'
    then codes "%3e"
    else if eqb ch b'@'
    then codes "%40"
    else if eqb ch b'%'
    then codes "%25"
    else if eqb ch b':'
    then codes "%3a"
    else ch ∷ []

unfoldable pub escape : Bytes → Bytes
unfolding escape_byte
escape [] = []
escape (c ∷ cs) = escape_byte c ++ escape cs

unfoldable pub contains : ℕ → Bytes → Bool
contains q [] = false
contains q (c ∷ cs) = eqb c q || contains q cs

module _ (to_lower trimmed : Bytes → Bytes) (number : ℕ → Bytes) where
  abbrev default_port : Bytes → ℕ → ℕ
  default_port prefix port =
      let port' = if eq_bytes prefix (codes "sip:") && eqb port 5060 then 0 else port in
      if eq_bytes prefix (codes "sips:") && eqb port' 5061 then 0 else port'

  abbrev port_suffix : ℕ → Bytes
  port_suffix port = if ltb 0 port then b':' ∷ number port else []

  abbrev bracketed : Bytes → Bytes
  bracketed host = if contains b':' host then b'[' ∷ (host ++ b']' ∷ []) else host

  unfoldable pub uri : Bytes → Bytes → ℕ → Bytes
  unfolding unquote contains
  uri schema server port =
      let prefix = to_lower schema in
      let host = unquote trimmed b'[' b']' server in
      prefix ++ (bracketed host ++ port_suffix (default_port prefix port))

  unfoldable pub uri_id : Bytes → Bytes → Bytes → ℕ → Bytes
  unfolding unquote contains
  uri_id schema id server port =
      let prefix = to_lower schema in
      let host = unquote trimmed b'[' b']' server in
      prefix ++ (id ++ (b'@' ∷ (bracketed host ++ port_suffix (default_port prefix port))))
