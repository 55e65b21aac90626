-- ===== src/Contact/Parse.antt =====
-- What `Contact(uri, server)` makes of a complete uri.
use tycho_sipwitchqt.Prelude.{
  ℕ, suc, ◌≡◌, refl, ◌∙◌, Bool, true, false, none, some, [], ◌∷◌, ◌++◌, arith, eqb, if◌then◌else◌,
  length, drop, take-length-append,
}
use tycho_sipwitchqt.Prelude.Int.{ℤ, pos}
use tycho_sipwitchqt.UString.{Bytes, codes, contains, scan, is_digit}
use tycho_sipwitchqt.Util.{index_of, to_u16}
use tycho_sipwitchqt.Contact.{last_index_of, parse_server, parse_user, scheme_of, parse}

drop-length-append : (xs ys : Bytes) → drop (length xs) (xs ++ ys) ≡ ys
drop-length-append [] ys = refl
drop-length-append (x ∷ xs) ys = drop-length-append xs ys

drop-suc-length-append :
    (xs : Bytes) (q : ℕ) (ys : Bytes) → drop (suc (length xs)) (xs ++ q ∷ ys) ≡ ys
drop-suc-length-append [] q ys = refl
drop-suc-length-append (x ∷ xs) q ys = drop-suc-length-append xs q ys

index_of-none : (q : ℕ) (s : Bytes) → contains q s ≡ false → index_of q s ≡ none
unfolding index_of contains
index_of-none q [] h = refl
index_of-none q (c ∷ cs) h = ground (arith, index_of-none q cs)

index_of-append :
    (q : ℕ) (xs ys : Bytes) → contains q xs ≡ false → index_of q (xs ++ q ∷ ys) ≡ some (length xs)
unfolding index_of contains
index_of-append q [] ys h = ground arith
index_of-append q (x ∷ xs) ys h = ground (arith, index_of-append q xs ys)

last_index_of-none : (q : ℕ) (s : Bytes) → contains q s ≡ false → last_index_of q s ≡ none
unfolding last_index_of contains
last_index_of-none q [] h = refl
last_index_of-none q (c ∷ cs) h = ground (arith, last_index_of-none q cs)

last_index_of-append :
    (q : ℕ) (xs ys : Bytes)
    → contains q ys ≡ false
    → last_index_of q (xs ++ q ∷ ys) ≡ some (length xs)
unfolding last_index_of
last_index_of-append q [] ys h = ground (arith, last_index_of-none q ys)
last_index_of-append q (x ∷ xs) ys h = ground (arith, last_index_of-append q xs ys)

contains-append :
    (q : ℕ) (xs ys : Bytes)
    → contains q xs ≡ false
    → contains q ys ≡ false
    → contains q (xs ++ ys) ≡ false
unfolding contains
contains-append q [] ys h k = k
contains-append q (x ∷ xs) ys h k = ground (arith, contains-append q xs ys)

-- Digits hold no separator.
contains-digits :
    (q : ℕ) (s : Bytes) → is_digit q ≡ false → scan is_digit s ≡ true → contains q s ≡ false
unfolding contains scan
contains-digits q [] h k = refl
contains-digits q (c ∷ cs) h k = ground (arith, contains-digits q cs)

-- `toLower` leaves the two schemes as they are.
abbrev pub KeepsSchemes : (Bytes → Bytes) → Type 0
KeepsSchemes to_lower =
    (to_lower (codes "sip:") ≡ codes "sip:")
    × (to_lower (codes "sips:") ≡ codes "sips:")
    × (to_lower (codes "sips") ≡ codes "sips")

abbrev pub scheme_text : Bool → Bytes
scheme_text false = codes "sip:"
scheme_text true = codes "sips:"

abbrev or_default : ℕ → ℕ
or_default port = if eqb port 0 then 5060 else port

module _ (to_lower : Bytes → Bytes) (to_int : Bytes → ℤ) where
  parse_server-port :
      (user host digits : Bytes) (port : ℕ)
      → contains b':' host ≡ false
      → contains b'[' host ≡ false
      → scan is_digit digits ≡ true
      → parse_server to_lower to_int user (host ++ b':' ∷ digits) port ≡ record {
        host = host;
        port = or_default (to_u16 (to_int digits));
        user = user;
        expiration = 0;
      }
  unfolding parse_server
  parse_server-port user host digits port h k d =
      let colon : contains b':' digits ≡ false = contains-digits b':' digits refl d in
      let bracket : contains b'[' (host ++ b':' ∷ digits) ≡ false =
        contains-append b'[' host (b':' ∷ digits) k
          (unfold contains in contains-digits b'[' digits refl d) in
      ground (
        arith,
        index_of-none b'[' (host ++ b':' ∷ digits) bracket,
        index_of-append b':' host digits h,
        last_index_of-append b':' host digits colon,
        take-length-append host (b':' ∷ digits),
        drop-suc-length-append host b':' digits,
      )

  parse_server-no_port :
      (user host : Bytes) (port : ℕ)
      → contains b':' host ≡ false
      → contains b'[' host ≡ false
      → parse_server to_lower to_int user host port ≡ record {
        host = host;
        port = or_default (to_u16 (to_int host));
        user = user;
        expiration = 0;
      }
  unfolding parse_server
  parse_server-no_port user host port h k =
      ground (
        arith,
        index_of-none b'[' host k,
        index_of-none b':' host h,
        last_index_of-none b':' host h,
      )

  -- The scheme and the user are read off, and the rest goes to `parse_server`.
  parse-parse_server :
      (secure : Bool) (user rest server : Bytes)
      → KeepsSchemes to_lower
      → contains b'@' user ≡ false
      → parse to_lower to_int (scheme_text secure ++ (user ++ b'@' ∷ rest)) server
        ≡ parse_server to_lower to_int user rest (if secure then 5061 else 5060)
  unfolding parse scheme_of
  parse-parse_server false user rest server s h =
      rw (s.0, index_of-append b'@' (codes "sip:" ++ user) rest (unfold contains in h))
        (unfold parse_user in
          ground
            (arith, take-length-append user (b'@' ∷ rest), drop-suc-length-append user b'@' rest))
  parse-parse_server true user rest server s h =
      rw (s.2, s.1, index_of-append b'@' (codes "sips:" ++ user) rest (unfold contains in h))
        (unfold parse_user in
          ground
            (arith, take-length-append user (b'@' ∷ rest), drop-suc-length-append user b'@' rest))

  -- A complete uri, with scheme, user, host and a port in digits, is read into its parts: for a user
  -- without `@` and a host without `:` and `[`. A port that is 0 modulo 2^16 becomes 5060, and the
  -- contact never expires. The default server is not used.
  pub parse-full :
      (secure : Bool) (user host digits server : Bytes)
      → KeepsSchemes to_lower
      → contains b'@' user ≡ false
      → contains b':' host ≡ false
      → contains b'[' host ≡ false
      → scan is_digit digits ≡ true
      → parse to_lower to_int
          (scheme_text secure ++ (user ++ b'@' ∷ (host ++ b':' ∷ digits)))
          server
        ≡ record {
          host = host;
          port = or_default (to_u16 (to_int digits));
          user = user;
          expiration = 0;
        }
  parse-full secure user host digits server s u h k d =
      parse-parse_server secure user (host ++ b':' ∷ digits) server s u
      ∙ parse_server-port user host digits (if secure then 5061 else 5060) h k d

  -- A uri that names no port gets port 5060 under both schemes, also under `sips:`, whose port 5061
  -- is lost: for a user without `@`, and a host without `:` and `[` that `toInt` does not read as a
  -- number.
  pub parse-no_port :
      (secure : Bool) (user host server : Bytes)
      → KeepsSchemes to_lower
      → contains b'@' user ≡ false
      → contains b':' host ≡ false
      → contains b'[' host ≡ false
      → to_int host ≡ pos 0
      → parse to_lower to_int (scheme_text secure ++ (user ++ b'@' ∷ host)) server
        ≡ record { host = host; port = 5060; user = user; expiration = 0 }
  parse-no_port secure user host server s u h k z =
      parse-parse_server secure user host server s u
      ∙ (parse_server-no_port user host (if secure then 5061 else 5060) h k ∙ rw z refl)
