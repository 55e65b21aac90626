-- ===== src/Contact.antt =====
-- Common/contact.cpp and contact.hpp: SIP endpoints with an expiration. The wall clock is an
-- argument; Qt's `toLower`, `toInt` and `number` and C's `atoi` are parameters. Times do not wrap.
pub mod Parse
pub mod Expiry
pub mod Tests
use tycho_sipwitchqt.Prelude.{
  ℕ, zero, suc, ◌+◌, ◌-◌, Bool, true, false, not, ◌&&◌, ◌||◌, Option, none, some, List, [], ◌∷◌,
  ◌++◌, leb, ltb, eqb, if◌then◌else◌, take, drop,
}
use tycho_sipwitchqt.Prelude.Int.{ℤ, pos, negsuc, ltb_ℤ}
use tycho_sipwitchqt.UString.{Bytes, codes, eq_bytes, contains, starts_with, quote}
use tycho_sipwitchqt.Util.{index_of, to_u16, port_number}

-- `expiration` 0 stands for a contact that never expires.
pub record Contact : Type 0 where
  pub host : Bytes
  pub port : ℕ
  pub user : Bytes
  pub expiration : ℕ

unfoldable pub empty : Contact
empty = record { host = []; port = 0; user = []; expiration = 0 }

expiry_of : ℕ → ℤ → ℕ
expiry_of now (pos duration) = now + duration
expiry_of now (negsuc n) = 0

-- Contact(address, port, user, duration)
unfoldable pub contact_at : ℕ → Bytes → ℕ → Bytes → ℤ → Contact
unfolding expiry_of
contact_at now address port user duration = record {
  host = address;
  port = port;
  user = user;
  expiration = expiry_of now duration;
}

abbrev is_empty : Bytes → Bool
is_empty [] = true
is_empty (c ∷ cs) = false

-- operator bool, operator!, operator== and operator!=
unfoldable pub is_valid : Contact → Bool
is_valid c = not (eqb c.port 0) && not (is_empty c.host)

unfoldable pub is_not : Contact → Bool
is_not c = eqb c.port 0 && not (is_empty c.host)

unfoldable pub equals : Contact → Contact → Bool
equals c other = eq_bytes c.host other.host && (eqb c.port other.port && eq_bytes c.user other.user)

unfoldable pub differs : Contact → Contact → Bool
differs c other =
    not (eq_bytes c.host other.host)
    || (not (eqb c.port other.port) || not (eq_bytes c.user other.user))

-- refresh(const Contact& from), and `+=`, which calls it.
unfoldable pub refresh_from : Contact → Contact → Contact
unfolding differs
refresh_from c from =
    if differs from c && ltb 0 from.expiration then record c { expiration = from.expiration } else c

-- refresh(int seconds)
unfoldable pub refresh : ℕ → Contact → ℤ → Contact
refresh now c (negsuc n) = record c { expiration = 0 }
refresh now c (pos seconds) =
    let start = if eqb c.expiration 0 then now else c.expiration in
    record c { expiration = start + seconds }

unfoldable pub has_expired : ℕ → Contact → Bool
has_expired now c = if eqb c.expiration 0 then false else leb c.expiration now

unfoldable pub clear : Contact → Contact
clear c = record c { host = []; port = 0; user = []; expiration = 0 }

unfoldable pub to_string : (ℕ → Bytes) → Contact → Bytes
unfolding contains quote
to_string number c =
    let port = b':' ∷ number c.port in
    if eqb c.port 0
    then codes "invalid"
    else if contains b':' c.host && not (starts_with b'[' c.host)
    then quote b'[' b']' c.host ++ port
    else c.host ++ port

-- `lastIndexOf` one character.
unfoldable pub last_index_of : ℕ → Bytes → Option ℕ
last_index_of q [] = none
last_index_of q (c ∷ cs) = elim (last_index_of q cs) [
  | some n ↦ some (suc n)
  | none ↦ if eqb c q then some 0 else none
]

-- Two results of `indexOf` are equal; -1 equals -1.
abbrev pub same_index : Option ℕ → Option ℕ → Bool
same_index none none = true
same_index (some m) (some n) = eqb m n
same_index _ _ = false

-- `left(n)`: all of the text for -1. `mid(n + 1)`: all of it for -1.
abbrev pub left : Option ℕ → Bytes → Bytes
left none s = s
left (some n) s = take n s

abbrev pub after : Option ℕ → Bytes → Bytes
after none s = s
after (some n) s = drop (suc n) s

-- The port that a scheme stands for, and how long the scheme's prefix is.
pub record Scheme : Type 0 where
  pub lead : ℕ
  pub port : ℕ

module _ (to_lower : Bytes → Bytes) (to_int : Bytes → ℤ) where
  unfoldable pub scheme_of : Bytes → Scheme
  scheme_of uri =
      if eq_bytes (to_lower (take 4 uri)) (codes "sip:")
      then record { lead = 4; port = 5060 }
      else if eq_bytes (to_lower (take 5 uri)) (codes "sips:")
      then record { lead = 5; port = 5061 }
      else record { lead = 0; port = 0 }

  -- From `lead = server.indexOf("[")` on: the host and port of `server`.
  unfoldable pub parse_server : Bytes → Bytes → ℕ → Contact
  parse_server user server port =
      let lead : ℕ = elim (index_of b'[' server) [ none ↦ 0 | some n ↦ n ] in
      let last = last_index_of b':' server in
      let host = if ltb 0 lead then take lead server else left (index_of b':' server) server in
      let port' = to_u16 (to_int (after last server)) in
      if same_index (index_of b':' (drop lead server)) last
      then record {
        host = host;
        port = if eqb port' 0 then 5060 else port';
        user = user;
        expiration = 0;
      }
      else record {
        host = server;
        port = if eqb port 0 then 5060 else port;
        user = user;
        expiration = 0;
      }

  -- The text in front of `@` (`pos > 0`), or all of it with the given server.
  unfoldable pub parse_user : Scheme → Bytes → Bytes → Option ℕ → Contact
  parse_user scheme uri server (some (suc at)) =
      parse_server (take (suc at - scheme.lead) (drop scheme.lead uri)) (drop (suc (suc at)) uri)
        scheme.port
  parse_user scheme uri server _ =
      let own = scheme_of server in
      parse_server (drop scheme.lead uri) (drop own.lead server)
        (if eqb scheme.port 0 then own.port else scheme.port)

  -- Contact(uri, server)
  unfoldable pub parse : Bytes → Bytes → Contact
  parse uri server = parse_user (scheme_of uri) uri server (index_of b'@' uri)

-- The parts of an osip_uri_t; `none` is a null pointer.
pub record OsipUri : Type 0 where
  pub host : Option Bytes
  pub scheme : Option Bytes
  pub username : Option Bytes
  pub port : Option Bytes

module _ (atoi : Bytes → ℤ) where
  abbrev or_empty : Option Bytes → Bytes
  or_empty none = []
  or_empty (some s) = s

  scheme_port : Option Bytes → ℕ
  scheme_port none = 5060
  scheme_port (some s) = if eq_bytes s (codes "sips") then 5061 else 5060

  osip_port : Option Bytes → Option Bytes → ℕ
  unfolding scheme_port port_number
  osip_port scheme none = scheme_port scheme
  osip_port scheme (some []) = scheme_port scheme
  osip_port scheme (some (c ∷ cs)) = port_number atoi (some (c ∷ cs))

  osip_host : OsipUri → ℕ → Option Bytes → Contact
  unfolding osip_port
  osip_host uri expiration none = empty
  osip_host uri expiration (some []) = empty
  osip_host uri expiration (some (c ∷ cs)) = record {
    host = c ∷ cs;
    port = osip_port uri.scheme uri.port;
    user = or_empty uri.username;
    expiration = expiration;
  }

  -- Contact(const osip_uri_t *)
  unfoldable pub of_osip_uri : Option OsipUri → Contact
  unfolding osip_host empty
  of_osip_uri none = empty
  of_osip_uri (some uri) = osip_host uri 0 uri.host

  -- Contact(osip_contact_t *): its uri, and its `expires` parameter.
  unfoldable pub of_osip_contact : ℕ → Option OsipUri → Option Bytes → Contact
  unfolding osip_host empty refresh
  of_osip_contact now none expires = empty
  of_osip_contact now (some uri) none = osip_host uri 0 uri.host
  of_osip_contact now (some uri) (some value) =
      osip_host uri (refresh now empty (atoi value)).expiration uri.host
