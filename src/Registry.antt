-- ===== src/Registry.antt =====
-- Server/registry.cpp and registry.hpp: the registrations of endpoints. A `Registry` object lives on a
-- heap under its address; the four hashes of the source hold addresses, and `count` and `online` are
-- its arrays. Time is an argument, in milliseconds; `updated` is when the object's QElapsedTimer was
-- restarted. The member functions that decide on credentials are in the module Access.
pub mod Index
pub mod Bits
pub mod Invariant
pub mod Lifecycle
pub mod Access
pub mod Replay
pub mod Reach
pub mod Leak
pub mod Tests
use Prim.Native.Nat.{bit_and, bit_or}
use tycho_sipwitchqt.Prelude.{
  ℕ, zero, suc, ◌+◌, ◌-◌, ◌*◌, ◌/◌, ◌%◌, ◌^◌, ◌<◌, String, ◌==◌, eq_iff, ◌≡◌, ◌↔◌, refl, ap, Bool,
  true, false, ◌&&◌, Option, none, some, List, [], ◌∷◌, ◌++◌, map, arith, ltb, eqb, if◌then◌else◌,
}
use tycho_sipwitchqt.Prelude.Int.{ℤ, pos, negsuc, eqb_ℤ, eqb_ℤ_iff, ltb_ℤ}
use tycho_sipwitchqt.UString.{Bytes}
use tycho_sipwitchqt.Contact
use tycho_sipwitchqt.Contact.{Contact}
use tycho_sipwitchqt.Sip.{Event}
use tycho_sipwitchqt.Hash.{KeyEq, lookup, remove, insert, values, remove_pair, nat_eq}

pub record Registry : Type 0 where
  pub user : String
  pub label : String
  pub secret : String
  pub realm : String
  pub digest : String
  pub display : String
  pub origin : String
  pub privs : String
  pub number : ℕ
  pub active : Bool
  pub endpoint : ℕ
  pub timeout : ℤ
  pub random : Bytes
  pub prior : Bytes
  pub context : Option ℕ
  pub address : Contact
  pub updated : ℕ

-- The QVariantHash that describes an endpoint; `expires` is in seconds, and `digest` is as it is
-- after `toUpper`.
pub record Endpoint : Type 0 where
  pub user : String
  pub label : String
  pub secret : String
  pub realm : String
  pub digest : String
  pub display : String
  pub origin : String
  pub privs : String
  pub number : ℕ
  pub endpoint : ℕ
  pub expires : ℤ

abbrev pub Key : Type 0
Key = ℤ × String

abbrev key_beq : Key → Key → Bool
key_beq (m, s) (n, t) = eqb_ℤ m n && s == t

pub key_beq_iff : (a b : Key) → (key_beq a b ≡ true) ↔ (a ≡ b)
key_beq_iff (m, s) (n, t) = ground (arith, eqb_ℤ_iff m n, eq_iff s t)

abbrev pub key_eq : KeyEq Key
key_eq = record { same = key_beq; same_iff = key_beq_iff }

abbrev pub string_eq : KeyEq String
string_eq = record { same = ◌==◌; same_iff = eq_iff }

-- The file's static data; `first` is `range.first`.
pub record Store : Type 0 where
  pub heap : List (ℕ × Registry)
  pub next : ℕ
  pub extensions : List (ℕ × ℕ)
  pub aliases : List (String × ℕ)
  pub registries : List (Key × ℕ)
  pub endpoints : List (ℕ × ℕ)
  pub count : ℕ → ℕ
  pub online : ℕ → ℕ
  pub first : ℕ

unfoldable pub empty : ℕ → Store
empty first = record {
  heap = [];
  next = 0;
  extensions = [];
  aliases = [];
  registries = [];
  endpoints = [];
  count = λ n. 0;
  online = λ i. 0;
  first = first;
}

abbrev pub key_of : Registry → Key
key_of r = (pos r.number, r.label)

abbrev pub update {ℓ} : {A : Type ℓ} → (ℕ → A) → ℕ → A → ℕ → A
update f i v j = if eqb i j then v else f j

-- set(number) and unset(number): one bit of `online`.
unfoldable pub set_bit : ℕ → (ℕ → ℕ) → ℕ → ℕ → ℕ
set_bit first online number =
    let n = number - first in update online (n / 8) (bit_or (online (n / 8)) (2 ^ (n % 8)))

unfoldable pub unset_bit : ℕ → (ℕ → ℕ) → ℕ → ℕ → ℕ
unset_bit first online number =
    let n = number - first in update online (n / 8) (bit_and (online (n / 8)) (255 - 2 ^ (n % 8)))

-- The members that the constructor sets.
abbrev pub registry_of : ℕ → Endpoint → Registry
registry_of now ep = record {
  user = ep.user;
  label = ep.label;
  secret = ep.secret;
  realm = ep.realm;
  digest = ep.digest;
  display = ep.display;
  origin = ep.origin;
  privs = ep.privs;
  number = ep.number;
  active = false;
  endpoint = ep.endpoint;
  timeout = milliseconds ep.expires;
  random = [];
  prior = [];
  context = none;
  address = record { host = []; port = 0; user = []; expiration = 0 };
  updated = now;
}
  where
    milliseconds : ℤ → ℤ
    milliseconds (pos s) = pos (s * 1000)
    milliseconds (negsuc s) = negsuc (suc s * 1000 - 1)

-- Registry(ep). `++count[number]` is unsigned.
unfoldable pub create : ℕ → Endpoint → Store → Store
create now ep s =
    let r = registry_of now ep in
    let count = (s.count ep.number + 1) % 2 ^ 32 in
    record s {
      heap = (s.next, r) ∷ s.heap;
      next = suc s.next;
      count = update s.count ep.number count;
      online = if eqb count 1 then set_bit s.first s.online ep.number else s.online;
      extensions = (ep.number, s.next) ∷ s.extensions;
      aliases = (ep.user, s.next) ∷ s.aliases;
      registries = insert key_eq (key_of r) s.next s.registries;
      endpoints = insert nat_eq ep.endpoint s.next s.endpoints;
    }

-- The heap without the object at an address, and with another object there.
unfoldable pub release : ℕ → List (ℕ × Registry) → List (ℕ × Registry)
release p [] = []
release p ((q, r) ∷ h) = let rest = (q, r) ∷ release p h in if eqb q p then h else rest

unfoldable pub write : ℕ → Registry → List (ℕ × Registry) → List (ℕ × Registry)
write p v [] = []
write p v ((q, r) ∷ h) = let rest = (q, r) ∷ write p v h in if eqb q p then (q, v) ∷ h else rest

-- ~Registry() of the object `r` at `p`. `--count[number]` is unsigned.
unfoldable pub destroy : ℕ → Registry → Store → Store
destroy p r s =
    let count = (s.count r.number + (2 ^ 32 - 1)) % 2 ^ 32 in
    record s {
      heap = release p s.heap;
      count = update s.count r.number count;
      online = if eqb count 0 then unset_bit s.first s.online r.number else s.online;
      endpoints = remove nat_eq r.endpoint s.endpoints;
      registries = remove key_eq (key_of r) s.registries;
      extensions = remove_pair nat_eq eqb r.number p s.extensions;
      aliases = remove_pair string_eq eqb r.user p s.aliases;
    }

-- `updated.hasExpired(timeout)`: a negative timeout is none.
abbrev pub timer_expired : ℤ → ℕ → Bool
timer_expired (pos t) elapsed = ltb t elapsed
timer_expired (negsuc t) elapsed = false

unfoldable pub has_expired : ℕ → Registry → Bool
has_expired now r = timer_expired r.timeout (now - r.updated)

-- A use of an address: `none` is a use after delete.
abbrev pub deref : Store → ℕ → Option Registry
deref s p = lookup nat_eq p s.heap

-- The result of a find: the store, and the object that was found with its address.
abbrev pub Found : Type 0
Found = Store × Option (ℕ × Registry)

unfoldable pub unless_expired : ℕ → Store → ℕ → Registry → Found
unless_expired now s p r = if has_expired now r then (destroy p r s, none) else (s, some (p, r))

unfoldable pub check_found : ℕ → Store → Option ℕ → Option Found
check_found now s none = some (s, none)
check_found now s (some p) = elim (deref s p) [
  | none ↦ none
  | some r ↦ some (unless_expired now s p r)
]

-- find(qlonglong) and find(const Event&)
unfoldable pub find_endpoint : ℕ → ℕ → Store → Option Found
find_endpoint now key s = check_found now s (lookup nat_eq key s.endpoints)

unfoldable pub find_event : ℕ → Event → Store → Option Found
find_event now ev s = check_found now s (lookup key_eq (ev.number, ev.label) s.registries)

abbrev or_named : List ℕ → List ℕ → List ℕ
or_named [] named = named
or_named (p ∷ ps) named = p ∷ ps

abbrev numbered : ℤ → Store → List ℕ → List ℕ
numbered (negsuc n) s named = named
numbered (pos zero) s named = named
numbered (pos (suc n)) s named = or_named (values nat_eq (suc n) s.extensions) named

-- find(const UString& target), with `target.toInt()` as a parameter.
unfoldable pub find_target : (String → ℤ) → String → Store → List ℕ
find_target to_int target s =
    if target == "" then [] else numbered (to_int target) s (values string_eq target s.aliases)

-- list()
unfoldable pub list : Store → List ℕ
list s = map (λ (e : ℕ × ℕ). e.1) s.extensions

-- cleanup(): the walk over a snapshot of `registries`.
unfoldable pub sweep : ℕ → List (Key × ℕ) → Store → Option Store
sweep now [] s = some s
sweep now ((k, p) ∷ snapshot) s = elim (deref s p) [
  | none ↦ none
  | some r ↦ sweep now snapshot (if has_expired now r then destroy p r s else s)
]

unfoldable pub cleanup : ℕ → Store → Option Store
cleanup now s = sweep now s.registries s

bytes_of : ℕ → ℕ → (ℕ → ℕ) → Bytes
bytes_of zero i online = []
bytes_of (suc n) i online = online i ∷ bytes_of n (i + 1) online

-- bitmask(), before the base64 coding: `size` bytes of `online`.
unfoldable pub bitmask : ℕ → Store → Bytes
unfolding bytes_of
bitmask last s = bytes_of ((last - s.first) / 8 + 1) 0 s.online
