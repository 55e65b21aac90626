-- ===== src/Util.antt =====
-- Common/util.cpp and Common/inline.hpp: clock arithmetic, host names, ports and ranges. Qt's
-- `toInt`, C's `atoi` and what the host calls itself are parameters.
pub mod Clock
pub mod Names
pub mod Ranges
pub mod Tests
use tycho_sipwitchqt.Prelude.{
  ℕ, zero, suc, ◌+◌, ◌-◌, ◌*◌, ◌/◌, ◌%◌, ◌^◌, Bool, not, ◌||◌, Option, none, some, List, [], ◌∷◌,
  ltb, eqb, if◌then◌else◌, take, drop,
}
use tycho_sipwitchqt.Prelude.Int.{ℤ, pos, negsuc, ◌+ℤ◌, ltb_ℤ}
use tycho_sipwitchqt.UString.{Bytes, codes}

-- A QDateTime from 1970 on: milliseconds since the epoch, and its offset from UTC in seconds.
pub record When : Type 0 where
  pub msecs : ℕ
  pub offset : ℤ

-- C++'s `%` of a signed number by a positive one: the sign follows the dividend.
abbrev pub rem_ℤ : ℤ → ℕ → ℤ
rem_ℤ (pos a) n = pos (a % n)
rem_ℤ (negsuc a) n = if eqb (suc a % n) 0 then pos 0 else negsuc (suc a % n - 1)

-- static_cast<unsigned> of a quotient or difference.
abbrev pub to_u32 : ℤ → ℕ
to_u32 (pos a) = a % 2 ^ 32
to_u32 (negsuc a) = (2 ^ 32 - suc a % 2 ^ 32) % 2 ^ 32

abbrev pub div_ℤ : ℤ → ℕ → ℤ
div_ℤ (pos a) n = pos (a / n)
div_ℤ (negsuc a) n = if eqb (suc a / n) 0 then pos 0 else negsuc (suc a / n - 1)

abbrev pub negate : ℤ → ℤ
negate (pos zero) = pos 0
negate (pos (suc a)) = negsuc a
negate (negsuc a) = pos (suc a)

-- Seconds since the epoch on the local clock.
abbrev pub local_secs : When → ℤ
local_secs w = pos (w.msecs / 1000) +ℤ w.offset

unfoldable pub current_day : When → ℕ
current_day w = to_u32 (div_ℤ (local_secs w) 86400)

unfoldable pub until_tomorrow : When → ℕ
until_tomorrow w = to_u32 (pos 86400 +ℤ negate (rem_ℤ (local_secs w) 86400))

abbrev pub times_1000 : ℤ → ℤ
times_1000 (pos a) = pos (a * 1000)
times_1000 (negsuc a) = negsuc (suc a * 1000 - 1)

abbrev pub local_msecs : When → ℤ
local_msecs w = pos w.msecs +ℤ times_1000 w.offset

unfoldable pub until_interval : ℕ → When → ℤ
until_interval interval w = pos interval +ℤ negate (rem_ℤ (local_msecs w) interval)

unfoldable pub timestamp_key : When → ℕ → ℕ
timestamp_key w sequence = w.msecs / 1000 * 10000 + sequence % 10000

-- `indexOf` one character.
unfoldable pub index_of : ℕ → Bytes → Option ℕ
index_of q [] = none
index_of q (c ∷ cs) =
    let rest = index_of q cs in
    if eqb c q then some 0 else elim rest [ none ↦ none | some n ↦ some (suc n) ]

unfoldable pub port_at : (Bytes → ℤ) → Bytes → Option ℕ → ℤ
port_at to_int host_id none = pos 0
port_at to_int host_id (some at) =
    if ltb at 1
    then pos 0
    else (let port = to_int (drop at host_id) in
        if ltb_ℤ port (pos 0) || ltb_ℤ (pos 65535) port then pos 0 else port)

unfoldable pub host_port : (Bytes → ℤ) → Bytes → ℤ
unfolding port_at index_of
host_port to_int host_id = port_at to_int host_id (index_of b':' host_id)

-- static_cast<quint16>(atoi(cp)), and 0 for a null pointer.
abbrev pub to_u16 : ℤ → ℕ
to_u16 (pos a) = a % 2 ^ 16
to_u16 (negsuc a) = (2 ^ 16 - suc a % 2 ^ 16) % 2 ^ 16

unfoldable pub port_number : (Bytes → ℤ) → Option Bytes → ℕ
port_number atoi none = 0
port_number atoi (some cp) = to_u16 (atoi cp)

unfoldable pub domain_of : Bytes → Option ℕ → Bytes
domain_of host none = codes "localdomain"
domain_of host (some at) = drop (suc at) host

-- `QHostInfo::localDomainName()` and `localHostName()` are the arguments.
unfoldable pub local_domain : Bytes → Bytes → Bytes
unfolding domain_of index_of
local_domain [] host = domain_of host (index_of b'.' host)
local_domain (c ∷ cs) host = c ∷ cs

unfoldable pub name_of : Bytes → Option ℕ → Bytes
name_of host none = host
name_of host (some at) = take at host

unfoldable pub local_name : Bytes → Bytes
unfolding name_of index_of
local_name [] = codes "localhost"
local_name (c ∷ cs) = name_of (c ∷ cs) (index_of b'.' (c ∷ cs))

unfoldable pub host_name : Bytes → Bytes
host_name [] = codes "localhost"
host_name (c ∷ cs) = c ∷ cs

-- The templates of inline.hpp, over the type's `operator<`.
module _ {ℓ} {T : Type ℓ} (lt : T → T → Bool) where
  unfoldable pub clamp_range : T → T → T → T
  clamp_range value min max = if lt value min then min else if lt max value then max else value

  unfoldable pub in_range : T → T → T → Bool
  in_range value min max = not (lt value min || lt max value)
