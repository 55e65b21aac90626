-- ===== src/Util/Tests.antt =====
-- Runs and instances for Common/util.cpp and Common/inline.hpp.
use tycho_sipwitchqt.Prelude.{◌≡◌, refl, [], ◌∷◌, eqb, if◌then◌else◌, some}
use tycho_sipwitchqt.Prelude.Int.{ℤ, pos, negsuc}
use tycho_sipwitchqt.UString.{Bytes, codes}
use tycho_sipwitchqt.Util.{When, until_tomorrow, port_number}
use tycho_sipwitchqt.Util.Names.{RejectsColon}

-- An evening, four hours west of UTC.
abbrev evening : When
evening = record { msecs = 1_700_000_000_500; offset = negsuc 14399 }

evening_runs : until_tomorrow evening ≡ 20800
unfolding until_tomorrow
evening_runs = refl

-- A reader of one digit, which is 0 for any other text.
abbrev one_digit : Bytes → ℤ
one_digit [] = pos 0
one_digit (c ∷ cs) = if eqb c b'5' then pos 5 else pos 0

one_digit-RejectsColon : RejectsColon one_digit
one_digit-RejectsColon cs = refl

port_number_wraps : port_number (λ s. pos 70000) (some (codes "70000")) ≡ 4464
unfolding port_number
port_number_wraps = refl
