-- ===== src/Contact/Tests.antt =====
-- Runs and instances for Common/contact.cpp.
use tycho_sipwitchqt.Prelude.{◌≡◌, refl, [], ◌∷◌, eqb, if◌then◌else◌}
use tycho_sipwitchqt.Prelude.Int.{ℤ, pos}
use tycho_sipwitchqt.UString.{Bytes, codes}
use tycho_sipwitchqt.Util.{index_of}
use tycho_sipwitchqt.Contact.{Contact, parse, parse_user, parse_server, scheme_of, last_index_of}

-- Enough of `toLower` and `toInt` for the runs below.
abbrev same : Bytes → Bytes
same s = s

abbrev read_5080 : Bytes → ℤ
read_5080 [] = pos 0
read_5080 (c ∷ cs) = if eqb c b'5' then pos 5080 else pos 0

abbrev alice : Contact
alice = record { host = codes "pbx"; port = 5080; user = codes "alice"; expiration = 0 }

parse_user_only :
    parse same read_5080 (codes "bob") (codes "sip:pbx:5080") ≡ record alice { user = codes "bob" }
unfolding parse parse_user parse_server scheme_of index_of last_index_of
parse_user_only = refl
