-- ===== src/Samples.antt =====
-- Data for the runs: an extension of the range 100 to 699 with a tablet, a REGISTER and a client's
-- request that it could send, and stand-ins for the digest and for the hexadecimal coding.
use tycho_sipwitchqt.Prelude.{
  String, ◌==◌, eq_iff, ◌≡◌, ◌≢◌, true, false, none, some, [], ◌∷◌, eqb, if◌then◌else◌,
}
use tycho_sipwitchqt.Prelude.Int.{pos}
use tycho_sipwitchqt.UString.{Bytes, codes}
use tycho_sipwitchqt.Contact.{Contact}
use tycho_sipwitchqt.Sip.{Event, message_new, Algorithm}
use tycho_sipwitchqt.Registry.{Registry, Endpoint, Store, empty, create, registry_of}

abbrev pub plain : Algorithm → String → String
plain a s = s

abbrev pub hex : Bytes → String
hex [] = "00"
hex (c ∷ b) = if eqb c 7 then "07" else "08"

abbrev pub tablet : Endpoint
tablet = record {
  user = "alice";
  label = "tablet";
  secret = "s";
  realm = "pbx";
  digest = "MD5";
  display = "Alice";
  origin = "pbx";
  privs = "none";
  number = 101;
  endpoint = 4;
  expires = pos 60;
}

-- The registration as it is after its first challenge, and when it is on line.
abbrev pub challenged : Registry
challenged = record (registry_of 0 tablet) { random = 7 ∷ []; prior = [] }

abbrev pub on_line : Registry
on_line = record challenged { active = true; context = some 1; updated = 10 }

abbrev pub pbx : Contact
pbx = record { host = codes "pbx"; port = 5060; user = []; expiration = 0 }

-- A REGISTER with the credentials of the nonce 07.
abbrev pub register : Event
register = record {
  type = message_new;
  method = "REGISTER";
  sent_method = "";
  number = pos 101;
  label = "tablet";
  expires = pos 60;
  authorization = true;
  realm = "pbx";
  userid = "alice";
  algorithm = "MD5";
  once = "07";
  digest = "s:07:REGISTER:sip:pbx";
  request = "sip:pbx";
  initialize = "";
  protocol = "tcp";
  source = pbx;
  contact = pbx;
  is_local = true;
  to_local = true;
  target_user = true;
  to_user = some "alice";
  from_complete = true;
  content_type = "text/plain";
  body = codes "hello";
  status = pos 0;
  mid = none;
  ep = none;
  context = 1;
  subject = "";
  display = "Alice";
  from = pbx;
  from_user = codes "alice";
  timestamp = 1000;
  sequence = pos 7;
  sent = some [];
}

-- The same client asks for its roster.
abbrev pub roster : Event
roster = record register { method = "X-ROSTER"; digest = "s:07:X-ROSTER:sip:pbx" }

-- The store with one registration.
abbrev pub one : Store
one = create 0 tablet (empty 100)

pub differ : (s t : String) → (s == t) ≡ false → s ≢ t
differ s t f e = cc (f, (eq_iff s t).1 e)
