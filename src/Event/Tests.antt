-- ===== src/Event/Tests.antt =====
-- Runs and instances for Server/event.cpp: a REGISTER from behind a NAT.
use tycho_sipwitchqt.Prelude.{
  ℕ, ◌*◌, ◌+◌, ◌-◌, false, none, some, [], ◌∷◌, ◌≡◌, inl, refl, arith, if◌then◌else◌, leb, All,
  ◌&&◌,
}
use tycho_sipwitchqt.Prelude.Int.{pos, negsuc}
use tycho_sipwitchqt.UString.{Bytes, codes, eq_bytes}
use tycho_sipwitchqt.Contact.{OsipUri, contact_at}
use tycho_sipwitchqt.Event.{Via, OsipMessage, Received, Context, message_new}
use tycho_sipwitchqt.Event.Message.{via_port}
use tycho_sipwitchqt.Event.Build.{data_of}
use tycho_sipwitchqt.Event.Sources.{data_of-source}
use tycho_sipwitchqt.Event.Names.{IsLower, IsLowered, IsNumbered, data_of-number}

abbrev lower : Bytes → Bytes
lower [] = []
lower (c ∷ cs) = (if leb b'A' c && leb c b'Z' then c + 32 else c) ∷ lower cs

lower-IsLower : (s : Bytes) → All IsLower (lower s)
lower-IsLower [] = tt
lower-IsLower (c ∷ cs) = (ground arith, lower-IsLower cs)

abbrev digits : Bytes → ℕ → ℕ
digits [] n = n
digits (c ∷ b) n = digits b (10 * n + (c - b'0'))

abbrev context : Context
context = record {
  now = 1000;
  default_port = 5060;
  is_local = λ host. eq_bytes host (codes "pbx");
  to_lower = lower;
  to_upper = λ s. s;
  trimmed = λ s. s;
  to_int = λ s. pos (digits s 0);
  atoi = λ s. pos (digits s 0);
  from_hex = λ s. s;
}

-- The proxy saw 198.51.100.7:40000 where the client wrote 10.0.0.5.
abbrev via : Via
via = record {
  host = some (codes "10.0.0.5");
  port = none;
  rport = some (codes "40000");
  received = some (codes "198.51.100.7");
}

abbrev pbx_uri : OsipUri
pbx_uri = record {
  host = some (codes "pbx");
  scheme = some (codes "sip");
  username = some (codes "101");
  port = none;
}

abbrev request : OsipMessage
request = record {
  method = codes "REGISTER";
  status_code = pos 0;
  reason_phrase = [];
  req_uri = some (record pbx_uri { username = none });
  uri_text = some (codes "sip:pbx");
  authorization = none;
  vias = via ∷ [];
  contacts = [];
  record_routes = [];
  routes = [];
  allows = [];
  user_agent = none;
  session_expires = none;
  expires = some (codes "1800");
  x_label = some (codes "NONE");
  x_initialize = none;
  x_device = none;
  subject = none;
  from = some (record { displayname = none; url = some pbx_uri });
  to = some (record { displayname = none; url = some pbx_uri });
  content_type = none;
  body = none;
}

abbrev received : Received
received = record { kind = message_new; request = request; response = request }

data_of-source_example :
    ((data_of context (some received)).natted ≡ false)
    × ((data_of context (some received)).source
        ≡ contact_at 1000 (codes "10.0.0.5") (via_port context via) [] (negsuc 0))
data_of-source_example = data_of-source context received request [] [] via refl refl refl tt

context-IsLowered : IsLowered context
context-IsLowered = record { lowered = lower-IsLower; trims = λ s h. h }

data_of-number_example : IsNumbered context request.to (data_of context (some received)).number
data_of-number_example = data_of-number context received (inl refl)
