-- ===== src/Database/Office.antt =====
-- Data for the runs of the handlers of Database/database.cpp: an office with two users, an operator and
-- a system administrator, and stand-ins for Qt.
use tycho_sipwitchqt.Prelude.{
  ℕ, suc, ◌+◌, ◌-◌, ◌*◌, String, ◌==◌, true, some, [], ◌∷◌, if◌then◌else◌,
}
use tycho_sipwitchqt.Prelude.Int.{ℤ, pos, negsuc, eqb_ℤ}
use tycho_sipwitchqt.UString.{Bytes, codes}
use tycho_sipwitchqt.Sip.{Event}
use tycho_sipwitchqt.Samples.{register}
use tycho_sipwitchqt.Database.Tables.{Tables, EndpointRow, ExtensionRow, AuthorizeRow}
use tycho_sipwitchqt.Authorize.{Settings}
use tycho_sipwitchqt.Database.Outbox.{Qt}
use tycho_sipwitchqt.Database.Accounts.{Config}

abbrev pub digits : Bytes → ℕ → ℕ
digits [] n = n
digits (c ∷ b) n = digits b (10 * n + (c - b'0'))

abbrev pub size : String → ℕ
size String.[] = 0
size (String.◌∷◌ c s) = suc (size s)

abbrev pub qt : Qt
qt = record {
  atoi = λ b. pos (digits b 0);
  to_int = λ b. pos (digits b 0);
  to_long_long = λ s. pos (digits (codes s) 0);
  number = λ n. if eqb_ℤ n (pos 101) then "101" else "102";
  port_number = λ n. codes "5060";
  trimmed = λ b. b;
  to_lower = λ b. b;
  to_upper = λ s. s;
  from_utf8 = λ b. "hello";
  length = size;
  json = λ b key. if key == "s" then "new" else "";
  to_hex = λ b. "";
  to_int16 = λ a b. 0;
  same_name = λ s t. s == t;
}

abbrev pub device : ℕ → ℤ → String → EndpointRow
device endpoint extnbr label = record {
  endpoint = endpoint;
  extnbr = extnbr;
  label = label;
  agent = "";
  devkey = [];
  lastaccess = 0;
  lasturi = "";
  created = "";
}

abbrev pub number_of : ℤ → String → ExtensionRow
number_of extnbr authname = record {
  extnbr = extnbr;
  authname = authname;
  display = "";
  extpriority = pos 0;
  pubkey = [];
}

abbrev pub user : String → String → AuthorizeRow
user authname type = record {
  authname = authname;
  authtype = type;
  authaccess = "LOCAL";
  authdigest = "MD5";
  realm = "pbx";
  secret = "old";
  fullname = "";
  email = "";
  fwdaway = negsuc 0;
  fwdbusy = negsuc 0;
  fwdnoanswer = negsuc 0;
  created = "";
}

abbrev pub office : Tables
office = record {
  endpoints =
      device 4 (pos 101) "tablet" ∷ device 5 (pos 101) "NONE" ∷ device 6 (pos 102) "phone" ∷ [];
  extensions = number_of (pos 101) "alice" ∷ number_of (pos 102) "bob" ∷ [];
  authorize = user "alice" "USER" ∷ user "bob" "USER" ∷ [];
  admin = record { authname = "system"; extnbr = pos 102 } ∷ [];
  groups = record { grpnbr = pos 0; extnbr = pos 101; extpriority = pos 0 } ∷ [];
  calling = [];
  speeds = [];
  messages =
      record {
        mid = 7;
        msgseq = pos 1;
        msgfrom = "bob";
        msgto = "101";
        subject = "";
        display = "Bob";
        posted = 900;
        expires = 2000;
        msgtype = "text";
        msgtext = "hi";
      }
      ∷ [];
  outboxes = record { mid = 7; endpoint = 4; msgstatus = pos 0 } ∷ [];
  deletes = [];
  next_mid = 8;
  next_endpoint = 7;
  now = "";
}

-- Alice's tablet writes to 102.
abbrev pub note : Event
note = record register { to_user = some "102" }

abbrev pub usual : Settings
usual = record {
  first_number = pos 100;
  last_number = pos 699;
  expires_nat = pos 60;
  expires_udp = pos 300;
  expires_tcp = pos 600;
  has_db = true;
}

abbrev pub cfg : Config
cfg = record {
  first_number = pos 100;
  last_number = pos 699;
  policy = "private";
  operator_display = "Operators";
  network = "pbx";
}
