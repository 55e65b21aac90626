-- ===== src/Authorize/Tests.antt =====
-- Runs and instances for Database/authorize.cpp: tables with one extension, whose state says whether
-- the tablet has its row.
use tycho_sipwitchqt.Prelude.{
  ◌≡◌, refl, Bool, true, false, none, some, Option, [], arith, if◌then◌else◌, All,
}
use tycho_sipwitchqt.Prelude.Int.{pos, ◌≤ℤ◌}
use tycho_sipwitchqt.Sip.{Event}
use tycho_sipwitchqt.Authorize.{
  Authorization, Tables, Settings, clamp_expires, origin_of, find_endpoint,
}
use tycho_sipwitchqt.Authorize.Licensing.{IsLegal, find_endpoint-IsLegal}
use tycho_sipwitchqt.Authorize.Lookup.{limit_of, clamp_expires_lem}
use tycho_sipwitchqt.Samples.{register}

abbrev usual : Settings
usual = record {
  first_number = pos 100;
  last_number = pos 699;
  expires_nat = pos 80;
  expires_udp = pos 300;
  expires_tcp = pos 600;
  has_db = true;
}

abbrev alice : Authorization
alice = record {
  authtype = "USER";
  authaccess = "LOCAL";
  authdigest = "MD5";
  realm = "pbx";
  secret = "s";
  fullname = "Alice";
  created = "";
}

abbrev tables : Option Authorization → Tables Bool
tables auth = record {
  endpoint = λ n l d. if d then some 4 else none;
  extension = λ n d. some (record { authname = "alice"; display = "" });
  authorize = λ a d. auth;
  is_sysadmin = λ n d. false;
  is_operator = λ n d. false;
  insert_endpoint = λ n l d. true;
  delete_authorize = λ a d. d;
  labelled_endpoints = λ d. [];
  insert_delete = λ a e created d. d;
}

abbrev first_time : Event
first_time = record register { initialize = "label" }

origin_runs : origin_of "sip:101@pbx" ≡ "pbx"
unfolding origin_of
origin_runs = refl

clamp_expires_lem_example :
    (pos 1 ≤ℤ clamp_expires usual "tablet" "udp" (pos 3600))
    × (clamp_expires usual "tablet" "udp" (pos 3600) ≤ℤ pos 3600)
    × (clamp_expires usual "tablet" "udp" (pos 3600) ≤ℤ limit_of usual "tablet" "udp")
clamp_expires_lem_example =
    clamp_expires_lem usual "tablet" "udp" (pos 3600) (omega arith) (omega arith) (omega arith)
      (omega arith)

find_endpoint-IsLegal_example :
    All
      (IsLegal
        (tables (some alice))
        usual
        register
        true
        (find_endpoint (tables (some alice)) usual register true).0)
      (find_endpoint (tables (some alice)) usual register true).1
find_endpoint-IsLegal_example = find_endpoint-IsLegal (tables (some alice)) usual register true
