-- ===== src/Connect/Tests.antt =====
-- Runs and instances for the client of Connect/: a listener for the extension 101, stand-ins for Qt,
-- osip and the C library.
use tycho_sipwitchqt.Prelude.{
  ℕ, ◌+◌, ◌-◌, ◌≤◌, true, false, none, some, List, [], ◌∷◌, ◌≡◌, ◌↔◌, refl, arith,
}
use tycho_sipwitchqt.Prelude.Int.{pos, negsuc}
use tycho_sipwitchqt.UString.{Bytes, codes, contains}
use tycho_sipwitchqt.Contact.{to_string}
use tycho_sipwitchqt.Samples.{pbx}
use tycho_sipwitchqt.Manager.{Xdp}
use tycho_sipwitchqt.Manager.Body.{xdp_text}
use tycho_sipwitchqt.Connect.{Foreign, Creds, sip_ok}
use tycho_sipwitchqt.Connect.Listener.{
  Listener, listener, Text, emit, answer, receive_text, change_banner, update_roster,
  contact_address,
}
use tycho_sipwitchqt.Connect.Listener.Receive.{Address, Incoming, receive_message}
use tycho_sipwitchqt.Connect.Listener.Receive.Accept.{IsTaken, receive_message-IsTaken}
use tycho_sipwitchqt.Connect.Listener.Xdp.{parse_xdp}
use tycho_sipwitchqt.Connect.Listener.Xdp.Served.{IsOnLine, told, parse_xdp-told}
use tycho_sipwitchqt.Connect.Listener.Loop.{
  registration_success, message_new, Event, Built, running, ended, Input, expired, stopped, woke,
  turn, run_from, run,
}
use tycho_sipwitchqt.Connect.Listener.Loop.Frame.{count, is_info, is_failure, is_finished}
use tycho_sipwitchqt.Connect.Listener.Loop.Effect.{Effect, heard, answers_to, turn-Effect}
use tycho_sipwitchqt.Connect.Listener.Loop.Lifetime.{over, is_register, run-once}
use tycho_sipwitchqt.Connect.Listener.Loop.Stopped.{run_from-stopped}
use tycho_sipwitchqt.Hash.{lookup, insert, remove}
use tycho_sipwitchqt.Connect.Storage.{
  DeviceRow, Storage, Reported, bytes_eq, index_devices, verdict, verify_devices,
}
use tycho_sipwitchqt.Connect.Storage.Trust.{find_row, verify_devices-verdict}
use tycho_sipwitchqt.Connect.Connector.{Connector, connector, message as message_text}
use tycho_sipwitchqt.Connect.Connector.Answers
use tycho_sipwitchqt.Connect.Connector.Answers.{
  message_requestfailure, message_answered, run as run_link,
}
use tycho_sipwitchqt.Connect.Connector.Answers.Told.{results, run-told}

-- A number is written as one byte, above those of the control characters.
abbrev read_number : Bytes → ℕ
read_number [] = 0
read_number (c ∷ cs) = c - 11

abbrev foreign : Foreign
foreign = record {
  to_lower = λ s. s;
  to_upper = λ s. s;
  trimmed = λ s. s;
  number = λ n. (n + 11) ∷ [];
  atoi = λ s. pos (read_number s);
  to_int = λ s. pos (read_number s);
  to_uint = read_number;
  decode = λ s. s;
  to_hex = λ s. s;
  date = read_number;
}

abbrev creds : Creds
creds = record {
  extension = codes "101";
  host = codes "pbx";
  port = 0;
  label = codes "desk";
  initialize = codes "label";
  user = codes "alice";
  secret = codes "s";
  display = codes "Alice";
  schema = codes "sip:";
  realm = codes "pbx";
  nonce = [];
  algorithm = codes "MD5";
  privs = codes "none";
  devkey = none;
}

abbrev desk : Listener
desk = listener creds false 65535 false

abbrev xdp : Xdp
xdp = record {
  privs = "sysadmin";
  display = "Alice";
  first = 100;
  last = 699;
  roster = 8;
  sequence = 3;
  route = pbx;
  online = 7 ∷ [];
}

xdp-IsOnLine : IsOnLine foreign (λ s. s) (codes "Welcome") xdp
unfolding contains to_string
xdp-IsOnLine = record {
  number_int = λ n. ground arith;
  number_uint = λ n. omega arith;
  decode-encode = refl;
  number_line = λ n. ground arith;
  encode_line = refl;
  banner_line = refl;
  privs_line = refl;
  display_line = refl;
  route_line = refl;
}

parse_xdp-told_example :
    parse_xdp foreign (xdp_text foreign.number (λ s. s) (codes "Welcome") xdp) desk ≡ record {
      state = told foreign (λ s. s) (codes "Welcome") xdp desk;
      sent =
          emit (change_banner (codes "Welcome"))
          ∷ emit update_roster
          ∷ emit (contact_address (to_string foreign.number pbx))
          ∷ [];
      online = some (7 ∷ []);
    }
unfolding listener to_string contains
parse_xdp-told_example = parse_xdp-told foreign (λ s. s) (codes "Welcome") xdp desk xdp-IsOnLine

abbrev bob : Address
bob = record {
  username = some (codes "102");
  host = codes "pbx";
  port = some (5071 ∷ []);
  text = none;
}

abbrev alice : Address
alice = record bob { username = some (codes "101") }

abbrev hello : Incoming
hello = record {
  to = some alice;
  from = some bob;
  type = some (record { type = some (codes "text"); subtype = some (codes "plain") });
  body = some (codes "hello");
  x_ms = some (13 ∷ []);
  x_ts = none;
  subject = none;
}

abbrev text : Text
text = record {
  from = codes "102";
  to = codes "101";
  text = codes "hello";
  timestamp = none;
  sequence = pos 2;
  subject = codes "None";
  type = codes "text/plain";
}

receive_message-IsTaken_example :
    (receive_message foreign desk hello ≡ emit (receive_text text) ∷ answer sip_ok ∷ [])
    ↔ IsTaken foreign desk hello text
receive_message-IsTaken_example = receive_message-IsTaken foreign desk hello text

abbrev built : Built
built = record { rid = pos 1; msg = true }

abbrev message : Event
message = record {
  type = message_new;
  rid = negsuc 0;
  response = none;
  is_message = true;
  incoming = hello;
}

turn-Effect_example :
    Effect
      (heard (some message) desk)
      (answers_to (some message))
      (turn foreign 9 (some message) built desk)
turn-Effect_example = turn-Effect foreign 9 (some message) built desk

abbrev inputs : List Input
inputs = woke 1 none built built ∷ expired ∷ woke 9 (some message) built built ∷ []

run-once_example :
    let (m, sent) = run foreign inputs (listener creds false 65535 false) in
    (count is_info sent ≤ 1) × (count is_failure sent ≤ 1) × (count is_finished sent ≤ over m.1)
run-once_example = run-once foreign creds false 65535 false inputs (omega arith)

-- The client on line, and the answer to its last REGISTER.
abbrev on_line : Listener
on_line = record desk { registered = true; rid = pos 1 }

abbrev accepted : Event
accepted = record message { type = registration_success; rid = pos 1 }

run_from-stopped_example :
    let (m, sent) =
      run_from foreign
        (stopped false
          ∷ woke 1 (some message) built built
          ∷ woke 2 (some message) built built
          ∷ woke 3 (some accepted) built built
          ∷ [])
        (on_line, running) in
    (m.1 ≡ ended) × (count is_finished sent ≡ 1) × (count (is_register 0) sent ≡ 1)
unfolding listener
run_from-stopped_example =
    run_from-stopped foreign false 1 3 (some message) (some accepted) built built built built
      (woke 2 (some message) built built ∷ []) on_line (refl, tt) refl

abbrev key_row : DeviceRow
key_row = record { devlabel = codes "desk"; devkey = codes "k1"; devagent = []; devstatus = 1 }

abbrev store : Storage
store = record { is_open = true; root_key = none; device_key = none; devices = key_row ∷ [] }

-- The server reports another key for the device.
abbrev reports : List Reported
reports = record { u = codes "desk"; k = codes "k2"; v = 0 } ∷ []

verify_devices-verdict_example :
    (find_row (codes "desk") (verify_devices (λ s. s) reports store).1.devices
      ≡ some (record key_row { devstatus = 2 }))
    × (lookup bytes_eq (codes "desk") (verify_devices (λ s. s) reports store).0
        ≡ some (record { u = codes "desk"; k = codes "k2"; v = 2 }))
unfolding index_devices lookup insert remove verdict
verify_devices-verdict_example =
    verify_devices-verdict (λ s. s) reports store (codes "desk") refl (refl, tt)

abbrev link : Connector
link = connector foreign creds false false

-- A text that is challenged, and then taken.
abbrev challenged : Answers.Event
challenged = record {
  type = message_requestfailure;
  request = message_text;
  to_user = some (codes "102");
  response = some (record { status_code = 401; body = none; x_ms = none; x_ts = none });
}

abbrev taken : Answers.Event
taken = record challenged {
  type = message_answered;
  response = some (record { status_code = 200; body = none; x_ms = none; x_ts = none });
}

run-told_example :
    results (run_link foreign ((1, true, some challenged) ∷ (2, true, some taken) ∷ []) link)
    ≡ 401 ∷ 200 ∷ []
run-told_example = run-told foreign ((1, true, some challenged) ∷ (2, true, some taken) ∷ []) link
