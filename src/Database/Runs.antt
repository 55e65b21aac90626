-- ===== src/Database/Runs.antt =====
-- Runs and instances for the handlers of Database/database.cpp, in the office of Database/Office.
use tycho_sipwitchqt.Prelude.{
  true, false, some, [], ◌∷◌, ◌++◌, ◌≡◌, ◌⊎◌, refl, arith, inr, if◌then◌else◌, map, keep, not, ◌&&◌,
}
use tycho_sipwitchqt.Prelude.Int.{pos, eqb_ℤ, ltb_ℤ}
use tycho_sipwitchqt.Sip.{Event, ok}
use tycho_sipwitchqt.Samples.{register}
use tycho_sipwitchqt.Database.Tables.{Db, Tables, healthy}
use tycho_sipwitchqt.UString.{to_bool}
use tycho_sipwitchqt.Database.Outbox.{answered, insert_all}
use tycho_sipwitchqt.Database.Admin.{headers}
use tycho_sipwitchqt.Database.Outbox.{replied, send_pending, change_pending, unsent}
use tycho_sipwitchqt.Database.Outbox.{insert_set}
use tycho_sipwitchqt.Database.Tables.{select, is_empty, is_faulty, later}
use tycho_sipwitchqt.UString.{is_number, number_from, c_str, scan}
use tycho_sipwitchqt.Database.Outbox.Local.{
  local_message, is_labelled, gather_targets, gather_endpoints, target_endpoints, scan_sender,
  add_endpoint, is_own, unless_labelled,
}
use tycho_sipwitchqt.Database.Outbox.Post.{row_of, sends, Fresh}
use tycho_sipwitchqt.Database.Outbox.Cycle.{send_pending-local_message}
use tycho_sipwitchqt.Database.Outbox.Store.{message_of, posting_of}
use tycho_sipwitchqt.Database.Outbox.Outcome.{
  local_message-stores, local_message-replies, sender_of, endpoints_of, sender_rows, replies,
}
use tycho_sipwitchqt.Database.Outbox.Steps.{posts, here, next, Steps-Fresh, send_pending-fault}
use tycho_sipwitchqt.Database.Accounts.{is_refused, join_authorize, out_of_range}
use tycho_sipwitchqt.Database.Profile.{target_of, send_profile}
use tycho_sipwitchqt.Database.Admin.{change_authorize, change_forwarding, change_coverage, header}
use tycho_sipwitchqt.Database.Groups.{
  change_topic, drop_extension, change_admin, change_membership, remove_device, replace_members,
  group_admin, numbers,
}
use tycho_sipwitchqt.Database.Answers.{Once}
use tycho_sipwitchqt.Database.Answers.Every.{handlers-Once}
use tycho_sipwitchqt.Database.Guards.{handlers-Refused, IsNobody, Refused}
use tycho_sipwitchqt.Database.Access.{send_profile-kept}
use tycho_sipwitchqt.Database.Members.{replace_members-members, members}
use tycho_sipwitchqt.Authorize.{find_endpoint, remove_authorization}
use tycho_sipwitchqt.Database.Roster.{send_roster}
use tycho_sipwitchqt.Database.Removal.{send_roster-removed, any, is_removed, is_listed}
use tycho_sipwitchqt.Database.Suspend.{
  creates, authorization_of, change_admin-suspends, lookup_tables,
}
use tycho_sipwitchqt.Database.Office.{qt, number_of, user, office, note, usual, cfg}

local_message-stores_example : local_message qt "private" note (healthy office) ≡ (
  healthy (record office {
    messages = office.messages ++ message_of qt "private" note 8 ∷ [];
    next_mid = 9;
    outboxes =
        office.outboxes
        ++ map
            (row_of 8 (is_own (sender_of qt "private" note office)))
            (endpoints_of qt "private" note office);
  }),
  unless_labelled qt "private" note (replied ok)
      ++ sends
          (is_own (sender_of qt "private" note office))
          (posting_of qt "private" note 8)
          (endpoints_of qt "private" note office),
)
unfolding is_labelled gather_targets gather_endpoints target_endpoints scan_sender add_endpoint
    insert_set is_number number_from c_str select is_faulty later scan
local_message-stores_example =
    local_message-stores qt "private" note office (refl, tt) refl refl refl

-- Alice's own devices have the message; Bob's phone is sent it.
endpoints_of-note :
    map
      (row_of 8 (is_own (sender_of qt "private" note office)))
      (endpoints_of qt "private" note office)
    ≡ record { mid = 8; endpoint = 4; msgstatus = pos 200 }
      ∷ record { mid = 8; endpoint = 5; msgstatus = pos 200 }
      ∷ record { mid = 8; endpoint = 6; msgstatus = pos 0 }
      ∷ []
unfolding is_labelled gather_targets gather_endpoints target_endpoints scan_sender add_endpoint
    is_own insert_set is_number number_from c_str select is_faulty later scan
endpoints_of-note = refl

local_message-replies_example :
    replies (local_message qt "private" note (record { tables = office; faults = true ∷ [] })).1 ≡ (
      if is_labelled note
        && not (
            is_empty
              (select
                (sender_rows qt "private" note)
                (record { tables = office; faults = true ∷ [] })).1)
      then 0
      else 1)
local_message-replies_example =
    local_message-replies qt "private" note (record { tables = office; faults = true ∷ [] })

-- Bob's phone is listed nothing, acknowledges it, and is then listed the note that was posted meanwhile.
send_pending-local_message_example :
    (send_pending 6
      (change_pending 6 (local_message qt "private" note (send_pending 6 (healthy office)).0).0)).1
    ≡ answered (message_of qt "private" note 8 ∷ []) ∷ []
unfolding is_labelled gather_targets gather_endpoints target_endpoints scan_sender add_endpoint
    is_own insert_set is_number number_from c_str select is_faulty later scan
send_pending-local_message_example =
    send_pending-local_message qt "private" note 6 office (refl, tt) (refl, tt) refl refl refl

abbrev unposted : Db
unposted = healthy (record office { outboxes = [] })

Steps-Fresh_example :
    Fresh
      (local_message qt "private" note unposted).0.tables.next_mid
      (local_message qt "private" note unposted).0.tables.outboxes
Steps-Fresh_example =
    Steps-Fresh qt "private" unposted (local_message qt "private" note unposted).0 refl (
      next unposted (local_message qt "private" note unposted).0 (here unposted refl)
        (posts note refl))

abbrev at_fault : Db
at_fault = record { tables = office; faults = false ∷ true ∷ [] }

send_pending-fault_example :
    ((send_pending 4 at_fault).1 ≡ replied ok ∷ [])
    × (keep (unsent 4) (change_pending 4 (send_pending 4 at_fault).0).tables.outboxes ≡ [])
    × ((send_pending 4 (change_pending 4 (send_pending 4 at_fault).0)).1 ≡ replied ok ∷ [])
send_pending-fault_example = send_pending-fault 4 office (send_pending 4 at_fault).0 refl

handlers-Once_example :
    Once (send_profile qt cfg note "alice" 4 at_fault)
    × Once (change_authorize qt cfg note at_fault)
    × Once (change_topic qt cfg note at_fault)
    × Once (change_forwarding qt cfg note "alice" 4 at_fault)
    × Once (change_coverage qt cfg note "alice" 4 at_fault)
    × Once (drop_extension qt cfg note "alice" 4 at_fault)
    × Once (change_admin qt cfg note "alice" 4 at_fault)
    × Once (change_membership qt cfg note "alice" 4 at_fault)
    × Once (remove_device qt cfg note "alice" 4 at_fault)
handlers-Once_example = handlers-Once qt cfg note "alice" 4 at_fault

-- Alice is in no row of Admin.
nobody : IsNobody note office
nobody name = ground arith

handlers-Refused_example :
    Refused (healthy office) (change_authorize qt cfg note (healthy office))
    × Refused (healthy office) (change_admin qt cfg note "alice" 4 (healthy office))
    × Refused (healthy office) (drop_extension qt cfg note "alice" 4 (healthy office))
    × Refused (healthy office) (change_membership qt cfg note "alice" 4 (healthy office))
    × ((eqb_ℤ (target_of qt cfg note) note.number ≡ true)
        ⊎ Refused (healthy office) (change_forwarding qt cfg note "alice" 4 (healthy office)))
handlers-Refused_example = handlers-Refused qt cfg note "alice" 4 (healthy office) nobody

-- The tables with no operator.
abbrev plain_office : Tables
plain_office = record office { groups = [] }

send_profile-kept_example :
    (send_profile qt cfg note "alice" 4 (healthy plain_office)).0.tables ≡ plain_office
unfolding join_authorize
send_profile-kept_example =
    send_profile-kept qt cfg note "alice" 4 (healthy plain_office)
      (inr (nobody "system", refl, (refl, tt)))

-- Bob, the administrator, suspends Alice.
abbrev suspension : Event
suspension = record note {
  number = pos 102;
  to_user = some "101";
  body = [];
  sent = some (("x-suspend", some "yes") ∷ []);
}

change_admin-suspends_example :
    creates
      (find_endpoint
        (lookup_tables qt.to_upper)
        usual
        register
        (change_admin qt cfg suspension "bob" 6 (healthy office)).0.tables).1
    ≡ false
unfolding join_authorize is_refused out_of_range header to_bool lookup_tables
change_admin-suspends_example =
    change_admin-suspends qt cfg suspension "bob" 6 "yes" (number_of (pos 101) "alice")
      (user "alice" "USER") office refl refl refl refl refl refl refl refl usual register "" refl

abbrev membership : Event
membership = record note {
  sent = some (("x-group-member", some "101") ∷ ("x-group-member", some "103") ∷ []);
}

replace_members-members_example :
    members
      (target_of qt cfg membership)
      (replace_members qt cfg membership "bob" 6 "bob" (healthy office)).tables
    ≡ insert_all eqb_ℤ
        (if ltb_ℤ (pos 0) (group_admin qt cfg membership "bob" 6)
          then group_admin qt cfg membership "bob" 6 ∷ []
          else [])
        (insert_all eqb_ℤ (numbers qt.atoi (headers qt cfg membership "x-group-member") []) [])
replace_members-members_example = replace_members-members qt cfg membership "bob" 6 "bob" office

-- The members that these headers name.
members_named :
    insert_all eqb_ℤ (numbers qt.atoi (headers qt cfg membership "x-group-member") []) []
    ≡ pos 101 ∷ pos 103 ∷ []
unfolding numbers insert_set
members_named = refl

abbrev without_alice : Tables
without_alice =
    (remove_authorization (lookup_tables qt.to_upper) usual qt.to_upper "alice" suspension office).0

-- Bob removes Alice; his phone is told.
send_roster-removed_example :
    (any (is_removed "alice") (send_roster qt cfg note 6 (healthy without_alice)).1 ≡ true)
    × (any (is_listed "alice") (send_roster qt cfg note 6 (healthy without_alice)).1 ≡ false)
unfolding lookup_tables
send_roster-removed_example =
    send_roster-removed qt cfg note usual "alice" suspension office
      (authorization_of qt.to_upper (user "alice" "USER")) 6 refl refl refl refl
      (send_roster qt cfg note 6 (healthy without_alice)).1 refl
