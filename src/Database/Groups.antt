-- ===== src/Database/Groups.antt =====
-- Database/database.cpp: the requests of administrators on extensions and groups, a device's removal,
-- and the topics that are sent to the members of a group.
use tycho_sipwitchqt.Prelude.{
  ℕ, String, ◌==◌, Bool, not, ◌&&◌, ◌||◌, Option, none, some, List, [], ◌∷◌, ◌++◌, eqb,
  if◌then◌else◌, keep, map,
}
use tycho_sipwitchqt.Prelude.Int.{ℤ, pos, ltb_ℤ, eqb_ℤ}
use tycho_sipwitchqt.UString.{Bytes, codes, to_bool, unescape}
use tycho_sipwitchqt.Sip.{Event, ok, forbidden, not_found, ambiguous, not_acceptable_here}
use tycho_sipwitchqt.Database.Tables.{
  Db, Tables, EndpointRow, ExtensionRow, AuthorizeRow, select, select_one, run, delete,
  insert_group, insert_admin, is_empty,
}
use tycho_sipwitchqt.Database.Outbox.{Qt, insert_set, admin_message}
use tycho_sipwitchqt.Database.Accounts.{Config, out_of_range, admin_of, member_of, exists, is_group}
use tycho_sipwitchqt.Database.Profile.{
  Sent, replied, disconnect_endpoint, posted, target_of, or_else, send_profile,
}
use tycho_sipwitchqt.Database.Admin.{headers, header, with_account, disconnect_all, set_authorize}
use Prim.Native.String

abbrev pub is_account : String → Bool
is_account type = type == "DEVICE" || type == "USER"

-- Extensions JOIN Endpoints ON extnbr, for some extensions.
unfoldable pub join_endpoints : List ExtensionRow → List EndpointRow → List EndpointRow
join_endpoints [] endpoints = []
join_endpoints (e ∷ es) endpoints =
    keep (λ x. eqb_ℤ e.extnbr x.extnbr) endpoints ++ join_endpoints es endpoints

abbrev pub devices_of : String → Tables → List EndpointRow
devices_of user t = join_endpoints (keep (λ e. e.authname == user) t.extensions) t.endpoints

-- The positive numbers among the values of a header, as a set.
unfoldable pub numbers : (Bytes → ℤ) → List (Option String) → List ℤ → List ℤ
numbers atoi [] set = set
numbers atoi (none ∷ values) set = numbers atoi values set
numbers atoi (some value ∷ values) set =
    let n = atoi (codes value) in
    numbers atoi values (if ltb_ℤ (pos 0) n then insert_set eqb_ℤ n set else set)

unfoldable pub insert_groups : ℤ → List ℤ → Db → Db
insert_groups target [] d = d
insert_groups target (n ∷ ns) d = insert_groups target ns (run (insert_group target n) d)

module _ (qt : Qt) (cfg : Config) (ev : Event) where
  -- UString(value).toBool()
  abbrev pub bool_of : String → Bool
  bool_of value = to_bool qt.to_lower (λ b. ltb_ℤ (pos 0) (qt.atoi b)) (codes value)

  -- adminMessage with one text, to each of some extensions.
  unfoldable pub notify_all : List ℤ → String → ℤ → String → Db → Db × List Sent
  notify_all [] text from display d = (d, [])
  notify_all (to ∷ rest) text from display d =
      let (d1, out) = admin_message qt ev to text from display (pos 0) d in
      let (d2, more) = notify_all rest text from display d1 in (d2, posted out ∷ more)

  abbrev pub topic_text : String
  topic_text =
      if not (is_empty ev.body)
      then String.◌++◌ "--- " (qt.from_utf8 ev.body)
      else String.◌++◌ "--- changing topic to \"" (String.◌++◌ ev.subject "\"")

  -- A topic for one user: a message to the user, and its copy to the sender.
  unfoldable pub private_topic : ExtensionRow → AuthorizeRow → Db → Db × List Sent
  private_topic e a d =
      let target = target_of qt cfg ev in
      let display = or_else e.display (or_else a.fullname e.authname) in
      let (d1, out) = admin_message qt ev target topic_text ev.number display (pos 0) d in
      let (d2, copy) = admin_message qt ev ev.number topic_text target ev.display (pos 0) d1 in
      (d2, replied ok ∷ posted out ∷ posted copy ∷ [])

  unfoldable pub group_topic : Db → Db × List Sent
  group_topic d =
      let target = target_of qt cfg ev in
      let (d1, member) = exists (member_of target ev.number) d in
      let (d2, members) =
        select (λ t. map (λ g. g.extnbr) (keep (λ g. eqb_ℤ g.grpnbr target) t.groups)) d1 in
      let (d3, out) = notify_all members topic_text target ev.display d2 in
      if member then (d3, replied ok ∷ out) else (d1, replied forbidden ∷ [])

  unfoldable pub topic_account : ExtensionRow → AuthorizeRow → Db → Db × List Sent
  topic_account e a d = elim ev.sent [
    | none ↦ (d, replied ambiguous ∷ [])
    | some list ↦ if is_group a.authtype then group_topic d else private_topic e a d
  ]

  unfoldable pub change_topic : Db → Db × List Sent
  change_topic d =
      let target = target_of qt cfg ev in
      if out_of_range cfg target
      then (d, replied forbidden ∷ [])
      else with_account qt cfg ev "" 0 topic_account d

  module _ (authuser : String) (endpoint : ℕ) where
    -- sendProfile, and then the signal for each endpoint that the query finds.
    unfoldable pub profile_and_disconnect : (Tables → List EndpointRow) → Db → Db × List Sent
    profile_and_disconnect q d =
        let (d1, out) = send_profile qt cfg ev authuser endpoint d in
        let (d2, rows) = select q d1 in (d2, out ++ disconnect_all rows)

    unfoldable pub drop_account : ExtensionRow → AuthorizeRow → Db → Db × List Sent
    drop_account e a d =
        let (d1, sysadmin) = exists (admin_of "system" ev.number) d in
        if not sysadmin
        then (d1, replied forbidden ∷ [])
        else if not (is_account a.authtype)
        then (d1, replied not_acceptable_here ∷ [])
        else profile_and_disconnect
            (λ t. keep (λ x. eqb_ℤ x.extnbr (target_of qt cfg ev)) t.endpoints) d1

    unfoldable pub drop_extension : Db → Db × List Sent
    drop_extension d = with_account qt cfg ev authuser endpoint drop_account d

    -- The x-system header of changeAdmin.
    unfoldable pub set_system : Option String → Db → Db
    set_system none d = d
    set_system (some value) d =
        let target = target_of qt cfg ev in
        if bool_of value
        then run (insert_admin "system" target) d
        else run
            (λ t. record t {
              admin = delete (λ r. r.authname == "system" && eqb_ℤ r.extnbr target) t.admin;
            })
            d

    abbrev pub set_access : String → String → Db → Db
    set_access user access d =
        run (set_authorize qt cfg ev authuser endpoint user (λ a. record a { authaccess = access }))
          d

    -- The x-suspend header of changeAdmin.
    unfoldable pub set_suspend : Option String → ExtensionRow → AuthorizeRow → Db → Db × List Sent
    set_suspend none e a d = send_profile qt cfg ev authuser endpoint d
    set_suspend (some value) e a d =
        if not (is_account a.authtype)
        then (d, replied not_acceptable_here ∷ [])
        else if bool_of value
        then profile_and_disconnect (devices_of e.authname) (set_access e.authname "SUSPEND" d)
        else send_profile qt cfg ev authuser endpoint (set_access e.authname "LOCAL" d)

    unfoldable pub admin_account : ExtensionRow → AuthorizeRow → Db → Db × List Sent
    admin_account e a d =
        let (d1, sysadmin) = exists (admin_of "system" ev.number) d in
        if not sysadmin
        then (d1, replied forbidden ∷ [])
        else set_suspend (header qt cfg ev "x-suspend") e a
            (set_system (header qt cfg ev "x-system") d1)

    unfoldable pub change_admin : Db → Db × List Sent
    change_admin d = with_account qt cfg ev authuser endpoint admin_account d

    -- The header x-group-admin, which a message for the operators may not use.
    abbrev pub group_admin : ℤ
    group_admin = elim (header qt cfg ev "x-group-admin") [
      | none ↦ pos 0
      | some value ↦ if eqb_ℤ (target_of qt cfg ev) (pos 0) then pos 0 else qt.atoi (codes value)
    ]

    unfoldable pub replace_members : String → Db → Db
    replace_members group d =
        let target = target_of qt cfg ev in
        let members = numbers qt.atoi (headers qt cfg ev "x-group-member") [] in
        let d1 =
          insert_groups target members
            (run (λ t. record t { groups = delete (λ g. eqb_ℤ g.grpnbr target) t.groups }) d) in
        if ltb_ℤ (pos 0) group_admin
        then run (insert_admin group group_admin) (
            run (λ t. record t { admin = delete (λ r. r.authname == group) t.admin })
              (run (insert_group target group_admin) d1))
        else d1

    unfoldable pub change_members : ExtensionRow → AuthorizeRow → Db → Db × List Sent
    change_members e a d =
        let display = or_else e.display (or_else a.fullname e.authname) in
        let (d1, out) = send_profile qt cfg ev authuser endpoint (replace_members e.authname d) in
        elim (header qt cfg ev "x-reason") [
          | none ↦ (d1, out)
          | some reason ↦
              let text = String.◌++◌ "--- " (qt.from_utf8 (unescape qt.to_int16 (codes reason))) in
              let (d2, more) =
                notify_all (numbers qt.atoi (headers qt cfg ev "x-notify") []) text
                  (target_of qt cfg ev) display d1 in
              (d2, out ++ more)
        ]

    unfoldable pub membership_account : ExtensionRow → AuthorizeRow → Db → Db × List Sent
    membership_account e a d =
        let (d1, sysadmin) = exists (admin_of "system" ev.number) d in
        let (d2, grpadmin) = exists (admin_of e.authname ev.number) d1 in
        let d3 = if sysadmin then d1 else d2 in
        if not (eqb_ℤ (target_of qt cfg ev) (pos 0)) && not (is_group a.authtype)
        then (d, replied not_acceptable_here ∷ [])
        else if not sysadmin && not grpadmin
        then (d2, replied forbidden ∷ [])
        else elim ev.sent [
          | none ↦ (d3, replied ambiguous ∷ [])
          | some list ↦ change_members e a d3
        ]

    unfoldable pub change_membership : Db → Db × List Sent
    change_membership d = with_account qt cfg ev authuser endpoint membership_account d

    -- removeDevice, with the label of its x-remove header.
    unfoldable pub remove_labelled : Option EndpointRow → Db → Db × List Sent
    remove_labelled none d = (d, replied not_found ∷ [])
    remove_labelled (some row) d =
        let d1 =
          run (λ t. record t { endpoints = delete (λ x. eqb x.endpoint row.endpoint) t.endpoints })
            d in
        let (d2, out) = send_profile qt cfg ev authuser endpoint d1 in
        (d2, disconnect_endpoint row.endpoint ∷ out)

    unfoldable pub remove_device : Db → Db × List Sent
    remove_device d =
        let number = ev.number in
        if not (eqb_ℤ (target_of qt cfg ev) number) || out_of_range cfg number
        then (d, replied forbidden ∷ [])
        else elim ev.sent [
          | none ↦ (d, replied ambiguous ∷ [])
          | some list ↦ elim (header qt cfg ev "x-remove") [
            | none ↦ (d, replied not_acceptable_here ∷ [])
            | some label ↦
                let (d1, row) =
                  select_one
                    (λ t. keep (λ x. eqb_ℤ x.extnbr number && x.label == label) t.endpoints) d in
                if label == ev.label then (d, replied forbidden ∷ []) else remove_labelled row d1
          ]
        ]
