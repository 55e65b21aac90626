-- ===== src/Database/Answers/Every.antt =====
-- The handlers on accounts and groups: one answer each.
use tycho_sipwitchqt.Prelude.{
  ℕ, String, Option, none, some, List, inl, inr, refl, arith, Option-cases,
}
use tycho_sipwitchqt.Sip.{Event}
use tycho_sipwitchqt.Database.Tables.{
  Db, Tables, EndpointRow, ExtensionRow, AuthorizeRow, select, select_one,
}
use tycho_sipwitchqt.Prelude.Int.{pos}
use tycho_sipwitchqt.Database.Outbox.{Qt, admin_message}
use tycho_sipwitchqt.Database.Accounts.{Config, account_of}
use tycho_sipwitchqt.Database.Profile.{Sent, or_else, send_profile, target_of}
use tycho_sipwitchqt.Database.Admin.{
  change_authorize, with_account, forward, forward_to, forward_account, change_forwarding,
  cover_account, change_coverage, header, disconnect_all,
}
use tycho_sipwitchqt.Database.Groups.{
  topic_text, private_topic, group_topic, topic_account, change_topic, profile_and_disconnect,
  drop_account, drop_extension, set_suspend, admin_account, change_admin, change_members,
  membership_account, change_membership, remove_labelled, remove_device,
}
use tycho_sipwitchqt.Database.Answers.{
  Once, answers-append, admin_message-posted_answers, disconnect_all-answers, notify_all-answers,
  change_authorize-Once, send_profile-Once,
}

module _ (qt : Qt) (cfg : Config) (ev : Event) where
  module _ (authuser : String) (endpoint : ℕ) where
    with_account-Once :
        (k : ExtensionRow → AuthorizeRow → Db → Db × List Sent) (d : Db)
        → ((e : ExtensionRow) (a : AuthorizeRow) (d' : Db) → Once (k e a d'))
        → Once (with_account qt cfg ev authuser endpoint k d)
    unfolding with_account
    with_account-Once k d once =
        let (d', account) = select_one (account_of (target_of qt cfg ev)) d in
        elim (Option-cases account) [
          | inl p ↦ ground arith
          | inr ((e, a), p) ↦ ground (arith, once e a d')
        ]

    forward_to-Once :
        (user : String) (d : Db) → Once (forward_to qt cfg ev authuser endpoint user d)
    unfolding forward_to forward
    forward_to-Once user d = elim (Option-cases (header qt cfg ev "x-destination")) [
      | inl p ↦ ground arith
      | inr (destination, p) ↦ elim (Option-cases (header qt cfg ev "subject")) [
        | inl q ↦ ground arith
        | inr (kind, q) ↦ grind (arith, send_profile-Once qt cfg ev authuser endpoint)
      ]
    ]

    forward_account-Once :
        (e : ExtensionRow) (a : AuthorizeRow) (d : Db)
        → Once (forward_account qt cfg ev authuser endpoint e a d)
    unfolding forward_account
    forward_account-Once e a d = grind (arith, forward_to-Once)

    cover_account-Once :
        (e : ExtensionRow) (a : AuthorizeRow) (d : Db)
        → Once (cover_account qt cfg ev authuser endpoint e a d)
    unfolding cover_account
    cover_account-Once e a d = elim (Option-cases (header qt cfg ev "x-priority")) [
      | inl p ↦ ground arith
      | inr (value, p) ↦ grind (arith, send_profile-Once qt cfg ev authuser endpoint)
    ]

    profile_and_disconnect-Once :
        (q : Tables → List EndpointRow) (d : Db)
        → Once (profile_and_disconnect qt cfg ev authuser endpoint q d)
    unfolding profile_and_disconnect
    profile_and_disconnect-Once q d =
        let (d1, out) = send_profile qt cfg ev authuser endpoint d in
        let rows = (select q d1).1 in
        ground (
          arith,
          answers-append out (disconnect_all rows),
          disconnect_all-answers rows,
          send_profile-Once qt cfg ev authuser endpoint d,
        )

    drop_account-Once :
        (e : ExtensionRow) (a : AuthorizeRow) (d : Db)
        → Once (drop_account qt cfg ev authuser endpoint e a d)
    unfolding drop_account
    drop_account-Once e a d = grind (arith, profile_and_disconnect-Once)

    set_suspend-Once :
        (value : Option String) (e : ExtensionRow) (a : AuthorizeRow) (d : Db)
        → Once (set_suspend qt cfg ev authuser endpoint value e a d)
    unfolding set_suspend
    set_suspend-Once none e a d = send_profile-Once qt cfg ev authuser endpoint d
    set_suspend-Once (some value) e a d =
        grind (arith, profile_and_disconnect-Once, send_profile-Once qt cfg ev authuser endpoint)

    admin_account-Once :
        (e : ExtensionRow) (a : AuthorizeRow) (d : Db)
        → Once (admin_account qt cfg ev authuser endpoint e a d)
    unfolding admin_account
    admin_account-Once e a d = grind (arith, set_suspend-Once)

    change_members-Once :
        (e : ExtensionRow) (a : AuthorizeRow) (d : Db)
        → Once (change_members qt cfg ev authuser endpoint e a d)
    unfolding change_members
    change_members-Once e a d = elim (Option-cases (header qt cfg ev "x-reason")) [
      | inl p ↦ grind (arith, send_profile-Once qt cfg ev authuser endpoint)
      | inr (reason, p) ↦ grind (
        arith,
        answers-append,
        notify_all-answers qt cfg ev,
        send_profile-Once qt cfg ev authuser endpoint,
      )
    ]

    membership_account-Once :
        (e : ExtensionRow) (a : AuthorizeRow) (d : Db)
        → Once (membership_account qt cfg ev authuser endpoint e a d)
    unfolding membership_account
    membership_account-Once e a d = elim (Option-cases ev.sent) [
      | inl p ↦ ground arith
      | inr (list, p) ↦ grind (arith, change_members-Once)
    ]

    remove_labelled-Once :
        (row : Option EndpointRow) (d : Db)
        → Once (remove_labelled qt cfg ev authuser endpoint row d)
    unfolding remove_labelled
    remove_labelled-Once none d = refl
    remove_labelled-Once (some row) d = send_profile-Once qt cfg ev authuser endpoint _

    remove_device-Once : (d : Db) → Once (remove_device qt cfg ev authuser endpoint d)
    unfolding remove_device
    remove_device-Once d = elim (Option-cases ev.sent) [
      | inl p ↦ ground arith
      | inr (list, p) ↦ elim (Option-cases (header qt cfg ev "x-remove")) [
        | inl q ↦ ground arith
        | inr (label, q) ↦ grind (arith, remove_labelled-Once)
      ]
    ]

  private_topic-Once :
      (e : ExtensionRow) (a : AuthorizeRow) (d : Db) → Once (private_topic qt cfg ev e a d)
  unfolding private_topic
  private_topic-Once e a d =
      let target = target_of qt cfg ev in
      let display = or_else e.display (or_else a.fullname e.authname) in
      let text = topic_text qt cfg ev in
      let sent = admin_message qt ev target text ev.number display (pos 0) d in
      let copy = admin_message qt ev ev.number text target ev.display (pos 0) sent.0 in
      omega (
        arith,
        admin_message-posted_answers qt ev target text ev.number display (pos 0) d,
        admin_message-posted_answers qt ev ev.number text target ev.display (pos 0) sent.0,
      )

  group_topic-Once : (d : Db) → Once (group_topic qt cfg ev d)
  unfolding group_topic
  group_topic-Once d = grind (arith, notify_all-answers qt cfg ev)

  topic_account-Once :
      (e : ExtensionRow) (a : AuthorizeRow) (d : Db) → Once (topic_account qt cfg ev e a d)
  unfolding topic_account
  topic_account-Once e a d = elim (Option-cases ev.sent) [
    | inl p ↦ ground arith
    | inr (list, p) ↦ grind (arith, private_topic-Once, group_topic-Once)
  ]

  change_topic-Once : (d : Db) → Once (change_topic qt cfg ev d)
  unfolding change_topic
  change_topic-Once d =
      let rest = with_account-Once "" 0 (topic_account qt cfg ev) d topic_account-Once in
      ground (arith, rest)

  -- Whichever statements fail: each of the eight requests on accounts, groups and devices, and the
  -- request for a profile, is answered exactly once, whatever signals go out with the answer.
  pub handlers-Once :
      (authuser : String) (endpoint : ℕ) (d : Db)
      → Once (send_profile qt cfg ev authuser endpoint d)
        × Once (change_authorize qt cfg ev d)
        × Once (change_topic qt cfg ev d)
        × Once (change_forwarding qt cfg ev authuser endpoint d)
        × Once (change_coverage qt cfg ev authuser endpoint d)
        × Once (drop_extension qt cfg ev authuser endpoint d)
        × Once (change_admin qt cfg ev authuser endpoint d)
        × Once (change_membership qt cfg ev authuser endpoint d)
        × Once (remove_device qt cfg ev authuser endpoint d)
  unfolding change_forwarding change_coverage drop_extension change_admin change_membership
  handlers-Once authuser endpoint d =
      let account = with_account-Once authuser endpoint in
      (
        send_profile-Once qt cfg ev authuser endpoint d,
        change_authorize-Once qt cfg ev d,
        change_topic-Once d,
        account (forward_account qt cfg ev authuser endpoint) d
            (forward_account-Once authuser endpoint),
        account (cover_account qt cfg ev authuser endpoint) d
            (cover_account-Once authuser endpoint),
        account (drop_account qt cfg ev authuser endpoint) d (drop_account-Once authuser endpoint),
        account (admin_account qt cfg ev authuser endpoint) d
            (admin_account-Once authuser endpoint),
        account (membership_account qt cfg ev authuser endpoint) d
            (membership_account-Once authuser endpoint),
        remove_device-Once authuser endpoint d,
      )
