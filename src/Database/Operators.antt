-- ===== src/Database/Operators.antt =====
-- What an operator may do with the profile of another user.
use tycho_sipwitchqt.Prelude.{ℕ, String, ◌==◌, true, false, some, ◌≡◌, refl, arith}
use tycho_sipwitchqt.Prelude.Int.{ℤ, pos}
use tycho_sipwitchqt.Sip.{Event}
use tycho_sipwitchqt.Database.Tables.{
  Tables, ExtensionRow, AuthorizeRow, healthy, select, select_one, run, update, first, is_empty,
  is_faulty, later,
}
use tycho_sipwitchqt.Database.Outbox.{Qt}
use tycho_sipwitchqt.Database.Accounts.{
  Config, exists, is_refused, account_of, admin_of, member_of, group_priority, coverage_of,
  privs_of,
}
use tycho_sipwitchqt.Database.Profile.{
  Profile, target_of, group_access, group_list, own_entries, profile_of, Change, change_of,
  replaces_secret, or_else, write_change, write_profile, change_profile, show_profile, send_profile,
}

group_priority-healthy :
    (type : String) (target number : ℤ) (t : Tables)
    → (group_priority type target number (healthy t)).0 ≡ healthy t
unfolding group_priority select is_faulty later
group_priority-healthy type target number t = ground arith

coverage_of-healthy :
    (userid : String) (number : ℤ) (t : Tables)
    → (coverage_of userid number (healthy t)).0 ≡ healthy t
unfolding coverage_of select is_faulty later
coverage_of-healthy userid number t = refl

privs_of-healthy :
    (access : String) (target : ℤ) (t : Tables) → (privs_of access target (healthy t)).0 ≡ healthy t
unfolding privs_of exists select is_faulty later
privs_of-healthy access target t = ground arith

module _ (qt : Qt) (cfg : Config) (ev : Event) where
  group_access-healthy :
      (userid : String) (t : Tables) → (group_access qt cfg ev userid (healthy t)).0 ≡ healthy t
  unfolding group_access exists select is_faulty later
  group_access-healthy userid t = ground arith

  group_list-healthy :
      (type userid : String) (t : Tables)
      → (group_list qt cfg ev type userid (healthy t)).0 ≡ healthy t
  unfolding group_list select is_faulty later
  group_list-healthy type userid t = ground (arith, group_access-healthy userid t)

  own_entries-healthy :
      (userid : String) (t : Tables) → (own_entries qt cfg ev userid (healthy t)).0 ≡ healthy t
  unfolding own_entries select is_faulty later
  own_entries-healthy userid t = ground arith

  pub profile_of-healthy :
      (e : ExtensionRow) (a : AuthorizeRow) (t : Tables)
      → (profile_of qt cfg ev e a (healthy t)).0 ≡ healthy t
  unfolding profile_of
  profile_of-healthy e a t =
      let target = target_of qt cfg ev in
      rw
        (
          group_priority-healthy a.authtype target ev.number t,
          coverage_of-healthy e.authname ev.number t,
          privs_of-healthy a.authaccess target t,
          group_list-healthy a.authtype e.authname t,
        )
        (own_entries-healthy e.authname t)

  -- The values that an operator's request without a change of the access writes.
  abbrev operator_change : ExtensionRow → AuthorizeRow → Profile → Change
  operator_change e a prof =
      let shown = or_else (qt.json ev.body "d") (or_else a.fullname e.authname) in
      record {
        display = shown;
        email = prof.e;
        access = a.authaccess;
        profile = record prof { d = shown; e = prof.e };
      }

  change_of-operator :
      (e : ExtensionRow) (a : AuthorizeRow) (prof : Profile)
      → qt.to_upper (qt.json ev.body "a") ≡ ""
      → change_of qt cfg ev false false e a prof ≡ some (operator_change e a prof)
  unfolding change_of
  change_of-operator e a prof f = rw (f) refl

  module _ (authuser : String) (endpoint : ℕ) (t : Tables) (e : ExtensionRow)
      (a : AuthorizeRow) where
    change_profile-operator :
        (prof : Profile)
        → is_empty (admin_of "system" ev.number t) ≡ true
        → is_empty (member_of (pos 0) ev.number t) ≡ false
        → (e.authname == authuser) ≡ false
        → qt.to_upper (qt.json ev.body "a") ≡ ""
        → change_profile qt cfg ev authuser endpoint e a prof (healthy t)
          ≡ write_change qt cfg ev endpoint e a (operator_change e a prof) (healthy t)
    unfolding change_profile write_profile exists select is_faulty later
    change_profile-operator prof n m o f = ground (arith, n, m, o, change_of-operator e a prof f)

    write_change-secret :
        (ch : Change)
        → replaces_secret qt cfg ev a ≡ true
        → (write_change qt cfg ev endpoint e a ch (healthy t)).0.tables.authorize
          ≡ update
              (λ x. x.authname == e.authname)
              (λ x. record x {
                email = ch.email;
                authaccess = ch.access;
                secret = qt.json ev.body "s";
              })
              t.authorize
    unfolding write_change run is_faulty later
    write_change-secret ch r = rw (r) refl

    -- Where no statement fails: an operator who is no system administrator, and asks with a body for the
    -- profile of another user, has the secret of that user replaced by the one in the body, if it is of
    -- the same length and the body asks for no change of the access.
    pub send_profile-operator :
        is_refused cfg (target_of qt cfg ev) ≡ false
        → first (account_of (target_of qt cfg ev) t) ≡ some (e, a)
        → is_empty ev.body ≡ false
        → is_empty (admin_of "system" ev.number t) ≡ true
        → is_empty (member_of (pos 0) ev.number t) ≡ false
        → (e.authname == authuser) ≡ false
        → qt.to_upper (qt.json ev.body "a") ≡ ""
        → replaces_secret qt cfg ev a ≡ true
        → (send_profile qt cfg ev authuser endpoint (healthy t)).0.tables.authorize
          ≡ update
              (λ x. x.authname == e.authname)
              (λ x. record x {
                email = a.email;
                authaccess = a.authaccess;
                secret = qt.json ev.body "s";
              })
              t.authorize
    unfolding send_profile show_profile select_one select is_faulty later profile_of
    send_profile-operator range found body n m o f r =
        let prof = (profile_of qt cfg ev e a (healthy t)).1 in
        let changed = change_profile-operator prof n m o f in
        let written = write_change-secret (operator_change e a prof) r in
        rw (range, found, body, profile_of-healthy e a t, changed) written
