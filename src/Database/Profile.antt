-- ===== src/Database/Profile.antt =====
-- Database::sendProfile of Database/database.cpp: the profile of an extension, as the one who asks may
-- see it, and the changes that a request with a body makes to it.
use tycho_sipwitchqt.Database.Accounts.{
  Config, account_of, admin_of, member_of, exists, clamp_priority, is_refused, is_group,
  group_priority, coverage_of, privs_of, comma_list, member_access,
}
use tycho_sipwitchqt.Prelude.{
  ℕ, zero, suc, String, ◌==◌, Bool, true, false, not, ◌&&◌, ◌||◌, Option, none, some, List, [], ◌∷◌,
  ◌++◌, eqb, ltb, if◌then◌else◌, keep, map,
}
use tycho_sipwitchqt.Prelude.Int.{ℤ, pos, ltb_ℤ, eqb_ℤ}
use tycho_sipwitchqt.UString.{codes}
use tycho_sipwitchqt.Sip.{Event, Status, forbidden, not_found}
use tycho_sipwitchqt.Authorize.{position, mid}
use tycho_sipwitchqt.Database.Tables.{
  Db, EndpointRow, ExtensionRow, AuthorizeRow, SpeedRow, select, select_one, run, update, is_empty,
}
use tycho_sipwitchqt.Database.Outbox.{Qt, Posted, to_user_of}
use Prim.Native.String

-- The QJsonObject of a profile, key by key; `i` is always empty.
pub record Profile : Type 0 where
  pub a : String
  pub c : String
  pub k : String
  pub n : ℤ
  pub d : String
  pub g : String
  pub m : String
  pub u : String
  pub t : String
  pub e : String
  pub p : String
  pub i : String
  pub s : String
  pub busy : ℤ
  pub noanswer : ℤ
  pub away : ℤ
  pub cc : ℤ
  pub gp : ℤ
  pub rp : ℤ
  pub speeds : List SpeedRow
  pub ep : Option (List EndpointRow)

-- A reply, an answer with a profile, and the signals.
pub data Sent : Type 0 where
  replied : Status → Sent
  answered_profile : Profile → Sent
  disconnect_endpoint : ℕ → Sent
  update_roster : Sent
  posted : List Posted → Sent

-- `a` where it is not empty, and else `b`.
abbrev pub or_else : String → String → String
or_else a b = if not (a == "") then a else b

abbrev pub left : ℕ → String → String
left zero s = String.[]
left (suc n) String.[] = String.[]
left (suc n) (String.◌∷◌ c s) = String.◌∷◌ c (left n s)

abbrev pub has_at : Option ℕ → Bool
has_at (some (suc n)) = true
has_at _ = false

-- Event::uriTo
unfoldable pub uri_to : Event → String → String
uri_to ev id =
    if has_at (position b'@' id)
    then id
    else if left 5 ev.request == "sips:"
    then String.◌++◌ "sips:" (String.◌++◌ id (String.◌++◌ "@" (mid 5 ev.request)))
    else String.◌++◌ "sip:" (String.◌++◌ id (String.◌++◌ "@" (mid 4 ev.request)))

-- The values that a request with a body writes, and the profile that it is answered with.
pub record Change : Type 0 where
  pub display : String
  pub email : String
  pub access : String
  pub profile : Profile

module _ (qt : Qt) (cfg : Config) (ev : Event) where
  abbrev pub target_of : ℤ
  target_of = qt.atoi (codes (to_user_of qt ev))

  -- groupAccess, and whether the list of members may be seen.
  unfoldable pub group_access : String → Db → Db × (String × Bool)
  group_access userid d =
      let (d1, admin) = exists (admin_of userid ev.number) d in
      let (d2, member) = exists (member_of target_of ev.number) d1 in
      let (d3, admins) = select (λ t. keep (λ r. r.authname == userid) t.admin) d2 in
      let (d4, sysop) = exists (admin_of "system" ev.number) d2 in
      if admin
      then (d1, ("admin", true))
      else if member
      then (d3, (member_access qt.number admins, true))
      else (d4, ("none", sysop))

  -- groupAccess and groupList
  unfoldable pub group_list : String → String → Db → Db × (String × String)
  group_list type userid d =
      let (d1, (access, listed)) = group_access userid d in
      let (d2, rows) = select (λ t. keep (λ g. eqb_ℤ g.grpnbr target_of) t.groups) d1 in
      if not (is_group type) && not (eqb_ℤ target_of (pos 0))
      then (d, ("none", ""))
      else if listed
      then (d2, (access, comma_list qt.number (map (λ g. g.extnbr) rows)))
      else (d1, (access, ""))

  abbrev pub display_of : ExtensionRow → AuthorizeRow → String
  display_of e a = or_else e.display (or_else a.fullname e.authname)

  abbrev pub pub_uri : AuthorizeRow → String
  pub_uri a =
      if a.authaccess == "REMOTE" then String.◌++◌ a.authname (String.◌++◌ "@" cfg.network) else ""

  -- The entries that only a query for one's own extension is given: the speed dials from 1 on, and the
  -- other labelled devices. Their order is the engine's.
  unfoldable pub own_entries : String → Db → Db × (List SpeedRow × Option (List EndpointRow))
  own_entries userid d =
      let (d1, speeds) =
        select (λ t. keep (λ s. s.authname == userid && ltb_ℤ s.extnbr (pos 10)) t.speeds) d in
      let (d2, devices) =
        select
          (λ t.
            keep
              (λ e.
                eqb_ℤ e.extnbr ev.number && (not (e.label == "NONE") && not (e.label == ev.label)))
              t.endpoints)
          d1 in
      if eqb_ℤ target_of ev.number
      then (d2, (keep (λ s. not (ltb_ℤ s.extnbr (pos 1))) speeds, some devices))
      else (d, ([], none))

  -- The profile before any change.
  unfoldable pub profile_of : ExtensionRow → AuthorizeRow → Db → Db × Profile
  profile_of e a d =
      let (d1, gp) = group_priority a.authtype target_of ev.number d in
      let (d2, cc) = coverage_of e.authname ev.number d1 in
      let (d3, privs) = privs_of a.authaccess target_of d2 in
      let (d4, (access, members)) = group_list a.authtype e.authname d3 in
      let (d5, (speeds, devices)) = own_entries e.authname d4 in
      (
        d5,
        record {
          a = e.authname;
          c = a.created;
          k = qt.to_hex e.pubkey;
          n = target_of;
          d = if eqb_ℤ target_of (pos 0) then cfg.operator_display else display_of e a;
          g = access;
          m = members;
          u = uri_to ev (qt.number e.extnbr);
          t = a.authtype;
          e = a.email;
          p = pub_uri a;
          i = "";
          s = privs;
          busy = a.fwdbusy;
          noanswer = a.fwdnoanswer;
          away = a.fwdaway;
          cc = cc;
          gp = gp;
          rp = clamp_priority e.extpriority;
          speeds = speeds;
          ep = devices;
        },
      )

  -- `none` is an answer of SIP_FORBIDDEN: a change of the access that the sender may not make, or that
  -- does not switch between LOCAL and REMOTE. `allowed` and `admin` are as the source computes them.
  unfoldable pub change_of : Bool → Bool → ExtensionRow → AuthorizeRow → Profile → Option Change
  change_of allowed admin e a prof =
      let access = qt.to_upper (qt.json ev.body "a") in
      let shown = or_else (qt.json ev.body "d") (or_else a.fullname e.authname) in
      let email = if allowed then qt.json ev.body "e" else prof.e in
      let remote = String.◌++◌ e.authname (String.◌++◌ "@" cfg.network) in
      if not (access == "") && not admin
      then none
      else if access == "LOCAL" && a.authaccess == "REMOTE"
      then some (record {
        display = prof.d;
        email = prof.e;
        access = "LOCAL";
        profile = record prof { p = "" };
      })
      else if access == "REMOTE" && a.authaccess == "LOCAL"
      then some (record {
        display = prof.d;
        email = prof.e;
        access = "REMOTE";
        profile = record prof { p = remote };
      })
      else if not (access == "")
      then none
      else some (record {
        display = shown;
        email = email;
        access = a.authaccess;
        profile = record prof { d = shown; e = email };
      })

  -- The secret may only be replaced by one of the same length.
  unfoldable pub replaces_secret : AuthorizeRow → Bool
  replaces_secret a =
      let secret = qt.json ev.body "s" in
      eqb (qt.length secret) (qt.length a.secret) && ltb 0 (qt.length secret)

  unfoldable pub write_change : ℕ → ExtensionRow → AuthorizeRow → Change → Db → Db × List Sent
  write_change endpoint e a ch d =
      let secret = if replaces_secret a then qt.json ev.body "s" else a.secret in
      let d1 =
        run
          (λ t. record t {
            extensions =
                update (λ x. eqb_ℤ x.extnbr target_of) (λ x. record x { display = ch.display })
                  t.extensions;
          })
          d in
      let d2 =
        run
          (λ t. record t {
            authorize =
                update (λ x. x.authname == e.authname)
                  (λ x. record x { email = ch.email; authaccess = ch.access; secret = secret })
                  t.authorize;
          })
          d1 in
      (
        d2,
        (if replaces_secret a then disconnect_endpoint endpoint ∷ [] else [])
            ++ update_roster ∷ answered_profile ch.profile ∷ [],
      )

  unfoldable pub write_profile :
      ℕ → ExtensionRow → AuthorizeRow → Option Change → Db → Db × List Sent
  write_profile endpoint e a none d = (d, replied forbidden ∷ [])
  write_profile endpoint e a (some ch) d = write_change endpoint e a ch d

  -- A request with a body: the owner, a system administrator and an operator may change the profile.
  unfoldable pub change_profile :
      String → ℕ → ExtensionRow → AuthorizeRow → Profile → Db → Db × List Sent
  change_profile authuser endpoint e a prof d =
      let (d1, admin) = exists (admin_of "system" ev.number) d in
      let (d2, oper) = exists (member_of (pos 0) ev.number) d1 in
      let d3 = if admin then d1 else d2 in
      let allowed = e.authname == authuser || admin in
      if not allowed && not oper
      then (d3, replied forbidden ∷ [])
      else write_profile endpoint e a (change_of allowed admin e a prof) d3

  unfoldable pub show_profile :
      String → ℕ → Option (ExtensionRow × AuthorizeRow) → Db → Db × List Sent
  show_profile authuser endpoint none d = (d, replied not_found ∷ [])
  show_profile authuser endpoint (some (e, a)) d =
      let (d', prof) = profile_of e a d in
      if is_empty ev.body
      then (d', answered_profile prof ∷ [])
      else change_profile authuser endpoint e a prof d'

  unfoldable pub send_profile : String → ℕ → Db → Db × List Sent
  send_profile authuser endpoint d =
      let (d', account) = select_one (account_of target_of) d in
      if is_refused cfg target_of
      then (d, replied forbidden ∷ [])
      else show_profile authuser endpoint account d'
