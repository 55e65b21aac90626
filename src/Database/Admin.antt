-- ===== src/Database/Admin.antt =====
-- Database/database.cpp: the requests that change extensions, their authorizations, their forwarding
-- and their coverage. Each ends with the profile of the target, as sendProfile answers it.
use tycho_sipwitchqt.Prelude.{
  ℕ, String, ◌==◌, Bool, false, not, ◌&&◌, ◌||◌, Option, none, some, List, [], ◌∷◌, ◌++◌,
  if◌then◌else◌, keep, map,
}
use tycho_sipwitchqt.Prelude.Int.{ℤ, pos, negsuc, ltb_ℤ, eqb_ℤ}
use tycho_sipwitchqt.UString.{codes, is_number}
use tycho_sipwitchqt.Sip.{Event, ok, forbidden, not_found, conflict, not_acceptable_here}
use tycho_sipwitchqt.Database.Tables.{
  Db, Tables, EndpointRow, ExtensionRow, AuthorizeRow, select_one, run, update, delete,
  insert_authorize, insert_extension, insert_endpoint,
}
use tycho_sipwitchqt.Database.Outbox.{Qt}
use tycho_sipwitchqt.Database.Accounts.{
  Config, out_of_range, is_refused, account_of, admin_of, exists, is_group,
}
use tycho_sipwitchqt.Database.Profile.{
  Sent, replied, disconnect_endpoint, update_roster, target_of, send_profile,
}

-- The headers of a name, in their order; a header without a value is `none`.
abbrev pub named :
    (String → String → Bool) → String → List (String × Option String) → List (Option String)
named same name [] = []
named same name ((n, value) ∷ headers) =
    let rest = named same name headers in if same n name then value ∷ rest else rest

abbrev pub first_value : List (Option String) → Option String
first_value [] = none
first_value (value ∷ values) = value

-- The signal for each of some endpoints.
abbrev pub disconnect_all : List EndpointRow → List Sent
disconnect_all rows = map (λ e. disconnect_endpoint e.endpoint) rows

module _ (qt : Qt) (cfg : Config) (ev : Event) where
  abbrev pub headers : String → List (Option String)
  headers name = elim ev.sent [ none ↦ [] | some list ↦ named qt.same_name name list ]

  -- osip_message_header_get_byname at 0, and the header's value.
  unfoldable pub header : String → Option String
  header name = first_value (headers name)

  -- The row that changeAuthorize inserts, with the defaults of the schema.
  unfoldable pub new_authorization : String → AuthorizeRow
  new_authorization user =
      let group = is_group (qt.json ev.body "t") in
      record {
        authname = user;
        authtype = qt.json ev.body "t";
        authaccess = "LOCAL";
        authdigest = if group then "NONE" else qt.json ev.body "d";
        realm = if group then "" else qt.json ev.body "r";
        secret = if group then "" else qt.json ev.body "s";
        fullname = qt.json ev.body "f";
        email = "";
        fwdaway = negsuc 0;
        fwdbusy = negsuc 0;
        fwdnoanswer = negsuc 0;
        created = "";
      }

  -- The end of changeAuthorize: a group has no endpoint.
  unfoldable pub add_extension : String → Bool → Db → Db × List Sent
  add_extension user group d =
      let d1 = run (insert_extension (target_of qt cfg ev) user) d in
      let d2 = run (insert_endpoint (target_of qt cfg ev)) d1 in
      if user == ""
      then (d, replied ok ∷ [])
      else (if group then d1 else d2, update_roster ∷ replied ok ∷ [])

  -- With a new user in the body.
  unfoldable pub authorize_new : Bool → String → Db → Db × List Sent
  authorize_new taken user d =
      let (d1, known) = exists (λ t. keep (λ a. a.authname == user) t.authorize) d in
      if taken
      then (d, replied conflict ∷ [])
      else if known
      then (d1, replied conflict ∷ [])
      else add_extension user (is_group (qt.json ev.body "t"))
          (run (λ t. insert_authorize (record (new_authorization user) { created = t.now }) t) d1)

  -- With the name of a user who is there.
  unfoldable pub authorize_old : Bool → String → Db → Db × List Sent
  authorize_old taken user d =
      let (d1, known) = exists (λ t. keep (λ a. a.authname == user) t.authorize) d in
      if not known
      then (d1, replied not_found ∷ [])
      else if not (user == "") && taken
      then (d1, replied conflict ∷ [])
      else add_extension user false d1

  unfoldable pub change_authorize : Db → Db × List Sent
  change_authorize d =
      let target = target_of qt cfg ev in
      let (d1, sysadmin) = exists (admin_of "system" ev.number) d in
      let (d2, taken) = exists (λ t. keep (λ e. eqb_ℤ e.extnbr target) t.extensions) d1 in
      let user = qt.json ev.body "a" in
      if out_of_range cfg target
      then (d, replied forbidden ∷ [])
      else if not sysadmin
      then (d1, replied forbidden ∷ [])
      else if not (user == "")
      then authorize_new taken user d2
      else authorize_old taken (qt.json ev.body "e") d2

  module _ (authuser : String) (endpoint : ℕ) where
    -- The start of the requests on an account: the range, and the account of the target.
    unfoldable pub with_account :
        (ExtensionRow → AuthorizeRow → Db → Db × List Sent) → Db → Db × List Sent
    with_account k d =
        let (d', account) = select_one (account_of (target_of qt cfg ev)) d in
        if is_refused cfg (target_of qt cfg ev)
        then (d, replied forbidden ∷ [])
        else elim account [ none ↦ (d', replied not_found ∷ []) | some (e, a) ↦ k e a d' ]

    -- `destination.isNumber() ? destination.toInt() : -1`, and the priority in the same way.
    unfoldable pub number_or_none : String → ℤ
    number_or_none s = if is_number (codes s) then qt.to_int (codes s) else negsuc 0

    abbrev pub set_authorize : String → (AuthorizeRow → AuthorizeRow) → Tables → Tables
    set_authorize user f t = record t { authorize = update (λ a. a.authname == user) f t.authorize }

    unfoldable pub forward : String → ℤ → String → Db → Db × List Sent
    forward user fwd_to kind d =
        if kind == "NA"
        then send_profile qt cfg ev authuser endpoint
            (run (set_authorize user (λ a. record a { fwdnoanswer = fwd_to })) d)
        else if kind == "BUSY"
        then send_profile qt cfg ev authuser endpoint
            (run (set_authorize user (λ a. record a { fwdbusy = fwd_to })) d)
        else if kind == "AWAY"
        then send_profile qt cfg ev authuser endpoint
            (run (set_authorize user (λ a. record a { fwdaway = fwd_to })) d)
        else (d, replied not_acceptable_here ∷ [])

    -- The headers of changeForwarding, after its sender has been accepted.
    unfoldable pub forward_to : String → Db → Db × List Sent
    forward_to user d = elim (header "x-destination") [
      | none ↦ (d, replied not_acceptable_here ∷ [])
      | some destination ↦
          let fwd_to = number_or_none destination in
          if ltb_ℤ (pos 0) fwd_to && out_of_range cfg fwd_to
          then (d, replied forbidden ∷ [])
          else elim (header "subject") [
            | none ↦ (d, replied not_acceptable_here ∷ [])
            | some kind ↦ forward user fwd_to kind d
          ]
    ]

    unfoldable pub forward_account : ExtensionRow → AuthorizeRow → Db → Db × List Sent
    forward_account e a d =
        let target = target_of qt cfg ev in
        let (d1, sysadmin) = exists (admin_of "system" ev.number) d in
        let (d2, grpadmin) = exists (admin_of e.authname ev.number) d1 in
        if sysadmin
        then forward_to e.authname d1
        else if not (eqb_ℤ target (pos 0)) && not (is_group a.authtype)
        then (if eqb_ℤ target ev.number
            then forward_to e.authname d1
            else (d1, replied not_acceptable_here ∷ []))
        else if grpadmin
        then forward_to e.authname d2
        else (d2, replied forbidden ∷ [])

    unfoldable pub change_forwarding : Db → Db × List Sent
    change_forwarding d = with_account forward_account d

    -- The rows of changeCoverage: the sender's own ring priority, or its coverage for another user.
    unfoldable pub cover : String → ℤ → Db → Db
    cover user priority d =
        let d1 =
          run
            (λ t. record t {
              calling = delete (λ r. r.authname == user && eqb_ℤ r.extnbr ev.number) t.calling;
            })
            d in
        if user == authuser
        then run
            (λ t. record t {
              extensions =
                  update (λ e. eqb_ℤ e.extnbr ev.number) (λ e. record e { extpriority = priority })
                    t.extensions;
            })
            d
        else if ltb_ℤ (negsuc 0) priority
        then run
            (λ t. record t {
              calling =
                  t.calling
                  ++ record { authname = user; extnbr = ev.number; extpriority = priority } ∷ [];
            })
            d1
        else d1

    unfoldable pub cover_account : ExtensionRow → AuthorizeRow → Db → Db × List Sent
    cover_account e a d = elim (header "x-priority") [
      | none ↦ (d, replied not_acceptable_here ∷ [])
      | some value ↦
          let priority = number_or_none value in
          if ltb_ℤ priority (negsuc 0) || ltb_ℤ (pos 3) priority
          then (d, replied not_acceptable_here ∷ [])
          else send_profile qt cfg ev authuser endpoint (cover e.authname priority d)
    ]

    unfoldable pub change_coverage : Db → Db × List Sent
    change_coverage d = with_account cover_account d
