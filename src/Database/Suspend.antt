-- ===== src/Database/Suspend.antt =====
-- The statements of Database/authorize.cpp on the tables of Database/sqldriver.cpp, and what a
-- suspension by changeAdmin means for the lookup of an endpoint that wants to register.
use tycho_sipwitchqt.Prelude.{
  ℕ, suc, String, ◌==◌, Bool, true, false, not, ◌&&◌, Option, none, some, List, [], ◌∷◌, ◌++◌, ◌≡◌,
  inl, inr, refl, arith, keep, map, Option-cases, Bool-cases,
}
use tycho_sipwitchqt.Prelude.Int.{pos, eqb_ℤ}
use tycho_sipwitchqt.Sip.{Event, forbidden}
use tycho_sipwitchqt.Authorize.{
  Extension, Authorization, Settings, or_zero, find_authorized, find_labelled, find_extension,
  find_endpoint,
}
use tycho_sipwitchqt.Authorize
use tycho_sipwitchqt.Database.Tables.{
  Tables, ExtensionRow, AuthorizeRow, healthy, select, select_one, run, update, delete, insert_row,
  first, is_empty, is_faulty, later,
}
use tycho_sipwitchqt.Database.Outbox.{Qt}
use tycho_sipwitchqt.Database.Accounts.{Config, exists, is_refused, account_of, admin_of, member_of}
use tycho_sipwitchqt.Database.Profile.{target_of, show_profile, send_profile}
use tycho_sipwitchqt.Database.Admin.{with_account, header}
use tycho_sipwitchqt.Database.Groups.{
  is_account, bool_of, profile_and_disconnect, set_system, set_suspend, admin_account, change_admin,
}
use tycho_sipwitchqt.Database.Operators.{profile_of-healthy}

abbrev pub first_of {ℓ κ} : {A : Type ℓ} → {B : Type κ} → (A → B) → List A → Option B
first_of f [] = none
first_of f (x ∷ xs) = some (f x)

abbrev pub authorization_of : (String → String) → AuthorizeRow → Authorization
authorization_of to_upper a = record {
  authtype = a.authtype;
  authaccess = a.authaccess;
  authdigest = to_upper a.authdigest;
  realm = a.realm;
  secret = a.secret;
  fullname = a.fullname;
  created = a.created;
}

-- The queries of the lookup.
unfoldable pub lookup_tables : (String → String) → Authorize.Tables Tables
lookup_tables to_upper = record {
  endpoint = λ number label t.
      first_of (λ e. e.endpoint)
        (keep (λ e. eqb_ℤ e.extnbr number && e.label == label) t.endpoints);
  extension = λ number t.
      first_of (λ e. record { authname = e.authname; display = e.display })
        (keep (λ e. eqb_ℤ e.extnbr number) t.extensions);
  authorize =
      λ name t. first_of (authorization_of to_upper) (keep (λ a. a.authname == name) t.authorize);
  is_sysadmin = λ number t. not (is_empty (admin_of "system" number t));
  is_operator = λ number t. not (is_empty (member_of (pos 0) number t));
  insert_endpoint = λ number label t. record t {
    endpoints =
        insert_row (λ e. eqb_ℤ e.extnbr number && e.label == label)
          (record {
            endpoint = t.next_endpoint;
            extnbr = number;
            label = label;
            agent = "";
            devkey = [];
            lastaccess = 0;
            lasturi = "";
            created = t.now;
          })
          t.endpoints;
    next_endpoint = suc t.next_endpoint;
  };
  delete_authorize =
      λ name t. record t { authorize = delete (λ a. a.authname == name) t.authorize };
  labelled_endpoints = λ t. map (λ e. e.endpoint) (keep (λ e. not (e.label == "NONE")) t.endpoints);
  insert_delete = λ name endpoint created t. record t {
    deletes =
        t.deletes
        ++ record { authname = name; delstatus = pos 0; endpoint = endpoint; created = created }
          ∷ [];
  };
}

abbrev pub suspended : String → Tables → Tables
suspended user t = record t {
  authorize =
      update (λ a. a.authname == user) (λ a. record a { authaccess = "SUSPEND" }) t.authorize;
}

abbrev is_barred : Option Authorization → Bool
is_barred none = true
is_barred (some x) = x.authaccess == "SUSPEND"

-- After a suspension the user's authorization, where there is one, has the access SUSPEND.
suspended-authorize :
    (to_upper : String → String) (user : String) (rows : List AuthorizeRow)
    → is_barred (
        first_of (authorization_of to_upper) (
          keep
            (λ a. a.authname == user)
            (update (λ a. a.authname == user) (λ a. record a { authaccess = "SUSPEND" }) rows)))
      ≡ true
unfolding update
suspended-authorize to_upper user [] = refl
suspended-authorize to_upper user (a ∷ rows) =
    let rest = suspended-authorize to_upper user rows in
    elim (Bool-cases (a.authname == user)) [ inl f ↦ rw (f, f) refl | inr f ↦ rw (f, f) rest ]

find_authorized-forbidden :
    {D : Type 0} (tables : Authorize.Tables D) (set : Settings) (ev : Event) (ext : Extension)
    (eid : ℕ) (d : D) (found : Option Authorization)
    → tables.authorize ext.authname d ≡ found
    → is_barred found ≡ true
    → find_authorized tables set ev ext eid d ≡ Authorize.replied forbidden ∷ []
unfolding find_authorized
find_authorized-forbidden tables set ev ext eid d none p h = ground (arith, p)
find_authorized-forbidden tables set ev ext eid d (some x) p h = ground (arith, p, h)

-- Whether an endpoint is handed to the manager.
abbrev pub creates : List Authorize.Sent → Bool
creates [] = false
creates (Authorize.create_endpoint endpoint ∷ out) = true
creates (_ ∷ out) = creates out

-- Where the authorization of the number's extension is refused, before and after a label is inserted.
find_endpoint-refused :
    {D : Type 0} (tables : Authorize.Tables D) (set : Settings) (ev : Event) (ext : Extension)
    (d : D)
    → tables.extension ev.number d ≡ some ext
    → ((eid : ℕ) → find_authorized tables set ev ext eid d ≡ Authorize.replied forbidden ∷ [])
    → ((eid : ℕ)
        → find_authorized tables set ev ext eid (tables.insert_endpoint ev.number ev.label d)
          ≡ Authorize.replied forbidden ∷ [])
    → creates (find_endpoint tables set ev d).1 ≡ false
unfolding find_endpoint find_extension find_labelled
find_endpoint-refused tables set ev ext d at now later =
    elim (Option-cases (tables.endpoint ev.number ev.label d)) [
      | inl absent ↦ ground (
        arith,
        at,
        absent,
        later (
            or_zero tables set
              (tables.endpoint ev.number ev.label (tables.insert_endpoint ev.number ev.label d))),
      )
      | inr (eid, there) ↦ ground (arith, at, there, now eid)
    ]

module _ (qt : Qt) (cfg : Config) (ev : Event) (authuser : String) (endpoint : ℕ) where
  -- A request without a body leaves a database that does not fail as it is.
  pub send_profile-healthy :
      (t : Tables)
      → is_empty ev.body ≡ true
      → (send_profile qt cfg ev authuser endpoint (healthy t)).0 ≡ healthy t
  unfolding send_profile show_profile select_one select is_faulty later
  send_profile-healthy t b = elim (Option-cases (first (account_of (target_of qt cfg ev) t))) [
    | inl p ↦ ground (arith, p)
    | inr ((e, a), p) ↦ ground (arith, p, b, profile_of-healthy qt cfg ev e a t)
  ]

  set_suspend-suspended :
      (value : String) (e : ExtensionRow) (a : AuthorizeRow) (t : Tables)
      → bool_of qt cfg ev value ≡ true
      → is_account a.authtype ≡ true
      → is_empty ev.body ≡ true
      → (set_suspend qt cfg ev authuser endpoint (some value) e a (healthy t)).0
        ≡ healthy (suspended e.authname t)
  unfolding set_suspend profile_and_disconnect select run is_faulty later
  set_suspend-suspended value e a t v k b =
      let sent = send_profile-healthy (suspended e.authname t) b in ground (arith, v, k, sent)

  change_admin-suspended :
      (value : String) (e : ExtensionRow) (a : AuthorizeRow) (t : Tables)
      → is_refused cfg (target_of qt cfg ev) ≡ false
      → first (account_of (target_of qt cfg ev) t) ≡ some (e, a)
      → is_empty (admin_of "system" ev.number t) ≡ false
      → header qt cfg ev "x-system" ≡ none
      → header qt cfg ev "x-suspend" ≡ some value
      → bool_of qt cfg ev value ≡ true
      → is_account a.authtype ≡ true
      → is_empty ev.body ≡ true
      → (change_admin qt cfg ev authuser endpoint (healthy t)).0.tables ≡ suspended e.authname t
  unfolding change_admin with_account admin_account exists select_one select set_system is_faulty
      later
  change_admin-suspended value e a t range found sysadmin no_system suspend v k b =
      let left = set_suspend-suspended value e a t v k b in
      rw (range, found, sysadmin, no_system, suspend, left) refl

  -- Where no statement fails: a system administrator suspends a user by a request that has the header
  -- x-suspend, no x-system and no body. Then the lookup of any REGISTER whose number is an extension of
  -- that user hands no endpoint to the manager, also where the request asks for a new label.
  pub change_admin-suspends :
      (value : String) (e : ExtensionRow) (a : AuthorizeRow) (t : Tables)
      → is_refused cfg (target_of qt cfg ev) ≡ false
      → first (account_of (target_of qt cfg ev) t) ≡ some (e, a)
      → is_empty (admin_of "system" ev.number t) ≡ false
      → header qt cfg ev "x-system" ≡ none
      → header qt cfg ev "x-suspend" ≡ some value
      → bool_of qt cfg ev value ≡ true
      → is_account a.authtype ≡ true
      → is_empty ev.body ≡ true
      → (set : Settings) (other : Event) (display : String)
      → (lookup_tables qt.to_upper).extension other.number t
        ≡ some (record { authname = e.authname; display = display })
      → creates
          (find_endpoint
            (lookup_tables qt.to_upper)
            set
            other
            (change_admin qt cfg ev authuser endpoint (healthy t)).0.tables).1
        ≡ false
  unfolding lookup_tables
  change_admin-suspends value e a t range found sysadmin no_system suspend v k b set other display
        at =
      let tables = lookup_tables qt.to_upper in
      let ext : Extension = record { authname = e.authname; display = display } in
      let after = suspended e.authname t in
      let barred = suspended-authorize qt.to_upper e.authname t.authorize in
      rw (change_admin-suspended value e a t range found sysadmin no_system suspend v k b) (
        find_endpoint-refused tables set other ext after at
          (λ eid. find_authorized-forbidden tables set other ext eid after _ refl barred)
          (λ eid. find_authorized-forbidden tables set other ext eid _ _ refl barred))
