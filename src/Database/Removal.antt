-- ===== src/Database/Removal.antt =====
-- From the removal of an authorization to the rosters of the devices.
use tycho_sipwitchqt.Prelude.{
  ℕ, String, ◌==◌, eq_iff, Bool, true, false, not, ◌&&◌, ◌||◌, some, List, [], ◌∷◌, ◌++◌, ◌≡◌, inl,
  inr, refl, arith, eqb, keep, map, Bool-cases,
}
use tycho_sipwitchqt.Prelude.Int.{pos}
use tycho_sipwitchqt.Sip.{Event}
use tycho_sipwitchqt.Authorize.{Settings, Authorization, remove_authorization, mark_deleted}
use tycho_sipwitchqt.Database.Tables.{
  Tables, ExtensionRow, AuthorizeRow, DeleteRow, healthy, select, run, update, delete, is_empty,
  is_faulty, later,
}
use tycho_sipwitchqt.Database.Outbox.{Qt}
use tycho_sipwitchqt.Database.Accounts.{Config, admin_of, join_authorize}
use tycho_sipwitchqt.Database.Suspend.{lookup_tables}
use tycho_sipwitchqt.Database.Roster.{
  Entry, removed, account, account_entry, account_entries, removals, send_roster,
}

abbrev pub any {ℓ} : {A : Type ℓ} → (A → Bool) → List A → Bool
any p [] = false
any p (x ∷ xs) = p x || any p xs

abbrev pub is_removed : String → Entry → Bool
is_removed name (removed n c) = n == name
is_removed name (account a) = false

abbrev pub is_listed : String → Entry → Bool
is_listed name (removed n c) = false
is_listed name (account a) = a.a == name

abbrev is_delete : String → ℕ → DeleteRow → Bool
is_delete name e r = r.authname == name && eqb r.endpoint e

any-append {ℓ} :
    {A : Type ℓ} (p : A → Bool) (xs ys : List A) → any p (xs ++ ys) ≡ (any p xs || any p ys)
any-append p [] ys = refl
any-append p (x ∷ xs) ys = ground (arith, any-append p xs ys)

module _ (to_upper : String → String) (set : Settings) (name created : String) where
  abbrev marked : List ℕ → Tables → Tables
  marked es t = mark_deleted (lookup_tables to_upper) set name created es t

  abbrev with_delete : ℕ → Tables → Tables
  with_delete e t = record t {
    deletes =
        t.deletes
        ++ record { authname = name; delstatus = pos 0; endpoint = e; created = created } ∷ [];
  }

  mark_deleted-keeps :
      (p : DeleteRow → Bool) (es : List ℕ) (t : Tables)
      → any p t.deletes ≡ true
      → any p (marked es t).deletes ≡ true
  unfolding mark_deleted lookup_tables
  mark_deleted-keeps p [] t h = h
  mark_deleted-keeps p (e ∷ es) t h =
      let row : DeleteRow = record {
        authname = name;
        delstatus = pos 0;
        endpoint = e;
        created = created;
      } in
      mark_deleted-keeps p es (with_delete e t)
        (ground (arith, any-append p t.deletes (row ∷ []), h))

  -- Each endpoint of the list is told of the removal.
  mark_deleted-any :
      (endpoint : ℕ) (es : List ℕ) (t : Tables)
      → any (λ e. eqb e endpoint) es ≡ true
      → any (is_delete name endpoint) (marked es t).deletes ≡ true
  unfolding mark_deleted lookup_tables
  mark_deleted-any endpoint [] t h = cc h
  mark_deleted-any endpoint (e ∷ es) t h =
      let row : DeleteRow = record {
        authname = name;
        delstatus = pos 0;
        endpoint = e;
        created = created;
      } in
      let p = is_delete name endpoint in
      elim (Bool-cases (eqb e endpoint)) [
        | inl f ↦
            mark_deleted-keeps p es (with_delete e t)
              (ground (arith, any-append p t.deletes (row ∷ []), f, (eq_iff name name).1 refl))
        | inr f ↦ mark_deleted-any endpoint es (with_delete e t) (ground (arith, f, h))
      ]

  -- Nothing else of the tables is changed.
  mark_deleted-frame :
      (es : List ℕ) (t : Tables)
      → ((marked es t).extensions ≡ t.extensions) × ((marked es t).authorize ≡ t.authorize)
  unfolding mark_deleted lookup_tables
  mark_deleted-frame [] t = (refl, refl)
  mark_deleted-frame (e ∷ es) t = mark_deleted-frame es (with_delete e t)

remove_authorization_lem :
    (to_upper : String → String) (set : Settings) (name : String) (by : Event) (t : Tables)
    (info : Authorization)
    → not (is_empty (admin_of "system" by.number t)) ≡ true
    → (lookup_tables to_upper).authorize name t ≡ some info
    → (to_upper info.authtype == "SYSTEM") ≡ false
    → (remove_authorization (lookup_tables to_upper) set to_upper name by t).0
      ≡ mark_deleted
          (lookup_tables to_upper)
          set
          name
          info.created
          (map (λ e. e.endpoint) (keep (λ e. not (e.label == "NONE")) t.endpoints))
          (record t { authorize = delete (λ a. a.authname == name) t.authorize })
unfolding remove_authorization lookup_tables
remove_authorization_lem to_upper set name by t info sysadmin found type =
    ground (arith, sysadmin, found, type)

removals-any :
    (name : String) (endpoint : ℕ) (rows : List DeleteRow)
    → any (is_removed name) (
        removals (
          keep
            (λ r. eqb r.endpoint endpoint)
            (update (λ r. eqb r.endpoint endpoint) (λ r. record r { delstatus = pos 1 }) rows)))
      ≡ any (is_delete name endpoint) rows
unfolding removals update
removals-any name endpoint [] = refl
removals-any name endpoint (r ∷ rows) = ground (arith, removals-any name endpoint rows)

removals-listed :
    (name : String) (rows : List DeleteRow) → any (is_listed name) (removals rows) ≡ false
unfolding removals
removals-listed name [] = refl
removals-listed name (r ∷ rows) = removals-listed name rows

module _ (qt : Qt) (cfg : Config) (ev : Event) where
  entries-append :
      (xs ys : List (ExtensionRow × AuthorizeRow))
      → account_entries qt cfg ev (xs ++ ys)
        ≡ account_entries qt cfg ev xs ++ account_entries qt cfg ev ys
  unfolding account_entries
  entries-append [] ys = refl
  entries-append ((e, a) ∷ xs) ys = ground (arith, entries-append xs ys)

  -- An account whose authorization is gone joins no row.
  joined-listed :
      (name : String) (e : ExtensionRow) (auths : List AuthorizeRow)
      → any (is_listed name) (
          account_entries qt cfg ev (
            map
              (λ a. (e, a))
              (keep (λ a. e.authname == a.authname) (delete (λ a. a.authname == name) auths))))
        ≡ false
  unfolding account_entries account_entry delete
  joined-listed name e [] = refl
  joined-listed name e (a ∷ auths) = elim (Bool-cases (a.authname == name)) [
    | inl f ↦ ground (arith, f, joined-listed name e auths)
    | inr f ↦ elim (Bool-cases (e.authname == a.authname)) [
      | inl g ↦
          let other : (e.authname == name) ≡ false = rw ((eq_iff e.authname a.authname).0 g) f in
          ground (arith, f, g, other, joined-listed name e auths)
      | inr g ↦ ground (arith, f, g, joined-listed name e auths)
    ]
  ]

  accounts-listed :
      (name : String) (exts : List ExtensionRow) (auths : List AuthorizeRow)
      → any
          (is_listed name)
          (account_entries qt cfg ev (join_authorize exts (delete (λ a. a.authname == name) auths)))
        ≡ false
  unfolding join_authorize account_entries
  accounts-listed name [] auths = refl
  accounts-listed name (e ∷ exts) auths =
      let kept = delete (λ a. a.authname == name) auths in
      let mine : List (ExtensionRow × AuthorizeRow) =
        map (λ a. (e, a)) (keep (λ a. e.authname == a.authname) kept) in
      let rest = join_authorize exts kept in
      rw
        (
          entries-append mine rest,
          any-append (is_listed name) (account_entries qt cfg ev mine)
              (account_entries qt cfg ev rest),
          joined-listed name e auths,
        )
        (accounts-listed name exts auths)

  roster_of : ℕ → Tables → List Entry
  roster_of endpoint t =
      removals (
        keep (λ r. eqb r.endpoint endpoint)
          (update (λ r. eqb r.endpoint endpoint) (λ r. record r { delstatus = pos 1 }) t.deletes))
      ++ account_entries qt cfg ev (join_authorize t.extensions t.authorize)

  send_roster_lem :
      (endpoint : ℕ) (t : Tables)
      → (send_roster qt cfg ev endpoint (healthy t)).1 ≡ roster_of endpoint t
  unfolding send_roster run select is_faulty later roster_of
  send_roster_lem endpoint t = refl

  -- A roster of tables in which a deletion is noted for the endpoint, and the authorization is gone.
  roster_of-removed :
      (name : String) (endpoint : ℕ) (auths : List AuthorizeRow) (t : Tables)
      → any (is_delete name endpoint) t.deletes ≡ true
      → t.authorize ≡ delete (λ a. a.authname == name) auths
      → (any (is_removed name) (roster_of endpoint t) ≡ true)
        × (any (is_listed name) (roster_of endpoint t) ≡ false)
  unfolding roster_of
  roster_of-removed name endpoint auths t noted gone =
      let rows =
        keep (λ r. eqb r.endpoint endpoint)
          (update (λ r. eqb r.endpoint endpoint) (λ r. record r { delstatus = pos 1 }) t.deletes) in
      let accounts = account_entries qt cfg ev (join_authorize t.extensions t.authorize) in
      let absent : any (is_listed name) accounts ≡ false =
        rw (gone) (accounts-listed name t.extensions auths) in
      (
        ground (
          arith,
          any-append (is_removed name) (removals rows) accounts,
          removals-any name endpoint t.deletes,
          noted,
        ),
        ground (
          arith,
          any-append (is_listed name) (removals rows) accounts,
          removals-listed name rows,
          absent,
        ),
      )

  -- Where no statement fails: a system administrator removes an authorization that is there and is not
  -- the system's. Then the next roster of each labelled endpoint says that the account is removed, and
  -- lists no account of that name.
  pub send_roster-removed :
      (set : Settings) (name : String) (by : Event) (t : Tables) (info : Authorization)
      (endpoint : ℕ)
      → not (is_empty (admin_of "system" by.number t)) ≡ true
      → (lookup_tables qt.to_upper).authorize name t ≡ some info
      → (qt.to_upper info.authtype == "SYSTEM") ≡ false
      → any
          (λ e. eqb e endpoint)
          (map (λ e. e.endpoint) (keep (λ e. not (e.label == "NONE")) t.endpoints))
        ≡ true
      → (roster : List Entry)
      → roster
        ≡ (send_roster qt cfg ev endpoint (
            healthy
              (remove_authorization (lookup_tables qt.to_upper) set qt.to_upper name by t).0)).1
      → (any (is_removed name) roster ≡ true) × (any (is_listed name) roster ≡ false)
  send_roster-removed set name by t info endpoint sysadmin found type labelled roster p =
      let gone : Tables = record t { authorize = delete (λ a. a.authname == name) t.authorize } in
      let devices = map (λ e. e.endpoint) (keep (λ e. not (e.label == "NONE")) t.endpoints) in
      let after = mark_deleted (lookup_tables qt.to_upper) set name info.created devices gone in
      let same = remove_authorization_lem qt.to_upper set name by t info sysadmin found type in
      rw (p, same, send_roster_lem endpoint after)
        (roster_of-removed name endpoint t.authorize after
          (mark_deleted-any qt.to_upper set name info.created endpoint devices gone labelled)
          (mark_deleted-frame qt.to_upper set name info.created devices gone).1)
