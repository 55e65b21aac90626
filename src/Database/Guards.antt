-- ===== src/Database/Guards.antt =====
-- Who may change what: the requests that only an administrator may make, and the changes of a profile.
use tycho_sipwitchqt.Prelude.{
  ℕ, String, Bool, true, false, List, [], ◌∷◌, ◌≡◌, ◌∙◌, inl, inr, refl, arith, Option-cases,
  Bool-cases, ◌⊎◌,
}
use tycho_sipwitchqt.Prelude.Int.{eqb_ℤ}
use tycho_sipwitchqt.Sip.{Event, forbidden, not_found, not_acceptable_here}
use tycho_sipwitchqt.Database.Tables.{Db, Tables, ExtensionRow, AuthorizeRow, select, select_one}
use tycho_sipwitchqt.Database.Outbox.{Qt}
use tycho_sipwitchqt.Database.Accounts.{Config, exists, account_of, admin_of}
use tycho_sipwitchqt.Database.Profile.{Sent, replied, target_of}
use tycho_sipwitchqt.Database.Admin.{
  change_authorize, with_account, forward_account, change_forwarding,
}
use tycho_sipwitchqt.Database.Groups.{
  drop_account, drop_extension, admin_account, change_admin, membership_account, change_membership,
}

abbrev pub is_refusal : List Sent → Bool
is_refusal (replied forbidden ∷ []) = true
is_refusal (replied not_found ∷ []) = true
is_refusal (replied not_acceptable_here ∷ []) = true
is_refusal _ = false

-- A refusal: the tables are as they were, and all that is sent is an answer of 403, 404 or 488.
abbrev pub Refused : Db → Db × List Sent → Type 0
Refused d x = (x.0.tables ≡ d.tables) × (is_refusal x.1 ≡ true)

pub exists-tables :
    {Row : Type 0} (q : Tables → List Row) (d : Db) → (exists q d).0.tables ≡ d.tables
unfolding exists select
exists-tables q d = refl

pub exists-nothing :
    {Row : Type 0} (q : Tables → List Row) (d : Db) → q d.tables ≡ [] → (exists q d).1 ≡ false
unfolding exists select
exists-nothing q d n = ground (arith, n)

-- The sender is in no row of Admin.
abbrev pub IsNobody : Event → Tables → Type 0
IsNobody ev t = (name : String) → admin_of name ev.number t ≡ []

module _ (qt : Qt) (cfg : Config) (ev : Event) where
  change_authorize-Refused :
      (d : Db) → IsNobody ev d.tables → Refused d (change_authorize qt cfg ev d)
  unfolding change_authorize
  change_authorize-Refused d n =
      let same = exists-tables (admin_of "system" ev.number) d in
      let f = exists-nothing (admin_of "system" ev.number) d (n "system") in
      (ground (arith, f, same), ground (arith, f))

  module _ (authuser : String) (endpoint : ℕ) where
    pub select_one-tables :
        {Row : Type 0} (q : Tables → List Row) (d : Db) → (select_one q d).0.tables ≡ d.tables
    unfolding select_one select
    select_one-tables q d = refl

    -- A request on an account is refused where what it does with the account is.
    with_account-Refused :
        (k : ExtensionRow → AuthorizeRow → Db → Db × List Sent) (d : Db)
        → ((e : ExtensionRow) (a : AuthorizeRow) (d' : Db)
            → d'.tables ≡ d.tables
            → Refused d (k e a d'))
        → Refused d (with_account qt cfg ev authuser endpoint k d)
    unfolding with_account
    with_account-Refused k d refused =
        let q = account_of (target_of qt cfg ev) in
        let (d', account) = select_one q d in
        let same = select_one-tables q d in
        elim (Option-cases account) [
          | inl p ↦ (ground (arith, same), ground (arith))
          | inr ((e, a), p) ↦
              let r = refused e a d' same in (ground (arith, r.0), ground (arith, r.1))
        ]

    module _ (d : Db) (n : IsNobody ev d.tables) where
      nobody :
          (name : String) (d' : Db)
          → d'.tables ≡ d.tables
          → (exists (admin_of name ev.number) d').1 ≡ false
      nobody name d' same = exists-nothing (admin_of name ev.number) d' (rw (same) (n name))

      drop_account-Refused :
          (e : ExtensionRow) (a : AuthorizeRow) (d' : Db)
          → d'.tables ≡ d.tables
          → Refused d (drop_account qt cfg ev authuser endpoint e a d')
      unfolding drop_account
      drop_account-Refused e a d' same =
          let f = nobody "system" d' same in
          let kept = exists-tables (admin_of "system" ev.number) d' in
          (ground (arith, f, kept, same), ground (arith, f))

      admin_account-Refused :
          (e : ExtensionRow) (a : AuthorizeRow) (d' : Db)
          → d'.tables ≡ d.tables
          → Refused d (admin_account qt cfg ev authuser endpoint e a d')
      unfolding admin_account
      admin_account-Refused e a d' same =
          let f = nobody "system" d' same in
          let kept = exists-tables (admin_of "system" ev.number) d' in
          (ground (arith, f, kept, same), ground (arith, f))

      membership_account-Refused :
          (e : ExtensionRow) (a : AuthorizeRow) (d' : Db)
          → d'.tables ≡ d.tables
          → Refused d (membership_account qt cfg ev authuser endpoint e a d')
      unfolding membership_account
      membership_account-Refused e a d' same =
          let q = admin_of "system" ev.number in
          let d1 = (exists q d').0 in
          let f = nobody "system" d' same in
          let kept = exists-tables q d' in
          let g = nobody e.authname d1 (kept ∙ same) in
          let kept' = exists-tables (admin_of e.authname ev.number) d1 in
          (ground (arith, f, g, kept, kept', same), ground (arith, f, g))

      -- Forwarding of another account than one's own.
      forward_account-Refused :
          (e : ExtensionRow) (a : AuthorizeRow) (d' : Db)
          → eqb_ℤ (target_of qt cfg ev) ev.number ≡ false
          → d'.tables ≡ d.tables
          → Refused d (forward_account qt cfg ev authuser endpoint e a d')
      unfolding forward_account
      forward_account-Refused e a d' other same =
          let q = admin_of "system" ev.number in
          let d1 = (exists q d').0 in
          let f = nobody "system" d' same in
          let kept = exists-tables q d' in
          let g = nobody e.authname d1 (kept ∙ same) in
          let kept' = exists-tables (admin_of e.authname ev.number) d1 in
          (ground (arith, f, g, kept, kept', same, other), ground (arith, f, g, other))

      change_forwarding-Refused :
          (eqb_ℤ (target_of qt cfg ev) ev.number ≡ true)
          ⊎ Refused d (change_forwarding qt cfg ev authuser endpoint d)
      unfolding change_forwarding
      change_forwarding-Refused = elim (Bool-cases (eqb_ℤ (target_of qt cfg ev) ev.number)) [
        | inl own ↦ inl own
        | inr other ↦ inr (
            with_account-Refused (forward_account qt cfg ev authuser endpoint) d
              (λ e a d'. forward_account-Refused e a d' other))
      ]

      -- Whichever statements fail: a sender with no row in Admin is refused a new authorization, an
      -- administrator's change, the dropping of an extension and a change of any group's members, its
      -- own number included, and also the forwarding of any account but its own.
      pub handlers-Refused :
          Refused d (change_authorize qt cfg ev d)
          × Refused d (change_admin qt cfg ev authuser endpoint d)
          × Refused d (drop_extension qt cfg ev authuser endpoint d)
          × Refused d (change_membership qt cfg ev authuser endpoint d)
          × ((eqb_ℤ (target_of qt cfg ev) ev.number ≡ true)
              ⊎ Refused d (change_forwarding qt cfg ev authuser endpoint d))
      unfolding drop_extension change_admin change_membership
      handlers-Refused = (
        change_authorize-Refused d n,
        with_account-Refused (admin_account qt cfg ev authuser endpoint) d admin_account-Refused,
        with_account-Refused (drop_account qt cfg ev authuser endpoint) d drop_account-Refused,
        with_account-Refused (membership_account qt cfg ev authuser endpoint) d
            membership_account-Refused,
        change_forwarding-Refused,
      )
