-- ===== src/Database/Access.antt =====
-- Who may change a profile with sendProfile, and what the change may touch.
use tycho_sipwitchqt.Prelude.{
  ℕ, String, ◌==◌, Bool, true, false, Option, none, some, List, [], ◌∷◌, ◌≡◌, ◌∙◌, ◌⊎◌, inl, inr,
  refl, arith, if◌then◌else◌, All,
}
use tycho_sipwitchqt.Prelude.Int.{ℤ, pos}
use tycho_sipwitchqt.Sip.{Event}
use tycho_sipwitchqt.Database.Tables.{
  Db, Tables, ExtensionRow, AuthorizeRow, select, select_one, first, is_empty, is_faulty,
}
use tycho_sipwitchqt.Database.Outbox.{Qt}
use tycho_sipwitchqt.Database.Accounts.{
  Config, exists, account_of, admin_of, member_of, group_priority, coverage_of, privs_of,
}
use tycho_sipwitchqt.Database.Profile.{
  Profile, target_of, group_access, group_list, own_entries, profile_of, change_profile,
  show_profile, send_profile,
}
use tycho_sipwitchqt.Database.Guards.{exists-tables, exists-nothing}

group_priority-tables :
    (type : String) (target number : ℤ) (d : Db)
    → (group_priority type target number d).0.tables ≡ d.tables
unfolding group_priority select
group_priority-tables type target number d = ground arith

privs_of-tables :
    (access : String) (target : ℤ) (d : Db) → (privs_of access target d).0.tables ≡ d.tables
unfolding privs_of exists select
privs_of-tables access target d = ground arith

abbrev list_of {ℓ} : {A : Type ℓ} → Option A → List A
list_of none = []
list_of (some x) = x ∷ []

first-All {κ} :
    {A : Type 0} (P : A → Type κ) (fault : Bool) (xs : List A)
    → All P xs
    → All P (list_of (first (if fault then [] else xs)))
first-All P true xs a = tt
first-All P false [] a = tt
first-All P false (x ∷ xs) (p, a) = (p, tt)

module _ (qt : Qt) (cfg : Config) (ev : Event) where
  group_access-tables :
      (userid : String) (d : Db) → (group_access qt cfg ev userid d).0.tables ≡ d.tables
  unfolding group_access exists select
  group_access-tables userid d = ground arith

  group_list-tables :
      (type userid : String) (d : Db) → (group_list qt cfg ev type userid d).0.tables ≡ d.tables
  unfolding group_list select
  group_list-tables type userid d = ground (arith, group_access-tables userid d)

  own_entries-tables :
      (userid : String) (d : Db) → (own_entries qt cfg ev userid d).0.tables ≡ d.tables
  unfolding own_entries select
  own_entries-tables userid d = ground arith

  -- Gathering a profile changes nothing.
  profile_of-tables :
      (e : ExtensionRow) (a : AuthorizeRow) (d : Db)
      → (profile_of qt cfg ev e a d).0.tables ≡ d.tables
  unfolding profile_of coverage_of select
  profile_of-tables e a d =
      let target = target_of qt cfg ev in
      let d1 = (group_priority a.authtype target ev.number d).0 in
      let d2 = (coverage_of e.authname ev.number d1).0 in
      let d3 = (privs_of a.authaccess target d2).0 in
      let d4 = (group_list qt cfg ev a.authtype e.authname d3).0 in
      own_entries-tables e.authname d4
      ∙ group_list-tables a.authtype e.authname d3
      ∙ privs_of-tables a.authaccess target d2
      ∙ group_priority-tables a.authtype target ev.number d

  module _ (authuser : String) (endpoint : ℕ) where
    change_profile-kept :
        (e : ExtensionRow) (a : AuthorizeRow) (prof : Profile) (d : Db)
        → admin_of "system" ev.number d.tables ≡ []
        → member_of (pos 0) ev.number d.tables ≡ []
        → (e.authname == authuser) ≡ false
        → (change_profile qt cfg ev authuser endpoint e a prof d).0.tables ≡ d.tables
    unfolding change_profile
    change_profile-kept e a prof d n m f =
        let admin = admin_of "system" ev.number in
        let oper = member_of (pos 0) ev.number in
        let d1 = (exists admin d).0 in
        let same = exists-tables admin d in
        let no_admin = exists-nothing admin d n in
        let no_oper = exists-nothing oper d1 (rw (same) m) in
        ground (arith, f, no_admin, no_oper, same, exists-tables oper d1)

    -- The account that the request is about is not the sender's.
    abbrev pub IsOther : Tables → Type 0
    IsOther t = All (λ x. (x.0.authname == authuser) ≡ false) (account_of (target_of qt cfg ev) t)

    show_profile-kept :
        (account : Option (ExtensionRow × AuthorizeRow)) (d : Db)
        → (is_empty ev.body ≡ true)
          ⊎ ((admin_of "system" ev.number d.tables ≡ [])
              × (member_of (pos 0) ev.number d.tables ≡ [])
              × All (λ x. (x.0.authname == authuser) ≡ false) (list_of account))
        → (show_profile qt cfg ev authuser endpoint account d).0.tables ≡ d.tables
    unfolding show_profile
    show_profile-kept none d h = refl
    show_profile-kept (some (e, a)) d (inl b) = ground (arith, b, profile_of-tables e a d)
    show_profile-kept (some (e, a)) d (inr (n, m, (f, _))) =
        let (d', prof) = profile_of qt cfg ev e a d in
        let same = profile_of-tables e a d in
        let kept = change_profile-kept e a prof d' (rw (same) n) (rw (same) m) f in
        ground (arith, same, kept)

    -- Whichever statements fail: a request for a profile leaves the tables as they are where it has no
    -- body, and also where its sender is no system administrator, no operator, and not the user whose
    -- account it is about.
    pub send_profile-kept :
        (d : Db)
        → (is_empty ev.body ≡ true)
          ⊎ ((admin_of "system" ev.number d.tables ≡ [])
              × (member_of (pos 0) ev.number d.tables ≡ [])
              × IsOther d.tables)
        → (send_profile qt cfg ev authuser endpoint d).0.tables ≡ d.tables
    unfolding send_profile select_one select
    send_profile-kept d h =
        let q = account_of (target_of qt cfg ev) in
        let (d', account) = select_one q d in
        let P : ExtensionRow × AuthorizeRow → Type 0 = λ x. (x.0.authname == authuser) ≡ false in
        let kept = show_profile-kept account d' (elim h [
          | inl b ↦ inl b
          | inr (n, m, o) ↦ inr (n, m, first-All P (is_faulty d.faults) (q d.tables) o)
        ]) in
        ground (arith, kept)
