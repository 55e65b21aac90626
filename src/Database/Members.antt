-- ===== src/Database/Members.antt =====
-- What changeMembership does to the rows of Groups.
use tycho_sipwitchqt.Prelude.{
  ℕ, String, ◌==◌, true, not, ◌&&◌, List, [], ◌∷◌, ◌++◌, ◌≡◌, ◌∙◌, inl, inr, refl, arith,
  if◌then◌else◌, either, keep, map, Bool-cases,
}
use tycho_sipwitchqt.Prelude.Int.{ℤ, pos, negsuc, eqb_ℤ, eqb_ℤ_iff, ltb_ℤ}
use tycho_sipwitchqt.Sip.{Event}
use tycho_sipwitchqt.Database.Tables.{
  Db, Tables, GroupRow, healthy, run, delete, insert_row, insert_group, insert_admin, is_empty,
  is_faulty, later,
}
use tycho_sipwitchqt.Database.Outbox.{Qt, insert_set, insert_all}
use tycho_sipwitchqt.Database.Accounts.{Config}
use tycho_sipwitchqt.Database.Profile.{target_of}
use tycho_sipwitchqt.Database.Admin.{headers}
use tycho_sipwitchqt.Database.Groups.{numbers, insert_groups, group_admin, replace_members}

-- The members of a group, and the rows of the other groups.
abbrev pub members : ℤ → Tables → List ℤ
members target t = map (λ g. g.extnbr) (keep (λ g. eqb_ℤ g.grpnbr target) t.groups)

abbrev pub others : ℤ → List GroupRow → List GroupRow
others target groups = keep (λ g. not (eqb_ℤ g.grpnbr target)) groups

others-deleted :
    (target : ℤ) (groups : List GroupRow)
    → others target (delete (λ g. eqb_ℤ g.grpnbr target) groups) ≡ others target groups
unfolding delete
others-deleted target [] = refl
others-deleted target (g ∷ groups) = ground (arith, others-deleted target groups)

others-append :
    (target : ℤ) (groups : List GroupRow) (g : GroupRow)
    → eqb_ℤ g.grpnbr target ≡ true
    → others target (groups ++ g ∷ []) ≡ others target groups
others-append target [] g p = ground (arith, p)
others-append target (h ∷ groups) g p = ground (arith, others-append target groups g p)

eqb_ℤ_refl : (n : ℤ) → eqb_ℤ n n ≡ true
eqb_ℤ_refl n = (eqb_ℤ_iff n n).1 refl

others-insert_group :
    (target n : ℤ) (t : Tables)
    → others target (insert_group target n t).groups ≡ others target t.groups
unfolding insert_group insert_row
others-insert_group target n t =
    either (λ (groups : List GroupRow). others target groups ≡ others target t.groups)
      (is_empty (keep (λ g. eqb_ℤ g.grpnbr target && eqb_ℤ g.extnbr n) t.groups)) _ _
      (λ _.
        others-append target t.groups (record { grpnbr = target; extnbr = n; extpriority = pos 0 })
          (eqb_ℤ_refl target))
      (λ _. refl)

-- The rows of the other groups are the same, whether a statement fails or not.
run-others :
    (target : ℤ) (u : Tables → Tables) (d : Db)
    → others target (u d.tables).groups ≡ others target d.tables.groups
    → others target (run u d).tables.groups ≡ others target d.tables.groups
unfolding run
run-others target u d p =
    either (λ (t : Tables). others target t.groups ≡ others target d.tables.groups)
      (is_faulty d.faults) _ _ (λ _. refl) (λ _. p)

insert_groups-others :
    (target : ℤ) (ns : List ℤ) (d : Db)
    → others target (insert_groups target ns d).tables.groups ≡ others target d.tables.groups
unfolding insert_groups
insert_groups-others target [] d = refl
insert_groups-others target (n ∷ ns) d =
    insert_groups-others target ns (run (insert_group target n) d)
    ∙ run-others target (insert_group target n) d (others-insert_group target n d.tables)

module _ (qt : Qt) (cfg : Config) (ev : Event) (authuser : String) (endpoint : ℕ) where
  -- Whichever statements fail: replacing the members of a group leaves the rows of every other group as
  -- they are.
  pub replace_members-others :
      (group : String) (d : Db)
      → others
          (target_of qt cfg ev)
          (replace_members qt cfg ev authuser endpoint group d).tables.groups
        ≡ others (target_of qt cfg ev) d.tables.groups
  unfolding replace_members insert_admin
  replace_members-others group d =
      let target = target_of qt cfg ev in
      let clear : Tables → Tables =
        λ t. record t { groups = delete (λ g. eqb_ℤ g.grpnbr target) t.groups } in
      let drop : Tables → Tables =
        λ t. record t { admin = delete (λ r. r.authname == group) t.admin } in
      let admin = group_admin qt cfg ev authuser endpoint in
      let ns = numbers qt.atoi (headers qt cfg ev "x-group-member") [] in
      let d1 = insert_groups target ns (run clear d) in
      let cleared =
        insert_groups-others target ns (run clear d)
        ∙ run-others target clear d (others-deleted target d.tables.groups) in
      let d2 = run (insert_group target admin) d1 in
      let d3 = run drop d2 in
      either (λ (x : Db). others target x.tables.groups ≡ others target d.tables.groups)
        (ltb_ℤ (pos 0) admin) _ _
        (λ _.
          run-others target (insert_admin group admin) d3 refl
          ∙ run-others target drop d2 refl
          ∙ run-others target (insert_group target admin) d1
              (others-insert_group target admin d1.tables)
          ∙ cleared)
        (λ _. cleared)

eqb_ℤ_sym : (a b : ℤ) → eqb_ℤ a b ≡ eqb_ℤ b a
eqb_ℤ_sym (pos a) (pos b) = ground arith
eqb_ℤ_sym (negsuc a) (negsuc b) = ground arith
eqb_ℤ_sym (pos a) (negsuc b) = refl
eqb_ℤ_sym (negsuc a) (pos b) = refl

abbrev of_group : ℤ → List GroupRow → List ℤ
of_group target groups = map (λ g. g.extnbr) (keep (λ g. eqb_ℤ g.grpnbr target) groups)

keyed-members :
    (target n : ℤ) (groups : List GroupRow)
    → is_empty (keep (λ g. eqb_ℤ g.grpnbr target && eqb_ℤ g.extnbr n) groups)
      ≡ is_empty (keep (eqb_ℤ n) (of_group target groups))
keyed-members target n [] = refl
keyed-members target n (g ∷ groups) =
    ground (arith, keyed-members target n groups, eqb_ℤ_sym n g.extnbr)

members-append :
    (target : ℤ) (groups : List GroupRow) (g : GroupRow)
    → eqb_ℤ g.grpnbr target ≡ true
    → of_group target (groups ++ g ∷ []) ≡ of_group target groups ++ g.extnbr ∷ []
members-append target [] g p = ground (arith, p)
members-append target (h ∷ groups) g p = ground (arith, members-append target groups g p)

insert_group-members :
    (target n : ℤ) (t : Tables)
    → members target (insert_group target n t) ≡ insert_set eqb_ℤ n (members target t)
unfolding insert_group insert_row insert_set
insert_group-members target n t =
    let row : GroupRow = record { grpnbr = target; extnbr = n; extpriority = pos 0 } in
    ground (
      arith,
      keyed-members target n t.groups,
      members-append target t.groups row (eqb_ℤ_refl target),
    )

abbrev insert_groups_in : ℤ → List ℤ → Tables → Tables
insert_groups_in target [] t = t
insert_groups_in target (n ∷ ns) t = insert_groups_in target ns (insert_group target n t)

insert_groups-healthy :
    (target : ℤ) (ns : List ℤ) (t : Tables)
    → insert_groups target ns (healthy t) ≡ healthy (insert_groups_in target ns t)
unfolding insert_groups run is_faulty later
insert_groups-healthy target [] t = refl
insert_groups-healthy target (n ∷ ns) t = insert_groups-healthy target ns (insert_group target n t)

insert_groups_in-members :
    (target : ℤ) (ns : List ℤ) (t : Tables)
    → members target (insert_groups_in target ns t) ≡ insert_all eqb_ℤ ns (members target t)
insert_groups_in-members target [] t = refl
insert_groups_in-members target (n ∷ ns) t =
    insert_groups_in-members target ns (insert_group target n t)
    ∙ (λ i. insert_all eqb_ℤ ns (insert_group-members target n t i))

members-cleared :
    (target : ℤ) (groups : List GroupRow)
    → of_group target (delete (λ g. eqb_ℤ g.grpnbr target) groups) ≡ []
unfolding delete
members-cleared target [] = refl
members-cleared target (g ∷ groups) = ground (arith, members-cleared target groups)

module _ (qt : Qt) (cfg : Config) (ev : Event) (authuser : String) (endpoint : ℕ) where
  -- Where no statement fails: replacing the members of a group makes its members exactly the set of the
  -- positive numbers in the headers x-group-member, and the group's administrator where a positive one
  -- is named; nobody who was a member before stays without being named.
  pub replace_members-members :
      (group : String) (t : Tables)
      → members
          (target_of qt cfg ev)
          (replace_members qt cfg ev authuser endpoint group (healthy t)).tables
        ≡ insert_all eqb_ℤ
            (if ltb_ℤ (pos 0) (group_admin qt cfg ev authuser endpoint)
              then group_admin qt cfg ev authuser endpoint ∷ []
              else [])
            (insert_all eqb_ℤ (numbers qt.atoi (headers qt cfg ev "x-group-member") []) [])
  unfolding replace_members run is_faulty later insert_admin
  replace_members-members group t =
      let target = target_of qt cfg ev in
      let admin = group_admin qt cfg ev authuser endpoint in
      let ns = numbers qt.atoi (headers qt cfg ev "x-group-member") [] in
      let clear : Tables = record t { groups = delete (λ g. eqb_ℤ g.grpnbr target) t.groups } in
      let replaced =
        insert_groups_in-members target ns clear
        ∙ (λ i. insert_all eqb_ℤ ns (members-cleared target t.groups i)) in
      let t1 = insert_groups_in target ns clear in
      let set = insert_all eqb_ℤ ns [] in
      rw (insert_groups-healthy target ns clear) (elim (Bool-cases (ltb_ℤ (pos 0) admin)) [
        | inl f ↦
            rw (f)
              (insert_group-members target admin t1 ∙ (λ i. insert_set eqb_ℤ admin (replaced i)))
        | inr f ↦ rw (f) replaced
      ])
