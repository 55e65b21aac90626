-- ===== src/Database/Accounts.antt =====
-- Database/database.cpp: the queries on accounts, groups and administrators that the handlers share.
use tycho_sipwitchqt.Prelude.{
  String, ◌==◌, Bool, not, ◌&&◌, ◌||◌, List, [], ◌∷◌, ◌++◌, if◌then◌else◌, keep, map,
}
use tycho_sipwitchqt.Prelude.Int.{ℤ, pos, negsuc, ltb_ℤ, eqb_ℤ}
use tycho_sipwitchqt.Database.Tables.{
  Db, Tables, ExtensionRow, AuthorizeRow, AdminRow, GroupRow, CallingRow, select, is_empty,
}
use Prim.Native.String

-- The members of Database that the handlers read, and `Server::sym(CURRENT_NETWORK)`.
pub record Config : Type 0 where
  pub first_number : ℤ
  pub last_number : ℤ
  pub policy : String
  pub operator_display : String
  pub network : String

-- FROM Extensions JOIN Authorize ON authname, for some extensions.
unfoldable pub join_authorize :
    List ExtensionRow → List AuthorizeRow → List (ExtensionRow × AuthorizeRow)
join_authorize [] auths = []
join_authorize (e ∷ es) auths =
    map (λ a. (e, a)) (keep (λ a. e.authname == a.authname) auths) ++ join_authorize es auths

abbrev pub account_of : ℤ → Tables → List (ExtensionRow × AuthorizeRow)
account_of target t = join_authorize (keep (λ e. eqb_ℤ e.extnbr target) t.extensions) t.authorize

abbrev pub admin_of : String → ℤ → Tables → List AdminRow
admin_of authname extnbr t = keep (λ r. r.authname == authname && eqb_ℤ r.extnbr extnbr) t.admin

abbrev pub member_of : ℤ → ℤ → Tables → List GroupRow
member_of grpnbr extnbr t = keep (λ g. eqb_ℤ g.grpnbr grpnbr && eqb_ℤ g.extnbr extnbr) t.groups

abbrev pub calling_of : String → ℤ → Tables → List CallingRow
calling_of authname extnbr t = keep (λ r. r.authname == authname && eqb_ℤ r.extnbr extnbr) t.calling

-- A SELECT of which only the presence of a row is looked at.
unfoldable pub exists : {Row : Type 0} → (Tables → List Row) → Db → Db × Bool
exists q d = let (d', rows) = select q d in (d', not (is_empty rows))

-- The range -1 to 3 of a priority.
unfoldable pub clamp_priority : ℤ → ℤ
clamp_priority n = if ltb_ℤ (pos 3) n then pos 3 else if ltb_ℤ n (pos 0) then negsuc 0 else n

unfoldable pub out_of_range : Config → ℤ → Bool
out_of_range cfg target = ltb_ℤ target cfg.first_number || ltb_ℤ cfg.last_number target

-- A target other than the operators has to be in the range.
unfoldable pub is_refused : Config → ℤ → Bool
is_refused cfg target = not (eqb_ℤ target (pos 0)) && out_of_range cfg target

abbrev pub is_group : String → Bool
is_group type = type == "GROUP" || type == "PILOT"

abbrev pub priority_or : ℤ → List ℤ → ℤ
priority_or n [] = n
priority_or n (p ∷ ps) = p

unfoldable pub group_priority : String → ℤ → ℤ → Db → Db × ℤ
group_priority type target number d =
    if is_group type || eqb_ℤ target (pos 0)
    then (let (d', rows) = select (member_of target number) d in
        (
          d',
          if is_empty rows
              then negsuc 0
              else if eqb_ℤ target (pos 0)
              then pos 0
              else clamp_priority (priority_or (negsuc 0) (map (λ g. g.extpriority) rows)),
        ))
    else (d, negsuc 0)

unfoldable pub coverage_of : String → ℤ → Db → Db × ℤ
coverage_of userid number d =
    let (d', rows) = select (calling_of userid number) d in
    (d', clamp_priority (priority_or (negsuc 0) (map (λ r. r.extpriority) rows)))

unfoldable pub privs_of : String → ℤ → Db → Db × String
privs_of access target d =
    let (d1, admin) = exists (admin_of "system" target) d in
    let (d2, oper) = exists (member_of (pos 0) target) d1 in
    if access == "SUSPEND"
    then (d, "suspend")
    else if admin
    then (d1, "sysadmin")
    else (d2, if oper then "operator" else "none")

-- groupList: the members, joined by commas.
abbrev pub comma_list : (ℤ → String) → List ℤ → String
comma_list number [] = ""
comma_list number (n ∷ []) = number n
comma_list number (n ∷ m ∷ ns) =
    String.◌++◌ (number n) (String.◌++◌ "," (comma_list number (m ∷ ns)))

-- groupAccess and listAccess of a member: a group with an administrator is shown with its number.
abbrev pub member_access : (ℤ → String) → List AdminRow → String
member_access number [] = "member"
member_access number (row ∷ rows) = number row.extnbr
