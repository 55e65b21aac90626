-- ===== src/Database/Tables.antt =====
-- The tables of Database/sqldriver.cpp, and what the statements of Database/database.cpp do to them. A
-- SELECT keeps the rows that pass its test, an UPDATE rewrites them, a DELETE drops them, and an INSERT
-- that breaks a primary key fails. Foreign keys do nothing here, as in SQLite, where they are off.
use tycho_sipwitchqt.Prelude.{
  ℕ, suc, String, ◌==◌, Bool, true, false, not, ◌&&◌, Option, none, some, List, [], ◌∷◌, ◌++◌, eqb,
  if◌then◌else◌, keep,
}
use tycho_sipwitchqt.Prelude.Int.{ℤ, pos, eqb_ℤ}
use tycho_sipwitchqt.UString.{Bytes}

pub record EndpointRow : Type 0 where
  pub endpoint : ℕ
  pub extnbr : ℤ
  pub label : String
  pub agent : String
  pub devkey : Bytes
  pub lastaccess : ℕ
  pub lasturi : String
  pub created : String

pub record ExtensionRow : Type 0 where
  pub extnbr : ℤ
  pub authname : String
  pub display : String
  pub extpriority : ℤ
  pub pubkey : Bytes

pub record AuthorizeRow : Type 0 where
  pub authname : String
  pub authtype : String
  pub authaccess : String
  pub authdigest : String
  pub realm : String
  pub secret : String
  pub fullname : String
  pub email : String
  pub fwdaway : ℤ
  pub fwdbusy : ℤ
  pub fwdnoanswer : ℤ
  pub created : String

pub record AdminRow : Type 0 where
  pub authname : String
  pub extnbr : ℤ

pub record GroupRow : Type 0 where
  pub grpnbr : ℤ
  pub extnbr : ℤ
  pub extpriority : ℤ

pub record CallingRow : Type 0 where
  pub authname : String
  pub extnbr : ℤ
  pub extpriority : ℤ

pub record MessageRow : Type 0 where
  pub mid : ℕ
  pub msgseq : ℤ
  pub msgfrom : String
  pub msgto : String
  pub subject : String
  pub display : String
  pub posted : ℕ
  pub expires : ℕ
  pub msgtype : String
  pub msgtext : String

pub record OutboxRow : Type 0 where
  pub mid : ℕ
  pub endpoint : ℕ
  pub msgstatus : ℤ

pub record DeleteRow : Type 0 where
  pub authname : String
  pub delstatus : ℤ
  pub endpoint : ℕ
  pub created : String

pub record SpeedRow : Type 0 where
  pub authname : String
  pub target : String
  pub extnbr : ℤ

-- `next_mid` and `next_endpoint` are the counters of AUTOINCREMENT, and `now` is what CURRENT_TIMESTAMP
-- puts into a new row, as a text.
pub record Tables : Type 0 where
  pub endpoints : List EndpointRow
  pub extensions : List ExtensionRow
  pub authorize : List AuthorizeRow
  pub admin : List AdminRow
  pub groups : List GroupRow
  pub calling : List CallingRow
  pub speeds : List SpeedRow
  pub messages : List MessageRow
  pub outboxes : List OutboxRow
  pub deletes : List DeleteRow
  pub next_mid : ℕ
  pub next_endpoint : ℕ
  pub now : String

-- The database as a handler meets it. `faults` says of the statements to come, in their order,
-- which have no result although they are tried again (`attempt` is then `none`); all do after its end.
pub record Db : Type 0 where
  pub tables : Tables
  pub faults : List Bool

abbrev pub healthy : Tables → Db
healthy t = record { tables = t; faults = [] }

unfoldable pub is_faulty : List Bool → Bool
is_faulty [] = false
is_faulty (b ∷ bs) = b

unfoldable pub later : List Bool → List Bool
later [] = []
later (b ∷ bs) = bs

-- getRecords: after a fault the query is not active and gives no record.
unfoldable pub select : {Row : Type 0} → (Tables → List Row) → Db → Db × List Row
unfolding is_faulty later
select q d = (
  record { tables = d.tables; faults = later d.faults },
  if is_faulty d.faults then [] else q d.tables,
)

abbrev pub first : {Row : Type 0} → List Row → Option Row
first [] = none
first (row ∷ rows) = some row

-- getRecord: `none` is a record without fields.
unfoldable pub select_one : {Row : Type 0} → (Tables → List Row) → Db → Db × Option Row
unfolding select
select_one q d = let (d', rows) = select q d in (d', first rows)

-- runQuery, whose result the handlers do not look at.
unfoldable pub run : (Tables → Tables) → Db → Db
unfolding is_faulty later
run u d = record {
  tables = if is_faulty d.faults then d.tables else u d.tables;
  faults = later d.faults;
}

abbrev pub is_empty {ℓ} : {A : Type ℓ} → List A → Bool
is_empty [] = true
is_empty (x ∷ xs) = false

-- UPDATE ... WHERE
unfoldable pub update {ℓ} : {Row : Type ℓ} → (Row → Bool) → (Row → Row) → List Row → List Row
update where_ set [] = []
update where_ set (row ∷ rows) =
    let rest = update where_ set rows in if where_ row then set row ∷ rest else row ∷ rest

-- DELETE ... WHERE
unfoldable pub delete {ℓ} : {Row : Type ℓ} → (Row → Bool) → List Row → List Row
delete where_ rows = keep (λ row. not (where_ row)) rows

-- INSERT INTO, with the test that a row has the new row's primary key.
unfoldable pub insert_row {ℓ} : {Row : Type ℓ} → (Row → Bool) → Row → List Row → List Row
insert_row same_key row rows = if is_empty (keep same_key rows) then rows ++ row ∷ [] else rows

-- PRIMARY KEY (endpoint, mid)
unfoldable pub insert_outbox : OutboxRow → Tables → Tables
unfolding insert_row
insert_outbox row t = record t {
  outboxes = insert_row (λ o. eqb o.endpoint row.endpoint && eqb o.mid row.mid) row t.outboxes;
}

-- PRIMARY KEY (grpnbr, extnbr)
unfoldable pub insert_group : ℤ → ℤ → Tables → Tables
unfolding insert_row
insert_group grpnbr extnbr t = record t {
  groups =
      insert_row (λ g. eqb_ℤ g.grpnbr grpnbr && eqb_ℤ g.extnbr extnbr)
        (record { grpnbr = grpnbr; extnbr = extnbr; extpriority = pos 0 }) t.groups;
}

-- PRIMARY KEY (authname)
unfoldable pub insert_authorize : AuthorizeRow → Tables → Tables
unfolding insert_row
insert_authorize row t = record t {
  authorize = insert_row (λ a. a.authname == row.authname) row t.authorize;
}

-- PRIMARY KEY (extnbr)
unfoldable pub insert_extension : ℤ → String → Tables → Tables
unfolding insert_row
insert_extension extnbr authname t = record t {
  extensions =
      insert_row (λ e. eqb_ℤ e.extnbr extnbr)
        (record {
          extnbr = extnbr;
          authname = authname;
          display = "";
          extpriority = pos 0;
          pubkey = [];
        })
        t.extensions;
}

-- UNIQUE (extnbr, label), with the label's default.
unfoldable pub insert_endpoint : ℤ → Tables → Tables
unfolding insert_row
insert_endpoint extnbr t = record t {
  endpoints =
      insert_row (λ e. eqb_ℤ e.extnbr extnbr && e.label == "NONE")
        (record {
          endpoint = t.next_endpoint;
          extnbr = extnbr;
          label = "NONE";
          agent = "";
          devkey = [];
          lastaccess = 0;
          lasturi = "";
          created = t.now;
        })
        t.endpoints;
  next_endpoint = suc t.next_endpoint;
}

unfoldable pub insert_admin : String → ℤ → Tables → Tables
insert_admin authname extnbr t = record t {
  admin = t.admin ++ record { authname = authname; extnbr = extnbr } ∷ [];
}

-- INSERT INTO Messages: the row's `mid` is the counter, and `lastInsertId` gives it.
unfoldable pub insert_message : MessageRow → Db → Db × Option ℕ
unfolding is_faulty later run
insert_message row d = (
  run
      (λ t. record t {
        messages = t.messages ++ record row { mid = t.next_mid } ∷ [];
        next_mid = suc t.next_mid;
      })
      d,
  if is_faulty d.faults then none else some d.tables.next_mid,
)
