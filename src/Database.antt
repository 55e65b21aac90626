-- ===== src/Database.antt =====
-- Database/database.cpp: the connection to the SQL engine, and the loops that try a query again after a
-- reconnect; and the engine's choices by driver name, Database/sqldriver.cpp. Qt's SQL module is the
-- parameter `engine`, whose state `W` is all that a query or a connection can change; `R` is the
-- outcome of a query that was executed.
pub mod Wiring
pub mod Outbox
pub mod Accounts
pub mod Office
pub mod Profile
pub mod Admin
pub mod Groups
pub mod Answers
pub mod Guards
pub mod Access
pub mod Operators
pub mod Members
pub mod Suspend
pub mod Recursion
pub mod Runs
pub mod Roster
pub mod Removal
pub mod Retry
pub mod Tables
pub mod Tests
use tycho_sipwitchqt.Prelude.{
  ℕ, zero, suc, String, ◌==◌, Bool, true, false, not, Option, none, some, List, [], ◌∷◌,
  if◌then◌else◌,
}

-- `open_db` says whether the connection is open after it, and `exec` is `none` where `query.exec()` is
-- false. `is_valid` is what `db.isValid()` says of the driver.
pub record Engine (W R : Type 0) : Type 0 where
  pub open_db : W → W × Bool
  pub exec : String → List String → W → W × Option R
  pub is_valid : Bool

-- The connection: `db.isOpen()`, `failed` and whether `dbTimer` runs.
pub record Connection (W : Type 0) : Type 0 where
  pub world : W
  pub is_open : Bool
  pub failed : Bool
  pub timer : Bool

-- Util::dbIsFile and Util::pragmaQuery
unfoldable pub is_file : String → Bool
is_file driver = driver == "QSQLITE"

unfoldable pub pragma_query : String → List String
pragma_query driver =
    if driver == "QSQLITE"
    then "PRAGMA locking_mode = EXCLUSIVE;" ∷ "PRAGMA synchronous = OFF;"
      ∷ "PRAGMA temp_store = MEMORY;" ∷ []
    else []

unfoldable pub close : {W : Type 0} → Connection W → Connection W
close c = record c { is_open = false; failed = false; timer = false }

module _ {W R : Type 0} (engine : Engine W R) (driver : String) where
  -- runQueries(pragmaQuery(dbDriver)) on the connection just opened: only a file has pragmas, and
  -- for a file a query that fails is not tried again.
  unfoldable pub run_pragmas : List String → Connection W → Connection W
  run_pragmas [] c = c
  run_pragmas (q ∷ qs) c =
      let (w, r) = engine.exec q [] c.world in
      let c' = record c { world = w } in elim r [ none ↦ c' | some _ ↦ run_pragmas qs c' ]

  unfoldable pub reopen : Connection W → Connection W × Bool
  unfolding close
  reopen c =
      if c.failed
      then (c, false)
      else if c.is_open
      then (c, true)
      else if not engine.is_valid
      then (record (close c) { failed = true }, false)
      else let (w, opened) = engine.open_db c.world in
        let c' = record (close c) { world = w; is_open = opened } in
        if not opened
        then (c', false)
        else (record (run_pragmas (pragma_query driver) c') { timer = true }, true)

  unfoldable pub latched : Connection W × Bool → Connection W × Bool
  latched (c, result) = (if not result then record c { failed = true } else c, result)

  unfoldable pub resume : Connection W → Connection W × Bool
  unfolding latched close
  resume c =
      if is_file driver
      then (c, false)
      else if c.failed
      then (c, false)
      else latched (reopen (close c))

  -- The loop on `retries`, `n` from its end.
  unfoldable pub perform : ℕ → String → List String → Connection W → Connection W × Option R
  perform zero q parms c = (c, none)
  perform (suc n) q parms c =
      let (w, r) = engine.exec q parms c.world in
      let c' = record c { world = w } in
      let again = perform n q parms (resume c').0 in
      elim r [
        | some rows ↦ (c', some rows)
        | none ↦ if (resume c').1 then again else ((resume c').0, none)
      ]

  unfoldable pub attempt : String → List String → Connection W → Connection W × Option R
  unfolding perform
  attempt q parms c = if (reopen c).1 then perform 3 q parms (reopen c).0 else ((reopen c).0, none)

  abbrev pub succeeded : Option R → Bool
  succeeded none = false
  succeeded (some rows) = true

  unfoldable pub run_query : String → List String → Connection W → Connection W × Bool
  run_query q parms c = let (c', r) = attempt q parms c in (c', succeeded r)

  -- `none` is the invalid QVariant, and the empty QSqlQuery.
  unfoldable pub insert : (R → ℕ) → String → List String → Connection W → Connection W × Option ℕ
  insert last_id q parms c =
      let (c', r) = attempt q parms c in
      (c', elim r [ none ↦ none | some rows ↦ some (last_id rows) ])

  unfoldable pub get_records : String → List String → Connection W → Connection W × Option R
  get_records q parms c = attempt q parms c

  -- `none` is the empty QSqlRecord.
  unfoldable pub get_record :
      {Row : Type 0}
      → (R → List Row)
      → String
      → List String
      → Connection W
      → Connection W × Option Row
  get_record rows_of q parms c =
      let (c', r) = attempt q parms c in
      (
        c',
        elim r [ none ↦ none | some rows ↦ elim (rows_of rows) [ [] ↦ none | row ∷ _ ↦ some row ] ],
      )

  -- runQueries: how many of the queries were performed before one failed.
  unfoldable pub run_queries : List String → Connection W → Connection W × ℕ
  run_queries [] c = (c, 0)
  run_queries (q ∷ qs) c =
      let (c', done) = run_query q [] c in
      let (c'', count) = run_queries qs c' in if not done then (c', 0) else (c'', suc count)
