-- ===== src/Database/Retry.antt =====
-- How often a query is tried, and what a failed connection does to the queries after it.
use tycho_sipwitchqt.Prelude.{
  ℕ, zero, suc, String, ◌≡◌, refl, true, false, Option, none, some, List, [], ◌∷◌, inl, inr, arith,
  Option-cases,
}
use tycho_sipwitchqt.Database.{
  Engine, Connection, is_file, pragma_query, close, run_pragmas, reopen, latched, resume, perform,
  attempt, run_query, succeeded, run_queries,
}

reopen-open :
    {W R : Type 0} (engine : Engine W R) (driver : String) (c : Connection W)
    → c.failed ≡ false
    → c.is_open ≡ true
    → reopen engine driver c ≡ (c, true)
unfolding reopen
reopen-open engine driver c f o = ground arith

module _ {W R : Type 0} (engine : Engine W R) (driver : String) where
  -- A query on an open connection to a file, which has not failed, has the result of one execution.
  pub attempt-file :
      (q : String) (parms : List String) (c : Connection W)
      → is_file driver ≡ true
      → c.failed ≡ false
      → c.is_open ≡ true
      → (attempt engine driver q parms c).1 ≡ (engine.exec q parms c.world).1
  unfolding attempt reopen perform resume
  attempt-file q parms c f g o = elim (Option-cases (engine.exec q parms c.world).1) [
    | inl e ↦ ground (arith)
    | inr (r, e) ↦ ground (arith)
  ]

  -- The result of up to `n` tries against an engine that can always be reached again: each failure
  -- is followed by a new connection.
  abbrev pub tries : ℕ → String → List String → W → Option R
  tries zero q parms w = none
  tries (suc n) q parms w =
      let again = tries n q parms (engine.open_db (engine.exec q parms w).0).0 in
      elim (engine.exec q parms w).1 [ some rows ↦ some rows | none ↦ again ]

  module _ (server : is_file driver ≡ false) (valid : engine.is_valid ≡ true)
      (reachable : (w : W) → (engine.open_db w).1 ≡ true) where
    no_pragmas : pragma_query driver ≡ []
    unfolding is_file pragma_query
    no_pragmas = rw (server, pragma_query) refl

    reopened : (w : W) → Connection W
    reopened w = record {
      world = (engine.open_db w).0;
      is_open = true;
      failed = false;
      timer = true;
    }

    resume-server :
        (c : Connection W) → c.failed ≡ false → resume engine driver c ≡ (reopened c.world, true)
    unfolding resume reopen latched close run_pragmas reopened
    resume-server c f = ground (arith, reachable c.world, no_pragmas)

    perform-tries :
        (n : ℕ) (q : String) (parms : List String) (c : Connection W)
        → c.failed ≡ false
        → (perform engine driver n q parms c).1 ≡ tries n q parms c.world
    unfolding perform reopened
    perform-tries zero q parms c f = refl
    perform-tries (suc n) q parms c f =
        let c' : Connection W = record c { world = (engine.exec q parms c.world).0 } in
        elim (Option-cases (engine.exec q parms c.world).1) [
          | inl e ↦
              ground (arith, resume-server c' f, perform-tries n q parms (reopened c'.world) refl)
          | inr (r, e) ↦ ground arith
        ]

    -- On a server that can always be reached again, a query on an open connection that has not failed
    -- has the result of the first of three tries that is executed, with a new connection between one
    -- try and the next: no flag of the connection stops it earlier.
    pub attempt-tries :
        (q : String) (parms : List String) (c : Connection W)
        → c.failed ≡ false
        → c.is_open ≡ true
        → (attempt engine driver q parms c).1 ≡ tries 3 q parms c.world
    unfolding attempt
    attempt-tries q parms c f o =
        ground (arith, reopen-open engine driver c f o, perform-tries 3 q parms c f)

  -- On an open connection to a server that has not failed: where a query fails and the server cannot
  -- be reached again, the query has no result, and whatever query follows has none either and leaves
  -- the connection and the engine as they are.
  pub attempt-failed :
      (q q' : String) (parms parms' : List String) (c : Connection W)
      → is_file driver ≡ false
      → c.failed ≡ false
      → c.is_open ≡ true
      → (engine.exec q parms c.world).1 ≡ none
      → (engine.open_db (engine.exec q parms c.world).0).1 ≡ false
      → ((attempt engine driver q parms c).1 ≡ none)
        × (attempt engine driver q' parms' (attempt engine driver q parms c).0
            ≡ ((attempt engine driver q parms c).0, none))
  unfolding attempt reopen perform resume latched close
  attempt-failed q q' parms parms' c server f o e down = (ground arith, ground arith)

  run_query-file :
      (q : String) (c : Connection W)
      → is_file driver ≡ true
      → c.failed ≡ false
      → c.is_open ≡ true
      → run_query engine driver q [] c ≡ (
        record c { world = (engine.exec q [] c.world).0 },
        succeeded engine driver (engine.exec q [] c.world).1,
      )
  unfolding run_query attempt perform resume
  run_query-file q c f g o = elim (Option-cases (engine.exec q [] c.world).1) [
    | inl e ↦ ground (arith, reopen-open engine driver c g o)
    | inr (r, e) ↦ ground (arith, reopen-open engine driver c g o)
  ]

  -- For an open connection to a file that has not failed, the queries that opening runs directly leave
  -- the connection as `runQueries` would, each tried once and none after one that fails.
  pub run_queries-run_pragmas :
      (qs : List String) (c : Connection W)
      → is_file driver ≡ true
      → c.failed ≡ false
      → c.is_open ≡ true
      → (run_queries engine driver qs c).0 ≡ run_pragmas engine driver qs c
  unfolding run_queries run_pragmas
  run_queries-run_pragmas [] c f g o = refl
  run_queries-run_pragmas (q ∷ qs) c f g o =
      let c' : Connection W = record c { world = (engine.exec q [] c.world).0 } in
      elim (Option-cases (engine.exec q [] c.world).1) [
        | inl e ↦ ground (arith, run_query-file q c f g o)
        | inr (r, e) ↦ ground (arith, run_query-file q c f g o, run_queries-run_pragmas qs c' f g o)
      ]
