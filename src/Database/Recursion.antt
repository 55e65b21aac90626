-- ===== src/Database/Recursion.antt =====
-- The connection of Database/database.cpp as the source calls it: `reopen` runs the pragmas by
-- `runQueries`, each query calls `reopen` first and `resume` where it fails, and `resume` calls
-- `reopen`. Fuel counts the calls of `reopen` within each other.
use tycho_sipwitchqt.Prelude.{
  ℕ, zero, suc, String, Bool, true, false, not, Option, none, some, List, [], ◌∷◌, ◌≡◌, inl, inr,
  refl, arith, if◌then◌else◌, Option-cases, Bool-cases,
}
use tycho_sipwitchqt.Database.{
  Engine, Connection, is_file, pragma_query, close, run_pragmas, reopen, latched, resume, perform,
  attempt, succeeded,
}

module _ {W R : Type 0} (engine : Engine W R) (driver : String) where
  abbrev pub Reopen : Type 0
  Reopen = Connection W → Option (Connection W × Bool)

  module _ (again : Reopen) where
    unfoldable pub resume_with : Reopen
    resume_with c =
        if is_file driver
        then some (c, false)
        else if c.failed
        then some (c, false)
        else elim (again (close c)) [ none ↦ none | some x ↦ some (latched engine driver x) ]

    unfoldable pub perform_with :
        ℕ → String → List String → Connection W → Option (Connection W × Option R)
    perform_with zero q parms c = some (c, none)
    perform_with (suc n) q parms c =
        let (w, r) = engine.exec q parms c.world in
        let c' = record c { world = w } in
        elim r [
          | some rows ↦ some (c', some rows)
          | none ↦ elim (resume_with c') [
            | none ↦ none
            | some (c2, ok) ↦ if ok then perform_with n q parms c2 else some (c2, none)
          ]
        ]

    unfoldable pub attempt_with :
        String → List String → Connection W → Option (Connection W × Option R)
    attempt_with q parms c = elim (again c) [
      | none ↦ none
      | some (c1, ok) ↦ if ok then perform_with 3 q parms c1 else some (c1, none)
    ]

    unfoldable pub queries_with : List String → Connection W → Option (Connection W)
    queries_with [] c = some c
    queries_with (q ∷ qs) c = elim (attempt_with q [] c) [
      | none ↦ none
      | some (c', r) ↦
          let rest = queries_with qs c' in if succeeded engine driver r then rest else some c'
    ]

    unfoldable pub reopen_with : Reopen
    reopen_with c =
        if c.failed
        then some (c, false)
        else if c.is_open
        then some (c, true)
        else if not engine.is_valid
        then some (record (close c) { failed = true }, false)
        else (let (w, opened) = engine.open_db c.world in
            let c' : Connection W = record (close c) { world = w; is_open = opened } in
            if not opened then some (c', false) else elim (queries_with (pragma_query driver) c') [
              | none ↦ none
              | some c2 ↦ some (record c2 { timer = true }, true)
            ])

  unfoldable pub reopen_on : ℕ → Reopen
  reopen_on zero c = none
  reopen_on (suc n) c = reopen_with (reopen_on n) c

  -- A query on a connection, at some depth of calls of `reopen`.
  unfoldable pub attempt_on :
      ℕ → String → List String → Connection W → Option (Connection W × Option R)
  attempt_on n q parms c = attempt_with (reopen_on n) q parms c

  reopen_on-open :
      (n : ℕ) (c : Connection W)
      → c.failed ≡ false
      → c.is_open ≡ true
      → reopen_on (suc n) c ≡ some (c, true)
  unfolding reopen_on reopen_with
  reopen_on-open n c f o = ground (arith, f, o)

  attempt_with-file :
      (n : ℕ) (q : String) (c : Connection W)
      → is_file driver ≡ true
      → c.failed ≡ false
      → c.is_open ≡ true
      → attempt_with (reopen_on (suc n)) q [] c
        ≡ some (record c { world = (engine.exec q [] c.world).0 }, (engine.exec q [] c.world).1)
  unfolding attempt_with perform_with resume_with
  attempt_with-file n q c file f o = elim (Option-cases (engine.exec q [] c.world).1) [
    | inl e ↦ ground (arith, reopen_on-open n c f o, file, e)
    | inr (r, e) ↦ ground (arith, reopen_on-open n c f o, file, e)
  ]

  -- For a file, the pragmas are each tried once: nothing of that opens the connection again.
  queries_with-file :
      (n : ℕ) (qs : List String) (c : Connection W)
      → is_file driver ≡ true
      → c.failed ≡ false
      → c.is_open ≡ true
      → queries_with (reopen_on (suc n)) qs c ≡ some (run_pragmas engine driver qs c)
  unfolding queries_with run_pragmas
  queries_with-file n [] c file f o = refl
  queries_with-file n (q ∷ qs) c file f o =
      let c' : Connection W = record c { world = (engine.exec q [] c.world).0 } in
      let rest = queries_with-file n qs c' file f o in
      let tried = attempt_with-file n q c file f o in
      elim (Option-cases (engine.exec q [] c.world).1) [
        | inl e ↦ ground (arith, tried, rest, e)
        | inr (r, e) ↦ ground (arith, tried, rest, e)
      ]

  no_pragmas : is_file driver ≡ false → pragma_query driver ≡ []
  unfolding is_file pragma_query
  no_pragmas f = rw (f, pragma_query) refl

  opened-pragmas :
      (n : ℕ) (c : Connection W)
      → c.failed ≡ false
      → c.is_open ≡ true
      → queries_with (reopen_on (suc n)) (pragma_query driver) c
        ≡ some (run_pragmas engine driver (pragma_query driver) c)
  unfolding queries_with run_pragmas
  opened-pragmas n c f o = elim (Bool-cases (is_file driver)) [
    | inl file ↦ queries_with-file n (pragma_query driver) c file f o
    | inr server ↦ rw (no_pragmas server) refl
  ]

  reopen_with-reopen :
      (n : ℕ) (c : Connection W) → reopen_with (reopen_on (suc n)) c ≡ some (reopen engine driver c)
  unfolding reopen_with reopen close
  reopen_with-reopen n c =
      let c' : Connection W = record (close c) {
        world = (engine.open_db c.world).0;
        is_open = (engine.open_db c.world).1;
      } in
      elim (Bool-cases (engine.open_db c.world).1) [
        | inl o ↦ ground (arith, o, opened-pragmas n c' refl o)
        | inr o ↦ ground (arith, o)
      ]

  reopen_on-reopen :
      (n : ℕ) (c : Connection W) → reopen_on (suc (suc n)) c ≡ some (reopen engine driver c)
  unfolding reopen_on
  reopen_on-reopen n c = reopen_with-reopen n c

  resume_with-resume :
      (n : ℕ) (c : Connection W)
      → resume_with (reopen_on (suc (suc n))) c ≡ some (resume engine driver c)
  unfolding resume_with resume
  resume_with-resume n c = ground (arith, reopen_on-reopen n (close c))

  perform_with-perform :
      (n k : ℕ) (q : String) (parms : List String) (c : Connection W)
      → perform_with (reopen_on (suc (suc n))) k q parms c
        ≡ some (perform engine driver k q parms c)
  unfolding perform_with perform
  perform_with-perform n zero q parms c = refl
  perform_with-perform n (suc k) q parms c =
      let c' : Connection W = record c { world = (engine.exec q parms c.world).0 } in
      let resumed = resume_with-resume n c' in
      let rest = perform_with-perform n k q parms (resume engine driver c').0 in
      elim (Option-cases (engine.exec q parms c.world).1) [
        | inl e ↦ ground (arith, resumed, rest, e)
        | inr (r, e) ↦ ground (arith, e)
      ]

  -- Whatever the engine does: two calls of `reopen` within each other are all that a query ever makes,
  -- so that every query comes to an end; and it ends as the loop that runs the pragmas directly.
  pub attempt_on-attempt :
      (n : ℕ) (q : String) (parms : List String) (c : Connection W)
      → attempt_on (suc (suc n)) q parms c ≡ some (attempt engine driver q parms c)
  unfolding attempt_on attempt_with attempt
  attempt_on-attempt n q parms c =
      ground
        (arith, reopen_on-reopen n c, perform_with-perform n 3 q parms (reopen engine driver c).0)
