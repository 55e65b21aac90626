-- ===== src/Database/Tests.antt =====
-- Runs and instances for Database/database.cpp: an engine that fails as many queries as its state says.
use tycho_sipwitchqt.Prelude.{
  ℕ, zero, suc, String, Bool, ◌≡◌, refl, true, false, none, some, Option, List, [],
}
use tycho_sipwitchqt.Database.{Engine, Connection, attempt, is_file}
use tycho_sipwitchqt.Database.Recursion.{attempt_on, attempt_on-attempt}
use tycho_sipwitchqt.Database.Retry.{tries, attempt-tries}

abbrev flaky : Bool → Engine ℕ String
flaky up = record { open_db = λ w. (w, up); exec = run; is_valid = true }
  where
    run : String → List String → ℕ → ℕ × Option String
    run q parms zero = (0, some q)
    run q parms (suc w) = (w, none)

abbrev at : ℕ → Connection ℕ
at w = record { world = w; is_open = true; failed = false; timer = true }

-- The third try has a result, a fourth would not be made.
attempt-tries_example : (attempt (flaky true) "QMYSQL" "q" [] (at 2)).1 ≡ some "q"
unfolding is_file
attempt-tries_example =
    attempt-tries (flaky true) "QMYSQL" refl refl (λ w. refl) "q" [] (at 2) refl refl

attempt-tries_gives_up : tries (flaky true) "QMYSQL" 3 "q" [] 3 ≡ none
attempt-tries_gives_up = refl

attempt_on-attempt_example :
    attempt_on (flaky true) "QSQLITE" 2 "q" [] (at 1)
    ≡ some (attempt (flaky true) "QSQLITE" "q" [] (at 1))
attempt_on-attempt_example = attempt_on-attempt (flaky true) "QSQLITE" 0 "q" [] (at 1)
