-- ===== src/Request/Once.antt =====
-- A request signals the first of its results and its timeout, and nothing after that.
use tycho_sipwitchqt.Prelude.{true, false, List, [], ◌∷◌, ◌≡◌, refl, arith}
use tycho_sipwitchqt.Request.{
  timeout, system, request_success, request_failed, unknown, Results, Input, fires, posted, asks,
  Request, time_out, answer, results_of, event, cancelled, step, run,
}

module _ {R : Type 0} where
  -- The first input that decides: the timer, or an event that is not one of Qt's own.
  abbrev pub first_answer : List (Input R) → List (Results R)
  first_answer [] = []
  first_answer (fires ∷ is) = record { error = timeout; records = [] } ∷ []
  first_answer (asks ∷ is) = first_answer is
  first_answer (posted system e rs ∷ is) = first_answer is
  first_answer (posted request_success e rs ∷ is) = record { error = e; records = rs } ∷ []
  first_answer (posted request_failed e rs ∷ is) = record { error = e; records = [] } ∷ []
  first_answer (posted unknown e rs ∷ is) = []

  run-signalled : (is : List (Input R)) (q : Request) → q.signalled ≡ true → run is q ≡ []
  unfolding run step time_out event answer cancelled
  run-signalled [] q s = refl
  run-signalled (fires ∷ is) q s = ground (arith, run-signalled is q s)
  run-signalled (asks ∷ is) q s = ground (arith, run-signalled is (cancelled q) (ground arith))
  run-signalled (posted system e rs ∷ is) q s = run-signalled is q s
  run-signalled (posted request_success e rs ∷ is) q s =
      ground (arith, run-signalled is (record { signalled = true; deleted = true }) refl)
  run-signalled (posted request_failed e rs ∷ is) q s =
      ground (arith, run-signalled is (record { signalled = true; deleted = true }) refl)
  run-signalled (posted unknown e rs ∷ is) q s =
      ground (arith, run-signalled is (record { signalled = true; deleted = true }) refl)

  -- Whatever happens to a request that has not signalled, in any order and however often, it signals exactly
  -- the first that decides: the timeout, a result of the database, or nothing for an event of another type.
  pub run-first_answer :
      (is : List (Input R)) (q : Request) → q.signalled ≡ false → run is q ≡ first_answer is
  unfolding run step time_out event answer results_of cancelled
  run-first_answer [] q s = refl
  run-first_answer (fires ∷ is) q s =
      ground (arith, run-signalled is (record q { signalled = true }) refl)
  run-first_answer (asks ∷ is) q s = ground (arith, run-first_answer is q s)
  run-first_answer (posted system e rs ∷ is) q s = run-first_answer is q s
  run-first_answer (posted request_success e rs ∷ is) q s =
      ground (arith, run-signalled is (record { signalled = true; deleted = true }) refl)
  run-first_answer (posted request_failed e rs ∷ is) q s =
      ground (arith, run-signalled is (record { signalled = true; deleted = true }) refl)
  run-first_answer (posted unknown e rs ∷ is) q s =
      ground (arith, run-signalled is (record { signalled = true; deleted = true }) refl)
