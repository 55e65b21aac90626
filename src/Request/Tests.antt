-- ===== src/Request/Tests.antt =====
-- Runs and instances for Database/request.cpp.
use tycho_sipwitchqt.Prelude.{ℕ, false, List, [], ◌∷◌, ◌≡◌, refl}
use tycho_sipwitchqt.Request.{success, timeout, request_success, Input, fires, posted, asks, run}
use tycho_sipwitchqt.Request.Once.{run-first_answer}

abbrev late : List (Input ℕ)
late = asks ∷ fires ∷ posted request_success success (1 ∷ []) ∷ fires ∷ []

run-first_answer_example :
    run late (record { signalled = false; deleted = false })
    ≡ record { error = timeout; records = [] } ∷ []
run-first_answer_example =
    run-first_answer late (record { signalled = false; deleted = false }) refl
