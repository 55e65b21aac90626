-- ===== src/Request.antt =====
-- Database/request.cpp: a request to the database that a SIP event waits for. What can happen to the object
-- is an `Input`: its timer fires, an event is posted to it, or the database asks `cancelled`. `R` is the
-- type of a QSqlRecord.
pub mod Once
pub mod Tests
use tycho_sipwitchqt.Prelude.{ℕ, Bool, true, false, List, [], ◌∷◌, ◌++◌, if◌then◌else◌}
use tycho_sipwitchqt.Prelude.Int.{ℤ, pos, negsuc, ◌+ℤ◌, ltb_ℤ}
use tycho_sipwitchqt.Util.{negate}

pub data ErrorResult : Type 0 where
  success timeout db_failed not_found partial invalid immediate : ErrorResult

-- The type of a posted event: one of Qt's own, one of the two that the database posts, or another.
pub data Kind : Type 0 where
  system request_success request_failed unknown : Kind

pub record Results (R : Type 0) : Type 0 where
  pub error : ErrorResult
  pub records : List R

pub data Input (R : Type 0) : Type 0 where
  fires : Input R
  posted : Kind → ErrorResult → List R → Input R
  asks : Input R

-- `signalled`, and whether `deleteLater` was called.
pub record Request : Type 0 where
  pub signalled : Bool
  pub deleted : Bool

-- cancelled(), without its result.
unfoldable pub cancelled : Request → Request
cancelled q = if q.signalled then record q { deleted = true } else q

-- `expires`, of which `elapsed` has passed since the event, and the delay of the first constructor's timer.
abbrev left_over : ℤ → ℤ → ℤ
left_over expires elapsed = expires +ℤ negate (elapsed +ℤ negsuc 19)

unfoldable pub delay_of : ℤ → ℤ → ℤ
delay_of expires elapsed =
    let left = left_over expires elapsed in if ltb_ℤ left (pos 10) then pos 10 else left

module _ {R : Type 0} where
  unfoldable pub time_out : Request → Request × List (Results R)
  time_out q =
      if q.signalled
      then (q, [])
      else (record q { signalled = true }, record { error = timeout; records = [] } ∷ [])

  -- The signal for the kind of a posted event.
  unfoldable pub results_of : Kind → ErrorResult → List R → List (Results R)
  results_of request_success error records = record { error = error; records = records } ∷ []
  results_of request_failed error records = record { error = error; records = [] } ∷ []
  results_of system error records = []
  results_of unknown error records = []

  unfoldable pub answer : Kind → ErrorResult → List R → Request → Request × List (Results R)
  unfolding results_of
  answer kind error records q =
      let sent = if q.signalled then [] else results_of kind error records in
      (record { signalled = true; deleted = true }, sent)

  -- event(evt)
  unfoldable pub event : Kind → ErrorResult → List R → Request → Request × List (Results R)
  unfolding answer
  event system error records q = (q, [])
  event request_success error records q = answer request_success error records q
  event request_failed error records q = answer request_failed error records q
  event unknown error records q = answer unknown error records q

  unfoldable pub step : Input R → Request → Request × List (Results R)
  unfolding time_out event cancelled
  step fires q = time_out q
  step (posted kind error records) q = event kind error records q
  step asks q = (cancelled q, [])

  unfoldable pub run : List (Input R) → Request → List (Results R)
  unfolding step
  run [] q = []
  run (i ∷ is) q = let (q', sent) = step i q in sent ++ run is q'

  -- The second constructor: an immediate timeout, or a timer.
  unfoldable pub connect : ℤ → ℤ → Request × List (Results R)
  unfolding time_out
  connect expires elapsed =
      let fresh : Request = record { signalled = false; deleted = false } in
      if ltb_ℤ (left_over expires elapsed) (pos 10) then time_out fresh else (fresh, [])
