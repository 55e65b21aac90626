-- ===== src/Util/Clock.antt =====
-- The clock functions: midnight, timer intervals, and the order of timestamp keys.
use native.Mathlib.Nat.{div-add-mod}
use tycho_sipwitchqt.Prelude.{ℕ, ◌+◌, ◌-◌, ◌*◌, ◌/◌, ◌%◌, ◌^◌, ◌≤◌, ◌<◌, ◌≡◌, ◌↔◌, ◌⊎◌, arith}
use tycho_sipwitchqt.Prelude.Int.{pos}
use tycho_sipwitchqt.Util.{
  When, local_secs, local_msecs, current_day, until_tomorrow, until_interval, timestamp_key,
}

-- The same clock some seconds later.
abbrev pub later : When → ℕ → When
later w secs = record w { msecs = w.msecs + secs * 1000 }

later-local_secs :
    (w : When) (s n : ℕ) → local_secs w ≡ pos s → local_secs (later w n) ≡ pos (s + n)
later-local_secs w s n e = ground arith

until_tomorrow-eq : (w : When) (s : ℕ) → local_secs w ≡ pos s → until_tomorrow w + s % 86400 ≡ 86400
unfolding until_tomorrow
until_tomorrow-eq w s e = rw e (ground arith)

current_day-eq : (w : When) (s : ℕ) → local_secs w ≡ pos s → current_day w ≡ s / 86400 % 2 ^ 32
unfolding current_day
current_day-eq w s e = rw e (ground arith)

-- From a local time that is not before 1970, `untilTomorrow` is from 1 to 86400 seconds; after that
-- many seconds `currentDay` is one more (modulo 2^32), and after any fewer it has not changed.
pub current_day-until_tomorrow :
    (w : When) (s n : ℕ)
    → local_secs w ≡ pos s
    → n < until_tomorrow w
    → (0 < until_tomorrow w)
      × (until_tomorrow w ≤ 86400)
      × (current_day (later w (until_tomorrow w)) ≡ (current_day w + 1) % 2 ^ 32)
      × (current_day (later w n) ≡ current_day w)
current_day-until_tomorrow w s n e h =
    let u : until_tomorrow w + s % 86400 ≡ 86400 = until_tomorrow-eq w s e in
    let d : current_day w ≡ s / 86400 % 2 ^ 32 = current_day-eq w s e in
    let d' : current_day (later w n) ≡ (s + n) / 86400 % 2 ^ 32 =
      current_day-eq (later w n) (s + n) (later-local_secs w s n e) in
    let d'' : current_day (later w (until_tomorrow w)) ≡ (s + until_tomorrow w) / 86400 % 2 ^ 32 =
      current_day-eq (later w (until_tomorrow w)) _ (later-local_secs w s (until_tomorrow w) e) in
    (omega arith, omega arith, omega arith, omega arith)

until_interval-eq :
    (interval : ℕ) (w : When) (m : ℕ)
    → 0 < interval
    → local_msecs w ≡ pos m
    → (r : ℕ) × (until_interval interval w ≡ pos r) × (r + m % interval ≡ interval)
unfolding until_interval
until_interval-eq interval w m h e = rw e (interval - m % interval, ground arith, omega arith)

-- For a positive interval and a local time that is not before 1970, `untilInterval` is from 1 to the
-- interval, and it ends at the next multiple of the interval.
pub until_interval_lem :
    (interval : ℕ) (w : When) (m : ℕ)
    → 0 < interval
    → local_msecs w ≡ pos m
    → (r : ℕ) × (until_interval interval w ≡ pos r)
      × (0 < r)
      × (r ≤ interval)
      × (m + r ≡ interval * (m / interval + 1))
until_interval_lem interval w m h e =
    let (r, p, q) = until_interval-eq interval w m h e in
    (r, p, omega arith, omega arith, omega (arith, div-add-mod m interval))

-- Keys are ordered by the second and then by the sequence number modulo 10000, and are equal only
-- where both are: within a second, 10000 sequence numbers have keys of their own.
pub timestamp_key-order :
    (v w : When) (i j : ℕ)
    → (timestamp_key v i < timestamp_key w j) ↔ (
        (v.msecs / 1000 < w.msecs / 1000)
        ⊎ ((v.msecs / 1000 ≡ w.msecs / 1000) × (i % 10000 < j % 10000)))
unfolding timestamp_key
timestamp_key-order v w i j = (λ h. grind arith, λ h. grind arith)
