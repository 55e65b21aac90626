-- ===== src/Connect/Listener/Loop/Lifetime.antt =====
-- Whole runs of Listener::run of Connect/listener.cpp, with the slots that run between its waits.
use tycho_sipwitchqt.Prelude.{
  ℕ, ◌+◌, ◌≤◌, Bool, true, false, ◌&&◌, Option, none, some, List, [], ◌∷◌, ◌++◌, eqb, ◌≡◌, arith,
  if◌then◌else◌, either,
}
use native.Mathlib.Nat.{add_assoc}
use tycho_sipwitchqt.Connect.{Foreign, Creds}
use tycho_sipwitchqt.Connect.Listener.{
  Listener, listener, Action, register, timeout, stop, send_registration,
}
use tycho_sipwitchqt.Connect.Listener.Loop.{
  Event, Built, turn, Phase, running, closing, ended, Machine, leave, close, Input, expired,
  stopped, woke, run_on, step, run_from, run,
}
use tycho_sipwitchqt.Connect.Listener.Loop.Frame.{
  count, count-append, is_info, is_finished, is_failure,
}
use tycho_sipwitchqt.Connect.Listener.Loop.Effect.{num, num-le_one, turn-Effect, turn-quiet}

abbrev expiry : Input → ℕ
expiry expired = 1
expiry _ = 0

-- The times that the timer of the constructor runs out.
abbrev pub expiries : List Input → ℕ
expiries [] = 0
expiries (i ∷ is) = expiry i + expiries is

-- How many failures can still be told.
abbrev bound : Bool → Bool → ℕ → ℕ
bound active connected e = if connected then num active else if active && eqb e 0 then 1 else e

abbrev pub over : Phase → ℕ
over ended = 1
over _ = 0

abbrev pub is_register : ℕ → Action → Bool
is_register expires (register r) = eqb r.expires expires
is_register expires _ = false

-- From one state of the machine to another, with what was sent, where the timer ran out `spent` times
-- and may run out `left` times more.
record Passes (m : Machine) (spent : ℕ) (out : Machine × List Action) : Type 0 where
  infos : count is_info out.1 + num m.0.authenticated ≡ num out.0.0.authenticated
  finishes : count is_finished out.1 + over m.1 ≤ over out.0.1
  failures :
      (left : ℕ)
      → count is_failure out.1 + bound out.0.0.active out.0.0.connected left
        ≤ bound m.0.active m.0.connected (spent + left)

Passes-append :
    {m m' m'' : Machine} {a b : ℕ} (s t : List Action)
    → Passes m a (m', s)
    → Passes m' b (m'', t)
    → Passes m (a + b) (m'', s ++ t)
Passes-append {a = a} {b = b} s t p q = record {
  infos = omega (arith, p, q, count-append is_info s t);
  finishes = omega (arith, p, q, count-append is_finished s t);
  failures = λ left.
      rw (add_assoc a b left)
        (omega (arith, p.failures (b + left), q.failures left, count-append is_failure s t));
}

bound-le_one : (e : ℕ) → e ≤ 1 → bound true false e ≤ 1
bound-le_one e h = ground arith

module _ (f : Foreign) where
  leave-Passes : (last : Built) (l : Listener) → Passes (l, running) 0 (leave f last l)
  unfolding leave send_registration
  leave-Passes last l = record {
    infos = ground arith;
    finishes = ground arith;
    failures = λ left. ground arith;
  }

  close-Passes : (event : Option Event) (l : Listener) → Passes (l, closing) 0 (close event l)
  unfolding close
  close-Passes none l = record {
    infos = ground arith;
    finishes = ground arith;
    failures = λ left. ground arith;
  }
  close-Passes (some event) l = record {
    infos = ground arith;
    finishes = ground arith;
    failures = λ left. ground arith;
  }

  slot-Passes : (phase : Phase) (l : Listener) → Passes (l, phase) 1 (step f expired (l, phase))
  unfolding step timeout
  slot-Passes phase l = record {
    infos = ground arith;
    finishes = ground arith;
    failures = λ left. ground arith;
  }

  stop-Passes :
      (s : Bool) (phase : Phase) (l : Listener)
      → Passes (l, phase) 0 (step f (stopped s) (l, phase))
  unfolding step stop
  stop-Passes s phase l = record {
    infos = ground arith;
    finishes = ground arith;
    failures = λ left. ground arith;
  }

  turn-Passes :
      (now : ℕ) (event : Option Event) (built : Built) (l : Listener)
      → l.active ≡ true
      → let out = turn f now event built l in Passes (l, running) 0 ((out.0, running), out.1)
  turn-Passes now none built l on =
      let e = turn-Effect f now none built l in
      record {
        infos = e.infos;
        finishes = omega (arith, e);
        failures = λ left. ground (arith, on, e.connected, turn-quiet f now built l);
      }
  turn-Passes now (some event) built l on =
      let e = turn-Effect f now (some event) built l in
      record {
        infos = e.infos;
        finishes = omega (arith, e);
        failures = λ left. ground (arith, on, e.connected, e.failures);
      }

  run_on-Passes :
      (now : ℕ) (event : Option Event) (built last : Built) (l : Listener)
      → Passes (l, running) 0 (run_on f now event built last l)
  unfolding run_on
  run_on-Passes now event built last l =
      let out = turn f now event built l in
      let P : Machine × List Action → Type 0 = λ o. Passes (l, running) 0 o in
      let before = λ (on : l.active ≡ true). turn-Passes now event built l on in
      either P l.active _ _
        (λ on.
          either P out.0.active _ _ (λ _. before on)
            λ _. Passes-append out.1 _ (before on) (leave-Passes last out.0))
        (λ _. leave-Passes last l)

  step-Passes : (i : Input) (m : Machine) → Passes m (expiry i) (step f i m)
  unfolding step
  step-Passes expired (l, phase) = slot-Passes phase l
  step-Passes (stopped s) (l, phase) = stop-Passes s phase l
  step-Passes (woke now event built last) (l, running) = run_on-Passes now event built last l
  step-Passes (woke now event built last) (l, closing) = close-Passes event l
  step-Passes (woke now event built last) (l, ended) = record {
    infos = omega arith;
    finishes = omega arith;
    failures = λ left. ground arith;
  }

  run_from-Passes : (is : List Input) (m : Machine) → Passes m (expiries is) (run_from f is m)
  unfolding run_from
  run_from-Passes [] m = record {
    infos = omega arith;
    finishes = omega arith;
    failures = λ left. ground arith;
  }
  run_from-Passes (i ∷ is) m =
      Passes-append (step f i m).1 _ (step-Passes i m) (run_from-Passes is (step f i m).0)

  -- Whatever eXosip's events are, and in whatever order the slots run: a client whose timer runs out at
  -- most once adds its credentials at most once, tells at most one failure, and says at most once that
  -- it has finished, and that only where it is at its end.
  pub run-once :
      (cred : Creds) (secure : Bool) (sequence : ℕ) (exiting : Bool) (is : List Input)
      → expiries is ≤ 1
      → let (m, sent) = run f is (listener cred secure sequence exiting) in
        (count is_info sent ≤ 1) × (count is_failure sent ≤ 1) × (count is_finished sent ≤ over m.1)
  unfolding run listener
  run-once cred secure sequence exiting is h =
      let l = listener cred secure sequence exiting in
      let p = run_from-Passes is (l, running) in
      let m = (run_from f is (l, running)).0 in
      (
        omega (arith, p.infos, num-le_one m.0.authenticated),
        omega (arith, p.failures 0, bound-le_one (expiries is + 0) (omega (arith, h))),
        omega (arith, p.finishes),
      )
