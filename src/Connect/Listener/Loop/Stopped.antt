-- ===== src/Connect/Listener/Loop/Stopped.antt =====
-- How Listener::run of Connect/listener.cpp ends after it was stopped: the last REGISTER and the waits
-- for its answer.
use mathlib.Core.Path.{subst}
use tycho_sipwitchqt.Prelude.{
  ℕ, Bool, true, false, not, ◌&&◌, Option, none, some, List, [], ◌∷◌, ◌++◌, ◌≡◌, refl, sym, ap,
  arith, if◌then◌else◌, inl, inr, All, Bool-cases,
}
use tycho_sipwitchqt.Prelude.Int.{ltb_ℤ, pos}
use tycho_sipwitchqt.Connect.{Foreign}
use tycho_sipwitchqt.Connect.Listener.{Listener, Action, stop, send_registration}
use tycho_sipwitchqt.Connect.Listener.Loop.{
  EventType, registration_success, registration_failure, Event, Built, running, closing, ended,
  Machine, farewell, leave, close, Input, expired, stopped, woke, run_on, step, run_from,
}
use tycho_sipwitchqt.Connect.Listener.Loop.Frame.{count, count-append, is_finished}
use tycho_sipwitchqt.Connect.Listener.Loop.Effect.{num}
use tycho_sipwitchqt.Connect.Listener.Loop.Lifetime.{is_register}

-- The answers to the last REGISTER.
abbrev pub is_end : EventType → Bool
is_end registration_success = true
is_end registration_failure = true
is_end _ = false

-- A wait with another event.
abbrev pub IsWaiting : Input → Type 0
IsWaiting (woke now (some event) built last) = is_end event.type ≡ false
IsWaiting _ = ⊥

-- What ends the closing loop: no event, or an answer to the last REGISTER.
abbrev pub IsLast : Option Event → Type 0
IsLast none = Unit
IsLast (some event) = is_end event.type ≡ true

module _ (f : Foreign) where
  -- What a run of the closing loop ends with.
  abbrev IsOver : Bool → Machine × List Action → Type 0
  IsOver exiting out =
      (out.0.1 ≡ ended)
      × (count is_finished out.1 ≡ num (not exiting))
      × (count (is_register 0) out.1 ≡ 0)

  close-waits :
      (event : Event) (l : Listener)
      → is_end event.type ≡ false
      → close (some event) l ≡ ((l, closing), [])
  unfolding close
  close-waits event l h = ground (arith, h)

  close-ends :
      (final : Option Event) (l : Listener) → IsLast final → IsOver l.exiting_flag (close final l)
  unfolding close
  close-ends none l h = ground arith
  close-ends (some event) l h = ground (arith, h)

  run_from-closing :
      (now : ℕ) (event : Event) (built last : Built) (is : List Input) (l : Listener)
      → is_end event.type ≡ false
      → run_from f (woke now (some event) built last ∷ is) (l, closing) ≡ run_from f is (l, closing)
  unfolding run_from step
  run_from-closing now event built last is l w =
      ap
        (λ (o : Machine × List Action).
          (let (m, sent) = o in let (m', rest) = run_from f is m in (m', sent ++ rest)))
        (close-waits event l w)

  -- The loop that waits for the last answer ends with that answer, or with a wait that runs out.
  closing-run :
      (is : List Input) (now : ℕ) (final : Option Event) (built last : Built) (l : Listener)
      → All IsWaiting is
      → IsLast final
      → IsOver l.exiting_flag (run_from f (is ++ woke now final built last ∷ []) (l, closing))
  unfolding run_from step
  closing-run [] now final built last l a h =
      let (over_so, finishes, registers) = close-ends final l h in
      (
        over_so,
        omega (arith, finishes, count-append is_finished (close final l).1 []),
        omega (arith, registers, count-append (is_register 0) (close final l).1 []),
      )
  closing-run (woke n (some event) b b' ∷ is) now final built last l (w, a) h =
      subst (IsOver l.exiting_flag) (sym (run_from-closing n event b b' _ l w))
        (closing-run is now final built last l a h)
  closing-run (woke n none b b' ∷ is) now final built last l (w, a) h = absurd w
  closing-run (expired ∷ is) now final built last l (w, a) h = absurd w
  closing-run (stopped s ∷ is) now final built last l (w, a) h = absurd w

  ended-run :
      (is : List Input) (now : ℕ) (final : Option Event) (built last : Built) (l : Listener)
      → All IsWaiting is
      → run_from f (is ++ woke now final built last ∷ []) (l, ended) ≡ ((l, ended), [])
  unfolding run_from step
  ended-run [] now final built last l a = refl
  ended-run (woke n event b b' ∷ is) now final built last l (w, a) =
      rw (ended-run is now final built last l a) refl
  ended-run (expired ∷ is) now final built last l (w, a) = absurd w
  ended-run (stopped s ∷ is) now final built last l (w, a) = absurd w

  -- The last REGISTER, and the listener after it.
  abbrev farewell_register : Built → Listener → Listener × List Action
  farewell_register last l = if last.msg then send_registration f false 0 l else (l, [])

  leave-registered :
      (last : Built) (l : Listener)
      → l.registered ≡ true
      → let (l', sent) = farewell_register last l in
        (leave f last l ≡ ((l', closing), sent))
        × (l'.exiting_flag ≡ l.exiting_flag)
        × (count is_finished sent ≡ 0)
        × (count (is_register 0) sent ≡ num (last.msg && not (ltb_ℤ l.rid (pos 0))))
  unfolding leave send_registration
  leave-registered last l reg = ground (arith, reg)

  leave-unregistered :
      (last : Built) (l : Listener)
      → l.registered ≡ false
      → (leave f last l ≡ ((l, ended), farewell l))
        × (count is_finished (farewell l) ≡ num (not l.exiting_flag))
        × (count (is_register 0) (farewell l) ≡ 0)
  unfolding leave
  leave-unregistered last l reg = ground (arith, reg)

  -- From the end of the loop on.
  leave-over :
      (last : Built) (l : Listener) (is : List Input) (now : ℕ) (final : Option Event)
      (built last' : Built)
      → All IsWaiting is
      → IsLast final
      → let (m, sent) = leave f last l in
        let (m', rest) = run_from f (is ++ woke now final built last' ∷ []) m in
        (m'.1 ≡ ended)
        × (count is_finished (sent ++ rest) ≡ num (not l.exiting_flag))
        × ((count (is_register 0) (sent ++ rest)
            ≡ num (l.registered && (last.msg && not (ltb_ℤ l.rid (pos 0))))))
  leave-over last l is now final built last' a h = elim (Bool-cases l.registered) [
    | inl reg ↦
        let (e, exiting, finishes, registers) = leave-registered last l reg in
        let (l', sent) = farewell_register last l in
        let rest = run_from f (is ++ woke now final built last' ∷ []) (l', closing) in
        let (over_so, finished_so, registers') = closing-run is now final built last' l' a h in
        rw e (
          over_so,
          ground (arith, exiting, finishes, finished_so, count-append is_finished sent rest.1),
          ground (arith, reg, registers, registers', count-append (is_register 0) sent rest.1),
        )
    | inr reg ↦
        let (e, finishes, registers) = leave-unregistered last l reg in
        let bye = farewell l in
        rw e (
          rw (ended-run is now final built last' l a) (
            refl,
            omega (arith, finishes, count-append is_finished bye []),
            ground (arith, reg, registers, count-append (is_register 0) bye []),
          ))
  ]

  -- A client that is stopped, and then has any number of waits with other events and one wait with the
  -- answer to its last REGISTER or with none, is at its end, and says once that it has finished unless the
  -- program ends. Exactly where it is registered, has an id and eXosip builds the message, it has sent one
  -- REGISTER with no time to live.
  pub run_from-stopped :
      (shutdown : Bool) (now now' : ℕ) (event final : Option Event)
      (built last built' last' : Built) (is : List Input) (l : Listener)
      → All IsWaiting is
      → IsLast final
      → let (m, sent) =
          run_from f
            (stopped shutdown
              ∷ woke now event built last
              ∷ (is ++ woke now' final built' last' ∷ []))
            (l, running) in
        (m.1 ≡ ended)
        × (count is_finished sent ≡ num (not shutdown))
        × ((count (is_register 0) sent
            ≡ num (l.registered && (last.msg && not (ltb_ℤ l.rid (pos 0))))))
  unfolding run_from step stop run_on
  run_from-stopped shutdown now now' event final built last built' last' is l a h =
      leave-over last (record l { exiting_flag = shutdown; active = false }) is now' final built'
        last' a h
