-- ===== src/Connect/Listener/Loop/Effect.antt =====
-- What one turn of Listener::run of Connect/listener.cpp sends, counted, and what becomes of the flags.
use tycho_sipwitchqt.Prelude.{
  ℕ, ◌+◌, ◌≤◌, Bool, true, false, not, Option, none, some, List, [], ◌∷◌, ◌++◌, eqb, ◌≡◌, refl,
  arith, if◌then◌else◌,
}
use tycho_sipwitchqt.UString.{Bytes}
use tycho_sipwitchqt.Connect.{Foreign}
use tycho_sipwitchqt.Connect.Listener.{
  Listener, Response, Action, emit, automatic_action, default_action, authorize, addressed,
  send_registration, get_authentication, add_authentication, told_user, challenged,
}
use tycho_sipwitchqt.Connect.Listener.Receive.{Incoming, receive_message}
use tycho_sipwitchqt.Connect.Listener.Loop.{
  EventType, registration_success, registration_failure, message_requestfailure, message_new, other,
  Event, Built, idle, read_body, status_change, succeeded, failed, dispatch, follow_up, attend,
  turn,
}
use tycho_sipwitchqt.Connect.Listener.Loop.Frame.{
  count, count-append, is_info, is_finished, is_failure, is_answer, Kept, IsQuiet, read_body-Kept,
  read_body-count,
}

abbrev pub num : Bool → ℕ
num true = 1
num false = 0

pub num-le_one : (b : Bool) → num b ≤ 1
num-le_one true = omega arith
num-le_one false = omega arith

pub record Effect (l : Listener) (answers : ℕ) (out : Listener × List Action) : Type 0 where
  pub infos : count is_info out.1 + num l.authenticated ≡ num out.0.authenticated
  pub failures : count is_failure out.1 + num out.0.active ≤ 1
  pub finishes : count is_finished out.1 ≡ 0
  pub answered : count is_answer out.1 ≡ answers
  pub connected : out.0.connected ≡ l.connected
  pub exiting : out.0.exiting_flag ≡ l.exiting_flag

-- The answers that an event calls for.
abbrev pub answers_for : EventType → ℕ
answers_for message_new = 1
answers_for _ = 0

abbrev pub answers_to : Option Event → ℕ
answers_to none = 0
answers_to (some event) = answers_for event.type

info-IsQuiet : IsQuiet is_info
info-IsQuiet = record {
  banner = λ _. refl;
  contact = λ _. refl;
  roster = refl;
  authorized = λ _. refl;
  status = λ _ _ _. refl;
}

failure-IsQuiet : IsQuiet is_failure
failure-IsQuiet = record {
  banner = λ _. refl;
  contact = λ _. refl;
  roster = refl;
  authorized = λ _. refl;
  status = λ _ _ _. refl;
}

finished-IsQuiet : IsQuiet is_finished
finished-IsQuiet = record {
  banner = λ _. refl;
  contact = λ _. refl;
  roster = refl;
  authorized = λ _. refl;
  status = λ _ _ _. refl;
}

answer-IsQuiet : IsQuiet is_answer
answer-IsQuiet = record {
  banner = λ _. refl;
  contact = λ _. refl;
  roster = refl;
  authorized = λ _. refl;
  status = λ _ _ _. refl;
}

status_change-count :
    (p : Action → Bool) (l : Listener) (online : Option Bytes)
    → IsQuiet p
    → count p (status_change l online) ≡ 0
unfolding status_change
status_change-count p l none q = refl
status_change-count p l (some []) q = refl
status_change-count p l (some (c ∷ cs)) q =
    ground (arith, q.status (c ∷ cs) l.server_first l.server_last)

follow_up-Effect :
    (now : ℕ) {l : Listener} {answers : ℕ} {out : Listener × List Action}
    → Effect l answers out
    → Effect l answers (follow_up now out)
unfolding follow_up
follow_up-Effect now {l} {answers} {out} e =
    let rest =
      (if not (eqb out.0.last now) then automatic_action ∷ [] else []) ++ default_action ∷ [] in
    ground (
      arith,
      count-append is_info out.1 rest,
      count-append is_failure out.1 rest,
      count-append is_finished out.1 rest,
      count-append is_answer out.1 rest,
    )

-- An event shows that the server is there.
abbrev pub heard : Option Event → Listener → Listener
heard none l = l
heard (some event) l = record l { connected = true }

module _ (f : Foreign) where
  pub send_registration-Effect :
      (auth : Bool) (expires : ℕ) (l : Listener) → Effect l 0 (send_registration f auth expires l)
  unfolding send_registration
  send_registration-Effect auth expires l = ground arith

  idle-Effect : (now : ℕ) (built : Built) (l : Listener) → Effect l 0 (idle f now built l)
  unfolding idle addressed
  idle-Effect now built l =
      let l' : Listener = record (addressed f l) { rid = built.rid } in
      ground (arith, send_registration-Effect false 1800 l')

  get_authentication-Kept :
      (response : Option Response) (l : Listener) → Kept l (get_authentication f response l).1
  unfolding get_authentication told_user challenged
  get_authentication-Kept none l = ground arith
  get_authentication-Kept (some response) l = ground arith

  succeeded-count :
      (p : Action → Bool) (response : Response) (l : Listener)
      → IsQuiet p
      → count p (succeeded f (some response) l).1 ≡ 0
  unfolding succeeded
  succeeded-count p response l q =
      let r = read_body f response.body l in
      let l' : Listener = record r.state { registered = true } in
      ground (
        arith,
        count-append p r.sent (emit (authorize l'.server_creds) ∷ status_change l' r.online),
        read_body-count f p response.body l q,
        q.authorized l'.server_creds,
        status_change-count p l' r.online q,
      )

  succeeded-Effect :
      (response : Option Response) (l : Listener) → Effect l 0 (succeeded f response l)
  unfolding succeeded
  succeeded-Effect none l = ground arith
  succeeded-Effect (some response) l =
      let kept = read_body-Kept f response.body l in
      record {
        infos =
            rw (succeeded-count is_info response l info-IsQuiet, kept.authenticated) (omega arith);
        failures =
            rw (succeeded-count is_failure response l failure-IsQuiet)
              (omega (arith, num-le_one _));
        finishes = succeeded-count is_finished response l finished-IsQuiet;
        answered = succeeded-count is_answer response l answer-IsQuiet;
        connected = kept.connected;
        exiting = kept.exiting;
      }

  failed-Effect : (event : Event) (l : Listener) → Effect l 0 (failed f event l)
  unfolding failed add_authentication
  failed-Effect event l = ground (arith, get_authentication-Kept event.response l)

  receive_message-count : (l : Listener) (msg : Incoming) → Effect l 1 (l, receive_message f l msg)
  unfolding receive_message
  receive_message-count l msg = ground arith

  dispatch-Effect :
      (type : EventType) (event : Event) (l : Listener)
      → Effect l (answers_for type) (dispatch f type event l)
  unfolding dispatch
  dispatch-Effect registration_success event l = succeeded-Effect event.response l
  dispatch-Effect registration_failure event l = failed-Effect event l
  dispatch-Effect message_requestfailure event l = ground arith
  dispatch-Effect message_new event l = ground (arith, receive_message-count l event.incoming)
  dispatch-Effect other event l = ground arith

  -- One turn of the loop: credentials are added where they were not before and the flag says so; no
  -- failure is told unless the loop ends; a new request is answered once, and nothing else is.
  pub turn-Effect :
      (now : ℕ) (event : Option Event) (built : Built) (l : Listener)
      → Effect (heard event l) (answers_to event) (turn f now event built l)
  unfolding turn attend
  turn-Effect now none built l = idle-Effect now built l
  turn-Effect now (some event) built l =
      follow_up-Effect now (dispatch-Effect event.type event (record l { connected = true }))

  -- Without an event no failure is told.
  pub turn-quiet :
      (now : ℕ) (built : Built) (l : Listener) → count is_failure (turn f now none built l).1 ≡ 0
  unfolding turn idle addressed send_registration
  turn-quiet now built l = ground arith
