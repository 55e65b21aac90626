-- ===== src/Connect/Connector/Answers/Told.antt =====
-- What the user is told of a text that was sent, by Connector::run of Connect/connector.cpp.
use mathlib.Core.List.{append-nil}
use mathlib.Core.Path.{ap₂}
use tycho_sipwitchqt.Prelude.{
  ℕ, Bool, true, Option, none, some, List, [], ◌∷◌, ◌++◌, eqb, not, ◌≡◌, refl, arith, ◌∙◌,
  if◌then◌else◌,
}
use tycho_sipwitchqt.Connect.{Foreign, unreachable, sip_ok}
use tycho_sipwitchqt.Connect.Connector.{
  Method, Action, emit, message_result, Connector, send_profile, automatic_action, default_action,
}
use tycho_sipwitchqt.Connect.Connector.Answers.{
  Response, Event, EventType, message_new, unknown, is_message, process, authorized, deauthorized,
  message_requestfailure, message_answered, on_failure, on_ok, on_answer, delivered, dispatch, turn,
  run,
}

-- The results of texts, in the order in which they are told.
abbrev pub results : List Action → List ℕ
results [] = []
results (emit (message_result code date sequence) ∷ sent) = code ∷ results sent
results (_ ∷ sent) = results sent

results-append : (xs ys : List Action) → results (xs ++ ys) ≡ results xs ++ results ys
results-append [] ys = refl
results-append (x ∷ xs) ys = ground (arith, results-append xs ys)

-- What is to be told of one wait: for a text the code of its failure, or 200.
abbrev told_of : EventType → Bool → Option Response → List ℕ
told_of message_requestfailure true none = unreachable ∷ []
told_of message_requestfailure true (some r) = r.status_code ∷ []
told_of message_answered true (some r) = if eqb r.status_code sip_ok then sip_ok ∷ [] else []
told_of _ _ _ = []

abbrev pub told : List (ℕ × Bool × Option Event) → List ℕ
told [] = []
told ((now, built, none) ∷ waits) = told waits
told ((now, built, some e) ∷ waits) = told_of e.type (is_message e.request) e.response ++ told waits

on_failure-results :
    (e : Event)
    → results (on_failure e) ≡ told_of message_requestfailure (is_message e.request) e.response
unfolding on_failure
on_failure-results e = ground arith

module _ (f : Foreign) where
  on_ok-results :
      (built : Bool) (c : Connector) (m : Method) (e : Event) (r : Response)
      → results (on_ok f built c m e r) ≡ (if is_message m then sip_ok ∷ [] else [])
  unfolding on_ok process authorized deauthorized delivered send_profile
  on_ok-results built c m e r = ground arith

  on_answer-results :
      (built : Bool) (c : Connector) (e : Event) (response : Option Response)
      → results (on_answer f built c e response)
        ≡ told_of message_answered (is_message e.request) response
  unfolding on_answer
  on_answer-results built c e none = ground arith
  on_answer-results built c e (some r) = ground (arith, on_ok-results built c e.request e r)

  dispatch-results :
      (built : Bool) (c : Connector) (type : EventType) (e : Event)
      → results (dispatch f built c type e) ≡ told_of type (is_message e.request) e.response
  unfolding dispatch
  dispatch-results built c message_requestfailure e = on_failure-results e
  dispatch-results built c message_answered e = on_answer-results built c e e.response
  dispatch-results built c message_new e = ground arith
  dispatch-results built c unknown e = refl

  turn-results :
      (now : ℕ) (built : Bool) (e : Event) (c : Connector)
      → results (turn f now built (some e) c).1 ≡ told_of e.type (is_message e.request) e.response
  unfolding turn
  turn-results now built e c =
      let rest = default_action ∷ (if not (eqb c.last now) then automatic_action ∷ [] else []) in
      ground (
        arith,
        dispatch-results built c e.type e,
        results-append (dispatch f built c e.type e) rest,
        append-nil (results (dispatch f built c e.type e)),
      )

  -- Whatever happens in whatever order: what the user is told of texts is, wait by wait, the code of each
  -- failure, or 666 where there is no answer, and 200 for each answer 200. So a text that is challenged
  -- with 401 is told as failed, whatever comes of it when it is sent again.
  pub run-told :
      (waits : List (ℕ × Bool × Option Event)) (c : Connector)
      → results (run f waits c) ≡ told waits
  unfolding run turn
  run-told [] c = ground arith
  run-told ((now, built, none) ∷ waits) c = run-told waits (record c { last = now })
  run-told ((now, built, some e) ∷ waits) c =
      let (c', sent) = turn f now built (some e) c in
      results-append sent (run f waits c')
      ∙ ap₂ ◌++◌ (turn-results now built e c) (run-told waits c')
