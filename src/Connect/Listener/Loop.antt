-- ===== src/Connect/Listener/Loop.antt =====
-- Listener::run of Connect/listener.cpp as steps: the waits of the thread end with an event or without
-- one, and between them the slots `timeout` and `stop` may run. The options of eXosip are not modelled;
-- a slot runs before a wait ends or after what follows it, not within.
pub mod Frame
pub mod Effect
pub mod Lifetime
pub mod Stopped
use tycho_sipwitchqt.Prelude.{
  ℕ, Bool, true, false, not, ◌&&◌, Option, none, some, List, [], ◌∷◌, ◌++◌, eqb, if◌then◌else◌,
}
use tycho_sipwitchqt.Prelude.Int.{ℤ, pos, negsuc, ltb_ℤ, eqb_ℤ}
use tycho_sipwitchqt.UString.{Bytes, c_str}
use tycho_sipwitchqt.Connect.{
  Foreign, sip_unauthorized, sip_forbidden, sip_method_not_allowed, unreachable,
}
use tycho_sipwitchqt.Connect.Listener.{
  Listener, Response, is_empty, Action, emit, answer, automatic_action, default_action, Signal,
  status_result, message_result, failure, change_status, authorize, starting, finished, timeout,
  stop, addressed, send_registration, get_authentication, add_authentication,
}
use tycho_sipwitchqt.Connect.Listener.Receive.{Incoming, receive_message}
use tycho_sipwitchqt.Connect.Listener.Xdp.{Read, parse_xdp}

pub data EventType : Type 0 where
  registration_success registration_failure message_requestfailure message_new other : EventType

-- `is_message` is MSG_IS_MESSAGE of the request.
pub record Event : Type 0 where
  pub type : EventType
  pub rid : ℤ
  pub response : Option Response
  pub is_message : Bool
  pub incoming : Incoming

-- What eXosip gives where it is asked to build a REGISTER: the first one's id, and whether there is one.
pub record Built : Type 0 where
  pub rid : ℤ
  pub msg : Bool

-- AGENT_EXPIRES
abbrev agent_expires : ℕ
agent_expires = 1800

abbrev status_of : Option Response → ℕ
status_of none = unreachable
status_of (some response) = response.status_code

abbrev give_up : ℕ → Listener → Listener × List Action
give_up error l = (record l { active = false }, emit (failure error) ∷ [])

unfoldable pub status_change : Listener → Option Bytes → List Action
status_change l none = []
status_change l (some bitmap) =
    if is_empty bitmap then [] else emit (change_status bitmap l.server_first l.server_last) ∷ []

-- What follows the switch.
unfoldable pub follow_up : ℕ → Listener × List Action → Listener × List Action
follow_up now (l, sent) =
    if l.active
    then (
      record l { last = now },
      sent ++ ((if not (eqb l.last now) then automatic_action ∷ [] else []) ++ default_action ∷ []),
    )
    else (l, sent)

-- In the loop, waiting for the end of the registration, or over.
pub data Phase : Type 0 where
  running closing ended : Phase

abbrev pub Machine : Type 0
Machine = Listener × Phase

abbrev farewell : Listener → List Action
farewell l = if not l.exiting_flag then emit finished ∷ [] else []

-- The loop that waits for the last answer.
unfoldable pub close : Option Event → Listener → Machine × List Action
close none l = ((l, ended), farewell l)
close (some event) l =
    let l' = record l { registered = false } in
    elim event.type [
      | registration_success ↦ ((l', ended), farewell l')
      | registration_failure ↦ ((l', ended), farewell l')
      | _ ↦ ((l, closing), [])
    ]

pub data Input : Type 0 where
  expired : Input
  stopped : Bool → Input
  woke : ℕ → Option Event → Built → Built → Input

module _ (f : Foreign) where
  -- A wait without an event.
  unfoldable pub idle : ℕ → Built → Listener → Listener × List Action
  idle now built l =
      let l' = record (addressed f l) { rid = built.rid } in
      if not (ltb_ℤ l.rid (pos 0))
      then (record l { last = now }, automatic_action ∷ [])
      else if built.msg && ltb_ℤ (negsuc 0) built.rid
      then send_registration f false agent_expires l'
      else (record l' { active = false }, [])

  unfoldable pub read_body : Option Bytes → Listener → Read
  read_body none l = record { state = l; sent = []; online = none }
  read_body (some body) l = parse_xdp f (c_str body) l

  unfoldable pub succeeded : Option Response → Listener → Listener × List Action
  succeeded none l = (record l { active = false }, [])
  succeeded (some response) l =
      let r = read_body response.body l in
      let l' = record r.state { registered = true } in
      (l', r.sent ++ (emit (authorize l'.server_creds) ∷ status_change l' r.online))

  unfoldable pub failed : Event → Listener → Listener × List Action
  failed event l =
      let error = status_of event.response in
      let (found, l') = get_authentication f event.response l in
      if not (eqb_ℤ event.rid l.rid)
      then (l, [])
      else if not (eqb error sip_unauthorized)
      then give_up error l
      else if found && not l'.authenticated
      then add_authentication l'
      else give_up sip_forbidden l'

  -- The switch on the event's type.
  unfoldable pub dispatch : EventType → Event → Listener → Listener × List Action
  dispatch registration_success event l = succeeded event.response l
  dispatch registration_failure event l = failed event l
  dispatch message_requestfailure event l =
      let error = status_of event.response in
      (l, emit (if event.is_message then message_result error else status_result error) ∷ [])
  dispatch message_new event l = (
    l,
    if event.is_message
        then receive_message f l event.incoming
        else answer sip_method_not_allowed ∷ [],
  )
  dispatch other event l = (l, [])

  unfoldable pub attend : ℕ → Event → Listener → Listener × List Action
  attend now event l = follow_up now (dispatch event.type event (record l { connected = true }))

  unfoldable pub turn : ℕ → Option Event → Built → Listener → Listener × List Action
  turn now none built l = idle now built l
  turn now (some event) built l = attend now event l

  -- What follows the loop: a REGISTER with no time to live where the client is registered.
  unfoldable pub leave : Built → Listener → Machine × List Action
  leave built l =
      let (l', sent) = if built.msg then send_registration f false 0 l else (l, []) in
      if l.registered then ((l', closing), sent) else ((l, ended), farewell l)

  unfoldable pub run_on : ℕ → Option Event → Built → Built → Listener → Machine × List Action
  run_on now event built last l =
      if l.active
      then (let (l', sent) = turn now event built l in
          let (m, rest) = leave last l' in
          if l'.active then ((l', running), sent) else (m, sent ++ rest))
      else leave last l

  unfoldable pub step : Input → Machine → Machine × List Action
  step expired (l, phase) = let (l', sent) = timeout l in ((l', phase), sent)
  step (stopped shutdown) (l, phase) = let (l', sent) = stop shutdown l in ((l', phase), sent)
  step (woke now event built last) (l, running) = run_on now event built last l
  step (woke now event built last) (l, closing) = close event l
  step (woke now event built last) (l, ended) = ((l, ended), [])

  unfoldable pub run_from : List Input → Machine → Machine × List Action
  run_from [] m = (m, [])
  run_from (i ∷ is) m =
      let (m', sent) = step i m in let (m'', rest) = run_from is m' in (m'', sent ++ rest)

  unfoldable pub run : List Input → Listener → Machine × List Action
  unfolding run_from
  run is l = let (m, sent) = run_from is (l, running) in (m, emit starting ∷ sent)
