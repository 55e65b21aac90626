-- ===== src/Connect/Connector/Answers.antt =====
-- Connector::run of Connect/connector.cpp: what becomes of each event that eXosip waits for.
pub mod Told
use tycho_sipwitchqt.Prelude.{
  ℕ, Bool, true, false, not, ◌&&◌, ◌||◌, Option, none, some, List, [], ◌∷◌, ◌++◌, eqb,
  if◌then◌else◌,
}
use tycho_sipwitchqt.Prelude.Int.{ℤ, pos, ltb_ℤ}
use tycho_sipwitchqt.UString.{Bytes, codes, unquote}
use tycho_sipwitchqt.Connect.{
  Foreign, sip_ok, sip_unauthorized, sip_method_not_allowed, unreachable,
}
use tycho_sipwitchqt.Connect.Connector.{
  Method, roster, profile, devlist, admin, drop_user, devkill, pending, ack_pending, topic,
  authorize, deauthorize, membership, coverage, forwarding, message, register, other, Signal,
  starting, finished, topic_failed, status_result, failure, message_result, change_roster,
  change_profile, change_device_list, sync_pending, deauthorize_user, Action, emit, add_info,
  answer, automatic_action, default_action, Connector, send_profile, user_uri,
}

-- `body` is `none` where its length is 0, a header where it is not there or has no value.
pub record Response : Type 0 where
  pub status_code : ℕ
  pub body : Option Bytes
  pub x_ms : Option Bytes
  pub x_ts : Option Bytes

pub data EventType : Type 0 where
  message_requestfailure message_answered message_new unknown : EventType

-- An event; `to_user` is the user of the request's To, where it has one.
pub record Event : Type 0 where
  pub type : EventType
  pub request : Method
  pub to_user : Option Bytes
  pub response : Option Response

-- processRoster, processProfile, processDeviceList and processPending
unfoldable pub process : (Bytes → Signal) → Response → List Action
process signal response = elim response.body [ none ↦ [] | some json ↦ emit (signal json) ∷ [] ]

abbrev pub is_topic : Method → Bool
is_topic topic = true
is_topic _ = false

abbrev pub is_message : Method → Bool
is_message message = true
is_message _ = false

abbrev pub topic_told : Method → List Action
topic_told m = if is_topic m then emit topic_failed ∷ [] else []

-- A request that was refused or that could not be sent.
unfoldable pub on_failure : Event → List Action
on_failure event =
    let error : ℕ = elim event.response [ none ↦ unreachable | some r ↦ r.status_code ] in
    topic_told event.request
    ++ ((if is_message event.request then emit (message_result error none (pos 0)) ∷ [] else [])
        ++ ((if not (eqb error sip_unauthorized) then emit (status_result error) ∷ [] else [])
            ++ (if eqb error unreachable then emit (failure unreachable) ∷ [] else [])))

module _ (f : Foreign) where
  -- add_authentication()
  unfoldable pub add_authentication : Connector → List Action
  add_authentication c =
      add_info (record {
        id = c.server_id;
        user = c.server_creds.user;
        secret = c.server_creds.secret;
        algorithm = c.server_creds.algorithm;
        realm = c.server_creds.realm;
      })
      ∷ []

  -- A new authorization was made: its profile is asked for.
  unfoldable pub authorized : Bool → Connector → Option Bytes → List Action
  authorized built c to_user =
      let target : Bytes = elim to_user [ none ↦ codes "0" | some user ↦ user ] in
      emit (status_result sip_ok)
      ∷ (if ltb_ℤ (pos 0) (f.to_int target)
          then send_profile f built c (user_uri f c target) []
          else [])

  unfoldable pub deauthorized : Option Bytes → List Action
  deauthorized none = []
  deauthorized (some user) = emit (deauthorize_user (unquote f.trimmed b'"' b'"' user)) ∷ []

  unfoldable pub delivered : Response → List Action
  delivered response =
      let sequence : ℤ = elim response.x_ms [ none ↦ pos 0 | some value ↦ f.atoi value ] in
      elim response.x_ts [
        | none ↦ emit (message_result sip_ok none (pos 0)) ∷ []
        | some ts ↦ emit (message_result sip_ok (some (f.date ts)) sequence) ∷ []
      ]

  -- A request that was answered with 200.
  unfoldable pub on_ok : Bool → Connector → Method → Event → Response → List Action
  on_ok built c roster event response = process change_roster response
  on_ok built c profile event response = process change_profile response
  on_ok built c coverage event response = process change_profile response
  on_ok built c membership event response = process change_profile response
  on_ok built c forwarding event response = process change_profile response
  on_ok built c devkill event response = process change_profile response
  on_ok built c admin event response = process change_profile response
  on_ok built c drop_user event response = process change_profile response
  on_ok built c authorize event response = authorized built c event.to_user
  on_ok built c deauthorize event response = deauthorized event.to_user
  on_ok built c devlist event response = process change_device_list response
  on_ok built c pending event response = process sync_pending response
  on_ok built c message event response = delivered response
  on_ok built c _ event response = []

  unfoldable pub on_answer : Bool → Connector → Event → Option Response → List Action
  on_answer built c event none = []
  on_answer built c event (some response) =
      if eqb response.status_code sip_ok
      then on_ok built c event.request event response
      else topic_told event.request ++ emit (status_result response.status_code) ∷ []

  -- The switch on the event's type.
  unfoldable pub dispatch : Bool → Connector → EventType → Event → List Action
  dispatch built c message_requestfailure event = on_failure event
  dispatch built c message_answered event = on_answer built c event event.response
  dispatch built c message_new event = elim event.request [
    | register ↦ answer sip_method_not_allowed ∷ []
    | _ ↦ []
  ]
  dispatch built c unknown event = []

  -- One turn of the loop, at the time `now`; `built` is whether eXosip builds a request.
  unfoldable pub turn : ℕ → Bool → Option Event → Connector → Connector × List Action
  turn now built none c = (record c { last = now }, automatic_action ∷ [])
  turn now built (some event) c =
      let sent = dispatch built c event.type event in
      if c.active
      then (
        record c { last = now },
        sent ++ (default_action ∷ (if not (eqb c.last now) then automatic_action ∷ [] else [])),
      )
      else (c, sent)

  -- run(): the waits, until one ends after stop(flag) was called.
  unfoldable pub run : List (ℕ × Bool × Option Event) → Connector → List Action
  run [] c = if not c.exiting then emit finished ∷ [] else []
  run ((now, built, event) ∷ waits) c =
      let (c', sent) = turn now built event c in sent ++ run waits c'
