-- ===== src/Connect/Connector.antt =====
-- Connect/connector.cpp: the client's requests over TCP, and what it signals of their answers. A request
-- that eXosip does not build is not sent. The options of eXosip and its locks are not modelled.
pub mod Answers
use tycho_sipwitchqt.Prelude.{
  ℕ, Bool, true, false, not, ◌&&◌, ◌||◌, Option, none, some, List, [], ◌∷◌, ◌++◌, eqb,
  if◌then◌else◌,
}
use tycho_sipwitchqt.Prelude.Int.{ℤ, pos, negsuc, ltb_ℤ}
use tycho_sipwitchqt.UString.{Bytes, codes, unquote, escape, uri, uri_id}
use tycho_sipwitchqt.Connect.{
  Foreign, Creds, sip_ok, sip_unauthorized, sip_method_not_allowed, unreachable,
}
use tycho_sipwitchqt.Connect.Listener.{Info, is_empty}

-- The methods that MSG_IS tells apart; `other` is any that it does not.
pub data Method : Type 0 where
  roster profile devlist admin drop_user devkill pending ack_pending topic : Method
  authorize deauthorize membership coverage forwarding message register other : Method

pub record Request : Type 0 where
  pub method : Method
  pub to : Bytes
  pub from : Bytes
  pub route : Bytes
  pub headers : List (Bytes × Bytes)
  pub body : Option (Bytes × Bytes)

pub data Signal : Type 0 where
  starting finished topic_failed : Signal
  status_result failure : ℕ → Signal
  message_result : ℕ → Option ℕ → ℤ → Signal
  change_roster change_profile change_device_list sync_pending deauthorize_user : Bytes → Signal

pub data Action : Type 0 where
  emit : Signal → Action
  send : Request → Action
  add_info : Info → Action
  answer : ℕ → Action
  automatic_action default_action : Action

pub record Connector : Type 0 where
  pub active : Bool
  pub server_id : Bytes
  pub server_host : Bytes
  pub server_label : Bytes
  pub server_schema : Bytes
  pub server_creds : Creds
  pub server_port : ℕ
  pub uri_from : Bytes
  pub uri_route : Bytes
  pub sip_from : Bytes
  pub last : ℕ
  pub exiting : Bool

pub data Forwarding : Type 0 where
  na busy away : Forwarding

abbrev angle : Bytes → Bytes
angle s = b'<' ∷ (s ++ b'>' ∷ [])

unfoldable pub forwarding_subject : Forwarding → Bytes
forwarding_subject na = codes "NA"
forwarding_subject busy = codes "BUSY"
forwarding_subject away = codes "AWAY"

module _ (f : Foreign) where
  -- Connector(cred, cert)
  unfoldable pub connector : Creds → Bool → Bool → Connector
  connector cred secure exiting =
      let schema = if secure then codes "sips:" else codes "sip:" in
      let port = if eqb cred.port 0 then 5060 else cred.port in
      let from = uri_id f.to_lower f.trimmed f.number schema cred.extension cred.host port in
      record {
        active = true;
        server_id = cred.extension;
        server_host = cred.host;
        server_label = cred.label;
        server_schema = schema;
        server_creds = record cred { schema = schema };
        server_port = port;
        uri_from = from;
        uri_route = uri f.to_lower f.trimmed f.number schema cred.host port;
        sip_from = b'"' ∷ (cred.display ++ (codes "\" <" ++ (from ++ b'>' ∷ [])));
        last = 0;
        exiting = exiting;
      }

  abbrev server_uri : Connector → Bytes
  server_uri c = uri f.to_lower f.trimmed f.number c.server_schema c.server_host c.server_port

  abbrev user_uri : Connector → Bytes → Bytes
  user_uri c id =
      uri_id f.to_lower f.trimmed f.number c.server_schema id c.server_host c.server_port

  abbrev labelled : Connector → List (Bytes × Bytes)
  labelled c = (codes "X-Label", c.server_label) ∷ []

  abbrev typed : Bytes → Bytes → Option (Bytes × Bytes)
  typed body type = if is_empty body then none else some (body, type)

  -- eXosip_message_build_request with what is set afterwards, and eXosip_message_send_request.
  abbrev built_as :
      Bool
      → Connector
      → Method
      → Bytes
      → List (Bytes × Bytes)
      → Option (Bytes × Bytes)
      → List Action
  built_as built c method to headers body =
      if built
      then send (record {
        method = method;
        to = to;
        from = c.sip_from;
        route = c.uri_route;
        headers = headers;
        body = body;
      })
        ∷ []
      else []

  -- A request that goes to the server itself, from the plain uri of the extension.
  abbrev to_server : Bool → Connector → Method → List Action
  to_server built c method =
      if built
      then send (record {
        method = method;
        to = server_uri c;
        from = user_uri c c.server_id;
        route = server_uri c;
        headers = labelled c;
        body = none;
      })
        ∷ []
      else []

  unfoldable pub request_deauthorize : Bool → Connector → Bytes → List Action
  request_deauthorize built c to =
      built_as built c deauthorize (angle (user_uri c to)) (labelled c) none

  unfoldable pub remove_device : Bool → Connector → Bytes → List Action
  remove_device built c label =
      built_as built c devkill c.sip_from (labelled c ++ (codes "X-Remove", label) ∷ []) none

  unfoldable pub create_authorize : Bool → Connector → Bytes → Bytes → List Action
  create_authorize built c to body =
      built_as built c authorize (angle (user_uri c to)) (labelled c)
        (typed body (codes "authorize/json"))

  unfoldable pub change_topic : Bool → Connector → Bytes → Bytes → Bytes → List Action
  change_topic built c to subject body =
      built_as built c topic (angle to) ((codes "Subject", subject) ∷ labelled c)
        (typed body (codes "text/plain"))

  unfoldable pub change_forwarding : Bool → Connector → Bytes → Forwarding → ℤ → List Action
  change_forwarding built c to type target =
      built_as built c forwarding (angle to)
        ((codes "Subject", forwarding_subject type)
          ∷ (labelled c
              ++ (
                codes "X-Destination",
                elim target [ pos n ↦ f.number n | negsuc n ↦ codes "NONE" ],
              )
                ∷ []))
        none

  unfoldable pub change_coverage : Bool → Connector → Bytes → ℤ → List Action
  change_coverage built c to priority =
      built_as built c coverage (angle to)
        (labelled c
          ++ (codes "X-Priority", elim priority [ pos n ↦ f.number n | negsuc n ↦ codes "never" ])
            ∷ [])
        none

  unfoldable pub change_membership :
      Bool → Connector → Bytes → Bytes → Bytes → Bytes → Bytes → Bytes → List Action
  change_membership built c to subject list admin' notify reason =
      built_as built c membership (angle to)
        ((codes "Subject", subject)
          ∷ (labelled c
              ++ (codes "X-Group-Member", list)
                ∷ (codes "X-Group-Admin", admin')
                ∷ (codes "X-Notify", notify)
                ∷ (codes "X-Reason", escape reason)
                ∷ []))
        none

  unfoldable pub disconnect_user : Bool → Connector → Bytes → List Action
  disconnect_user built c to = built_as built c drop_user (angle to) (labelled c) none

  abbrev flag : Bool → Bytes
  flag b = if b then codes "1" else codes "0"

  unfoldable pub change_suspend : Bool → Connector → Bytes → Bool → List Action
  change_suspend built c to suspend =
      built_as built c admin (angle to) (labelled c ++ (codes "X-Suspend", flag suspend) ∷ []) none

  unfoldable pub change_admin : Bool → Connector → Bytes → Bool → List Action
  change_admin built c to enable =
      built_as built c admin (angle to) (labelled c ++ (codes "X-System", flag enable) ∷ []) none

  unfoldable pub send_profile : Bool → Connector → Bytes → Bytes → List Action
  send_profile built c to body =
      built_as built c profile (angle to) (labelled c) (typed body (codes "profile/json"))

  unfoldable pub request_roster : Bool → Connector → List Action
  request_roster built c = to_server built c roster

  unfoldable pub request_device_list : Bool → Connector → List Action
  request_device_list built c = to_server built c devlist

  unfoldable pub request_pending : Bool → Connector → List Action
  request_pending built c = to_server built c pending

  unfoldable pub ack_pending_processed : Bool → Connector → List Action
  ack_pending_processed built c = to_server built c ack_pending

  -- sendText: what is sent, and whether it was.
  unfoldable pub send_text : Bool → Connector → Bytes → Bytes → Bytes → List Action × Bool
  send_text built c to body subject = (
    built_as built c message (angle to) ((codes "Subject", subject) ∷ labelled c)
        (some (body, codes "text/plain")),
    built,
  )
