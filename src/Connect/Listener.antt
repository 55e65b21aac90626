-- ===== src/Connect/Listener.antt =====
-- Connect/listener.cpp: the client's registration over UDP. The state of the thread with its file's
-- two statics, what it sends, and the parts of it that look at no body.
pub mod Receive
pub mod Xdp
pub mod Loop
use tycho_sipwitchqt.Prelude.{
  ℕ, suc, ◌+◌, Bool, true, false, not, ◌&&◌, ◌||◌, Option, none, some, List, [], ◌∷◌, ◌++◌, eqb,
  ltb, if◌then◌else◌,
}
use tycho_sipwitchqt.Prelude.Int.{ℤ, pos, negsuc, ltb_ℤ}
use tycho_sipwitchqt.UString.{Bytes, codes, eq_bytes, unquote, uri, uri_id}
use tycho_sipwitchqt.Util.{to_u16, index_of}
use tycho_sipwitchqt.Contact.{after}
use tycho_sipwitchqt.Connect.{Foreign, Creds, sip_forbidden, unreachable}

pub record Listener : Type 0 where
  pub active : Bool
  pub connected : Bool
  pub registered : Bool
  pub authenticated : Bool
  pub prior_banner : Bytes
  pub prior_online : Bytes
  pub server_creds : Creds
  pub uri_from : Bytes
  pub uri_route : Bytes
  pub sip_local : Bytes
  pub sip_from : Bytes
  pub server_init : Bytes
  pub server_id : Bytes
  pub server_host : Bytes
  pub server_schema : Bytes
  pub server_label : Bytes
  pub server_user : Bytes
  pub server_contact : Bytes
  pub server_port : ℕ
  pub server_first : ℤ
  pub server_last : ℤ
  pub tls : ℕ
  pub rid : ℤ
  pub last : ℕ
  pub exiting_flag : Bool
  pub roster_sequence : ℕ

-- What a text message is passed on with.
pub record Text : Type 0 where
  pub from : Bytes
  pub to : Bytes
  pub text : Bytes
  pub timestamp : Option ℕ
  pub sequence : ℤ
  pub subject : Bytes
  pub type : Bytes

pub data Signal : Type 0 where
  status_result message_result failure : ℕ → Signal
  change_status : Bytes → ℤ → ℤ → Signal
  change_banner contact_address : Bytes → Signal
  receive_text : Text → Signal
  authorize : Creds → Signal
  update_roster starting finished : Signal

-- A REGISTER with the headers that the client adds to it.
pub record Registration : Type 0 where
  pub rid : ℤ
  pub expires : ℕ
  pub label : Bytes
  pub initialize : Option Bytes
  pub device : Option Bytes

-- Credentials for eXosip to answer challenges with.
pub record Info : Type 0 where
  pub id : Bytes
  pub user : Bytes
  pub secret : Bytes
  pub algorithm : Bytes
  pub realm : Bytes

pub data Action : Type 0 where
  emit : Signal → Action
  register : Registration → Action
  add_info : Info → Action
  answer : ℕ → Action
  automatic_action default_action : Action

abbrev pub is_empty : Bytes → Bool
is_empty [] = true
is_empty (c ∷ cs) = false

-- A challenge of a response, with the quotes of its header; `none` of the three is a null pointer,
-- which a UString holds as the empty text.
pub record Challenge : Type 0 where
  pub realm : Bytes
  pub algorithm : Bytes
  pub nonce : Bytes

-- An osip_message_t that answers a request; `none` is a null pointer, and for `x_authorize` also a
-- header with no value. `body` is `none` where there is no text or its length is 0.
pub record Response : Type 0 where
  pub status_code : ℕ
  pub body : Option Bytes
  pub x_authorize : Option Bytes
  pub proxy_authenticate : Option Challenge
  pub www_authenticate : Option Challenge

-- Listener(cred, cert). `secure` says that there is a certificate.
unfoldable pub listener : Creds → Bool → ℕ → Bool → Listener
listener cred secure sequence exiting =
    let port = if eqb cred.port 0 then 5060 else cred.port in
    let schema = if secure then codes "sips:" else codes "sip:" in
    let tls : ℕ = if secure then 1 else 0 in
    record {
      active = true;
      connected = false;
      registered = false;
      authenticated = false;
      prior_banner = [];
      prior_online = [];
      server_creds = record cred { initialize = []; schema = schema };
      uri_from = [];
      uri_route = [];
      sip_local = [];
      sip_from = [];
      server_init = cred.initialize;
      server_id = cred.extension;
      server_host = cred.host;
      server_schema = schema;
      server_label = cred.label;
      server_user = [];
      server_contact = codes "unknown";
      server_port = if eqb port 0 then (if secure then 5061 else 5060) else port;
      server_first = negsuc 0;
      server_last = negsuc 0;
      tls = tls;
      rid = negsuc 0;
      last = 0;
      exiting_flag = exiting;
      roster_sequence = sequence;
    }

unfoldable pub add_authentication : Listener → Listener × List Action
add_authentication l = (
  record l { authenticated = true },
  add_info (record {
    id = l.server_id;
    user = l.server_creds.user;
    secret = l.server_creds.secret;
    algorithm = l.server_creds.algorithm;
    realm = l.server_creds.realm;
  })
      ∷ [],
)

module _ (f : Foreign) where
  -- send_registration(msg, auth), for a message that was built.
  unfoldable pub send_registration : Bool → ℕ → Listener → Listener × List Action
  send_registration auth expires l = if ltb_ℤ l.rid (pos 0) then (l, []) else (
    if auth then record l { server_init = [] } else l,
    register (record {
      rid = l.rid;
      expires = expires;
      label = l.server_label;
      initialize = if is_empty l.server_init then none else some l.server_init;
      device = elim l.server_creds.devkey [ none ↦ none | some key ↦ some (f.to_hex key) ];
    })
        ∷ [],
  )

  abbrev bare : Bytes → Bytes
  bare s = unquote f.trimmed b'"' b'"' s

  -- The X-Authorize header of a response.
  unfoldable pub told_user : Option Bytes → Listener → Listener
  told_user none l = l
  told_user (some user) l = record l {
    server_user = user;
    server_creds = record l.server_creds { user = user };
  }

  unfoldable pub challenged : Challenge → Listener → Listener
  challenged c l = record l {
    server_creds = record l.server_creds {
      realm = bare c.realm;
      nonce = bare c.nonce;
      algorithm = f.to_upper (bare c.algorithm);
    };
  }

  -- get_authentication(event): what it returns, and the listener after it.
  unfoldable pub get_authentication : Option Response → Listener → Bool × Listener
  unfolding told_user challenged
  get_authentication none l = (false, l)
  get_authentication (some response) l =
      let told = told_user response.x_authorize l in
      elim response.proxy_authenticate [
        | some c ↦ (true, challenged c told)
        | none ↦ elim response.www_authenticate [
          | some c ↦ (true, challenged c told)
          | none ↦ (false, told)
        ]
      ]

  -- The uris that the first registration is built with.
  unfoldable pub addressed : Listener → Listener
  addressed l =
      let from =
        uri_id f.to_lower f.trimmed f.number l.server_schema l.server_id l.server_host
          l.server_port in
      record l {
        uri_from = from;
        uri_route = uri f.to_lower f.trimmed f.number l.server_schema l.server_host l.server_port;
        sip_local = after (index_of b'@' from) from;
        sip_from = b'<' ∷ (from ++ b'>' ∷ []);
      }

-- The slots timeout() and stop(shutdown).
unfoldable pub timeout : Listener → Listener × List Action
timeout l =
    if l.connected then (l, []) else (record l { active = false }, emit (failure unreachable) ∷ [])

unfoldable pub stop : Bool → Listener → Listener × List Action
stop shutdown l = (record l { exiting_flag = shutdown; active = false }, [])
