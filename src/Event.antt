-- ===== src/Event.antt =====
-- Server/event.cpp: an osip message and the event that is made of it, Event::Data of Server/event.hpp.
-- The fields are texts here, of which Sip.Event has those that the other parts read. The clock, `toLower`,
-- `toUpper`, `trimmed`, `toInt`, `fromHex`, `atoi` and what the context says of hosts are parameters.
pub mod Message
pub mod Build
pub mod Sources
pub mod Names
pub mod TypeName
pub mod Tests
use tycho_sipwitchqt.Prelude.{
  ℕ, suc, ◌+◌, ◌%◌, ◌^◌, Bool, true, false, not, ◌&&◌, Option, none, some, List, [], ◌∷◌, ◌++◌, eqb,
  if◌then◌else◌, map, keep,
}
use tycho_sipwitchqt.Prelude.Int.{ℤ, pos, negsuc}
use tycho_sipwitchqt.UString.{Bytes, codes, eq_bytes, unquote, is_number}
use tycho_sipwitchqt.Util.{port_number}
use tycho_sipwitchqt.Contact.{
  Contact, OsipUri, contact_at, is_valid, is_not, of_osip_uri, of_osip_contact, empty,
}

-- A Via; a parameter is `none` where it is not there or has no value.
pub record Via : Type 0 where
  pub host : Option Bytes
  pub port : Option Bytes
  pub rport : Option Bytes
  pub received : Option Bytes

-- A contact: its uri and its `expires` parameter.
pub record Reached : Type 0 where
  pub url : Option OsipUri
  pub expires : Option Bytes

pub record Party : Type 0 where
  pub displayname : Option Bytes
  pub url : Option OsipUri

pub record MediaType : Type 0 where
  pub type : Option Bytes
  pub subtype : Option Bytes

pub record Authorization : Type 0 where
  pub username : Option Bytes
  pub response : Option Bytes
  pub nonce : Option Bytes
  pub realm : Option Bytes
  pub algorithm : Option Bytes

-- An osip_message_t. A header is `none` where it is not there or has no value; `body` is `none` where
-- its length is 0; `uri_text` is osip_uri_to_str of the request uri.
pub record OsipMessage : Type 0 where
  pub method : Bytes
  pub status_code : ℤ
  pub reason_phrase : Bytes
  pub req_uri : Option OsipUri
  pub uri_text : Option Bytes
  pub authorization : Option Authorization
  pub vias : List Via
  pub contacts : List Reached
  pub record_routes : List (Option OsipUri)
  pub routes : List (Option OsipUri)
  pub allows : List (Option Bytes)
  pub user_agent : Option Bytes
  pub session_expires : Option Bytes
  pub expires : Option Bytes
  pub x_label : Option Bytes
  pub x_initialize : Option Bytes
  pub x_device : Option Bytes
  pub subject : Option Bytes
  pub from : Option Party
  pub to : Option Party
  pub content_type : Option MediaType
  pub body : Option Bytes

pub data Kind : Type 0 where
  answered registration_success registration_failure message_new call_invite other : Kind

-- An eXosip_event_t.
pub record Received : Type 0 where
  pub kind : Kind
  pub request : OsipMessage
  pub response : OsipMessage

pub record Data : Type 0 where
  pub number : ℤ
  pub expires : ℤ
  pub status : ℤ
  pub hops : ℕ
  pub natted : Bool
  pub is_local : Bool
  pub to_local : Bool
  pub record_route : Bool
  pub contacts : List Contact
  pub routes : List Contact
  pub agent : Bytes
  pub method : Bytes
  pub subject : Bytes
  pub content : Bytes
  pub realm : Bytes
  pub reason : Bytes
  pub initialize : Bytes
  pub userid : Bytes
  pub nonce : Bytes
  pub digest : Bytes
  pub algorithm : Bytes
  pub request : Bytes
  pub content_type : Bytes
  pub display : Bytes
  pub device_key : Bytes
  pub label : Bytes
  pub source : Contact
  pub from : Contact
  pub to : Contact
  pub target : Contact
  pub allows : List Bytes
  pub body : Bytes
  pub authorization : Option Authorization

-- Data()
unfoldable pub no_data : Data
unfolding empty
no_data = record {
  number = negsuc 0;
  expires = negsuc 0;
  status = pos 0;
  hops = 0;
  natted = false;
  is_local = false;
  to_local = false;
  record_route = false;
  contacts = [];
  routes = [];
  agent = [];
  method = [];
  subject = [];
  content = [];
  realm = [];
  reason = [];
  initialize = [];
  userid = [];
  nonce = [];
  digest = [];
  algorithm = [];
  request = [];
  content_type = [];
  display = [];
  device_key = [];
  label = [];
  source = empty;
  from = empty;
  to = empty;
  target = empty;
  allows = [];
  body = [];
  authorization = none;
}

-- What Qt, the C library and the context of the event give.
pub record Context : Type 0 where
  pub now : ℕ
  pub default_port : ℕ
  pub is_local : Bytes → Bool
  pub to_lower : Bytes → Bytes
  pub to_upper : Bytes → Bytes
  pub trimmed : Bytes → Bytes
  pub to_int : Bytes → ℤ
  pub atoi : Bytes → ℤ
  pub from_hex : Bytes → Bytes

abbrev pub or_else {ℓ} : {A : Type ℓ} → Option A → A → A
or_else none a = a
or_else (some b) a = b

-- A uri with a host.
abbrev pub has_host : Option OsipUri → Bool
has_host none = false
has_host (some uri) = elim uri.host [ none ↦ false | some host ↦ true ]

module _ (cx : Context) where
  unfoldable pub bare : Bytes → Bytes
  bare s = unquote cx.trimmed b'"' b'"' s
