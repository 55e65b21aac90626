-- ===== src/Sip.antt =====
-- The SIP status codes that the server answers with (osip_const.h, and SIP_CONFLICT of contact.hpp),
-- the event that a context hands to the manager, as Server/event.cpp decomposes it, and the digest
-- algorithms by name.
use tycho_sipwitchqt.Prelude.{ℕ, String, Bool, Option, List, ◌==◌, ◌||◌, if◌then◌else◌}
use tycho_sipwitchqt.Prelude.Int.{ℤ}
use tycho_sipwitchqt.UString.{Bytes}
use tycho_sipwitchqt.Contact.{Contact}

pub data Status : Type 0 where
  ok unauthorized forbidden not_found method_not_allowed temporarily_unavailable : Status
  address_incomplete ambiguous not_acceptable_here internal_server_error : Status
  does_not_exist_anywhere conflict : Status

-- eXosip's event types, as far as `Context::process` tells them apart.
pub data EventType : Type 0 where
  message_new message_answered message_requestfailure other : EventType

-- Texts that are only compared or joined are `String`s. `number` is -1 for a remote party,
-- `to_user` is the user name of the To uri where message, To, uri and user name are there, and
-- `from_complete` says that the From uri has a user and a host, and `from_user` is that user. `sent` is
-- the request with its headers, in their order, a header without a value being `none`.
pub record Event : Type 0 where
  pub type : EventType
  pub method : String
  pub sent_method : String
  pub number : ℤ
  pub label : String
  pub expires : ℤ
  pub authorization : Bool
  pub realm : String
  pub userid : String
  pub algorithm : String
  pub once : String
  pub digest : String
  pub request : String
  pub initialize : String
  pub protocol : String
  pub source : Contact
  pub contact : Contact
  pub is_local : Bool
  pub to_local : Bool
  pub target_user : Bool
  pub to_user : Option String
  pub from_complete : Bool
  pub content_type : String
  pub body : Bytes
  pub status : ℤ
  pub mid : Option String
  pub ep : Option String
  pub context : ℕ
  pub subject : String
  pub display : String
  pub from : Contact
  pub from_user : Bytes
  pub timestamp : ℕ
  pub sequence : ℤ
  pub sent : Option (List (String × Option String))

-- QCryptographicHash::Algorithm. `md4` is the enumeration's value 0, which `digests[name]` gives for
-- a name that is not in the table.
pub data Algorithm : Type 0 where
  md4 md5 sha1 sha256 sha512 : Algorithm

unfoldable pub digest_named : String → Algorithm
digest_named name =
    if name == "MD5"
    then Algorithm.md5
    else if name == "SHA" || (name == "SHA1" || name == "SHA-1")
    then Algorithm.sha1
    else if name == "SHA2" || (name == "SHA256" || name == "SHA-256")
    then Algorithm.sha256
    else if name == "SHA512" || name == "SHA-512"
    then Algorithm.sha512
    else Algorithm.md4
