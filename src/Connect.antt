-- ===== src/Connect.antt =====
-- The desktop client's connection to the server, Connect/: what its two threads share. A text is the
-- list of its bytes. Qt's, osip's and the C library's readers and printers of texts are parameters.
pub mod Listener
pub mod Storage
pub mod Connector
pub mod Tests
use tycho_sipwitchqt.Prelude.{ℕ, Option, some, Bool, List}
use tycho_sipwitchqt.Prelude.Int.{ℤ}
use tycho_sipwitchqt.UString.{Bytes}

-- `decode` is QByteArray::fromBase64, `to_hex` QByteArray::toHex, `date` QDateTime::fromString.
pub record Foreign : Type 0 where
  pub to_lower : Bytes → Bytes
  pub to_upper : Bytes → Bytes
  pub trimmed : Bytes → Bytes
  pub number : ℕ → Bytes
  pub atoi : Bytes → ℤ
  pub to_int : Bytes → ℤ
  pub to_uint : Bytes → ℕ
  pub decode : Bytes → Bytes
  pub to_hex : Bytes → Bytes
  pub date : Bytes → ℕ

-- A QVariantHash of credentials, by the keys that Connect/ reads and writes; a key that is not there
-- reads as an empty text. `devkey` is `none` where it is not valid.
pub record Creds : Type 0 where
  pub extension : Bytes
  pub host : Bytes
  pub port : ℕ
  pub label : Bytes
  pub initialize : Bytes
  pub user : Bytes
  pub secret : Bytes
  pub display : Bytes
  pub schema : Bytes
  pub realm : Bytes
  pub nonce : Bytes
  pub algorithm : Bytes
  pub privs : Bytes
  pub devkey : Option Bytes

-- The codes of osip_const.h that the client answers with or tells its user.
abbrev pub sip_ok : ℕ
sip_ok = 200

abbrev pub sip_unauthorized : ℕ
sip_unauthorized = 401

abbrev pub sip_forbidden : ℕ
sip_forbidden = 403

abbrev pub sip_method_not_allowed : ℕ
sip_method_not_allowed = 405

abbrev pub sip_address_incomplete : ℕ
sip_address_incomplete = 484

abbrev pub sip_ambiguous : ℕ
sip_ambiguous = 485

abbrev pub sip_not_acceptable_here : ℕ
sip_not_acceptable_here = 488

abbrev pub sip_undecipherable : ℕ
sip_undecipherable = 493

abbrev pub sip_message_too_large : ℕ
sip_message_too_large = 513

-- The code for a server that cannot be reached.
abbrev pub unreachable : ℕ
unreachable = 666
