-- ===== src/Connect/Listener/Receive.antt =====
-- Listener::isLocal and Listener::receiveMessage of Connect/listener.cpp: the text messages that the
-- client is sent. A `goto error` is a result with the status that is answered.
pub mod Accept
use tycho_sipwitchqt.Prelude.{
  ℕ, Bool, true, false, not, ◌&&◌, ◌||◌, Option, none, some, List, [], ◌∷◌, ◌++◌, eqb, ltb,
  if◌then◌else◌, length,
}
use tycho_sipwitchqt.Prelude.Int.{ℤ, pos}
use tycho_sipwitchqt.UString.{Bytes, codes, eq_bytes}
use tycho_sipwitchqt.Util.{to_u16}
use tycho_sipwitchqt.Connect.{
  Foreign, sip_ok, sip_undecipherable, sip_address_incomplete, sip_ambiguous,
  sip_not_acceptable_here, sip_message_too_large,
}
use tycho_sipwitchqt.Connect.Listener.{Listener, Text, receive_text, Action, emit, answer}

-- The uri of a To or a From; `text` is osip_uri_to_str.
pub record Address : Type 0 where
  pub username : Option Bytes
  pub host : Bytes
  pub port : Option Bytes
  pub text : Option Bytes

pub record ContentType : Type 0 where
  pub type : Option Bytes
  pub subtype : Option Bytes

-- An incoming MESSAGE. `to` and `from` are `none` where the header or its uri is not there, a header
-- where it is not there or has no value.
pub record Incoming : Type 0 where
  pub to : Option Address
  pub from : Option Address
  pub type : Option ContentType
  pub body : Option Bytes
  pub x_ms : Option Bytes
  pub x_ts : Option Bytes
  pub subject : Option Bytes

pub data Checked {ℓ} (A : Type ℓ) : Type ℓ where
  go : A → Checked A
  error : ℕ → Checked A

infixl 5 ◌>>=◌ ◌>>◌
abbrev pub ◌>>=◌ {ℓ κ} : {A : Type ℓ} {B : Type κ} → Checked A → (A → Checked B) → Checked B
go a >>= k = k a
error status >>= k = error status

abbrev pub ◌>>◌ {ℓ} : {B : Type ℓ} → Checked (Unit {0}) → Checked B → Checked B
m >> k = m >>= λ _. k

abbrev pub reject_if : Bool → ℕ → Checked (Unit {0})
reject_if true status = error status
reject_if false status = go tt

abbrev pub need {ℓ} : {A : Type ℓ} → Option A → ℕ → Checked A
need none status = error status
need (some a) status = go a

-- The body, the type and the type's text.
unfoldable pub readable : Incoming → Checked (Bytes × Bytes)
readable msg = do
  body ← need msg.body sip_undecipherable
  type ← need msg.type sip_undecipherable
  text ← need type.type sip_undecipherable
  go (body, elim type.subtype [ none ↦ text | some subtype ↦ text ++ (b'/' ∷ subtype) ])

-- An address with a user, and that user.
unfoldable pub named : Option Address → Checked (Address × Bytes)
named address = do
  a ← need address sip_address_incomplete
  user ← need a.username sip_address_incomplete
  go (a, user)

module _ (f : Foreign) where
  unfoldable pub is_local : Listener → Address → Bool
  is_local l a =
      let base : ℕ = if ltb 0 l.tls then 5061 else 5060 in
      let port : ℕ = elim a.port [ none ↦ base | some text ↦ to_u16 (f.atoi text) ] in
      if eq_bytes a.host l.server_host && eqb port l.server_port
      then true
      else if not (eq_bytes a.host l.server_host)
      then false
      else if eqb l.server_port 0 && eqb port base
      then true
      else eqb l.server_port base && eqb port 0

  -- The local user, with every name of the own account made the own extension; or the whole uri.
  unfoldable pub party : Listener → Address × Bytes → Checked Bytes
  unfolding is_local
  party l (a, id) =
      if is_local l a
      then go (
          if not (eq_bytes id l.server_id) && not (eq_bytes id l.server_user)
          then id
          else l.server_id)
      else need a.text sip_address_incomplete

  unfoldable pub headed : Incoming → Bytes → Bytes → Bytes → Bytes → Text
  headed msg from to type body = record {
    from = from;
    to = to;
    text = body;
    timestamp = elim msg.x_ts [ none ↦ none | some ts ↦ some (f.date ts) ];
    sequence = elim msg.x_ms [ none ↦ pos 0 | some ms ↦ f.atoi ms ];
    subject = elim msg.subject [ none ↦ codes "None" | some subject ↦ subject ];
    type = type;
  }

  -- The checks from the comparison of the two parties on.
  unfoldable pub judge : Incoming → Bytes × Bytes → Bytes → Bytes → Checked Text
  unfolding headed
  judge msg content sip_to sip_from = do
    reject_if (eq_bytes sip_to sip_from) sip_ambiguous
    reject_if
        (not (eq_bytes content.1 (codes "text/plain"))
          && not (eq_bytes content.1 (codes "text/admin")))
        sip_not_acceptable_here
    reject_if (ltb 160 (length content.0)) sip_message_too_large
    go (headed msg sip_from sip_to content.1 content.0)

  unfoldable pub receive : Listener → Incoming → Checked Text
  unfolding party judge
  receive l msg = do
    content ← readable msg
    to ← named msg.to
    from ← named msg.from
    sip_to ← party l to
    sip_from ← party l from
    judge msg content sip_to sip_from

  unfoldable pub receive_message : Listener → Incoming → List Action
  receive_message l msg = elim (receive l msg) [
    | go text ↦ emit (receive_text text) ∷ answer sip_ok ∷ []
    | error status ↦ answer status ∷ []
  ]
