-- ===== src/Manager.antt =====
-- Server/manager.cpp: what the manager does with the events of the contexts. A handler takes the
-- registry's store to a new one and to the list of what it sends: answers to the event, and signals to
-- the database threads. `none` is a use of a deleted registration. The nonce that
-- `eXosip_generate_random` would give is an argument of the handlers that make one.
pub mod Gate
pub mod Register
pub mod Refresh
pub mod Endpoints
pub mod Deliver
pub mod Body
pub mod Tests
use tycho_sipwitchqt.Prelude.{
  ℕ, zero, suc, String, ◌==◌, Bool, true, false, not, ◌&&◌, ◌||◌, Option, none, some, List, [], ◌∷◌,
  ◌++◌, if◌then◌else◌,
}
use tycho_sipwitchqt.Prelude.Int.{ℤ, pos, negsuc, eqb_ℤ, ltb_ℤ}
use tycho_sipwitchqt.UString.{Bytes}
use tycho_sipwitchqt.Util.{div_ℤ}
use tycho_sipwitchqt.Contact.{Contact}
use tycho_sipwitchqt.Sip.{Event, Status, ok, forbidden, not_found, Algorithm}
use tycho_sipwitchqt.Registry.{
  Registry, Endpoint, Store, Found, write, create, destroy, has_expired, find_event, find_endpoint,
  bitmask, cleanup,
}
use tycho_sipwitchqt.Registry.Access.{set_nounce, authenticate, authorize}

-- What a 401 answer carries; `user` is the X-Authorize header.
pub record Challenge : Type 0 where
  pub nonce : Bytes
  pub realm : String
  pub algorithm : String
  pub expires : ℤ
  pub user : Option String

-- The uri of a registration: its context and address, or `none` for the text "none".
abbrev pub Uri : Type 0
Uri = Option (ℕ × Contact)

-- The body of the answer to a labelled registration.
pub record Xdp : Type 0 where
  pub privs : String
  pub display : String
  pub first : ℕ
  pub last : ℕ
  pub roster : ℕ
  pub sequence : ℕ
  pub route : Contact
  pub online : Bytes

-- The manager's signals, with what they carry beside the event.
pub data Signal : Type 0 where
  find_endpoint_for send_devlist change_topic change_authorize remove_authorize : Signal
  change_pending : ℕ → Signal
  send_roster send_pending : ℕ → Signal
  change_profile change_coverage drop_extension change_admin : String → ℕ → Signal
  change_membership change_forwarding remove_device : String → ℕ → Signal
  last_access : ℕ → Uri → Signal

-- An answer, a signal of the manager, or the context's LOCAL_MESSAGE, which goes past the manager to the
-- database.
pub data Action : Type 0 where
  reply : Status → Action
  challenge : Challenge → Action
  authorized : ℤ → Option Xdp → Action
  emit : Signal → Action
  relay : Action

abbrev pub Outcome : Type 0
Outcome = Option (Store × List Action)

-- expires(): whole seconds of the timeout.
abbrev pub expires_of : Registry → ℤ
expires_of r = div_ℤ r.timeout 1000

-- Context::challenge, with the nonce that the answer carries.
unfoldable pub challenge_with : Event → Registry → Bytes → Action
challenge_with ev r nonce = challenge (record {
  nonce = nonce;
  realm = r.realm;
  algorithm = r.digest;
  expires = expires_of r;
  user = if ev.initialize == "label" || ev.initialize == "user" then some r.user else none;
})

abbrev pub put : ℕ → Registry → Store → Store
put p r s = record s { heap = write p r s.heap }

-- uri()
unfoldable pub uri_of : Registry → Uri
uri_of r = elim r.context [ none ↦ none | some c ↦ if r.active then some (c, r.address) else none ]

module _ (hash : Algorithm → String → String) (hex : Bytes → String) where
  -- The body that the request handlers share: 403 for an unknown registration, a challenge with the
  -- present nonce for an event without authorization, the refusal of `authenticate`, or the rest.
  unfoldable pub when_authentic : ℕ → Event → Registry → List Action → List Action
  when_authentic now ev r rest = elim (authenticate hash hex now ev r) [
    | ok ↦ rest
    | refusal ↦ reply refusal ∷ []
  ]

  unfoldable pub gate_found : ℕ → Event → (Registry → List Action) → Found → Store × List Action
  unfolding when_authentic
  gate_found now ev rest (s, none) = (s, reply forbidden ∷ [])
  gate_found now ev rest (s, some (p, r)) =
      if not ev.authorization
      then (s, challenge_with ev r r.random ∷ [])
      else (s, when_authentic now ev r (rest r))

  unfoldable pub gate : ℕ → Event → (Registry → List Action) → Store → Outcome
  gate now ev rest s = elim (find_event now ev s) [
    | none ↦ none
    | some f ↦ some (gate_found now ev rest f)
  ]

  unfoldable pub ack_pending : ℕ → Event → Store → Outcome
  ack_pending now ev = gate now ev (λ r. reply ok ∷ emit (change_pending r.endpoint) ∷ [])

  unfoldable pub request_deauthorize : ℕ → Event → Store → Outcome
  request_deauthorize now ev = gate now ev (λ r. emit remove_authorize ∷ [])

  unfoldable pub request_authorize : ℕ → Event → Store → Outcome
  request_authorize now ev = gate now ev (λ r. emit change_authorize ∷ [])

  unfoldable pub request_pending : ℕ → Event → Store → Outcome
  request_pending now ev = gate now ev (λ r. emit (send_pending r.endpoint) ∷ [])

  unfoldable pub request_devkill : ℕ → Event → Store → Outcome
  request_devkill now ev = gate now ev (λ r. emit (remove_device r.user r.endpoint) ∷ [])

  unfoldable pub request_devlist : ℕ → Event → Store → Outcome
  request_devlist now ev = gate now ev (λ r. emit send_devlist ∷ [])

  unfoldable pub request_topic : ℕ → Event → Store → Outcome
  request_topic now ev = gate now ev (λ r. emit change_topic ∷ [])

  unfoldable pub request_forwarding : ℕ → Event → Store → Outcome
  request_forwarding now ev = gate now ev (λ r. emit (change_forwarding r.user r.endpoint) ∷ [])

  unfoldable pub request_coverage : ℕ → Event → Store → Outcome
  request_coverage now ev = gate now ev (λ r. emit (change_coverage r.user r.endpoint) ∷ [])

  unfoldable pub request_drop : ℕ → Event → Store → Outcome
  request_drop now ev = gate now ev (λ r. emit (drop_extension r.user r.endpoint) ∷ [])

  unfoldable pub request_admin : ℕ → Event → Store → Outcome
  request_admin now ev = gate now ev (λ r. emit (change_admin r.user r.endpoint) ∷ [])

  unfoldable pub request_membership : ℕ → Event → Store → Outcome
  request_membership now ev = gate now ev (λ r. emit (change_membership r.user r.endpoint) ∷ [])

  unfoldable pub request_profile : ℕ → Event → Store → Outcome
  request_profile now ev = gate now ev (λ r. emit (change_profile r.user r.endpoint) ∷ [])

  unfoldable pub request_roster : ℕ → Event → Store → Outcome
  request_roster now ev = gate now ev (λ r. emit (send_roster r.endpoint) ∷ [])
