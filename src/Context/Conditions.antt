-- ===== src/Context/Conditions.antt =====
-- The conditions under which `Context::process` passes a request on.
use Prim.Native.Nat.{bit_and}
use tycho_sipwitchqt.Prelude.{String, false, ◌≡◌, ◌≢◌, ◌≤◌, true, none, ◌⊎◌, length}
use tycho_sipwitchqt.Prelude.Int.{pos, negsuc, ◌≤ℤ◌}
use tycho_sipwitchqt.Sip.{Event}
use tycho_sipwitchqt.Context.{
  Request, options, register, roster, profile, coverage, forwarding, admin, drop, membership, topic,
  devlist, devkill, deauthorize, authorize, pending, ack_pending, local_message, outbound_message,
  Emission, replied, answered, request, message_response, Context,
}

-- A local number with a client's label, over TCP or TLS.
pub record IsClient (ctx : Context) (ev : Event) : Type 0 where
  pub number : pos 1 ≤ℤ ev.number
  pub label : ev.label ≢ "NONE"
  pub tcp : ctx.tcp ≡ true

-- A request of a client that is addressed to a local user.
pub record IsAddressed (ctx : Context) (ev : Event) : Type 0 where
  pub client : IsClient ctx ev
  pub to_local : ev.to_local ≡ true
  pub to_user : ev.to_user ≢ none

-- A text of a message: plain, of at most 160 bytes, with a user and a host in From.
pub record IsText (ev : Event) : Type 0 where
  pub from_complete : ev.from_complete ≡ true
  pub content : ev.content_type ≡ "text/plain"
  pub short : length ev.body ≤ 160

-- The method that a request comes with.
abbrev pub method_of : Request → String
method_of options = "OPTIONS"
method_of register = "REGISTER"
method_of roster = "X-ROSTER"
method_of profile = "X-PROFILE"
method_of coverage = "X-COVERAGE"
method_of forwarding = "X-FORWARDING"
method_of admin = "X-ADMIN"
method_of drop = "X-DROP"
method_of membership = "X-MEMBERSHIP"
method_of topic = "X-TOPIC"
method_of devlist = "X-DEVLIST"
method_of devkill = "X-DEVKILL"
method_of deauthorize = "X-DEAUTHORIZE"
method_of authorize = "X-AUTHORIZE"
method_of pending = "X-PENDING"
method_of ack_pending = "A-PENDING"
method_of local_message = "MESSAGE"
method_of outbound_message = "MESSAGE"

-- What holds of the event and the context when a request is let through.
abbrev pub IsAllowed : Context → Event → Request → Type 0
IsAllowed ctx ev options = (ev.is_local ≡ false) ⊎ (ev.target_user ≡ true)
IsAllowed ctx ev register = (bit_and ctx.allow 256 ≢ 0) × (pos 1 ≤ℤ ev.number)
IsAllowed ctx ev roster = IsClient ctx ev
IsAllowed ctx ev profile =
    IsAddressed ctx ev × ((ev.content_type ≡ "profile/json") ⊎ (length ev.body ≡ 0))
IsAllowed ctx ev coverage = IsAddressed ctx ev
IsAllowed ctx ev forwarding = IsAddressed ctx ev
IsAllowed ctx ev admin = IsAddressed ctx ev × (length ev.body ≡ 0)
IsAllowed ctx ev drop = IsAddressed ctx ev × (length ev.body ≡ 0)
IsAllowed ctx ev membership = IsAddressed ctx ev × (length ev.body ≡ 0)
IsAllowed ctx ev topic = IsAddressed ctx ev
IsAllowed ctx ev devlist = IsClient ctx ev
IsAllowed ctx ev devkill = IsClient ctx ev
IsAllowed ctx ev deauthorize = IsAddressed ctx ev
IsAllowed ctx ev authorize =
    IsAddressed ctx ev × (ev.content_type ≡ "authorize/json") × (1 ≤ length ev.body)
IsAllowed ctx ev pending = IsClient ctx ev
IsAllowed ctx ev ack_pending = (pos 1 ≤ℤ ev.number) × (ev.label ≢ "NONE")
IsAllowed ctx ev local_message =
    (ev.to_local ≡ true) × (ev.to_user ≢ none) × ((ev.number ≤ℤ negsuc 0) ⊎ IsText ev)
IsAllowed ctx ev outbound_message =
    (ev.to_local ≡ false) × (ev.to_user ≢ none) × (pos 1 ≤ℤ ev.number) × IsText ev

abbrev pub IsFine : Context → Event → Emission → Type 0
IsFine ctx ev (replied st) = Unit
IsFine ctx ev (answered st) = Unit
IsFine ctx ev (request q) = (ev.method ≡ method_of q) × IsAllowed ctx ev q
IsFine ctx ev (message_response m e st) = Unit
