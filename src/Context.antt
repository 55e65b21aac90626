-- ===== src/Context.antt =====
-- Server/context.cpp: the event loop's filter, `Context::process`, with the answers that it gives and
-- the signals that it emits, and the uris that a context writes. eXosip's calls that answer a
-- transaction are the constructors of `Emission`.
pub mod Conditions
pub mod Filter
pub mod Messages
pub mod Serve
pub mod Tests
use Prim.Native.Nat.{bit_and}
use tycho_sipwitchqt.Prelude.{
  ℕ, zero, suc, ◌<◌, String, ◌==◌, Bool, true, false, not, ◌&&◌, ◌||◌, Option, none, some, List, [],
  ◌∷◌, ◌++◌, ltb, eqb, if◌then◌else◌, length,
}
use tycho_sipwitchqt.Prelude.Int.{ℤ, pos, negsuc, ltb_ℤ}
use tycho_sipwitchqt.UString.{Bytes, eq_bytes, codes, quote, contains, escape}
use tycho_sipwitchqt.Contact.{Contact}
use tycho_sipwitchqt.Sip.{
  Event, EventType, message_new, message_answered, message_requestfailure, other, Status, ok,
  forbidden, method_not_allowed, address_incomplete, not_acceptable_here,
}

-- The signals of a context that carry an event.
pub data Request : Type 0 where
  options register roster profile coverage forwarding admin drop membership topic : Request
  devlist devkill deauthorize authorize pending ack_pending : Request
  local_message outbound_message : Request

-- A reply, Context::answerWithTimestamp, a signal with the event, and MESSAGE_RESPONSE.
pub data Emission : Type 0 where
  replied answered : Status → Emission
  request : Request → Emission
  message_response : String → String → ℤ → Emission

-- What the filter reads of a context: `netProto == IPPROTO_TCP` and `allow`.
pub record Context : Type 0 where
  pub tcp : Bool
  pub allow : ℕ

abbrev pub Result : Type 0
Result = List Emission × Bool

-- Context::reply
unfoldable pub reply : Event → Status → Result
reply ev code = elim ev.type [
  | message_new ↦ (replied code ∷ [], true)
  | message_answered ↦ ([], false)
  | message_requestfailure ↦ ([], false)
  | other ↦ ([], false)
]

unfoldable message_response_of : Event → List Emission
message_response_of ev = elim ev.mid [
  | none ↦ []
  | some mid ↦ elim ev.ep [
    | none ↦ []
    | some ep ↦ if ltb_ℤ (pos 0) ev.status then message_response mid ep ev.status ∷ [] else []
  ]
]

abbrev pub emit_only : Request → Result
emit_only q = (request q ∷ [], false)

-- After `break` the function returns true.
abbrev pub emit_break : Request → Result
emit_break q = (request q ∷ [], true)

abbrev pub has_to_user : Event → Bool
has_to_user ev = elim ev.to_user [ none ↦ false | some u ↦ true ]

-- ev.number() < 1 || ev.label() == "NONE" || netProto != IPPROTO_TCP
abbrev pub not_client : Context → Event → Bool
not_client ctx ev = ltb_ℤ ev.number (pos 1) || (ev.label == "NONE" || not ctx.tcp)

-- The guards of the requests that are addressed to a local user, and then the rest.
abbrev pub addressed : Context → Event → Result → Result
addressed ctx ev rest =
    if not (has_to_user ev)
    then reply ev address_incomplete
    else if ltb_ℤ ev.number (pos 1) || not ev.to_local
    then reply ev forbidden
    else if ev.label == "NONE" || not ctx.tcp
    then reply ev method_not_allowed
    else rest

abbrev pub client_only : Context → Event → Result → Result
client_only ctx ev rest = if not_client ctx ev then reply ev method_not_allowed else rest

unfoldable pub on_options : Event → Result
on_options ev = if ev.is_local && not ev.target_user then reply ev ok else emit_break options

-- `allow & Allow::REGISTRY`
unfoldable pub on_register : Context → Event → Result
on_register ctx ev =
    if eqb (bit_and ctx.allow 256) 0
    then reply ev method_not_allowed
    else if ltb_ℤ ev.number (pos 1)
    then reply ev forbidden
    else emit_break register

unfoldable pub on_profile : Context → Event → Result
on_profile ctx ev = addressed ctx ev (
    if not (ev.content_type == "profile/json") && ltb 0 (length ev.body)
    then reply ev not_acceptable_here
    else emit_only profile)

-- X-ADMIN, X-DROP and X-MEMBERSHIP, which have no body.
unfoldable pub on_bodiless : Request → Context → Event → Result
on_bodiless q ctx ev =
    addressed ctx ev (if ltb 0 (length ev.body) then reply ev not_acceptable_here else emit_only q)

-- The guards that X-DEAUTHORIZE and X-AUTHORIZE share; they come in another order.
abbrev pub authorizing : Context → Event → Result → Result
authorizing ctx ev rest = client_only ctx ev (
    if not (has_to_user ev)
    then reply ev address_incomplete
    else if not ev.to_local
    then reply ev forbidden
    else rest)

unfoldable pub on_authorize : Context → Event → Result
on_authorize ctx ev = authorizing ctx ev (
    if not (ev.content_type == "authorize/json") || ltb (length ev.body) 1
    then reply ev not_acceptable_here
    else emit_only authorize)

unfoldable pub on_ack_pending : Event → Result
on_ack_pending ev =
    if ltb_ℤ ev.number (pos 1) || ev.label == "NONE"
    then reply ev method_not_allowed
    else emit_only ack_pending

abbrev and_reply : List Emission → Event → Result
and_reply sent ev = let (after, result) = reply ev not_acceptable_here in (sent ++ after, result)

-- MESSAGE's branch ends without a `return`, so that the reply after it follows.
unfoldable pub on_message : Event → Result
on_message ev =
    if not (has_to_user ev)
    then reply ev address_incomplete
    else if ltb_ℤ ev.number (pos 1) && not ev.to_local
    then reply ev forbidden
    else if ev.to_local && ltb_ℤ ev.number (pos 0)
    then and_reply (request local_message ∷ []) ev
    else if not ev.from_complete
    then reply ev address_incomplete
    else if not (ev.content_type == "text/plain") || ltb 160 (length ev.body)
    then reply ev forbidden
    else if ev.to_local
    then and_reply
        ((if ltb_ℤ (pos 0) ev.number && not (ev.label == "NONE") then answered ok ∷ [] else [])
          ++ request local_message ∷ [])
        ev
    else and_reply (request outbound_message ∷ []) ev

-- The case EXOSIP_MESSAGE_NEW: the methods in the order of the source.
unfoldable pub on_new : Context → Event → Result
on_new ctx ev =
    let m = ev.method in
    if m == "OPTIONS"
    then on_options ev
    else if m == "REGISTER"
    then on_register ctx ev
    else if m == "X-ROSTER"
    then client_only ctx ev (emit_only roster)
    else if m == "X-PROFILE"
    then on_profile ctx ev
    else if m == "X-COVERAGE"
    then addressed ctx ev (emit_only coverage)
    else if m == "X-FORWARDING"
    then addressed ctx ev (emit_only forwarding)
    else if m == "X-ADMIN"
    then on_bodiless admin ctx ev
    else if m == "X-DROP"
    then on_bodiless drop ctx ev
    else if m == "X-MEMBERSHIP"
    then on_bodiless membership ctx ev
    else if m == "X-TOPIC"
    then addressed ctx ev (emit_only topic)
    else if m == "X-DEVLIST"
    then client_only ctx ev (emit_only devlist)
    else if m == "X-DEVKILL"
    then client_only ctx ev (emit_only devkill)
    else if m == "X-DEAUTHORIZE"
    then authorizing ctx ev (emit_only deauthorize)
    else if m == "X-AUTHORIZE"
    then on_authorize ctx ev
    else if m == "X-PENDING"
    then client_only ctx ev (emit_only pending)
    else if m == "A-PENDING"
    then on_ack_pending ev
    else if m == "MESSAGE"
    then on_message ev
    else reply ev not_acceptable_here

unfoldable pub process : Context → Event → Result
unfolding message_response_of
process ctx ev = elim ev.type [
  | message_new ↦ on_new ctx ev
  | message_answered ↦ (if ev.sent_method == "MESSAGE" then message_response_of ev else [], true)
  | message_requestfailure ↦
      (if ev.sent_method == "MESSAGE" then message_response_of ev else [], true)
  | other ↦ ([], true)
]
