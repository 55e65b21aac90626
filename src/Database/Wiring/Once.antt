-- ===== src/Database/Wiring/Once.antt =====
-- From a context's signal through the manager to the database: how often a request is answered.
use tycho_sipwitchqt.Prelude.{
  ℕ, suc, ◌+◌, String, ◌≡◌, refl, ◌∙◌, Bool, true, false, some, List, [], ◌∷◌, ◌++◌, inl, inr,
  arith,
}
use tycho_sipwitchqt.UString.{Bytes}
use tycho_sipwitchqt.Sip.{Event, Algorithm}
use tycho_sipwitchqt.Registry.{Registry, Store}
use tycho_sipwitchqt.Registry.Invariant.{Inv}
use tycho_sipwitchqt.Manager.{
  Action, Uri, reply, challenge, authorized, emit, relay, request_roster, request_profile, gate,
  ack_pending, request_authorize, request_pending, request_devkill, request_devlist, request_topic,
  request_forwarding, request_coverage, request_drop, request_admin, request_membership,
}
use tycho_sipwitchqt.Manager.Register.{Served}
use tycho_sipwitchqt.Manager.Gate.{IsAnswer, gate-IsGated}
use tycho_sipwitchqt.Context.{Request, Context}
use tycho_sipwitchqt.Context.Serve.{deliver, over_tcp, granted}
use tycho_sipwitchqt.Database.Tables.{Db}
use tycho_sipwitchqt.Database.Outbox
use tycho_sipwitchqt.Database.Outbox.{Qt, Posted}
use tycho_sipwitchqt.Database.Accounts.{Config}
use tycho_sipwitchqt.Database.Profile.{Sent}
use tycho_sipwitchqt.Database.Answers.{answers, answers-append}
use tycho_sipwitchqt.Database.Answers.Every.{handlers-Once}
use tycho_sipwitchqt.Database.Wiring.{Told, sent, pending, all_sent, all_pending, slot, carry}

-- The answers of the manager itself.
abbrev pub own_answers : List Action → ℕ
own_answers [] = 0
own_answers (emit signal ∷ acts) = own_answers acts
own_answers (relay ∷ acts) = own_answers acts
own_answers (_ ∷ acts) = suc (own_answers acts)

-- The answers among what a slot sends.
abbrev pub told_answers : List Told → ℕ
told_answers [] = 0
told_answers (sent s ∷ told) = answers (s ∷ []) + told_answers told
told_answers (pending (Posted.send_message e p) ∷ told) = told_answers told
told_answers (_ ∷ told) = suc (told_answers told)

-- The requests that the manager passes to the database's own thread; the removal of an account goes to
-- the lookup's.
abbrev pub is_stored : Request → Bool
is_stored Request.options = false
is_stored Request.register = false
is_stored Request.deauthorize = false
is_stored Request.local_message = false
is_stored Request.outbound_message = false
is_stored _ = true

told-all_sent : (out : List Sent) → told_answers (all_sent out ++ []) ≡ answers out
unfolding all_sent
told-all_sent [] = refl
told-all_sent (s ∷ out) = ground (arith, told-all_sent out, answers-append (s ∷ []) out)

one-all_sent : (out : List Sent) → answers out ≡ 1 → 0 + told_answers (all_sent out ++ []) ≡ 1
one-all_sent out once = omega (arith, told-all_sent out, once)

pending_once :
    (endpoint : ℕ) (d : Db)
    → 0 + told_answers (all_pending (Outbox.send_pending endpoint d).1 ++ []) ≡ 1
unfolding all_pending Outbox.send_pending
pending_once endpoint d = ground arith

module _ (qt : Qt) (cfg : Config) (agent : Event → String) (device_key : Event → Bytes)
    (uri : Uri → String) (hash : Algorithm → String → String) (hex : Bytes → String) where
  granted-once :
      (q : Request) (r : Registry) (ev : Event) (d : Db)
      → is_stored q ≡ true
      → own_answers (granted hash hex q r)
          + told_answers (carry qt cfg agent device_key uri ev (granted hash hex q r) d).1
        ≡ 1
  unfolding carry slot
  granted-once Request.roster r ev d is = refl
  granted-once Request.devlist r ev d is = refl
  granted-once Request.ack_pending r ev d is = refl
  granted-once Request.pending r ev d is = pending_once r.endpoint d
  granted-once Request.profile r ev d is =
      one-all_sent _ (handlers-Once qt cfg ev r.user r.endpoint d).0
  granted-once Request.authorize r ev d is =
      one-all_sent _ (handlers-Once qt cfg ev r.user r.endpoint d).1
  granted-once Request.topic r ev d is =
      one-all_sent _ (handlers-Once qt cfg ev r.user r.endpoint d).2
  granted-once Request.forwarding r ev d is =
      one-all_sent _ (handlers-Once qt cfg ev r.user r.endpoint d).3
  granted-once Request.coverage r ev d is =
      one-all_sent _ (handlers-Once qt cfg ev r.user r.endpoint d).4
  granted-once Request.drop r ev d is =
      one-all_sent _ (handlers-Once qt cfg ev r.user r.endpoint d).5
  granted-once Request.admin r ev d is =
      one-all_sent _ (handlers-Once qt cfg ev r.user r.endpoint d).6
  granted-once Request.membership r ev d is =
      one-all_sent _ (handlers-Once qt cfg ev r.user r.endpoint d).7
  granted-once Request.devkill r ev d is =
      one-all_sent _ (handlers-Once qt cfg ev r.user r.endpoint d).8
  granted-once q r ev d is = cc is

  -- An answer of the manager alone.
  refused :
      (a : Action) (ev : Event) (d : Db)
      → IsAnswer a
      → own_answers (a ∷ []) + told_answers (carry qt cfg agent device_key uri ev (a ∷ []) d).1 ≡ 1
  unfolding carry
  refused (emit g) ev d quiet = absurd quiet
  refused relay ev d quiet = absurd quiet
  refused (reply code) ev d quiet = refl
  refused (challenge c) ev d quiet = refl
  refused (authorized expires xdp) ev d quiet = refl

  deliver-gate :
      (ctx : Context) (nonce : Bytes) (served : Served) (q : Request) (now : ℕ) (ev : Event)
      (s : Store)
      → ctx.tcp ≡ true
      → is_stored q ≡ true
      → deliver hash hex ctx nonce served q now ev s ≡ gate hash hex now ev (granted hash hex q) s
  unfolding deliver over_tcp ack_pending request_authorize request_pending request_devkill
      request_devlist request_topic request_forwarding request_coverage request_drop request_admin
      request_membership request_profile request_roster
  deliver-gate ctx nonce served q now ev s tcp is = ground (arith, tcp, is)

  -- A request on accounts, groups, devices, rosters or pending messages that comes over TCP, but for the
  -- removal of an account, in every store that has the registry's invariant, and whichever of the
  -- database's statements fail: the manager's handler uses no deleted object and keeps the invariant, and
  -- the manager and the database together answer the request exactly once.
  pub deliver-once :
      (ctx : Context) (nonce : Bytes) (served : Served) (q : Request) (now : ℕ) (ev : Event)
      (s : Store) (d : Db)
      → ctx.tcp ≡ true
      → is_stored q ≡ true
      → Inv s
      → (o : Store × List Action) × (deliver hash hex ctx nonce served q now ev s ≡ some o)
        × Inv o.0
        × (own_answers o.1 + told_answers (carry qt cfg agent device_key uri ev o.1 d).1 ≡ 1)
  deliver-once ctx nonce served q now ev s d tcp is inv =
      let (o, e, inv', gated) = gate-IsGated hash hex now ev (granted hash hex q) s inv in
      (
        o,
        deliver-gate ctx nonce served q now ev s tcp is ∙ e,
        inv',
        elim gated [
          | inl (a, alone, quiet) ↦ rw alone (refused a ev d quiet)
          | inr (r, trusted, same) ↦ rw same (granted-once q r ev d is)
        ],
      )
