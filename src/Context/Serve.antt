-- ===== src/Context/Serve.antt =====
-- The connections that `Context::run` makes, from a context's signals to the manager's handlers and to
-- the database.
use Prim.Native.Nat.{bit_and}
use tycho_sipwitchqt.Prelude.{
  ℕ, String, ◌≡◌, ◌≢◌, refl, ◌∙◌, true, false, Bool-cases, some, List, [], ◌∷◌, ◌⊎◌, inl, inr, eqb,
  if◌then◌else◌,
}
use tycho_sipwitchqt.UString.{Bytes}
use tycho_sipwitchqt.Sip.{Event, ok, Algorithm}
use tycho_sipwitchqt.Registry.{Registry, Store}
use tycho_sipwitchqt.Registry.Invariant.{Inv}
use tycho_sipwitchqt.Manager
use tycho_sipwitchqt.Manager.{
  Action, Signal, Outcome, emit, change_pending, remove_authorize, change_authorize, send_pending,
  remove_device, send_devlist, change_topic, change_forwarding, change_coverage, drop_extension,
  change_admin, change_membership, change_profile, send_roster, ack_pending, request_deauthorize,
  request_authorize, request_pending, request_devkill, request_devlist, request_topic,
  request_forwarding, request_coverage, request_drop, request_admin, request_membership,
  request_profile, request_roster, gate,
}
use tycho_sipwitchqt.Manager.Register.{Served, refresh_registration}
use tycho_sipwitchqt.Manager.Gate.{IsGated, gate-IsGated}
use tycho_sipwitchqt.Context.{Request, Context}

-- Context::run: which handler of the manager a signal goes to. OPTIONS and OUTBOUND_MESSAGE are
-- connected to none, and LOCAL_MESSAGE to Database::localMessage, whoever sent it.
module _ (hash : Algorithm → String → String) (hex : Bytes → String) where
  unfoldable pub over_tcp : Context → (ℕ → Event → Store → Outcome) → ℕ → Event → Store → Outcome
  over_tcp ctx handler now ev s = if ctx.tcp then handler now ev s else some (s, [])

  unfoldable pub deliver : Context → Bytes → Served → Request → ℕ → Event → Store → Outcome
  unfolding over_tcp
  deliver ctx nonce served q now ev s = elim q [
    | Request.register ↦
        if eqb (bit_and ctx.allow 256) 0
        then some (s, [])
        else refresh_registration hash hex now nonce served ev s
    | Request.roster ↦ over_tcp ctx (request_roster hash hex) now ev s
    | Request.profile ↦ over_tcp ctx (request_profile hash hex) now ev s
    | Request.devlist ↦ over_tcp ctx (request_devlist hash hex) now ev s
    | Request.pending ↦ over_tcp ctx (request_pending hash hex) now ev s
    | Request.authorize ↦ over_tcp ctx (request_authorize hash hex) now ev s
    | Request.deauthorize ↦ over_tcp ctx (request_deauthorize hash hex) now ev s
    | Request.membership ↦ over_tcp ctx (request_membership hash hex) now ev s
    | Request.forwarding ↦ over_tcp ctx (request_forwarding hash hex) now ev s
    | Request.admin ↦ over_tcp ctx (request_admin hash hex) now ev s
    | Request.drop ↦ over_tcp ctx (request_drop hash hex) now ev s
    | Request.coverage ↦ over_tcp ctx (request_coverage hash hex) now ev s
    | Request.topic ↦ over_tcp ctx (request_topic hash hex) now ev s
    | Request.ack_pending ↦ over_tcp ctx (ack_pending hash hex) now ev s
    | Request.devkill ↦ over_tcp ctx (request_devkill hash hex) now ev s
    | Request.options ↦ some (s, [])
    | Request.local_message ↦ some (s, Manager.relay ∷ [])
    | Request.outbound_message ↦ some (s, [])
  ]

  -- What a trusted registration's request becomes: the signal to the database, with the registration's
  -- own user and endpoint.
  abbrev pub granted : Request → Registry → List Action
  granted Request.options r = []
  granted Request.register r = []
  granted Request.roster r = emit (send_roster r.endpoint) ∷ []
  granted Request.profile r = emit (change_profile r.user r.endpoint) ∷ []
  granted Request.coverage r = emit (change_coverage r.user r.endpoint) ∷ []
  granted Request.forwarding r = emit (change_forwarding r.user r.endpoint) ∷ []
  granted Request.admin r = emit (change_admin r.user r.endpoint) ∷ []
  granted Request.drop r = emit (drop_extension r.user r.endpoint) ∷ []
  granted Request.membership r = emit (change_membership r.user r.endpoint) ∷ []
  granted Request.topic r = emit change_topic ∷ []
  granted Request.devlist r = emit send_devlist ∷ []
  granted Request.devkill r = emit (remove_device r.user r.endpoint) ∷ []
  granted Request.deauthorize r = emit remove_authorize ∷ []
  granted Request.authorize r = emit change_authorize ∷ []
  granted Request.pending r = emit (send_pending r.endpoint) ∷ []
  granted Request.ack_pending r = Manager.reply ok ∷ emit (change_pending r.endpoint) ∷ []
  granted Request.local_message r = []
  granted Request.outbound_message r = []

  module _ (ctx : Context) (nonce : Bytes) (served : Served) (now : ℕ) (ev : Event) (s : Store)
      (inv : Inv s) where
    -- A request that is only connected over TCP: nothing, or over TCP one answer without a signal or what
    -- the request becomes for a trusted registration.
    abbrev pub IsOverTcp : Request → Store × List Action → Type 0
    IsOverTcp q o =
        ((ctx.tcp ≡ false) × (o ≡ (s, [])))
        ⊎ ((ctx.tcp ≡ true) × IsGated hash hex now ev (granted q) o)

    -- What becomes of a request; a local message goes to the database without a look at the registry.
    abbrev pub IsServed : Request → Store × List Action → Type 0
    IsServed Request.options o = o ≡ (s, [])
    IsServed Request.outbound_message o = o ≡ (s, [])
    IsServed Request.local_message o = o ≡ (s, Manager.relay ∷ [])
    IsServed q o = IsOverTcp q o

    through :
        (q : Request) (handler : ℕ → Event → Store → Outcome)
        → handler now ev s ≡ gate hash hex now ev (granted q) s
        → (o : Store × List Action) × (over_tcp ctx handler now ev s ≡ some o)
          × Inv o.0
          × IsOverTcp q o
    unfolding over_tcp
    through q handler e = elim (Bool-cases ctx.tcp) [
      | inl tcp ↦
          let (o, k, i, g) = gate-IsGated hash hex now ev (granted q) s inv in
          (o, rw (over_tcp, tcp) (e ∙ k), i, inr (tcp, g))
      | inr udp ↦ ((s, []), rw (over_tcp, udp) refl, inv, inl (udp, refl))
    ]

    -- Every request but REGISTER, in every store that has the registry's invariant: no deleted object
    -- is used and the invariant is kept. OPTIONS and a message to another server are connected to nothing.
    -- A message to a local user goes to the database, whoever sent it, with the store as it was. Each other
    -- request is, where the context does not use TCP, connected to nothing; and over TCP it leads to one
    -- answer that is no signal, or to its own signal to the database, for A-PENDING after a 200, with the
    -- user and the endpoint of a live registration of the event's number and label that has not expired,
    -- has a context and whose credentials the event has.
    pub deliver-IsServed :
        (q : Request)
        → q ≢ Request.register
        → (o : Store × List Action) × (deliver ctx nonce served q now ev s ≡ some o)
          × Inv o.0
          × IsServed q o
    unfolding deliver ack_pending request_deauthorize request_authorize request_pending
        request_devkill request_devlist request_topic request_forwarding request_coverage
        request_drop request_admin request_membership request_profile request_roster
    deliver-IsServed Request.options n = ((s, []), refl, inv, refl)
    deliver-IsServed Request.register n = absurd (n refl)
    deliver-IsServed Request.roster n = through Request.roster (request_roster hash hex) refl
    deliver-IsServed Request.profile n = through Request.profile (request_profile hash hex) refl
    deliver-IsServed Request.coverage n = through Request.coverage (request_coverage hash hex) refl
    deliver-IsServed Request.forwarding n =
        through Request.forwarding (request_forwarding hash hex) refl
    deliver-IsServed Request.admin n = through Request.admin (request_admin hash hex) refl
    deliver-IsServed Request.drop n = through Request.drop (request_drop hash hex) refl
    deliver-IsServed Request.membership n =
        through Request.membership (request_membership hash hex) refl
    deliver-IsServed Request.topic n = through Request.topic (request_topic hash hex) refl
    deliver-IsServed Request.devlist n = through Request.devlist (request_devlist hash hex) refl
    deliver-IsServed Request.devkill n = through Request.devkill (request_devkill hash hex) refl
    deliver-IsServed Request.deauthorize n =
        through Request.deauthorize (request_deauthorize hash hex) refl
    deliver-IsServed Request.authorize n =
        through Request.authorize (request_authorize hash hex) refl
    deliver-IsServed Request.pending n = through Request.pending (request_pending hash hex) refl
    deliver-IsServed Request.ack_pending n = through Request.ack_pending (ack_pending hash hex) refl
    deliver-IsServed Request.local_message n = ((s, Manager.relay ∷ []), refl, inv, refl)
    deliver-IsServed Request.outbound_message n = ((s, []), refl, inv, refl)
