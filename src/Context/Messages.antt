-- ===== src/Context/Messages.antt =====
-- How many answers `Context::process` gives to a request.
use tycho_sipwitchqt.Prelude.{
  ◌==◌, eq_iff, ◌≡◌, ◌≢◌, refl, Bool, true, false, not, ◌&&◌, ◌||◌, List, [], ◌∷◌, ◌++◌, ◌⊎◌, inl,
  inr, arith, ltb, if◌then◌else◌, length, either,
}
use tycho_sipwitchqt.Prelude.Int.{pos, ltb_ℤ}
use tycho_sipwitchqt.Sip.{
  Event, message_new, Status, ok, forbidden, method_not_allowed, address_incomplete,
  not_acceptable_here,
}
use tycho_sipwitchqt.Context.{
  Request, local_message, outbound_message, Emission, replied, answered, request, Context, Result,
  reply, emit_only, has_to_user, addressed, client_only, on_options, on_register, on_profile,
  on_bodiless, authorizing, on_authorize, on_ack_pending, and_reply, on_message, on_new, process,
}

module _ (ctx : Context) (ev : Event) (fresh : ev.type ≡ message_new) where
  abbrev IsSingle : Result → Type 0
  IsSingle r = length r.0 ≡ 1

  reply-IsSingle : (st : Status) → IsSingle (reply ev st)
  unfolding reply
  reply-IsSingle st = ground arith

  on_options-IsSingle : IsSingle (on_options ev)
  unfolding on_options
  on_options-IsSingle = ground (arith, reply-IsSingle ok)

  on_register-IsSingle : IsSingle (on_register ctx ev)
  unfolding on_register
  on_register-IsSingle = ground (arith, reply-IsSingle method_not_allowed, reply-IsSingle forbidden)

  addressed-IsSingle : (rest : Result) → IsSingle rest → IsSingle (addressed ctx ev rest)
  addressed-IsSingle rest h = ground (
    arith,
    reply-IsSingle address_incomplete,
    reply-IsSingle forbidden,
    reply-IsSingle method_not_allowed,
  )

  client_only-IsSingle : (rest : Result) → IsSingle rest → IsSingle (client_only ctx ev rest)
  client_only-IsSingle rest h = ground (arith, reply-IsSingle method_not_allowed)

  on_profile-IsSingle : IsSingle (on_profile ctx ev)
  unfolding on_profile
  on_profile-IsSingle = addressed-IsSingle _ (ground (arith, reply-IsSingle not_acceptable_here))

  bodiless-IsSingle : (q : Request) → IsSingle (on_bodiless q ctx ev)
  unfolding on_bodiless
  bodiless-IsSingle q = addressed-IsSingle _ (ground (arith, reply-IsSingle not_acceptable_here))

  on_authorize-IsSingle : IsSingle (on_authorize ctx ev)
  unfolding on_authorize
  on_authorize-IsSingle = client_only-IsSingle _ (
      ground (
        arith,
        reply-IsSingle address_incomplete,
        reply-IsSingle forbidden,
        reply-IsSingle not_acceptable_here,
      ))

  deauthorize-IsSingle : (q : Request) → IsSingle (authorizing ctx ev (emit_only q))
  deauthorize-IsSingle q =
      client_only-IsSingle _
        (ground (arith, reply-IsSingle address_incomplete, reply-IsSingle forbidden))

  on_ack_pending-IsSingle : IsSingle (on_ack_pending ev)
  unfolding on_ack_pending
  on_ack_pending-IsSingle = ground (arith, reply-IsSingle method_not_allowed)

  on_new-IsSingle : ev.method ≢ "MESSAGE" → IsSingle (on_new ctx ev)
  unfolding on_new
  on_new-IsSingle n =
      either IsSingle (ev.method == "OPTIONS") _ _ (λ e. on_options-IsSingle)
        (λ _.
          either IsSingle (ev.method == "REGISTER") _ _ (λ e. on_register-IsSingle)
            (λ _.
              either IsSingle (ev.method == "X-ROSTER") _ _ (λ e. client_only-IsSingle _ refl)
                (λ _.
                  either IsSingle (ev.method == "X-PROFILE") _ _ (λ e. on_profile-IsSingle)
                    (λ _.
                      either IsSingle (ev.method == "X-COVERAGE") _ _
                        (λ e. addressed-IsSingle _ refl)
                        (λ _.
                          either IsSingle (ev.method == "X-FORWARDING") _ _
                            (λ e. addressed-IsSingle _ refl)
                            (λ _.
                              either IsSingle (ev.method == "X-ADMIN") _ _
                                (λ e. bodiless-IsSingle _)
                                (λ _.
                                  either IsSingle (ev.method == "X-DROP") _ _
                                    (λ e. bodiless-IsSingle _)
                                    (λ _.
                                      either IsSingle (ev.method == "X-MEMBERSHIP") _ _
                                        (λ e. bodiless-IsSingle _)
                                        (λ _.
                                          either IsSingle (ev.method == "X-TOPIC") _ _
                                            (λ e. addressed-IsSingle _ refl)
                                            (λ _.
                                              either IsSingle (ev.method == "X-DEVLIST") _ _
                                                (λ e. client_only-IsSingle _ refl)
                                                (λ _.
                                                  either IsSingle (ev.method == "X-DEVKILL") _ _
                                                    (λ e. client_only-IsSingle _ refl)
                                                    (λ _.
                                                      either IsSingle (ev.method == "X-DEAUTHORIZE")
                                                        _ _ (λ e. deauthorize-IsSingle _)
                                                        (λ _.
                                                          either IsSingle
                                                            (ev.method == "X-AUTHORIZE") _ _
                                                            (λ e. on_authorize-IsSingle)
                                                            (λ _.
                                                            either IsSingle
                                                            (ev.method == "X-PENDING") _ _
                                                            (λ e. client_only-IsSingle _ refl)
                                                            (λ _.
                                                            either IsSingle
                                                            (ev.method == "A-PENDING") _ _
                                                            (λ e. on_ack_pending-IsSingle)
                                                            (λ _.
                                                            either IsSingle (ev.method == "MESSAGE")
                                                            _ _
                                                            (λ e.
                                                            absurd
                                                            (n ((eq_iff ev.method "MESSAGE").0 e)))
                                                            (λ _. reply-IsSingle _)))))))))))))))))

  -- Each new request other than MESSAGE has exactly one outcome: it is answered, or it is passed on to
  -- the manager, never both and never neither.
  pub process-length : ev.method ≢ "MESSAGE" → length (process ctx ev).0 ≡ 1
  unfolding process
  process-length n = ground (arith, on_new-IsSingle n)

  on_new-message : ev.method ≡ "MESSAGE" → on_new ctx ev ≡ on_message ev
  unfolding on_new
  on_new-message e = rw e refl

  -- The emissions of a MESSAGE: one reply, or a signal with the reply 488 after it.
  abbrev pub IsRelayed : List Emission → Type 0
  IsRelayed sent =
      ((st : Status) × (sent ≡ replied st ∷ []))
      ⊎ ((sent ≡ request local_message ∷ replied not_acceptable_here ∷ [])
          ⊎ ((sent ≡ answered ok ∷ request local_message ∷ replied not_acceptable_here ∷ [])
              ⊎ (sent ≡ request outbound_message ∷ replied not_acceptable_here ∷ [])))

  reply-eq : (st : Status) → reply ev st ≡ (replied st ∷ [], true)
  unfolding reply
  reply-eq st = ground arith

  reply-IsRelayed : (st : Status) → IsRelayed (reply ev st).0
  reply-IsRelayed st = inl (st, rw (reply-eq st) refl)

  answered-IsRelayed :
      (b : Bool)
      → IsRelayed
          (and_reply ((if b then answered ok ∷ [] else []) ++ request local_message ∷ []) ev).0
  answered-IsRelayed true = rw (reply-eq not_acceptable_here) (inr (inr (inl refl)))
  answered-IsRelayed false = rw (reply-eq not_acceptable_here) (inr (inl refl))

  on_message-IsRelayed : IsRelayed (on_message ev).0
  unfolding on_message
  on_message-IsRelayed =
      either (λ (r : Result). IsRelayed r.0) (not (has_to_user ev)) _ _ (λ e. reply-IsRelayed _)
        (λ user.
          either (λ (r : Result). IsRelayed r.0) (ltb_ℤ ev.number (pos 1) && not ev.to_local) _ _
            (λ e. reply-IsRelayed _)
            (λ relay.
              either (λ (r : Result). IsRelayed r.0) (ev.to_local && ltb_ℤ ev.number (pos 0)) _ _
                (λ here. rw (reply-eq not_acceptable_here) (inr (inl refl)))
                (λ there.
                  either (λ (r : Result). IsRelayed r.0) (not ev.from_complete) _ _
                    (λ e. reply-IsRelayed _)
                    (λ from.
                      either (λ (r : Result). IsRelayed r.0)
                        (not (ev.content_type == "text/plain") || ltb 160 (length ev.body)) _ _
                        (λ e. reply-IsRelayed _)
                        (λ text.
                          either (λ (r : Result). IsRelayed r.0) ev.to_local _ _
                            (λ here. answered-IsRelayed _)
                            (λ out. rw (reply-eq not_acceptable_here) (inr (inr (inr refl)))))))))

  -- A MESSAGE is answered once, or it is passed on and then answered with 488 Not Acceptable Here;
  -- where a 200 was sent before it was passed on, the 488 comes after it for the same transaction.
  pub process-message : ev.method ≡ "MESSAGE" → IsRelayed (process ctx ev).0
  unfolding process
  process-message m = rw (fresh, process, on_new-message m) on_message-IsRelayed
