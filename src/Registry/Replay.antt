-- ===== src/Registry/Replay.antt =====
-- How long a nonce is good for, and what a registration request leaves behind.
use tycho_sipwitchqt.Prelude.{
  ℕ, ◌+◌, ◌<◌, String, eq_iff, ◌≡◌, ◌≢◌, sym, ◌∙◌, inl, inr, true, false, some, arith,
}
use tycho_sipwitchqt.Prelude.Int.{pos, ◌<ℤ◌, ◌≤ℤ◌}
use tycho_sipwitchqt.UString.{Bytes}
use tycho_sipwitchqt.Sip.{Event, ok, forbidden, Algorithm}
use tycho_sipwitchqt.Registry.{Registry, has_expired, timer_expired}
use tycho_sipwitchqt.Registry.Access.{
  set_nounce, expected, authenticate, authorize, authenticate-ok, authorize-ok,
}

module _ (hash : Algorithm → String → String) (hex : Bytes → String) where
  -- What identifies a registration, and its nonces, are not touched by a registration request.
  pub authorize-keys :
      (now : ℕ) (ev : Event) (r : Registry)
      → ((authorize hash hex now ev r).1.number ≡ r.number)
        × ((authorize hash hex now ev r).1.label ≡ r.label)
        × ((authorize hash hex now ev r).1.user ≡ r.user)
        × ((authorize hash hex now ev r).1.endpoint ≡ r.endpoint)
        × ((authorize hash hex now ev r).1.random ≡ r.random)
  unfolding authorize
  authorize-keys now ev r = ground arith

  -- An accepted request with a positive expiration makes the registration active in the context that
  -- it came by, and the registration's own timeout runs anew from then.
  pub authorize-registers :
      (now later : ℕ) (ev : Event) (r : Registry)
      → (authorize hash hex now ev r).0 ≡ ok
      → pos 0 <ℤ ev.expires
      → ((authorize hash hex now ev r).1.active ≡ true)
        × ((authorize hash hex now ev r).1.context ≡ some ev.context)
        × (has_expired (now + later) (authorize hash hex now ev r).1
            ≡ timer_expired r.timeout later)
  unfolding authorize has_expired
  authorize-registers now later ev r h p = (ground arith, ground arith, ground arith)

  -- An accepted request without a positive expiration switches the registration off, and the
  -- registration has expired as soon as its timer shows a millisecond.
  pub authorize-releases :
      (now later : ℕ) (ev : Event) (r : Registry)
      → (authorize hash hex now ev r).0 ≡ ok
      → ev.expires ≤ℤ pos 0
      → r.updated < later
      → ((authorize hash hex now ev r).1.active ≡ false)
        × (has_expired later (authorize hash hex now ev r).1 ≡ true)
  unfolding authorize has_expired
  authorize-releases now later ev r h p q = (ground arith, ground arith)

  authorize-other_nonce :
      (now : ℕ) (ev : Event) (r : Registry)
      → ev.once ≢ hex r.random
      → (authorize hash hex now ev r).0 ≡ forbidden
  unfolding authorize
  authorize-other_nonce now ev r n = ground (arith, eq_iff ev.once (hex r.random))

  -- A registration request that was accepted is refused with 403 once the nonce has been replaced by
  -- another, so it cannot be sent again.
  pub authorize-set_nounce :
      (now later : ℕ) (ev : Event) (r : Registry) (value : Bytes)
      → (authorize hash hex now ev r).0 ≡ ok
      → hex value ≢ hex r.random
      → (authorize hash hex later ev (set_nounce value (authorize hash hex now ev r).1)).0
        ≡ forbidden
  unfolding set_nounce
  authorize-set_nounce now later ev r value h n =
      let (c, once) = (authorize-ok hash hex now ev r).0 h in
      authorize-other_nonce later ev _ (λ e. n (sym e ∙ once))

  -- A request stays authenticated over one change of the nonce and not over two: if it was accepted
  -- under the present nonce, it is accepted after one change, while the registration lasts, and it
  -- is not accepted after two changes to other nonces.
  pub authenticate-set_nounce :
      (now : ℕ) (ev : Event) (r : Registry) (first second : Bytes)
      → authenticate hash hex now ev r ≡ ok
      → ev.once ≡ hex r.random
      → hex first ≢ hex r.random
      → hex second ≢ hex r.random
      → (authenticate hash hex now ev (set_nounce first r) ≡ ok)
        × (authenticate hash hex now ev (set_nounce second (set_nounce first r)) ≢ ok)
  unfolding set_nounce has_expired expected
  authenticate-set_nounce now ev r first second h once n m =
      let (live, ctx, c, _) = (authenticate-ok hash hex now ev r).0 h in
      (
        (authenticate-ok hash hex now ev (set_nounce first r)).1 (
          live,
          ctx,
          record { realm = c.realm; user = c.user; algorithm = c.algorithm; digest = c.digest },
          inr once,
        ),
        λ again.
            let (_, _, _, which) =
              (authenticate-ok hash hex now ev (set_nounce second (set_nounce first r))).0 again in
            elim which [ inl e ↦ m (sym e ∙ once) | inr e ↦ n (sym e ∙ once) ],
      )
