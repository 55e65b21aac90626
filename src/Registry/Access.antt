-- ===== src/Registry/Access.antt =====
-- `Registry::authenticate`, `Registry::authorize` and `setNounce`. QCryptographicHash with its
-- hexadecimal coding is the parameter `hash`, and `toHex().toLower()` of a nonce the parameter `hex`.
use Prim.Native.String
use tycho_sipwitchqt.Prelude.{
  ℕ, String, ◌==◌, eq_iff, ◌≡◌, ◌≢◌, ◌↔◌, ◌⊎◌, Bool, true, false, not, ◌&&◌, ◌||◌, none, some,
  arith, if◌then◌else◌,
}
use tycho_sipwitchqt.Prelude.Int.{pos, ltb_ℤ}
use tycho_sipwitchqt.UString.{Bytes}
use tycho_sipwitchqt.Sip.{
  Event, Status, ok, forbidden, temporarily_unavailable, Algorithm, digest_named,
}
use tycho_sipwitchqt.Registry.{Registry, has_expired}

abbrev join : String → String → String
join s t = String.◌++◌ s (String.◌++◌ ":" t)

abbrev has_context : Registry → Bool
has_context r = elim r.context [ none ↦ false | some c ↦ true ]

-- setNounce(value)
unfoldable pub set_nounce : Bytes → Registry → Registry
set_nounce value r = record r { prior = r.random; random = value }

module _ (hash : Algorithm → String → String) (hex : Bytes → String) where
  -- The digest that the event must bring for a nonce.
  unfoldable pub expected : Registry → Event → String → String
  expected r ev once =
      let digest = digest_named r.digest in
      hash digest (join r.secret (join once (hash digest (join ev.method ev.request))))

  unfoldable pub authenticate : ℕ → Event → Registry → Status
  authenticate now ev r =
      if has_expired now r || not (has_context r)
      then temporarily_unavailable
      else if not (ev.realm == r.realm)
      then forbidden
      else if not (ev.userid == r.user)
      then forbidden
      else if not (ev.algorithm == r.digest)
      then forbidden
      else if not (ev.once == hex r.random) && not (ev.once == hex r.prior)
      then forbidden
      else if not (expected r ev ev.once == ev.digest)
      then forbidden
      else ok

  -- The part of `authorize` after the credentials have been checked.
  unfoldable pub admit : ℕ → Event → Registry → Status × Registry
  admit now ev r = if ltb_ℤ ev.expires (pos 1) then (ok, record r { timeout = pos 0 }) else (
    ok,
    record r {
      address = if ev.protocol == "udp" then ev.source else ev.contact;
      context = some ev.context;
      updated = now;
      active = true;
    },
  )

  unfoldable pub authorize : ℕ → Event → Registry → Status × Registry
  unfolding admit
  authorize now ev r =
      let r' = record r { active = false } in
      if not (ev.realm == r.realm)
      then (forbidden, r')
      else if not (ev.userid == r.user)
      then (forbidden, r')
      else if not (ev.algorithm == r.digest)
      then (forbidden, r')
      else if not (ev.once == hex r.random)
      then (forbidden, r')
      else if not (expected r ev (hex r.random) == ev.digest)
      then (forbidden, r')
      else admit now ev r'

  -- The event names the registration's realm, user and algorithm, and its digest is the right one
  -- for the nonce that it names.
  pub record HasCredentials (r : Registry) (ev : Event) : Type 0 where
    pub realm : ev.realm ≡ r.realm
    pub user : ev.userid ≡ r.user
    pub algorithm : ev.algorithm ≡ r.digest
    pub digest : expected r ev ev.once ≡ ev.digest

  -- A request is authenticated exactly when the registration has a context and has not expired, the
  -- event has its credentials, and it names the present nonce or the one before.
  pub authenticate-ok :
      (now : ℕ) (ev : Event) (r : Registry)
      → (authenticate now ev r ≡ ok) ↔ (
          (has_expired now r ≡ false)
          × (r.context ≢ none)
          × HasCredentials r ev
          × ((ev.once ≡ hex r.random) ⊎ (ev.once ≡ hex r.prior)))
  unfolding authenticate
  authenticate-ok now ev r = (
    λ h. ground (
      arith,
      eq_iff ev.realm r.realm,
      eq_iff ev.userid r.user,
      eq_iff ev.algorithm r.digest,
      eq_iff ev.once (hex r.random),
      eq_iff ev.once (hex r.prior),
      eq_iff (expected r ev ev.once) ev.digest,
    ),
    λ h. ground (
      arith,
      eq_iff ev.realm r.realm,
      eq_iff ev.userid r.user,
      eq_iff ev.algorithm r.digest,
      eq_iff ev.once (hex r.random),
      eq_iff ev.once (hex r.prior),
      eq_iff (expected r ev ev.once) ev.digest,
    ),
  )

  -- A registration request whose answer is not 200 changes nothing but that it switches the
  -- registration off, whoever sent it; and the answer is 403.
  pub authorize-refused :
      (now : ℕ) (ev : Event) (r : Registry)
      → (authorize now ev r).0 ≢ ok
      → authorize now ev r ≡ (forbidden, record r { active = false })
  unfolding authorize
  authorize-refused now ev r h = ground arith

  -- A registration request is answered with 200 exactly when it has its credentials under the
  -- present nonce; the nonce before does not do.
  pub authorize-ok :
      (now : ℕ) (ev : Event) (r : Registry)
      → ((authorize now ev r).0 ≡ ok) ↔ (HasCredentials r ev × (ev.once ≡ hex r.random))
  unfolding authorize
  authorize-ok now ev r = (
    λ h. ground (
      arith,
      eq_iff ev.realm r.realm,
      eq_iff ev.userid r.user,
      eq_iff ev.algorithm r.digest,
      eq_iff ev.once (hex r.random),
      eq_iff ev.once (hex r.prior),
      eq_iff (expected r ev ev.once) ev.digest,
    ),
    λ h. ground (
      arith,
      eq_iff ev.realm r.realm,
      eq_iff ev.userid r.user,
      eq_iff ev.algorithm r.digest,
      eq_iff ev.once (hex r.random),
      eq_iff ev.once (hex r.prior),
      eq_iff (expected r ev ev.once) ev.digest,
    ),
  )
