-- ===== src/Manager/Register.antt =====
-- Manager::refreshRegistration, createRegistration, dropEndpoint and checkRoster.
use tycho_sipwitchqt.Prelude.{
  ℕ, ◌%◌, String, ◌==◌, not, Option, none, some, List, [], ◌∷◌, ◌++◌, if◌then◌else◌,
}
use tycho_sipwitchqt.UString.{Bytes}
use tycho_sipwitchqt.Sip.{Event, Status, ok, not_found, Algorithm}
use tycho_sipwitchqt.Registry.{
  Registry, Endpoint, Store, Found, create, destroy, has_expired, find_event, find_endpoint,
  bitmask, registry_of,
}
use tycho_sipwitchqt.Registry.Access.{set_nounce, authorize}
use tycho_sipwitchqt.Manager.{
  Xdp, Action, Outcome, reply, authorized, emit, find_endpoint_for, last_access, expires_of,
  challenge_with, put, uri_of,
}

-- What the body of the answer takes from the database and from the manager.
pub record Served : Type 0 where
  pub last : ℕ
  pub roster : ℕ
  pub sequence : ℕ

-- checkRoster(): the roster's sequence number modulo 8192.
unfoldable check_roster : ℕ → ℕ
check_roster sequence = sequence % 8192

unfoldable pub xdp_of : Served → Event → Registry → Store → Option Xdp
unfolding check_roster
xdp_of served ev r s =
    if not (ev.label == "NONE")
    then some (record {
      privs = r.privs;
      display = r.display;
      first = s.first;
      last = served.last;
      roster = check_roster served.roster;
      sequence = served.sequence;
      route = r.address;
      online = bitmask served.last s;
    })
    else none

-- The answer to an event with authorization, before the registration `r` was authorized to `r'`.
unfoldable pub refreshed : Served → Event → Registry → Status → Registry → Store → List Action
refreshed served ev r result r' s = elim result [
  | ok ↦
      (if not r.active then emit (last_access r'.endpoint (uri_of r')) ∷ [] else [])
      ++ authorized (expires_of r') (xdp_of served ev r' s) ∷ []
  | refusal ↦ reply refusal ∷ []
]

module _ (hash : Algorithm → String → String) (hex : Bytes → String) where
  unfoldable pub refresh_found : ℕ → Bytes → Served → Event → Found → Store × List Action
  refresh_found now nonce served ev (s, none) = (s, emit find_endpoint_for ∷ [])
  refresh_found now nonce served ev (s, some (p, r)) =
      if not ev.authorization
      then (put p (set_nounce nonce r) s, challenge_with ev r nonce ∷ [])
      else let (result, r') = authorize hash hex now ev r in
        let s' = put p r' s in
        (if has_expired now r' then destroy p r' s' else s', refreshed served ev r result r' s')

  unfoldable pub refresh_registration : ℕ → Bytes → Served → Event → Store → Outcome
  refresh_registration now nonce served ev s = elim (find_event now ev s) [
    | none ↦ none
    | some f ↦ some (refresh_found now nonce served ev f)
  ]

-- `none` is the empty QVariantHash.
unfoldable pub create_registration :
    ℕ → Bytes → Event → Option Endpoint → Store → Store × List Action
create_registration now nonce ev none s = (s, reply not_found ∷ [])
create_registration now nonce ev (some ep) s =
    let r = registry_of now ep in
    (put s.next (set_nounce nonce r) (create now ep s), challenge_with ev r nonce ∷ [])

-- `delete` of the null pointer does nothing.
unfoldable pub dropped : Found → Store
dropped (s, none) = s
dropped (s, some (p, r)) = destroy p r s

unfoldable pub drop_endpoint : ℕ → ℕ → Store → Option Store
unfolding dropped
drop_endpoint now key s = elim (find_endpoint now key s) [ none ↦ none | some f ↦ some (dropped f) ]
