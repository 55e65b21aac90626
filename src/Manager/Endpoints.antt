-- ===== src/Manager/Endpoints.antt =====
-- createRegistration and dropEndpoint of Server/manager.cpp keep the registry's invariant.
use tycho_sipwitchqt.Prelude.{ℕ, ◌+◌, ◌^◌, ◌≤◌, ◌<◌, ◌≡◌, refl, none, some, arith}
use tycho_sipwitchqt.UString.{Bytes}
use tycho_sipwitchqt.Sip.{Event}
use tycho_sipwitchqt.Hash.{lookup}
use tycho_sipwitchqt.Registry.{Endpoint, Store, Found, registry_of, create}
use tycho_sipwitchqt.Registry.Index.{LivesAt}
use tycho_sipwitchqt.Registry.Invariant.{Inv, population, create-Inv, destroy-Inv}
use tycho_sipwitchqt.Registry.Lifecycle.{IsFound, find_endpoint-Inv}
use tycho_sipwitchqt.Registry.Access.{set_nounce}
use tycho_sipwitchqt.Manager.Refresh.{put-LivesAt, set_nounce-Inv}
use tycho_sipwitchqt.Manager.Register.{create_registration, drop_endpoint, dropped}

create-LivesAt :
    (now : ℕ) (ep : Endpoint) (s : Store)
    → LivesAt (create now ep s).heap s.next (registry_of now ep)
unfolding create lookup
create-LivesAt now ep s = ground arith

-- In a store that has the invariant, the database's answer to a lookup keeps it, for a number of the
-- extension range with less than 2 ^ 32 - 1 live registrations; the new registration is live and holds
-- the nonce that the challenge carries.
pub create_registration-Inv :
    (now : ℕ) (nonce : Bytes) (ev : Event) (ep : Endpoint) (s : Store)
    → Inv s
    → s.first ≤ ep.number
    → population ep.number s.heap + 1 < 2 ^ 32
    → Inv (create_registration now nonce ev (some ep) s).0
      × LivesAt
          (create_registration now nonce ev (some ep) s).0.heap
          s.next
          (set_nounce nonce (registry_of now ep))
unfolding create_registration
create_registration-Inv now nonce ev ep s inv first_le room =
    let made : LivesAt (create now ep s).heap s.next (registry_of now ep) =
      create-LivesAt now ep s in
    (
      set_nounce-Inv now s.next _ (create now ep s) nonce (create-Inv now ep s inv first_le room)
          made,
      put-LivesAt s.next _ _ (create now ep s) made,
    )

dropped-Inv :
    (now key : ℕ) (f : Found) → Inv f.0 → IsFound now (λ r. r.endpoint ≡ key) f → Inv (dropped f)
unfolding dropped
dropped-Inv now key (t, none) i found = i
dropped-Inv now key (t, some (p, r)) i (live, _, _) = destroy-Inv t i p r live

-- In a store that has the invariant, dropping an endpoint always ends with a store, without a use of a
-- deleted object, and keeps the invariant.
pub drop_endpoint-Inv :
    (now key : ℕ) (s : Store) → Inv s → (t : Store) × (drop_endpoint now key s ≡ some t) × Inv t
unfolding drop_endpoint
drop_endpoint-Inv now key s inv =
    let (f, e, i, found) = find_endpoint-Inv now s inv key in
    (dropped f, rw (e, drop_endpoint) refl, dropped-Inv now key f i found)
