-- ===== src/Registry/Tests.antt =====
-- Runs and instances for Server/registry.cpp.
use tycho_sipwitchqt.Prelude.{
  ◌≡◌, ◌≢◌, ◌↔◌, ◌⊎◌, refl, true, false, none, some, [], ◌∷◌, ltb, arith,
}
use tycho_sipwitchqt.Sip.{ok, forbidden}
use tycho_sipwitchqt.Registry.{
  Store, Found, empty, create, registry_of, has_expired, find_event, find_endpoint, cleanup,
}
use tycho_sipwitchqt.Registry.Index.{LivesAt}
use tycho_sipwitchqt.Registry.Bits.{is_online}
use tycho_sipwitchqt.Registry.Invariant.{population}
use tycho_sipwitchqt.Registry.Access.{
  set_nounce, expected, authenticate, authorize, HasCredentials, authenticate-ok, authorize-ok,
}
use tycho_sipwitchqt.Registry.Replay.{authorize-set_nounce}
use tycho_sipwitchqt.Registry.Reach.{
  Reach, here, next, creates, Inv-empty, Reach-is_online, Reach-safe,
}
use tycho_sipwitchqt.Registry.Leak.{cleanup-both}
use tycho_sipwitchqt.Samples.{
  plain, hex, tablet, challenged, on_line, register, roster, one, differ,
}

one-Reach : Reach (empty 100) one
unfolding empty
one-Reach = next here (creates 0 tablet (omega arith) (omega arith) refl)

one-first : one.first ≡ 100
unfolding create empty
one-first = refl

Reach-is_online_example :
    (one.count 101 ≡ population 101 one.heap)
    × (is_online one.first one.online 101 ≡ ltb 0 (population 101 one.heap))
Reach-is_online_example = Reach-is_online 100 101 one one-Reach (rw one-first (omega arith))

Reach-safe_example :
    ((f : Found) × (find_event 9 register one ≡ some f))
    × ((f : Found) × (find_endpoint 9 4 one ≡ some f))
    × ((u : Store) × (cleanup 9 one ≡ some u))
Reach-safe_example = Reach-safe 100 9 4 register one one-Reach

authenticate-ok_example : (authenticate plain hex 20 roster on_line ≡ ok) ↔ (
    (has_expired 20 on_line ≡ false)
    × (on_line.context ≢ none)
    × HasCredentials plain hex on_line roster
    × ((roster.once ≡ hex on_line.random) ⊎ (roster.once ≡ hex on_line.prior)))
authenticate-ok_example = authenticate-ok plain hex 20 roster on_line

accepted : (authorize plain hex 10 register challenged).0 ≡ ok
unfolding authorize expected
accepted = refl

authorize-ok_example :
    ((authorize plain hex 10 register challenged).0 ≡ ok)
    ↔ (HasCredentials plain hex challenged register × (register.once ≡ hex challenged.random))
authorize-ok_example = authorize-ok plain hex 10 register challenged

authorize-set_nounce_example :
    (authorize plain hex 30 register
      (set_nounce (9 ∷ []) (authorize plain hex 10 register challenged).1)).0
    ≡ forbidden
authorize-set_nounce_example =
    authorize-set_nounce plain hex 10 30 register challenged (9 ∷ []) accepted
      (differ "08" "07" refl)

cleanup-both_example :
    (t : Store) × (cleanup 900000 (create 5 tablet (create 0 tablet (empty 100))) ≡ some t)
    × LivesAt t.heap 0 (registry_of 0 tablet)
    × (is_online t.first t.online 101 ≡ true)
unfolding empty
cleanup-both_example =
    cleanup-both 0 5 tablet tablet (empty 100) (Inv-empty 100) (omega arith) (omega arith) refl refl
      900000
