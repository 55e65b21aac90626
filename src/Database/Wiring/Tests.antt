-- ===== src/Database/Wiring/Tests.antt =====
-- Runs of requests from a context's signal to the database, and back to the registry.
use tycho_sipwitchqt.Prelude.{◌≡◌, refl, All, true, none, some, List, [], ◌∷◌, ◌+◌, arith, String}
use tycho_sipwitchqt.UString.{Bytes}
use tycho_sipwitchqt.Sip.{Event}
use tycho_sipwitchqt.Registry.{
  Store, empty, create, write, registry_of, find_event, find_endpoint, unless_expired, check_found,
  has_expired,
}
use tycho_sipwitchqt.Registry.Invariant.{Inv, create-Inv}
use tycho_sipwitchqt.Registry.Access.{authenticate, expected}
use tycho_sipwitchqt.Registry.Lifecycle.{write-Inv}
use tycho_sipwitchqt.Hash.{lookup, insert, remove}
use tycho_sipwitchqt.Registry.Reach.{Inv-empty}
use tycho_sipwitchqt.Manager.{
  Action, Uri, emit, change_profile, request_profile, gate, gate_found, when_authentic,
}
use tycho_sipwitchqt.Manager.Register.{Served}
use tycho_sipwitchqt.Context.{Context, Request}
use tycho_sipwitchqt.Context.Serve.{deliver, over_tcp}
use tycho_sipwitchqt.Samples.{plain, hex, tablet, on_line, roster, one}
use tycho_sipwitchqt.Prelude.Int.{pos}
use tycho_sipwitchqt.Database.Tables.{Db, EndpointRow, healthy}
use tycho_sipwitchqt.Database.Accounts.{is_refused, out_of_range, join_authorize}
use tycho_sipwitchqt.Database.Groups.{drop_extension}
use tycho_sipwitchqt.Database.Office.{qt, cfg, office, note, number_of, user}
use tycho_sipwitchqt.Database.Wiring.{carry, all_sent, disconnect}
use tycho_sipwitchqt.Database.Wiring.Drop.{devices, drop_extension-Gone}
use tycho_sipwitchqt.Database.Wiring.Once.{own_answers, told_answers, deliver-once}

abbrev tcp_context : Context
tcp_context = record { tcp = true; allow = 256 }

abbrev served : Served
served = record { last = 699; roster = 8200; sequence = 3 }

abbrev no_agent : Event → String
no_agent ev = "none"

abbrev no_key : Event → Bytes
no_key ev = []

abbrev no_uri : Uri → String
no_uri uri = ""

-- The first statement fails.
abbrev faulty : Db
faulty = record { tables = office; faults = true ∷ [] }

one-Inv : Inv one
unfolding empty
one-Inv = create-Inv 0 tablet (empty 100) (Inv-empty 100) (omega arith) (omega arith)

abbrev live : Store
live = record one { heap = write 0 on_line one.heap }

live-Inv : Inv live
unfolding lookup empty create insert remove
live-Inv = write-Inv 0 one one-Inv 0 (registry_of 0 tablet) on_line refl refl refl refl refl

-- The request passes the manager.
deliver-profile :
    elim (deliver plain hex tcp_context (7 ∷ []) served Request.profile 20 roster live) [
      | none ↦ []
      | some (s, acts) ↦ acts
    ]
    ≡ emit (change_profile "alice" 4) ∷ []
unfolding deliver over_tcp request_profile gate gate_found when_authentic find_event unless_expired
    check_found has_expired authenticate expected empty create lookup insert remove write
deliver-profile = refl

deliver-once_example :
    (o : Store × List Action) × (deliver plain hex tcp_context
        (7 ∷ [])
        served
        Request.profile
        20
        roster
        live
      ≡ some o)
    × Inv o.0
    × (own_answers o.1 + told_answers (carry qt cfg no_agent no_key no_uri roster o.1 faulty).1 ≡ 1)
deliver-once_example =
    deliver-once qt cfg no_agent no_key no_uri plain hex tcp_context (7 ∷ []) served Request.profile
      20 roster live faulty refl refl live-Inv

-- Bob, the administrator, drops Alice's extension, whose tablet is on line.
abbrev drop : Event
drop = record note { number = pos 102; to_user = some "101"; body = []; sent = some [] }

drop_extension-Gone_example :
    (u : Store) × (disconnect 20
        (all_sent (drop_extension qt cfg drop "bob" 6 (healthy office)).1)
        live
      ≡ some u)
    × Inv u
    × All
        (λ (x : EndpointRow). find_endpoint 30 x.endpoint u ≡ some (u, none))
        (devices qt cfg drop "bob" 6 office)
unfolding join_authorize is_refused out_of_range
drop_extension-Gone_example =
    drop_extension-Gone qt cfg drop "bob" 6 (number_of (pos 101) "alice") (user "alice" "USER")
      office 20 30 live refl refl refl refl refl live-Inv
