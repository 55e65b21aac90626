-- ===== src/Context/Tests.antt =====
-- Runs and instances for Server/context.cpp.
use tycho_sipwitchqt.Prelude.{◌≡◌, refl, true, some, List, [], ◌∷◌, arith}
use tycho_sipwitchqt.Sip.{Event, ok, not_acceptable_here}
use tycho_sipwitchqt.Registry.{Store, empty}
use tycho_sipwitchqt.Registry.Invariant.{Inv, create-Inv}
use tycho_sipwitchqt.Registry.Reach.{Inv-empty}
use tycho_sipwitchqt.Manager.{Action}
use tycho_sipwitchqt.Manager.Register.{Served}
use tycho_sipwitchqt.Context.{
  Context, Request, answered, request, replied, local_message, reply, on_message, on_new, process,
}
use tycho_sipwitchqt.Context.Messages.{IsRelayed, process-message}
use tycho_sipwitchqt.Context.Serve.{deliver, IsServed, deliver-IsServed}
use tycho_sipwitchqt.Samples.{plain, hex, tablet, roster, one}

abbrev over_tcp : Context
over_tcp = record { tcp = true; allow = 256 }

abbrev message : Event
message = record roster { method = "MESSAGE" }

-- The sender has two answers for one transaction.
message_runs :
    (process over_tcp message).0
    ≡ answered ok ∷ request local_message ∷ replied not_acceptable_here ∷ []
unfolding process on_new on_message reply
message_runs = refl

process-message_example : IsRelayed over_tcp message refl (process over_tcp message).0
process-message_example = process-message over_tcp message refl refl

abbrev served : Served
served = record { last = 699; roster = 8200; sequence = 3 }

one-Inv : Inv one
unfolding empty
one-Inv = create-Inv 0 tablet (empty 100) (Inv-empty 100) (omega arith) (omega arith)

deliver-IsServed_example :
    (o : Store × List Action) × (deliver plain hex over_tcp
        (7 ∷ [])
        served
        Request.roster
        20
        roster
        one
      ≡ some o)
    × Inv o.0
    × IsServed plain hex over_tcp (7 ∷ []) served 20 roster one one-Inv Request.roster o
deliver-IsServed_example =
    deliver-IsServed plain hex over_tcp (7 ∷ []) served 20 roster one one-Inv Request.roster
      (λ e. cc e)
