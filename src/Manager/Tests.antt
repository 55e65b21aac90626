-- ===== src/Manager/Tests.antt =====
-- Runs and instances for the registration handlers of Server/manager.cpp.
use tycho_sipwitchqt.Prelude.{◌≡◌, some, List, [], ◌∷◌, arith}
use tycho_sipwitchqt.Registry.{Store, empty}
use tycho_sipwitchqt.Registry.Invariant.{Inv, create-Inv}
use tycho_sipwitchqt.Registry.Reach.{Inv-empty}
use tycho_sipwitchqt.Manager.{Action}
use tycho_sipwitchqt.Manager.Register.{Served, refresh_registration}
use tycho_sipwitchqt.Manager.Refresh.{IsRefreshed, refresh_registration-IsRefreshed}
use tycho_sipwitchqt.Prelude.{refl, Option}
use tycho_sipwitchqt.Prelude.Int.{pos}
use tycho_sipwitchqt.Hash.{lookup, insert, remove}
use tycho_sipwitchqt.Registry.{create, registry_of, write}
use tycho_sipwitchqt.Registry.Lifecycle.{write-Inv}
use tycho_sipwitchqt.Database.Outbox.{Posting}
use tycho_sipwitchqt.Manager.Deliver.{
  Texts, Outgoing, send_message, IsConnected, IsDelivered, send_message-IsDelivered,
}
use tycho_sipwitchqt.Samples.{plain, hex, tablet, register, one, on_line}

abbrev served : Served
served = record { last = 699; roster = 8200; sequence = 3 }

one-Inv : Inv one
unfolding empty
one-Inv = create-Inv 0 tablet (empty 100) (Inv-empty 100) (omega arith) (omega arith)

refresh_registration-IsRefreshed_example :
    (o : Store × List Action) × (refresh_registration plain hex 20 (7 ∷ []) served register one
      ≡ some o)
    × Inv o.0
    × IsRefreshed plain hex 20 (7 ∷ []) served register one o
refresh_registration-IsRefreshed_example =
    refresh_registration-IsRefreshed plain hex 20 (7 ∷ []) served register one one-Inv

-- The registration on line.
abbrev live : Store
live = record one { heap = write 0 on_line one.heap }

live-Inv : Inv live
unfolding lookup empty create insert remove
live-Inv = write-Inv 0 one one-Inv 0 (registry_of 0 tablet) on_line refl refl refl refl refl

live-IsConnected : IsConnected live
unfolding lookup empty create insert remove write
live-IsConnected p r l a = (1, ground (arith, l))

abbrev texts : Texts
texts = record { prefix = λ c. "sip:"; to_int = λ s. pos 0; show = λ n. "101" }

abbrev posting : Posting
posting = record {
  f = "102";
  t = pos 101;
  d = "Bob";
  c = "text/plain";
  b = [];
  s = "";
  p = 1000;
  u = pos 1;
  e = pos 0;
  r = 8;
}

send_message-IsDelivered_example :
    (t : Store) × ((m : Option Outgoing) × (send_message texts 20 4 posting live ≡ some (t, m))
      × Inv t
      × IsDelivered 20 4 posting t m)
send_message-IsDelivered_example =
    send_message-IsDelivered texts 20 4 posting live live-Inv live-IsConnected
