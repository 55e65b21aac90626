-- ===== src/Database/Wiring.antt =====
-- The constructor of Database/database.cpp: the slot that each signal of the manager is connected to, and
-- so what becomes of a request that the manager lets through. The queue between the two threads is not
-- modelled: a slot runs at once, in the order of the signals.
pub mod Once
pub mod Gone
pub mod Drop
pub mod Tests
use tycho_sipwitchqt.Prelude.{ℕ, String, Option, none, some, List, [], ◌∷◌, ◌++◌}
use tycho_sipwitchqt.UString.{Bytes}
use tycho_sipwitchqt.Sip.{Event}
use tycho_sipwitchqt.Registry.{Store}
use tycho_sipwitchqt.Manager.Register.{drop_endpoint}
use tycho_sipwitchqt.Manager.{
  Signal, Action, Uri, reply, challenge, authorized, emit, relay, find_endpoint_for, send_devlist,
  change_topic, change_authorize, remove_authorize, change_pending, send_roster, send_pending,
  change_profile, change_coverage, drop_extension, change_admin, change_membership,
  change_forwarding, remove_device, last_access,
}
use tycho_sipwitchqt.Database.Tables.{Db, EndpointRow}
use tycho_sipwitchqt.Database.Outbox
use tycho_sipwitchqt.Database.Outbox.{Qt, Posted}
use tycho_sipwitchqt.Database.Outbox.Local.{local_message}
use tycho_sipwitchqt.Database.Accounts.{Config}
use tycho_sipwitchqt.Database.Profile
use tycho_sipwitchqt.Database.Profile.{Sent, disconnect_endpoint}
use tycho_sipwitchqt.Database.Admin
use tycho_sipwitchqt.Database.Groups
use tycho_sipwitchqt.Database.Roster
use tycho_sipwitchqt.Database.Roster.{Entry}

-- What a slot sends: its answers and signals, the pending messages, a roster or a list of devices.
pub data Told : Type 0 where
  sent : Sent → Told
  pending : Posted → Told
  roster : List Entry → Told
  device_list : List EndpointRow → Told

unfoldable pub all_sent : List Sent → List Told
all_sent [] = []
all_sent (s ∷ out) = sent s ∷ all_sent out

unfoldable pub all_pending : List Posted → List Told
all_pending [] = []
all_pending (p ∷ out) = pending p ∷ all_pending out

-- `agent` and `device_key` are Event::agent and Event::deviceKey, and `uri` the text of a registration's uri.
module _ (qt : Qt) (cfg : Config) (agent : Event → String) (device_key : Event → Bytes)
    (uri : Uri → String) where
  -- removeAuthorize and findEndpoint are connected to the thread of Database/authorize.cpp.
  unfoldable pub slot : Event → Signal → Db → Db × List Told
  unfolding all_sent all_pending
  slot ev find_endpoint_for d = (d, [])
  slot ev remove_authorize d = (d, [])
  slot ev send_devlist d =
      let (d', list) = Roster.send_device_list qt cfg ev d in (d', device_list list ∷ [])
  slot ev (send_roster endpoint) d =
      let (d', list) = Roster.send_roster qt cfg ev endpoint d in (d', roster list ∷ [])
  slot ev (change_pending endpoint) d = (Outbox.change_pending endpoint d, [])
  slot ev (send_pending endpoint) d =
      let (d', out) = Outbox.send_pending endpoint d in (d', all_pending out)
  slot ev (last_access endpoint where_) d =
      (Outbox.last_access endpoint ev.timestamp (agent ev) (device_key ev) (uri where_) d, [])
  slot ev change_topic d = let (d', out) = Groups.change_topic qt cfg ev d in (d', all_sent out)
  slot ev change_authorize d =
      let (d', out) = Admin.change_authorize qt cfg ev d in (d', all_sent out)
  slot ev (change_profile user endpoint) d =
      let (d', out) = Profile.send_profile qt cfg ev user endpoint d in (d', all_sent out)
  slot ev (change_coverage user endpoint) d =
      let (d', out) = Admin.change_coverage qt cfg ev user endpoint d in (d', all_sent out)
  slot ev (change_forwarding user endpoint) d =
      let (d', out) = Admin.change_forwarding qt cfg ev user endpoint d in (d', all_sent out)
  slot ev (drop_extension user endpoint) d =
      let (d', out) = Groups.drop_extension qt cfg ev user endpoint d in (d', all_sent out)
  slot ev (change_admin user endpoint) d =
      let (d', out) = Groups.change_admin qt cfg ev user endpoint d in (d', all_sent out)
  slot ev (change_membership user endpoint) d =
      let (d', out) = Groups.change_membership qt cfg ev user endpoint d in (d', all_sent out)
  slot ev (remove_device user endpoint) d =
      let (d', out) = Groups.remove_device qt cfg ev user endpoint d in (d', all_sent out)

  -- The signals of the manager, each to its slot, and a context's LOCAL_MESSAGE to localMessage.
  unfoldable pub carry : Event → List Action → Db → Db × List Told
  carry ev [] d = (d, [])
  carry ev (emit signal ∷ acts) d =
      let (d', told) = slot ev signal d in let (d'', rest) = carry ev acts d' in (d'', told ++ rest)
  carry ev (relay ∷ acts) d =
      let (d', out) = local_message qt cfg.policy ev d in
      let (d'', rest) = carry ev acts d' in (d'', all_pending out ++ rest)
  carry ev (reply code ∷ acts) d = carry ev acts d
  carry ev (challenge c ∷ acts) d = carry ev acts d
  carry ev (authorized expires xdp ∷ acts) d = carry ev acts d

-- The signals disconnectEndpoint among what a slot sends, each to Manager::dropEndpoint.
unfoldable pub disconnect : ℕ → List Told → Store → Option Store
disconnect now [] s = some s
disconnect now (sent (disconnect_endpoint endpoint) ∷ told) s =
    elim (drop_endpoint now endpoint s) [ none ↦ none | some t ↦ disconnect now told t ]
disconnect now (_ ∷ told) s = disconnect now told s
