-- ===== src/Database/Outbox/Steps.antt =====
-- The operations on the outboxes as steps, with every failure of a statement, and what holds in every
-- state that they reach.
use tycho_sipwitchqt.Prelude.{
  ℕ, suc, ◌<◌, String, Bool, true, false, not, ◌&&◌, Option, none, some, List, [], ◌∷◌, ◌++◌, ◌≡◌,
  refl, arith, eqb, if◌then◌else◌, keep, map, either,
}
use tycho_sipwitchqt.Prelude.Int.{ℤ, pos, eqb_ℤ, ltb_ℤ}
use tycho_sipwitchqt.Sip.{Event, ok}
use tycho_sipwitchqt.Database.Tables.{
  Db, Tables, MessageRow, run, select, insert_message, is_faulty, later, is_empty,
}
use tycho_sipwitchqt.Database.Outbox.{
  Qt, Posted, replied, copy_outbox, sync_outbox, change_pending, unsent, send_pending,
  message_response, join_messages, post_admin, admin_message, cleanup_messages, is_never,
  insert_all,
}
use tycho_sipwitchqt.Database.Outbox.Pending.{acknowledged}
use tycho_sipwitchqt.Database.Outbox.Post.{Fresh}
use tycho_sipwitchqt.Database.Outbox.Local.{
  Sender, is_own, is_labelled, target_endpoints, gather_targets, gather_endpoints, post_local,
  store_message, deliver, local_message, no_sender, scan_sender,
}
use tycho_sipwitchqt.Database.Outbox.Store.{posting_of, message_of}
use tycho_sipwitchqt.Database.Outbox.Invariant.{
  Below, BoundedBy, Below-Fresh, Below-suc, bounded-Below, run-keeps, run_set-Below,
  copy_outbox-Below, post_all-Below,
}

-- The result of the INSERT INTO Messages: a row, if it is there, has a number below the counter.
abbrev Inserted : Option ℕ → Tables → Type 0
Inserted none t = Below t
Inserted (some mid) t = (n : ℕ) × (mid < n) × BoundedBy n t

if-Inserted :
    (fault : Bool) (row : MessageRow) (t : Tables)
    → Below t
    → Inserted (if fault then none else some t.next_mid) (
        if fault then t else record t {
          messages = t.messages ++ record row { mid = t.next_mid } ∷ [];
          next_mid = suc t.next_mid;
        })
if-Inserted true row t b = b
if-Inserted false row t b = (suc t.next_mid, omega arith, (refl, Below-suc t.next_mid t.outboxes b))

insert_message-Inserted :
    (row : MessageRow) (d : Db)
    → Below d.tables
    → Inserted (insert_message row d).1 (insert_message row d).0.tables
unfolding insert_message run
insert_message-Inserted row d b = if-Inserted (is_faulty d.faults) row d.tables b

target_endpoints-tables :
    (targets : List ℤ) (list : List ℕ) (d : Db)
    → (target_endpoints targets list d).0.tables ≡ d.tables
unfolding target_endpoints select
target_endpoints-tables [] list d = refl
target_endpoints-tables (target ∷ targets) list d =
    let (d', found) =
      select (λ t. map (λ e. e.endpoint) (keep (λ e. eqb_ℤ e.extnbr target) t.endpoints)) d in
    target_endpoints-tables targets (insert_all eqb found list) d'

module _ (qt : Qt) (ev : Event) where
  post_admin-Below :
      (to : ℤ) (text : String) (from : ℤ) (display : String) (expires : ℤ) (list : List ℕ)
      (mid : Option ℕ) (d : Db)
      → Inserted mid d.tables
      → Below (post_admin qt ev to text from display expires list mid d).0.tables
  unfolding post_admin
  post_admin-Below to text from display expires list none d b = b
  post_admin-Below to text from display expires list (some mid) d (n, l, b) =
      let out = post_admin qt ev to text from display expires list (some mid) d in
      bounded-Below n out.0.tables (post_all-Below qt n list (is_never qt) _ d l b)

  pub admin_message-Below :
      (to : ℤ) (text : String) (from : ℤ) (display : String) (expires : ℤ) (d : Db)
      → Below d.tables
      → Below (admin_message qt ev to text from display expires d).0.tables
  unfolding admin_message select
  admin_message-Below to text from display expires d b =
      post_admin-Below to text from display expires _ _ _ (insert_message-Inserted _ _ b)

  module _ (policy : String) where
    gather_targets-tables : (d : Db) → (gather_targets qt policy ev d).0.tables ≡ d.tables
    unfolding gather_targets select
    gather_targets-tables d = ground arith

    gather_endpoints-tables :
        (targets : List ℤ) (list : List ℕ) (d : Db)
        → (gather_endpoints qt policy ev targets list d).0.tables ≡ d.tables
    unfolding gather_endpoints select
    gather_endpoints-tables targets list d = ground (arith, target_endpoints-tables targets list d)

    post_local-Below :
        (s : Sender) (list : List ℕ) (mid : Option ℕ) (d : Db)
        → Inserted mid d.tables
        → Below (post_local qt policy ev s list mid d).0.tables
    unfolding post_local
    post_local-Below s list none d b = b
    post_local-Below s list (some mid) d (n, l, b) =
        let out = post_local qt policy ev s list (some mid) d in
        bounded-Below n out.0.tables
          (post_all-Below qt n list (is_own s) (posting_of qt policy ev mid) d l b)

    store_message-Below :
        (s : Sender) (list : List ℕ) (d : Db)
        → Below d.tables
        → Below (store_message qt policy ev s list d).0.tables
    unfolding store_message
    store_message-Below s list d b =
        post_local-Below s list _ _ (insert_message-Inserted (message_of qt policy ev 0) d b)

    deliver-Below :
        (s : Sender) (d : Db) → Below d.tables → Below (deliver qt policy ev s d).0.tables
    unfolding deliver
    deliver-Below s d b =
        let (d1, targets) = gather_targets qt policy ev d in
        let (d2, list) = gather_endpoints qt policy ev targets s.list d1 in
        let b1 : Below d1.tables = rw (gather_targets-tables d) b in
        let b2 : Below d2.tables = rw (gather_endpoints-tables targets s.list d1) b1 in
        let P : Db × List Posted → Type 0 = λ x. Below x.0.tables in
        either P (is_empty targets && not (is_labelled ev)) _ _ (λ _. b1)
          (λ _. either P (is_empty list) _ _ (λ _. b2) (λ _. store_message-Below s list d2 b2))

    pub local_message-Below :
        (d : Db) → Below d.tables → Below (local_message qt policy ev d).0.tables
    unfolding local_message select
    local_message-Below d b =
        let (d1, rows) = select (λ t. keep (λ e. eqb_ℤ e.extnbr ev.number) t.endpoints) d in
        let P : Db × List Posted → Type 0 = λ x. Below x.0.tables in
        either P (ltb_ℤ (pos 0) ev.number) _ _
          (λ _.
            either P (is_empty rows) _ _ (λ _. b)
              (λ _. deliver-Below (scan_sender ev rows no_sender) d1 b))
          (λ _. deliver-Below no_sender d b)

-- What happens to the outboxes: each operation, with whatever arguments, and `run` failing or not.
pub data Step (qt : Qt) (policy : String) (d e : Db) : Type 0 where
  copies : (source target : ℕ) → e ≡ copy_outbox source target d → Step qt policy d e
  syncs : (endpoint : ℕ) → e ≡ sync_outbox endpoint d → Step qt policy d e
  acknowledges : (endpoint : ℕ) → e ≡ change_pending endpoint d → Step qt policy d e
  lists : (endpoint : ℕ) → e ≡ (send_pending endpoint d).0 → Step qt policy d e
  responds :
      (mid ep : String) (status : ℤ) → e ≡ message_response qt mid ep status d → Step qt policy d e
  administers :
      (ev : Event) (to : ℤ) (text : String) (from : ℤ) (display : String) (expires : ℤ)
      → e ≡ (admin_message qt ev to text from display expires d).0
      → Step qt policy d e
  posts : (ev : Event) → e ≡ (local_message qt policy ev d).0 → Step qt policy d e
  cleans : (limit : ℕ) → e ≡ cleanup_messages limit d → Step qt policy d e

pub data Steps (qt : Qt) (policy : String) (d : Db) : Db → Type 0 where
  here : (e : Db) → e ≡ d → Steps qt policy d e
  next : (m e : Db) → Steps qt policy d m → Step qt policy m e → Steps qt policy d e

send_pending-Below :
    (endpoint : ℕ) (d : Db) → Below d.tables → Below (send_pending endpoint d).0.tables
unfolding send_pending select
send_pending-Below endpoint d b =
    run_set-Below (unsent endpoint) (pos 100) _ (run-keeps Below _ d (λ x. x) b)

Step-Below :
    (qt : Qt) (policy : String) (d e : Db) → Step qt policy d e → Below d.tables → Below e.tables
unfolding sync_outbox change_pending message_response cleanup_messages
Step-Below qt policy d e (copies source target p) b = rw (p) (copy_outbox-Below source target d b)
Step-Below qt policy d e (syncs endpoint p) b = rw (p) (run_set-Below _ (pos 0) d b)
Step-Below qt policy d e (acknowledges endpoint p) b = rw (p) (run_set-Below _ (pos 200) d b)
Step-Below qt policy d e (lists endpoint p) b = rw (p) (send_pending-Below endpoint d b)
Step-Below qt policy d e (responds mid ep status p) b = rw (p) (run_set-Below _ status d b)
Step-Below qt policy d e (administers ev to text from display expires p) b =
    rw (p) (admin_message-Below qt ev to text from display expires d b)
Step-Below qt policy d e (posts ev p) b = rw (p) (local_message-Below qt ev policy d b)
Step-Below qt policy d e (cleans limit p) b = rw (p) (run-keeps Below _ d (λ x. x) b)

reach-Below :
    (qt : Qt) (policy : String) (d e : Db) → Steps qt policy d e → Below d.tables → Below e.tables
reach-Below qt policy d e (here _ p) b = rw (p) b
reach-Below qt policy d e (next m _ steps step) b =
    Step-Below qt policy m e step (reach-Below qt policy d m steps b)

-- Whatever the handlers of messages do to a database whose outboxes are all empty, and whichever
-- statements fail: no outbox has the message that the counter gives out next, so that the message is
-- new to every endpoint.
pub Steps-Fresh :
    (qt : Qt) (policy : String) (d e : Db)
    → d.tables.outboxes ≡ []
    → Steps qt policy d e
    → Fresh e.tables.next_mid e.tables.outboxes
Steps-Fresh qt policy d e empty steps =
    Below-Fresh e.tables.next_mid e.tables.outboxes
      (reach-Below qt policy d e steps (rw (empty) tt))

-- For a request for the pending messages whose SELECT fails, while the statements before and after it
-- do not: the client is told OK, with no message; once it has acknowledged that, all its outboxes are
-- done, and its next request for the pending messages is answered OK with none of those that waited.
pub send_pending-fault :
    (endpoint : ℕ) (t : Tables) (d : Db)
    → d ≡ (send_pending endpoint (record { tables = t; faults = false ∷ true ∷ [] })).0
    → ((send_pending endpoint (record { tables = t; faults = false ∷ true ∷ [] })).1
        ≡ replied ok ∷ [])
      × (keep (unsent endpoint) (change_pending endpoint d).tables.outboxes ≡ [])
      × ((send_pending endpoint (change_pending endpoint d)).1 ≡ replied ok ∷ [])
unfolding send_pending change_pending run select is_faulty later join_messages
send_pending-fault endpoint t d p =
    (refl, rw (p) (acknowledged endpoint t.outboxes), rw (p, acknowledged endpoint t.outboxes) refl)
