-- ===== src/Database/Outbox.antt =====
-- Database/database.cpp: the outboxes, which say of each endpoint and each message whether the message
-- has been delivered. A status of 0 is unsent, 100 is sent with the last list of pending messages, 200
-- is done, and any other is the answer of the endpoint.
pub mod Local
pub mod Pending
pub mod Post
pub mod Cycle
pub mod Store
pub mod Invariant
pub mod Steps
pub mod Outcome
use tycho_sipwitchqt.Prelude.{
  ℕ, ◌+◌, ◌*◌, String, ◌==◌, Bool, true, false, not, ◌&&◌, ◌||◌, Option, none, some, List, [], ◌∷◌,
  ◌++◌, ltb, eqb, if◌then◌else◌, keep, map,
}
use tycho_sipwitchqt.Prelude.Int.{ℤ, pos, negsuc, ltb_ℤ, eqb_ℤ, pos_part}
use tycho_sipwitchqt.UString.{Bytes, codes, is_number, unquote}
use tycho_sipwitchqt.Contact.{Contact, to_string}
use tycho_sipwitchqt.Sip.{Event, Status, ok, forbidden, not_found, internal_server_error}
use tycho_sipwitchqt.Database.Tables.{
  Db, Tables, EndpointRow, ExtensionRow, GroupRow, MessageRow, OutboxRow, select, run, update,
  delete, insert_outbox, insert_message, is_empty,
}

-- What the handlers use of Qt and of C; `same_name` is how oSIP compares the names of headers.
pub record Qt : Type 0 where
  pub atoi : Bytes → ℤ
  pub to_int : Bytes → ℤ
  pub to_long_long : String → ℤ
  pub number : ℤ → String
  pub port_number : ℕ → Bytes
  pub trimmed : Bytes → Bytes
  pub to_lower : Bytes → Bytes
  pub to_upper : String → String
  pub from_utf8 : Bytes → String
  pub length : String → ℕ
  pub json : Bytes → String → String
  pub to_hex : Bytes → String
  pub to_int16 : ℕ → ℕ → ℕ
  pub same_name : String → String → Bool

-- The QVariantHash of the signal sendMessage, key by key.
pub record Posting : Type 0 where
  pub f : String
  pub t : ℤ
  pub d : String
  pub c : String
  pub b : Bytes
  pub s : String
  pub p : ℕ
  pub u : ℤ
  pub e : ℤ
  pub r : ℕ

-- A reply, the answer to a request for the pending messages, and the signal to the manager.
pub data Posted : Type 0 where
  replied : Status → Posted
  answered : List MessageRow → Posted
  send_message : ℕ → Posting → Posted

-- localMessage's `sendList << endpoint`. The order in which a QSet is walked is Qt's own: here it is
-- the order of insertion.
unfoldable pub insert_set {ℓ} : {A : Type ℓ} → (A → A → Bool) → A → List A → List A
insert_set same x xs = if is_empty (keep (same x) xs) then xs ++ x ∷ [] else xs

abbrev pub insert_all {ℓ} : {A : Type ℓ} → (A → A → Bool) → List A → List A → List A
insert_all same [] set = set
insert_all same (x ∷ xs) set = insert_all same xs (insert_set same x set)

unfoldable pub copy_rows : List OutboxRow → ℕ → Db → Db
copy_rows [] target d = d
copy_rows (row ∷ rows) target d =
    copy_rows rows target
      (run (insert_outbox (record { mid = row.mid; endpoint = target; msgstatus = pos 0 })) d)

unfoldable pub copy_outbox : ℕ → ℕ → Db → Db
copy_outbox source target d =
    let (d', rows) = select (λ t. keep (λ o. eqb o.endpoint source) t.outboxes) d in
    copy_rows rows target d'

abbrev pub set_outboxes : (OutboxRow → Bool) → ℤ → Tables → Tables
set_outboxes where_ status t = record t {
  outboxes = update where_ (λ o. record o { msgstatus = status }) t.outboxes;
}

unfoldable pub sync_outbox : ℕ → Db → Db
sync_outbox endpoint d = run (set_outboxes (λ o. eqb o.endpoint endpoint) (pos 0)) d

unfoldable pub last_access : ℕ → ℕ → String → Bytes → String → Db → Db
last_access endpoint timestamp agent key uri d =
    run
      (λ t. record t {
        endpoints =
            update (λ e. eqb e.endpoint endpoint)
              (λ e. record e {
                lastaccess = timestamp;
                lasturi = uri;
                agent = agent;
                devkey = if not (is_empty key) then key else e.devkey;
              })
              t.endpoints;
      })
      d

-- `limit` is the present time less the days that a message is kept.
unfoldable pub cleanup_messages : ℕ → Db → Db
cleanup_messages limit d =
    run (λ t. record t { messages = delete (λ m. ltb m.posted limit) t.messages }) d

-- Sent by the manager for the registration's endpoint, before sendPending.
unfoldable pub change_pending : ℕ → Db → Db
change_pending endpoint d =
    run (set_outboxes (λ o. eqb_ℤ o.msgstatus (pos 100) && eqb o.endpoint endpoint) (pos 200)) d

abbrev pub unsent : ℕ → OutboxRow → Bool
unsent endpoint o = eqb o.endpoint endpoint && not (eqb_ℤ o.msgstatus (pos 200))

-- Outboxes JOIN Messages ON mid, for the rows of some outboxes.
unfoldable pub join_messages : List OutboxRow → List MessageRow → List MessageRow
join_messages [] messages = []
join_messages (o ∷ os) messages = keep (λ m. eqb o.mid m.mid) messages ++ join_messages os messages

unfoldable pub reversed {ℓ} : {A : Type ℓ} → List A → List A → List A
reversed [] back = back
reversed (x ∷ xs) back = reversed xs (x ∷ back)

unfoldable pub send_pending : ℕ → Db → Db × List Posted
send_pending endpoint d =
    let d1 =
      run
        (λ t. record t {
          deletes = delete (λ r. eqb_ℤ r.delstatus (pos 1) && eqb r.endpoint endpoint) t.deletes;
        })
        d in
    let (d2, rows) =
      select (λ t. join_messages (keep (unsent endpoint) t.outboxes) t.messages) d1 in
    (
      run (set_outboxes (unsent endpoint) (pos 100)) d2,
      (if is_empty rows then replied ok else answered (reversed rows [])) ∷ [],
    )

unfoldable pub expires_at : ℕ → ℤ → ℕ
expires_at posted expires =
    if ltb_ℤ (pos 0) expires then posted + pos_part expires else posted + 30 * 86400

module _ (qt : Qt) where
  unfoldable pub message_response : String → String → ℤ → Db → Db
  message_response mid ep status d =
      let message = qt.to_long_long mid in
      let endpoint = qt.to_long_long ep in
      run (set_outboxes (λ o. eqb_ℤ (pos o.mid) message && eqb_ℤ (pos o.endpoint) endpoint) status)
        d

  abbrev pub to_user_of : Event → String
  to_user_of ev = elim ev.to_user [ none ↦ "" | some user ↦ user ]

  -- The loops that post a message to the endpoints of a list; an endpoint of `done` is marked as
  -- served, and nothing is sent to it.
  unfoldable pub post_all : List ℕ → (ℕ → Bool) → Posting → Db → Db × List Posted
  post_all [] done data_ d = (d, [])
  post_all (endpoint ∷ rest) done data_ d =
      let status = if done endpoint then pos 200 else pos 0 in
      let row : OutboxRow = record { mid = data_.r; endpoint = endpoint; msgstatus = status } in
      let (d', out) = post_all rest done data_ (run (insert_outbox row) d) in
      (d', if done endpoint then out else send_message endpoint data_ ∷ out)

  abbrev pub is_never : ℕ → Bool
  is_never endpoint = false

  unfoldable pub post_admin :
      Event → ℤ → String → ℤ → String → ℤ → List ℕ → Option ℕ → Db → Db × List Posted
  post_admin ev to text from display expires list none d = (d, [])
  post_admin ev to text from display expires list (some mid) d =
      post_all list is_never
        (record {
          f = qt.number from;
          t = to;
          d = display;
          c = "text/admin";
          b = codes text;
          s = ev.subject;
          p = ev.timestamp;
          u = ev.sequence;
          e = expires;
          r = mid;
        })
        d

  unfoldable pub admin_message : Event → ℤ → String → ℤ → String → ℤ → Db → Db × List Posted
  admin_message ev to text from display expires d =
      let (d1, list) =
        select (λ t. map (λ e. e.endpoint) (keep (λ e. eqb_ℤ e.extnbr to) t.endpoints)) d in
      let (d2, mid) =
        insert_message
          (record {
            mid = 0;
            msgseq = ev.sequence;
            msgfrom = qt.number from;
            msgto = qt.number to;
            subject = ev.subject;
            display = display;
            posted = ev.timestamp;
            expires = expires_at ev.timestamp expires;
            msgtype = "admin";
            msgtext = text;
          })
          d1 in
      post_admin ev to text from display expires list mid d2
