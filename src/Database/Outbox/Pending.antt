-- ===== src/Database/Outbox/Pending.antt =====
-- How the outbox of an endpoint goes through its cycle: sendPending lists what is not done and marks
-- it, changePending acknowledges what was listed, and syncOutbox starts again.
use tycho_sipwitchqt.Prelude.{
  ℕ, Bool, ◌&&◌, List, [], ◌∷◌, ◌++◌, ◌≡◌, refl, arith, eqb, if◌then◌else◌, keep, map, All, ◌⊎◌,
  inl, inr,
}
use tycho_sipwitchqt.Prelude.Int.{ℤ, pos, eqb_ℤ}
use tycho_sipwitchqt.Sip.{ok}
use tycho_sipwitchqt.Database.Tables.{
  Tables, MessageRow, OutboxRow, healthy, select, run, update, delete, is_faulty, later, is_empty,
}
use tycho_sipwitchqt.Database.Outbox.{
  Posted, replied, answered, unsent, join_messages, reversed, send_pending,
}

delete-delete {ℓ} :
    {A : Type ℓ} (p : A → Bool) (rows : List A) → delete p (delete p rows) ≡ delete p rows
unfolding delete
delete-delete p [] = refl
delete-delete p (row ∷ rows) = ground (arith, delete-delete p rows)

abbrev pub marked : ℤ → OutboxRow → OutboxRow
marked status o = record o { msgstatus = status }

-- Marking the unsent rows as listed leaves the same rows unsent.
keep-update :
    (e : ℕ) (rows : List OutboxRow)
    → keep (unsent e) (update (unsent e) (marked (pos 100)) rows)
      ≡ map (marked (pos 100)) (keep (unsent e) rows)
unfolding update
keep-update e [] = refl
keep-update e (o ∷ rows) = ground (arith, keep-update e rows)

update-update :
    (e : ℕ) (rows : List OutboxRow)
    → update (unsent e) (marked (pos 100)) (update (unsent e) (marked (pos 100)) rows)
      ≡ update (unsent e) (marked (pos 100)) rows
unfolding update
update-update e [] = refl
update-update e (o ∷ rows) = ground (arith, update-update e rows)

join_messages-map :
    (status : ℤ) (os : List OutboxRow) (ms : List MessageRow)
    → join_messages (map (marked status) os) ms ≡ join_messages os ms
unfolding join_messages
join_messages-map status [] ms = refl
join_messages-map status (o ∷ os) ms =
    λ i. keep (λ m. eqb o.mid m.mid) ms ++ join_messages-map status os ms i

-- The answer to a request for what is pending, from the rows of the outboxes that are not done.
abbrev pub answer_to : List OutboxRow → List MessageRow → List Posted
answer_to rows ms =
    let found = join_messages rows ms in
    (if is_empty found then replied ok else answered (reversed found [])) ∷ []

abbrev pub listed : ℕ → Tables → Tables
listed e t = record t {
  deletes = delete (λ r. eqb_ℤ r.delstatus (pos 1) && eqb r.endpoint e) t.deletes;
  outboxes = update (unsent e) (marked (pos 100)) t.outboxes;
}

pub send_pending_lem :
    (e : ℕ) (t : Tables)
    → send_pending e (healthy t)
      ≡ (healthy (listed e t), answer_to (keep (unsent e) t.outboxes) t.messages)
unfolding send_pending run select is_faulty later
send_pending_lem e t = refl

answer_to-listed :
    (e : ℕ) (rows : List OutboxRow) (ms : List MessageRow)
    → answer_to (keep (unsent e) (update (unsent e) (marked (pos 100)) rows)) ms
      ≡ answer_to (keep (unsent e) rows) ms
answer_to-listed e rows ms =
    rw (keep-update e rows, join_messages-map (pos 100) (keep (unsent e) rows) ms) refl

listed-listed : (e : ℕ) (t : Tables) → listed e (listed e t) ≡ listed e t
listed-listed e t = λ i. record t {
  deletes = delete-delete (λ r. eqb_ℤ r.delstatus (pos 1) && eqb r.endpoint e) t.deletes i;
  outboxes = update-update e t.outboxes i;
}

-- Where no statement fails: a second request for the pending messages, with no acknowledgement in
-- between, is answered with the same list and leaves the database as the first one did.
pub send_pending-send_pending :
    (e : ℕ) (t : Tables)
    → send_pending e (send_pending e (healthy t)).0 ≡ send_pending e (healthy t)
send_pending-send_pending e t =
    rw (send_pending_lem e t, send_pending_lem e (listed e t))
      λ i. (healthy (listed-listed e t i), answer_to-listed e t.outboxes t.messages i)

keep-append {ℓ} :
    {A : Type ℓ} (p : A → Bool) (xs ys : List A) → keep p (xs ++ ys) ≡ keep p xs ++ keep p ys
keep-append p [] ys = refl
keep-append p (x ∷ xs) ys = ground (arith, keep-append p xs ys)

update-append :
    (p : OutboxRow → Bool) (f : OutboxRow → OutboxRow) (xs ys : List OutboxRow)
    → update p f (xs ++ ys) ≡ update p f xs ++ update p f ys
unfolding update
update-append p f [] ys = refl
update-append p f (x ∷ xs) ys = ground (arith, update-append p f xs ys)

abbrev pub sent : ℕ → OutboxRow → Bool
sent e o = eqb_ℤ o.msgstatus (pos 100) && eqb o.endpoint e

-- After the acknowledgement nothing of what was listed is left.
pub acknowledged :
    (e : ℕ) (rows : List OutboxRow)
    → keep
        (unsent e)
        (update (sent e) (marked (pos 200)) (update (unsent e) (marked (pos 100)) rows))
      ≡ []
unfolding update
acknowledged e [] = refl
acknowledged e (o ∷ rows) = ground (arith, acknowledged e rows)

abbrev pub IsNew : OutboxRow → Type 0
IsNew o = (o.msgstatus ≡ pos 0) ⊎ (o.msgstatus ≡ pos 200)

update-new :
    (e : ℕ) (new : List OutboxRow) → All IsNew new → update (sent e) (marked (pos 200)) new ≡ new
unfolding update
update-new e [] n = refl
update-new e (o ∷ new) (inl f, n) = ground (arith, update-new e new n)
update-new e (o ∷ new) (inr f, n) = ground (arith, update-new e new n)

pub after_cycle :
    (e : ℕ) (rows new : List OutboxRow)
    → All IsNew new
    → keep
        (unsent e)
        (update (sent e) (marked (pos 200)) (update (unsent e) (marked (pos 100)) rows ++ new))
      ≡ keep (unsent e) new
after_cycle e rows new n =
    let before = update (unsent e) (marked (pos 100)) rows in
    rw
      (
        update-append (sent e) (marked (pos 200)) before new,
        update-new e new n,
        keep-append (unsent e) (update (sent e) (marked (pos 200)) before) new,
        acknowledged e rows,
      )
      refl
