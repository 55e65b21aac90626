-- ===== src/Database/Outbox/Cycle.antt =====
-- What an endpoint is listed after it has acknowledged a list, and what localMessage posted meanwhile.
use tycho_sipwitchqt.Prelude.{
  ℕ, String, Bool, true, false, not, ◌&&◌, ◌||◌, List, [], ◌∷◌, ◌++◌, ◌≡◌, refl, ap, sym, arith,
  eqb, if◌then◌else◌, keep, map, All, inl, inr, Bool-cases, suc,
}
use mathlib.Core.Path.{subst}
use tycho_sipwitchqt.Prelude.Int.{pos, ltb_ℤ}
use tycho_sipwitchqt.Sip.{Event, ok}
use tycho_sipwitchqt.Database.Tables.{
  Tables, MessageRow, healthy, run, update, is_faulty, later, is_empty,
}
use tycho_sipwitchqt.Database.Outbox.{
  Qt, Posted, replied, answered, change_pending, send_pending, unsent, join_messages, reversed,
}
use tycho_sipwitchqt.Database.Outbox.Pending.{listed, send_pending_lem, after_cycle, sent, marked}
use tycho_sipwitchqt.Database.Outbox.Post.{Distinct, Fresh, row_of, Fresh-listed, rows-IsNew}
use tycho_sipwitchqt.Database.Outbox.Local.{is_labelled, is_own, local_message}
use tycho_sipwitchqt.Database.Outbox.Store.{message_of}
use tycho_sipwitchqt.Database.Outbox.Outcome.{
  sender_rows, sender_of, targets_of, endpoints_of, endpoints_of-Distinct, local_message-stores,
}

abbrev pub among : ℕ → List ℕ → Bool
among e [] = false
among e (x ∷ xs) = eqb x e || among e xs

abbrev pub IsUnused : ℕ → List MessageRow → Type 0
IsUnused mid ms = All (λ (m : MessageRow). eqb mid m.mid ≡ false) ms

keep-new :
    (mid : ℕ) (m : MessageRow) (ms : List MessageRow)
    → m.mid ≡ mid
    → IsUnused mid ms
    → keep (λ (x : MessageRow). eqb mid x.mid) (ms ++ m ∷ []) ≡ m ∷ []
keep-new mid m [] same n = ground (arith, same)
keep-new mid m (x ∷ ms) same (f, n) = ground (arith, f, keep-new mid m ms same n)

among-absent : (e : ℕ) (xs : List ℕ) → All (λ y. eqb e y ≡ false) xs → among e xs ≡ false
among-absent e [] n = refl
among-absent e (x ∷ xs) (f, n) = ground (arith, among-absent e xs n)

module _ (mid e : ℕ) (done : ℕ → Bool) (m : MessageRow) (ms : List MessageRow) (same : m.mid ≡ mid)
    (n : IsUnused mid ms) where
  abbrev Listed : List ℕ → Bool → Type 0
  Listed list b =
      join_messages (keep (unsent e) (map (row_of mid done) list)) (ms ++ m ∷ [])
      ≡ (if b && not (done e) then m ∷ [] else [])

  join_messages-here :
      (list : List ℕ)
      → among e list ≡ false
      → Listed list (among e list)
      → Listed (e ∷ list) (among e (e ∷ list))
  unfolding join_messages
  join_messages-here list absent rest = ground (arith, absent, rest, keep-new mid m ms same n)

  join_messages-new : (list : List ℕ) → Distinct list → Listed list (among e list)
  unfolding join_messages
  join_messages-new [] d = ground arith
  join_messages-new (x ∷ list) (apart, d) = elim (Bool-cases (eqb x e)) [
    | inl here ↦
        let own : x ≡ e = ground (arith, here) in
        let absent = among-absent e list (subst (λ y. All (λ z. eqb y z ≡ false) list) own apart) in
        subst (λ y. Listed (y ∷ list) (among e (y ∷ list))) (sym own)
          (join_messages-here list absent (join_messages-new list d))
    | inr there ↦ ground (arith, there, join_messages-new list d)
  ]

answered_one :
    (m : MessageRow) (b : Bool)
    → (let found = if b then m ∷ [] else [] in
        if is_empty found then replied ok else answered (reversed found []))
      ≡ (if b then answered (m ∷ []) else replied ok)
unfolding reversed
answered_one m true = refl
answered_one m false = refl

-- Where no statement fails: localMessage stores a new message after an endpoint was sent its pending
-- messages, and then the endpoint acknowledges them. What it is sent as pending next is the new message
-- alone where the message was posted to it and it is not the sender's own, and else nothing.
pub send_pending-local_message :
    (qt : Qt) (policy : String) (ev : Event) (e : ℕ) (t : Tables)
    → Fresh t.next_mid t.outboxes
    → IsUnused t.next_mid t.messages
    → (ltb_ℤ (pos 0) ev.number && is_empty (sender_rows qt policy ev (listed e t))) ≡ false
    → (is_empty (targets_of qt policy ev (listed e t)) && not (is_labelled ev)) ≡ false
    → is_empty (endpoints_of qt policy ev (listed e t)) ≡ false
    → let u = listed e t in
      let to_it =
        among e (endpoints_of qt policy ev u) && not (is_own (sender_of qt policy ev u) e) in
      (send_pending e
        (change_pending e (local_message qt policy ev (send_pending e (healthy t)).0).0)).1
      ≡ (if to_it then answered (message_of qt policy ev t.next_mid ∷ []) else replied ok) ∷ []
unfolding change_pending run is_faulty later
send_pending-local_message qt policy ev e t fresh unused known targets endpoints =
    let u = listed e t in
    let mid = t.next_mid in
    let list = endpoints_of qt policy ev u in
    let own = is_own (sender_of qt policy ev u) in
    let m = message_of qt policy ev mid in
    let new = map (row_of mid own) list in
    let t' : Tables = record u {
      messages = t.messages ++ m ∷ [];
      next_mid = suc mid;
      outboxes = update (sent e) (marked (pos 200)) (u.outboxes ++ new);
    } in
    rw
      (
        send_pending_lem e t,
        local_message-stores qt policy ev u (Fresh-listed mid e t.outboxes fresh) known targets
            endpoints,
        send_pending_lem e t',
        after_cycle e t.outboxes new (rows-IsNew mid own list),
        join_messages-new mid e own m t.messages refl unused list
            (endpoints_of-Distinct qt policy ev u),
      )
      (ap (λ (p : Posted). p ∷ []) (answered_one m (among e list && not (own e))))
