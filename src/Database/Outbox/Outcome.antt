-- ===== src/Database/Outbox/Outcome.antt =====
-- The outcome of localMessage: when a message is stored, for whom, and what the sender is told.
use tycho_sipwitchqt.Prelude.{
  ℕ, suc, String, Bool, false, not, ◌&&◌, Option, none, some, List, [], ◌∷◌, ◌++◌, ◌≡◌, ◌∙◌, refl,
  arith, eqb, if◌then◌else◌, keep, map, either,
}
use tycho_sipwitchqt.Prelude.Int.{ℤ, pos, ltb_ℤ, eqb_ℤ}
use tycho_sipwitchqt.Sip.{Event, Status, ok, not_found}
use tycho_sipwitchqt.Database.Tables.{
  Db, Tables, EndpointRow, healthy, run, select, insert_outbox, insert_message, is_faulty, later,
  is_empty,
}
use tycho_sipwitchqt.Database.Outbox.{
  Qt, Posting, Posted, replied, answered, send_message, insert_all, post_all,
}
use tycho_sipwitchqt.Database.Outbox.Post.{Distinct, Fresh, row_of, sends}
use tycho_sipwitchqt.Database.Outbox.Local.{
  Sender, is_labelled, no_sender, scan_sender, is_own, target_endpoints, unless_labelled,
  gather_targets, gather_endpoints, post_local, store_message, deliver, local_message,
}
use tycho_sipwitchqt.Database.Outbox.Store.{
  scan_sender-Distinct, gather_endpoints-Distinct, posting_of, message_of, store_message-rows,
}

target_endpoints-healthy :
    (targets : List ℤ) (list : List ℕ) (t : Tables)
    → (target_endpoints targets list (healthy t)).0 ≡ healthy t
unfolding target_endpoints select is_faulty later
target_endpoints-healthy [] list t = refl
target_endpoints-healthy (target ∷ targets) list t =
    target_endpoints-healthy targets
      (insert_all eqb (map (λ e. e.endpoint) (keep (λ e. eqb_ℤ e.extnbr target) t.endpoints)) list)
      t

abbrev pub replies : List Posted → ℕ
replies [] = 0
replies (replied code ∷ out) = suc (replies out)
replies (answered rows ∷ out) = replies out
replies (send_message e data_ ∷ out) = replies out

module _ (qt : Qt) (policy : String) (ev : Event) where
  gather_targets-healthy : (t : Tables) → (gather_targets qt policy ev (healthy t)).0 ≡ healthy t
  unfolding gather_targets select is_faulty later
  gather_targets-healthy t = ground arith

  gather_endpoints-healthy :
      (targets : List ℤ) (list : List ℕ) (t : Tables)
      → (gather_endpoints qt policy ev targets list (healthy t)).0 ≡ healthy t
  unfolding gather_endpoints select is_faulty later
  gather_endpoints-healthy targets list t = ground (arith, target_endpoints-healthy targets list t)

  abbrev pub sender_rows : Tables → List EndpointRow
  sender_rows t = keep (λ e. eqb_ℤ e.extnbr ev.number) t.endpoints

  -- The sender's own endpoints, as the loop over them leaves them.
  abbrev pub sender_of : Tables → Sender
  sender_of t =
      if ltb_ℤ (pos 0) ev.number then scan_sender ev (sender_rows t) no_sender else no_sender

  abbrev pub targets_of : Tables → List ℤ
  targets_of t = (gather_targets qt policy ev (healthy t)).1

  abbrev pub endpoints_of : Tables → List ℕ
  endpoints_of t = (gather_endpoints qt policy ev (targets_of t) (sender_of t).list (healthy t)).1

  sender_of-Distinct : (t : Tables) → Distinct (sender_of t).list
  sender_of-Distinct t =
      either (λ (s : Sender). Distinct s.list) (ltb_ℤ (pos 0) ev.number) _ _
        (λ _. scan_sender-Distinct ev (sender_rows t) no_sender tt) (λ _. tt)

  pub endpoints_of-Distinct : (t : Tables) → Distinct (endpoints_of t)
  endpoints_of-Distinct t =
      gather_endpoints-Distinct qt policy ev (targets_of t) (sender_of t).list (healthy t)
        (sender_of-Distinct t)

  deliver-stores :
      (s : Sender) (t : Tables)
      → (is_empty (targets_of t) && not (is_labelled ev)) ≡ false
      → is_empty (gather_endpoints qt policy ev (targets_of t) s.list (healthy t)).1 ≡ false
      → deliver qt policy ev s (healthy t)
        ≡ store_message qt policy ev s
            (gather_endpoints qt policy ev (targets_of t) s.list (healthy t)).1
            (healthy t)
  unfolding deliver
  deliver-stores s t a b =
      ground (arith, gather_targets-healthy t, gather_endpoints-healthy (targets_of t) s.list t)

  post_all-replies :
      (list : List ℕ) (done : ℕ → Bool) (data_ : Posting) (d : Db)
      → replies (post_all qt list done data_ d).1 ≡ 0
  unfolding post_all
  post_all-replies [] done data_ d = refl
  post_all-replies (e ∷ list) done data_ d =
      let ih = post_all-replies list done data_ (run (insert_outbox (row_of data_.r done e)) d) in
      either (λ (out : List Posted). replies out ≡ 0) (done e) _ _ (λ _. ih) (λ _. ih)

  local_message-deliver :
      (t : Tables)
      → (ltb_ℤ (pos 0) ev.number && is_empty (sender_rows t)) ≡ false
      → local_message qt policy ev (healthy t) ≡ deliver qt policy ev (sender_of t) (healthy t)
  unfolding local_message select is_faulty later
  local_message-deliver t known = ground arith

  -- Where no statement fails, the sender has endpoints (or is no extension), there is a target (or the
  -- sender's devices are labelled) and an endpoint to serve, and the counter of the messages is above
  -- those of the outboxes: one message is added under that counter, and one outbox for each endpoint of
  -- the list, done for the sender's own device and its unlabelled one and unsent for the others. It is
  -- sent to exactly those others, and an unlabelled sender is told OK first.
  pub local_message-stores :
      (t : Tables)
      → Fresh t.next_mid t.outboxes
      → (ltb_ℤ (pos 0) ev.number && is_empty (sender_rows t)) ≡ false
      → (is_empty (targets_of t) && not (is_labelled ev)) ≡ false
      → is_empty (endpoints_of t) ≡ false
      → local_message qt policy ev (healthy t) ≡ (
        healthy (record t {
          messages = t.messages ++ message_of qt policy ev t.next_mid ∷ [];
          next_mid = suc t.next_mid;
          outboxes = t.outboxes ++ map (row_of t.next_mid (is_own (sender_of t))) (endpoints_of t);
        }),
        unless_labelled qt policy ev (replied ok)
            ++ sends (is_own (sender_of t)) (posting_of qt policy ev t.next_mid) (endpoints_of t),
      )
  local_message-stores t n known a b =
      let distinct = endpoints_of-Distinct t in
      local_message-deliver t known
      ∙ deliver-stores (sender_of t) t a b
      ∙ store_message-rows qt policy ev (sender_of t) (endpoints_of t) t distinct n

  post_local-replies :
      (s : Sender) (list : List ℕ) (mid : Option ℕ) (d : Db)
      → replies (post_local qt policy ev s list mid d).1 ≡ (if is_labelled ev then 0 else 1)
  unfolding post_local
  post_local-replies s list none d = ground arith
  post_local-replies s list (some mid) d =
      ground (arith, post_all-replies list (is_own s) (posting_of qt policy ev mid) d)

  unless_labelled-replies :
      (code : Status)
      → replies (unless_labelled qt policy ev (replied code)) ≡ (if is_labelled ev then 0 else 1)
  unless_labelled-replies code = ground arith

  store_message-replies :
      (s : Sender) (list : List ℕ) (d : Db)
      → replies (store_message qt policy ev s list d).1 ≡ (if is_labelled ev then 0 else 1)
  unfolding store_message
  store_message-replies s list d =
      let stored = insert_message (record (message_of qt policy ev 0) { mid = 0 }) d in
      post_local-replies s list stored.1 stored.0

  deliver-replies :
      (s : Sender) (d : Db)
      → replies (deliver qt policy ev s d).1 ≡ (if is_labelled ev then 0 else 1)
  unfolding deliver
  deliver-replies s d =
      let (d1, targets) = gather_targets qt policy ev d in
      let (d2, list) = gather_endpoints qt policy ev targets s.list d1 in
      let stored = store_message-replies s list d2 in
      either (λ (x : Db × List Posted). replies x.1 ≡ (if is_labelled ev then 0 else 1))
        (is_empty targets && not (is_labelled ev)) _ _ (λ f. ground (arith, f))
        (λ _.
          either (λ (x : Db × List Posted). replies x.1 ≡ (if is_labelled ev then 0 else 1))
            (is_empty list) _ _ (λ _. unless_labelled-replies not_found) (λ _. stored))

  -- Whichever statements fail: localMessage itself sends exactly one reply, but none where the sender's
  -- device is labelled and the sender's endpoints were found. What the context answers before it signals
  -- the message is not counted.
  pub local_message-replies :
      (d : Db)
      → replies (local_message qt policy ev d).1
        ≡ (if is_labelled ev && not (is_empty (select sender_rows d).1) then 0 else 1)
  unfolding local_message is_labelled
  local_message-replies d =
      let (d1, rows) = select sender_rows d in
      ground
        (arith, deliver-replies (scan_sender ev rows no_sender) d1, deliver-replies no_sender d)
