-- ===== src/Database/Outbox/Store.antt =====
-- What localMessage stores, sends and answers.
use tycho_sipwitchqt.Prelude.{
  ℕ, suc, String, ◌==◌, true, false, not, ◌&&◌, List, [], ◌∷◌, ◌++◌, ◌≡◌, refl, arith, eqb,
  if◌then◌else◌, keep, map, All, All-append, either,
}
use tycho_sipwitchqt.Prelude.Int.{ℤ, pos, ltb_ℤ, eqb_ℤ}
use tycho_sipwitchqt.UString.{codes, unquote}
use tycho_sipwitchqt.Contact.{to_string}
use tycho_sipwitchqt.Sip.{Event, ok}
use tycho_sipwitchqt.Database.Tables.{
  Db, Tables, EndpointRow, MessageRow, healthy, run, select, insert_message, is_faulty, later,
  is_empty,
}
use tycho_sipwitchqt.Database.Outbox.{
  Qt, Posting, replied, insert_set, insert_all, to_user_of, expires_at,
}
use tycho_sipwitchqt.Database.Outbox.Post.{
  Distinct, Fresh, row_of, sends, post_all-Unposted, Unposted_lem,
}
use tycho_sipwitchqt.Database.Outbox.Local.{
  Sender, is_labelled, add_endpoint, scan_sender, is_own, target_endpoints, only_zero,
  unless_labelled, gather_endpoints, post_local, store_message,
}

absent : (y : ℕ) (xs : List ℕ) → is_empty (keep (eqb y) xs) ≡ true → All (λ z. eqb y z ≡ false) xs
absent y [] n = tt
absent y (z ∷ xs) n = (ground arith, absent y xs (ground arith))

Distinct-append :
    (y : ℕ) (xs : List ℕ) → Distinct xs → All (λ z. eqb y z ≡ false) xs → Distinct (xs ++ y ∷ [])
Distinct-append y [] d n = (tt, tt)
Distinct-append y (x ∷ xs) (f, d) (g, n) =
    (All-append (λ z. eqb x z ≡ false) xs (y ∷ []) (ground arith, tt) f, Distinct-append y xs d n)

insert_set-Distinct : (y : ℕ) (xs : List ℕ) → Distinct xs → Distinct (insert_set eqb y xs)
unfolding insert_set
insert_set-Distinct y xs d =
    either Distinct (is_empty (keep (eqb y) xs)) (xs ++ y ∷ []) xs
      (λ n. Distinct-append y xs d (absent y xs n)) (λ _. d)

insert_all-Distinct : (ys xs : List ℕ) → Distinct xs → Distinct (insert_all eqb ys xs)
insert_all-Distinct [] xs d = d
insert_all-Distinct (y ∷ ys) xs d =
    insert_all-Distinct ys (insert_set eqb y xs) (insert_set-Distinct y xs d)

add_endpoint-Distinct :
    (ev : Event) (row : EndpointRow) (s : Sender)
    → Distinct s.list
    → Distinct (add_endpoint ev row s).list
unfolding add_endpoint
add_endpoint-Distinct ev row s d =
    let added = insert_set-Distinct row.endpoint s.list d in
    let P : Sender → Type 0 = λ x. Distinct x.list in
    either P (is_labelled ev && row.label == ev.label) _ _ (λ _. added)
      (λ _.
        either P (not (is_labelled ev)) _ _ (λ _. d)
          (λ _. either P (row.label == "NONE") _ _ (λ _. added) (λ _. added)))

pub scan_sender-Distinct :
    (ev : Event) (rows : List EndpointRow) (s : Sender)
    → Distinct s.list
    → Distinct (scan_sender ev rows s).list
unfolding scan_sender
scan_sender-Distinct ev [] s d = d
scan_sender-Distinct ev (row ∷ rows) s d =
    scan_sender-Distinct ev rows (add_endpoint ev row s) (add_endpoint-Distinct ev row s d)

target_endpoints-Distinct :
    (targets : List ℤ) (list : List ℕ) (d : Db)
    → Distinct list
    → Distinct (target_endpoints targets list d).1
unfolding target_endpoints
target_endpoints-Distinct [] list d n = n
target_endpoints-Distinct (target ∷ targets) list d n =
    let (d', found) =
      select (λ t. map (λ e. e.endpoint) (keep (λ e. eqb_ℤ e.extnbr target) t.endpoints)) d in
    target_endpoints-Distinct targets (insert_all eqb found list) d'
      (insert_all-Distinct found list n)

module _ (qt : Qt) (policy : String) (ev : Event) where
  pub gather_endpoints-Distinct :
      (targets : List ℤ) (list : List ℕ) (d : Db)
      → Distinct list
      → Distinct (gather_endpoints qt policy ev targets list d).1
  unfolding gather_endpoints
  gather_endpoints-Distinct targets list d n =
      either (λ (x : Db × List ℕ). Distinct x.1) (only_zero targets && policy == "public") _ _
        (λ _.
          insert_all-Distinct
            (select (λ t. map (λ e. e.endpoint) (keep (λ e. not (e.label == "NONE")) t.endpoints))
              d).1
            list n)
        (λ _. target_endpoints-Distinct targets list d n)

  -- What the signals of a posted message carry.
  abbrev pub posting_of : ℕ → Posting
  posting_of mid = record {
    f =
        if ltb_ℤ ev.number (pos 1)
        then qt.from_utf8 (to_string qt.port_number ev.from)
        else qt.from_utf8 (unquote qt.trimmed b'"' b'"' ev.from_user);
    t = qt.to_int (codes (to_user_of qt ev));
    d = ev.display;
    c = ev.content_type;
    b = ev.body;
    s = ev.subject;
    p = ev.timestamp;
    u = ev.sequence;
    e = ev.expires;
    r = mid;
  }

  abbrev pub message_of : ℕ → MessageRow
  message_of mid = record {
    mid = mid;
    msgseq = ev.sequence;
    msgfrom = (posting_of mid).f;
    msgto = to_user_of qt ev;
    subject = ev.subject;
    display = ev.display;
    posted = ev.timestamp;
    expires = expires_at ev.timestamp ev.expires;
    msgtype = "text";
    msgtext = if ev.content_type == "text/plain" then qt.from_utf8 ev.body else "";
  }

  pub store_message-rows :
      (s : Sender) (list : List ℕ) (t : Tables)
      → Distinct list
      → Fresh t.next_mid t.outboxes
      → store_message qt policy ev s list (healthy t) ≡ (
        healthy (record t {
          messages = t.messages ++ message_of t.next_mid ∷ [];
          next_mid = suc t.next_mid;
          outboxes = t.outboxes ++ map (row_of t.next_mid (is_own s)) list;
        }),
        unless_labelled qt policy ev (replied ok) ++ sends (is_own s) (posting_of t.next_mid) list,
      )
  unfolding store_message post_local insert_message run is_faulty later
  store_message-rows s list t d n =
      let t' : Tables = record t {
        messages = t.messages ++ message_of t.next_mid ∷ [];
        next_mid = suc t.next_mid;
      } in
      let unposted = Unposted_lem t.next_mid list t.outboxes n in
      rw (post_all-Unposted qt (is_own s) (posting_of t.next_mid) list t' d unposted) refl
