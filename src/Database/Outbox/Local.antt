-- ===== src/Database/Outbox/Local.antt =====
-- Database::localMessage of Database/database.cpp: a text message to an extension, a group or a named
-- user, with a copy for the sender's own devices. The filter of the context lets no such event pass
-- without the user name of its To uri.
use tycho_sipwitchqt.Prelude.{
  ℕ, String, ◌==◌, Bool, false, not, ◌&&◌, ◌||◌, Option, none, some, List, [], ◌∷◌, ◌++◌, eqb,
  if◌then◌else◌, keep, map,
}
use tycho_sipwitchqt.Prelude.Int.{ℤ, pos, ltb_ℤ, eqb_ℤ}
use tycho_sipwitchqt.UString.{codes, is_number, unquote}
use tycho_sipwitchqt.Contact.{to_string}
use tycho_sipwitchqt.Sip.{Event, ok, forbidden, not_found, internal_server_error}
use tycho_sipwitchqt.Database.Tables.{Db, EndpointRow, select, insert_message, is_empty}
use tycho_sipwitchqt.Database.Outbox.{
  Qt, Posted, replied, insert_set, insert_all, to_user_of, post_all, expires_at,
}

-- `self`, `none` and `sendList` after the loop over the sender's endpoints; `nobody` is the source's
-- variable `none`.
pub record Sender : Type 0 where
  pub self : Option ℕ
  pub nobody : Option ℕ
  pub list : List ℕ

abbrev pub no_sender : Sender
no_sender = record { self = none; nobody = none; list = [] }

unfoldable pub is_labelled : Event → Bool
is_labelled ev = ltb_ℤ (pos 0) ev.number && not (ev.label == "NONE")

unfoldable pub add_endpoint : Event → EndpointRow → Sender → Sender
add_endpoint ev row s =
    if is_labelled ev && row.label == ev.label
    then record s { self = some row.endpoint; list = insert_set eqb row.endpoint s.list }
    else if not (is_labelled ev)
    then s
    else if row.label == "NONE"
    then record s { nobody = some row.endpoint; list = insert_set eqb row.endpoint s.list }
    else record s { list = insert_set eqb row.endpoint s.list }

unfoldable pub scan_sender : Event → List EndpointRow → Sender → Sender
scan_sender ev [] s = s
scan_sender ev (row ∷ rows) s = scan_sender ev rows (add_endpoint ev row s)

abbrev pub is_the : Option ℕ → ℕ → Bool
is_the none endpoint = false
is_the (some e) endpoint = eqb endpoint e

-- `endpoint == self || endpoint == none`
unfoldable pub is_own : Sender → ℕ → Bool
is_own s endpoint = is_the s.self endpoint || is_the s.nobody endpoint

-- The endpoints of every target, one query for each.
unfoldable pub target_endpoints : List ℤ → List ℕ → Db → Db × List ℕ
target_endpoints [] list d = (d, list)
target_endpoints (target ∷ targets) list d =
    let (d', found) =
      select (λ t. map (λ e. e.endpoint) (keep (λ e. eqb_ℤ e.extnbr target) t.endpoints)) d in
    target_endpoints targets (insert_all eqb found list) d'

abbrev pub only_zero : List ℤ → Bool
only_zero (target ∷ []) = eqb_ℤ target (pos 0)
only_zero _ = false

module _ (qt : Qt) (policy : String) (ev : Event) where
  -- `if(!isLabeled) Context::reply(ev, code)`
  abbrev pub unless_labelled : Posted → List Posted
  unless_labelled p = if is_labelled ev then [] else p ∷ []

  unfoldable pub gather_targets : Db → Db × List ℤ
  gather_targets d =
      if is_number (codes (to_user_of qt ev))
      then (let (d1, members) =
            select
              (λ t.
                map (λ g. g.extnbr)
                  (keep (λ g. eqb_ℤ g.grpnbr (qt.to_int (codes (to_user_of qt ev)))) t.groups))
              d in
          (
            d1,
            if is_empty members
                then qt.to_int (codes (to_user_of qt ev)) ∷ []
                else keep (λ member. not (eqb_ℤ member ev.number)) members,
          ))
      else select
          (λ t. map (λ e. e.extnbr) (keep (λ e. e.authname == to_user_of qt ev) t.extensions)) d

  unfoldable pub gather_endpoints : List ℤ → List ℕ → Db → Db × List ℕ
  gather_endpoints targets list d =
      if only_zero targets && policy == "public"
      then (let (d', found) =
            select (λ t. map (λ e. e.endpoint) (keep (λ e. not (e.label == "NONE")) t.endpoints))
              d in
          (d', insert_all eqb found list))
      else target_endpoints targets list d

  unfoldable pub post_local : Sender → List ℕ → Option ℕ → Db → Db × List Posted
  post_local s list none d = (d, unless_labelled (replied internal_server_error))
  post_local s list (some mid) d =
      let (d', out) =
        post_all qt list (is_own s)
          (record {
            f =
                if ltb_ℤ ev.number (pos 1)
                then qt.from_utf8 (to_string qt.port_number ev.from)
                else qt.from_utf8 (unquote qt.trimmed b'"' b'"' ev.from_user);
            t = qt.to_int (codes (to_user_of qt ev));
            d = ev.display;
            c = ev.content_type;
            b = ev.body;
            s = ev.subject;
            p = ev.timestamp;
            u = ev.sequence;
            e = ev.expires;
            r = mid;
          })
          d in
      (d', unless_labelled (replied ok) ++ out)

  -- From the message's row on.
  unfoldable pub store_message : Sender → List ℕ → Db → Db × List Posted
  store_message s list d =
      let (d', mid) =
        insert_message
          (record {
            mid = 0;
            msgseq = ev.sequence;
            msgfrom =
                if ltb_ℤ ev.number (pos 1)
                then qt.from_utf8 (to_string qt.port_number ev.from)
                else qt.from_utf8 (unquote qt.trimmed b'"' b'"' ev.from_user);
            msgto = to_user_of qt ev;
            subject = ev.subject;
            display = ev.display;
            posted = ev.timestamp;
            expires = expires_at ev.timestamp ev.expires;
            msgtype = "text";
            msgtext = if ev.content_type == "text/plain" then qt.from_utf8 ev.body else "";
          })
          d in
      post_local s list mid d'

  unfoldable pub deliver : Sender → Db → Db × List Posted
  deliver s d =
      let (d1, targets) = gather_targets d in
      let (d2, list) = gather_endpoints targets s.list d1 in
      if is_empty targets && not (is_labelled ev)
      then (d1, replied not_found ∷ [])
      else if is_empty list
      then (d2, unless_labelled (replied not_found))
      else store_message s list d2

  unfoldable pub local_message : Db → Db × List Posted
  local_message d =
      if ltb_ℤ (pos 0) ev.number
      then (let (d1, rows) = select (λ t. keep (λ e. eqb_ℤ e.extnbr ev.number) t.endpoints) d in
          if is_empty rows
          then (d1, replied forbidden ∷ [])
          else deliver (scan_sender ev rows no_sender) d1)
      else deliver no_sender d
