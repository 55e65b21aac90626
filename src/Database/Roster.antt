-- ===== src/Database/Roster.antt =====
-- Database::sendRoster and Database::sendDeviceList of Database/database.cpp. The rows come in the
-- order of the table; the source asks the engine for them by extension number.
use tycho_sipwitchqt.Prelude.{
  ℕ, String, ◌==◌, Option, none, some, List, [], ◌∷◌, ◌++◌, eqb, if◌then◌else◌, keep,
}
use tycho_sipwitchqt.Prelude.Int.{ℤ, pos, eqb_ℤ}
use tycho_sipwitchqt.Sip.{Event}
use tycho_sipwitchqt.Database.Tables.{
  Db, EndpointRow, ExtensionRow, AuthorizeRow, DeleteRow, select, run, update,
}
use tycho_sipwitchqt.Database.Outbox.{Qt}
use tycho_sipwitchqt.Database.Accounts.{Config, join_authorize}
use tycho_sipwitchqt.Database.Profile.{or_else, uri_to, pub_uri}

-- The QJsonObject of an account, key by key; `rp` is only there for one's own extension.
pub record Account : Type 0 where
  pub a : String
  pub k : String
  pub c : String
  pub n : ℤ
  pub u : String
  pub d : String
  pub t : String
  pub e : String
  pub p : String
  pub rp : Option ℤ

-- What a roster lists: a removed account with its time, or an account.
pub data Entry : Type 0 where
  removed : String → String → Entry
  account : Account → Entry

unfoldable pub removals : List DeleteRow → List Entry
removals [] = []
removals (row ∷ rows) = removed row.authname row.created ∷ removals rows

module _ (qt : Qt) (cfg : Config) (ev : Event) where
  -- "operators are special"
  unfoldable pub roster_name : ExtensionRow → AuthorizeRow → String
  roster_name e a =
      if eqb_ℤ e.extnbr (pos 0)
      then (if cfg.policy == "public" then "Lobby" else "Operators")
      else or_else e.display (or_else a.fullname e.authname)

  unfoldable pub account_entry : ExtensionRow → AuthorizeRow → Account
  account_entry e a = record {
    a = e.authname;
    k = qt.to_hex e.pubkey;
    c = a.created;
    n = e.extnbr;
    u = uri_to ev (qt.number e.extnbr);
    d = roster_name e a;
    t = a.authtype;
    e = a.email;
    p = pub_uri qt cfg ev a;
    rp = if eqb_ℤ e.extnbr ev.number then some e.extpriority else none;
  }

  unfoldable pub account_entries : List (ExtensionRow × AuthorizeRow) → List Entry
  account_entries [] = []
  account_entries ((e, a) ∷ rows) =
      let rest = account_entries rows in
      if e.authname == "anonymous" then rest else account (account_entry e a) ∷ rest

  unfoldable pub send_roster : ℕ → Db → Db × List Entry
  send_roster endpoint d =
      let d1 =
        run
          (λ t. record t {
            deletes =
                update (λ r. eqb r.endpoint endpoint) (λ r. record r { delstatus = pos 1 })
                  t.deletes;
          })
          d in
      let (d2, gone) = select (λ t. keep (λ r. eqb r.endpoint endpoint) t.deletes) d1 in
      let (d3, rows) = select (λ t. join_authorize t.extensions t.authorize) d2 in
      (d3, removals gone ++ account_entries rows)

  -- The endpoints of the sender's extension, each as an object with all but its key.
  unfoldable pub send_device_list : Db → Db × List EndpointRow
  send_device_list d = select (λ t. keep (λ e. eqb_ℤ e.extnbr ev.number) t.endpoints) d
