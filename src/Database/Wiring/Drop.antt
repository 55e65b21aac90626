-- ===== src/Database/Wiring/Drop.antt =====
-- What becomes of the registrations of an extension that an administrator drops: dropExtension of
-- Database/database.cpp and, by its signals, dropEndpoint of Server/manager.cpp.
use tycho_sipwitchqt.Prelude.{
  ℕ, String, ◌≡◌, refl, true, false, none, some, List, [], ◌∷◌, ◌++◌, inl, inr, All, keep,
}
use tycho_sipwitchqt.Prelude.Int.{eqb_ℤ}
use tycho_sipwitchqt.Sip.{Event}
use tycho_sipwitchqt.Registry.{Store, find_endpoint}
use tycho_sipwitchqt.Registry.Invariant.{Inv}
use tycho_sipwitchqt.Database.Tables.{
  Tables, EndpointRow, ExtensionRow, AuthorizeRow, healthy, select, select_one, first, is_empty,
  is_faulty, later,
}
use tycho_sipwitchqt.Database.Outbox.{Qt}
use tycho_sipwitchqt.Database.Accounts.{Config, exists, is_refused, account_of, admin_of}
use tycho_sipwitchqt.Database.Profile.{Sent, disconnect_endpoint, target_of, send_profile}
use tycho_sipwitchqt.Database.Admin.{with_account, disconnect_all}
use tycho_sipwitchqt.Database.Groups.{
  is_account, profile_and_disconnect, drop_account, drop_extension,
}
use tycho_sipwitchqt.Database.Suspend.{send_profile-healthy}
use tycho_sipwitchqt.Database.Wiring.{all_sent, disconnect}
use tycho_sipwitchqt.Database.Wiring.Gone.{IsTold, disconnect-Gone}

-- What holds of each endpoint that is told holds of all rows whose disconnects are sent.
All-disconnect_all :
    (P : ℕ → Type 0) (out : List Sent) (rows : List EndpointRow)
    → ((e : ℕ) → IsTold e (all_sent (out ++ disconnect_all rows)) → P e)
    → All (λ (x : EndpointRow). P x.endpoint) rows
unfolding all_sent
All-disconnect_all P [] [] h = tt
All-disconnect_all P [] (x ∷ rows) h =
    (h x.endpoint (inl refl), All-disconnect_all P [] rows (λ e m. h e (inr m)))
All-disconnect_all P (disconnect_endpoint k ∷ out) rows h =
    All-disconnect_all P out rows (λ e m. h e (inr m))
All-disconnect_all P (_ ∷ out) rows h = All-disconnect_all P out rows h

module _ (qt : Qt) (cfg : Config) (ev : Event) (authuser : String) (endpoint : ℕ) where
  abbrev pub devices : Tables → List EndpointRow
  devices t = keep (λ x. eqb_ℤ x.extnbr (target_of qt cfg ev)) t.endpoints

  -- Where no statement fails, what dropExtension sends for a system administrator ends with the disconnects.
  drop_extension-sent :
      (e : ExtensionRow) (a : AuthorizeRow) (t : Tables)
      → is_refused cfg (target_of qt cfg ev) ≡ false
      → first (account_of (target_of qt cfg ev) t) ≡ some (e, a)
      → is_empty (admin_of "system" ev.number t) ≡ false
      → is_account a.authtype ≡ true
      → is_empty ev.body ≡ true
      → (drop_extension qt cfg ev authuser endpoint (healthy t)).1
        ≡ (send_profile qt cfg ev authuser endpoint (healthy t)).1 ++ disconnect_all (devices t)
  unfolding drop_extension with_account drop_account profile_and_disconnect exists select_one select
      is_faulty later
  drop_extension-sent e a t range found sysadmin account no_body =
      let left = send_profile-healthy qt cfg ev authuser endpoint t no_body in
      rw (range, found, sysadmin, account, left) refl

  -- Where no statement fails: a system administrator drops an extension that has an account, by a request
  -- without a body, in a store that has the registry's invariant. Then the manager carries out the signals
  -- with no use of a deleted object and keeps the invariant, and then at no
  -- time is a registration found for any device of the extension.
  pub drop_extension-Gone :
      (e : ExtensionRow) (a : AuthorizeRow) (t : Tables) (now later : ℕ) (s : Store)
      → is_refused cfg (target_of qt cfg ev) ≡ false
      → first (account_of (target_of qt cfg ev) t) ≡ some (e, a)
      → is_empty (admin_of "system" ev.number t) ≡ false
      → is_account a.authtype ≡ true
      → is_empty ev.body ≡ true
      → Inv s
      → let told = all_sent (drop_extension qt cfg ev authuser endpoint (healthy t)).1 in
        (u : Store) × (disconnect now told s ≡ some u)
        × Inv u
        × All (λ (x : EndpointRow). find_endpoint later x.endpoint u ≡ some (u, none)) (devices t)
  drop_extension-Gone e a t now later s range found sysadmin account no_body inv =
      let sent_so = drop_extension-sent e a t range found sysadmin account no_body in
      let out = (send_profile qt cfg ev authuser endpoint (healthy t)).1 in
      let told = all_sent (out ++ disconnect_all (devices t)) in
      let (u, runs, inv', gone) = disconnect-Gone now later told s inv in
      rw sent_so (
        u,
        runs,
        inv',
        All-disconnect_all (λ k. find_endpoint later k u ≡ some (u, none)) out (devices t)
            (λ k m. gone k (inl m)),
      )
