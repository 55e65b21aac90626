-- ===== src/Authorize/Licensing.antt =====
-- What an endpoint that the lookup hands to the manager has in the tables.
use tycho_sipwitchqt.Prelude.{
  ℕ, ◌==◌, eq_iff, ◌≡◌, ◌≢◌, refl, false, not, ◌&&◌, ◌||◌, Option, none, some, List, ◌⊎◌, inl, inr,
  arith, All, Option-cases, either,
}
use tycho_sipwitchqt.Prelude.Int.{pos, ltb_ℤ, ◌≤ℤ◌}
use tycho_sipwitchqt.Sip.{Event}
use tycho_sipwitchqt.Registry.{Endpoint}
use tycho_sipwitchqt.Authorize.{
  Extension, Authorization, Tables, Settings, Sent, create_endpoint, clamp_expires, or_zero,
  endpoint_reply, find_authorized, find_labelled, find_extension, find_endpoint,
}

module _ {D : Type 0} (tables : Tables D) (set : Settings) (ev : Event) (before : D) where
  -- The endpoint's extension, as the tables had it before the lookup, and its authorization, as they have
  -- it after, and that they may register.
  pub record IsLicensed (d : D) (ep : Endpoint) : Type 0 where
    pub extension : Extension
    pub authorization : Authorization
    pub listed : tables.extension ev.number before ≡ some extension
    pub enrolled : tables.authorize extension.authname d ≡ some authorization
    pub access : authorization.authaccess ≢ "SUSPEND"
    pub kind : (authorization.authtype ≡ "USER") ⊎ (authorization.authtype ≡ "DEVICE")
    pub user : ep.user ≡ extension.authname
    pub secret : ep.secret ≡ authorization.secret
    pub first : set.first_number ≤ℤ ev.number
    pub last : ev.number ≤ℤ set.last_number
    pub number : pos ep.number ≡ ev.number
    pub label : ep.label ≡ ev.label
    pub expires : ep.expires ≡ clamp_expires set ev.label ev.protocol ev.expires

  abbrev pub IsRanged : Type 0
  IsRanged = (pos 0 ≤ℤ ev.number) × (set.first_number ≤ℤ ev.number) × (ev.number ≤ℤ set.last_number)

  abbrev pub IsLegal : D → Sent → Type 0
  IsLegal d (create_endpoint ep) = IsLicensed d ep
  IsLegal d _ = Unit

  authorized-IsLegal :
      (d : D) (ext : Extension) (eid : ℕ)
      → IsRanged
      → tables.extension ev.number before ≡ some ext
      → All (IsLegal d) (find_authorized tables set ev ext eid d)
  unfolding find_authorized
  authorized-IsLegal d ext eid n l = elim (Option-cases (tables.authorize ext.authname d)) [
    | inl e ↦ rw (e, find_authorized) (tt, tt)
    | inr (auth, e) ↦
        rw (e, find_authorized)
          (either (All (IsLegal d)) (auth.authaccess == "SUSPEND") _ _ (λ s. (tt, tt))
            (λ access.
              either (All (IsLegal d))
                (not (auth.authtype == "USER") && not (auth.authtype == "DEVICE")) _ _
                (λ t. (tt, tt)) (λ kind. (licensed auth e access kind, tt))))
  ]
    where
      licensed :
          (auth : Authorization)
          → tables.authorize ext.authname d ≡ some auth
          → (auth.authaccess == "SUSPEND") ≡ false
          → (not (auth.authtype == "USER") && not (auth.authtype == "DEVICE")) ≡ false
          → IsLicensed d (endpoint_reply tables set ev ext auth eid d)
      licensed auth e access kind =
          unfold endpoint_reply in
          record {
            extension = ext;
            authorization = auth;
            listed = l;
            enrolled = e;
            access = ground (arith, eq_iff auth.authaccess "SUSPEND");
            kind = ground (arith, eq_iff auth.authtype "USER", eq_iff auth.authtype "DEVICE");
            first = n.1;
            last = n.2;
            user = refl;
            secret = refl;
            number = ground (arith, n.0);
            label = refl;
            expires = refl;
          }

  abbrev Legal : D × List Sent → Type 0
  Legal (d, sent) = All (IsLegal d) sent

  labelled-Legal :
      (d : D) (ext : Extension) (found : Option ℕ)
      → IsRanged
      → tables.extension ev.number before ≡ some ext
      → Legal (find_labelled tables set ev ext found d)
  unfolding find_labelled
  labelled-Legal d ext none n l = (
    tt,
    authorized-IsLegal (tables.insert_endpoint ev.number ev.label d) ext
        (or_zero tables set
          (tables.endpoint ev.number ev.label (tables.insert_endpoint ev.number ev.label d)))
        n l,
  )
  labelled-Legal d ext (some eid) n l = (tt, authorized-IsLegal d ext eid n l)

  extension-Legal :
      (d : D) (found : Option ℕ) (ext : Option Extension)
      → IsRanged
      → tables.extension ev.number before ≡ ext
      → Legal (find_extension tables set ev found ext d)
  unfolding find_extension
  extension-Legal d found none n l = (tt, tt)
  extension-Legal d none (some ext) n l =
      either Legal (ev.initialize == "label") _ _ (λ e. labelled-Legal d ext none n l)
        (λ e. (tt, tt))
  extension-Legal d (some eid) (some ext) n l =
      either Legal (ev.initialize == "label") _ _ (λ e. labelled-Legal d ext (some eid) n l)
        (λ e. authorized-IsLegal d ext eid n l)

  -- An endpoint that is handed to the manager belongs to the extension of the event's own number, which is in the
  -- extension range; the extension's authorization exists, is not suspended and is of a user or a
  -- device; the endpoint has the extension's user, that authorization's secret, and the clamped time.
  pub find_endpoint-IsLegal :
      All (IsLegal (find_endpoint tables set ev before).0) (find_endpoint tables set ev before).1
  unfolding find_endpoint
  find_endpoint-IsLegal =
      either Legal (ltb_ℤ set.first_number (pos 1) || not set.has_db) _ _ (λ e. (tt, tt))
        (λ up.
          either Legal (ltb_ℤ ev.expires (pos 1)) _ _ (λ e. (tt, tt))
            (λ asks.
              either Legal (ltb_ℤ ev.number set.first_number || ltb_ℤ set.last_number ev.number) _ _
                (λ e. (tt, tt))
                (λ ranged.
                  extension-Legal before (tables.endpoint ev.number ev.label before)
                    (tables.extension ev.number before) (ground arith, ground arith, ground arith)
                    refl)))
