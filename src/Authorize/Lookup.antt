-- ===== src/Authorize/Lookup.antt =====
-- What the lookup of an endpoint lets register, and what it does to the tables.
use tycho_sipwitchqt.Prelude.{
  ℕ, suc, String, ◌==◌, eq_iff, ◌≡◌, ◌≢◌, refl, true, Option, none, some, List, [], ◌∷◌, arith,
  if◌then◌else◌,
}
use tycho_sipwitchqt.Prelude.Int.{ℤ, pos, ◌≤ℤ◌}
use tycho_sipwitchqt.Sip.{Event, forbidden}
use tycho_sipwitchqt.Authorize.{
  Extension, Tables, Settings, Sent, replied, copy_outboxes, sync_outbox, create_endpoint,
  update_roster, clamp_expires, or_zero, find_authorized, find_labelled, find_extension,
  find_endpoint,
}

-- The limit of a kind of registration.
abbrev pub limit_of : Settings → String → String → ℤ
limit_of set label protocol =
    if protocol == "udp"
    then if label == "NONE" then set.expires_udp else set.expires_nat
    else set.expires_tcp

-- For a positive request and positive limits, the time of a registration is positive, at most what was
-- asked for, and at most the limit of its kind: labelled over UDP, without a label over UDP, or over
-- another transport.
pub clamp_expires_lem :
    (set : Settings) (label protocol : String) (expires : ℤ)
    → pos 1 ≤ℤ expires
    → pos 1 ≤ℤ set.expires_nat
    → pos 1 ≤ℤ set.expires_udp
    → pos 1 ≤ℤ set.expires_tcp
    → (pos 1 ≤ℤ clamp_expires set label protocol expires)
      × (clamp_expires set label protocol expires ≤ℤ expires)
      × (clamp_expires set label protocol expires ≤ℤ limit_of set label protocol)
unfolding clamp_expires
clamp_expires_lem set label protocol expires a b c d = (ground arith, ground arith, ground arith)

module _ {D : Type 0} (tables : Tables D) (set : Settings) (ev : Event) where
  -- An answer, or the hand-over to the manager, which then answers.
  abbrev pub outcomes : List Sent → ℕ
  outcomes [] = 0
  outcomes (replied st ∷ rest) = suc (outcomes rest)
  outcomes (create_endpoint ep ∷ rest) = suc (outcomes rest)
  outcomes (copy_outboxes a b ∷ rest) = outcomes rest
  outcomes (sync_outbox a ∷ rest) = outcomes rest
  outcomes (update_roster ∷ rest) = outcomes rest

  authorized-outcomes :
      (d : D) (ext : Extension) (eid : ℕ) → outcomes (find_authorized tables set ev ext eid d) ≡ 1
  unfolding find_authorized
  authorized-outcomes d ext eid = ground arith

  extension-outcomes :
      (d : D) (found : Option ℕ) (ext : Option Extension)
      → outcomes (find_extension tables set ev found ext d).1 ≡ 1
  unfolding find_extension find_labelled
  extension-outcomes d found none = refl
  extension-outcomes d none (some ext) =
      let d' = tables.insert_endpoint ev.number ev.label d in
      ground (
        arith,
        authorized-outcomes d' ext (or_zero tables set (tables.endpoint ev.number ev.label d')),
      )
  extension-outcomes d (some eid) (some ext) = ground (arith, authorized-outcomes d ext eid)

  -- Every lookup has exactly one outcome: one reply, or one endpoint for the manager.
  pub find_endpoint-outcomes : (d : D) → outcomes (find_endpoint tables set ev d).1 ≡ 1
  unfolding find_endpoint
  find_endpoint-outcomes d = ground (
    arith,
    extension-outcomes d (tables.endpoint ev.number ev.label d) (tables.extension ev.number d),
  )

  -- Without the X-Initialize header "label" the lookup changes no table.
  pub find_endpoint-unchanged :
      (d : D) → ev.initialize ≢ "label" → (find_endpoint tables set ev d).0 ≡ d
  unfolding find_endpoint find_extension find_labelled
  find_endpoint-unchanged d n = ground (arith, eq_iff ev.initialize "label")

  -- A REGISTER with the X-Initialize header "label" and a positive time, for an extension of the range
  -- that has no authorization: where its label has no row, the lookup answers 403 and yet leaves the
  -- tables with the row inserted.
  pub find_endpoint-inserts :
      (d : D) (ext : Extension)
      → ev.initialize ≡ "label"
      → pos 1 ≤ℤ set.first_number
      → set.has_db ≡ true
      → pos 1 ≤ℤ ev.expires
      → set.first_number ≤ℤ ev.number
      → ev.number ≤ℤ set.last_number
      → tables.extension ev.number d ≡ some ext
      → tables.endpoint ev.number ev.label d ≡ none
      → tables.authorize ext.authname (tables.insert_endpoint ev.number ev.label d) ≡ none
      → ((origin eid : ℕ) × ((find_endpoint tables set ev d).1
            ≡ copy_outboxes origin eid ∷ replied forbidden ∷ []))
        × ((find_endpoint tables set ev d).0 ≡ tables.insert_endpoint ev.number ev.label d)
  unfolding find_endpoint find_extension find_labelled find_authorized
  find_endpoint-inserts d ext i a b c e f g h k =
      let d' = tables.insert_endpoint ev.number ev.label d in
      (
        (
          or_zero tables set (tables.endpoint ev.number "NONE" d'),
          or_zero tables set (tables.endpoint ev.number ev.label d'),
          ground (arith, eq_iff ev.initialize "label"),
        ),
        ground (arith, eq_iff ev.initialize "label"),
      )
