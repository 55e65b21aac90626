-- ===== src/Event/Names.antt =====
-- Whose number and which label Server/event.cpp finds in a message.
use tycho_sipwitchqt.Prelude.{
  ℕ, zero, suc, ◌-◌, ◌<◌, true, false, ◌&&◌, Option, none, some, [], ◌∷◌, ◌≡◌, ◌≢◌, ◌⊎◌, inl, inr,
  ◌↔◌, ◌∙◌, refl, sym, ap, arith, if◌then◌else◌, either, Option-cases, Bool-cases, All, take, drop,
  length,
}
use tycho_sipwitchqt.Prelude.Int.{ℤ, negsuc}
use tycho_sipwitchqt.UString.{Bytes, codes, eq_bytes, is_number, unquote, starts_with, ends_with}
use tycho_sipwitchqt.Contact.{OsipUri}
use tycho_sipwitchqt.Event.{
  OsipMessage, Kind, Received, Data, Authorization, Party, Context, bare, or_else, answered,
  registration_success, registration_failure, message_new, call_invite, other, has_host, no_data,
}
use tycho_sipwitchqt.Event.Message.{label_of, parse_message}
use tycho_sipwitchqt.Event.Build.{
  local_user, number_of, requested, by_kind, with_credentials, with_target, data_of,
}
use tycho_sipwitchqt.Event.Sources.{message_of, data_of-IsFrom}

-- Not one of the letters A to Z.
abbrev pub IsLower : ℕ → Type 0
IsLower c = (c < b'A') ⊎ (b'Z' < c)

All-take : (n : ℕ) (s : Bytes) → All IsLower s → All IsLower (take n s)
All-take zero s h = tt
All-take (suc n) [] h = tt
All-take (suc n) (c ∷ cs) (p, h) = (p, All-take n cs h)

All-drop : (n : ℕ) (s : Bytes) → All IsLower s → All IsLower (drop n s)
All-drop zero s h = h
All-drop (suc n) [] h = tt
All-drop (suc n) (c ∷ cs) (p, h) = All-drop n cs h

not_none : (s : Bytes) → All IsLower s → s ≢ codes "NONE"
not_none [] h e = cc
not_none (c ∷ cs) (p, h) e = let first : c ≡ b'N' = cc in omega (arith, first)

module _ (cx : Context) where
  -- `toLower` leaves no capital letter, and `trimmed` brings none in.
  pub record IsLowered : Type 0 where
    pub lowered : (s : Bytes) → All IsLower (cx.to_lower s)
    pub trims : (s : Bytes) → All IsLower s → All IsLower (cx.trimmed s)

  bare-IsLower : (s : Bytes) → IsLowered → All IsLower s → All IsLower (bare cx s)
  unfolding bare unquote
  bare-IsLower s low h =
      either (All IsLower) (starts_with b'"' s && ends_with b'"' s) _ _
        (λ _. All-take (length s - 2) (drop 1 s) (All-drop 1 s h)) (λ _. low.trims s h)

  label_of-none :
      (value : Option Bytes) → IsLowered → (label_of cx value ≡ codes "NONE") ↔ (value ≡ none)
  unfolding label_of
  label_of-none none low = (λ _. refl, λ _. refl)
  label_of-none (some value) low = (
    λ e. absurd (not_none _ (bare-IsLower (cx.to_lower value) low (low.lowered value)) e),
    λ e. cc,
  )

  -- An event has the label "NONE" exactly where its message has no X-Label header: a client that has a
  -- label cannot pass for one without.
  pub data_of-label :
      (event : Received) (msg : OsipMessage)
      → IsLowered
      → message_of event.kind event ≡ some msg
      → ((data_of cx (some event)).label ≡ codes "NONE") ↔ (msg.x_label ≡ none)
  data_of-label event msg low e =
      let from = (data_of-IsFrom cx event msg e).label in
      let same = label_of-none msg.x_label low in (λ h. same.0 (sym from ∙ h), λ h. from ∙ same.1 h)

  -- The party of a message has a user on this server.
  abbrev pub Local : Option Party → Bytes → Type 0
  Local party user =
      (p : Party) × (url : OsipUri) × (party ≡ some p)
      × (p.url ≡ some url)
      × (url.username ≡ some user)
      × (cx.is_local (or_else url.host []) ≡ true)

  -- The number of a party: that of its local user, if the user is one, or -1.
  abbrev pub IsNumbered : Option Party → ℤ → Type 0
  IsNumbered party n =
      ((user : Bytes) × Local party user × (is_number user ≡ true) × (n ≡ cx.to_int user))
      ⊎ ((n ≡ negsuc 0) × ((user : Bytes) → Local party user → is_number user ≡ false))

  local_user-Local :
      (party : Option Party) (user : Bytes) → local_user cx party ≡ some user → Local party user
  unfolding local_user
  local_user-Local none user e = cc
  local_user-Local (some p) user e = elim (Option-cases p.url) [
    | inl n ↦ absurd (ground (arith, e, n))
    | inr (url, eu) ↦ elim (Option-cases url.username) [
      | inl n ↦ absurd (ground (arith, e, n, eu))
      | inr (id, ei) ↦ elim (Bool-cases (cx.is_local (or_else url.host []))) [
        | inl there ↦ (p, url, refl, eu, ei ∙ ground (arith, e, eu, ei, there), there)
        | inr away ↦ absurd (ground (arith, e, eu, ei, away))
      ]
    ]
  ]

  Local-local_user :
      (party : Option Party) (user : Bytes) → Local party user → local_user cx party ≡ some user
  unfolding local_user
  Local-local_user party user (p, url, e1, e2, e3, e4) = ground (arith, e1, e2, e3, e4)

  no-Local :
      (party : Option Party) (user : Bytes) → local_user cx party ≡ none → Local party user → ⊥
  no-Local party user n l = let there = Local-local_user party user l in cc

  number_of-IsNumbered : (party : Option Party) → IsNumbered party (number_of cx party (negsuc 0))
  unfolding number_of
  number_of-IsNumbered party = elim (Option-cases (local_user cx party)) [
    | inl n ↦ inr (ground (arith, n), λ user l. absurd (no-Local party user n l))
    | inr (user, u) ↦ elim (Bool-cases (is_number user)) [
      | inl yes' ↦ inl (user, local_user-Local party user u, yes', ground (arith, u, yes'))
      | inr no' ↦ inr (
        ground (arith, u, no'),
        λ user' l. ground (arith, u, no', Local-local_user party user' l),
      )
    ]
  ]

  target-number :
      (msg : OsipMessage) (d : Data)
      → (with_target cx msg (parse_message cx msg d)).number ≡ d.number
  unfolding with_target parse_message
  target-number msg d =
      either (λ (t : Data). t.number ≡ d.number) (has_host msg.req_uri) _ _ (λ _. refl) (λ _. refl)

  credentials-number :
      (a : Option Authorization) (d : Data) → (with_credentials cx a d).number ≡ d.number
  unfolding with_credentials
  credentials-number none d = refl
  credentials-number (some a) d = refl

  kind-number :
      (kind : Kind) (event : Received)
      → (kind ≡ message_new) ⊎ (kind ≡ call_invite)
      → by_kind cx kind event no_data ≡ requested cx event.request no_data
  unfolding by_kind
  kind-number message_new event k = refl
  kind-number call_invite event k = refl
  kind-number answered event k = absurd (ground arith)
  kind-number registration_success event k = absurd (ground arith)
  kind-number registration_failure event k = absurd (ground arith)
  kind-number other event k = absurd (ground arith)

  requested-number :
      (msg : OsipMessage)
      → (requested cx msg no_data).number
        ≡ number_of cx
            (if eq_bytes msg.method (codes "REGISTER") then msg.to else msg.from)
            (negsuc 0)
  unfolding requested no_data
  requested-number msg =
      ap (number_of cx (if eq_bytes msg.method (codes "REGISTER") then msg.to else msg.from))
        (target-number msg _)

  -- The number of a new request is that of a user of this server, whose name is a number: of the party
  -- in To for a REGISTER, and in From for any other method. Where there is none it is -1.
  pub data_of-number :
      (event : Received)
      → (event.kind ≡ message_new) ⊎ (event.kind ≡ call_invite)
      → IsNumbered
          (if eq_bytes event.request.method (codes "REGISTER")
            then event.request.to
            else event.request.from)
          (data_of cx (some event)).number
  unfolding data_of
  data_of-number event k = rw (credentials-number _ (by_kind cx event.kind event no_data)) (
      rw (kind-number event.kind event k)
        (rw (requested-number event.request) (number_of-IsNumbered _)))
