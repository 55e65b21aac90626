-- ===== src/Manager/Deliver.antt =====
-- Manager::sendMessage of Server/manager.cpp: a message that the database posts for an endpoint goes to
-- the registration of the endpoint, by the context that it is reached through.
use tycho_sipwitchqt.Prelude.{
  ℕ, suc, String, ◌==◌, Bool, true, false, not, ◌&&◌, ◌||◌, Option, none, some, ◌≡◌, inl, inr, refl,
  arith, if◌then◌else◌, Option-cases, Bool-cases, either,
}
use tycho_sipwitchqt.Prelude.Int.{ℤ, pos, eqb_ℤ}
use tycho_sipwitchqt.UString.{Bytes}
use tycho_sipwitchqt.Contact.{Contact}
use tycho_sipwitchqt.Authorize.{position}
use tycho_sipwitchqt.Registry.{
  Registry, Store, Found, find_endpoint, has_expired, check_found, unless_expired, deref,
}
use tycho_sipwitchqt.Hash.{lookup, nat_eq}
use tycho_sipwitchqt.Registry.Index.{LivesAt}
use tycho_sipwitchqt.Registry.Invariant.{Inv}
use tycho_sipwitchqt.Registry.Lifecycle.{IsFound, find_endpoint-Inv}
use tycho_sipwitchqt.Database.Outbox.{Posting}
use Prim.Native.String

-- What Context::message is given; its route is the prefix of the context and the registration's
-- address.
pub record Outgoing : Type 0 where
  pub context : ℕ
  pub from : String
  pub to : String
  pub route : Contact
  pub subject : String
  pub mid : ℕ
  pub ep : ℕ
  pub ts : ℕ
  pub ms : ℤ
  pub type : String
  pub body : Bytes

-- `prefix` is a context's scheme, `to_int` is UString::toInt and `show` UString::number.
pub record Texts : Type 0 where
  pub prefix : ℕ → String
  pub to_int : String → ℤ
  pub show : ℤ → String

-- indexOf('@') < 1
abbrev pub no_at : Option ℕ → Bool
no_at (some (suc n)) = false
no_at _ = true

module _ (texts : Texts) where
  abbrev at : String → String → String
  at name host = String.◌++◌ name (String.◌++◌ "@" host)

  -- A sender or a receiver: the registered extension itself, another one, or a full uri.
  unfoldable pub party : ℕ → Registry → String → String
  party context r id =
      if eqb_ℤ (texts.to_int id) (pos r.number) || id == r.user
      then String.◌++◌ (texts.prefix context) (at (texts.show (pos r.number)) r.origin)
      else if no_at (position b'@' id)
      then String.◌++◌ (texts.prefix context) (at id r.origin)
      else id

  abbrev pub is_admin : Registry → Posting → Bool
  is_admin r data_ = r.label == "NONE" && data_.c == "text/admin"

  abbrev pub type_for : Registry → Posting → String
  type_for r data_ = if is_admin r data_ then "text/plain" else data_.c

  -- The part after the registration was found: a device without a label is only sent plain text.
  unfoldable pub outgoing : ℕ → Registry → Posting → Option Outgoing
  outgoing context r data_ =
      if r.label == "NONE" && not (type_for r data_ == "text/plain")
      then none
      else some (record {
        context = context;
        from =
            String.◌++◌ "\"" (
              String.◌++◌ data_.d (String.◌++◌ "\" <" (String.◌++◌ (party context r data_.f) ">")));
        to = String.◌++◌ "<" (String.◌++◌ (party context r (texts.show data_.t)) ">");
        route = r.address;
        subject = if is_admin r data_ then "X-Admin" else data_.s;
        mid = data_.r;
        ep = r.endpoint;
        ts = data_.p;
        ms = data_.u;
        type = type_for r data_;
        body = data_.b;
      })

  -- `none` is a use of a deleted registration, or of a context that is not there.
  unfoldable pub send_found : Posting → Found → Option (Store × Option Outgoing)
  send_found data_ (s, none) = some (s, none)
  send_found data_ (s, some (p, r)) =
      if not r.active
      then some (s, none)
      else elim r.context [ none ↦ none | some context ↦ some (s, outgoing context r data_) ]

  unfoldable pub send_message : ℕ → ℕ → Posting → Store → Option (Store × Option Outgoing)
  send_message now endpoint data_ s = elim (find_endpoint now endpoint s) [
    | none ↦ none
    | some f ↦ send_found data_ f
  ]

-- A find that finds an object leaves the store as it is.
find_endpoint-same :
    (now key p : ℕ) (r : Registry) (s t : Store)
    → find_endpoint now key s ≡ some (t, some (p, r))
    → t ≡ s
unfolding find_endpoint check_found unless_expired
find_endpoint-same now key p r s t e = elim (Option-cases (lookup nat_eq key s.endpoints)) [
  | inl f ↦ ground (arith, e, f)
  | inr (q, f) ↦ elim (Option-cases (deref s q)) [
    | inl g ↦ ground (arith, e, f, g)
    | inr (v, g) ↦ ground (arith, e, f, g)
  ]
]

-- An active registration has the context that it was activated through.
abbrev pub IsConnected : Store → Type 0
IsConnected s =
    (p : ℕ) (r : Registry) → LivesAt s.heap p r → r.active ≡ true → (c : ℕ) × (r.context ≡ some c)

-- What is sent, if anything, is sent for an active registration of the endpoint that has not expired,
-- to its address and through its context, and as plain text where it has no label.
abbrev pub IsDelivered : ℕ → ℕ → Posting → Store → Option Outgoing → Type 0
IsDelivered now endpoint data_ s none = Unit
IsDelivered now endpoint data_ s (some m) =
    (p : ℕ) × ((r : Registry) × LivesAt s.heap p r
      × (has_expired now r ≡ false)
      × (r.endpoint ≡ endpoint)
      × (r.active ≡ true)
      × (r.context ≡ some m.context)
      × (m.route ≡ r.address)
      × (m.ep ≡ endpoint)
      × (m.body ≡ data_.b)
      × ((not (r.label == "NONE") || m.type == "text/plain") ≡ true))

module _ (texts : Texts) (now endpoint : ℕ) (data_ : Posting) where
  outgoing-IsDelivered :
      (s : Store) (p : ℕ) (r : Registry) (c : ℕ)
      → LivesAt s.heap p r
      → has_expired now r ≡ false
      → r.endpoint ≡ endpoint
      → r.active ≡ true
      → r.context ≡ some c
      → IsDelivered now endpoint data_ s (outgoing texts c r data_)
  unfolding outgoing
  outgoing-IsDelivered s p r c live new key active context =
      either (IsDelivered now endpoint data_ s)
        (r.label == "NONE" && not (type_for texts r data_ == "text/plain")) _ _ (λ _. tt)
        (λ f. (p, (r, live, new, key, active, context, refl, key, refl, ground (arith, f))))

  send_found-IsDelivered :
      (s : Store)
      → IsConnected s
      → (f : Found) → find_endpoint now endpoint s ≡ some f
      → Inv f.0
      → IsFound now (λ r. r.endpoint ≡ endpoint) f
      → (t : Store) × ((m : Option Outgoing) × (send_found texts data_ f ≡ some (t, m))
          × Inv t
          × IsDelivered now endpoint data_ t m)
  unfolding send_found
  send_found-IsDelivered s connected (t, none) e i found = (t, (none, refl, i, tt))
  send_found-IsDelivered s connected (t, some (p, r)) e i (live, new, key) =
      let same = find_endpoint-same now endpoint p r s t e in
      elim (Bool-cases r.active) [
        | inr f ↦ (t, (none, rw (f, send_found) refl, i, tt))
        | inl f ↦
            let (c, g) = connected p r (rw⁻¹ (same) live) f in
            (
              t,
              (
                outgoing texts c r data_,
                ground (arith, f, g),
                i,
                outgoing-IsDelivered t p r c live new key f g,
              ),
            )
      ]

  -- In a store that has the registry's invariant, and whose active registrations have a context: a
  -- message that the database posts for an endpoint uses no deleted registration and no missing context
  -- and keeps the invariant. At most one message is sent, and only to an active registration of that
  -- endpoint that has not expired, at its address and by its context; without a label it is plain text.
  pub send_message-IsDelivered :
      (s : Store)
      → Inv s
      → IsConnected s
      → (t : Store) × ((m : Option Outgoing) × (send_message texts now endpoint data_ s
            ≡ some (t, m))
          × Inv t
          × IsDelivered now endpoint data_ t m)
  unfolding send_message
  send_message-IsDelivered s inv connected =
      let (f, e, i, found) = find_endpoint-Inv now s inv endpoint in
      rw (e, send_message) (send_found-IsDelivered s connected f e i found)
