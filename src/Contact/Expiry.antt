-- ===== src/Contact/Expiry.antt =====
-- Expiration and comparison of contacts.
use tycho_sipwitchqt.Prelude.{
  ℕ, ◌+◌, ◌<◌, ◌≡◌, ◌≢◌, ◌↔◌, refl, true, false, not, [], arith, leb, eqb, if◌then◌else◌,
}
use tycho_sipwitchqt.Prelude.Int.{ℤ, pos, negsuc}
use tycho_sipwitchqt.UString.{eq_bytes_iff}
use tycho_sipwitchqt.Contact.{
  Contact, is_valid, is_not, equals, differs, refresh_from, refresh, has_expired,
}

-- For a clock that does not read 0: a negative duration never expires. Any other refresh is due at
-- the sum of the seconds and the old expiration, or the present time where there was none.
pub has_expired-refresh :
    (now at : ℕ) (c : Contact) (seconds : ℤ)
    → 0 < now
    → has_expired at (refresh now c seconds) ≡ (elim seconds [
      | negsuc n ↦ false
      | pos s ↦ leb ((if eqb c.expiration 0 then now else c.expiration) + s) at
    ])
unfolding has_expired refresh
has_expired-refresh now at c (negsuc n) h = refl
has_expired-refresh now at c (pos s) h = ground arith

-- `==` and `!=` are opposites, and `==` looks at host, port and user alone, not at the expiration.
pub equals_lem :
    (a b : Contact)
    → (differs a b ≡ not (equals a b))
      × ((equals a b ≡ true) ↔ ((a.host ≡ b.host) × (a.port ≡ b.port) × (a.user ≡ b.user)))
unfolding equals differs
equals_lem a b =
    (ground arith, ground (arith, eq_bytes_iff a.host b.host, eq_bytes_iff a.user b.user))

-- `operator!` is the opposite of `operator bool` for exactly the contacts that have a host.
pub is_not-is_valid : (c : Contact) → (is_not c ≡ not (is_valid c)) ↔ (c.host ≢ [])
unfolding is_not is_valid
is_not-is_valid c = (λ e h. ground arith, λ h. ground arith)

-- Refreshing from a contact of the same endpoint changes nothing, whatever its expiration.
pub refresh_from-equals : (c from : Contact) → equals from c ≡ true → refresh_from c from ≡ c
unfolding refresh_from equals
refresh_from-equals c from h = ground arith
