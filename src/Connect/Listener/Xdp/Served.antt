-- ===== src/Connect/Listener/Xdp/Served.antt =====
-- The text that the manager's Manager::refreshRegistration writes (Server/manager.cpp), read by the
-- client's Listener::parseXdp (Connect/listener.cpp).
use tycho_sipwitchqt.Prelude.{
  ℕ, Bool, false, not, none, some, List, [], ◌∷◌, ◌++◌, eqb, ◌≡◌, refl, ap, arith, ◌∙◌,
  if◌then◌else◌, inl, inr, Bool-cases,
}
use mathlib.Core.List.{append-nil}
use tycho_sipwitchqt.Prelude.Int.{pos}
use tycho_sipwitchqt.UString.{Bytes, codes, eq_bytes, eq_bytes_iff, contains}
use tycho_sipwitchqt.Contact.{to_string}
use tycho_sipwitchqt.Manager.{Xdp}
use tycho_sipwitchqt.Manager.Body.{line, xdp_text}
use tycho_sipwitchqt.Connect.{Foreign}
use tycho_sipwitchqt.Connect.Listener.{
  Listener, Action, emit, change_banner, update_roster, contact_address,
}
use tycho_sipwitchqt.Connect.Listener.Xdp.{
  Read, split, banner_line, online_line, read_line, read_lines, parse_xdp,
}

-- A line that has no line end is the first piece of the text.
split-append :
    (q : ℕ) (piece rest : Bytes)
    → contains q piece ≡ false
    → split q (piece ++ q ∷ rest) ≡ piece ∷ split q rest
unfolding split contains
split-append q [] rest h = ground arith
split-append q (c ∷ cs) rest h = ground (arith, split-append q cs rest)

split-line :
    (key : ℕ) (value rest : Bytes) {pieces : List Bytes}
    → eqb key b'\n' ≡ false
    → contains b'\n' value ≡ false
    → split b'\n' rest ≡ pieces
    → split b'\n' (line key value rest) ≡ (key ∷ b'=' ∷ value) ∷ pieces
unfolding line contains
split-line key value rest k h e =
    split-append b'\n' (key ∷ b'=' ∷ value) rest (ground (arith, k, h))
    ∙ ap (◌∷◌ (key ∷ b'=' ∷ value)) e

module _ (f : Foreign) (encode : Bytes → Bytes) (banner : Bytes) (x : Xdp) where
  -- What is relied on: numbers and base64 are read back, and no value has a line end.
  pub record IsOnLine : Type 0 where
    pub number_int : (n : ℕ) → f.to_int (f.number n) ≡ pos n
    pub number_uint : (n : ℕ) → f.to_uint (f.number n) ≡ n
    pub decode-encode : f.decode (encode x.online) ≡ x.online
    pub number_line : (n : ℕ) → contains b'\n' (f.number n) ≡ false
    pub encode_line : contains b'\n' (encode x.online) ≡ false
    pub banner_line : contains b'\n' banner ≡ false
    pub privs_line : contains b'\n' (codes x.privs) ≡ false
    pub display_line : contains b'\n' (codes x.display) ≡ false
    pub route_line : contains b'\n' (to_string f.number x.route) ≡ false

  abbrev lines : List Bytes
  lines =
      codes "v=0"
      ∷ (b'b' ∷ b'=' ∷ banner)
      ∷ (b'p' ∷ b'=' ∷ codes x.privs)
      ∷ (b'd' ∷ b'=' ∷ codes x.display)
      ∷ (b'f' ∷ b'=' ∷ f.number x.first)
      ∷ (b'l' ∷ b'=' ∷ f.number x.last)
      ∷ (b'r' ∷ b'=' ∷ f.number x.roster)
      ∷ (b's' ∷ b'=' ∷ f.number x.sequence)
      ∷ (b'c' ∷ b'=' ∷ to_string f.number x.route)
      ∷ (b'a' ∷ b'=' ∷ encode x.online)
      ∷ []
      ∷ []

  split-xdp_text : IsOnLine → split b'\n' (xdp_text f.number encode banner x) ≡ lines
  unfolding xdp_text contains split
  split-xdp_text h = split-line b'v' (codes "0") _ refl refl (
      split-line b'b' banner _ refl h.banner_line (
        split-line b'p' (codes x.privs) _ refl h.privs_line (
          split-line b'd' (codes x.display) _ refl h.display_line (
            split-line b'f' (f.number x.first) _ refl (h.number_line x.first) (
              split-line b'l' (f.number x.last) _ refl (h.number_line x.last) (
                split-line b'r' (f.number x.roster) _ refl (h.number_line x.roster) (
                  split-line b's' (f.number x.sequence) _ refl (h.number_line x.sequence) (
                    split-line b'c' (to_string f.number x.route) _ refl h.route_line
                      (split-line b'a' (encode x.online) [] refl h.encode_line refl)))))))))

  -- The listener that has taken over what the text says.
  abbrev pub told : Listener → Listener
  told l = record l {
    prior_banner = banner;
    server_creds = record l.server_creds { privs = codes x.privs; display = codes x.display };
    sip_from = b'"' ∷ (codes x.display ++ (codes "\" <" ++ (l.uri_from ++ b'>' ∷ [])));
    server_first = pos x.first;
    server_last = pos x.last;
    roster_sequence = x.roster;
    server_contact = to_string f.number x.route;
    prior_online = x.online;
  }

  -- What is signalled for an entry that is not the one before.
  abbrev pub changed : Bool → Action → List Action
  changed same action = if not same then action ∷ [] else []

  abbrev with_banner : Read → Read
  with_banner r = record r {
    state = record r.state { prior_banner = banner };
    sent = r.sent ++ changed (eq_bytes banner r.state.prior_banner) (emit (change_banner banner));
  }

  banner_line-with_banner : (r : Read) → banner_line f banner r ≡ with_banner r
  unfolding banner_line
  banner_line-with_banner r = elim (Bool-cases (eq_bytes banner r.state.prior_banner)) [
    | inl same ↦ ground (arith, same, eq_bytes_iff banner r.state.prior_banner, append-nil r.sent)
    | inr new ↦ ground (arith, new)
  ]

  online_line-online :
      (r : Read)
      → IsOnLine
      → online_line f (encode x.online) r ≡ record r {
        state = record r.state { prior_online = x.online };
        online = if not (eq_bytes x.online r.state.prior_online) then some x.online else r.online;
      }
  unfolding online_line
  online_line-online r h = elim (Bool-cases (eq_bytes x.online r.state.prior_online)) [
    | inl same ↦ ground (arith, h.decode-encode, same, eq_bytes_iff x.online r.state.prior_online)
    | inr new ↦ ground (arith, h.decode-encode, new)
  ]

  read_lines-lines :
      (l : Listener)
      → IsOnLine
      → read_lines f lines (record {
        state = record l { server_creds = record l.server_creds { privs = codes "none" } };
        sent = [];
        online = none;
      })
        ≡ record {
          state = told l;
          sent =
              (changed (eq_bytes banner l.prior_banner) (emit (change_banner banner))
                ++ changed (eqb x.roster l.roster_sequence) (emit update_roster))
              ++ changed
                  (eq_bytes (to_string f.number x.route) l.server_contact)
                  (emit (contact_address (to_string f.number x.route)));
          online = if not (eq_bytes x.online l.prior_online) then some x.online else none;
        }
  unfolding read_lines read_line
  read_lines-lines l h = rw (banner_line-with_banner _) (
      rw (online_line-online _ h)
        (rw (h.number_int x.first) (rw (h.number_int x.last) (rw (h.number_uint x.roster) refl))))

  -- The text that the manager sends with a banner and the data of a registration, read by the client:
  -- it takes over the privileges and display, the range of numbers, the roster's sequence, the address and
  -- the presence bits, and skips the version and the database's sequence. It signals the banner, the
  -- roster and the address that are not those that it had, in that order, and the result has the presence
  -- bits where they are new.
  pub parse_xdp-told :
      (l : Listener)
      → IsOnLine
      → parse_xdp f (xdp_text f.number encode banner x) l ≡ record {
        state = told l;
        sent =
            (changed (eq_bytes banner l.prior_banner) (emit (change_banner banner))
              ++ changed (eqb x.roster l.roster_sequence) (emit update_roster))
            ++ changed
                (eq_bytes (to_string f.number x.route) l.server_contact)
                (emit (contact_address (to_string f.number x.route)));
        online = if not (eq_bytes x.online l.prior_online) then some x.online else none;
      }
  unfolding parse_xdp
  parse_xdp-told l h = rw (split-xdp_text h) (read_lines-lines l h)
