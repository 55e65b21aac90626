-- ===== src/Connect/Listener/Xdp.antt =====
-- Listener::parseXdp of Connect/listener.cpp: the body of the answer to a registration, line by line.
pub mod Served
use tycho_sipwitchqt.Prelude.{
  ℕ, Bool, true, false, not, Option, none, some, List, [], ◌∷◌, ◌++◌, eqb, if◌then◌else◌, take,
  drop,
}
use tycho_sipwitchqt.UString.{Bytes, codes, eq_bytes}
use tycho_sipwitchqt.Connect.{Foreign, Creds}
use tycho_sipwitchqt.Connect.Listener.{
  Listener, Action, emit, change_banner, update_roster, contact_address,
}

-- QByteArray::split of one character: the pieces between its occurrences, empty ones included.
cons_piece : ℕ → List Bytes → List Bytes
cons_piece c [] = (c ∷ []) ∷ []
cons_piece c (piece ∷ pieces) = (c ∷ piece) ∷ pieces

unfoldable pub split : ℕ → Bytes → List Bytes
unfolding cons_piece
split q [] = [] ∷ []
split q (c ∷ cs) = let rest = split q cs in if eqb c q then [] ∷ rest else cons_piece c rest

-- The listener, what it has emitted, and the entry "a" of the result.
pub record Read : Type 0 where
  pub state : Listener
  pub sent : List Action
  pub online : Option Bytes

abbrev is_key : Bytes → Bytes → Bool
is_key line key = eq_bytes (take 2 line) key

module _ (f : Foreign) where
  unfoldable pub banner_line : Bytes → Read → Read
  banner_line banner r =
      if not (eq_bytes banner r.state.prior_banner)
      then record r {
        state = record r.state { prior_banner = banner };
        sent = r.sent ++ emit (change_banner banner) ∷ [];
      }
      else r

  display_line : Bytes → Read → Read
  display_line display r =
      let l = r.state in
      record r {
        state = record l {
          sip_from = b'"' ∷ (display ++ (codes "\" <" ++ (l.uri_from ++ b'>' ∷ [])));
          server_creds = record l.server_creds { display = display };
        };
      }

  roster_line : Bytes → Read → Read
  roster_line value r =
      let sequence = f.to_uint value in
      record r {
        state = record r.state { roster_sequence = sequence };
        sent =
            r.sent
            ++ (if not (eqb sequence r.state.roster_sequence) then emit update_roster ∷ [] else []);
      }

  contact_line : Bytes → Read → Read
  contact_line contact r = record r {
    state = record r.state { server_contact = contact };
    sent =
        r.sent
        ++ (if not (eq_bytes contact r.state.server_contact)
            then emit (contact_address contact) ∷ []
            else []);
  }

  unfoldable pub online_line : Bytes → Read → Read
  online_line value r =
      let online = f.decode value in
      if not (eq_bytes online r.state.prior_online)
      then record r { state = record r.state { prior_online = online }; online = some online }
      else r

  with_privs : Bytes → Listener → Listener
  with_privs privs l = record l { server_creds = record l.server_creds { privs = privs } }

  unfoldable pub read_line : Bytes → Read → Read
  unfolding display_line with_privs roster_line contact_line
  read_line line r =
      let value = drop 2 line in
      if is_key line (codes "b=")
      then banner_line value r
      else if is_key line (codes "d=")
      then display_line value r
      else if is_key line (codes "p=")
      then record r { state = with_privs value r.state }
      else if is_key line (codes "f=")
      then record r { state = record r.state { server_first = f.to_int value } }
      else if is_key line (codes "r=")
      then roster_line value r
      else if is_key line (codes "c=")
      then contact_line value r
      else if is_key line (codes "l=")
      then record r { state = record r.state { server_last = f.to_int value } }
      else if is_key line (codes "a=")
      then online_line value r
      else r

  unfoldable pub read_lines : List Bytes → Read → Read
  read_lines [] r = r
  read_lines (line ∷ lines) r = read_lines lines (read_line line r)

  unfoldable pub parse_xdp : Bytes → Listener → Read
  unfolding with_privs
  parse_xdp xdp l =
      read_lines (split b'\n' xdp)
        (record { state = with_privs (codes "none") l; sent = []; online = none })
