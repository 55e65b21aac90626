-- ===== src/Manager/Body.antt =====
-- The text of the answer to a labelled registration, in Manager::refreshRegistration of
-- Server/manager.cpp. The banner is the manager's, `number` is UString::number and `encode` is
-- QByteArray::toBase64.
use tycho_sipwitchqt.Prelude.{ℕ, [], ◌∷◌, ◌++◌}
use tycho_sipwitchqt.UString.{Bytes, codes}
use tycho_sipwitchqt.Contact.{to_string}
use tycho_sipwitchqt.Manager.{Xdp}

-- A line `key=value` in front of what follows it.
unfoldable pub line : ℕ → Bytes → Bytes → Bytes
line key value rest = key ∷ b'=' ∷ (value ++ b'\n' ∷ rest)

unfoldable pub xdp_text : (ℕ → Bytes) → (Bytes → Bytes) → Bytes → Xdp → Bytes
xdp_text number encode banner x = line b'v' (codes "0") (
    line b'b' banner (
      line b'p' (codes x.privs) (
        line b'd' (codes x.display) (
          line b'f' (number x.first) (
            line b'l' (number x.last) (
              line b'r' (number x.roster) (
                line b's' (number x.sequence)
                  (line b'c' (to_string number x.route) (line b'a' (encode x.online) [])))))))))
