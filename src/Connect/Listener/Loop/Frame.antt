-- ===== src/Connect/Listener/Loop/Frame.antt =====
-- What the steps of Listener::run of Connect/listener.cpp leave alone, and how often they send what.
use tycho_sipwitchqt.Prelude.{
  ℕ, ◌+◌, Bool, true, false, Option, none, some, List, [], ◌∷◌, ◌++◌, ◌≡◌, ◌∙◌, drop, take, either,
  refl, arith, if◌then◌else◌,
}
use tycho_sipwitchqt.Prelude.Int.{ℤ}
use tycho_sipwitchqt.UString.{Bytes, eq_bytes, c_str, codes}
use tycho_sipwitchqt.Connect.{Foreign, Creds}
use tycho_sipwitchqt.Connect.Listener.{
  Listener, Action, emit, add_info, answer, change_banner, authorize, change_status, update_roster,
  contact_address, failure, finished,
}
use tycho_sipwitchqt.Connect.Listener.Xdp.{
  Read, split, read_line, read_lines, parse_xdp, banner_line, online_line,
}
use tycho_sipwitchqt.Connect.Listener.Loop.{read_body}

abbrev pub count : (Action → Bool) → List Action → ℕ
count p [] = 0
count p (a ∷ as') = (if p a then 1 else 0) + count p as'

pub count-append :
    (p : Action → Bool) (xs ys : List Action) → count p (xs ++ ys) ≡ count p xs + count p ys
count-append p [] ys = omega arith
count-append p (x ∷ xs) ys = omega (arith, count-append p xs ys)

abbrev pub is_info : Action → Bool
is_info (add_info _) = true
is_info _ = false

abbrev pub is_finished : Action → Bool
is_finished (emit finished) = true
is_finished _ = false

abbrev pub is_failure : Action → Bool
is_failure (emit (failure _)) = true
is_failure _ = false

abbrev pub is_answer : Action → Bool
is_answer (answer _) = true
is_answer _ = false

-- The flags of the thread and the registration's id.
pub record Kept (l l' : Listener) : Type 0 where
  pub active : l'.active ≡ l.active
  pub connected : l'.connected ≡ l.connected
  pub registered : l'.registered ≡ l.registered
  pub authenticated : l'.authenticated ≡ l.authenticated
  pub exiting : l'.exiting_flag ≡ l.exiting_flag
  pub rid : l'.rid ≡ l.rid

-- None of what the body of an answer makes the listener signal.
pub record IsQuiet (p : Action → Bool) : Type 0 where
  pub banner : (b : Bytes) → p (emit (change_banner b)) ≡ false
  pub contact : (b : Bytes) → p (emit (contact_address b)) ≡ false
  pub roster : p (emit update_roster) ≡ false
  pub authorized : (c : Creds) → p (emit (authorize c)) ≡ false
  pub status : (b : Bytes) (first last : ℤ) → p (emit (change_status b first last)) ≡ false

module _ (f : Foreign) where
  banner_line-Kept : (value : Bytes) (r : Read) → Kept r.state (banner_line f value r).state
  unfolding banner_line
  banner_line-Kept value r = ground arith

  online_line-Kept : (value : Bytes) (r : Read) → Kept r.state (online_line f value r).state
  unfolding online_line
  online_line-Kept value r = ground arith

  read_line-Kept : (line : Bytes) (r : Read) → Kept r.state (read_line f line r).state
  unfolding read_line
  read_line-Kept line r =
      let P : Read → Type 0 = λ r'. Kept r.state r'.state in
      let key = take 2 line in
      either P (eq_bytes key (codes "b=")) _ _ (λ _. banner_line-Kept (drop 2 line) r)
        λ _.
          either P (eq_bytes key (codes "d=")) _ _ (λ _. ground arith)
            λ _.
              either P (eq_bytes key (codes "p=")) _ _ (λ _. ground arith)
                λ _.
                  either P (eq_bytes key (codes "f=")) _ _ (λ _. ground arith)
                    λ _.
                      either P (eq_bytes key (codes "r=")) _ _ (λ _. ground arith)
                        λ _.
                          either P (eq_bytes key (codes "c=")) _ _ (λ _. ground arith)
                            λ _.
                              either P (eq_bytes key (codes "l=")) _ _ (λ _. ground arith)
                                λ _.
                                  either P (eq_bytes key (codes "a=")) _ _
                                    (λ _. online_line-Kept (drop 2 line) r) λ _. ground arith

  read_line-count :
      (p : Action → Bool) (line : Bytes) (r : Read)
      → IsQuiet p
      → count p (read_line f line r).sent ≡ count p r.sent
  unfolding read_line banner_line online_line
  read_line-count p line r q = ground (
    arith,
    q.banner (drop 2 line),
    q.contact (drop 2 line),
    q.roster,
    count-append p r.sent (emit (change_banner (drop 2 line)) ∷ []),
    count-append p r.sent (emit (contact_address (drop 2 line)) ∷ []),
    count-append p r.sent (emit update_roster ∷ []),
    count-append p r.sent [],
  )

  read_lines-Kept : (lines : List Bytes) (r : Read) → Kept r.state (read_lines f lines r).state
  unfolding read_lines
  read_lines-Kept [] r = ground arith
  read_lines-Kept (line ∷ lines) r =
      ground (arith, read_line-Kept line r, read_lines-Kept lines (read_line f line r))

  read_lines-count :
      (p : Action → Bool) (lines : List Bytes) (r : Read)
      → IsQuiet p
      → count p (read_lines f lines r).sent ≡ count p r.sent
  unfolding read_lines
  read_lines-count p [] r q = refl
  read_lines-count p (line ∷ lines) r q =
      read_lines-count p lines (read_line f line r) q ∙ read_line-count p line r q

  pub read_body-Kept : (body : Option Bytes) (l : Listener) → Kept l (read_body f body l).state
  unfolding read_body parse_xdp
  read_body-Kept none l = ground arith
  read_body-Kept (some body) l =
      let none_yet : Listener = record l {
        server_creds = record l.server_creds { privs = codes "none" };
      } in
      ground (
        arith,
        read_lines-Kept (split b'\n' (c_str body))
            (record { state = none_yet; sent = []; online = none }),
      )

  pub read_body-count :
      (p : Action → Bool) (body : Option Bytes) (l : Listener)
      → IsQuiet p
      → count p (read_body f body l).sent ≡ 0
  unfolding read_body parse_xdp
  read_body-count p none l q = refl
  read_body-count p (some body) l q = read_lines-count p (split b'\n' (c_str body)) _ q
