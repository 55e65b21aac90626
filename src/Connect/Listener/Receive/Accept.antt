-- ===== src/Connect/Listener/Receive/Accept.antt =====
-- Which messages Listener::receiveMessage of Connect/listener.cpp takes, and what it answers.
use tycho_sipwitchqt.Prelude.{
  ℕ, ◌≤◌, Bool, true, false, Option, none, some, [], ◌∷◌, ◌++◌, ◌≡◌, ◌≢◌, ◌⊎◌, inl, inr, ◌↔◌, refl,
  sym, ap, arith, length, Option-cases,
}
use mathlib.Core.Path.{subst}
use tycho_sipwitchqt.UString.{Bytes, codes, eq_bytes_iff}
use tycho_sipwitchqt.Connect.{Foreign, Creds, sip_ok, sip_undecipherable, sip_address_incomplete}
use tycho_sipwitchqt.Connect.Listener.{Listener, listener, Text, receive_text, emit, answer}
use tycho_sipwitchqt.Connect.Listener.Receive.{
  Address, ContentType, Incoming, Checked, go, error, ◌>>=◌, need, readable, named, is_local, party,
  headed, judge, receive, receive_message,
}

-- A content type is written as the text `name`.
abbrev TypeIs : ContentType → Bytes → Type 0
TypeIs c name =
    (text : Bytes) × (c.type ≡ some text)
    × (((c.subtype ≡ none) × (name ≡ text))
        ⊎ ((sub : Bytes) × (c.subtype ≡ some sub) × (name ≡ text ++ (b'/' ∷ sub))))

-- Inversion of a check that did not end in an error.
>>=-eq-go {ℓ κ ι} :
    {A : Type ℓ} {B : Type κ} {P : Type ι} (m : Checked A) (k : A → Checked B) {b : B}
    → (m >>= k) ≡ go b
    → ((a : A) → m ≡ go a → k a ≡ go b → P)
    → P
>>=-eq-go (go a) k h use_it = use_it a refl h
>>=-eq-go (error status) k h use_it = cc

abbrev IsReadable : Incoming → Bytes → Bytes → Type 0
IsReadable msg body type =
    (msg.body ≡ some body) × ((c : ContentType) × (msg.type ≡ some c) × TypeIs c type)

-- `need` of a value that is there.
need-go {ℓ} : {A : Type ℓ} {a : A} (o : Option A) (status : ℕ) → need o status ≡ go a → o ≡ some a
need-go none status e = cc
need-go (some a) status e = cc

TypeIs-go :
    (c : ContentType) (body text : Bytes) {content : Bytes × Bytes}
    → c.type ≡ some text
    → ◌≡◌ {A = Checked (Bytes × Bytes)}
        (go (body, elim c.subtype [ none ↦ text | some sub ↦ text ++ (b'/' ∷ sub) ]))
        (go content)
    → (content.0 ≡ body) × TypeIs c content.1
TypeIs-go c body text et e = elim (Option-cases c.subtype) [
  | inl n ↦ (ground (arith, n, e), (text, et, inl (n, ground (arith, n, e))))
  | inr (sub, es) ↦ (ground (arith, es, e), (text, et, inr (sub, es, ground (arith, es, e))))
]

readable-go :
    (msg : Incoming) (content : Bytes × Bytes)
    → readable msg ≡ go content
    → IsReadable msg content.0 content.1
unfolding readable
readable-go msg content e = >>=-eq-go (need msg.body sip_undecipherable) _ e λ b eb e1.
    >>=-eq-go (need msg.type sip_undecipherable) _ e1 λ c ec e2.
      >>=-eq-go (need c.type sip_undecipherable) _ e2 λ text et e3.
        let (same, is) = TypeIs-go c b text (need-go _ _ et) e3 in
        (rw same (need-go _ _ eb), (c, need-go _ _ ec, is))

IsReadable-readable :
    (msg : Incoming) (body type : Bytes) → IsReadable msg body type → readable msg ≡ go (body, type)
unfolding readable
IsReadable-readable msg body type (eb, (c, ec, (text, et, inl (n, e)))) = rw (eb, ec, et, n, e)
IsReadable-readable msg body type (eb, (c, ec, (text, et, inr (sub, es, e)))) =
    rw (eb, ec, et, es, e)

named-go :
    (address : Option Address) (party' : Address × Bytes)
    → named address ≡ go party'
    → (address ≡ some party'.0) × (party'.0.username ≡ some party'.1)
unfolding named
named-go address p e = >>=-eq-go (need address sip_address_incomplete) _ e λ b eb e1.
    >>=-eq-go (need b.username sip_address_incomplete) _ e1 λ u eu e2. (
      ground (arith, need-go address sip_address_incomplete eb, e2),
      ground (arith, need-go b.username sip_address_incomplete eu, e2),
    )

module _ (f : Foreign) where
  -- What a user of an address is called by: for the own server the own extension for each name of the
  -- own account and any other user's name, for other servers the whole uri.
  abbrev Called : Listener → Address → Bytes → Bytes → Type 0
  Called l a id name =
      ((is_local f l a ≡ true)
        × (((name ≡ l.server_id) × ((id ≡ l.server_id) ⊎ (id ≡ l.server_user)))
            ⊎ ((name ≡ id) × (id ≢ l.server_id) × (id ≢ l.server_user))))
      ⊎ ((is_local f l a ≡ false) × (a.text ≡ some name))

  abbrev Names : Listener → Option Address → Bytes → Type 0
  Names l address name =
      (a : Address) × (id : Bytes) × (address ≡ some a)
      × (a.username ≡ some id)
      × Called l a id name

  -- The message can be read as the text, and may be passed on.
  pub record IsTaken (l : Listener) (msg : Incoming) (t : Text) : Type 0 where
    pub body : msg.body ≡ some t.text
    pub type : (c : ContentType) × (msg.type ≡ some c) × TypeIs c t.type
    pub to : Names l msg.to t.to
    pub from : Names l msg.from t.from
    pub apart : t.to ≢ t.from
    pub plain : (t.type ≡ codes "text/plain") ⊎ (t.type ≡ codes "text/admin")
    pub short : length t.text ≤ 160
    pub headers : t ≡ headed f msg t.from t.to t.type t.text

  party-Called :
      (l : Listener) (a : Address) (id name : Bytes)
      → party f l (a, id) ≡ go name
      → Called l a id name
  unfolding party
  party-Called l a id name e =
      ground (arith, eq_bytes_iff id l.server_id, eq_bytes_iff id l.server_user)

  Called-party :
      (l : Listener) (a : Address) (id name : Bytes)
      → Called l a id name
      → party f l (a, id) ≡ go name
  unfolding party
  Called-party l a id name c =
      ground (arith, eq_bytes_iff id l.server_id, eq_bytes_iff id l.server_user)

  judge-go :
      (msg : Incoming) (body type sip_to sip_from : Bytes) (t : Text)
      → judge f msg (body, type) sip_to sip_from ≡ go t
      → (t ≡ headed f msg sip_from sip_to type body)
        × (sip_to ≢ sip_from)
        × ((type ≡ codes "text/plain") ⊎ (type ≡ codes "text/admin"))
        × (length body ≤ 160)
  unfolding judge
  judge-go msg body type sip_to sip_from t e = ground (
    arith,
    eq_bytes_iff sip_to sip_from,
    eq_bytes_iff type (codes "text/plain"),
    eq_bytes_iff type (codes "text/admin"),
  )

  receive-IsTaken :
      (l : Listener) (msg : Incoming) (t : Text) → receive f l msg ≡ go t → IsTaken l msg t
  unfolding receive headed
  receive-IsTaken l msg t e0 = >>=-eq-go (readable msg) _ e0 λ content e1 e2.
      >>=-eq-go (named msg.to) _ e2 λ to e3 e4. >>=-eq-go (named msg.from) _ e4 λ from e5 e6.
        >>=-eq-go (party f l to) _ e6 λ sip_to e7 e8.
          >>=-eq-go (party f l from) _ e8 λ sip_from e9 e10.
            let (same, apart, plain, short) =
              judge-go msg content.0 content.1 sip_to sip_from t e10 in
            let (eb, type) = readable-go msg content e1 in
            let (at, ut) = named-go _ to e3 in
            let (af, uf) = named-go _ from e5 in
            subst (IsTaken l msg) (sym same) (record {
              body = eb;
              type = type;
              to = (to.0, to.1, at, ut, party-Called l to.0 to.1 sip_to e7);
              from = (from.0, from.1, af, uf, party-Called l from.0 from.1 sip_from e9);
              apart = apart;
              plain = plain;
              short = short;
              headers = refl;
            })

  judge-taken :
      (msg : Incoming) (body type sip_to sip_from : Bytes)
      → sip_to ≢ sip_from
      → (type ≡ codes "text/plain") ⊎ (type ≡ codes "text/admin")
      → length body ≤ 160
      → judge f msg (body, type) sip_to sip_from ≡ go (headed f msg sip_from sip_to type body)
  unfolding judge
  judge-taken msg body type sip_to sip_from apart plain short = ground (
    arith,
    eq_bytes_iff sip_to sip_from,
    eq_bytes_iff type (codes "text/plain"),
    eq_bytes_iff type (codes "text/admin"),
  )

  named-Names : (a : Address) (id : Bytes) → a.username ≡ some id → named (some a) ≡ go (a, id)
  unfolding named
  named-Names a id e = ground (arith, e)

  IsTaken-receive :
      (l : Listener) (msg : Incoming) (t : Text) → IsTaken l msg t → receive f l msg ≡ go t
  unfolding receive
  IsTaken-receive l msg t h =
      let (to, to_id, et, eu, ct) = h.to in
      let (from, from_id, ef, ev, cf) = h.from in
      let to_named : named msg.to ≡ go (to, to_id) = rw et (named-Names to to_id eu) in
      let from_named : named msg.from ≡ go (from, from_id) = rw ef (named-Names from from_id ev) in
      rw (IsReadable-readable msg t.text t.type (h.body, h.type)) (
        rw to_named (
          rw from_named (
            rw (Called-party l to to_id t.to ct) (
              rw (Called-party l from from_id t.from cf) (
                rw (judge-taken msg t.text t.type t.to t.from h.apart h.plain h.short)
                  (sym (ap go h.headers)))))))

  taken-receive :
      (l : Listener) (msg : Incoming) (t : Text)
      → receive_message f l msg ≡ emit (receive_text t) ∷ answer sip_ok ∷ []
      → receive f l msg ≡ go t
  unfolding receive_message
  taken-receive l msg t e = ground (arith, e)

  -- A message is passed on as a text exactly when it can be read as that text, comes from another
  -- party than it goes to, is plain text or an administrator's, and has at most 160 bytes; it is then
  -- answered with 200, after it was passed on.
  pub receive_message-IsTaken :
      (l : Listener) (msg : Incoming) (t : Text)
      → (receive_message f l msg ≡ emit (receive_text t) ∷ answer sip_ok ∷ []) ↔ IsTaken l msg t
  unfolding receive_message
  receive_message-IsTaken l msg t = (
    λ e. receive-IsTaken l msg t (taken-receive l msg t e),
    λ h. rw (IsTaken-receive l msg t h, receive_message) refl,
  )

  -- With a certificate and no port the client takes the port 5060, so that a uri of the server with no
  -- port, which stands for 5061, is never one of its own server.
  pub listener-is_local :
      (cred : Creds) (sequence : ℕ) (exiting : Bool) (a : Address)
      → cred.port ≡ 0
      → a.port ≡ none
      → is_local f (listener cred true sequence exiting) a ≡ false
  unfolding listener is_local
  listener-is_local cred sequence exiting a p q = ground (arith, p, q)
