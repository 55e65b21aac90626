-- ===== src/Event/Sources.antt =====
-- What Server/event.cpp takes from a message: where it came from, whose number it has and by which
-- label.
use tycho_sipwitchqt.Prelude.{
  false, Option, none, some, List, [], ◌∷◌, ◌++◌, ◌≡◌, ◌∙◌, refl, ap, arith, either, All,
}
use mathlib.Core.Path.{subst}
use mathlib.Core.Option.{some-injective}
use tycho_sipwitchqt.Prelude.Int.{negsuc}
use tycho_sipwitchqt.UString.{Bytes}
use tycho_sipwitchqt.Contact.{empty, is_not, is_valid, contact_at}
use tycho_sipwitchqt.Event.{
  Via, OsipMessage, Kind, Received, Data, Authorization, has_host, Context, answered,
  registration_success, registration_failure, message_new, call_invite, other, no_data,
}
use tycho_sipwitchqt.Event.Message.{
  Scan, nat_of, via_port, scan_via, scan_vias, parse_message, label_of,
}
use tycho_sipwitchqt.Event.Build.{
  with_target, requested, responded, by_kind, with_credentials, data_of, credentials,
}

-- The message that an event is made of.
abbrev pub message_of : Kind → Received → Option OsipMessage
message_of answered event = some event.response
message_of registration_success event = some event.response
message_of registration_failure event = some event.response
message_of message_new event = some event.request
message_of call_invite event = some event.request
message_of other event = none

abbrev pub Hostless : Via → Type 0
Hostless via = via.host ≡ none

empty-is_valid : is_valid empty ≡ false
unfolding is_valid empty
empty-is_valid = refl

module _ (cx : Context) where
  scan_via-nat : (via : Via) (s : Scan) → s.nat ≡ empty → (scan_via cx via s).nat ≡ empty
  unfolding scan_via nat_of empty is_not
  scan_via-nat via s e = ground (arith, e)

  scan_vias-nat : (vias : List Via) (s : Scan) → s.nat ≡ empty → (scan_vias cx vias s).nat ≡ empty
  unfolding scan_vias
  scan_vias-nat [] s e = e
  scan_vias-nat (via ∷ vias) s e = scan_vias-nat vias (scan_via cx via s) (scan_via-nat via s e)

  scan_vias-Hostless :
      (vias : List Via) (s : Scan) → All Hostless vias → (scan_vias cx vias s).source ≡ s.source
  unfolding scan_vias scan_via
  scan_vias-Hostless [] s h = refl
  scan_vias-Hostless (via ∷ vias) s (n, h) = rw n (scan_vias-Hostless vias _ h)

  scan_via-source :
      (via : Via) (s : Scan) {host : Bytes}
      → via.host ≡ some host
      → (scan_via cx via s).source ≡ contact_at cx.now host (via_port cx via) [] (negsuc 0)
  unfolding scan_via
  scan_via-source via s e = ground (arith, e)

  scan_vias-source :
      (front back : List Via) (via : Via) (s : Scan) {host : Bytes}
      → via.host ≡ some host
      → All Hostless back
      → (scan_vias cx (front ++ via ∷ back) s).source
        ≡ contact_at cx.now host (via_port cx via) [] (negsuc 0)
  unfolding scan_vias scan_via
  scan_vias-source [] back via s e h =
      scan_vias-Hostless back (scan_via cx via s) h ∙ scan_via-source via s e
  scan_vias-source (v ∷ front) back via s e h = scan_vias-source front back via _ e h

  -- What parseMessage reads of where a message came from.
  pub record IsFrom (msg : OsipMessage) (d : Data) : Type 0 where
    pub natted : d.natted ≡ false
    pub source :
        d.source ≡ (scan_vias cx msg.vias (record { hops = 0; source = empty; nat = empty })).source
    pub label : d.label ≡ label_of cx msg.x_label

  parse_message-IsFrom :
      (msg : OsipMessage) (d : Data)
      → d.natted ≡ false
      → d.source ≡ empty
      → d.hops ≡ 0
      → IsFrom msg (parse_message cx msg d)
  unfolding parse_message
  parse_message-IsFrom msg d n e h =
      let nat =
        scan_vias-nat msg.vias (record { hops = d.hops; source = d.source; nat = empty }) refl in
      let invalid : is_valid empty ≡ false = empty-is_valid in
      record {
        natted = ground (arith, nat, invalid, n);
        source = ground (arith, nat, invalid, e, h);
        label = refl;
      }

  same-IsFrom :
      (msg : OsipMessage) (d d' : Data)
      → d'.natted ≡ d.natted
      → d'.source ≡ d.source
      → d'.label ≡ d.label
      → IsFrom msg d
      → IsFrom msg d'
  same-IsFrom msg d d' n e l p = record {
    natted = n ∙ p.natted;
    source = e ∙ p.source;
    label = l ∙ p.label;
  }

  with_target-IsFrom :
      (msg : OsipMessage) (d : Data) → IsFrom msg d → IsFrom msg (with_target cx msg d)
  unfolding with_target
  with_target-IsFrom msg d p =
      either (IsFrom msg) (has_host msg.req_uri) _ d (λ _. same-IsFrom msg d _ refl refl refl p)
        (λ _. p)

  requested-IsFrom : (msg : OsipMessage) → IsFrom msg (requested cx msg no_data)
  unfolding requested no_data
  requested-IsFrom msg =
      let d : Data = record no_data {
        method = msg.method;
        authorization = credentials cx msg.authorization;
      } in
      same-IsFrom msg (with_target cx msg (parse_message cx msg d)) _ refl refl refl
        (with_target-IsFrom msg _ (parse_message-IsFrom msg d refl refl refl))

  responded-IsFrom : (msg : OsipMessage) → IsFrom msg (responded cx msg no_data)
  unfolding responded no_data
  responded-IsFrom msg =
      parse_message-IsFrom msg
        (record no_data { status = msg.status_code; reason = msg.reason_phrase }) refl refl refl

  with_credentials-IsFrom :
      (a : Option Authorization) (msg : OsipMessage) (d : Data)
      → IsFrom msg d
      → IsFrom msg (with_credentials cx a d)
  unfolding with_credentials
  with_credentials-IsFrom none msg d p = p
  with_credentials-IsFrom (some a) msg d p = same-IsFrom msg d _ refl refl refl p

  response-IsFrom :
      (response msg : OsipMessage)
      → some response ≡ some msg
      → IsFrom msg (responded cx response no_data)
  response-IsFrom response msg e =
      subst (λ m. IsFrom m (responded cx response no_data)) (some-injective _ _ e)
        (responded-IsFrom response)

  request-IsFrom :
      (request msg : OsipMessage)
      → some request ≡ some msg
      → IsFrom msg (requested cx request no_data)
  request-IsFrom request msg e =
      subst (λ m. IsFrom m (requested cx request no_data)) (some-injective _ _ e)
        (requested-IsFrom request)

  by_kind-IsFrom :
      (kind : Kind) (event : Received) (msg : OsipMessage)
      → message_of kind event ≡ some msg
      → IsFrom msg (by_kind cx kind event no_data)
  unfolding by_kind
  by_kind-IsFrom answered event msg e = response-IsFrom event.response msg e
  by_kind-IsFrom registration_success event msg e = response-IsFrom event.response msg e
  by_kind-IsFrom registration_failure event msg e = response-IsFrom event.response msg e
  by_kind-IsFrom message_new event msg e = request-IsFrom event.request msg e
  by_kind-IsFrom call_invite event msg e = request-IsFrom event.request msg e
  by_kind-IsFrom other event msg e = cc

  pub data_of-IsFrom :
      (event : Received) (msg : OsipMessage)
      → message_of event.kind event ≡ some msg
      → IsFrom msg (data_of cx (some event))
  unfolding data_of
  data_of-IsFrom event msg e =
      with_credentials-IsFrom _ msg _ (by_kind-IsFrom event.kind event msg e)

  -- Whatever the vias of a message say: the event is not taken for one from behind a NAT, and its source
  -- is the host and port that the last via with a host names, not those that a proxy saw.
  pub data_of-source :
      (event : Received) (msg : OsipMessage) (front back : List Via) (via : Via) {host : Bytes}
      → message_of event.kind event ≡ some msg
      → msg.vias ≡ front ++ via ∷ back
      → via.host ≡ some host
      → All Hostless back
      → ((data_of cx (some event)).natted ≡ false)
        × ((data_of cx (some event)).source
            ≡ contact_at cx.now host (via_port cx via) [] (negsuc 0))
  data_of-source event msg front back via e v h none_after =
      let p = data_of-IsFrom event msg e in
      let s : Scan = record { hops = 0; source = empty; nat = empty } in
      (
        p.natted,
        p.source
            ∙ (ap (λ l. (scan_vias cx l s).source) v
                ∙ scan_vias-source front back via s h none_after),
      )
