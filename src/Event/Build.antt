-- ===== src/Event/Build.antt =====
-- The constructor of Event::Data in Server/event.cpp: how an event is made of what eXosip gives.
use tycho_sipwitchqt.Prelude.{ℕ, ◌+◌, ◌%◌, ◌^◌, true, false, Option, none, some, [], if◌then◌else◌}
use tycho_sipwitchqt.Prelude.Int.{ℤ}
use tycho_sipwitchqt.UString.{Bytes, codes, eq_bytes, is_number}
use tycho_sipwitchqt.Contact.{of_osip_uri}
use tycho_sipwitchqt.Event.{
  Party, Authorization, OsipMessage, Kind, answered, registration_success, registration_failure,
  message_new, call_invite, other, Received, Data, no_data, Context, or_else, has_host, bare,
}
use tycho_sipwitchqt.Event.Message.{parse_message}

module _ (cx : Context) where
  -- The user of a uri of a local host, where To or From has one.
  unfoldable pub local_user : Option Party → Option Bytes
  local_user none = none
  local_user (some party) = elim party.url [
    | none ↦ none
    | some url ↦ elim url.username [
      | none ↦ none
      | some user ↦ if cx.is_local (or_else url.host []) then some user else none
    ]
  ]

  -- The number of a local extension, or what it was before.
  unfoldable pub number_of : Option Party → ℤ → ℤ
  unfolding local_user
  number_of party before = elim (local_user party) [
    | none ↦ before
    | some ext ↦ if is_number ext then cx.to_int ext else before
  ]

  -- The credentials of a request, where they name a user and have a response.
  unfoldable pub credentials : Option Authorization → Option Authorization
  credentials none = none
  credentials (some a) = elim a.username [
    | none ↦ none
    | some user ↦ elim a.response [ none ↦ none | some response ↦ some a ]
  ]

  unfoldable pub with_target : OsipMessage → Data → Data
  with_target msg d =
      if has_host msg.req_uri
      then (let target = of_osip_uri cx.atoi msg.req_uri in
          record d {
            target = target;
            request = or_else msg.uri_text d.request;
            is_local = cx.is_local target.host;
          })
      else d

  -- A new MESSAGE or any other request.
  unfoldable pub requested : OsipMessage → Data → Data
  unfolding credentials with_target number_of local_user
  requested msg d0 =
      let d1 = record d0 { method = msg.method; authorization = credentials msg.authorization } in
      let d2 = with_target msg (parse_message cx msg d1) in
      record d2 {
        to_local = elim (local_user msg.to) [ none ↦ false | some user ↦ true ];
        number =
            number_of (if eq_bytes msg.method (codes "REGISTER") then msg.to else msg.from)
              d2.number;
      }

  unfoldable pub responded : OsipMessage → Data → Data
  responded msg d =
      parse_message cx msg (record d { status = msg.status_code; reason = msg.reason_phrase })

  unfoldable pub by_kind : Kind → Received → Data → Data
  by_kind answered event d = responded event.response d
  by_kind registration_success event d = responded event.response d
  by_kind registration_failure event d = responded event.response d
  by_kind message_new event d = requested event.request d
  by_kind call_invite event d = requested event.request d
  by_kind other event d = d

  abbrev unquoted : Option Bytes → Bytes → Bytes
  unquoted none before = before
  unquoted (some text) before = bare cx text

  unfoldable pub with_credentials : Option Authorization → Data → Data
  with_credentials none d = d
  with_credentials (some a) d = record d {
    userid = unquoted a.username d.userid;
    digest = elim a.response [ none ↦ d.digest | some response ↦ cx.to_lower (bare cx response) ];
    nonce = unquoted a.nonce d.nonce;
    realm = unquoted a.realm d.realm;
    algorithm = elim a.algorithm [ none ↦ d.algorithm | some name ↦ cx.to_upper (bare cx name) ];
  }

  -- Data(evt, ctx, seq), for an event and for none; the times of the event are not modelled.
  unfoldable pub data_of : Option Received → Data
  unfolding by_kind with_credentials no_data
  data_of none = no_data
  data_of (some event) =
      let d = by_kind event.kind event no_data in with_credentials d.authorization d

-- nextSequence(), from the counter of the process.
unfoldable pub next_sequence : ℕ → ℕ × ℕ
next_sequence counter = ((counter + 1) % 2 ^ 32, counter % 10000)
