-- ===== src/Event/Message.antt =====
-- What parseMessage of Server/event.cpp reads of an osip message.
use tycho_sipwitchqt.Prelude.{
  ℕ, suc, Bool, true, false, not, ◌&&◌, Option, none, some, List, [], ◌∷◌, ◌++◌, eqb, if◌then◌else◌,
}
use tycho_sipwitchqt.Prelude.Int.{ℤ, negsuc}
use tycho_sipwitchqt.UString.{Bytes, codes}
use tycho_sipwitchqt.Util.{port_number}
use tycho_sipwitchqt.Contact.{
  Contact, OsipUri, contact_at, is_valid, is_not, of_osip_uri, of_osip_contact, empty,
}
use tycho_sipwitchqt.Event.{
  Via, Reached, Party, MediaType, OsipMessage, Data, Context, or_else, has_host, bare,
}

-- The loop over the vias.
pub record Scan : Type 0 where
  pub hops : ℕ
  pub source : Contact
  pub nat : Contact

module _ (cx : Context) where
  -- The host and port that the topmost proxy saw, where it wrote both and no via above did.
  unfoldable pub nat_of : Via → Contact → Contact
  nat_of via nat =
      let rport = port_number cx.atoi via.rport in
      if is_not nat && not (eqb rport 0)
      then elim via.received [
        | none ↦ nat
        | some address ↦ contact_at cx.now address rport [] (negsuc 0)
      ]
      else nat

  unfoldable pub via_port : Via → ℕ
  via_port via = elim via.port [
    | none ↦ cx.default_port
    | some text ↦ port_number cx.atoi (some text)
  ]

  unfoldable pub scan_via : Via → Scan → Scan
  scan_via via s = elim via.host [
    | none ↦ record s { hops = suc s.hops }
    | some host ↦ record {
      hops = suc s.hops;
      source = contact_at cx.now host (via_port via) [] (negsuc 0);
      nat = nat_of via s.nat;
    }
  ]

  unfoldable pub scan_vias : List Via → Scan → Scan
  scan_vias [] s = s
  scan_vias (via ∷ vias) s = scan_vias vias (scan_via via s)

  unfoldable pub expires_of : OsipMessage → ℤ
  expires_of msg = elim msg.session_expires [
    | some value ↦ cx.atoi value
    | none ↦ elim msg.expires [ some value ↦ cx.atoi value | none ↦ negsuc 0 ]
  ]

  unfoldable pub label_of : Option Bytes → Bytes
  unfolding bare
  label_of none = codes "NONE"
  label_of (some value) = bare cx (cx.to_lower value)

  unfoldable pub allows_of : List (Option Bytes) → List Bytes
  allows_of [] = []
  allows_of (none ∷ list) = allows_of list
  allows_of (some value ∷ list) = cx.to_lower value ∷ allows_of list

  unfoldable pub contacts_of : List Reached → List Contact
  contacts_of [] = []
  contacts_of (c ∷ list) =
      let rest = contacts_of list in
      if has_host c.url then of_osip_contact cx.atoi cx.now c.url c.expires ∷ rest else rest

  unfoldable pub routes_of : List (Option OsipUri) → List Contact
  routes_of [] = []
  routes_of (url ∷ list) =
      let rest = routes_of list in if has_host url then of_osip_uri cx.atoi url ∷ rest else rest

  unfoldable pub display_of : Party → Bytes
  unfolding bare
  display_of from = elim from.displayname [
    | some name ↦ bare cx name
    | none ↦ elim from.url [
      | none ↦ []
      | some url ↦ elim url.username [ none ↦ [] | some user ↦ bare cx user ]
    ]
  ]

  -- `content`, which is the type with its subtype, where there is a type.
  unfoldable pub content_of : Option MediaType → Bytes
  content_of none = []
  content_of (some media) = elim media.type [
    | none ↦ []
    | some type ↦ elim media.subtype [ none ↦ type | some sub ↦ type ++ (b'/' ∷ sub) ]
  ]

  -- `contentType`, which is only set where there is a body.
  unfoldable pub body_type : Option MediaType → Bytes
  body_type none = []
  body_type (some media) = elim media.subtype [
    | some sub ↦ or_else media.type [] ++ (b'/' ∷ sub)
    | none ↦ or_else media.type []
  ]

  abbrev is_empty_list : List Contact → Bool
  is_empty_list [] = true
  is_empty_list (c ∷ cs) = false

  -- parseMessage(msg)
  unfoldable pub parse_message : OsipMessage → Data → Data
  unfolding scan_vias expires_of label_of allows_of contacts_of routes_of display_of content_of
      body_type empty
  parse_message msg d =
      let s = scan_vias msg.vias (record { hops = d.hops; source = d.source; nat = empty }) in
      let recorded = routes_of msg.record_routes in
      let none_recorded = is_empty_list recorded in
      record d {
        hops = s.hops;
        natted = if is_valid s.nat then true else d.natted;
        source = if is_valid s.nat then s.nat else s.source;
        agent = or_else msg.user_agent d.agent;
        expires = expires_of msg;
        label = label_of msg.x_label;
        initialize = elim msg.x_initialize [ none ↦ d.initialize | some v ↦ cx.to_lower v ];
        device_key = elim msg.x_device [ none ↦ d.device_key | some v ↦ cx.from_hex v ];
        subject = or_else msg.subject d.subject;
        allows = d.allows ++ allows_of msg.allows;
        contacts = d.contacts ++ contacts_of msg.contacts;
        routes = d.routes ++ (if none_recorded then routes_of msg.routes else recorded);
        record_route = if none_recorded then d.record_route else true;
        display = elim msg.from [ none ↦ d.display | some from ↦ display_of from ];
        from = elim msg.from [ none ↦ d.from | some from ↦ of_osip_uri cx.atoi from.url ];
        to = elim msg.to [ none ↦ d.to | some to ↦ of_osip_uri cx.atoi to.url ];
        content = content_of msg.content_type;
        body = or_else msg.body d.body;
        content_type = elim msg.body [
          | none ↦ d.content_type
          | some _ ↦ body_type msg.content_type
        ];
      }
