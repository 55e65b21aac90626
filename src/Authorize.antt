-- ===== src/Authorize.antt =====
-- Database/authorize.cpp: the lookup of an endpoint that wants to register, and the removal of an
-- authorization. The SQL tables are the parameter `tables`: its fields are the queries of the source,
-- on a state `D`, and `none` is an empty record.
pub mod Licensing
pub mod Lookup
pub mod Tests
use tycho_sipwitchqt.Prelude.{
  ℕ, zero, suc, ◌+◌, String, ◌==◌, Bool, true, false, not, ◌&&◌, ◌||◌, Option, none, some, List, [],
  ◌∷◌, ◌++◌, ltb, eqb, if◌then◌else◌,
}
use tycho_sipwitchqt.Prelude.Int.{ℤ, pos, negsuc, ltb_ℤ, pos_part}
use Prim.Native.Char.{code}
use Prim.Native.String
use tycho_sipwitchqt.Sip.{
  Event, Status, ok, forbidden, not_found, does_not_exist_anywhere, internal_server_error,
}
use tycho_sipwitchqt.Registry.{Endpoint}

pub record Extension : Type 0 where
  pub authname : String
  pub display : String

-- `authdigest` is as it is after `toUpper`.
pub record Authorization : Type 0 where
  pub authtype : String
  pub authaccess : String
  pub authdigest : String
  pub realm : String
  pub secret : String
  pub fullname : String
  pub created : String

pub record Tables (D : Type 0) : Type 0 where
  pub endpoint : ℤ → String → D → Option ℕ
  pub extension : ℤ → D → Option Extension
  pub authorize : String → D → Option Authorization
  pub is_sysadmin : ℤ → D → Bool
  pub is_operator : ℤ → D → Bool
  pub insert_endpoint : ℤ → String → D → D
  pub delete_authorize : String → D → D
  pub labelled_endpoints : D → List ℕ
  pub insert_delete : String → ℕ → String → D → D

-- The members of Database that the lookup reads; `has_db` says that `db` is not null.
pub record Settings : Type 0 where
  pub first_number : ℤ
  pub last_number : ℤ
  pub expires_nat : ℤ
  pub expires_udp : ℤ
  pub expires_tcp : ℤ
  pub has_db : Bool

-- A reply, the signals to the database, and the signal to the manager.
pub data Sent : Type 0 where
  replied : Status → Sent
  copy_outboxes : ℕ → ℕ → Sent
  sync_outbox : ℕ → Sent
  create_endpoint : Endpoint → Sent
  update_roster : Sent

unfoldable pub clamp_expires : Settings → String → String → ℤ → ℤ
clamp_expires set label protocol expires =
    if not (label == "NONE") && (protocol == "udp" && ltb_ℤ set.expires_nat expires)
    then set.expires_nat
    else if protocol == "udp" && ltb_ℤ set.expires_udp expires
    then set.expires_udp
    else if ltb_ℤ set.expires_tcp expires
    then set.expires_tcp
    else expires

-- QString::indexOf of a character, and QString::mid.
unfoldable pub position : ℕ → String → Option ℕ
position q String.[] = none
position q (String.◌∷◌ c s) =
    let rest = position q s in
    if eqb (code c) q then some 0 else elim rest [ none ↦ none | some n ↦ some (suc n) ]

unfoldable pub mid : ℕ → String → String
mid zero s = s
mid (suc n) String.[] = String.[]
mid (suc n) (String.◌∷◌ c s) = mid n s

-- What follows the request uri's `@`, or else its `:`; a separator in front is not taken.
unfoldable pub origin_of : String → String
unfolding position mid
origin_of request = cut (at_or_colon (position b'@' request))
  where
    at_or_colon : Option ℕ → Option ℕ
    at_or_colon (some (suc n)) = some (suc n)
    at_or_colon _ = position b':' request

    cut : Option ℕ → String
    cut (some (suc n)) = mid (suc (suc n)) request
    cut _ = request

module _ {D : Type 0} (tables : Tables D) (set : Settings) where
  abbrev pub or_zero : Option ℕ → ℕ
  or_zero none = 0
  or_zero (some n) = n

  unfoldable pub privs_of : ℤ → D → String
  privs_of number d =
      if tables.is_sysadmin number d
      then "sysadmin"
      else if tables.is_operator number d
      then "operator"
      else "none"

  unfoldable pub display_of : Extension → Authorization → String
  display_of ext auth =
      if not (ext.display == "")
      then ext.display
      else if not (auth.fullname == "")
      then auth.fullname
      else ext.authname

  -- The QVariantHash of createEndpoint.
  unfoldable pub endpoint_reply : Event → Extension → Authorization → ℕ → D → Endpoint
  unfolding origin_of
  endpoint_reply ev ext auth eid d = record {
    user = ext.authname;
    label = ev.label;
    secret = auth.secret;
    realm = auth.realm;
    digest = auth.authdigest;
    display = display_of ext auth;
    origin = origin_of ev.request;
    privs = privs_of ev.number d;
    number = pos_part ev.number;
    endpoint = eid;
    expires = clamp_expires set ev.label ev.protocol ev.expires;
  }

  -- From `eid` on: the authorization of the extension.
  unfoldable pub find_authorized : Event → Extension → ℕ → D → List Sent
  find_authorized ev ext eid d = elim (tables.authorize ext.authname d) [
    | none ↦ replied forbidden ∷ []
    | some auth ↦
        if auth.authaccess == "SUSPEND"
        then replied forbidden ∷ []
        else if not (auth.authtype == "USER") && not (auth.authtype == "DEVICE")
        then replied forbidden ∷ []
        else create_endpoint (endpoint_reply ev ext auth eid d) ∷ []
  ]

  -- The case of the X-Initialize header "label": a new label's row is inserted here.
  unfoldable pub find_labelled : Event → Extension → Option ℕ → D → D × List Sent
  find_labelled ev ext (some eid) d = (d, sync_outbox eid ∷ find_authorized ev ext eid d)
  find_labelled ev ext none d =
      let d' = tables.insert_endpoint ev.number ev.label d in
      let eid = or_zero (tables.endpoint ev.number ev.label d') in
      let origin = or_zero (tables.endpoint ev.number "NONE" d') in
      (d', copy_outboxes origin eid ∷ find_authorized ev ext eid d')

  unfoldable pub find_extension : Event → Option ℕ → Option Extension → D → D × List Sent
  find_extension ev found none d = (d, replied not_found ∷ [])
  find_extension ev found (some ext) d =
      if ev.initialize == "label" then find_labelled ev ext found d else elim found [
        | none ↦ (d, replied forbidden ∷ [])
        | some eid ↦ (d, find_authorized ev ext eid d)
      ]

  unfoldable pub find_endpoint : Event → D → D × List Sent
  find_endpoint ev d =
      if ltb_ℤ set.first_number (pos 1) || not set.has_db
      then (d, replied internal_server_error ∷ [])
      else if ltb_ℤ ev.expires (pos 1)
      then (d, replied ok ∷ [])
      else if ltb_ℤ ev.number set.first_number || ltb_ℤ set.last_number ev.number
      then (d, replied does_not_exist_anywhere ∷ [])
      else find_extension ev (tables.endpoint ev.number ev.label d) (tables.extension ev.number d) d

  -- The loop over the labelled endpoints.
  unfoldable pub mark_deleted : String → String → List ℕ → D → D
  mark_deleted auth created [] d = d
  mark_deleted auth created (e ∷ es) d =
      mark_deleted auth created es (tables.insert_delete auth e created d)

  -- removeAuthorization; `auth` is the user name of the To uri without its quotes, and `upper` is
  -- QString::toUpper.
  unfoldable pub remove_authorization : (String → String) → String → Event → D → D × List Sent
  unfolding mark_deleted
  remove_authorization upper auth ev d =
      if not (tables.is_sysadmin ev.number d)
      then (d, replied forbidden ∷ [])
      else elim (tables.authorize auth d) [
        | none ↦ (d, replied not_found ∷ [])
        | some info ↦
            if upper info.authtype == "SYSTEM"
            then (d, replied forbidden ∷ [])
            else let d' = tables.delete_authorize auth d in
              (
                mark_deleted auth info.created (tables.labelled_endpoints d') d',
                replied ok ∷ update_roster ∷ [],
              )
      ]
