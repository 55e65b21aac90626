-- ===== src/Connect/Storage.antt =====
-- Connect/storage.cpp: the client's own database, as far as it decides which keys are trusted. A
-- statement on an open database is executed; on one that is not open it does nothing and a SELECT has no
-- row. The result of `verifyDevices` is sorted by label in the source, and is not sorted here.
pub mod Trust
use tycho_sipwitchqt.Prelude.{
  ℕ, Bool, true, false, not, ◌||◌, Option, none, some, List, [], ◌∷◌, ◌++◌, eqb, if◌then◌else◌,
  keep, map,
}
use tycho_sipwitchqt.UString.{Bytes, eq_bytes, eq_bytes_iff}
use tycho_sipwitchqt.Hash.{KeyEq, lookup, insert}
use tycho_sipwitchqt.Connect.{Creds}
use tycho_sipwitchqt.Connect.Listener.{is_empty}

-- A row of Devices. The status is 0 for unknown, 1 for verified and 2 for failed.
pub record DeviceRow : Type 0 where
  pub devlabel : Bytes
  pub devkey : Bytes
  pub devagent : Bytes
  pub devstatus : ℕ

pub record Storage : Type 0 where
  pub is_open : Bool
  pub root_key : Option Bytes
  pub device_key : Option Bytes
  pub devices : List DeviceRow

-- A device as the server reports it: `k` is the key in hexadecimal, and `v` what is found about it.
pub record Reported : Type 0 where
  pub u : Bytes
  pub k : Bytes
  pub v : ℕ

abbrev pub bytes_eq : KeyEq Bytes
bytes_eq = record { same = eq_bytes; same_iff = eq_bytes_iff }

-- DELETE FROM Devices WHERE (devlabel=?)
unfoldable pub delete_label : Bytes → List DeviceRow → List DeviceRow
delete_label label [] = []
delete_label label (row ∷ rows) =
    let rest = delete_label label rows in if eq_bytes row.devlabel label then rest else row ∷ rest

-- UPDATE Devices SET devstatus=? WHERE (devlabel=?)
unfoldable pub set_status : ℕ → Bytes → List DeviceRow → List DeviceRow
set_status status label [] = []
set_status status label (row ∷ rows) =
    let rest = set_status status label rows in
    if eq_bytes row.devlabel label then record row { devstatus = status } ∷ rest else row ∷ rest

-- verifyDevice(label, key, agent)
unfoldable pub verify_device : Bytes → Bytes → Bytes → Storage → Storage
verify_device label key agent s =
    if s.is_open
    then record s {
      devices =
          delete_label label s.devices
          ++ record { devlabel = label; devkey = key; devagent = agent; devstatus = 1 } ∷ [];
    }
    else s

-- The devices by their labels, each with `v` 0; of two with one label the later one.
unfoldable pub index_devices : List Reported → List (Bytes × Reported) → List (Bytes × Reported)
index_devices [] labels = labels
index_devices (json ∷ devices) labels =
    index_devices devices (insert bytes_eq json.u (record json { v = 0 }) labels)

abbrev pub Found : Type 0
Found = List (Bytes × Reported) × List DeviceRow

module _ (from_hex : Bytes → Bytes) where
  -- What is found about a device that is stored and that the server reports a key of.
  unfoldable pub verdict : DeviceRow → Reported → ℕ
  verdict row json =
      if eqb row.devstatus 2 || not (eq_bytes row.devkey (from_hex json.k)) then 2 else 1

  unfoldable pub verify_row : DeviceRow → Found → Found
  unfolding verdict
  verify_row row (labels, table) = elim (lookup bytes_eq row.devlabel labels) [
    | none ↦ (labels, delete_label row.devlabel table)
    | some json ↦
        (if is_empty (from_hex json.k) then (labels, table) else (
          insert bytes_eq row.devlabel (record json { v = verdict row json }) labels,
          set_status (verdict row json) row.devlabel table,
        ))
  ]

  unfoldable pub verify_rows : List DeviceRow → Found → Found
  verify_rows [] found = found
  verify_rows (row ∷ rows) found = verify_rows rows (verify_row row found)

  -- verifyDevices(devices)
  unfoldable pub verify_devices : List Reported → Storage → List (Bytes × Reported) × Storage
  verify_devices devices s =
      let labels = index_devices devices [] in
      if s.is_open
      then (let (labels', table) = verify_rows s.devices (labels, s.devices) in
          (labels', record s { devices = table }))
      else (labels, s)

unfoldable pub keys_stored : Bytes × Bytes → Storage → Storage
keys_stored pair s =
    if s.is_open then record s { device_key = some pair.0; root_key = some pair.1 } else s

-- createKeys(creds), with the pair that Crypto::keypair gives: the device's key and the root key.
unfoldable pub create_keys :
    Bytes × Bytes → Creds × Option Bytes → Storage → (Creds × Option Bytes) × Storage
create_keys pair (creds, rootkey) s = elim creds.devkey [
  | none ↦ ((record creds { devkey = some pair.0 }, some pair.1), keys_stored pair s)
  | some key ↦ elim rootkey [
    | none ↦ ((record creds { devkey = some pair.0 }, some pair.1), keys_stored pair s)
    | some root ↦ ((creds, some root), s)
  ]
]
