-- ===== src/Connect/Storage/Trust.antt =====
-- What Storage::verifyDevices of Connect/storage.cpp makes of each stored device.
use tycho_sipwitchqt.Prelude.{
  ℕ, true, false, Option, none, some, List, [], ◌∷◌, ◌≡◌, eqb, refl, sym, ap, ◌∙◌, arith,
  if◌then◌else◌, inl, inr, Bool-cases, Option-cases,
}
use mathlib.Core.Path.{subst}
use mathlib.Core.Option.{some-injective}
use tycho_sipwitchqt.UString.{Bytes, eq_bytes, eq_bytes_iff}
use tycho_sipwitchqt.Hash.{lookup, insert, remove}
use tycho_sipwitchqt.Connect.Listener.{is_empty}
use tycho_sipwitchqt.Connect.Storage.{
  DeviceRow, Storage, Reported, bytes_eq, delete_label, set_status, index_devices, Found, verdict,
  verify_row, verify_rows, verify_devices,
}

-- The row of a label.
abbrev pub find_row : Bytes → List DeviceRow → Option DeviceRow
find_row label [] = none
find_row label (row ∷ rows) =
    let rest = find_row label rows in if eq_bytes row.devlabel label then some row else rest

-- The label is the table's primary key.
abbrev pub Distinct : List DeviceRow → Type 0
Distinct [] = Unit
Distinct (row ∷ rows) = (find_row row.devlabel rows ≡ none) × Distinct rows

find_row-own :
    (l : Bytes) (row : DeviceRow) (rows : List DeviceRow)
    → eq_bytes row.devlabel l ≡ true
    → find_row l (row ∷ rows) ≡ some row
find_row-own l row rows e = rw e

abbrev with_status : ℕ → Option DeviceRow → Option DeviceRow
with_status v none = none
with_status v (some row) = some (record row { devstatus = v })

find_row-delete_label :
    (l label : Bytes) (rows : List DeviceRow)
    → find_row l (delete_label label rows) ≡ (if eq_bytes label l then none else find_row l rows)
unfolding delete_label
find_row-delete_label l label [] = ground arith
find_row-delete_label l label (row ∷ rows) = ground (
  arith,
  find_row-delete_label l label rows,
  eq_bytes_iff row.devlabel label,
  eq_bytes_iff row.devlabel l,
  eq_bytes_iff label l,
)

find_row-set_status :
    (v : ℕ) (l label : Bytes) (rows : List DeviceRow)
    → find_row l (set_status v label rows)
      ≡ (if eq_bytes label l then with_status v (find_row l rows) else find_row l rows)
unfolding set_status
find_row-set_status v l label [] = ground arith
find_row-set_status v l label (row ∷ rows) = ground (
  arith,
  find_row-set_status v l label rows,
  eq_bytes_iff row.devlabel label,
  eq_bytes_iff row.devlabel l,
  eq_bytes_iff label l,
)

lookup-insert :
    (l label : Bytes) (json : Reported) (labels : List (Bytes × Reported))
    → lookup bytes_eq l (insert bytes_eq label json labels)
      ≡ (if eq_bytes label l then some json else lookup bytes_eq l labels)
unfolding lookup insert remove
lookup-insert l label json [] = refl
lookup-insert l label json ((k, j) ∷ labels) = ground (
  arith,
  lookup-insert l label json labels,
  eq_bytes_iff k label,
  eq_bytes_iff k l,
  eq_bytes_iff label l,
)

module _ (from_hex : Bytes → Bytes) where
  -- Verified is 1, failed 2: a device that failed stays so.
  abbrev judged : DeviceRow → Reported → ℕ
  judged row json =
      if eq_bytes row.devkey (from_hex json.k) then if eqb row.devstatus 2 then 2 else 1 else 2

  verdict-judged : (row : DeviceRow) (json : Reported) → verdict from_hex row json ≡ judged row json
  unfolding verdict
  verdict-judged row json = ground arith

  -- A stored device after the server's report of it, and that report with what was found.
  abbrev pub stored : Option DeviceRow → Option Reported → Option DeviceRow
  stored none json = none
  stored (some row) none = none
  stored (some row) (some json) =
      if is_empty (from_hex json.k)
      then some row
      else some (record row { devstatus = judged row json })

  abbrev pub shown : Option DeviceRow → Option Reported → Option Reported
  shown none json = json
  shown (some row) none = none
  shown (some row) (some json) =
      if is_empty (from_hex json.k) then some json else some (record json { v = judged row json })

  -- What is found under a label.
  abbrev At : Bytes → Option DeviceRow → Option Reported → Found → Type 0
  At l row json found = (find_row l found.1 ≡ row) × (lookup bytes_eq l found.0 ≡ json)

  verify_row-other :
      (l : Bytes) (row : DeviceRow) (found : Found) (r : Option DeviceRow) (j : Option Reported)
      → eq_bytes row.devlabel l ≡ false
      → At l r j found
      → At l r j (verify_row from_hex row found)
  unfolding verify_row
  verify_row-other l row (labels, table) r j e (p, q) =
      elim (Option-cases (lookup bytes_eq row.devlabel labels)) [
        | inl n ↦ ground (arith, n, find_row-delete_label l row.devlabel table)
        | inr (json, h) ↦ ground (
          arith,
          h,
          find_row-set_status (verdict from_hex row json) l row.devlabel table,
          lookup-insert l row.devlabel (record json { v = verdict from_hex row json }) labels,
        )
      ]

  verify_row-own :
      (l : Bytes) (row : DeviceRow) (found : Found) (j : Option Reported)
      → eq_bytes row.devlabel l ≡ true
      → At l (some row) j found
      → At l (stored (some row) j) (shown (some row) j) (verify_row from_hex row found)
  unfolding verify_row
  verify_row-own l row (labels, table) none e (p, q) =
      let same = (eq_bytes_iff row.devlabel l).0 e in
      let absent : lookup bytes_eq row.devlabel labels ≡ none =
        ap (λ k. lookup bytes_eq k labels) same ∙ q in
      ground (arith, absent, q, e, find_row-delete_label l row.devlabel table)
  verify_row-own l row (labels, table) (some json) e (p, q) =
      let same = (eq_bytes_iff row.devlabel l).0 e in
      let there : lookup bytes_eq row.devlabel labels ≡ some json =
        ap (λ k. lookup bytes_eq k labels) same ∙ q in
      ground (
        arith,
        there,
        q,
        p,
        e,
        verdict-judged row json,
        find_row-set_status (verdict from_hex row json) l row.devlabel table,
        lookup-insert l row.devlabel (record json { v = verdict from_hex row json }) labels,
      )

  verify_rows-other :
      (l : Bytes) (rows : List DeviceRow) (found : Found) (r : Option DeviceRow)
      (j : Option Reported)
      → find_row l rows ≡ none
      → At l r j found
      → At l r j (verify_rows from_hex rows found)
  unfolding verify_rows
  verify_rows-other l [] found r j e at = at
  verify_rows-other l (row ∷ rows) found r j e at = elim (Bool-cases (eq_bytes row.devlabel l)) [
    | inl own ↦ absurd (ground (arith, own, e))
    | inr away ↦
        verify_rows-other l rows (verify_row from_hex row found) r j (ground (arith, away, e))
          (verify_row-other l row found r j away at)
  ]

  verify_rows-At :
      (l : Bytes) (rows : List DeviceRow) (found : Found) (row : DeviceRow) (j : Option Reported)
      → Distinct rows
      → find_row l rows ≡ some row
      → At l (some row) j found
      → At l (stored (some row) j) (shown (some row) j) (verify_rows from_hex rows found)
  unfolding verify_rows
  verify_rows-At l [] found row j d e at = cc
  verify_rows-At l (r ∷ rows) found row j (new, d) e at =
      elim (Bool-cases (eq_bytes r.devlabel l)) [
        | inl own ↦
            let first : r ≡ row = some-injective _ _ (sym (find_row-own l r rows own) ∙ e) in
            let mine : At l (some r) j found = (at.0 ∙ ap some (sym first), at.1) in
            let gone : find_row l rows ≡ none =
              ap (λ k. find_row k rows) (sym ((eq_bytes_iff r.devlabel l).0 own)) ∙ new in
            subst
              (λ x.
                At l (stored (some x) j) (shown (some x) j) (verify_rows from_hex (r ∷ rows) found))
              first
              (verify_rows-other l rows (verify_row from_hex r found) _ _ gone
                (verify_row-own l r found j own mine))
        | inr away ↦
            verify_rows-At l rows (verify_row from_hex r found) row j d (ground (arith, away, e))
              (verify_row-other l r found (some row) j away at)
      ]

  table-At :
      (l : Bytes) (rows : List DeviceRow) (labels : List (Bytes × Reported))
      → Distinct rows
      → let json = lookup bytes_eq l labels in
        At l
          (stored (find_row l rows) json)
          (shown (find_row l rows) json)
          (verify_rows from_hex rows (labels, rows))
  table-At l rows labels d = elim (Option-cases (find_row l rows)) [
    | inl n ↦
        rw n (verify_rows-other l rows (labels, rows) none (lookup bytes_eq l labels) n (n, refl))
    | inr (row, e) ↦
        rw e (verify_rows-At l rows (labels, rows) row (lookup bytes_eq l labels) d e (e, refl))
  ]

  -- On an open database each stored device is judged by what the server reports under its label: it is
  -- deleted where nothing is reported, kept as it is where the report has no key, and else marked as
  -- failed where it was marked so before or the keys differ, and as verified where they are the same. The
  -- user is shown the same verdict, and 0 for a device that is not stored.
  pub verify_devices-verdict :
      (devices : List Reported) (s : Storage) (label : Bytes)
      → s.is_open ≡ true
      → Distinct s.devices
      → let (labels, s') = verify_devices from_hex devices s in
        let json = lookup bytes_eq label (index_devices devices []) in
        (find_row label s'.devices ≡ stored (find_row label s.devices) json)
        × (lookup bytes_eq label labels ≡ shown (find_row label s.devices) json)
  unfolding verify_devices
  verify_devices-verdict devices s label on d =
      rw on (table-At label s.devices (index_devices devices []) d)
