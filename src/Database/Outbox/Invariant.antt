-- ===== src/Database/Outbox/Invariant.antt =====
-- The counter of the messages stays above the messages of all outboxes, through whatever the handlers
-- do and whichever statements fail; and what a failed query costs a client.
use tycho_sipwitchqt.Prelude.{
  ℕ, suc, ◌<◌, Bool, ◌&&◌, List, [], ◌∷◌, ◌≡◌, refl, arith, eqb, keep, All, All-append, either,
}
use tycho_sipwitchqt.Prelude.Int.{ℤ, pos}
use tycho_sipwitchqt.Database.Tables.{
  Db, Tables, OutboxRow, run, select, update, insert_row, insert_outbox, is_faulty, is_empty,
}
use tycho_sipwitchqt.Database.Outbox.{Qt, Posting, copy_rows, copy_outbox, set_outboxes, post_all}
use tycho_sipwitchqt.Database.Outbox.Post.{Fresh, row_of}

abbrev pub Below : Tables → Type 0
Below t = All (λ o. o.mid < t.next_mid) t.outboxes

pub Below-Fresh :
    (bound : ℕ) (rows : List OutboxRow) → All (λ o. o.mid < bound) rows → Fresh bound rows
Below-Fresh bound [] b = tt
Below-Fresh bound (o ∷ rows) (l, b) = (ground arith, Below-Fresh bound rows b)

pub Below-suc :
    (bound : ℕ) (rows : List OutboxRow)
    → All (λ o. o.mid < bound) rows
    → All (λ o. o.mid < suc bound) rows
Below-suc bound [] b = tt
Below-suc bound (o ∷ rows) (l, b) = (omega arith, Below-suc bound rows b)

All-keep {ℓ κ} :
    {A : Type ℓ} (P : A → Type κ) (p : A → Bool) (xs : List A) → All P xs → All P (keep p xs)
All-keep P p [] a = tt
All-keep P p (x ∷ xs) (b, a) =
    let rest = All-keep P p xs a in either (All P) (p x) _ _ (λ _. (b, rest)) (λ _. rest)

set_outboxes-Below :
    (where_ : OutboxRow → Bool) (status : ℤ) (bound : ℕ) (rows : List OutboxRow)
    → All (λ o. o.mid < bound) rows
    → All (λ o. o.mid < bound) (update where_ (λ o. record o { msgstatus = status }) rows)
unfolding update
set_outboxes-Below where_ status bound [] b = tt
set_outboxes-Below where_ status bound (o ∷ rows) (l, b) =
    let rest = set_outboxes-Below where_ status bound rows b in
    either (All (λ o. o.mid < bound)) (where_ o) _ _ (λ _. (l, rest)) (λ _. (l, rest))

-- A statement that may fail keeps what it would keep.
pub run-keeps {κ} :
    (P : Tables → Type κ) (u : Tables → Tables) (d : Db)
    → (P d.tables → P (u d.tables))
    → P d.tables
    → P (run u d).tables
unfolding run
run-keeps P u d f p = either P (is_faulty d.faults) _ _ (λ _. p) (λ _. f p)

module _ (where_ : OutboxRow → Bool) (status : ℤ) where
  pub run_set-Below : (d : Db) → Below d.tables → Below (run (set_outboxes where_ status) d).tables
  run_set-Below d b =
      run-keeps Below (set_outboxes where_ status) d
        (set_outboxes-Below where_ status d.tables.next_mid d.tables.outboxes) b

select-tables : {Row : Type 0} (q : Tables → List Row) (d : Db) → (select q d).0.tables ≡ d.tables
unfolding select
select-tables q d = refl

-- The tables with the counter at `n` and the outboxes below it.
abbrev pub BoundedBy : ℕ → Tables → Type 0
BoundedBy n t = (t.next_mid ≡ n) × All (λ o. o.mid < n) t.outboxes

pub bounded-Below : (n : ℕ) (t : Tables) → BoundedBy n t → Below t
bounded-Below n t (e, b) = rw (e) b

insert_outbox-BoundedBy :
    (n : ℕ) (row : OutboxRow) (t : Tables)
    → row.mid < n
    → BoundedBy n t
    → BoundedBy n (insert_outbox row t)
unfolding insert_outbox insert_row
insert_outbox-BoundedBy n row t l (e, b) = (
  e,
  either (All (λ o. o.mid < n))
      (is_empty (keep (λ o. eqb o.endpoint row.endpoint && eqb o.mid row.mid) t.outboxes)) _ _
      (λ _. All-append (λ o. o.mid < n) t.outboxes (row ∷ []) (l, tt) b) (λ _. b),
)

run_insert-BoundedBy :
    (n : ℕ) (row : OutboxRow) (d : Db)
    → row.mid < n
    → BoundedBy n d.tables
    → BoundedBy n (run (insert_outbox row) d).tables
run_insert-BoundedBy n row d l =
    run-keeps (BoundedBy n) (insert_outbox row) d (insert_outbox-BoundedBy n row d.tables l)

copy_rows-BoundedBy :
    (n target : ℕ) (rows : List OutboxRow) (d : Db)
    → All (λ o. o.mid < n) rows
    → BoundedBy n d.tables
    → BoundedBy n (copy_rows rows target d).tables
unfolding copy_rows
copy_rows-BoundedBy n target [] d a b = b
copy_rows-BoundedBy n target (row ∷ rows) d (l, a) b =
    let copy : OutboxRow = record { mid = row.mid; endpoint = target; msgstatus = pos 0 } in
    copy_rows-BoundedBy n target rows (run (insert_outbox copy) d) a
      (run_insert-BoundedBy n copy d l b)

pub copy_outbox-Below :
    (source target : ℕ) (d : Db) → Below d.tables → Below (copy_outbox source target d).tables
unfolding copy_outbox select
copy_outbox-Below source target d b =
    let n = d.tables.next_mid in
    let selected = select (λ t. keep (λ o. eqb o.endpoint source) t.outboxes) d in
    let rows : All (λ o. o.mid < n) selected.1 =
      either (All (λ o. o.mid < n)) (is_faulty d.faults) _ _ (λ _. tt)
        (λ _. All-keep (λ o. o.mid < n) (λ o. eqb o.endpoint source) d.tables.outboxes b) in
    bounded-Below n (copy_rows selected.1 target selected.0).tables
      (copy_rows-BoundedBy n target selected.1 selected.0 rows (refl, b))

module _ (qt : Qt) where
  pub post_all-Below :
      (n : ℕ) (list : List ℕ) (done : ℕ → Bool) (data_ : Posting) (d : Db)
      → data_.r < n
      → BoundedBy n d.tables
      → BoundedBy n (post_all qt list done data_ d).0.tables
  unfolding post_all
  post_all-Below n [] done data_ d l b = b
  post_all-Below n (e ∷ list) done data_ d l b =
      let row = row_of data_.r done e in
      post_all-Below n list done data_ (run (insert_outbox row) d) l
        (run_insert-BoundedBy n row d l b)
