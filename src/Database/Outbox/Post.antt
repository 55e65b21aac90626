-- ===== src/Database/Outbox/Post.antt =====
-- What posting a message does to the outboxes, and what it sends.
use tycho_sipwitchqt.Prelude.{
  ℕ, Bool, false, ◌&&◌, List, [], ◌∷◌, ◌++◌, ◌≡◌, inl, inr, refl, sym, arith, eqb, if◌then◌else◌,
  keep, map, All, All-append, either, Bool-cases,
}
use tycho_sipwitchqt.Prelude.Int.{pos}
use tycho_sipwitchqt.Database.Tables.{
  Tables, OutboxRow, healthy, run, update, insert_row, insert_outbox, is_faulty, later,
}
use tycho_sipwitchqt.Database.Outbox.{Qt, Posting, Posted, send_message, post_all, unsent}
use tycho_sipwitchqt.Database.Outbox.Pending.{IsNew, marked}

abbrev pub Distinct : List ℕ → Type 0
Distinct [] = Unit
Distinct (x ∷ xs) = All (λ y. eqb x y ≡ false) xs × Distinct xs

-- No outbox has the message.
abbrev pub Fresh : ℕ → List OutboxRow → Type 0
Fresh mid rows = All (λ o. eqb o.mid mid ≡ false) rows

-- No row has the message for one of the endpoints.
abbrev pub Unposted : ℕ → List ℕ → List OutboxRow → Type 0
Unposted mid list rows = All (λ e. All (λ o. (eqb o.endpoint e && eqb o.mid mid) ≡ false) rows) list

-- The outbox of an endpoint for a new message.
abbrev pub row_of : ℕ → (ℕ → Bool) → ℕ → OutboxRow
row_of mid done e = record {
  mid = mid;
  endpoint = e;
  msgstatus = if done e then pos 200 else pos 0;
}

abbrev pub sends : (ℕ → Bool) → Posting → List ℕ → List Posted
sends done data_ [] = []
sends done data_ (e ∷ es) =
    let rest = sends done data_ es in if done e then rest else send_message e data_ ∷ rest

keep-none {ℓ} :
    {A : Type ℓ} (p : A → Bool) (xs : List A) → All (λ x. p x ≡ false) xs → keep p xs ≡ []
keep-none p [] n = refl
keep-none p (x ∷ xs) (f, n) = ground (arith, keep-none p xs n)

append_assoc {ℓ} : {A : Type ℓ} (xs ys zs : List A) → (xs ++ ys) ++ zs ≡ xs ++ (ys ++ zs)
append_assoc [] ys zs = refl
append_assoc (x ∷ xs) ys zs = λ i. x ∷ append_assoc xs ys zs i

append_nil {ℓ} : {A : Type ℓ} (xs : List A) → xs ++ [] ≡ xs
append_nil [] = refl
append_nil (x ∷ xs) = λ i. x ∷ append_nil xs i

Unposted-append :
    (mid : ℕ) (list : List ℕ) (rows : List OutboxRow) (o : OutboxRow)
    → Unposted mid list rows
    → All (λ e. eqb o.endpoint e ≡ false) list
    → Unposted mid list (rows ++ o ∷ [])
Unposted-append mid [] rows o u d = tt
Unposted-append mid (e ∷ list) rows o (f, u) (g, d) = (
  All-append (λ o. (eqb o.endpoint e && eqb o.mid mid) ≡ false) rows (o ∷ []) (ground arith, tt) f,
  Unposted-append mid list rows o u d,
)

abbrev pub posted : ℕ → (ℕ → Bool) → List ℕ → Tables → Tables
posted mid done list t = record t { outboxes = t.outboxes ++ map (row_of mid done) list }

module _ (qt : Qt) (done : ℕ → Bool) (data_ : Posting) where
  insert_outbox-new :
      (e : ℕ) (t : Tables)
      → All (λ o. (eqb o.endpoint e && eqb o.mid data_.r) ≡ false) t.outboxes
      → insert_outbox (row_of data_.r done e) t
        ≡ record t { outboxes = t.outboxes ++ row_of data_.r done e ∷ [] }
  unfolding insert_outbox insert_row
  insert_outbox-new e t u =
      rw (keep-none (λ o. eqb o.endpoint e && eqb o.mid data_.r) t.outboxes u) refl

  pub post_all-Unposted :
      (list : List ℕ) (t : Tables)
      → Distinct list
      → Unposted data_.r list t.outboxes
      → post_all qt list done data_ (healthy t)
        ≡ (healthy (posted data_.r done list t), sends done data_ list)
  unfolding post_all run is_faulty later
  post_all-Unposted [] t d u =
      sym (λ i. (healthy (record t { outboxes = append_nil t.outboxes i }), []))
  post_all-Unposted (e ∷ list) t (f, d) (g, u) =
      let row = row_of data_.r done e in
      let t' : Tables = record t { outboxes = t.outboxes ++ row ∷ [] } in
      rw
        (
          insert_outbox-new e t g,
          post_all-Unposted list t' d (Unposted-append data_.r list t.outboxes row u f),
        )
        λ i. (
          healthy (record t {
            outboxes = append_assoc t.outboxes (row ∷ []) (map (row_of data_.r done) list) i;
          }),
          sends done data_ (e ∷ list),
        )

Fresh-Unposted :
    (mid e : ℕ) (rows : List OutboxRow)
    → Fresh mid rows
    → All (λ o. (eqb o.endpoint e && eqb o.mid mid) ≡ false) rows
Fresh-Unposted mid e [] n = tt
Fresh-Unposted mid e (o ∷ rows) (f, n) = (ground arith, Fresh-Unposted mid e rows n)

pub Unposted_lem :
    (mid : ℕ) (list : List ℕ) (rows : List OutboxRow) → Fresh mid rows → Unposted mid list rows
Unposted_lem mid [] rows n = tt
Unposted_lem mid (e ∷ list) rows n = (Fresh-Unposted mid e rows n, Unposted_lem mid list rows n)

pub Fresh-listed :
    (mid e : ℕ) (rows : List OutboxRow)
    → Fresh mid rows
    → Fresh mid (update (unsent e) (marked (pos 100)) rows)
unfolding update
Fresh-listed mid e [] n = tt
Fresh-listed mid e (o ∷ rows) (f, n) =
    either (Fresh mid) (unsent e o) (marked (pos 100) o ∷ update (unsent e) (marked (pos 100)) rows)
      (o ∷ update (unsent e) (marked (pos 100)) rows) (λ _. (f, Fresh-listed mid e rows n))
      (λ _. (f, Fresh-listed mid e rows n))

pub rows-IsNew :
    (mid : ℕ) (done : ℕ → Bool) (list : List ℕ) → All IsNew (map (row_of mid done) list)
rows-IsNew mid done [] = tt
rows-IsNew mid done (e ∷ list) = (
  elim (Bool-cases (done e)) [ inl f ↦ inr (ground arith) | inr f ↦ inl (ground arith) ],
  rows-IsNew mid done list,
)
