-- ===== src/Registry/Reach.antt =====
-- The registry over any sequence of its operations, from the start of the server.
use mathlib.Core.Path.{subst}
use tycho_sipwitchqt.Prelude.{ℕ, ◌+◌, ◌^◌, ◌≤◌, ◌<◌, ◌≡◌, refl, sym, ◌∙◌, some, arith, ltb}
use tycho_sipwitchqt.Sip.{Event}
use tycho_sipwitchqt.Registry.{
  Registry, Endpoint, Store, Found, empty, create, destroy, write, find_event, find_endpoint,
  cleanup,
}
use tycho_sipwitchqt.Registry.Index.{LivesAt}
use tycho_sipwitchqt.Registry.Bits.{is_online}
use tycho_sipwitchqt.Registry.Invariant.{Inv, population, empty_online, create-Inv, destroy-Inv}
use tycho_sipwitchqt.Registry.Lifecycle.{find_event-Inv, find_endpoint-Inv, write-Inv, cleanup-Inv}

-- One operation. An object that is written keeps its number, label, user and endpoint.
pub data Step (s t : Store) : Type 0 where
  creates :
      (now : ℕ) (ep : Endpoint)
      → s.first ≤ ep.number
      → population ep.number s.heap + 1 < 2 ^ 32
      → t ≡ create now ep s
      → Step s t
  finds : (now : ℕ) (ev : Event) (f : Found) → find_event now ev s ≡ some f → t ≡ f.0 → Step s t
  finds_id : (now key : ℕ) (f : Found) → find_endpoint now key s ≡ some f → t ≡ f.0 → Step s t
  deletes : (p : ℕ) (r : Registry) → LivesAt s.heap p r → t ≡ destroy p r s → Step s t
  cleans : (now : ℕ) → cleanup now s ≡ some t → Step s t
  writes :
      (p : ℕ) (r v : Registry)
      → LivesAt s.heap p r
      → v.number ≡ r.number
      → v.label ≡ r.label
      → v.user ≡ r.user
      → v.endpoint ≡ r.endpoint
      → t ≡ record s { heap = write p v s.heap }
      → Step s t

pub data Reach (s : Store) : Store → Type 0 where
  here : Reach s s
  next : {t u : Store} → Reach s t → Step t u → Reach s u

pub Inv-empty : (first : ℕ) → Inv (empty first)
unfolding empty
Inv-empty first = record {
  fresh = tt;
  ranged = tt;
  extensions = tt;
  aliases = tt;
  registries = tt;
  endpoints = tt;
  distinct = tt;
  room = λ n. omega arith;
  counted = λ n. refl;
  bytes = λ i. omega arith;
  shown = λ n h. empty_online first n;
}

Step-Inv : {s t : Store} → Step s t → Inv s → Inv t
Step-Inv {s} (creates now ep f room e) i = subst Inv (sym e) (create-Inv now ep s i f room)
Step-Inv {s} (finds now ev f h e) i =
    let (g, k, j, _) = find_event-Inv now s i ev in
    let same : g.0 ≡ f.0 = cc (h, k) in subst Inv (same ∙ sym e) j
Step-Inv {s} (finds_id now key f h e) i =
    let (g, k, j, _) = find_endpoint-Inv now s i key in
    let same : g.0 ≡ f.0 = cc (h, k) in subst Inv (same ∙ sym e) j
Step-Inv {s} (deletes p r l e) i = subst Inv (sym e) (destroy-Inv s i p r l)
Step-Inv {s} {t} (cleans now h) i =
    let (u, k, j) = cleanup-Inv now s i in let same : u ≡ t = cc (h, k) in subst Inv same j
Step-Inv {s} (writes p r v l en el eu ee e) i =
    subst Inv (sym e) (write-Inv 0 s i p r v l en el eu ee)

Reach-Inv : {s t : Store} → Inv s → Reach s t → Inv t
Reach-Inv i here = i
Reach-Inv i (next r st) = Step-Inv st (Reach-Inv i r)

-- In every store that is reached from the empty one, whatever the order of operations: the usage
-- count of a number is how many live objects have it, and a number from the first on is marked
-- online exactly when that is not 0.
pub Reach-is_online :
    (first n : ℕ) (t : Store)
    → Reach (empty first) t
    → t.first ≤ n
    → (t.count n ≡ population n t.heap)
      × (is_online t.first t.online n ≡ ltb 0 (population n t.heap))
Reach-is_online first n t r h =
    let i : Inv t = Reach-Inv (Inv-empty first) r in (i.counted n, i.shown n h)

-- In every store that is reached from the empty one, whatever the order of operations, no operation
-- uses a deleted object: finding the registration of an event, finding one by its endpoint and
-- cleaning up always come to an end with a store.
pub Reach-safe :
    (first now key : ℕ) (ev : Event) (t : Store)
    → Reach (empty first) t
    → ((f : Found) × (find_event now ev t ≡ some f))
      × ((f : Found) × (find_endpoint now key t ≡ some f))
      × ((u : Store) × (cleanup now t ≡ some u))
Reach-safe first now key ev t r =
    let i : Inv t = Reach-Inv (Inv-empty first) r in
    let (f, e, _, _) = find_event-Inv now t i ev in
    let (g, d, _, _) = find_endpoint-Inv now t i key in
    let (u, c, _) = cleanup-Inv now t i in ((f, e), (g, d), (u, c))
