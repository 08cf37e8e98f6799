-- ===== src/Resolve/Snapshot/Handles.antt =====
-- Every handle that was opened is current, pending or closed, and only one of them.
use zonegit.Base.{
  ℕ, suc, ◌+◌, ◌≤◌, ◌≡◌, arith, List, [], ◌∷◌, ◌++◌, Bytes, ltb, ◌==◌, if◌then◌else◌, Option, none,
  some, Result, ok, err, Bool-cases, inl, inr, ok_injective,
}
use mathlib.Core.Path.{subst}
use zonegit.Store.MemStore.{Store}
use zonegit.Resolve.Snapshot.{
  Handle, PendingClose, Snapshotter, set_watched_refs, any_changed, capture_hashes,
  new_polling_snapshotter, sweep, sweep_pending, retire, tick, pending_ids, current_ids, close,
}

-- How often a number stands in a list.
unfoldable pub count : ℕ → List ℕ → ℕ
count i [] = 0
count i (j ∷ js) = let rest = count i js in if i == j then suc rest else rest

pub count-append : (i : ℕ) (js ks : List ℕ) → count i (js ++ ks) ≡ count i js + count i ks
unfolding count
count-append i [] ks = omega arith
count-append i (j ∷ js) ks = ground (arith, count-append i js ks)

-- How often a handle is current, pending or closed.
abbrev pub places : ℕ → Snapshotter → ℕ
places i p = count i (current_ids p.cur) + count i (pending_ids p.pending) + count i p.closed

-- The handles that were opened are each in one place.
abbrev pub InPlace : Snapshotter → Type 0
InPlace p = (i : ℕ) → places i p ≡ (if ltb i p.opened then 1 else 0)

count-sweep :
    (i grace now : ℕ) (pcs : List PendingClose)
    → count i (pending_ids pcs)
      ≡ count i (pending_ids (sweep grace now pcs).0) + count i (sweep grace now pcs).1
unfolding count sweep pending_ids
count-sweep i grace now [] = omega arith
count-sweep i grace now (pc ∷ pcs) = ground (arith, count-sweep i grace now pcs)

InPlace-sweep_pending : (now : ℕ) (p : Snapshotter) → InPlace p → InPlace (sweep_pending now p)
unfolding sweep_pending
InPlace-sweep_pending now p h i = omega (
  arith,
  h i,
  count-sweep i p.grace_close now p.pending,
  count-append i (sweep p.grace_close now p.pending).1 p.closed,
)

count-retire :
    (i at : ℕ) (cur : Option Handle) (pcs : List PendingClose)
    → count i (pending_ids (retire at cur pcs))
      ≡ count i (current_ids cur) + count i (pending_ids pcs)
unfolding retire current_ids pending_ids count
count-retire i at none pcs = omega arith
count-retire i at (some h) [] = ground arith
count-retire i at (some h) (pc ∷ pcs) = ground (arith, count-retire i at (some h) pcs)

module _ (s : Store) (at : ℕ) (p : Snapshotter) where
  abbrev pub discarded : Snapshotter
  discarded = record p { opened = suc p.opened; closed = p.opened ∷ p.closed }

  abbrev pub swapped : Snapshotter
  swapped = record p {
    cur = some (record { id = p.opened; storage = s });
    last_hashes = capture_hashes s p.refs [];
    pending = retire at p.cur p.pending;
    opened = suc p.opened;
  }

  InPlace-discarded : InPlace p → InPlace discarded
  unfolding count
  InPlace-discarded h i = ground (arith, h i)

  InPlace-swapped : InPlace p → InPlace swapped
  unfolding count current_ids
  InPlace-swapped h i = ground (arith, h i, count-retire i at p.cur p.pending)

pub InPlace-tick :
    (opening : Result Store) (at now : ℕ) (p : Snapshotter)
    → InPlace p
    → InPlace (tick opening at now p)
unfolding tick
InPlace-tick (err e) at now p h = InPlace-sweep_pending now p h
InPlace-tick (ok s) at now p h = elim (Bool-cases (any_changed s p.refs p.last_hashes)) [
  | inl changed ↦ rw changed (InPlace-sweep_pending now (swapped s at p) (InPlace-swapped s at p h))
  | inr same ↦ rw same (InPlace-sweep_pending now (discarded s at p) (InPlace-discarded s at p h))
]

-- What the daemon can make of a snapshotter: it starts, ticks, and is given other refs to watch. The
-- second reading of the clock in a tick is not before the first.
pub data Reachable : Snapshotter → Type 0 where
  started :
      {p : Snapshotter} (s : Store) (refs : List Bytes)
      → new_polling_snapshotter (ok s) refs ≡ ok p
      → Reachable p
  ticked :
      {p : Snapshotter} (opening : Result Store) (at now : ℕ)
      → at ≤ now
      → Reachable p
      → Reachable (tick opening at now p)
  watched :
      {p : Snapshotter} (refs : List Bytes) → Reachable p → Reachable (set_watched_refs refs p)

InPlace-started :
    (s : Store) (refs : List Bytes) (p : Snapshotter)
    → new_polling_snapshotter (ok s) refs ≡ ok p
    → InPlace p
unfolding new_polling_snapshotter current_ids pending_ids count
InPlace-started s refs p e = subst InPlace (ok_injective e) (λ i. ground arith)

InPlace-watched :
    (refs : List Bytes) (p : Snapshotter) → InPlace p → InPlace (set_watched_refs refs p)
unfolding set_watched_refs
InPlace-watched refs p h = h

pub Reachable-InPlace : (p : Snapshotter) → Reachable p → InPlace p
Reachable-InPlace p (started s refs e) = InPlace-started s refs p e
Reachable-InPlace _ (ticked {p = p} opening at now _ r) =
    InPlace-tick opening at now p (Reachable-InPlace p r)
Reachable-InPlace _ (watched {p = p} refs r) = InPlace-watched refs p (Reachable-InPlace p r)

-- At any time a handle that was opened is current, waits for its close, or was closed, once and in
-- one of these places only; and after `close` each was closed exactly once.
pub handles_accounted :
    (p : Snapshotter)
    → Reachable p
    → (i : ℕ)
    → (places i p ≡ (if ltb i p.opened then 1 else 0))
      × (count i (close p).closed ≡ (if ltb i p.opened then 1 else 0))
unfolding close
handles_accounted p r i =
    let here = Reachable-InPlace p r i in
    (
      here,
      omega (
        arith,
        here,
        count-append i (current_ids p.cur) (pending_ids p.pending ++ p.closed),
        count-append i (pending_ids p.pending) p.closed,
      ),
    )
