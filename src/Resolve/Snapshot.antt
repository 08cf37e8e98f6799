-- ===== src/Resolve/Snapshot.antt =====
-- pkg/resolve/snapshot.go: the handles of a repository that serves queries while another process
-- writes to it. Each handle that was opened has a number, and `closed` lists what was closed. The
-- watcher's goroutine is a sequence of ticks; a query reads `cur` between two of them.

pub mod Handles
pub mod Grace
mod Tests
use zonegit.Base.{
  ℕ, suc, ◌+◌, Bool, true, false, not, ◌||◌, List, [], ◌∷◌, ◌++◌, map, Bytes, bytes_eq, leb,
  if◌then◌else◌, Option, none, some, Result, ok, err, Error, lookup, assign,
}
use zonegit.Store.Hash.{Hash, zero_hash}
use zonegit.Store.MemStore.{Store, get_ref}

-- A read-only handle is frozen at the time it was opened.
pub record Handle : Type 0 where
  pub id : ℕ
  pub storage : Store

-- `pendingClose`
pub record PendingClose : Type 0 where
  pub handle : Handle
  pub at : ℕ

-- `PollingSnapshotter`. The path and the interval of the polls are left out; `opened` is the number
-- of handles that were opened.
pub record Snapshotter : Type 0 where
  pub cur : Option Handle
  pub refs : List Bytes
  pub last_hashes : List (Bytes × Hash)
  pub grace_close : ℕ
  pub pending : List PendingClose
  pub opened : ℕ
  pub closed : List ℕ

-- 45 seconds, in nanoseconds.
abbrev pub default_close_grace : ℕ
default_close_grace = 45000000000

unfoldable pub set_watched_refs : List Bytes → Snapshotter → Snapshotter
set_watched_refs refs p = record p { refs = refs }

-- The hash of a ref, zero if it cannot be read.
unfoldable pub ref_or_zero : Store → Bytes → Hash
ref_or_zero s ref = elim (get_ref s ref) [ none ↦ zero_hash | some h ↦ h ]

unfoldable pub capture_hashes : Store → List Bytes → List (Bytes × Hash) → List (Bytes × Hash)
unfolding ref_or_zero
capture_hashes s [] hashes = hashes
capture_hashes s (ref ∷ refs) hashes = capture_hashes s refs (assign ref (ref_or_zero s ref) hashes)

-- What a missing key of a Go map reads as.
unfoldable pub last_hash : List (Bytes × Hash) → Bytes → Hash
last_hash hashes ref = elim (lookup ref hashes) [ none ↦ zero_hash | some h ↦ h ]

-- The variable `changed` of `tick`.
unfoldable pub any_changed : Store → List Bytes → List (Bytes × Hash) → Bool
unfolding ref_or_zero last_hash
any_changed s [] hashes = false
any_changed s (ref ∷ refs) hashes =
    not (bytes_eq (last_hash hashes ref) (ref_or_zero s ref)) || any_changed s refs hashes

-- `NewPollingSnapshotter`, on the storage that the first open gives.
unfoldable pub new_polling_snapshotter : Result Store → List Bytes → Result Snapshotter
unfolding capture_hashes
new_polling_snapshotter (err e) refs = err e
new_polling_snapshotter (ok s) refs = ok (record {
  cur = some (record { id = 0; storage = s });
  refs = refs;
  last_hashes = capture_hashes s refs [];
  grace_close = default_close_grace;
  pending = [];
  opened = 1;
  closed = [];
})

unfoldable pub snapshot : Snapshotter → Result Handle
snapshot p = elim p.cur [ none ↦ err Error.failed | some h ↦ ok h ]

-- The handles that stay pending at a time, and the numbers of those that are closed.
unfoldable pub sweep : ℕ → ℕ → List PendingClose → List PendingClose × List ℕ
sweep grace now [] = ([], [])
sweep grace now (pc ∷ pcs) =
    let rest = sweep grace now pcs in
    if leb (pc.at + grace) now then (rest.0, pc.handle.id ∷ rest.1) else (pc ∷ rest.0, rest.1)

unfoldable pub sweep_pending : ℕ → Snapshotter → Snapshotter
unfolding sweep
sweep_pending now p =
    let swept = sweep p.grace_close now p.pending in
    record p { pending = swept.0; closed = swept.1 ++ p.closed }

-- The old handle of a swap is retired at the time `at`.
unfoldable pub retire : ℕ → Option Handle → List PendingClose → List PendingClose
retire at none pending = pending
retire at (some old) pending = pending ++ (record { handle = old; at = at } ∷ [])

-- `tick`: `opening` is what the open of a fresh handle gives, and `at` and `now` are two readings of
-- the clock.
unfoldable pub tick : Result Store → ℕ → ℕ → Snapshotter → Snapshotter
unfolding sweep_pending any_changed capture_hashes retire
tick (err e) at now p = sweep_pending now p
tick (ok s) at now p =
    let fresh : Handle = record { id = p.opened; storage = s } in
    sweep_pending now (
      if not (any_changed s p.refs p.last_hashes)
      then record p { opened = suc p.opened; closed = p.opened ∷ p.closed }
      else record p {
        cur = some fresh;
        last_hashes = capture_hashes s p.refs [];
        pending = retire at p.cur p.pending;
        opened = suc p.opened;
      })

unfoldable pub pending_ids : List PendingClose → List ℕ
pending_ids [] = []
pending_ids (pc ∷ pcs) = pc.handle.id ∷ pending_ids pcs

unfoldable pub current_ids : Option Handle → List ℕ
current_ids none = []
current_ids (some h) = h.id ∷ []

-- `Close`
unfoldable pub close : Snapshotter → Snapshotter
unfolding pending_ids current_ids
close p = record p {
  cur = none;
  pending = [];
  closed = current_ids p.cur ++ (pending_ids p.pending ++ p.closed);
}
