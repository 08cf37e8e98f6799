-- ===== src/Resolve/Snapshot/Tests.antt =====
-- A snapshotter that swaps its handle once.
use zonegit.Base.{
  ◌≡◌, refl, arith, [], ◌∷◌, codes, some, ok, err, Error, if◌then◌else◌, ltb, bytes_eq, lookup,
  remove, assign,
}
use zonegit.Store.Hash.{zero_hash}
use zonegit.Store.MemStore.{Store, get_ref, new_store}
use zonegit.Resolve.Snapshot.{
  Snapshotter, set_watched_refs, ref_or_zero, capture_hashes, last_hash, any_changed,
  new_polling_snapshotter, snapshot, sweep, sweep_pending, retire, tick, pending_ids, current_ids,
  close, default_close_grace,
}
use zonegit.Resolve.Snapshot.Handles.{count, places, Reachable, started, ticked, handles_accounted}
use zonegit.Resolve.Snapshot.Grace.{
  Expired, Waiting, tick-Waiting, nothing_yet, then_tick, snapshot_stays_open,
}

unfoldable snapshots : Unit {0}
unfolding set_watched_refs ref_or_zero capture_hashes last_hash any_changed new_polling_snapshotter
    snapshot sweep sweep_pending retire tick pending_ids current_ids close count get_ref bytes_eq
    lookup remove assign zero_hash
snapshots = tt

abbrev moved : Store
moved = record new_store { refs = (codes "r", codes "h") ∷ [] }

-- On a store without refs, one ref watched.
abbrev start : Snapshotter
start = record {
  cur = some (record { id = 0; storage = new_store });
  refs = codes "r" ∷ [];
  last_hashes = capture_hashes new_store (codes "r" ∷ []) [];
  grace_close = default_close_grace;
  pending = [];
  opened = 1;
  closed = [];
}

start-Reachable : Reachable start
start-Reachable = started {p = start} new_store (codes "r" ∷ []) (unfold snapshots in refl)

abbrev after_swap : Snapshotter
after_swap = tick (ok moved) 5 6 start

-- The swap retires the first handle, and the ref does not change again.
swapped_once :
    (pending_ids after_swap.pending ≡ 0 ∷ []) × ((tick (ok moved) 7 8 after_swap).closed ≡ 2 ∷ [])
unfolding snapshots
swapped_once = (refl, refl)

handles_accounted_example :
    (places 0 after_swap ≡ (if ltb 0 after_swap.opened then 1 else 0))
    × (count 0 (close after_swap).closed ≡ (if ltb 0 after_swap.opened then 1 else 0))
handles_accounted_example =
    handles_accounted after_swap (ticked (ok moved) 5 6 (omega arith) start-Reachable) 0

tick-Waiting_example :
    Expired after_swap.grace_close 100000000000 after_swap.pending
      (tick (err Error.failed) 100000000000 100000000000 after_swap).closed
    × Waiting after_swap.grace_close 100000000000
        (tick (err Error.failed) 100000000000 100000000000 after_swap).pending
tick-Waiting_example = tick-Waiting (err Error.failed) 100000000000 100000000000 after_swap

snapshot_stays_open_example : count 0 after_swap.closed ≡ 0
snapshot_stays_open_example =
    snapshot_stays_open 0 start after_swap (record { id = 0; storage = new_store }) start-Reachable
      (unfold snapshots in refl)
      (then_tick (ok moved) 5 6 (omega arith) (omega arith) (omega arith) nothing_yet)
