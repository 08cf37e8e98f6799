-- ===== src/Resolve/Snapshot/Grace.antt =====
-- How long a handle that was handed out stays open, and when it is closed.
use zonegit.Base.{
  ℕ, ◌+◌, ◌<◌, ◌≤◌, ◌≡◌, ◌⊎◌, refl, ap, ◌∙◌, arith, false, List, [], ◌∷◌, ◌++◌, Bytes, leb, Option,
  none, some, Result, ok, err, Bool-cases, inl, inr, All, Option-cases, ok_injective,
}
use zonegit.Store.MemStore.{Store}
use zonegit.Resolve.Snapshot.{
  Handle, PendingClose, Snapshotter, set_watched_refs, any_changed, snapshot, sweep, sweep_pending,
  retire, tick, pending_ids, current_ids,
}
use zonegit.Resolve.Snapshot.Handles.{
  count, count-append, InPlace, Reachable, Reachable-InPlace, InPlace-tick, swapped, discarded,
}

-- The handles that wait are within their grace.
abbrev pub Waiting : ℕ → ℕ → List PendingClose → Type 0
Waiting grace now = All (λ pc. now < pc.at + grace)

sweep-Waiting :
    (grace now : ℕ) (pcs : List PendingClose) → Waiting grace now (sweep grace now pcs).0
unfolding sweep
sweep-Waiting grace now [] = tt
sweep-Waiting grace now (pc ∷ pcs) = elim (Bool-cases (leb (pc.at + grace) now)) [
  | inl e ↦ rw e (sweep-Waiting grace now pcs)
  | inr e ↦ rw e (ground (arith, e), sweep-Waiting grace now pcs)
]

-- The handles whose grace has passed are among the closed ones.
abbrev pub Expired : ℕ → ℕ → List PendingClose → List ℕ → Type 0
Expired grace now pcs closed = All (λ pc. pc.at + grace ≤ now → 1 ≤ count pc.handle.id closed) pcs

Expired-more :
    (grace now : ℕ) (pcs : List PendingClose) (js ks : List ℕ)
    → ((i : ℕ) → count i js ≤ count i ks)
    → Expired grace now pcs js
    → Expired grace now pcs ks
Expired-more grace now [] js ks le x = tt
Expired-more grace now (pc ∷ pcs) js ks le x = (
  λ due. let one = x.0 due in omega (arith, one, le pc.handle.id),
  Expired-more grace now pcs js ks le x.1,
)

sweep-Expired :
    (grace now : ℕ) (pcs : List PendingClose) → Expired grace now pcs (sweep grace now pcs).1
unfolding sweep count
sweep-Expired grace now [] = tt
sweep-Expired grace now (pc ∷ pcs) = (
  λ due. ground (arith, due),
  Expired-more grace now pcs (sweep grace now pcs).1 (sweep grace now (pc ∷ pcs)).1
      (λ i. ground arith) (sweep-Expired grace now pcs),
)

sweep-Expired_more :
    (grace now : ℕ) (pcs : List PendingClose) (closed : List ℕ)
    → Expired grace now pcs ((sweep grace now pcs).1 ++ closed)
sweep-Expired_more grace now pcs closed =
    Expired-more grace now pcs (sweep grace now pcs).1 ((sweep grace now pcs).1 ++ closed)
      (λ i. omega (arith, count-append i (sweep grace now pcs).1 closed))
      (sweep-Expired grace now pcs)

Expired-retire :
    (grace now at : ℕ) (cur : Option Handle) (pcs : List PendingClose) (closed : List ℕ)
    → Expired grace now (retire at cur pcs) closed
    → Expired grace now pcs closed
unfolding retire
Expired-retire grace now at none pcs closed x = x
Expired-retire grace now at (some h) [] closed x = tt
Expired-retire grace now at (some h) (pc ∷ pcs) closed x =
    (x.0, Expired-retire grace now at (some h) pcs closed x.1)

-- After a tick, whatever it found, every handle that waited and whose grace has passed is closed, and
-- no handle waits whose grace has passed.
pub tick-Waiting :
    (opening : Result Store) (at now : ℕ) (p : Snapshotter)
    → Expired p.grace_close now p.pending (tick opening at now p).closed
      × Waiting p.grace_close now (tick opening at now p).pending
unfolding tick sweep_pending
tick-Waiting (err e) at now p = (
  sweep-Expired_more p.grace_close now p.pending p.closed,
  sweep-Waiting p.grace_close now p.pending,
)
tick-Waiting (ok s) at now p = elim (Bool-cases (any_changed s p.refs p.last_hashes)) [
  | inl changed ↦ rw changed (
    Expired-retire p.grace_close now at p.cur p.pending _
        (sweep-Expired_more p.grace_close now (retire at p.cur p.pending) p.closed),
    sweep-Waiting p.grace_close now (retire at p.cur p.pending),
  )
  | inr same ↦ rw same (
    sweep-Expired_more p.grace_close now p.pending (p.opened ∷ p.closed),
    sweep-Waiting p.grace_close now p.pending,
  )
]

-- The handle waits, and was retired at the time `since` or later.
abbrev Late : ℕ → ℕ → List PendingClose → Type 0
Late i since [] = ⊥
Late i since (pc ∷ pcs) = ((pc.handle.id ≡ i) × (since ≤ pc.at)) ⊎ Late i since pcs

abbrev IsCurrent : ℕ → Option Handle → Type 0
IsCurrent i none = ⊥
IsCurrent i (some h) = h.id ≡ i

-- The handle is current, or waits since then.
abbrev pub Held : ℕ → ℕ → Snapshotter → Type 0
Held i since p = IsCurrent i p.cur ⊎ Late i since p.pending

Late-sweep :
    (i since grace now : ℕ) (pcs : List PendingClose)
    → now < since + grace
    → Late i since pcs
    → Late i since (sweep grace now pcs).0
unfolding sweep
Late-sweep i since grace now [] soon l = l
Late-sweep i since grace now (pc ∷ pcs) soon (inl (same, late)) =
    let keeps : leb (pc.at + grace) now ≡ false = ground (arith, soon, late) in
    rw keeps (inl (same, late))
Late-sweep i since grace now (pc ∷ pcs) soon (inr l) =
    let rest = Late-sweep i since grace now pcs soon l in
    elim (Bool-cases (leb (pc.at + grace) now)) [ inl e ↦ rw e rest | inr e ↦ rw e (inr rest) ]

Late-retire :
    (i since at : ℕ) (cur : Option Handle) (pcs : List PendingClose)
    → since ≤ at
    → IsCurrent i cur ⊎ Late i since pcs
    → Late i since (retire at cur pcs)
unfolding retire
Late-retire i since at none pcs le (inl held) = absurd held
Late-retire i since at none pcs le (inr l) = l
Late-retire i since at (some old) [] le (inl held) = inl (held, le)
Late-retire i since at (some old) [] le (inr l) = absurd l
Late-retire i since at (some old) (pc ∷ pcs) le (inl held) =
    inr (Late-retire i since at (some old) pcs le (inl held))
Late-retire i since at (some old) (pc ∷ pcs) le (inr (inl late)) = inl late
Late-retire i since at (some old) (pc ∷ pcs) le (inr (inr l)) =
    inr (Late-retire i since at (some old) pcs le (inr l))

Held-sweep_pending :
    (i since now : ℕ) (p : Snapshotter)
    → now < since + p.grace_close
    → Held i since p
    → Held i since (sweep_pending now p)
unfolding sweep_pending
Held-sweep_pending i since now p soon (inl held) = inl held
Held-sweep_pending i since now p soon (inr l) =
    inr (Late-sweep i since p.grace_close now p.pending soon l)

Held-tick :
    (opening : Result Store) (i since at now : ℕ) (p : Snapshotter)
    → since ≤ at
    → now < since + p.grace_close
    → Held i since p
    → Held i since (tick opening at now p)
unfolding tick
Held-tick (err e) i since at now p le soon h = Held-sweep_pending i since now p soon h
Held-tick (ok s) i since at now p le soon h =
    elim (Bool-cases (any_changed s p.refs p.last_hashes)) [
      | inl changed ↦ rw changed (
          Held-sweep_pending i since now (swapped s at p) soon
            (inr (Late-retire i since at p.cur p.pending le h)))
      | inr same ↦ rw same (Held-sweep_pending i since now (discarded s at p) soon h)
    ]

-- What the watcher does from the time `since` on and before `until`.
pub data Runs (since until : ℕ) (p : Snapshotter) : Snapshotter → Type 0 where
  nothing_yet : Runs since until p p
  then_tick :
      {q : Snapshotter} (opening : Result Store) (at now : ℕ)
      → since ≤ at
      → at ≤ now
      → now < until
      → Runs since until p q
      → Runs since until p (tick opening at now q)
  then_watch :
      {q : Snapshotter} (refs : List Bytes)
      → Runs since until p q
      → Runs since until p (set_watched_refs refs q)

tick-grace :
    (opening : Result Store) (at now : ℕ) (p : Snapshotter)
    → (tick opening at now p).grace_close ≡ p.grace_close
unfolding tick sweep_pending
tick-grace (err e) at now p = refl
tick-grace (ok s) at now p = elim (Bool-cases (any_changed s p.refs p.last_hashes)) [
  | inl changed ↦ rw changed refl
  | inr same ↦ rw same refl
]

Runs-keeps :
    (since until i : ℕ) (p q : Snapshotter)
    → Runs since until p q
    → until ≤ since + p.grace_close
    → Held i since p
    → InPlace p
    → Held i since q × InPlace q × (q.grace_close ≡ p.grace_close)
unfolding set_watched_refs
Runs-keeps since until i p _ nothing_yet le h here = (h, here, refl)
Runs-keeps since until i p _ (then_tick {q = q} opening at now a b c run) le h here =
    let (held, in_place, same) = Runs-keeps since until i p q run le h here in
    (
      Held-tick opening i since at now q a (omega (arith, same, c, le)) held,
      InPlace-tick opening at now q in_place,
      tick-grace opening at now q ∙ same,
    )
Runs-keeps since until i p _ (then_watch {q = q} refs run) le h here =
    let (held, in_place, same) = Runs-keeps since until i p q run le h here in
    (held, in_place, same)

Late-count :
    (i since : ℕ) (pcs : List PendingClose) → Late i since pcs → 1 ≤ count i (pending_ids pcs)
unfolding count pending_ids
Late-count i since [] l = absurd l
Late-count i since (pc ∷ pcs) (inl (same, le)) = ground (arith, same)
Late-count i since (pc ∷ pcs) (inr l) = ground (arith, Late-count i since pcs l)

current-count : (i : ℕ) (cur : Option Handle) → IsCurrent i cur → 1 ≤ count i (current_ids cur)
unfolding count current_ids
current-count i none h = absurd h
current-count i (some old) h = ground (arith, h)

Held-open : (i since : ℕ) (p : Snapshotter) → Held i since p → InPlace p → count i p.closed ≡ 0
Held-open i since p (inl h) here = ground (arith, current-count i p.cur h, here i)
Held-open i since p (inr l) here = ground (arith, Late-count i since p.pending l, here i)

snapshot-IsCurrent : (p : Snapshotter) (h : Handle) → snapshot p ≡ ok h → IsCurrent h.id p.cur
unfolding snapshot
snapshot-IsCurrent p h e = elim (Option-cases p.cur) [
  | inl n ↦ absurd (ground (arith, n, e))
  | inr (old, n) ↦ rw n (ap (λ (x : Handle). x.id) (ok_injective (rw n at e)))
]

-- A handle that a query took at a time is not closed by any tick before the grace has passed,
-- however often the refs move and the handles are swapped in between.
pub snapshot_stays_open :
    (since : ℕ) (p q : Snapshotter) (h : Handle)
    → Reachable p
    → snapshot p ≡ ok h
    → Runs since (since + p.grace_close) p q
    → count h.id q.closed ≡ 0
snapshot_stays_open since p q h r e run =
    let held = snapshot-IsCurrent p h e in
    let (held', in_place, _) =
      Runs-keeps since (since + p.grace_close) h.id p q run (omega arith) (inl held)
        (Reachable-InPlace p r) in
    Held-open h.id since q held' in_place
