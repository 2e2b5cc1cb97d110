-- ===== src/Mlme/Queue/Restart.antt =====
-- MlmeRestartStateMachine (Module/mlme.c) empties the queue without waiting for the contexts that
-- have reserved a slot and are still copying into it.
use rt.Prelude.{
  ℕ, ◌<◌, ◌≡◌, refl, sym, ap, inl, inr, true, false, [], arith, ltb, if◌then◌else◌, Bool-cases,
}
use rt.Prelude.Lists.{get_or-set_self}
use mathlib.Core.Path.{subst}
use rt.Mlme.Queue.{Elem, Message, blank, entry_at, mark, drain, set_occupied}
use rt.Mlme.Queue.Drain.{offset, drain-Drained}
use rt.Mlme.Queue.Steps.{
  idle, copied, out, Shared, writer_at, start, Step, Reach, after_publish, publish,
}
use rt.Mlme.Queue.Invariant.{Inv, PhaseOk}
use rt.Mlme.Queue.Safety.{start-Inv, Reach-Inv}

-- The part of the function that concerns the queue. While a handler runs it does nothing. Otherwise
-- it sets `Running`, so that no handler comes in, empties the queue under the lock, and clears the
-- flag at its end; the history begins anew.
pub restart : Shared → Shared
restart s =
    if s.running
    then s
    else record s { queue = drain s.queue.num s.queue; sent = []; handled = []; taken = 0 }

emptied : Shared → Shared
emptied s = record s { queue = drain s.queue.num s.queue; sent = []; handled = []; taken = 0 }

restart-emptied : (s : Shared) → s.running ≡ false → restart s ≡ emptied s
unfolding restart emptied
restart-emptied s h = rw h refl

drained_free :
    (s : Shared)
    → Inv s
    → s.phase ≡ out
    → (j : ℕ) → j < 10
    → (entry_at (drain s.queue.num s.queue) j).occupied ≡ false
drained_free s v q j h = elim (Bool-cases (ltb (offset s.queue j) s.queue.num)) [
  | inl e ↦ ground (arith, after)
  | inr e ↦ ground (arith, after, (v.outside j h (inr (ground arith))).1)
]
  where
    after : entry_at (drain s.queue.num s.queue) j ≡ (
        if ltb (offset s.queue j) s.queue.num
        then set_occupied false (entry_at s.queue j)
        else entry_at s.queue j)
    after = (drain-Drained s.queue.num s.queue v.ring refl).3 j h

-- When no handler runs and every writer has published, a restart gives an empty queue that
-- satisfies the invariant of the shared queue again.
restart-Inv :
    (s : Shared)
    → Reach start s
    → s.phase ≡ out
    → ((j : ℕ) → j < 10 → writer_at s j ≡ idle)
    → Inv (restart s) × ((restart s).queue.num ≡ 0)
unfolding emptied
restart-Inv s r q quiet = rw (restart-emptied s (still (Reach-Inv r start-Inv))) (
    let v : Inv s = Reach-Inv r start-Inv in
    let d = drain-Drained s.queue.num s.queue v.ring refl in
    (
      record {
        ring = d.0;
        places = v.places;
        counts = omega (arith, d.1);
        phase = phase_out v;
        inside = λ j h lo hi. absurd (omega (arith, d.1));
        outside = λ j h o. (quiet j h, drained_free s v q j h);
        dispatched = λ k h. absurd (omega arith);
      },
      d.1,
    ))
  where
    still : Inv s → s.running ≡ false
    still v = (subst (λ p. PhaseOk p s) q v.phase).0

    phase_out :
        Inv s
        → PhaseOk s.phase
            (record s { queue = drain s.queue.num s.queue; sent = []; handled = []; taken = 0 })
    phase_out v =
        subst
          (λ p.
            PhaseOk p
              (record s { queue = drain s.queue.num s.queue; sent = []; handled = []; taken = 0 }))
          (sym q) ((subst (λ p. PhaseOk p s) q v.phase).0, refl)

-- When no handler runs and a context has copied its message and not yet published it, a restart
-- empties the queue, and the late publication, which is then still a step, marks a slot of the empty
-- queue as occupied.
pub restart-publish_stale :
    (s : Shared) (i : ℕ) (m : Message)
    → Reach start s
    → i < 10
    → s.running ≡ false
    → writer_at s i ≡ copied m
    → (t : Shared) × Step (restart s) t × (t.queue.num ≡ 0) × ((entry_at t.queue i).occupied ≡ true)
unfolding emptied mark
restart-publish_stale s i m r h off w = rw (restart-emptied s off) (
    let v : Inv s = Reach-Inv r start-Inv in
    let d = drain-Drained s.queue.num s.queue v.ring refl in
    (
      after_publish (emptied s) i,
      publish i m h w,
      d.1,
      ap (λ (x : Elem). x.occupied)
          (get_or-set_self (drain s.queue.num s.queue).entry i _ blank (omega (arith, d.0))),
    ))
