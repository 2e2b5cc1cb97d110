-- ===== src/Mlme/Queue/Safety.antt =====
-- What holds of the shared queue of Module/mlme.c whatever way the contexts interleave.
use rt.Prelude.{ℕ, ◌<◌, ◌≡◌, refl, ap, ◌≢◌, inr, false, some, arith}
use rt.Prelude.Lists.{length, get_or, length-replicate, get_or-replicate}
use rt.Mlme.Queue.{Elem, Queue, blank, entry_at, reserve, queue_init, mlme_get_head}
use rt.Mlme.Queue.Fifo.{Carries, message_at, queue_init-IsRing}
use rt.Mlme.Queue.Steps.{
  Writer, idle, writing, copied, looking, Shared, writer_at, start, Step, reserve_slot,
  copy_message, publish, enter, take_head, leave, free, advance, Reach, here, next,
}
use rt.Mlme.Queue.Invariant.{CellOk, spent, Inv, reserve_inv, phase_bounds}
use rt.Mlme.Queue.Invariant.Reserve.{reserve-Inv}
use rt.Mlme.Queue.Invariant.Write.{copy-Inv, publish-Inv}
use rt.Mlme.Queue.Invariant.Handle.{enter-Inv, take-Inv, leave-Inv, get_head_inv}
use rt.Mlme.Queue.Invariant.Remove.{free-Inv, advance-Inv}

pub start-Inv : Inv start
unfolding start
start-Inv = record {
  ring = queue_init-IsRing;
  places = length-replicate 10 idle;
  counts = unfold queue_init in refl;
  phase = (refl, refl);
  inside = λ j h lo hi. unfold queue_init in absurd (omega arith);
  outside = λ j h o. (
    get_or-replicate 10 j idle,
    unfold queue_init blank in ground (arith, get_or-replicate 10 j blank),
  );
  dispatched = λ k h. absurd (omega arith);
}

pub Step-Inv : {s t : Shared} → Step s t → Inv s → Inv t
Step-Inv (reserve_slot m i q' c e) v = reserve-Inv _ v m i q' c e
Step-Inv (copy_message i m h e) v = copy-Inv _ i m v h e
Step-Inv (publish i m h e) v = publish-Inv _ i m v h e
Step-Inv (enter e) v = enter-Inv _ v e
Step-Inv (take_head i q e o) v = take-Inv _ v i q e o
Step-Inv (leave q n) v = leave-Inv _ v q
Step-Inv (free i q) v = free-Inv _ v i q
Step-Inv (advance i q) v = advance-Inv _ v i q

pub Reach-Inv : {s t : Shared} → Reach s t → Inv s → Inv t
Reach-Inv here v = v
Reach-Inv (next r st) v = Step-Inv st (Reach-Inv r v)

-- From the initialised queue, in every interleaving of enqueues with the handler: each element
-- that the handler dispatched carries the whole message of the reservation of the same number, so
-- messages are dispatched complete, once each and in the order in which their slots were reserved.
pub dispatched_in_order :
    (s : Shared) (k : ℕ)
    → Reach start s
    → k < length s.handled
    → (k < length s.sent) × Carries (get_or s.handled k blank) (message_at s.sent k)
dispatched_in_order s k r h =
    let v : Inv s = Reach-Inv r start-Inv in
    (omega (arith, v.counts, (phase_bounds s.phase s v.phase).1), v.dispatched k h)

-- In every interleaving a reservation is given a slot that no other context is still writing and
-- that holds no message the handler has yet to remove.
pub reserve_fresh :
    (s : Shared) (i : ℕ) (q' : Queue)
    → Reach start s
    → reserve s.queue ≡ some (i, q')
    → (writer_at s i ≡ idle) × ((entry_at s.queue i).occupied ≡ false)
reserve_fresh s i q' r e =
    let v : Inv s = Reach-Inv r start-Inv in
    let inv = reserve_inv s.queue q' i v.ring e in
    v.outside i (omega (arith, inv, v.ring)) (inr (omega (arith, inv, v.ring)))

busy_cell : (w : Writer) (e : Elem) (m : _) → CellOk w e m → e.occupied ≡ false → w ≢ idle
busy_cell idle e m c o = λ p. cc (c.1)
busy_cell (writing x) e m c o = λ p. cc
busy_cell (copied x) e m c o = λ p. cc

-- In every interleaving the handler leaves its loop with messages waiting only if the context that
-- reserved the head slot has still to publish it, so no complete message is left behind the head.
pub bubble_has_writer :
    (s : Shared) (i : ℕ)
    → Reach start s
    → s.phase ≡ looking
    → mlme_get_head s.queue ≡ some i
    → (entry_at s.queue i).occupied ≡ false
    → writer_at s i ≢ idle
bubble_has_writer s i r q e o =
    let v : Inv s = Reach-Inv r start-Inv in
    let at = get_head_inv s.queue i e in
    busy_cell (writer_at s i) (entry_at s.queue i) _
      (v.inside i (omega (arith, at, v.ring)) (omega (arith, ap spent q))
        (omega (arith, at, v.ring)))
      o
